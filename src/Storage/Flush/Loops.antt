-- ===== src/Storage/Flush/Loops.antt =====
-- internal/storage/badger.go: what the loop of `flush` can be.
use mcpwatch.Base.{
  ◌≢◌, ◌>>=◌, sym, ◌∙◌, none, some, Option, Option-cases, Bytes, ◌≡◌, ◌⊎◌, inl, inr, refl, ap, ℕ,
  List, [], ◌∷◌,
}
use mcpwatch.Base.Float.{Float64}
use mcpwatch.Engine.Message.{Message}
use mcpwatch.Storage.Key.{message_key, unix_nano}
use mcpwatch.Storage.Flush.{
  Badger, Accepts, Coding, Flushing, Loop, going, broken, with_id, next_id, counted, put_message,
  flush_loop, end_flush,
}

module _ (fl : Float64) (b : Badger) (coding : Coding fl) where
  pub flush_loop-broken :
      (ms : List Message) (c : ℕ) → flush_loop fl b coding ms (broken c) ≡ broken c
  unfolding flush_loop
  flush_loop-broken [] c = refl
  flush_loop-broken (m ∷ ms) c = refl

  pub going_inj : (f g : Flushing fl b coding) → going f ≡ going g → f ≡ g
  going_inj f g e = ap (λ l. elim l [ going x ↦ x | broken c ↦ f ]) e

  pub Loop-cases :
      (l : Loop fl b coding)
      → ((c : ℕ) × (l ≡ broken c)) ⊎ ((g : Flushing fl b coding) × (l ≡ going g))
  Loop-cases (broken c) = inl (c, refl)
  Loop-cases (going g) = inr (g, refl)

  -- What a database that refuses no call does.
  pub set_commit-ne-none :
      (k v : Bytes) (view db : b.D)
      → Accepts b
      → (do view' ← b.set k v view; b.commit db view') ≢ none
  set_commit-ne-none k v view db a e = elim (Option-cases (b.set k v view)) [
    | inl q ↦ a.sets k v view q
    | inr (view', q) ↦ a.commits db view' (ap (λ o. o >>= b.commit db) (sym q) ∙ e)
  ]

  pub end_flush-ne-none :
      (f : Flushing fl b coding) (db : b.D) → Accepts b → end_flush fl b coding (going f) db ≢ none
  unfolding end_flush
  end_flush-ne-none f db a e = set_commit-ne-none _ _ f.view db a e

  put_message-going :
      (m : Message) (o : Option Bytes) (f : Flushing fl b coding)
      → Accepts b
      → (g : Flushing fl b coding) × (put_message fl b coding m o f ≡ going g)
  unfolding put_message counted
  put_message-going m none f a = (_, refl)
  put_message-going m (some v) f a =
      let key = message_key (unix_nano m.timestamp) (next_id fl b coding f.counter) in
      elim (Option-cases (b.set_entry 24 key v f.view)) [
        | inl q ↦ absurd (a.set_entries 24 key v f.view q)
        | inr (view, q) ↦ (_, ap (counted fl b coding m f) q)
      ]

  pub flush_loop-going :
      (ms : List Message) (f : Flushing fl b coding)
      → Accepts b
      → (g : Flushing fl b coding) × (flush_loop fl b coding ms (going f) ≡ going g)
  unfolding flush_loop
  flush_loop-going [] f a = (f, refl)
  flush_loop-going (m ∷ ms) f a =
      let bytes = coding.message_bytes (with_id fl b coding (next_id fl b coding f.counter) m) in
      let (g, e) = put_message-going m bytes f a in
      let (h, e') = flush_loop-going ms g a in (h, ap (flush_loop fl b coding ms) e ∙ e')

  pub flush_loop-ne-broken :
      (ms : List Message) (f : Flushing fl b coding) (c : ℕ)
      → Accepts b
      → flush_loop fl b coding ms (going f) ≢ broken c
  flush_loop-ne-broken ms f c a e =
      let (g, e') = flush_loop-going ms f a in let apart = sym e ∙ e' in cc
