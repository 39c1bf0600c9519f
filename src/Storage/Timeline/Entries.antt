-- ===== src/Storage/Timeline/Entries.antt =====
-- internal/storage/badger.go: the entries of the database that stand for a timeline.
use mcpwatch.Base.{
  ℕ, ◌+◌, ◌-◌, ◌^◌, ◌≤◌, ◌<◌, ◌≡◌, refl, sym, ap, ◌∙◌, Bool-cases, inl, inr, Option, some, List, [],
  ◌∷◌, Bytes, has_prefix, ltb, ◌==◌, ◌&&◌, ◌||◌, if◌then◌else◌, arith,
}
use mcpwatch.Base.Int.{pos, wrap64}
use mcpwatch.Engine.Message.{Message}
use mcpwatch.Storage.Key.{unix_epoch, unix_nano, message_key}
use mcpwatch.Storage.Key.Order.{before, Earlier, InRange, message_key-before}
use mcpwatch.Storage.Flush.{Badger}
use mcpwatch.Storage.Query.Order.{decoded}
use mcpwatch.Storage.Timeline.{precedes, place}

-- What a key that is set does to entries in the order of their keys.
unfoldable pub put : Bytes → Bytes → List (Bytes × Bytes) → List (Bytes × Bytes)
put k v [] = (k, v) ∷ []
put k v ((j, w) ∷ es) =
    let rest = put k v es in
    if before j k then (j, w) ∷ rest else if before k j then (k, v) ∷ (j, w) ∷ es else (k, v) ∷ es

-- What BadgerDB says of its iterators, as long as no time to live ends: they go through the entries
-- in the order of the keys, of which each is there once.
pub record Iterates (b : Badger) : Type 0 where
  pub pairs-set :
      (p k v : Bytes) (d d' : b.D)
      → b.set k v d ≡ some d'
      → b.pairs p d' ≡ (if has_prefix p k then put k v (b.pairs p d) else b.pairs p d)
  pub pairs-set_entry :
      (hours : ℕ) (p k v : Bytes) (d d' : b.D)
      → b.set_entry hours k v d ≡ some d'
      → b.pairs p d' ≡ (if has_prefix p k then put k v (b.pairs p d) else b.pairs p d)
  pub pairs-drop_all : (p : Bytes) (d d' : b.D) → b.drop_all d ≡ some d' → b.pairs p d' ≡ []

-- Times that an int64 of nanoseconds since 1970 holds.
abbrev pub IsDated : Message → Type 0
IsDated m = (unix_epoch ≤ m.timestamp) × (m.timestamp < unix_epoch + 2 ^ 63)

-- What the key of a message can hold.
abbrev pub HasKey : Message → Type 0
HasKey m = IsDated m × (m.id < 10 ^ 6)

abbrev pub key_of : Message → Bytes
key_of m = message_key (unix_nano m.timestamp) m.id

unix_nano-pos :
    (t : ℕ) → unix_epoch ≤ t → t < unix_epoch + 2 ^ 63 → unix_nano t ≡ pos (t - unix_epoch)
unfolding wrap64
unix_nano-pos t h k = ground (arith, h, k)

before-message_key :
    (t i u j : ℕ)
    → InRange t i
    → InRange u j
    → before (message_key (pos t) i) (message_key (pos u) j) ≡ (ltb t u || (t == u && ltb i j))
before-message_key t i u j h k =
    let (to, from) = message_key-before t i u j h k in
    elim (Bool-cases (before (message_key (pos t) i) (message_key (pos u) j))) [
      | inl e ↦ let earlier = to e in e ∙ ground (arith, earlier)
      | inr e ↦ e ∙ (elim (Bool-cases (ltb t u || (t == u && ltb i j))) [
        | inr g ↦ sym g
        | inl g ↦
            let earlier : Earlier t i u j = ground (arith, g) in
            let both = from earlier in absurd (cc)
      ])
    ]

before-key_of : (m n : Message) → HasKey m → HasKey n → before (key_of m) (key_of n) ≡ precedes m n
unfolding precedes
before-key_of m n h k =
    rw (unix_nano-pos m.timestamp h.0.0 h.0.1, unix_nano-pos n.timestamp k.0.0 k.0.1)
      (before-message_key _ m.id _ n.id (omega (arith, h.0), h.1) (omega (arith, k.0), k.1)
        ∙ ground (arith, h.0, k.0))

module _ (decode : Bytes → Option Message) where
  -- The entries have the keys of the messages, in their order, and are read back as the messages.
  abbrev pub Files : List Message → List (Bytes × Bytes) → Type 0
  Files [] [] = Unit
  Files (m ∷ ms) ((k, v) ∷ es) = (HasKey m × (k ≡ key_of m) × (decode v ≡ some m)) × Files ms es
  Files _ _ = ⊥

  pub decoded-Files :
      (ms : List Message) (es : List (Bytes × Bytes)) → Files ms es → decoded decode es ≡ ms
  decoded-Files [] [] f = refl
  decoded-Files [] (e ∷ es) f = absurd f
  decoded-Files (m ∷ ms) [] f = absurd f
  decoded-Files (m ∷ ms) ((k, v) ∷ es) ((h, e, d), f) =
      rw (d, decoded) (ap (◌∷◌ m) (decoded-Files ms es f))

  pub put-Files :
      (m : Message) (v : Bytes) (ms : List Message) (es : List (Bytes × Bytes))
      → HasKey m
      → decode v ≡ some m
      → Files ms es
      → Files (place m ms) (put (key_of m) v es)
  unfolding place put
  put-Files m v [] [] h d f = ((h, refl, d), f)
  put-Files m v [] (e ∷ es) h d f = absurd f
  put-Files m v (x ∷ xs) [] h d f = absurd f
  put-Files m v (x ∷ xs) ((k, w) ∷ es) h d ((hx, ex, dx), f) =
      let front = ap (λ y. before y (key_of m)) ex ∙ before-key_of x m hx h in
      let behind = ap (before (key_of m)) ex ∙ before-key_of m x h hx in
      elim (Bool-cases (precedes x m)) [
        | inl e ↦ rw (front, e) ((hx, ex, dx), put-Files m v xs es h d f)
        | inr e ↦ elim (Bool-cases (precedes m x)) [
          | inl g ↦ rw (front, behind, e, g) ((h, refl, d), ((hx, ex, dx), f))
          | inr g ↦ rw (front, behind, e, g) ((h, refl, d), f)
        ]
      ]
