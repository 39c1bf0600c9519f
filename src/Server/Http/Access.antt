-- ===== src/Server/Http/Access.antt =====
-- Who may see and clear what.
use mcpwatch.Base.{
  ◌∙◌, ◌≡◌, ◌≢◌, ◌⊎◌, inl, inr, refl, ap, true, Bool-cases, not, ◌&&◌, Bytes, codes, [], eq_bytes,
  eq_bytes_iff, arith, ℕ,
}
use mcpwatch.Storage.Api.{StoreApi}
use mcpwatch.Server.Http.{
  Server, Request, Handler, health, websocket, interactions, stats, export_json, export_csv, clear,
  metrics, moved, files, route, is_guarded, admits, handle, handle_clear, serve,
}

-- Both credentials are set.
abbrev pub Protected : Server → Type 0
Protected s = (s.auth_username ≢ []) × (s.auth_password ≢ [])

module _ {Statistics : Type 0} (api : StoreApi Statistics) (format : ℕ → Bytes) where
  open api use {S}

  -- An admitted POST to the path for clearing the store.
  abbrev pub Clears : Server → Request → Type 0
  Clears s r = (route r.verb r.path ≡ clear) × (r.verb ≡ codes "POST") × (admits s r ≡ true)

  handle_other :
      (h : Handler) (r : Request) (st : S) → h ≢ clear → (handle api format h r st).1 ≡ st
  unfolding handle
  handle_other health r st ne = refl
  handle_other websocket r st ne = refl
  handle_other interactions r st ne = refl
  handle_other stats r st ne = refl
  handle_other export_json r st ne = refl
  handle_other export_csv r st ne = refl
  handle_other clear r st ne = absurd (ne refl)
  handle_other metrics r st ne = refl
  handle_other moved r st ne = refl
  handle_other files r st ne = refl

  handle-clear-store :
      (r : Request) (st : S)
      → ((r.verb ≢ codes "POST") × ((handle api format clear r st).1 ≡ st))
        ⊎ ((r.verb ≡ codes "POST") × ((handle api format clear r st).1 ≡ (api.reset st).0))
  unfolding handle handle_clear
  handle-clear-store r st = elim (Bool-cases (eq_bytes r.verb (codes "POST"))) [
    | inl post ↦ inr ((eq_bytes_iff r.verb (codes "POST")).0 post, ground arith)
    | inr other ↦ inl (ground (arith, eq_bytes_iff r.verb (codes "POST")), ground arith)
  ]

  is_clear-cases : (h : Handler) → (h ≡ clear) ⊎ (h ≢ clear)
  is_clear-cases health = inr (λ e. cc)
  is_clear-cases websocket = inr (λ e. cc)
  is_clear-cases interactions = inr (λ e. cc)
  is_clear-cases stats = inr (λ e. cc)
  is_clear-cases export_json = inr (λ e. cc)
  is_clear-cases export_csv = inr (λ e. cc)
  is_clear-cases clear = inl refl
  is_clear-cases metrics = inr (λ e. cc)
  is_clear-cases moved = inr (λ e. cc)
  is_clear-cases files = inr (λ e. cc)

  clear_guarded : (h : Handler) → h ≡ clear → is_guarded h ≡ true
  clear_guarded h e = ap is_guarded e

  -- A request resets the store if it is an admitted POST to the path for clearing it, and leaves it
  -- as it is otherwise.
  pub serve-store :
      (s : Server) (r : Request) (st : S)
      → ((Clears s r → ⊥) × ((serve api format s r st).1 ≡ st))
        ⊎ (Clears s r × ((serve api format s r st).1 ≡ (api.reset st).0))
  unfolding serve
  serve-store s r st =
      let h = route r.verb r.path in
      elim (Bool-cases (is_guarded h && not (admits s r))) [
        | inl stopped ↦ rw stopped (inl (λ c. ground (arith, c.2), refl))
        | inr through ↦ rw through (elim (is_clear-cases h) [
          | inr ne ↦ inl (λ c. ne c.0, handle_other h r st ne)
          | inl e ↦ elim (handle-clear-store r st) [
            | inl (other, same) ↦
                inl (λ c. other c.1, ap (λ x. (handle api format x r st).1) e ∙ same)
            | inr (post, done) ↦ inr (
              (e, post, ground (arith, clear_guarded h e)),
              ap (λ x. (handle api format x r st).1) e ∙ done,
            )
          ]
        ])
      ]
