-- ===== src/Server/Websocket/Closes.antt =====
-- What a connection of the dashboard leaves in the hub.
use mcpwatch.Base.{
  ◌>>=◌, ℕ, ◌≡◌, refl, ap, ◌∙◌, inl, inr, Bool, true, false, Bool-cases, some, List, [], ◌∷◌, ◌++◌,
  All, ◌==◌, arith,
}
use mcpwatch.Server.Hub.{
  Hub, member, delete, set_channel, register, unregister, accepts, reader_fails, step, run,
}
use mcpwatch.Server.Hub.Safety.{IsSound, removed, unregister_registered}
use mcpwatch.Server.Websocket.{read_loop, handle_websocket}

read_loop-fails :
    (c : ℕ) (reads more : List Bool)
    → All (λ b. b ≡ true) reads
    → read_loop c (reads ++ false ∷ more) ≡ reader_fails c ∷ []
unfolding read_loop
read_loop-fails c [] more h = refl
read_loop-fails c (true ∷ reads) more h = read_loop-fails c reads more h.1
read_loop-fails c (false ∷ reads) more h = absurd (ground arith)

delete-unknown : (c : ℕ) (cs : List ℕ) → member c cs ≡ false → delete c cs ≡ cs
unfolding member delete
delete-unknown c [] m = refl
delete-unknown c (d ∷ cs) m = elim (Bool-cases (d == c)) [
  | inl same ↦ absurd (ground arith)
  | inr other ↦ rw other (ap (◌∷◌ d) (delete-unknown c cs (ground arith)))
]

fresh-unknown : (h : Hub) → IsSound h → member h.next_client h.clients ≡ false
fresh-unknown h v = elim (Bool-cases (member h.next_client h.clients)) [
  | inl known ↦ absurd (omega (arith, (v.opened h.next_client known).1))
  | inr unknown ↦ unknown
]

leaves :
    (h : Hub)
    → IsSound h
    → let c = h.next_client in
      let h' = removed c (register h).0 in
      (unregister c (register h).0 ≡ some h')
      × (h'.clients ≡ h.clients)
      × ((h'.channels c).closed ≡ true)
unfolding register member delete set_channel
leaves h v =
    let c = h.next_client in
    let same : (c == c) ≡ true = ground arith in
    (
      unregister_registered c (register h).0 (ground arith) (ground arith),
      rw same (delete-unknown c h.clients (fresh-unknown h v)),
      ground arith,
    )

-- A websocket that is accepted and whose reads go well until one fails is registered and
-- unregistered: the hub's clients are those of before, and its channel is closed, which ends its
-- pump.
handle_websocket-closes :
    (h : Hub) (reads more : List Bool)
    → IsSound h
    → All (λ b. b ≡ true) reads
    → (h' : Hub) × (run (handle_websocket true h.next_client (reads ++ false ∷ more)) h ≡ some h')
      × (h'.clients ≡ h.clients)
      × ((h'.channels h.next_client).closed ≡ true)
unfolding handle_websocket run step
handle_websocket-closes h reads more v good =
    let c = h.next_client in
    let (left, clients, closed) = leaves h v in
    (
      removed c (register h).0,
      ap (λ actions. run (accepts ∷ actions) h) (read_loop-fails c reads more good)
          ∙ ap (λ o. o >>= λ x. some x) left,
      clients,
      closed,
    )
