-- ===== src/Server/Hub/Safety.antt =====
-- No interleaving of the hub's methods sends on a closed channel or closes one twice.
use mcpwatch.Base.{
  lengths, ◌>>=◌, ℕ, ◌≤◌, ◌<◌, ◌≡◌, refl, sym, ap, ◌∙◌, inl, inr, true, false, Bool-cases, Option,
  none, some, some_inj, List, [], ◌∷◌, ◌++◌, Bytes, length, All, ltb, ◌==◌, if◌then◌else◌, arith,
}
use mcpwatch.Server.Hub.{
  Hub, new_hub, member, delete, finish, set_channel, register, close_channel, unregister, offer,
  offer_all, broadcast, receive, Action, accepts, reader_fails, pump_takes, pump_stops, broadcasts,
  spawned_runs, step, run, send_capacity,
}

abbrev pub IsOpen : Hub → ℕ → Type 0
IsOpen h c = ((h.channels c).closed ≡ false) × (c < h.next_client)

abbrev pub Distinct : List ℕ → Type 0
Distinct [] = Unit
Distinct (c ∷ cs) = (member c cs ≡ false) × Distinct cs

-- A key stands in the map once and its channel is open.
pub record IsSound (h : Hub) : Type 0 where
  pub distinct : Distinct h.clients
  pub opened : (c : ℕ) → member c h.clients ≡ true → IsOpen h c
  pub bounded : (c : ℕ) → length (h.channels c).queue ≤ send_capacity

abbrev pub Sound : Option Hub → Type 0
Sound none = ⊥
Sound (some h) = IsSound h

pub member-delete :
    (c d : ℕ) (cs : List ℕ) → member c (delete d cs) ≡ (if d == c then false else member c cs)
unfolding member delete
member-delete c d [] = ground arith
member-delete c d (x ∷ cs) = ground (arith, member-delete c d cs)

pub Distinct-delete : (c : ℕ) (cs : List ℕ) → Distinct cs → Distinct (delete c cs)
unfolding delete
Distinct-delete c [] d = tt
Distinct-delete c (x ∷ cs) d = ground (arith, Distinct-delete c cs d.1, member-delete x c cs)

pub register-IsSound : (h : Hub) → IsSound h → IsSound (register h).0
unfolding register member
register-IsSound h v = record {
  distinct = (ground (arith, v.opened h.next_client), v.distinct);
  opened = λ c m. ground (arith, v.opened c);
  bounded = λ c. ground (arith, v.bounded c);
}

-- The hub after a registered client was removed and its channel closed.
abbrev pub removed : ℕ → Hub → Hub
removed c h = record h {
  clients = delete c h.clients;
  channels = set_channel c (record (h.channels c) { closed = true }) h.channels;
}

pub unregister_registered :
    (c : ℕ) (h : Hub)
    → member c h.clients ≡ true
    → (h.channels c).closed ≡ false
    → unregister c h ≡ some (removed c h)
unfolding unregister close_channel
unregister_registered c h m o = ground arith

pub unregister_unknown : (c : ℕ) (h : Hub) → member c h.clients ≡ false → unregister c h ≡ some h
unfolding unregister
unregister_unknown c h m = rw m

pub removed-IsSound : (c : ℕ) (h : Hub) → IsSound h → IsSound (removed c h)
unfolding set_channel
removed-IsSound c h v = record {
  distinct = Distinct-delete c h.clients v.distinct;
  opened = λ d m. ground (arith, v.opened d, member-delete d c h.clients);
  bounded = λ d. ground (arith, v.bounded d, v.bounded c);
}

unregister-Sound : (c : ℕ) (h : Hub) → IsSound h → Sound (unregister c h)
unregister-Sound c h v = elim (Bool-cases (member c h.clients)) [
  | inl e ↦ rw (unregister_registered c h e (v.opened c e).0) (removed-IsSound c h v)
  | inr e ↦ rw (unregister_unknown c h e) v
]

-- The hub after a client was offered a payload: it is queued, or the client is to be removed.
abbrev pub offered : Bytes → ℕ → Hub → Hub
offered p c h =
    if ltb (length (h.channels c).queue) send_capacity
    then record h {
      channels =
          set_channel c (record (h.channels c) { queue = (h.channels c).queue ++ p ∷ [] })
            h.channels;
    }
    else record h { spawned = c ∷ h.spawned }

pub offer_open :
    (p : Bytes) (c : ℕ) (h : Hub)
    → (h.channels c).closed ≡ false
    → offer p c h ≡ some (offered p c h)
unfolding offer
offer_open p c h o = ground arith

pub offered_keeps : (p : Bytes) (c : ℕ) (h : Hub) → (offered p c h).clients ≡ h.clients
offered_keeps p c h = ground arith

pub offered-IsSound : (p : Bytes) (c : ℕ) (h : Hub) → IsSound h → IsSound (offered p c h)
unfolding set_channel
offered-IsSound p c h v = record {
  distinct = rw (offered_keeps p c h) v.distinct;
  opened = λ d m. ground (arith, v.opened d);
  bounded = λ d. grind (lengths, v.bounded d, v.bounded c);
}

-- Every key of the rest of the loop is still in the map, since the lock is held.
abbrev pub Registered : Hub → List ℕ → Type 0
Registered h = All (λ c. member c h.clients ≡ true)

pub Registered-offered :
    (p : Bytes) (c : ℕ) (h : Hub) (cs : List ℕ) → Registered h cs → Registered (offered p c h) cs
Registered-offered p c h [] r = tt
Registered-offered p c h (d ∷ cs) r =
    (ap (member d) (offered_keeps p c h) ∙ r.0, Registered-offered p c h cs r.1)

offer_all-Sound :
    (p : Bytes) (cs : List ℕ) (h : Hub) → Registered h cs → IsSound h → Sound (offer_all p cs h)
unfolding offer_all
offer_all-Sound p [] h r v = v
offer_all-Sound p (c ∷ cs) h r v =
    let open' = offer_open p c h (v.opened c r.0).0 in
    let kept = offered-IsSound p c h v in
    rw (ap (λ o. o >>= offer_all p cs) open')
      (offer_all-Sound p cs (offered p c h) (Registered-offered p c h cs r.1) kept)

Registered-cons :
    (h : Hub) (d : ℕ) (ds cs : List ℕ)
    → h.clients ≡ d ∷ ds
    → Registered (record h { clients = ds }) cs
    → Registered h cs
unfolding member
Registered-cons h d ds [] e r = tt
Registered-cons h d ds (c ∷ cs) e r = (ground arith, Registered-cons h d ds cs e r.1)

pub Registered-self : (h : Hub) (cs : List ℕ) → h.clients ≡ cs → Registered h cs
unfolding member
Registered-self h [] e = tt
Registered-self h (c ∷ cs) e = (
  ground arith,
  Registered-cons h c cs cs e (Registered-self (record h { clients = cs }) cs refl),
)

pub broadcast-Sound : (p : Option Bytes) (h : Hub) → IsSound h → Sound (broadcast p h)
unfolding broadcast
broadcast-Sound none h v = v
broadcast-Sound (some p) h v = offer_all-Sound p h.clients h (Registered-self h h.clients refl) v

receive_shorter : (q : List Bytes) → length (receive q) ≤ length q
unfolding receive
receive_shorter [] = omega arith
receive_shorter (p ∷ q) = omega arith

takes-IsSound : (c : ℕ) (h : Hub) → IsSound h → Sound (step (pump_takes c) h)
unfolding step
takes-IsSound c h v = record {
  distinct = v.distinct;
  opened = λ d m. ground (arith, v.opened d);
  bounded = λ d. ground (arith, v.bounded d, v.bounded c, receive_shorter (h.channels c).queue);
}

pub step-Sound : (a : Action) (h : Hub) → IsSound h → Sound (step a h)
unfolding step
step-Sound accepts h v = register-IsSound h v
step-Sound (reader_fails c) h v = unregister-Sound c h v
step-Sound (pump_takes c) h v = takes-IsSound c h v
step-Sound (pump_stops c) h v = unregister-Sound c h v
step-Sound (broadcasts p) h v = broadcast-Sound p h v
step-Sound (spawned_runs c) h v =
    unregister-Sound c (record h { spawned = finish c h.spawned })
      (record { distinct = v.distinct; opened = v.opened; bounded = v.bounded })

Sound-IsSound : (o : Option Hub) (k : Hub) → Sound o → o ≡ some k → IsSound k
Sound-IsSound none k v e = absurd v
Sound-IsSound (some h) k v e = rw (sym (some_inj h k e)) v

pub step-IsSound : (a : Action) (h k : Hub) → IsSound h → step a h ≡ some k → IsSound k
step-IsSound a h k v e = Sound-IsSound (step a h) k (step-Sound a h v) e

Sound-bind :
    (o : Option Hub) (f : Hub → Option Hub)
    → Sound o
    → ((h : Hub) → IsSound h → Sound (f h))
    → Sound (o >>= f)
Sound-bind (some h) f s k = k h s
Sound-bind none f s k = s

run-Sound : (as' : List Action) (h : Hub) → IsSound h → Sound (run as' h)
unfolding run
run-Sound [] h v = v
run-Sound (a ∷ as') h v = Sound-bind (step a h) (run as') (step-Sound a h v) (run-Sound as')

pub new_hub-IsSound : IsSound new_hub
unfolding member
new_hub-IsSound = record { distinct = tt; opened = λ c m. cc; bounded = λ c. omega arith }

-- From a new hub on, no order of registrations, removals, broadcasts and pump steps panics. Every
-- client in the map has an open channel, and no channel holds more than its capacity.
pub run-new_hub : (as' : List Action) → Sound (run as' new_hub)
run-new_hub as' = run-Sound as' new_hub new_hub-IsSound
