-- ===== src/Server/Hub/Delivery.antt =====
-- Who receives a broadcast.
use mcpwatch.Base.{
  ◌>>=◌, ℕ, ◌+◌, Bool, not, ltb, ◌&&◌, count, if◌then◌else◌, ◌≤◌, ◌<◌, ◌≡◌, ◌≢◌, refl, sym, ap, ◌∙◌,
  inl, inr, true, false, Bool-cases, some, List, [], ◌∷◌, ◌++◌, Bytes, length, ◌==◌, arith,
}
use mcpwatch.Server.Hub.{Hub, member, set_channel, offer_all, broadcast, send_capacity}
use mcpwatch.Server.Hub.Safety.{
  IsSound, Distinct, offered, offer_open, offered_keeps, offered-IsSound, Registered,
  Registered-offered, Registered-self,
}

abbrev pub delivered : Bytes → List ℕ → Hub → Hub
delivered p [] h = h
delivered p (c ∷ cs) h = delivered p cs (offered p c h)

pub offer_all-delivered :
    (p : Bytes) (cs : List ℕ) (h : Hub)
    → Registered h cs
    → IsSound h
    → offer_all p cs h ≡ some (delivered p cs h)
unfolding offer_all
offer_all-delivered p [] h r v = refl
offer_all-delivered p (c ∷ cs) h r v =
    ap (λ o. o >>= offer_all p cs) (offer_open p c h (v.opened c r.0).0)
    ∙ offer_all-delivered p cs (offered p c h) (Registered-offered p c h cs r.1)
        (offered-IsSound p c h v)

pub channels-offered_ne :
    (p : Bytes) (c d : ℕ) (h : Hub) → c ≢ d → (offered p c h).channels d ≡ h.channels d
unfolding set_channel
channels-offered_ne p c d h ne = ground arith

pub channels-delivered_other :
    (p : Bytes) (d : ℕ) (cs : List ℕ) (h : Hub)
    → member d cs ≡ false
    → (delivered p cs h).channels d ≡ h.channels d
unfolding member
channels-delivered_other p d [] h m = refl
channels-delivered_other p d (c ∷ cs) h m =
    channels-delivered_other p d cs (offered p c h) (ground arith)
    ∙ channels-offered_ne p c d h (ground arith)

channels-offered_twice :
    (p : Bytes) (c d : ℕ) (h : Hub)
    → c ≢ d
    → (offered p d (offered p c h)).channels d ≡ (offered p d h).channels d
unfolding set_channel
channels-offered_twice p c d h ne = ground arith

pub channels-delivered :
    (p : Bytes) (d : ℕ) (cs : List ℕ) (h : Hub)
    → Distinct cs
    → member d cs ≡ true
    → (delivered p cs h).channels d ≡ (offered p d h).channels d
unfolding member
channels-delivered p d [] h u m = cc
channels-delivered p d (c ∷ cs) h u m = elim (Bool-cases (c == d)) [
  | inl same ↦
      let e : c ≡ d = ground arith in
      channels-delivered_other p d cs (offered p c h) (ap (λ x. member x cs) (sym e) ∙ u.0)
      ∙ ap (λ x. (offered p x h).channels d) e
  | inr other ↦
      channels-delivered p d cs (offered p c h) u.1 (ground arith)
      ∙ channels-offered_twice p c d h (ground arith)
]

-- How many goroutines are to remove a client.
abbrev pub times : ℕ → List ℕ → ℕ
times c ds = count (λ d. d == c) ds

-- The channel of a client is full.
abbrev pub is_full : ℕ → Hub → Bool
is_full d h = not (ltb (length (h.channels d).queue) send_capacity)

pub times-offered :
    (p : Bytes) (c d : ℕ) (h : Hub)
    → times d (offered p c h).spawned ≡ times d h.spawned + (if c == d && is_full d h then 1 else 0)
times-offered p c d h = elim (Bool-cases (c == d)) [
  | inl e ↦ let same : c ≡ d = ground arith in rw (same) (ground arith)
  | inr e ↦ ground arith
]

pub times-delivered :
    (p : Bytes) (d : ℕ) (cs : List ℕ) (h : Hub)
    → Distinct cs
    → times d (delivered p cs h).spawned
      ≡ times d h.spawned + (if member d cs && is_full d h then 1 else 0)
unfolding member
times-delivered p d [] h u = omega arith
times-delivered p d (c ∷ cs) h u = elim (Bool-cases (c == d)) [
  | inl e ↦
      let same : c ≡ d = ground arith in
      let missing : member d cs ≡ false = ap (λ x. member x cs) (sym same) ∙ u.0 in
      ground (arith, times-delivered p d cs (offered p c h) u.1, times-offered p c d h, missing)
  | inr e ↦
      let kept = ap (λ ch. length ch.queue) (channels-offered_ne p c d h (ground arith)) in
      ground (arith, times-delivered p d cs (offered p c h) u.1, times-offered p c d h, kept)
]

pub next-delivered :
    (p : Bytes) (cs : List ℕ) (h : Hub) → (delivered p cs h).next_client ≡ h.next_client
next-delivered p [] h = refl
next-delivered p (c ∷ cs) h = next-delivered p cs (offered p c h) ∙ ground arith

pub clients-delivered : (p : Bytes) (cs : List ℕ) (h : Hub) → (delivered p cs h).clients ≡ h.clients
clients-delivered p [] h = refl
clients-delivered p (c ∷ cs) h = clients-delivered p cs (offered p c h) ∙ offered_keeps p c h

-- What a broadcast of `p` does to client `d` between the hubs `h` and `h'`: its channel, and how
-- often its removal is scheduled.
pub record Receives (p : Bytes) (h h' : Hub) (d : ℕ) : Type 0 where
  pub with_room :
      member d h.clients ≡ true
      → length (h.channels d).queue < send_capacity
      → (h'.channels d ≡ record (h.channels d) { queue = (h.channels d).queue ++ p ∷ [] })
        × (times d h'.spawned ≡ times d h.spawned)
  pub when_full :
      member d h.clients ≡ true
      → send_capacity ≤ length (h.channels d).queue
      → (h'.channels d ≡ h.channels d) × (times d h'.spawned ≡ times d h.spawned + 1)
  pub unknown :
      member d h.clients ≡ false
      → (h'.channels d ≡ h.channels d) × (times d h'.spawned ≡ times d h.spawned)

offered_room :
    (p : Bytes) (d : ℕ) (h : Hub)
    → length (h.channels d).queue < send_capacity
    → (offered p d h).channels d ≡ record (h.channels d) { queue = (h.channels d).queue ++ p ∷ [] }
unfolding set_channel
offered_room p d h room = ground arith

offered_stays :
    (p : Bytes) (d : ℕ) (h : Hub)
    → send_capacity ≤ length (h.channels d).queue
    → (offered p d h).channels d ≡ h.channels d
offered_stays p d h full = ground arith

-- On a sound hub a broadcast reaches every client of the map whose channel has room exactly once,
-- behind what it was sent before; a client whose channel is full gets nothing, and one more removal
-- of it is scheduled. No other channel changes and no other removal is scheduled, and the map and the
-- next client's number stay as they were.
pub broadcast-Receives :
    (p : Bytes) (h : Hub)
    → IsSound h
    → (h' : Hub) × (broadcast (some p) h ≡ some h')
      × (h'.clients ≡ h.clients)
      × (h'.next_client ≡ h.next_client)
      × ((d : ℕ) → Receives p h h' d)
unfolding broadcast
broadcast-Receives p h v = (
  delivered p h.clients h,
  offer_all-delivered p h.clients h (Registered-self h h.clients refl) v,
  clients-delivered p h.clients h,
  next-delivered p h.clients h,
  λ d.
      let counted = times-delivered p d h.clients h v.distinct in
      record {
        with_room = λ m room. (
          channels-delivered p d h.clients h v.distinct m ∙ offered_room p d h room,
          ground (arith, counted, m),
        );
        when_full = λ m full. (
          channels-delivered p d h.clients h v.distinct m ∙ offered_stays p d h full,
          ground (arith, counted, m),
        );
        unknown = λ m. (channels-delivered_other p d h.clients h m, ground (arith, counted, m));
      },
)
