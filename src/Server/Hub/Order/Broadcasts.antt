-- ===== src/Server/Hub/Order/Broadcasts.antt =====
-- A broadcast to the clients in two orders.
use mcpwatch.Base.{
  ℕ, ◌+◌, ◌≡◌, refl, sym, ap, ◌∙◌, inl, inr, true, ◌&&◌, not, Bool-cases, [], ◌∷◌, ◌++◌, Bytes,
  length, ltb, ◌==◌, if◌then◌else◌, arith,
}
use mcpwatch.Server.Hub.{Hub, member, set_channel, send_capacity, SendChannel}
use mcpwatch.Server.Hub.Safety.{IsSound, Distinct, offered}
use mcpwatch.Server.Hub.Delivery.{
  delivered, channels-delivered_other, channels-delivered, clients-delivered, times, is_full,
  times-delivered, next-delivered,
}
use mcpwatch.Server.Hub.Order.{SameView}

-- What a client's channel is after it was offered a payload.
abbrev pub pushed : Bytes → SendChannel → SendChannel
pushed p ch =
    if ltb (length ch.queue) send_capacity then record ch { queue = ch.queue ++ p ∷ [] } else ch

pub channels-offered :
    (p : Bytes) (d : ℕ) (h : Hub) → (offered p d h).channels d ≡ pushed p (h.channels d)
unfolding set_channel
channels-offered p d h = elim (Bool-cases (ltb (length (h.channels d).queue) send_capacity)) [
  | inl room ↦ let same : (d == d) ≡ true = ground arith in rw (room, same) refl
  | inr full ↦ rw (full) refl
]

pub channels-delivered_all :
    (p : Bytes) (d : ℕ) (h : Hub)
    → Distinct h.clients
    → (delivered p h.clients h).channels d
      ≡ (if member d h.clients then pushed p (h.channels d) else h.channels d)
channels-delivered_all p d h u = elim (Bool-cases (member d h.clients)) [
  | inl e ↦ rw (e) (channels-delivered p d h.clients h u e ∙ channels-offered p d h)
  | inr e ↦ rw (e) (channels-delivered_other p d h.clients h e)
]

pub delivered-SameView :
    (p : Bytes) (h k : Hub)
    → IsSound h
    → IsSound k
    → SameView h k
    → SameView (delivered p h.clients h) (delivered p k.clients k)
delivered-SameView p h k v w s = record {
  members = λ d.
      ap (member d) (clients-delivered p h.clients h)
      ∙ s.members d
      ∙ sym (ap (member d) (clients-delivered p k.clients k));
  channels = λ d.
      channels-delivered_all p d h v.distinct
      ∙ ap (λ b. if b then pushed p (h.channels d) else h.channels d) (s.members d)
      ∙ ap (λ ch. if member d k.clients then pushed p ch else ch) (s.channels d)
      ∙ sym (channels-delivered_all p d k w.distinct);
  next = next-delivered p h.clients h ∙ s.next ∙ sym (next-delivered p k.clients k);
  spawned = λ d.
      times-delivered p d h.clients h v.distinct
      ∙ ap (λ n. n + (if member d h.clients && is_full d h then 1 else 0)) (s.spawned d)
      ∙ ap (λ b. times d k.spawned + (if b && is_full d h then 1 else 0)) (s.members d)
      ∙ ap
          (λ ch.
            times d k.spawned
            + (if member d k.clients && not (ltb (length ch.queue) send_capacity) then 1 else 0))
          (s.channels d)
      ∙ sym (times-delivered p d k.clients k w.distinct);
}
