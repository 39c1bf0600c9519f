-- ===== src/Server/Hub/Order/Steps.antt =====
-- A step of hubs that differ in the order of their lists.
use mcpwatch.Base.{ℕ, ◌≡◌, refl, ap, none, some}
use mcpwatch.Server.Hub.{
  Hub, finish, set_channel, register, broadcast, receive, Action, accepts, reader_fails, pump_takes,
  pump_stops, broadcasts, spawned_runs, step, SendChannel,
}
use mcpwatch.Server.Hub.Safety.{IsSound, Registered-self}
use mcpwatch.Server.Hub.Delivery.{delivered, offer_all-delivered}
use mcpwatch.Server.Hub.Order.{
  SameView, set_channel-ap, register-SameView, gone, unregister-gone, gone-SameView,
  finished-SameView,
}
use mcpwatch.Server.Hub.Order.Broadcasts.{delivered-SameView}

-- The hub after a pump has taken a payload.
abbrev popped : ℕ → Hub → Hub
popped c h = record h {
  channels =
      set_channel c (record (h.channels c) { queue = receive (h.channels c).queue }) h.channels;
}

taken-SameView : (c : ℕ) (h k : Hub) → SameView h k → SameView (popped c h) (popped c k)
taken-SameView c h k s = record {
  members = s.members;
  channels = λ d.
      set_channel-ap c d _ _ h.channels k.channels
        (ap {A = SendChannel} (λ ch. record ch { queue = receive ch.queue }) (s.channels c))
        (s.channels d);
  next = s.next;
  spawned = s.spawned;
}

-- What a step gives on a sound hub.
abbrev pub moved : Action → Hub → Hub
moved accepts h = (register h).0
moved (reader_fails c) h = gone c h
moved (pump_takes c) h = popped c h
moved (pump_stops c) h = gone c h
moved (broadcasts none) h = h
moved (broadcasts (some p)) h = delivered p h.clients h
moved (spawned_runs c) h = gone c (record h { spawned = finish c h.spawned })

pub step-moved : (a : Action) (h : Hub) → IsSound h → step a h ≡ some (moved a h)
unfolding step broadcast
step-moved accepts h v = refl
step-moved (reader_fails c) h v = unregister-gone c h v
step-moved (pump_takes c) h v = refl
step-moved (pump_stops c) h v = unregister-gone c h v
step-moved (broadcasts none) h v = refl
step-moved (broadcasts (some p)) h v =
    offer_all-delivered p h.clients h (Registered-self h h.clients refl) v
step-moved (spawned_runs c) h v =
    unregister-gone c (record h { spawned = finish c h.spawned })
      (record { distinct = v.distinct; opened = v.opened; bounded = v.bounded })

pub moved-SameView :
    (a : Action) (h k : Hub)
    → IsSound h
    → IsSound k
    → SameView h k
    → SameView (moved a h) (moved a k)
moved-SameView accepts h k v w s = register-SameView h k s
moved-SameView (reader_fails c) h k v w s = gone-SameView c h k s
moved-SameView (pump_takes c) h k v w s = taken-SameView c h k s
moved-SameView (pump_stops c) h k v w s = gone-SameView c h k s
moved-SameView (broadcasts none) h k v w s = s
moved-SameView (broadcasts (some p)) h k v w s = delivered-SameView p h k v w s
moved-SameView (spawned_runs c) h k v w s = gone-SameView c _ _ (finished-SameView c h k s)
