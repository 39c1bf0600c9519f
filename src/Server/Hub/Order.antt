-- ===== src/Server/Hub/Order.antt =====
-- The order in which Go goes through the map of clients makes no difference that a client can see.
pub mod Broadcasts
pub mod Steps
pub mod Runs
use mcpwatch.Base.{
  ◌>>=◌, ℕ, suc, ◌+◌, ◌-◌, ◌≡◌, ◌≢◌, refl, sym, ap, ◌∙◌, inl, inr, Bool, true, false, ◌&&◌, not,
  Bool-cases, Option, none, some, some_inj, List, [], ◌∷◌, ◌++◌, Bytes, length, count, ltb, ◌==◌,
  if◌then◌else◌, arith,
}
use mcpwatch.Server.Hub.{
  Hub, member, delete, finish, set_channel, register, unregister, offer_all, broadcast, receive,
  Action, accepts, reader_fails, pump_takes, pump_stops, broadcasts, spawned_runs, step, run,
  send_capacity, client_count, SendChannel,
}
use mcpwatch.Server.Hub.Safety.{
  IsSound, Distinct, Sound, removed, unregister_registered, unregister_unknown, offered, step-Sound,
  Registered-self, member-delete, Distinct-delete,
}
use mcpwatch.Server.Hub.Delivery.{
  times, delivered, offer_all-delivered, channels-offered_ne, channels-delivered_other,
  channels-delivered, clients-delivered,
}

-- Hubs that differ in the order of their lists only.
pub record SameView (h k : Hub) : Type 0 where
  pub members : (d : ℕ) → member d h.clients ≡ member d k.clients
  pub channels : (d : ℕ) → h.channels d ≡ k.channels d
  pub next : h.next_client ≡ k.next_client
  pub spawned : (d : ℕ) → times d h.spawned ≡ times d k.spawned

pub SameView-refl : (h : Hub) → SameView h h
SameView-refl h = record {
  members = λ d. refl;
  channels = λ d. refl;
  next = refl;
  spawned = λ d. refl;
}

pub SameView-sym : (h k : Hub) → SameView h k → SameView k h
SameView-sym h k s = record {
  members = λ d. sym (s.members d);
  channels = λ d. sym (s.channels d);
  next = sym s.next;
  spawned = λ d. sym (s.spawned d);
}

pub SameView-trans : (h k l : Hub) → SameView h k → SameView k l → SameView h l
SameView-trans h k l s t = record {
  members = λ d. s.members d ∙ t.members d;
  channels = λ d. s.channels d ∙ t.channels d;
  next = s.next ∙ t.next;
  spawned = λ d. s.spawned d ∙ t.spawned d;
}

pub set_channel-ap :
    (c d : ℕ) (x y : SendChannel) (f g : ℕ → SendChannel)
    → x ≡ y
    → f d ≡ g d
    → set_channel c x f d ≡ set_channel c y g d
unfolding set_channel
set_channel-ap c d x y f g e h = ground (arith, e, h)

pub register-SameView : (h k : Hub) → SameView h k → SameView (register h).0 (register k).0
unfolding register member
register-SameView h k s = record {
  members = λ d. rw (s.next) (ap (λ b. if k.next_client == d then true else b) (s.members d));
  channels = λ d.
      rw (s.next) (set_channel-ap k.next_client d _ _ h.channels k.channels refl (s.channels d));
  next = ap suc s.next;
  spawned = s.spawned;
}

pub removed-SameView : (c : ℕ) (h k : Hub) → SameView h k → SameView (removed c h) (removed c k)
removed-SameView c h k s = record {
  members = λ d.
      member-delete d c h.clients
      ∙ ap (λ b. if c == d then false else b) (s.members d)
      ∙ sym (member-delete d c k.clients);
  channels = λ d.
      set_channel-ap c d _ _ h.channels k.channels
        (ap {A = SendChannel} (λ ch. record ch { closed = true }) (s.channels c)) (s.channels d);
  next = s.next;
  spawned = s.spawned;
}

-- The hub after `Unregister`.
abbrev pub gone : ℕ → Hub → Hub
gone c h = if member c h.clients then removed c h else h

pub unregister-gone : (c : ℕ) (h : Hub) → IsSound h → unregister c h ≡ some (gone c h)
unregister-gone c h v = elim (Bool-cases (member c h.clients)) [
  | inl e ↦ rw (unregister_registered c h e (v.opened c e).0, e) refl
  | inr e ↦ rw (unregister_unknown c h e, e) refl
]

pub gone-SameView : (c : ℕ) (h k : Hub) → SameView h k → SameView (gone c h) (gone c k)
gone-SameView c h k s = elim (Bool-cases (member c k.clients)) [
  | inl e ↦ rw (s.members c ∙ e, e) (removed-SameView c h k s)
  | inr e ↦ rw (s.members c ∙ e, e) s
]

pub times-finish :
    (d c : ℕ) (ds : List ℕ) → times d (finish c ds) ≡ times d ds - (if c == d then 1 else 0)
unfolding finish
times-finish d c [] = ground arith
times-finish d c (x ∷ ds) = ground (arith, times-finish d c ds)

pub finished-SameView :
    (c : ℕ) (h k : Hub)
    → SameView h k
    → SameView
        (record h { spawned = finish c h.spawned })
        (record k { spawned = finish c k.spawned })
finished-SameView c h k s = record {
  members = s.members;
  channels = s.channels;
  next = s.next;
  spawned = λ d.
      times-finish d c h.spawned
      ∙ ap (λ n. n - (if c == d then 1 else 0)) (s.spawned d)
      ∙ sym (times-finish d c k.spawned);
}
