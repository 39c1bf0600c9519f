-- ===== src/App/Program/Carries.antt =====
-- What gets from the transport to the loop.
use mcpwatch.Base.{
  ◌≡◌, refl, sym, ap, ◌∙◌, Bool, true, false, Bool-cases, inl, inr, Option, none, some, ◌>>=◌, List,
  [], ◌∷◌, ◌++◌, append-nil, append_assoc, Bytes, length, ltb, if◌then◌else◌, arith,
}
use mcpwatch.Base.Float.{Float64}
use mcpwatch.Base.Channel.{Channel, try_send, IsBounded, try_send-IsBounded, capacity-try_send}
use mcpwatch.Engine.Message.{Message}
use mcpwatch.Engine.Json.{Codec}
use mcpwatch.Server.Hub.Safety.{IsSound}
use mcpwatch.App.Loop.{
  received, transport_ended, context_done, store_receives, store_ticks, hub_acts, System,
  system_step, system_run,
}
use mcpwatch.App.Loop
use mcpwatch.App.Loop.Run.{step-Runs}
use mcpwatch.App.Loop.Exchange.{messages_of, system_run-append}
use mcpwatch.App.Program.{
  Event, sends, takes, handler_ends, context_ends, store_takes, store_ticker, hub_does, Program,
  advance, take_from, program_step, program_run,
}

-- The message that a send adds to a channel.
abbrev pub entered : Event → Channel Message → List Message
entered (sends m) ch = if ltb (length ch.items) ch.capacity then m ∷ [] else []
entered _ ch = []

entered-try_send :
    (m : Message) (ch : Channel Message) → (try_send m ch).items ≡ ch.items ++ entered (sends m) ch
unfolding try_send
entered-try_send m ch = elim (Bool-cases (ltb (length ch.items) ch.capacity)) [
  | inl room ↦ rw room refl
  | inr full ↦ rw full (sym (append-nil ch.items))
]

module _ {ℓ} (fl : Float64) {F : Type 0} {S : Type ℓ} (codec : Codec F) (tracing : Bool)
    (encode : Message → Option Bytes) (flush : List Message → S → S) where
  abbrev pub step : Event → Program fl S → Option (Program fl S)
  step = program_step fl codec tracing encode flush

  abbrev pub next : Event → Program fl S → Program fl S
  next e p = elim (step e p) [ none ↦ p | some q ↦ q ]

  -- The messages that the channel takes in a run.
  abbrev pub admitted : List Event → Program fl S → List Message
  admitted [] p = []
  admitted (e ∷ es) p = entered e p.messages ++ admitted es (next e p)

  -- The event of the loop that a step of the program is.
  abbrev pub taken : List Message → Program fl S → List Loop.Event
  taken [] p = []
  taken (m ∷ ms) p = if p.system.returned then [] else received (some m) ∷ []

  abbrev pub loop_event : Event → Program fl S → List Loop.Event
  loop_event (sends m) p = []
  loop_event takes p = taken p.messages.items p
  loop_event handler_ends p = transport_ended ∷ []
  loop_event context_ends p = context_done ∷ []
  loop_event store_takes p = store_receives ∷ []
  loop_event store_ticker p = store_ticks ∷ []
  loop_event (hub_does a) p = hub_acts a ∷ []

  abbrev pub loop_events : List Event → Program fl S → List Loop.Event
  loop_events [] p = []
  loop_events (e ∷ es) p = loop_event e p ++ loop_events es (next e p)

  -- From `p` to `q` the loop has seen the events `ls`, and the channel has taken `new`.
  pub record Carries (ls : List Loop.Event) (new : List Message) (p q : Program fl S) : Type ℓ where
    pub sound : IsSound q.system.hub
    pub looped : system_run fl codec tracing encode flush ls p.system ≡ some q.system
    pub kept : messages_of ls ++ q.messages.items ≡ p.messages.items ++ new
    pub bounded : IsBounded q.messages
    pub same_capacity : q.messages.capacity ≡ p.messages.capacity

  advance-Carries :
      (e : Loop.Event) (p : Program fl S) (ch : Channel Message)
      → IsSound p.system.hub
      → messages_of (e ∷ []) ++ ch.items ≡ p.messages.items
      → IsBounded ch
      → ch.capacity ≡ p.messages.capacity
      → (q : Program fl S) × (advance fl codec tracing encode flush e (record p { messages = ch })
          ≡ some q)
        × Carries (e ∷ []) [] p q
  unfolding system_run
  advance-Carries e p ch v kept short size =
      let (t, et, r) = step-Runs fl codec tracing encode flush e p.system v in
      (
        record { messages = ch; system = t },
        ap (λ o. o >>= λ s. some (record { messages = ch; system = s })) et,
        record {
          sound = r.sound;
          looped = ap (λ o. o >>= λ s. some s) et;
          kept = kept ∙ sym (append-nil p.messages.items);
          bounded = short;
          same_capacity = size;
        },
      )

  pub still-Carries :
      (p : Program fl S) → IsSound p.system.hub → IsBounded p.messages → Carries [] [] p p
  unfolding system_run
  still-Carries p v short = record {
    sound = v;
    looped = refl;
    kept = sym (append-nil p.messages.items);
    bounded = short;
    same_capacity = refl;
  }

  -- Whether the loop has ended or not.
  choice-Carries :
      (over : Bool) (m : Message) (p : Program fl S) (moved : Option (Program fl S))
      → Carries [] [] p p
      → (q : Program fl S) × (moved ≡ some q) × Carries (received (some m) ∷ []) [] p q
      → (q : Program fl S) × ((if over then some p else moved) ≡ some q)
        × Carries (if over then [] else received (some m) ∷ []) [] p q
  choice-Carries true m p moved c d = (p, refl, c)
  choice-Carries false m p moved c d = d

  take-Carries :
      (items : List Message) (p : Program fl S)
      → IsSound p.system.hub
      → IsBounded p.messages
      → p.messages.items ≡ items
      → (q : Program fl S) × (take_from fl codec tracing encode flush items p ≡ some q)
        × Carries (taken items p) [] p q
  unfolding take_from
  take-Carries [] p v short same = (p, refl, still-Carries p v short)
  take-Carries (m ∷ ms) p v short same =
      choice-Carries p.system.returned m p _ (still-Carries p v short) (
        advance-Carries (received (some m)) p (record p.messages { items = ms }) v (sym same)
          (omega (arith, short, ap length same)) refl)

  pub step-Carries :
      (e : Event) (p : Program fl S)
      → IsSound p.system.hub
      → IsBounded p.messages
      → (q : Program fl S) × (step e p ≡ some q)
        × Carries (loop_event e p) (entered e p.messages) p q
  unfolding program_step system_run
  step-Carries (sends m) p v short = (
    record p { messages = try_send m p.messages },
    refl,
    record {
      sound = v;
      looped = refl;
      kept = entered-try_send m p.messages;
      bounded = try_send-IsBounded m p.messages short;
      same_capacity = capacity-try_send m p.messages;
    },
  )
  step-Carries takes p v short = take-Carries p.messages.items p v short refl
  step-Carries handler_ends p v short =
      advance-Carries transport_ended p p.messages v refl short refl
  step-Carries context_ends p v short = advance-Carries context_done p p.messages v refl short refl
  step-Carries store_takes p v short = advance-Carries store_receives p p.messages v refl short refl
  step-Carries store_ticker p v short = advance-Carries store_ticks p p.messages v refl short refl
  step-Carries (hub_does a) p v short = advance-Carries (hub_acts a) p p.messages v refl short refl

  messages_of-append :
      (es fs : List Loop.Event) → messages_of (es ++ fs) ≡ messages_of es ++ messages_of fs
  messages_of-append [] fs = refl
  messages_of-append (received none ∷ es) fs = messages_of-append es fs
  messages_of-append (received (some m) ∷ es) fs = ap (◌∷◌ m) (messages_of-append es fs)
  messages_of-append (transport_ended ∷ es) fs = messages_of-append es fs
  messages_of-append (context_done ∷ es) fs = messages_of-append es fs
  messages_of-append (store_receives ∷ es) fs = messages_of-append es fs
  messages_of-append (store_ticks ∷ es) fs = messages_of-append es fs
  messages_of-append (hub_acts a ∷ es) fs = messages_of-append es fs

  pub Carries-trans :
      (ls ks : List Loop.Event) (new more : List Message) (p q r : Program fl S)
      → Carries ls new p q
      → Carries ks more q r
      → Carries (ls ++ ks) (new ++ more) p r
  Carries-trans ls ks new more p q r c d = record {
    sound = d.sound;
    looped =
        system_run-append fl codec tracing encode flush ls ks p.system
        ∙ ap (λ o. o >>= system_run fl codec tracing encode flush ks) c.looped
        ∙ d.looped;
    kept =
        ap (λ x. x ++ r.messages.items) (messages_of-append ls ks)
        ∙ append_assoc (messages_of ls) (messages_of ks) r.messages.items
        ∙ ap (λ x. messages_of ls ++ x) d.kept
        ∙ sym (append_assoc (messages_of ls) q.messages.items more)
        ∙ ap (λ x. x ++ more) c.kept
        ∙ append_assoc p.messages.items new more;
    bounded = d.bounded;
    same_capacity = d.same_capacity ∙ c.same_capacity;
  }

  pub next-step : (e : Event) (p q : Program fl S) → step e p ≡ some q → next e p ≡ q
  next-step e p q h = ap (λ o. elim o [ none ↦ p | some x ↦ x ]) h

  -- From a sound hub and a channel within its capacity on: however the transport, the loop, the
  -- store and the hub alternate, the program does not panic, and what the loop is given and what
  -- still waits in the channel is what the channel has taken, in order and each message once. The
  -- channel is never over its capacity.
  pub program_run-Carries :
      (es : List Event) (p : Program fl S)
      → IsSound p.system.hub
      → IsBounded p.messages
      → (q : Program fl S) × (program_run fl codec tracing encode flush es p ≡ some q)
        × Carries (loop_events es p) (admitted es p) p q
  unfolding program_run
  program_run-Carries [] p v short = (p, refl, still-Carries p v short)
  program_run-Carries (e ∷ es) p v short =
      let (q, eq, c) = step-Carries e p v short in
      let (r, er, d) = program_run-Carries es q c.sound c.bounded in
      let whole =
        Carries-trans (loop_event e p) (loop_events es q) (entered e p.messages) (admitted es q) p q
          r c d in
      (
        r,
        ap (λ o. o >>= program_run fl codec tracing encode flush es) eq ∙ er,
        rw (next-step e p q eq) whole,
      )
