-- ===== src/Transport/Ebpf/Attach/Released.antt =====
-- What `Start` has closed when it returns.
use mcpwatch.Base.{
  true, none, List, [], ◌∷◌, Bytes, codes, ◌≡◌, sym, ap, ◌∙◌, ◌↔◌, ◌⊎◌, inl, inr, Option-cases,
}
use mcpwatch.Engine.Parser.{Parser}
use mcpwatch.Transport.Defer.{Call, opens, closes, acquires, tries, run_steps}
use mcpwatch.Transport.Defer.Scopes.{
  Unwinds, Among, Paired, pairs_next, tries_next, no_steps, run_steps-Unwinds, run_steps-none,
  unwind-Unwinds, after_steps,
}
use mcpwatch.Transport.Ebpf.{PerfRecord, running, new_streams, listen}
use mcpwatch.Transport.Ebpf.Attach.{
  Resource, objects, tp_write, tp_read_enter, tp_read_exit, reader, refused, Kernel, attach_steps,
  attach, attached, after_attach, start_ebpf,
}
use mcpwatch.Transport.Wire.{Wire}

-- The kernel loads the programs, takes the process id, attaches the three programs and opens the
-- ring.
pub record Granted (kernel : Kernel) : Type 0 where
  pub loads : kernel (acquires objects (codes "loading objects")) ≡ true
  pub puts : kernel (tries (codes "failed to set target PID")) ≡ true
  pub writes : kernel (acquires tp_write (codes "opening sys_enter_write tracepoint")) ≡ true
  pub enters : kernel (acquires tp_read_enter (codes "opening sys_enter_read tracepoint")) ≡ true
  pub leaves : kernel (acquires tp_read_exit (codes "opening sys_exit_read tracepoint")) ≡ true
  pub opens_ring : kernel (acquires reader (codes "creating perf event reader")) ≡ true

-- Five resources in the order in which they are opened, and closed in reverse; the reader is closed
-- twice.
abbrev pub attached_calls : List (Call Resource)
attached_calls =
    opens objects
    ∷ opens tp_write
    ∷ opens tp_read_enter
    ∷ opens tp_read_exit
    ∷ opens reader
    ∷ closes reader
    ∷ closes reader
    ∷ closes tp_read_exit
    ∷ closes tp_read_enter
    ∷ closes tp_write
    ∷ closes objects
    ∷ []

attach_steps-Paired : Paired attach_steps
attach_steps-Paired =
    pairs_next _ _
      (tries_next _ (pairs_next _ _ (pairs_next _ _ (pairs_next _ _ (pairs_next _ _ no_steps)))))

attach-calls : (kernel : Kernel) → Granted kernel → (attach kernel).calls ≡ attached_calls
unfolding attach run_steps
attach-calls kernel g = rw (g.loads, g.puts, g.writes, g.enters, g.leaves, g.opens_ring)

attach-none : (kernel : Kernel) → ((attach kernel).error ≡ none) ↔ Granted kernel
unfolding attach
attach-none kernel =
    let steps = run_steps-none kernel (closes reader ∷ []) attach_steps [] in
    (
      λ e.
          let t = steps.0 e in
          record {
            loads = t.0;
            puts = t.1.0;
            writes = t.1.1.0;
            enters = t.1.1.1.0;
            leaves = t.1.1.1.1.0;
            opens_ring = t.1.1.1.1.1.0;
          },
      λ g. steps.1 (g.loads, (g.puts, (g.writes, (g.enters, (g.leaves, (g.opens_ring, tt)))))),
    )

-- Whatever the kernel answers, `Start` leaves nothing open when it returns: what it opened is
-- closed in reverse order. If the kernel grants the programs, the process id, the three tracepoints
-- and the ring, `Start` opens the five resources in order and runs the loop; else it returns an error
-- without reading an event.
pub attach-Unwinds :
    (parser : Parser) (kernel : Kernel) (rs : List PerfRecord) (w : Wire)
    → Unwinds [] (attach kernel).calls
      × ((Granted kernel
            × (start_ebpf parser kernel rs w ≡ attached (listen parser rs (running new_streams w)))
            × ((attach kernel).calls ≡ attached_calls))
          ⊎ ((Granted kernel → ⊥)
              × ((text : Bytes) × (start_ebpf parser kernel rs w ≡ refused text))))
unfolding start_ebpf
attach-Unwinds parser kernel rs w = (
  unfold attach in
      run_steps-Unwinds kernel (closes reader ∷ []) [] attach_steps-Paired
        (Unwinds.close_early reader Among.here (unwind-Unwinds (after_steps attach_steps []))),
  elim (Option-cases (attach kernel).error) [
    | inl e ↦
        let g = (attach-none kernel).0 e in
        inl (g, ap (λ o. after_attach parser o rs w) e, attach-calls kernel g)
    | inr (text, e) ↦ inr (
      λ g. let none_left = sym ((attach-none kernel).1 g) ∙ e in cc,
      (text, ap (λ o. after_attach parser o rs w) e),
    )
  ],
)
