-- ===== src/Transport/Stdio/Session/Alone.antt =====
-- Each stream is handled as if it were alone.
use mcpwatch.Base.{
  ◌≡◌, refl, sym, ap, ◌∙◌, inl, inr, Bool, Bool-cases, true, false, List, [], ◌∷◌, ◌++◌, map, foldl,
  foldl-append, Bytes, length, is_empty, leb, if◌then◌else◌,
}
use mcpwatch.Engine.Parser.{Parser}
use mcpwatch.Transport.Cutter.Tokens.{drain-split}
use mcpwatch.Transport.Lines.{line_cutter, split_lines}
use mcpwatch.Transport.StreamBuffer.{strip_return}
use mcpwatch.Transport.Stdio.{max_line}
use mcpwatch.Transport.Stdio.Laws.{handle_all}
use mcpwatch.Transport.Stdio.Tee.{Tee, tee_read, tee_end}
use mcpwatch.Transport.Stdio.Session.{
  Stream, input, output, errors, StreamEvent, reads_bytes, ends, tee_event, Session, tee_of,
  set_tee, line_of, session_step, session_run,
}
use mcpwatch.Transport.Wire.{Wire}

abbrev pub with_wire : Tee → Wire → Tee
with_wire t w = record t { wire = w }

abbrev pub is_same : Stream → Stream → Bool
is_same input input = true
is_same output output = true
is_same errors errors = true
is_same _ _ = false

is_same-true : (k j : Stream) → is_same k j ≡ true → j ≡ k
is_same-true input input e = refl
is_same-true output output e = refl
is_same-true errors errors e = refl
is_same-true input output e = absurd cc
is_same-true input errors e = absurd cc
is_same-true output input e = absurd cc
is_same-true output errors e = absurd cc
is_same-true errors input e = absurd cc
is_same-true errors output e = absurd cc

tee_of-same : (k : Stream) (t : Tee) (s : Session) → tee_of k (set_tee k t s) ≡ t
tee_of-same input t s = refl
tee_of-same output t s = refl
tee_of-same errors t s = refl

tee_of-other :
    (k j : Stream) (t : Tee) (s : Session)
    → is_same k j ≡ false
    → tee_of k (set_tee j t s) ≡ tee_of k s
tee_of-other input input t s e = absurd cc
tee_of-other output output t s e = absurd cc
tee_of-other errors errors t s e = absurd cc
tee_of-other input output t s e = refl
tee_of-other input errors t s e = refl
tee_of-other output input t s e = refl
tee_of-other output errors t s e = refl
tee_of-other errors input t s e = refl
tee_of-other errors output t s e = refl

wire-set_tee : (k : Stream) (t : Tee) (s : Session) → (set_tee k t s).wire ≡ t.wire
wire-set_tee input t s = refl
wire-set_tee output t s = refl
wire-set_tee errors t s = refl

-- What belongs to a stream, in order.
abbrev pub of_stream {ℓ} : {A : Type ℓ} → Stream → List (Stream × A) → List A
of_stream k [] = []
of_stream k ((j, x) ∷ xs) = if is_same k j then x ∷ of_stream k xs else of_stream k xs

abbrev tagged : Stream → List Bytes → List (Stream × Bytes)
tagged j ls = map (λ l. (j, l)) ls

of_stream-tagged :
    (k j : Stream) (ls : List Bytes) (zs : List (Stream × Bytes))
    → of_stream k (tagged j ls ++ zs)
      ≡ (if is_same k j then ls ++ of_stream k zs else of_stream k zs)
of_stream-tagged k j [] zs = elim (Bool-cases (is_same k j)) [
  | inl e ↦ rw e refl
  | inr e ↦ rw e refl
]
of_stream-tagged k j (l ∷ ls) zs = elim (Bool-cases (is_same k j)) [
  | inl e ↦ rw e (ap (◌∷◌ l) (of_stream-tagged k j ls zs ∙ rw e refl))
  | inr e ↦ rw e (of_stream-tagged k j ls zs ∙ rw e refl)
]

-- A stream that has the handler to itself.
abbrev pub run_alone : (Bytes → Wire → Wire) → List StreamEvent → Tee → Tee
run_alone handle [] t = t
run_alone handle (e ∷ es) t = run_alone handle es (tee_event handle e t)

-- What an event does to a scanner does not depend on the wire, and to the wire it does the lines.
abbrev Acts : (Bytes → Wire → Wire) → StreamEvent → Tee → Type 0
Acts handle e t =
    (ls : List Bytes) × (t' : Tee) × ((w : Wire)
      → tee_event handle e (with_wire t w) ≡ with_wire t' (handle_all handle ls w))

tee_event-Acts : (handle : Bytes → Wire → Wire) (e : StreamEvent) (t : Tee) → Acts handle e t
unfolding tee_read tee_end
tee_event-Acts handle (reads_bytes p) t = elim (Bool-cases t.stopped) [
  | inl stop ↦ ([], t, λ w. rw stop refl)
  | inr on ↦
      let x = split_lines (t.buf ++ p) in
      (
        x.1,
        record t { buf = x.0; stopped = leb max_line (length x.0); copied = t.copied ++ p },
        λ w. rw on (
            ap
              (λ o. record {
                buf = o.0;
                stopped = leb max_line (length o.0);
                copied = t.copied ++ p;
                wire = o.1;
              })
              (drain-split line_cutter (λ l. handle (strip_return l)) (t.buf ++ p) w)),
      )
]
tee_event-Acts handle ends t = elim (Bool-cases t.stopped) [
  | inl stop ↦ ([], t, λ w. rw stop refl)
  | inr on ↦ elim (Bool-cases (is_empty t.buf)) [
    | inl none_left ↦ ([], t, λ w. rw (on, none_left) refl)
    | inr some_left ↦ (t.buf ∷ [], record t { buf = [] }, λ w. rw (on, some_left) refl)
  ]
]

module _ (parser : Parser) where
  abbrev pub handle_sent : Wire → Stream × Bytes → Wire
  handle_sent w (k, l) = line_of parser k (strip_return l) w

  foldl-tagged :
      (j : Stream) (ls : List Bytes) (w : Wire)
      → foldl handle_sent w (tagged j ls) ≡ handle_all (line_of parser j) ls w
  foldl-tagged j [] w = refl
  foldl-tagged j (l ∷ ls) w = foldl-tagged j ls (line_of parser j (strip_return l) w)

  -- With the events of the stream `k` alone its scanner gets from `t` to `t'`, and handles the
  -- lines `ls`.
  abbrev pub Alone : Stream → List StreamEvent → Tee → Tee → List Bytes → Type 0
  Alone k es t t' ls =
      (w : Wire)
      → run_alone (line_of parser k) es (with_wire t w)
        ≡ with_wire t' (handle_all (line_of parser k) ls w)

  -- One more event in front, which handles the lines `ls`.
  Alone-cons :
      (k : Stream) (e : StreamEvent) (es : List StreamEvent) (t t' u f : Tee) (ls ms : List Bytes)
      → ((w : Wire)
          → tee_event (line_of parser k) e (with_wire t w)
            ≡ with_wire t' (handle_all (line_of parser k) ls w))
      → ((w : Wire) → with_wire t' w ≡ with_wire u w)
      → Alone k es u f ms
      → Alone k (e ∷ es) t f (ls ++ ms)
  Alone-cons k e es t t' u f ls ms acts same rest w =
      ap (run_alone (line_of parser k) es) (acts w ∙ same (handle_all (line_of parser k) ls w))
      ∙ rest (handle_all (line_of parser k) ls w)
      ∙ ap (with_wire f) (sym (foldl-append (λ v l. line_of parser k (strip_return l) v) w ls ms))

  abbrev pub EachAlone :
      List (Stream × StreamEvent) → Session → Session → List (Stream × Bytes) → Type 0
  EachAlone es s f zs =
      (k : Stream) → Alone k (of_stream k es) (tee_of k s) (tee_of k f) (of_stream k zs)

  -- One more event in front, of the stream `j`.
  EachAlone-cons :
      (j k : Stream) (e : StreamEvent) (es : List (Stream × StreamEvent)) (s s' : Session)
      (f t' : Tee) (v : Wire) (ls : List Bytes) (zs : List (Stream × Bytes))
      → ((w : Wire)
          → tee_event (line_of parser j) e (with_wire (tee_of j s) w)
            ≡ with_wire t' (handle_all (line_of parser j) ls w))
      → s' ≡ set_tee j (with_wire t' v) s
      → Alone k (of_stream k es) (tee_of k s') f (of_stream k zs)
      → Alone k (of_stream k ((j, e) ∷ es)) (tee_of k s) f (of_stream k (tagged j ls ++ zs))
  EachAlone-cons j k e es s s' f t' v ls zs acts stepped rest = elim (Bool-cases (is_same k j)) [
    | inl same ↦
        let it : j ≡ k = is_same-true k j same in
        rw (of_stream-tagged k j ls zs, same)
          (Alone-cons k e (of_stream k es) (tee_of k s) t' (tee_of k s') f ls (of_stream k zs)
            (rw (sym it) acts)
            (λ w.
              ap (λ t. with_wire t w)
                (sym (
                  ap (tee_of k) stepped
                  ∙ ap (λ x. tee_of k (set_tee x (with_wire t' v) s)) it
                  ∙ tee_of-same k (with_wire t' v) s)))
            rest)
    | inr other ↦
        rw (of_stream-tagged k j ls zs, other)
          (rw (sym (ap (tee_of k) stepped ∙ tee_of-other k j (with_wire t' v) s other)) rest)
  ]

  -- However the three goroutines alternate, each stream is handled as if it were alone: its scanner
  -- stops where it would, has copied what it would have, and hands on the lines that it would. The
  -- messages are an interleaving of the lines of the three streams.
  pub session_run-EachAlone :
      (es : List (Stream × StreamEvent)) (s : Session)
      → (zs : List (Stream × Bytes)) × ((session_run parser es s).wire
          ≡ foldl handle_sent s.wire zs)
        × EachAlone es s (session_run parser es s) zs
  unfolding session_run session_step
  session_run-EachAlone [] s = ([], refl, λ k w. refl)
  session_run-EachAlone ((j, e) ∷ es) s =
      let handle = line_of parser j in
      let (ls, t', acts) = tee_event-Acts handle e (tee_of j s) in
      let s' = session_step parser j e s in
      let stepped : s' ≡ set_tee j (with_wire t' (handle_all handle ls s.wire)) s =
        ap (λ t. set_tee j t s) (acts s.wire) in
      let (zs, wires, alone) = session_run-EachAlone es s' in
      (
        tagged j ls ++ zs,
        wires
            ∙ ap (λ v. foldl handle_sent v zs)
                (ap (λ x. x.wire) stepped ∙ wire-set_tee j _ s ∙ sym (foldl-tagged j ls s.wire))
            ∙ sym (foldl-append handle_sent s.wire (tagged j ls) zs),
        λ k.
            EachAlone-cons j k e es s s' (tee_of k (session_run parser es s')) t'
              (handle_all handle ls s.wire) ls zs acts stepped (alone k),
      )
