-- ===== src/Transport/Stdio/Tee/Reads.antt =====
-- Where a scanner stands after its reads.
use mcpwatch.Base.{
  lengths, ℕ, ◌+◌, ◌<◌, ◌≤◌, ◌≡◌, refl, sym, ap, ◌∙◌, inl, inr, Bool, Bool-cases, true, false, some,
  List, [], ◌∷◌, ◌++◌, foldl, foldl-append, append_assoc, append-nil, Bytes, length, length-append,
  take, All, All-split, leb, arith,
}
use mcpwatch.Transport.Cutter.{joined}
use mcpwatch.Transport.Cutter.Tokens.{drain-split}
use mcpwatch.Transport.Lines.{index_byte, line_cutter, unlines, IsLine, split_lines}
use mcpwatch.Transport.Lines.Parts.{
  NoLineBelow, index_byte-prefix, split_lines-Parts, unlines-prefix,
}
use mcpwatch.Transport.Lines.Unlines.{
  take-short, take-append, unlines-append, index_byte-unlines, line-unlines,
}
use mcpwatch.Transport.StreamBuffer.{strip_return}
use mcpwatch.Transport.Stdio.Laws.{handle_all}
use mcpwatch.Transport.Stdio.Tee.{Tee, tee_read, InRoom}
use mcpwatch.Transport.Wire.{Wire}

module _ (max : ℕ) (handle : Bytes → Wire → Wire) where
  abbrev running : Bytes → Bytes → Wire → Tee
  running b c w = record { buf = b; stopped = false; copied = c; wire = w }

  abbrev pub stands : Bytes → Bool → Bytes → Wire → Tee
  stands b stop c w = record { buf = b; stopped = stop; copied = c; wire = w }

  -- Where the loop stands after the lines `ls` when `x` comes behind them.
  abbrev pub behind : Bytes → List Bytes → Bytes → Wire → Tee
  behind pre ls x w = record {
    buf = take max x;
    stopped = leb max (length x);
    copied = pre ++ (unlines ls ++ take max x);
    wire = handle_all handle ls w;
  }

  tee_read-split :
      (b c p : Bytes) (w : Wire)
      → tee_read max handle (running b c w) p ≡ (
          let (rest, ls) = split_lines (b ++ p) in
          record {
            buf = rest;
            stopped = leb max (length rest);
            copied = c ++ p;
            wire = handle_all handle ls w;
          })
  unfolding tee_read
  tee_read-split b c p w =
      ap (λ x. record { buf = x.0; stopped = leb max (length x.0); copied = c ++ p; wire = x.1 })
        (drain-split line_cutter (λ l. handle (strip_return l)) (b ++ p) w)

  tee_reads-stopped :
      (ps : List Bytes) (s : Tee) → s.stopped ≡ true → foldl (tee_read max handle) s ps ≡ s
  unfolding tee_read
  tee_reads-stopped [] s e = refl
  tee_reads-stopped (p ∷ ps) s e =
      ap (λ t. foldl (tee_read max handle) t ps) (rw e refl) ∙ tee_reads-stopped ps s e

  -- A line that is not finished is the first line, or what comes behind the lines.
  unfinished :
      (r m : Bytes) (ls : List Bytes) (x : Bytes)
      → IsLine r
      → r ++ m ≡ unlines ls ++ x
      → All IsLine ls
      → All (λ l. length l < max) ls
      → max ≤ length r
      → ls ≡ []
  unfinished r m [] x hr e hl fits long = refl
  unfinished r m (l ∷ ls) x hr e hl fits long =
      let found : index_byte b'\n' (r ++ m) ≡ some (length l) =
        ap (index_byte b'\n') e ∙ index_byte-unlines l ls x hl.0 in
      absurd (omega (arith, index_byte-prefix b'\n' r m (length l) hr found, fits.0))

  behind-append :
      (pre : Bytes) (ks ms : List Bytes) (x : Bytes) (w : Wire)
      → behind (pre ++ unlines ks) ms x (handle_all handle ks w) ≡ behind pre (ks ++ ms) x w
  behind-append pre ks ms x w =
      let t = take max x in
      ap
        (λ q. record {
          buf = t;
          stopped = leb max (length x);
          copied = q;
          wire = handle_all handle ms (handle_all handle ks w);
        })
        (append_assoc pre (unlines ks) (unlines ms ++ t)
          ∙ ap (λ q. pre ++ q)
              (sym (append_assoc (unlines ks) (unlines ms) t)
                ∙ ap (λ q. q ++ t) (sym (unlines-append ks ms))))
      ∙ ap
          (λ v. record {
            buf = t;
            stopped = leb max (length x);
            copied = pre ++ (unlines (ks ++ ms) ++ t);
            wire = v;
          })
          (sym (foldl-append (λ v l. handle (strip_return l) v) w ks ms))

  behind-nil :
      (pre x r : Bytes) (b : Bool) (w : Wire)
      → take max x ≡ r
      → leb max (length x) ≡ b
      → behind pre [] x w ≡ record { buf = r; stopped = b; copied = pre ++ r; wire = w }
  behind-nil pre x r b w et eb =
      ap (λ q. record { buf = q; stopped = leb max (length x); copied = pre ++ q; wire = w }) et
      ∙ ap (λ q. record { buf = r; stopped = q; copied = pre ++ r; wire = w }) eb

  -- A line has filled the buffer.
  full_buffer :
      (ps : List Bytes) (more pre r : Bytes) (w : Wire) (ms : List Bytes) (x : Bytes) (s : Tee)
      → s ≡ stands r true (pre ++ r) w
      → IsLine r
      → length r ≡ max
      → r ++ more ≡ unlines ms ++ x
      → All IsLine ms
      → All (λ l. length l < max) ms
      → foldl (tee_read max handle) s ps ≡ behind pre ms x w
  full_buffer ps more pre r w ms x s es hr size e hm fm =
      let none_left = unfinished r more ms x hr e hm fm (omega (arith, size)) in
      let is_x : r ++ more ≡ x = e ∙ ap (λ q. unlines q ++ x) none_left in
      let front : take max x ≡ r =
        ap (λ n. take n x) (sym size) ∙ ap (take (length r)) (sym is_x) ∙ take-append r more in
      tee_reads-stopped ps s (ap (λ t. t.stopped) es)
      ∙ es
      ∙ sym (
          ap (λ q. behind pre q x w) none_left
          ∙ behind-nil pre x r true w front (grind (lengths, size, ap length is_x)))

  -- The reads `ps` where `b` is in the buffer: the text is made of the lines `ls`, which fit, and
  -- of `x`, which has no newline where it would fit.
  pub tee_reads-behind :
      (ps : List Bytes) (pre b : Bytes) (w : Wire) (ls : List Bytes) (x : Bytes) (s : Tee)
      → s ≡ running b (pre ++ b) w
      → IsLine b
      → length b < max
      → InRoom max handle ps s
      → b ++ joined ps ≡ unlines ls ++ x
      → All IsLine ls
      → All (λ l. length l < max) ls
      → NoLineBelow max x
      → foldl (tee_read max handle) s ps ≡ behind pre ls x w
  tee_reads-behind [] pre b w ls x s es hb small room e hl fits tail =
      let none_left = line-unlines b ls x hb (sym (append-nil b) ∙ e) hl in
      let is_x : b ≡ x = sym (append-nil b) ∙ e ∙ ap (λ q. unlines q ++ x) none_left in
      es
      ∙ sym (
          ap (λ q. behind pre q x w) none_left
          ∙ behind-nil pre x b false w (ap (take max) (sym is_x) ∙ take-short max b (omega arith))
              (ground (arith, ap length is_x)))
  tee_reads-behind (p ∷ ps) pre b w ls x s es hb small room e hl fits tail =
      let a = b ++ p in
      let (r, ks) = split_lines a in
      let more = joined ps in
      let (parts, lines, rest) = split_lines-Parts a in
      let fill : length a ≤ max =
        omega
          (arith, room.0 (ap (λ t. t.stopped) es), ap (λ t. length t.buf) es, length-append b p) in
      let sizes : length a ≡ length (unlines ks) + length r =
        ap length parts ∙ length-append (unlines ks) r in
      let (ms, el, ey) =
        unlines-prefix max ks ls (r ++ more) x
          (sym (append_assoc (unlines ks) r more)
            ∙ ap (λ q. q ++ more) (sym parts)
            ∙ append_assoc b p more
            ∙ e)
          lines hl (omega (arith, fill, sizes)) tail in
      let (_, hm) = All-split IsLine ks ms (rw (sym el) hl) in
      let (_, fm) = All-split (λ l. length l < max) ks ms (rw (sym el) fits) in
      let pre' = pre ++ unlines ks in
      let w' = handle_all handle ks w in
      let step : tee_read max handle s p ≡ stands r (leb max (length r)) (pre' ++ r) w' =
        ap (λ t. tee_read max handle t p) es
        ∙ tee_read-split b (pre ++ b) p w
        ∙ ap (λ q. stands r (leb max (length r)) q w')
            (append_assoc pre b p
              ∙ ap (λ q. pre ++ q) parts
              ∙ sym (append_assoc pre (unlines ks) r)) in
      let whole : behind pre' ms x w' ≡ behind pre ls x w =
        behind-append pre ks ms x w ∙ ap (λ q. behind pre q x w) (sym el) in
      elim (Bool-cases (leb max (length r))) [
        | inl full ↦
            full_buffer ps more pre' r w' ms x (tee_read max handle s p)
              (step ∙ ap (λ q. stands r q (pre' ++ r) w') full) rest (ground (arith, fill, sizes))
              ey hm fm
            ∙ whole
        | inr short ↦
            tee_reads-behind ps pre' r w' ms x (tee_read max handle s p)
              (step ∙ ap (λ q. stands r q (pre' ++ r) w') short) rest (ground arith) room.1 ey hm fm
              tail
            ∙ whole
      ]
