-- ===== src/Transport/Stdio/Tee/Copies.antt =====
-- What a scanner delivers and copies of any stream.
use mcpwatch.Base.{
  ℕ, ◌<◌, ◌≡◌, refl, ap, ◌∙◌, inl, inr, Bool-cases, true, false, List, [], ◌∷◌, ◌++◌, Bytes, length,
  take, All, is_empty, leb, if◌then◌else◌, arith,
}
use mcpwatch.Transport.Cutter.{joined}
use mcpwatch.Transport.Lines.{unlines, IsLine}
use mcpwatch.Transport.Lines.Parts.{NoLineBelow}
use mcpwatch.Transport.StreamBuffer.{strip_return}
use mcpwatch.Transport.Stdio.Laws.{handle_all}
use mcpwatch.Transport.Stdio.Tee.{new_tee, tee_end, tee_all, InRoom}
use mcpwatch.Transport.Lines.Unlines.{take-short, nil-IsLine}
use mcpwatch.Transport.Stdio.Tee.Reads.{stands, behind, tee_reads-behind}
use mcpwatch.Transport.Wire.{Wire}

module _ (max : ℕ) (handle : Bytes → Wire → Wire) where
  last_line :
      (ls : List Bytes) (x : Bytes) (w : Wire)
      → (if is_empty x
          then stands max handle x false (unlines ls ++ x) (handle_all handle ls w)
          else stands max handle [] false
              (unlines ls ++ x)
              (handle (strip_return x) (handle_all handle ls w)))
        ≡ stands max handle [] false (unlines ls ++ x) (
            if is_empty x
            then handle_all handle ls w
            else handle (strip_return x) (handle_all handle ls w))
  last_line ls [] w = refl
  last_line ls (c ∷ x) w = refl

  -- The end of the stream.
  ending :
      (ls : List Bytes) (x : Bytes) (w : Wire)
      → let w' = handle_all handle ls w in
        tee_end max handle (behind max handle [] ls x w) ≡ (
          if leb max (length x)
          then stands max handle (take max x) true (unlines ls ++ take max x) w'
          else stands max handle [] false
              (unlines ls ++ x)
              (if is_empty x then w' else handle (strip_return x) w'))
  unfolding tee_end
  ending ls x w = elim (Bool-cases (leb max (length x))) [
    | inl long ↦ rw long refl
    | inr short ↦ rw (short, take-short max x (ground arith)) (last_line ls x w)
  ]

  -- Of any stream, made of the lines `ls` that fit the buffer and of `x` behind them, which has no
  -- newline where it would fit, the scanner delivers the lines in order. If `x` is shorter than the
  -- buffer, it is delivered as the last line, unless it is empty, and the whole stream was copied.
  -- Else the scanner gives up: of `x` nothing is delivered, its first `max` bytes were copied, and
  -- nothing behind them ever is.
  pub tee_all-copies :
      (ps : List Bytes) (w : Wire) (ls : List Bytes) (x : Bytes)
      → 0 < max
      → InRoom max handle ps (new_tee w)
      → joined ps ≡ unlines ls ++ x
      → All IsLine ls
      → All (λ l. length l < max) ls
      → NoLineBelow max x
      → let w' = handle_all handle ls w in
        tee_all max handle ps (new_tee w) ≡ (
          if leb max (length x)
          then stands max handle (take max x) true (unlines ls ++ take max x) w'
          else stands max handle [] false
              (unlines ls ++ x)
              (if is_empty x then w' else handle (strip_return x) w'))
  unfolding tee_all
  tee_all-copies ps w ls x positive room e hl fits tail =
      ap (tee_end max handle) (
        tee_reads-behind max handle ps [] [] w ls x (new_tee w) refl nil-IsLine positive room e hl
          fits tail)
      ∙ ending ls x w
