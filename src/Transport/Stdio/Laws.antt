-- ===== src/Transport/Stdio/Laws.antt =====
-- What a scanner delivers, and where it stops.
use mcpwatch.Base.{
  ◌<◌, ◌≤◌, ◌≡◌, refl, ap, ◌∙◌, true, false, List, [], ◌∷◌, ◌++◌, foldl, foldl-append, Bytes,
  length, All, is_empty, if◌then◌else◌, arith,
}
use mcpwatch.Transport.Lines.{unlines, IsLine, drain-unlines}
use mcpwatch.Transport.StreamBuffer.{strip_return}
use mcpwatch.Transport.Stdio.{max_line, Scanner, scan_line, scan_input}
use mcpwatch.Transport.Wire.{Wire}

abbrev pub Fits : Bytes → Type 0
Fits line = length line < max_line

module _ (handle : Bytes → Wire → Wire) where
  abbrev pub at_end : Wire → Scanner
  at_end w = record { stopped = false; wire = w }

  -- The lines in order, each without a carriage return at its end.
  abbrev pub handle_all : List Bytes → Wire → Wire
  handle_all ls w = foldl (λ v l. handle (strip_return l) v) w ls

  scan_line-Fits :
      (l : Bytes) (w : Wire)
      → Fits l
      → scan_line handle l (at_end w) ≡ at_end (handle (strip_return l) w)
  unfolding scan_line
  scan_line-Fits l w f = ground (arith, f)

  scan_lines-Fits :
      (ls : List Bytes) (w : Wire)
      → All Fits ls
      → foldl (λ s l. scan_line handle l s) (at_end w) ls ≡ at_end (handle_all ls w)
  scan_lines-Fits [] w f = refl
  scan_lines-Fits (l ∷ ls) w f =
      ap (λ s. foldl (λ s l. scan_line handle l s) s ls) (scan_line-Fits l w f.0)
      ∙ scan_lines-Fits ls (handle (strip_return l) w) f.1

  scan_line-stopped :
      (l : Bytes) (w : Wire)
      → scan_line handle l (record { stopped = true; wire = w })
        ≡ record { stopped = true; wire = w }
  unfolding scan_line
  scan_line-stopped l w = refl

  scan_lines-stopped :
      (ls : List Bytes) (w : Wire)
      → foldl (λ s l. scan_line handle l s) (record { stopped = true; wire = w }) ls
        ≡ record { stopped = true; wire = w }
  scan_lines-stopped [] w = refl
  scan_lines-stopped (l ∷ ls) w =
      ap (λ s. foldl (λ s l. scan_line handle l s) s ls) (scan_line-stopped l w)
      ∙ scan_lines-stopped ls w

  scan_line-long :
      (l : Bytes) (w : Wire)
      → max_line ≤ length l
      → scan_line handle l (at_end w) ≡ record { stopped = true; wire = w }
  unfolding scan_line
  scan_line-long l w f = ground (arith, f)

  abbrev last_line : Bytes → Scanner → Scanner
  last_line rest s = if is_empty rest then s else scan_line handle rest s

  scan_input-unlines :
      (ls : List Bytes) (rest : Bytes) (w : Wire)
      → All IsLine ls
      → IsLine rest
      → scan_input handle (unlines ls ++ rest) w
        ≡ last_line rest (foldl (λ s l. scan_line handle l s) (at_end w) ls)
  unfolding scan_input
  scan_input-unlines ls rest w hl hr =
      ap (λ x. last_line x.0 x.1) (drain-unlines (scan_line handle) ls rest (at_end w) hl hr)

  last_line-Fits :
      (rest : Bytes) (w : Wire)
      → Fits rest
      → last_line rest (at_end w)
        ≡ at_end (if is_empty rest then w else handle (strip_return rest) w)
  last_line-Fits [] w f = refl
  last_line-Fits (c ∷ rest) w f = scan_line-Fits (c ∷ rest) w f

  last_line-stopped :
      (rest : Bytes) (w : Wire)
      → last_line rest (record { stopped = true; wire = w }) ≡ record { stopped = true; wire = w }
  last_line-stopped [] w = refl
  last_line-stopped (c ∷ rest) w = scan_line-stopped (c ∷ rest) w

  -- Of a stream whose lines fit the buffer every line is delivered, once and in order, the last one
  -- also where no newline ends it.
  pub scan_input-lines :
      (ls : List Bytes) (rest : Bytes) (w : Wire)
      → All IsLine ls
      → IsLine rest
      → All Fits ls
      → Fits rest
      → let w' = handle_all ls w in
        scan_input handle (unlines ls ++ rest) w
        ≡ at_end (if is_empty rest then w' else handle (strip_return rest) w')
  scan_input-lines ls rest w hl hr fl fr =
      scan_input-unlines ls rest w hl hr
      ∙ ap (last_line rest) (scan_lines-Fits ls w fl)
      ∙ last_line-Fits rest (handle_all ls w) fr

  -- A line that does not fit the buffer stops the scanner: nothing of it and nothing behind it is
  -- delivered.
  pub scan_input-stops :
      (ls : List Bytes) (long : Bytes) (more : List Bytes) (rest : Bytes) (w : Wire)
      → All IsLine (ls ++ long ∷ more)
      → IsLine rest
      → All Fits ls
      → max_line ≤ length long
      → scan_input handle (unlines (ls ++ long ∷ more) ++ rest) w
        ≡ record { stopped = true; wire = handle_all ls w }
  scan_input-stops ls long more rest w hl hr fl over =
      let step = λ (s : Scanner) (l : Bytes). scan_line handle l s in
      scan_input-unlines (ls ++ long ∷ more) rest w hl hr
      ∙ ap (last_line rest) (
          foldl-append step (at_end w) ls (long ∷ more)
          ∙ ap (λ s. foldl step (step s long) more) (scan_lines-Fits ls w fl)
          ∙ ap (λ s. foldl step s more) (scan_line-long long (handle_all ls w) over)
          ∙ scan_lines-stopped more (handle_all ls w))
      ∙ last_line-stopped rest (handle_all ls w)
