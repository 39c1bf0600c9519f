-- ===== src/Transport/Stdio/Tee.antt =====
-- internal/transport/stdio.go: the scanners over their `io.TeeReader`. What a scanner reads is
-- written to the other side before the scanner sees it, and nothing else is.
pub mod Reads
pub mod Copies
use mcpwatch.Base.{
  ℕ, ◌+◌, ◌≤◌, ◌≡◌, Bool, true, false, List, [], ◌∷◌, ◌++◌, foldl, Bytes, length, is_empty, leb,
  if◌then◌else◌,
}
use mcpwatch.Transport.Cutter.{drain}
use mcpwatch.Transport.Lines.{line_cutter}
use mcpwatch.Transport.StreamBuffer.{strip_return}
use mcpwatch.Transport.Wire.{Wire}

-- The scanner's buffer, whether the loop has ended with a line that is too long, what was copied,
-- and what was delivered.
pub record Tee : Type 0 where
  pub buf : Bytes
  pub stopped : Bool
  pub copied : Bytes
  pub wire : Wire

abbrev pub new_tee : Wire → Tee
new_tee w = record { buf = []; stopped = false; copied = []; wire = w }

-- `max` is the size of the scanner's buffer.
module _ (max : ℕ) (handle : Bytes → Wire → Wire) where
  -- A read that fills a part of the buffer, and the lines that are complete then. Where a line
  -- fills the buffer the scanner gives up, and no more is read.
  unfoldable pub tee_read : Tee → Bytes → Tee
  tee_read s p =
      if s.stopped
      then s
      else (let (rest, w') = drain line_cutter (λ l. handle (strip_return l)) (s.buf ++ p) s.wire in
          record { buf = rest; stopped = leb max (length rest); copied = s.copied ++ p; wire = w' })

  -- The end of the stream: the unfinished line is a line, unless it is empty.
  unfoldable pub tee_end : Tee → Tee
  tee_end s =
      if s.stopped
      then s
      else if is_empty s.buf
      then s
      else record s { buf = []; wire = handle (strip_return s.buf) s.wire }

  -- The loop, over the reads up to the end of the stream.
  unfoldable pub tee_all : List Bytes → Tee → Tee
  tee_all ps s = tee_end (foldl tee_read s ps)

  -- A read gives no more than the buffer has room for.
  abbrev pub InRoom : List Bytes → Tee → Type 0
  InRoom [] s = Unit
  InRoom (p ∷ ps) s = (s.stopped ≡ false → length s.buf + length p ≤ max) × InRoom ps (tee_read s p)
