-- ===== src/Transport/Stdio.antt =====
-- internal/transport/stdio.go: the three scanners over the streams of the wrapped command. A
-- scanner stops at a line that does not fit its buffer of a megabyte.
pub mod Laws
pub mod Tee
pub mod Session
pub mod Command
use mcpwatch.Base.{
  ℕ, ◌*◌, Bool, true, false, List, Bytes, codes, length, is_empty, ltb, if◌then◌else◌,
}
use mcpwatch.Engine.Parser.{Parser}
use mcpwatch.Transport.Cutter.{drain}
use mcpwatch.Transport.Lines.{line_cutter}
use mcpwatch.Transport.StreamBuffer.{strip_return}
use mcpwatch.Transport.Wire.{Wire, send_stderr, deliver}

abbrev pub stdio_type : Bytes
stdio_type = codes "stdio"

-- The buffer's size.
abbrev pub max_line : ℕ
max_line = 1024 * 1024

pub record Scanner : Type 0 where
  pub stopped : Bool
  pub wire : Wire

module _ (handle : Bytes → Wire → Wire) where
  -- A line that `bufio.Scanner` finds; a line and its newline have to fit the buffer.
  unfoldable pub scan_line : Bytes → Scanner → Scanner
  unfolding strip_return
  scan_line line s =
      if s.stopped
      then s
      else if ltb (length line) max_line
      then record s { wire = handle (strip_return line) s.wire }
      else record s { stopped = true }

  -- The loop over a stream that has ended, whose last line need not have a newline.
  unfoldable pub scan_input : Bytes → Wire → Scanner
  unfolding scan_line
  scan_input input w =
      let (rest, s) = drain line_cutter scan_line input (record { stopped = false; wire = w }) in
      if is_empty rest then s else scan_line rest s

-- The bodies of the three loops.
abbrev pub stdin_line : Parser → Bytes → Wire → Wire
stdin_line parser = deliver parser (codes "IN") stdio_type

abbrev pub stdout_line : Parser → Bytes → Wire → Wire
stdout_line parser = deliver parser (codes "OUT") stdio_type

abbrev pub stderr_line : Bytes → Wire → Wire
stderr_line = send_stderr stdio_type
