-- ===== src/Transport/Stdio/Session.antt =====
-- internal/transport/stdio.go: the three goroutines of `Start` side by side, on one channel of
-- messages.
pub mod Alone
use mcpwatch.Base.{List, [], ◌∷◌, Bytes}
use mcpwatch.Engine.Parser.{Parser}
use mcpwatch.Transport.Stdio.{max_line, stdin_line, stdout_line, stderr_line}
use mcpwatch.Transport.Stdio.Tee.{Tee, new_tee, tee_read, tee_end}
use mcpwatch.Transport.Wire.{Wire}

-- The client's input, and the output and the errors of the command.
pub data Stream : Type 0 where
  input output errors : Stream

-- A read of a stream, or its end.
pub data StreamEvent : Type 0 where
  reads_bytes : Bytes → StreamEvent
  ends : StreamEvent

abbrev pub tee_event : (Bytes → Wire → Wire) → StreamEvent → Tee → Tee
tee_event handle (reads_bytes p) t = tee_read max_line handle t p
tee_event handle ends t = tee_end max_line handle t

pub record Session : Type 0 where
  pub stdin : Tee
  pub stdout : Tee
  pub stderr : Tee
  pub wire : Wire

abbrev pub new_session : Wire → Session
new_session w = record { stdin = new_tee w; stdout = new_tee w; stderr = new_tee w; wire = w }

abbrev pub tee_of : Stream → Session → Tee
tee_of input s = s.stdin
tee_of output s = s.stdout
tee_of errors s = s.stderr

abbrev pub set_tee : Stream → Tee → Session → Session
set_tee input t s = record s { stdin = t; wire = t.wire }
set_tee output t s = record s { stdout = t; wire = t.wire }
set_tee errors t s = record s { stderr = t; wire = t.wire }

module _ (parser : Parser) where
  -- The body of each stream's loop.
  abbrev pub line_of : Stream → Bytes → Wire → Wire
  line_of input = stdin_line parser
  line_of output = stdout_line parser
  line_of errors = stderr_line

  unfoldable pub session_step : Stream → StreamEvent → Session → Session
  session_step k e s = set_tee k (tee_event (line_of k) e (record (tee_of k s) { wire = s.wire })) s

  unfoldable pub session_run : List (Stream × StreamEvent) → Session → Session
  session_run [] s = s
  session_run ((k, e) ∷ es) s = session_run es (session_step k e s)
