-- ===== src/Transport/Stdio/Command.antt =====
-- internal/transport/stdio.go: `Start`, up to the goroutines that read. The command's pipes and its
-- start may fail; no call is deferred.
use mcpwatch.Base.{
  ℕ, ◌≡◌, ◌↔◌, Bool, Option, none, some, List, [], ◌∷◌, Bytes, codes, is_empty, if◌then◌else◌,
}
use mcpwatch.Transport.Defer.{Step, tries, run_steps}
use mcpwatch.Transport.Defer.Scopes.{Taken, run_steps-none}

-- The shell and its arguments.
abbrev pub shell : Bool → Bytes → List Bytes
shell windows command =
    if windows
    then codes "cmd" ∷ codes "/C" ∷ command ∷ []
    else codes "sh" ∷ codes "-c" ∷ command ∷ []

abbrev pub stdio_steps : List (Step {0} Unit)
stdio_steps =
    tries (codes "stdin pipe")
    ∷ tries (codes "stdout pipe")
    ∷ tries (codes "stderr pipe")
    ∷ tries (codes "start command")
    ∷ []

-- The text before the error that `Start` returns without having read anything, if it does.
unfoldable pub start_stdio : Bytes → (List Bytes → Step {0} Unit → Bool) → Bool → Option Bytes
start_stdio command ok windows =
    if is_empty command
    then some (codes "empty command")
    else (run_steps (ok (shell windows command)) [] stdio_steps []).error

-- The three loops run exactly if there is a command and each step is taken.
start_stdio-none :
    (b : ℕ) (command : Bytes) (ok : List Bytes → Step {0} Unit → Bool) (windows : Bool)
    → (start_stdio (b ∷ command) ok windows ≡ none)
      ↔ Taken (ok (shell windows (b ∷ command))) [] stdio_steps
unfolding start_stdio
start_stdio-none b command ok windows =
    run_steps-none (ok (shell windows (b ∷ command))) [] stdio_steps []
