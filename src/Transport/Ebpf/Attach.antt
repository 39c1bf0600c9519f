-- ===== src/Transport/Ebpf/Attach.antt =====
-- internal/transport/ebpf_linux.go: `Start`, from the attachment to the kernel to its return, and
-- internal/transport/ebpf_stub.go.
pub mod Released
use mcpwatch.Base.{
  ℕ, ◌-◌, ◌%◌, ◌^◌, Bool, true, Option, none, some, List, [], ◌∷◌, ◌++◌, Bytes, codes,
}
use mcpwatch.Base.Int.{ℤ, pos, negsuc}
use mcpwatch.Engine.Parser.{Parser}
use mcpwatch.Transport.Defer.{
  Call, opens, closes, Step, acquires, tries, defers, Returned, run_steps, unwind,
}
use mcpwatch.Transport.Ebpf.{PerfRecord, Outcome, running, new_streams, listen}
use mcpwatch.Transport.Wire.{Wire}

pub data Resource : Type 0 where
  objects tp_write tp_read_enter tp_read_exit reader : Resource

-- `uint32(h.pid)`.
abbrev pub config_value : ℤ → ℕ
config_value (pos n) = n % 2 ^ 32
config_value (negsuc n) = 2 ^ 32 - 1 - n % 2 ^ 32

abbrev pub attach_steps : List (Step Resource)
attach_steps =
    acquires objects (codes "loading objects")
    ∷ defers objects
    ∷ tries (codes "failed to set target PID")
    ∷ acquires tp_write (codes "opening sys_enter_write tracepoint")
    ∷ defers tp_write
    ∷ acquires tp_read_enter (codes "opening sys_enter_read tracepoint")
    ∷ defers tp_read_enter
    ∷ acquires tp_read_exit (codes "opening sys_exit_read tracepoint")
    ∷ defers tp_read_exit
    ∷ acquires reader (codes "creating perf event reader")
    ∷ defers reader
    ∷ []

-- What the kernel answers to each step.
abbrev pub Kernel : Type 0
Kernel = Step Resource → Bool

-- The calls on resources until `Start` has returned. Once attached it returns only after the reader
-- was closed by the goroutine that waits for the context.
unfoldable pub attach : Kernel → Returned Resource
attach kernel = run_steps kernel (closes reader ∷ []) attach_steps []

-- `Start` returns an error, or runs the loop, whose return is its own.
pub data Started : Type 0 where
  refused : Bytes → Started
  attached : Outcome → Started

abbrev pub after_attach : Parser → Option Bytes → List PerfRecord → Wire → Started
after_attach parser (some text) rs w = refused text
after_attach parser none rs w = attached (listen parser rs (running new_streams w))

unfoldable pub start_ebpf : Parser → Kernel → List PerfRecord → Wire → Started
start_ebpf parser kernel rs w = after_attach parser (attach kernel).error rs w

-- `Start` on other systems.
abbrev pub start_stub : Started
start_stub = refused (
    codes
      "eBPF interception is natively supported on Linux only. Please run this command on a Linux system or WSL2")
