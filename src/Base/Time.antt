-- ===== src/Base/Time.antt =====
-- Package time: instants as nanoseconds since the zero time (the year 1), durations as signed
-- 64-bit nanoseconds, and a clock that a run reads any number of times.
use Prim.Native.Nat.{ℕ, suc, ◌-◌, ◌^◌}
use mcpwatch.Base.Tests.{ltb, if◌then◌else◌}
use mcpwatch.Base.Int.{ℤ, pos, negsuc, sub_ℕ, div_ℤ}

-- The readings that `time.Now` returns, and how many were taken.
pub record Clock : Type 0 where
  pub at : ℕ → ℕ
  pub reads : ℕ

abbrev pub now : Clock → ℕ
now c = c.at c.reads

abbrev pub tick : Clock → Clock
tick c = record c { reads = suc c.reads }

abbrev pub int64_max : ℕ
int64_max = 2 ^ 63 - 1

-- A difference of instants stops at the largest and the smallest duration.
abbrev pub saturate : ℤ → ℤ
saturate (pos n) = if ltb int64_max n then pos int64_max else pos n
saturate (negsuc n) = if ltb int64_max n then negsuc int64_max else negsuc n

-- `time.Since(t)`, read at `n`.
abbrev pub since : ℕ → ℕ → ℤ
since n t = saturate (sub_ℕ n t)

-- `d.Milliseconds()`.
abbrev pub milliseconds : ℤ → ℤ
milliseconds d = div_ℤ d 1_000_000
