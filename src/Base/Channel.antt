-- ===== src/Base/Channel.antt =====
-- Buffered channels.
use Prim.Native.Nat.{ℕ, ◌≤◌}
use mathlib.Core.Path.{◌≡◌}
use mathlib.Core.List.{List, [], ◌∷◌, ◌++◌}
use native.Mathlib.Omega.{arith}
use mcpwatch.Base.Tests.{ltb, if◌then◌else◌}
use mcpwatch.Base.Lists.{length, length-append}

pub record Channel {ℓ} (A : Type ℓ) : Type ℓ where
  pub capacity : ℕ
  pub items : List A

module _ {ℓ} {A : Type ℓ} where
  -- `select { case ch <- a: default: }`: a full channel drops the value.
  unfoldable pub try_send : A → Channel A → Channel A
  try_send a ch =
      if ltb (length ch.items) ch.capacity then record ch { items = ch.items ++ a ∷ [] } else ch

  abbrev pub IsBounded : Channel A → Type 0
  IsBounded ch = length ch.items ≤ ch.capacity

  pub try_send-IsBounded : (a : A) (ch : Channel A) → IsBounded ch → IsBounded (try_send a ch)
  unfolding try_send
  try_send-IsBounded a ch h = ground (arith, length-append ch.items (a ∷ []))

  pub capacity-try_send : (a : A) (ch : Channel A) → (try_send a ch).capacity ≡ ch.capacity
  unfolding try_send
  capacity-try_send a ch = ground arith
