-- ===== src/Storage/Key.antt =====
-- internal/storage/badger.go: the key of a message, `fmt.Sprintf("msg:%019d:%06d", t.UnixNano(),
-- id)`.
pub mod Order
use mcpwatch.Base.{
  ℕ, zero, suc, ◌+◌, ◌-◌, ◌*◌, ◌/◌, ◌%◌, List, [], ◌∷◌, ◌++◌, Bytes, codes, ◌==◌, if◌then◌else◌,
}
use mcpwatch.Base.Int.{ℤ, pos, negsuc, sub_ℕ, wrap64}

-- The decimal digits of a number of at most `fuel` digits; none for 0.
unfoldable pub digits : ℕ → ℕ → Bytes
digits zero n = []
digits (suc fuel) n =
    let rest = digits fuel (n / 10) in if n == 0 then [] else rest ++ (48 + n % 10) ∷ []

-- `%0wd` of a number below 2 ^ 64, which has 20 digits at most: `w` digits at least.
unfoldable pub padded : ℕ → ℕ → Bytes
unfolding digits
padded zero n = digits 20 n
padded (suc w) n = padded w (n / 10) ++ (48 + n % 10) ∷ []

-- The sign takes a place of the width.
unfoldable pub padded_ℤ : ℕ → ℤ → Bytes
padded_ℤ w (pos n) = padded w n
padded_ℤ w (negsuc n) = b'-' ∷ padded (w - 1) (suc n)

-- From the zero time to the Unix epoch.
abbrev pub unix_epoch : ℕ
unix_epoch = 62_135_596_800 * 1_000_000_000

-- `t.UnixNano()`.
abbrev pub unix_nano : ℕ → ℤ
unix_nano t = wrap64 (sub_ℕ t unix_epoch)

unfoldable pub message_key : ℤ → ℕ → Bytes
unfolding padded_ℤ
message_key nano id = codes "msg:" ++ (padded_ℤ 19 nano ++ (codes ":" ++ padded 6 id))
