-- ===== src/Transport/Space.antt =====
-- `bytes.TrimSpace` and `strings.TrimSpace`: white space is that of Unicode, in UTF-8. A byte that
-- begins no encoding of a white space character stops the trimming on its side.
use mcpwatch.Base.{
  ℕ, zero, suc, Bool, ◌&&◌, ◌||◌, [], ◌∷◌, reverse, Bytes, leb, ◌==◌, if◌then◌else◌,
}

-- Tab, newline, vertical tab, form feed, carriage return and space.
unfoldable pub is_ascii_space : ℕ → Bool
is_ascii_space c = (leb 9 c && leb c 13) || c == 32

-- U+0085 and U+00A0.
unfoldable pub is_space2 : ℕ → ℕ → Bool
is_space2 a b = a == 0xc2 && (b == 0x85 || b == 0xa0)

-- U+1680, U+2000 to U+200A, U+2028, U+2029, U+202F, U+205F and U+3000.
unfoldable pub is_space3 : ℕ → ℕ → ℕ → Bool
is_space3 a b c =
    (a == 0xe1 && b == 0x9a && c == 0x80)
    || (a == 0xe2
        && b == 0x80
        && ((leb 0x80 c && leb c 0x8a) || c == 0xa8 || c == 0xa9 || c == 0xaf))
    || (a == 0xe2 && b == 0x81 && c == 0x9f)
    || (a == 0xe3 && b == 0x80 && c == 0x80)

-- How many bytes the white space character at the front takes; 0 if there is none.
unfoldable pub front_space : Bytes → ℕ
unfolding is_ascii_space is_space2 is_space3
front_space [] = 0
front_space (a ∷ []) = if is_ascii_space a then 1 else 0
front_space (a ∷ b ∷ []) = if is_ascii_space a then 1 else if is_space2 a b then 2 else 0
front_space (a ∷ b ∷ c ∷ s) =
    if is_ascii_space a then 1 else if is_space2 a b then 2 else if is_space3 a b c then 3 else 0

-- The same at the end, of the bytes from the last to the first.
unfoldable pub back_space : Bytes → ℕ
unfolding is_ascii_space is_space2 is_space3
back_space [] = 0
back_space (a ∷ []) = if is_ascii_space a then 1 else 0
back_space (b ∷ a ∷ []) = if is_ascii_space b then 1 else if is_space2 a b then 2 else 0
back_space (c ∷ b ∷ a ∷ s) =
    if is_ascii_space c then 1 else if is_space2 b c then 2 else if is_space3 a b c then 3 else 0

module _ (space : Bytes → ℕ) where
  -- Skip `k` bytes, and then all white space.
  unfoldable pub skip : ℕ → Bytes → Bytes
  skip k [] = []
  skip (suc k) (c ∷ s) = skip k s
  skip zero (c ∷ s) = elim (space (c ∷ s)) [ zero ↦ c ∷ s | suc k ↦ skip k s ]

unfoldable pub trim_space : Bytes → Bytes
unfolding skip front_space back_space
trim_space s = reverse (skip back_space 0 (reverse (skip front_space 0 s)))
