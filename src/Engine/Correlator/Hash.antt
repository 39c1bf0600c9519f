-- ===== src/Engine/Correlator/Hash.antt =====
-- The hash against the polynomial that it computes.
use mcpwatch.Base.{ℕ, ◌+◌, ◌*◌, ◌%◌, ◌^◌, ◌<◌, ◌≡◌, ◌∙◌, [], ◌∷◌, Bytes, arith}
use mcpwatch.Engine.Correlator.{num_slots, hash_from, hash_string, slot_index}

-- The bytes as digits to the base 31, with no bound on the number.
abbrev pub poly : ℕ → Bytes → ℕ
poly h [] = h
poly h (b ∷ s) = poly (h * 31 + b) s

poly_mod : (s : Bytes) (h k : ℕ) → h % 2 ^ 32 ≡ k % 2 ^ 32 → poly h s % 2 ^ 32 ≡ poly k s % 2 ^ 32
poly_mod [] h k e = e
poly_mod (b ∷ s) h k e = poly_mod s (h * 31 + b) (k * 31 + b) (omega arith)

hash_from-poly : (s : Bytes) (h : ℕ) → h < 2 ^ 32 → hash_from h s ≡ poly h s % 2 ^ 32
unfolding hash_from
hash_from-poly [] h lt = omega arith
hash_from-poly (b ∷ s) h lt =
    hash_from-poly s ((h * 31 + b) % 2 ^ 32) (omega arith)
    ∙ poly_mod s ((h * 31 + b) % 2 ^ 32) (h * 31 + b) (omega arith)

-- The 32-bit overflow does not show in the slot: it is the remainder of the unbounded number.
pub slot_index-poly :
    (s : Bytes) → (slot_index s ≡ poly 0 s % num_slots) × (slot_index s < num_slots)
unfolding slot_index hash_string
slot_index-poly s = let e = hash_from-poly s 0 (omega arith) in (omega (arith, e), omega arith)
