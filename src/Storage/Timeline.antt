-- ===== src/Storage/Timeline.antt =====
-- internal/storage/badger.go: what the database of messages stands for, a list in the order of time
-- and, at the same time, of ids.
mod Tests
pub mod Entries
pub mod Batch
pub mod History
pub mod Runs
pub mod Stored
use mcpwatch.Base.{
  ℕ, ◌<◌, ◌≡◌, refl, Bool, true, false, Bool-cases, inl, inr, ◌&&◌, ◌||◌, List, [], ◌∷◌, All, foldl,
  ltb, ◌==◌, if◌then◌else◌, arith,
}
use mcpwatch.Engine.Message.{Message}

-- `m` stands before `n`.
unfoldable pub precedes : Message → Message → Bool
precedes m n = ltb m.timestamp n.timestamp || (m.timestamp == n.timestamp && ltb m.id n.id)

-- A message takes its place, and that of a message with the same time and id.
unfoldable pub place : Message → List Message → List Message
place m [] = m ∷ []
place m (x ∷ xs) =
    let rest = place m xs in
    if precedes x m then x ∷ rest else if precedes m x then m ∷ x ∷ xs else m ∷ xs

abbrev pub place_all : List Message → List Message → List Message
place_all ms new = foldl (λ xs m. place m xs) ms new

abbrev Follow : Message → List Message → Type 0
Follow m ms = All (λ n. precedes m n ≡ true) ms

abbrev pub IsOrdered : List Message → Type 0
IsOrdered [] = Unit
IsOrdered (m ∷ ms) = Follow m ms × IsOrdered ms

precedes_trans : (l m n : Message) → precedes l m ≡ true → precedes m n ≡ true → precedes l n ≡ true
unfolding precedes
precedes_trans l m n h k = ground (arith, h, k)

-- Messages of which neither is first have the same place.
precedes-same :
    (l m n : Message)
    → precedes l m ≡ false
    → precedes m l ≡ false
    → precedes l n ≡ true
    → precedes m n ≡ true
unfolding precedes
precedes-same l m n h k p = ground (arith, h, k, p)

Follow-precedes :
    (l m : Message) (ms : List Message) → precedes l m ≡ true → Follow m ms → Follow l ms
Follow-precedes l m [] h f = f
Follow-precedes l m (n ∷ ms) h f = (precedes_trans l m n h f.0, Follow-precedes l m ms h f.1)

Follow-same :
    (l m : Message) (ms : List Message)
    → precedes l m ≡ false
    → precedes m l ≡ false
    → Follow l ms
    → Follow m ms
Follow-same l m [] h k f = f
Follow-same l m (n ∷ ms) h k f = (precedes-same l m n h k f.0, Follow-same l m ms h k f.1)

Follow-place :
    (l m : Message) (ms : List Message) → precedes l m ≡ true → Follow l ms → Follow l (place m ms)
unfolding place
Follow-place l m [] h f = (h, f)
Follow-place l m (x ∷ xs) h f = elim (Bool-cases (precedes x m)) [
  | inl e ↦ rw (e) (f.0, Follow-place l m xs h f.1)
  | inr e ↦ elim (Bool-cases (precedes m x)) [
    | inl g ↦ rw (e, g) (h, f)
    | inr g ↦ rw (e, g) (h, f.1)
  ]
]

place-IsOrdered : (m : Message) (ms : List Message) → IsOrdered ms → IsOrdered (place m ms)
unfolding place
place-IsOrdered m [] o = (o, o)
place-IsOrdered m (x ∷ xs) o = elim (Bool-cases (precedes x m)) [
  | inl e ↦ rw (e) (Follow-place x m xs e o.0, place-IsOrdered m xs o.1)
  | inr e ↦ elim (Bool-cases (precedes m x)) [
    | inl g ↦ rw (e, g) ((g, Follow-precedes m x xs g o.0), o)
    | inr g ↦ rw (e, g) (Follow-same x m xs e g o.0, o.1)
  ]
]

pub place_all-IsOrdered : (new ms : List Message) → IsOrdered ms → IsOrdered (place_all ms new)
place_all-IsOrdered [] ms o = o
place_all-IsOrdered (m ∷ new) ms o = place_all-IsOrdered new (place m ms) (place-IsOrdered m ms o)
