-- ===== src/Transport/Socket/Connection/Merges.antt =====
-- The lines of the two sides of a connection in one order.
use mcpwatch.Base.{List, [], ◌∷◌, ◌++◌, map, Bytes}

-- A line and the side that it comes from.
pub data Sent : Type 0 where
  by_client by_target : Bytes → Sent

-- The lines of both sides in one order that keeps each side's.
pub data Merge : List Bytes → List Bytes → List Sent → Type 0 where
  done : Merge [] [] []
  next_client :
      {ls ms : List Bytes} {zs : List Sent} (l : Bytes)
      → Merge ls ms zs
      → Merge (l ∷ ls) ms (by_client l ∷ zs)
  next_target :
      {ls ms : List Bytes} {zs : List Sent} (m : Bytes)
      → Merge ls ms zs
      → Merge ls (m ∷ ms) (by_target m ∷ zs)

pub client_first :
    (ks : List Bytes) {ls ms : List Bytes} {zs : List Sent}
    → Merge ls ms zs
    → Merge (ks ++ ls) ms (map by_client ks ++ zs)
client_first [] m = m
client_first (k ∷ ks) m = Merge.next_client k (client_first ks m)

pub target_first :
    (ks : List Bytes) {ls ms : List Bytes} {zs : List Sent}
    → Merge ls ms zs
    → Merge ls (ks ++ ms) (map by_target ks ++ zs)
target_first [] m = m
target_first (k ∷ ks) m = Merge.next_target k (target_first ks m)
