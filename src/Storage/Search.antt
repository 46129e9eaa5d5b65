-- ===== src/Storage/Search.antt =====
-- `slice::binary_search_by` of Rust's standard library, and the order that it wants.
use Prim.Native.Nat.{Ordering}
use Prim.Native.Nat.Ordering.{lt, eq, gt}
use chiyocore.Base.{ℕ, suc, List, [], ◌∷◌}

-- `Ok(i)` and `Err(i)`.
pub data Search : Type 0 where
  found : ℕ → Search
  missing : ℕ → Search

abbrev pub bump : Search → Search
bump (found i) = found (suc i)
bump (missing i) = missing (suc i)

-- The documented result on a slice that `f` orders: an index where `f` is equal, else the index where
-- such an element could be inserted. (It is found by a scan here; where several elements are equal the
-- standard library may return another of them.)
unfoldable pub binary_search_by {ℓ} : {A : Type ℓ} → (A → Ordering) → List A → Search
binary_search_by f [] = missing 0
binary_search_by f (x ∷ xs) = elim (f x) [
  | lt ↦ bump (binary_search_by f xs)
  | eq ↦ found 0
  | gt ↦ missing 0
]
