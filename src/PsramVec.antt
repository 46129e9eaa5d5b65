-- ===== src/PsramVec.antt =====
-- `PSRAMVec` of firmware/chiyocore/src/psram_vec.rs, the store of a sorted map: a list of pairs of
-- a key and a value. Sorting is that of Rust's standard library, a stable one (by insertion here).
pub mod Runs
pub mod Rounds
pub mod Dedup
pub mod View
pub mod Ascending
pub mod Extend
use Prim.Native.Nat.{Ordering}
use Prim.Native.Nat.Ordering.{lt, eq, gt}
use chiyocore.Base.{
  ℕ, zero, suc, ◌+◌, ◌-◌, Bool, true, false, ◌&&◌, Option, none, some, List, [], ◌∷◌, ◌++◌,
  if◌then◌else◌, ltb, leb, ◌==◌, length, get_elem?, set, insert_at, remove_at, take, drop,
}
use chiyocore.Storage.Search.{Search, binary_search_by}

module _ {A : Type 0} where
  -- `last`.
  unfoldable pub last : List A → Option A
  last [] = none
  last (x ∷ []) = some x
  last (x ∷ y ∷ rest) = last (y ∷ rest)

  -- `mem::swap` of the elements at two indices within bounds.
  abbrev pub swap : List A → ℕ → A → ℕ → A → List A
  swap v i x j y = set (set v i y) j x

module _ (K V : Type 0) where
  abbrev pub PsramVec : Type 0
  PsramVec = List (K × V)

module _ {K V : Type 0} where
  abbrev pub new : PsramVec K V
  new = []

  abbrev pub lm_len : PsramVec K V → ℕ
  lm_len v = length v

  abbrev pub lm_is_empty : PsramVec K V → Bool
  lm_is_empty [] = true
  lm_is_empty (_ ∷ _) = false

  abbrev pub lm_get : PsramVec K V → ℕ → Option (K × V)
  lm_get v index = get_elem? v index

  abbrev pub lm_last : PsramVec K V → Option (K × V)
  lm_last v = last v

  unfoldable pub lm_binary_search_by : (K → Ordering) → PsramVec K V → Search
  lm_binary_search_by cmp v = binary_search_by (λ kv. cmp kv.0) v

  -- `get` of a range.
  unfoldable pub lm_get_range : PsramVec K V → ℕ → ℕ → Option (PsramVec K V)
  lm_get_range v from to =
      if leb from to && leb to (length v) then some (take (to - from) (drop from v)) else none

  unfoldable pub lm_push : PsramVec K V → K → V → PsramVec K V
  lm_push v key value = v ++ ((key, value) ∷ [])

  -- `none` is the panic of an index past the end, here and in `lm_remove`.
  unfoldable pub lm_insert : PsramVec K V → ℕ → K → V → Option (PsramVec K V)
  lm_insert v index key value =
      if leb index (length v) then some (insert_at v index (key, value)) else none

  unfoldable pub lm_remove : PsramVec K V → ℕ → Option ((K × V) × PsramVec K V)
  lm_remove v index = elim (get_elem? v index) [
    | none ↦ none
    | some x ↦ some (x, remove_at v index)
  ]

  abbrev pub lm_clear : PsramVec K V → PsramVec K V
  lm_clear _ = []

  unfoldable pub lm_retain : (K → V → Bool) → PsramVec K V → PsramVec K V
  lm_retain predicate [] = []
  lm_retain predicate ((k, x) ∷ rest) =
      let kept = lm_retain predicate rest in if predicate k x then (k, x) ∷ kept else kept

  abbrev pub lm_extend_end : PsramVec K V → PsramVec K V → PsramVec K V
  lm_extend_end v other = v ++ other

  abbrev pub lm_extend_start : PsramVec K V → PsramVec K V → PsramVec K V
  lm_extend_start v other = other ++ v

module _ {K V : Type 0} (same : K → K → Bool) where
  -- The `while` of `partition_dedup_by` with at most `fuel` rounds, `none` when they run out or an
  -- index is out of bounds.
  unfoldable pub dedup_loop : (fuel : ℕ) → PsramVec K V → ℕ → ℕ → Option (PsramVec K V × ℕ)
  dedup_loop zero v read_idx write_idx = none
  dedup_loop (suc fuel) v read_idx write_idx = elim (get_elem? v read_idx) [
    | none ↦ some (v, write_idx)
    | some read ↦ elim (get_elem? (take read_idx v) (write_idx - 1)) [
      | none ↦ none
      | some prev_write ↦ elim (same read.0 prev_write.0) [
        | true ↦
            dedup_loop fuel (swap v read_idx read (write_idx - 1) prev_write) (suc read_idx)
              write_idx
        | false ↦ elim (get_elem? (take read_idx v) write_idx) [
          | some write ↦
              dedup_loop fuel (swap v read_idx read write_idx write) (suc read_idx) (suc write_idx)
          | none ↦ dedup_loop fuel v (suc read_idx) (suc write_idx)
        ]
      ]
    ]
  ]

  -- The two slices.
  unfoldable pub partition_dedup_by : PsramVec K V → Option (PsramVec K V × PsramVec K V)
  partition_dedup_by v =
      if leb (length v) 1 then some (v, []) else elim (dedup_loop (length v) v 1 1) [
        | none ↦ none
        | some (w, write_idx) ↦ some (take write_idx w, drop write_idx w)
      ]

module _ {K : Type 0} (cmp : K → K → Ordering) where
  abbrev pub key_lt : K → K → Bool
  key_lt a b = elim (cmp a b) [ lt ↦ true | _ ↦ false ]

  abbrev pub key_eq : K → K → Bool
  key_eq a b = elim (cmp a b) [ eq ↦ true | _ ↦ false ]

module _ {K V : Type 0} (cmp : K → K → Ordering) where
  -- `windows(2)`, `take_while` and `count`.
  unfoldable pub count_ascending : PsramVec K V → ℕ
  count_ascending [] = 0
  count_ascending (x ∷ []) = 0
  count_ascending (x ∷ y ∷ rest) =
      let n = count_ascending (y ∷ rest) in if key_lt cmp x.0 y.0 then suc n else 0

  -- `sort_by` on the keys: an element goes before those that are equal to it, which came later.
  unfoldable pub insert_sorted : K × V → PsramVec K V → PsramVec K V
  insert_sorted x [] = x ∷ []
  insert_sorted x (y ∷ rest) =
      let further = insert_sorted x rest in if key_lt cmp y.0 x.0 then y ∷ further else x ∷ y ∷ rest

  unfoldable pub sort_by : PsramVec K V → PsramVec K V
  sort_by [] = []
  sort_by (x ∷ rest) = insert_sorted x (sort_by rest)

  -- The part of `lm_extend` from `sort_by` on; `none` is a panic of `partition_dedup_by`.
  unfoldable pub sort_dedup : PsramVec K V → Option (PsramVec K V)
  sort_dedup v = elim (partition_dedup_by (key_eq cmp) (sort_by v)) [
    | none ↦ none
    | some (dedup, merged_dup) ↦ some (take (length dedup) (dedup ++ merged_dup))
  ]

  -- The length of the sorted run, as `lm_extend` counts it from that of the old elements.
  unfoldable pub sorted_run : ℕ → PsramVec K V → ℕ
  sorted_run old v =
      let run = old + count_ascending (drop (old - 1) v) in
      if (run == 0) && not_empty v then suc run else run
    where
      not_empty : PsramVec K V → Bool
      not_empty [] = false
      not_empty (_ ∷ _) = true

  unfoldable pub lm_extend : PsramVec K V → PsramVec K V → Option (PsramVec K V)
  lm_extend v iter =
      let extended = v ++ iter in
      if leb (length extended) (sorted_run (length v) extended)
      then some extended
      else sort_dedup extended

  unfoldable pub lm_sort_from_iter : PsramVec K V → Option (PsramVec K V)
  lm_sort_from_iter iter = lm_extend [] iter
