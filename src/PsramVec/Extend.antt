-- ===== src/PsramVec/Extend.antt =====
-- `lm_extend` and `lm_sort_from_iter` against the map that a vector stands for.
use Prim.Native.Nat.{Ordering}
use chiyocore.Base.{
  ◌+◌, ◌≤◌, ◌≡◌, ◌∙◌, refl, arith, true, Bool-cases, some, [], ◌∷◌, ◌++◌, inl, inr, leb, length,
  drop, take-length-append,
}
use chiyocore.PsramVec.{
  PsramVec, key_eq, count_ascending, sort_by, sort_dedup, sorted_run, lm_extend, partition_dedup_by,
}
use chiyocore.PsramVec.Runs.{last_of_runs}
use chiyocore.PsramVec.Dedup.{partition_dedup_by-last_of_runs}
use chiyocore.PsramVec.View.{
  IsOrder, view, update_all, view-append, view-sort_by, view-last_of_runs,
}
use chiyocore.PsramVec.Ascending.{
  IsAscending, count_ascending-IsAscending, sort_by-IsSorted, last_of_runs-IsAscending,
}

module _ {K V : Type 0} (cmp : K → K → Ordering) where
  -- A run that reaches the end, counted from the last old element.
  run-IsAscending :
      (x : K × V) (v iter : PsramVec K V)
      → IsAscending cmp (x ∷ v)
      → length (v ++ iter) ≤ length v + count_ascending cmp (drop (length v) (x ∷ (v ++ iter)))
      → IsAscending cmp (x ∷ (v ++ iter))
  unfolding IsAscending
  run-IsAscending x [] iter s h = count_ascending-IsAscending cmp x iter (omega arith)
  run-IsAscending x (y ∷ v) iter (first, s) h = (first, run-IsAscending y v iter s (ground arith))

  sorted_run-IsAscending :
      (v iter : PsramVec K V)
      → IsAscending cmp v
      → leb (length (v ++ iter)) (sorted_run cmp (length v) (v ++ iter)) ≡ true
      → IsAscending cmp (v ++ iter)
  unfolding sorted_run
  sorted_run-IsAscending [] [] s h = s
  sorted_run-IsAscending [] (x ∷ iter) s h = count_ascending-IsAscending cmp x iter (ground arith)
  sorted_run-IsAscending (x ∷ v) iter s h = run-IsAscending x v iter s (ground arith)

  sort_dedup-partition_dedup_by :
      (v dedup merged_dup : PsramVec K V)
      → partition_dedup_by (key_eq cmp) (sort_by cmp v) ≡ some (dedup, merged_dup)
      → sort_dedup cmp v ≡ some dedup
  unfolding sort_dedup
  sort_dedup-partition_dedup_by v dedup merged_dup e =
      ground (arith, e, take-length-append dedup merged_dup)

  sort_dedup-last_of_runs :
      (v : PsramVec K V) → sort_dedup cmp v ≡ some (last_of_runs (key_eq cmp) (sort_by cmp v))
  sort_dedup-last_of_runs v =
      let (merged_dup, e) = partition_dedup_by-last_of_runs (key_eq cmp) (sort_by cmp v) in
      sort_dedup-partition_dedup_by v _ merged_dup e

  -- `lm_extend` of a vector with ascending keys does not panic, leaves a vector with ascending keys, and
  -- this stands for the old map updated with the elements of the iterator in their order.
  pub lm_extend-update_all :
      IsOrder cmp
      → (v iter : PsramVec K V) → IsAscending cmp v
      → (w : PsramVec K V) × (lm_extend cmp v iter ≡ some w)
        × IsAscending cmp w
        × (view cmp w ≡ update_all cmp (view cmp v) iter)
  unfolding lm_extend
  lm_extend-update_all order v iter s =
      elim (Bool-cases (leb (length (v ++ iter)) (sorted_run cmp (length v) (v ++ iter)))) [
        | inl run ↦ (
          v ++ iter,
          rw run refl,
          sorted_run-IsAscending v iter s run,
          λ i k. view-append cmp (view cmp v) v iter (λ _. refl) k i,
        )
        | inr rest ↦ (
          last_of_runs (key_eq cmp) (sort_by cmp (v ++ iter)),
          rw rest (sort_dedup-last_of_runs (v ++ iter)),
          last_of_runs-IsAscending cmp order _ (sort_by-IsSorted cmp order (v ++ iter)),
          λ i k.
              (view-last_of_runs cmp order _ k
                  ∙ view-sort_by cmp order (v ++ iter) k
                  ∙ view-append cmp (view cmp v) v iter (λ _. refl) k)
                i,
        )
      ]
