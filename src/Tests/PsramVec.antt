-- ===== src/Tests/PsramVec.antt =====
-- A sorted vector at concrete inputs.
use Prim.Native.Nat.{compare}
use chiyocore.Base.{ℕ, ◌≡◌, refl, some, [], ◌∷◌, ◌==◌, arith}
use chiyocore.PsramVec.{PsramVec, partition_dedup_by, lm_extend}
use chiyocore.PsramVec.Runs.{last_of_runs}
use chiyocore.PsramVec.Dedup.{partition_dedup_by-last_of_runs}
use chiyocore.PsramVec.View.{IsOrder, view, update_all}
use chiyocore.PsramVec.Ascending.{IsAscending}
use chiyocore.PsramVec.Extend.{lm_extend-update_all}

compare-IsOrder : IsOrder compare
compare-IsOrder = record {
  equal = λ a b h. ground arith;
  reflexive = λ a. ground arith;
  greater = λ a b h. ground arith;
}

-- The run of the example in the source.
abbrev letters : PsramVec ℕ ℕ
letters = (97, 0) ∷ (98, 0) ∷ (98, 1) ∷ (99, 0) ∷ (100, 0) ∷ (100, 1) ∷ []

partition_dedup_by-last_of_runs_example :
    (merged_dup : PsramVec ℕ ℕ) × (partition_dedup_by ◌==◌ letters
      ≡ some (last_of_runs ◌==◌ letters, merged_dup))
partition_dedup_by-last_of_runs_example = partition_dedup_by-last_of_runs ◌==◌ letters

kept : last_of_runs ◌==◌ letters ≡ (97, 0) ∷ (98, 1) ∷ (99, 0) ∷ (100, 1) ∷ []
unfolding last_of_runs
kept = refl

abbrev old : PsramVec ℕ ℕ
old = (3, 30) ∷ (5, 50) ∷ []

abbrev added : PsramVec ℕ ℕ
added = (5, 51) ∷ (1, 10) ∷ (5, 52) ∷ []

old-IsAscending : IsAscending compare old
unfolding IsAscending
old-IsAscending = (refl, (tt, tt))

lm_extend-update_all_example :
    (w : PsramVec ℕ ℕ) × (lm_extend compare old added ≡ some w)
    × IsAscending compare w
    × (view compare w ≡ update_all compare (view compare old) added)
lm_extend-update_all_example =
    lm_extend-update_all compare compare-IsOrder old added old-IsAscending
