-- ===== src/PsramVec/Dedup.antt =====
-- `partition_dedup_by`: its loop of swaps against the list of the last elements of the runs.
use chiyocore.Base.{
  ℕ, zero, suc, ◌<◌, ◌≡◌, ◌∙◌, subst, refl, ap, sym, arith, Bool, false, Bool-cases, none, some, [],
  ◌∷◌, ◌++◌, inl, inr, leb, length, get_elem?, length-append, take-length-append,
  drop-length-append,
}
use mathlib.Core.List.{append_assoc, append-nil}
use chiyocore.PsramVec.{PsramVec, dedup_loop, partition_dedup_by}
use chiyocore.PsramVec.Runs.{last_of_runs, last_of_runs-same, last_of_runs-other}
use chiyocore.PsramVec.Rounds.{At, get_elem?-length, round-same, round-other}

module _ {K V : Type 0} (same : K → K → Bool) where
  -- What the loop ends with: the elements kept, and others behind them.
  abbrev Ends : ℕ → PsramVec K V → ℕ → ℕ → PsramVec K V → Type 0
  Ends fuel v r w done =
      (dups : PsramVec K V) × (dedup_loop same fuel v r w ≡ some (done ++ dups, length done))

  dedup_loop-done :
      (fuel : ℕ) (kept : PsramVec K V) (p : K × V) (junk v : PsramVec K V) (r w : ℕ)
      → At same kept p junk [] v r w
      → Ends (suc fuel) v r w (kept ++ p ∷ [])
  unfolding dedup_loop
  dedup_loop-done fuel kept p junk v r w (hv, hr, hw) = (junk, ground (arith, at_end, split, count))
    where
      whole : v ≡ kept ++ p ∷ junk
      whole = hv ∙ append-nil (kept ++ p ∷ junk)

      at_end : get_elem? v r ≡ none
      at_end = rw (whole, hr) (get_elem?-length (kept ++ p ∷ junk))

      split : v ≡ (kept ++ p ∷ []) ++ junk
      split = whole ∙ sym (append_assoc kept (p ∷ []) junk)

      count : w ≡ length (kept ++ p ∷ [])
      count = omega (arith, hw, length-append kept (p ∷ []))

  dedup_loop_from :
      (rest : PsramVec K V) (fuel : ℕ) (kept : PsramVec K V) (p : K × V) (junk v : PsramVec K V)
      (r w : ℕ)
      → length rest < fuel
      → At same kept p junk rest v r w
      → Ends fuel v r w (kept ++ last_of_runs same (p ∷ rest))
  unfolding last_of_runs
  dedup_loop_from rest zero kept p junk v r w enough at = absurd (omega arith)
  dedup_loop_from [] (suc fuel) kept p junk v r w enough at =
      dedup_loop-done fuel kept p junk v r w at
  dedup_loop_from (x ∷ rest) (suc fuel) kept p junk v r w enough at =
      elim (Bool-cases (same x.0 p.0)) [
        | inl h ↦
            let (v', next, e) = round-same same fuel kept p junk x rest v r w at h in
            let (dups, ends) =
              dedup_loop_from rest fuel kept x (junk ++ p ∷ []) v' (suc r) w (omega arith) next in
            subst (λ l. Ends (suc fuel) v r w (kept ++ l)) (sym (last_of_runs-same same p x rest h))
              (dups, e ∙ ends)
        | inr h ↦
            let (junk', v', next, e) = round-other same fuel kept p junk x rest v r w at h in
            let (dups, ends) =
              dedup_loop_from rest fuel (kept ++ p ∷ []) x junk' v' (suc r) (suc w) (omega arith)
                next in
            subst (Ends (suc fuel) v r w)
              (append_assoc kept (p ∷ []) (last_of_runs same (x ∷ rest))
                ∙ ap (λ l. kept ++ l) (sym (last_of_runs-other same p x rest h)))
              (dups, e ∙ ends)
      ]

  partition_dedup_by-dedup_loop :
      (v done dups : PsramVec K V)
      → leb (length v) 1 ≡ false
      → dedup_loop same (length v) v 1 1 ≡ some (done ++ dups, length done)
      → partition_dedup_by same v ≡ some (done, dups)
  unfolding partition_dedup_by
  partition_dedup_by-dedup_loop v done dups long ends =
      rw (long, ends, take-length-append done dups, drop-length-append done dups) refl

  -- `partition_dedup_by` ends without a panic, and its first slice is the last element of each run of
  -- elements with the same key.
  pub partition_dedup_by-last_of_runs :
      (v : PsramVec K V)
      → (merged_dup : PsramVec K V) × (partition_dedup_by same v
          ≡ some (last_of_runs same v, merged_dup))
  unfolding partition_dedup_by last_of_runs
  partition_dedup_by-last_of_runs [] = ([], refl)
  partition_dedup_by-last_of_runs (x ∷ []) = ([], refl)
  partition_dedup_by-last_of_runs (x ∷ y ∷ rest) =
      let (dups, ends) =
        dedup_loop_from (y ∷ rest) (length (x ∷ y ∷ rest)) [] x [] (x ∷ y ∷ rest) 1 1 (omega arith)
          (refl, refl, refl) in
      (
        dups,
        partition_dedup_by-dedup_loop (x ∷ y ∷ rest) (last_of_runs same (x ∷ y ∷ rest)) dups
            (ground arith) ends,
      )
