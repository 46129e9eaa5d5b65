-- ===== src/PsramVec/Ascending.antt =====
-- Sorted vectors: what sorting and deduplication leave, and what `lm_extend` counts.
use Prim.Native.Nat.{Ordering}
use Prim.Native.Nat.Ordering.{lt, eq, gt}
use chiyocore.Base.{
  ◌≤◌, ◌≡◌, ◌≢◌, ◌∙◌, subst, ap, sym, arith, true, false, Bool-cases, [], ◌∷◌, inl, inr, length,
}
use chiyocore.PsramVec.{PsramVec, key_lt, key_eq, count_ascending, insert_sorted, sort_by}
use chiyocore.PsramVec.Runs.{
  last_of_runs, last_of_runs-nil, last_of_runs-one, last_of_runs-same, last_of_runs-other,
}
use chiyocore.PsramVec.View.{
  IsOrder, Ordering-cases, insert_sorted-further, insert_sorted-here, key_eq-equal,
}

module _ {K : Type 0} (cmp : K → K → Ordering) (order : IsOrder cmp) where
  next_less : (a b : K) → cmp a b ≢ gt → key_eq cmp b a ≡ false → cmp a b ≡ lt
  next_less a b at_most other = elim (Ordering-cases (cmp a b)) [
    | inl (inl e) ↦ e
    | inl (inr e) ↦ absurd (ground (arith, backwards (order.equal a b e)))
    | inr e ↦ absurd (at_most e)
  ]
    where
      backwards : a ≡ b → cmp b a ≡ eq
      backwards e = ap (cmp b) e ∙ order.reflexive b

module _ {K V : Type 0} (cmp : K → K → Ordering) where
  -- The first key of a vector is more than `k`, or not less.
  abbrev pub IsBelow : K → PsramVec K V → Type 0
  IsBelow k [] = Unit
  IsBelow k (y ∷ _) = cmp k y.0 ≡ lt

  abbrev pub IsAtMost : K → PsramVec K V → Type 0
  IsAtMost k [] = Unit
  IsAtMost k (y ∷ _) = cmp k y.0 ≢ gt

  -- Every key is less than the next.
  unfoldable pub IsAscending : PsramVec K V → Type 0
  IsAscending [] = Unit
  IsAscending (x ∷ rest) = IsBelow x.0 rest × IsAscending rest

  -- No key is more than the next.
  unfoldable pub IsSorted : PsramVec K V → Type 0
  IsSorted [] = Unit
  IsSorted (x ∷ rest) = IsAtMost x.0 rest × IsSorted rest

  -- A count up to the end is an ascending vector.
  pub count_ascending-IsAscending :
      (x : K × V) (v : PsramVec K V) → length v ≤ count_ascending cmp (x ∷ v) → IsAscending (x ∷ v)
  unfolding count_ascending IsAscending
  count_ascending-IsAscending x [] h = (tt, tt)
  count_ascending-IsAscending x (y ∷ v) h = elim (Bool-cases (key_lt cmp x.0 y.0)) [
    | inl less ↦ (is_lt less, count_ascending-IsAscending y v (ground arith))
    | inr not_less ↦ absurd (ground arith)
  ]
    where
      is_lt : key_lt cmp x.0 y.0 ≡ true → cmp x.0 y.0 ≡ lt
      is_lt less = elim (Ordering-cases (cmp x.0 y.0)) [
        | inl (inl e) ↦ e
        | inl (inr e) ↦ absurd (ground arith)
        | inr e ↦ absurd (ground arith)
      ]

  insert_sorted-IsAtMost :
      (k : K) (x : K × V) (v : PsramVec K V)
      → cmp k x.0 ≢ gt
      → IsAtMost k v
      → IsAtMost k (insert_sorted cmp x v)
  unfolding insert_sorted
  insert_sorted-IsAtMost k x [] h s = h
  insert_sorted-IsAtMost k x (y ∷ rest) h s = elim (Bool-cases (key_lt cmp y.0 x.0)) [
    | inl less ↦ subst (IsAtMost k) (sym (insert_sorted-further cmp x y rest less)) s
    | inr not_less ↦ subst (IsAtMost k) (sym (insert_sorted-here cmp x y rest not_less)) h
  ]

  module _ (order : IsOrder cmp) where
    insert_sorted-IsSorted :
        (x : K × V) (v : PsramVec K V) → IsSorted v → IsSorted (insert_sorted cmp x v)
    unfolding insert_sorted IsSorted
    insert_sorted-IsSorted x [] s = (tt, tt)
    insert_sorted-IsSorted x (y ∷ rest) (first, s) = elim (Bool-cases (key_lt cmp y.0 x.0)) [
      | inl less ↦ subst IsSorted (sym (insert_sorted-further cmp x y rest less)) (
        insert_sorted-IsAtMost y.0 x rest (λ more. absurd (ground arith)) first,
        insert_sorted-IsSorted x rest s,
      )
      | inr not_less ↦
          subst IsSorted (sym (insert_sorted-here cmp x y rest not_less))
            ((λ more. absurd (ground (arith, order.greater x.0 y.0 more))), (first, s))
    ]

    pub sort_by-IsSorted : (v : PsramVec K V) → IsSorted (sort_by cmp v)
    unfolding sort_by IsSorted
    sort_by-IsSorted [] = tt
    sort_by-IsSorted (x ∷ v) = insert_sorted-IsSorted x _ (sort_by-IsSorted v)

    last_of_runs-IsBelow :
        (k : K) (y : K × V) (rest : PsramVec K V)
        → cmp k y.0 ≡ lt
        → IsBelow k (last_of_runs (key_eq cmp) (y ∷ rest))
    last_of_runs-IsBelow k y [] h = subst (IsBelow k) (sym (last_of_runs-one (key_eq cmp) y)) h
    last_of_runs-IsBelow k y (z ∷ rest) h = elim (Bool-cases (key_eq cmp z.0 y.0)) [
      | inl same ↦
          subst (IsBelow k) (sym (last_of_runs-same (key_eq cmp) y z rest same))
            (last_of_runs-IsBelow k z rest (ap (cmp k) (key_eq-equal cmp order z.0 y.0 same) ∙ h))
      | inr other ↦ subst (IsBelow k) (sym (last_of_runs-other (key_eq cmp) y z rest other)) h
    ]

    pub last_of_runs-IsAscending :
        (v : PsramVec K V) → IsSorted v → IsAscending (last_of_runs (key_eq cmp) v)
    unfolding IsSorted IsAscending
    last_of_runs-IsAscending [] s = subst IsAscending (sym (last_of_runs-nil (key_eq cmp))) tt
    last_of_runs-IsAscending (x ∷ []) s =
        subst IsAscending (sym (last_of_runs-one (key_eq cmp) x)) (tt, tt)
    last_of_runs-IsAscending (x ∷ y ∷ rest) (first, s) = elim (Bool-cases (key_eq cmp y.0 x.0)) [
      | inl same ↦
          subst IsAscending (sym (last_of_runs-same (key_eq cmp) x y rest same))
            (last_of_runs-IsAscending (y ∷ rest) s)
      | inr other ↦ subst IsAscending (sym (last_of_runs-other (key_eq cmp) x y rest other)) (
        last_of_runs-IsBelow x.0 y rest (next_less cmp order x.0 y.0 first other),
        last_of_runs-IsAscending (y ∷ rest) s,
      )
    ]
