-- ===== src/Storage/Contacts/Prefix.antt =====
-- `find_idx`, which searches for a prefix of a key with a binary search for an equal key.
use Prim.Native.Nat.{min}
use Prim.Native.Nat.Ordering.{lt, eq, gt}
use chiyocore.Base.{
  ℕ, zero, suc, ◌-◌, ◌≤◌, ◌<◌, ◌≡◌, refl, ap, sym, ◌∙◌, true, false, Option, none, some, List, [],
  ◌∷◌, arith, length, get_elem?, if◌then◌else◌, All, Option-cases, inl, inr,
}
use native.Mathlib.Decide.{dec_lt}
use chiyocore.Base.Bytes.{Bytes, cmp, starts_with}
use chiyocore.Storage.Search.{Search, found, missing, binary_search_by, bump}
use chiyocore.Storage.Contacts.{CachedContact, find_idx, check_prefix}

-- Each key is less than the next.
abbrev pub IsSorted : {P : Type 0} → List (CachedContact P) → Type 0
IsSorted [] = Unit
IsSorted (c ∷ cs) = All (λ d. cmp c.key d.key ≡ lt) cs × IsSorted cs

-- The first index whose key begins with the prefix.
abbrev pub first_match : {P : Type 0} → Bytes → List (CachedContact P) → Option ℕ
first_match prefix [] = none
first_match prefix (c ∷ cs) =
    if starts_with c.key prefix
    then some 0
    else elim (first_match prefix cs) [ none ↦ none | some i ↦ some (suc i) ]

starts_with_of_lt : (k p : Bytes) → cmp k p ≡ lt → starts_with k p ≡ false
unfolding cmp starts_with
starts_with_of_lt [] [] h = cc
starts_with_of_lt [] (y ∷ ys) h = refl
starts_with_of_lt (x ∷ xs) [] h = cc
starts_with_of_lt (x ∷ xs) (y ∷ ys) h = ground (arith, starts_with_of_lt xs ys)

starts_with_of_eq : (k p : Bytes) → cmp k p ≡ eq → starts_with k p ≡ true
unfolding cmp starts_with
starts_with_of_eq [] [] h = refl
starts_with_of_eq [] (y ∷ ys) h = cc
starts_with_of_eq (x ∷ xs) [] h = cc
starts_with_of_eq (x ∷ xs) (y ∷ ys) h = ground (arith, starts_with_of_eq xs ys)

-- Past a key that is greater than the prefix and does not begin with it, no key does.
starts_with_past :
    (k k' p : Bytes)
    → cmp k p ≡ gt
    → starts_with k p ≡ false
    → cmp k k' ≡ lt
    → starts_with k' p ≡ false
unfolding cmp starts_with
starts_with_past k k' [] h s l = ground arith
starts_with_past [] k' (y ∷ ys) h s l = cc
starts_with_past (x ∷ xs) [] (y ∷ ys) h s l = cc
starts_with_past (x ∷ xs) (x' ∷ xs') (y ∷ ys) h s l = ground (arith, starts_with_past xs xs' ys)

module _ {P : Type 0} where
  first_match-none :
      (p : Bytes) (cs : List (CachedContact P))
      → All (λ d. starts_with d.key p ≡ false) cs
      → first_match p cs ≡ none
  first_match-none p [] h = refl
  first_match-none p (c ∷ cs) h = ground (arith, first_match-none p cs h.1)

  All-past :
      (k p : Bytes) (cs : List (CachedContact P))
      → cmp k p ≡ gt
      → starts_with k p ≡ false
      → All (λ d. cmp k d.key ≡ lt) cs
      → All (λ d. starts_with d.key p ≡ false) cs
  All-past k p [] h s l = tt
  All-past k p (d ∷ ds) h s l = (starts_with_past k d.key p h s l.0, All-past k p ds h s l.1)

  -- What `find_idx` makes of the search's result.
  abbrev resolve : Bytes → List (CachedContact P) → Search → Option ℕ
  resolve p cs (found i) = some i
  resolve p cs (missing i) = elim (get_elem? cs i) [
    | none ↦ none
    | some v ↦ if starts_with v.key p then some i else none
  ]

  abbrev search_key : Bytes → List (CachedContact P) → Search
  search_key p = binary_search_by (λ probe. cmp probe.key p)

  resolve-bump :
      (p : Bytes) (c : CachedContact P) (cs : List (CachedContact P)) (r : Search)
      → resolve p (c ∷ cs) (bump r) ≡ elim (resolve p cs r) [ none ↦ none | some i ↦ some (suc i) ]
  resolve-bump p c cs (found i) = refl
  resolve-bump p c cs (missing i) = ground arith

  resolve_lem :
      (p : Bytes) (cs : List (CachedContact P))
      → IsSorted cs
      → resolve p cs (search_key p cs) ≡ first_match p cs
  unfolding binary_search_by
  resolve_lem p [] s = refl
  resolve_lem p (c ∷ cs) s = ground (
    arith,
    starts_with_of_lt c.key p,
    starts_with_of_eq c.key p,
    resolve-bump p c cs (search_key p cs),
    resolve_lem p cs s.1,
    λ (h : cmp c.key p ≡ gt) (k : starts_with c.key p ≡ false).
        first_match-none p cs (All-past c.key p cs h k s.0),
  )

  -- A search that ends past the cache has passed only keys that are less than the prefix.
  missing_end :
      (p : Bytes) (cs : List (CachedContact P)) (i j : ℕ) (v : CachedContact P)
      → search_key p cs ≡ missing i
      → get_elem? cs j ≡ some v
      → j < i
      → starts_with v.key p ≡ false
  unfolding binary_search_by
  missing_end p [] i j v e g l = absurd (ground arith)
  missing_end p (c ∷ cs) zero j v e g l = absurd (omega arith)
  missing_end p (c ∷ cs) (suc i) zero v e g l = ground (arith, starts_with_of_lt c.key p)
  missing_end p (c ∷ cs) (suc i) (suc j) v e g l = ground (arith, missing_end p cs i j v)

  missing_bound :
      (p : Bytes) (cs : List (CachedContact P)) (i : ℕ)
      → search_key p cs ≡ missing i
      → i ≤ length cs
  unfolding binary_search_by
  missing_bound p [] i e = ground arith
  missing_bound p (c ∷ cs) zero e = omega arith
  missing_bound p (c ∷ cs) (suc i) e = ground (arith, missing_bound p cs i)

  get_past : (cs : List (CachedContact P)) (i : ℕ) → length cs ≤ i → get_elem? cs i ≡ none
  get_past [] i h = refl
  get_past (c ∷ cs) zero h = absurd (omega arith)
  get_past (c ∷ cs) (suc i) h = get_past cs i (omega arith)

  check_prefix-false :
      (p : Bytes) (cs : List (CachedContact P)) (j : ℕ)
      → ((v : CachedContact P) → get_elem? cs j ≡ some v → starts_with v.key p ≡ false)
      → check_prefix p cs j ≡ none
  unfolding check_prefix
  check_prefix-false p cs j h = elim (Option-cases (get_elem? cs j)) [
    | inl none_there ↦ ground arith
    | inr (v, e) ↦ ground (arith, h v e)
  ]

  clamp_end :
      (p : Bytes) (cs : List (CachedContact P)) (i : ℕ)
      → search_key p cs ≡ missing i
      → check_prefix p cs (min (length cs - 1) i) ≡ resolve p cs (missing i)
  clamp_end p [] i e = unfold check_prefix in refl
  clamp_end p (c ∷ cs) i e = elim (dec_lt (length cs) i) [
    | yes past ↦
        let last : min (length (c ∷ cs) - 1) i ≡ length cs = omega arith in
        rw last (
          check_prefix-false p (c ∷ cs) (length cs)
            (λ v g. missing_end p (c ∷ cs) i (length cs) v e g past)
          ∙ sym (
              check_prefix-false p (c ∷ cs) i
                (λ v g. absurd (ground (arith, get_past (c ∷ cs) i (omega arith)))))
          ∙ unfold check_prefix in refl)
    | no within ↦
        let here : min (length (c ∷ cs) - 1) i ≡ i = omega arith in
        rw here (unfold check_prefix in refl)
  ]

  -- On a sorted cache `find_idx` returns the first contact whose key begins with the prefix, and `None`
  -- exactly if no key does.
  pub find_idx-first_match :
      (prefix : Bytes) (cache : List (CachedContact P))
      → IsSorted cache
      → find_idx prefix cache ≡ first_match prefix cache
  unfolding find_idx
  find_idx-first_match prefix cache s = go (search_key prefix cache) refl
    where
      go :
          (r : Search)
          → search_key prefix cache ≡ r
          → find_idx prefix cache ≡ first_match prefix cache
      go (found i) e =
          rw (e, find_idx) (ap (resolve prefix cache) (sym e) ∙ resolve_lem prefix cache s)
      go (missing i) e =
          rw (e, find_idx)
            (clamp_end prefix cache i e
              ∙ ap (resolve prefix cache) (sym e)
              ∙ resolve_lem prefix cache s)
