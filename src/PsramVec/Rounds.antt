-- ===== src/PsramVec/Rounds.antt =====
-- The rounds of the loop of `partition_dedup_by`: where it stands after each.
use chiyocore.Base.{
  ℕ, suc, ◌-◌, ◌≡◌, ◌∙◌, refl, ap, sym, arith, Bool, true, false, none, some, List, [], ◌∷◌, ◌++◌,
  length, get_elem?, set, take, length-append, take-length-append,
}
use mathlib.Core.List.{append_assoc}
use chiyocore.PsramVec.{PsramVec, swap, dedup_loop}

module _ {A : Type 0} where
  get_elem?-append :
      (xs : List A) (y : A) (ys : List A) → get_elem? (xs ++ y ∷ ys) (length xs) ≡ some y
  get_elem?-append [] y ys = refl
  get_elem?-append (x ∷ xs) y ys = get_elem?-append xs y ys

  pub get_elem?-length : (xs : List A) → get_elem? xs (length xs) ≡ none
  get_elem?-length [] = refl
  get_elem?-length (x ∷ xs) = get_elem?-length xs

  set-append :
      (xs : List A) (y z : A) (ys : List A) → set (xs ++ y ∷ ys) (length xs) z ≡ xs ++ z ∷ ys
  set-append [] y z ys = refl
  set-append (x ∷ xs) y z ys = ap (◌∷◌ x) (set-append xs y z ys)

  -- A swap of an element of a prefix with the one behind the prefix.
  swap-append :
      (a : List A) (y : A) (b : List A) (x : A) (c : List A)
      → swap ((a ++ y ∷ b) ++ x ∷ c) (length (a ++ y ∷ b)) x (length a) y
        ≡ (a ++ x ∷ (b ++ y ∷ [])) ++ c
  swap-append [] y [] x c = refl
  swap-append [] y (z ∷ b) x c = ap (λ r. x ∷ z ∷ r) (set-append b x y c ∙ shift b y c)
    where
      shift : (b : List A) (y : A) (c : List A) → b ++ y ∷ c ≡ (b ++ y ∷ []) ++ c
      shift [] y c = refl
      shift (z ∷ b) y c = ap (◌∷◌ z) (shift b y c)
  swap-append (z ∷ a) y b x c = ap (◌∷◌ z) (swap-append a y b x c)

module _ {K V : Type 0} (same : K → K → Bool) where
  -- One round: at an element with the key of the last one kept, and at one with another.
  dedup_loop-same :
      (fuel : ℕ) (v : PsramVec K V) (r w : ℕ) (x p : K × V)
      → get_elem? v r ≡ some x
      → get_elem? (take r v) (w - 1) ≡ some p
      → same x.0 p.0 ≡ true
      → dedup_loop same (suc fuel) v r w ≡ dedup_loop same fuel (swap v r x (w - 1) p) (suc r) w
  unfolding dedup_loop
  dedup_loop-same fuel v r w x p read prev_write h = ground arith

  dedup_loop-end :
      (fuel : ℕ) (v : PsramVec K V) (r w : ℕ) (x p : K × V)
      → get_elem? v r ≡ some x
      → get_elem? (take r v) (w - 1) ≡ some p
      → same x.0 p.0 ≡ false
      → get_elem? (take r v) w ≡ none
      → dedup_loop same (suc fuel) v r w ≡ dedup_loop same fuel v (suc r) (suc w)
  unfolding dedup_loop
  dedup_loop-end fuel v r w x p read prev_write h write = ground arith

  dedup_loop-other :
      (fuel : ℕ) (v : PsramVec K V) (r w : ℕ) (x p j : K × V)
      → get_elem? v r ≡ some x
      → get_elem? (take r v) (w - 1) ≡ some p
      → same x.0 p.0 ≡ false
      → get_elem? (take r v) w ≡ some j
      → dedup_loop same (suc fuel) v r w ≡ dedup_loop same fuel (swap v r x w j) (suc r) (suc w)
  unfolding dedup_loop
  dedup_loop-other fuel v r w x p j read prev_write h write = ground arith

  -- Where the loop stands: `kept` and `p` are kept, `junk` is swapped away, `rest` is not read.
  abbrev pub At : PsramVec K V → K × V → PsramVec K V → PsramVec K V → PsramVec K V → ℕ → ℕ → Type 0
  At kept p junk rest v r w =
      (v ≡ (kept ++ p ∷ junk) ++ rest) × (r ≡ length (kept ++ p ∷ junk)) × (w ≡ suc (length kept))

  read-At :
      (kept : PsramVec K V) (p : K × V) (junk : PsramVec K V) (x : K × V) (rest v : PsramVec K V)
      (r w : ℕ)
      → At kept p junk (x ∷ rest) v r w
      → (get_elem? v r ≡ some x)
        × (take r v ≡ kept ++ p ∷ junk)
        × (w - 1 ≡ length kept)
        × (get_elem? (take r v) (w - 1) ≡ some p)
  read-At kept p junk x rest v r w (hv, hr, hw) = (
    rw (hv, hr) (get_elem?-append (kept ++ p ∷ junk) x rest),
    before,
    last_kept,
    rw (before, last_kept) (get_elem?-append kept p junk),
  )
    where
      before : take r v ≡ kept ++ p ∷ junk
      before = rw (hv, hr) (take-length-append (kept ++ p ∷ junk) (x ∷ rest))

      last_kept : w - 1 ≡ length kept
      last_kept = omega (arith, hw)

  pub round-same :
      (fuel : ℕ) (kept : PsramVec K V) (p : K × V) (junk : PsramVec K V) (x : K × V)
      (rest v : PsramVec K V) (r w : ℕ)
      → At kept p junk (x ∷ rest) v r w
      → same x.0 p.0 ≡ true
      → (v' : PsramVec K V) × At kept x (junk ++ p ∷ []) rest v' (suc r) w
        × (dedup_loop same (suc fuel) v r w ≡ dedup_loop same fuel v' (suc r) w)
  round-same fuel kept p junk x rest v r w at h =
      let (hv, hr, hw) = at in
      let (read, before, last_kept, prev_write) = read-At kept p junk x rest v r w at in
      (
        swap v r x (w - 1) p,
        (
          rw (hv, hr, last_kept) (swap-append kept p junk x rest),
          omega (
            arith,
            hr,
            length-append kept (p ∷ junk),
            length-append junk (p ∷ []),
            length-append kept (x ∷ (junk ++ p ∷ [])),
          ),
          hw,
        ),
        dedup_loop-same fuel v r w x p read prev_write h,
      )

  pub round-other :
      (fuel : ℕ) (kept : PsramVec K V) (p : K × V) (junk : PsramVec K V) (x : K × V)
      (rest v : PsramVec K V) (r w : ℕ)
      → At kept p junk (x ∷ rest) v r w
      → same x.0 p.0 ≡ false
      → (junk' v' : PsramVec K V) × At (kept ++ p ∷ []) x junk' rest v' (suc r) (suc w)
        × (dedup_loop same (suc fuel) v r w ≡ dedup_loop same fuel v' (suc r) (suc w))
  round-other fuel kept p [] x rest v r w at h =
      let (hv, hr, hw) = at in
      let (read, before, last_kept, prev_write) = read-At kept p [] x rest v r w at in
      let count : w ≡ length (kept ++ p ∷ []) = omega (arith, hw, length-append kept (p ∷ [])) in
      (
        [],
        v,
        (
          hv ∙ sym (append_assoc (kept ++ p ∷ []) (x ∷ []) rest),
          omega (arith, hr, length-append (kept ++ p ∷ []) (x ∷ [])),
          ap suc count,
        ),
        dedup_loop-end fuel v r w x p read prev_write h
            (rw (before, count) (get_elem?-length (kept ++ p ∷ []))),
      )
  round-other fuel kept p (j ∷ junk) x rest v r w at h =
      let (hv, hr, hw) = at in
      let (read, before, last_kept, prev_write) = read-At kept p (j ∷ junk) x rest v r w at in
      let count : w ≡ length (kept ++ p ∷ []) = omega (arith, hw, length-append kept (p ∷ [])) in
      let along : kept ++ p ∷ j ∷ junk ≡ (kept ++ p ∷ []) ++ j ∷ junk =
        sym (append_assoc kept (p ∷ []) (j ∷ junk)) in
      (
        junk ++ j ∷ [],
        swap v r x w j,
        (
          rw (hv, hr, along, count) (swap-append (kept ++ p ∷ []) j junk x rest),
          omega (
            arith,
            hr,
            length-append kept (p ∷ j ∷ junk),
            length-append junk (j ∷ []),
            length-append kept (p ∷ []),
            length-append (kept ++ p ∷ []) (x ∷ (junk ++ j ∷ [])),
          ),
          ap suc count,
        ),
        dedup_loop-other fuel v r w x p j read prev_write h
            (rw (before, along, count) (get_elem?-append (kept ++ p ∷ []) j junk)),
      )
