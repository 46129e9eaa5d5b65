-- ===== src/PsramVec/View.antt =====
-- The map that a vector of pairs stands for: under a key the last of its values.
use Prim.Native.Nat.{Ordering}
use Prim.Native.Nat.Ordering.{lt, eq, gt}
use mathlib.Core.List.{append_assoc, append-nil}
use chiyocore.Base.{
  ◌≡◌, ◌≢◌, ◌⊎◌, ◌∙◌, refl, ap, sym, arith, true, false, Bool-cases, Option, none, some, [], ◌∷◌,
  ◌++◌, inl, inr, if◌then◌else◌,
}
use chiyocore.PsramVec.{PsramVec, key_lt, key_eq, insert_sorted, sort_by}
use chiyocore.PsramVec.Runs.{
  last_of_runs, last_of_runs-nil, last_of_runs-one, last_of_runs-same, last_of_runs-other,
}

-- What `Ord` documents of a comparison, as far as it is used.
pub record IsOrder {K : Type 0} (cmp : K → K → Ordering) : Type 0 where
  pub equal : (a b : K) → cmp a b ≡ eq → a ≡ b
  pub reflexive : (a : K) → cmp a a ≡ eq
  pub greater : (a b : K) → cmp a b ≡ gt → cmp b a ≡ lt

pub Ordering-cases : (o : Ordering) → ((o ≡ lt) ⊎ (o ≡ eq)) ⊎ (o ≡ gt)
Ordering-cases lt = inl (inl refl)
Ordering-cases eq = inl (inr refl)
Ordering-cases gt = inr refl

module _ {K : Type 0} (cmp : K → K → Ordering) (order : IsOrder cmp) where
  pub key_eq-equal : (a b : K) → key_eq cmp a b ≡ true → a ≡ b
  key_eq-equal a b h = elim (Ordering-cases (cmp a b)) [
    | inl (inl less) ↦ absurd (ground arith)
    | inl (inr same) ↦ order.equal a b same
    | inr more ↦ absurd (ground arith)
  ]

module _ {K V : Type 0} (cmp : K → K → Ordering) where
  pub insert_sorted-further :
      (x y : K × V) (rest : PsramVec K V)
      → key_lt cmp y.0 x.0 ≡ true
      → insert_sorted cmp x (y ∷ rest) ≡ y ∷ insert_sorted cmp x rest
  unfolding insert_sorted
  insert_sorted-further x y rest h = rw h refl

  pub insert_sorted-here :
      (x y : K × V) (rest : PsramVec K V)
      → key_lt cmp y.0 x.0 ≡ false
      → insert_sorted cmp x (y ∷ rest) ≡ x ∷ y ∷ rest
  unfolding insert_sorted
  insert_sorted-here x y rest h = rw h refl

  -- The map with one more value.
  unfoldable pub updated : (K → Option V) → K × V → K → Option V
  updated m x k = if key_eq cmp x.0 k then some x.1 else m k

  -- The map with the values of an iterator, in its order.
  unfoldable pub update_all : (K → Option V) → PsramVec K V → K → Option V
  update_all m [] = m
  update_all m (x ∷ rest) = update_all (updated m x) rest

  -- The values of a list, the later ones first.
  abbrev pub or_else : Option V → Option V → Option V
  or_else (some v) o = some v
  or_else none o = o

  unfoldable pub view : PsramVec K V → K → Option V
  view [] k = none
  view (x ∷ rest) k = or_else (view rest k) (if key_eq cmp x.0 k then some x.1 else none)

  view-push :
      (m : K → Option V) (v : PsramVec K V) (x : K × V)
      → ((k : K) → view v k ≡ m k)
      → (k : K) → view (v ++ x ∷ []) k ≡ updated m x k
  unfolding view updated
  view-push m [] x h k = rw (sym (h k)) refl
  view-push m (y ∷ v) x h k = elim (Bool-cases (key_eq cmp x.0 k)) [
    | inl same ↦ rw (view-push (view v) v x (λ _. refl) k, same) refl
    | inr other ↦ rw (view-push (view v) v x (λ _. refl) k, other) (h k)
  ]

  -- The values of an iterator behind those of a vector.
  pub view-append :
      (m : K → Option V) (v iter : PsramVec K V)
      → ((k : K) → view v k ≡ m k)
      → (k : K) → view (v ++ iter) k ≡ update_all m iter k
  unfolding update_all
  view-append m v [] h k = rw (append-nil v) (h k)
  view-append m v (x ∷ iter) h k =
      ap (λ l. view l k) (sym (append_assoc v (x ∷ []) iter))
      ∙ view-append (updated m x) (v ++ x ∷ []) iter (view-push m v x h) k

  view-later :
      (x : K × V) (a b : PsramVec K V) (k : K)
      → view a k ≡ view b k
      → view (x ∷ a) k ≡ view (x ∷ b) k
  unfolding view
  view-later x a b k = ap (λ o. or_else o (if key_eq cmp x.0 k then some x.1 else none))

  -- The earlier of two values under one key does not count.
  view-shadowed :
      (x y : K × V) (rest : PsramVec K V) (k : K)
      → y.0 ≡ x.0
      → view (x ∷ y ∷ rest) k ≡ view (y ∷ rest) k
  unfolding view
  view-shadowed x y rest k h = elim (Bool-cases (key_eq cmp x.0 k)) [
    | inl same ↦ rw (h, same) (absorbed (view rest k))
    | inr other ↦ rw (h, other) (nothing (view rest k))
  ]
    where
      absorbed : (o : Option V) → or_else (or_else o (some y.1)) (some x.1) ≡ or_else o (some y.1)
      absorbed none = refl
      absorbed (some v) = refl

      nothing : (o : Option V) → or_else (or_else o none) none ≡ or_else o none
      nothing none = refl
      nothing (some v) = refl

  module _ (order : IsOrder cmp) where
    -- Neighbours with different keys may change places.
    view-swap :
        (x y : K × V) (rest : PsramVec K V) (k : K)
        → cmp y.0 x.0 ≡ lt
        → view (y ∷ x ∷ rest) k ≡ view (x ∷ y ∷ rest) k
    unfolding view
    view-swap x y rest k h = elim (Bool-cases (key_eq cmp x.0 k)) [
      | inl same ↦ elim (Bool-cases (key_eq cmp y.0 k)) [
        | inl also ↦
            absurd (
              distinct
                (key_eq-equal cmp order y.0 k also ∙ sym (key_eq-equal cmp order x.0 k same)))
        | inr other ↦ rw (same, other) (first (view rest k))
      ]
      | inr other ↦ rw other (last (view rest k) (if key_eq cmp y.0 k then some y.1 else none))
    ]
      where
        distinct : y.0 ≢ x.0
        distinct e = lt≢eq (sym h ∙ ap (λ z. cmp z x.0) e ∙ order.reflexive x.0)
          where
            lt≢eq : lt ≢ eq
            lt≢eq c = absurd (ground arith)

        first :
            (o : Option V)
            → or_else (or_else o (some x.1)) none ≡ or_else (or_else o none) (some x.1)
        first none = refl
        first (some v) = refl

        last : (o a : Option V) → or_else (or_else o none) a ≡ or_else (or_else o a) none
        last none none = refl
        last none (some v) = refl
        last (some v) a = refl

    pub view-insert_sorted :
        (x : K × V) (v : PsramVec K V) (k : K) → view (insert_sorted cmp x v) k ≡ view (x ∷ v) k
    unfolding insert_sorted
    view-insert_sorted x [] k = refl
    view-insert_sorted x (y ∷ rest) k = elim (Ordering-cases (cmp y.0 x.0)) [
      | inl (inl less) ↦
          ap (λ l. view l k) (insert_sorted-further x y rest (ground arith))
          ∙ view-later y _ (x ∷ rest) k (view-insert_sorted x rest k)
          ∙ view-swap x y rest k less
      | inl (inr same) ↦ ap (λ l. view l k) (insert_sorted-here x y rest (ground arith))
      | inr more ↦ ap (λ l. view l k) (insert_sorted-here x y rest (ground arith))
    ]

    pub view-sort_by : (v : PsramVec K V) (k : K) → view (sort_by cmp v) k ≡ view v k
    unfolding sort_by
    view-sort_by [] k = refl
    view-sort_by (x ∷ rest) k =
        view-insert_sorted x (sort_by cmp rest) k
        ∙ view-later x (sort_by cmp rest) rest k (view-sort_by rest k)

    pub view-last_of_runs :
        (v : PsramVec K V) (k : K) → view (last_of_runs (key_eq cmp) v) k ≡ view v k
    view-last_of_runs [] k = ap (λ l. view l k) (last_of_runs-nil (key_eq cmp))
    view-last_of_runs (x ∷ []) k = ap (λ l. view l k) (last_of_runs-one (key_eq cmp) x)
    view-last_of_runs (x ∷ y ∷ rest) k = elim (Bool-cases (key_eq cmp y.0 x.0)) [
      | inl same ↦
          ap (λ l. view l k) (last_of_runs-same (key_eq cmp) x y rest same)
          ∙ view-last_of_runs (y ∷ rest) k
          ∙ sym (view-shadowed x y rest k (key_eq-equal cmp order y.0 x.0 same))
      | inr other ↦
          ap (λ l. view l k) (last_of_runs-other (key_eq cmp) x y rest other)
          ∙ view-later x _ (y ∷ rest) k (view-last_of_runs (y ∷ rest) k)
    ]
