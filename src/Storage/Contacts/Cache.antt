-- ===== src/Storage/Contacts/Cache.antt =====
-- The cache of contacts as a map from keys.
use Prim.Native.Nat.Ordering.{lt, eq, gt}
use chiyocore.Base.{
  ℕ, ◌≡◌, refl, ap, sym, ◌∙◌, Option, none, some, List, [], ◌∷◌, arith, length, get_elem?, set,
  insert_at, remove_at, zero, suc, if◌then◌else◌, All, ◌==◌, ◌&&◌,
}
use chiyocore.Base.Bytes.{
  Bytes, cmp, starts_with, bytes_eq, cmp_trans, lt_of_gt, eq_of_cmp, eq_of_bytes_eq, cmp_refl,
}
use chiyocore.Storage.Search.{Search, found, missing, binary_search_by, bump}
use chiyocore.Storage.Contacts.{CachedContact, fast_get, cache_insert}
use chiyocore.Storage.Contacts.Prefix.{IsSorted, first_match, find_idx-first_match}

starts_with-eq : (k p : Bytes) → length k ≡ length p → starts_with k p ≡ bytes_eq k p
unfolding starts_with bytes_eq
starts_with-eq [] [] h = refl
starts_with-eq [] (y ∷ ys) h = absurd (omega arith)
starts_with-eq (x ∷ xs) [] h = absurd (omega arith)
starts_with-eq (x ∷ xs) (y ∷ ys) h = ap (λ b. (x == y) && b) (starts_with-eq xs ys (omega arith))

module _ {P : Type 0} where
  -- `cache_insert` as a recursion.
  abbrev pub upsert : CachedContact P → List (CachedContact P) → List (CachedContact P)
  upsert c [] = c ∷ []
  upsert c (d ∷ ds) = elim (cmp d.key c.key) [
    | lt ↦ d ∷ upsert c ds
    | eq ↦ c ∷ ds
    | gt ↦ c ∷ d ∷ ds
  ]

  abbrev place : CachedContact P → List (CachedContact P) → Search → List (CachedContact P)
  place c cs (found i) = set cs i c
  place c cs (missing i) = insert_at cs i c

  place-bump :
      (c d : CachedContact P) (cs : List (CachedContact P)) (r : Search)
      → place c (d ∷ cs) (bump r) ≡ d ∷ place c cs r
  place-bump c d cs (found i) = refl
  place-bump c d cs (missing i) = refl

  place-upsert :
      (c : CachedContact P) (cs : List (CachedContact P))
      → place c cs (binary_search_by (λ probe. cmp probe.key c.key) cs) ≡ upsert c cs
  unfolding binary_search_by
  place-upsert c [] = refl
  place-upsert c (d ∷ ds) = ground (
    arith,
    place-upsert c ds,
    place-bump c d ds (binary_search_by (λ probe. cmp probe.key c.key) ds),
  )

  pub cache_insert-upsert :
      (c : CachedContact P) (cs : List (CachedContact P)) → cache_insert c cs ≡ upsert c cs
  unfolding cache_insert
  cache_insert-upsert c cs = ground (arith, place-upsert c cs)

  upsert-Above :
      (k : Bytes) (c : CachedContact P) (cs : List (CachedContact P))
      → cmp k c.key ≡ lt
      → All (λ d. cmp k d.key ≡ lt) cs
      → All (λ d. cmp k d.key ≡ lt) (upsert c cs)
  upsert-Above k c [] h a = (h, tt)
  upsert-Above k c (d ∷ ds) h a = ground (arith, upsert-Above k c ds h a.1)

  Above-trans :
      (j k : Bytes) (cs : List (CachedContact P))
      → cmp j k ≡ lt
      → All (λ d. cmp k d.key ≡ lt) cs
      → All (λ d. cmp j d.key ≡ lt) cs
  Above-trans j k [] h a = tt
  Above-trans j k (d ∷ ds) h a = (cmp_trans j k d.key h a.0, Above-trans j k ds h a.1)

  upsert-IsSorted :
      (c : CachedContact P) (cs : List (CachedContact P)) → IsSorted cs → IsSorted (upsert c cs)
  upsert-IsSorted c [] s = (tt, tt)
  upsert-IsSorted c (d ∷ ds) s = ground (
    arith,
    upsert-IsSorted c ds s.1,
    upsert-Above d.key c ds,
    lt_of_gt d.key c.key,
    Above-trans c.key d.key ds,
    eq_of_cmp d.key c.key,
  )

  remove_at-All :
      (Q : CachedContact P → Type 0) (cs : List (CachedContact P)) (i : ℕ)
      → All Q cs
      → All Q (remove_at cs i)
  remove_at-All Q [] i a = tt
  remove_at-All Q (c ∷ cs) zero (first, a) = a
  remove_at-All Q (c ∷ cs) (suc i) (first, a) = (first, remove_at-All Q cs i a)

  pub remove_at-IsSorted :
      (cs : List (CachedContact P)) (i : ℕ) → IsSorted cs → IsSorted (remove_at cs i)
  remove_at-IsSorted [] i s = tt
  remove_at-IsSorted (c ∷ cs) zero (first, s) = s
  remove_at-IsSorted (c ∷ cs) (suc i) (first, s) =
      (remove_at-All _ cs i first, remove_at-IsSorted cs i s)

  -- `insert` keeps the cache sorted by key, with no key twice.
  pub cache_insert-IsSorted :
      (c : CachedContact P) (cs : List (CachedContact P))
      → IsSorted cs
      → IsSorted (cache_insert c cs)
  cache_insert-IsSorted c cs s = rw (cache_insert-upsert c cs) (upsert-IsSorted c cs s)

  abbrev lookup : Bytes → List (CachedContact P) → Option (CachedContact P)
  lookup k [] = none
  lookup k (d ∷ ds) = if bytes_eq d.key k then some d else lookup k ds

  abbrev nth : List (CachedContact P) → Option ℕ → Option (CachedContact P)
  nth cs none = none
  nth cs (some i) = get_elem? cs i

  first_match-lookup :
      (k : Bytes) (cs : List (CachedContact P))
      → All (λ d. length d.key ≡ length k) cs
      → nth cs (first_match k cs) ≡ lookup k cs
  first_match-lookup k [] w = refl
  first_match-lookup k (d ∷ ds) w =
      ground (arith, first_match-lookup k ds w.1, starts_with-eq d.key k w.0)

  fast_get-lookup :
      (k : Bytes) (cs : List (CachedContact P))
      → IsSorted cs
      → All (λ d. length d.key ≡ length k) cs
      → fast_get k cs ≡ lookup k cs
  unfolding fast_get
  fast_get-lookup k cs s w = ground (arith, find_idx-first_match k cs s, first_match-lookup k cs w)

  lookup-upsert :
      (c : CachedContact P) (k : Bytes) (cs : List (CachedContact P))
      → lookup k (upsert c cs) ≡ (if bytes_eq c.key k then some c else lookup k cs)
  lookup-upsert c k [] = refl
  lookup-upsert c k (d ∷ ds) = ground (
    arith,
    lookup-upsert c k ds,
    eq_of_cmp d.key c.key,
    eq_of_bytes_eq c.key k,
    eq_of_bytes_eq d.key k,
    cmp_refl k,
  )

  upsert-Sized :
      (n : ℕ) (c : CachedContact P) (cs : List (CachedContact P))
      → length c.key ≡ n
      → All (λ d. length d.key ≡ n) cs
      → All (λ d. length d.key ≡ n) (upsert c cs)
  upsert-Sized n c [] h w = (h, tt)
  upsert-Sized n c (d ∷ ds) h w = ground (arith, upsert-Sized n c ds h w.1)

  -- Where all keys have one length, a full key finds after `insert` the contact that was inserted, if
  -- it is its key, and otherwise what it found before.
  pub fast_get-cache_insert :
      (c : CachedContact P) (k : Bytes) (cs : List (CachedContact P))
      → IsSorted cs
      → All (λ d. length d.key ≡ length k) cs
      → length c.key ≡ length k
      → fast_get k (cache_insert c cs) ≡ (if bytes_eq c.key k then some c else fast_get k cs)
  fast_get-cache_insert c k cs s w h = rw (cache_insert-upsert c cs) (
      fast_get-lookup k (upsert c cs) (upsert-IsSorted c cs s) (upsert-Sized (length k) c cs h w)
      ∙ lookup-upsert c k cs
      ∙ ap (λ o. if bytes_eq c.key k then some c else o) (sym (fast_get-lookup k cs s w)))
