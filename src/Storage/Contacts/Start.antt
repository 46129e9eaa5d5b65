-- ===== src/Storage/Contacts/Start.antt =====
-- `ContactStorage::new`: the cache that a start makes of the contacts on flash.
use chiyocore.Base.{ℕ, ◌+◌, ◌≡◌, ◌≢◌, refl, sym, ap, ◌∙◌, arith, some, List, [], ◌∷◌, map, All}
use chiyocore.Base.Bytes.{Bytes, lt_of_gt, gt_of_lt, eq_of_cmp}
use chiyocore.Hal.Outcome.{ok, pure, >>=-step}
use chiyocore.Hal.MapStore.{MapStore}
use chiyocore.Hal.Filesystem.{Fs}
use chiyocore.Hal.Filesystem.Listing.{
  DirectoryEntries, Item, directory_entries, read_entries, files, IsOpen, read_entries_all,
}
use chiyocore.Hal.Filesystem.Objects.{Codec}
use chiyocore.Storage.Contacts.{
  Contact, CachedContact, from_full, cache_insert, insert_by_key, sort_by_key, contact_dir, accept,
  load, new, unwrap,
}
use chiyocore.Storage.Contacts.Prefix.{IsSorted}
use chiyocore.Storage.Contacts.Cache.{upsert, cache_insert-upsert, cache_insert-IsSorted}

module _ {P : Type 0} where
  -- No two of them have the same key.
  abbrev pub AreDistinct : List (CachedContact P) → Type 0
  AreDistinct [] = Unit
  AreDistinct (c ∷ cs) = All (λ d. c.key ≢ d.key) cs × AreDistinct cs

  -- The cache that inserting each of them makes.
  abbrev pub inserted : List (CachedContact P) → List (CachedContact P)
  inserted [] = []
  inserted (c ∷ cs) = cache_insert c (inserted cs)

  insert_by_key-upsert :
      (c : CachedContact P) (cs : List (CachedContact P))
      → All (λ d. c.key ≢ d.key) cs
      → insert_by_key c cs ≡ upsert c cs
  unfolding insert_by_key
  insert_by_key-upsert c [] h = refl
  insert_by_key-upsert c (d ∷ ds) h = ground (
    arith,
    insert_by_key-upsert c ds h.1,
    lt_of_gt c.key d.key,
    gt_of_lt c.key d.key,
    eq_of_cmp c.key d.key,
  )

  Other-insert_by_key :
      (k : Bytes) (c : CachedContact P) (cs : List (CachedContact P))
      → k ≢ c.key
      → All (λ d. k ≢ d.key) cs
      → All (λ d. k ≢ d.key) (insert_by_key c cs)
  unfolding insert_by_key
  Other-insert_by_key k c [] h a = (h, tt)
  Other-insert_by_key k c (d ∷ ds) h a = ground (arith, Other-insert_by_key k c ds h a.1)

  Other-sort_by_key :
      (k : Bytes) (cs : List (CachedContact P))
      → All (λ d. k ≢ d.key) cs
      → All (λ d. k ≢ d.key) (sort_by_key cs)
  unfolding sort_by_key
  Other-sort_by_key k [] h = tt
  Other-sort_by_key k (c ∷ cs) h =
      Other-insert_by_key k c (sort_by_key cs) h.0 (Other-sort_by_key k cs h.1)

  sort_by_key-inserted :
      (cs : List (CachedContact P)) → AreDistinct cs → sort_by_key cs ≡ inserted cs
  unfolding sort_by_key
  sort_by_key-inserted [] h = refl
  sort_by_key-inserted (c ∷ cs) h =
      insert_by_key-upsert c (sort_by_key cs) (Other-sort_by_key c.key cs h.0)
      ∙ ap (upsert c) (sort_by_key-inserted cs h.1)
      ∙ sym (cache_insert-upsert c (inserted cs))

  inserted-IsSorted : (cs : List (CachedContact P)) → IsSorted (inserted cs)
  inserted-IsSorted [] = tt
  inserted-IsSorted (c ∷ cs) = cache_insert-IsSorted c (inserted cs) (inserted-IsSorted cs)

module _ {P S : Type 0} (m : MapStore S) (xxh32 : Bytes → ℕ → ℕ) (c : Codec (Contact P)) where
  -- The contacts on flash, in the order of their directory.
  pub record Holds (fs : Fs S) (d : DirectoryEntries) (cs : List (Contact P)) : Type 0 where
    pub there : IsOpen m xxh32 (contact_dir m xxh32 c) fs d
    pub decoded : map c.from_bytes (files m fs d.key d.entries) ≡ map some cs
    pub distinct : AreDistinct (map from_full cs)

  accept-ok :
      (bs : List Bytes) (cs : List (Contact P))
      → map c.from_bytes bs ≡ map some cs
      → map (λ b. accept m xxh32 c (Item.read b)) bs ≡ map ok (map from_full cs)
  unfolding accept
  accept-ok [] [] h = refl
  accept-ok [] (c' ∷ cs) h = absurd (ground arith)
  accept-ok (b ∷ bs) [] h = absurd (ground arith)
  accept-ok (b ∷ bs) (c' ∷ cs) h = ground (arith, accept-ok bs cs)

  -- A start whose flash holds these contacts, each readable and no two with the same key, has the cache
  -- that inserting them one by one makes, and that cache is sorted; the flash is left as it is.
  pub new-inserted :
      (fs : Fs S) (d : DirectoryEntries) (cs : List (Contact P))
      → Holds fs d cs
      → (new m xxh32 c fs ≡ (ok (inserted (map from_full cs)), fs))
        × IsSorted (inserted (map from_full cs))
  unfolding new load unwrap
  new-inserted fs d cs h = (
    >>=-step (λ fs. unwrap m xxh32 c (directory_entries m xxh32 (contact_dir m xxh32 c) fs))
          (load m xxh32 c) fs {a = some d} {s' = fs} (rw h.there.opened refl)
        ∙ >>=-step (read_entries m (accept m xxh32 c) (d.len + 1) d [])
            (λ cs. pure (sort_by_key cs)) fs
            (read_entries_all m xxh32 (contact_dir m xxh32 c) fs d (accept m xxh32 c)
              (map from_full cs) h.there (accept-ok (files m fs d.key d.entries) cs h.decoded))
        ∙ ap (λ l. (ok l, fs)) (sort_by_key-inserted (map from_full cs) h.distinct),
    inserted-IsSorted (map from_full cs),
  )
