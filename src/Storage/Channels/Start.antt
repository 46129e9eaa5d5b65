-- ===== src/Storage/Channels/Start.antt =====
-- `ChannelStorage::new`: the cache and the maps that a start makes of the channels on flash.
use chiyocore.Base.{
  ℕ, ◌+◌, ◌<◌, ◌≡◌, ◌≢◌, ◌⊎◌, inl, inr, refl, sym, ap, subst, ◌∙◌, arith, Bool-cases, Option, none,
  some, List, [], ◌∷◌, map, All, ◌==◌,
}
use chiyocore.Base.Bytes.{Bytes}
use chiyocore.Hal.Outcome.{ok, pure, >>=-step}
use chiyocore.Hal.MapStore.{MapStore}
use chiyocore.Hal.Filesystem.{Fs}
use chiyocore.Hal.Filesystem.Listing.{
  DirectoryEntries, Item, directory_entries, read_entries, files, IsOpen, read_entries_all,
}
use chiyocore.Hal.Filesystem.Objects.{Codec}
use chiyocore.Storage.Channels.{
  Channel, map_hash, cache_insert, insert_by_idx, sort_by_idx, hashes, of_cache, channel_dir,
  accept, load, new,
}
use chiyocore.Storage.Channels.Lookup.{
  IsSorted, IsIndexed, upsert, cache_insert-upsert, cache_insert-IsSorted_idx, lookup, lookup-Above,
  get_cached-lookup,
}

-- No two of them have the same index.
abbrev pub AreDistinct : List Channel → Type 0
AreDistinct [] = Unit
AreDistinct (c ∷ cs) = All (λ d. c.idx ≢ d.idx) cs × AreDistinct cs

-- The cache that inserting each of them makes.
abbrev pub inserted : List Channel → List Channel
inserted [] = []
inserted (c ∷ cs) = cache_insert c (inserted cs)

insert_by_idx-upsert :
    (c : Channel) (cs : List Channel)
    → All (λ d. c.idx ≢ d.idx) cs
    → insert_by_idx c cs ≡ upsert c cs
unfolding insert_by_idx
insert_by_idx-upsert c [] h = refl
insert_by_idx-upsert c (d ∷ ds) h = ground (arith, insert_by_idx-upsert c ds h.1)

Other-insert_by_idx :
    (i : ℕ) (c : Channel) (cs : List Channel)
    → i ≢ c.idx
    → All (λ d. i ≢ d.idx) cs
    → All (λ d. i ≢ d.idx) (insert_by_idx c cs)
unfolding insert_by_idx
Other-insert_by_idx i c [] h a = (h, tt)
Other-insert_by_idx i c (d ∷ ds) h a = ground (arith, Other-insert_by_idx i c ds h a.1)

Other-sort_by_idx :
    (i : ℕ) (cs : List Channel) → All (λ d. i ≢ d.idx) cs → All (λ d. i ≢ d.idx) (sort_by_idx cs)
unfolding sort_by_idx
Other-sort_by_idx i [] h = tt
Other-sort_by_idx i (c ∷ cs) h =
    Other-insert_by_idx i c (sort_by_idx cs) h.0 (Other-sort_by_idx i cs h.1)

sort_by_idx-inserted : (cs : List Channel) → AreDistinct cs → sort_by_idx cs ≡ inserted cs
unfolding sort_by_idx
sort_by_idx-inserted [] h = refl
sort_by_idx-inserted (c ∷ cs) h =
    insert_by_idx-upsert c (sort_by_idx cs) (Other-sort_by_idx c.idx cs h.0)
    ∙ ap (upsert c) (sort_by_idx-inserted cs h.1)
    ∙ sym (cache_insert-upsert c (inserted cs))

inserted-IsSorted : (cs : List Channel) → IsSorted (inserted cs)
inserted-IsSorted [] = tt
inserted-IsSorted (c ∷ cs) = cache_insert-IsSorted_idx c (inserted cs) (inserted-IsSorted cs)

-- A sorted cache finds below a smaller channel what it finds alone.
lookup-Below :
    (i : ℕ) (c d : Channel) (cs : List Channel)
    → All (λ d. c.idx < d.idx) cs
    → lookup i cs ≡ some d
    → lookup i (c ∷ cs) ≡ some d
lookup-Below i c d cs above h =
    ground
      (arith, λ (e : c.idx ≡ i). lookup-Above i cs (subst (λ j. All (λ d. j < d.idx) cs) e above))

-- Where an entry of the map by hash comes from.
hashes-lookup :
    (cs : List Channel) (by_hash : ℕ → Option ℕ) (h i : ℕ)
    → IsSorted cs
    → hashes cs by_hash h ≡ some i
    → (by_hash h ≡ some i) ⊎ ((c : Channel) × (lookup i cs ≡ some c) × (c.hash ≡ h))
unfolding hashes
hashes-lookup [] by_hash h i sorted e = inl e
hashes-lookup (c ∷ cs) by_hash h i sorted e =
    elim (hashes-lookup cs (map_hash c.hash c.idx by_hash) h i sorted.1 e) [
      | inl here ↦ elim (Bool-cases (c.hash == h)) [
        | inl same ↦ inr (c, ground arith, ground arith)
        | inr other ↦ inl (ground arith)
      ]
      | inr (d, found, hashed) ↦ inr (d, lookup-Below i c d cs sorted.0 found, hashed)
    ]

of_cache-IsIndexed : (cache : List Channel) → IsSorted cache → IsIndexed (of_cache cache)
of_cache-IsIndexed cache sorted h i e = elim (hashes-lookup cache (λ _. none) h i sorted e) [
  | inl nothing ↦ absurd (ground arith)
  | inr (c, found, hashed) ↦ (c, get_cached-lookup i cache sorted ∙ found, hashed)
]

module _ {S : Type 0} (m : MapStore S) (xxh32 : Bytes → ℕ → ℕ) (c : Codec Channel) where
  -- The channels on flash, in the order of their directory.
  pub record Holds (fs : Fs S) (d : DirectoryEntries) (cs : List Channel) : Type 0 where
    pub there : IsOpen m xxh32 (channel_dir m xxh32 c) fs d
    pub decoded : map c.from_bytes (files m fs d.key d.entries) ≡ map some cs
    pub distinct : AreDistinct cs

  accept-ok :
      (bs : List Bytes) (cs : List Channel)
      → map c.from_bytes bs ≡ map some cs
      → map (λ b. accept m xxh32 c (Item.read b)) bs ≡ map ok cs
  unfolding accept
  accept-ok [] [] h = refl
  accept-ok [] (c' ∷ cs) h = absurd (ground arith)
  accept-ok (b ∷ bs) [] h = absurd (ground arith)
  accept-ok (b ∷ bs) (c' ∷ cs) h = ground (arith, accept-ok bs cs)

  -- A start whose flash holds these channels, each readable and no two with the same index, has the cache
  -- that inserting them one by one makes; that cache is sorted, and every entry of the map by hash leads
  -- to a channel with that hash. The flash is left as it is.
  pub new-IsIndexed :
      (fs : Fs S) (d : DirectoryEntries) (cs : List Channel)
      → Holds fs d cs
      → (new m xxh32 c fs ≡ (ok (of_cache (inserted cs)), fs))
        × IsSorted (inserted cs)
        × IsIndexed (of_cache (inserted cs))
  unfolding new load
  new-IsIndexed fs d cs h = (
    >>=-step (directory_entries m xxh32 (channel_dir m xxh32 c)) (load m xxh32 c) fs h.there.opened
        ∙ >>=-step (read_entries m (accept m xxh32 c) (d.len + 1) d [])
            (λ cs. pure (of_cache (sort_by_idx cs))) fs
            (read_entries_all m xxh32 (channel_dir m xxh32 c) fs d (accept m xxh32 c) cs h.there
              (accept-ok (files m fs d.key d.entries) cs h.decoded))
        ∙ ap (λ l. (ok (of_cache l), fs)) (sort_by_idx-inserted cs h.distinct),
    inserted-IsSorted cs,
    of_cache-IsIndexed (inserted cs) (inserted-IsSorted cs),
  )
