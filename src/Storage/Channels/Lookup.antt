-- ===== src/Storage/Channels/Lookup.antt =====
-- The channels as a map from indices, and what the index under a hash finds after an `insert`.
use Prim.Native.Nat.{compare}
use Prim.Native.Nat.Ordering.{lt, eq, gt}
use chiyocore.Base.{
  ℕ, ◌<◌, ◌≤◌, ◌≡◌, ◌≢◌, refl, ap, sym, ◌∙◌, Bool, false, Option, none, some, List, [], ◌∷◌, arith,
  get_elem?, set, insert_at, if◌then◌else◌, All, ◌==◌, Option-cases, inl, inr,
}
use chiyocore.Storage.Search.{Search, found, missing, binary_search_by, bump}
use chiyocore.Storage.Channels.{
  Channel, ChannelStorage, search_idx, get_cached, get, get_by_hash, cache_insert, remember,
}

-- The indices grow.
abbrev pub IsSorted : List Channel → Type 0
IsSorted [] = Unit
IsSorted (c ∷ cs) = All (λ d. c.idx < d.idx) cs × IsSorted cs

-- `cache_insert` as a recursion.
abbrev pub upsert : Channel → List Channel → List Channel
upsert c [] = c ∷ []
upsert c (d ∷ ds) = elim (compare d.idx c.idx) [
  | lt ↦ d ∷ upsert c ds
  | eq ↦ c ∷ ds
  | gt ↦ c ∷ d ∷ ds
]

abbrev place : Channel → List Channel → Search → List Channel
place c cs (found i) = set cs i c
place c cs (missing i) = insert_at cs i c

place-bump :
    (c d : Channel) (cs : List Channel) (r : Search) → place c (d ∷ cs) (bump r) ≡ d ∷ place c cs r
place-bump c d cs (found i) = refl
place-bump c d cs (missing i) = refl

place-upsert : (c : Channel) (cs : List Channel) → place c cs (search_idx c.idx cs) ≡ upsert c cs
unfolding binary_search_by
place-upsert c [] = refl
place-upsert c (d ∷ ds) = ground (arith, place-upsert c ds, place-bump c d ds (search_idx c.idx ds))

pub cache_insert-upsert : (c : Channel) (cs : List Channel) → cache_insert c cs ≡ upsert c cs
unfolding cache_insert
cache_insert-upsert c cs = ground (arith, place-upsert c cs)

upsert-Above :
    (k : ℕ) (c : Channel) (cs : List Channel)
    → k < c.idx
    → All (λ d. k < d.idx) cs
    → All (λ d. k < d.idx) (upsert c cs)
upsert-Above k c [] h a = (h, tt)
upsert-Above k c (d ∷ ds) h a = ground (arith, upsert-Above k c ds h a.1)

Above-trans :
    (j k : ℕ) (cs : List Channel) → j ≤ k → All (λ d. k < d.idx) cs → All (λ d. j < d.idx) cs
Above-trans j k [] h a = tt
Above-trans j k (d ∷ ds) h a = (omega arith, Above-trans j k ds h a.1)

upsert-IsSorted : (c : Channel) (cs : List Channel) → IsSorted cs → IsSorted (upsert c cs)
upsert-IsSorted c [] s = (tt, tt)
upsert-IsSorted c (d ∷ ds) s = ground (
  arith,
  upsert-IsSorted c ds s.1,
  upsert-Above d.idx c ds,
  λ (h : c.idx ≤ d.idx). Above-trans c.idx d.idx ds h s.0,
)

-- `insert` keeps the cache sorted by index, with no index twice.
pub cache_insert-IsSorted_idx :
    (c : Channel) (cs : List Channel) → IsSorted cs → IsSorted (cache_insert c cs)
cache_insert-IsSorted_idx c cs s = rw (cache_insert-upsert c cs) (upsert-IsSorted c cs s)

abbrev pub lookup : ℕ → List Channel → Option Channel
lookup i [] = none
lookup i (d ∷ ds) = if d.idx == i then some d else lookup i ds

pub lookup-Above : (i : ℕ) (cs : List Channel) → All (λ d. i < d.idx) cs → lookup i cs ≡ none
lookup-Above i [] a = refl
lookup-Above i (d ∷ ds) a = ground (arith, lookup-Above i ds a.1)

abbrev at_search : List Channel → Search → Option Channel
at_search cs (found v) = get_elem? cs v
at_search cs (missing v) = none

at_search-bump :
    (d : Channel) (cs : List Channel) (r : Search) → at_search (d ∷ cs) (bump r) ≡ at_search cs r
at_search-bump d cs (found v) = refl
at_search-bump d cs (missing v) = refl

at_search-lookup :
    (i : ℕ) (cs : List Channel) → IsSorted cs → at_search cs (search_idx i cs) ≡ lookup i cs
unfolding binary_search_by
at_search-lookup i [] s = refl
at_search-lookup i (d ∷ ds) s = ground (
  arith,
  at_search-lookup i ds s.1,
  at_search-bump d ds (search_idx i ds),
  λ (h : i < d.idx). lookup-Above i ds (Above-trans i d.idx ds (omega arith) s.0),
)

pub get_cached-lookup : (i : ℕ) (cs : List Channel) → IsSorted cs → get_cached i cs ≡ lookup i cs
unfolding get_cached
get_cached-lookup i cs s = ground (arith, at_search-lookup i cs s)

lookup-upsert :
    (c : Channel) (i : ℕ) (cs : List Channel)
    → lookup i (upsert c cs) ≡ (if c.idx == i then some c else lookup i cs)
lookup-upsert c i [] = refl
lookup-upsert c i (d ∷ ds) = ground (arith, lookup-upsert c i ds)

-- On a sorted cache an index finds after `insert` the channel that was inserted, if it is its index,
-- and otherwise what it found before.
pub get_cached-cache_insert :
    (c : Channel) (i : ℕ) (cs : List Channel)
    → IsSorted cs
    → get_cached i (cache_insert c cs) ≡ (if c.idx == i then some c else get_cached i cs)
get_cached-cache_insert c i cs s = rw (cache_insert-upsert c cs) (
    get_cached-lookup i (upsert c cs) (upsert-IsSorted c cs s)
    ∙ lookup-upsert c i cs
    ∙ ap (λ o. if c.idx == i then some c else o) (sym (get_cached-lookup i cs s)))

-- Whether a hash is mapped to an index.
abbrev pub maps_to : Option ℕ → ℕ → Bool
maps_to none idx = false
maps_to (some i) idx = idx == i

-- What a hash finds after `insert`, over a sorted cache: the inserted channel, if it is its hash, but
-- also if the hash was that of a channel which stood under the same index, since that entry of the map
-- stays; otherwise what it found before.
pub get_by_hash-remember :
    (c : Channel) (h : ℕ) (s : ChannelStorage)
    → IsSorted s.cache
    → get_by_hash h (remember c s) ≡ (
        if c.hash == h
        then some c
        else if maps_to (s.by_hash h) c.idx
        then some c
        else get_by_hash h s)
unfolding get_by_hash remember
get_by_hash-remember c h s sorted = elim (Option-cases (s.by_hash h)) [
  | inl unknown ↦ ground (arith, get_cached-cache_insert c c.idx s.cache sorted)
  | inr (i, known) ↦ ground (
    arith,
    get_cached-cache_insert c c.idx s.cache sorted,
    get_cached-cache_insert c i s.cache sorted,
  )
]

-- Every entry of the map by hash leads to a channel with that hash.
abbrev pub IsIndexed : ChannelStorage → Type 0
IsIndexed s = (h i : ℕ) → s.by_hash h ≡ some i → (c : Channel) × (get i s ≡ some c) × (c.hash ≡ h)

-- Replacing a channel by one with another hash under the same index breaks the map by hash: the old
-- hash then finds the new channel, whose hash it is not.
pub remember_stale :
    (old c : Channel) (s : ChannelStorage)
    → IsSorted s.cache
    → s.by_hash old.hash ≡ some c.idx
    → c.hash ≢ old.hash
    → (get_by_hash old.hash (remember c s) ≡ some c) × (¬ IsIndexed (remember c s))
unfolding remember
remember_stale old c s sorted mapped other = (
  get_by_hash-remember c old.hash s sorted ∙ ground arith,
  λ indexed.
      let (c', at, hashed) = indexed old.hash c.idx (ground arith) in
      ground (arith, get_cached-cache_insert c c.idx s.cache sorted),
)
