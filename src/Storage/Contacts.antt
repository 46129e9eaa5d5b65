-- ===== src/Storage/Contacts.antt =====
-- `ContactStorage` of firmware/chiyocore/src/simple_mesh/storage/contact.rs: the contacts on flash, and
-- a cache of their keys and paths, sorted by key. `P` is the crate meshcore's type of paths.
pub mod Prefix
pub mod Start
pub mod Cache
pub mod Writes
use chiyocore.Base.{
  ℕ, suc, ◌+◌, ◌-◌, Option, none, some, List, [], ◌∷◌, length, get_elem?, set, insert_at, remove_at,
  if◌then◌else◌, leb,
}
use Prim.Native.Nat.{min, Ordering}
use chiyocore.Base.Bytes.{Bytes, cmp, starts_with}
use chiyocore.Hal.Keys.{FileKey, DirKey, const_new, file}
use chiyocore.Hal.Outcome.{
  Outcome, ok, err, panicked, blocked, postcard, FirmwareError, Action, pure, or_throw, panic,
  ◌>>=◌, ◌>>◌,
}
use chiyocore.Hal.MapStore.{MapStore}
use chiyocore.Hal.Filesystem.{Fs, codes}
use chiyocore.Hal.Filesystem
use chiyocore.Hal.Filesystem.Listing.{DirectoryEntries, Item, directory_entries, read_entries}
use chiyocore.Hal.Filesystem.Listing
use chiyocore.Hal.Filesystem.Objects.{Codec, get_deser}
use chiyocore.Storage.Search.{Search, found, missing, binary_search_by}

pub record Contact (P : Type 0) : Type 0 where
  pub key : Bytes
  pub name : Bytes
  pub path_to : Option P
  pub flags : ℕ
  pub latitude : ℕ
  pub longitude : ℕ
  pub last_heard : ℕ

pub record CachedContact (P : Type 0) : Type 0 where
  pub key : Bytes
  pub path : Option P

module _ {P : Type 0} where
  unfoldable pub from_full : Contact P → CachedContact P
  from_full c = record { key = c.key; path = c.path_to }

  -- The index that `find_idx` looks at after a failed search.
  check_prefix : Bytes → List (CachedContact P) → ℕ → Option ℕ
  check_prefix prefix cache idx = elim (get_elem? cache idx) [
    | none ↦ none
    | some v ↦ if starts_with v.key prefix then some idx else none
  ]

  unfoldable pub find_idx : Bytes → List (CachedContact P) → Option ℕ
  unfolding check_prefix
  find_idx prefix cache = elim (binary_search_by (λ probe. cmp probe.key prefix) cache) [
    | found idx ↦ some idx
    | missing idx ↦ check_prefix prefix cache (min (length cache - 1) idx)
  ]

  unfoldable pub fast_get : Bytes → List (CachedContact P) → Option (CachedContact P)
  fast_get key cache = elim (find_idx key cache) [ none ↦ none | some v ↦ get_elem? cache v ]

  -- The `match` at the end of `insert`.
  unfoldable pub cache_insert : CachedContact P → List (CachedContact P) → List (CachedContact P)
  cache_insert contact cache = elim (binary_search_by (λ probe. cmp probe.key contact.key) cache) [
    | found idx ↦ set cache idx contact
    | missing idx ↦ insert_at cache idx contact
  ]

  -- `cache.sort_unstable_by_key(|k| k.key)`, by insertion.
  unfoldable pub insert_by_key : CachedContact P → List (CachedContact P) → List (CachedContact P)
  insert_by_key c [] = c ∷ []
  insert_by_key c (d ∷ ds) = elim (cmp c.key d.key) [
    | Ordering.gt ↦ d ∷ insert_by_key c ds
    | _ ↦ c ∷ d ∷ ds
  ]

  unfoldable pub sort_by_key : List (CachedContact P) → List (CachedContact P)
  sort_by_key [] = []
  sort_by_key (c ∷ cs) = insert_by_key c (sort_by_key cs)

-- `postcard::to_vec::<_, N>`: an error if the value does not fit in `n` bytes.
abbrev pub to_vec : {T : Type 0} → Codec T → ℕ → T → Option Bytes
to_vec c n t = elim (c.to_allocvec t) [
  | none ↦ none
  | some bytes ↦ if leb (length bytes) n then some bytes else none
]

module _ {P S : Type 0} (m : MapStore S) (xxh32 : Bytes → ℕ → ℕ) (c : Codec (Contact P)) where
  abbrev pub contact_dir : DirKey
  contact_dir = const_new xxh32 (codes "contacts")

  abbrev pub contact_key : Bytes → FileKey
  contact_key key = file xxh32 contact_dir key

  -- `entry.unwrap()`, and `postcard::from_bytes(entry).unwrap()`.
  accept : Item → Outcome (CachedContact P)
  accept (Listing.Item.failed e) = panicked
  accept (Listing.Item.read bytes) = elim (c.from_bytes bytes) [
    | none ↦ panicked
    | some contact ↦ ok (from_full contact)
  ]

  load : Option DirectoryEntries → Action (Fs S) (List (CachedContact P))
  load none = pure []
  load (some entries) = do
    cache ← read_entries m accept (entries.len + 1) entries []
    pure (sort_by_key cache)

  -- The `unwrap` of the directory.
  unwrap : {A : Type 0} → Outcome A × Fs S → Outcome A × Fs S
  unwrap (err e, fs) = (panicked, fs)
  unwrap r = r

  unfoldable pub new : Action (Fs S) (List (CachedContact P))
  unfolding accept load unwrap
  new = (λ fs. unwrap (directory_entries m xxh32 contact_dir fs)) >>= load

  unfoldable pub full_get : Bytes → Action (Fs S) (Option (Contact P))
  full_get key = get_deser m xxh32 c 512 (contact_key key)

  -- The cache and the flash.
  abbrev pub State : Type 0
  State = List (CachedContact P) × Fs S

  abbrev pub keep : {A : Type 0} → List (CachedContact P) → Outcome A × Fs S → Outcome A × State
  keep cache (r, fs) = (r, (cache, fs))

  unfoldable pub write_contact : Contact P → Action (Fs S) (Unit {0})
  write_contact contact = do
    bytes ← or_throw (to_vec c 512 contact) postcard
    Filesystem.set m xxh32 contact_dir (contact_key contact.key) bytes

  unfoldable pub cache_if_ok :
      CachedContact P
      → List (CachedContact P)
      → Outcome (Unit {0}) × Fs S
      → Outcome (Unit {0}) × State
  cache_if_ok contact cache (ok u, fs) = (ok u, (cache_insert contact cache, fs))
  cache_if_ok contact cache (r, fs) = (r, (cache, fs))

  unfoldable pub insert : Contact P → Action State (Unit {0})
  unfolding cache_if_ok
  insert contact (cache, fs) = cache_if_ok (from_full contact) cache (write_contact contact fs)

  -- The result of the filesystem's `delete` is dropped; a call that waits for ever does not return.
  ignore : {A : Type 0} → Outcome A × Fs S → Outcome (Unit {0}) × Fs S
  ignore (ok a, fs) = (ok tt, fs)
  ignore (err e, fs) = (ok tt, fs)
  ignore (panicked, fs) = (panicked, fs)
  ignore (blocked, fs) = (blocked, fs)

  unfoldable pub delete : Bytes → Action State (Unit {0})
  unfolding ignore
  delete key (cache, fs) = elim (find_idx key cache) [
    | none ↦ (ok tt, (cache, fs))
    | some idx ↦
        keep (remove_at cache idx) (ignore (Filesystem.delete m xxh32 (contact_key key) fs))
  ]
