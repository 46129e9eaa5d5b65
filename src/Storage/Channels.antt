-- ===== src/Storage/Channels.antt =====
-- `ChannelStorage` of firmware/chiyocore/src/simple_mesh/storage/channel.rs: the channels on flash, a
-- cache of them sorted by index, and the index under each hash and each name. The maps of the crate
-- litemap are functions from keys.
pub mod Lookup
pub mod Start
pub mod Writes
use Prim.Native.Nat.{compare, Ordering}
use chiyocore.Base.{
  ℕ, ◌+◌, Bool, ◌&&◌, Option, none, some, List, [], ◌∷◌, get_elem?, set, insert_at, if◌then◌else◌,
  ◌==◌,
}
use chiyocore.Base.Bytes.{Bytes, bytes_eq}
use chiyocore.Hal.Keys.{FileKey, DirKey, const_new, file}
use chiyocore.Hal.Outcome.{
  Outcome, ok, err, panicked, blocked, postcard, Action, pure, or_throw, ◌>>=◌, ◌>>◌,
}
use chiyocore.Hal.MapStore.{MapStore}
use chiyocore.Hal.Filesystem.{Fs, codes}
use chiyocore.Hal.Filesystem
use chiyocore.Hal.Filesystem.Listing.{DirectoryEntries, Item, directory_entries, read_entries}
use chiyocore.Hal.Filesystem.Listing
use chiyocore.Hal.Filesystem.Objects.{Codec}
use chiyocore.Storage.Contacts.{to_vec}
use chiyocore.Storage.Search.{Search, found, missing, binary_search_by}

pub record Channel : Type 0 where
  pub name : Bytes
  pub key : Bytes
  pub hash : ℕ
  pub idx : ℕ

-- What `#[derive(PartialEq)]` compares.
abbrev pub channel_eq : Channel → Channel → Bool
channel_eq a b =
    bytes_eq a.name b.name && bytes_eq a.key b.key && a.hash == b.hash && a.idx == b.idx

pub record ChannelStorage : Type 0 where
  pub by_hash : ℕ → Option ℕ
  pub by_name : Bytes → Option ℕ
  pub cache : List Channel

abbrev pub map_hash : ℕ → ℕ → (ℕ → Option ℕ) → ℕ → Option ℕ
map_hash hash idx by_hash h = if hash == h then some idx else by_hash h

abbrev pub map_name : Bytes → ℕ → (Bytes → Option ℕ) → Bytes → Option ℕ
map_name name idx by_name n = if bytes_eq name n then some idx else by_name n

-- `binary_search_by_key(&idx, |v| v.idx)`.
abbrev pub search_idx : ℕ → List Channel → Search
search_idx idx = binary_search_by (λ v. compare v.idx idx)

unfoldable pub get_cached : ℕ → List Channel → Option Channel
get_cached idx cache = elim (search_idx idx cache) [
  | found v ↦ get_elem? cache v
  | missing _ ↦ none
]

abbrev pub get : ℕ → ChannelStorage → Option Channel
get idx s = get_cached idx s.cache

-- `.and_then(|i| self.get(*i))`.
abbrev pub get_mapped : Option ℕ → ChannelStorage → Option Channel
get_mapped none s = none
get_mapped (some i) s = get i s

unfoldable pub get_by_hash : ℕ → ChannelStorage → Option Channel
get_by_hash hash s = get_mapped (s.by_hash hash) s

unfoldable pub get_by_name : Bytes → ChannelStorage → Option Channel
get_by_name name s = get_mapped (s.by_name name) s

-- The `match` at the end of `insert`.
unfoldable pub cache_insert : Channel → List Channel → List Channel
cache_insert channel cache = elim (search_idx channel.idx cache) [
  | found v ↦ set cache v channel
  | missing v ↦ insert_at cache v channel
]

-- The changes of `insert` in memory.
unfoldable pub remember : Channel → ChannelStorage → ChannelStorage
remember channel s = record {
  by_hash = map_hash channel.hash channel.idx s.by_hash;
  by_name = map_name channel.name channel.idx s.by_name;
  cache = cache_insert channel s.cache;
}

-- `entry_cache.sort_unstable_by_key(|v| v.idx)`, by insertion.
unfoldable pub insert_by_idx : Channel → List Channel → List Channel
insert_by_idx c [] = c ∷ []
insert_by_idx c (d ∷ ds) = elim (compare c.idx d.idx) [
  | Ordering.gt ↦ d ∷ insert_by_idx c ds
  | _ ↦ c ∷ d ∷ ds
]

unfoldable pub sort_by_idx : List Channel → List Channel
sort_by_idx [] = []
sort_by_idx (c ∷ cs) = insert_by_idx c (sort_by_idx cs)

-- `LiteMap::from_iter`: the last of two entries with one key stays.
unfoldable pub hashes : List Channel → (ℕ → Option ℕ) → ℕ → Option ℕ
hashes [] by_hash = by_hash
hashes (c ∷ cs) by_hash = hashes cs (map_hash c.hash c.idx by_hash)

unfoldable pub names : List Channel → (Bytes → Option ℕ) → Bytes → Option ℕ
names [] by_name = by_name
names (c ∷ cs) by_name = names cs (map_name c.name c.idx by_name)

abbrev pub of_cache : List Channel → ChannelStorage
of_cache cache = record {
  by_hash = hashes cache (λ _. none);
  by_name = names cache (λ _. none);
  cache = cache;
}

module _ {S : Type 0} (m : MapStore S) (xxh32 : Bytes → ℕ → ℕ) (c : Codec Channel) where
  abbrev pub channel_dir : DirKey
  channel_dir = const_new xxh32 (codes "channels")

  -- `entry.unwrap()`, and `postcard::from_bytes(entry)?`.
  accept : Item → Outcome Channel
  accept (Listing.Item.failed e) = panicked
  accept (Listing.Item.read bytes) = elim (c.from_bytes bytes) [
    | none ↦ err postcard
    | some channel ↦ ok channel
  ]

  load : Option DirectoryEntries → Action (Fs S) ChannelStorage
  load none = pure (of_cache [])
  load (some entries) = do
    entry_cache ← read_entries m accept (entries.len + 1) entries []
    pure (of_cache (sort_by_idx entry_cache))

  unfoldable pub new : Action (Fs S) ChannelStorage
  unfolding accept load
  new = directory_entries m xxh32 channel_dir >>= load

  abbrev pub State : Type 0
  State = ChannelStorage × Fs S

  -- `postcard::to_vec::<_, 128>(&channel)?`, and the write.
  unfoldable pub write_channel : Channel → Action (Fs S) (Unit {0})
  write_channel channel = do
    bytes ← or_throw (to_vec c 128 channel) postcard
    Filesystem.set m xxh32 channel_dir (file xxh32 channel_dir (channel.idx ∷ [])) bytes

  unfoldable pub remember_if_ok :
      Channel → ChannelStorage → Outcome (Unit {0}) × Fs S → Outcome (Unit {0}) × State
  remember_if_ok channel s (ok u, fs) = (ok u, (remember channel s, fs))
  remember_if_ok channel s (r, fs) = (r, (s, fs))

  abbrev pub is_stored : Channel → ChannelStorage → Bool
  is_stored channel s = elim (get channel.idx s) [
    | none ↦ Bool.false
    | some existing ↦ channel_eq channel existing
  ]

  unfoldable pub insert : Channel → Action State (Unit {0})
  unfolding remember_if_ok
  insert channel (s, fs) =
      if is_stored channel s
      then (ok tt, (s, fs))
      else remember_if_ok channel s (write_channel channel fs)
