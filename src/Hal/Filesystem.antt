-- ===== src/Hal/Filesystem.antt =====
-- `ChiyoFilesystem` of firmware/chiyo-hal/src/storage.rs: directories of items over one flash map
-- behind an async mutex. The map is an interface (`MapStore`), the hash function a parameter.
pub mod Mutex
pub mod Listing
pub mod Writes
pub mod Index
pub mod Objects
pub mod Reads
use Prim.Native.Char.{code}
use Prim.Native.String.{String}
use Prim.Native.Nat.{Ordering}
use chiyocore.Base.{
  ℕ, ◌+◌, ◌%◌, ◌≡◌, Bool, true, false, Option, none, some, List, [], ◌∷◌, ◌++◌, if◌then◌else◌,
  length, ◌==◌, remove_at,
}
use chiyocore.Base.Bytes.{Bytes, cmp, le32, of_le}
use chiyocore.Hal.Keys.{DirKey, FileKey, hash_seed}
use chiyocore.Hal.Directory.{Directory, contains}
use chiyocore.Hal.Directory
use chiyocore.Hal.Outcome.{
  Outcome, ok, err, panicked, blocked, sequential_storage, Action, pure, throw, or_throw, ◌>>=◌,
  ◌>>◌,
}
use chiyocore.Hal.MapStore.{MapStore}

abbrev pub codes : String → Bytes
codes String.[] = []
codes (String.◌∷◌ c s) = code c ∷ codes s

-- The mutex's state beside what it guards.
pub record Fs (S : Type 0) : Type 0 where
  pub inner : S
  pub locked : Bool

-- `entries.sort_unstable()`: insertion into a sorted list. Equal entries are the same bytes.
unfoldable pub insert_sorted : Bytes → List Bytes → List Bytes
insert_sorted e [] = e ∷ []
insert_sorted e (x ∷ xs) = elim (cmp e x) [ Ordering.gt ↦ x ∷ insert_sorted e xs | _ ↦ e ∷ x ∷ xs ]

unfoldable pub sort_unstable : List Bytes → List Bytes
sort_unstable [] = []
sort_unstable (x ∷ xs) = insert_sorted x (sort_unstable xs)

-- `entries.iter().position(|v| u32::from_le_bytes(*v) == hash)`.
unfoldable pub position : ℕ → List Bytes → Option ℕ
position hash [] = none
position hash (e ∷ es) =
    if of_le e == hash
    then some 0
    else elim (position hash es) [ none ↦ none | some i ↦ some (i + 1) ]

module _ {S A : Type 0} where
  -- Dropping the guard. A call that waits for ever never drops it.
  abbrev pub release : Outcome A × Fs S → Outcome A × Fs S
  release (blocked, fs) = (blocked, fs)
  release (ok a, fs) = (ok a, record fs { locked = false })
  release (err e, fs) = (err e, record fs { locked = false })
  release (panicked, fs) = (panicked, record fs { locked = false })

  -- `let mut fs = self.inner.lock().await; …` up to the end of the guard's scope. The mutex of
  -- embassy_sync is not reentrant: a second lock waits until the first is dropped.
  abbrev pub with_lock : Action (Fs S) A → Action (Fs S) A
  with_lock body fs =
      if fs.locked then (blocked, fs) else release (body (record fs { locked = true }))

module _ {S : Type 0} (m : MapStore S) where
  -- `fs.fetch_item(buf, &key)`.
  unfoldable pub fetch_item : ℕ → FileKey → Action (Fs S) (Option Bytes)
  fetch_item buf key fs = or_throw (m.fetch fs.inner buf key) sequential_storage fs

  unfoldable pub store_item : FileKey → Bytes → Action (Fs S) (Unit {0})
  store_item key value fs =
      let (s, done) = m.store fs.inner 4096 key value in
      (if done then ok tt else err sequential_storage, record fs { inner = s })

  unfoldable pub remove_item : FileKey → Action (Fs S) (Unit {0})
  remove_item key fs =
      let (s, done) = m.remove fs.inner key in
      (if done then ok tt else err sequential_storage, record fs { inner = s })

  -- `fetch_item::<Directory>`: the value is read by its `deserialize_from`.
  unfoldable pub decode_directory : Option Bytes → Action (Fs S) (Option Directory)
  decode_directory none = pure none
  decode_directory (some bytes) = elim (Directory.deserialize_from bytes) [
    | none ↦ throw sequential_storage
    | some (d, _) ↦ pure (some d)
  ]

  unfoldable pub fetch_directory : FileKey → Action (Fs S) (Option Directory)
  fetch_directory key = fetch_item 4096 key >>= decode_directory

  -- `store_item(…, &directory)`: the value is written by its `serialize_into`.
  unfoldable pub store_directory : FileKey → Directory → Action (Fs S) (Unit {0})
  store_directory key d =
      or_throw (Directory.serialize_into d 4096) sequential_storage >>= store_item key

  -- `get`: `some none` of the map is `Ok(None)`.
  unfoldable pub get : FileKey → ℕ → Action (Fs S) (Option Bytes)
  get key buf = with_lock (fetch_item buf key)

  module _ (xxh32 : Bytes → ℕ → ℕ) where
    abbrev pub dir_index_hash : ℕ
    dir_index_hash = xxh32 (codes "_CHIYO_INTERNAL_DIRINDEX") hash_seed

    abbrev pub index_key : DirKey → FileKey
    index_key dir = record { dir = dir; hash = dir_index_hash }

    -- The `if let Some(directory)` of `set`.
    unfoldable pub update_directory : DirKey → FileKey → Option Directory → Action (Fs S) (Unit {0})
    update_directory dir key none =
        store_directory (index_key dir)
          (record { len = 1; dir_key = dir; entries = le32 key.hash ∷ [] })
    update_directory dir key (some d) =
        if contains d key
        then pure tt
        else let entries = sort_unstable (d.entries ++ le32 key.hash ∷ []) in
          store_directory (index_key dir)
            (record { len = length entries % 65536; dir_key = dir; entries = entries })

    unfoldable pub set : DirKey → FileKey → Bytes → Action (Fs S) (Unit {0})
    set dir key value = with_lock (do
      directory ← fetch_directory (index_key dir)
      update_directory dir key directory
      store_item key value)

    -- The `if let Some(dir)` of `delete`.
    unfoldable pub remove_entry : FileKey → Option Directory → Action (Fs S) (Unit {0})
    remove_entry key none = pure tt
    remove_entry key (some d) = elim (position key.hash d.entries) [
      | none ↦ pure tt
      | some idx ↦
          let entries = remove_at d.entries idx in
          store_directory (index_key key.dir)
            (record { len = length entries % 65536; dir_key = key.dir; entries = entries })
    ]

    -- `delete` locks the mutex a second time while it holds the first guard.
    unfoldable pub delete : FileKey → Action (Fs S) (Unit {0})
    delete key = with_lock (do
      dir ← fetch_directory (index_key key.dir)
      remove_entry key dir
      with_lock (remove_item key))
