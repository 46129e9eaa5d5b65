-- ===== src/Tests/Hal.antt =====
-- The filesystem of Tests/World on concrete calls.
use chiyocore.Base.{ℕ, ◌≡◌, refl, some, [], ◌∷◌, arith, length, inl, ◌⊎◌, ◌||◌}
use chiyocore.Base.Bytes.{Bytes, bytes_eq, le32, le16}
use chiyocore.Hal.Keys.{FileKey, DirKey}
use chiyocore.Hal.Directory.{Directory}
use chiyocore.Hal.Directory
use chiyocore.Hal.Outcome.{ok, err, blocked, sequential_storage}
use chiyocore.Hal.Filesystem.{
  Fs, set, get, delete, fetch_directory, fetch_item, decode_directory, update_directory,
  store_directory, store_item,
}
use chiyocore.Hal.Filesystem.Mutex.{delete_deadlock}
use chiyocore.Hal.Filesystem.Writes.{set-get_self}
use chiyocore.Hal.Filesystem.Index.{set-lists, lists}
use chiyocore.Tests.World.{Flash, flash_map, flash_map-IsLawful, fresh_fs, hash}

abbrev key : FileKey
key = record { dir = 5; hash = 9 }

abbrev value : Bytes
value = 1 ∷ 2 ∷ []

abbrev after : Fs Flash
after = (set flash_map hash 5 key value fresh_fs).1

-- The first `set` of a directory succeeds.
stored : set flash_map hash 5 key value fresh_fs ≡ (ok tt, after)
unfolding set fetch_directory fetch_item decode_directory update_directory store_directory
    store_item Directory.serialize_into
stored = refl

set-get_self_example : get flash_map key 4096 after ≡ (ok (some value), after)
set-get_self_example =
    set-get_self flash_map flash_map-IsLawful hash 5 key value 4096 fresh_fs after stored
      (inl (omega arith))

set-lists_example :
    lists flash_map hash 5 after key
    ≡ (bytes_eq (le32 9) (le32 9) || lists flash_map hash 5 fresh_fs key)
set-lists_example =
    set-lists flash_map hash flash_map-IsLawful 5 key value fresh_fs after key (omega arith)
      (λ e. ground arith) stored

delete_deadlock_example :
    ((delete flash_map hash key after).0 ≡ err sequential_storage)
    ⊎ (((delete flash_map hash key after).0 ≡ blocked)
        × (((k : FileKey) (b : ℕ)
              → (get flash_map k b (delete flash_map hash key after).1).0 ≡ blocked)
            × ((d : DirKey) (k : FileKey) (v : Bytes)
                → (set flash_map hash d k v (delete flash_map hash key after).1).0 ≡ blocked)
            × ((k : FileKey)
                → (delete flash_map hash k (delete flash_map hash key after).1).0 ≡ blocked)))
delete_deadlock_example = delete_deadlock flash_map hash key after

abbrev directory : Directory
directory = record { len = 2; dir_key = 5; entries = le32 9 ∷ le32 10 ∷ [] }

abbrev directory_bytes : Bytes
directory_bytes = 2 ∷ 0 ∷ 5 ∷ 0 ∷ 0 ∷ 0 ∷ 9 ∷ 0 ∷ 0 ∷ 0 ∷ 10 ∷ 0 ∷ 0 ∷ 0 ∷ []

directory_written : Directory.serialize_into directory 4096 ≡ some directory_bytes
unfolding Directory.serialize_into le16 le32
directory_written = refl

directory-IsValid : Directory.IsValid directory
unfolding le32
directory-IsValid = record { counted = refl; keyed = omega arith; grouped = (refl, (refl, tt)) }

deserialize_from-serialize_into_example :
    Directory.deserialize_from directory_bytes ≡ some (directory, length directory_bytes)
deserialize_from-serialize_into_example =
    Directory.deserialize_from-serialize_into directory 4096 directory-IsValid (omega arith)
      directory_written
