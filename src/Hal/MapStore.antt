-- ===== src/Hal/MapStore.antt =====
-- The crate sequential_storage, which the filesystem of firmware/chiyo-hal/src/storage.rs uses: an
-- interface of the operations, and what its documentation promises of them.
use chiyocore.Base.{ℕ, ◌+◌, ◌≤◌, ◌≡◌, ◌≢◌, ◌⊎◌, Bool, true, Option, none, some, length}
use chiyocore.Base.Bytes.{Bytes}
use chiyocore.Hal.Keys.{FileKey}

-- `MapStorage<FileKey, …>`. A `fetch` or a `store` is given the size of its scratch buffer. `fetch`
-- answers `none` for an error, `some none` for a key that is not there. `store` and `remove` return
-- the flash as it is then, and whether they succeeded.
pub record MapStore (S : Type 0) : Type 0 where
  pub fetch : S → ℕ → FileKey → Option (Option Bytes)
  pub store : S → ℕ → FileKey → Bytes → S × Bool
  pub remove : S → FileKey → S × Bool

-- A successful `store` or `remove` changes the item of its key and no other. A buffer serves for
-- an item if it holds the key and the value, rounded up to a flash word; so one as large as the
-- buffer that the item was stored with does.
pub record IsLawful {S : Type 0} (m : MapStore S) : Type 0 where
  pub fetch-store_self :
      (s : S) (n : ℕ) (k : FileKey) (v : Bytes) (b : ℕ)
      → (m.store s n k v).1 ≡ true
      → (n ≤ b) ⊎ (length v + 11 ≤ b)
      → m.fetch (m.store s n k v).0 b k ≡ some (some v)
  pub fetch-store_ne :
      (s : S) (n : ℕ) (k : FileKey) (v : Bytes) (b : ℕ) (j : FileKey)
      → (m.store s n k v).1 ≡ true
      → j ≢ k
      → m.fetch (m.store s n k v).0 b j ≡ m.fetch s b j
  pub fetch-remove_self :
      (s : S) (k : FileKey) (b : ℕ)
      → (m.remove s k).1 ≡ true
      → m.fetch (m.remove s k).0 b k ≡ some none
  pub fetch-remove_ne :
      (s : S) (k : FileKey) (b : ℕ) (j : FileKey)
      → (m.remove s k).1 ≡ true
      → j ≢ k
      → m.fetch (m.remove s k).0 b j ≡ m.fetch s b j
