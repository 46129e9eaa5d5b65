-- ===== src/Hal/Filesystem/Writes.antt =====
-- What a successful `set` of `ChiyoFilesystem` leaves behind: the item, the other items, and the
-- directory's index.
use chiyocore.Base.{
  ℕ, ◌+◌, ◌≤◌, ◌≡◌, refl, ap, sym, ◌∙◌, ◌≢◌, ◌⊎◌, inl, inr, true, false, Option, none, some, arith,
  Bool-cases, Option-cases, length,
}
use chiyocore.Base.Bytes.{Bytes}
use chiyocore.Hal.Keys.{FileKey, DirKey}
use chiyocore.Hal.Directory.{Directory, contains, contains_entry}
use chiyocore.Hal.Directory
use chiyocore.Hal.Outcome.{Outcome, ok, err, sequential_storage, ◌>>=◌, ◌>>◌, >>=-ok}
use chiyocore.Hal.Filesystem.Mutex.{with_lock-ok}
use chiyocore.Hal.MapStore.{MapStore, IsLawful}
use chiyocore.Hal.Filesystem.{
  Fs, fetch_item, fetch_directory, store_directory, store_item, update_directory, get, set,
  index_key, decode_directory,
}

module _ {S : Type 0} (m : MapStore S) (lawful : IsLawful m) (xxh32 : Bytes → ℕ → ℕ) where
  -- `fs` is `fs'` but for the item of `k`.
  abbrev pub AgreeBut : FileKey → Fs S → Fs S → Type 0
  AgreeBut k fs fs' = (b : ℕ) (j : FileKey) → j ≢ k → m.fetch fs'.inner b j ≡ m.fetch fs.inner b j

  store_item-ok :
      (key : FileKey) (value : Bytes) (fs fs' : Fs S)
      → store_item m key value fs ≡ (ok tt, fs')
      → ((m.store fs.inner 4096 key value).1 ≡ true)
        × (fs' ≡ record fs { inner = (m.store fs.inner 4096 key value).0 })
  unfolding store_item
  store_item-ok key value fs fs' h = ground arith

  pub store_item-AgreeBut :
      (key : FileKey) (value : Bytes) (fs fs' : Fs S)
      → store_item m key value fs ≡ (ok tt, fs')
      → AgreeBut key fs fs'
  store_item-AgreeBut key value fs fs' h b j ne =
      let (done, e) = store_item-ok key value fs fs' h in
      rw e (lawful.fetch-store_ne fs.inner 4096 key value b j done ne)

  store_directory-AgreeBut :
      (key : FileKey) (d : Directory) (fs fs' : Fs S)
      → store_directory m key d fs ≡ (ok tt, fs')
      → AgreeBut key fs fs'
  unfolding store_directory
  store_directory-AgreeBut key d fs fs' h = elim (Option-cases (Directory.serialize_into d 4096)) [
    | inl small ↦ absurd (ground arith)
    | inr (bytes, e) ↦ store_item-AgreeBut key bytes fs fs' (rw e at h)
  ]

  update_directory-AgreeBut :
      (dir : DirKey) (key : FileKey) (d : Option Directory) (fs fs' : Fs S)
      → update_directory m xxh32 dir key d fs ≡ (ok tt, fs')
      → AgreeBut (index_key m xxh32 dir) fs fs'
  unfolding update_directory store_directory
  update_directory-AgreeBut dir key none fs fs' h = store_directory-AgreeBut _ _ fs fs' h
  update_directory-AgreeBut dir key (some d) fs fs' h = elim (Bool-cases (contains d key)) [
    | inl old ↦ λ b j ne. ap (λ (x : Fs S). m.fetch x.inner b j) (sym (ap (λ p. p.1) (rw old at h)))
    | inr new ↦ store_directory-AgreeBut _ _ fs fs' (rw new at h)
  ]

  -- A successful `set` as its steps.
  pub set-ok :
      (dir : DirKey) (key : FileKey) (value : Bytes) (fs fs' : Fs S)
      → set m xxh32 dir key value fs ≡ (ok tt, fs')
      → (d : Option Directory) × (fs1 fs2 fs3 : Fs S) × (fetch_directory m
            (index_key m xxh32 dir)
            (record fs { locked = true })
          ≡ (ok d, fs1))
        × (update_directory m xxh32 dir key d fs1 ≡ (ok tt, fs2))
        × (store_item m key value fs2 ≡ (ok tt, fs3))
        × (fs' ≡ record fs3 { locked = false })
        × (fs.locked ≡ false)
  unfolding set
  set-ok dir key value fs fs' h =
      let fs0 : Fs S = record fs { locked = true } in
      let look = fetch_directory m (index_key m xxh32 dir) in
      let update = update_directory m xxh32 dir key in
      let write = store_item m key value in
      let (free, fs3, run, freed) = with_lock-ok (look >>= λ d. update d >> write) fs fs' h in
      let (d, fs1, fetched, rest) = >>=-ok look (λ d. update d >> write) fs0 run in
      let (_, fs2, updated, stored) = >>=-ok (update d) (λ _. write) fs1 rest in
      (d, fs1, fs2, fs3, fetched, updated, stored, freed, free)

  pub fetch_directory-state :
      (key : FileKey) (fs fs' : Fs S) {d : Option Directory}
      → fetch_directory m key fs ≡ (ok d, fs')
      → fs' ≡ fs
  unfolding fetch_directory fetch_item decode_directory
  fetch_directory-state key fs fs' h = ground arith

  pub store_item-fetched :
      (key : FileKey) (value : Bytes) (fs fs' : Fs S) (b : ℕ)
      → store_item m key value fs ≡ (ok tt, fs')
      → (4096 ≤ b) ⊎ (length value + 11 ≤ b)
      → m.fetch fs'.inner b key ≡ some (some value)
  store_item-fetched key value fs fs' b h fits =
      let (done, e) = store_item-ok key value fs fs' h in
      rw e (lawful.fetch-store_self fs.inner 4096 key value b done fits)

  -- What `get` makes of the map's answer.
  abbrev answer : Option (Option Bytes) → Outcome (Option Bytes)
  answer none = err sequential_storage
  answer (some o) = ok o

  get-answer :
      (j : FileKey) (b : ℕ) (fs : Fs S)
      → fs.locked ≡ false
      → get m j b fs ≡ (answer (m.fetch fs.inner b j), record fs { locked = false })
  unfolding get fetch_item
  get-answer j b fs free = ground arith

  -- Over a lawful flash map, after a successful `set`, `get` of the key returns the value, with a buffer
  -- of at least 4096 bytes or of at least 11 bytes more than the value.
  pub set-get_self :
      (dir : DirKey) (key : FileKey) (value : Bytes) (b : ℕ) (fs fs' : Fs S)
      → set m xxh32 dir key value fs ≡ (ok tt, fs')
      → (4096 ≤ b) ⊎ (length value + 11 ≤ b)
      → get m key b fs' ≡ (ok (some value), fs')
  set-get_self dir key value b fs fs' h fits =
      let (d, fs1, fs2, fs3, fetched, updated, stored, freed, free) =
        set-ok dir key value fs fs' h in
      rw freed (
        get-answer key b (record fs3 { locked = false }) refl
        ∙ ap (λ o. (answer o, record fs3 { locked = false }))
            (store_item-fetched key value fs2 fs3 b stored fits))

  -- Over a lawful flash map, a successful `set` leaves every item alone but that of its key and that of
  -- its directory's index.
  pub set-get_ne :
      (dir : DirKey) (key : FileKey) (value : Bytes) (b : ℕ) (j : FileKey) (fs fs' : Fs S)
      → set m xxh32 dir key value fs ≡ (ok tt, fs')
      → j ≢ key
      → j ≢ index_key m xxh32 dir
      → (get m j b fs').0 ≡ (get m j b fs).0
  set-get_ne dir key value b j fs fs' h nk nd =
      let (d, fs1, fs2, fs3, fetched, updated, stored, freed, free) =
        set-ok dir key value fs fs' h in
      let same : m.fetch fs3.inner b j ≡ m.fetch fs.inner b j =
        store_item-AgreeBut key value fs2 fs3 stored b j nk
        ∙ update_directory-AgreeBut dir key d fs1 fs2 updated b j nd
        ∙ ap (λ (x : Fs S). m.fetch x.inner b j)
            (fetch_directory-state (index_key m xxh32 dir) (record fs { locked = true }) fs1
              fetched) in
      rw freed (
        ap (λ r. r.0) (get-answer j b (record fs3 { locked = false }) refl)
        ∙ ap answer same
        ∙ sym (ap (λ r. r.0) (get-answer j b fs free)))
