-- ===== src/Hal/Filesystem/Mutex.antt =====
-- What the mutex of `ChiyoFilesystem` does to its calls. `delete` locks it twice.
use chiyocore.Base.{
  ℕ, ◌≡◌, refl, ap, ◌∙◌, ◌⊎◌, inl, inr, true, false, Option, none, some, arith, Bool-cases,
  Option-cases,
}
use chiyocore.Base.Bytes.{Bytes}
use chiyocore.Hal.Keys.{FileKey, DirKey}
use chiyocore.Hal.Directory.{Directory}
use chiyocore.Hal.Outcome.{
  Outcome, ok, err, panicked, blocked, sequential_storage, Action, ◌>>=◌, ◌>>◌,
}
use chiyocore.Hal.MapStore.{MapStore}
use chiyocore.Hal.Filesystem.{
  Fs, fetch_item, fetch_directory, store_directory, store_item, remove_entry, get, set, delete,
  index_key, position, release, with_lock, remove_item, decode_directory,
}

module _ {S : Type 0} where
  -- A step inside the lock: it succeeds or fails in the flash, and leaves the mutex as it is.
  abbrev pub Runs : {A : Type 0} → Fs S → Outcome A × Fs S → Type 0
  Runs fs (ok a, fs') = fs'.locked ≡ fs.locked
  Runs fs (err e, fs') = (e ≡ sequential_storage) × (fs'.locked ≡ fs.locked)
  Runs fs (panicked, fs') = ⊥
  Runs fs (blocked, fs') = ⊥

module _ {S : Type 0} (m : MapStore S) where
  fetch_directory-Runs : (key : FileKey) (fs : Fs S) → Runs fs (fetch_directory m key fs)
  unfolding fetch_directory fetch_item decode_directory
  fetch_directory-Runs key fs = ground arith

  store_directory-Runs :
      (key : FileKey) (d : Directory) (fs : Fs S) → Runs fs (store_directory m key d fs)
  unfolding store_directory store_item
  store_directory-Runs key d fs = ground arith

  module _ (xxh32 : Bytes → ℕ → ℕ) where
    remove_entry-Runs :
        (key : FileKey) (d : Option Directory) (fs : Fs S) → Runs fs (remove_entry m xxh32 key d fs)
    unfolding remove_entry
    remove_entry-Runs key none fs = refl
    remove_entry-Runs key (some d) fs = elim (Option-cases (position key.hash d.entries)) [
      | inl absent ↦ rw (absent, remove_entry) refl
      | inr (i, found) ↦ rw (found, remove_entry) (store_directory-Runs _ _ fs)
    ]

    -- A call has failed in the flash, or waits for ever with the mutex held.
    abbrev Hangs : Outcome (Unit {0}) × Fs S → Type 0
    Hangs r = (r.0 ≡ err sequential_storage) ⊎ ((r.0 ≡ blocked) × (r.1.locked ≡ true))

    second_lock-Hangs :
        (key : FileKey) (d : Option Directory) (fs : Fs S)
        → fs.locked ≡ true
        → Hangs (release ((remove_entry m xxh32 key d >> with_lock (remove_item m key)) fs))
    second_lock-Hangs key d fs h = ground (arith, remove_entry-Runs key d fs)

    after_fetch-Hangs :
        (key : FileKey) (fs : Fs S) (r : Outcome (Option Directory) × Fs S)
        → fs.locked ≡ true
        → Runs fs r
        → Hangs (
            release
              (((λ _. r) >>= λ d. remove_entry m xxh32 key d >> with_lock (remove_item m key)) fs))
    after_fetch-Hangs key fs (ok d, fs') h k = second_lock-Hangs key d fs' (k ∙ h)
    after_fetch-Hangs key fs (err e, fs') h k = inl (ap err k.0)
    after_fetch-Hangs key fs (panicked, fs') h k = absurd k
    after_fetch-Hangs key fs (blocked, fs') h k = absurd k

    delete-Hangs : (key : FileKey) (fs : Fs S) → Hangs (delete m xxh32 key fs)
    unfolding delete
    delete-Hangs key fs = elim (Bool-cases fs.locked) [
      | inl held ↦ rw held (inr (refl, refl))
      | inr free ↦ rw free (
          let fs' : Fs S = record fs { locked = true } in
          after_fetch-Hangs key fs' (fetch_directory m (index_key m xxh32 key.dir) fs') refl
            (fetch_directory-Runs (index_key m xxh32 key.dir) fs'))
    ]

    locked-blocked :
        (fs : Fs S)
        → fs.locked ≡ true
        → ((k : FileKey) (b : ℕ) → (get m k b fs).0 ≡ blocked)
          × ((d : DirKey) (k : FileKey) (v : Bytes) → (set m xxh32 d k v fs).0 ≡ blocked)
          × ((k : FileKey) → (delete m xxh32 k fs).0 ≡ blocked)
    unfolding delete get set
    locked-blocked fs h = (λ k b. rw h, λ d k v. rw h, λ k. rw h)

    -- `delete` never returns `Ok`. Either reading or rewriting the directory fails, or the call waits
    -- for ever with the mutex held, and from then on every `get`, `set` and `delete` waits for ever.
    pub delete_deadlock :
        (key : FileKey) (fs : Fs S)
        → ((delete m xxh32 key fs).0 ≡ err sequential_storage)
          ⊎ (((delete m xxh32 key fs).0 ≡ blocked)
              × (((k : FileKey) (b : ℕ) → (get m k b (delete m xxh32 key fs).1).0 ≡ blocked)
                  × ((d : DirKey) (k : FileKey) (v : Bytes)
                      → (set m xxh32 d k v (delete m xxh32 key fs).1).0 ≡ blocked)
                  × ((k : FileKey) → (delete m xxh32 k (delete m xxh32 key fs).1).0 ≡ blocked)))
    delete_deadlock key fs = elim (delete-Hangs key fs) [
      | inl failed ↦ inl failed
      | inr (waits, held) ↦ inr (waits, locked-blocked _ held)
    ]

module _ {S A : Type 0} where
  -- A successful call under the lock: the mutex was free, and is free again.
  pub with_lock-ok :
      (body : Action (Fs S) A) (fs fs' : Fs S) {a : A}
      → with_lock body fs ≡ (ok a, fs')
      → (fs.locked ≡ false)
        × (fs1 : Fs S) × (body (record fs { locked = true }) ≡ (ok a, fs1))
        × (fs' ≡ record fs1 { locked = false })
  with_lock-ok body fs fs' {a} h =
      (ground arith, (body (record fs { locked = true })).1, ground arith, ground arith)
