-- ===== src/Storage/Contacts/Writes.antt =====
-- `ContactStorage::insert` and `delete` over the filesystem: what the cache and the flash hold after.
use chiyocore.Base.{
  ℕ, ◌+◌, ◌≤◌, ◌≡◌, ◌≢◌, refl, ap, sym, ◌∙◌, ◌⊎◌, inl, inr, some, List, arith, length, remove_at,
  leb, Option-cases, Bool-cases,
}
use chiyocore.Base.Bytes.{Bytes}
use chiyocore.Hal.Outcome.{
  Outcome, ok, err, panicked, blocked, sequential_storage, postcard, or_throw, ◌>>=◌, >>=-step,
}
use chiyocore.Hal.MapStore.{MapStore, IsLawful}
use chiyocore.Hal.Filesystem.{Fs}
use chiyocore.Hal.Filesystem
use chiyocore.Hal.Filesystem.Mutex.{delete_deadlock}
use chiyocore.Hal.Filesystem.Writes.{set-get_self}
use chiyocore.Hal.Filesystem.Objects.{Codec, IsFaithful, get_deser, decode}
use chiyocore.Storage.Contacts.{
  Contact, CachedContact, from_full, find_idx, cache_insert, contact_dir, contact_key, full_get,
  write_contact, cache_if_ok, insert, delete, ignore, keep, to_vec,
}

module _ {P S : Type 0} (m : MapStore S) (xxh32 : Bytes → ℕ → ℕ) (c : Codec (Contact P)) where
  -- The serialised contact leaves room in the read buffer of 512 bytes for the key.
  abbrev pub Fits : Contact P → Type 0
  Fits contact = (bytes : Bytes) → c.to_allocvec contact ≡ some bytes → length bytes + 11 ≤ 512

  write_contact-set :
      (contact : Contact P) (bytes : Bytes) (fs : Fs S)
      → to_vec c 512 contact ≡ some bytes
      → Filesystem.set m xxh32 (contact_dir m xxh32 c) (contact_key m xxh32 c contact.key) bytes fs
        ≡ write_contact m xxh32 c contact fs
  unfolding write_contact
  write_contact-set contact bytes fs e =
      ap
        (λ o.
          (or_throw o postcard
              >>= Filesystem.set m xxh32 (contact_dir m xxh32 c)
                  (contact_key m xxh32 c contact.key))
            fs)
        (sym e)

  write_contact-full_get :
      (lawful : IsLawful m) (faithful : IsFaithful c) (contact : Contact P) (fs fs' : Fs S)
      → Fits contact
      → write_contact m xxh32 c contact fs ≡ (ok tt, fs')
      → full_get m xxh32 c contact.key fs' ≡ (ok (some contact), fs')
  unfolding write_contact full_get get_deser
  write_contact-full_get lawful faithful contact fs fs' fits h =
      elim (Option-cases (c.to_allocvec contact)) [
        | inl broken ↦ absurd (ground arith)
        | inr (bytes, e) ↦ elim (Bool-cases (leb (length bytes) 512)) [
          | inl short ↦
              >>=-step (Filesystem.get m (contact_key m xxh32 c contact.key) 512) (decode m xxh32 c)
                fs'
                (set-get_self m lawful xxh32 (contact_dir m xxh32 c)
                  (contact_key m xxh32 c contact.key) bytes 512 fs fs'
                  (write_contact-set contact bytes fs (ground arith) ∙ h) (inr (fits bytes e)))
              ∙ unfold decode in rw (faithful.from_bytes-to_allocvec contact bytes e) refl
          | inr long ↦ absurd (ground arith)
        ]
      ]

  -- Over a lawful flash map and a codec that reads back what it writes, and for a contact whose
  -- serialised form leaves room for the key in a buffer of 512 bytes: after a successful `insert`,
  -- `full_get` of its key reads it back from flash, and the cache is the old one with the contact's key
  -- and path put in. A failed `insert` leaves the cache as it was.
  pub insert-full_get :
      (lawful : IsLawful m) (faithful : IsFaithful c) (contact : Contact P)
      (cache cache' : List (CachedContact P)) (fs fs' : Fs S) (r : Outcome (Unit {0}))
      → Fits contact
      → insert m xxh32 c contact (cache, fs) ≡ (r, (cache', fs'))
      → ((r ≡ ok tt)
          × (full_get m xxh32 c contact.key fs' ≡ (ok (some contact), fs'))
          × (cache' ≡ cache_insert (from_full contact) cache))
        ⊎ ((r ≢ ok tt) × (cache' ≡ cache))
  unfolding insert cache_if_ok
  insert-full_get lawful faithful contact cache cache' fs fs' r fits h =
      go (write_contact m xxh32 c contact fs) refl h
    where
      go :
          (x : Outcome (Unit {0}) × Fs S)
          → write_contact m xxh32 c contact fs ≡ x
          → cache_if_ok m xxh32 c (from_full contact) cache x ≡ (r, (cache', fs'))
          → ((r ≡ ok tt)
              × (full_get m xxh32 c contact.key fs' ≡ (ok (some contact), fs'))
              × (cache' ≡ cache_insert (from_full contact) cache))
            ⊎ ((r ≢ ok tt) × (cache' ≡ cache))
      go (ok u, fs1) e k =
          let same : fs1 ≡ fs' = ap (λ p. p.1.1) k in
          inl (
            sym (ap (λ p. p.0) k),
            write_contact-full_get lawful faithful contact fs fs' fits (rw same at e),
            sym (ap (λ p. p.1.0) k),
          )
      go (err x, fs1) e k = inr (ground arith, ground arith)
      go (panicked, fs1) e k = inr (ground arith, ground arith)
      go (blocked, fs1) e k = inr (ground arith, ground arith)

  -- `delete` of a contact that the cache finds takes its entry out of the cache, and then either the
  -- filesystem's `delete` failed at the directory, or the call waits for ever. It never returns with
  -- the contact deleted from flash.
  pub delete_stuck :
      (key : Bytes) (cache : List (CachedContact P)) (fs : Fs S) (idx : ℕ)
      → find_idx key cache ≡ some idx
      → ((delete m xxh32 c key (cache, fs)).1.0 ≡ remove_at cache idx)
        × (((delete m xxh32 c key (cache, fs)).0 ≡ blocked)
            ⊎ ((Filesystem.delete m xxh32 (contact_key m xxh32 c key) fs).0
                ≡ err sequential_storage))
  unfolding delete ignore
  delete_stuck key cache fs idx h =
      rw (h, delete)
        (go (Filesystem.delete m xxh32 (contact_key m xxh32 c key) fs)
          (elim (delete_deadlock m xxh32 (contact_key m xxh32 c key) fs) [
            | inl failed ↦ inr failed
            | inr (waits, _) ↦ inl waits
          ]))
    where
      go :
          (x : Outcome (Unit {0}) × Fs S)
          → (x.0 ≡ blocked) ⊎ (x.0 ≡ err sequential_storage)
          → ((keep m xxh32 c (remove_at cache idx) (ignore m xxh32 c x)).1.0 ≡ remove_at cache idx)
            × (((keep m xxh32 c (remove_at cache idx) (ignore m xxh32 c x)).0 ≡ blocked)
                ⊎ (x.0 ≡ err sequential_storage))
      go (ok u, fs1) k = absurd (ground arith)
      go (err x, fs1) k = (refl, ground arith)
      go (panicked, fs1) k = absurd (ground arith)
      go (blocked, fs1) k = (refl, inl refl)
