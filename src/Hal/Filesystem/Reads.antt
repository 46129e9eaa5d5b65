-- ===== src/Hal/Filesystem/Reads.antt =====
-- What a later `get_deser` reads: after `get_deser`, `set`, `get_persistable` and `get_or_insert`.
use chiyocore.Base.{
  ℕ, ◌+◌, ◌≤◌, ◌≡◌, ◌≢◌, ◌∙◌, refl, ap, subst, false, inl, inr, Option, none, some, arith,
  Option-cases, length,
}
use chiyocore.Base.Bytes.{Bytes}
use chiyocore.Hal.Keys.{FileKey, DirKey}
use chiyocore.Hal.Outcome.{Outcome, ok, err, panicked, blocked, pure, ◌>>=◌, >>=-ok, >>=-step}
use chiyocore.Hal.MapStore.{MapStore, IsLawful}
use chiyocore.Hal.Filesystem.{Fs, get, set, index_key, fetch_item}
use chiyocore.Hal.Filesystem.Writes.{set-get_self, set-get_ne}
use chiyocore.Hal.Filesystem.Objects.{
  Codec, IsFaithful, PersistedObject, decode, get_deser, get_persistable, persist,
}

module _ {S : Type 0} (m : MapStore S) where
  -- A read that succeeds was made on a free mutex, and changes nothing.
  pub get-state :
      (key : FileKey) (b : ℕ) (fs fs' : Fs S) {o : Option Bytes}
      → get m key b fs ≡ (ok o, fs')
      → (fs' ≡ fs) × (fs.locked ≡ false)
  unfolding get fetch_item
  get-state key b fs fs' h = (ground arith, ground arith)

module _ {S T : Type 0} (m : MapStore S) (xxh32 : Bytes → ℕ → ℕ) (c : Codec T) where
  decode-state :
      (r : Option Bytes) (fs fs' : Fs S) (o : Option T)
      → decode m xxh32 c r fs ≡ (ok o, fs')
      → fs' ≡ fs
  unfolding decode
  decode-state none fs fs' o h = ground arith
  decode-state (some bytes) fs fs' o h = ground arith

  decode-anywhere :
      (r : Option Bytes) (fs fs' fs2 : Fs S) (o : Option T)
      → decode m xxh32 c r fs ≡ (ok o, fs')
      → decode m xxh32 c r fs2 ≡ (ok o, fs2)
  unfolding decode
  decode-anywhere none fs fs' fs2 o h = ground arith
  decode-anywhere (some bytes) fs fs' fs2 o h = ground arith

  pub get_deser-state :
      (b : ℕ) (key : FileKey) (fs fs' : Fs S) (o : Option T)
      → get_deser m xxh32 c b key fs ≡ (ok o, fs')
      → fs' ≡ fs
  unfolding get_deser
  get_deser-state b key fs fs' o h =
      let (r, fs1, got, decoded) = >>=-ok (get m key b) (decode m xxh32 c) fs h in
      decode-state r fs1 fs' o decoded ∙ (get-state m key b fs fs1 got).0

  -- So it reads the same again.
  pub get_deser-again :
      (b : ℕ) (key : FileKey) (fs fs' : Fs S) (o : Option T)
      → get_deser m xxh32 c b key fs ≡ (ok o, fs')
      → get_deser m xxh32 c b key fs' ≡ (ok o, fs')
  get_deser-again b key fs fs' o h =
      ap (get_deser m xxh32 c b key) (get_deser-state b key fs fs' o h) ∙ h

  -- With a buffer of 512 bytes a value is read under the key, and nothing changes.
  abbrev pub Reads : FileKey → T → Fs S → Type 0
  Reads key t fs = get_deser m xxh32 c 512 key fs ≡ (ok (some t), fs)

  -- The serialised form leaves room for the key in a buffer of 512 bytes.
  abbrev pub Fits : T → Type 0
  Fits t = (bytes : Bytes) → c.to_allocvec t ≡ some bytes → length bytes + 11 ≤ 512

  module _ (lawful : IsLawful m) (faithful : IsFaithful c) where
    pub set-Reads :
        (dir : DirKey) (key : FileKey) (t : T) (bytes : Bytes) (fs fs' : Fs S)
        → c.to_allocvec t ≡ some bytes
        → length bytes + 11 ≤ 512
        → set m xxh32 dir key bytes fs ≡ (ok tt, fs')
        → Reads key t fs'
    unfolding get_deser decode
    set-Reads dir key t bytes fs fs' e fits h =
        >>=-step (get m key 512) (decode m xxh32 c) fs'
          (set-get_self m lawful xxh32 dir key bytes 512 fs fs' h (inr fits))
        ∙ rw (faithful.from_bytes-to_allocvec t bytes e) refl

    -- What is read of a key stays so after a `set` of another.
    pub set-get_deser_ne :
        (dir : DirKey) (key : FileKey) (bytes : Bytes) (j : FileKey) (o : Option T) (fs fs' : Fs S)
        → j ≢ key
        → j ≢ index_key m xxh32 dir
        → get_deser m xxh32 c 512 j fs ≡ (ok o, fs)
        → set m xxh32 dir key bytes fs ≡ (ok tt, fs')
        → get_deser m xxh32 c 512 j fs' ≡ (ok o, fs')
    unfolding get_deser
    set-get_deser_ne dir key bytes j o fs fs' nk nd reads h =
        let (r, fs1, got, decoded) = >>=-ok (get m j 512) (decode m xxh32 c) fs reads in
        let same : (get m j 512 fs').0 ≡ ok r =
          set-get_ne m lawful xxh32 dir key bytes 512 j fs fs' h nk nd ∙ ap (λ p. p.0) got in
        let again : get m j 512 fs' ≡ (ok r, (get m j 512 fs').1) =
          ap (λ x. (x, (get m j 512 fs').1)) same in
        >>=-step (get m j 512) (decode m xxh32 c) fs'
          (again ∙ ap (λ x. (ok r, x)) (get-state m j 512 fs' _ again).0)
        ∙ decode-anywhere r fs1 fs fs' o decoded

    -- An object that was returned is read under its key, which is this one.
    abbrev pub Kept : DirKey → FileKey → Outcome (PersistedObject T) × Fs S → Type 0
    Kept dir key (ok o, fs) = Reads key o.value fs × (o.key ≡ key) × (o.dir ≡ dir)
    Kept dir key (r, fs) = Unit

    persist-Kept :
        (dir : DirKey) (key : FileKey) (default : T) (r : Option T) (fs : Fs S)
        → Fits default
        → get_deser m xxh32 c 512 key fs ≡ (ok r, fs)
        → Kept dir key (persist m xxh32 c dir key default r fs)
    unfolding persist
    persist-Kept dir key default (some v) fs fits got = (got, refl, refl)
    persist-Kept dir key default none fs fits got = elim (Option-cases (c.to_allocvec default)) [
      | inl broken ↦ rw broken tt
      | inr (bytes, e) ↦ rw e (after bytes e (set m xxh32 dir key bytes fs) refl)
    ]
      where
        after :
            (bytes : Bytes)
            → c.to_allocvec default ≡ some bytes
            → (r : Outcome (Unit {0}) × Fs S) → set m xxh32 dir key bytes fs ≡ r
            → Kept dir key (
                ◌>>=◌ {B = PersistedObject T}
                  (λ _. r)
                  (λ _. pure (record { key = key; dir = dir; value = default }))
                  fs)
        after bytes e (ok u, fs') h =
            (set-Reads dir key default bytes fs fs' e (fits bytes e) h, refl, refl)
        after bytes e (err x, fs') h = tt
        after bytes e (panicked, fs') h = tt
        after bytes e (blocked, fs') h = tt

    -- What `get_persistable` returns is read under the key from then on, if the serialised default fits.
    pub get_persistable-Kept :
        (dir : DirKey) (key : FileKey) (default : T) (fs fs' : Fs S) (o : PersistedObject T)
        → Fits default
        → get_persistable m xxh32 c dir key default fs ≡ (ok o, fs')
        → Reads key o.value fs' × (o.key ≡ key) × (o.dir ≡ dir)
    unfolding get_persistable
    get_persistable-Kept dir key default fs fs' o fits h =
        let (r, fs1, got, done) =
          >>=-ok (get_deser m xxh32 c 512 key) (persist m xxh32 c dir key default) fs h in
        subst (Kept dir key) done
          (persist-Kept dir key default r fs1 fits (get_deser-again 512 key fs fs1 r got))

    -- A value that is read is what `get_persistable` returns, whatever the default.
    pub get_persistable-old :
        (dir : DirKey) (key : FileKey) (default t : T) (fs : Fs S)
        → Reads key t fs
        → get_persistable m xxh32 c dir key default fs
          ≡ (ok (record { key = key; dir = dir; value = t }), fs)
    unfolding get_persistable persist
    get_persistable-old dir key default t fs reads =
        >>=-step (get_deser m xxh32 c 512 key) (persist m xxh32 c dir key default) fs reads
