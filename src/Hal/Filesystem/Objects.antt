-- ===== src/Hal/Filesystem/Objects.antt =====
-- Values with a serialised form in `ChiyoFilesystem`: `get_deser`, `get_or_insert`, and the
-- `PersistedObject` of firmware/chiyo-hal/src/storage.rs, a value kept in memory and on flash. The
-- crate postcard is the parameter `Codec`.
use chiyocore.Base.{ℕ, ◌≡◌, refl, subst, ap, ◌∙◌, inl, inr, Option, none, some, arith, Option-cases}
use chiyocore.Base.Bytes.{Bytes}
use chiyocore.Hal.Keys.{DirKey, FileKey}
use chiyocore.Hal.Outcome.{
  Outcome, ok, err, panicked, blocked, postcard, Action, pure, or_throw, ◌>>=◌, ◌>>◌, >>=-step,
}
use chiyocore.Hal.MapStore.{MapStore, IsLawful}
use chiyocore.Hal.Filesystem.{Fs, get, set}
use chiyocore.Hal.Filesystem.Writes.{set-get_self}

-- `to_allocvec` and `from_bytes`; `none` is a `postcard::Error`.
pub record Codec (T : Type 0) : Type 0 where
  pub to_allocvec : T → Option Bytes
  pub from_bytes : Bytes → Option T

-- What is written reads back.
pub record IsFaithful {T : Type 0} (c : Codec T) : Type 0 where
  pub from_bytes-to_allocvec :
      (t : T) (bytes : Bytes) → c.to_allocvec t ≡ some bytes → c.from_bytes bytes ≡ some t

pub record PersistedObject (T : Type 0) : Type 0 where
  pub key : FileKey
  pub dir : DirKey
  pub value : T

module _ {S T : Type 0} (m : MapStore S) (xxh32 : Bytes → ℕ → ℕ) (c : Codec T) where
  unfoldable pub decode : Option Bytes → Action (Fs S) (Option T)
  decode none = pure none
  decode (some read_val) = or_throw (c.from_bytes read_val) postcard >>= λ t. pure (some t)

  unfoldable pub get_deser : ℕ → FileKey → Action (Fs S) (Option T)
  unfolding decode
  get_deser buf key = get m key buf >>= decode

  unfoldable pub insert_or_read : DirKey → FileKey → T → Option Bytes → Action (Fs S) T
  insert_or_read dir key val (some read_val) = or_throw (c.from_bytes read_val) postcard
  insert_or_read dir key val none = do
    v ← or_throw (c.to_allocvec val) postcard
    set m xxh32 dir key v
    pure val

  unfoldable pub get_or_insert : ℕ → DirKey → FileKey → T → Action (Fs S) T
  unfolding insert_or_read
  get_or_insert buf dir key val = get m key buf >>= insert_or_read dir key val

  unfoldable pub persist : DirKey → FileKey → T → Option T → Action (Fs S) (PersistedObject T)
  persist dir key default (some v) = pure (record { key = key; dir = dir; value = v })
  persist dir key default none = do
    v_ser ← or_throw (c.to_allocvec default) postcard
    set m xxh32 dir key v_ser
    pure (record { key = key; dir = dir; value = default })

  unfoldable pub get_persistable : DirKey → FileKey → T → Action (Fs S) (PersistedObject T)
  unfolding persist
  get_persistable dir key default = get_deser 512 key >>= persist dir key default

  -- The two methods return the object beside the result: `self` is changed on every path.
  abbrev pub Method : Type 0
  Method = PersistedObject T × Fs S → Outcome (Unit {0}) × (PersistedObject T × Fs S)

  unfoldable pub write_value : DirKey → FileKey → T → Action (Fs S) (Unit {0})
  write_value dir key v = or_throw (c.to_allocvec v) postcard >>= set m xxh32 dir key

  assign_if_ok :
      T
      → PersistedObject T
      → Outcome (Unit {0}) × Fs S
      → Outcome (Unit {0}) × (PersistedObject T × Fs S)
  assign_if_ok new_val o (ok u, fs) = (ok u, (record o { value = new_val }, fs))
  assign_if_ok new_val o (r, fs) = (r, (o, fs))

  -- `PersistedObject::set`: flash first, and then the value in memory.
  unfoldable pub set_value : T → Method
  unfolding assign_if_ok
  set_value new_val (o, fs) = assign_if_ok new_val o (write_value o.dir o.key new_val fs)

  -- `PersistedObject::with_mut`: the value in memory first, and then flash.
  unfoldable pub with_mut : (T → T) → Method
  with_mut f (o, fs) =
      let o' : PersistedObject T = record o { value = f o.value } in
      let (r, fs') = write_value o.dir o.key o'.value fs in (r, (o', fs'))

  -- Flash holds the value that stands in memory, as a read with a large buffer sees it.
  abbrev pub InSync : PersistedObject T × Fs S → Type 0
  InSync (o, fs) = get_deser 4096 o.key fs ≡ (ok (some o.value), fs)

  module _ (lawful : IsLawful m) (faithful : IsFaithful c) where
    write_value-reads :
        (o : PersistedObject T) (fs fs' : Fs S)
        → write_value o.dir o.key o.value fs ≡ (ok tt, fs')
        → InSync (o, fs')
    unfolding write_value get_deser
    write_value-reads o fs fs' h = elim (Option-cases (c.to_allocvec o.value)) [
      | inl broken ↦ absurd (ground arith)
      | inr (bytes, e) ↦
          >>=-step (get m o.key 4096) decode fs' (
            set-get_self m lawful xxh32 o.dir o.key bytes 4096 fs fs' (rw e at h)
              (inl (omega arith)))
          ∙ rw (faithful.from_bytes-to_allocvec o.value bytes e) refl
    ]

    -- After `set` has returned `Ok`, memory holds the new value, and a read of flash with a buffer of
    -- 4096 bytes gives the same one, over a lawful flash map and a codec that reads back what it writes.
    pub set_value-InSync :
        (new_val : T) (o : PersistedObject T) (fs : Fs S) (s : PersistedObject T × Fs S)
        → set_value new_val (o, fs) ≡ (ok tt, s)
        → (s.0.value ≡ new_val) × InSync s
    unfolding set_value
    set_value-InSync new_val o fs s h = go (write_value o.dir o.key new_val fs) refl h
      where
        go :
            (r : Outcome (Unit {0}) × Fs S)
            → write_value o.dir o.key new_val fs ≡ r
            → assign_if_ok new_val o r ≡ (ok tt, s)
            → (s.0.value ≡ new_val) × InSync s
        go (ok u, fs') e k =
            let same : (record o { value = new_val }, fs') ≡ s = ap (λ p. p.1) k in
            subst (λ (x : PersistedObject T × Fs S). (x.0.value ≡ new_val) × InSync x) same
              (refl, write_value-reads (record o { value = new_val }) fs fs' e)
        go (err x, fs') e k = absurd (ground arith)
        go (panicked, fs') e k = absurd (ground arith)
        go (blocked, fs') e k = absurd (ground arith)

    -- After `with_mut` has returned `Ok`, memory holds the changed value, and a read of flash with a
    -- buffer of 4096 bytes gives the same one, over a lawful flash map and a codec that reads back what
    -- it writes.
    pub with_mut-InSync :
        (f : T → T) (o : PersistedObject T) (fs : Fs S) (s : PersistedObject T × Fs S)
        → with_mut f (o, fs) ≡ (ok tt, s)
        → (s.0.value ≡ f o.value) × InSync s
    unfolding with_mut
    with_mut-InSync f o fs s h =
        let o' : PersistedObject T = record o { value = f o.value } in
        let same : o' ≡ s.0 = ap (λ p. p.1.0) h in
        subst (λ (x : PersistedObject T). (x.value ≡ f o.value) × InSync (x, s.1)) same
          (refl, write_value-reads o' fs s.1 (ap (λ p. (p.0, p.1.1)) h))
