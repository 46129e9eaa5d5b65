-- ===== src/Boot/Vars.antt =====
-- The variables of the configuration, and those that are on flash.
use chiyocore.Base.{
  ℕ, ◌≡◌, ◌≢◌, ◌∙◌, refl, sym, ap, subst, true, false, Bool-cases, Option, none, some, Option-cases,
  List, [], ◌∷◌, inl, inr, arith, All, if◌then◌else◌,
}
use chiyocore.Base.Bytes.{Bytes}
use chiyocore.Hal.Keys.{FileKey, DirKey, key_eq}
use chiyocore.Hal.Outcome.{
  Outcome, ok, err, panicked, blocked, pure, unwrapped, ◌>>=◌, >>=-ok, >>=-step, unwrapped-ok,
}
use chiyocore.Hal.MapStore.{MapStore, IsLawful}
use chiyocore.Hal.Filesystem.{Fs, index_key, get, set}
use chiyocore.Hal.Filesystem.Objects.{
  Codec, IsFaithful, decode, get_deser, insert_or_read, get_or_insert,
}
use chiyocore.Hal.Filesystem.Reads.{Fits, get-state, set-Reads, set-get_deser_ne}
use chiyocore.Boot.{Crates, global_vars_dir, var_key, insert_vars}

-- What was read, or else this value.
module _ {T : Type 0} where
  abbrev pub or_else : Option T → T → Option T
  or_else none v = some v
  or_else (some old) v = some old

module _ {S T : Type 0} (m : MapStore S) (xxh32 : Bytes → ℕ → ℕ) (lawful : IsLawful m) (c : Codec T)
    (faithful : IsFaithful c) where
  -- What is read of a key before and after a call that inserts a value under another.
  abbrev After : FileKey → T → FileKey → Option T → Outcome T × Fs S → Type 0
  After key val j o (ok v, fs) =
      get_deser m xxh32 c 512 j fs ≡ (ok (if key_eq key j then or_else o val else o), fs)
  After key val j o (r, fs) = Unit

  key_eq-eq : (k j : FileKey) → key_eq k j ≡ true → k ≡ j
  key_eq-eq k j h = ground arith

  key_eq-ne : (k j : FileKey) → key_eq k j ≡ false → j ≢ k
  key_eq-ne k j h e = ground arith

  -- What `get_deser` has made of the bytes under a key.
  get_deser-decoded :
      (key j : FileKey) (fs : Fs S) (r : Option Bytes) (o : Option T)
      → key_eq key j ≡ true
      → get m key 512 fs ≡ (ok r, fs)
      → get_deser m xxh32 c 512 j fs ≡ (ok o, fs)
      → decode m xxh32 c r fs ≡ (ok o, fs)
  unfolding get_deser
  get_deser-decoded key j fs r o same got h =
      sym (>>=-step (get m key 512) (decode m xxh32 c) fs got)
      ∙ subst (λ x. get_deser m xxh32 c 512 x fs ≡ (ok o, fs)) (sym (key_eq-eq key j same)) h

  decode-none : (fs : Fs S) (o : Option T) → decode m xxh32 c none fs ≡ (ok o, fs) → o ≡ none
  unfolding decode
  decode-none fs o h = ground arith

  decode-some :
      (bytes : Bytes) (v : T) (fs : Fs S) (o : Option T)
      → c.from_bytes bytes ≡ some v
      → decode m xxh32 c (some bytes) fs ≡ (ok o, fs)
      → o ≡ some v
  unfolding decode
  decode-some bytes v fs o e h = ground arith

  stored-After :
      (dir : DirKey) (key : FileKey) (val : T) (j : FileKey) (o : Option T) (fs : Fs S) (v : Bytes)
      → Fits m xxh32 c val
      → j ≢ index_key m xxh32 dir
      → get m key 512 fs ≡ (ok none, fs)
      → get_deser m xxh32 c 512 j fs ≡ (ok o, fs)
      → c.to_allocvec val ≡ some v
      → (r : Outcome (Unit {0}) × Fs S) → set m xxh32 dir key v fs ≡ r
      → After key val j o (◌>>=◌ {B = T} (λ _. r) (λ _. pure val) fs)
  stored-After dir key val j o fs v fits nd got h e (ok u, fs') k =
      elim (Bool-cases (key_eq key j)) [
        | inl same ↦
            rw (same, decode-none fs o (get_deser-decoded key j fs none o same got h))
              (subst (λ x. get_deser m xxh32 c 512 x fs' ≡ (ok (some val), fs'))
                (key_eq-eq key j same)
                (set-Reads m xxh32 c lawful faithful dir key val v fs fs' e (fits v e) k))
        | inr other ↦ rw other (
            set-get_deser_ne m xxh32 c lawful faithful dir key v j o fs fs' (key_eq-ne key j other)
              nd h k)
      ]
  stored-After dir key val j o fs v fits nd got h e (err x, fs') k = tt
  stored-After dir key val j o fs v fits nd got h e (panicked, fs') k = tt
  stored-After dir key val j o fs v fits nd got h e (blocked, fs') k = tt

  insert_or_read-After :
      (dir : DirKey) (key : FileKey) (val : T) (j : FileKey) (o : Option T) (fs : Fs S)
      (r : Option Bytes)
      → Fits m xxh32 c val
      → j ≢ index_key m xxh32 dir
      → get m key 512 fs ≡ (ok r, fs)
      → get_deser m xxh32 c 512 j fs ≡ (ok o, fs)
      → After key val j o (insert_or_read m xxh32 c dir key val r fs)
  unfolding insert_or_read
  insert_or_read-After dir key val j o fs (some bytes) fits nd got h =
      elim (Option-cases (c.from_bytes bytes)) [
        | inl broken ↦ rw broken tt
        | inr (v, e) ↦ rw e (elim (Bool-cases (key_eq key j)) [
          | inl same ↦
              let old =
                decode-some bytes v fs o e (get_deser-decoded key j fs (some bytes) o same got h) in
              rw same (subst (λ x. get_deser m xxh32 c 512 j fs ≡ (ok x, fs)) (rw old refl) h)
          | inr other ↦ rw other h
        ])
      ]
  insert_or_read-After dir key val j o fs none fits nd got h =
      elim (Option-cases (c.to_allocvec val)) [
        | inl broken ↦ rw broken tt
        | inr (v, e) ↦
            rw e (stored-After dir key val j o fs v fits nd got h e (set m xxh32 dir key v fs) refl)
      ]

  -- After `get_or_insert` its key is read as it was, or else as the value, and any other key as it was.
  pub get_or_insert-read :
      (dir : DirKey) (key : FileKey) (val t : T) (j : FileKey) (o : Option T) (fs fs' : Fs S)
      → Fits m xxh32 c val
      → j ≢ index_key m xxh32 dir
      → get_deser m xxh32 c 512 j fs ≡ (ok o, fs)
      → get_or_insert m xxh32 c 512 dir key val fs ≡ (ok t, fs')
      → get_deser m xxh32 c 512 j fs' ≡ (ok (if key_eq key j then or_else o val else o), fs')
  unfolding get_or_insert
  get_or_insert-read dir key val t j o fs fs' fits nd h k =
      let insert = insert_or_read m xxh32 c dir key val in
      let (r, fs1, got, done) = >>=-ok (get m key 512) insert fs k in
      let same = (get-state m key 512 fs fs1 got).0 in
      subst (After key val j o) done (
        insert_or_read-After dir key val j o fs1 r fits nd
          (subst (λ x. get m key 512 x ≡ (ok r, fs1)) (sym same) got)
          (subst (λ x. get_deser m xxh32 c 512 j x ≡ (ok o, x)) (sym same) h))

module _ {S I : Type 0} (m : MapStore S) (xxh32 : Bytes → ℕ → ℕ) (lawful : IsLawful m)
    (c : Crates I) (faithful : IsFaithful c.var_codec) where
  -- What a variable is after the start: what it was on flash, or else its first value in the
  -- configuration.
  abbrev pub start_value :
      FileKey → Option (Bytes × Bytes) → List (Bytes × Bytes) → Option (Bytes × Bytes)
  start_value j o [] = o
  start_value j o ((k, v) ∷ rest) =
      start_value j (if key_eq (var_key m xxh32 k) j then or_else o (k, v) else o) rest

  -- When the variables of the configuration have been inserted, every variable is what it was on flash
  -- before, if it was there, and otherwise its first value in the configuration, if it has one: the
  -- configuration changes nothing that is on flash. Over a lawful flash map and a codec that reads
  -- back what it writes, if the serialised pairs leave room for the key in 512 bytes.
  pub insert_vars-start_value :
      (vars : List (Bytes × Bytes)) (j : FileKey) (o : Option (Bytes × Bytes)) (fs fs' : Fs S)
      → All (Fits m xxh32 c.var_codec) vars
      → j ≢ index_key m xxh32 (global_vars_dir m xxh32)
      → get_deser m xxh32 c.var_codec 512 j fs ≡ (ok o, fs)
      → insert_vars m xxh32 c vars fs ≡ (ok tt, fs')
      → get_deser m xxh32 c.var_codec 512 j fs' ≡ (ok (start_value j o vars), fs')
  unfolding insert_vars
  insert_vars-start_value [] j o fs fs' fits nd h k =
      subst (λ x. get_deser m xxh32 c.var_codec 512 j x ≡ (ok o, x)) (ap (λ p. p.1) k) h
  insert_vars-start_value ((name, v) ∷ rest) j o fs fs' fits nd h k =
      let key = var_key m xxh32 name in
      let dir = global_vars_dir m xxh32 in
      let call = get_or_insert m xxh32 c.var_codec 512 dir key (name, v) in
      let (t, fs1, inserted, left) =
        >>=-ok (unwrapped call) (λ _. insert_vars m xxh32 c rest) fs k in
      insert_vars-start_value rest j _ fs1 fs' fits.1 nd
        (get_or_insert-read m xxh32 lawful c.var_codec faithful dir key (name, v) t j o fs fs1
          fits.0 nd h (unwrapped-ok call fs inserted))
        left
