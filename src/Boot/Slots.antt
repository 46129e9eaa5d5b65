-- ===== src/Boot/Slots.antt =====
-- The slot of a node over a restart.
use chiyocore.Base.{
  ℕ, ◌≡◌, ◌≢◌, ◌∙◌, refl, sym, ap, subst, Option, none, some, Option-cases, inl, inr,
}
use chiyocore.Base.Bytes.{Bytes}
use chiyocore.Hal.Outcome.{
  Outcome, Action, ok, err, panicked, blocked, pure, unwrapped, ◌>>=◌, >>=-ok, >>=-step,
  unwrapped-ok, unwrapped-step,
}
use chiyocore.Hal.Keys.{FileKey, DirKey}
use chiyocore.Hal.MapStore.{MapStore, IsLawful}
use chiyocore.Hal.Filesystem.{Fs, index_key}
use chiyocore.Hal.Filesystem
use chiyocore.Hal.Filesystem.Objects.{IsFaithful, PersistedObject, get_deser, get_persistable}
use chiyocore.Hal.Filesystem.Reads.{
  Reads, Fits, get_deser-state, get_deser-again, set-Reads, set-get_deser_ne, get_persistable-Kept,
  get_persistable-old,
}
use chiyocore.Mesh.Types.{AdvertisementExtraData}
use chiyocore.Boot.{
  AdvertType, Crates, ChiyocoreNode, def_advert, node_slot_dir, node_advert_dir, slot_key,
  advert_key, load_identity, load_node_slot,
}

module _ {S I : Type 0} (m : MapStore S) (xxh32 : Bytes → ℕ → ℕ) (lawful : IsLawful m)
    (c : Crates I) (advert_faithful : IsFaithful c.advert_codec)
    (identity_faithful : IsFaithful c.identity_codec)
    (identity_fits : (seed : Bytes) → Fits m xxh32 c.identity_codec (c.from_seed seed)) where
  -- The identity that is returned is read under its key, and this advert under its own.
  abbrev Loaded : Bytes → AdvertisementExtraData → Outcome I × Fs S → Type 0
  Loaded slot a (ok id, fs) =
      Reads m xxh32 c.identity_codec (slot_key m xxh32 slot) id fs
      × Reads m xxh32 c.advert_codec (advert_key m xxh32 slot) a fs
  Loaded slot a (r, fs) = Unit

  -- The two items of a slot, and the index of the directory of identities, have different keys.
  abbrev pub Apart : Bytes → Type 0
  Apart slot =
      (advert_key m xxh32 slot ≢ slot_key m xxh32 slot)
      × (advert_key m xxh32 slot ≢ index_key m xxh32 (node_slot_dir m xxh32))

  stored-Loaded :
      (slot bytes id_ser : Bytes) (fs : Fs S) (a : AdvertisementExtraData)
      → Apart slot
      → c.identity_codec.to_allocvec (c.from_seed bytes) ≡ some id_ser
      → Reads m xxh32 c.advert_codec (advert_key m xxh32 slot) a fs
      → (r : Outcome (Unit {0}) × Fs S)
      → Filesystem.set m xxh32 (node_slot_dir m xxh32) (slot_key m xxh32 slot) id_ser fs ≡ r
      → Loaded slot a (◌>>=◌ {B = I} (unwrapped (λ _. r)) (λ _. pure (c.from_seed bytes)) fs)
  stored-Loaded slot bytes id_ser fs a (nk, nd) coded reads (ok u, fs') h = (
    set-Reads m xxh32 c.identity_codec lawful identity_faithful (node_slot_dir m xxh32)
        (slot_key m xxh32 slot) (c.from_seed bytes) id_ser fs fs' coded
        (identity_fits bytes id_ser coded) h,
    set-get_deser_ne m xxh32 c.advert_codec lawful advert_faithful (node_slot_dir m xxh32)
        (slot_key m xxh32 slot) id_ser (advert_key m xxh32 slot) (some a) fs fs' nk nd reads h,
  )
  stored-Loaded slot bytes id_ser fs a apart coded reads (err x, fs') h = tt
  stored-Loaded slot bytes id_ser fs a apart coded reads (panicked, fs') h = tt
  stored-Loaded slot bytes id_ser fs a apart coded reads (blocked, fs') h = tt

  load_identity-Loaded :
      (slot : Bytes) (stored : Option I) (fs : Fs S) (a : AdvertisementExtraData)
      → Apart slot
      → get_deser m xxh32 c.identity_codec 512 (slot_key m xxh32 slot) fs ≡ (ok stored, fs)
      → Reads m xxh32 c.advert_codec (advert_key m xxh32 slot) a fs
      → Loaded slot a (load_identity m xxh32 c slot stored fs)
  unfolding load_identity
  load_identity-Loaded slot (some i) fs a apart got reads = (got, reads)
  load_identity-Loaded slot none fs a apart got reads = elim (Option-cases c.random) [
    | inl no_rng ↦ rw no_rng tt
    | inr (bytes, drawn) ↦
        rw drawn (elim (Option-cases (c.identity_codec.to_allocvec (c.from_seed bytes))) [
          | inl broken ↦ rw broken tt
          | inr (id_ser, coded) ↦ rw coded (
              stored-Loaded slot bytes id_ser fs a apart coded reads
                (Filesystem.set m xxh32 (node_slot_dir m xxh32) (slot_key m xxh32 slot) id_ser fs)
                refl)
        ])
  ]

  -- A node whose parts are read under the keys of its slot.
  abbrev Held : Bytes → Outcome (ChiyocoreNode I) × Fs S → Type 0
  Held slot (ok node, fs) =
      Reads m xxh32 c.identity_codec (slot_key m xxh32 slot) node.identity fs
      × Reads m xxh32 c.advert_codec (advert_key m xxh32 slot) node.advert.value fs
      × (node.advert.key ≡ advert_key m xxh32 slot)
      × (node.advert.dir ≡ node_advert_dir m xxh32)
  Held slot (r, fs) = Unit

  load_node_slot-Held :
      (slot name : Bytes) (role : AdvertType) (fs fs' : Fs S) (node : ChiyocoreNode I)
      → Apart slot
      → Fits m xxh32 c.advert_codec (def_advert c.flags role name)
      → load_node_slot m xxh32 c name role slot fs ≡ (ok node, fs')
      → Held slot (ok node, fs')
  unfolding load_node_slot
  load_node_slot-Held slot name role fs fs' node apart fits h =
      let dir = node_advert_dir m xxh32 in
      let key = advert_key m xxh32 slot in
      let default = def_advert c.flags role name in
      let advert = get_persistable m xxh32 c.advert_codec dir key default in
      let look = get_deser m xxh32 c.identity_codec 512 (slot_key m xxh32 slot) in
      let load = load_identity m xxh32 c slot in
      let finish : PersistedObject AdvertisementExtraData → I → Action (Fs S) (ChiyocoreNode I) =
        λ a id. pure (record { identity = id; advert = a }) in
      let (o, fs1, h1, r1) =
        >>=-ok (unwrapped advert) (λ a. unwrapped look >>= λ stored. load stored >>= finish a) fs
          h in
      let (stored, fs2, h2, r2) =
        >>=-ok (unwrapped look) (λ stored. load stored >>= finish o) fs1 r1 in
      let (id, fs3, h3, r3) = >>=-ok (load stored) (finish o) fs2 r2 in
      let kept =
        get_persistable-Kept m xxh32 c.advert_codec lawful advert_faithful dir key default fs fs1 o
          fits (unwrapped-ok advert fs h1) in
      let got = unwrapped-ok look fs1 h2 in
      let same =
        get_deser-state m xxh32 c.identity_codec 512 (slot_key m xxh32 slot) fs1 fs2 stored got in
      let loaded = subst (Loaded slot o.value) h3 (
        load_identity-Loaded slot stored fs2 o.value apart
          (get_deser-again m xxh32 c.identity_codec 512 (slot_key m xxh32 slot) fs1 fs2 stored got)
          (subst (Reads m xxh32 c.advert_codec key o.value) (sym same) kept.0)) in
      subst (Held slot) r3 (loaded.0, loaded.1, kept.1, kept.2)

  load_node_slot_read :
      (slot name : Bytes) (role : AdvertType) (random : Option Bytes) (fs : Fs S)
      (node : ChiyocoreNode I)
      → Held slot (ok node, fs)
      → load_node_slot m xxh32 (record c { random = random }) name role slot fs ≡ (ok node, fs)
  unfolding load_node_slot load_identity
  load_node_slot_read slot name role random fs node (id, advert, key, dir) =
      let default = def_advert c.flags role name in
      let read =
        get_persistable m xxh32 c.advert_codec (node_advert_dir m xxh32) (advert_key m xxh32 slot)
          default in
      let look = get_deser m xxh32 c.identity_codec 512 (slot_key m xxh32 slot) in
      let load = load_identity m xxh32 (record c { random = random }) slot in
      let finish : PersistedObject AdvertisementExtraData → I → Action (Fs S) (ChiyocoreNode I) =
        λ a i. pure (record { identity = i; advert = a }) in
      let object = λ (k : FileKey) (d : DirKey).
        let o : PersistedObject AdvertisementExtraData = record {
          key = k;
          dir = d;
          value = node.advert.value;
        } in
        o in
      let o = object (advert_key m xxh32 slot) (node_advert_dir m xxh32) in
      let same : o ≡ node.advert =
        ap (λ k. object k (node_advert_dir m xxh32)) (sym key)
        ∙ ap (object node.advert.key) (sym dir) in
      >>=-step (unwrapped read) (λ a. unwrapped look >>= λ stored. load stored >>= finish a) fs
        (unwrapped-step read fs (
          get_persistable-old m xxh32 c.advert_codec lawful advert_faithful
            (node_advert_dir m xxh32) (advert_key m xxh32 slot) default node.advert.value fs
            advert))
      ∙ >>=-step (unwrapped look) (λ stored. load stored >>= finish o) fs
          (unwrapped-step look fs id)
      ∙ ap (λ a. finish a node.identity fs) same

  -- A node that was loaded from a slot is loaded again at every later start from the flash that the load
  -- left, with the same identity and the same advertisement, and then flash is not changed: whatever
  -- name and role the configuration has by then, and whether or not there are random bytes. Over a
  -- lawful flash map and codecs that read back what they write, if the identity of every seed and the
  -- first default fit 512 bytes with the key, and the keys of the slot's items are different.
  pub load_node_slot-again :
      (slot name name' : Bytes) (role role' : AdvertType) (random : Option Bytes) (fs fs' : Fs S)
      (node : ChiyocoreNode I)
      → Apart slot
      → Fits m xxh32 c.advert_codec (def_advert c.flags role name)
      → load_node_slot m xxh32 c name role slot fs ≡ (ok node, fs')
      → load_node_slot m xxh32 (record c { random = random }) name' role' slot fs' ≡ (ok node, fs')
  load_node_slot-again slot name name' role role' random fs fs' node apart fits h =
      load_node_slot_read slot name' role' random fs' node
        (load_node_slot-Held slot name role fs fs' node apart fits h)
