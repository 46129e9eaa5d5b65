-- ===== src/Boot.antt =====
-- The firmware's start: the code that builder/src/gen_main.rs writes into the `main` of a firmware, on the
-- filesystem and the channels. A `FullConfig` is read by the crates toml and serde. The set-up of the
-- hardware, of the network stack and of the second core is not modelled.
pub mod DefaultChannels
pub mod Main
pub mod Slots
pub mod Vars
use chiyocore.Base.{ℕ, ◌+◌, Option, none, some, List, [], ◌∷◌}
use chiyocore.Base.Bytes.{Bytes}
use chiyocore.Hal.Keys.{DirKey, FileKey, const_new, file}
use chiyocore.Hal.Outcome.{
  Outcome, ok, err, panicked, blocked, Action, pure, unwrapped, or_panic, ◌>>=◌, ◌>>◌,
}
use chiyocore.Hal.MapStore.{MapStore}
use chiyocore.Hal.Filesystem.{Fs, codes}
use chiyocore.Hal.Filesystem
use chiyocore.Hal.Filesystem.Objects.{
  Codec, PersistedObject, get_deser, get_or_insert, get_persistable,
}
use chiyocore.Storage.Channels.{Channel, ChannelStorage, State}
use chiyocore.Storage.Channels
use chiyocore.Mesh.Types.{AdvertisementExtraData}
use chiyocore.Companion.Build.{ChannelKeys, from_keys}

pub data AdvertType : Type 0 where
  none_role chat_node repeater room_server sensor : AdvertType

-- The flags of the crate meshcore, and their union.
pub record AppdataFlags : Type 0 where
  pub has_name : ℕ
  pub is_chat_node : ℕ
  pub is_repeater : ℕ
  pub is_room_server : ℕ
  pub is_sensor : ℕ
  pub union : ℕ → ℕ → ℕ

unfoldable pub advert_flags : AppdataFlags → AdvertType → ℕ
advert_flags f none_role = f.has_name
advert_flags f chat_node = f.union f.has_name f.is_chat_node
advert_flags f repeater = f.union f.has_name f.is_repeater
advert_flags f room_server = f.union f.has_name f.is_room_server
advert_flags f sensor = f.union f.has_name f.is_sensor

abbrev pub def_advert : AppdataFlags → AdvertType → Bytes → AdvertisementExtraData
def_advert f role name = record {
  flags = advert_flags f role;
  latitude = none;
  longitude = none;
  name = some name;
}

-- `ChiyocoreNode`, with an identity of the crate meshcore.
pub record ChiyocoreNode (I : Type 0) : Type 0 where
  pub identity : I
  pub advert : PersistedObject AdvertisementExtraData

-- What a start asks of code that is not the repository's: the codecs of postcard, the random bytes of
-- `Trng` (`none` where it is not there), and the key pair of a seed.
pub record Crates (I : Type 0) : Type 0 where
  pub advert_codec : Codec AdvertisementExtraData
  pub identity_codec : Codec I
  pub var_codec : Codec (Bytes × Bytes)
  pub flags : AppdataFlags
  pub random : Option Bytes
  pub from_seed : Bytes → I

module _ {S : Type 0} (m : MapStore S) (xxh32 : Bytes → ℕ → ℕ) where
  abbrev pub node_slot_dir : DirKey
  node_slot_dir = const_new xxh32 (codes "chiyonodeslots")

  abbrev pub node_advert_dir : DirKey
  node_advert_dir = const_new xxh32 (codes "chiyoadvertslots")

  abbrev pub global_vars_dir : DirKey
  global_vars_dir = const_new xxh32 (codes "chiyoglobalvars")

  abbrev pub slot_key : Bytes → FileKey
  slot_key slot = file xxh32 node_slot_dir slot

  abbrev pub advert_key : Bytes → FileKey
  advert_key slot = file xxh32 node_advert_dir slot

  abbrev pub var_key : Bytes → FileKey
  var_key name = file xxh32 global_vars_dir name

  module _ {I : Type 0} (c : Crates I) where
    -- The `if let … else` of the identity: the one that was read, or a new one, stored.
    unfoldable pub load_identity : Bytes → Option I → Action (Fs S) I
    load_identity slot (some id) = pure id
    load_identity slot none = do
      bytes ← or_panic c.random
      id_ser ← or_panic (c.identity_codec.to_allocvec (c.from_seed bytes))
      unwrapped (Filesystem.set m xxh32 node_slot_dir (slot_key slot) id_ser)
      pure (c.from_seed bytes)

    unfoldable pub load_node_slot : Bytes → AdvertType → Bytes → Action (Fs S) (ChiyocoreNode I)
    load_node_slot name advert_role slot = do
      advert ← unwrapped (
          get_persistable m xxh32 c.advert_codec node_advert_dir (advert_key slot)
            (def_advert c.flags advert_role name))
      stored ← unwrapped (get_deser m xxh32 c.identity_codec 512 (slot_key slot))
      identity ← load_identity slot stored
      pure (record { identity = identity; advert = advert })

    -- `global_config_inserts`.
    unfoldable pub insert_vars : List (Bytes × Bytes) → Action (Fs S) (Unit {0})
    insert_vars [] = pure tt
    insert_vars ((k, v) ∷ rest) =
        unwrapped (get_or_insert m xxh32 c.var_codec 512 global_vars_dir (var_key k) (k, v))
        >>= λ _. insert_vars rest

    -- One of the two variables that `add_network` is given.
    unfoldable pub network_var : Bytes → Action (Fs S) Bytes
    network_var name = do
      stored ← unwrapped (get_deser m xxh32 c.var_codec 128 (var_key name))
      kv ← or_panic stored
      pure kv.1

  module _ (cc : Codec Channel) where
    -- The result of an `insert` is dropped, but not a panic or a wait.
    abbrev pub dropped :
        Outcome (Unit {0}) × State m xxh32 cc → Outcome (Unit {0}) × State m xxh32 cc
    dropped (err x, w) = (ok tt, w)
    dropped r = r

    unfoldable pub try_insert : Channel → Action (State m xxh32 cc) (Unit {0})
    try_insert channel w = dropped (Channels.insert m xxh32 cc channel w)

    -- The channels of the configuration, from the index `idx + 1` on.
    unfoldable pub default_channels :
        (Bytes → ChannelKeys) → ℕ → List Bytes → Action (State m xxh32 cc) (Unit {0})
    default_channels from_hashtag idx [] = pure tt
    default_channels from_hashtag idx (channel ∷ rest) =
        try_insert (from_keys (idx + 1) channel (from_hashtag channel)) >>= λ _.
        default_channels from_hashtag (idx + 1) rest

    unfoldable pub add_channels :
        ChannelKeys → (Bytes → ChannelKeys) → List Bytes → Action (State m xxh32 cc) (Unit {0})
    add_channels public from_hashtag channels =
        try_insert (from_keys 0 (codes "public") public) >>= λ _.
        default_channels from_hashtag 0 channels
