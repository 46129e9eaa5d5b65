-- ===== src/Tests/Boot.antt =====
-- The start of the firmware at concrete inputs.
use chiyocore.Base.{
  ℕ, ◌≡◌, ◌+◌, ◌≤◌, refl, arith, ap, sym, Option, none, some, List, [], ◌∷◌, length, take,
  length-take, get_elem?, drop, ◌++◌, take-length-append, drop-length-append,
}
use chiyocore.Base.Bytes.{Bytes, bytes_eq, cmp, le16, le32, of_le}
use chiyocore.Hal.Directory
use chiyocore.Hal.Keys
use chiyocore.Hal.Keys.{FileKey}
use chiyocore.Hal.Outcome.{Outcome, ok, ◌>>◌}
use chiyocore.Hal.Filesystem
use chiyocore.Hal.Filesystem.{Fs, codes, index_key}
use chiyocore.Hal.Filesystem.Objects.{
  Codec, IsFaithful, PersistedObject, get_deser, get_or_insert, get_persistable,
}
use chiyocore.Hal.Filesystem.Objects
use chiyocore.Hal.Filesystem.Reads.{Fits}
use chiyocore.Mesh.Types.{AdvertisementExtraData}
use chiyocore.Boot.{
  AdvertType, AppdataFlags, Crates, ChiyocoreNode, def_advert, advert_flags, load_identity,
  load_node_slot, insert_vars, var_key, global_vars_dir,
}
use chiyocore.Boot.Slots.{Apart, load_node_slot-again}
use chiyocore.Boot.Vars.{start_value, insert_vars-start_value}
use chiyocore.Boot
use chiyocore.Boot.DefaultChannels.{Stored, numbered, companion-default_channels}
use chiyocore.Companion.Build.{from_keys, public_channel, tagged}
use chiyocore.Companion.Build
use chiyocore.Storage.Channels
use chiyocore.Storage.Search.{binary_search_by}
use chiyocore.Storage.Channels.{get}
use chiyocore.Tests.Companion.{public_keys, hashtag_keys, channel_codec, before_build}
use chiyocore.Tests.World.{
  Flash, flash_map, flash_map-IsLawful, fresh_fs, hash, raw_codec, raw_codec-IsFaithful,
}

-- An advertisement with a name and no position, as its flags and the name.
abbrev encode_parts : ℕ → Option ℕ → Option ℕ → Option Bytes → Option Bytes
encode_parts f none none (some n) = some (f ∷ n)
encode_parts _ _ _ _ = none

abbrev decode_advert : Bytes → Option AdvertisementExtraData
decode_advert [] = none
decode_advert (f ∷ n) =
    some (record { flags = f; latitude = none; longitude = none; name = some n })

abbrev advert_codec : Codec AdvertisementExtraData
advert_codec = record {
  to_allocvec = λ a. encode_parts a.flags a.latitude a.longitude a.name;
  from_bytes = decode_advert;
}

advert_codec-IsFaithful : IsFaithful advert_codec
advert_codec-IsFaithful = record {
  from_bytes-to_allocvec = λ t bytes h. read_back t.flags t.latitude t.longitude t.name bytes h;
}
  where
    read_back :
        (f : ℕ) (la lo : Option ℕ) (n : Option Bytes) (bytes : Bytes)
        → encode_parts f la lo n ≡ some bytes
        → decode_advert bytes ≡ some (record { flags = f; latitude = la; longitude = lo; name = n })
    read_back f none none (some n) bytes h =
        let same : f ∷ n ≡ bytes = ground arith in ap decode_advert (sym same)
    read_back f (some x) lo n bytes h = absurd (ground arith)
    read_back f none (some x) n bytes h = absurd (ground arith)
    read_back f none none none bytes h = absurd (ground arith)

-- A variable as its two parts, the first with its length.
abbrev decode_var : Bytes → Option (Bytes × Bytes)
decode_var [] = none
decode_var (n ∷ rest) = some (take n rest, drop n rest)

abbrev var_codec : Codec (Bytes × Bytes)
var_codec = record {
  to_allocvec = λ kv. some (length kv.0 ∷ kv.0 ++ kv.1);
  from_bytes = decode_var;
}

var_codec-IsFaithful : IsFaithful var_codec
var_codec-IsFaithful = record { from_bytes-to_allocvec = λ t bytes h. read_back t.0 t.1 bytes h }
  where
    read_back :
        (k v bytes : Bytes) → some (length k ∷ k ++ v) ≡ some bytes → decode_var bytes ≡ some (k, v)
    read_back k v bytes h =
        let same : length k ∷ k ++ v ≡ bytes = ground arith in
        rw (sym same) (rw (take-length-append k v, drop-length-append k v) refl)

abbrev pub crates : Crates Bytes
crates = record {
  advert_codec = advert_codec;
  identity_codec = raw_codec;
  var_codec = var_codec;
  flags = record {
    has_name = 128;
    is_chat_node = 1;
    is_repeater = 2;
    is_room_server = 3;
    is_sensor = 4;
    union = λ a b. a + b;
  };
  random = some (4 ∷ 5 ∷ []);
  from_seed = λ b. take 4 b;
}

abbrev pub slot : Bytes
slot = 115 ∷ []

identity_fits : (seed : Bytes) → Fits flash_map hash raw_codec (take 4 seed)
identity_fits seed bytes h =
    let same : take 4 seed ≡ bytes = ground arith in
    let short : length bytes ≤ 4 = rw (sym same) (omega (arith, length-take 4 seed)) in omega arith

slot-Apart :
    Apart flash_map hash flash_map-IsLawful crates advert_codec-IsFaithful raw_codec-IsFaithful
      identity_fits slot
unfolding Keys.file Keys.const_new
slot-Apart = ((λ e. ground arith), λ e. ground arith)

abbrev started : Outcome (ChiyocoreNode Bytes) × Fs Flash
started = load_node_slot flash_map hash crates (110 ∷ []) AdvertType.chat_node slot fresh_fs

abbrev pub loaded : ChiyocoreNode Bytes
loaded = record {
  identity = 4 ∷ 5 ∷ [];
  advert = record {
    key = Keys.file hash (Keys.const_new hash (codes "chiyoadvertslots")) slot;
    dir = Keys.const_new hash (codes "chiyoadvertslots");
    value = def_advert crates.flags AdvertType.chat_node (110 ∷ []);
  };
}

loading :
    load_node_slot flash_map hash crates (110 ∷ []) AdvertType.chat_node slot fresh_fs
    ≡ (ok loaded, started.1)
unfolding load_node_slot load_identity get_persistable Objects.persist get_deser Filesystem.get
    Objects.decode Filesystem.set Filesystem.fetch_directory Filesystem.fetch_item
    Filesystem.decode_directory Filesystem.update_directory Filesystem.store_directory
    Directory.serialize_into Filesystem.store_item advert_flags Keys.file Keys.const_new
loading = refl

default_fits :
    Fits flash_map hash advert_codec (def_advert crates.flags AdvertType.chat_node (110 ∷ []))
unfolding advert_flags
default_fits bytes h =
    let same : 129 ∷ 110 ∷ [] ≡ bytes = ground arith in rw (sym same) (omega arith)

-- At the next start with another name and role, and no random bytes.
load_node_slot-again_example :
    load_node_slot flash_map hash
      (record crates { random = none })
      []
      AdvertType.repeater
      slot
      started.1
    ≡ (ok loaded, started.1)
load_node_slot-again_example =
    load_node_slot-again flash_map hash flash_map-IsLawful crates advert_codec-IsFaithful
      raw_codec-IsFaithful identity_fits slot (110 ∷ []) [] AdvertType.chat_node AdvertType.repeater
      none fresh_fs started.1 loaded slot-Apart default_fits loading

-- Two values for one variable.
abbrev vars : List (Bytes × Bytes)
vars = (97 ∷ [], 1 ∷ []) ∷ (97 ∷ [], 2 ∷ []) ∷ []

abbrev with_vars : Fs Flash
with_vars = (insert_vars flash_map hash crates vars fresh_fs).1

inserting : insert_vars flash_map hash crates vars fresh_fs ≡ (ok tt, with_vars)
unfolding insert_vars get_or_insert Filesystem.get Filesystem.fetch_item Filesystem.set
    Filesystem.fetch_directory Filesystem.decode_directory Filesystem.update_directory
    Filesystem.store_directory Directory.serialize_into Filesystem.store_item Keys.file
    Keys.const_new
inserting = refl

insert_vars-start_value_example :
    get_deser flash_map hash var_codec 512 (var_key flash_map hash (97 ∷ [])) with_vars ≡ (
      ok (
          start_value flash_map hash flash_map-IsLawful crates var_codec-IsFaithful
            (var_key flash_map hash (97 ∷ []))
            none
            vars),
      with_vars,
    )
unfolding Keys.file Keys.const_new get_deser Filesystem.get Filesystem.fetch_item Objects.decode
insert_vars-start_value_example =
    insert_vars-start_value flash_map hash flash_map-IsLawful crates var_codec-IsFaithful vars
      (var_key flash_map hash (97 ∷ [])) none fresh_fs with_vars (var_fits 1, (var_fits 2, tt))
      (λ e. ground arith) refl inserting
  where
    var_fits : (v : ℕ) → Fits flash_map hash var_codec (97 ∷ [], v ∷ [])
    var_fits v bytes h =
        let same : 1 ∷ 97 ∷ v ∷ [] ≡ bytes = ground arith in rw (sym same) (omega arith)

-- Three channels of the configuration.
abbrev tags : List Bytes
tags = (97 ∷ []) ∷ (98 ∷ []) ∷ (99 ∷ []) ∷ []

tags-Stored :
    Stored flash_map hash channel_codec
      (from_keys 0 (codes "public") public_keys
        ∷ numbered flash_map hash channel_codec hashtag_keys 0 tags)
      before_build
unfolding Channels.insert Channels.get_cached binary_search_by Channels.write_channel Filesystem.set
    Filesystem.fetch_directory Filesystem.fetch_item Filesystem.decode_directory
    Filesystem.update_directory Filesystem.store_directory Directory.serialize_into
    Filesystem.store_item Channels.remember Channels.cache_insert bytes_eq Keys.file Keys.const_new
    cmp le16 le32 of_le Directory.cast_slice Directory.contains Directory.contains_entry
    Directory.deserialize_from Filesystem.insert_sorted Filesystem.sort_unstable
    Channels.remember_if_ok
tags-Stored = (refl, (refl, (refl, (refl, tt))))

abbrev both_built : Channels.State flash_map hash channel_codec
both_built =
    ((Boot.add_channels flash_map hash channel_codec public_keys hashtag_keys tags
        >> Build.add_channels flash_map hash channel_codec public_keys hashtag_keys)
      before_build).1

building :
    (Boot.add_channels flash_map hash channel_codec public_keys hashtag_keys tags
        >> Build.add_channels flash_map hash channel_codec public_keys hashtag_keys)
      before_build
    ≡ (ok tt, both_built)
unfolding Channels.insert Channels.get_cached binary_search_by Channels.write_channel Filesystem.set
    Filesystem.fetch_directory Filesystem.fetch_item Filesystem.decode_directory
    Filesystem.update_directory Filesystem.store_directory Directory.serialize_into
    Filesystem.store_item Channels.remember Channels.cache_insert bytes_eq Keys.file Keys.const_new
    cmp le16 le32 of_le Directory.cast_slice Directory.contains Directory.contains_entry
    Directory.deserialize_from Filesystem.insert_sorted Filesystem.sort_unstable
    Channels.remember_if_ok Boot.add_channels Boot.try_insert Boot.default_channels
    Build.add_channels Build.insert_or_panic
building = refl

companion-default_channels_example :
    (get 0 both_built.0
      ≡ some (public_channel flash_map hash channel_codec public_keys hashtag_keys))
    × (get 1 both_built.0
        ≡ some (tagged flash_map hash channel_codec public_keys hashtag_keys 1 (codes "#test")))
    × (get 2 both_built.0
        ≡ some (
            tagged flash_map hash channel_codec public_keys hashtag_keys 2
              (codes "#emitestcorner")))
    × ((i : ℕ) (name : Bytes)
        → get_elem? tags i ≡ some name
        → 2 ≤ i
        → get (i + 1) both_built.0 ≡ some (from_keys (i + 1) name (hashtag_keys name)))
companion-default_channels_example =
    companion-default_channels flash_map hash channel_codec hashtag_keys public_keys tags
      before_build both_built ((omega arith, tt), (tt, tt)) tags-Stored building
