-- ===== src/Tests/Builder.antt =====
-- A restart of the firmware at a concrete flash.
use chiyocore.Base.{
  ℕ, ◌+◌, ◌≡◌, ◌<◌, ◌≤◌, refl, arith, Option, none, some, List, [], ◌∷◌, ◌++◌, map,
}
use chiyocore.Base.Bytes.{Bytes, bytes_eq, cmp, le16, le32, of_le}
use chiyocore.Hal.Directory
use chiyocore.Hal.Keys
use chiyocore.Hal.Outcome.{Outcome, Action, ok}
use chiyocore.Hal.Filesystem
use chiyocore.Hal.Filesystem.{Fs, codes}
use chiyocore.Hal.Filesystem.Objects
use chiyocore.Hal.Filesystem.Listing.{DirectoryEntries, directory_entries, entries_of}
use chiyocore.Storage.Search.{binary_search_by}
use chiyocore.Storage.Contacts
use chiyocore.Storage.Contacts.{Contact, CachedContact, from_full}
use chiyocore.Storage.Contacts.Prefix
use chiyocore.Storage.Contacts.Start as ContactsStart
use chiyocore.Storage.Contacts.Start.{new-inserted}
use chiyocore.Storage.Channels
use chiyocore.Storage.Channels.{Channel}
use chiyocore.Storage.Channels.Lookup
use chiyocore.Storage.Channels.Start as ChannelsStart
use chiyocore.Storage.Channels.Start.{new-IsIndexed}
use chiyocore.Hal.Partition.{FlashCall, read, write, check_end, map_offset, in_range}
use chiyocore.Builder.{ChiyocoreFs}
use chiyocore.Boot.{AdvertType, ChiyocoreNode}
use chiyocore.Boot
use chiyocore.Boot.Main.{MainConf, configure}
use chiyocore.Builder.Partitions.{read_at, write_at, partitions-apart}
use chiyocore.Builder.Start.{first_fs}
use chiyocore.Mesh.Types.{Node}
use chiyocore.Mesh.Monad.{World}
use chiyocore.Mesh.Monad
use chiyocore.Mesh.Receive.Invariant
use chiyocore.PingBot.{PingBot}
use chiyocore.Companion.Session.{Session, Host}
use chiyocore.Tests.Host.{host, session}
use chiyocore.Tests.Lora.{bot}
use chiyocore.Tests.Companion.{channel_codec, public_keys, hashtag_keys}
use chiyocore.Tests.Boot.{crates, slot}
use chiyocore.Tests.World.{Flash, flash_map, fresh_fs, hash, contact_codec}

abbrev contact : ℕ → Contact ℕ
contact n = record {
  key = n ∷ 9 ∷ [];
  name = 69 ∷ [];
  path_to = none;
  flags = 1;
  latitude = 0;
  longitude = 0;
  last_heard = 5;
}

abbrev channel : ℕ → Channel
channel idx = record { name = 109 ∷ []; key = 7 ∷ 7 ∷ []; hash = 50 + idx; idx = idx }

-- What an earlier run has stored: two contacts, the greater first, and two channels.
abbrev two_contacts : Fs Flash
two_contacts =
    (Contacts.insert flash_map hash contact_codec (contact 1)
      (Contacts.insert flash_map hash contact_codec (contact 3) ([], fresh_fs)).1).1.1

abbrev stored : Fs Flash
stored =
    (Channels.insert flash_map hash channel_codec (channel 0)
      (Channels.insert flash_map hash channel_codec (channel 2)
        (Channels.of_cache [], two_contacts)).1).1.1

abbrev opened : Outcome (Option DirectoryEntries) → DirectoryEntries
opened (ok (some d)) = d
opened _ = record { cursor = 0; key = 0; len = 0; entries = [] }

abbrev contact_entries : DirectoryEntries
contact_entries =
    opened
      (directory_entries flash_map hash (Contacts.contact_dir flash_map hash contact_codec)
        stored).0

abbrev channel_entries : DirectoryEntries
channel_entries =
    opened
      (directory_entries flash_map hash (Channels.channel_dir flash_map hash channel_codec)
        stored).0

contacts-Holds :
    ContactsStart.Holds flash_map hash contact_codec stored contact_entries
      (contact 1 ∷ contact 3 ∷ [])
unfolding Channels.insert Channels.get_cached binary_search_by Channels.write_channel Filesystem.set
    Filesystem.fetch_directory Filesystem.fetch_item Filesystem.decode_directory
    Filesystem.update_directory Filesystem.store_directory Directory.serialize_into
    Filesystem.store_item Channels.remember Channels.cache_insert bytes_eq Keys.file Keys.const_new
    cmp le16 le32 of_le Directory.cast_slice Directory.contains Directory.contains_entry
    Directory.deserialize_from Filesystem.insert_sorted Filesystem.sort_unstable
    Channels.remember_if_ok Contacts.insert Contacts.cache_if_ok Contacts.write_contact from_full
    directory_entries entries_of
contacts-Holds = record {
  there = record {
    free = refl;
    readable = λ k e. ground arith;
    opened = refl;
    first = refl;
    whole = refl;
  };
  decoded = refl;
  distinct = (((λ e. ground arith), tt), (tt, tt));
}

channels-Holds :
    ChannelsStart.Holds flash_map hash channel_codec stored channel_entries
      (channel 0 ∷ channel 2 ∷ [])
unfolding Channels.insert Channels.get_cached binary_search_by Channels.write_channel Filesystem.set
    Filesystem.fetch_directory Filesystem.fetch_item Filesystem.decode_directory
    Filesystem.update_directory Filesystem.store_directory Directory.serialize_into
    Filesystem.store_item Channels.remember Channels.cache_insert bytes_eq Keys.file Keys.const_new
    cmp le16 le32 of_le Directory.cast_slice Directory.contains Directory.contains_entry
    Directory.deserialize_from Filesystem.insert_sorted Filesystem.sort_unstable
    Channels.remember_if_ok Contacts.insert Contacts.cache_if_ok Contacts.write_contact from_full
    directory_entries entries_of
channels-Holds = record {
  there = record {
    free = refl;
    readable = λ k e. ground arith;
    opened = refl;
    first = refl;
    whole = refl;
  };
  decoded = refl;
  distinct = (((λ e. ground arith), tt), (tt, tt));
}

new-inserted_example :
    (Contacts.new flash_map hash contact_codec stored
      ≡ (ok (ContactsStart.inserted (map from_full (contact 1 ∷ contact 3 ∷ []))), stored))
    × Prefix.IsSorted (ContactsStart.inserted (map from_full (contact 1 ∷ contact 3 ∷ [])))
new-inserted_example =
    new-inserted flash_map hash contact_codec stored contact_entries (contact 1 ∷ contact 3 ∷ [])
      contacts-Holds

new-IsIndexed_example :
    (Channels.new flash_map hash channel_codec stored
      ≡ (ok (Channels.of_cache (ChannelsStart.inserted (channel 0 ∷ channel 2 ∷ []))), stored))
    × Lookup.IsSorted (ChannelsStart.inserted (channel 0 ∷ channel 2 ∷ []))
    × Lookup.IsIndexed (Channels.of_cache (ChannelsStart.inserted (channel 0 ∷ channel 2 ∷ [])))
new-IsIndexed_example =
    new-IsIndexed flash_map hash channel_codec stored channel_entries (channel 0 ∷ channel 2 ∷ [])
      channels-Holds

abbrev with_channels : Host ℕ (List Bytes) Bytes
with_channels = record host { channel_codec = channel_codec }

-- A configuration with one channel, the two variables of the network and a node.
abbrev configuration : MainConf
configuration = record {
  public_keys = public_keys;
  from_hashtag = hashtag_keys;
  default_channels = (35 ∷ 97 ∷ []) ∷ [];
  config = (codes "wifi.ssid", 104 ∷ []) ∷ (codes "wifi.pw", 105 ∷ []) ∷ [];
  name = 110 ∷ [];
  role = AdvertType.chat_node;
  id = slot;
}

-- A network that comes up.
abbrev connect : Bytes → Bytes → Outcome Bytes
connect ssid pw = ok (ssid ++ pw)

abbrev stored_fs : ChiyocoreFs ℕ (List Bytes)
stored_fs = first_fs [] (contact 1 ∷ contact 3 ∷ []) (channel 0 ∷ channel 2 ∷ [])

abbrev configured : Outcome (Bytes × ChiyocoreNode Bytes) × (ChiyocoreFs ℕ (List Bytes) × Fs Flash)
configured = configure flash_map hash channel_codec crates configuration connect (stored_fs, stored)

abbrev set_up : ChiyocoreFs ℕ (List Bytes)
set_up = configured.1.0

-- Layers that are built without touching the node.
abbrev build_layers :
    ChiyocoreNode Bytes → Action (Node ℕ Flash) (Session (List Bytes) Bytes × PingBot)
build_layers node n = (ok (session, bot), n)

-- The last byte that a write of the filesystem can reach, and the first that a read of the log can.
partitions-apart_example : (4259840 ≤ 5308415) × (5308415 < 5308416) × (5308416 < 8388608)
unfolding write read check_end map_offset in_range
partitions-apart_example =
    partitions-apart (write_at 1048575 (7 ∷ [])) (read_at 0 16)
      (FlashCall.write_range 5308415 (7 ∷ [])) (FlashCall.read_range 5308416 16) 5308415 5308416
      (omega arith, omega arith) (omega arith, omega arith) refl refl (omega arith, omega arith)
      (omega arith, omega arith)
