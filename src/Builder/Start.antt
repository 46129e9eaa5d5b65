-- ===== src/Builder/Start.antt =====
-- The node of the firmware at its start, and from there on.
use chiyocore.Base.{◌≡◌, List, map}
use chiyocore.Base.{ℕ}
use chiyocore.Base.Bytes.{Bytes}
use chiyocore.Hal.MapStore.{MapStore}
use chiyocore.Hal.Filesystem.Objects.{Codec}
use chiyocore.Hal.Outcome.{Outcome, Action}
use chiyocore.Hal.Filesystem.{Fs}
use chiyocore.Storage.Contacts.{Contact, from_full}
use chiyocore.Storage.Contacts.Start as ContactsStart
use chiyocore.Storage.Channels.{Channel, of_cache}
use chiyocore.Storage.Channels.Start as ChannelsStart
use chiyocore.Storage.MeshStorage.{MeshStorage}
use chiyocore.Storage.MeshStorage
use chiyocore.Mesh.Monad
use chiyocore.PingBot.{PingBot}
use chiyocore.Companion.Session.{Session}
use chiyocore.Builder.{ChiyocoreFs, new_log}
use chiyocore.Boot.{Crates}
use chiyocore.Boot.Main.{MainConf}

-- The storages that a start makes of the contacts and channels on flash.
abbrev pub first_storage : {P : Type 0} → List (Contact P) → List Channel → MeshStorage P
first_storage cs chs = record {
  contacts = ContactsStart.inserted (map from_full cs);
  channels = of_cache (ChannelsStart.inserted chs);
}

-- The storages with a log, over a queue on flash.
abbrev pub first_fs : {P Q : Type 0} → Q → List (Contact P) → List Channel → ChiyocoreFs P Q
first_fs queue cs chs = record { log_fs = new_log queue; mesh_storage = first_storage cs chs }

module _ {P S Q I N : Type 0} (m : MapStore S) (xxh32 : Bytes → ℕ → ℕ) (channel : Codec Channel)
    (boot : Crates I) (conf : MainConf) (connect : Bytes → Bytes → Outcome N) where
  -- The contacts in memory are as they were.
  abbrev LeavesContacts : {A : Type 0} → Action (ChiyocoreFs P Q × Fs S) A → Type 0
  LeavesContacts f =
      (w : ChiyocoreFs P Q × Fs S) → (f w).1.0.mesh_storage.contacts ≡ w.0.mesh_storage.contacts
