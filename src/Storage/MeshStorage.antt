-- ===== src/Storage/MeshStorage.antt =====
-- `MeshStorage` of firmware/chiyocore/src/simple_mesh/storage/mod.rs: the two storages of a mesh node, as
-- a start reads them from the filesystem, which they share.
use chiyocore.Base.{ℕ, ◌≡◌, ◌∙◌, List, map}
use chiyocore.Base.Bytes.{Bytes}
use chiyocore.Hal.Outcome.{ok, Action, pure, unwrapped, unwrapped-step, ◌>>=◌, >>=-step}
use chiyocore.Hal.MapStore.{MapStore}
use chiyocore.Hal.Filesystem.{Fs}
use chiyocore.Hal.Filesystem.Listing.{DirectoryEntries}
use chiyocore.Hal.Filesystem.Objects.{Codec}
use chiyocore.Storage.Contacts.{Contact, CachedContact, from_full}
use chiyocore.Storage.Contacts
use chiyocore.Storage.Contacts.Start.{new-inserted}
use chiyocore.Storage.Contacts.Start as ContactsStart
use chiyocore.Storage.Channels.{Channel, ChannelStorage, of_cache}
use chiyocore.Storage.Channels
use chiyocore.Storage.Channels.Start.{new-IsIndexed}
use chiyocore.Storage.Channels.Start as ChannelsStart

pub record MeshStorage (P : Type 0) : Type 0 where
  pub contacts : List (CachedContact P)
  pub channels : ChannelStorage

module _ {P S : Type 0} (m : MapStore S) (xxh32 : Bytes → ℕ → ℕ) (contact : Codec (Contact P))
    (channel : Codec Channel) where
  unfoldable pub new : Action (Fs S) (MeshStorage P)
  new = do
    contacts ← Contacts.new m xxh32 contact
    channels ← unwrapped (Channels.new m xxh32 channel)
    pure (record { contacts = contacts; channels = channels })

  -- The two storages together.
  pub new-started :
      (fs : Fs S) (d d' : DirectoryEntries) (cs : List (Contact P)) (chs : List Channel)
      → ContactsStart.Holds m xxh32 contact fs d cs
      → ChannelsStart.Holds m xxh32 channel fs d' chs
      → new fs ≡ (
        ok (record {
          contacts = ContactsStart.inserted (map from_full cs);
          channels = of_cache (ChannelsStart.inserted chs);
        }),
        fs,
      )
  unfolding new
  new-started fs d d' cs chs h k =
      let cache = ContactsStart.inserted (map from_full cs) in
      let storage : ChannelStorage → MeshStorage P =
        λ channels. record { contacts = cache; channels = channels } in
      >>=-step (Contacts.new m xxh32 contact)
        (λ contacts. unwrapped (Channels.new m xxh32 channel) >>= λ channels.
          pure (record { contacts = contacts; channels = channels }))
        fs (new-inserted m xxh32 contact fs d cs h).0
      ∙ >>=-step (unwrapped (Channels.new m xxh32 channel)) (λ channels. pure (storage channels)) fs
          (unwrapped-step (Channels.new m xxh32 channel) fs
            (new-IsIndexed m xxh32 channel fs d' chs k).0)
