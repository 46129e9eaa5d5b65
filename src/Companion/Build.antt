-- ===== src/Companion/Build.antt =====
-- `add_channels` of firmware/companion/src/companionv2/build.rs: the channels that the companion puts into
-- the storage when it is built. The keys of the crate meshcore are parameters.
pub mod Channels
use chiyocore.Base.{ℕ, ◌≡◌}
use chiyocore.Base.Bytes.{Bytes}
use chiyocore.Hal.Outcome.{Action, unwrapped, ◌>>◌}
use chiyocore.Hal.MapStore.{MapStore}
use chiyocore.Hal.Filesystem.{Fs, codes}
use chiyocore.Hal.Filesystem.Objects.{Codec}
use chiyocore.Storage.Channels.{Channel, ChannelStorage, State, get, insert}
use chiyocore.Storage.Channels.Lookup.{IsSorted}
use chiyocore.Storage.Channels.Writes.{Has, insert-Has}

pub record ChannelKeys : Type 0 where
  pub hash : ℕ
  pub secret : Bytes

-- `Channel::from_keys`.
abbrev pub from_keys : ℕ → Bytes → ChannelKeys → Channel
from_keys idx name keys = record { name = name; key = keys.secret; hash = keys.hash; idx = idx }

module _ {S : Type 0} (m : MapStore S) (xxh32 : Bytes → ℕ → ℕ) (c : Codec Channel) where
  -- `channels.insert(…).await.unwrap()`.
  unfoldable pub insert_or_panic : Channel → Action (State m xxh32 c) (Unit {0})
  insert_or_panic channel = unwrapped (insert m xxh32 c channel)

  module _ (public : ChannelKeys) (from_hashtag : Bytes → ChannelKeys) where
    abbrev pub public_channel : Channel
    public_channel = from_keys 0 (codes "public") public

    -- The channel of a hashtag.
    abbrev pub tagged : ℕ → Bytes → Channel
    tagged idx tag = from_keys idx tag (from_hashtag tag)

    unfoldable pub add_channels : Action (State m xxh32 c) (Unit {0})
    add_channels =
        insert_or_panic public_channel
        >> insert_or_panic (tagged 1 (codes "#test"))
        >> insert_or_panic (tagged 2 (codes "#emitestcorner"))
