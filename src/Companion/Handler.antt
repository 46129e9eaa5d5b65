-- ===== src/Companion/Handler.antt =====
-- `impl CompanionHandler for Companion`, firmware/companion/src/companionv2/companion_proto_handler.rs:
-- the state that the methods share, and the methods about the device and the session. The locks of the
-- node and its stores stand in Locks; that of the message log is not modelled.
pub mod Signing
pub mod Mesh
pub mod Stores
pub mod Errors
use chiyocore.Base.{ℕ, ◌*◌, Option, none, some, List, [], ◌∷◌, ◌++◌, false, take}
use chiyocore.Base.Bytes.{Bytes}
use chiyocore.Hal.Outcome.{Outcome}
use chiyocore.Hal.Filesystem.Objects.{with_mut}
use chiyocore.Hal.Filesystem.{Fs}
use chiyocore.Storage.MessageLog
use chiyocore.Storage.Messages.{SavedMessage}
use chiyocore.Mesh.Types.{Env, Node, AdvertisementExtraData}
use chiyocore.Mesh.Monad.{World, of_outcome}
use chiyocore.Companion.Session.{
  Session, Host, Response, SelfInfo, DeviceInfo, CoreStats, now, ok_packet, self_info, device_info,
  current_time, message, no_more_messages, private_key, core_stats, radio_stats, packet_stats,
}
use chiyocore.Companion.Reply.{
  Reply, done, refused, panicked, blocked, Handler, of_result, pure, refuse, ◌>>=◌, ◌>>◌,
}

module _ (P S Q K : Type 0) where
  abbrev pub State : Type 0
  State = World P S (Session Q K)

module _ {P S Q K : Type 0} where
  abbrev pub get_session : Handler (State P S Q K) (Session Q K)
  get_session w = (done w.1, w)

  abbrev pub put_session : (Session Q K → Session Q K) → Handler (State P S Q K) (Unit {0})
  put_session f w = (done tt, (w.0, f w.1))

  abbrev pub get_node : Handler (State P S Q K) (Node P S)
  get_node w = (done w.0, w)

module _ {P S Q K : Type 0} (e : Env P S) (h : Host P Q K) where
  -- `LORA_FREQUENCY_IN_HZ` is 910525000.
  unfoldable pub app_start : Handler (State P S Q K) (Response P)
  app_start = do
    s ← get_session
    pure (
        self_info (record {
          advertisement_type = 0;
          tx_power = 22;
          max_tx_power = 22;
          public_key = e.pubkey;
          lat = 0;
          long = 0;
          multi_acks = 0;
          adv_loc_policy = 0;
          telemetry_mode = 0;
          manual_add_contacts = false;
          radio_freq = 910525000;
          radio_bandwidth = 62500;
          radio_sf = 7;
          radio_cr = 5;
          device_name = s.name;
        }))

  -- The texts are b"nya", b"bunnymesh" and b"0.0.0".
  unfoldable pub device_query : Handler (State P S Q K) (Response P)
  device_query = pure (
      device_info (record {
        fw_version = 14;
        max_contacts = 160;
        max_channels = 20;
        ble_pin = 0;
        firmware_build = 110 ∷ 121 ∷ 97 ∷ [];
        model = 98 ∷ 117 ∷ 110 ∷ 110 ∷ 121 ∷ 109 ∷ 101 ∷ 115 ∷ 104 ∷ [];
        version = 48 ∷ 46 ∷ 48 ∷ 46 ∷ 48 ∷ [];
        client_repeat_enabled = false;
        path_hash_mode = e.path_hash_mode;
      }))

  unfoldable pub get_time : Handler (State P S Q K) (Response P)
  get_time = do s ← get_session; pure (current_time (now s))

  unfoldable pub set_time : ℕ → Handler (State P S Q K) (Response P)
  set_time time = do put_session λ s. record s { clock = time * 1000000 }; pure ok_packet

  -- The result of `with_mut` is dropped, but not a panic or a wait.
  unfoldable pub saved_name :
      Outcome (Unit {0}) → Node P S × Session Q K → Reply (Response P) × (Node P S × Session Q K)
  saved_name (Outcome.ok u) w = (done ok_packet, w)
  saved_name (Outcome.err x) w = (done ok_packet, w)
  saved_name Outcome.panicked w = (panicked, w)
  saved_name Outcome.blocked w = (blocked, w)

  unfoldable pub set_advert_name : Bytes → Handler (State P S Q K) (Response P)
  unfolding saved_name
  set_advert_name name (n, s) =
      let (r, (data', fs)) =
        with_mut e.map_store e.xxh32 h.advert_codec
          (λ (v : AdvertisementExtraData). record v { name = some name }) (s.advert_data, n.fs) in
      saved_name r (record n { fs = fs }, record s { name = name; advert_data = data' })

  -- `set_radio_params`, `set_tx_power`, `set_lat_long` and `get_battery`.
  unfoldable pub unsupported : Handler (State P S Q K) (Response P)
  unsupported = refuse

  unfoldable pub synced : Option SavedMessage → Response P
  synced none = no_more_messages
  synced (some m) = message m

  unfoldable pub sync_next_message : Handler (State P S Q K) (Response P)
  unfolding synced
  sync_next_message (n, s) =
      let (r, log) = MessageLog.pop h.queue_storage h.message_codec s.message_log in
      ((λ (w : State P S Q K). (of_result (of_outcome r), w)) >>= λ o. pure (synced o))
        (n, record s { message_log = log })

  unfoldable pub export_private_key : Handler (State P S Q K) (Response P)
  export_private_key = pure (private_key h.secret_key)

  unfoldable pub get_core_stats : Handler (State P S Q K) (Response P)
  get_core_stats = pure (
      core_stats
        (record { battery_mv = 0; uptime_secs = h.uptime_secs; errors = 0; queue_len = 0 }))

  -- All fields are zero.
  unfoldable pub get_radio_stats : Handler (State P S Q K) (Response P)
  get_radio_stats = pure (radio_stats (0 ∷ 0 ∷ 0 ∷ 0 ∷ 0 ∷ []))

  unfoldable pub get_packet_stats : Handler (State P S Q K) (Response P)
  get_packet_stats = pure (packet_stats (0 ∷ 0 ∷ 0 ∷ 0 ∷ 0 ∷ 0 ∷ 0 ∷ []))
