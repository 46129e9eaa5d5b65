-- ===== src/Companion/Session.antt =====
-- The state of `Companion`, firmware/companion/src/companionv2/mod.rs, the packets that it writes, and
-- `ChannelCompanionSink` of firmware/companion/src/companion_protocol/protocol.rs. The node that it holds
-- a reference to is the node of the mesh (`World`), with its storage.
use chiyocore.Base.{ℕ, ◌/◌, ◌%◌, Bool, Option, List, [], ◌∷◌, ◌++◌, if◌then◌else◌, leb, length}
use chiyocore.Base.Bytes.{Bytes}
use chiyocore.Hal.Filesystem.Objects.{Codec, PersistedObject}
use chiyocore.Storage.Messages.{Packet, SavedMessage}
use chiyocore.Storage.MessageLog.{QueueStorage, MessageLog}
use chiyocore.Storage.Contacts.{Contact}
use chiyocore.Storage.Channels.{Channel}
use chiyocore.Mesh.Types.{AdvertisementExtraData, MsgSent, RequestPayload, TracePacket, Advert}
use chiyocore.Companion.Tcp.{write_packet}

pub record CoreStats : Type 0 where
  pub battery_mv : ℕ
  pub uptime_secs : ℕ
  pub errors : ℕ
  pub queue_len : ℕ

pub record SelfInfo : Type 0 where
  pub advertisement_type : ℕ
  pub tx_power : ℕ
  pub max_tx_power : ℕ
  pub public_key : Bytes
  pub lat : ℕ
  pub long : ℕ
  pub multi_acks : ℕ
  pub adv_loc_policy : ℕ
  pub telemetry_mode : ℕ
  pub manual_add_contacts : Bool
  pub radio_freq : ℕ
  pub radio_bandwidth : ℕ
  pub radio_sf : ℕ
  pub radio_cr : ℕ
  pub device_name : Bytes

pub record DeviceInfo : Type 0 where
  pub fw_version : ℕ
  pub max_contacts : ℕ
  pub max_channels : ℕ
  pub ble_pin : ℕ
  pub firmware_build : Bytes
  pub model : Bytes
  pub version : Bytes
  pub client_repeat_enabled : Bool
  pub path_hash_mode : ℕ

-- The packets of the crate meshcore_companion_protocol that the source builds. Signed bytes are bit
-- patterns.
pub data Response (P : Type 0) : Type 0 where
  ok_packet err_packet no_more_messages : Response P
  self_info : SelfInfo → Response P
  device_info : DeviceInfo → Response P
  channel_info : (idx : ℕ) (name secret : Bytes) → Response P
  msg_sent : MsgSent → Response P
  current_time : ℕ → Response P
  message : SavedMessage → Response P
  contact_start : ℕ → Response P
  contact : Contact P → Response P
  contact_end : ℕ → Response P
  sign_start : (reserved max_len : ℕ) → Response P
  signature : Bytes → Response P
  private_key : Bytes → Response P
  custom_vars : List (Bytes × Bytes) → Response P
  core_stats : CoreStats → Response P
  radio_stats : List ℕ → Response P
  packet_stats : List ℕ → Response P
  rf_log_data : (snr rssi : ℕ) (bytes : Bytes) → Response P
  ack : Bytes → Response P
  login_success : (permissions : ℕ) (prefix : Bytes) → Response P
  binary_response : Bytes → Response P
  trace_data : TracePacket P → (snrs : Bytes) (last_snr : ℕ) → Response P
  control_data : (snr rssi path_len : ℕ) (payload : Bytes) → Response P

-- The fields of `Companion` that change: `K` is the state of an incremental signature. `queue` is the
-- channel behind `companion_sink`, oldest first; `clock` is the `Rtc`, in microseconds; the persisted
-- `advert_data` is that of `SimpleMesh`, which nothing else changes.
pub record Session (Q K : Type 0) : Type 0 where
  pub name : Bytes
  pub queue : List Bytes
  pub clock : ℕ
  pub message_log : MessageLog Q
  pub signature_in_progress : Option K
  pub login_in_progress : Option Bytes
  pub advert_data : PersistedObject AdvertisementExtraData

-- What the companion asks of code that is not the repository's: the queue, the codecs of the crates
-- meshcore and postcard, signing, and the hardware's random numbers. `none` is an error of that code.
pub record Host (P Q K : Type 0) : Type 0 where
  pub queue_storage : QueueStorage Q
  pub message_codec : Codec SavedMessage
  pub channel_codec : Codec Channel
  pub var_codec : Codec (Bytes × Bytes)
  pub advert_codec : Codec AdvertisementExtraData
  pub ser : Response P → Bytes
  pub channel_hash : Bytes → ℕ
  pub random : Option Bytes
  pub chat_node_flags : ℕ
  pub make_advert : ℕ → AdvertisementExtraData → Bytes → Bytes
  pub encode_login : ℕ → Bytes → Bytes
  pub encode_request : RequestPayload → Bytes
  pub encode_trace : TracePacket P → Option Bytes
  pub decode_import : Bytes → Option Advert
  pub decode_login_response : Bytes → Option (ℕ × ℕ)
  pub timeout_along : Packet P → P → ℕ
  pub path_len : P → ℕ
  pub secret_key : Bytes
  pub sign_incremental : Bytes → K
  pub absorb : K → Bytes → K
  pub sign : K → Bytes
  pub uptime_secs : ℕ

module _ {Q K : Type 0} where
  -- `(self.rtc.current_time_us() / 1_000_000) as u32`.
  abbrev pub now : Session Q K → ℕ
  now s = (s.clock / 1000000) % 4294967296

-- `thingbuf::mpsc::channel(16)`.
abbrev pub capacity : ℕ
capacity = 16

-- `ChannelCompanionSink::write_packet`: a packet for a full channel is dropped.
unfoldable pub enqueue : Bytes → List Bytes → List Bytes
enqueue body queue = if leb capacity (length queue) then queue else queue ++ write_packet body ∷ []
