-- ===== src/Mesh/Types.antt =====
-- The data of a mesh node, and what it asks of its surroundings. The payload types are those of the
-- crate meshcore, with the fields that firmware/chiyocore/src/simple_mesh/mod.rs reads; `P` is the
-- crate's type of paths.
use chiyocore.Base.{ℕ, Bool, Option, List}
use chiyocore.Base.Bytes.{Bytes}
use chiyocore.Hal.MapStore.{MapStore}
use chiyocore.Hal.Filesystem.{Fs}
use chiyocore.Hal.Filesystem.Objects.{Codec}
use chiyocore.Hal.Outcome.{FirmwareError}
use chiyocore.Storage.HashLog.{HashLog}
use chiyocore.Storage.Messages.{Packet, PacketHeader, PayloadType, TextMessageData}
use chiyocore.Storage.Contacts.{Contact, CachedContact}
use chiyocore.Storage.Channels.{ChannelStorage}
use chiyocore.Storage.KeyCache.{KeyCache}

-- `CompanionError` of firmware/chiyocore/src/lib.rs.
pub data CompanionError : Type 0 where
  no_known_channel no_known_contact decrypt_failure verify_failure aes_failure : CompanionError
  decode_failure : CompanionError
  firmware : FirmwareError → CompanionError

-- `EncryptedMessageWithDst`; `body` is its cipher text with the code that authenticates it.
pub record EncryptedMessage : Type 0 where
  pub destination_hash : ℕ
  pub source_hash : ℕ
  pub body : Bytes

pub record GroupText : Type 0 where
  pub channel : ℕ
  pub body : Bytes

pub record AnonymousRequest : Type 0 where
  pub destination_hash : ℕ
  pub sender_key : Bytes
  pub body : Bytes

pub record AdvertisementExtraData : Type 0 where
  pub flags : ℕ
  pub latitude : Option ℕ
  pub longitude : Option ℕ
  pub name : Option Bytes

pub record Advert : Type 0 where
  pub public_key : Bytes
  pub appdata : Option AdvertisementExtraData

pub record ReturnedPath (P : Type 0) : Type 0 where
  pub path : P
  pub extra : Option (PayloadType × Bytes)

pub record RequestPayload : Type 0 where
  pub time : ℕ
  pub body : Bytes

pub record TracePacket (P : Type 0) : Type 0 where
  pub tag : Bytes
  pub auth_code : Bytes
  pub flags : ℕ
  pub path : P

-- A packet as the radio delivers it. The status is two `i16`s, as bit patterns.
pub record Reception (P : Type 0) : Type 0 where
  pub packet : Packet P
  pub rssi : ℕ
  pub snr : ℕ
  pub bytes : Bytes

-- A packet handed to the radio, and its delay. Durations are in milliseconds.
pub record Sent (P : Type 0) : Type 0 where
  pub packet : Packet P
  pub delay : Option ℕ

-- `MsgSent` of the crate meshcore_companion_protocol.
pub record MsgSent : Type 0 where
  pub is_flood : Bool
  pub expected_ack : Bytes
  pub suggested_timeout : ℕ

-- The state of `SimpleMesh` that changes. `woken` and `sent` collect the wakes of the ack table and
-- the packets handed to the radio, latest last. The bump allocator is not modelled.
pub record Node (P S : Type 0) : Type 0 where
  pub packet_log : HashLog
  pub message_log : HashLog
  pub contacts : List (CachedContact P)
  pub channels : ChannelStorage
  pub fs : Fs S
  pub key_cache : KeyCache
  pub woken : List Bytes
  pub sent : List (Sent P)

-- The node's constants, the clock's reading, and the code that is not the repository's: the flash
-- map, hashing, the cipher, and the codecs of the crate meshcore. A mode of path hashes is a
-- number, `OneByte` is 0. `none` is an error of that code.
pub record Env (P S : Type 0) : Type 0 where
  pub pubkey : Bytes
  pub now : ℕ
  pub path_hash_mode : ℕ
  pub map_store : MapStore S
  pub xxh32 : Bytes → ℕ → ℕ
  pub contact_codec : Codec (Contact P)
  pub sha1 : Bytes → Bytes
  pub dh : Bytes → Option Bytes
  pub shared_secret : Bytes → Option Bytes
  pub into_bytes : PacketHeader → Bytes
  pub raw_bytes : P → Bytes
  pub hops : P → ℕ
  pub empty : ℕ → P
  pub is_utf8 : Bytes → Bool
  pub verify : Bytes → Bytes → Bool
  pub decrypt : Bytes → Bytes → Option Bytes
  pub decode_encrypted : Bytes → Option EncryptedMessage
  pub decode_group : Bytes → Option GroupText
  pub decode_anon : Bytes → Option AnonymousRequest
  pub decode_advert : Bytes → Option Advert
  pub decode_ack : Bytes → Option Bytes
  pub decode_trace : Bytes → Option (TracePacket P)
  pub decode_control : Bytes → Option Bytes
  pub decode_text : Bytes → Option TextMessageData
  pub decode_path : Bytes → Option (ReturnedPath P)
  pub decode_response : Bytes → Option Bytes
  pub decode_request : Bytes → Option RequestPayload
  pub decode_anon_data : Bytes → Option Bytes
  pub ack_crc : TextMessageData → Bytes → Bytes
  pub encode_ack : Bytes → Bytes
  pub encode_text : TextMessageData → Bytes
  pub make_message_with_key : Bytes → ℕ → Bytes → Option EncryptedMessage
  pub make_anon_req : Bytes → Bytes → Option Bytes
  pub encrypt : Bytes → Bytes → Option Bytes
  pub group_text_bytes : ℕ → Bytes → Bytes → Bytes
  pub encode_encrypted : EncryptedMessage → Option Bytes
  pub seal_path : ReturnedPath P → Bytes → Option Bytes
  pub retransmit_delay : Packet P → ℕ
  pub timeout_est : Packet P → ℕ
