-- ===== src/Storage/Messages.antt =====
-- The messages of firmware/chiyocore/src/simple_mesh/storage/packet_log.rs, and the bytes of each that
-- are hashed to tell duplicates. The digest of the hardware is not modelled: a hash is the digest of
-- the bytes below, in the order in which they are fed to it.
pub mod Identity
pub mod Trim
use chiyocore.Base.{
  ℕ, ◌+◌, ◌%◌, ◌-◌, Option, none, some, List, [], ◌∷◌, ◌++◌, length, take, if◌then◌else◌, Bool,
  zero, suc, ◌==◌,
}
use chiyocore.Base.Bytes.{Bytes, le32}

-- `PayloadType` and `RouteType` of the crate meshcore, with the variants that the source matches.
pub data PayloadType : Type 0 where
  request response txt_msg ack advert grp_txt anon_req path trace multipart control raw_custom :
      PayloadType

pub data RouteType : Type 0 where
  transport_flood flood direct transport_direct : RouteType

pub record PacketHeader : Type 0 where
  pub payload_type : PayloadType
  pub route_type : RouteType

-- `Packet`, over the crate's type of paths. `transport_codes` is not read by the source.
pub record Packet (P : Type 0) : Type 0 where
  pub header : PacketHeader
  pub path : P
  pub payload : Bytes

-- What the source reads of a `TextMessageData`.
pub record TextMessageData : Type 0 where
  pub timestamp : ℕ
  pub text_type : ℕ
  pub attempt : ℕ
  pub message : Bytes

pub record ContactMsgRecv : Type 0 where
  pub snr : ℕ
  pub reserved : Bytes
  pub pk_prefix : Bytes
  pub path_len : ℕ
  pub text_ty : ℕ
  pub timestamp : ℕ
  pub signature : Option Bytes
  pub body : Bytes

pub record ChannelMsgRecv : Type 0 where
  pub snr : ℕ
  pub reserved : Bytes
  pub idx : ℕ
  pub path_len : ℕ
  pub text_ty : ℕ
  pub timestamp : ℕ
  pub body : Bytes

pub data SavedMessage : Type 0 where
  contact : ContactMsgRecv → SavedMessage
  channel : ChannelMsgRecv → SavedMessage

-- `[rest @ .., last]`.
unfoldable pub split_last : Bytes → Option (Bytes × ℕ)
split_last [] = none
split_last (x ∷ xs) = elim (split_last xs) [
  | none ↦ some ([], x)
  | some (rest, last) ↦ some (x ∷ rest, last)
]

-- The `while let` of `trim_slice_nils`, on fuel: each round drops a byte.
unfoldable pub trim_loop : ℕ → Bytes → Bytes
trim_loop zero bytes = bytes
trim_loop (suc fuel) bytes = elim (split_last bytes) [
  | none ↦ bytes
  | some (rest, last) ↦ let trimmed = trim_loop fuel rest in if last == 0 then trimmed else bytes
]

unfoldable pub trim_slice_nils : Bytes → Bytes
unfolding trim_loop
trim_slice_nils bytes = trim_loop (length bytes) bytes

-- `SavedMessage::channel_msg` and `contact_msg`, of the channel's index or the contact's key, the
-- number of hops that the packet came, and the message.
unfoldable pub channel_msg : ℕ → ℕ → TextMessageData → SavedMessage
channel_msg idx hops message = SavedMessage.channel (record {
  snr = 0;
  reserved = 0 ∷ 0 ∷ [];
  idx = idx;
  path_len = hops % 256;
  text_ty = message.text_type;
  timestamp = message.timestamp;
  body = trim_slice_nils message.message;
})

unfoldable pub contact_msg : Bytes → ℕ → TextMessageData → SavedMessage
contact_msg key hops message = SavedMessage.contact (record {
  snr = 0;
  reserved = 0 ∷ 0 ∷ [];
  pk_prefix = take 6 key;
  path_len = hops % 256;
  text_ty = message.text_type;
  timestamp = message.timestamp;
  signature = none;
  body = trim_slice_nils message.message;
})

-- `HashableChannelMessage::hash_into`. The target is little-endian.
unfoldable pub channel_preimage : ℕ → ℕ → Bytes → Bytes
channel_preimage idx timestamp body = (1 ∷ idx ∷ le32 timestamp) ++ body

-- `HashableContactMessage::hash_into`.
unfoldable pub contact_preimage : Bytes → ℕ → Bytes → Bytes
contact_preimage pk_prefix timestamp body = (0 ∷ le32 timestamp) ++ (pk_prefix ++ body)

-- `SavedMessage::hash_into`.
unfoldable pub saved_preimage : SavedMessage → Bytes
unfolding channel_preimage contact_preimage
saved_preimage (SavedMessage.contact c) = contact_preimage c.pk_prefix c.timestamp c.body
saved_preimage (SavedMessage.channel c) = channel_preimage c.idx c.timestamp c.body

module _ {P : Type 0} (into_bytes : PacketHeader → Bytes) (raw_bytes : P → Bytes) where
  -- The third `update` of `Packet::hash_into`.
  unfoldable pub trace_bytes : PayloadType → P → Bytes
  trace_bytes trace p = raw_bytes p
  trace_bytes _ p = []

  -- `Packet::hash_into`.
  unfoldable pub packet_preimage : Packet P → Bytes
  unfolding trace_bytes
  packet_preimage p = into_bytes p.header ++ (p.payload ++ trace_bytes p.header.payload_type p.path)
