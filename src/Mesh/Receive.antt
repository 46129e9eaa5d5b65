-- ===== src/Mesh/Receive.antt =====
-- The receiving methods of `SimpleMesh`, firmware/chiyocore/src/simple_mesh/mod.rs, up to the
-- dispatch of `packet`. `returned_path` holds the contacts' lock through the calls of the layers; the
-- locks of the node stand in Locks, and `&mut self` keeps other tasks out of `packet`.
pub mod Keeps
pub mod Invariant
pub mod Dedup
use chiyocore.Base.{
  ℕ, Bool, true, false, Option, none, some, List, [], ◌∷◌, ◌++◌, if◌then◌else◌, take, drop,
}
use chiyocore.Base.Bytes.{Bytes}
use chiyocore.Storage.HashLog.{push}
use chiyocore.Storage.Messages.{
  Packet, PacketHeader, PayloadType, TextMessageData, SavedMessage, contact_msg, channel_msg,
  saved_preimage,
}
use chiyocore.Storage.Contacts.{Contact, CachedContact, insert, full_get}
use chiyocore.Storage.Channels.{Channel}
use chiyocore.Mesh.Types.{
  Env, Node, Reception, Advert, AdvertisementExtraData, ReturnedPath, RequestPayload, TracePacket,
  EncryptedMessage, GroupText, AnonymousRequest, CompanionError, decode_failure, verify_failure,
  aes_failure,
}
use chiyocore.Mesh.Monad.{
  World, Result, ok, err, Call, pure, throw, ◌>>=◌, ◌>>◌, or_throw, or_panic, gets, modify, state,
  on_contacts, on_fs,
}
use chiyocore.Mesh.Layer.{Layer, Event}
use chiyocore.Mesh.Send.{log_packet, send_ack}
use chiyocore.Mesh.Decode.{decode_contact_message, decode_channel_message, has_hash}

module _ {P S L : Type 0} (e : Env P S) (layers : Layer P S L) (r : Reception P) where
  -- `self.message_log.push(message)`.
  unfoldable pub log_message : SavedMessage → Call (World P S L) Bool
  log_message message = state λ n.
      let (log, fresh) = push 32 (e.sha1 (saved_preimage message)) n.message_log in
      (fresh, record n { message_log = log })

  -- A call of the layers, on the node and this packet.
  abbrev pub call : Event P → Call (World P S L) (Unit {0})
  call event w = layers r event w

  -- `else { return Ok(()) }` of a decoded message.
  abbrev pub if_ours :
      {A : Type 0} → (A → Call (World P S L) (Unit {0})) → Option A → Call (World P S L) (Unit {0})
  if_ours k none = pure tt
  if_ours k (some a) = k a

  unfoldable pub deliver_text : CachedContact P → TextMessageData → Call (World P S L) (Unit {0})
  deliver_text contact text = do
    send_ack e r.packet text contact
    fresh ← log_message (contact_msg contact.key (e.hops r.packet.path) text)
    if fresh then call (Event.text_message contact text) else pure tt

  unfoldable pub text_message : EncryptedMessage → Call (World P S L) (Unit {0})
  unfolding deliver_text
  text_message message = do
    decoded ← decode_contact_message e message
    if_ours (λ cm. or_throw (e.decode_text cm.1) decode_failure >>= deliver_text cm.0) decoded

  unfoldable pub group_text : GroupText → Call (World P S L) (Unit {0})
  group_text message = do
    decoded ← decode_channel_message e message
    text ← or_throw (e.decode_text decoded.1) decode_failure
    fresh ← log_message (channel_msg decoded.0.idx (e.hops r.packet.path) text)
    if fresh then call (Event.group_text decoded.0 text) else pure tt

  unfoldable pub ack : Bytes → Call (World P S L) (Unit {0})
  ack crc = do modify λ n. record n { woken = n.woken ++ (crc ∷ []) }; call (Event.ack crc)

  abbrev pub or_zero : Option ℕ → ℕ
  or_zero none = 0
  or_zero (some x) = x

  -- `from_utf8(name).ok()`.
  abbrev pub utf8_name : Option Bytes → Option Bytes
  utf8_name none = none
  utf8_name (some name) = if e.is_utf8 name then some name else none

  -- The contact that an advert becomes. The clock's reading is a `u32` of seconds.
  unfoldable pub advertised : Bytes → Bytes → AdvertisementExtraData → Contact P
  advertised key name appdata = record {
    key = key;
    name = name;
    path_to = none;
    flags = appdata.flags;
    latitude = or_zero appdata.latitude;
    longitude = or_zero appdata.longitude;
    last_heard = e.now;
  }

  unfoldable pub save : Contact P → Call (World P S L) (Unit {0})
  save contact = on_contacts (insert e.map_store e.xxh32 e.contact_codec contact)

  unfoldable pub advert_named :
      Advert → AdvertisementExtraData → Option Bytes → Call (World P S L) (Unit {0})
  advert_named payload appdata none = pure tt
  advert_named payload appdata (some name) = do
    save (advertised payload.public_key name appdata)
    call (Event.advert payload)

  unfoldable pub advert : Advert → Call (World P S L) (Unit {0})
  unfolding advert_named save
  advert payload = elim payload.appdata [
    | none ↦ pure tt
    | some appdata ↦ advert_named payload appdata (utf8_name appdata.name)
  ]

  unfoldable pub extra_payload :
      CachedContact P → Option (PayloadType × Bytes) → Call (World P S L) (Unit {0})
  extra_payload contact none = pure tt
  extra_payload contact (some (PayloadType.ack, bytes)) =
      or_throw (e.decode_ack bytes) decode_failure >>= ack
  extra_payload contact (some (PayloadType.response, bytes)) = call (Event.response contact bytes)
  extra_payload contact (some (_, bytes)) = pure tt

  unfoldable pub take_path : CachedContact P → ReturnedPath P → Call (World P S L) (Unit {0})
  take_path contact decoded = do
    full ← on_fs (full_get e.map_store e.xxh32 e.contact_codec contact.key)
    contact_full ← or_panic full
    save (record contact_full { path_to = some decoded.path })
    call (Event.returned_path contact decoded)
    extra_payload contact decoded.extra

  unfoldable pub returned_path : EncryptedMessage → Call (World P S L) (Unit {0})
  unfolding take_path save extra_payload
  returned_path message = do
    decoded ← decode_contact_message e message
    if_ours (λ cm. or_throw (e.decode_path cm.1) decode_failure >>= take_path cm.0) decoded

  unfoldable pub response : EncryptedMessage → Call (World P S L) (Unit {0})
  response message = do
    decoded ← decode_contact_message e message
    if_ours
        (λ cm. or_throw (e.decode_response cm.1) decode_failure >>= λ bytes.
          call (Event.response cm.0 bytes))
        decoded

  unfoldable pub request : EncryptedMessage → Call (World P S L) (Unit {0})
  request message = do
    decoded ← decode_contact_message e message
    if_ours
        (λ cm. or_throw (e.decode_request cm.1) decode_failure >>= λ body.
          call (Event.request cm.0 body))
        decoded

  unfoldable pub verified_anon : AnonymousRequest → Bytes → Call (World P S L) (Unit {0})
  verified_anon message key = do
    decrypted ← or_throw (e.decrypt (take 16 key) message.body) aes_failure
    decoded ← or_throw (e.decode_anon_data decrypted) decode_failure
    call (Event.anonymous_request message.sender_key decoded)

  unfoldable pub keyed_anon : AnonymousRequest → Bytes → Call (World P S L) (Unit {0})
  keyed_anon message key =
      if e.verify (take 16 (drop 16 key)) message.body
      then verified_anon message key
      else throw verify_failure

  -- `identity.shared_secret`, which is not of the repository, may panic.
  unfoldable pub anonymous_request : AnonymousRequest → Call (World P S L) (Unit {0})
  anonymous_request message =
      if has_hash message.destination_hash e.pubkey
      then or_panic (e.shared_secret message.sender_key) >>= keyed_anon message
      else pure tt

  unfoldable pub control_packet : Bytes → Call (World P S L) (Unit {0})
  control_packet payload = call (Event.control_packet payload)

  unfoldable pub trace_packet : TracePacket P → Call (World P S L) (Unit {0})
  trace_packet trace = call (Event.trace_packet (e.raw_bytes r.packet.path) trace)

  -- The `match` of `packet`.
  unfoldable pub dispatch : PayloadType → Bytes → Call (World P S L) (Unit {0})
  dispatch PayloadType.request b = or_throw (e.decode_encrypted b) decode_failure >>= request
  dispatch PayloadType.response b = or_throw (e.decode_encrypted b) decode_failure >>= response
  dispatch PayloadType.txt_msg b = or_throw (e.decode_encrypted b) decode_failure >>= text_message
  dispatch PayloadType.ack b = or_throw (e.decode_ack b) decode_failure >>= ack
  dispatch PayloadType.advert b = or_throw (e.decode_advert b) decode_failure >>= advert
  dispatch PayloadType.grp_txt b = or_throw (e.decode_group b) decode_failure >>= group_text
  dispatch PayloadType.anon_req b = or_throw (e.decode_anon b) decode_failure >>= anonymous_request
  dispatch PayloadType.path b = or_throw (e.decode_encrypted b) decode_failure >>= returned_path
  dispatch PayloadType.trace b = or_throw (e.decode_trace b) decode_failure >>= trace_packet
  dispatch PayloadType.control b = or_throw (e.decode_control b) decode_failure >>= control_packet
  dispatch PayloadType.multipart b = pure tt
  dispatch PayloadType.raw_custom b = pure tt

  -- `packet`, past the look into the packet log.
  abbrev pub handle : Bool → Call (World P S L) (Unit {0})
  handle true = call Event.packet >> dispatch r.packet.header.payload_type r.packet.payload
  handle false = pure tt

  unfoldable pub packet : Call (World P S L) (Unit {0})
  packet = log_packet e r.packet >>= handle
