-- ===== src/Companion/Layer.antt =====
-- `impl SimpleMeshLayer for Companion`, firmware/companion/src/companionv2/mod.rs: what the mesh node
-- tells the app. The arguments of `info!` are evaluated, as they are at that log level.
pub mod Login
pub mod Valid
use chiyocore.Base.{
  ℕ, ◌*◌, ◌%◌, Bool, Option, none, some, List, [], ◌∷◌, take, length, ltb, ◌==◌, if◌then◌else◌,
}
use chiyocore.Base.Bytes.{Bytes, bytes_eq}
use chiyocore.Hal.Outcome.{Outcome}
use chiyocore.Storage.MessageLog
use chiyocore.Storage.Messages.{TextMessageData, SavedMessage, contact_msg, channel_msg}
use chiyocore.Storage.Contacts.{CachedContact}
use chiyocore.Storage.Channels.{Channel}
use chiyocore.Mesh.Types.{Env, Reception, TracePacket, decode_failure}
use chiyocore.Mesh.Monad.{ok, World, Call, pure, throw, ◌>>=◌, ◌>>◌, of_outcome}
use chiyocore.Mesh.Layer.{Layer, Event}
use chiyocore.Companion.Session.{
  Session, Host, Response, enqueue, message, ack, rf_log_data, login_success, binary_response,
  trace_data, control_data,
}

module _ {P S Q K : Type 0} (e : Env P S) (h : Host P Q K) where
  -- `self.companion_sink.write_packet(…)`.
  unfoldable pub write_sink : Response P → Call (World P S (Session Q K)) (Unit {0})
  write_sink r (n, s) = (ok tt, (n, record s { queue = enqueue (h.ser r) s.queue }))

  -- `self.message_log.lock().await.push(…)`.
  unfoldable pub log : SavedMessage → Call (World P S (Session Q K)) (Unit {0})
  log saved (n, s) =
      let (r, l) = MessageLog.push h.queue_storage h.message_codec e.sha1 saved s.message_log in
      (of_outcome r, (n, record s { message_log = l }))

  -- `message.as_utf8()?`.
  unfoldable pub as_utf8 : TextMessageData → Call (World P S (Session Q K)) (Unit {0})
  as_utf8 text = if e.is_utf8 text.message then pure tt else throw decode_failure

  unfoldable pub save_message :
      SavedMessage → TextMessageData → Call (World P S (Session Q K)) (Unit {0})
  save_message saved text = do write_sink (message saved); log saved; as_utf8 text

  -- `self.login_in_progress.take_if(|v| *v == contact.key)`, and whether it was taken.
  unfoldable pub take_login : Bytes → Option Bytes → Option Bytes × Option Bytes
  take_login key none = (none, none)
  take_login key (some v) = if bytes_eq v key then (some v, none) else (none, some v)

  -- The `LoginResponse` of a login in progress.
  unfoldable pub login_response : Bytes → Option (ℕ × ℕ) → Call (World P S (Session Q K)) (Unit {0})
  login_response rptr_key none = pure tt
  login_response rptr_key (some (response_code, permissions)) =
      if response_code == 0
      then write_sink (login_success permissions (take 6 rptr_key))
      else pure tt

  unfoldable pub take_response : Bytes → Option Bytes → Call (World P S (Session Q K)) (Unit {0})
  take_response body none = write_sink (binary_response body)
  take_response body (some rptr_key) = login_response rptr_key (h.decode_login_response body)

  unfoldable pub response : CachedContact P → Bytes → Call (World P S (Session Q K)) (Unit {0})
  response contact body (n, s) =
      let (taken, left) = take_login contact.key s.login_in_progress in
      take_response body taken (n, record s { login_in_progress = left })

  -- `snr as i8 * 4`, on bit patterns, with the wrap-around of a release build.
  unfoldable pub trace_packet :
      Reception P → Bytes → TracePacket P → Call (World P S (Session Q K)) (Unit {0})
  trace_packet r snrs trace =
      if ltb (length snrs) (h.path_len trace.path)
      then pure tt
      else write_sink (trace_data trace snrs ((r.snr * 4) % 256))

  unfoldable pub companion_layer : Layer P S (Session Q K)
  companion_layer r Event.packet = write_sink (rf_log_data (r.snr % 256) (r.rssi % 256) r.bytes)
  companion_layer r (Event.text_message contact text) =
      save_message (contact_msg contact.key (e.hops r.packet.path) text) text
  companion_layer r (Event.group_text channel text) =
      save_message (channel_msg channel.idx (e.hops r.packet.path) text) text
  companion_layer r (Event.ack crc) = write_sink (ack crc)
  companion_layer r (Event.advert _) = pure tt
  companion_layer r (Event.returned_path _ _) = pure tt
  companion_layer r (Event.response contact body) = response contact body
  companion_layer r (Event.request _ _) = pure tt
  companion_layer r (Event.anonymous_request _ _) = pure tt
  companion_layer r (Event.trace_packet snrs trace) = trace_packet r snrs trace
  companion_layer r (Event.control_packet payload) = write_sink (
      control_data ((r.snr * 4) % 256) (r.rssi % 256) (h.path_len r.packet.path % 256)
        r.packet.payload)
