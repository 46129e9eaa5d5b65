-- ===== src/Companion/Handler/Mesh.antt =====
-- The methods of `impl CompanionHandler for Companion` that send over the mesh.
use chiyocore.Base.{
  ℕ, ◌%◌, Bool, true, false, not, Option, none, some, [], ◌∷◌, ◌++◌, leb, length, if◌then◌else◌,
}
use chiyocore.Base.Bytes.{Bytes, le32}
use chiyocore.Storage.Messages.{Packet, PayloadType, RouteType, TextMessageData}
use chiyocore.Storage.Contacts.{fast_get}
use chiyocore.Storage.Channels
use chiyocore.Storage.Channels.{Channel}
use chiyocore.Mesh.Types.{Env, AdvertisementExtraData, TracePacket}
use chiyocore.Mesh.Send.{
  send_packet, send_flood_packet, send_direct_packet, send_to_contact, send_direct_message, is_none,
}
use chiyocore.Mesh.Send
use chiyocore.Companion.Session.{Host, Response, ok_packet, msg_sent, now}
use chiyocore.Companion.Reply.{Handler, pure, call, or_refuse, or_panic, ◌>>=◌, ◌>>◌}
use chiyocore.Companion.Handler.{State, get_session, put_session, get_node}

-- `heapless::format!(152; …)`; `none` is a text that does not fit.
unfoldable pub format_message : Bytes → Bytes → Option Bytes
format_message name txt =
    let msg = name ++ (58 ∷ 32 ∷ txt) in if leb (length msg) 152 then some msg else none

-- `TextMessageData::plaintext`.
abbrev pub plaintext : ℕ → Bytes → TextMessageData
plaintext timestamp body = record {
  timestamp = timestamp;
  text_type = 0;
  attempt = 0;
  message = body;
}

abbrev pub sent : {P : Type 0} → Bool → Bytes → ℕ → Response P
sent flood ack timeout =
    msg_sent
      (record { is_flood = flood; expected_ack = ack; suggested_timeout = timeout % 4294967296 })

module _ {P S Q K : Type 0} (e : Env P S) (h : Host P Q K) where
  -- The end of `send_channel_message`, of the channel and the text.
  unfoldable pub send_to_channel : Channel → ℕ → Bytes → Handler (State P S Q K) (Response P)
  send_to_channel channel timestamp msg = do
    timeout ←
        call (Send.send_channel_message e channel.hash channel.key (plaintext timestamp msg) none)
    pure (sent true (0 ∷ 0 ∷ 0 ∷ 0 ∷ []) timeout)

  unfoldable pub send_channel_message : ℕ → ℕ → Bytes → Handler (State P S Q K) (Response P)
  unfolding send_to_channel
  send_channel_message idx timestamp txt = do
    n ← get_node
    channel ← or_refuse (Channels.get idx n.channels)
    s ← get_session
    msg ← or_panic (format_message s.name txt)
    send_to_channel channel timestamp msg

  unfoldable pub send_contact_message :
      ℕ → ℕ → ℕ → Bytes → Bytes → Handler (State P S Q K) (Response P)
  send_contact_message text_type attempt timestamp destination text = do
    n ← get_node
    contact ← or_refuse (fast_get destination n.contacts)
    res ← call (
        send_direct_message e contact.key contact.path
          (record {
            timestamp = timestamp;
            text_type = text_type;
            attempt = attempt;
            message = text;
          })
          none)
    pure (msg_sent res)

  -- The advertisement data of `send_self_advert`.
  abbrev pub appdata : Bytes → AdvertisementExtraData
  appdata name = record {
    flags = h.chat_node_flags;
    latitude = none;
    longitude = none;
    name = some name;
  }

  unfoldable pub send_self_advert : Bool → Handler (State P S Q K) (Response P)
  send_self_advert flood = do
    random_bytes ← or_panic h.random
    s ← get_session
    let advert : Bytes = h.make_advert (now s) (appdata s.name) random_bytes
    _ ← call (
        if flood
        then send_flood_packet e PayloadType.advert advert none
        else send_direct_packet e PayloadType.advert advert (e.empty e.path_hash_mode) none)
    pure ok_packet

  unfoldable pub send_login : Bytes → Bytes → Handler (State P S Q K) (Response P)
  send_login pk password = do
    n ← get_node
    contact ← or_refuse (fast_get pk n.contacts)
    s ← get_session
    let timestamp : ℕ = now s
    put_session λ s. record s { login_in_progress = some pk }
    msg_timeout ←
        call (Send.send_anon_req e contact.key contact.path (h.encode_login timestamp password))
    pure (sent (is_none contact.path) (le32 timestamp) msg_timeout)

  -- The packet of `send_control_data`.
  abbrev pub control_packet : Bytes → Packet P
  control_packet payload = record {
    header = record { payload_type = PayloadType.control; route_type = RouteType.direct };
    path = e.empty e.path_hash_mode;
    payload = payload;
  }

  unfoldable pub send_control_data : Bytes → Handler (State P S Q K) (Response P)
  send_control_data payload = do
    _ ← call (send_packet e (control_packet payload) true none)
    pure ok_packet

  -- The packet of `send_trace`. Mode 0 is `OneByte`.
  abbrev pub trace_packet : Bytes → Packet P
  trace_packet payload = record {
    header = record { payload_type = PayloadType.trace; route_type = RouteType.direct };
    path = e.empty 0;
    payload = payload;
  }

  unfoldable pub send_trace : TracePacket P → Handler (State P S Q K) (Response P)
  send_trace trace = do
    payload_bytes ← or_panic (h.encode_trace trace)
    let packet : Packet P = trace_packet payload_bytes
    let timeout : ℕ = h.timeout_along packet trace.path
    _ ← call (send_packet e packet true none)
    pure (sent false trace.tag timeout)

  -- The answer says `is_flood` of a contact with a path.
  unfoldable pub send_binary_req : Bytes → Bytes → Handler (State P S Q K) (Response P)
  send_binary_req pub_key body = do
    n ← get_node
    contact ← or_refuse (fast_get pub_key n.contacts)
    s ← get_session
    let time : ℕ = now s
    timeout ← call (
        send_to_contact e PayloadType.request contact.key contact.path
          (h.encode_request (record { time = time; body = body })) none)
    pure (sent (not (is_none contact.path)) (le32 time) timeout)

  unfoldable pub send_anon_req : Bytes → Bytes → Handler (State P S Q K) (Response P)
  send_anon_req pub_key body = do
    n ← get_node
    contact ← or_refuse (fast_get pub_key n.contacts)
    s ← get_session
    let time : ℕ = now s
    msg_timeout ← call (
        Send.send_anon_req e contact.key contact.path
          (h.encode_request (record { time = time; body = body })))
    pure (sent (is_none contact.path) (le32 time) msg_timeout)
