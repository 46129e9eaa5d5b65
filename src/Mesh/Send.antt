-- ===== src/Mesh/Send.antt =====
-- The sending methods of `SimpleMesh`, firmware/chiyocore/src/simple_mesh/mod.rs. What they hand to
-- the radio is appended to `sent`; the timeout that the radio answers is the parameter `timeout_est`.
pub mod Sent
pub mod Valid
use chiyocore.Base.{
  ℕ, ◌%◌, Bool, true, false, Option, none, some, [], ◌∷◌, ◌++◌, get_elem?, if◌then◌else◌,
}
use chiyocore.Base.Bytes.{Bytes}
use chiyocore.Storage.HashLog.{push}
use chiyocore.Storage.Messages.{Packet, PayloadType, RouteType, TextMessageData, packet_preimage}
use chiyocore.Storage.Contacts.{CachedContact}
use chiyocore.Storage.KeyCache.{get_key}
use chiyocore.Mesh.Types.{Env, MsgSent, aes_failure}
use chiyocore.Mesh.Monad.{World, Call, pure, ◌>>=◌, or_throw, or_panic, state}

abbrev pub is_none : {P : Type 0} → Option P → Bool
is_none none = true
is_none (some _) = false

-- `path.is_some()` as a route.
abbrev pub route_of : {P : Type 0} → Option P → RouteType
route_of none = RouteType.flood
route_of (some _) = RouteType.direct

module _ {P S : Type 0} (e : Env P S) where
  -- `path.unwrap_or(…)`.
  abbrev pub path_or_empty : Option P → P
  path_or_empty none = e.empty e.path_hash_mode
  path_or_empty (some p) = p

  -- The packet that `send_to_contact` and `send_anon_req` build.
  abbrev pub packet_to : PayloadType → Option P → Bytes → Packet P
  packet_to ty path payload = record {
    header = record { payload_type = ty; route_type = route_of path };
    path = path_or_empty path;
    payload = payload;
  }

  -- The packet that `send_ack` builds: a returned path with the ack in it for a flooded packet, else
  -- a bare ack along the packet's path. `none` is a failed `unwrap`.
  unfoldable pub ack_packet : Packet P → Bytes → CachedContact P → Option (Packet P)
  ack_packet packet crc contact = elim packet.header.route_type [
    | RouteType.flood ↦ flooded
    | RouteType.transport_flood ↦ flooded
    | RouteType.direct ↦ some along
    | RouteType.transport_direct ↦ some along
  ]
    where
      flooded : Option (Packet P)
      flooded =
          elim (e.seal_path (record { path = packet.path; extra = some (PayloadType.ack, crc) })
            contact.key) [
              | none ↦ none
              | some payload ↦ some (record {
                header = record { payload_type = PayloadType.path; route_type = RouteType.flood };
                path = e.empty 0;
                payload = payload;
              })
            ]

      along : Packet P
      along = record {
        header = record { payload_type = PayloadType.ack; route_type = RouteType.direct };
        path = packet.path;
        payload = e.encode_ack crc;
      }

module _ {P S L : Type 0} (e : Env P S) where
  -- `self.packet_log.push(packet)`.
  unfoldable pub log_packet : Packet P → Call (World P S L) Bool
  log_packet p = state λ n.
      let (log, fresh) =
        push 32 (e.sha1 (packet_preimage e.into_bytes e.raw_bytes p)) n.packet_log in
      (fresh, record n { packet_log = log })

  -- `lora_tx.send_packet` and `send_delayed`.
  unfoldable pub transmit : Packet P → Option ℕ → Call (World P S L) ℕ
  transmit p delay = state λ n.
      (e.timeout_est p, record n { sent = n.sent ++ (record { packet = p; delay = delay } ∷ []) })

  unfoldable pub send_packet : Packet P → Bool → Option ℕ → Call (World P S L) ℕ
  send_packet p log delay = do _ ← if log then log_packet p else pure false; transmit p delay

  unfoldable pub send_flood_packet : PayloadType → Bytes → Option ℕ → Call (World P S L) ℕ
  send_flood_packet ty payload delay =
      send_packet
        (record {
          header = record { payload_type = ty; route_type = RouteType.flood };
          path = e.empty e.path_hash_mode;
          payload = payload;
        })
        true delay

  -- The delay is not used.
  unfoldable pub send_direct_packet : PayloadType → Bytes → P → Option ℕ → Call (World P S L) ℕ
  send_direct_packet ty payload path _ = do
    let packet : Packet P = record {
      header = record { payload_type = ty; route_type = RouteType.direct };
      path = path;
      payload = payload;
    }
    _ ← log_packet packet
    transmit packet none

  -- `self.key_cache.get_key(contact)`, panics included.
  unfoldable pub shared_key : Bytes → Call (World P S L) Bytes
  shared_key contact = do
    key ← state λ n.
        let (k, cache) = get_key e.dh contact n.key_cache in (k, record n { key_cache = cache })
    or_panic key

  -- `send_to_contact`, of a message that has been encoded.
  unfoldable pub send_to_contact :
      PayloadType → Bytes → Option P → Bytes → Option ℕ → Call (World P S L) ℕ
  send_to_contact ty contact path message delay = do
    key ← shared_key contact
    dst ← or_panic (get_elem? contact 0)
    sealed ← or_throw (e.make_message_with_key message dst key) aes_failure
    payload ← or_panic (e.encode_encrypted sealed)
    send_packet (packet_to e ty path payload) true delay

  unfoldable pub send_ack :
      Packet P → TextMessageData → CachedContact P → Call (World P S L) (Unit {0})
  send_ack packet text contact = do
    out ← or_panic (ack_packet e packet (e.ack_crc text contact.key) contact)
    _ ← send_packet out false (some (e.retransmit_delay packet))
    pure tt

  -- `make_anon_req(…).await.unwrap()` and its encoding are the one parameter.
  unfoldable pub send_anon_req : Bytes → Option P → Bytes → Call (World P S L) ℕ
  send_anon_req contact path message = do
    payload ← or_panic (e.make_anon_req message contact)
    let packet : Packet P = packet_to e PayloadType.anon_req path payload
    _ ← log_packet packet
    transmit packet none

  unfoldable pub send_direct_message :
      Bytes → Option P → TextMessageData → Option ℕ → Call (World P S L) MsgSent
  send_direct_message contact path text delay = do
    timeout ← send_to_contact PayloadType.txt_msg contact path (e.encode_text text) delay
    pure (record {
      is_flood = is_none path;
      expected_ack = e.ack_crc text e.pubkey;
      suggested_timeout = timeout % 4294967296;
    })

  -- Of the channel's hash and secret.
  unfoldable pub send_channel_message :
      ℕ → Bytes → TextMessageData → Option ℕ → Call (World P S L) ℕ
  send_channel_message hash secret text delay = do
    sealed ← or_throw (e.encrypt (e.encode_text text) secret) aes_failure
    send_flood_packet PayloadType.grp_txt (e.group_text_bytes hash sealed secret) delay
