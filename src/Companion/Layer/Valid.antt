-- ===== src/Companion/Layer/Valid.antt =====
-- The layers of the firmware on a mesh node: the companion and the ping bot, and the invariant.
use chiyocore.Base.{
  ℕ, Bool, Bool-cases, inl, inr, true, false, Option, none, some, if◌then◌else◌, ltb, length, ◌==◌,
}
use chiyocore.Base.Bytes.{Bytes}
use chiyocore.Storage.Channels.{Channel}
use chiyocore.Storage.Messages.{SavedMessage, TextMessageData}
use chiyocore.Mesh.Types.{Env, Node, Reception, decode_failure}
use chiyocore.Mesh.Monad.{World, pure, throw, or_throw, ◌>>=◌}
use chiyocore.Mesh.Layer.{Layer, Event, join}
use chiyocore.Mesh.Layer.Join.{join-keeps}
use chiyocore.Mesh.Send.Valid.{send_channel_message-KeepsValid}
use chiyocore.Mesh.Receive.{packet}
use chiyocore.Mesh.Receive.Keeps.{Keeps, Keeps->>=, Keeps-or_throw}
use chiyocore.Mesh.Receive.Invariant.{IsValid, packet-IsValid}
use chiyocore.PingBot.{PingBot, Format, Str, ping_bot, group_text, reply, ping_of, contains}
use chiyocore.Companion.Session.{Session, Host}
use chiyocore.Companion.Layer.{
  write_sink, log, as_utf8, save_message, take_login, login_response, take_response, response,
  trace_packet, companion_layer,
}

module _ {P S Q K : Type 0} (e : Env P S) (h : Host P Q K) (I : Node P S → Type 0) where
  -- The companion does not touch the node.
  as_utf8-Keeps : (text : TextMessageData) → Keeps {L = Session Q K} I (as_utf8 e h text)
  unfolding as_utf8
  as_utf8-Keeps text = go (e.is_utf8 text.message)
    where
      go : (b : Bool) → Keeps {L = Session Q K} I (if b then pure tt else throw decode_failure)
      go true w i = i
      go false w i = i

  save_message-Keeps :
      (saved : SavedMessage) (text : TextMessageData)
      → Keeps {L = Session Q K} I (save_message e h saved text)
  unfolding save_message write_sink log
  save_message-Keeps saved text =
      Keeps->>= I _ _ (λ w i. i) λ _. Keeps->>= I _ _ (λ w i. i) λ _. as_utf8-Keeps text

  take_response-Keeps :
      (body : Bytes) (taken : Option Bytes)
      → Keeps {L = Session Q K} I (take_response e h body taken)
  unfolding take_response write_sink login_response
  take_response-Keeps body none w i = i
  take_response-Keeps body (some key) w i = go (h.decode_login_response body)
    where
      go : (o : Option (ℕ × ℕ)) → I (login_response e h key o w).1.0
      go none = i
      go (some (code, permissions)) = elim (Bool-cases (code == 0)) [
        | inl success ↦ rw success i
        | inr failure ↦ rw failure i
      ]

  companion_layer-Keeps :
      (r : Reception P) (ev : Event P) → Keeps {L = Session Q K} I (companion_layer e h r ev)
  unfolding companion_layer write_sink response trace_packet
  companion_layer-Keeps r Event.packet w i = i
  companion_layer-Keeps r (Event.text_message c text) w i = save_message-Keeps _ text w i
  companion_layer-Keeps r (Event.group_text c text) w i = save_message-Keeps _ text w i
  companion_layer-Keeps r (Event.ack crc) w i = i
  companion_layer-Keeps r (Event.advert a) w i = i
  companion_layer-Keeps r (Event.returned_path c p) w i = i
  companion_layer-Keeps r (Event.response c b) w i =
      take_response-Keeps b (take_login e h c.key w.1.login_in_progress).0 _ i
  companion_layer-Keeps r (Event.request c b) w i = i
  companion_layer-Keeps r (Event.anonymous_request c b) w i = i
  companion_layer-Keeps r (Event.trace_packet snrs t) w i =
      elim (Bool-cases (ltb (length snrs) (h.path_len t.path))) [
        | inl short ↦ rw short i
        | inr whole ↦ rw whole i
      ]
  companion_layer-Keeps r (Event.control_packet b) w i = i

module _ {P S : Type 0} (e : Env P S) (f : Format P) where
  reply-Keeps :
      (r : Reception P) (channel : Channel) (user : Option Str)
      → Keeps {L = PingBot} (IsValid e) (reply e f r channel user)
  unfolding reply
  reply-Keeps r channel none w v = v
  reply-Keeps r channel (some user) w v =
      Keeps->>= (IsValid e) _ _ (send_channel_message-KeepsValid e _ _ _ _) (λ _ w v. v) w v

  group_text-Keeps :
      (r : Reception P) (channel : Channel) (message : TextMessageData)
      → Keeps {L = PingBot} (IsValid e) (group_text e f r channel message)
  unfolding group_text
  group_text-Keeps r channel message w v = go (contains channel.name w.1.channels)
    where
      go :
          (listens : Bool)
          → IsValid e
              ((if listens
                  then (or_throw (f.as_utf8 message.message) decode_failure >>= λ text.
                      reply e f r channel (ping_of text))
                  else pure tt)
                w).1.0
      go true =
          Keeps->>= (IsValid e) _ _
            (Keeps-or_throw (IsValid e) (f.as_utf8 message.message) decode_failure)
            (λ text. reply-Keeps r channel _) w v
      go false = v

  ping_bot-Keeps :
      (r : Reception P) (ev : Event P) → Keeps {L = PingBot} (IsValid e) (ping_bot e f r ev)
  unfolding ping_bot
  ping_bot-Keeps r Event.packet w v = v
  ping_bot-Keeps r (Event.text_message c text) w v = v
  ping_bot-Keeps r (Event.group_text c text) w v = group_text-Keeps r c text w v
  ping_bot-Keeps r (Event.ack crc) w v = v
  ping_bot-Keeps r (Event.advert a) w v = v
  ping_bot-Keeps r (Event.returned_path c p) w v = v
  ping_bot-Keeps r (Event.response c b) w v = v
  ping_bot-Keeps r (Event.request c b) w v = v
  ping_bot-Keeps r (Event.anonymous_request c b) w v = v
  ping_bot-Keeps r (Event.trace_packet snrs t) w v = v
  ping_bot-Keeps r (Event.control_packet b) w v = v

  module _ {Q K : Type 0} (h : Host P Q K) where
    -- `mesh_layers` with both layers of the repository.
    abbrev pub layers : Layer P S (Session Q K × PingBot)
    layers = join (companion_layer e h) (ping_bot e f)

    -- A mesh node that the companion and the ping bot run on stays valid when it receives a packet,
    -- whatever the packet and however the call ends.
    pub firmware-IsValid :
        (r : Reception P) (w : World P S (Session Q K × PingBot))
        → IsValid e w.0
        → IsValid e (packet e layers r w).1.0
    firmware-IsValid = packet-IsValid e layers (λ r ev (n, (l, m)) v.
        join-keeps (companion_layer e h) (ping_bot e f) (IsValid e)
          (companion_layer-Keeps e h (IsValid e)) ping_bot-Keeps r ev n l m v)
