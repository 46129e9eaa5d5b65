-- ===== src/Mesh/Receive/Keeps.antt =====
-- What a received packet leaves alone: properties of the node that each single change of the handlers
-- keeps, and that the layers keep.
use chiyocore.Base.{
  ℕ, Bool, Bool-cases, true, false, Option, none, some, [], ◌∷◌, ◌++◌, inl, inr, if◌then◌else◌,
  take, drop,
}
use chiyocore.Base.Bytes.{Bytes}
use chiyocore.Storage.HashLog.{push}
use chiyocore.Storage.Messages.{Packet, PayloadType, TextMessageData, SavedMessage}
use chiyocore.Storage.Contacts.{Contact, CachedContact, insert, full_get}
use chiyocore.Mesh.Types.{
  Env, Node, Sent, Reception, Advert, AdvertisementExtraData, EncryptedMessage, GroupText,
  AnonymousRequest, CompanionError, decode_failure, aes_failure,
}
use chiyocore.Mesh.Monad.{
  World, Result, ok, err, panicked, blocked, Call, pure, ◌>>=◌, or_throw, or_panic,
}
use chiyocore.Mesh.Layer.{Layer, Event}
use chiyocore.Mesh.Send.{ack_packet, send_ack, send_packet, transmit}
use chiyocore.Mesh.Decode.{decode_contact, decode_contact_message, decode_channel_message, has_hash}
use chiyocore.Mesh.Receive.{
  log_message, deliver_text, text_message, group_text, ack, save, advert_named, advert,
  extra_payload, take_path, returned_path, response, request, verified_anon, keyed_anon,
  anonymous_request, control_packet, trace_packet, dispatch, if_ours, utf8_name,
}

module _ {P S L : Type 0} (I : Node P S → Type 0) where
  -- The call keeps `I`, however it ends.
  abbrev pub Keeps : {A : Type 0} → Call (World P S L) A → Type 0
  Keeps m = (w : World P S L) → I w.0 → I (m w).1.0

  pub Keeps->>= :
      {A B : Type 0} (m : Call (World P S L) A) (f : A → Call (World P S L) B)
      → Keeps m
      → ((a : A) → Keeps (f a))
      → Keeps (m >>= f)
  unfolding ◌>>=◌
  Keeps->>= {A = A} {B = B} m f km kf w i = go (m w) (km w i)
    where
      go : (r : Result A × World P S L) → I r.1.0 → I (◌>>=◌ {B = B} (λ _. r) f w).1.0
      go (ok a, w') j = kf a w' j
      go (err x, w') j = j
      go (panicked, w') j = j
      go (blocked, w') j = j

  pub Keeps-or_throw : {A : Type 0} (o : Option A) (x : CompanionError) → Keeps (or_throw o x)
  Keeps-or_throw none x w i = i
  Keeps-or_throw (some a) x w i = i

  pub Keeps-or_panic : {A : Type 0} (o : Option A) → Keeps (or_panic o)
  Keeps-or_panic none w i = i
  Keeps-or_panic (some a) w i = i

-- The single changes that the handlers make, and that `I` is to survive.
pub record IsKept {P S : Type 0} (e : Env P S) (I : Node P S → Type 0) : Type 0 where
  pub on_message :
      (n : Node P S) (hash : Bytes)
      → I n
      → I (record n { message_log = (push 32 hash n.message_log).0 })
  pub on_sent : (n : Node P S) (s : Sent P) → I n → I (record n { sent = n.sent ++ (s ∷ []) })
  pub on_woken : (n : Node P S) (crc : Bytes) → I n → I (record n { woken = n.woken ++ (crc ∷ []) })
  pub on_keys :
      (n : Node P S) (m : EncryptedMessage)
      → I n
      → I (record n { key_cache = (decode_contact e m n.contacts n.key_cache).1 })
  pub on_insert :
      (n : Node P S) (c : Contact P)
      → I n
      → (let (_, (cs, fs)) = insert e.map_store e.xxh32 e.contact_codec c (n.contacts, n.fs) in
          I (record n { contacts = cs; fs = fs }))
  pub on_full_get :
      (n : Node P S) (key : Bytes)
      → I n
      → I (record n { fs = (full_get e.map_store e.xxh32 e.contact_codec key n.fs).1 })

module _ {P S L : Type 0} (e : Env P S) (layers : Layer P S L) (I : Node P S → Type 0)
    (kept : IsKept e I) (calm : (r : Reception P) (ev : Event P) → Keeps I (layers r ev))
    (r : Reception P) where
  send_packet_unlogged : (p : Packet P) (d : Option ℕ) → Keeps {L = L} I (send_packet e p false d)
  unfolding send_packet transmit ◌>>=◌
  send_packet_unlogged p d w i = kept.on_sent w.0 _ i

  send_ack-Keeps :
      (text : TextMessageData) (contact : CachedContact P)
      → Keeps {L = L} I (send_ack e r.packet text contact)
  unfolding send_ack
  send_ack-Keeps text contact =
      Keeps->>= I _ _
        (Keeps-or_panic I (ack_packet e r.packet (e.ack_crc text contact.key) contact))
        (λ out. Keeps->>= I _ _ (send_packet_unlogged out _) (λ _ w i. i))

  log_message-Keeps : (m : SavedMessage) → Keeps I (log_message e layers r m)
  unfolding log_message
  log_message-Keeps m w i = kept.on_message w.0 _ i

  decode_contact_message-Keeps :
      (m : EncryptedMessage) → Keeps {L = L} I (decode_contact_message e m)
  unfolding decode_contact_message ◌>>=◌
  decode_contact_message-Keeps m w i = kept.on_keys w.0 m i

  decode_channel_message-Keeps : (m : GroupText) → Keeps {L = L} I (decode_channel_message e m)
  unfolding decode_channel_message ◌>>=◌
  decode_channel_message-Keeps m w i = i

  if-Keeps : (fresh : Bool) (ev : Event P) → Keeps I (if fresh then layers r ev else pure tt)
  if-Keeps true ev = calm r ev
  if-Keeps false ev = λ w i. i

  decoded-Keeps :
      {A : Type 0} (m : EncryptedMessage) (o : Bytes → Option A)
      (k : CachedContact P → A → Call (World P S L) (Unit {0}))
      → ((c : CachedContact P) (a : A) → Keeps I (k c a))
      → Keeps I (
          decode_contact_message e m
          >>= if_ours e layers r (λ cm. or_throw (o cm.1) decode_failure >>= k cm.0))
  decoded-Keeps {A = A} m o k h = Keeps->>= I _ _ (decode_contact_message-Keeps m) go
    where
      go :
          (d : Option (CachedContact P × Bytes))
          → Keeps I (if_ours e layers r (λ cm. or_throw (o cm.1) decode_failure >>= k cm.0) d)
      go none = λ w i. i
      go (some (c, b)) = Keeps->>= I _ _ (Keeps-or_throw I (o b) decode_failure) (h c)

  text_message-Keeps : (m : EncryptedMessage) → Keeps I (text_message e layers r m)
  unfolding text_message deliver_text
  text_message-Keeps m = decoded-Keeps m e.decode_text (deliver_text e layers r) λ c text.
      Keeps->>= I _ _ (send_ack-Keeps text c)
        λ _. Keeps->>= I _ _ (log_message-Keeps _) λ fresh. if-Keeps fresh _

  group_text-Keeps : (m : GroupText) → Keeps I (group_text e layers r m)
  unfolding group_text
  group_text-Keeps m = Keeps->>= I _ _ (decode_channel_message-Keeps m) λ decoded.
      Keeps->>= I _ _ (Keeps-or_throw I (e.decode_text decoded.1) decode_failure)
        λ text. Keeps->>= I _ _ (log_message-Keeps _) λ fresh. if-Keeps fresh _

  ack-Keeps : (crc : Bytes) → Keeps I (ack e layers r crc)
  unfolding ack
  ack-Keeps crc = Keeps->>= I _ _ (λ w i. kept.on_woken w.0 crc i) λ _. calm r _

  save-Keeps : (c : Contact P) → Keeps I (save e layers r c)
  unfolding save
  save-Keeps c w i = kept.on_insert w.0 c i

  advert-Keeps : (a : Advert) → Keeps I (advert e layers r a)
  unfolding advert advert_named
  advert-Keeps a = go a.appdata
    where
      named :
          (appdata : AdvertisementExtraData) (o : Option Bytes)
          → Keeps I (advert_named e layers r a appdata o)
      named appdata none = λ w i. i
      named appdata (some name) = Keeps->>= I _ _ (save-Keeps _) λ _. calm r _

      go :
          (o : Option AdvertisementExtraData)
          → Keeps {L = L} I (elim o [
            | none ↦ pure tt
            | some appdata ↦ advert_named e layers r a appdata (utf8_name e layers r appdata.name)
          ])
      go none = λ w i. i
      go (some appdata) = named appdata (utf8_name e layers r appdata.name)

  extra_payload-Keeps :
      (c : CachedContact P) (x : Option (PayloadType × Bytes))
      → Keeps I (extra_payload e layers r c x)
  unfolding extra_payload
  extra_payload-Keeps c none = λ w i. i
  extra_payload-Keeps c (some (PayloadType.ack, b)) =
      Keeps->>= I _ _ (Keeps-or_throw I (e.decode_ack b) decode_failure) ack-Keeps
  extra_payload-Keeps c (some (PayloadType.response, b)) = calm r _
  extra_payload-Keeps c (some (PayloadType.request, b)) = λ w i. i
  extra_payload-Keeps c (some (PayloadType.txt_msg, b)) = λ w i. i
  extra_payload-Keeps c (some (PayloadType.advert, b)) = λ w i. i
  extra_payload-Keeps c (some (PayloadType.grp_txt, b)) = λ w i. i
  extra_payload-Keeps c (some (PayloadType.anon_req, b)) = λ w i. i
  extra_payload-Keeps c (some (PayloadType.path, b)) = λ w i. i
  extra_payload-Keeps c (some (PayloadType.trace, b)) = λ w i. i
  extra_payload-Keeps c (some (PayloadType.multipart, b)) = λ w i. i
  extra_payload-Keeps c (some (PayloadType.control, b)) = λ w i. i
  extra_payload-Keeps c (some (PayloadType.raw_custom, b)) = λ w i. i

  returned_path-Keeps : (m : EncryptedMessage) → Keeps I (returned_path e layers r m)
  unfolding returned_path take_path
  returned_path-Keeps m = decoded-Keeps m e.decode_path (take_path e layers r) λ c decoded.
      Keeps->>= I _ _ (λ w i. kept.on_full_get w.0 c.key i)
        λ full. Keeps->>= I _ _ (Keeps-or_panic I full) λ contact_full.
          Keeps->>= I _ _ (save-Keeps _)
            λ _. Keeps->>= I _ _ (calm r _) λ _. extra_payload-Keeps c decoded.extra

  keyed_anon-Keeps : (m : AnonymousRequest) (key : Bytes) → Keeps I (keyed_anon e layers r m key)
  unfolding keyed_anon verified_anon
  keyed_anon-Keeps m key = elim (Bool-cases (e.verify (take 16 (drop 16 key)) m.body)) [
    | inl good ↦ rw good (
        Keeps->>= I _ _ (Keeps-or_throw I (e.decrypt (take 16 key) m.body) aes_failure) λ b.
          Keeps->>= I _ _ (Keeps-or_throw I (e.decode_anon_data b) decode_failure) λ _. calm r _)
    | inr bad ↦ rw bad (λ w i. i)
  ]

  anonymous_request-Keeps : (m : AnonymousRequest) → Keeps I (anonymous_request e layers r m)
  unfolding anonymous_request
  anonymous_request-Keeps m = elim (Bool-cases (has_hash m.destination_hash e.pubkey)) [
    | inl ours ↦
        rw ours
          (Keeps->>= I _ _ (Keeps-or_panic I (e.shared_secret m.sender_key)) (keyed_anon-Keeps m))
    | inr elsewhere ↦ rw elsewhere (λ w i. i)
  ]

  payload-Keeps :
      {A : Type 0} (o : Option A) (k : A → Call (World P S L) (Unit {0}))
      → ((a : A) → Keeps I (k a))
      → Keeps I (or_throw o decode_failure >>= k)
  payload-Keeps o k h = Keeps->>= I _ _ (Keeps-or_throw I o decode_failure) h

  -- Every branch of `dispatch` keeps `I`.
  pub dispatch-Keeps : (ty : PayloadType) (b : Bytes) → Keeps I (dispatch e layers r ty b)
  unfolding dispatch response request trace_packet control_packet
  dispatch-Keeps PayloadType.request b = payload-Keeps _ _ λ m.
      decoded-Keeps m e.decode_request (λ c body. layers r (Event.request c body))
        (λ c body. calm r _)
  dispatch-Keeps PayloadType.response b = payload-Keeps _ _ λ m.
      decoded-Keeps m e.decode_response (λ c bytes. layers r (Event.response c bytes))
        (λ c bytes. calm r _)
  dispatch-Keeps PayloadType.txt_msg b = payload-Keeps _ _ text_message-Keeps
  dispatch-Keeps PayloadType.ack b = payload-Keeps _ _ ack-Keeps
  dispatch-Keeps PayloadType.advert b = payload-Keeps _ _ advert-Keeps
  dispatch-Keeps PayloadType.grp_txt b = payload-Keeps _ _ group_text-Keeps
  dispatch-Keeps PayloadType.anon_req b = payload-Keeps _ _ anonymous_request-Keeps
  dispatch-Keeps PayloadType.path b = payload-Keeps _ _ returned_path-Keeps
  dispatch-Keeps PayloadType.trace b = payload-Keeps _ _ λ t. calm r _
  dispatch-Keeps PayloadType.control b = payload-Keeps _ _ λ c. calm r _
  dispatch-Keeps PayloadType.multipart b = λ w i. i
  dispatch-Keeps PayloadType.raw_custom b = λ w i. i
