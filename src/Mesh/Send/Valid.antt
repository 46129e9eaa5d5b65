-- ===== src/Mesh/Send/Valid.antt =====
-- Sending, and the invariant of the node.
use chiyocore.Base.{ℕ, Bool, true, false, Option, get_elem?}
use chiyocore.Base.Bytes.{Bytes}
use chiyocore.Storage.Messages.{Packet, PayloadType, TextMessageData}
use chiyocore.Storage.KeyCache.{get_key_lem}
use chiyocore.Mesh.Types.{Env, aes_failure}
use chiyocore.Mesh.Monad.{World, Call, ◌>>=◌}
use chiyocore.Mesh.Send.{
  log_packet, transmit, send_packet, send_flood_packet, send_direct_packet, shared_key,
  send_to_contact, send_anon_req, send_direct_message, send_channel_message,
}
use chiyocore.Mesh.Receive.Keeps.{Keeps, Keeps->>=, Keeps-or_throw, Keeps-or_panic}
use chiyocore.Mesh.Receive.Invariant.{IsValid, log_packet-IsValid}

module _ {P S L : Type 0} (e : Env P S) where
  -- The call keeps the node valid, however it ends.
  abbrev pub KeepsValid : {A : Type 0} → Call (World P S L) A → Type 0
  KeepsValid = Keeps (IsValid e)

  transmit-KeepsValid : (p : Packet P) (d : Option ℕ) → KeepsValid (transmit e p d)
  unfolding transmit
  transmit-KeepsValid p d w v = record {
    packets = v.packets;
    messages = v.messages;
    contacts = v.contacts;
    keys = v.keys;
  }

  logged-KeepsValid :
      (p : Packet P) (d : Option ℕ) → KeepsValid (log_packet e p >>= λ _. transmit e p d)
  logged-KeepsValid p d =
      Keeps->>= (IsValid e) _ _ (log_packet-IsValid e p) λ _. transmit-KeepsValid p d

  pub send_packet-KeepsValid :
      (p : Packet P) (log : Bool) (d : Option ℕ) → KeepsValid (send_packet e p log d)
  unfolding send_packet
  send_packet-KeepsValid p true d = logged-KeepsValid p d
  send_packet-KeepsValid p false d =
      Keeps->>= (IsValid e) _ _ (λ w v. v) λ _. transmit-KeepsValid p d

  pub send_flood_packet-KeepsValid :
      (ty : PayloadType) (b : Bytes) (d : Option ℕ) → KeepsValid (send_flood_packet e ty b d)
  unfolding send_flood_packet
  send_flood_packet-KeepsValid ty b d = send_packet-KeepsValid _ true d

  pub send_direct_packet-KeepsValid :
      (ty : PayloadType) (b : Bytes) (p : P) (d : Option ℕ)
      → KeepsValid (send_direct_packet e ty b p d)
  unfolding send_direct_packet
  send_direct_packet-KeepsValid ty b p d = logged-KeepsValid _ _

  shared_key-KeepsValid : (contact : Bytes) → KeepsValid (shared_key e contact)
  unfolding shared_key
  shared_key-KeepsValid contact =
      Keeps->>= (IsValid e) _ _
        (λ w v. record {
          packets = v.packets;
          messages = v.messages;
          contacts = v.contacts;
          keys = (get_key_lem e.dh contact w.0.key_cache v.keys).1;
        })
        (Keeps-or_panic (IsValid e))

  pub send_to_contact-KeepsValid :
      (ty : PayloadType) (contact : Bytes) (path : Option P) (b : Bytes) (d : Option ℕ)
      → KeepsValid (send_to_contact e ty contact path b d)
  unfolding send_to_contact
  send_to_contact-KeepsValid ty contact path b d =
      Keeps->>= (IsValid e) _ _ (shared_key-KeepsValid contact) λ key.
        Keeps->>= (IsValid e) _ _ (Keeps-or_panic (IsValid e) (get_elem? contact 0)) λ dst.
          Keeps->>= (IsValid e) _ _
            (Keeps-or_throw (IsValid e) (e.make_message_with_key b dst key) aes_failure)
            λ sealed.
              Keeps->>= (IsValid e) _ _ (Keeps-or_panic (IsValid e) (e.encode_encrypted sealed))
                λ payload. send_packet-KeepsValid _ true d

  pub send_anon_req-KeepsValid :
      (contact : Bytes) (path : Option P) (b : Bytes) → KeepsValid (send_anon_req e contact path b)
  unfolding send_anon_req
  send_anon_req-KeepsValid contact path b =
      Keeps->>= (IsValid e) _ _ (Keeps-or_panic (IsValid e) (e.make_anon_req b contact))
        λ payload. logged-KeepsValid _ _

  pub send_direct_message-KeepsValid :
      (contact : Bytes) (path : Option P) (text : TextMessageData) (d : Option ℕ)
      → KeepsValid (send_direct_message e contact path text d)
  unfolding send_direct_message
  send_direct_message-KeepsValid contact path text d =
      Keeps->>= (IsValid e) _ _ (send_to_contact-KeepsValid _ contact path _ d) λ timeout w v. v

  pub send_channel_message-KeepsValid :
      (hash : ℕ) (secret : Bytes) (text : TextMessageData) (d : Option ℕ)
      → KeepsValid (send_channel_message e hash secret text d)
  unfolding send_channel_message
  send_channel_message-KeepsValid hash secret text d =
      Keeps->>= (IsValid e) _ _
        (Keeps-or_throw (IsValid e) (e.encrypt (e.encode_text text) secret) aes_failure)
        λ sealed. send_flood_packet-KeepsValid _ _ d
