-- ===== src/Mesh/Receive/Invariant.antt =====
-- The invariant of a mesh node: two windows of hashes within their capacity of 32 and with no hash
-- twice, a contact cache sorted by key, and shared keys as the key exchange gives them.
use chiyocore.Base.{ℕ, Bool, true, false, List, [], ◌∷◌, arith, Option-cases, Bool-cases, inl, inr}
use chiyocore.Base.Bytes.{Bytes}
use chiyocore.Storage.HashLog.Window
use chiyocore.Storage.HashLog.Window.{push-IsValid}
use chiyocore.Storage.KeyCache
use chiyocore.Storage.KeyCache.{KeyCache, get_key, get_key_lem}
use chiyocore.Storage.Messages.{Packet}
use chiyocore.Storage.Contacts.{
  Contact, CachedContact, insert, cache_if_ok, write_contact, from_full, find_idx,
}
use chiyocore.Hal.Outcome.{Outcome, ok, err, panicked, blocked}
use chiyocore.Hal.Filesystem.{Fs}
use chiyocore.Storage.Contacts.Prefix.{IsSorted}
use chiyocore.Storage.Contacts.Cache.{cache_insert-IsSorted}
use chiyocore.Mesh.Types.{Env, Node, Reception, EncryptedMessage}
use chiyocore.Mesh.Monad.{World}
use chiyocore.Mesh.Layer.{Layer, Event}
use chiyocore.Mesh.Send.{log_packet}
use chiyocore.Mesh.Decode.{decode_contact, try_contacts, has_hash}
use chiyocore.Mesh.Receive.{packet, handle}
use chiyocore.Mesh.Receive.Keeps.{Keeps, Keeps->>=, IsKept, dispatch-Keeps}

pub record IsValid {P S : Type 0} (e : Env P S) (n : Node P S) : Type 0 where
  pub packets : Window.IsValid 32 n.packet_log
  pub messages : Window.IsValid 32 n.message_log
  pub contacts : IsSorted n.contacts
  pub keys : KeyCache.IsValid e.dh n.key_cache

module _ {P S : Type 0} (e : Env P S) where
  try_contacts-keys :
      (hash : ℕ) (body : Bytes) (cs : List (CachedContact P)) (cache : KeyCache)
      → KeyCache.IsValid e.dh cache
      → KeyCache.IsValid e.dh (try_contacts e hash body cs cache).1
  unfolding try_contacts
  try_contacts-keys hash body [] cache v = v
  try_contacts-keys hash body (c ∷ cs) cache v =
      let (derived, valid, _) = get_key_lem e.dh c.key cache v in
      let rest = try_contacts-keys hash body cs (get_key e.dh c.key cache).1 valid in
      elim (Bool-cases (has_hash hash c.key)) [
        | inl same ↦ elim (Option-cases (get_key e.dh c.key cache).0) [
          | inl weak ↦ rw (same, weak) valid
          | inr (key, exchanged) ↦ elim (Bool-cases (e.verify key body)) [
            | inl good ↦ rw (same, exchanged, good) valid
            | inr bad ↦ rw (same, exchanged, bad) rest
          ]
        ]
        | inr other ↦ rw other v
      ]

  decode_contact-keys :
      (m : EncryptedMessage) (contacts : List (CachedContact P)) (cache : KeyCache)
      → KeyCache.IsValid e.dh cache
      → KeyCache.IsValid e.dh (decode_contact e m contacts cache).1
  unfolding decode_contact
  decode_contact-keys m contacts cache v =
      elim (Bool-cases (has_hash m.destination_hash e.pubkey)) [
        | inl ours ↦ elim (Option-cases (find_idx (m.source_hash ∷ []) contacts)) [
          | inl nobody ↦ rw (ours, nobody) v
          | inr (i, found) ↦ rw (ours, found) (try_contacts-keys m.source_hash m.body _ cache v)
        ]
        | inr elsewhere ↦ rw elsewhere v
      ]

  pub insert-IsSorted :
      (c : Contact P) (cs : List (CachedContact P)) (fs : Fs S)
      → IsSorted cs
      → IsSorted (insert e.map_store e.xxh32 e.contact_codec c (cs, fs)).1.0
  unfolding insert cache_if_ok
  insert-IsSorted c cs fs s = go (write_contact e.map_store e.xxh32 e.contact_codec c fs)
    where
      go :
          (r : Outcome (Unit {0}) × Fs S)
          → IsSorted (cache_if_ok e.map_store e.xxh32 e.contact_codec (from_full c) cs r).1.0
      go (ok u, fs') = cache_insert-IsSorted (from_full c) cs s
      go (err x, fs') = s
      go (panicked, fs') = s
      go (blocked, fs') = s

  kept : IsKept e (IsValid e)
  kept = record {
    on_message = λ n hash v. record {
      packets = v.packets;
      messages = push-IsValid 32 hash n.message_log (omega arith) v.messages;
      contacts = v.contacts;
      keys = v.keys;
    };
    on_sent = λ n s v. record {
      packets = v.packets;
      messages = v.messages;
      contacts = v.contacts;
      keys = v.keys;
    };
    on_woken = λ n crc v. record {
      packets = v.packets;
      messages = v.messages;
      contacts = v.contacts;
      keys = v.keys;
    };
    on_keys = λ n m v. record {
      packets = v.packets;
      messages = v.messages;
      contacts = v.contacts;
      keys = decode_contact-keys m n.contacts n.key_cache v.keys;
    };
    on_insert = λ n c v. record {
      packets = v.packets;
      messages = v.messages;
      contacts = insert-IsSorted c n.contacts n.fs v.contacts;
      keys = v.keys;
    };
    on_full_get = λ n key v. record {
      packets = v.packets;
      messages = v.messages;
      contacts = v.contacts;
      keys = v.keys;
    };
  }

module _ {P S L : Type 0} (e : Env P S) where
  pub log_packet-IsValid : (p : Packet P) → Keeps {L = L} (IsValid e) (log_packet e p)
  unfolding log_packet
  log_packet-IsValid p w v = record {
    packets = push-IsValid 32 _ w.0.packet_log (omega arith) v.packets;
    messages = v.messages;
    contacts = v.contacts;
    keys = v.keys;
  }

module _ {P S L : Type 0} (e : Env P S) (layers : Layer P S L) where
  -- Receiving a packet keeps the node valid, whatever the packet and however the call ends, if every
  -- call of the layers does.
  pub packet-IsValid :
      (calm : (r : Reception P) (ev : Event P) (w : World P S L)
        → IsValid e w.0
        → IsValid e (layers r ev w).1.0)
      (r : Reception P) (w : World P S L)
      → IsValid e w.0
      → IsValid e (packet e layers r w).1.0
  unfolding packet
  packet-IsValid calm r = Keeps->>= (IsValid e) _ _ (log_packet-IsValid e r.packet) go
    where
      go : (fresh : Bool) → Keeps (IsValid e) (handle e layers r fresh)
      go true = Keeps->>= (IsValid e) _ _ (calm r Event.packet) λ _.
          dispatch-Keeps e layers (IsValid e) (kept e) calm r r.packet.header.payload_type
            r.packet.payload
      go false = λ w v. v
