-- ===== src/Companion/Protocol/Node.antt =====
-- The commands of the companion, and the invariant of the node.
use chiyocore.Base.{
  ℕ, Bool, true, false, none, List, inl, inr, Option-cases, if◌then◌else◌, subst, sym, ◌≡◌, refl,
  arith,
}
use chiyocore.Base.Bytes.{Bytes}
use chiyocore.Hal.Filesystem.{Fs}
use chiyocore.Storage.Contacts.{Contact, CachedContact, find_idx, fast_get, delete}
use chiyocore.Storage.Contacts.Writes.{delete_stuck}
use chiyocore.Storage.HashLog.Window
use chiyocore.Storage.KeyCache
use chiyocore.Storage.Messages.{PayloadType}
use chiyocore.Mesh.Send.{send_flood_packet, send_direct_packet}
use chiyocore.Storage.Channels
use chiyocore.Storage.Contacts.Prefix.{IsSorted}
use chiyocore.Storage.Contacts.Cache.{remove_at-IsSorted}
use chiyocore.Storage.Channels.{Channel}
use chiyocore.Mesh.Types.{Env, Node, TracePacket}
use chiyocore.Mesh.Send.Valid.{
  send_packet-KeepsValid, send_flood_packet-KeepsValid, send_direct_packet-KeepsValid,
  send_to_contact-KeepsValid, send_anon_req-KeepsValid, send_direct_message-KeepsValid,
  send_channel_message-KeepsValid,
}
use chiyocore.Mesh.Receive.Invariant.{IsValid, insert-IsSorted}
use chiyocore.Companion.Session.{Host, Response}
use chiyocore.Companion.Reply.{
  Handler, or_refuse, ◌>>=◌, Keeps, Keeps->>=, Keeps-or_refuse, Keeps-or_panic, call,
}
use chiyocore.Companion.Handler.{State, get_node}
use chiyocore.Companion.Handler.Mesh
use chiyocore.Companion.Handler.Stores

module _ {P S : Type 0} (e : Env P S) where
  -- Another contact cache that is sorted, and another flash.
  contacts-IsValid :
      (n : Node P S) (cs : List (CachedContact P)) (fs : Fs S)
      → IsSorted cs
      → IsValid e n
      → IsValid e (record n { contacts = cs; fs = fs })
  contacts-IsValid n cs fs s v = record {
    packets = v.packets;
    messages = v.messages;
    contacts = s;
    keys = v.keys;
  }

  -- A change of what the invariant does not speak of.
  pub elsewhere-IsValid :
      (n n' : Node P S)
      → n'.packet_log ≡ n.packet_log
      → n'.message_log ≡ n.message_log
      → n'.contacts ≡ n.contacts
      → n'.key_cache ≡ n.key_cache
      → IsValid e n
      → IsValid e n'
  elsewhere-IsValid n n' a b c d v = record {
    packets = subst (Window.IsValid 32) (sym a) v.packets;
    messages = subst (Window.IsValid 32) (sym b) v.messages;
    contacts = subst IsSorted (sym c) v.contacts;
    keys = subst (KeyCache.IsValid e.dh) (sym d) v.keys;
  }

  delete-nobody :
      (key : Bytes) (cs : List (CachedContact P)) (fs : Fs S)
      → find_idx key cs ≡ none
      → cs ≡ (delete e.map_store e.xxh32 e.contact_codec key (cs, fs)).1.0
  unfolding delete
  delete-nobody key cs fs nobody = ground arith

  delete-IsSorted :
      (key : Bytes) (cs : List (CachedContact P)) (fs : Fs S)
      → IsSorted cs
      → IsSorted (delete e.map_store e.xxh32 e.contact_codec key (cs, fs)).1.0
  delete-IsSorted key cs fs s = elim (Option-cases (find_idx key cs)) [
    | inl nobody ↦ subst IsSorted (delete-nobody key cs fs nobody) s
    | inr (i, found) ↦
        subst IsSorted (sym (delete_stuck e.map_store e.xxh32 e.contact_codec key cs fs i found).0)
          (remove_at-IsSorted cs i s)
  ]

module _ {P S Q K : Type 0} (e : Env P S) (h : Host P Q K) where
  -- The node of a session is valid.
  abbrev pub IsFine : State P S Q K → Type 0
  IsFine w = IsValid e w.0

  pub insert_contact-IsFine : (c : Contact P) → Keeps IsFine (Stores.insert_contact e h c)
  unfolding Stores.insert_contact
  insert_contact-IsFine c w v =
      contacts-IsValid e w.0 _ _ (insert-IsSorted e c w.0.contacts w.0.fs v.contacts) v

  pub insert_channel-IsFine : (c : Channel) → Keeps IsFine (Stores.insert_channel e h c)
  unfolding Stores.insert_channel
  insert_channel-IsFine c w = elsewhere-IsValid e w.0 _ refl refl refl refl

  pub get_contact-IsFine : (key : Bytes) → Keeps IsFine (Stores.get_contact e h key)
  unfolding Stores.get_contact
  get_contact-IsFine key =
      Keeps->>= IsFine _ _ (λ w. elsewhere-IsValid e w.0 _ refl refl refl refl)
        λ o. Keeps-or_panic IsFine o

  -- A method that looks up a contact first.
  pub known-IsFine :
      (key : Bytes) (f : CachedContact P → Handler (State P S Q K) (Response P))
      → ((c : CachedContact P) → Keeps IsFine (f c))
      → Keeps IsFine (get_node >>= λ n. or_refuse (fast_get key n.contacts) >>= f)
  known-IsFine key f k =
      Keeps->>= IsFine _ _ (λ w v. v)
        λ n. Keeps->>= IsFine _ _ (Keeps-or_refuse IsFine (fast_get key n.contacts)) k

  pub send_channel_message-IsFine :
      (idx timestamp : ℕ) (txt : Bytes)
      → Keeps IsFine (Mesh.send_channel_message e h idx timestamp txt)
  unfolding Mesh.send_channel_message Mesh.send_to_channel
  send_channel_message-IsFine idx timestamp txt =
      Keeps->>= IsFine _ _ (λ w v. v)
        λ n. Keeps->>= IsFine _ _ (Keeps-or_refuse IsFine (Channels.get idx n.channels)) λ channel.
          Keeps->>= IsFine _ _ (λ w v. v)
            λ s.
              Keeps->>= IsFine _ _ (Keeps-or_panic IsFine (Mesh.format_message s.name txt)) λ msg.
                Keeps->>= IsFine _ _ (send_channel_message-KeepsValid e _ _ _ _) λ timeout w v. v

  pub send_contact_message-IsFine :
      (ty attempt timestamp : ℕ) (destination text : Bytes)
      → Keeps IsFine (Mesh.send_contact_message e h ty attempt timestamp destination text)
  unfolding Mesh.send_contact_message
  send_contact_message-IsFine ty attempt timestamp destination text =
      known-IsFine destination _
        λ c. Keeps->>= IsFine _ _ (send_direct_message-KeepsValid e _ _ _ _) λ res w v. v

  pub send_self_advert-IsFine : (flood : Bool) → Keeps IsFine (Mesh.send_self_advert e h flood)
  unfolding Mesh.send_self_advert
  send_self_advert-IsFine flood = Keeps->>= IsFine _ _ (Keeps-or_panic IsFine h.random) λ bytes.
      Keeps->>= IsFine _ _ (λ w v. v) λ s. Keeps->>= IsFine _ _ (go flood _) λ timeout w v. v
    where
      go :
          (flood : Bool) (advert : Bytes)
          → Keeps IsFine (
              call (
                if flood
                then send_flood_packet e PayloadType.advert advert none
                else send_direct_packet e PayloadType.advert advert
                    (e.empty e.path_hash_mode)
                    none))
      go true advert = send_flood_packet-KeepsValid e _ _ _
      go false advert = send_direct_packet-KeepsValid e _ _ _ _

  pub send_login-IsFine : (pk password : Bytes) → Keeps IsFine (Mesh.send_login e h pk password)
  unfolding Mesh.send_login
  send_login-IsFine pk password = known-IsFine pk _ λ c.
      Keeps->>= IsFine _ _ (λ w v. v)
        λ s.
          Keeps->>= IsFine _ _ (λ w v. v)
            λ _. Keeps->>= IsFine _ _ (send_anon_req-KeepsValid e _ _ _) λ timeout w v. v

  pub send_binary_req-IsFine : (pk b : Bytes) → Keeps IsFine (Mesh.send_binary_req e h pk b)
  unfolding Mesh.send_binary_req
  send_binary_req-IsFine pk b = known-IsFine pk _ λ c.
      Keeps->>= IsFine _ _ (λ w v. v)
        λ s. Keeps->>= IsFine _ _ (send_to_contact-KeepsValid e _ _ _ _ _) λ timeout w v. v

  pub send_anon_req-IsFine : (pk b : Bytes) → Keeps IsFine (Mesh.send_anon_req e h pk b)
  unfolding Mesh.send_anon_req
  send_anon_req-IsFine pk b = known-IsFine pk _ λ c.
      Keeps->>= IsFine _ _ (λ w v. v)
        λ s. Keeps->>= IsFine _ _ (send_anon_req-KeepsValid e _ _ _) λ timeout w v. v

  pub send_control_data-IsFine : (b : Bytes) → Keeps IsFine (Mesh.send_control_data e h b)
  unfolding Mesh.send_control_data
  send_control_data-IsFine b =
      Keeps->>= IsFine _ _ (send_packet-KeepsValid e _ true _) λ timeout w v. v

  pub send_trace-IsFine : (t : TracePacket P) → Keeps IsFine (Mesh.send_trace e h t)
  unfolding Mesh.send_trace
  send_trace-IsFine t =
      Keeps->>= IsFine _ _ (Keeps-or_panic IsFine (h.encode_trace t))
        λ bytes. Keeps->>= IsFine _ _ (send_packet-KeepsValid e _ true _) λ timeout w v. v

  pub channel_info-IsFine : (idx : ℕ) → Keeps IsFine (Stores.channel_info e h idx)
  unfolding Stores.channel_info
  channel_info-IsFine idx =
      Keeps->>= IsFine _ _ (λ w v. v)
        λ n. Keeps->>= IsFine _ _ (Keeps-or_refuse IsFine (Channels.get idx n.channels)) λ c w v. v

  pub set_channel-IsFine :
      (idx : ℕ) (name secret : Bytes) → Keeps IsFine (Stores.set_channel e h idx name secret)
  unfolding Stores.set_channel
  set_channel-IsFine idx name secret = Keeps->>= IsFine _ _ (insert_channel-IsFine _) λ _ w v. v

  pub reset_path-IsFine : (pk : Bytes) → Keeps IsFine (Stores.reset_path e h pk)
  unfolding Stores.reset_path
  reset_path-IsFine pk =
      Keeps->>= IsFine _ _ (get_contact-IsFine pk)
        λ c. Keeps->>= IsFine _ _ (insert_contact-IsFine _) λ _ w v. v

  pub add_update_contact-IsFine : (c : Contact P) → Keeps IsFine (Stores.add_update_contact e h c)
  unfolding Stores.add_update_contact
  add_update_contact-IsFine c = Keeps->>= IsFine _ _ (insert_contact-IsFine c) λ _ w v. v

  pub remove_contact-IsFine : (key : Bytes) → Keeps IsFine (Stores.remove_contact e h key)
  unfolding Stores.remove_contact
  remove_contact-IsFine key =
      Keeps->>= IsFine _ _
        (λ w v. contacts-IsValid e w.0 _ _ (delete-IsSorted e key w.0.contacts w.0.fs v.contacts) v)
        λ _ w v. v

  pub get_custom_vars-IsFine : Keeps IsFine (Stores.get_custom_vars e h)
  unfolding Stores.get_custom_vars
  get_custom_vars-IsFine =
      Keeps->>= IsFine _ _ (λ w. elsewhere-IsValid e w.0 _ refl refl refl refl)
        λ entries.
          Keeps->>= IsFine _ _ (λ w. elsewhere-IsValid e w.0 _ refl refl refl refl) λ vars w v. v

  pub set_custom_var-IsFine : (key val : Bytes) → Keeps IsFine (Stores.set_custom_var e h key val)
  unfolding Stores.set_custom_var
  set_custom_var-IsFine key val =
      Keeps->>= IsFine _ _ (λ w. elsewhere-IsValid e w.0 _ refl refl refl refl) λ _ w v. v
