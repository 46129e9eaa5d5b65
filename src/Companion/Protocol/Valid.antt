-- ===== src/Companion/Protocol/Valid.antt =====
-- Every command of the companion keeps the invariant of the node.
use chiyocore.Base.{Option, none, some, List, [], ◌∷◌, refl}
use chiyocore.Base.Bytes.{Bytes}
use chiyocore.Hal.Outcome.{Outcome}
use chiyocore.Hal.Filesystem.Objects.{with_mut}
use chiyocore.Storage.Contacts.{CachedContact}
use chiyocore.Mesh.Types.{Env, AdvertisementExtraData}
use chiyocore.Mesh.Receive.Invariant.{IsValid}
use chiyocore.Companion.Session.{Host, Response}
use chiyocore.Companion.Reply.{
  Reply, done, refused, panicked, blocked, Handler, ◌>>=◌, Keeps, Keeps->>=, Keeps-or_refuse,
  Keeps-or_panic,
}
use chiyocore.Companion.Handler.{State}
use chiyocore.Companion.Handler
use chiyocore.Companion.Handler.Signing
use chiyocore.Companion.Handler.Stores
use chiyocore.Companion.Handler.Mesh
use chiyocore.Companion.Protocol.{
  HostCommand, Out, write, answer, dispatch, parse_packet, companion, StatTypes,
}
use chiyocore.Companion.Protocol.Node.{
  IsFine, elsewhere-IsValid, get_contact-IsFine, send_channel_message-IsFine,
  send_contact_message-IsFine, send_self_advert-IsFine, send_login-IsFine, send_binary_req-IsFine,
  send_anon_req-IsFine, send_control_data-IsFine, send_trace-IsFine, channel_info-IsFine,
  set_channel-IsFine, reset_path-IsFine, add_update_contact-IsFine, remove_contact-IsFine,
  get_custom_vars-IsFine, set_custom_var-IsFine,
}

module _ {P S Q K : Type 0} (e : Env P S) (h : Host P Q K) where
  -- The node of the session behind `out`.
  abbrev IsFineOut : Out P (State P S Q K) → Type 0
  IsFineOut w = IsValid e w.0.0

  set_advert_name-IsFine : (name : Bytes) → Keeps (IsFine e h) (Handler.set_advert_name e h name)
  unfolding Handler.set_advert_name Handler.saved_name
  set_advert_name-IsFine name w v =
      go
        (with_mut e.map_store e.xxh32 h.advert_codec
          (λ (a : AdvertisementExtraData). record a { name = some name })
          (w.1.advert_data, w.0.fs)).0
        _ (elsewhere-IsValid e w.0 _ refl refl refl refl v)
    where
      go :
          (r : Outcome (Unit {0})) (w' : State P S Q K)
          → IsValid e w'.0
          → IsValid e (Handler.saved_name e h r w').1.0
      go (Outcome.ok u) w' v = v
      go (Outcome.err x) w' v = v
      go Outcome.panicked w' v = v
      go Outcome.blocked w' v = v

  sync_next_message-IsFine : Keeps (IsFine e h) (Handler.sync_next_message e h)
  unfolding Handler.sync_next_message
  sync_next_message-IsFine w v = Keeps->>= (IsFine e h) _ _ (λ w v. v) (λ o w v. v) (w.0, _) v

  sign_start-IsFine : Keeps (IsFine e h) (Signing.sign_start h)
  unfolding Signing.sign_start
  sign_start-IsFine =
      Keeps->>= (IsFine e h) _ _ (Keeps-or_panic (IsFine e h) h.random)
        λ noise. Keeps->>= (IsFine e h) _ _ (λ w v. v) λ _ w v. v

  sign_data-IsFine : (b : Bytes) → Keeps (IsFine e h) (Signing.sign_data h b)
  unfolding Signing.sign_data
  sign_data-IsFine b =
      Keeps->>= (IsFine e h) _ _ (λ w v. v)
        λ s.
          Keeps->>= (IsFine e h) _ _ (Keeps-or_refuse (IsFine e h) s.signature_in_progress)
            λ k. Keeps->>= (IsFine e h) _ _ (λ w v. v) λ _ w v. v

  sign_finish-IsFine : Keeps (IsFine e h) (Signing.sign_finish h)
  unfolding Signing.sign_finish
  sign_finish-IsFine =
      Keeps->>= (IsFine e h) _ _ (λ w v. v)
        λ s.
          Keeps->>= (IsFine e h) _ _ (λ w v. v)
            λ _.
              Keeps->>= (IsFine e h) _ _ (Keeps-or_refuse (IsFine e h) s.signature_in_progress)
                λ k w v. v

  write_contacts-IsFine :
      (cs : List (CachedContact P)) → Keeps IsFineOut (Stores.write_contacts e h cs)
  unfolding Stores.write_contacts
  write_contacts-IsFine [] = λ w v. v
  write_contacts-IsFine (c ∷ cs) =
      Keeps->>= IsFineOut _ _ (λ w. get_contact-IsFine e h c.key w.0)
        λ contact w. write_contacts-IsFine cs _

  get_contacts-IsFine : Keeps IsFineOut (Stores.get_contacts e h)
  unfolding Stores.get_contacts
  get_contacts-IsFine w v =
      Keeps->>= IsFineOut _ _ (write_contacts-IsFine w.0.0.contacts) (λ _ w v. v) _ v

  write-IsFine :
      (x : Reply (Response P) × Out P (State P S Q K)) → IsFineOut x.1 → IsFineOut (write x).1
  write-IsFine (done r, w) v = v
  write-IsFine (refused, w) v = v
  write-IsFine (panicked, w) v = v
  write-IsFine (blocked, w) v = v

  answer-IsFine :
      (m : Handler (State P S Q K) (Response P)) → Keeps (IsFine e h) m → Keeps IsFineOut (answer m)
  answer-IsFine m k w v = write-IsFine ((m w.0).0, ((m w.0).1, w.1)) (k w.0 v)

  dispatch-IsFine : (c : HostCommand P) → Keeps IsFineOut (dispatch (companion e h) c)
  unfolding dispatch companion ◌>>=◌ Handler.app_start Handler.device_query Handler.get_time
      Handler.unsupported Handler.export_private_key Handler.set_time Handler.get_core_stats
      Handler.get_radio_stats Handler.get_packet_stats
  dispatch-IsFine (HostCommand.app_start x) = answer-IsFine (Handler.app_start e h) (λ w v. v)
  dispatch-IsFine (HostCommand.send_txt_msg ty attempt timestamp pubkey text) =
      answer-IsFine (Mesh.send_contact_message e h ty attempt timestamp pubkey text)
        (send_contact_message-IsFine e h ty attempt timestamp pubkey text)
  dispatch-IsFine (HostCommand.send_channel_txt_msg ty idx timestamp text) =
      answer-IsFine (Mesh.send_channel_message e h idx timestamp text)
        (send_channel_message-IsFine e h idx timestamp text)
  dispatch-IsFine (HostCommand.get_contacts since) =
      λ w v. write-IsFine (Stores.get_contacts e h w) (get_contacts-IsFine w v)
  dispatch-IsFine HostCommand.get_device_time = answer-IsFine (Handler.get_time e h) (λ w v. v)
  dispatch-IsFine (HostCommand.set_device_time timestamp) =
      answer-IsFine (Handler.set_time e h timestamp) (λ w v. v)
  dispatch-IsFine (HostCommand.send_self_advert flood) =
      answer-IsFine (Mesh.send_self_advert e h flood) (send_self_advert-IsFine e h flood)
  dispatch-IsFine (HostCommand.set_advert_name name) =
      answer-IsFine (Handler.set_advert_name e h name) (set_advert_name-IsFine name)
  dispatch-IsFine (HostCommand.add_update_contact c) =
      answer-IsFine (Stores.add_update_contact e h c) (add_update_contact-IsFine e h c)
  dispatch-IsFine HostCommand.sync_next_message =
      answer-IsFine (Handler.sync_next_message e h) (sync_next_message-IsFine)
  dispatch-IsFine (HostCommand.set_radio_params freq bw sf cr) =
      answer-IsFine (Handler.unsupported e h) (λ w v. v)
  dispatch-IsFine (HostCommand.set_tx_power x) = answer-IsFine (Handler.unsupported e h) (λ w v. v)
  dispatch-IsFine (HostCommand.reset_path pubkey) =
      answer-IsFine (Stores.reset_path e h pubkey) (reset_path-IsFine e h pubkey)
  dispatch-IsFine (HostCommand.set_advert_lat_lon lat lon) =
      answer-IsFine (Handler.unsupported e h) (λ w v. v)
  dispatch-IsFine (HostCommand.remove_contact pubkey) =
      answer-IsFine (Stores.remove_contact e h pubkey) (remove_contact-IsFine e h pubkey)
  dispatch-IsFine HostCommand.share_contact = λ w v. v
  dispatch-IsFine HostCommand.export_contact = λ w v. v
  dispatch-IsFine HostCommand.import_contact = λ w v. v
  dispatch-IsFine HostCommand.reboot = λ w v. v
  dispatch-IsFine HostCommand.get_battery_voltage =
      answer-IsFine (Handler.unsupported e h) (λ w v. v)
  dispatch-IsFine HostCommand.set_tuning_params = λ w v. v
  dispatch-IsFine (HostCommand.device_query x) = answer-IsFine (Handler.device_query e h) (λ w v. v)
  dispatch-IsFine HostCommand.export_private_key =
      answer-IsFine (Handler.export_private_key e h) (λ w v. v)
  dispatch-IsFine HostCommand.import_private_key = λ w v. v
  dispatch-IsFine HostCommand.send_raw_data = λ w v. v
  dispatch-IsFine (HostCommand.send_login pubkey password) =
      answer-IsFine (Mesh.send_login e h pubkey password) (send_login-IsFine e h pubkey password)
  dispatch-IsFine HostCommand.send_status_req = λ w v. v
  dispatch-IsFine (HostCommand.get_channel idx) =
      answer-IsFine (Stores.channel_info e h idx) (channel_info-IsFine e h idx)
  dispatch-IsFine (HostCommand.set_channel idx name secret) =
      answer-IsFine (Stores.set_channel e h idx name secret)
        (set_channel-IsFine e h idx name secret)
  dispatch-IsFine HostCommand.sign_start = answer-IsFine (Signing.sign_start h) (sign_start-IsFine)
  dispatch-IsFine (HostCommand.sign_data body) =
      answer-IsFine (Signing.sign_data h body) (sign_data-IsFine body)
  dispatch-IsFine HostCommand.sign_finish =
      answer-IsFine (Signing.sign_finish h) (sign_finish-IsFine)
  dispatch-IsFine (HostCommand.send_trace_path trace) =
      answer-IsFine (Mesh.send_trace e h trace) (send_trace-IsFine e h trace)
  dispatch-IsFine HostCommand.set_other_params = λ w v. v
  dispatch-IsFine HostCommand.send_telemetry_req = λ w v. v
  dispatch-IsFine (HostCommand.send_binary_req pubkey body) =
      answer-IsFine (Mesh.send_binary_req e h pubkey body) (send_binary_req-IsFine e h pubkey body)
  dispatch-IsFine HostCommand.set_flood_scope = λ w v. v
  dispatch-IsFine HostCommand.get_custom_vars =
      answer-IsFine (Stores.get_custom_vars e h) (get_custom_vars-IsFine e h)
  dispatch-IsFine (HostCommand.set_custom_var key value) =
      answer-IsFine (Stores.set_custom_var e h key value) (set_custom_var-IsFine e h key value)
  dispatch-IsFine (HostCommand.send_control_data body) =
      answer-IsFine (Mesh.send_control_data e h body) (send_control_data-IsFine e h body)
  dispatch-IsFine (HostCommand.get_stats StatTypes.core) =
      answer-IsFine (Handler.get_core_stats e h) (λ w v. v)
  dispatch-IsFine (HostCommand.get_stats StatTypes.radio) =
      answer-IsFine (Handler.get_radio_stats e h) (λ w v. v)
  dispatch-IsFine (HostCommand.get_stats StatTypes.packets) =
      answer-IsFine (Handler.get_packet_stats e h) (λ w v. v)
  dispatch-IsFine (HostCommand.send_anon_req pubkey body) =
      answer-IsFine (Mesh.send_anon_req e h pubkey body) (send_anon_req-IsFine e h pubkey body)

  -- A packet of the app keeps the node valid, whatever command it is and however its handling ends, a
  -- panic included, and also if it cannot be decoded.
  pub parse_packet-IsValid :
      (companion_deserialize : Bytes → Option (HostCommand P)) (bytes : Bytes) (w : State P S Q K)
      (out : List (Response P))
      → IsValid e w.0
      → IsValid e (parse_packet (companion e h) companion_deserialize bytes (w, out)).1.0.0
  unfolding parse_packet
  parse_packet-IsValid companion_deserialize bytes w out v = go (companion_deserialize bytes)
    where
      go :
          (c : Option (HostCommand P))
          → IsValid e (parse_packet (companion e h) (λ _. c) bytes (w, out)).1.0.0
      go none = v
      go (some c) = dispatch-IsFine c (w, out) v
