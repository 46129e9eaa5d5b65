-- ===== src/Companion/Protocol.antt =====
-- `parse_packet` of firmware/companion/src/companion_protocol/protocol.rs, over the trait
-- `CompanionHandler`; `out` is the list of the packets written, latest last. The decoder of the crate
-- meshcore_companion_protocol is a parameter.
pub mod Node
pub mod Valid
use chiyocore.Base.{ℕ, Bool, Option, none, some, List, [], ◌∷◌, ◌++◌}
use chiyocore.Base.Bytes.{Bytes}
use chiyocore.Storage.Contacts.{Contact}
use chiyocore.Mesh.Types.{Env, TracePacket}
use chiyocore.Companion.Session.{Host, Response, err_packet}
use chiyocore.Companion.Reply.{Reply, done, refused, panicked, blocked, Handler}
use chiyocore.Companion.Handler
use chiyocore.Companion.Handler.{State}
use chiyocore.Companion.Handler.Mesh
use chiyocore.Companion.Handler.Signing
use chiyocore.Companion.Handler.Stores

pub data StatTypes : Type 0 where
  core radio packets : StatTypes

-- `HostCommand`, with the fields that `parse_packet` reads.
pub data HostCommand (P : Type 0) : Type 0 where
  app_start device_query : ℕ → HostCommand P
  send_txt_msg : (txt_type attempt timestamp : ℕ) (pubkey text : Bytes) → HostCommand P
  send_channel_txt_msg : (txt_type channel_idx timestamp : ℕ) (text : Bytes) → HostCommand P
  get_contacts : Option ℕ → HostCommand P
  get_device_time sync_next_message get_battery_voltage export_private_key : HostCommand P
  sign_start sign_finish get_custom_vars : HostCommand P
  set_device_time : ℕ → HostCommand P
  send_self_advert : Bool → HostCommand P
  set_advert_name : Bytes → HostCommand P
  add_update_contact : Contact P → HostCommand P
  set_radio_params : (freq bw sf cr : ℕ) → HostCommand P
  set_tx_power get_channel : ℕ → HostCommand P
  set_advert_lat_lon : (lat lon : ℕ) → HostCommand P
  reset_path remove_contact sign_data send_control_data : Bytes → HostCommand P
  share_contact export_contact import_contact import_private_key : HostCommand P
  reboot set_tuning_params send_raw_data send_status_req : HostCommand P
  set_other_params send_telemetry_req set_flood_scope : HostCommand P
  send_login send_binary_req send_anon_req set_custom_var : Bytes → Bytes → HostCommand P
  set_channel : (idx : ℕ) (name secret : Bytes) → HostCommand P
  send_trace_path : TracePacket P → HostCommand P
  get_stats : StatTypes → HostCommand P

-- The trait, without `start_req`, which does nothing, and `import_contact`, which is not called.
-- `get_contacts` also writes to `out`.
pub record CompanionHandler (P W : Type 0) : Type 0 where
  pub app_start : Handler W (Response P)
  pub device_query : Handler W (Response P)
  pub channel_info : ℕ → Handler W (Response P)
  pub set_channel : ℕ → Bytes → Bytes → Handler W (Response P)
  pub send_channel_message : ℕ → ℕ → Bytes → Handler W (Response P)
  pub send_contact_message : ℕ → ℕ → ℕ → Bytes → Bytes → Handler W (Response P)
  pub get_time : Handler W (Response P)
  pub set_time : ℕ → Handler W (Response P)
  pub send_self_advert : Bool → Handler W (Response P)
  pub set_advert_name : Bytes → Handler W (Response P)
  pub set_radio_params : Handler W (Response P)
  pub set_tx_power : Handler W (Response P)
  pub reset_path : Bytes → Handler W (Response P)
  pub set_lat_long : Handler W (Response P)
  pub add_update_contact : Contact P → Handler W (Response P)
  pub remove_contact : Bytes → Handler W (Response P)
  pub sync_next_message : Handler W (Response P)
  pub get_battery : Handler W (Response P)
  pub send_login : Bytes → Bytes → Handler W (Response P)
  pub get_contacts : Handler (W × List (Response P)) (Response P)
  pub sign_start : Handler W (Response P)
  pub sign_data : Bytes → Handler W (Response P)
  pub sign_finish : Handler W (Response P)
  pub export_private_key : Handler W (Response P)
  pub get_custom_vars : Handler W (Response P)
  pub set_custom_var : Bytes → Bytes → Handler W (Response P)
  pub get_core_stats : Handler W (Response P)
  pub get_radio_stats : Handler W (Response P)
  pub get_packet_stats : Handler W (Response P)
  pub send_control_data : Bytes → Handler W (Response P)
  pub send_trace : TracePacket P → Handler W (Response P)
  pub send_binary_req : Bytes → Bytes → Handler W (Response P)
  pub send_anon_req : Bytes → Bytes → Handler W (Response P)

-- The handler's state, and what was written.
abbrev pub Out : Type 0 → Type 0 → Type 0
Out P W = W × List (Response P)

module _ {P W : Type 0} where
  -- `out.write_packet(…)` of a result.
  abbrev pub write : Reply (Response P) × Out P W → Reply (Unit {0}) × Out P W
  write (done r, (w, out)) = (done tt, (w, out ++ r ∷ []))
  write (refused, (w, out)) = (done tt, (w, out ++ err_packet ∷ []))
  write (panicked, (w, out)) = (panicked, (w, out))
  write (blocked, (w, out)) = (blocked, (w, out))

  -- `out.write_packet(&handler.….await).await`.
  abbrev pub answer : Handler W (Response P) → Handler (Out P W) (Unit {0})
  answer m (w, out) = write (let (r, w') = m w in (r, (w', out)))

  -- `todo!()`.
  abbrev pub todo : Handler (Out P W) (Unit {0})
  todo w = (panicked, w)

module _ {P W : Type 0} (h : CompanionHandler P W) where
  unfoldable pub dispatch : HostCommand P → Handler (Out P W) (Unit {0})
  dispatch (HostCommand.app_start _) = answer h.app_start
  dispatch (send_txt_msg ty attempt timestamp pubkey text) =
      answer (h.send_contact_message ty attempt timestamp pubkey text)
  dispatch (send_channel_txt_msg ty idx timestamp text) =
      answer (h.send_channel_message idx timestamp text)
  dispatch (HostCommand.get_contacts since) = λ w. write (h.get_contacts w)
  dispatch get_device_time = answer h.get_time
  dispatch (set_device_time timestamp) = answer (h.set_time timestamp)
  dispatch (HostCommand.send_self_advert flood) = answer (h.send_self_advert flood)
  dispatch (HostCommand.set_advert_name name) = answer (h.set_advert_name name)
  dispatch (HostCommand.add_update_contact c) = answer (h.add_update_contact c)
  dispatch HostCommand.sync_next_message = answer h.sync_next_message
  dispatch (HostCommand.set_radio_params freq bw sf cr) = answer h.set_radio_params
  dispatch (HostCommand.set_tx_power _) = answer h.set_tx_power
  dispatch (HostCommand.reset_path pubkey) = answer (h.reset_path pubkey)
  dispatch (set_advert_lat_lon lat lon) = answer h.set_lat_long
  dispatch (HostCommand.remove_contact pubkey) = answer (h.remove_contact pubkey)
  dispatch share_contact = todo
  dispatch export_contact = todo
  dispatch HostCommand.import_contact = todo
  dispatch reboot = todo
  dispatch get_battery_voltage = answer h.get_battery
  dispatch set_tuning_params = todo
  dispatch (HostCommand.device_query _) = answer h.device_query
  dispatch HostCommand.export_private_key = answer h.export_private_key
  dispatch import_private_key = todo
  dispatch send_raw_data = todo
  dispatch (HostCommand.send_login pubkey password) = answer (h.send_login pubkey password)
  dispatch send_status_req = todo
  dispatch (get_channel idx) = answer (h.channel_info idx)
  dispatch (HostCommand.set_channel idx name secret) = answer (h.set_channel idx name secret)
  dispatch HostCommand.sign_start = answer h.sign_start
  dispatch (HostCommand.sign_data body) = answer (h.sign_data body)
  dispatch HostCommand.sign_finish = answer h.sign_finish
  dispatch (send_trace_path trace) = answer (h.send_trace trace)
  dispatch set_other_params = todo
  dispatch send_telemetry_req = todo
  dispatch (HostCommand.send_binary_req pubkey body) = answer (h.send_binary_req pubkey body)
  dispatch set_flood_scope = λ w. (done tt, w)
  dispatch HostCommand.get_custom_vars = answer h.get_custom_vars
  dispatch (HostCommand.set_custom_var key value) = answer (h.set_custom_var key value)
  dispatch (HostCommand.send_control_data body) = answer (h.send_control_data body)
  dispatch (get_stats core) = answer h.get_core_stats
  dispatch (get_stats radio) = answer h.get_radio_stats
  dispatch (get_stats packets) = answer h.get_packet_stats
  dispatch (HostCommand.send_anon_req pubkey body) = answer (h.send_anon_req pubkey body)

  -- `refused` is the `Err` of the decoder.
  unfoldable pub parse_packet :
      (Bytes → Option (HostCommand P)) → Bytes → Handler (Out P W) (Unit {0})
  parse_packet companion_deserialize packet = elim (companion_deserialize packet) [
    | none ↦ λ w. (refused, w)
    | some c ↦ dispatch c
  ]

-- `impl CompanionHandler for Companion`.
unfoldable pub companion :
    {P S Q K : Type 0} → Env P S → Host P Q K → CompanionHandler P (State P S Q K)
companion e h = record {
  app_start = Handler.app_start e h;
  device_query = Handler.device_query e h;
  channel_info = Stores.channel_info e h;
  set_channel = Stores.set_channel e h;
  send_channel_message = Mesh.send_channel_message e h;
  send_contact_message = Mesh.send_contact_message e h;
  get_time = Handler.get_time e h;
  set_time = Handler.set_time e h;
  send_self_advert = Mesh.send_self_advert e h;
  set_advert_name = Handler.set_advert_name e h;
  set_radio_params = Handler.unsupported e h;
  set_tx_power = Handler.unsupported e h;
  reset_path = Stores.reset_path e h;
  set_lat_long = Handler.unsupported e h;
  add_update_contact = Stores.add_update_contact e h;
  remove_contact = Stores.remove_contact e h;
  sync_next_message = Handler.sync_next_message e h;
  get_battery = Handler.unsupported e h;
  send_login = Mesh.send_login e h;
  get_contacts = Stores.get_contacts e h;
  sign_start = Signing.sign_start h;
  sign_data = Signing.sign_data h;
  sign_finish = Signing.sign_finish h;
  export_private_key = Handler.export_private_key e h;
  get_custom_vars = Stores.get_custom_vars e h;
  set_custom_var = Stores.set_custom_var e h;
  get_core_stats = Handler.get_core_stats e h;
  get_radio_stats = Handler.get_radio_stats e h;
  get_packet_stats = Handler.get_packet_stats e h;
  send_control_data = Mesh.send_control_data e h;
  send_trace = Mesh.send_trace e h;
  send_binary_req = Mesh.send_binary_req e h;
  send_anon_req = Mesh.send_anon_req e h;
}
