-- ===== src/Companion/Handler/Stores.antt =====
-- The methods of `impl CompanionHandler for Companion` on the stores: channels, contacts and variables.
use chiyocore.Base.{ℕ, ◌+◌, Option, none, some, List, [], ◌∷◌, ◌++◌, length, if◌then◌else◌}
use chiyocore.Base.Bytes.{Bytes}
use chiyocore.Hal.Keys.{DirKey, const_new, file}
use chiyocore.Hal.Outcome
use chiyocore.Hal.Outcome.{Outcome, Action, postcard}
use chiyocore.Hal.Filesystem
use chiyocore.Hal.Filesystem.{Fs, codes}
use chiyocore.Hal.Filesystem.Listing
use chiyocore.Hal.Filesystem.Listing.{DirectoryEntries, Item, directory_entries, read_entries}
use chiyocore.Storage.Contacts
use chiyocore.Storage.Contacts.{Contact, CachedContact, full_get}
use chiyocore.Storage.Channels
use chiyocore.Storage.Channels.{Channel}
use chiyocore.Mesh.Types.{Env}
use chiyocore.Mesh.Monad.{on_contacts, on_fs, of_outcome}
use chiyocore.Companion.Session.{
  Session, Host, Response, ok_packet, contact_start, contact_end, custom_vars, now,
}
use chiyocore.Companion.Session
use chiyocore.Companion.Reply.{Handler, pure, call, of_result, or_refuse, or_panic, ◌>>=◌, ◌>>◌}
use chiyocore.Companion.Handler.{State, get_session, get_node}

-- `unwrap_or(0)`.
abbrev or_zero : Option ℕ → ℕ
or_zero none = 0
or_zero (some x) = x

module _ {P S Q K : Type 0} (e : Env P S) (h : Host P Q K) where
  unfoldable pub channel_info : ℕ → Handler (State P S Q K) (Response P)
  channel_info idx = do
    n ← get_node
    channel ← or_refuse (Channels.get idx n.channels)
    pure (Session.Response.channel_info idx channel.name channel.key)

  unfoldable pub insert_channel : Channel → Handler (State P S Q K) (Unit {0})
  insert_channel channel (n, s) =
      let (r, (channels, fs)) =
        Channels.insert e.map_store e.xxh32 h.channel_codec channel (n.channels, n.fs) in
      (of_result (of_outcome r), (record n { channels = channels; fs = fs }, s))

  unfoldable pub set_channel : ℕ → Bytes → Bytes → Handler (State P S Q K) (Response P)
  set_channel idx name secret = do
    insert_channel (record { name = name; key = secret; hash = h.channel_hash secret; idx = idx })
    pure ok_packet

  -- `contacts.insert(…)`.
  unfoldable pub insert_contact : Contact P → Handler (State P S Q K) (Unit {0})
  insert_contact contact =
      call (on_contacts (Contacts.insert e.map_store e.xxh32 e.contact_codec contact))

  -- `contacts.full_get(…).await?.unwrap()`.
  unfoldable pub get_contact : Bytes → Handler (State P S Q K) (Contact P)
  get_contact key = do
    contact ← call (on_fs (full_get e.map_store e.xxh32 e.contact_codec key))
    or_panic contact

  unfoldable pub reset_path : Bytes → Handler (State P S Q K) (Response P)
  reset_path pk = do
    contact ← get_contact pk
    insert_contact (record contact { path_to = none })
    pure ok_packet

  unfoldable pub add_update_contact : Contact P → Handler (State P S Q K) (Response P)
  add_update_contact contact = do insert_contact contact; pure ok_packet

  unfoldable pub remove_contact : Bytes → Handler (State P S Q K) (Response P)
  remove_contact key = do
    call (on_contacts (Contacts.delete e.map_store e.xxh32 e.contact_codec key))
    pure ok_packet

  -- The loop of `get_contacts` over the cache, with the packets written to `out`, latest last.
  unfoldable pub write_contacts :
      List (CachedContact P) → Handler (State P S Q K × List (Response P)) (Unit {0})
  write_contacts [] = pure tt
  write_contacts (c ∷ cs) =
      (λ (w : State P S Q K × List (Response P)).
        let (r, w') = get_contact c.key w.0 in (r, (w', w.1)))
      >>= λ contact. (λ (w : State P S Q K × List (Response P)).
        write_contacts cs (w.0, w.1 ++ Session.Response.contact contact ∷ []))

  unfoldable pub get_contacts : Handler (State P S Q K × List (Response P)) (Response P)
  get_contacts (w, out) =
      (write_contacts w.0.contacts >>= λ _. pure (contact_end 0))
        (w, out ++ contact_start (length w.0.contacts) ∷ [])

  abbrev pub global_vars_dir : DirKey
  global_vars_dir = const_new e.xxh32 (codes "chiyoglobalvars")

  -- `var?` and `postcard::from_bytes(var).map_err(…)?`.
  accept : Item → Outcome (Bytes × Bytes)
  accept (Listing.Item.failed x) = Outcome.err x
  accept (Listing.Item.read var) = elim (h.var_codec.from_bytes var) [
    | none ↦ Outcome.err postcard
    | some kv ↦ Outcome.ok kv
  ]

  read_vars : Option DirectoryEntries → Action (Fs S) (List (Bytes × Bytes))
  read_vars none = Outcome.pure []
  read_vars (some vars) = read_entries e.map_store accept (vars.len + 1) vars []

  unfoldable pub get_custom_vars : Handler (State P S Q K) (Response P)
  unfolding accept read_vars
  get_custom_vars = do
    entries ← call (on_fs (directory_entries e.map_store e.xxh32 global_vars_dir))
    vars ← call (on_fs (read_vars entries))
    pure (custom_vars vars)

  write_var : Bytes → Bytes → Action (Fs S) (Unit {0})
  write_var key val =
      Outcome.◌>>=◌ (Outcome.or_throw (h.var_codec.to_allocvec (key, val)) postcard)
        (Filesystem.set e.map_store e.xxh32 global_vars_dir (file e.xxh32 global_vars_dir key))

  unfoldable pub set_custom_var : Bytes → Bytes → Handler (State P S Q K) (Response P)
  unfolding write_var
  set_custom_var key val = do call (on_fs (write_var key val)); pure ok_packet

  abbrev pub import_name : Option Bytes → Option Bytes
  import_name none = none
  import_name (some name) = if e.is_utf8 name then some name else none

  -- No command reaches it.
  unfoldable pub import_contact : Bytes → Handler (State P S Q K) (Response P)
  import_contact body = do
    payload ← or_refuse (h.decode_import body)
    appdata ← or_refuse payload.appdata
    name ← or_refuse (import_name appdata.name)
    s ← get_session
    insert_contact (record {
      key = payload.public_key;
      name = name;
      path_to = none;
      flags = appdata.flags;
      latitude = or_zero appdata.latitude;
      longitude = or_zero appdata.longitude;
      last_heard = now s;
    })
    pure ok_packet
