-- ===== src/Tests/Companion.antt =====
-- Frames of a client, its commands and a login at concrete inputs.
use mathlib.Core.List.{append_assoc, append-nil}
use chiyocore.Base.{
  ℕ, Bool, ◌+◌, ◌<◌, ◌≡◌, ◌↔◌, ◌⊎◌, refl, true, false, none, some, List, [], ◌∷◌, ◌++◌, arith,
  length, replicate, remove_at, if◌then◌else◌, Option, take, drop,
}
use chiyocore.Base.Bytes.{Bytes, bytes_eq, cmp, le16, le32, of_le}
use chiyocore.Hal.Directory
use chiyocore.Hal.Keys
use chiyocore.Hal.Outcome
use chiyocore.Hal.Filesystem
use chiyocore.Storage.Contacts.{CachedContact, find_idx, fast_get, contact_key}
use chiyocore.Storage.Search.{binary_search_by}
use chiyocore.Storage.Channels.{Channel, get_cached, get}
use chiyocore.Hal.Filesystem.{codes}
use chiyocore.Hal.Filesystem.Objects.{Codec}
use chiyocore.Companion.Build.{ChannelKeys, from_keys, insert_or_panic, add_channels}
use chiyocore.Companion.Build.Channels.{add_channels-get}
use chiyocore.Storage.Channels
use chiyocore.Mesh.Monad
use chiyocore.Mesh.Send.{send_anon_req, log_packet, transmit}
use chiyocore.Mesh.Receive.Invariant
use chiyocore.Companion.Session.{signature, binary_response}
use chiyocore.Companion.Reply.{done, refused, panicked, blocked, ◌>>=◌, Handler}
use chiyocore.Companion.Handler.{State}
use chiyocore.Companion.Handler.Mesh.{sent, send_login, send_channel_message}
use chiyocore.Companion.Handler.Stores.{remove_contact}
use chiyocore.Companion.Handler.Signing.{
  sign_start, sign_finish, sign_all, with_signature, sign_start-sign_all,
}
use chiyocore.Companion.Handler.Errors.{send_channel_message-panicked, remove_contact_stuck}
use chiyocore.Companion.Protocol.{HostCommand, Out, companion, parse_packet}
use chiyocore.Companion.Protocol.Valid.{parse_packet-IsValid}
use chiyocore.Companion.Layer.{write_sink, login_response, response}
use chiyocore.Companion.Layer.Login.{with_login, send_login-response}
use chiyocore.Tests.World.{Flash, fresh_fs, flash_map, hash, contact_codec}
use chiyocore.Tests.Mesh.{env, node, node-IsValid}
use chiyocore.Tests.Host.{host, session}
use chiyocore.Companion.Tcp.{receive}
use chiyocore.Companion.Tcp
use chiyocore.Companion.Tcp.Frames.{stream, cut_frame, handle_all, receive-cut_frame}

abbrev state : State ℕ Flash (List Bytes) Bytes
state = (node, session)

sign_start-sign_all_example :
    ((sign_start host >>= λ _. sign_all host ((1 ∷ []) ∷ (2 ∷ []) ∷ [])) state
      ≡ (done (signature (9 ∷ 1 ∷ 2 ∷ [])), with_signature host none state))
    × (sign_finish host (with_signature host none state)
        ≡ (refused, with_signature host none state))
sign_start-sign_all_example =
    sign_start-sign_all host (λ k a b. append_assoc k a b) (λ k. append-nil k) (9 ∷ []) refl
      ((1 ∷ []) ∷ (2 ∷ []) ∷ []) state

-- Two commands for the time, and a socket that can always be flushed.
abbrev handle : Bytes → Handler (Out ℕ (State ℕ Flash (List Bytes) Bytes)) (Unit {0})
handle = parse_packet (companion env host) (λ b. some HostCommand.get_device_time)

abbrev flush :
    Out ℕ (State ℕ Flash (List Bytes) Bytes) → Bool × Out ℕ (State ℕ Flash (List Bytes) Bytes)
flush w = (true, w)

receive-cut_frame_example :
    receive handle flush (stream ((1 ∷ 60 ∷ []) ∷ []) ++ cut_frame (3 ∷ []) 4) (state, [])
    ≡ handle_all handle flush ((1 ∷ 60 ∷ []) ∷ []) (λ w. (Tcp.panicked, w)) (state, [])
receive-cut_frame_example =
    receive-cut_frame handle flush ((1 ∷ 60 ∷ []) ∷ []) (3 ∷ []) 4 (state, []) (omega arith, tt)
      (omega arith) (omega arith)

parse_packet-IsValid_example :
    Invariant.IsValid env
      (parse_packet
        (companion env host)
        (λ b. some (HostCommand.remove_contact b))
        (1 ∷ 6 ∷ [])
        (state, [])).1.0.0
parse_packet-IsValid_example =
    parse_packet-IsValid env host (λ b. some (HostCommand.remove_contact b)) (1 ∷ 6 ∷ []) state []
      node-IsValid

abbrev channel : Channel
channel = record { name = 112 ∷ []; key = 5 ∷ []; hash = 17; idx = 1 }

abbrev tuned : State ℕ Flash (List Bytes) Bytes
tuned = (record node { channels = Channels.of_cache (channel ∷ []) }, session)

abbrev long : Bytes
long = replicate 150 65

send_channel_message-panicked_example :
    (152 < length session.name + length long + 2)
    ↔ ((send_channel_message env host 1 5 long tuned).0 ≡ panicked)
unfolding get_cached binary_search_by
send_channel_message-panicked_example =
    send_channel_message-panicked env host 1 5 long tuned channel refl

remove_contact_stuck_example :
    ((remove_contact env host (1 ∷ 6 ∷ []) state).1.0.contacts ≡ remove_at node.contacts 1)
    × (((remove_contact env host (1 ∷ 6 ∷ []) state).0 ≡ blocked)
        ⊎ ((Filesystem.delete flash_map hash
              (contact_key flash_map hash contact_codec (1 ∷ 6 ∷ []))
              node.fs).0
            ≡ Outcome.err Outcome.sequential_storage))
unfolding find_idx binary_search_by cmp
remove_contact_stuck_example = remove_contact_stuck env host (1 ∷ 6 ∷ []) state 1 refl

-- Logging in to the second contact.
abbrev logged_in : State ℕ Flash (List Bytes) Bytes
logged_in = (send_login env host (1 ∷ 6 ∷ []) (3 ∷ []) state).1

abbrev repeater : CachedContact ℕ
repeater = record { key = 1 ∷ 6 ∷ []; path = none }

send_login-response_example :
    (logged_in.1.login_in_progress ≡ some (1 ∷ 6 ∷ []))
    × (response env host repeater (4 ∷ []) logged_in ≡ (
        if bytes_eq (1 ∷ 6 ∷ []) (1 ∷ 6 ∷ [])
        then login_response env host (1 ∷ 6 ∷ []) (some (0, 3)) (with_login env host none logged_in)
        else write_sink env host (binary_response (4 ∷ [])) logged_in))
unfolding send_login find_idx fast_get binary_search_by cmp ◌>>=◌ send_anon_req log_packet transmit
    Monad.◌>>=◌
send_login-response_example =
    send_login-response env host (1 ∷ 6 ∷ []) (3 ∷ []) state logged_in (sent false (le32 5) 3000)
      refl repeater (4 ∷ [])

abbrev encode_channel : Channel → Option Bytes
encode_channel c = some (c.idx ∷ c.hash ∷ length c.name ∷ c.name ++ c.key)

abbrev decode_channel : Bytes → Option Channel
decode_channel (idx ∷ hash ∷ n ∷ rest) =
    some (record { name = take n rest; key = drop n rest; hash = hash; idx = idx })
decode_channel _ = none

abbrev pub channel_codec : Codec Channel
channel_codec = record { to_allocvec = encode_channel; from_bytes = decode_channel }

abbrev pub public_keys : ChannelKeys
public_keys = record { hash = 17; secret = 4 ∷ 4 ∷ [] }

abbrev pub hashtag_keys : Bytes → ChannelKeys
hashtag_keys tag = record { hash = length tag; secret = take 2 tag }

-- The app has put channels of its own under 1 and 3.
abbrev pub before_build : Channels.State flash_map hash channel_codec
before_build = (Channels.of_cache (mine 1 ∷ mine 3 ∷ []), fresh_fs)
  where
    mine : ℕ → Channel
    mine idx = record { name = 109 ∷ []; key = 7 ∷ 7 ∷ []; hash = 50 + idx; idx = idx }

abbrev after_build : Channels.State flash_map hash channel_codec
after_build = (add_channels flash_map hash channel_codec public_keys hashtag_keys before_build).1

built :
    add_channels flash_map hash channel_codec public_keys hashtag_keys before_build
    ≡ (Outcome.ok tt, after_build)
unfolding add_channels insert_or_panic Channels.insert get_cached binary_search_by
    Channels.write_channel Filesystem.set Filesystem.fetch_directory Filesystem.fetch_item
    Filesystem.decode_directory Filesystem.update_directory Filesystem.store_directory
    Directory.serialize_into Filesystem.store_item Channels.remember Channels.cache_insert bytes_eq
    Keys.file Keys.const_new Directory.deserialize_from cmp le16 le32 of_le Directory.cast_slice
    Directory.contains Directory.contains_entry Filesystem.insert_sorted Filesystem.sort_unstable
    Channels.remember_if_ok
built = refl

add_channels-get_example :
    (get 0 after_build.0 ≡ some (from_keys 0 (codes "public") public_keys))
    × (get 1 after_build.0 ≡ some (from_keys 1 (codes "#test") (hashtag_keys (codes "#test"))))
    × (get 2 after_build.0
        ≡ some (from_keys 2 (codes "#emitestcorner") (hashtag_keys (codes "#emitestcorner"))))
    × ((i : ℕ) → 2 < i → get i after_build.0 ≡ get i before_build.0)
add_channels-get_example =
    add_channels-get flash_map hash channel_codec public_keys hashtag_keys before_build after_build
      ((omega arith, tt), (tt, tt)) built
