-- ===== src/Tests/Mesh.antt =====
-- A node with two contacts under one hash, and packets for it.
use chiyocore.Base.{
  if◌then◌else◌, ℕ, ◌+◌, ◌≡◌, refl, true, false, Option, none, some, List, [], ◌∷◌, ◌++◌, arith,
  take,
}
use chiyocore.Base.Bytes.{Bytes, bytes_eq, cmp}
use chiyocore.Storage.KeyCache
use chiyocore.Storage.Messages.{TextMessageData, PayloadType, RouteType, Packet}
use chiyocore.Storage.Contacts.{CachedContact}
use chiyocore.Storage.Contacts.Prefix
use chiyocore.Storage.Channels
use chiyocore.Mesh.Send.{send_direct_message}
use chiyocore.Mesh.Types.{Env, MsgSent, Node, Reception, EncryptedMessage, decode_failure}
use chiyocore.Mesh.Monad.{Result, World, ok, err}
use chiyocore.Mesh.Layer.{Layer}
use chiyocore.Mesh.Decode.{has_hash, decode_contact}
use chiyocore.Mesh.Decode.First.{find_sender, decoded_by, decode_contact-find_sender}
use chiyocore.Mesh.Receive.{packet}
use chiyocore.Mesh.Receive.Invariant
use chiyocore.Mesh.Receive.Invariant.{packet-IsValid}
use chiyocore.Mesh.Receive.Dedup.{packet-packet}
use chiyocore.Mesh.Retry.{Steps, send_with_retry}
use chiyocore.Mesh.Retry.Schedule.{schedule, send_with_retry-schedule}
use chiyocore.Tests.World.{Flash, flash_map, fresh_fs, hash, contact_codec}

-- Keys are their own shared keys, and a message verifies with the key that it begins with.
abbrev pub env : Env ℕ Flash
env = record {
  pubkey = 4 ∷ 4 ∷ [];
  now = 100;
  path_hash_mode = 0;
  map_store = flash_map;
  xxh32 = hash;
  contact_codec = contact_codec;
  sha1 = λ b. b;
  dh = λ k. some k;
  shared_secret = λ k. some k;
  into_bytes = λ _. 1 ∷ [];
  raw_bytes = λ p. p ∷ [];
  hops = λ p. p;
  empty = λ mode. 0;
  is_utf8 = λ _. true;
  verify = λ k b. bytes_eq k (take 2 b);
  decrypt = λ k b. some b;
  decode_encrypted = λ b. some (record { destination_hash = 4; source_hash = 1; body = b });
  decode_group = λ b. none;
  decode_anon = λ b. none;
  decode_advert = λ b. none;
  decode_ack = λ b. some b;
  decode_trace = λ b. none;
  decode_control = λ b. some b;
  decode_text = λ b. some (record { timestamp = 5; text_type = 0; attempt = 0; message = b });
  decode_path = λ b. none;
  decode_response = λ b. some b;
  decode_request = λ b. none;
  decode_anon_data = λ b. none;
  ack_crc = λ t k. t.message;
  encode_ack = λ b. b;
  encode_text = λ t. t.message;
  make_message_with_key =
      λ b h k. some (record { destination_hash = h; source_hash = 4; body = b });
  make_anon_req = λ m k. some m;
  encrypt = λ b k. some b;
  group_text_bytes = λ h b k. b;
  encode_encrypted = λ m. some m.body;
  seal_path = λ p k. some k;
  retransmit_delay = λ _. 500;
  timeout_est = λ _. 3000;
}

abbrev pub contacts : List (CachedContact ℕ)
contacts =
    record { key = 1 ∷ 5 ∷ []; path = none }
    ∷ record { key = 1 ∷ 6 ∷ []; path = some 3 }
    ∷ record { key = 2 ∷ 5 ∷ []; path = none }
    ∷ []

pub contacts-IsSorted : Prefix.IsSorted contacts
unfolding cmp
contacts-IsSorted = ((refl, (refl, tt)), ((refl, tt), (tt, tt)))

-- From the second of the two contacts whose keys begin with 1.
abbrev message : EncryptedMessage
message = record { destination_hash = 4; source_hash = 1; body = 1 ∷ 6 ∷ 72 ∷ [] }

decode_contact-find_sender_example :
    ((decode_contact env message contacts KeyCache.new).0 ≡ (
      if has_hash 4 (4 ∷ 4 ∷ [])
      then decoded_by env (1 ∷ 6 ∷ 72 ∷ []) (find_sender env 1 (1 ∷ 6 ∷ 72 ∷ []) contacts)
      else ok none))
    × KeyCache.IsValid (λ k. some k) (decode_contact env message contacts KeyCache.new).1
decode_contact-find_sender_example =
    decode_contact-find_sender env message contacts KeyCache.new contacts-IsSorted
      (λ j k e. absurd (ground arith))

abbrev pub node : Node ℕ Flash
node = record {
  packet_log = [];
  message_log = [];
  contacts = contacts;
  channels = Channels.of_cache [];
  fs = fresh_fs;
  key_cache = KeyCache.new;
  woken = [];
  sent = [];
}

-- A layer that counts its calls.
abbrev counter : Layer ℕ Flash ℕ
counter r ev (n, calls) = (ok tt, (n, calls + 1))

abbrev pub text_packet : Packet ℕ
text_packet = record {
  header = record { payload_type = PayloadType.txt_msg; route_type = RouteType.flood };
  path = 2;
  payload = 1 ∷ 6 ∷ 72 ∷ [];
}

abbrev pub reception : Reception ℕ
reception = record { packet = text_packet; rssi = 10; snr = 20; bytes = [] }

pub node-IsValid : Invariant.IsValid env node
node-IsValid = record {
  packets = record { bounded = omega arith; distinct = tt };
  messages = record { bounded = omega arith; distinct = tt };
  contacts = contacts-IsSorted;
  keys = λ j k e. absurd (ground arith);
}

packet-IsValid_example : Invariant.IsValid env (packet env counter reception (node, 0)).1.0
packet-IsValid_example = packet-IsValid env counter (λ r ev w v. v) reception (node, 0) node-IsValid

packet-packet_example :
    packet env counter (record reception { rssi = 11 }) (packet env counter reception (node, 0)).1
    ≡ (ok tt, (packet env counter reception (node, 0)).1)
packet-packet_example =
    packet-packet env counter (λ r ev w. refl) reception (record reception { rssi = 11 }) (node, 0)
      refl

-- A world that lists the attempts, and is never acknowledged.
abbrev tracing : Steps ℕ (List (ℕ × Option ℕ))
tracing = record {
  attempt = λ attempt path w. (ok false, w ++ (attempt, path) ∷ []);
  reset = λ w. (ok tt, w);
  wake = λ w. (ok tt, w);
}

send_with_retry-schedule_example :
    send_with_retry tracing (some 3) [] ≡ schedule tracing (some 3) []
send_with_retry-schedule_example = send_with_retry-schedule tracing (some 3) []

-- A world that counts the attempts.
abbrev counting : Steps ℕ ℕ
counting = record {
  attempt = λ attempt path w. (ok false, w + 1);
  reset = λ w. (ok tt, w);
  wake = λ w. (ok tt, w);
}

-- A layer that refuses every event.
abbrev refusing : Layer ℕ Flash ℕ
refusing r ev w = (err decode_failure, w)

abbrev hello : TextMessageData
hello = record { timestamp = 5; text_type = 0; attempt = 0; message = 72 ∷ [] }

abbrev direct : Result MsgSent × World ℕ Flash ℕ
direct = send_direct_message env (1 ∷ 6 ∷ []) (some 3) hello none (node, 0)

abbrev reply : MsgSent
reply = record { is_flood = false; expected_ack = 72 ∷ []; suggested_timeout = 3000 }
