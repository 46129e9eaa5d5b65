-- ===== src/Tests/Host.antt =====
-- A host of the companion, and a session, to run the model on.
use chiyocore.Base.{
  ℕ, ◌≤◌, ◌≡◌, refl, sym, true, Option, none, some, List, [], ◌∷◌, ◌++◌, length, leb, if◌then◌else◌,
  arith, take, drop, ap, take-length-append, drop-length-append,
}
use chiyocore.Base.Bytes.{Bytes}
use chiyocore.Hal.Filesystem.Objects.{Codec, IsFaithful}
use chiyocore.Storage.Messages.{SavedMessage}
use chiyocore.Storage.MessageLog.{QueueStorage, IsLawful}
use chiyocore.Storage.MessageLog.Fifo.{Written}
use chiyocore.Companion.Session.{Session, Host}

-- A queue that always has room.
abbrev pub pop_list : ℕ → List Bytes → Option (Option Bytes) × List Bytes
pop_list buffer [] = (some none, [])
pop_list buffer (b ∷ bs) = if leb (length b) buffer then (some (some b), bs) else (none, b ∷ bs)

abbrev pub list_queue : QueueStorage (List Bytes)
list_queue = record { push = λ b q. (true, q ++ b ∷ []); pop = pop_list }

pub list_queue-IsLawful : IsLawful list_queue
list_queue-IsLawful = record {
  items = λ q. q;
  items-push = λ s item done. (0, omega arith, refl);
  pop_empty = λ s buffer e. (ap (λ l. (pop_list buffer l).0) e, ap (λ l. (pop_list buffer l).1) e);
  pop_first =
      λ s buffer item rest e fits. first s buffer item rest e (le→leb (length item) buffer fits);
}
  where
    le→leb : (a b : ℕ) → a ≤ b → leb a b ≡ true
    le→leb a b h = ground arith

    first :
        (s : List Bytes) (buffer : ℕ) (item : Bytes) (rest : List Bytes)
        → s ≡ item ∷ rest
        → leb (length item) buffer ≡ true
        → ((pop_list buffer s).0 ≡ some (some item)) × ((pop_list buffer s).1 ≡ rest)
    first s buffer item rest e h = rw e (rw h (refl, refl))

-- A channel message as its reserved bytes, with their number, and its other fields.
abbrev encode_saved : SavedMessage → Option Bytes
encode_saved (SavedMessage.contact m) = none
encode_saved (SavedMessage.channel m) = some (
    length m.reserved ∷ m.reserved ++ m.snr ∷ m.idx ∷ m.path_len ∷ m.text_ty ∷ m.timestamp ∷ m.body)

abbrev decode_fields : Bytes → Bytes → Option SavedMessage
decode_fields reserved (snr ∷ idx ∷ path_len ∷ text_ty ∷ timestamp ∷ body) = some (
    SavedMessage.channel (record {
      snr = snr;
      reserved = reserved;
      idx = idx;
      path_len = path_len;
      text_ty = text_ty;
      timestamp = timestamp;
      body = body;
    }))
decode_fields reserved _ = none

abbrev decode_saved : Bytes → Option SavedMessage
decode_saved [] = none
decode_saved (n ∷ rest) = decode_fields (take n rest) (drop n rest)

abbrev pub saved_codec : Codec SavedMessage
saved_codec = record { to_allocvec = encode_saved; from_bytes = decode_saved }

decode-encode : (m : SavedMessage) (b : Bytes) → encode_saved m ≡ some b → decode_saved b ≡ some m
decode-encode (SavedMessage.contact m) b h = absurd (ground arith)
decode-encode (SavedMessage.channel m) b h =
    let rest : Bytes = m.snr ∷ m.idx ∷ m.path_len ∷ m.text_ty ∷ m.timestamp ∷ m.body in
    let same : length m.reserved ∷ m.reserved ++ rest ≡ b = ground arith in
    rw (sym same) (rw (take-length-append m.reserved rest, drop-length-append m.reserved rest) refl)

pub saved_codec-IsFaithful : IsFaithful saved_codec
saved_codec-IsFaithful = record { from_bytes-to_allocvec = decode-encode }

abbrev pub channel_message : ℕ → Bytes → SavedMessage
channel_message timestamp body = SavedMessage.channel (record {
  snr = 0;
  reserved = 0 ∷ 0 ∷ [];
  idx = 1;
  path_len = 0;
  text_ty = 0;
  timestamp = timestamp;
  body = body;
})

-- Codecs of which nothing is written.
abbrev no_codec : {T : Type 0} → Codec T
no_codec = record { to_allocvec = λ _. none; from_bytes = λ _. none }

-- A signature in progress is its noise and its data.
abbrev pub host : Host ℕ (List Bytes) Bytes
host = record {
  queue_storage = list_queue;
  message_codec = saved_codec;
  channel_codec = no_codec;
  var_codec = no_codec;
  advert_codec = no_codec;
  ser = λ _. 7 ∷ [];
  channel_hash = λ k. 3;
  random = some (9 ∷ []);
  chat_node_flags = 129;
  make_advert = λ t a r. r;
  encode_login = λ t p. p;
  encode_request = λ r. r.body;
  encode_trace = λ t. some t.tag;
  decode_import = λ b. none;
  decode_login_response = λ b. some (0, 3);
  timeout_along = λ p path. 100;
  path_len = λ p. 1;
  secret_key = 1 ∷ 2 ∷ [];
  sign_incremental = λ noise. noise;
  absorb = λ k b. k ++ b;
  sign = λ k. k;
  uptime_secs = 0;
}

abbrev pub session : Session (List Bytes) Bytes
session = record {
  name = 110 ∷ [];
  queue = [];
  clock = 5000000;
  message_log = record { storage = []; latest = [] };
  signature_in_progress = none;
  login_in_progress = none;
  advert_data = record {
    key = record { dir = 1; hash = 2 };
    dir = 1;
    value = record { flags = 0; latitude = none; longitude = none; name = none };
  };
}

-- Nothing is in the empty queue.
pub list_queue-Written : Written saved_codec [] (list_queue-IsLawful.items [])
unfolding list_queue-IsLawful Written
list_queue-Written = tt
