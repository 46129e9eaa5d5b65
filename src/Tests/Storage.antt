-- ===== src/Tests/Storage.antt =====
-- The stores and the windows of hashes at concrete inputs.
use chiyocore.Base.{◌↔◌, ℕ, ◌≡◌, ◌≢◌, refl, true, false, none, some, List, [], ◌∷◌, arith, ◌⊎◌}
use chiyocore.Base.Bytes.{Bytes, bytes_eq, cmp}
use chiyocore.Hal.Outcome.{panicked, Outcome, ok}
use chiyocore.Hal.Filesystem.{Fs}
use chiyocore.Storage.HashLog.{HashLog, push, contains_hash}
use chiyocore.Storage.HashLog.Window
use chiyocore.Storage.HashLog.Window.{push-IsValid, push-take, push-push_all_seen, push_all}
use chiyocore.Storage.Messages.{SavedMessage, PayloadType, PacketHeader, RouteType, saved_preimage}
use chiyocore.Storage.Messages.Identity.{identity, saved_preimage_iff}
use chiyocore.Storage.Contacts
use chiyocore.Storage.Contacts.{
  Contact, CachedContact, find_idx, fast_get, from_full, insert, write_contact, full_get, delete,
  contact_key, cache_if_ok,
}
use chiyocore.Storage.Contacts.Prefix
use chiyocore.Storage.Contacts.Prefix.{first_match, find_idx-first_match}
use chiyocore.Storage.Contacts.Writes.{insert-full_get}
use chiyocore.Storage.MessageLog.{MessageLog}
use chiyocore.Storage.MessageLog.Fifo.{Op, Simulated, run, is_push, run-Step}
use chiyocore.Tests.Host.{
  list_queue, list_queue-IsLawful, saved_codec, saved_codec-IsFaithful, channel_message,
  list_queue-Written,
}
use chiyocore.Storage.Channels
use chiyocore.Storage.Channels.{Channel, ChannelStorage, get_cached, get_by_hash, remember}
use chiyocore.Storage.Channels.Lookup.{remember_stale, IsIndexed}
use chiyocore.Tests.World.{
  Flash, flash_map, flash_map-IsLawful, fresh_fs, hash, contact_codec, contact_codec-IsFaithful,
}

abbrev one : Bytes
one = 1 ∷ []

abbrev two : Bytes
two = 2 ∷ []

abbrev log : HashLog
log = two ∷ []

log-IsValid : Window.IsValid 32 log
unfolding contains_hash
log-IsValid = record { bounded = omega arith; distinct = (refl, tt) }

push-push_all_seen_example :
    push 32 one (push_all 32 (two ∷ (3 ∷ []) ∷ []) (push 32 one log).0)
    ≡ (push_all 32 (two ∷ (3 ∷ []) ∷ []) (push 32 one log).0, false)
push-push_all_seen_example =
    push-push_all_seen 32 one (two ∷ (3 ∷ []) ∷ []) log (omega arith) log-IsValid
      (unfold contains_hash bytes_eq in refl) (omega arith)

abbrev received : ℕ → Bytes → SavedMessage
received path_len body = SavedMessage.contact (record {
  snr = 0;
  reserved = [];
  pk_prefix = 1 ∷ 2 ∷ 3 ∷ 4 ∷ 5 ∷ 6 ∷ [];
  path_len = path_len;
  text_ty = 0;
  timestamp = 1000;
  signature = none;
  body = body;
})

saved_preimage_iff_example :
    (saved_preimage (received 1 one) ≡ saved_preimage (received 2 one))
    ↔ (identity (received 1 one) ≡ identity (received 2 one))
saved_preimage_iff_example =
    saved_preimage_iff (received 1 one) (received 2 one) (omega arith, refl) (omega arith, refl)

abbrev header_bytes : PacketHeader → Bytes
header_bytes _ = 9 ∷ []

abbrev text_header : PacketHeader
text_header = record { payload_type = PayloadType.txt_msg; route_type = RouteType.flood }

abbrev ada : CachedContact ℕ
ada = record { key = 1 ∷ 5 ∷ []; path = none }

abbrev bob : CachedContact ℕ
bob = record { key = 2 ∷ 5 ∷ []; path = some 3 }

abbrev cache : List (CachedContact ℕ)
cache = ada ∷ bob ∷ []

cache-IsSorted : Prefix.IsSorted cache
unfolding cmp
cache-IsSorted = ((refl, tt), (tt, tt))

find_idx-first_match_example : find_idx two cache ≡ first_match two cache
find_idx-first_match_example = find_idx-first_match two cache cache-IsSorted

abbrev eve : Contact ℕ
eve = record {
  key = 1 ∷ 9 ∷ [];
  name = 69 ∷ [];
  path_to = none;
  flags = 1;
  latitude = 0;
  longitude = 0;
  last_heard = 5;
}

abbrev inserted : Outcome (Unit {0}) × (List (CachedContact ℕ) × Fs Flash)
inserted = insert flash_map hash contact_codec eve (cache, fresh_fs)

insert-full_get_example :
    ((inserted.0 ≡ ok tt)
      × (full_get flash_map hash contact_codec eve.key inserted.1.1 ≡ (ok (some eve), inserted.1.1))
      × (inserted.1.0 ≡ Contacts.cache_insert (from_full eve) cache))
    ⊎ ((inserted.0 ≢ ok tt) × (inserted.1.0 ≡ cache))
insert-full_get_example =
    insert-full_get flash_map hash contact_codec flash_map-IsLawful contact_codec-IsFaithful eve
      cache inserted.1.0 fresh_fs inserted.1.1 inserted.0 (λ bytes e. ground arith) refl

abbrev public : Channel
public = record { name = one; key = two; hash = 17; idx = 0 }

abbrev private : Channel
private = record { name = two; key = one; hash = 18; idx = 0 }

abbrev channels : ChannelStorage
channels = Channels.of_cache (public ∷ [])

remember_stale_example :
    (get_by_hash 17 (remember private channels) ≡ some private)
    × (¬ IsIndexed (remember private channels))
remember_stale_example =
    remember_stale public private channels (tt, tt) (unfold Channels.hashes in refl)
      (λ e. omega (arith, e))

abbrev message_log : MessageLog (List Bytes)
message_log = record { storage = []; latest = [] }

abbrev push_first : Op
push_first = Op.push_op (channel_message 5 (72 ∷ []))

run-Step_example :
    ((is_push push_first ≡ true)
      × ((run list_queue saved_codec (λ b. b) push_first message_log).0 ≡ panicked))
    ⊎ Simulated list_queue list_queue-IsLawful saved_codec saved_codec-IsFaithful
        (λ b. b)
        push_first
        message_log
        []
run-Step_example =
    run-Step list_queue list_queue-IsLawful saved_codec saved_codec-IsFaithful (λ b. b) push_first
      message_log [] (list_queue-Written, omega arith)
