-- ===== src/Mesh/Decode.antt =====
-- `decode_contact_message` and `decode_channel_message` of
-- firmware/chiyocore/src/simple_mesh/mod.rs. Both read the node and change nothing but the cache of
-- shared keys. A key has 32 bytes, so that `key[0]` is there; on an empty one the code would panic.
pub mod First
use chiyocore.Base.{
  ℕ, Bool, true, false, Option, none, some, List, [], ◌∷◌, get_elem?, drop, take, if◌then◌else◌,
  ◌==◌,
}
use chiyocore.Base.Bytes.{Bytes}
use chiyocore.Storage.Contacts.{CachedContact, find_idx}
use chiyocore.Storage.Channels.{Channel, get_by_hash}
use chiyocore.Storage.KeyCache.{KeyCache, get_key}
use chiyocore.Mesh.Types.{
  Env, Node, EncryptedMessage, GroupText, CompanionError, no_known_contact, no_known_channel,
  verify_failure, decrypt_failure,
}
use chiyocore.Mesh.Monad.{World, Result, ok, err, panicked, Call, ◌>>=◌, state, gets, lift}

-- Whether `key[0]` is the byte.
abbrev pub has_hash : ℕ → Bytes → Bool
has_hash hash [] = false
has_hash hash (b ∷ _) = b == hash

module _ {P S : Type 0} (e : Env P S) where
  -- The body of the loop once a contact has verified.
  abbrev pub open_with : CachedContact P → Bytes → Bytes → Result (Option (CachedContact P × Bytes))
  open_with contact key body = elim (e.decrypt (take 16 key) body) [
    | none ↦ err decrypt_failure
    | some text ↦ ok (some (contact, text))
  ]

  -- The `while let`, from the contact at the index on.
  unfoldable pub try_contacts :
      ℕ
      → Bytes
      → List (CachedContact P)
      → KeyCache
      → Result (Option (CachedContact P × Bytes)) × KeyCache
  try_contacts hash body [] cache = (err no_known_contact, cache)
  try_contacts hash body (c ∷ cs) cache =
      if has_hash hash c.key
      then (let (derived, cache') = get_key e.dh c.key cache in
          let rest = try_contacts hash body cs cache' in
          elim derived [
            | none ↦ (panicked, cache')
            | some key ↦ if e.verify key body then (open_with c key body, cache') else rest
          ])
      else (err no_known_contact, cache)

  unfoldable pub decode_contact :
      EncryptedMessage
      → List (CachedContact P)
      → KeyCache
      → Result (Option (CachedContact P × Bytes)) × KeyCache
  decode_contact payload contacts cache =
      if has_hash payload.destination_hash e.pubkey
      then (elim (find_idx (payload.source_hash ∷ []) contacts) [
        | none ↦ (err no_known_contact, cache)
        | some idx ↦ try_contacts payload.source_hash payload.body (drop idx contacts) cache
      ])
      else (ok none, cache)

  unfoldable pub decode_channel : GroupText → (ℕ → Option Channel) → Result (Channel × Bytes)
  decode_channel payload by_hash = elim (by_hash payload.channel) [
    | none ↦ err no_known_channel
    | some channel ↦
        if e.verify channel.key payload.body
        then (elim (e.decrypt channel.key payload.body) [
          | none ↦ err decrypt_failure
          | some text ↦ ok (channel, text)
        ])
        else err verify_failure
  ]

module _ {P S L : Type 0} (e : Env P S) where
  unfoldable pub decode_contact_message :
      EncryptedMessage → Call (World P S L) (Option (CachedContact P × Bytes))
  decode_contact_message payload = do
    r ← state λ n.
        let (r, cache) = decode_contact e payload n.contacts n.key_cache in
        (r, record n { key_cache = cache })
    lift r

  unfoldable pub decode_channel_message : GroupText → Call (World P S L) (Channel × Bytes)
  decode_channel_message payload = do
    r ← gets λ n. decode_channel e payload (λ hash. get_by_hash hash n.channels)
    lift r
