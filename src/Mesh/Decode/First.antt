-- ===== src/Mesh/Decode/First.antt =====
-- Which contact `decode_contact_message` takes a message to be from: its loop beside a search of the
-- whole cache.
use chiyocore.Base.{
  ℕ, Bool, suc, ◌<◌, ◌≡◌, refl, true, false, ◌&&◌, Option, none, some, List, [], ◌∷◌, arith, All,
  if◌then◌else◌, drop, Bool-cases, Option-cases, inl, inr,
}
use chiyocore.Base.Bytes.{Bytes, cmp, starts_with}
use Prim.Native.Nat.Ordering.{lt}
use chiyocore.Storage.Contacts.{CachedContact}
use chiyocore.Storage.Contacts.Prefix.{IsSorted, first_match, find_idx-first_match}
use chiyocore.Storage.KeyCache.{KeyCache, get_key, IsValid, get_key_lem}
use chiyocore.Mesh.Types.{Env, EncryptedMessage, no_known_contact}
use chiyocore.Mesh.Monad.{Result, ok, err, panicked}
use chiyocore.Mesh.Decode.{has_hash, open_with, try_contacts, decode_contact}

-- The key's first byte is greater.
abbrev IsAbove : ℕ → Bytes → Type 0
IsAbove hash [] = ⊥
IsAbove hash (b ∷ _) = hash < b

IsAbove-next : (hash : ℕ) (k k' : Bytes) → IsAbove hash k → cmp k k' ≡ lt → IsAbove hash k'
unfolding cmp
IsAbove-next hash [] k' a l = absurd a
IsAbove-next hash (x ∷ xs) [] a l = absurd (ground arith)
IsAbove-next hash (x ∷ xs) (y ∷ ys) a l = ground arith

IsAbove-after :
    (hash : ℕ) (k k' : Bytes)
    → has_hash hash k ≡ true
    → cmp k k' ≡ lt
    → has_hash hash k' ≡ false
    → IsAbove hash k'
unfolding cmp
IsAbove-after hash [] k' h l n = absurd (ground arith)
IsAbove-after hash (x ∷ xs) [] h l n = absurd (ground arith)
IsAbove-after hash (x ∷ xs) (y ∷ ys) h l n = ground arith

IsAbove-other : (hash : ℕ) (k : Bytes) → IsAbove hash k → has_hash hash k ≡ false
IsAbove-other hash [] a = absurd a
IsAbove-other hash (x ∷ xs) a = ground arith

starts_with-has_hash : (hash : ℕ) (k : Bytes) → starts_with k (hash ∷ []) ≡ has_hash hash k
unfolding starts_with
starts_with-has_hash hash [] = refl
starts_with-has_hash hash (x ∷ xs) = ground arith

module _ {P S : Type 0} (e : Env P S) where
  -- Whether the search ends at the contact: its key begins with the hash, and its shared key verifies
  -- the message or cannot be computed.
  abbrev pub ends_at : ℕ → Bytes → Bytes → Bool
  ends_at hash body key =
      has_hash hash key && elim (e.dh key) [ none ↦ true | some k ↦ e.verify k body ]

  -- The first contact of the cache at which the search ends.
  abbrev pub find_sender : ℕ → Bytes → List (CachedContact P) → Option (CachedContact P)
  find_sender hash body [] = none
  find_sender hash body (c ∷ cs) =
      if ends_at hash body c.key then some c else find_sender hash body cs

  abbrev pub decoded_by :
      Bytes → Option (CachedContact P) → Result (Option (CachedContact P × Bytes))
  decoded_by body none = err no_known_contact
  decoded_by body (some c) = elim (e.dh c.key) [ none ↦ panicked | some k ↦ open_with e c k body ]

  find_sender-none :
      (hash : ℕ) (body : Bytes) (cs : List (CachedContact P))
      → All (λ d. IsAbove hash d.key) cs
      → find_sender hash body cs ≡ none
  find_sender-none hash body [] a = refl
  find_sender-none hash body (c ∷ cs) a =
      ground (arith, IsAbove-other hash c.key a.0, find_sender-none hash body cs a.1)

  All-IsAbove :
      (hash : ℕ) (k : Bytes) (cs : List (CachedContact P))
      → IsAbove hash k
      → All (λ d. cmp k d.key ≡ lt) cs
      → All (λ d. IsAbove hash d.key) cs
  All-IsAbove hash k [] a l = tt
  All-IsAbove hash k (d ∷ ds) a l = (IsAbove-next hash k d.key a l.0, All-IsAbove hash k ds a l.1)

  -- What is claimed of the loop over `cs`.
  abbrev Finds : ℕ → Bytes → List (CachedContact P) → List (CachedContact P) → KeyCache → Type 0
  Finds hash body rest cs cache =
      ((try_contacts e hash body rest cache).0 ≡ decoded_by body (find_sender hash body cs))
      × IsValid e.dh (try_contacts e hash body rest cache).1

  try_contacts_step :
      (hash : ℕ) (body : Bytes) (c : CachedContact P) (cs : List (CachedContact P))
      (cache : KeyCache)
      → has_hash hash c.key ≡ true
      → IsValid e.dh cache
      → Finds hash body cs cs (get_key e.dh c.key cache).1
      → Finds hash body (c ∷ cs) (c ∷ cs) cache
  unfolding try_contacts
  try_contacts_step hash body c cs cache same v rest =
      let (derived, valid, _) = get_key_lem e.dh c.key cache v in
      elim (Option-cases (e.dh c.key)) [
        | inl weak ↦ ground arith
        | inr (key, exchanged) ↦ elim (Bool-cases (e.verify key body)) [
          | inl good ↦ ground arith
          | inr bad ↦ ground arith
        ]
      ]

  -- The loop, behind a contact with the hash.
  try_contacts_after :
      (hash : ℕ) (body k : Bytes) (cs : List (CachedContact P)) (cache : KeyCache)
      → has_hash hash k ≡ true
      → All (λ d. cmp k d.key ≡ lt) cs
      → IsSorted cs
      → IsValid e.dh cache
      → Finds hash body cs cs cache
  unfolding try_contacts
  try_contacts_after hash body k [] cache h l s v = (refl, v)
  try_contacts_after hash body k (c ∷ cs) cache h l s v = elim (Bool-cases (has_hash hash c.key)) [
    | inl same ↦
        let (derived, valid, _) = get_key_lem e.dh c.key cache v in
        try_contacts_step hash body c cs cache same v
          (try_contacts_after hash body c.key cs (get_key e.dh c.key cache).1 same s.0 s.1 valid)
    | inr other ↦
        let above = IsAbove-after hash k c.key h l.0 other in
        let nobody = find_sender-none hash body cs (All-IsAbove hash c.key cs above s.0) in
        ground arith
  ]

  -- The loop, from the first contact with the hash on.
  try_contacts_from :
      (hash : ℕ) (body : Bytes) (cs : List (CachedContact P)) (cache : KeyCache) (i : ℕ)
      → first_match (hash ∷ []) cs ≡ some i
      → IsSorted cs
      → IsValid e.dh cache
      → Finds hash body (drop i cs) cs cache
  try_contacts_from hash body [] cache i m s v = absurd (ground arith)
  try_contacts_from hash body (c ∷ cs) cache i m s v = elim (Bool-cases (has_hash hash c.key)) [
    | inl same ↦
        let (derived, valid, _) = get_key_lem e.dh c.key cache v in
        let here : i ≡ 0 = ground (arith, starts_with-has_hash hash c.key) in
        rw here (
          try_contacts_step hash body c cs cache same v
            (try_contacts_after hash body c.key cs (get_key e.dh c.key cache).1 same s.0 s.1 valid))
    | inr other ↦ elim (Option-cases (first_match (hash ∷ []) cs)) [
      | inl nowhere ↦ absurd (ground (arith, starts_with-has_hash hash c.key))
      | inr (j, later) ↦
          let past : i ≡ suc j = ground (arith, starts_with-has_hash hash c.key) in
          let rest = try_contacts_from hash body cs cache j later s.1 v in rw past (rw other rest)
    ]
  ]

  find_sender-first_match :
      (hash : ℕ) (body : Bytes) (cs : List (CachedContact P))
      → first_match (hash ∷ []) cs ≡ none
      → find_sender hash body cs ≡ none
  find_sender-first_match hash body [] m = refl
  find_sender-first_match hash body (c ∷ cs) m =
      ground (arith, starts_with-has_hash hash c.key, find_sender-first_match hash body cs)

  -- Over a sorted contact cache and a valid cache of shared keys, a message for another node is passed
  -- over with `Ok(None)`. Any other is answered as a search of the whole contact cache answers it: by
  -- the first contact whose key begins with the source hash and whose shared key verifies the message
  -- or cannot be computed. Where it verifies, the message is decrypted with that key's first 16 bytes
  -- or refused with `DecryptFailure`; where the key exchange fails, the decoding panics; and it answers
  -- `NoKnownContact` if there is no such contact. The cache of shared keys stays valid.
  pub decode_contact-find_sender :
      (payload : EncryptedMessage) (contacts : List (CachedContact P)) (cache : KeyCache)
      → IsSorted contacts
      → IsValid e.dh cache
      → ((decode_contact e payload contacts cache).0 ≡ (
          if has_hash payload.destination_hash e.pubkey
          then decoded_by payload.body (find_sender payload.source_hash payload.body contacts)
          else ok none))
        × IsValid e.dh (decode_contact e payload contacts cache).1
  unfolding decode_contact
  decode_contact-find_sender payload contacts cache s v =
      let hash = payload.source_hash in
      elim (Bool-cases (has_hash payload.destination_hash e.pubkey)) [
        | inr elsewhere ↦ rw elsewhere (refl, v)
        | inl ours ↦ rw ours (
            rw (find_idx-first_match (hash ∷ []) contacts s)
              (elim (Option-cases (first_match (hash ∷ []) contacts)) [
                | inl nobody ↦
                    rw nobody
                      (rw (find_sender-first_match hash payload.body contacts nobody) (refl, v))
                | inr (i, found) ↦
                    rw found (try_contacts_from hash payload.body contacts cache i found s v)
              ]))
      ]
