-- ===== src/Storage/Messages/Identity.antt =====
-- Which messages have the same hashed bytes.
use chiyocore.Base.{
  ◌↔◌, ◌⊎◌, inl, inr, ℕ, ◌<◌, ◌≡◌, ◌≢◌, refl, ap, sym, ◌∙◌, [], ◌∷◌, ◌++◌, length, drop, arith,
}
use chiyocore.Base.Bytes.{Bytes, le32, le32_inj}
use chiyocore.Storage.Messages.{
  SavedMessage, contact_preimage, channel_preimage, saved_preimage, PacketHeader, PayloadType,
  trace, packet_preimage, trace_bytes,
}

-- What tells two saved messages apart.
pub data Identity : Type 0 where
  from_contact : Bytes → ℕ → Bytes → Identity
  in_channel : ℕ → ℕ → Bytes → Identity

abbrev pub identity : SavedMessage → Identity
identity (SavedMessage.contact c) = Identity.from_contact c.pk_prefix c.timestamp c.body
identity (SavedMessage.channel c) = Identity.in_channel c.idx c.timestamp c.body

-- The fields have the widths of their types.
abbrev pub IsSized : SavedMessage → Type 0
IsSized (SavedMessage.contact c) = (c.timestamp < 4294967296) × (length c.pk_prefix ≡ 6)
IsSized (SavedMessage.channel c) = c.timestamp < 4294967296

append_inj :
    (xs xs' ys ys' : Bytes)
    → length xs ≡ length xs'
    → xs ++ ys ≡ xs' ++ ys'
    → (xs ≡ xs') × (ys ≡ ys')
append_inj [] [] ys ys' l e = (refl, e)
append_inj [] (x ∷ xs') ys ys' l e = absurd (omega arith)
append_inj (x ∷ xs) [] ys ys' l e = absurd (omega arith)
append_inj (x ∷ xs) (x' ∷ xs') ys ys' l e = ground (arith, append_inj xs xs' ys ys')

contact_preimage-inj :
    (pk pk' : Bytes) (t t' : ℕ) (b b' : Bytes)
    → t < 4294967296
    → t' < 4294967296
    → length pk ≡ length pk'
    → contact_preimage pk t b ≡ contact_preimage pk' t' b'
    → (pk ≡ pk') × (t ≡ t') × (b ≡ b')
unfolding contact_preimage
contact_preimage-inj pk pk' t t' b b' s s' l e =
    let (times, rest) =
      append_inj (0 ∷ le32 t) (0 ∷ le32 t') (pk ++ b) (pk' ++ b') (unfold le32 in refl) e in
    let (keys, bodies) = append_inj pk pk' b b' l rest in
    (keys, le32_inj t t' s s' (ap (drop 1) times), bodies)

channel_preimage-inj :
    (i i' t t' : ℕ) (b b' : Bytes)
    → t < 4294967296
    → t' < 4294967296
    → channel_preimage i t b ≡ channel_preimage i' t' b'
    → (i ≡ i') × (t ≡ t') × (b ≡ b')
unfolding channel_preimage
channel_preimage-inj i i' t t' b b' s s' e =
    let (front, bodies) =
      append_inj (1 ∷ i ∷ le32 t) (1 ∷ i' ∷ le32 t') b b' (unfold le32 in refl) e in
    (ground arith, le32_inj t t' s s' (ap (drop 2) front), bodies)

contact_ne_channel :
    (pk : Bytes) (t : ℕ) (b : Bytes) (i t' : ℕ) (b' : Bytes)
    → contact_preimage pk t b ≢ channel_preimage i t' b'
unfolding contact_preimage channel_preimage
contact_ne_channel pk t b i t' b' = ground arith

-- Two saved messages feed the same bytes to the digest exactly if they are the same message: both
-- direct, with the same key prefix, timestamp and text, or both of one channel, with the same
-- timestamp and text. Path length, text type and signature play no part.
pub saved_preimage_iff :
    (a b : SavedMessage)
    → IsSized a
    → IsSized b
    → (saved_preimage a ≡ saved_preimage b) ↔ (identity a ≡ identity b)
unfolding saved_preimage
saved_preimage_iff (SavedMessage.contact c) (SavedMessage.contact d) s s' = (
  λ e.
      ground
        (arith, contact_preimage-inj c.pk_prefix d.pk_prefix c.timestamp d.timestamp c.body d.body),
  λ e. ground arith,
)
saved_preimage_iff (SavedMessage.contact c) (SavedMessage.channel d) s s' = (
  λ e. absurd (contact_ne_channel c.pk_prefix c.timestamp c.body d.idx d.timestamp d.body e),
  λ e. ground arith,
)
saved_preimage_iff (SavedMessage.channel c) (SavedMessage.contact d) s s' = (
  λ e. absurd (contact_ne_channel d.pk_prefix d.timestamp d.body c.idx c.timestamp c.body (sym e)),
  λ e. ground arith,
)
saved_preimage_iff (SavedMessage.channel c) (SavedMessage.channel d) s s' = (
  λ e. ground (arith, channel_preimage-inj c.idx d.idx c.timestamp d.timestamp c.body d.body),
  λ e. ground arith,
)

module _ {P : Type 0} (into_bytes : PacketHeader → Bytes) (raw_bytes : P → Bytes) where
  trace_bytes_ne : (t : PayloadType) (p : P) → t ≢ trace → trace_bytes into_bytes raw_bytes t p ≡ []
  unfolding trace_bytes
  trace_bytes_ne trace p h = absurd (h refl)
  trace_bytes_ne _ p h = refl

  trace_bytes_trace :
      (t : PayloadType) (p : P) → t ≡ trace → trace_bytes into_bytes raw_bytes t p ≡ raw_bytes p
  unfolding trace_bytes
  trace_bytes_trace t p h = rw h refl

  trace-cases : (t : PayloadType) → (t ≡ trace) ⊎ (t ≢ trace)
  trace-cases trace = inl refl
  trace-cases _ = inr (λ e. ground arith)

  -- Two packets with the same header and payload that came over two paths feed the same bytes to the
  -- digest exactly if they are no traces or the bytes of their paths are the same.
  pub packet_preimage-path :
      (header : PacketHeader) (payload : Bytes) (p q : P)
      → let over = λ (r : P).
        packet_preimage into_bytes raw_bytes
          (record { header = header; path = r; payload = payload }) in
        (over p ≡ over q) ↔ ((header.payload_type ≢ trace) ⊎ (raw_bytes p ≡ raw_bytes q))
  unfolding packet_preimage
  packet_preimage-path header payload p q =
      let ty = header.payload_type in
      let tail = trace_bytes into_bytes raw_bytes ty in
      let same = λ (e : tail p ≡ tail q). ap (λ t. into_bytes header ++ (payload ++ t)) e in
      (
        λ e. elim (trace-cases ty) [
          | inr other ↦ inl other
          | inl h ↦
              let inner = (append_inj (into_bytes header) (into_bytes header) _ _ refl e).1 in
              let tails : tail p ≡ tail q =
                (append_inj payload payload (tail p) (tail q) refl inner).1 in
              inr (sym (trace_bytes_trace ty p h) ∙ tails ∙ trace_bytes_trace ty q h)
        ],
        λ k. elim (trace-cases ty) [
          | inr other ↦ same (trace_bytes_ne ty p other ∙ sym (trace_bytes_ne ty q other))
          | inl h ↦ elim k [
            | inl other ↦ absurd (other h)
            | inr paths ↦ same (trace_bytes_trace ty p h ∙ paths ∙ sym (trace_bytes_trace ty q h))
          ]
        ],
      )
