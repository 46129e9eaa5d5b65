-- ===== src/Storage/Channels/Writes.antt =====
-- `insert` of the channel storage: what the indices find behind it.
use chiyocore.Base.{
  ℕ, ◌≡◌, refl, sym, ap, ◌∙◌, arith, Bool, true, false, ◌==◌, Bool-cases, Option, none, some, inl,
  inr, if◌then◌else◌,
}
use chiyocore.Base.Bytes.{Bytes, eq_of_bytes_eq}
use chiyocore.Hal.Outcome.{Outcome, ok, err, panicked, blocked}
use chiyocore.Hal.MapStore.{MapStore}
use chiyocore.Hal.Filesystem.{Fs}
use chiyocore.Hal.Filesystem.Objects.{Codec}
use chiyocore.Storage.Channels.{
  Channel, ChannelStorage, channel_eq, get, remember, is_stored, write_channel, insert,
  remember_if_ok,
}
use chiyocore.Storage.Channels.Lookup.{IsSorted, cache_insert-IsSorted_idx, get_cached-cache_insert}

abbrev parts : Bytes → Bytes → ℕ → ℕ → Channel
parts name key hash idx = record { name = name; key = key; hash = hash; idx = idx }

eq_of_channel_eq : (a b : Channel) → channel_eq a b ≡ true → a ≡ b
eq_of_channel_eq a b h =
    ap (λ n. parts n a.key a.hash a.idx) (eq_of_bytes_eq a.name b.name (ground arith))
    ∙ ap (λ k. parts b.name k a.hash a.idx) (eq_of_bytes_eq a.key b.key (ground arith))
    ∙ ap (λ x. parts b.name b.key x a.idx) (ground arith)
    ∙ ap (λ x. parts b.name b.key b.hash x) (ground arith)

-- The storage with a channel put in: its index finds it, and the others what they found.
abbrev pub Has : Channel → ChannelStorage → ChannelStorage → Type 0
Has c s s' = IsSorted s'.cache × ((i : ℕ) → get i s' ≡ (if c.idx == i then some c else get i s))

module _ {S : Type 0} (m : MapStore S) (xxh32 : Bytes → ℕ → ℕ) (c : Codec Channel) where
  -- A channel that is stored as it is.
  stored-Has :
      (channel : Channel) (s : ChannelStorage)
      → IsSorted s.cache
      → is_stored m xxh32 c channel s ≡ true
      → Has channel s s
  stored-Has channel s sorted stored = (
    sorted,
    λ i. elim (Bool-cases (channel.idx == i)) [
      | inl here ↦ rw here (finds (get channel.idx s) refl stored i here)
      | inr other ↦ rw other refl
    ],
  )
    where
      finds :
          (o : Option Channel)
          → get channel.idx s ≡ o
          → (elim o [ none ↦ false | some existing ↦ channel_eq channel existing ]) ≡ true
          → (i : ℕ) → (channel.idx == i) ≡ true
          → get i s ≡ some channel
      finds none e h i here = absurd (ground arith)
      finds (some existing) e h i here =
          ap (λ j. get j s) (sym (same_idx here))
          ∙ e
          ∙ ap some (sym (eq_of_channel_eq channel existing h))
        where
          same_idx : (channel.idx == i) ≡ true → channel.idx ≡ i
          same_idx h = ground arith

  remember_if_ok-Has :
      (channel : Channel) (s : ChannelStorage) (r : Outcome (Unit {0}) × Fs S)
      → IsSorted s.cache
      → (remember_if_ok m xxh32 c channel s r).0 ≡ ok tt
      → Has channel s (remember_if_ok m xxh32 c channel s r).1.0
  unfolding remember_if_ok remember
  remember_if_ok-Has channel s (ok u, fs) sorted h = (
    cache_insert-IsSorted_idx channel s.cache sorted,
    λ i. get_cached-cache_insert channel i s.cache sorted,
  )
  remember_if_ok-Has channel s (err x, fs) sorted h = absurd (ground arith)
  remember_if_ok-Has channel s (panicked, fs) sorted h = absurd (ground arith)
  remember_if_ok-Has channel s (blocked, fs) sorted h = absurd (ground arith)

  -- After a successful `insert` into a sorted storage the cache is sorted, the index of the channel finds
  -- it, and every other index what it found before.
  pub insert-Has :
      (channel : Channel) (s : ChannelStorage) (fs : Fs S)
      → IsSorted s.cache
      → (insert m xxh32 c channel (s, fs)).0 ≡ ok tt
      → Has channel s (insert m xxh32 c channel (s, fs)).1.0
  unfolding insert
  insert-Has channel s fs sorted h = go (is_stored m xxh32 c channel s) refl h
    where
      go :
          (b : Bool)
          → is_stored m xxh32 c channel s ≡ b
          → (if b
              then (ok tt, (s, fs))
              else remember_if_ok m xxh32 c channel s (write_channel m xxh32 c channel fs)).0
            ≡ ok tt
          → Has channel s
              (if b
                then (ok tt, (s, fs))
                else remember_if_ok m xxh32 c channel s (write_channel m xxh32 c channel fs)).1.0
      go true stored h = stored-Has channel s sorted stored
      go false new h = remember_if_ok-Has channel s (write_channel m xxh32 c channel fs) sorted h
