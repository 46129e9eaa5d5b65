-- ===== src/Boot/DefaultChannels.antt =====
-- The channel storage behind the `add_channels` of the start, and behind that of the companion after it.
use chiyocore.Base.{
  ℕ, zero, suc, ◌+◌, ◌≡◌, ◌<◌, ◌≤◌, refl, sym, ap, subst, ◌∙◌, arith, some, List, [], ◌∷◌,
  get_elem?, length,
}
use chiyocore.Base.Bytes.{Bytes}
use chiyocore.Hal.Outcome.{Outcome, ok, err, panicked, blocked, ◌>>◌, >>=-step}
use chiyocore.Hal.MapStore.{MapStore}
use chiyocore.Hal.Filesystem.{codes}
use chiyocore.Hal.Filesystem.Objects.{Codec}
use chiyocore.Storage.Channels.{Channel, State, get, insert}
use chiyocore.Storage.Channels.Lookup.{IsSorted}
use chiyocore.Storage.Channels.Writes.{insert-Has}
use chiyocore.Companion.Build.{ChannelKeys, from_keys, public_channel, tagged}
use chiyocore.Companion.Build
use chiyocore.Companion.Build.Channels.{add_channels-get}
use chiyocore.Boot.{dropped, try_insert, default_channels, add_channels}

module _ {S : Type 0} (m : MapStore S) (xxh32 : Bytes → ℕ → ℕ) (c : Codec Channel) where
  -- Every one of these inserts, one after the other, succeeds.
  abbrev pub Stored : List Channel → State m xxh32 c → Type 0
  Stored [] w = Unit
  Stored (channel ∷ rest) w =
      ((insert m xxh32 c channel w).0 ≡ ok tt) × Stored rest (insert m xxh32 c channel w).1

  dropped-ok :
      (r : Outcome (Unit {0}) × State m xxh32 c) → r.0 ≡ ok tt → dropped m xxh32 c r ≡ (ok tt, r.1)
  dropped-ok (ok u, w) h = refl
  dropped-ok (err x, w) h = absurd (ground arith)
  dropped-ok (panicked, w) h = absurd (ground arith)
  dropped-ok (blocked, w) h = absurd (ground arith)

  some-eq : {a b : Bytes} → some a ≡ some b → a ≡ b
  some-eq h = ground arith

  -- A successful `insert` whose result is dropped.
  try_insert-ok :
      (channel : Channel) (w : State m xxh32 c)
      → (insert m xxh32 c channel w).0 ≡ ok tt
      → try_insert m xxh32 c channel w ≡ (ok tt, (insert m xxh32 c channel w).1)
  unfolding try_insert
  try_insert-ok channel w h = dropped-ok (insert m xxh32 c channel w) h

  module _ (from_hashtag : Bytes → ChannelKeys) where
    -- The channel of a hashtag of the configuration.
    abbrev pub configured : ℕ → Bytes → Channel
    configured idx name = from_keys idx name (from_hashtag name)

    -- The channels of the configuration, numbered from `idx + 1` on.
    abbrev pub numbered : ℕ → List Bytes → List Channel
    numbered idx [] = []
    numbered idx (name ∷ rest) = configured (idx + 1) name ∷ numbered (idx + 1) rest

    -- An index of the configuration finds its channel, any other what it found.
    abbrev pub Numbered : ℕ → List Bytes → State m xxh32 c → State m xxh32 c → Type 0
    Numbered idx names w w' =
        IsSorted w'.0.cache
        × ((i : ℕ) → i ≤ idx → get i w'.0 ≡ get i w.0)
        × ((i : ℕ) → idx + length names < i → get i w'.0 ≡ get i w.0)
        × ((i : ℕ) (name : Bytes)
            → get_elem? names i ≡ some name
            → get (idx + i + 1) w'.0 ≡ some (configured (idx + i + 1) name))

    found_next :
        (idx : ℕ) (n : Bytes) (rest : List Bytes) (w : State m xxh32 c)
        → get (idx + 1) w.0 ≡ some (configured (idx + 1) n)
        → ((i : ℕ) (name : Bytes)
            → get_elem? rest i ≡ some name
            → get (idx + 1 + i + 1) w.0 ≡ some (configured (idx + 1 + i + 1) name))
        → (i : ℕ) (name : Bytes) → get_elem? (n ∷ rest) i ≡ some name
        → get (idx + i + 1) w.0 ≡ some (configured (idx + i + 1) name)
    found_next idx n rest w here later zero name e =
        subst (λ j. get j w.0 ≡ some (configured j name)) (omega arith)
          (here ∙ ap (λ k. some (configured (idx + 1) k)) (some-eq e))
    found_next idx n rest w here later (suc i) name e =
        subst (λ j. get j w.0 ≡ some (configured j name)) (omega arith) (later i name e)

    default_channels-Numbered :
        (idx : ℕ) (names : List Bytes) (w : State m xxh32 c)
        → IsSorted w.0.cache
        → Stored (numbered idx names) w
        → (w' : State m xxh32 c) × (default_channels m xxh32 c from_hashtag idx names w
            ≡ (ok tt, w'))
          × Numbered idx names w w'
    unfolding default_channels
    default_channels-Numbered idx [] w sorted h =
        (w, refl, (sorted, (λ i low. refl), (λ i far. refl), λ i name e. absurd (ground arith)))
    default_channels-Numbered idx (n ∷ rest) w sorted (h, hs) =
        let channel = configured (idx + 1) n in
        let (sorted1, get1) = insert-Has m xxh32 c channel w.0 w.1 sorted h in
        let (w', run, (sorted', low', far', found')) =
          default_channels-Numbered (idx + 1) rest (insert m xxh32 c channel w).1 sorted1 hs in
        (
          w',
          >>=-step (try_insert m xxh32 c channel)
                (λ _. default_channels m xxh32 c from_hashtag (idx + 1) rest) w
                (try_insert-ok channel w h)
              ∙ run,
          (
            sorted',
            (λ i low. low' i (omega (arith, low)) ∙ get1 i ∙ ground (arith, low)),
            (λ i far. far' i (omega (arith, far)) ∙ get1 i ∙ ground (arith, far)),
            found_next idx n rest w' (low' (idx + 1) (omega arith) ∙ get1 (idx + 1) ∙ ground arith)
                found',
          ),
        )

    -- The index 0 finds the public channel, those of the configuration theirs, the others what they found.
    abbrev pub Configured : ChannelKeys → List Bytes → State m xxh32 c → State m xxh32 c → Type 0
    Configured public names w w' =
        (get 0 w'.0 ≡ some (from_keys 0 (codes "public") public))
        × ((i : ℕ) (name : Bytes)
            → get_elem? names i ≡ some name
            → get (i + 1) w'.0 ≡ some (configured (i + 1) name))
        × ((i : ℕ) → length names < i → get i w'.0 ≡ get i w.0)

    -- When every insert of the start succeeds, `add_channels` returns a storage that is sorted again.
    add_channels-Sorted :
        (public : ChannelKeys) (names : List Bytes) (w : State m xxh32 c)
        → IsSorted w.0.cache
        → Stored (from_keys 0 (codes "public") public ∷ numbered 0 names) w
        → (w' : State m xxh32 c) × (add_channels m xxh32 c public from_hashtag names w
            ≡ (ok tt, w'))
          × IsSorted w'.0.cache
          × Configured public names w w'
    unfolding add_channels
    add_channels-Sorted public names w sorted (h, hs) =
        let channel = from_keys 0 (codes "public") public in
        let (sorted1, get1) = insert-Has m xxh32 c channel w.0 w.1 sorted h in
        let (w', run, (sorted', low', far', found')) =
          default_channels-Numbered 0 names (insert m xxh32 c channel w).1 sorted1 hs in
        (
          w',
          >>=-step (try_insert m xxh32 c channel)
                (λ _. default_channels m xxh32 c from_hashtag 0 names) w (try_insert-ok channel w h)
              ∙ run,
          sorted',
          (
            low' 0 (omega arith) ∙ get1 0,
            (λ i name e.
                subst (λ j. get j w'.0 ≡ some (configured j name)) (omega arith) (found' i name e)),
            λ i far. far' i (omega (arith, far)) ∙ get1 i ∙ ground (arith, far),
          ),
        )

    -- When every insert of the start succeeds, `add_channels` returns, index 0 finds the public channel,
    -- the index `i + 1` finds the `i`-th channel of the configuration, and every index above them finds
    -- what it found before. Over a sorted storage.
    pub add_channels-Configured :
        (public : ChannelKeys) (names : List Bytes) (w : State m xxh32 c)
        → IsSorted w.0.cache
        → Stored (from_keys 0 (codes "public") public ∷ numbered 0 names) w
        → (w' : State m xxh32 c) × (add_channels m xxh32 c public from_hashtag names w
            ≡ (ok tt, w'))
          × Configured public names w w'
    add_channels-Configured public names w sorted stored =
        let (w', run, sorted', found) = add_channels-Sorted public names w sorted stored in
        (w', run, found)

    -- When every insert of the start succeeds and then the companion's `add_channels` returns, the indices
    -- 0, 1 and 2 find the companion's channels, also where the configuration has another channel with that
    -- number, and every index from 3 on finds the channel of the configuration with that number, if there
    -- is one. Over a sorted storage.
    pub companion-default_channels :
        (public : ChannelKeys) (names : List Bytes) (w w' : State m xxh32 c)
        → IsSorted w.0.cache
        → Stored (from_keys 0 (codes "public") public ∷ numbered 0 names) w
        → (add_channels m xxh32 c public from_hashtag names
              >> Build.add_channels m xxh32 c public from_hashtag)
            w
          ≡ (ok tt, w')
        → (get 0 w'.0 ≡ some (public_channel m xxh32 c public from_hashtag))
          × (get 1 w'.0 ≡ some (tagged m xxh32 c public from_hashtag 1 (codes "#test")))
          × (get 2 w'.0 ≡ some (tagged m xxh32 c public from_hashtag 2 (codes "#emitestcorner")))
          × ((i : ℕ) (name : Bytes)
              → get_elem? names i ≡ some name
              → 2 ≤ i
              → get (i + 1) w'.0 ≡ some (configured (i + 1) name))
    companion-default_channels public names w w' sorted stored h =
        let (w1, run, sorted1, (zeroth, found, far)) =
          add_channels-Sorted public names w sorted stored in
        let (a, b, d, rest) = add_channels-get m xxh32 c public from_hashtag w1 w' sorted1 (
          sym (
            >>=-step (add_channels m xxh32 c public from_hashtag names)
              (λ _. Build.add_channels m xxh32 c public from_hashtag) w run)
          ∙ h) in
        (a, b, d, λ i name e above. rest (i + 1) (omega (arith, above)) ∙ found i name e)
