-- ===== src/Companion/Build/Channels.antt =====
-- The channel storage behind `add_channels`.
use chiyocore.Base.{ℕ, ◌≡◌, ◌<◌, ap, ◌∙◌, arith, subst, some}
use chiyocore.Base.Bytes.{Bytes}
use chiyocore.Hal.Outcome.{ok, ◌>>◌, >>=-ok, unwrapped-ok}
use chiyocore.Hal.MapStore.{MapStore}
use chiyocore.Hal.Filesystem.{codes}
use chiyocore.Hal.Filesystem.Objects.{Codec}
use chiyocore.Storage.Channels.{Channel, State, get, insert}
use chiyocore.Storage.Channels.Lookup.{IsSorted}
use chiyocore.Storage.Channels.Writes.{Has, insert-Has}
use chiyocore.Companion.Build.{ChannelKeys, insert_or_panic, public_channel, tagged, add_channels}

module _ {S : Type 0} (m : MapStore S) (xxh32 : Bytes → ℕ → ℕ) (c : Codec Channel) where
  insert_or_panic-Has :
      (channel : Channel) (w w' : State m xxh32 c)
      → IsSorted w.0.cache
      → insert_or_panic m xxh32 c channel w ≡ (ok tt, w')
      → Has channel w.0 w'.0
  unfolding insert_or_panic
  insert_or_panic-Has channel w w' sorted h =
      let done = unwrapped-ok (insert m xxh32 c channel) w h in
      subst (λ (v : State m xxh32 c). Has channel w.0 v.0) (ap (λ p. p.1) done)
        (insert-Has m xxh32 c channel w.0 w.1 sorted (ap (λ p. p.0) done))

  module _ (public : ChannelKeys) (from_hashtag : Bytes → ChannelKeys) where
    -- When `add_channels` returns, over a sorted storage, the indices 0, 1 and 2 find its channels,
    -- whatever the app had put there, and every other index what it found before.
    pub add_channels-get :
        (w w' : State m xxh32 c)
        → IsSorted w.0.cache
        → add_channels m xxh32 c public from_hashtag w ≡ (ok tt, w')
        → (get 0 w'.0 ≡ some (public_channel m xxh32 c public from_hashtag))
          × (get 1 w'.0 ≡ some (tagged m xxh32 c public from_hashtag 1 (codes "#test")))
          × (get 2 w'.0 ≡ some (tagged m xxh32 c public from_hashtag 2 (codes "#emitestcorner")))
          × ((i : ℕ) → 2 < i → get i w'.0 ≡ get i w.0)
    unfolding add_channels
    add_channels-get w w' sorted h =
        let ins = insert_or_panic m xxh32 c in
        let zeroth = public_channel m xxh32 c public from_hashtag in
        let one : Channel = tagged m xxh32 c public from_hashtag 1 (codes "#test") in
        let two : Channel = tagged m xxh32 c public from_hashtag 2 (codes "#emitestcorner") in
        let (_, w2, h2, last) = >>=-ok (ins zeroth >> ins one) (λ _. ins two) w h in
        let (_, w1, first, second) = >>=-ok (ins zeroth) (λ _. ins one) w h2 in
        let (sorted1, get1) = insert_or_panic-Has zeroth w w1 sorted first in
        let (sorted2, get2) = insert_or_panic-Has one w1 w2 sorted1 second in
        let (_, get3) = insert_or_panic-Has two w2 w' sorted2 last in
        (
          get3 0 ∙ get2 0 ∙ get1 0,
          get3 1 ∙ get2 1,
          get3 2,
          λ i far. ground (arith, get1 i, get2 i, get3 i),
        )
