-- ===== src/Storage/KeyCache.antt =====
-- `SharedKeyCache` of firmware/chiyocore/src/simple_mesh/storage/shared_key_cache.rs. The map of the
-- crate litemap is a function from keys; the key exchange is the parameter `dh`, of the node's secret
-- key and the contact's public key as its identity converts it; it fails on a weak key.
use chiyocore.Base.{Option, none, some, ◌≡◌, if◌then◌else◌, arith, Option-cases, inl, inr}
use chiyocore.Base.Bytes.{Bytes, bytes_eq, bytes_eq_refl, eq_of_bytes_eq}

abbrev pub KeyCache : Type 0
KeyCache = Bytes → Option Bytes

abbrev pub new : KeyCache
new _ = none

abbrev pub insert : Bytes → Bytes → KeyCache → KeyCache
insert k v cache j = if bytes_eq k j then some v else cache j

module _ (dh : Bytes → Option Bytes) where
  -- `get_key`: the shared key, and the cache with it. `none` stands for the panic of the `unwrap` on a
  -- failed exchange, which comes before the cache is written.
  unfoldable pub get_key : Bytes → KeyCache → Option Bytes × KeyCache
  get_key contact cache = elim (cache contact) [
    | some k ↦ (some k, cache)
    | none ↦ elim (dh contact) [
      | some shared_key ↦ (some shared_key, insert contact shared_key cache)
      | none ↦ (none, cache)
    ]
  ]

  -- Every cached key is the one that the exchange gives.
  abbrev pub IsValid : KeyCache → Type 0
  IsValid cache = (j k : Bytes) → cache j ≡ some k → dh j ≡ some k

  -- Over a valid cache `get_key` answers what the key exchange would, keeps the cache valid, and
  -- leaves in it what the exchange gives for the contact.
  pub get_key_lem :
      (contact : Bytes) (cache : KeyCache)
      → IsValid cache
      → ((get_key contact cache).0 ≡ dh contact)
        × IsValid (get_key contact cache).1
        × ((get_key contact cache).1 contact ≡ dh contact)
  unfolding get_key
  get_key_lem contact cache v = elim (Option-cases (cache contact)) [
    | inl miss ↦ elim (Option-cases (dh contact)) [
      | inl weak ↦ (ground arith, λ j k e. ground (arith, v j k), ground arith)
      | inr (key, derived) ↦ (
        ground arith,
        λ j k e. ground (arith, v j k, eq_of_bytes_eq contact j),
        ground (arith, bytes_eq_refl contact),
      )
    ]
    | inr (k, hit) ↦
        (ground (arith, v contact k), λ j k' e. ground (arith, v j k'), ground (arith, v contact k))
  ]
