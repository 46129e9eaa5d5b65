-- ===== src/Hal/Keys.antt =====
-- `DirKey` and `FileKey` of firmware/chiyo-hal/src/storage.rs. The hash function of the crate
-- xxhash_rust is the parameter `xxh32`, of the bytes and the seed.
use chiyocore.Base.{
  ℕ, ◌<◌, ◌≡◌, Option, none, some, ◌++◌, arith, ltb, if◌then◌else◌, length, take, drop, ◌==◌, ◌&&◌,
  Bool,
}
use chiyocore.Base.Bytes.{Bytes, le32, of_le, of_le-le32}

-- `HASH_SEED`, written 10_01_10_01.
abbrev pub hash_seed : ℕ
hash_seed = 10_01_10_01

abbrev pub DirKey : Type 0
DirKey = ℕ

pub record FileKey : Type 0 where
  pub dir : ℕ
  pub hash : ℕ

abbrev pub key_eq : FileKey → FileKey → Bool
key_eq a b = (a.dir == b.dir) && (a.hash == b.hash)

module _ (xxh32 : Bytes → ℕ → ℕ) where
  unfoldable pub const_new : Bytes → DirKey
  const_new key = xxh32 key hash_seed

  unfoldable pub file : DirKey → Bytes → FileKey
  file d key = record { dir = d; hash = xxh32 key hash_seed }

-- `Key::serialize_into`: the bytes written to the front of a buffer, and their number; `none` is
-- `BufferTooSmall`.
unfoldable pub serialize_into : FileKey → ℕ → Option (Bytes × ℕ)
serialize_into k buffer = if ltb buffer 8 then none else some (le32 k.dir ++ le32 k.hash, 8)

unfoldable pub deserialize_from : Bytes → Option (FileKey × ℕ)
deserialize_from buffer =
    if ltb (length buffer) 8
    then none
    else some (record { dir = of_le (take 4 buffer); hash = of_le (take 4 (drop 4 buffer)) }, 8)

-- A key of two 32-bit numbers reads back from what it wrote, whatever stands behind it.
pub deserialize_from-serialize_into_front :
    (k : FileKey) (buffer : ℕ) (rest out : Bytes) (n : ℕ)
    → k.dir < 4294967296
    → k.hash < 4294967296
    → serialize_into k buffer ≡ some (out, n)
    → (deserialize_from (out ++ rest) ≡ some (k, n)) × (length out ≡ n)
unfolding serialize_into deserialize_from le32
deserialize_from-serialize_into_front k buffer rest out n d h e =
    ground (arith, of_le-le32 k.dir d, of_le-le32 k.hash h)
