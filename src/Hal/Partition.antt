-- ===== src/Hal/Partition.antt =====
-- `FsPartition` of firmware/chiyo-hal/src/storage.rs: flash offsets mapped into one partition.
-- `usize` is the 32-bit word of the target, and a sum wraps at 2^32 as in a release build. A
-- request that passes the guards is handed to the flash driver, which is not modelled: the
-- functions return the request, or `none` for `OutOfBounds`.
use chiyocore.Base.{
  ℕ, ◌+◌, ◌%◌, ◌<◌, ◌≡◌, Bool, ◌&&◌, not, Option, none, some, arith, leb, if◌then◌else◌, length,
}
use chiyocore.Base.Bytes.{Bytes}

abbrev pub u32_mod : ℕ
u32_mod = 4294967296

pub record FsPartition : Type 0 where
  pub partition_size : ℕ
  pub partition_offset : ℕ

-- What the driver is asked to do: addresses of the whole flash.
pub data FlashCall : Type 0 where
  read_range : ℕ → ℕ → FlashCall
  erase_range : ℕ → ℕ → FlashCall
  write_range : ℕ → Bytes → FlashCall

unfoldable pub in_range : FsPartition → ℕ → Bool
in_range p address =
    leb p.partition_offset address
    && leb address ((p.partition_offset + p.partition_size) % u32_mod)

unfoldable pub map_offset : FsPartition → ℕ → Option ℕ
unfolding in_range
map_offset p offset =
    let mapped = (p.partition_offset + offset) % u32_mod in
    if in_range p mapped then some mapped else none

-- The second guard of `read` and `write`.
unfoldable pub check_end : FsPartition → ℕ → ℕ → FlashCall → Option FlashCall
check_end p mapped len call =
    if not (in_range p ((mapped + len) % u32_mod)) then none else some call

-- `ReadNorFlash::read` into a buffer of `len` bytes.
unfoldable pub read : FsPartition → ℕ → ℕ → Option FlashCall
unfolding map_offset check_end
read p offset len = elim (map_offset p offset) [
  | none ↦ none
  | some mapped ↦ check_end p mapped len (FlashCall.read_range mapped len)
]

unfoldable pub write : FsPartition → ℕ → Bytes → Option FlashCall
unfolding map_offset check_end
write p offset bytes = elim (map_offset p offset) [
  | none ↦ none
  | some mapped ↦ check_end p mapped (length bytes) (FlashCall.write_range mapped bytes)
]

erase_to : ℕ → Option ℕ → Option FlashCall
erase_to mapped_start none = none
erase_to mapped_start (some mapped_end) = some (FlashCall.erase_range mapped_start mapped_end)

unfoldable pub erase : FsPartition → ℕ → ℕ → Option FlashCall
unfolding map_offset erase_to
erase p from to = elim (map_offset p from) [
  | none ↦ none
  | some mapped_start ↦ erase_to mapped_start (map_offset p to)
]

-- A partition in the lower half of the address space, as every flash of the target is.
pub record IsPlaced (p : FsPartition) : Type 0 where
  pub placed : p.partition_offset + p.partition_size < 2147483648

-- An offset maps to itself above the partition's start, exactly up to the partition's size: a sum
-- that wraps is refused.
pub map_offset_lem :
    (p : FsPartition) (offset : ℕ)
    → IsPlaced p
    → offset < u32_mod
    → map_offset p offset
      ≡ (if leb offset p.partition_size then some (p.partition_offset + offset) else none)
unfolding map_offset
map_offset_lem p offset h o = ground arith

-- A read is handed on exactly if the bytes from `offset` to `offset + len` lie in the partition, and
-- then at the address above the partition's start; otherwise it is `OutOfBounds`. For every 32-bit
-- offset and every buffer below 2^31 bytes.
pub read_lem :
    (p : FsPartition) (offset len : ℕ)
    → IsPlaced p
    → offset < u32_mod
    → len < 2147483648
    → read p offset len ≡ (
        if leb (offset + len) p.partition_size
        then some (FlashCall.read_range (p.partition_offset + offset) len)
        else none)
unfolding read
read_lem p offset len h o l = ground arith

-- A write is handed on exactly if the bytes from `offset` on lie in the partition, and then at the
-- address above the partition's start; otherwise it is `OutOfBounds`. For every 32-bit offset and
-- every slice below 2^31 bytes.
pub write_lem :
    (p : FsPartition) (offset : ℕ) (bytes : Bytes)
    → IsPlaced p
    → offset < u32_mod
    → length bytes < 2147483648
    → write p offset bytes ≡ (
        if leb (offset + length bytes) p.partition_size
        then some (FlashCall.write_range (p.partition_offset + offset) bytes)
        else none)
unfolding write
write_lem p offset bytes h o l = ground arith

-- An erase is handed on exactly if both of its ends lie in the partition or at its end, and then
-- at the addresses above the partition's start; otherwise it is `OutOfBounds`.
pub erase_lem :
    (p : FsPartition) (from to : ℕ)
    → IsPlaced p
    → from < u32_mod
    → to < u32_mod
    → erase p from to ≡ (
        if leb from p.partition_size && leb to p.partition_size
        then some (FlashCall.erase_range (p.partition_offset + from) (p.partition_offset + to))
        else none)
unfolding erase
erase_lem p from to h f t = ground (arith, map_offset_lem p from h f, map_offset_lem p to h t)
