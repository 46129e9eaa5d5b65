-- ===== src/Builder/Partitions.antt =====
-- The two partitions of the firmware on one flash.
use chiyocore.Base.{
  subst, sym, refl, ◌∙◌, Bool, true, false, none, ℕ, ◌+◌, ◌<◌, ◌≤◌, ◌≡◌, arith, Option, some,
  length, leb, if◌then◌else◌, ◌&&◌,
}
use chiyocore.Base.Bytes.{Bytes}
use chiyocore.Hal.Partition.{
  FsPartition, FlashCall, IsPlaced, u32_mod, read, write, erase, read_lem, write_lem, erase_lem,
}
use chiyocore.Builder.{main_part, log_part}

some-eq : {A : Type 0} {a b : A} → some a ≡ some b → a ≡ b
some-eq h = ground arith

-- What is asked of a partition.
pub data Request : Type 0 where
  read_at : ℕ → ℕ → Request
  write_at : ℕ → Bytes → Request
  erase_between : ℕ → ℕ → Request

abbrev pub serve : FsPartition → Request → Option FlashCall
serve p (read_at offset len) = read p offset len
serve p (write_at offset bytes) = write p offset bytes
serve p (erase_between from to) = erase p from to

-- The numbers are `u32`s, and a buffer is shorter than half the address space.
abbrev pub Word : Request → Type 0
Word (read_at offset len) = (offset < u32_mod) × (len < 2147483648)
Word (write_at offset bytes) = (offset < u32_mod) × (length bytes < 2147483648)
Word (erase_between from to) = (from < u32_mod) × (to < u32_mod)

-- The driver reads, writes or erases the byte at this address.
abbrev pub Reaches : FlashCall → ℕ → Type 0
Reaches (FlashCall.read_range start len) x = (start ≤ x) × (x < start + len)
Reaches (FlashCall.write_range start bytes) x = (start ≤ x) × (x < start + length bytes)
Reaches (FlashCall.erase_range start end) x = (start ≤ x) × (x < end)

-- An address in a partition.
abbrev pub In : FsPartition → ℕ → Type 0
In p x = (p.partition_offset ≤ x) × (x < p.partition_offset + p.partition_size)

-- A call that passed a test.
passed :
    (p : FsPartition) (b : Bool) (call call' : FlashCall) (x : ℕ)
    → (b ≡ true → Reaches call x → In p x)
    → (if b then some call else none) ≡ some call'
    → Reaches call' x
    → In p x
passed p true call call' x inside h reach =
    inside refl (subst (λ c. Reaches c x) (sym (some-eq h)) reach)
passed p false call call' x inside h reach = absurd (ground arith)

serve-inside :
    (p : FsPartition) (r : Request) (call : FlashCall) (x : ℕ)
    → IsPlaced p
    → Word r
    → serve p r ≡ some call
    → Reaches call x
    → In p x
serve-inside p (read_at offset len) call x placed w h =
    passed p (leb (offset + len) p.partition_size) _ call x (λ fits reach. ground arith)
      (sym (read_lem p offset len placed w.0 w.1) ∙ h)
serve-inside p (write_at offset bytes) call x placed w h =
    passed p (leb (offset + length bytes) p.partition_size) _ call x (λ fits reach. ground arith)
      (sym (write_lem p offset bytes placed w.0 w.1) ∙ h)
serve-inside p (erase_between from to) call x placed w h =
    passed p (leb from p.partition_size && leb to p.partition_size) _ call x
      (λ fits reach. ground arith) (sym (erase_lem p from to placed w.0 w.1) ∙ h)

main_part-IsPlaced : IsPlaced main_part
main_part-IsPlaced = record { placed = omega arith }

log_part-IsPlaced : IsPlaced log_part
log_part-IsPlaced = record { placed = omega arith }

-- Whatever is asked of the two partitions, in 32-bit numbers and with buffers below 2^31 bytes: a byte that
-- the driver reads, writes or erases for the filesystem lies above the image of the firmware, which ends
-- at 0x410000, and below every byte that it reads, writes or erases for the message log; and those lie
-- within a flash of 8 MiB.
pub partitions-apart :
    (r q : Request) (a b : FlashCall) (x y : ℕ)
    → Word r
    → Word q
    → serve main_part r ≡ some a
    → serve log_part q ≡ some b
    → Reaches a x
    → Reaches b y
    → (4259840 ≤ x) × (x < y) × (y < 8388608)
partitions-apart r q a b x y v w h k reach reach' =
    let (above, below) = serve-inside main_part r a x main_part-IsPlaced v h reach in
    let (above', below') = serve-inside log_part q b y log_part-IsPlaced w k reach' in
    (above, omega arith, omega arith)
