-- ===== src/Hal/Directory.antt =====
-- `Directory` of firmware/chiyo-hal/src/storage.rs: the index of a directory, stored as a value of
-- the flash map: a count, the directory's key, and the hashes of its files, four bytes each.
use chiyocore.Base.{
  ℕ, ◌+◌, ◌*◌, ◌%◌, ◌≤◌, ◌<◌, ◌≡◌, refl, ap, Bool, false, ◌||◌, Option, none, some, List, [], ◌∷◌,
  ◌++◌, arith, ltb, if◌then◌else◌, length, take, drop, length-append, take_of_length-le, All,
}
use chiyocore.Base.Bytes.{Bytes, bytes_eq, le16, le32, of_le, of_le-le16, of_le-le32}
use chiyocore.Hal.Keys.{FileKey, DirKey}

pub record Directory : Type 0 where
  pub len : ℕ
  pub dir_key : DirKey
  pub entries : List Bytes

-- `slice.contains`.
unfoldable pub contains_entry : Bytes → List Bytes → Bool
contains_entry e [] = false
contains_entry e (x ∷ xs) = bytes_eq x e || contains_entry e xs

unfoldable pub contains : Directory → FileKey → Bool
contains d key = contains_entry (le32 key.hash) d.entries

abbrev pub concat : List Bytes → Bytes
concat [] = []
concat (x ∷ xs) = x ++ concat xs

-- `bytemuck::cast_slice` of bytes to groups of four. What is left over is dropped here; the source
-- casts a multiple of four only.
unfoldable pub cast_slice : Bytes → List Bytes
cast_slice (a ∷ b ∷ c ∷ d ∷ rest) = (a ∷ b ∷ c ∷ d ∷ []) ∷ cast_slice rest
cast_slice _ = []

-- `Value::serialize_into`, into a buffer of `buffer` bytes; `none` is `BufferTooSmall`.
unfoldable pub serialize_into : Directory → ℕ → Option Bytes
serialize_into d buffer =
    if ltb buffer (2 + 4 + length d.entries * 4)
    then none
    else some (le16 d.len ++ le32 d.dir_key ++ concat d.entries)

-- `Value::deserialize_from`, with the number of bytes read. `len * 4` is a product of `u16`s, which
-- wraps in a release build.
unfoldable pub deserialize_from : Bytes → Option (Directory × ℕ)
deserialize_from buffer =
    if ltb (length buffer) 6
    then none
    else let len = of_le (take 2 buffer) in
      let bytes_len = len * 4 % 65536 in
      if ltb (length buffer) (6 + bytes_len)
      then none
      else some (
        record {
          len = len;
          dir_key = of_le (take 4 (drop 2 buffer));
          entries = cast_slice (take bytes_len (drop 6 buffer));
        },
        6 + bytes_len,
      )

-- Every entry is four bytes long.
abbrev pub AreEntries : List Bytes → Type 0
AreEntries = All (λ e. length e ≡ 4)

pub record IsValid (d : Directory) : Type 0 where
  pub counted : d.len ≡ length d.entries
  pub keyed : d.dir_key < 4294967296
  pub grouped : AreEntries d.entries

length-concat : (es : List Bytes) → AreEntries es → length (concat es) ≡ length es * 4
length-concat [] h = refl
length-concat (e ∷ es) h = omega (arith, length-append e (concat es), length-concat es h.1, h.0)

cast_slice-concat : (es : List Bytes) → AreEntries es → cast_slice (concat es) ≡ es
unfolding cast_slice
cast_slice-concat [] h = refl
cast_slice-concat ([] ∷ es) h = absurd (omega arith)
cast_slice-concat ((a ∷ []) ∷ es) h = absurd (omega arith)
cast_slice-concat ((a ∷ b ∷ []) ∷ es) h = absurd (omega arith)
cast_slice-concat ((a ∷ b ∷ c ∷ []) ∷ es) h = absurd (omega arith)
cast_slice-concat ((a ∷ b ∷ c ∷ d ∷ []) ∷ es) h =
    ap (◌∷◌ (a ∷ b ∷ c ∷ d ∷ [])) (cast_slice-concat es h.1)
cast_slice-concat ((a ∷ b ∷ c ∷ d ∷ e ∷ r) ∷ es) h = absurd (omega (arith, h.0))

cast_slice-take :
    (es : List Bytes) (n : ℕ)
    → AreEntries es
    → n ≡ length es * 4
    → cast_slice (take n (concat es)) ≡ es
cast_slice-take es n h e =
    let full : n ≡ length (concat es) = omega (arith, length-concat es h) in
    rw (full, take_of_length-le (length (concat es)) (concat es) (omega arith))
      (cast_slice-concat es h)

-- A valid directory of fewer than 16384 entries reads back whole from the bytes that it wrote. (A buffer
-- of 4096 bytes, as everywhere in the source, holds at most 1022.)
pub deserialize_from-serialize_into :
    (d : Directory) (buffer : ℕ) {out : Bytes}
    → IsValid d
    → length d.entries < 16384
    → serialize_into d buffer ≡ some out
    → deserialize_from out ≡ some (d, length out)
unfolding serialize_into deserialize_from le16 le32
deserialize_from-serialize_into d buffer {out} h small e = ground (
  arith,
  h.counted,
  of_le-le16 d.len (omega (arith, h.counted)),
  of_le-le32 d.dir_key h.keyed,
  length-concat d.entries h.grouped,
  cast_slice-take d.entries (d.len * 4 % 65536) h.grouped (omega (arith, h.counted)),
)

pub cast_slice-AreEntries : (bytes : Bytes) → AreEntries (cast_slice bytes)
unfolding cast_slice
cast_slice-AreEntries [] = tt
cast_slice-AreEntries (a ∷ []) = tt
cast_slice-AreEntries (a ∷ b ∷ []) = tt
cast_slice-AreEntries (a ∷ b ∷ c ∷ []) = tt
cast_slice-AreEntries (a ∷ b ∷ c ∷ d ∷ rest) = (refl, cast_slice-AreEntries rest)

-- What is read has whole entries, also from bytes that nobody wrote as a directory.
pub deserialize_from-AreEntries :
    (bytes : Bytes) (d : Directory) (n : ℕ)
    → deserialize_from bytes ≡ some (d, n)
    → AreEntries d.entries
unfolding deserialize_from
deserialize_from-AreEntries bytes d n h =
    let len = of_le (take 2 bytes) in
    let body = take (len * 4 % 65536) (drop 6 bytes) in
    let e : d.entries ≡ cast_slice body = ground arith in rw e (cast_slice-AreEntries body)

-- What fits a buffer is short.
pub serialize_into-bound :
    (d : Directory) (buffer : ℕ) {out : Bytes}
    → serialize_into d buffer ≡ some out
    → 6 + length d.entries * 4 ≤ buffer
unfolding serialize_into
serialize_into-bound d buffer h = ground arith
