-- ===== src/Tests/World.antt =====
-- A flash map, a codec and a node to run the model on.
use chiyocore.Base.{
  ℕ, zero, suc, ◌+◌, ◌≡◌, ◌≢◌, refl, sym, true, false, Option, none, some, [], ◌∷◌, ◌++◌, length,
  take, drop, arith, if◌then◌else◌, ◌*◌, ◌%◌, drop-length-append, take-length-append, Bool-cases,
  inl, inr,
}
use chiyocore.Base.Bytes.{Bytes}
use chiyocore.Hal.Keys.{FileKey, key_eq}
use chiyocore.Hal.MapStore.{MapStore, IsLawful}
use chiyocore.Hal.Filesystem.Objects.{Codec, IsFaithful}
use chiyocore.Hal.Filesystem.{Fs}
use chiyocore.Storage.Contacts.{Contact}

-- A flash that never fails, as a function from keys.
abbrev pub Flash : Type 0
Flash = FileKey → Option Bytes

abbrev pub put : FileKey → Option Bytes → Flash → Flash
put k o s j = if key_eq k j then o else s j

abbrev pub flash_map : MapStore Flash
flash_map = record {
  fetch = λ s b k. some (s k);
  store = λ s n k v. (put k (some v) s, true);
  remove = λ s k. (put k none s, true);
}

key_eq_refl : (k : FileKey) → key_eq k k ≡ true
key_eq_refl k = ground arith

key_eq_ne : (k j : FileKey) → j ≢ k → key_eq k j ≡ false
key_eq_ne k j h = elim (Bool-cases (key_eq k j)) [
  | inl same ↦ absurd (h (ground arith))
  | inr apart ↦ apart
]

pub flash_map-IsLawful : IsLawful flash_map
flash_map-IsLawful = record {
  fetch-store_self = λ s n k v b done fits. rw (key_eq_refl k) refl;
  fetch-store_ne = λ s n k v b j done h. rw (key_eq_ne k j h) refl;
  fetch-remove_self = λ s k b done. rw (key_eq_refl k) refl;
  fetch-remove_ne = λ s k b j done h. rw (key_eq_ne k j h) refl;
}

abbrev pub empty_flash : Flash
empty_flash _ = none

abbrev pub fresh_fs : Fs Flash
fresh_fs = record { inner = empty_flash; locked = false }

-- A hash that tells short names apart.
abbrev pub sum : Bytes → ℕ
sum [] = 7
sum (b ∷ bs) = b + 2 * sum bs

abbrev pub hash : Bytes → ℕ → ℕ
hash bytes seed = sum bytes % 4294967296

-- Bytes as they are.
abbrev pub raw_codec : Codec Bytes
raw_codec = record { to_allocvec = some; from_bytes = some }

pub raw_codec-IsFaithful : IsFaithful raw_codec
raw_codec-IsFaithful = record { from_bytes-to_allocvec = λ t bytes h. sym h }

-- A contact whose paths are numbers: key and name with their lengths, and the other fields.
abbrev pub of_path : Option ℕ → ℕ
of_path none = 0
of_path (some p) = suc p

abbrev pub to_path : ℕ → Option ℕ
to_path zero = none
to_path (suc p) = some p

abbrev pub encode_contact : Contact ℕ → Bytes
encode_contact c =
    length c.key ∷ c.key
    ++ (length c.name ∷ c.name
        ++ (of_path c.path_to ∷ c.flags ∷ c.latitude ∷ c.longitude ∷ c.last_heard ∷ []))

abbrev decode_fields : Bytes → Bytes → Bytes → Option (Contact ℕ)
decode_fields key name (p ∷ f ∷ la ∷ lo ∷ h ∷ []) = some (record {
  key = key;
  name = name;
  path_to = to_path p;
  flags = f;
  latitude = la;
  longitude = lo;
  last_heard = h;
})
decode_fields key name _ = none

abbrev decode_name : Bytes → Bytes → Option (Contact ℕ)
decode_name key [] = none
decode_name key (n ∷ rest) = decode_fields key (take n rest) (drop n rest)

abbrev pub decode_contact_bytes : Bytes → Option (Contact ℕ)
decode_contact_bytes [] = none
decode_contact_bytes (n ∷ rest) = decode_name (take n rest) (drop n rest)

abbrev pub contact_codec : Codec (Contact ℕ)
contact_codec = record {
  to_allocvec = λ c. some (encode_contact c);
  from_bytes = decode_contact_bytes;
}

to_path-of_path : (o : Option ℕ) → to_path (of_path o) ≡ o
to_path-of_path none = refl
to_path-of_path (some p) = refl

decode-encode : (c : Contact ℕ) → decode_contact_bytes (encode_contact c) ≡ some c
decode-encode c =
    let tail : Bytes = of_path c.path_to ∷ c.flags ∷ c.latitude ∷ c.longitude ∷ c.last_heard ∷ [] in
    let rest : Bytes = length c.name ∷ c.name ++ tail in
    rw (take-length-append c.key rest) (
      rw (drop-length-append c.key rest) (
        rw (take-length-append c.name tail)
          (rw (drop-length-append c.name tail) (rw (to_path-of_path c.path_to) refl))))

pub contact_codec-IsFaithful : IsFaithful contact_codec
contact_codec-IsFaithful = record { from_bytes-to_allocvec = λ t bytes h. elim_some t bytes h }
  where
    elim_some :
        (t : Contact ℕ) (bytes : Bytes)
        → some (encode_contact t) ≡ some bytes
        → decode_contact_bytes bytes ≡ some t
    elim_some t bytes h =
        let same : encode_contact t ≡ bytes = ground arith in rw (sym same) (decode-encode t)
