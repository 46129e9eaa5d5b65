-- ===== src/Tests/Crypto.antt =====
-- A cipher and a clock at concrete inputs.
use chiyocore.Base.{
  ℕ, ◌+◌, ◌*◌, ◌%◌, ◌<◌, ◌≤◌, ◌≡◌, refl, true, arith, [], ◌∷◌, ◌++◌, length, replicate,
}
use chiyocore.Base.Bytes.{Bytes}
use chiyocore.Crypto.{AesContext, encrypt_in_place, decrypt_in_place}
use chiyocore.Crypto.InPlace.{IsLawful, encrypt_in_place-decrypt_in_place}
use chiyocore.Ntp.{timestamp_sec, timestamp_subsec_micros, new_time_us, new_time_us_lem}

-- A cipher that changes nothing.
abbrev plain : AesContext
plain = record { process = λ o k i b. (true, i); process_in_place = λ o k b. (true, b) }

plain-IsLawful : IsLawful plain
plain-IsLawful = record { blocks = λ key bytes whole. (bytes, refl, refl, refl) }

encrypt_in_place-decrypt_in_place_example :
    (cipher : Bytes) × (pad : ℕ) × (encrypt_in_place plain (1 ∷ []) (7 ∷ 8 ∷ []) ≡ (true, cipher))
    × (decrypt_in_place plain (1 ∷ []) cipher ≡ (true, (7 ∷ 8 ∷ []) ++ replicate pad 0))
    × (pad < 16)
    × (length cipher ≡ 2 + pad)
    × (length cipher % 16 ≡ 0)
    × ((m : ℕ) → 2 ≤ m → m % 16 ≡ 0 → length cipher ≤ m)
encrypt_in_place-decrypt_in_place_example =
    encrypt_in_place-decrypt_in_place plain (1 ∷ []) (7 ∷ 8 ∷ []) plain-IsLawful

new_time_us_lem_example :
    (timestamp_sec (new_time_us 1700000000 2147483648) ≡ 1700000000)
    × (timestamp_subsec_micros (new_time_us 1700000000 2147483648) * 4294967296
        ≤ 2147483648 * 1000000)
    × (2147483648 * 1000000
        < (timestamp_subsec_micros (new_time_us 1700000000 2147483648) + 1) * 4294967296)
    × (timestamp_subsec_micros (new_time_us 1700000000 2147483648) < 1000000)
new_time_us_lem_example = new_time_us_lem 1700000000 2147483648 (omega arith) (omega arith)
