-- ===== src/Crypto/InPlace.antt =====
-- Encryption in place, and back.
use chiyocore.Base.{
  ℕ, ◌+◌, ◌-◌, ◌%◌, ◌<◌, ◌≤◌, ◌≡◌, ap, ◌∙◌, arith, true, ◌++◌, length, replicate, length-append,
  length-replicate, take_of_length-le,
}
use chiyocore.Base.Bytes.{Bytes}
use chiyocore.Crypto.{
  encrypt_with, decrypt_with, AesContext, resize, pad_len, decrypt_in_place, encrypt_in_place,
}

-- What is documented of the peripheral: whole blocks are encrypted to as many bytes, and decrypting them
-- with the same key gives them back.
pub record IsLawful (aes : AesContext) : Type 0 where
  pub blocks :
      (key bytes : Bytes)
      → length bytes % 16 ≡ 0
      → (cipher : Bytes) × (aes.process_in_place encrypt_with key bytes ≡ (true, cipher))
        × (length cipher ≡ length bytes)
        × (aes.process_in_place decrypt_with key cipher ≡ (true, bytes))

pad_len_lem : (n : ℕ) → (pad_len n < 16) × ((n + pad_len n) % 16 ≡ 0)
unfolding pad_len
pad_len_lem n = (omega arith, omega arith)

pad_len_least : (n m : ℕ) → n ≤ m → m % 16 ≡ 0 → n + pad_len n ≤ m
unfolding pad_len
pad_len_least n m h k = omega arith

resize_more : (n : ℕ) (bytes : Bytes) → resize (length bytes + n) bytes ≡ bytes ++ replicate n 0
unfolding resize
resize_more n bytes =
    ap (λ l. l ++ replicate (length bytes + n - length bytes) 0)
      (take_of_length-le (length bytes + n) bytes (omega arith))
    ∙ ap (λ k. bytes ++ replicate k 0) (omega arith)

-- Over a lawful peripheral `encrypt_in_place` succeeds for bytes of any length: they are padded to the
-- least number of whole blocks, and `decrypt_in_place` of the cipher text gives the bytes back, followed
-- by fewer than 16 zeros.
pub encrypt_in_place-decrypt_in_place :
    (aes : AesContext) (key bytes : Bytes)
    → IsLawful aes
    → (cipher : Bytes) × (pad : ℕ) × (encrypt_in_place aes key bytes ≡ (true, cipher))
      × (decrypt_in_place aes key cipher ≡ (true, bytes ++ replicate pad 0))
      × (pad < 16)
      × (length cipher ≡ length bytes + pad)
      × (length cipher % 16 ≡ 0)
      × ((m : ℕ) → length bytes ≤ m → m % 16 ≡ 0 → length cipher ≤ m)
unfolding encrypt_in_place decrypt_in_place
encrypt_in_place-decrypt_in_place aes key bytes lawful =
    let pad = pad_len (length bytes) in
    let padded = bytes ++ replicate pad 0 in
    let (small, whole) = pad_len_lem (length bytes) in
    let long : length padded ≡ length bytes + pad =
      length-append bytes (replicate pad 0) ∙ ap (λ k. length bytes + k) (length-replicate pad 0) in
    let (cipher, enc, len, dec) = lawful.blocks key padded (ap (λ n. n % 16) long ∙ whole) in
    (
      cipher,
      pad,
      rw (encrypt_in_place, resize_more pad bytes) enc,
      dec,
      small,
      len ∙ long,
      ap (λ n. n % 16) (len ∙ long) ∙ whole,
      λ m h k. omega (arith, len, long, pad_len_least (length bytes) m h k),
    )
