-- ===== src/Crypto.antt =====
-- The cipher of firmware/chiyocore/src/crypto.rs: `HardwareAES` over the AES peripheral of the crate
-- esp_hal, which is an interface. The HMAC is that of the crate hmac and has no code of its own.
pub mod InPlace
use chiyocore.Base.{ℕ, ◌+◌, ◌-◌, ◌%◌, Bool, List, ◌++◌, length, take, replicate}
use chiyocore.Base.Bytes.{Bytes}

pub data Operation : Type 0 where
  encrypt_with decrypt_with : Operation

-- `AesContext::new(Ecb, operation, key)` and its two calls, waited for: whether it succeeded, and the
-- buffer as it is then. `process` is given an input and an output buffer.
pub record AesContext : Type 0 where
  pub process : Operation → Bytes → Bytes → Bytes → Bool × Bytes
  pub process_in_place : Operation → Bytes → Bytes → Bool × Bytes

abbrev pub cipher_block_size : ℕ
cipher_block_size = 16

-- `resize(len, 0)`.
unfoldable pub resize : ℕ → Bytes → Bytes
resize len bytes = take len bytes ++ replicate (len - length bytes) 0

unfoldable pub pad_len : ℕ → ℕ
pad_len len = (cipher_block_size - len % cipher_block_size) % cipher_block_size

module _ (aes : AesContext) where
  unfoldable pub decrypt : Bytes → Bytes → Bytes → Bool × Bytes
  decrypt key input output = aes.process decrypt_with key input (resize (length input) output)

  unfoldable pub encrypt : Bytes → Bytes → Bytes → Bool × Bytes
  encrypt key input output =
      aes.process encrypt_with key input (resize (length input + pad_len (length input)) output)

  unfoldable pub decrypt_in_place : Bytes → Bytes → Bool × Bytes
  decrypt_in_place key bytes = aes.process_in_place decrypt_with key bytes

  unfoldable pub encrypt_in_place : Bytes → Bytes → Bool × Bytes
  encrypt_in_place key bytes =
      aes.process_in_place encrypt_with key (resize (length bytes + pad_len (length bytes)) bytes)
