-- ===== src/Protocol/Encryption.antt =====
-- crates/futu/src/protocol/encryption.rs: AES-128 in ECB mode with PKCS7 padding. The block cipher
-- itself is the `aes` crate's.
pub mod Chunks
pub mod RoundTrip
use nautilus_futu.Prelude.{
  ℕ, zero, suc, ◌-◌, ◌/◌, ◌%◌, ◌≡◌, List, [], ◌∷◌, ◌++◌, Bool, true, false, not, ◌&&◌, ◌||◌, Option,
  some, none, Result, ok, err, ltb, ◌==◌, if◌then◌else◌, length, take, drop, replicate,
}

-- A block has 16 bytes; each direction undoes the other.
pub record Aes128 : Type 0 where
  pub encrypt_block : List ℕ → List ℕ → List ℕ
  pub decrypt_block : List ℕ → List ℕ → List ℕ
  pub length-encrypt_block :
      (key block : List ℕ) → length block ≡ 16 → length (encrypt_block key block) ≡ 16
  pub length-decrypt_block :
      (key block : List ℕ) → length block ≡ 16 → length (decrypt_block key block) ≡ 16
  pub decrypt_block-encrypt_block :
      (key block : List ℕ) → length block ≡ 16 → decrypt_block key (encrypt_block key block) ≡ block
  pub encrypt_block-decrypt_block :
      (key block : List ℕ) → length block ≡ 16 → encrypt_block key (decrypt_block key block) ≡ block

abbrev pub block_size : ℕ
block_size = 16

-- The key schedule is a function of the key.
pub record AesEcbCipher : Type 0 where
  pub key : List ℕ

abbrev pub new : List ℕ → AesEcbCipher
new key = record { key = key }

-- `Rsa` is made nowhere in the crate.
pub data EncryptionError : Type 0 where
  invalid_ciphertext invalid_padding : EncryptionError
  rsa : List ℕ → EncryptionError

-- `for chunk in result.chunks_exact_mut(16)`: `n` is the number of whole chunks.
unfoldable pub each_chunk : (List ℕ → List ℕ) → ℕ → List ℕ → List ℕ
each_chunk f zero xs = xs
each_chunk f (suc n) xs = f (take block_size xs) ++ each_chunk f n (drop block_size xs)

abbrev pub chunks : List ℕ → ℕ
chunks xs = length xs / block_size

-- `padded.resize(padded_len, padding_len as u8)`
unfoldable pub pad : List ℕ → List ℕ
pad bytes =
    let padding_len = block_size - length bytes % block_size in
    bytes ++ replicate padding_len (padding_len % 256)

abbrev pub is_empty : List ℕ → Bool
is_empty [] = true
is_empty (x ∷ xs) = false

-- `result.last()`
unfoldable pub get_last? : List ℕ → Option ℕ
get_last? [] = none
get_last? (x ∷ []) = some x
get_last? (x ∷ y ∷ xs) = get_last? (y ∷ xs)

-- `for &b in …: if b != padding_len { return Err }`
unfoldable pub all_equal : ℕ → List ℕ → Bool
all_equal p [] = true
all_equal p (b ∷ bs) = b == p && all_equal p bs

unfoldable pub unpad_by : ℕ → List ℕ → Result EncryptionError (List ℕ)
unpad_by padding_len result =
    if padding_len == 0 || ltb 16 padding_len
    then err invalid_padding
    else if ltb (length result) padding_len
    then err invalid_padding
    else if all_equal padding_len (drop (length result - padding_len) result)
    then ok (take (length result - padding_len) result)
    else err invalid_padding

unfoldable pub unpad : List ℕ → Result EncryptionError (List ℕ)
unfolding unpad_by
unpad result = elim (get_last? result) [
  | none ↦ err invalid_padding
  | some padding_len ↦ unpad_by padding_len result
]

module _ (aes : Aes128) where
  unfoldable pub encrypt : AesEcbCipher → List ℕ → List ℕ
  encrypt c bytes = each_chunk (aes.encrypt_block c.key) (chunks (pad bytes)) (pad bytes)

  unfoldable pub decrypt : AesEcbCipher → List ℕ → Result EncryptionError (List ℕ)
  decrypt c bytes =
      if is_empty bytes || not (length bytes % 16 == 0)
      then err invalid_ciphertext
      else unpad (each_chunk (aes.decrypt_block c.key) (chunks bytes) bytes)
