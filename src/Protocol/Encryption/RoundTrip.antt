-- ===== src/Protocol/Encryption/RoundTrip.antt =====
-- `encrypt` and `decrypt` of encryption.rs, one after the other.
use nautilus_futu.Prelude.{
  ℕ, suc, ◌+◌, ◌-◌, ◌*◌, ◌/◌, ◌%◌, ◌≡◌, sym, ap, ap₂, ◌∙◌, List, [], ◌∷◌, ◌++◌, ok, ◌==◌, arith,
  length, replicate, Bool-cases, inl, inr,
}
use nautilus_futu.Protocol.Encryption.{
  Aes128, AesEcbCipher, chunks, each_chunk, pad, unpad, encrypt, decrypt,
}
use nautilus_futu.Protocol.Encryption.Chunks.{
  length-each_chunk, each_chunk-each_chunk, length-pad, unpad-pad, unpad-inv,
}

module _ (aes : Aes128) (c : AesEcbCipher) where
  abbrev enc : List ℕ → List ℕ
  enc = aes.encrypt_block c.key

  abbrev dec : List ℕ → List ℕ
  dec = aes.decrypt_block c.key

  -- A ciphertext is whole blocks: the text, and one to sixteen bytes more.
  pub length-encrypt : (text : List ℕ) → length (encrypt aes c text) ≡ 16 * (length text / 16 + 1)
  unfolding encrypt
  length-encrypt text =
      let n = length text / 16 + 1 in
      ap (λ k. length (each_chunk enc k (pad text))) (omega (arith, length-pad text))
      ∙ length-each_chunk enc (aes.length-encrypt_block c.key) n (pad text) (length-pad text)

  decrypt_whole :
      (n : ℕ) (bytes : List ℕ)
      → length bytes ≡ 16 * suc n
      → decrypt aes c bytes ≡ unpad (each_chunk dec (suc n) bytes)
  unfolding decrypt
  decrypt_whole n [] h = absurd (omega arith)
  decrypt_whole n (x ∷ xs) h =
      let whole : length (x ∷ xs) % 16 ≡ 0 = omega arith in
      let count : chunks (x ∷ xs) ≡ suc n = omega arith in rw (whole, count)

  encrypt_whole :
      (text : List ℕ) (n : ℕ)
      → length (pad text) ≡ 16 * suc n
      → encrypt aes c text ≡ each_chunk enc (suc n) (pad text)
  unfolding encrypt
  encrypt_whole text n h = ap (λ k. each_chunk enc k (pad text)) (omega (arith, h))

  -- Every text comes back from its ciphertext.
  pub decrypt-encrypt : (text : List ℕ) → decrypt aes c (encrypt aes c text) ≡ ok text
  decrypt-encrypt text =
      let n = length text / 16 in
      let size : length (pad text) ≡ 16 * suc n = omega (arith, length-pad text) in
      let cipher = each_chunk enc (suc n) (pad text) in
      ap (decrypt aes c) (encrypt_whole text n size)
      ∙ decrypt_whole n cipher
          (length-each_chunk enc (aes.length-encrypt_block c.key) (suc n) (pad text) size)
      ∙ ap unpad (
          each_chunk-each_chunk enc (aes.length-encrypt_block c.key) dec
            (aes.decrypt_block-encrypt_block c.key) (suc n) (pad text) size)
      ∙ unpad-pad text

  whole_blocks :
      (bytes text : List ℕ) → decrypt aes c bytes ≡ ok text → (n : ℕ) × (length bytes ≡ 16 * suc n)
  unfolding decrypt
  whole_blocks [] text h = cc
  whole_blocks (x ∷ xs) text h = elim (Bool-cases (length (x ∷ xs) % 16 == 0)) [
    | inl e ↦ (length (x ∷ xs) / 16 - 1, ground arith)
    | inr e ↦ absurd (ground arith)
  ]

  pad-unpad :
      (padded text : List ℕ) (n : ℕ)
      → length padded ≡ 16 * suc n
      → unpad padded ≡ ok text
      → pad text ≡ padded
  unfolding pad
  pad-unpad padded text n size h =
      let (p, h0, h16, total, split) = unpad-inv padded text h in
      ap₂ (λ k b. text ++ replicate k b) (omega arith) (omega arith) ∙ sym split

  -- Whatever `decrypt` accepts is the ciphertext of what it returns: no two ciphertexts are read as
  -- one text.
  pub encrypt-decrypt :
      (bytes text : List ℕ) → decrypt aes c bytes ≡ ok text → encrypt aes c text ≡ bytes
  encrypt-decrypt bytes text h =
      let (n, size) = whole_blocks bytes text h in
      let padded = each_chunk dec (suc n) bytes in
      let long = length-each_chunk dec (aes.length-decrypt_block c.key) (suc n) bytes size in
      let same = pad-unpad padded text n long (sym (decrypt_whole n bytes size) ∙ h) in
      encrypt_whole text n (ap length same ∙ long)
      ∙ ap (each_chunk enc (suc n)) same
      ∙ each_chunk-each_chunk dec (aes.length-decrypt_block c.key) enc
          (aes.encrypt_block-decrypt_block c.key) (suc n) bytes size
