-- ===== src/Auth/Crypto/RoundTrip.antt =====
-- Encryption and decryption undo one another.
use dota_cuck.Prelude.{
  ◌≤◌, ◌≡◌, ◌↔◌, refl, ap, false, [], ◌∷◌, is_empty, some, arith, Bytes, length,
}
use dota_cuck.Prelude.Result.{ok, or_fail, ◌>>=◌}
use dota_cuck.Auth.Primitives.{Argon2, Aead, Random, IsRandom}
use dota_cuck.Auth.Crypto.{read_nonce, nonce_size, derive_key, encrypt, decrypt}

pub derive_key_total :
    (argon : Argon2) (password salt : Bytes)
    → (key : Bytes) × (derive_key argon password salt ≡ some key)
unfolding derive_key
derive_key_total argon password salt =
    let (key, e, l, b) =
      argon.runs password salt 3 65536 4 32 (omega arith) (omega arith) (omega arith) in
    (key, e)

module _ (aead : Aead) where
  encrypt_inv :
      (random : Random) (key plain cipher nonce : Bytes)
      → encrypt aead random key plain ≡ ok (cipher, nonce)
      → (length key ≡ 32) × (random nonce_size ≡ some nonce) × (cipher ≡ aead.seal key nonce plain)
  unfolding encrypt
  encrypt_inv random key plain cipher nonce h = ground arith

  decrypt_inv :
      (key plain cipher nonce : Bytes)
      → decrypt aead key cipher nonce ≡ ok plain
      → (length key ≡ 32)
        × (length nonce ≡ nonce_size)
        × (aead.unseal key nonce cipher ≡ some plain)
  unfolding decrypt
  decrypt_inv key plain cipher nonce h = ground arith

  decrypt_of_unseal :
      (key plain cipher nonce : Bytes)
      → length key ≡ 32
      → length nonce ≡ nonce_size
      → aead.unseal key nonce cipher ≡ some plain
      → decrypt aead key cipher nonce ≡ ok plain
  unfolding decrypt
  decrypt_of_unseal key plain cipher nonce hk hn e = ground arith

  -- `Decrypt` returns a plaintext exactly when the key has 32 bytes, the nonce has 12, and the
  -- ciphertext is the encryption of that plaintext under them.
  pub decrypt_iff :
      (key plain cipher nonce : Bytes)
      → (decrypt aead key cipher nonce ≡ ok plain)
        ↔ ((length key ≡ 32) × (length nonce ≡ 12) × (cipher ≡ aead.seal key nonce plain))
  decrypt_iff key plain cipher nonce = (
    (λ h.
        let (hk, hn, e) = decrypt_inv key plain cipher nonce h in
        (hk, hn, aead.unseal_authentic key nonce cipher plain e)),
    (λ (hk, hn, e).
        decrypt_of_unseal key plain cipher nonce hk hn
          (rw e (aead.unseal-seal key nonce plain hk hn))),
  )

  -- What `Encrypt` returned under a key, `Decrypt` under that key turns back into the plaintext.
  pub decrypt-encrypt :
      (random : Random) (key plain cipher nonce : Bytes)
      → IsRandom random
      → encrypt aead random key plain ≡ ok (cipher, nonce)
      → decrypt aead key cipher nonce ≡ ok plain
  decrypt-encrypt random key plain cipher nonce good h =
      let (hk, hr, hc) = encrypt_inv random key plain cipher nonce h in
      (decrypt_iff key plain cipher nonce).1 (hk, (good nonce_size nonce hr).0, hc)

  -- `DeriveKey` returns a key (it does not panic), and `Encrypt` under that key fails only with the
  -- random source.
  pub encrypt-derive_key :
      (argon : Argon2) (random : Random) (password salt plain : Bytes)
      → (key : Bytes) × (derive_key argon password salt ≡ some key)
        × (encrypt aead random key plain ≡ (
            or_fail (random nonce_size) read_nonce >>= λ nonce.
            ok (aead.seal key nonce plain, nonce)))
  unfolding derive_key encrypt
  encrypt-derive_key argon random password salt plain =
      let (key, e, l, b) =
        argon.runs password salt 3 65536 4 32 (omega arith) (omega arith) (omega arith) in
      (key, e, ground arith)

  -- A ciphertext is never empty, and it decrypts.
  pub encrypt_sealed :
      (random : Random) (key plain cipher nonce : Bytes)
      → IsRandom random
      → encrypt aead random key plain ≡ ok (cipher, nonce)
      → is_empty cipher ≡ false
  encrypt_sealed random key plain cipher nonce good h =
      let (hk, hr, hc) = encrypt_inv random key plain cipher nonce h in
      let hn = (good nonce_size nonce hr).0 in
      not_empty cipher (omega (arith, aead.seal_tagged key nonce plain hk hn, ap length hc))
    where
      not_empty : (s : Bytes) → 16 ≤ length s → is_empty s ≡ false
      not_empty [] h = absurd (omega arith)
      not_empty (c ∷ s) h = refl
