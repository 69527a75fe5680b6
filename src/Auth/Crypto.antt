-- ===== src/Auth/Crypto.antt =====
-- control-plane/internal/auth/crypto.go: the key of a user's Steam credentials and their encryption.
pub mod RoundTrip
use dota_cuck.Prelude.{ℕ, Bool, not, Option, none, some, Bytes, length, ◌==◌, if◌then◌else◌}
use dota_cuck.Prelude.Result.{Result, ok, err, ◌>>=◌, ◌>>◌, guard, or_fail}
use dota_cuck.Auth.Primitives.{Argon2, Aead, Random}
use dota_cuck.Auth.Phc.{PasswordParams}

abbrev pub kdf_params : PasswordParams
kdf_params = record { time = 3; memory = 65536; threads = 4; key_len = 32; salt_len = 16 }

abbrev pub kdf_salt_len : ℕ
kdf_salt_len = 16

pub data CryptoError : Type 0 where
  key_length read_nonce wrong_nonce_size authentication : CryptoError

-- `gcm.NonceSize()`
abbrev pub nonce_size : ℕ
nonce_size = 12

-- `none` is the error of the random source.
unfoldable pub new_salt : Random → ℕ → Option Bytes
new_salt random n = random n

-- `none` is a panic of Argon2.
unfoldable pub derive_key : Argon2 → Bytes → Bytes → Option Bytes
derive_key argon password salt =
    argon.id_key password salt kdf_params.time kdf_params.memory kdf_params.threads
      kdf_params.key_len

-- The length check of `newGCM`; a cipher of the right length is always made.
unfoldable pub new_gcm : Bytes → Result CryptoError (Unit {0})
new_gcm key = guard (length key == 32) key_length

-- The ciphertext and the nonce.
unfoldable pub encrypt : Aead → Random → Bytes → Bytes → Result CryptoError (Bytes × Bytes)
unfolding new_gcm
encrypt aead random key plain = do
  new_gcm key
  nonce ← or_fail (random nonce_size) read_nonce
  ok (aead.seal key nonce plain, nonce)

unfoldable pub decrypt : Aead → Bytes → Bytes → Bytes → Result CryptoError Bytes
unfolding new_gcm
decrypt aead key cipher nonce = do
  new_gcm key
  guard (length nonce == nonce_size) wrong_nonce_size
  or_fail (aead.unseal key nonce cipher) authentication
