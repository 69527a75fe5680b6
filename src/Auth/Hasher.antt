-- ===== src/Auth/Hasher.antt =====
-- control-plane/internal/auth/password.go: hashing and verifying a login password.
pub mod Verify
use dota_cuck.Prelude.{ℕ, Bool, Option, none, some, Bytes, bytes_eq, is_empty, if◌then◌else◌, ◌>>=◌}
use dota_cuck.Prelude.Result.{Result, ok, err}
use dota_cuck.Auth.Primitives.{Argon2, Random}
use dota_cuck.Auth.Phc.{PasswordParams, default_password_params, PhcError, encode_phc, decode_phc}

pub record Hasher : Type 0 where
  pub pepper : Bytes
  pub params : PasswordParams

-- `none` is the error for an empty pepper.
unfoldable pub new_hasher : Bytes → Option Hasher
new_hasher pepper =
    if is_empty pepper
    then none
    else some (record { pepper = pepper; params = default_password_params })

-- The error of a failed random read.
pub data ReadError : Type 0 where
  read_salt : ReadError

-- `hmac.New(sha256.New, key)` over a message is the argument `hmac`.
module _ (hmac : Bytes → Bytes → Bytes) (argon : Argon2) where
  unfoldable pub peppered_key : Hasher → Bytes → Bytes
  peppered_key h password = hmac h.pepper password

  -- `none` is a panic of Argon2, here and in `hash` and `verify`.
  unfoldable pub derive : Hasher → Bytes → Bytes → PasswordParams → Option Bytes
  unfolding peppered_key
  derive h password salt p =
      argon.id_key (peppered_key h password) salt p.time p.memory p.threads p.key_len

  unfoldable pub hash : Random → Hasher → Bytes → Option (Result ReadError Bytes)
  hash random h password = elim (random h.params.salt_len) [
    | none ↦ some (err read_salt)
    | some salt ↦
        derive h password salt h.params >>= λ key. some (ok (encode_phc h.params salt key))
  ]

  abbrev verify_with :
      Hasher
      → Bytes
      → Result PhcError (PasswordParams × Bytes × Bytes)
      → Option (Result PhcError Bool)
  verify_with h password (err e) = some (err e)
  verify_with h password (ok (p, salt, want)) =
      derive h password salt p >>= λ got. some (ok (bytes_eq got want))

  unfoldable pub verify : Hasher → Bytes → Bytes → Option (Result PhcError Bool)
  verify h password encoded = verify_with h password (decode_phc encoded)
