-- ===== src/Auth/Phc.antt =====
-- control-plane/internal/auth/password.go: the PHC string of a password hash.
mod Scan
pub mod RoundTrip
pub mod Bounds
use dota_cuck.Prelude.{
  ℕ, ◌%◌, ◌^◌, Bool, true, false, not, ◌&&◌, ◌||◌, List, [], ◌∷◌, ◌++◌, Option, none, some, Bytes,
  codes, bytes_eq, is_empty, length, ◌==◌, if◌then◌else◌,
}
use Scan.{scan_version, scan_params}
use dota_cuck.Prelude.Result.{Result, ok, err, ◌>>=◌, ◌>>◌, guard, or_fail}
use dota_cuck.Go.Decimal.{format_uint}
use dota_cuck.Go.Scan.{ℤ, pos, negsuc}
use dota_cuck.Go.Split.{split}
use dota_cuck.Go.Base64.{raw_std_encoding, encode_to_string, decode_string}

pub record PasswordParams : Type 0 where
  pub time : ℕ  -- uint32
  pub memory : ℕ  -- uint32, in KiB
  pub threads : ℕ  -- uint8
  pub key_len : ℕ  -- uint32
  pub salt_len : ℕ  -- uint32

abbrev pub default_password_params : PasswordParams
default_password_params = record {
  time = 3;
  memory = 65536;
  threads = 4;
  key_len = 32;
  salt_len = 16;
}

-- The errors of `decodePHC`, in the order of its checks.
pub data PhcError : Type 0 where
  malformed_hash parse_version : PhcError
  unsupported_version : ℤ → PhcError
  parse_params decode_salt decode_hash : PhcError

-- `argon2.Version`, 0x13.
abbrev pub version : ℕ
version = 19

unfoldable pub encode_phc : PasswordParams → Bytes → Bytes → Bytes
unfolding format_uint encode_to_string
encode_phc p salt key =
    codes "$argon2id$v="
    ++ (format_uint version
        ++ (codes "$m="
            ++ (format_uint p.memory
                ++ (codes ",t="
                    ++ (format_uint p.time
                        ++ (codes ",p="
                            ++ (format_uint p.threads
                                ++ (codes "$"
                                    ++ (encode_to_string raw_std_encoding salt
                                        ++ (codes "$"
                                            ++ encode_to_string raw_std_encoding key))))))))))

abbrev int_eq : ℤ → ℕ → Bool
int_eq (pos m) n = m == n
int_eq (negsuc m) n = false

-- What `decodePHC` does with the six parts.
unfoldable pub decode_parts :
    Bytes → Bytes → Bytes → Bytes → Bytes → Bytes → Result PhcError (PasswordParams × Bytes × Bytes)
unfolding scan_version scan_params
decode_parts p₀ p₁ p₂ p₃ p₄ p₅ = do
  guard (is_empty p₀ && bytes_eq p₁ (codes "argon2id")) malformed_hash
  v ← or_fail (scan_version p₂) parse_version
  guard (int_eq v version) (unsupported_version v)
  (m, t, p) ← or_fail (scan_params p₃) parse_params
  salt ← or_fail (decode_string raw_std_encoding p₄) decode_salt
  key ← or_fail (decode_string raw_std_encoding p₅) decode_hash
  ok (
    record {
      time = t;
      memory = m;
      threads = p;
      key_len = length key % 2 ^ 32;
      salt_len = length salt % 2 ^ 32;
    },
    salt,
    key,
  )

unfoldable pub decode_list : List Bytes → Result PhcError (PasswordParams × Bytes × Bytes)
unfolding decode_parts
decode_list (p₀ ∷ p₁ ∷ p₂ ∷ p₃ ∷ p₄ ∷ p₅ ∷ []) = decode_parts p₀ p₁ p₂ p₃ p₄ p₅
decode_list _ = err malformed_hash

unfoldable pub decode_phc : Bytes → Result PhcError (PasswordParams × Bytes × Bytes)
unfolding decode_list split
decode_phc encoded = decode_list (split b'$' encoded)
