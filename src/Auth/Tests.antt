-- ===== src/Auth/Tests.antt =====
-- Stand-ins for the primitives, runs, and the theorems at concrete inputs.
use dota_cuck.Prelude.{
  ◌<◌, ◌%◌, ◌^◌, length, ℕ, ◌+◌, ◌*◌, ◌/◌, ◌≡◌, ◌↔◌, refl, ◌||◌, none, some, List, [], ◌∷◌, ◌++◌,
  arith, Bytes, codes, length, bytes_eq, leb, if◌then◌else◌, str_eq, empty, ◌>>=◌,
}
use dota_cuck.Prelude.Result.{ok, err}
use dota_cuck.Auth.Phc.{default_password_params, malformed_hash, encode_phc, decode_phc}
use dota_cuck.Go.Base64.{decode_string}
use dota_cuck.Auth.Phc.Bounds.{decode_phc_bounds}
use dota_cuck.Auth.Phc.RoundTrip.{relengthened, decode_phc-encode_phc}
use dota_cuck.Auth.Hasher
use dota_cuck.Auth.Hasher.{Hasher}
use dota_cuck.Auth.Hasher.Verify.{IsUsable, verify-hash}
use dota_cuck.Auth.Crypto.{encrypt, decrypt}
use dota_cuck.Auth.Crypto.RoundTrip.{decrypt_iff}
use dota_cuck.Auth.KeyCache.{new_key_cache, get_key}
use dota_cuck.Auth.KeyCache.History.{
  Call, puts, gets, deletes, run, granted, valid_key, get_key-granted,
}
use dota_cuck.Auth.Jwt.{TokenManager, second, invalid_token, issue, verify}
use dota_cuck.Auth.Jwt.Expiry.{verify-issue}
use dota_cuck.Auth.StandIns.{
  replicate, toy_argon, toy_hmac, toy_aead, toy_random, toy_random-IsRandom, toy_secret, toy_token,
  toy_jwt,
}

stored :
    codes "$argon2id$v=19$m=65536,t=3,p=4$c2FsdA$aGFzaA"
    ≡ encode_phc default_password_params (codes "salt") (codes "hash")
unfolding encode_phc
stored = refl

missing_segment : decode_phc (codes "$argon2id$v=19$m=65536,t=3,p=4$c2FsdA") ≡ err malformed_hash
unfolding decode_phc
missing_segment = refl

other_scheme : decode_phc (codes "$bcrypt$v=19$m=65536,t=3,p=4$c2FsdA$aGFzaA") ≡ err malformed_hash
unfolding decode_phc bytes_eq
other_scheme = refl

-- What follows a number is not read.
trailing_text :
    decode_phc (codes "$argon2id$v=19x$m=65536,t=3,p=4;$c2FsdA$aGFzaA")
    ≡ decode_phc (codes "$argon2id$v=19$m=65536,t=3,p=4$c2FsdA$aGFzaA")
unfolding decode_phc bytes_eq
trailing_text = refl

decode_phc-encode_phc_example :
    decode_phc (encode_phc default_password_params (codes "salt") (codes "hash"))
    ≡ ok (
      relengthened default_password_params (codes "salt") (codes "hash"),
      codes "salt",
      codes "hash",
    )
decode_phc-encode_phc_example =
    decode_phc-encode_phc default_password_params (codes "salt") (codes "hash") (omega arith)
      (omega arith) (omega arith)

stored_decodes :
    decode_phc (codes "$argon2id$v=19$m=65536,t=3,p=4$c2FsdA$aGFzaA")
    ≡ ok (
      relengthened default_password_params (codes "salt") (codes "hash"),
      codes "salt",
      codes "hash",
    )
unfolding decode_phc bytes_eq decode_string
stored_decodes = refl

decode_phc_bounds_example :
    let p = relengthened default_password_params (codes "salt") (codes "hash") in
    (p.time < 2 ^ 32)
    × (p.memory < 2 ^ 32)
    × (p.threads < 2 ^ 8)
    × (p.key_len ≡ length (codes "hash") % 2 ^ 32)
decode_phc_bounds_example =
    decode_phc_bounds (codes "$argon2id$v=19$m=65536,t=3,p=4$c2FsdA$aGFzaA")
      (relengthened default_password_params (codes "salt") (codes "hash")) (codes "salt")
      (codes "hash") stored_decodes

abbrev pepper : Bytes
pepper = codes "test-pepper"

abbrev hasher : Hasher
hasher = record { pepper = pepper; params = default_password_params }

abbrev cheaper : Hasher
cheaper = record {
  pepper = pepper;
  params = record { time = 1; memory = 8; threads = 1; key_len = 16; salt_len = 8 };
}

new_hasher_empty : Hasher.new_hasher [] ≡ none
unfolding Hasher.new_hasher
new_hasher_empty = refl

new_hasher_default : Hasher.new_hasher pepper ≡ some hasher
unfolding Hasher.new_hasher
new_hasher_default = refl

default_IsUsable : IsUsable default_password_params
default_IsUsable = omega arith

verify-hash_example :
    (e : Bytes) × (key : Bytes) × (Hasher.hash toy_hmac toy_argon toy_random hasher
        (codes "hunter2")
      ≡ some (ok e))
    × (Hasher.derive toy_hmac toy_argon hasher
          (codes "hunter2")
          (replicate 16 7)
          default_password_params
        ≡ some key)
    × ((g : Hasher) (other : Bytes)
        → Hasher.verify toy_hmac toy_argon g other e ≡ (
            Hasher.derive toy_hmac toy_argon g other (replicate 16 7) default_password_params
            >>= λ got. some (ok (bytes_eq got key))))
verify-hash_example =
    verify-hash toy_hmac toy_argon toy_random hasher (codes "hunter2") (replicate 16 7)
      toy_random-IsRandom default_IsUsable refl

abbrev aes_key : Bytes
aes_key = replicate 32 1

abbrev nonce : Bytes
nonce = replicate 12 7

sealed :
    encrypt toy_aead toy_random aes_key (codes "token")
    ≡ ok ((aes_key ++ nonce) ++ codes "token", nonce)
unfolding encrypt
sealed = refl

decrypt_iff_example : (decrypt toy_aead aes_key (codes "x") nonce ≡ ok (codes "token")) ↔ (
    (length aes_key ≡ 32)
    × (length nonce ≡ 12)
    × (codes "x" ≡ toy_aead.seal aes_key nonce (codes "token")))
decrypt_iff_example = decrypt_iff toy_aead aes_key (codes "token") (codes "x") nonce

abbrev calls : List (ℕ × Call)
calls =
    (0, puts "a" (codes "k1"))
    ∷ (3, puts "b" (codes "k2"))
    ∷ (5, gets "a")
    ∷ (12, gets "a")
    ∷ (13, deletes "b")
    ∷ []

get_key-granted_example :
    (get_key (run (new_key_cache 10) calls) "a" 14).1 ≡ valid_key (granted 10 empty calls "a") 14
get_key-granted_example = get_key-granted 10 14 calls "a" (omega arith)

abbrev minute : TokenManager
minute = record { secret = toy_secret; ttl = 60 * second }

issued : issue toy_jwt minute "id-1" (5 * second + 3) ≡ some toy_token
unfolding issue
issued = refl

verify-issue_example : verify toy_jwt minute toy_token (7 * second) ≡ (
    if leb ((5 * second + 3 + minute.ttl) / second * second) (7 * second) || str_eq "id-1" ""
    then err invalid_token
    else ok "id-1")
verify-issue_example =
    verify-issue toy_jwt minute "id-1" (5 * second + 3) (7 * second) toy_token issued
