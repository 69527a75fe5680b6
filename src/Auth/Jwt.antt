-- ===== src/Auth/Jwt.antt =====
-- control-plane/internal/auth/jwt.go. Times are nanoseconds; the clock is an argument.
pub mod Expiry
use dota_cuck.Prelude.{
  ℕ, ◌+◌, ◌*◌, ◌/◌, ◌≤◌, ◌<◌, ◌≡◌, ◌≢◌, String, Bool, true, false, Option, none, some, Bytes, List,
  [], ◌∷◌, is_empty, str_eq, leb, if◌then◌else◌, ◌||◌, ◌==◌,
}
use dota_cuck.Prelude.Result.{Result, ok, err, ◌>>=◌, ◌>>◌, guard, or_fail}

pub record RegisteredClaims : Type 0 where
  pub subject : String
  pub issued_at : ℕ  -- NumericDate, in seconds
  pub expires_at : ℕ  -- NumericDate, in seconds

-- `jwt.NewNumericDate`: a time, truncated to seconds.
abbrev pub second : ℕ
second = 1000000000

abbrev pub new_numeric_date : ℕ → ℕ
new_numeric_date t = t / second

-- github.com/golang-jwt/jwt/v5. `parse` is `ParseWithClaims` with `WithValidMethods` and
-- `WithTimeFunc`: the claims of a token that is valid at the time, with the flag `Valid`.
pub record JwtLibrary : Type 0 where
  pub signed_string : String → Bytes → RegisteredClaims → Option Bytes
  pub parse : List String → Bytes → ℕ → Bytes → Option (RegisteredClaims × Bool)
  pub parse-signed_string :
      (alg : String) (secret : Bytes) (claims : RegisteredClaims) (now : ℕ) (token : Bytes)
      → signed_string alg secret claims ≡ some token
      → now < claims.expires_at * second
      → parse (alg ∷ []) secret now token ≡ some (claims, true)
  pub parse_expired :
      (alg : String) (secret : Bytes) (claims : RegisteredClaims) (now : ℕ) (token : Bytes)
      → signed_string alg secret claims ≡ some token
      → claims.expires_at * second ≤ now
      → parse (alg ∷ []) secret now token ≡ none

-- `signingMethod.Alg()`
abbrev pub signing_method : String
signing_method = "HS256"

pub record TokenManager : Type 0 where
  pub secret : Bytes
  pub ttl : ℕ

pub data NewError : Type 0 where
  empty_secret ttl_not_positive : NewError

-- A negative `time.Duration` is refused like 0; it is 0 here.
unfoldable pub new_token_manager : Bytes → ℕ → Result NewError TokenManager
new_token_manager secret ttl =
    if is_empty secret
    then err empty_secret
    else if ttl == 0
    then err ttl_not_positive
    else ok (record { secret = secret; ttl = ttl })

-- The one error of `Verify`.
pub data TokenError : Type 0 where
  invalid_token : TokenError

module _ (lib : JwtLibrary) where
  -- `none` is a failure to sign.
  unfoldable pub issue : TokenManager → String → ℕ → Option Bytes
  issue tm user_id now = lib.signed_string signing_method tm.secret (record {
    subject = user_id;
    issued_at = new_numeric_date now;
    expires_at = new_numeric_date (now + tm.ttl);
  })

  abbrev subject_of : RegisteredClaims → Bool → Result TokenError String
  subject_of claims valid =
      if valid
      then if str_eq claims.subject "" then err invalid_token else ok claims.subject
      else err invalid_token

  unfoldable pub verify : TokenManager → Bytes → ℕ → Result TokenError String
  verify tm token now = do
    (claims, valid) ← or_fail (lib.parse (signing_method ∷ []) tm.secret now token) invalid_token
    subject_of claims valid
