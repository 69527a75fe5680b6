-- ===== src/Auth/Jwt/Expiry.antt =====
-- How long a token is good, and for whom.
use dota_cuck.Prelude.{
  ℕ, ◌+◌, ◌*◌, ◌/◌, ◌≡◌, String, none, some, Bytes, arith, leb, if◌then◌else◌, ◌||◌, true, [], ◌∷◌,
  str_eq, Bool-cases, inl, inr,
}
use dota_cuck.Prelude.Result.{ok, err}
use dota_cuck.Auth.Jwt.{
  new_numeric_date, second, JwtLibrary, signing_method, TokenManager, invalid_token, issue, verify,
}

module _ (lib : JwtLibrary) where
  parse-issue :
      (tm : TokenManager) (user_id : String) (now later : ℕ) (token : Bytes)
      → issue lib tm user_id now ≡ some token
      → lib.parse (signing_method ∷ []) tm.secret later token ≡ (
          if leb (new_numeric_date (now + tm.ttl) * second) later
          then none
          else some (
            record {
              subject = user_id;
              issued_at = new_numeric_date now;
              expires_at = new_numeric_date (now + tm.ttl);
            },
            true,
          ))
  unfolding issue
  parse-issue tm user_id now later token h =
      elim (Bool-cases (leb (new_numeric_date (now + tm.ttl) * second) later)) [
        | inl late ↦ rw late (lib.parse_expired _ _ _ later token h (ground arith))
        | inr early ↦ rw early (lib.parse-signed_string _ _ _ later token h (ground arith))
      ]

  -- A token issued at `now` verifies to the user's id until the last whole second at or before `now`
  -- plus the TTL, and from then on not at all; issued for the empty id it never verifies.
  pub verify-issue :
      (tm : TokenManager) (user_id : String) (now later : ℕ) (token : Bytes)
      → issue lib tm user_id now ≡ some token
      → verify lib tm token later ≡ (
          if leb ((now + tm.ttl) / second * second) later || str_eq user_id ""
          then err invalid_token
          else ok user_id)
  unfolding verify
  verify-issue tm user_id now later token h =
      ground (arith, parse-issue tm user_id now later token h)
