-- ===== src/Api/State/SessionLength.antt =====
-- How long the key and the token of a login last.
use dota_cuck.Prelude.{
  ℕ, ◌+◌, ◌-◌, ◌*◌, ◌/◌, ◌<◌, ◌≤◌, ◌≡◌, String, false, none, some, Bytes, str_eq, eq_iff, arith,
  if◌then◌else◌, ltb,
}
use dota_cuck.Prelude.Result.{ok, err}
use dota_cuck.Auth.Crypto.{derive_key}
use dota_cuck.Auth.Jwt.{second, issue, verify, invalid_token}
use dota_cuck.Auth.Jwt.Expiry.{verify-issue}
use dota_cuck.Auth.KeyCache.{KeyCache, put_key, get_key}
use dota_cuck.Api.State.{Deps, Server, Env, log_in}

get_key-put_key :
    (c : KeyCache) (user_id : String) (key : Bytes) (now later : ℕ)
    → (get_key (put_key c user_id key now) user_id later).1
      ≡ (if ltb later (now + c.ttl) then some key else none)
unfolding get_key put_key
get_key-put_key c user_id key now later = ground (arith, eq_iff user_id user_id)

module _ (d : Deps) where
  -- With one lifetime for both, the key that a login caches and the token that it answers with end
  -- at two instants: the key less than a second after the token, and the token after the key by no
  -- more than the time between the two readings of the clock. Before these instants and not from
  -- them on, the cache has the key and the token verifies to the user.
  pub log_in_ends :
      (s s' : Server) (env : Env) (id : String) (password salt key token : Bytes) (status : ℕ)
      → s.keys.ttl ≡ d.tokens.ttl
      → env.now ≤ env.issued_now
      → str_eq id "" ≡ false
      → derive_key d.argon password salt ≡ some key
      → issue d.jwt d.tokens id env.issued_now ≡ some token
      → (log_in d s env id password salt status).0 ≡ s'
      → (key_end : ℕ) × (token_end : ℕ) × (key_end < token_end + second)
        × (token_end ≤ key_end + (env.issued_now - env.now))
        × ((t : ℕ) → (get_key s'.keys id t).1 ≡ (if ltb t key_end then some key else none))
        × ((t : ℕ)
            → verify d.jwt d.tokens token t
              ≡ (if ltb t token_end then ok id else err invalid_token))
  unfolding log_in
  log_in_ends s s' env id password salt key token status same clock some_id derived issued done = (
    env.now + d.tokens.ttl,
    (env.issued_now + d.tokens.ttl) / second * second,
    omega arith,
    omega arith,
    λ t. ground (arith, get_key-put_key s.keys id key env.now t),
    λ t. ground (arith, verify-issue d.jwt d.tokens id env.issued_now t token),
  )
