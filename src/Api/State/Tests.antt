-- ===== src/Api/State/Tests.antt =====
-- How long a login at 5 s lasts, with a lifetime of a minute.
use dota_cuck.Prelude.{
  ℕ, ◌+◌, ◌-◌, ◌*◌, ◌%◌, true, false, [], ◌<◌, ◌≤◌, ◌≡◌, refl, none, some, arith, Bytes, empty,
  codes, ltb, if◌then◌else◌,
}
use dota_cuck.Prelude.Result.{ok, err}
use dota_cuck.Auth.Phc.{default_password_params}
use dota_cuck.Auth.Crypto.{derive_key}
use dota_cuck.Auth.KeyCache.{new_key_cache, put_key, get_key}
use dota_cuck.Auth.Jwt.{second, issue, verify, invalid_token}
use dota_cuck.Auth.StandIns.{
  replicate, sum, toy_argon, toy_hmac, toy_aead, toy_jwt, toy_random, toy_secret, toy_token,
}
use dota_cuck.Api.State.{Deps, Server, Env, log_in}
use dota_cuck.Api.State.SessionLength.{log_in_ends}

abbrev deps : Deps
deps = record {
  hmac = toy_hmac;
  argon = toy_argon;
  aead = toy_aead;
  jwt = toy_jwt;
  hasher = record { pepper = codes "pep"; params = default_password_params };
  tokens = record { secret = toy_secret; ttl = 60 * second };
  has_links = true;
}

abbrev before : Server
before = record {
  db = record { users = []; steam_accounts = [] };
  keys = new_key_cache (60 * second);
  link_reqs = empty;
}

abbrev at_five : Env
at_five = record {
  pg = record { fails = false; fresh_id = "id-1"; now = 100; read_uuid = λ s. some s };
  random = toy_random;
  salt_random = toy_random;
  now = 5 * second - 7;
  issued_now = 5 * second;
}

abbrev alice_key : Bytes
alice_key = replicate 32 ((sum (codes "hunter2") + sum (codes "salt")) % 256)

abbrev after : Server
after = record before { keys = put_key before.keys "id-1" alice_key at_five.now }

derived : derive_key toy_argon (codes "hunter2") (codes "salt") ≡ some alice_key
unfolding derive_key
derived = refl

issued : issue toy_jwt deps.tokens "id-1" (5 * second) ≡ some toy_token
unfolding issue
issued = refl

logged_in : (log_in deps before at_five "id-1" (codes "hunter2") (codes "salt") 200).0 ≡ after
unfolding log_in derive_key
logged_in = refl

same_ttl : before.keys.ttl ≡ deps.tokens.ttl
unfolding new_key_cache
same_ttl = refl

log_in_ends_example :
    (key_end : ℕ) × (token_end : ℕ) × (key_end < token_end + second)
    × (token_end ≤ key_end + (5 * second - (5 * second - 7)))
    × ((t : ℕ) → (get_key after.keys "id-1" t).1 ≡ (if ltb t key_end then some alice_key else none))
    × ((t : ℕ)
        → verify toy_jwt deps.tokens toy_token t
          ≡ (if ltb t token_end then ok "id-1" else err invalid_token))
log_in_ends_example =
    log_in_ends deps before after at_five "id-1" (codes "hunter2") (codes "salt") alice_key
      toy_token 200 same_ttl (omega arith) refl derived issued logged_in
