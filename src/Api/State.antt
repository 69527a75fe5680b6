-- ===== src/Api/State.antt =====
-- control-plane/internal/api/router.go, middleware.go and auth.go: the server's state, its fixed
-- collaborators, the check of the bearer token, and registering, logging in and out. A handler
-- runs as one step; a panic ends it with `Recoverer`'s response and keeps what was written.
pub mod Login
pub mod SessionLength
mod Tests
use dota_cuck.Prelude.{
  ℕ, String, Bool, true, false, ◌||◌, Option, none, some, Bytes, Dict, empty, put, remove, is_empty,
  str_eq, if◌then◌else◌,
}
use dota_cuck.Prelude.Result.{Result, ok, err}
use dota_cuck.Auth.Primitives.{Argon2, Aead, Random}
use dota_cuck.Auth.Hasher
use dota_cuck.Auth.Hasher.{Hasher}
use dota_cuck.Auth.Crypto.{kdf_salt_len, new_salt, derive_key}
use dota_cuck.Auth.KeyCache.{KeyCache, put_key, delete_key}
use dota_cuck.Auth.Jwt.{JwtLibrary, TokenManager, issue, verify}
use dota_cuck.Auth.Phc.{PhcError}
use dota_cuck.Store.{UserRow, Db, Postgres, StoreError}
use dota_cuck.Store.Users
use dota_cuck.Api.Models.{
  RegisterRequest, LoginRequest, Response, write_error, write_json, panicked, login_response,
  no_content,
}
use dota_cuck.Api.Bearer.{bearer_token}

-- What `Server` holds that never changes, and the primitives behind it. `read_exp` reads the `exp`
-- claim of a JSON text, `format_time` is the RFC 3339 layout; `has_links` is `s.links != nil`.
pub record Deps : Type 0 where
  pub hmac : Bytes → Bytes → Bytes
  pub argon : Argon2
  pub aead : Aead
  pub jwt : JwtLibrary
  pub hasher : Hasher
  pub tokens : TokenManager
  pub has_links : Bool

-- What changes: the database, the key cache, and the request id of each account's link.
pub record Server : Type 0 where
  pub db : Db
  pub keys : KeyCache
  pub link_reqs : Dict String

-- What a request meets: the database, the random source of the password hash and that of the key
-- salt, the clock when a key is cached or looked up, and the clock when a token is issued.
pub record Env : Type 0 where
  pub pg : Postgres
  pub random : Random
  pub salt_random : Random
  pub now : ℕ
  pub issued_now : ℕ

module _ (d : Deps) where
  open d use {hmac, argon, jwt, hasher, tokens}

  -- `requireAuth`: the user id, or the response. `header` is the Authorization header's text.
  abbrev authorize_token : ℕ → Option Bytes → Result Response String
  authorize_token now none = err (write_error 401 "missing bearer token")
  authorize_token now (some token) = elim (verify jwt tokens token now) [
    | err _ ↦ err (write_error 401 "invalid token")
    | ok user_id ↦ ok user_id
  ]

  unfoldable pub require_auth : ℕ → Bytes → Result Response String
  unfolding bearer_token
  require_auth now header = authorize_token now (bearer_token header)

  unfoldable pub issue_token : Env → String → ℕ → Response
  issue_token env user_id status = elim (issue jwt tokens user_id env.issued_now) [
    | none ↦ write_error 500 "could not issue token"
    | some token ↦ write_json status (login_response token)
  ]

  -- `s.keys.Put(id, auth.DeriveKey(password, salt))`, then `issueToken`.
  unfoldable pub log_in : Server → Env → String → Bytes → Bytes → ℕ → Server × Response
  log_in s env id password salt status = elim (derive_key argon password salt) [
    | none ↦ (s, panicked)
    | some key ↦ (record s { keys = put_key s.keys id key env.now }, issue_token env id status)
  ]

  unfoldable pub created :
      Server → Env → Bytes → Bytes → Result StoreError String → Server × Response
  created s env password salt (ok id) = log_in s env id password salt 201
  created s env password salt (err StoreError.username_taken) =
      (s, write_error 409 "username already taken")
  created s env password salt (err _) = (s, write_error 500 "could not create user")

  abbrev register_salted : Server → Env → RegisterRequest → Bytes → Option Bytes → Server × Response
  register_salted s env req hash none = (s, write_error 500 "could not generate salt")
  register_salted s env req hash (some salt) =
      let (db, r) = Users.create s.db env.pg req.username hash salt in
      created (record s { db = db }) env req.password salt r

  abbrev register_hashed :
      Server → Env → RegisterRequest → Option (Result Hasher.ReadError Bytes) → Server × Response
  register_hashed s env req none = (s, panicked)
  register_hashed s env req (some (err _)) = (s, write_error 500 "could not hash password")
  register_hashed s env req (some (ok hash)) =
      register_salted s env req hash (new_salt env.salt_random kdf_salt_len)

  abbrev register_request : Server → Env → RegisterRequest → Server × Response
  register_request s env req =
      if str_eq req.username "" || is_empty req.password
      then (s, write_error 400 "username and password are required")
      else register_hashed s env req (Hasher.hash hmac argon env.random hasher req.password)

  -- `Register`
  unfoldable pub register : Server → Env → Option RegisterRequest → Server × Response
  register s env none = (s, write_error 400 "invalid request body")
  register s env (some req) = register_request s env req

  abbrev login_verified :
      Server → Env → LoginRequest → UserRow → Option (Result PhcError Bool) → Server × Response
  login_verified s env req user none = (s, panicked)
  login_verified s env req user (some (err _)) = (s, write_error 401 "invalid credentials")
  login_verified s env req user (some (ok false)) = (s, write_error 401 "invalid credentials")
  login_verified s env req user (some (ok true)) =
      log_in s env user.id req.password user.kdf_salt 200

  abbrev login_found : Server → Env → LoginRequest → Result StoreError UserRow → Server × Response
  login_found s env req (err StoreError.user_not_found) = (s, write_error 401 "invalid credentials")
  login_found s env req (err _) = (s, write_error 500 "login failed")
  login_found s env req (ok user) =
      login_verified s env req user
        (Hasher.verify hmac argon hasher req.password user.password_hash)

  -- `Login`
  unfoldable pub login : Server → Env → Option LoginRequest → Server × Response
  login s env none = (s, write_error 400 "invalid request body")
  login s env (some req) = login_found s env req (Users.get_by_username s.db env.pg req.username)

  -- `Logout` behind `requireAuth`
  unfoldable pub logout : Server → String → Server × Response
  unfolding delete_key
  logout s user_id = (record s { keys = delete_key s.keys user_id }, write_json 204 no_content)
