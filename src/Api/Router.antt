-- ===== src/Api/Router.antt =====
-- control-plane/internal/api/router.go and handlers.go: the routes under /api and which of them
-- stand behind `requireAuth`. Matching a method and a path against them is chi's work: a request
-- comes with its route, the `{id}` of its path, and its decoded body.
pub mod Access
pub mod Exchange
mod Tests
use dota_cuck.Prelude.{ℕ, Bool, String, List, [], Option, none, some, Bytes, empty}
use dota_cuck.Prelude.Result.{Result, ok, err}
use dota_cuck.Go.Hex.{encode_hex}
use dota_cuck.Auth.Primitives.{Random}
use dota_cuck.Auth.KeyCache.{KeyCache}
use dota_cuck.Store.{Db, Postgres}
use dota_cuck.Api.Models.{
  RegisterRequest, LoginRequest, SteamAccountRequest, SteamGuardRequest, Friend, Response,
  write_error,
}
use dota_cuck.Api.State.{Deps, Server, Env, require_auth, register, login, logout}
use dota_cuck.Api.Accounts.{
  Reply, add_steam_account, submit_account_steam_guard, delete_steam_account, list_steam_accounts,
}
use dota_cuck.Api.Friends.{FriendList, list_friends}

-- `NewServer`: no link is in progress.
unfoldable pub new_server : Db → KeyCache → Server
new_server db keys = record { db = db; keys = keys; link_reqs = empty }

-- `newRequestID`, whose `rand.Read` never fails; the slice was made with 16 zero bytes.
unfoldable pub new_request_id : Random → String
unfolding encode_hex
new_request_id random = elim (random 16) [
  | none ↦ "00000000000000000000000000000000"
  | some b ↦ encode_hex b
]

-- The routes that `requireAuth` guards, below /api.
pub data Guarded : Type 0 where
  post_logout : Guarded  -- POST /auth/logout
  get_accounts : Guarded  -- GET /steam/accounts
  post_account : Option SteamAccountRequest → Guarded  -- POST /steam/accounts
  delete_account : String → Guarded  -- DELETE /steam/accounts/{id}
  post_account_code : String → Option SteamGuardRequest → Guarded  -- POST /steam/accounts/{id}/steamguard
  get_friends : Guarded  -- GET /friends
  post_sessions : Guarded  -- POST /sessions
  get_sessions_id : String → Guarded  -- GET /sessions/{id}
  delete_sessions_id : String → Guarded  -- DELETE /sessions/{id}
  post_sessions_id_steamguard : String → Guarded  -- POST /sessions/{id}/steamguard

pub data Route : Type 0 where
  post_register : Option RegisterRequest → Route  -- POST /auth/register
  post_login : Option LoginRequest → Route  -- POST /auth/login
  guarded : Guarded → Route

-- What a request meets outside the server: the handlers' `Env`, the database's answer to a second
-- statement, the clock of `requireAuth`, the random source of a new request
-- id, whether the worker takes a relayed code,
-- and what it answers to a friends request with a token.
pub record World : Type 0 where
  pub env : Env
  pub later : Postgres
  pub auth_now : ℕ
  pub id_random : Random
  pub relayed : Bool
  pub fetch : Bytes → Option FriendList

-- `notImplemented`: `http.Error` writes this JSON text as plain text.
abbrev pub not_implemented : Response
not_implemented = write_error 501 "not implemented"

-- The handlers that are stubs.
abbrev pub create_session : Server → Reply
create_session s = (s, not_implemented, [])

abbrev pub get_session : Server → Reply
get_session s = (s, not_implemented, [])

abbrev pub delete_session : Server → Reply
delete_session s = (s, not_implemented, [])

abbrev pub submit_steam_guard : Server → Reply
submit_steam_guard s = (s, not_implemented, [])

abbrev without_effects : Server × Response → Reply
without_effects (s, r) = (s, r, [])

module _ (d : Deps) (format_time : ℕ → String) (sort_friends : List Friend → List Friend) where
  -- The handler of a guarded route, for the user of the token.
  unfoldable pub handle_guarded : Server → World → String → Guarded → Reply
  unfolding new_request_id
  handle_guarded s w user_id post_logout = without_effects (logout d s user_id)
  handle_guarded s w user_id get_accounts =
      (s, list_steam_accounts format_time s w.env.pg user_id, [])
  handle_guarded s w user_id (post_account body) =
      add_steam_account d s w.env.pg w.env.now (new_request_id w.id_random) user_id body
  handle_guarded s w user_id (delete_account id) = delete_steam_account d s w.env.pg user_id id
  handle_guarded s w user_id (post_account_code id body) =
      submit_account_steam_guard d s w.env.pg w.relayed user_id id body
  handle_guarded s w user_id get_friends =
      without_effects (list_friends d sort_friends w.fetch s w.env.pg w.later w.env.now user_id)
  handle_guarded s w user_id post_sessions = create_session s
  handle_guarded s w user_id (get_sessions_id id) = get_session s
  handle_guarded s w user_id (delete_sessions_id id) = delete_session s
  handle_guarded s w user_id (post_sessions_id_steamguard id) = submit_steam_guard s

  abbrev guard_route : Server → World → Guarded → Result Response String → Reply
  guard_route s w g (err refusal) = (s, refusal, [])
  guard_route s w g (ok user_id) = handle_guarded s w user_id g

  -- A request with this Authorization header.
  unfoldable pub serve : Server → World → Bytes → Route → Reply
  unfolding require_auth
  serve s w header (post_register body) = without_effects (register d s w.env body)
  serve s w header (post_login body) = without_effects (login d s w.env body)
  serve s w header (guarded g) = guard_route s w g (require_auth d w.auth_now header)
