-- ===== src/Api/Router/Exchange.antt =====
-- Requests and responses as texts: the routes of control-plane/internal/api/router.go with the
-- bodies that their handlers decode and write.
pub mod Session
mod Tests
use dota_cuck.Prelude.{ℕ, String, List, Bytes}
use dota_cuck.Api.Models.{Friend, Response}
use dota_cuck.Api.Requests.{
  register_request, login_request, steam_account_request, steam_guard_request,
}
use dota_cuck.Api.Responses.{body_text}
use dota_cuck.Api.State.{Deps, Server}
use dota_cuck.Api.Accounts.{Effect, Reply}
use dota_cuck.Api.Router.{
  Route, Guarded, World, post_register, post_login, guarded, post_account, post_account_code, serve,
}

-- The routes that take a body, with its text.
abbrev pub register_text : Bytes → Route
register_text text = post_register (register_request text)

abbrev pub login_text : Bytes → Route
login_text text = post_login (login_request text)

abbrev pub account_text : Bytes → Route
account_text text = guarded (post_account (steam_account_request text))

abbrev pub code_text : String → Bytes → Route
code_text id text = guarded (post_account_code id (steam_guard_request text))

-- What a client gets: the status and the body's text.
abbrev pub Answer : Type 0
Answer = ℕ × Bytes

abbrev answer : Response → Answer
answer r = (r.status, body_text r.body)

abbrev answered : Reply → Server × Answer × List Effect
answered (s, r, effects) = (s, answer r, effects)

module _ (d : Deps) (format_time : ℕ → String) (sort_friends : List Friend → List Friend) where
  unfoldable pub exchange : Server → World → Bytes → Route → Server × Answer × List Effect
  exchange s w header route = answered (serve d format_time sort_friends s w header route)
