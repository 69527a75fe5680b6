-- ===== src/Api/LinkProvider.antt =====
-- control-plane/cmd/server/main.go: `linkProvider` and `guardTypeString`, which run a link on the
-- worker server and report to the callbacks of control-plane/internal/api/steam_accounts.go. The
-- callbacks that `Link` registers are the account's, so the worker server stores its id for them.
pub mod Reports
pub mod Codes
pub mod Guided
mod Tests
use Prim.Native.String.{◌++◌}
use dota_cuck.Prelude.{String, List, [], Option, none, some, Bytes}
use dota_cuck.Go.Scan.{ℤ}
use dota_cuck.Auth.Primitives.{Random}
use dota_cuck.Store.{Postgres}
use dota_cuck.Workers.Messages.{SteamGuardType, unknown_guard, email, mobile, LinkResult}
use dota_cuck.Workers.Server
use dota_cuck.Workers.Server.{Callback, Begun, begin_link}
use dota_cuck.Api.State.{Deps, Server}
use dota_cuck.Api.Accounts.{Effect, on_guard, on_qr_challenge, on_linked, on_error}

unfoldable pub guard_type_string : SteamGuardType → String
guard_type_string email = "EMAIL"
guard_type_string mobile = "MOBILE"
guard_type_string unknown_guard = ""

-- `StartLink` up to the wait in `Link`.
unfoldable pub begin :
    Server.Server String → String → String → Bytes → String → Server.Server String × Begun String
begin ws req_id username password account_id =
    begin_link String ws req_id username password (some account_id) (some account_id)

-- What `Link` returns: an error's text or the worker's reply.
pub data Ending : Type 0 where
  failed : String → Ending
  replied : LinkResult → Ending

module _ (d : Deps) where
  -- The function that `StartLink` passes to `Link` for a prompt.
  unfoldable pub notify : Server → Callback String → Server × List Effect
  unfolding guard_type_string
  notify s (Callback.on_guard account_id guard_type) =
      on_guard d s account_id (guard_type_string guard_type)
  notify s (Callback.on_challenge account_id url) = on_qr_challenge d s account_id url

  -- `StartLink` after `Link` returned.
  unfoldable pub finish :
      (Bytes → Option ℤ)
      → Server
      → Postgres
      → Random
      → String
      → Bytes
      → Ending
      → Server × List Effect
  finish read_exp s pg random account_id key (failed message) = on_error d s account_id message
  finish read_exp s pg random account_id key (replied res) = elim res.error [
    | some e ↦ on_error d s account_id (e.code ++ ": " ++ e.message)
    | none ↦ on_linked d read_exp s pg random account_id key res.owner_steam_id res.refresh_token
  ]
