-- ===== src/Main/Tests.antt =====
-- A start with and without its secrets.
use dota_cuck.Prelude.{◌⊎◌, ◌≡◌, refl, String, true, [], str_eq, if◌then◌else◌}
use dota_cuck.Prelude.Result.{ok, err}
use dota_cuck.Store.Pool.{Driver}
use dota_cuck.Main.{StartError, App, missing, start}
use dota_cuck.Main.Startup.{CanStart, IsFresh, Stops, start-IsFresh}

abbrev up : Driver
up = record {
  opens = λ url. true;
  pings = λ url. true;
  tables = λ url. record { users = []; steam_accounts = [] };
}

abbrev environment : String → String
environment key =
    if str_eq key "JWT_SECRET"
    then "s"
    else if str_eq key "CREDENTIAL_PEPPER"
    then "pep"
    else if str_eq key "DATABASE_URL"
    then "postgres://db"
    else ""

no_secret :
    start (λ key. if str_eq key "DATABASE_URL" then "u" else "") up ≡ err (missing "JWT_SECRET")
unfolding start
no_secret = refl

start-IsFresh_example :
    (CanStart environment up
      × ((app : App) × (start environment up ≡ ok app) × IsFresh environment up app))
    ⊎ ((e : StartError) × (start environment up ≡ err e) × Stops environment up e)
start-IsFresh_example = start-IsFresh environment up
