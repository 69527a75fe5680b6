-- ===== src/Api/Router/Tests.antt =====
-- The routes tried on small states.
use dota_cuck.Prelude.{◌⊎◌, ◌*◌, ◌≡◌, refl, String, [], none, some, codes, bytes_eq}
use dota_cuck.Prelude.Result.{err}
use dota_cuck.Auth.KeyCache.{delete_key}
use dota_cuck.Auth.Jwt.{second}
use dota_cuck.Api.Models.{write_error}
use dota_cuck.Api.State.{require_auth, logout}
use dota_cuck.Api.Accounts.{add_steam_account}
use dota_cuck.Api.Friends.{list_friends}
use dota_cuck.Api.Router.{guarded, get_accounts, handle_guarded, serve}
use dota_cuck.Api.Router.Access.{Authorizes, serve-Authorizes, logout_locks}
use dota_cuck.Api.Samples.{deps, answering, logged_in, linking, request, no_time, world}

junk_missing :
    require_auth deps (6 * second) (codes "Basic abc")
    ≡ err (write_error 401 "missing bearer token")
unfolding require_auth bytes_eq
junk_missing = refl

serve-Authorizes_example :
    ((user_id : String) × Authorizes deps world.auth_now (codes "Basic abc") user_id
      × (serve deps no_time (λ fs. fs) logged_in world (codes "Basic abc") (guarded get_accounts)
          ≡ handle_guarded deps no_time (λ fs. fs) logged_in world user_id get_accounts))
    ⊎ (¬ ((user_id : String) × Authorizes deps world.auth_now (codes "Basic abc") user_id)
        × ((serve deps no_time (λ fs. fs) logged_in world (codes "Basic abc") (guarded get_accounts)
              ≡ (logged_in, write_error 401 "missing bearer token", []))
            ⊎ (serve deps no_time
                  (λ fs. fs)
                  logged_in
                  world
                  (codes "Basic abc")
                  (guarded get_accounts)
                ≡ (logged_in, write_error 401 "invalid token", []))))
serve-Authorizes_example =
    serve-Authorizes deps no_time (λ fs. fs) logged_in world (codes "Basic abc") get_accounts

logged_out :
    (logout deps linking "id-1").0 ≡ record linking { keys = delete_key linking.keys "id-1" }
unfolding logout
logged_out = refl

logout_locks_example :
    (list_friends deps
        (λ fs. fs)
        (λ token. none)
        (record linking { keys = delete_key linking.keys "id-1" })
        (answering "x")
        (answering "y")
        (6 * second)
        "id-1"
      ≡ list_friends deps
          (λ fs. fs)
          (λ token. some (record { owner_steam_id = "7"; friends = [] }))
          (record linking { keys = delete_key linking.keys "id-1" })
          (answering "x")
          (answering "y")
          (6 * second)
          "id-1")
    × ((add_steam_account deps
          (record linking { keys = delete_key linking.keys "id-1" })
          (answering "x")
          (6 * second)
          "r"
          "id-1"
          (some request)).2
        ≡ [])
    × ((add_steam_account deps
          (record linking { keys = delete_key linking.keys "id-1" })
          (answering "x")
          (6 * second)
          "r"
          "id-1"
          (some request)).0.db
        ≡ linking.db)
logout_locks_example =
    logout_locks deps (λ fs. fs) (λ token. none)
      (λ token. some (record { owner_steam_id = "7"; friends = [] })) linking
      (record linking { keys = delete_key linking.keys "id-1" }) (answering "x") (answering "y")
      (6 * second) "id-1" "r" (some request) logged_out
