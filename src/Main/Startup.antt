-- ===== src/Main/Startup.antt =====
-- When the server starts, and with what.
use dota_cuck.Prelude.{
  ℕ, ◌*◌, ◌≡◌, ◌⊎◌, refl, String, Bool-cases, inl, inr, true, false, none, [], ◌&&◌, codes,
  is_empty, str_eq, eq_iff, arith,
}
use dota_cuck.Prelude.Result.{ok, err}
use dota_cuck.Go.Utf8.{utf8}
use dota_cuck.Auth.Phc.{default_password_params}
use dota_cuck.Auth.KeyCache.{new_key_cache, get_key}
use dota_cuck.Auth.Jwt.{second}
use dota_cuck.Store.Pool.{Driver}
use dota_cuck.Workers.Registry.{new_registry}
use dota_cuck.Workers.Pending.{new_pending}
use dota_cuck.Workers.Server.{new_server}
use dota_cuck.Api.Hub.{new_hub}
use dota_cuck.Api.Router
use dota_cuck.Main.{session_ttl, StartError, missing, connect_database, App, env, start}

some_bytes : (s : String) → str_eq s "" ≡ false → is_empty (utf8 (codes s)) ≡ false
unfolding utf8
some_bytes String.[] h = absurd (ground (arith, eq_iff "" ""))
some_bytes (String.◌∷◌ c s) h = ground arith

module _ (getenv : String → String) (driver : Driver) where
  -- The variable is not set, or empty.
  abbrev pub Unset : String → Type 0
  Unset key = str_eq (getenv key) "" ≡ true

  abbrev pub Given : String → Type 0
  Given key = str_eq (getenv key) "" ≡ false

  -- What stops a start.
  abbrev pub Stops : StartError → Type 0
  Stops e =
      (Unset "DATABASE_URL" × (e ≡ missing "DATABASE_URL"))
      ⊎ (Given "DATABASE_URL" × Unset "JWT_SECRET" × (e ≡ missing "JWT_SECRET"))
      ⊎ (Given "DATABASE_URL"
          × Given "JWT_SECRET"
          × Unset "CREDENTIAL_PEPPER"
          × (e ≡ missing "CREDENTIAL_PEPPER"))
      ⊎ (Given "DATABASE_URL"
          × Given "JWT_SECRET"
          × Given "CREDENTIAL_PEPPER"
          × ((driver.opens (getenv "DATABASE_URL") && driver.pings (getenv "DATABASE_URL")) ≡ false)
          × (e ≡ connect_database))

  abbrev pub CanStart : Type 0
  CanStart =
      Given "DATABASE_URL"
      × Given "JWT_SECRET"
      × Given "CREDENTIAL_PEPPER"
      × ((driver.opens (getenv "DATABASE_URL") && driver.pings (getenv "DATABASE_URL")) ≡ true)

  -- No worker, no waiting call, no client, no link and no cached key; the secrets are the texts'
  -- bytes, and a token lives as long as a cached key, a day.
  abbrev pub IsFresh : App → Type 0
  IsFresh app =
      (app.hasher.pepper ≡ utf8 (codes (getenv "CREDENTIAL_PEPPER")))
      × (app.hasher.params ≡ default_password_params)
      × (app.tokens.secret ≡ utf8 (codes (getenv "JWT_SECRET")))
      × (app.tokens.ttl ≡ 86400 * second)
      × (app.api.keys.ttl ≡ app.tokens.ttl)
      × (app.api.db ≡ driver.tables (getenv "DATABASE_URL"))
      × (app.worker_srv.reg.current ≡ none)
      × ((id : String) → app.worker_srv.links.chans id ≡ none)
      × ((id : String) → app.worker_srv.pending.chans id ≡ none)
      × (app.hub.clients ≡ [])
      × ((id : String) → app.api.link_reqs id ≡ none)
      × ((id : String) (now : ℕ) → (get_key app.api.keys id now).1 ≡ none)

  abbrev built : App
  built = record {
    grpc_addr = env getenv "GRPC_LISTEN_ADDR" ":42010";
    http_addr = env getenv "HTTP_LISTEN_ADDR" ":42000";
    hasher = record {
      pepper = utf8 (codes (getenv "CREDENTIAL_PEPPER"));
      params = default_password_params;
    };
    tokens = record { secret = utf8 (codes (getenv "JWT_SECRET")); ttl = session_ttl };
    worker_srv = new_server String;
    hub = new_hub;
    api = Router.new_server (driver.tables (getenv "DATABASE_URL")) (new_key_cache session_ttl);
  }

  built-IsFresh : IsFresh built
  unfolding new_server new_registry new_pending new_hub Router.new_server new_key_cache get_key
  built-IsFresh = (
    refl,
    refl,
    refl,
    refl,
    refl,
    refl,
    refl,
    λ id. refl,
    λ id. refl,
    refl,
    λ id. refl,
    λ id now. refl,
  )

  -- `main` starts exactly with the three secrets and a database that opens and answers a ping; it
  -- names the first secret that is missing, in this order, or the database. A server that starts has
  -- no worker, no waiting call, no client, no link and no cached key, its secrets are the bytes of
  -- the variables, its tables are those of the database, and its tokens and cached keys live a day.
  pub start-IsFresh :
      (CanStart × ((app : App) × (start getenv driver ≡ ok app) × IsFresh app))
      ⊎ ((e : StartError) × (start getenv driver ≡ err e) × Stops e)
  unfolding start
  start-IsFresh = elim (Bool-cases (str_eq (getenv "DATABASE_URL") "")) [
    | inl no_url ↦ inr (missing "DATABASE_URL", ground arith, inl (no_url, refl))
    | inr url ↦ elim (Bool-cases (str_eq (getenv "JWT_SECRET") "")) [
      | inl no_jwt ↦ inr (missing "JWT_SECRET", ground arith, inr (inl (url, no_jwt, refl)))
      | inr jwt ↦ elim (Bool-cases (str_eq (getenv "CREDENTIAL_PEPPER") "")) [
        | inl no_pepper ↦ inr (
          missing "CREDENTIAL_PEPPER",
          ground (arith, some_bytes (getenv "JWT_SECRET")),
          inr (inr (inl (url, jwt, no_pepper, refl))),
        )
        | inr pepper ↦
            elim (Bool-cases
              (driver.opens (getenv "DATABASE_URL") && driver.pings (getenv "DATABASE_URL"))) [
                | inl up ↦ inl (
                  (url, jwt, pepper, up),
                  (
                    built,
                    ground (
                      arith,
                      some_bytes (getenv "JWT_SECRET") jwt,
                      some_bytes (getenv "CREDENTIAL_PEPPER") pepper,
                    ),
                    built-IsFresh,
                  ),
                )
                | inr down ↦ inr (
                  connect_database,
                  ground (
                    arith,
                    some_bytes (getenv "JWT_SECRET") jwt,
                    some_bytes (getenv "CREDENTIAL_PEPPER") pepper,
                  ),
                  inr (inr (inr (url, jwt, pepper, down, refl))),
                )
              ]
      ]
    ]
  ]
