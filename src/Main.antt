-- ===== src/Main.antt =====
-- control-plane/cmd/server/main.go: reading the environment and wiring the server. A start that
-- fails logs the error and exits with code 1.
pub mod Startup
pub mod Shutdown
mod Tests
use dota_cuck.Prelude.{ℕ, ◌*◌, String, Bool, List, [], Bytes, codes, str_eq, if◌then◌else◌}
use dota_cuck.Prelude.Result.{Result, ok, err, or_fail, ◌>>=◌}
use dota_cuck.Go.Utf8.{utf8}
use dota_cuck.Auth.Hasher.{Hasher, new_hasher}
use dota_cuck.Auth.Jwt.{TokenManager, second, new_token_manager}
use dota_cuck.Auth.KeyCache.{new_key_cache}
use dota_cuck.Store.Pool.{Driver, PoolError, Store, new_store}
use dota_cuck.Workers.Server
use dota_cuck.Workers.Server.{new_server}
use dota_cuck.Api.State
use dota_cuck.Api.Router
use dota_cuck.Api.Hub.{Hub, new_hub}

-- `env`: `os.Getenv` gives the empty text for a variable that is not set.
unfoldable pub env : (String → String) → String → String → String
env getenv key default = if str_eq (getenv key) "" then default else getenv key

pub data StartError : Type 0 where
  missing : String → StartError
  init_hasher init_tokens connect_database : StartError

-- `mustEnv`; a secret is then used as its bytes, in UTF-8.
unfoldable pub must_env : (String → String) → String → Result StartError String
must_env getenv key = if str_eq (getenv key) "" then err (missing key) else ok (getenv key)

-- 24 hours
abbrev pub session_ttl : ℕ
session_ttl = 86400 * second

abbrev or_error {ℓ} : {E F A : Type ℓ} → Result E A → F → Result F A
or_error (ok a) f = ok a
or_error (err e) f = err f

-- What `main` has built when it starts to listen.
pub record App : Type 0 where
  pub grpc_addr : String
  pub http_addr : String
  pub hasher : Hasher
  pub tokens : TokenManager
  pub worker_srv : Server.Server String
  pub hub : Hub
  pub api : State.Server

unfoldable pub start : (String → String) → Driver → Result StartError App
unfolding env must_env new_hasher new_token_manager new_store
start getenv driver = do
  let grpc_addr = env getenv "GRPC_LISTEN_ADDR" ":42010"
  let http_addr = env getenv "HTTP_LISTEN_ADDR" ":42000"
  database_url ← must_env getenv "DATABASE_URL"
  jwt_secret ← must_env getenv "JWT_SECRET"
  credential_pepper ← must_env getenv "CREDENTIAL_PEPPER"
  hasher ← or_fail (new_hasher (utf8 (codes credential_pepper))) init_hasher
  tokens ← or_error (new_token_manager (utf8 (codes jwt_secret)) session_ttl) init_tokens
  store ← or_error (new_store driver database_url).0 connect_database
  ok (record {
    grpc_addr = grpc_addr;
    http_addr = http_addr;
    hasher = hasher;
    tokens = tokens;
    worker_srv = new_server String;
    hub = new_hub;
    api = Router.new_server store.db (new_key_cache session_ttl);
  })
