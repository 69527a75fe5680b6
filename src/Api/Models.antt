-- ===== src/Api/Models.antt =====
-- control-plane/internal/api/models.go and json.go: what the handlers read and write. A body that
-- `decodeJSON` refuses is `none`.
use dota_cuck.Prelude.{ℕ, String, Bool, List, Bytes}

pub record RegisterRequest : Type 0 where
  pub username : String
  pub password : Bytes

abbrev pub LoginRequest : Type 0
LoginRequest = RegisterRequest

pub record SteamAccountRequest : Type 0 where
  pub steam_username : String
  pub steam_password : Bytes

pub record SteamGuardRequest : Type 0 where
  pub code : String

-- `SteamAccount`
pub record SteamAccountDto : Type 0 where
  pub id : String
  pub steam_id : String
  pub steam_username : String
  pub created_at : String

pub record Friend : Type 0 where
  pub steam_id : String
  pub persona_name : Bytes
  pub online : Bool
  pub in_match : Bool

-- The bodies of the responses; `recovered` is the empty one that chi's `Recoverer` leaves behind a
-- panic, `no_content` that of a bare status.
pub data Body : Type 0 where
  error_response : String → Body
  login_response : Bytes → Body
  steam_account : SteamAccountDto → Body
  steam_accounts : List SteamAccountDto → Body
  friends : List Friend → Body
  no_content recovered : Body

pub record Response : Type 0 where
  pub status : ℕ
  pub body : Body

-- `writeError`
abbrev pub write_error : ℕ → String → Response
write_error status message = record { status = status; body = error_response message }

abbrev pub write_json : ℕ → Body → Response
write_json status body = record { status = status; body = body }

abbrev pub panicked : Response
panicked = record { status = 500; body = recovered }
