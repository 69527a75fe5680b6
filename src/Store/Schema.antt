-- ===== src/Store/Schema.antt =====
-- The tables after the migrations 001 to 004, and the errors of the stores. A `uuid` is its
-- canonical text; other times are nanoseconds.
use dota_cuck.Prelude.{ℕ, String, Option, Bool, List, Bytes}
use dota_cuck.Go.Scan.{ℤ}

pub record UserRow : Type 0 where
  pub id : String
  pub username : String  -- UNIQUE NOT NULL
  pub password_hash : Bytes
  pub kdf_salt : Bytes
  pub created_at : ℕ

pub record SteamAccountRow : Type 0 where
  pub id : String
  pub user_id : String  -- REFERENCES users(id), UNIQUE
  pub steam_id : Option String
  pub steam_username : Option String
  pub enc_refresh_token : Option Bytes
  pub enc_refresh_nonce : Option Bytes
  pub refresh_token_expires : Option ℤ  -- Unix seconds
  pub created_at : ℕ

pub record Db : Type 0 where
  pub users : List UserRow
  pub steam_accounts : List SteamAccountRow

-- What PostgreSQL brings to a statement: whether it fails for a reason outside the schema (the
-- connection, the context, a text it cannot store), the values of `uuidv7()` and `now()`, and how
-- it reads a text as a `uuid`.
pub record Postgres : Type 0 where
  pub fails : Bool
  pub fresh_id : String
  pub now : ℕ
  pub read_uuid : String → Option String

pub data StoreError : Type 0 where
  username_taken user_not_found steam_account_exists steam_account_not_found : StoreError
  failed : StoreError
