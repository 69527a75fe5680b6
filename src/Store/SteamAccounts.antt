-- ===== src/Store/SteamAccounts.antt =====
-- control-plane/internal/store/steam_accounts.go.
use dota_cuck.Prelude.{
  ℕ, String, Bool, ◌||◌, ◌&&◌, List, [], ◌∷◌, Option, none, some, Bytes, str_eq, if◌then◌else◌,
}
use dota_cuck.Prelude.Result.{Result, ok, err}
use dota_cuck.Store.Table.{find, any_row, has_key, update_rows, delete_rows}
use dota_cuck.Go.Scan.{ℤ}
use dota_cuck.Store.Schema.{
  SteamAccountRow, Db, Postgres, StoreError, steam_account_exists, steam_account_not_found, failed,
}

pub record SteamAccount : Type 0 where
  pub id : String
  pub user_id : String
  pub steam_id : String
  pub steam_username : String
  pub enc_refresh_token : Bytes
  pub enc_refresh_nonce : Bytes
  pub refresh_token_expires : Option ℤ
  pub created_at : ℕ

-- `nil` for the empty text: NULLIF($1, '')
abbrev pub null_if_empty : String → Option String
null_if_empty s = if str_eq s "" then none else some s

abbrev pub coalesce {ℓ} : {A : Type ℓ} → Option A → Option A → Option A
coalesce none b = b
coalesce (some a) b = some a

abbrev pub or_empty : Option String → String
or_empty none = ""
or_empty (some s) = s

-- A NULL `bytea` is scanned as `nil`.
abbrev pub or_nil : Option Bytes → Bytes
or_nil none = []
or_nil (some s) = s

-- A parameter that is no `uuid` fails the statement.
abbrev pub with_uuid {ℓ} : {A : Type ℓ} → Postgres → String → A → (String → A) → A
with_uuid pg text bad use_id =
    if pg.fails then bad else elim (pg.read_uuid text) [ none ↦ bad | some u ↦ use_id u ]

unfoldable pub new_row : Postgres → String → String → SteamAccountRow
new_row pg user_id steam_username = record {
  id = pg.fresh_id;
  user_id = user_id;
  steam_id = none;
  steam_username = null_if_empty steam_username;
  enc_refresh_token = none;
  enc_refresh_nonce = none;
  refresh_token_expires = none;
  created_at = pg.now;
}

-- The INSERT fails on a unique column, and on a user that does not exist.
unfoldable pub insert : Db → Postgres → String → String → Db × Result StoreError String
unfolding any_row new_row
insert db pg steam_username user_id =
    if any_row (has_key (λ a. a.user_id) user_id) db.steam_accounts
      || any_row (has_key (λ a. a.id) pg.fresh_id) db.steam_accounts
    then (db, err steam_account_exists)
    else if any_row (has_key (λ u. u.id) user_id) db.users
    then (
      record db { steam_accounts = new_row pg user_id steam_username ∷ db.steam_accounts },
      ok pg.fresh_id,
    )
    else (db, err failed)

unfoldable pub create : Db → Postgres → String → String → Db × Result StoreError String
unfolding insert
create db pg user_id steam_username =
    with_uuid pg user_id (db, err failed) (insert db pg steam_username)

-- An UPDATE or DELETE that meets no row is `ErrSteamAccountNotFound`.
abbrev pub affecting :
    Db → (SteamAccountRow → Bool) → List SteamAccountRow → Db × Result StoreError (Unit {0})
affecting db test rows =
    if any_row test db.steam_accounts
    then (record db { steam_accounts = rows }, ok tt)
    else (db, err steam_account_not_found)

unfoldable pub saved :
    String → String → Bytes → Bytes → Option ℤ → SteamAccountRow → SteamAccountRow
saved steam_id steam_username enc_token enc_nonce expires row = record row {
  enc_refresh_token = some enc_token;
  enc_refresh_nonce = some enc_nonce;
  refresh_token_expires = expires;
  steam_id = some steam_id;
  steam_username = coalesce (null_if_empty steam_username) row.steam_username;
}

unfoldable pub save_refresh_token :
    Db
    → Postgres
    → String
    → String
    → String
    → Bytes
    → Bytes
    → Option ℤ
    → Db × Result StoreError (Unit {0})
unfolding any_row update_rows saved
save_refresh_token db pg id steam_id steam_username enc_token enc_nonce expires =
    with_uuid pg id (db, err failed)
      λ u. affecting db (has_key (λ a. a.id) u) (
        update_rows (has_key (λ a. a.id) u)
          (saved steam_id steam_username enc_token enc_nonce expires) db.steam_accounts)

unfoldable pub with_steam_id : String → SteamAccountRow → SteamAccountRow
with_steam_id steam_id row = record row { steam_id = some steam_id }

unfoldable pub set_steam_id : Db → Postgres → String → String → Db × Result StoreError (Unit {0})
unfolding any_row update_rows with_steam_id
set_steam_id db pg id steam_id =
    with_uuid pg id (db, err failed)
      λ u.
        affecting db (has_key (λ a. a.id) u)
          (update_rows (has_key (λ a. a.id) u) (with_steam_id steam_id) db.steam_accounts)

abbrev pub owned_by : String → String → SteamAccountRow → Bool
owned_by id user_id a = str_eq a.id id && str_eq a.user_id user_id

unfoldable pub delete : Db → Postgres → String → String → Db × Result StoreError (Unit {0})
unfolding any_row delete_rows
delete db pg user_id id =
    with_uuid pg id (db, err failed)
      λ i.
        with_uuid pg user_id (db, err failed)
          λ u. affecting db (owned_by i u) (delete_rows (owned_by i u) db.steam_accounts)

unfoldable pub to_account : SteamAccountRow → SteamAccount
to_account a = record {
  id = a.id;
  user_id = a.user_id;
  steam_id = or_empty a.steam_id;
  steam_username = or_empty a.steam_username;
  enc_refresh_token = or_nil a.enc_refresh_token;
  enc_refresh_nonce = or_nil a.enc_refresh_nonce;
  refresh_token_expires = a.refresh_token_expires;
  created_at = a.created_at;
}

unfoldable pub get_by_user_id : Db → Postgres → String → Result StoreError SteamAccount
unfolding find to_account
get_by_user_id db pg user_id = with_uuid pg user_id (err failed) λ u.
    elim (find (has_key (λ a. a.user_id) u) db.steam_accounts) [
      | none ↦ err steam_account_not_found
      | some a ↦ ok (to_account a)
    ]
