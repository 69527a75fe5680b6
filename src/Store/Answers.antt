-- ===== src/Store/Answers.antt =====
-- What the stores answer after a write.
use mathlib.Core.Option
use text.Mathlib.TextPositions.{eq_refl}
use dota_cuck.Prelude.{
  ◌≡◌, ◌↔◌, ◌≢◌, refl, String, true, false, ◌∷◌, Option, none, some, arith, Bytes, str_eq, eq_iff,
  Bool-cases, Option-cases, inl, inr, if◌then◌else◌,
}
use dota_cuck.Prelude.Result.{Result, ok, err}
use dota_cuck.Store.Table.{
  find, any_row, has_key, update_rows, delete_rows, find-update_rows, find-delete_rows,
  find-delete_rows_self, any_row-find,
}
use dota_cuck.Go.Scan.{ℤ}
use dota_cuck.Store.Schema.{
  UserRow, SteamAccountRow, Db, Postgres, StoreError, username_taken, user_not_found,
  steam_account_not_found, failed,
}
use dota_cuck.Store.WellFormed.{IsWellFormed}
use dota_cuck.Store.Users
use dota_cuck.Store.SteamAccounts

pub create_ok :
    (db : Db) (pg : Postgres) (name : String) (hash salt : Bytes)
    → pg.fails ≡ false
    → any_row (has_key (λ u. u.username) name) db.users ≡ false
    → any_row (has_key (λ u. u.id) pg.fresh_id) db.users ≡ false
    → Users.create db pg name hash salt
      ≡ (record db { users = Users.new_row pg name hash salt ∷ db.users }, ok pg.fresh_id)
unfolding Users.create
create_ok db pg name hash salt up new_name new_id = ground arith

pub get_created :
    (db : Db) (pg : Postgres) (user : UserRow)
    → pg.fails ≡ false
    → Users.get_by_username (record db { users = user ∷ db.users }) pg user.username ≡ ok user
unfolding Users.get_by_username
get_created db pg user up = ground (arith, eq_refl user.username)

-- After a user is created, a lookup of its name gives the new row, and a lookup of any other name
-- gives what it gave before.
create-get_by_username :
    (db db' : Db) (pg later : Postgres) (name other id : String) (hash salt : Bytes)
    → Users.create db pg name hash salt ≡ (db', ok id)
    → later.fails ≡ false
    → Users.get_by_username db' later other ≡ (
        if str_eq name other
        then ok (Users.new_row pg name hash salt)
        else Users.get_by_username db later other)
unfolding Users.create Users.get_by_username
create-get_by_username db db' pg later name other id hash salt h up = ground arith

-- Creating a user fails with `ErrUsernameTaken` exactly when the statement runs and the name is
-- found, if the new id is fresh; the tables are then unchanged.
pub create_taken_iff :
    (db : Db) (pg : Postgres) (name : String) (hash salt : Bytes)
    → any_row (has_key (λ u. u.id) pg.fresh_id) db.users ≡ false
    → (Users.create db pg name hash salt ≡ (db, err username_taken))
      ↔ ((pg.fails ≡ false) × (Users.get_by_username db pg name ≢ err user_not_found))
unfolding Users.create Users.get_by_username
create_taken_iff db pg name hash salt fresh =
    let same = any_row-find (has_key (λ u. u.username) name) db.users in
    ((λ h. (ground arith, λ e. ground arith)), λ (up, found). ground arith)

abbrev pub map_result : {E A B : Type 0} → (A → B) → Result E A → Result E B
map_result f (ok a) = ok (f a)
map_result f (err e) = err e

-- The account as `SaveRefreshToken` leaves it.
abbrev pub with_token :
    String
    → String
    → Bytes
    → Bytes
    → Option ℤ
    → SteamAccounts.SteamAccount
    → SteamAccounts.SteamAccount
with_token steam_id steam_username token nonce expires a = record a {
  steam_id = steam_id;
  steam_username = if str_eq steam_username "" then a.steam_username else steam_username;
  enc_refresh_token = token;
  enc_refresh_nonce = nonce;
  refresh_token_expires = expires;
}

-- The answer of `GetByUserID` for the row that the query found.
abbrev found : Option SteamAccountRow → Result StoreError SteamAccounts.SteamAccount
found none = err steam_account_not_found
found (some a) = ok (SteamAccounts.to_account a)

save_inv :
    (db db' : Db) (pg : Postgres) (id uuid steam_id name : String) (token nonce : Bytes)
    (expires : Option ℤ)
    → SteamAccounts.save_refresh_token db pg id steam_id name token nonce expires ≡ (db', ok tt)
    → pg.read_uuid id ≡ some uuid
    → db'.steam_accounts
      ≡ update_rows
          (has_key (λ a. a.id) uuid)
          (SteamAccounts.saved steam_id name token nonce expires)
          db.steam_accounts
unfolding SteamAccounts.save_refresh_token
save_inv db db' pg id uuid steam_id name token nonce expires h e = ground arith

get_lem :
    (db : Db) (pg : Postgres) (user_id : String)
    → SteamAccounts.get_by_user_id db pg user_id
      ≡ SteamAccounts.with_uuid pg user_id
          (err failed)
          λ u. found (find (has_key (λ a. a.user_id) u) db.steam_accounts)
unfolding SteamAccounts.get_by_user_id
get_lem db pg user_id = ground arith

saved-user_id :
    (steam_id name : String) (token nonce : Bytes) (expires : Option ℤ) (a : SteamAccountRow)
    → (SteamAccounts.saved steam_id name token nonce expires a).user_id ≡ a.user_id
unfolding SteamAccounts.saved
saved-user_id steam_id name token nonce expires a = refl

saved-found :
    (uuid steam_id name : String) (token nonce : Bytes) (expires : Option ℤ)
    (r : Option SteamAccountRow)
    → found (
        Option.map
          (λ a.
            if has_key (λ b. b.id) uuid a
            then SteamAccounts.saved steam_id name token nonce expires a
            else a)
          r)
      ≡ map_result
          (λ a. if str_eq a.id uuid then with_token steam_id name token nonce expires a else a)
          (found r)
unfolding SteamAccounts.to_account SteamAccounts.saved
saved-found uuid steam_id name token nonce expires none = refl
saved-found uuid steam_id name token nonce expires (some a) = ground arith

-- After `SaveRefreshToken` succeeded for an account id, every user's account is what it was, but
-- that the account with this id has the token, nonce, expiry and Steam id that were saved, and the
-- username where one was given.
pub save_refresh_token-get_by_user_id :
    (db db' : Db) (pg later : Postgres) (id uuid steam_id name user_id : String)
    (token nonce : Bytes) (expires : Option ℤ)
    → SteamAccounts.save_refresh_token db pg id steam_id name token nonce expires ≡ (db', ok tt)
    → pg.read_uuid id ≡ some uuid
    → SteamAccounts.get_by_user_id db' later user_id
      ≡ map_result
          (λ a. if str_eq a.id uuid then with_token steam_id name token nonce expires a else a)
          (SteamAccounts.get_by_user_id db later user_id)
save_refresh_token-get_by_user_id db db' pg later id uuid steam_id name user_id token nonce expires
      h e =
    rw (get_lem db' later user_id, get_lem db later user_id)
      (elim (Bool-cases later.fails) [
        | inl down ↦ rw down
        | inr up ↦ rw up (elim (Option-cases (later.read_uuid user_id)) [
          | inl bad ↦ rw bad
          | inr (u, good) ↦
              rw
                (
                  good,
                  save_inv db db' pg id uuid steam_id name token nonce expires h e,
                  find-update_rows (λ a. a.user_id) u (has_key (λ a. a.id) uuid)
                      (SteamAccounts.saved steam_id name token nonce expires) db.steam_accounts
                      (saved-user_id steam_id name token nonce expires),
                )
                (saved-found uuid steam_id name token nonce expires _)
        ])
      ])

delete_inv :
    (db db' : Db) (pg : Postgres) (user_id id user_uuid : String)
    → SteamAccounts.delete db pg user_id id ≡ (db', ok tt)
    → pg.read_uuid user_id ≡ some user_uuid
    → (i : String) × (any_row (SteamAccounts.owned_by i user_uuid) db.steam_accounts ≡ true)
      × (db'.steam_accounts ≡ delete_rows (SteamAccounts.owned_by i user_uuid) db.steam_accounts)
unfolding SteamAccounts.delete
delete_inv db db' pg user_id id user_uuid h e = elim (Option-cases (pg.read_uuid id)) [
  | inl bad ↦ absurd (ground arith)
  | inr (i, good) ↦ (i, ground arith, ground arith)
]

owned : (i u : String) (a : SteamAccountRow) → SteamAccounts.owned_by i u a ≡ true → a.user_id ≡ u
owned i u a h = ground (arith, eq_iff a.user_id u)

not_owned :
    (i u v : String)
    → str_eq v u ≡ false
    → (a : SteamAccountRow) → SteamAccounts.owned_by i u a ≡ true
    → has_key (λ b. b.user_id) v a ≡ false
not_owned i u v apart a h = ground (arith, eq_iff a.user_id u, eq_iff a.user_id v, eq_iff v u)

-- After `Delete` succeeded on well-formed tables, the user who called it has no account left, and
-- every other user's account is what it was.
delete-get_by_user_id :
    (db db' : Db) (pg later : Postgres) (user_id other id user_uuid other_uuid : String)
    → IsWellFormed db
    → SteamAccounts.delete db pg user_id id ≡ (db', ok tt)
    → pg.read_uuid user_id ≡ some user_uuid
    → later.fails ≡ false
    → later.read_uuid other ≡ some other_uuid
    → SteamAccounts.get_by_user_id db' later other ≡ (
        if str_eq other_uuid user_uuid
        then err steam_account_not_found
        else SteamAccounts.get_by_user_id db later other)
delete-get_by_user_id db db' pg later user_id other id user_uuid other_uuid w h e up eo =
    let (i, there, left) = delete_inv db db' pg user_id id user_uuid h e in
    rw (get_lem db' later other, get_lem db later other, up, eo, left)
      (elim (Bool-cases (str_eq other_uuid user_uuid)) [
        | inl same ↦ rw (
          same,
          (eq_iff other_uuid user_uuid).0 same,
          find-delete_rows_self (λ a. a.user_id) user_uuid (SteamAccounts.owned_by i user_uuid)
              db.steam_accounts w.account_users (owned i user_uuid) there,
        )
        | inr apart ↦ rw (
          apart,
          find-delete_rows (has_key (λ a. a.user_id) other_uuid)
              (SteamAccounts.owned_by i user_uuid) db.steam_accounts
              (not_owned i user_uuid other_uuid apart),
        )
      ])

-- A created account is the user's, under the id that was returned.
pub get_by_user_id-create :
    (db : Db) (pg later : Postgres) (user_id uuid name id : String)
    → (SteamAccounts.create db pg user_id name).1 ≡ ok id
    → pg.read_uuid user_id ≡ some uuid
    → later.read_uuid user_id ≡ some uuid
    → later.fails ≡ false
    → (account : SteamAccounts.SteamAccount) × (SteamAccounts.get_by_user_id
          (SteamAccounts.create db pg user_id name).0
          later
          user_id
        ≡ ok account)
      × (account.id ≡ id)
unfolding SteamAccounts.create SteamAccounts.get_by_user_id SteamAccounts.insert
    SteamAccounts.new_row SteamAccounts.to_account
get_by_user_id-create db pg later user_id uuid name id made is_uuid still up = (
  SteamAccounts.to_account (SteamAccounts.new_row pg uuid name),
  ground (arith, eq_refl uuid),
  ground arith,
)
