-- ===== src/Store/Indexes.antt =====
-- What the stores promise, without rows and their order: the users by id and by name, the linked
-- accounts by id and by user, and every call of control-plane/internal/store on these indexes.
pub mod Refinement
mod Tests
use mathlib.Core.Option
use dota_cuck.Prelude.{
  String, Bool, ◌||◌, false, List, [], ◌∷◌, Option, none, some, Bytes, Dict, put, remove, str_eq,
  if◌then◌else◌,
}
use dota_cuck.Prelude.Result.{Result, ok, err}
use dota_cuck.Go.Scan.{ℤ}
use dota_cuck.Store.Schema.{
  UserRow, SteamAccountRow, Db, Postgres, StoreError, username_taken, user_not_found,
  steam_account_exists, steam_account_not_found, failed,
}
use dota_cuck.Store.Table.{find, has_key, is_some}
use dota_cuck.Store.WellFormed.{
  Statement, create_user, create_account, save_refresh_token, set_steam_id, delete_account,
}
use dota_cuck.Store.Users
use dota_cuck.Store.SteamAccounts.{SteamAccount, with_uuid, saved, with_steam_id, to_account}
use dota_cuck.Store.SteamAccounts

pub data Call : Type 0 where
  writes : Statement → Call
  get_user : String → Call
  get_account : String → Call

pub data Answer : Type 0 where
  an_id : Result StoreError String → Answer
  done : Result StoreError (Unit {0}) → Answer
  a_user : Result StoreError UserRow → Answer
  an_account : Result StoreError SteamAccount → Answer

abbrev pub answered : {S A : Type 0} → (A → Answer) → S × A → S × Answer
answered f (s, a) = (s, f a)

-- One call of the two stores on the tables.
abbrev pub call : Db → Postgres → Call → Db × Answer
call db pg (writes (create_user name hash salt)) =
    answered an_id (Users.create db pg name hash salt)
call db pg (writes (create_account user_id name)) =
    answered an_id (SteamAccounts.create db pg user_id name)
call db pg (writes (save_refresh_token id steam_id name token nonce expires)) =
    answered done (SteamAccounts.save_refresh_token db pg id steam_id name token nonce expires)
call db pg (writes (set_steam_id id steam_id)) =
    answered done (SteamAccounts.set_steam_id db pg id steam_id)
call db pg (writes (delete_account user_id id)) =
    answered done (SteamAccounts.delete db pg user_id id)
call db pg (get_user name) = (db, a_user (Users.get_by_username db pg name))
call db pg (get_account user_id) = (db, an_account (SteamAccounts.get_by_user_id db pg user_id))

-- The answers of the stores to a list of calls.
abbrev pub answers : Db → List (Postgres × Call) → List Answer
answers db [] = []
answers db ((pg, c) ∷ cs) = let (db', a) = call db pg c in a ∷ answers db' cs

pub record Indexes : Type 0 where
  pub users_by_id : Dict UserRow
  pub users_by_name : Dict UserRow
  pub accounts_by_id : Dict SteamAccountRow
  pub accounts_by_user : Dict SteamAccountRow

abbrev pub indexes : Db → Indexes
indexes db = record {
  users_by_id = λ k. find (has_key (λ u. u.id) k) db.users;
  users_by_name = λ k. find (has_key (λ u. u.username) k) db.users;
  accounts_by_id = λ k. find (has_key (λ a. a.id) k) db.steam_accounts;
  accounts_by_user = λ k. find (has_key (λ a. a.user_id) k) db.steam_accounts;
}

abbrev pub add_user : Indexes → UserRow → Indexes
add_user x user = record x {
  users_by_id = put x.users_by_id user.id user;
  users_by_name = put x.users_by_name user.username user;
}

abbrev pub add_account : Indexes → SteamAccountRow → Indexes
add_account x a = record x {
  accounts_by_id = put x.accounts_by_id a.id a;
  accounts_by_user = put x.accounts_by_user a.user_id a;
}

-- The account with this id, changed under either key.
abbrev pub revised :
    String → (SteamAccountRow → SteamAccountRow) → Dict SteamAccountRow → Dict SteamAccountRow
revised id change index k = Option.map (λ a. if str_eq a.id id then change a else a) (index k)

abbrev pub revise_account : Indexes → String → (SteamAccountRow → SteamAccountRow) → Indexes
revise_account x id change = record x {
  accounts_by_id = revised id change x.accounts_by_id;
  accounts_by_user = revised id change x.accounts_by_user;
}

abbrev pub drop_account : Indexes → String → String → Indexes
drop_account x id user_id = record x {
  accounts_by_id = remove x.accounts_by_id id;
  accounts_by_user = remove x.accounts_by_user user_id;
}

abbrev pub has_id : String → Option SteamAccountRow → Bool
has_id id none = false
has_id id (some a) = str_eq a.id id

-- A change, if the account is there.
abbrev pub if_there : Indexes → Bool → Indexes → Indexes × Answer
if_there x there x' = if there then (x', done (ok tt)) else (x, done (err steam_account_not_found))

abbrev pub or_missing : {A B : Type 0} → StoreError → (A → B) → Option A → Result StoreError B
or_missing e f none = err e
or_missing e f (some a) = ok (f a)

-- The same call on the indexes.
abbrev pub promised : Indexes → Postgres → Call → Indexes × Answer
promised x pg (writes (create_user name hash salt)) =
    if pg.fails
    then (x, an_id (err failed))
    else if is_some (x.users_by_name name) || is_some (x.users_by_id pg.fresh_id)
    then (x, an_id (err username_taken))
    else (add_user x (Users.new_row pg name hash salt), an_id (ok pg.fresh_id))
promised x pg (writes (create_account user_id name)) =
    with_uuid pg user_id (x, an_id (err failed))
      λ u.
        if is_some (x.accounts_by_user u) || is_some (x.accounts_by_id pg.fresh_id)
        then (x, an_id (err steam_account_exists))
        else if is_some (x.users_by_id u)
        then (add_account x (SteamAccounts.new_row pg u name), an_id (ok pg.fresh_id))
        else (x, an_id (err failed))
promised x pg (writes (save_refresh_token id steam_id name token nonce expires)) =
    with_uuid pg id (x, done (err failed))
      λ i.
        if_there x (is_some (x.accounts_by_id i))
          (revise_account x i (saved steam_id name token nonce expires))
promised x pg (writes (set_steam_id id steam_id)) =
    with_uuid pg id (x, done (err failed))
      λ i. if_there x (is_some (x.accounts_by_id i)) (revise_account x i (with_steam_id steam_id))
promised x pg (writes (delete_account user_id id)) =
    with_uuid pg id (x, done (err failed))
      λ i.
        with_uuid pg user_id (x, done (err failed))
          λ u. if_there x (has_id i (x.accounts_by_user u)) (drop_account x i u)
promised x pg (get_user name) = (
  x,
  a_user
      (if pg.fails then err failed else or_missing user_not_found (λ u. u) (x.users_by_name name)),
)
promised x pg (get_account user_id) = (
  x,
  an_account (
      with_uuid pg user_id (err failed)
        λ u. or_missing steam_account_not_found to_account (x.accounts_by_user u)),
)

abbrev pub promised_answers : Indexes → List (Postgres × Call) → List Answer
promised_answers x [] = []
promised_answers x ((pg, c) ∷ cs) = let (x', a) = promised x pg c in a ∷ promised_answers x' cs
