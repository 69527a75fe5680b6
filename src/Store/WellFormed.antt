-- ===== src/Store/WellFormed.antt =====
-- What the schema promises of the tables, and that every statement keeps it.
use dota_cuck.Prelude.{
  ◌≡◌, refl, ◌⊎◌, String, Bool, true, false, List, [], ◌∷◌, Option, arith, Bytes, All, Bool-cases,
  Option-cases, inl, inr, if◌then◌else◌,
}
use dota_cuck.Store.Table.{
  UniqueBy, any_row, has_key, update_rows, delete_rows, lacking_of_any_row, update_rows-UniqueBy,
  delete_rows-UniqueBy, All-delete_rows,
}
use dota_cuck.Go.Scan.{ℤ}
use dota_cuck.Store.Schema.{UserRow, SteamAccountRow, Db, Postgres}
use dota_cuck.Store.Users
use dota_cuck.Store.SteamAccounts

abbrev UserExists : List UserRow → SteamAccountRow → Type 0
UserExists users a = any_row (has_key (λ u. u.id) a.user_id) users ≡ true

pub record IsWellFormed (db : Db) : Type 0 where
  pub user_ids : UniqueBy (λ u. u.id) db.users
  pub usernames : UniqueBy (λ u. u.username) db.users
  pub account_ids : UniqueBy (λ a. a.id) db.steam_accounts
  pub account_users : UniqueBy (λ a. a.user_id) db.steam_accounts
  pub owners : All (UserExists db.users) db.steam_accounts

abbrev pub empty_db : Db
empty_db = record { users = []; steam_accounts = [] }

-- The calls that write.
pub data Statement : Type 0 where
  create_user : String → Bytes → Bytes → Statement
  create_account : String → String → Statement
  save_refresh_token : String → String → String → Bytes → Bytes → Option ℤ → Statement
  set_steam_id : String → String → Statement
  delete_account : String → String → Statement

abbrev pub execute : Db → Postgres → Statement → Db
execute db pg (create_user name hash salt) = (Users.create db pg name hash salt).0
execute db pg (create_account user_id name) = (SteamAccounts.create db pg user_id name).0
execute db pg (save_refresh_token id steam_id name token nonce expires) =
    (SteamAccounts.save_refresh_token db pg id steam_id name token nonce expires).0
execute db pg (set_steam_id id steam_id) = (SteamAccounts.set_steam_id db pg id steam_id).0
execute db pg (delete_account user_id id) = (SteamAccounts.delete db pg user_id id).0

abbrev pub execute_all : Db → List (Postgres × Statement) → Db
execute_all db [] = db
execute_all db ((pg, s) ∷ rest) = execute_all (execute db pg s) rest

owners_kept :
    (x : UserRow) (users : List UserRow) (accounts : List SteamAccountRow)
    → All (UserExists users) accounts
    → All (UserExists (x ∷ users)) accounts
unfolding any_row
owners_kept x users [] h = tt
owners_kept x users (a ∷ accounts) (ha, h) = (ground arith, owners_kept x users accounts h)

owners_updated :
    (users : List UserRow) (test : SteamAccountRow → Bool)
    (change : SteamAccountRow → SteamAccountRow) (accounts : List SteamAccountRow)
    → ((a : SteamAccountRow) → (change a).user_id ≡ a.user_id)
    → All (UserExists users) accounts
    → All (UserExists users) (update_rows test change accounts)
unfolding update_rows
owners_updated users test change [] keeps h = tt
owners_updated users test change (a ∷ accounts) keeps (ha, h) =
    (kept (Bool-cases (test a)), owners_updated users test change accounts keeps h)
  where
    kept : (test a ≡ true) ⊎ (test a ≡ false) → UserExists users (if test a then change a else a)
    kept (inl e) = rw (e, keeps a) ha
    kept (inr e) = rw e ha

updated-IsWellFormed :
    (db : Db) (test : SteamAccountRow → Bool) (change : SteamAccountRow → SteamAccountRow)
    → ((a : SteamAccountRow) → (change a).user_id ≡ a.user_id)
    → ((a : SteamAccountRow) → (change a).id ≡ a.id)
    → IsWellFormed db
    → IsWellFormed (record db { steam_accounts = update_rows test change db.steam_accounts })
updated-IsWellFormed db test change same_user same_id w = record {
  user_ids = w.user_ids;
  usernames = w.usernames;
  account_ids =
      update_rows-UniqueBy (λ a. a.id) test change db.steam_accounts same_id w.account_ids;
  account_users =
      update_rows-UniqueBy (λ a. a.user_id) test change db.steam_accounts same_user w.account_users;
  owners = owners_updated db.users test change db.steam_accounts same_user w.owners;
}

deleted-IsWellFormed :
    (db : Db) (test : SteamAccountRow → Bool)
    → IsWellFormed db
    → IsWellFormed (record db { steam_accounts = delete_rows test db.steam_accounts })
deleted-IsWellFormed db test w = record {
  user_ids = w.user_ids;
  usernames = w.usernames;
  account_ids = delete_rows-UniqueBy (λ a. a.id) test db.steam_accounts w.account_ids;
  account_users = delete_rows-UniqueBy (λ a. a.user_id) test db.steam_accounts w.account_users;
  owners = All-delete_rows (UserExists db.users) test db.steam_accounts w.owners;
}

user_added :
    (db : Db) (x : UserRow)
    → any_row (has_key (λ u. u.username) x.username) db.users ≡ false
    → any_row (has_key (λ u. u.id) x.id) db.users ≡ false
    → IsWellFormed db
    → IsWellFormed (record db { users = x ∷ db.users })
user_added db x new_name new_id w = record {
  user_ids = (lacking_of_any_row (λ u. u.id) x.id db.users new_id, w.user_ids);
  usernames = (lacking_of_any_row (λ u. u.username) x.username db.users new_name, w.usernames);
  account_ids = w.account_ids;
  account_users = w.account_users;
  owners = owners_kept x db.users db.steam_accounts w.owners;
}

account_added :
    (db : Db) (a : SteamAccountRow)
    → any_row (has_key (λ b. b.user_id) a.user_id) db.steam_accounts ≡ false
    → any_row (has_key (λ b. b.id) a.id) db.steam_accounts ≡ false
    → UserExists db.users a
    → IsWellFormed db
    → IsWellFormed (record db { steam_accounts = a ∷ db.steam_accounts })
account_added db a new_user new_id owner w = record {
  user_ids = w.user_ids;
  usernames = w.usernames;
  account_ids = (lacking_of_any_row (λ b. b.id) a.id db.steam_accounts new_id, w.account_ids);
  account_users =
      (lacking_of_any_row (λ b. b.user_id) a.user_id db.steam_accounts new_user, w.account_users);
  owners = (owner, w.owners);
}

create_user-IsWellFormed :
    (db : Db) (pg : Postgres) (name : String) (hash salt : Bytes)
    → IsWellFormed db
    → IsWellFormed (Users.create db pg name hash salt).0
unfolding Users.create
create_user-IsWellFormed db pg name hash salt w =
    ground (arith, user_added db (Users.new_row pg name hash salt))

insert-IsWellFormed :
    (db : Db) (pg : Postgres) (name user_id : String)
    → IsWellFormed db
    → IsWellFormed (SteamAccounts.insert db pg name user_id).0
unfolding SteamAccounts.insert
insert-IsWellFormed db pg name user_id w =
    ground (arith, account_added db (SteamAccounts.new_row pg user_id name))

-- A statement with a `uuid` parameter fails and changes nothing, or runs.
with_uuid_cases :
    (pg : Postgres) (text : String) (db : Db) {A : Type 0} (e : A) (run : String → Db × A)
    → ((u : String) → IsWellFormed (run u).0)
    → IsWellFormed db
    → IsWellFormed (SteamAccounts.with_uuid pg text (db, e) run).0
with_uuid_cases pg text db e run h w = elim (Bool-cases pg.fails) [
  | inl down ↦ rw down w
  | inr up ↦ rw up (elim (Option-cases (pg.read_uuid text)) [
    | inl bad ↦ rw bad w
    | inr (u, good) ↦ rw good (h u)
  ])
]

affecting_cases :
    (db : Db) (test : SteamAccountRow → Bool) (rows : List SteamAccountRow)
    → IsWellFormed db
    → IsWellFormed (record db { steam_accounts = rows })
    → IsWellFormed (SteamAccounts.affecting db test rows).0
affecting_cases db test rows w h = elim (Bool-cases (any_row test db.steam_accounts)) [
  | inl some_row ↦ rw some_row h
  | inr no_row ↦ rw no_row w
]

-- Every call that writes, whether it succeeds or fails, keeps the tables well formed.
pub execute-IsWellFormed :
    (db : Db) (pg : Postgres) (s : Statement) → IsWellFormed db → IsWellFormed (execute db pg s)
unfolding SteamAccounts.create SteamAccounts.save_refresh_token SteamAccounts.set_steam_id
    SteamAccounts.delete
execute-IsWellFormed db pg (create_user name hash salt) w =
    create_user-IsWellFormed db pg name hash salt w
execute-IsWellFormed db pg (create_account user_id name) w =
    with_uuid_cases pg user_id db _ _ (λ u. insert-IsWellFormed db pg name u w) w
execute-IsWellFormed db pg (save_refresh_token id steam_id name token nonce expires) w =
    with_uuid_cases pg id db _ _
      (λ u. affecting_cases db _ _ w (updated-IsWellFormed db _ _ (λ a. refl) (λ a. refl) w)) w
execute-IsWellFormed db pg (set_steam_id id steam_id) w =
    with_uuid_cases pg id db _ _
      (λ u. affecting_cases db _ _ w (updated-IsWellFormed db _ _ (λ a. refl) (λ a. refl) w)) w
execute-IsWellFormed db pg (delete_account user_id id) w =
    with_uuid_cases pg id db _ _
      (λ i.
        with_uuid_cases pg user_id db _ _
          (λ u. affecting_cases db _ _ w (deleted-IsWellFormed db _ w)) w)
      w

-- Well-formed tables stay so through any calls, whatever their outcomes: usernames and ids are
-- unique, a user has at most one linked account, and every account belongs to a user.
pub execute_all-IsWellFormed :
    (db : Db) (calls : List (Postgres × Statement))
    → IsWellFormed db
    → IsWellFormed (execute_all db calls)
execute_all-IsWellFormed db [] w = w
execute_all-IsWellFormed db ((pg, s) ∷ rest) w =
    execute_all-IsWellFormed (execute db pg s) rest (execute-IsWellFormed db pg s w)
