-- ===== src/Store/Tests.antt =====
-- The stores on a small database, and the theorems at concrete inputs.
use dota_cuck.Prelude.{
  ◌≡◌, refl, String, false, List, [], ◌∷◌, Option, none, some, codes, str_eq, if◌then◌else◌,
}
use dota_cuck.Prelude.Result.{ok, err}
use dota_cuck.Go.Scan.{pos}
use dota_cuck.Store.Schema.{
  UserRow, SteamAccountRow, Db, Postgres, steam_account_exists, steam_account_not_found, failed,
}
use dota_cuck.Store.Table.{any_row}
use dota_cuck.Store.WellFormed.{
  IsWellFormed, empty_db, Statement, execute_all, create_user, create_account,
  execute_all-IsWellFormed,
}
use dota_cuck.Store.Users
use dota_cuck.Store.SteamAccounts

-- Reads every text but one as the UUID that it is.
abbrev read : String → Option String
read s = if str_eq s "junk" then none else some s

abbrev answering : String → Postgres
answering id = record { fails = false; fresh_id = id; now = 100; read_uuid = read }

abbrev alice : UserRow
alice = record {
  id = "u1";
  username = "alice";
  password_hash = codes "h";
  kdf_salt = codes "s";
  created_at = 100;
}

abbrev alices_account : SteamAccountRow
alices_account = record {
  id = "a1";
  user_id = "u1";
  steam_id = none;
  steam_username = some "alice_dota";
  enc_refresh_token = none;
  enc_refresh_nonce = none;
  refresh_token_expires = none;
  created_at = 100;
}

abbrev small : Db
small = record { users = alice ∷ []; steam_accounts = alices_account ∷ [] }

abbrev calls : List (Postgres × Statement)
calls =
    (answering "u1", create_user "alice" (codes "h") (codes "s"))
    ∷ (answering "a1", create_account "u1" "alice_dota")
    ∷ []

builds : execute_all empty_db calls ≡ small
unfolding Users.create SteamAccounts.create
builds = refl

second_account : (SteamAccounts.create small (answering "a2") "u1" "").1 ≡ err steam_account_exists
unfolding SteamAccounts.create
second_account = refl

unknown_owner : (SteamAccounts.create small (answering "a2") "u9" "").1 ≡ err failed
unfolding SteamAccounts.create
unknown_owner = refl

not_mine :
    SteamAccounts.delete small (answering "x") "u2" "a1" ≡ (small, err steam_account_not_found)
unfolding SteamAccounts.delete
not_mine = refl

empty_db-IsWellFormed : IsWellFormed empty_db
empty_db-IsWellFormed = record {
  user_ids = tt;
  usernames = tt;
  account_ids = tt;
  account_users = tt;
  owners = tt;
}

small-IsWellFormed : IsWellFormed small
unfolding any_row
small-IsWellFormed = record {
  user_ids = (tt, tt);
  usernames = (tt, tt);
  account_ids = (tt, tt);
  account_users = (tt, tt);
  owners = (refl, tt);
}

execute_all-IsWellFormed_example : IsWellFormed (execute_all empty_db calls)
execute_all-IsWellFormed_example = execute_all-IsWellFormed empty_db calls empty_db-IsWellFormed

abbrev with_bob : Db
with_bob = record small {
  users = Users.new_row (answering "u2") "bob" (codes "g") (codes "t") ∷ alice ∷ [];
}

bob_created :
    Users.create small (answering "u2") "bob" (codes "g") (codes "t") ≡ (with_bob, ok "u2")
unfolding Users.create
bob_created = refl

u2_fresh : any_row (λ u. str_eq u.id "u2") small.users ≡ false
unfolding any_row
u2_fresh = refl

abbrev linked : Db
linked = record small {
  steam_accounts =
      record alices_account {
        steam_id = some "765";
        enc_refresh_token = some (codes "c");
        enc_refresh_nonce = some (codes "n");
        refresh_token_expires = some (pos 9);
      }
      ∷ [];
}

token_saved :
    SteamAccounts.save_refresh_token small
      (answering "x")
      "a1"
      "765"
      ""
      (codes "c")
      (codes "n")
      (some (pos 9))
    ≡ (linked, ok tt)
unfolding SteamAccounts.save_refresh_token
token_saved = refl
