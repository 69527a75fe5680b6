-- ===== src/Store/Indexes/Tests.antt =====
-- A history of the stores: a user, their account, a second account refused, a token saved, the
-- account deleted twice, and what each call answers.
use dota_cuck.Prelude.{
  ◌≡◌, refl, String, true, false, List, [], ◌∷◌, Option, none, some, codes, str_eq, if◌then◌else◌,
}
use dota_cuck.Prelude.Result.{ok, err}
use dota_cuck.Go.Scan.{pos}
use dota_cuck.Store.Schema.{
  Postgres, username_taken, steam_account_exists, steam_account_not_found, failed,
}
use dota_cuck.Store.WellFormed.{
  IsWellFormed, empty_db, create_user, create_account, save_refresh_token, delete_account,
}
use dota_cuck.Store.Users
use dota_cuck.Store.SteamAccounts
use dota_cuck.Store.Indexes.{
  Call, writes, get_account, Answer, an_id, done, an_account, answers, indexes, promised_answers,
}
use dota_cuck.Store.Indexes.Refinement.{answers-promised}

abbrev read : String → Option String
read s = if str_eq s "junk" then none else some s

abbrev up : String → Postgres
up id = record { fails = false; fresh_id = id; now = 100; read_uuid = read }

abbrev history : List (Postgres × Call)
history =
    (up "u1", writes (create_user "alice" (codes "h") (codes "s")))
    ∷ (up "u2", writes (create_user "alice" (codes "g") (codes "t")))
    ∷ (up "a1", writes (create_account "u1" ""))
    ∷ (up "a2", writes (create_account "u1" "other"))
    ∷ (record (up "x") { fails = true }, writes (delete_account "u1" "a1"))
    ∷ (up "x", writes (save_refresh_token "a1" "765" "" (codes "c") (codes "n") (some (pos 9))))
    ∷ (up "x", get_account "u1")
    ∷ (up "x", writes (delete_account "u2" "a1"))
    ∷ (up "x", writes (delete_account "u1" "a1"))
    ∷ (up "x", writes (delete_account "u1" "junk"))
    ∷ (up "x", get_account "u1")
    ∷ []

abbrev told : List Answer
told =
    an_id (ok "u1")
    ∷ an_id (err username_taken)
    ∷ an_id (ok "a1")
    ∷ an_id (err steam_account_exists)
    ∷ done (err failed)
    ∷ done (ok tt)
    ∷ an_account (
        ok (record {
          id = "a1";
          user_id = "u1";
          steam_id = "765";
          steam_username = "";
          enc_refresh_token = codes "c";
          enc_refresh_nonce = codes "n";
          refresh_token_expires = some (pos 9);
          created_at = 100;
        }))
    ∷ done (err steam_account_not_found)
    ∷ done (ok tt)
    ∷ done (err failed)
    ∷ an_account (err steam_account_not_found)
    ∷ []

history_runs : answers empty_db history ≡ told
unfolding Users.create SteamAccounts.create SteamAccounts.delete SteamAccounts.save_refresh_token
    SteamAccounts.get_by_user_id
history_runs = refl

empty-IsWellFormed : IsWellFormed empty_db
empty-IsWellFormed = record {
  user_ids = tt;
  usernames = tt;
  account_ids = tt;
  account_users = tt;
  owners = tt;
}

answers-promised_example : answers empty_db history ≡ promised_answers (indexes empty_db) history
answers-promised_example = answers-promised empty_db history empty-IsWellFormed
