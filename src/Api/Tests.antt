-- ===== src/Api/Tests.antt =====
-- Requests on a small server, and the theorems at concrete inputs.
use dota_cuck.Prelude.{
  ◌≢◌, ◌*◌, ◌≡◌, ◌≢◌, ◌↔◌, refl, true, false, [], ◌∷◌, ◌++◌, some, arith, Bytes, codes, length,
  str_eq, bytes_eq,
}
use dota_cuck.Prelude.Result.{ok, err}
use dota_cuck.Go.Scan.{pos}
use dota_cuck.Go.Base64.{decode_string}
use dota_cuck.Auth.Phc
use dota_cuck.Auth.Phc.{default_password_params, encode_phc}
use dota_cuck.Auth.Hasher
use dota_cuck.Auth.Hasher.Verify.{IsUsable}
use dota_cuck.Auth.Hasher.{Hasher}
use dota_cuck.Auth.Crypto.{encrypt}
use dota_cuck.Auth.KeyCache.{get_key, new_key_cache}
use dota_cuck.Auth.Jwt.{second, issue}
use dota_cuck.Auth.StandIns.{
  toy_token, replicate, toy_argon, toy_hmac, toy_random, toy_random-IsRandom,
}
use dota_cuck.Store.{UserRow, StoreError, any_row}
use dota_cuck.Store.Users
use dota_cuck.Store.SteamAccounts
use dota_cuck.Api.Models.{write_json, login_response}
use dota_cuck.Api.Events.{account_linked_event}
use dota_cuck.Api.Bearer.{bearer_token, equal_fold, prefix, bearer_token_iff}
use dota_cuck.Api.SplitJwt.{expiry_from_jwt}
use dota_cuck.Api.State.{Server, register, login}
use dota_cuck.Api.State.Login.{registered_logs_in}
use dota_cuck.Api.Accounts.{
  broadcast, start_link, submit_guard_code, is_half, add_steam_account, start_account_link,
  submit_account_steam_guard, on_linked, persist_refresh_token,
}
use dota_cuck.Api.Accounts.Linking.{add_steam_account-start_link_iff}
use dota_cuck.Api.Accounts.Codes.{submit-relays_iff}
use dota_cuck.Api.Friends.{list_friends, fetched}
use dota_cuck.Api.Friends.Granted.{Answers200, Granted, list_friends_iff}
use dota_cuck.Api.Friends.Token.{list_friends-on_linked}
use dota_cuck.Api.Samples.{
  hasher, deps, answering, fresh, at_five, alice, stored_hash, alice_row, aes_key, logged_in,
  linking, request, code, nine, refresh_token, linked, account, same_order, no_friends,
}

nobody : any_row (λ u. str_eq u.username "alice") fresh.db.users ≡ false
unfolding any_row
nobody = refl

no_id : any_row (λ u. str_eq u.id "id-1") fresh.db.users ≡ false
unfolding any_row
no_id = refl

default_IsUsable : IsUsable default_password_params
default_IsUsable = omega arith

alice_signed : issue deps.jwt deps.tokens "id-1" (5 * second) ≡ some toy_token
unfolding issue
alice_signed = refl

registered_logs_in_example :
    (key : Bytes) × (s' s'' : Server) × (register deps fresh at_five (some alice)
      ≡ (s', write_json 201 (login_response toy_token)))
    × ((user : UserRow) × (Users.get_by_username s'.db (answering "id-1") "alice" ≡ ok user)
        × (user.id ≡ "id-1"))
    × ((get_key s'.keys "id-1" (5 * second)).1 ≡ some key)
    × (login deps s' at_five (some alice) ≡ (s'', write_json 200 (login_response toy_token)))
    × ((get_key s''.keys "id-1" (5 * second)).1 ≡ some key)
    × (s''.db ≡ s'.db)
unfolding new_key_cache
registered_logs_in_example =
    registered_logs_in deps fresh at_five at_five alice (replicate 16 7) (replicate 16 7) toy_token
      toy_token toy_random-IsRandom default_IsUsable refl refl refl refl refl nobody no_id refl
      alice_signed alice_signed (omega arith)

no_bob : Users.get_by_username logged_in.db (answering "x") "bob" ≡ err StoreError.user_not_found
unfolding Users.get_by_username
no_bob = refl

found_alice : Users.get_by_username logged_in.db (answering "x") "alice" ≡ ok alice_row
unfolding Users.get_by_username
found_alice = refl

wrong_password :
    Hasher.verify toy_hmac toy_argon hasher (codes "hunter3") stored_hash ≡ some (ok false)
unfolding Hasher.verify Hasher.derive encode_phc Phc.decode_phc bytes_eq decode_string
wrong_password = refl

add_steam_account-start_link_iff_example :
    ((add_steam_account deps logged_in (answering "a1") (6 * second) "r" "id-1" (some request)).2
      ≡ start_link "r" "alice_dota" (codes "s3cr3t") "a1" aes_key ∷ [])
    ↔ ((is_half request ≡ false)
        × ((get_key logged_in.keys "id-1" (6 * second)).1 ≡ some aes_key)
        × ((SteamAccounts.create logged_in.db (answering "a1") "id-1" "alice_dota").1 ≡ ok "a1")
        × (deps.has_links ≡ true))
add_steam_account-start_link_iff_example =
    add_steam_account-start_link_iff deps logged_in (answering "a1") (6 * second) "r" "id-1" "a1"
      aes_key request

link_started :
    (add_steam_account deps logged_in (answering "a1") (6 * second) "r" "id-1" (some request)).2
    ≡ start_link "r" "alice_dota" (codes "s3cr3t") "a1" aes_key ∷ []
unfolding add_steam_account get_key SteamAccounts.create start_account_link
link_started = refl

submit-relays_iff_example :
    (((submit_account_steam_guard deps linking (answering "x") true "id-1" "a1" (some code)).2
        ≡ submit_guard_code "r" "K4J9X" ∷ [])
      ↔ ((str_eq code.code "" ≡ false)
          × ((account : SteamAccounts.SteamAccount) × (SteamAccounts.get_by_user_id linking.db
                  (answering "x")
                  "id-1"
                ≡ ok account)
              × (account.id ≡ "a1"))
          × (linking.link_reqs "a1" ≡ some "r")
          × (deps.has_links ≡ true)))
    × ((submit_account_steam_guard deps linking (answering "x") true "id-1" "a1" (some code)).0
        ≡ linking)
submit-relays_iff_example = submit-relays_iff deps linking (answering "x") true "id-1" "a1" "r" code

not_owned : any_row (SteamAccounts.owned_by "a2" "id-1") linking.db.steam_accounts ≡ false
unfolding any_row
not_owned = refl

reads_expiry : expiry_from_jwt nine refresh_token ≡ some (pos 9)
unfolding expiry_from_jwt
reads_expiry = refl

link_succeeds :
    on_linked deps nine linking (answering "x") toy_random "a1" aes_key "765" refresh_token
    ≡ (linked, broadcast (account_linked_event "a1" "765") ∷ [])
unfolding on_linked persist_refresh_token encrypt SteamAccounts.save_refresh_token expiry_from_jwt
link_succeeds = refl

account_found : SteamAccounts.get_by_user_id linking.db (answering "x") "id-1" ≡ ok account
unfolding SteamAccounts.get_by_user_id
account_found = refl

key_cached : get_key linking.keys "id-1" (7 * second) ≡ (linking.keys, some aes_key)
unfolding get_key
key_cached = refl

list_friends-on_linked_example :
    (account' : SteamAccounts.SteamAccount) × (account'.id ≡ "a1")
    × (account'.steam_id ≡ "765")
    × (list_friends deps same_order no_friends linked
          (answering "x")
          (answering "x")
          (7 * second)
          "id-1"
        ≡ fetched deps same_order no_friends
            (record linked { keys = linking.keys })
            (answering "x")
            account'
            (no_friends refresh_token))
list_friends-on_linked_example =
    list_friends-on_linked deps nine same_order no_friends linking linked (answering "x")
      (answering "x") (answering "x") toy_random (7 * second) "a1" "765" "id-1" aes_key
      refresh_token linking.keys account toy_random-IsRandom link_succeeds account_found refl
      key_cached

list_friends_iff_example :
    Answers200
      (list_friends deps same_order no_friends linked
        (answering "x")
        (answering "x")
        (7 * second)
        "id-1").1
    ↔ Granted deps same_order no_friends linked (answering "x") (7 * second) "id-1"
list_friends_iff_example =
    list_friends_iff deps same_order no_friends linked (answering "x") (answering "x") (7 * second)
      "id-1"

bearer_token_iff_example : (bearer_token (codes "bEARER tok") ≡ some (codes "tok")) ↔ (
    (scheme : Bytes) × (codes "bEARER tok" ≡ scheme ++ codes "tok")
    × (codes "tok" ≢ [])
    × (length scheme ≡ 7)
    × (equal_fold scheme prefix ≡ true))
bearer_token_iff_example = bearer_token_iff (codes "bEARER tok") (codes "tok")
