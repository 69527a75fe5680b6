-- ===== src/Api/Accounts.antt =====
-- control-plane/internal/api/steam_accounts.go, and the link map of router.go: linking a Steam
-- account, the callbacks of a link, Steam Guard codes, listing and removing.
pub mod Linking
pub mod Codes
use dota_cuck.Prelude.{
  ℕ, ◌≡◌, String, Bool, true, false, not, ◌&&◌, ◌||◌, List, [], ◌∷◌, Option, none, some, Bytes,
  Dict, put, remove, is_empty, str_eq, if◌then◌else◌,
}
use dota_cuck.Prelude.Result.{Result, ok, err}
use dota_cuck.Go.Scan.{ℤ}
use dota_cuck.Auth.Primitives.{Random}
use dota_cuck.Auth.Crypto.{CryptoError, encrypt}
use dota_cuck.Auth.KeyCache.{KeyCache, get_key}
use dota_cuck.Store.{Db, Postgres, StoreError}
use dota_cuck.Store.SteamAccounts
use dota_cuck.Api.Models.{
  SteamAccountRequest, SteamGuardRequest, SteamAccountDto, Response, write_error, write_json,
  panicked, steam_account, steam_accounts, no_content,
}
use dota_cuck.Api.Events.{
  PushEvent, account_guard_event, account_qr_event, account_linked_event, account_error_event,
}
use dota_cuck.Api.SplitJwt.{expiry_from_jwt}
use dota_cuck.Api.State.{Deps, Server}

-- What a handler asks of others: a link of the worker for an account and its key, a message to all
-- WebSocket clients, a code for a link.
pub data Effect : Type 0 where
  start_link : String → String → Bytes → String → Bytes → Effect
  broadcast : PushEvent → Effect
  submit_guard_code : String → String → Effect

abbrev pub Reply : Type 0
Reply = Server × Response × List Effect

abbrev pub refuse : Server → ℕ → String → Reply
refuse s status message = (s, write_error status message, [])

-- `setLinkReq`, `getLinkReq`, `clearLinkReq`
unfoldable pub set_link_req : Server → String → String → Server
set_link_req s account_id req_id = record s { link_reqs = put s.link_reqs account_id req_id }

unfoldable pub get_link_req : Server → String → Option String
get_link_req s account_id = s.link_reqs account_id

unfoldable pub clear_link_req : Server → String → Server
clear_link_req s account_id = record s { link_reqs = remove s.link_reqs account_id }

-- One of the two credentials without the other.
abbrev pub is_half : SteamAccountRequest → Bool
is_half req =
    if str_eq req.steam_username ""
    then not (is_empty req.steam_password)
    else is_empty req.steam_password

module _ (d : Deps) where
  -- `startAccountLink`, with the new request id.
  unfoldable pub start_account_link :
      Server → String → String → String → Bytes → Bytes → Server × List Effect
  unfolding set_link_req
  start_account_link s req_id account_id username password key =
      if d.has_links
      then (
        set_link_req s account_id req_id,
        start_link req_id username password account_id key ∷ [],
      )
      else (s, [])

  abbrev add_created :
      Server → String → SteamAccountRequest → Bytes → Result StoreError String → Reply
  add_created s req_id req key (err StoreError.steam_account_exists) =
      refuse s 409 "a steam account is already linked"
  add_created s req_id req key (err _) = refuse s 500 "could not link steam account"
  add_created s req_id req key (ok id) =
      let (s', effects) =
        start_account_link s req_id id req.steam_username req.steam_password key in
      (
        s',
        write_json 201 (
            steam_account (record {
              id = id;
              steam_id = "";
              steam_username = req.steam_username;
              created_at = "";
            })),
        effects,
      )

  abbrev add_with_key :
      Server → Postgres → String → String → SteamAccountRequest → Option Bytes → Reply
  add_with_key s pg req_id user_id req none = refuse s 401 "session expired, please log in again"
  add_with_key s pg req_id user_id req (some key) =
      let (db, r) = SteamAccounts.create s.db pg user_id req.steam_username in
      add_created (record s { db = db }) req_id req key r

  -- `AddSteamAccount` behind `requireAuth`.
  unfoldable pub add_steam_account :
      Server → Postgres → ℕ → String → String → Option SteamAccountRequest → Reply
  add_steam_account s pg now req_id user_id none = refuse s 400 "invalid request body"
  add_steam_account s pg now req_id user_id (some req) =
      if is_half req
      then refuse s 400 "steam_username and steam_password must be provided together"
      else (let (keys, key) = get_key s.keys user_id now in
          add_with_key (record s { keys = keys }) pg req_id user_id req key)

  -- `persistRefreshToken`: the error says only that there was one.
  abbrev save_encrypted :
      (Bytes → Option ℤ)
      → Db
      → Postgres
      → String
      → String
      → Bytes
      → Result CryptoError (Bytes × Bytes)
      → Db × Bool
  save_encrypted read_exp db pg account_id owner token (err _) = (db, false)
  save_encrypted read_exp db pg account_id owner token (ok (cipher, nonce)) =
      let (db', r) =
        SteamAccounts.save_refresh_token db pg account_id owner "" cipher nonce
          (expiry_from_jwt read_exp token) in
      (db', elim r [ ok _ ↦ true | err _ ↦ false ])

  unfoldable pub persist_refresh_token :
      (Bytes → Option ℤ) → Db → Postgres → Random → String → String → Bytes → Bytes → Db × Bool
  persist_refresh_token read_exp db pg random account_id owner token key =
      save_encrypted read_exp db pg account_id owner token (encrypt d.aead random key token)

  -- The four callbacks of `startAccountLink`.
  unfoldable pub on_qr_challenge : Server → String → String → Server × List Effect
  on_qr_challenge s account_id url = (s, broadcast (account_qr_event account_id url) ∷ [])

  unfoldable pub on_guard : Server → String → String → Server × List Effect
  on_guard s account_id guard_type = (s, broadcast (account_guard_event account_id guard_type) ∷ [])

  unfoldable pub on_linked :
      (Bytes → Option ℤ)
      → Server
      → Postgres
      → Random
      → String
      → Bytes
      → String
      → Bytes
      → Server × List Effect
  unfolding clear_link_req
  on_linked read_exp s pg random account_id key owner token =
      let (db, saved) = persist_refresh_token read_exp s.db pg random account_id owner token key in
      let s' = record (clear_link_req s account_id) { db = db } in
      (
        s',
        broadcast (
              if saved
              then account_linked_event account_id owner
              else account_error_event account_id "LINK_FAILED" "could not store refresh token")
            ∷ [],
      )

  unfoldable pub on_error : Server → String → String → Server × List Effect
  unfolding clear_link_req
  on_error s account_id message = (
    clear_link_req s account_id,
    broadcast (account_error_event account_id "LINK_FAILED" message) ∷ [],
  )

  -- `relayed` says whether `s.links.SubmitGuardCode` returns no error; on a nil `s.links` it panics.
  abbrev submit_pending : Server → Bool → String → Option String → Reply
  submit_pending s relayed code none = refuse s 409 "no steam guard prompt in progress"
  submit_pending s relayed code (some req_id) =
      if d.has_links
      then (
        s,
        (if relayed
            then write_json 204 no_content
            else write_error 502 "could not submit steam guard code"),
        submit_guard_code req_id code ∷ [],
      )
      else (s, panicked, [])

  abbrev submit_for :
      Server → Bool → String → String → Result StoreError SteamAccounts.SteamAccount → Reply
  submit_for s relayed id code (err StoreError.steam_account_not_found) =
      refuse s 404 "steam account not found"
  submit_for s relayed id code (err _) = refuse s 500 "could not load steam account"
  submit_for s relayed id code (ok account) =
      if str_eq account.id id
      then submit_pending s relayed code (get_link_req s id)
      else refuse s 404 "steam account not found"

  -- `SubmitAccountSteamGuard` behind `requireAuth`.
  unfoldable pub submit_account_steam_guard :
      Server → Postgres → Bool → String → String → Option SteamGuardRequest → Reply
  unfolding get_link_req
  submit_account_steam_guard s pg relayed user_id id none = refuse s 400 "invalid request body"
  submit_account_steam_guard s pg relayed user_id id (some req) =
      if str_eq req.code ""
      then refuse s 400 "code is required"
      else submit_for s relayed id req.code (SteamAccounts.get_by_user_id s.db pg user_id)

  -- `DeleteSteamAccount` behind `requireAuth`.
  abbrev delete_response : Result StoreError (Unit {0}) → Response
  delete_response (ok _) = write_json 204 no_content
  delete_response (err StoreError.steam_account_not_found) =
      write_error 404 "steam account not found"
  delete_response (err _) = write_error 500 "could not remove steam account"

  unfoldable pub delete_steam_account : Server → Postgres → String → String → Reply
  delete_steam_account s pg user_id id =
      let (db, r) = SteamAccounts.delete s.db pg user_id id in
      (record s { db = db }, delete_response r, [])

-- `toSteamAccountDTO`, with the RFC 3339 layout of a time.
module _ (format_time : ℕ → String) where
  unfoldable pub to_steam_account_dto : SteamAccounts.SteamAccount → SteamAccountDto
  to_steam_account_dto a = record {
    id = a.id;
    steam_id = a.steam_id;
    steam_username = a.steam_username;
    created_at = format_time a.created_at;
  }

  abbrev listed : Result StoreError SteamAccounts.SteamAccount → Response
  listed (err StoreError.steam_account_not_found) = write_json 200 (steam_accounts [])
  listed (err _) = write_error 500 "could not list steam accounts"
  listed (ok a) = write_json 200 (steam_accounts (to_steam_account_dto a ∷ []))

  -- `ListSteamAccounts` behind `requireAuth`.
  unfoldable pub list_steam_accounts : Server → Postgres → String → Response
  unfolding to_steam_account_dto
  list_steam_accounts s pg user_id = listed (SteamAccounts.get_by_user_id s.db pg user_id)
