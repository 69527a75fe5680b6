-- ===== src/Api/Friends.antt =====
-- control-plane/internal/api/friends.go, and `friendsProvider` of control-plane/cmd/server/main.go.
pub mod Granted
pub mod Token
pub mod Order
mod Tests
use dota_cuck.Prelude.{
  ℕ, String, Bool, true, false, not, ◌&&◌, List, [], ◌∷◌, map, Option, none, some, Bytes, is_empty,
  str_eq, if◌then◌else◌,
}
use dota_cuck.Prelude.Result.{Result, ok, err}
use dota_cuck.Go.Order.{SliceSort, bytes_lt}
use dota_cuck.Auth.Crypto.{CryptoError, decrypt}
use dota_cuck.Auth.KeyCache.{KeyCache, get_key}
use dota_cuck.Store.{Db, Postgres, StoreError}
use dota_cuck.Store.SteamAccounts
use dota_cuck.Workers.Messages.{FriendMessage, FriendsResult, ErrorEvent}
use dota_cuck.Api.Models.{Friend, Response, write_error, write_json, friends}
use dota_cuck.Api.State.{Deps, Server}

pub record FriendStatus : Type 0 where
  pub steam_id : String
  pub persona_name : Bytes
  pub online : Bool
  pub in_match : Bool

pub record FriendList : Type 0 where
  pub owner_steam_id : String
  pub friends : List FriendStatus

abbrev pub to_status : FriendMessage → FriendStatus
to_status f = record {
  steam_id = f.steam_id;
  persona_name = f.persona_name;
  online = f.online;
  in_match = f.in_match;
}

-- `friendsProvider.ListFriends` on the worker's reply; `none` is an error, whose text is not used.
unfoldable pub provide_friends : Option FriendsResult → Option FriendList
provide_friends none = none
provide_friends (some res) = elim res.error [
  | some e ↦ none
  | none ↦
      some (record { owner_steam_id = res.owner_steam_id; friends = map to_status res.friends })
]

abbrev pub to_friend : FriendStatus → Friend
to_friend f = record {
  steam_id = f.steam_id;
  persona_name = f.persona_name;
  online = f.online;
  in_match = f.in_match;
}

-- The backfill of `steam_id` from the list; its failure is only logged.
unfoldable pub backfill : Db → Postgres → SteamAccounts.SteamAccount → FriendList → Db
backfill db pg account list =
    if str_eq account.steam_id "" && not (str_eq list.owner_steam_id "")
    then (SteamAccounts.set_steam_id db pg account.id list.owner_steam_id).0
    else db

-- `out[i].PersonaName < out[j].PersonaName`
unfoldable pub persona_less : Friend → Friend → Bool
unfolding bytes_lt
persona_less a b = bytes_lt a.persona_name b.persona_name

-- The call of `sort.Slice`.
unfoldable pub sort_by_name : SliceSort Friend → List Friend → List Friend
sort_by_name slice out = slice.sort persona_less out

-- `sort_friends` is `sort_by_name` of some `sort.Slice`; `fetch` is `s.friends.ListFriends` for this
-- request, a function of the token it is given.
module _ (d : Deps) (sort_friends : List Friend → List Friend)
    (fetch : Bytes → Option FriendList) where
  unfoldable pub fetched :
      Server → Postgres → SteamAccounts.SteamAccount → Option FriendList → Server × Response
  unfolding backfill
  fetched s later account none = (s, write_error 502 "could not fetch friends")
  fetched s later account (some list) = (
    record s { db = backfill s.db later account list },
    write_json 200 (friends (sort_friends (map to_friend list.friends))),
  )

  abbrev decrypted :
      Server → Postgres → SteamAccounts.SteamAccount → Result CryptoError Bytes → Server × Response
  decrypted s later account (err _) = (s, write_error 500 "could not decrypt credentials")
  decrypted s later account (ok token) = fetched s later account (fetch token)

  abbrev with_key :
      Server → Postgres → SteamAccounts.SteamAccount → Option Bytes → Server × Response
  with_key s later account none = (s, write_error 401 "session expired, please log in again")
  with_key s later account (some key) =
      decrypted s later account
        (decrypt d.aead key account.enc_refresh_token account.enc_refresh_nonce)

  abbrev with_account :
      Server
      → Postgres
      → ℕ
      → String
      → Result StoreError SteamAccounts.SteamAccount
      → Server × Response
  with_account s later now user_id (err StoreError.steam_account_not_found) =
      (s, write_error 409 "no steam account linked")
  with_account s later now user_id (err _) = (s, write_error 500 "could not load steam account")
  with_account s later now user_id (ok account) =
      if is_empty account.enc_refresh_token
      then (s, write_error 409 "steam account link not complete")
      else (let (keys, key) = get_key s.keys user_id now in
          with_key (record s { keys = keys }) later account key)

  -- `ListFriends` behind `requireAuth`; `pg` answers the SELECT and `later` the UPDATE.
  unfoldable pub list_friends : Server → Postgres → Postgres → ℕ → String → Server × Response
  list_friends s pg later now user_id =
      with_account s later now user_id (SteamAccounts.get_by_user_id s.db pg user_id)
