-- ===== src/Api/Friends/Granted.antt =====
-- When a friends request is answered with friends.
use dota_cuck.Prelude.{
  ℕ, map, ◌≡◌, ◌↔◌, refl, ap, String, false, is_empty, Bool-cases, inl, inr, List, Option, none,
  some, Bytes, arith,
}
use dota_cuck.Prelude.Result.{Result, ok, err}
use dota_cuck.Auth.KeyCache.{get_key}
use dota_cuck.Auth.Crypto.{CryptoError, decrypt}
use dota_cuck.Store.{Postgres, StoreError}
use dota_cuck.Store.SteamAccounts
use dota_cuck.Api.Models.{Friend, Response, write_json, write_error, friends}
use dota_cuck.Api.State.{Deps, Server}
use dota_cuck.Api.Friends.{
  FriendList, to_friend, fetched, decrypted, with_key, with_account, list_friends,
}

abbrev pub Answers200 : Response → Type 0
Answers200 r = (out : List Friend) × (r ≡ write_json 200 (friends out))

refused :
    (status : ℕ) (message : String)
    → (status ≡ 200 → ⊥)
    → Answers200 (write_error status message)
    → ⊥
refused status message other (out, e) = other (ap (λ r. r.status) e)

module _ (d : Deps) (sort_friends : List Friend → List Friend)
    (fetch : Bytes → Option FriendList) where
  of_fetched :
      (s : Server) (later : Postgres) (account : SteamAccounts.SteamAccount) (r : Option FriendList)
      → Answers200 (fetched d sort_friends fetch s later account r).1
      → (list : FriendList) × (r ≡ some list)
  unfolding fetched
  of_fetched s later account none h = absurd (refused 502 _ (λ e. omega arith) h)
  of_fetched s later account (some list) h = (list, refl)

  of_decrypted :
      (s : Server) (later : Postgres) (account : SteamAccounts.SteamAccount)
      (r : Result CryptoError Bytes)
      → Answers200 (decrypted d sort_friends fetch s later account r).1
      → (token : Bytes) × (list : FriendList) × (r ≡ ok token) × (fetch token ≡ some list)
  of_decrypted s later account (err e) h = absurd (refused 500 _ (λ e'. omega arith) h)
  of_decrypted s later account (ok token) h =
      let (list, e) = of_fetched s later account (fetch token) h in (token, list, refl, e)

  of_with_key :
      (s : Server) (later : Postgres) (account : SteamAccounts.SteamAccount) (r : Option Bytes)
      → Answers200 (with_key d sort_friends fetch s later account r).1
      → (key token : Bytes) × (list : FriendList) × (r ≡ some key)
        × (decrypt d.aead key account.enc_refresh_token account.enc_refresh_nonce ≡ ok token)
        × (fetch token ≡ some list)
  of_with_key s later account none h = absurd (refused 401 _ (λ e. omega arith) h)
  of_with_key s later account (some key) h =
      let (token, list, plain, e) = of_decrypted s later account _ h in
      (key, token, list, refl, plain, e)

  -- The account, key, token and list behind an answer with friends.
  abbrev pub Granted : Server → Postgres → ℕ → String → Type 0
  Granted s pg now user_id =
      (account : SteamAccounts.SteamAccount) × (key token : Bytes) × (list : FriendList)
      × (SteamAccounts.get_by_user_id s.db pg user_id ≡ ok account)
      × (is_empty account.enc_refresh_token ≡ false)
      × ((get_key s.keys user_id now).1 ≡ some key)
      × (decrypt d.aead key account.enc_refresh_token account.enc_refresh_nonce ≡ ok token)
      × (fetch token ≡ some list)

  of_with_account :
      (s : Server) (pg later : Postgres) (now : ℕ) (user_id : String)
      (r : Result StoreError SteamAccounts.SteamAccount)
      → SteamAccounts.get_by_user_id s.db pg user_id ≡ r
      → Answers200 (with_account d sort_friends fetch s later now user_id r).1
      → Granted s pg now user_id
  of_with_account s pg later now user_id (err StoreError.steam_account_not_found) e h =
      absurd (refused 409 _ (λ e'. omega arith) h)
  of_with_account s pg later now user_id (err StoreError.username_taken) e h =
      absurd (refused 500 _ (λ e'. omega arith) h)
  of_with_account s pg later now user_id (err StoreError.user_not_found) e h =
      absurd (refused 500 _ (λ e'. omega arith) h)
  of_with_account s pg later now user_id (err StoreError.steam_account_exists) e h =
      absurd (refused 500 _ (λ e'. omega arith) h)
  of_with_account s pg later now user_id (err StoreError.failed) e h =
      absurd (refused 500 _ (λ e'. omega arith) h)
  of_with_account s pg later now user_id (ok account) e h =
      elim (Bool-cases (is_empty account.enc_refresh_token)) [
        | inl blank ↦ absurd (refused 409 _ (λ e'. omega arith) (rw blank at h))
        | inr full ↦
            let h' = rw full at h in
            let (key, token, list, cached, plain, got) =
              of_with_key (record s { keys = (get_key s.keys user_id now).0 }) later account
                (get_key s.keys user_id now).1 h' in
            (account, key, token, list, e, full, cached, plain, got)
      ]

  -- A friends request is answered with status 200 exactly when the caller has an account with a
  -- stored token, their key is in the cache and not expired, the token decrypts under it, and the
  -- worker answers for that token.
  pub list_friends_iff :
      (s : Server) (pg later : Postgres) (now : ℕ) (user_id : String)
      → Answers200 (list_friends d sort_friends fetch s pg later now user_id).1
        ↔ Granted s pg now user_id
  unfolding list_friends fetched
  list_friends_iff s pg later now user_id = (
    of_with_account s pg later now user_id _ refl,
    λ (account, key, token, list, stored, full, cached, plain, got).
        (sort_friends (map to_friend list.friends), rw (stored, full, cached, plain, got)),
  )
