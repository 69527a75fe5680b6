-- ===== src/Api/Friends/Token.antt =====
-- The refresh token from the end of a link to the worker.
use dota_cuck.Prelude.{
  ℕ, ◌≡◌, ◌∙◌, refl, String, Bool, true, false, List, [], ◌∷◌, Option, some, arith, Bytes, is_empty,
  eq_iff,
}
use text.Mathlib.TextPositions.{eq_refl}
use dota_cuck.Prelude.Result.{Result, ok, err}
use dota_cuck.Go.Scan.{ℤ}
use dota_cuck.Auth.Primitives.{Random, IsRandom}
use dota_cuck.Auth.Crypto.{CryptoError, encrypt, decrypt}
use dota_cuck.Auth.Crypto.RoundTrip.{encrypt_sealed, decrypt-encrypt}
use dota_cuck.Auth.KeyCache.{KeyCache, get_key}
use dota_cuck.Store.{Db, Postgres, StoreError}
use dota_cuck.Store.SteamAccounts
use dota_cuck.Store.Answers.{with_token, save_refresh_token-get_by_user_id}
use dota_cuck.Api.Models.{Friend}
use dota_cuck.Api.SplitJwt.{expiry_from_jwt}
use dota_cuck.Api.State.{Deps, Server}
use dota_cuck.Api.Accounts.{broadcast, on_linked, persist_refresh_token}
use dota_cuck.Api.Events.{account_linked_event, account_error_event}
use dota_cuck.Api.Friends.{FriendList, list_friends, fetched}

module _ (d : Deps) (read_exp : Bytes → Option ℤ) where
  friends_lem :
      (sort_friends : List Friend → List Friend) (fetch : Bytes → Option FriendList) (s : Server)
      (pg later : Postgres) (now : ℕ) (user_id : String) (keys : KeyCache) (key token : Bytes)
      (account : SteamAccounts.SteamAccount)
      → SteamAccounts.get_by_user_id s.db pg user_id ≡ ok account
      → is_empty account.enc_refresh_token ≡ false
      → get_key s.keys user_id now ≡ (keys, some key)
      → decrypt d.aead key account.enc_refresh_token account.enc_refresh_nonce ≡ ok token
      → list_friends d sort_friends fetch s pg later now user_id
        ≡ fetched d sort_friends fetch (record s { keys = keys }) later account (fetch token)
  unfolding list_friends
  friends_lem sort_friends fetch s pg later now user_id keys key token account found full cached
        plain =
      rw (found, full, cached, plain)

  persist_inv :
      (db db' : Db) (pg : Postgres) (random : Random) (account_id owner : String)
      (token key : Bytes)
      → persist_refresh_token d read_exp db pg random account_id owner token key ≡ (db', true)
      → (cipher : Bytes) × (nonce : Bytes) × (encrypt d.aead random key token ≡ ok (cipher, nonce))
        × (SteamAccounts.save_refresh_token db pg account_id owner "" cipher nonce
              (expiry_from_jwt read_exp token)
            ≡ (db', ok tt))
  unfolding persist_refresh_token
  persist_inv db db' pg random account_id owner token key h =
      go (encrypt d.aead random key token) refl
    where
      save_inv :
          (r : Db × Result StoreError (Unit {0}))
          → (let (db₁, e) = r in
              ◌≡◌ {A = Db × Bool} (db₁, elim e [ ok _ ↦ true | err _ ↦ false ]) (db', true))
          → r ≡ (db', ok tt)
      save_inv (db₁, ok tt) same = ground arith
      save_inv (db₁, err e) same = absurd (ground arith)

      go :
          (e : Result CryptoError (Bytes × Bytes))
          → encrypt d.aead random key token ≡ e
          → (cipher : Bytes) × (nonce : Bytes) × (encrypt d.aead random key token
              ≡ ok (cipher, nonce))
            × (SteamAccounts.save_refresh_token db pg account_id owner "" cipher nonce
                  (expiry_from_jwt read_exp token)
                ≡ (db', ok tt))
      go (err e) same = absurd (ground arith)
      go (ok (cipher, nonce)) same = (cipher, nonce, same, save_inv _ (rw same at h))

  on_linked_inv :
      (s s' : Server) (pg : Postgres) (random : Random) (account_id owner : String)
      (key token : Bytes)
      → on_linked d read_exp s pg random account_id key owner token
        ≡ (s', broadcast (account_linked_event account_id owner) ∷ [])
      → (persist_refresh_token d read_exp s.db pg random account_id owner token key ≡ (s'.db, true))
        × (s'.keys ≡ s.keys)
  unfolding on_linked account_linked_event account_error_event
  on_linked_inv s s' pg random account_id owner key token h =
      (ground (arith, eq_iff "error" "account_linked"), ground arith)

  -- When a link has reported success over the WebSocket, a friends request of the account's owner,
  -- while the cache still holds the key that the link was started with, asks the worker with exactly
  -- the refresh token of the link, for the account with the Steam id that the link reported.
  pub list_friends-on_linked :
      (sort_friends : List Friend → List Friend) (fetch : Bytes → Option FriendList) (s s' : Server)
      (pg select later : Postgres) (random : Random) (now : ℕ) (account_id owner user_id : String)
      (key token : Bytes) (keys : KeyCache) (account : SteamAccounts.SteamAccount)
      → IsRandom random
      → on_linked d read_exp s pg random account_id key owner token
        ≡ (s', broadcast (account_linked_event account_id owner) ∷ [])
      → SteamAccounts.get_by_user_id s.db select user_id ≡ ok account
      → pg.read_uuid account_id ≡ some account.id
      → get_key s.keys user_id now ≡ (keys, some key)
      → (account' : SteamAccounts.SteamAccount) × (account'.id ≡ account.id)
        × (account'.steam_id ≡ owner)
        × (list_friends d sort_friends fetch s' select later now user_id
            ≡ fetched d sort_friends fetch (record s' { keys = keys }) later account' (fetch token))
  list_friends-on_linked sort_friends fetch s s' pg select later random now account_id owner user_id
        key token keys account good linked found canonical cached =
      let (persisted, same_keys) = on_linked_inv s s' pg random account_id owner key token linked in
      let (cipher, nonce, sealed, saved) =
        persist_inv s.db s'.db pg random account_id owner token key persisted in
      let account' = with_token owner "" cipher nonce (expiry_from_jwt read_exp token) account in
      let found' : SteamAccounts.get_by_user_id s'.db select user_id ≡ ok account' =
        save_refresh_token-get_by_user_id s.db s'.db pg select account_id account.id owner ""
          user_id cipher nonce (expiry_from_jwt read_exp token) saved canonical
        ∙ rw (found, eq_refl account.id) in
      (
        account',
        refl,
        refl,
        friends_lem sort_friends fetch s' select later now user_id keys key token account' found'
            (encrypt_sealed d.aead random key token cipher nonce good sealed)
            (rw (same_keys) cached)
            (decrypt-encrypt d.aead random key token cipher nonce good sealed),
      )
