-- ===== src/Api/Accounts/Linking.antt =====
-- When a link starts, and what its end leaves.
use text.Mathlib.TextPositions.{eq_refl}
use dota_cuck.Prelude.{
  subst, sym, ℕ, ◌≡◌, ◌↔◌, refl, String, true, false, [], ◌∷◌, Option, none, some, arith, Bytes,
  str_eq, if◌then◌else◌,
}
use dota_cuck.Prelude.Result.{ok}
use dota_cuck.Go.Scan.{ℤ}
use dota_cuck.Auth.Primitives.{Random}
use dota_cuck.Auth.KeyCache.{get_key}
use dota_cuck.Store.{Postgres}
use dota_cuck.Store.SteamAccounts
use dota_cuck.Store.Answers.{get_by_user_id-create}
use dota_cuck.Api.Models.{SteamAccountRequest}
use dota_cuck.Api.State.{Deps, Server}
use dota_cuck.Api.Accounts.{
  start_link, add_steam_account, start_account_link, is_half, on_linked, on_error,
}

module _ (d : Deps) where
  -- A request to add an account starts a worker link, for the account `id` under the key `key`,
  -- exactly when it has both credentials or neither, `key` is cached for the user, the row was
  -- created with this id, and there is a link provider.
  pub add_steam_account-start_link_iff :
      (s : Server) (pg : Postgres) (now : ℕ) (req_id user_id id : String) (key : Bytes)
      (req : SteamAccountRequest)
      → ((add_steam_account d s pg now req_id user_id (some req)).2
          ≡ start_link req_id req.steam_username req.steam_password id key ∷ [])
        ↔ ((is_half req ≡ false)
            × ((get_key s.keys user_id now).1 ≡ some key)
            × ((SteamAccounts.create s.db pg user_id req.steam_username).1 ≡ ok id)
            × (d.has_links ≡ true))
  unfolding add_steam_account start_account_link
  add_steam_account-start_link_iff s pg now req_id user_id id key req = (
    (λ h. (ground arith, ground arith, ground arith, ground arith)),
    (λ (whole, cached, made, links). ground arith),
  )

  -- Once a link has ended, with a token or with an error, its account has no link in progress, and
  -- every other account's is what it was. An error leaves the account's row.
  pub link_end_clears :
      (read_exp : Bytes → Option ℤ) (s : Server) (pg : Postgres) (random : Random)
      (account_id owner message : String) (key token : Bytes) (other : String)
      → ((on_linked d read_exp s pg random account_id key owner token).0.link_reqs other
          ≡ (if str_eq account_id other then none else s.link_reqs other))
        × ((on_error d s account_id message).0.link_reqs other
            ≡ (if str_eq account_id other then none else s.link_reqs other))
        × ((on_error d s account_id message).0.db ≡ s.db)
  unfolding on_linked on_error
  link_end_clears read_exp s pg random account_id owner message key token other = (refl, refl, refl)

  started_link :
      (s : Server) (pg : Postgres) (now : ℕ) (req_id user_id id username : String)
      (password key : Bytes) (req : SteamAccountRequest)
      → (add_steam_account d s pg now req_id user_id (some req)).2
        ≡ start_link req_id username password id key ∷ []
      → ((SteamAccounts.create s.db pg user_id req.steam_username).1 ≡ ok id)
        × ((add_steam_account d s pg now req_id user_id (some req)).0.db
            ≡ (SteamAccounts.create s.db pg user_id req.steam_username).0)
        × ((add_steam_account d s pg now req_id user_id (some req)).0.link_reqs id ≡ some req_id)
        × (d.has_links ≡ true)
  unfolding add_steam_account start_account_link
  started_link s pg now req_id user_id id username password key req started =
      (ground arith, ground arith, ground (arith, eq_refl id), ground arith)

  -- Once a request has started a link, the caller has the account with the link's id, and its link
  -- is in progress under the request id.
  pub link_in_progress :
      (s : Server) (pg later : Postgres) (now : ℕ) (req_id user_id uuid id username : String)
      (password key : Bytes) (req : SteamAccountRequest)
      → (add_steam_account d s pg now req_id user_id (some req)).2
        ≡ start_link req_id username password id key ∷ []
      → pg.read_uuid user_id ≡ some uuid
      → later.read_uuid user_id ≡ some uuid
      → later.fails ≡ false
      → let s' = (add_steam_account d s pg now req_id user_id (some req)).0 in
        ((account : SteamAccounts.SteamAccount) × (SteamAccounts.get_by_user_id s'.db later user_id
            ≡ ok account)
          × (account.id ≡ id))
        × (s'.link_reqs id ≡ some req_id)
        × (d.has_links ≡ true)
  link_in_progress s pg later now req_id user_id uuid id username password key req started is_uuid
        still up =
      let (made, same_db, pending, links) =
        started_link s pg now req_id user_id id username password key req started in
      (
        subst
            (λ db.
              (account : SteamAccounts.SteamAccount) × (SteamAccounts.get_by_user_id db later
                  user_id
                ≡ ok account)
              × (account.id ≡ id))
            (sym same_db)
            (get_by_user_id-create s.db pg later user_id uuid req.steam_username id made is_uuid
              still up),
        pending,
        links,
      )
