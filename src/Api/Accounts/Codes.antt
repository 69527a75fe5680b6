-- ===== src/Api/Accounts/Codes.antt =====
-- Who may send a Steam Guard code, and what a removal answers.
use dota_cuck.Prelude.{
  ◌≡◌, ◌↔◌, String, Bool, true, false, [], ◌∷◌, none, some, arith, inl, inr, str_eq, eq_iff,
}
use dota_cuck.Prelude.Result.{ok, Result-cases}
use dota_cuck.Store.{Postgres, any_row}
use dota_cuck.Store.SteamAccounts
use dota_cuck.Api.Models.{SteamGuardRequest, write_error}
use dota_cuck.Api.State.{Deps, Server}
use dota_cuck.Api.Accounts.{submit_guard_code, submit_account_steam_guard, delete_steam_account}

module _ (d : Deps) where
  -- A code is relayed to a link exactly when it is not empty, the account in the path is the one
  -- that the caller has linked, that account's link is in progress under this request id, and there
  -- is a link provider. Whether or not it is relayed, the state does not change.
  pub submit-relays_iff :
      (s : Server) (pg : Postgres) (relayed : Bool) (user_id id req_id : String)
      (req : SteamGuardRequest)
      → (((submit_account_steam_guard d s pg relayed user_id id (some req)).2
            ≡ submit_guard_code req_id req.code ∷ [])
          ↔ ((str_eq req.code "" ≡ false)
              × ((account : SteamAccounts.SteamAccount) × (SteamAccounts.get_by_user_id s.db pg
                      user_id
                    ≡ ok account)
                  × (account.id ≡ id))
              × (s.link_reqs id ≡ some req_id)
              × (d.has_links ≡ true)))
        × ((submit_account_steam_guard d s pg relayed user_id id (some req)).0 ≡ s)
  unfolding submit_account_steam_guard
  submit-relays_iff s pg relayed user_id id req_id req =
      elim (Result-cases (SteamAccounts.get_by_user_id s.db pg user_id)) [
        | inl (a, found) ↦ (
          (
            (λ h. (
              ground arith,
              (a, found, (eq_iff a.id id).0 (ground arith)),
              ground arith,
              ground arith,
            )),
            (λ (full, (b, e, own), pending, links). ground (arith, eq_iff a.id id)),
          ),
          ground arith,
        )
        | inr (e, missing) ↦ (
          (
            (λ h. absurd (ground arith)),
            (λ (full, (b, e', own), pending, links). absurd (ground arith)),
          ),
          ground arith,
        )
      ]

  -- With the database up, a removal by a path id that is no UUID answers 500, and one by a UUID that
  -- is not the id of the caller's account answers 404; both change nothing.
  pub delete_refused :
      (s : Server) (pg : Postgres) (user_id user_uuid bad other uuid : String)
      → pg.fails ≡ false
      → pg.read_uuid user_id ≡ some user_uuid
      → pg.read_uuid bad ≡ none
      → pg.read_uuid other ≡ some uuid
      → any_row (SteamAccounts.owned_by uuid user_uuid) s.db.steam_accounts ≡ false
      → (delete_steam_account d s pg user_id bad
          ≡ (s, write_error 500 "could not remove steam account", []))
        × (delete_steam_account d s pg user_id other
            ≡ (s, write_error 404 "steam account not found", []))
  unfolding delete_steam_account SteamAccounts.delete
  delete_refused s pg user_id user_uuid bad other uuid up user not_uuid is_uuid none_owned =
      (ground arith, ground arith)
