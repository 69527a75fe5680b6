-- ===== src/Api/LinkProvider/Reports.antt =====
-- What the clients are told of a link.
use Prim.Native.String.{◌++◌}
use dota_cuck.Prelude.{
  ◌≡◌, ◌⊎◌, inl, inr, refl, Option-cases, Bool-cases, String, true, false, [], ◌∷◌, Option, none,
  some, arith, Bytes, eq_iff,
}
use dota_cuck.Go.Scan.{ℤ}
use dota_cuck.Auth.Primitives.{Random}
use dota_cuck.Store.{Postgres}
use dota_cuck.Workers.Messages.{ErrorEvent, LinkResult}
use dota_cuck.Workers.Server
use dota_cuck.Api.Events.{account_linked_event, account_error_event}
use dota_cuck.Api.State.{Deps, Server}
use dota_cuck.Api.Accounts.{broadcast, on_linked, on_error, persist_refresh_token}
use dota_cuck.Api.LinkProvider.{Ending, failed, replied, finish}

module _ (d : Deps) (read_exp : Bytes → Option ℤ) where
  -- Why a link tells an error: the call failed, the reply has an error, or its token was not stored.
  abbrev pub Failing : Server → Postgres → Random → String → Bytes → Ending → String → Type 0
  Failing s pg random account_id key ending message =
      (ending ≡ failed message)
      ⊎ ((res : LinkResult) × (e : ErrorEvent) × (ending ≡ replied res)
          × (res.error ≡ some e)
          × (message ≡ e.code ++ ": " ++ e.message))
      ⊎ ((res : LinkResult) × (ending ≡ replied res)
          × (res.error ≡ none)
          × ((persist_refresh_token d read_exp s.db pg random account_id res.owner_steam_id
                res.refresh_token key).1
              ≡ false)
          × (message ≡ "could not store refresh token"))

  -- A link that ends, in whatever way, tells the clients exactly one thing, and its account has no
  -- link in progress any more. What it tells is that the account is linked, with the Steam id of the
  -- worker's reply, after a reply without an error whose token was stored; it tells an error, with
  -- its text, only where the call failed, the reply has an error, or the token was not stored.
  pub finish_once :
      (s : Server) (pg : Postgres) (random : Random) (account_id : String) (key : Bytes)
      (ending : Ending)
      → ((finish d read_exp s pg random account_id key ending).0.link_reqs account_id ≡ none)
        × (((res : LinkResult) × (ending ≡ replied res)
              × (res.error ≡ none)
              × ((persist_refresh_token d read_exp s.db pg random account_id res.owner_steam_id
                    res.refresh_token key).1
                  ≡ true)
              × ((finish d read_exp s pg random account_id key ending).1
                  ≡ broadcast (account_linked_event account_id res.owner_steam_id) ∷ []))
            ⊎ ((message : String) × Failing s pg random account_id key ending message
                × ((finish d read_exp s pg random account_id key ending).1
                    ≡ broadcast (account_error_event account_id "LINK_FAILED" message) ∷ [])))
  unfolding finish on_linked on_error
  finish_once s pg random account_id key (failed message) =
      (ground (arith, eq_iff account_id account_id), inr (message, inl refl, refl))
  finish_once s pg random account_id key (replied res) = elim (Option-cases res.error) [
    | inl fine ↦
        elim (Bool-cases
          (persist_refresh_token d read_exp s.db pg random account_id res.owner_steam_id
            res.refresh_token key).1) [
              | inl stored ↦ (
                ground (arith, eq_iff account_id account_id),
                inl (res, refl, fine, stored, ground arith),
              )
              | inr lost ↦ (
                ground (arith, eq_iff account_id account_id),
                inr (
                  "could not store refresh token",
                  inr (inr (res, refl, fine, lost, refl)),
                  ground arith,
                ),
              )
            ]
    | inr (e, wrong) ↦ (
      ground (arith, eq_iff account_id account_id),
      inr (e.code ++ ": " ++ e.message, inr (inl (res, e, refl, wrong, refl)), ground arith),
    )
  ]

  pub finish_clears :
      (s : Server) (pg : Postgres) (random : Random) (account_id : String) (key : Bytes)
      (ending : Ending)
      → (finish d read_exp s pg random account_id key ending).0.link_reqs account_id ≡ none
  finish_clears s pg random account_id key ending =
      (finish_once s pg random account_id key ending).0
