-- ===== src/Api/LinkProvider/Codes.antt =====
-- `linkProvider.SubmitGuardCode`, and a code's way from the request to the worker's queue.
use dota_cuck.Prelude.{
  ◌≡◌, String, Bool, true, false, Option, none, some, List, [], ◌∷◌, ◌++◌, ◌>>=◌, length, ltb,
  str_eq, arith, eq_iff, ℕ, ◌⊎◌, inl, inr, Option-cases, Bool-cases,
}
use dota_cuck.Prelude.Result.{ok}
use dota_cuck.Store.{Postgres}
use dota_cuck.Store.SteamAccounts
use dota_cuck.Workers.Messages
use dota_cuck.Workers.Registry.{
  Workers, send, SendResult, sent, no_worker, blocked, set_worker, send_capacity,
}
use dota_cuck.Workers.Server
use dota_cuck.Workers.Server.{submit_code}
use dota_cuck.Api.Models.{SteamGuardRequest, write_json, write_error, no_content}
use dota_cuck.Api.State.{Deps, Server}
use dota_cuck.Api.Accounts.{Effect, submit_guard_code, Reply, submit_account_steam_guard}

abbrev relayed_by : Server.Server String → SendResult → Option (Server.Server String × Bool)
relayed_by ws (sent workers) = some (record ws { workers = workers }, true)
relayed_by ws no_worker = some (ws, false)
relayed_by ws blocked = none

-- `SubmitGuardCode`: whether it returns no error; `none` while the worker's queue is full.
unfoldable pub provide_code :
    Server.Server String → String → String → Option (Server.Server String × Bool)
provide_code ws req_id code = relayed_by ws (submit_code String ws req_id code)

-- The worker server with these queues and a code behind the commands of one of them.
abbrev pub with_code : Server.Server String → Workers → ℕ → String → String → Server.Server String
with_code ws queues w req_id code = record ws {
  workers =
      set_worker queues w (record (queues w) {
        send = (queues w).send ++ Messages.submit_guard_code req_id code ∷ [];
      });
}

module _ (d : Deps) where
  abbrev with_effects :
      (Bool → Reply) → Server.Server String → List Effect → Option (Reply × Server.Server String)
  with_effects handler ws (submit_guard_code req_id code ∷ effects) =
      provide_code ws req_id code >>= λ (ws', relayed). some (handler relayed, ws')
  with_effects handler ws effects = some (handler false, ws)

  -- The handler with the worker server behind it.
  unfoldable pub submit_to_worker :
      Server
      → Server.Server String
      → Postgres
      → String
      → String
      → Option SteamGuardRequest
      → Option (Reply × Server.Server String)
  submit_to_worker s ws pg user_id id body =
      with_effects (λ relayed. submit_account_steam_guard d s pg relayed user_id id body) ws
        (submit_account_steam_guard d s pg false user_id id body).2

  -- A code that its handler relays reaches the worker: where the code is not empty, the path names
  -- the caller's account and that account's link is in progress under a request id, the worker's
  -- queue gets, after the commands it held, the code under that request id, and the answer is 204.
  -- With no worker connected the answer is 502 and no queue changes; while the queue is full the
  -- request waits. The state of the API server is the same after the answer.
  pub code_reaches_worker :
      (s : Server) (ws : Server.Server String) (pg : Postgres) (user_id req_id code : String)
      (account : SteamAccounts.SteamAccount)
      → str_eq code "" ≡ false
      → SteamAccounts.get_by_user_id s.db pg user_id ≡ ok account
      → s.link_reqs account.id ≡ some req_id
      → d.has_links ≡ true
      → ((ws.reg.current ≡ none)
          × (submit_to_worker s ws pg user_id account.id (some (record { code = code }))
              ≡ some (
                (
                  s,
                  write_error 502 "could not submit steam guard code",
                  submit_guard_code req_id code ∷ [],
                ),
                ws,
              )))
        ⊎ ((w : ℕ) × (ws.reg.current ≡ some w)
            × (((ltb (length (ws.workers w).send) send_capacity ≡ true)
                  × (submit_to_worker s ws pg user_id account.id (some (record { code = code }))
                      ≡ some (
                        (s, write_json 204 no_content, submit_guard_code req_id code ∷ []),
                        record ws {
                          workers = set_worker ws.workers w (record (ws.workers w) {
                            send =
                                (ws.workers w).send ++ Messages.submit_guard_code req_id code ∷ [];
                          });
                        },
                      )))
                ⊎ ((ltb (length (ws.workers w).send) send_capacity ≡ false)
                    × (submit_to_worker s ws pg user_id account.id (some (record { code = code }))
                        ≡ none))))
  unfolding submit_to_worker submit_account_steam_guard provide_code submit_code send
  code_reaches_worker s ws pg user_id req_id code account full own pending links =
      elim (Option-cases ws.reg.current) [
        | inl gone ↦ inl (gone, ground (arith, eq_iff account.id account.id))
        | inr (w, connected) ↦ elim (Bool-cases (ltb (length (ws.workers w).send) send_capacity)) [
          | inl room ↦ inr (w, connected, inl (room, ground (arith, eq_iff account.id account.id)))
          | inr no_room ↦
              inr (w, connected, inr (no_room, ground (arith, eq_iff account.id account.id)))
        ]
      ]

  -- The case of a connected worker with room, by the account's id.
  pub code_relayed :
      (s : Server) (ws : Server.Server String) (pg : Postgres) (user_id req_id id code : String)
      (w : ℕ)
      → str_eq code "" ≡ false
      → (account : SteamAccounts.SteamAccount) × (SteamAccounts.get_by_user_id s.db pg user_id
          ≡ ok account)
        × (account.id ≡ id)
      → s.link_reqs id ≡ some req_id
      → d.has_links ≡ true
      → ws.reg.current ≡ some w
      → ltb (length (ws.workers w).send) send_capacity ≡ true
      → submit_to_worker s ws pg user_id id (some (record { code = code }))
        ≡ some (
          (s, write_json 204 no_content, submit_guard_code req_id code ∷ []),
          with_code ws ws.workers w req_id code,
        )
  unfolding submit_to_worker submit_account_steam_guard provide_code submit_code send
  code_relayed s ws pg user_id req_id id code w full (account, own, same) pending links connected
        room =
      ground (arith, eq_iff account.id id)
