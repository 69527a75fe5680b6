-- ===== src/Api/LinkProvider/Guided.antt =====
-- A link with a Steam Guard code, from the request that starts it to the worker's reply: the ids
-- under which the API server, the link provider and the worker server know it.
use dota_cuck.Prelude.{
  ℕ, ◌≡◌, refl, String, true, false, [], ◌∷◌, ◌++◌, length, ltb, str_eq, Option, none, some, arith,
  Bytes,
}
use dota_cuck.Go.Scan.{ℤ}
use dota_cuck.Auth.Primitives.{Random}
use dota_cuck.Store.{Postgres}
use dota_cuck.Workers.Messages.{SteamGuardType, LinkResult, link_account, steam_guard, link_result}
use dota_cuck.Workers.Registry.{Workers, send_capacity}
use dota_cuck.Workers.Server
use dota_cuck.Workers.Server.{Callback, waiting, dispatch, take_link}
use dota_cuck.Workers.Server.Calls.{begin_link_inv, begin_link_asks, link_reply}
use dota_cuck.Api.Events.{account_guard_event}
use dota_cuck.Api.Models.{SteamAccountRequest, write_json, no_content}
use dota_cuck.Api.State.{Deps, Server}
use dota_cuck.Api.Accounts.{broadcast, start_link, submit_guard_code, add_steam_account, on_guard}
use dota_cuck.Api.Accounts.Linking.{link_in_progress}
use dota_cuck.Api.LinkProvider.{guard_type_string, begin, replied, notify, finish}
use dota_cuck.Api.LinkProvider.Codes.{submit_to_worker, with_code, code_relayed}
use dota_cuck.Api.LinkProvider.Reports.{finish_clears}

module _ (d : Deps) (read_exp : Bytes → Option ℤ) where
  prompted :
      (ws : Server.Server String) (s : Server) (req_id account_id : String) (w : ℕ)
      (worker_id : String) (guard_type : SteamGuardType)
      → ws.guards req_id ≡ some account_id
      → (dispatch String ws w worker_id (steam_guard guard_type req_id)
          ≡ some (ws, Callback.on_guard account_id guard_type ∷ []))
        × (notify d s (Callback.on_guard account_id guard_type)
            ≡ (s, broadcast (account_guard_event account_id (guard_type_string guard_type)) ∷ []))
  unfolding dispatch notify on_guard
  prompted ws s req_id account_id w worker_id guard_type there = (ground arith, refl)

  -- A link with a Steam Guard code, where a request of the user has started the link, the call
  -- waits for the connected worker, the user's id is a UUID and the database answers. The
  -- worker's queue then ends with the command to log in, under the request id. Whatever the
  -- queues hold later, while the tables of the worker server stay: a prompt of the worker under
  -- the request id is told to the clients under the account's id; a code that is not empty and
  -- that the user sends to the account's id is queued for the worker under the request id, if the
  -- queue has room, and answered with 204; and the worker's reply under the request id reaches
  -- the waiting call, after whose end the account has no link in progress.
  pub guided_link :
      (s : Server) (pg later : Postgres) (random : Random) (now : ℕ)
      (req_id user_id uuid id username code worker_id : String) (password key : Bytes)
      (req : SteamAccountRequest) (ws waits : Server.Server String) (c w : ℕ) (queues : Workers)
      (guard_type : SteamGuardType) (res : LinkResult)
      → (add_steam_account d s pg now req_id user_id (some req)).2
        ≡ start_link req_id username password id key ∷ []
      → pg.read_uuid user_id ≡ some uuid
      → later.read_uuid user_id ≡ some uuid
      → later.fails ≡ false
      → begin ws req_id username password id ≡ (waits, waiting c)
      → ws.reg.current ≡ some w
      → ltb (length (queues w).send) send_capacity ≡ true
      → str_eq code "" ≡ false
      → res.request_id ≡ req_id
      → let s' = (add_steam_account d s pg now req_id user_id (some req)).0 in
        let there = record waits { workers = queues } in
        let coded = with_code waits queues w req_id code in
        ((waits.workers w).send ≡ (ws.workers w).send ++ link_account req_id username password ∷ [])
        × ((cb : Callback String) × (dispatch String there w worker_id
                (steam_guard guard_type req_id)
              ≡ some (there, cb ∷ []))
            × (notify d s' cb
                ≡ (s', broadcast (account_guard_event id (guard_type_string guard_type)) ∷ [])))
        × (submit_to_worker d s' there later user_id id (some (record { code = code }))
            ≡ some ((s', write_json 204 no_content, submit_guard_code req_id code ∷ []), coded))
        × ((delivered done : Server.Server String) × (dispatch String coded w worker_id
                (link_result res)
              ≡ some (delivered, []))
            × (take_link String delivered req_id c ≡ some (res, done))
            × ((finish d read_exp s' later random id key (replied res)).0.link_reqs id ≡ none))
  unfolding begin
  guided_link s pg later random now req_id user_id uuid id username code worker_id password key req
        ws waits c w queues guard_type res started is_uuid still up began current room full same =
      let s' = (add_steam_account d s pg now req_id user_id (some req)).0 in
      let there = record waits { workers = queues } in
      let (own, pending, links) =
        link_in_progress d s pg later now req_id user_id uuid id username password key req started
          is_uuid still up in
      let (chan, empty_chan) =
        begin_link_inv String ws waits req_id username password (some id) (some id) c began in
      let (guard, still_current, asked) =
        begin_link_asks String ws waits req_id username password id id c w began current in
      let (told, shown) = prompted there s' req_id id w worker_id guard_type guard in
      let (delivered, done, arrives, taken, _, _, _) =
        link_reply String (with_code waits queues w req_id code) req_id c w worker_id res chan
          empty_chan same in
      (
        asked,
        (Callback.on_guard id guard_type, told, shown),
        code_relayed d s' there later user_id req_id id code w full own pending links still_current
            room,
        (
          delivered,
          done,
          arrives,
          taken,
          finish_clears d read_exp s' later random id key (replied res),
        ),
      )
