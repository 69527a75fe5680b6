-- ===== src/Api/LinkProvider/Tests.antt =====
-- Reports of a link tried on small states.
use dota_cuck.Prelude.{
  ◌*◌, ℕ, ◌≡◌, ◌⊎◌, refl, String, ◌++◌, length, ltb, true, false, none, some, [], ◌∷◌, codes,
}
use dota_cuck.Auth.StandIns.{toy_random}
use dota_cuck.Workers.Messages
use dota_cuck.Workers.Messages.{link_account, link_result, LinkResult, email, steam_guard}
use dota_cuck.Workers.Server
use dota_cuck.Workers.Server.{Callback, waiting, new_server, dispatch, take_link, begin_link}
use dota_cuck.Workers.Pending.{open_call, new_pending}
use dota_cuck.Workers.Registry.{Workers, send, set_worker, send_capacity}
use dota_cuck.Api.Events.{account_linked_event, account_error_event, account_guard_event}
use dota_cuck.Auth.Jwt.{second}
use dota_cuck.Auth.KeyCache.{get_key}
use dota_cuck.Api.LinkProvider.Guided.{guided_link}
use dota_cuck.Api.Accounts.{
  broadcast, start_link, add_steam_account, start_account_link, submit_guard_code,
  persist_refresh_token,
}
use dota_cuck.Api.Samples.{
  request, logged_in, account, deps, nine, linking, answering, aes_key, refresh_token,
}
use dota_cuck.Api.LinkProvider.{guard_type_string, begin, replied, notify, finish}
use dota_cuck.Store.SteamAccounts
use dota_cuck.Api.Models.{write_json, write_error, no_content}
use dota_cuck.Api.LinkProvider.Codes.{submit_to_worker, with_code, code_reaches_worker}
use dota_cuck.Api.LinkProvider.Reports.{Failing, finish_once}

abbrev reply : LinkResult
reply = record {
  request_id = "r";
  owner_steam_id = "765";
  error = none;
  refresh_token = refresh_token;
}

finish_once_example :
    ((finish deps nine linking (answering "x") toy_random "a1" aes_key (replied reply)).0.link_reqs
        "a1"
      ≡ none)
    × (((res : LinkResult) × (replied reply ≡ replied res)
          × (res.error ≡ none)
          × ((persist_refresh_token deps nine linking.db
                (answering "x")
                toy_random
                "a1"
                res.owner_steam_id
                res.refresh_token
                aes_key).1
              ≡ true)
          × ((finish deps nine linking (answering "x") toy_random "a1" aes_key (replied reply)).1
              ≡ broadcast (account_linked_event "a1" res.owner_steam_id) ∷ []))
        ⊎ ((message : String) × Failing deps nine linking
              (answering "x")
              toy_random
              "a1"
              aes_key
              (replied reply)
              message
            × ((finish deps nine linking (answering "x") toy_random "a1" aes_key (replied reply)).1
                ≡ broadcast (account_error_event "a1" "LINK_FAILED" message) ∷ [])))
finish_once_example =
    finish_once deps nine linking (answering "x") toy_random "a1" aes_key (replied reply)

abbrev connected : Server.Server String
connected = record (new_server String) {
  reg = record { current = some 0 };
  workers = λ w. record { id = "w"; send = [] };
}

abbrev started : Server.Server String
started = (begin connected "r" "alice" (codes "s3cr3t") "a1").0

code_reaches_worker_example :
    ((connected.reg.current ≡ none)
      × (submit_to_worker deps linking connected
            (answering "x")
            "id-1"
            "a1"
            (some (record { code = "K4J9X" }))
          ≡ some (
            (
              linking,
              write_error 502 "could not submit steam guard code",
              submit_guard_code "r" "K4J9X" ∷ [],
            ),
            connected,
          )))
    ⊎ ((w : ℕ) × (connected.reg.current ≡ some w)
        × (((ltb (length (connected.workers w).send) send_capacity ≡ true)
              × (submit_to_worker deps linking connected
                    (answering "x")
                    "id-1"
                    "a1"
                    (some (record { code = "K4J9X" }))
                  ≡ some (
                    (linking, write_json 204 no_content, submit_guard_code "r" "K4J9X" ∷ []),
                    record connected {
                      workers = set_worker connected.workers w (record (connected.workers w) {
                        send =
                            (connected.workers w).send
                            ++ Messages.submit_guard_code "r" "K4J9X" ∷ [];
                      });
                    },
                  )))
            ⊎ ((ltb (length (connected.workers w).send) send_capacity ≡ false)
                × (submit_to_worker deps linking connected
                      (answering "x")
                      "id-1"
                      "a1"
                      (some (record { code = "K4J9X" }))
                    ≡ none))))
unfolding SteamAccounts.get_by_user_id
code_reaches_worker_example =
    code_reaches_worker deps linking connected (answering "x") "id-1" "r" "K4J9X" account refl refl
      refl refl

abbrev asking : Server.Server String
asking = (begin connected "r" "alice_dota" (codes "s3cr3t") "a1").0

asks : begin connected "r" "alice_dota" (codes "s3cr3t") "a1" ≡ (asking, waiting 0)
unfolding begin begin_link send open_call new_server new_pending
asks = refl

link_requested :
    (add_steam_account deps logged_in (answering "a1") (6 * second) "r" "id-1" (some request)).2
    ≡ start_link "r" "alice_dota" (codes "s3cr3t") "a1" aes_key ∷ []
unfolding add_steam_account start_account_link get_key SteamAccounts.create
link_requested = refl

-- The worker's pump has taken the command.
abbrev taken : Workers
taken w = record { id = "w"; send = [] }

guided_link_example :
    let s' =
      (add_steam_account deps logged_in
        (answering "a1")
        (6 * second)
        "r"
        "id-1"
        (some request)).0 in
    let there = record asking { workers = taken } in
    let coded = with_code asking taken 0 "r" "K4J9X" in
    ((asking.workers 0).send
      ≡ (connected.workers 0).send ++ link_account "r" "alice_dota" (codes "s3cr3t") ∷ [])
    × ((cb : Callback String) × (dispatch String there 0 "w" (steam_guard email "r")
          ≡ some (there, cb ∷ []))
        × (notify deps s' cb
            ≡ (s', broadcast (account_guard_event "a1" (guard_type_string email)) ∷ [])))
    × (submit_to_worker deps s' there (answering "x") "id-1" "a1" (some (record { code = "K4J9X" }))
        ≡ some ((s', write_json 204 no_content, submit_guard_code "r" "K4J9X" ∷ []), coded))
    × ((delivered done : Server.Server String) × (dispatch String coded 0 "w" (link_result reply)
          ≡ some (delivered, []))
        × (take_link String delivered "r" 0 ≡ some (reply, done))
        × ((finish deps nine s' (answering "x") toy_random "a1" aes_key (replied reply)).0.link_reqs
              "a1"
            ≡ none))
guided_link_example =
    guided_link deps nine logged_in (answering "a1") (answering "x") toy_random (6 * second) "r"
      "id-1" "id-1" "a1" "alice_dota" "K4J9X" "w" (codes "s3cr3t") aes_key request connected asking
      0 0 taken email reply link_requested refl refl refl asks refl refl refl refl
