-- ===== src/Workers/Tests.antt =====
-- Sessions, calls and replies at concrete inputs.
use dota_cuck.Prelude.{eq_iff, ◌≡◌, refl, String, none, some, [], arith, codes, empty, put}
use dota_cuck.Workers.Messages.{Command, FriendsResult, submit_guard_code}
use dota_cuck.Workers.Registry.{Registry, Workers}
use dota_cuck.Workers.Pending.{Pending, new_pending, open_call, deliver, receive, set_buffer}
use dota_cuck.Prelude.Result.{ok}
use dota_cuck.Go.Hex.{encode_hex}
use dota_cuck.Auth.Primitives.{Random, IsRandom}
use dota_cuck.Auth.StandIns.{replicate, length-replicate, replicate-AreBytes, toy_random}
use dota_cuck.Workers.RequestIds.{new_request_id}
use dota_cuck.Workers.Pending.Correlation
use dota_cuck.Workers.Pending.Delivery.{opens, nothing, and_then, reply_arrives}
use dota_cuck.Workers.Server.{Server, new_server, Begun, waiting, begin_link}

abbrev idle : Workers
idle w = record { id = "w"; send = [] }

abbrev code : Command
code = submit_guard_code "r" "K4J9X"

abbrev first : Registry
first = record { current = some 0 }

abbrev reply : String → FriendsResult
reply id = record { request_id = id; friends = []; owner_steam_id = "765"; error = none }

abbrev request_id : FriendsResult → String
request_id r = r.request_id

abbrev two_calls : Pending FriendsResult
two_calls = record {
  chans = put (put empty "a" 0) "b" 1;
  buffers = set_buffer (set_buffer (λ c. none) 0 none) 1 none;
  made = 2;
}

abbrev answered : Pending FriendsResult
answered = record two_calls { buffers = set_buffer two_calls.buffers 0 (some (reply "a")) }

answers_first : deliver two_calls "a" (reply "a") ≡ some answered
unfolding deliver
answers_first = refl

second_opens : two_calls ≡ (open_call (open_call {R = FriendsResult} new_pending "a").0 "b").0
unfolding open_call new_pending
second_opens = refl

takes_first :
    receive answered (open_call {R = FriendsResult} new_pending "a").1
    ≡ some (reply "a", record answered { buffers = set_buffer answered.buffers 0 none })
unfolding receive open_call new_pending
takes_first = refl

reply_arrives_example :
    (delivered : Pending FriendsResult) × (taken : Pending FriendsResult) × (deliver
        (open_call (open_call {R = FriendsResult} new_pending "a").0 "b").0
        "a"
        (reply "a")
      ≡ some delivered)
    × (receive delivered (open_call {R = FriendsResult} new_pending "a").1
        ≡ some (reply "a", taken))
reply_arrives_example =
    reply_arrives request_id new_pending _ "a" (reply "a") Correlation.here
      (and_then nothing (opens "b" (λ e. absurd (ground (arith, eq_iff "b" "a"))) refl)) refl

abbrev zeros : Random
zeros n = some (replicate n 0)

zeros-IsRandom : IsRandom zeros
zeros-IsRandom n bs h =
    rw (← some_inv h) (length-replicate n 0, replicate-AreBytes n 0 (omega arith))
  where
    some_inv : some (replicate n 0) ≡ some bs → replicate n 0 ≡ bs
    some_inv e = cc

zeros_id : new_request_id zeros ≡ ok "00000000000000000000000000000000"
unfolding new_request_id encode_hex
zeros_id = refl

toy_id : new_request_id toy_random ≡ ok "07070707070707070707070707070707"
unfolding new_request_id encode_hex
toy_id = refl

-- One worker, connected.
abbrev connected : Server String
connected = record (new_server String) { reg = first; workers = idle; made = 1 }

abbrev started : Server String × Begun String
started = begin_link String connected "r" "alice" (codes "s3cr3t") (some "guard") (some "qr")

link_starts : started ≡ (started.0, waiting 0)
unfolding begin_link new_server new_pending
link_starts = refl
