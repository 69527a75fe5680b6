-- ===== src/Workers/Streams/Tests.antt =====
-- A worker that connects, reports Ready and is sent a request for friends, which it answers.
use dota_cuck.Prelude.{
  ◌≡◌, ◌≢◌, ◌≤◌, refl, String, true, false, none, some, [], ◌∷◌, ◌++◌, arith, codes, length,
}
use dota_cuck.Workers.Messages.{
  Command, list_friends, FriendsResult, LinkResult, ready, friends_result, link_result,
}
use dota_cuck.Workers.Registry.{
  new_registry, Workers, set_worker, send_capacity, sent, send, register,
}
use dota_cuck.Workers.Pending.{open_call, new_pending, deliver, receive, set_buffer}
use dota_cuck.Workers.Server.{
  Server, new_server, begin_session, end_session, dispatch, handle, take_friends, take_link,
  add_link, leave_friends, leave_link,
}
use dota_cuck.Workers.Streams.{
  System, set_stream, connects, disconnects, hears, sends, Reach, here, then_step, opened, start,
}
use dota_cuck.Workers.Streams.Order.{commands_in_order}
use dota_cuck.Workers.Streams.Current.{HasEnded, ended_is_never_current}
use dota_cuck.Workers.Streams.Replies.{replies_match}

abbrev connected : System String
connected = record {
  server = (begin_session String (start String).server).0;
  streams = set_stream (start String).streams (start String).server.made (opened String);
}

abbrev announced : Server String
announced = record (connected.server) {
  workers = set_worker connected.server.workers 0 (record { id = "w"; send = [] });
  reg = record { current = some 0 };
}

abbrev is_ready : System String
is_ready = record connected { server = announced }

abbrev command : Command
command = list_friends "r" (codes "t")

abbrev queue : Workers
queue = set_worker announced.workers 0 (record { id = "w"; send = command ∷ [] })

abbrev requested : System String
requested = record {
  server = record announced { workers = queue };
  streams = set_stream connected.streams 0 (record (opened String) { queued = command ∷ [] });
}

hears_ready :
    handle String connected.server 0 (record { worker_id = "w"; payload = ready })
    ≡ some (announced, [])
unfolding handle dispatch begin_session register start new_server new_registry
hears_ready = refl

put_in : send (record { current = some 0 }) announced.workers command ≡ sent queue
unfolding send begin_session start new_server
put_in = refl

is_live : (connected.streams 0).live ≡ true
unfolding begin_session start new_server
is_live = refl

books :
    requested.streams
    ≡ set_stream connected.streams 0
        (record (connected.streams 0) { queued = (connected.streams 0).queued ++ command ∷ [] })
unfolding begin_session start new_server
books = refl

run_to_ready : Reach String (start String) is_ready
run_to_ready =
    then_step (then_step here (connects refl))
      (hears 0 (record { worker_id = "w"; payload = ready }) announced [] is_live hears_ready refl)

run_to_request : Reach String (start String) requested
unfolding begin_session start new_server
run_to_request = then_step run_to_ready (sends 0 command queue put_in refl)

commands_in_order_example :
    ((requested.streams 0).queued
      ≡ (requested.streams 0).wire
        ++ ((requested.streams 0).lost ++ (requested.server.workers 0).send))
    × (length (requested.server.workers 0).send ≤ send_capacity)
    × ((requested.streams 0).pumping ≡ true → (requested.streams 0).lost ≡ [])
commands_in_order_example = commands_in_order String requested 0 run_to_request

-- The worker's stream ends, and another one begins.
abbrev gone : System String
gone = record {
  server = end_session String is_ready.server 0;
  streams = set_stream is_ready.streams 0 (record (is_ready.streams 0) { live = false });
}

abbrev again : System String
again = record {
  server = (begin_session String gone.server).0;
  streams = set_stream gone.streams gone.server.made (opened String);
}

gone-HasEnded : HasEnded String gone 0
unfolding begin_session end_session start new_server
gone-HasEnded = (omega arith, refl)

ended_is_never_current_example : again.server.reg.current ≢ some 0
unfolding start new_server
ended_is_never_current_example =
    ended_is_never_current String gone again 0 (then_step run_to_ready (disconnects 0 refl refl))
      gone-HasEnded (then_step here (connects refl))

abbrev friends : FriendsResult
friends = record { request_id = "r"; friends = []; owner_steam_id = "765"; error = none }

abbrev linked : LinkResult
linked = record {
  request_id = "l";
  owner_steam_id = "765";
  error = none;
  refresh_token = codes "t";
}

abbrev waiting : System String
waiting = record is_ready {
  server = record announced { pending = (open_call announced.pending "r").0 };
}

abbrev answered : Server String
answered = record (waiting.server) {
  pending = record (waiting.server.pending) {
    buffers = set_buffer waiting.server.pending.buffers 0 (some friends);
  };
}

hears_friends :
    handle String waiting.server 0 (record { worker_id = "w"; payload = friends_result friends })
    ≡ some (answered, [])
unfolding handle dispatch deliver open_call begin_session start new_server new_pending
hears_friends = refl

abbrev friends_done : Server String
friends_done =
    leave_friends String
      (record answered {
        pending = record (answered.pending) {
          buffers = set_buffer answered.pending.buffers 0 none;
        };
      })
      "r"

takes_it :
    take_friends String answered "r" (open_call announced.pending "r").1
    ≡ some (friends, friends_done)
unfolding take_friends receive open_call begin_session start new_server new_pending
takes_it = refl

abbrev linking : System String
linking = record is_ready { server = (add_link String announced "l" none none).0 }

abbrev link_answered : Server String
link_answered = record (linking.server) {
  links = record (linking.server.links) {
    buffers = set_buffer linking.server.links.buffers 0 (some linked);
  };
}

hears_link :
    handle String linking.server 0 (record { worker_id = "w"; payload = link_result linked })
    ≡ some (link_answered, [])
unfolding handle dispatch deliver add_link open_call begin_session start new_server new_pending
hears_link = refl

abbrev link_done : Server String
link_done =
    leave_link String
      (record link_answered {
        links = record (link_answered.links) {
          buffers = set_buffer link_answered.links.buffers 0 none;
        };
      })
      "l"

takes_that :
    take_link String link_answered "l" (add_link String announced "l" none none).1
    ≡ some (linked, link_done)
unfolding take_link receive add_link open_call begin_session start new_server new_pending
takes_that = refl

replies_match_example : (friends.request_id ≡ "r") × (linked.request_id ≡ "l")
replies_match_example =
    replies_match String is_ready (record waiting { server = answered }) is_ready
      (record linking { server = link_answered }) friends_done link_done "r" "l" none none friends
      linked run_to_ready
      (then_step here (
        hears 0 (record { worker_id = "w"; payload = friends_result friends }) answered [] is_live
          hears_friends refl))
      takes_it run_to_ready
      (then_step here (
        hears 0 (record { worker_id = "w"; payload = link_result linked }) link_answered [] is_live
          hears_link refl))
      takes_that
