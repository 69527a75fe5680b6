-- ===== src/Api/Hub/Serving/Tests.antt =====
-- Two connections, of which the first ends.
use dota_cuck.Prelude.{◌≡◌, refl, true, false, [], ◌∷◌, if◌then◌else◌, ◌==◌, ◌&&◌}
use dota_cuck.Api.Events.{account_linked_event}
use dota_cuck.Api.Events.Wire.{marshal}
use dota_cuck.Api.Hub.{new_hub, add_client, remove_client, broadcast_event}
use dota_cuck.Api.Hub.Serving.{
  Serving, no_connection, set_running, refuses, accepts, reads, ends, Served, here, after, texts_to,
}
use dota_cuck.Api.Hub.Serving.Reached.{broadcast_reaches_served}

abbrev two : Serving
two = record {
  hub = add_client (add_client new_hub 0) 1;
  running = set_running (set_running (λ c. false) 0 true) 1 true;
  made = 2;
}

abbrev one_left : Serving
one_left = record two { hub = remove_client two.hub 0; running = set_running two.running 0 false }

two-Served : Served no_connection two
unfolding no_connection
two-Served = after (after (after here (refuses refl)) (accepts refl)) (accepts refl)

one_left-Served : Served no_connection one_left
one_left-Served = after (after two-Served (reads 1 refl refl)) (ends 0 refl refl)

broadcast_reaches_served_example :
    texts_to (λ c. c == 1) 1 (broadcast_event two.hub (account_linked_event "a1" "765"))
    ≡ (if two.running 1 && 1 == 1 then marshal (account_linked_event "a1" "765") ∷ [] else [])
broadcast_reaches_served_example =
    broadcast_reaches_served two (λ c. c == 1) 1 (account_linked_event "a1" "765") two-Served
