-- ===== src/Api/Events/Wire/Tests.antt =====
-- The texts that events_test.go expects, and an event whose fields need every kind of escape.
use dota_cuck.Prelude.{codes, some, ◌≡◌, refl}
use dota_cuck.Go.Json.{short_escape, write_char, write_chars, write_members, write_object}
use dota_cuck.Api.Events.{
  PushEvent, session_state_event, steam_guard_event, stream_ready_event, error_event,
}
use dota_cuck.Api.Events.Wire.{present, marshal, texts, unmarshal}
use dota_cuck.Api.Events.Wire.RoundTrip.{unmarshal-marshal}

abbrev crashed : PushEvent
crashed = record {
  type = "error";
  session_id = "sid";
  account_id = "";
  state = "";
  guard_type = "";
  steam_id = "";
  webrtc_url = "";
  challenge_url = "";
  code = "DOTA_CRASH";
  message = "said \"<no>\" & left\n";
}

session_state_text :
    marshal (session_state_event "sid" "WATCHING")
    ≡ codes "{\"type\":\"session_state\",\"session_id\":\"sid\",\"state\":\"WATCHING\"}"
unfolding marshal present write_object write_members write_chars write_char short_escape
    session_state_event
session_state_text = refl

steam_guard_text :
    marshal (steam_guard_event "sid" "EMAIL")
    ≡ codes "{\"type\":\"steam_guard\",\"session_id\":\"sid\",\"guard_type\":\"EMAIL\"}"
unfolding marshal present write_object write_members write_chars write_char short_escape
    steam_guard_event
steam_guard_text = refl

stream_ready_text :
    marshal (stream_ready_event "sid" "https://dota.example.com/webrtc/live/match")
    ≡ codes
        "{\"type\":\"stream_ready\",\"session_id\":\"sid\",\"webrtc_url\":\"https://dota.example.com/webrtc/live/match\"}"
unfolding marshal present write_object write_members write_chars write_char short_escape
    stream_ready_event
stream_ready_text = refl

error_text :
    marshal (error_event "sid" "DOTA_CRASH" "boom")
    ≡ codes
        "{\"type\":\"error\",\"session_id\":\"sid\",\"code\":\"DOTA_CRASH\",\"message\":\"boom\"}"
unfolding marshal present write_object write_members write_chars write_char short_escape error_event
error_text = refl

escaped_text :
    marshal crashed
    ≡ codes
        "{\"type\":\"error\",\"session_id\":\"sid\",\"code\":\"DOTA_CRASH\",\"message\":\"said \\\"\\u003cno\\u003e\\\" \\u0026 left\\n\"}"
unfolding marshal present write_object write_members write_chars write_char short_escape
escaped_text = refl

unmarshal-marshal_example : unmarshal (marshal crashed) ≡ some (texts crashed)
unmarshal-marshal_example = unmarshal-marshal crashed
