-- ===== src/Api/Events.antt =====
-- control-plane/internal/api/events.go: the messages pushed to WebSocket clients.
pub mod Wire
use dota_cuck.Prelude.{String}

-- An empty field is left out of the JSON text, but for `type`.
pub record PushEvent : Type 0 where
  pub type : String
  pub session_id : String
  pub account_id : String
  pub state : String
  pub guard_type : String
  pub steam_id : String
  pub webrtc_url : String
  pub challenge_url : String
  pub code : String
  pub message : String

abbrev blank : String → PushEvent
blank type = record {
  type = type;
  session_id = "";
  account_id = "";
  state = "";
  guard_type = "";
  steam_id = "";
  webrtc_url = "";
  challenge_url = "";
  code = "";
  message = "";
}

unfoldable pub session_state_event : String → String → PushEvent
session_state_event session_id state = record (blank "session_state") {
  session_id = session_id;
  state = state;
}

unfoldable pub steam_guard_event : String → String → PushEvent
steam_guard_event session_id guard_type = record (blank "steam_guard") {
  session_id = session_id;
  guard_type = guard_type;
}

unfoldable pub stream_ready_event : String → String → PushEvent
stream_ready_event session_id webrtc_url = record (blank "stream_ready") {
  session_id = session_id;
  webrtc_url = webrtc_url;
}

unfoldable pub error_event : String → String → String → PushEvent
error_event session_id code message = record (blank "error") {
  session_id = session_id;
  code = code;
  message = message;
}

unfoldable pub account_guard_event : String → String → PushEvent
account_guard_event account_id guard_type = record (blank "steam_guard") {
  account_id = account_id;
  guard_type = guard_type;
}

unfoldable pub account_qr_event : String → String → PushEvent
account_qr_event account_id challenge_url = record (blank "steam_qr") {
  account_id = account_id;
  challenge_url = challenge_url;
}

unfoldable pub account_linked_event : String → String → PushEvent
account_linked_event account_id steam_id = record (blank "account_linked") {
  account_id = account_id;
  steam_id = steam_id;
}

unfoldable pub account_error_event : String → String → String → PushEvent
account_error_event account_id code message = record (blank "error") {
  account_id = account_id;
  code = code;
  message = message;
}
