-- ===== src/Api/Events/Wire.antt =====
-- control-plane/internal/api/events.go: the JSON text of a push event, as its struct tags and
-- `json.Marshal` make it, and what a client that knows the ten names reads from such a text.
pub mod RoundTrip
mod Tests
use dota_cuck.Prelude.{ℕ, String, Bytes, codes, bytes_eq, Option, List, [], ◌∷◌, if◌then◌else◌}
use dota_cuck.Go.Json.{Member, write_object, read_object, map_option}
use dota_cuck.Api.Events.{PushEvent}

abbrev pub Field : Type 0
Field = Bytes × String

-- The fields with `omitempty`, in the order of the struct, by the names of their tags.
abbrev pub optional_fields : PushEvent → List Field
optional_fields ev =
    (codes "session_id", ev.session_id)
    ∷ (codes "account_id", ev.account_id)
    ∷ (codes "state", ev.state)
    ∷ (codes "guard_type", ev.guard_type)
    ∷ (codes "steam_id", ev.steam_id)
    ∷ (codes "webrtc_url", ev.webrtc_url)
    ∷ (codes "challenge_url", ev.challenge_url)
    ∷ (codes "code", ev.code)
    ∷ (codes "message", ev.message)
    ∷ []

abbrev pub omit_empty : Bytes → String → List Member → List Member
omit_empty name String.[] ms = ms
omit_empty name (String.◌∷◌ c s) ms = (name, codes (String.◌∷◌ c s)) ∷ ms

unfoldable pub present : List Field → List Member
present [] = []
present ((name, s) ∷ fields) = omit_empty name s (present fields)

-- `json.Marshal(ev)`
unfoldable pub marshal : PushEvent → Bytes
marshal ev = write_object ((codes "type", codes ev.type) ∷ present (optional_fields ev))

-- The value under a name; an absent one reads as empty.
unfoldable pub value_of : List Member → Bytes → Bytes
value_of [] name = []
value_of ((n, v) ∷ ms) name = let rest = value_of ms name in if bytes_eq n name then v else rest

-- An event as its reader has it: the texts of its fields.
pub record EventTexts : Type 0 where
  pub type : Bytes
  pub session_id : Bytes
  pub account_id : Bytes
  pub state : Bytes
  pub guard_type : Bytes
  pub steam_id : Bytes
  pub webrtc_url : Bytes
  pub challenge_url : Bytes
  pub code : Bytes
  pub message : Bytes

abbrev pub texts : PushEvent → EventTexts
texts ev = record {
  type = codes ev.type;
  session_id = codes ev.session_id;
  account_id = codes ev.account_id;
  state = codes ev.state;
  guard_type = codes ev.guard_type;
  steam_id = codes ev.steam_id;
  webrtc_url = codes ev.webrtc_url;
  challenge_url = codes ev.challenge_url;
  code = codes ev.code;
  message = codes ev.message;
}

abbrev pub of_members : List Member → EventTexts
of_members ms = record {
  type = value_of ms (codes "type");
  session_id = value_of ms (codes "session_id");
  account_id = value_of ms (codes "account_id");
  state = value_of ms (codes "state");
  guard_type = value_of ms (codes "guard_type");
  steam_id = value_of ms (codes "steam_id");
  webrtc_url = value_of ms (codes "webrtc_url");
  challenge_url = value_of ms (codes "challenge_url");
  code = value_of ms (codes "code");
  message = value_of ms (codes "message");
}

-- The struct has ten fields, so a text of more members is none of this program's.
unfoldable pub unmarshal : Bytes → Option EventTexts
unmarshal text = map_option of_members (read_object 10 text)
