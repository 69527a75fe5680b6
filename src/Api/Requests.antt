-- ===== src/Api/Requests.antt =====
-- control-plane/internal/api/json.go, `decodeJSON`, and the requests of models.go as it decodes them
-- from a body's text. A password goes to the handlers as its bytes.
pub mod Written
pub mod Spelled
mod Tests
use dota_cuck.Prelude.{Option, List, [], ◌∷◌, Bytes, codes, bytes_eq, if◌then◌else◌}
use dota_cuck.Go.Utf8.{text_of, utf8}
use dota_cuck.Go.Json.{map_option}
use dota_cuck.Go.Json.Decode.{Slots, decode_fields}
use dota_cuck.Api.Models.{RegisterRequest, LoginRequest, SteamAccountRequest, SteamGuardRequest}

-- What a field holds after the decoding.
unfoldable pub field : Slots → Bytes → Bytes
unfolding bytes_eq
field [] name = []
field ((n, v) ∷ slots) name = let rest = field slots name in if bytes_eq n name then v else rest

-- `decodeJSON`; `none` is an error.
unfoldable pub decode_json : {A : Type 0} → List Bytes → (Slots → A) → Bytes → Option A
decode_json names of_slots body = map_option of_slots (decode_fields names body)

-- The names of the tags.
abbrev pub user_fields : List Bytes
user_fields = codes "username" ∷ codes "password" ∷ []

abbrev pub account_fields : List Bytes
account_fields = codes "steam_username" ∷ codes "steam_password" ∷ []

abbrev pub guard_fields : List Bytes
guard_fields = codes "code" ∷ []

abbrev of_user_fields : Slots → RegisterRequest
of_user_fields slots = record {
  username = text_of (field slots (codes "username"));
  password = utf8 (field slots (codes "password"));
}

abbrev of_account_fields : Slots → SteamAccountRequest
of_account_fields slots = record {
  steam_username = text_of (field slots (codes "steam_username"));
  steam_password = utf8 (field slots (codes "steam_password"));
}

abbrev of_guard_fields : Slots → SteamGuardRequest
of_guard_fields slots = record { code = text_of (field slots (codes "code")) }

unfoldable pub register_request : Bytes → Option RegisterRequest
register_request = decode_json user_fields of_user_fields

unfoldable pub login_request : Bytes → Option LoginRequest
login_request = decode_json user_fields of_user_fields

unfoldable pub steam_account_request : Bytes → Option SteamAccountRequest
steam_account_request = decode_json account_fields of_account_fields

unfoldable pub steam_guard_request : Bytes → Option SteamGuardRequest
steam_guard_request = decode_json guard_fields of_guard_fields
