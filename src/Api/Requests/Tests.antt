-- ===== src/Api/Requests/Tests.antt =====
-- Bodies as clients send them.
use dota_cuck.Prelude.{◌≡◌, refl, false, none, some, [], ◌∷◌, Bytes, codes, bytes_eq}
use dota_cuck.Go.Utf8.{text_of, utf8}
use dota_cuck.Go.Json.{short_escape, read_chars, next, hex_value, long_of, expect}
use dota_cuck.Go.Json.Decode.{
  skip_space, join_units, read_text, expect_all, read_value, read_pair, read_pairs, read_top, blank,
  assign, assign_all, decode_fields,
}
use dota_cuck.Go.Json.Decode.Known.{all_known, is_some}
use dota_cuck.Api.Requests.{
  user_fields, field, decode_json, register_request, login_request, steam_account_request,
  steam_guard_request,
}
use dota_cuck.Api.Requests.Written.{members, body, decode_json_known}
use dota_cuck.Go.Json.Decode.Spelled.{Spelled, ends, as_is, escaped, plain-Spelled}
use dota_cuck.Api.Requests.Spelled.{object_of, spelled_requests_arrive}

abbrev spaced : Bytes
spaced = codes " {\n \"PassWord\" : \"\\u00e9\\ud83d\\ude00\", \"username\":\"al\\/ice\" } trailing"

spaced_request :
    register_request spaced
    ≡ some (record { username = "al/ice"; password = 195 ∷ 169 ∷ 240 ∷ 159 ∷ 152 ∷ 128 ∷ [] })
unfolding register_request decode_json decode_fields read_top read_pairs read_pair read_value
    read_text expect_all skip_space join_units expect read_chars next hex_value long_of blank assign
    assign_all bytes_eq field text_of utf8
spaced_request = refl

last_wins :
    steam_guard_request (codes "{\"code\":\"a\",\"code\":\"b\",\"code\":null}")
    ≡ some (record { code = "b" })
unfolding steam_guard_request decode_json decode_fields read_top read_pairs read_pair read_value
    read_text expect_all skip_space join_units expect read_chars next hex_value long_of blank assign
    assign_all bytes_eq field text_of utf8
last_wins = refl

refused :
    (steam_guard_request (codes "{\"code\":5}") ≡ none)
    × (steam_guard_request (codes "{\"code\":\"a\",}") ≡ none)
    × (steam_guard_request (codes "{\"guard\":\"a\"}") ≡ none)
    × (steam_guard_request (codes "\"code\"") ≡ none)
    × (steam_guard_request [] ≡ none)
unfolding steam_guard_request decode_json decode_fields read_top read_pairs read_pair read_value
    read_text expect_all skip_space join_units expect read_chars next hex_value long_of blank assign
    assign_all bytes_eq field text_of utf8
refused = (refl, refl, refl, refl, refl)

accepts_null : steam_account_request (codes "null") ≡ steam_account_request (codes "{ }")
unfolding steam_account_request decode_json decode_fields read_top read_pairs expect_all skip_space
    expect blank assign_all field
accepts_null = refl

-- As `JSON.stringify` writes them: `<` and `&` stand as they are.
abbrev password_text : Bytes
password_text = codes "a<b&\\\"\\n"

name-Spelled : Spelled (codes "alice") (codes "alice")
name-Spelled = plain-Spelled (codes "alice") refl

password-Spelled : Spelled (codes "a<b&\"\n") password_text
unfolding short_escape
password-Spelled = as_is b'a' refl (
    as_is b'<' refl
      (as_is b'b' refl (as_is b'&' refl (escaped b'"' b'"' refl (escaped 10 b'n' refl ends)))))

spelled_requests_arrive_example :
    (register_request
        (object_of ((codes "password", password_text) ∷ (codes "username", codes "alice") ∷ []))
      ≡ some (record { username = "alice"; password = utf8 (codes "a<b&\"\n") }))
    × (login_request
          (object_of ((codes "password", password_text) ∷ (codes "username", codes "alice") ∷ []))
        ≡ some (record { username = "alice"; password = utf8 (codes "a<b&\"\n") }))
    × (steam_account_request (
          object_of (
            (codes "steam_password", password_text) ∷ (codes "steam_username", codes "alice") ∷ []))
        ≡ some (record { steam_username = "alice"; steam_password = utf8 (codes "a<b&\"\n") }))
    × (steam_account_request (codes "{}")
        ≡ some (record { steam_username = ""; steam_password = [] }))
    × (steam_guard_request (object_of ((codes "code", codes "alice") ∷ []))
        ≡ some (record { code = "alice" }))
spelled_requests_arrive_example =
    spelled_requests_arrive false "alice" "a<b&\"\n"
      ((codes "password", password_text) ∷ (codes "username", codes "alice") ∷ [])
      ((codes "steam_password", password_text) ∷ (codes "steam_username", codes "alice") ∷ [])
      ((codes "code", codes "alice") ∷ [])
      (
        (plain-Spelled (codes "password") refl, password-Spelled),
        ((plain-Spelled (codes "username") refl, name-Spelled), tt),
      )
      (
        (plain-Spelled (codes "steam_password") refl, password-Spelled),
        ((plain-Spelled (codes "steam_username") refl, name-Spelled), tt),
      )
      ((plain-Spelled (codes "code") refl, name-Spelled), tt)

decode_json_known_example :
    is_some (
      decode_json user_fields
        (λ slots. slots)
        (body (("username", "alice") ∷ ("admin", "yes") ∷ [])))
    ≡ all_known user_fields (members (("username", "alice") ∷ ("admin", "yes") ∷ []))
decode_json_known_example =
    decode_json_known user_fields (λ slots. slots) (("username", "alice") ∷ ("admin", "yes") ∷ [])
