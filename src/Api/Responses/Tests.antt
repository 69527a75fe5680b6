-- ===== src/Api/Responses/Tests.antt =====
-- Bodies as the handlers' tests expect them.
use dota_cuck.Prelude.{◌≡◌, refl, true, false, some, List, [], ◌∷◌, codes}
use dota_cuck.Go.Utf8.Runes.{runes, runes_from, take_byte, lead}
use dota_cuck.Go.Json.{short_escape, write_char, write_chars}
use dota_cuck.Go.Json.Rows.{text, Row, write_cells, write_tail, write_rows}
use dota_cuck.Api.Models.{
  SteamAccountDto, Friend, login_response, steam_account, error_response, steam_accounts, friends,
}
use dota_cuck.Api.Responses.{body_text, read_body, object, array}
use dota_cuck.Api.Responses.Fields.{value_at, HasAccount, HaveFriends, body_text-fields}

error_text : body_text (error_response "invalid token") ≡ codes "{\"error\":\"invalid token\"}\n"
unfolding body_text write_cells write_chars write_char short_escape
error_text = refl

no_accounts : body_text (steam_accounts []) ≡ codes "[]\n"
unfolding body_text write_rows
no_accounts = refl

abbrev two : List Friend
two =
    record { steam_id = "1"; persona_name = 195 ∷ 169 ∷ b'"' ∷ []; online = true; in_match = false }
    ∷ record {
      steam_id = "2";
      persona_name = 226 ∷ 130 ∷ 172 ∷ [];
      online = false;
      in_match = false;
    }
    ∷ []

two_text :
    body_text (friends two)
    ≡ codes
        "[{\"steam_id\":\"1\",\"persona_name\":\"é\\\"\",\"online\":true,\"in_match\":false},{\"steam_id\":\"2\",\"persona_name\":\"€\",\"online\":false,\"in_match\":false}]\n"
unfolding body_text write_rows write_tail write_cells write_chars write_char short_escape runes_from
    take_byte lead
two_text = refl

abbrev linked : SteamAccountDto
linked = record { id = "a1"; steam_id = "765"; steam_username = "alice"; created_at = "" }

body_text-fields_example :
    ((r : Row) × (read_body (body_text (error_response "invalid token")) ≡ some (object r))
      × (value_at "error" r ≡ some (text (codes "invalid token"))))
    × ((r : Row) × (read_body (body_text (login_response (codes "tok"))) ≡ some (object r))
        × (value_at "token" r ≡ some (text (runes (codes "tok")))))
    × ((r : Row) × (read_body (body_text (steam_account linked)) ≡ some (object r))
        × HasAccount linked r
        × (read_body (body_text (steam_accounts (linked ∷ []))) ≡ some (array (r ∷ []))))
    × (read_body (body_text (steam_accounts [])) ≡ some (array []))
    × ((rows : List Row) × (read_body (body_text (friends two)) ≡ some (array rows))
        × HaveFriends two rows)
body_text-fields_example = body_text-fields "invalid token" (codes "tok") linked two
