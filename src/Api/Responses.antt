-- ===== src/Api/Responses.antt =====
-- control-plane/internal/api/json.go, `writeJSON`: the text of a response's body by the tags of
-- models.go, and what a client reads from it.
pub mod RoundTrip
pub mod Fields
mod Tests
use dota_cuck.Prelude.{
  ℕ, Option, none, some, List, [], ◌∷◌, Bytes, codes, map, length, is_empty, ◌==◌, bytes_eq,
  if◌then◌else◌, ◌>>=◌,
}
use dota_cuck.Go.Utf8.Runes.{runes}
use dota_cuck.Go.Json.Rows.{Scalar, text, flag, Row, write_row, write_rows, read_row, read_rows}
use dota_cuck.Api.Models.{
  SteamAccountDto, Friend, Body, error_response, login_response, steam_account, steam_accounts,
  friends, no_content, recovered,
}

abbrev pub error_row : Bytes → Row
error_row message = ((codes "error", text message), [])

abbrev pub login_row : Bytes → Row
login_row token = ((codes "token", text token), [])

abbrev pub account_row : SteamAccountDto → Row
account_row a = (
  (codes "id", text (codes a.id)),
  (codes "steam_id", text (codes a.steam_id))
      ∷ (codes "steam_username", text (codes a.steam_username))
      ∷ (codes "created_at", text (codes a.created_at))
      ∷ [],
)

abbrev pub friend_row : Friend → Row
friend_row f = (
  (codes "steam_id", text (codes f.steam_id)),
  (codes "persona_name", text (runes f.persona_name))
      ∷ (codes "online", flag f.online)
      ∷ (codes "in_match", flag f.in_match)
      ∷ [],
)

-- `Encode` ends the text with a newline.
abbrev pub newline : Bytes
newline = 10 ∷ []

-- What `json.NewEncoder(w).Encode(v)` writes.
unfoldable pub body_text : Body → Bytes
body_text (error_response message) = write_row (error_row (codes message)) newline
body_text (login_response token) = write_row (login_row (runes token)) newline
body_text (steam_account a) = write_row (account_row a) newline
body_text (steam_accounts accounts) = write_rows (map account_row accounts) newline
body_text (friends fs) = write_rows (map friend_row fs) newline
body_text no_content = []
body_text recovered = []

pub data Reading : Type 0 where
  nothing : Reading
  object : Row → Reading
  array : List Row → Reading

-- The value, if nothing but a newline follows it.
abbrev pub alone : {A : Type 0} → (A → Reading) → A × Bytes → Option Reading
alone f (a, rest) = if bytes_eq rest newline then some (f a) else none

-- A client that knows objects of at most four fields; an array has no more of them than characters.
unfoldable pub read_array : Bytes → Option Reading
unfolding bytes_eq
read_array s = read_rows 4 (length s) s >>= alone array

unfoldable pub read_body : Bytes → Option Reading
unfolding bytes_eq
read_body [] = some nothing
read_body (c ∷ s) = if c == b'{' then read_row 4 (c ∷ s) >>= alone object else read_array (c ∷ s)

-- The value that a body stands for.
abbrev pub reading : Body → Reading
reading (error_response message) = object (error_row (codes message))
reading (login_response token) = object (login_row (runes token))
reading (steam_account a) = object (account_row a)
reading (steam_accounts accounts) = array (map account_row accounts)
reading (friends fs) = array (map friend_row fs)
reading no_content = nothing
reading recovered = nothing
