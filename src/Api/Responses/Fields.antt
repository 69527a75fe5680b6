-- ===== src/Api/Responses/Fields.antt =====
-- What a client finds under the names of the tags of control-plane/internal/api/models.go.
use dota_cuck.Prelude.{
  ◌≡◌, refl, String, Option, none, some, List, [], ◌∷◌, Bytes, codes, map, bytes_eq, if◌then◌else◌,
}
use dota_cuck.Go.Utf8.Runes.{runes}
use dota_cuck.Go.Json.Rows.{Scalar, text, flag, Cell, Row}
use dota_cuck.Api.Models.{
  SteamAccountDto, Friend, error_response, login_response, steam_account, steam_accounts, friends,
}
use dota_cuck.Api.Responses.{
  account_row, friend_row, error_row, login_row, body_text, object, array, read_body,
}
use dota_cuck.Api.Responses.RoundTrip.{read_body-body_text}

abbrev value_among : Bytes → List Cell → Option Scalar
value_among name [] = none
value_among name ((n, v) ∷ cells) = if bytes_eq n name then some v else value_among name cells

-- The value of the member with this name.
abbrev pub value_at : String → Row → Option Scalar
value_at name (c, cells) = value_among (codes name) (c ∷ cells)

abbrev pub values_at : String → List Row → List (Option Scalar)
values_at name rows = map (value_at name) rows

abbrev pub HasAccount : SteamAccountDto → Row → Type 0
HasAccount a r =
    (value_at "id" r ≡ some (text (codes a.id)))
    × (value_at "steam_id" r ≡ some (text (codes a.steam_id)))
    × (value_at "steam_username" r ≡ some (text (codes a.steam_username)))
    × (value_at "created_at" r ≡ some (text (codes a.created_at)))

abbrev pub HaveFriends : List Friend → List Row → Type 0
HaveFriends fs rows =
    (values_at "steam_id" rows ≡ map (λ f. some (text (codes f.steam_id))) fs)
    × (values_at "persona_name" rows ≡ map (λ f. some (text (runes f.persona_name))) fs)
    × (values_at "online" rows ≡ map (λ f. some (flag f.online)) fs)
    × (values_at "in_match" rows ≡ map (λ f. some (flag f.in_match)) fs)

map-rows :
    {A : Type 0} (name : String) (row : A → Row) (value : A → Option Scalar) (xs : List A)
    → ((a : A) → value_at name (row a) ≡ value a)
    → values_at name (map row xs) ≡ map value xs
map-rows name row value [] same = refl
map-rows name row value (a ∷ xs) same = λ i. same a i ∷ map-rows name row value xs same i

account-HasAccount : (a : SteamAccountDto) → HasAccount a (account_row a)
unfolding bytes_eq
account-HasAccount a = (refl, refl, refl, refl)

friends-HaveFriends : (fs : List Friend) → HaveFriends fs (map friend_row fs)
unfolding bytes_eq
friends-HaveFriends fs = (
  map-rows "steam_id" friend_row (λ f. some (text (codes f.steam_id))) fs (λ f. refl),
  map-rows "persona_name" friend_row (λ f. some (text (runes f.persona_name))) fs (λ f. refl),
  map-rows "online" friend_row (λ f. some (flag f.online)) fs (λ f. refl),
  map-rows "in_match" friend_row (λ f. some (flag f.in_match)) fs (λ f. refl),
)

-- From the text of a body a client reads, under these names and with every character and flag: of an
-- error its message, of a login its token, of an account its four fields, and of a friends list one
-- object for each friend, in their order, with its four fields. A list of no account is the empty
-- array, and a list of one is the array of its object.
pub body_text-fields :
    (message : String) (token : Bytes) (a : SteamAccountDto) (fs : List Friend)
    → ((r : Row) × (read_body (body_text (error_response message)) ≡ some (object r))
        × (value_at "error" r ≡ some (text (codes message))))
      × ((r : Row) × (read_body (body_text (login_response token)) ≡ some (object r))
          × (value_at "token" r ≡ some (text (runes token))))
      × ((r : Row) × (read_body (body_text (steam_account a)) ≡ some (object r))
          × HasAccount a r
          × (read_body (body_text (steam_accounts (a ∷ []))) ≡ some (array (r ∷ []))))
      × (read_body (body_text (steam_accounts [])) ≡ some (array []))
      × ((rows : List Row) × (read_body (body_text (friends fs)) ≡ some (array rows))
          × HaveFriends fs rows)
unfolding bytes_eq
body_text-fields message token a fs = (
  (error_row (codes message), read_body-body_text (error_response message), refl),
  (login_row (runes token), read_body-body_text (login_response token), refl),
  (
    account_row a,
    read_body-body_text (steam_account a),
    account-HasAccount a,
    read_body-body_text (steam_accounts (a ∷ [])),
  ),
  read_body-body_text (steam_accounts []),
  (map friend_row fs, read_body-body_text (friends fs), friends-HaveFriends fs),
)
