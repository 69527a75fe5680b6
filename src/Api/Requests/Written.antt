-- ===== src/Api/Requests/Written.antt =====
-- Requests in the writing of Go's encoder, and which bodies of strings are accepted.
use Prim.Native.String.{String}
use dota_cuck.Prelude.{
  ◌≡◌, refl, ◌∙◌, Option, none, some, List, [], ◌∷◌, Bytes, codes, bytes_eq, All, map,
}
use dota_cuck.Go.Utf8.{text_of, utf8, text_of-codes}
use dota_cuck.Go.Json.{Member, write_object, map_option}
use dota_cuck.Go.Json.Decode.{Slots, blank, assign, assign_all, decode_fields}
use dota_cuck.Go.Json.Decode.Written.{IsText, as_pair, codes-AreRunes, read_top-write_object}
use dota_cuck.Go.Json.Decode.Known.{all_known, is_some, decode_fields_known}
use dota_cuck.Api.Requests.{
  user_fields, account_fields, guard_fields, field, decode_json, register_request, login_request,
  steam_account_request, steam_guard_request,
}

-- The members of an object, by their names and values.
abbrev pub members : List (String × String) → List Member
members [] = []
members ((name, value) ∷ more) = (codes name, codes value) ∷ members more

pub members-IsText : (fields : List (String × String)) → All IsText (members fields)
members-IsText [] = tt
members-IsText ((name, value) ∷ more) =
    ((codes-AreRunes name, codes-AreRunes value), members-IsText more)

-- The body that a client writes.
abbrev pub body : List (String × String) → Bytes
body fields = write_object (members fields)

decode_fields-body :
    (names : List Bytes) (fields : List (String × String))
    → decode_fields names (body fields) ≡ assign_all (blank names) (map as_pair (members fields))
unfolding decode_fields
decode_fields-body names fields =
    rw (read_top-write_object (members fields) (members-IsText fields))

-- The requests as Go's encoder would write them, each in one order of its members, decode to the
-- texts they were made of: the name and the code as they are and the passwords in UTF-8.
pub requests_arrive :
    (a b : String)
    → (register_request (body (("username", a) ∷ ("password", b) ∷ []))
        ≡ some (record { username = a; password = utf8 (codes b) }))
      × (login_request (body (("password", b) ∷ ("username", a) ∷ []))
          ≡ some (record { username = a; password = utf8 (codes b) }))
      × (steam_account_request (body (("steam_username", a) ∷ ("steam_password", b) ∷ []))
          ≡ some (record { steam_username = a; steam_password = utf8 (codes b) }))
      × (steam_account_request (body [])
          ≡ some (record { steam_username = ""; steam_password = [] }))
      × (steam_guard_request (body (("code", a) ∷ [])) ≡ some (record { code = a }))
unfolding register_request login_request steam_account_request steam_guard_request decode_json blank
    assign_all assign bytes_eq field text_of utf8
requests_arrive a b = (
  rw (decode_fields-body user_fields (("username", a) ∷ ("password", b) ∷ []), text_of-codes a),
  rw (decode_fields-body user_fields (("password", b) ∷ ("username", a) ∷ []), text_of-codes a),
  rw (
    decode_fields-body account_fields (("steam_username", a) ∷ ("steam_password", b) ∷ []),
    text_of-codes a,
  ),
  rw (decode_fields-body account_fields []),
  rw (decode_fields-body guard_fields (("code", a) ∷ []), text_of-codes a),
)

is_some-map_option :
    {A B : Type 0} (f : A → B) (o : Option A) → is_some (map_option f o) ≡ is_some o
is_some-map_option f none = refl
is_some-map_option f (some a) = refl

-- A body of strings is accepted exactly when each of its names is, up to case, that of a field of
-- the request; one unknown name refuses it, and no field is required.
pub decode_json_known :
    {A : Type 0} (names : List Bytes) (of_slots : Slots → A) (fields : List (String × String))
    → is_some (decode_json names of_slots (body fields)) ≡ all_known names (members fields)
unfolding decode_json
decode_json_known names of_slots fields =
    is_some-map_option of_slots (decode_fields names (body fields))
    ∙ decode_fields_known names (members fields) (members-IsText fields)
