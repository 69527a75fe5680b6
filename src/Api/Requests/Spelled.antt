-- ===== src/Api/Requests/Spelled.antt =====
-- The requests of control-plane/internal/api/models.go as any client may write them, the frontend's
-- `JSON.stringify` among them.
use Prim.Native.String.{String}
use dota_cuck.Prelude.{◌≡◌, Bool, true, false, some, List, [], ◌∷◌, Bytes, codes, bytes_eq, map}
use dota_cuck.Go.Utf8.{text_of, utf8, text_of-codes}
use dota_cuck.Go.Json.{Member}
use dota_cuck.Go.Json.Decode.{blank, assign, assign_all, decode_fields}
use dota_cuck.Go.Json.Decode.Written.{as_pair}
use dota_cuck.Go.Json.Decode.Spelled.{AllSpelled, spelled_members, read_top-Spelled}
use dota_cuck.Api.Requests.{
  user_fields, account_fields, guard_fields, field, decode_json, register_request, login_request,
  steam_account_request, steam_guard_request,
}
use dota_cuck.Api.Requests.Written.{members, members-IsText}

-- An object whose members have these spellings.
abbrev pub object_of : List Member → Bytes
object_of spellings = b'{' ∷ spelled_members spellings

-- Two members in either order.
abbrev pub in_order : Bool → String × String → String × String → List (String × String)
in_order true m n = m ∷ n ∷ []
in_order false m n = n ∷ m ∷ []

decode_fields-Spelled :
    (names : List Bytes) (fields : List (String × String)) (ts : List Member)
    → AllSpelled (members fields) ts
    → decode_fields names (object_of ts) ≡ assign_all (blank names) (map as_pair (members fields))
unfolding decode_fields
decode_fields-Spelled names fields ts sp =
    rw (read_top-Spelled (members fields) ts (members-IsText fields) sp)

user_arrives :
    (first : Bool) (a b : String) (ts : List Member)
    → AllSpelled (members (in_order first ("username", a) ("password", b))) ts
    → (register_request (object_of ts) ≡ some (record { username = a; password = utf8 (codes b) }))
      × (login_request (object_of ts) ≡ some (record { username = a; password = utf8 (codes b) }))
unfolding register_request login_request decode_json blank assign_all assign bytes_eq field text_of
    utf8
user_arrives true a b ts sp =
    let e = decode_fields-Spelled user_fields (("username", a) ∷ ("password", b) ∷ []) ts sp in
    (rw (e, text_of-codes a), rw (e, text_of-codes a))
user_arrives false a b ts sp =
    let e = decode_fields-Spelled user_fields (("password", b) ∷ ("username", a) ∷ []) ts sp in
    (rw (e, text_of-codes a), rw (e, text_of-codes a))

account_arrives :
    (first : Bool) (a b : String) (ts : List Member)
    → AllSpelled (members (in_order first ("steam_username", a) ("steam_password", b))) ts
    → steam_account_request (object_of ts)
      ≡ some (record { steam_username = a; steam_password = utf8 (codes b) })
unfolding steam_account_request decode_json blank assign_all assign bytes_eq field text_of utf8
account_arrives true a b ts sp = rw (
  decode_fields-Spelled account_fields (("steam_username", a) ∷ ("steam_password", b) ∷ []) ts sp,
  text_of-codes a,
)
account_arrives false a b ts sp = rw (
  decode_fields-Spelled account_fields (("steam_password", b) ∷ ("steam_username", a) ∷ []) ts sp,
  text_of-codes a,
)

-- A body that is an object of the request's members, in either order, and without spaces, reaches
-- its handler with the texts that it spells: the name and the code as they are, the passwords in
-- UTF-8. Each character may stand as it is, unless it is a quote, a backslash or a control
-- character, or behind a backslash if it has such an escape, or as four lower-case hex digits if it
-- fits. The empty object of a QR link has no name and no password.
pub spelled_requests_arrive :
    (first : Bool) (a b : String) (user account guard : List Member)
    → AllSpelled (members (in_order first ("username", a) ("password", b))) user
    → AllSpelled (members (in_order first ("steam_username", a) ("steam_password", b))) account
    → AllSpelled (members (("code", a) ∷ [])) guard
    → (register_request (object_of user)
        ≡ some (record { username = a; password = utf8 (codes b) }))
      × (login_request (object_of user) ≡ some (record { username = a; password = utf8 (codes b) }))
      × (steam_account_request (object_of account)
          ≡ some (record { steam_username = a; steam_password = utf8 (codes b) }))
      × (steam_account_request (codes "{}")
          ≡ some (record { steam_username = ""; steam_password = [] }))
      × (steam_guard_request (object_of guard) ≡ some (record { code = a }))
unfolding steam_account_request steam_guard_request decode_json blank assign_all assign bytes_eq
    field text_of utf8 spelled_members
spelled_requests_arrive first a b user account guard su sa sg =
    let (registered, logged) = user_arrives first a b user su in
    (
      registered,
      logged,
      account_arrives first a b account sa,
      rw (decode_fields-Spelled account_fields [] [] tt),
      rw (decode_fields-Spelled guard_fields (("code", a) ∷ []) guard sg, text_of-codes a),
    )
