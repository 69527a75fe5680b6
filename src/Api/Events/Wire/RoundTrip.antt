-- ===== src/Api/Events/Wire/RoundTrip.antt =====
-- What a client reads from the text of a push event is the event.
use dota_cuck.Prelude.{
  ◌≤◌, ◌≡◌, refl, ap, ◌∙◌, String, Bytes, codes, bytes_eq, some, List, [], ◌∷◌, if◌then◌else◌,
  arith, length, Bool-cases, inl, inr,
}
use dota_cuck.Go.Json.{map_option}
use dota_cuck.Go.Json.RoundTrip.{read_object-write_object}
use dota_cuck.Api.Events.{PushEvent}
use dota_cuck.Api.Events.Wire.{
  Field, optional_fields, present, marshal, value_of, texts, of_members, unmarshal,
}

length-present : (fields : List Field) → length (present fields) ≤ length fields
unfolding present
length-present [] = omega arith
length-present ((name, String.[]) ∷ fields) = let shorter = length-present fields in omega arith
length-present ((name, String.◌∷◌ c s) ∷ fields) =
    let shorter = length-present fields in omega arith

-- A field that is there, or what stands behind it.
abbrev or_later : String → Bytes → Bytes
or_later String.[] later = later
or_later (String.◌∷◌ c s) later = codes (String.◌∷◌ c s)

or_later-nothing : (s : String) → or_later s [] ≡ codes s
or_later-nothing String.[] = refl
or_later-nothing (String.◌∷◌ c s) = refl

unfoldable field_value : List Field → Bytes → Bytes
field_value [] name = []
field_value ((n, s) ∷ fields) name =
    let rest = field_value fields name in if bytes_eq n name then or_later s rest else rest

value_of-present :
    (fields : List Field) (name : Bytes) → value_of (present fields) name ≡ field_value fields name
unfolding value_of present field_value
value_of-present [] name = refl
value_of-present ((n, String.[]) ∷ fields) name = elim (Bool-cases (bytes_eq n name)) [
  | inl same ↦ rw same (value_of-present fields name)
  | inr other ↦ rw other (value_of-present fields name)
]
value_of-present ((n, String.◌∷◌ c s) ∷ fields) name = elim (Bool-cases (bytes_eq n name)) [
  | inl same ↦ rw same refl
  | inr other ↦ rw other (value_of-present fields name)
]

read_field :
    (ev : PushEvent) (name : Bytes) (s : String)
    → field_value (optional_fields ev) name ≡ or_later s []
    → value_of (present (optional_fields ev)) name ≡ codes s
read_field ev name s found = value_of-present (optional_fields ev) name ∙ found ∙ or_later-nothing s

of_members-texts :
    (ev : PushEvent)
    → of_members ((codes "type", codes ev.type) ∷ present (optional_fields ev)) ≡ texts ev
unfolding value_of field_value bytes_eq
of_members-texts ev = λ i. record {
  type = codes ev.type;
  session_id = read_field ev (codes "session_id") ev.session_id refl i;
  account_id = read_field ev (codes "account_id") ev.account_id refl i;
  state = read_field ev (codes "state") ev.state refl i;
  guard_type = read_field ev (codes "guard_type") ev.guard_type refl i;
  steam_id = read_field ev (codes "steam_id") ev.steam_id refl i;
  webrtc_url = read_field ev (codes "webrtc_url") ev.webrtc_url refl i;
  challenge_url = read_field ev (codes "challenge_url") ev.challenge_url refl i;
  code = read_field ev (codes "code") ev.code refl i;
  message = read_field ev (codes "message") ev.message refl i;
}

-- A client that reads the text of any push event finds each of its ten fields with the characters
-- the event has there, whatever they are, an omitted field as empty.
pub unmarshal-marshal : (ev : PushEvent) → unmarshal (marshal ev) ≡ some (texts ev)
unfolding unmarshal marshal
unmarshal-marshal ev =
    let few = length-present (optional_fields ev) in
    ap (map_option of_members) (
      read_object-write_object 10 (codes "type", codes ev.type) (present (optional_fields ev))
        (omega arith))
    ∙ ap some (of_members-texts ev)
