-- ===== src/Go/Json/Decode/Known.antt =====
-- An object of strings decodes exactly when each of its names is a field's.
use dota_cuck.Prelude.{
  ◌≡◌, refl, ap, ◌∙◌, Bool, true, false, ◌||◌, ◌&&◌, Bool-cases, Option-cases, inl, inr, Option,
  none, some, List, [], ◌∷◌, Bytes, map, All, arith,
}
use dota_cuck.Go.Json.{Member, write_object}
use dota_cuck.Go.Json.Decode.{Value, Slots, same_name, assign, assign_all, blank, decode_fields}
use dota_cuck.Go.Json.Decode.Written.{IsText, as_pair, read_top-write_object}

abbrev pub is_known : List Bytes → Bytes → Bool
is_known [] name = false
is_known (n ∷ names) name = same_name n name || is_known names name

abbrev pub all_known : List Bytes → List Member → Bool
all_known names [] = true
all_known names ((name, value) ∷ ms) = is_known names name && all_known names ms

abbrev pub is_some : {A : Type 0} → Option A → Bool
is_some none = false
is_some (some a) = true

abbrev names_of : Slots → List Bytes
names_of [] = []
names_of ((n, v) ∷ slots) = n ∷ names_of slots

-- The fields stay, and one of them is set if the name is known.
assign-names_of :
    (slots : Slots) (name : Bytes) (v : Value)
    → (is_some (assign slots name v) ≡ is_known (names_of slots) name)
      × ((slots' : Slots) → assign slots name v ≡ some slots' → names_of slots' ≡ names_of slots)
unfolding assign
assign-names_of [] name v = (refl, λ slots' h. absurd (ground arith))
assign-names_of ((n, old) ∷ slots) name v =
    let (known, kept) = assign-names_of slots name v in
    elim (Bool-cases (same_name n name)) [
      | inl same ↦ rw same (refl, λ slots' h. ground arith)
      | inr other ↦ rw other (elim (Option-cases (assign slots name v)) [
        | inl stops ↦ rw stops ((rw stops at known), λ slots' h. absurd (ground arith))
        | inr (more, e) ↦
            rw e ((rw e at known), λ slots' h. let same_names = kept more e in ground arith)
      ])
    ]

assign_all-names_of :
    (ms : List Member) (slots : Slots)
    → is_some (assign_all slots (map as_pair ms)) ≡ all_known (names_of slots) ms
unfolding assign_all
assign_all-names_of [] slots = refl
assign_all-names_of ((name, value) ∷ ms) slots =
    let (known, kept) = assign-names_of slots name (some value) in
    elim (Option-cases (assign slots name (some value))) [
      | inl stops ↦ rw (stops, ← (rw stops at known))
      | inr (slots', e) ↦
          rw (e, ← (rw e at known))
            (assign_all-names_of ms slots' ∙ ap (λ ns. all_known ns ms) (kept slots' e))
    ]

names_of-blank : (names : List Bytes) → names_of (blank names) ≡ names
unfolding blank
names_of-blank [] = refl
names_of-blank (n ∷ names) = ap (λ more. n ∷ more) (names_of-blank names)

pub decode_fields_known :
    (names : List Bytes) (ms : List Member)
    → All IsText ms
    → is_some (decode_fields names (write_object ms)) ≡ all_known names ms
unfolding decode_fields
decode_fields_known names ms t =
    rw (read_top-write_object ms t)
      (assign_all-names_of ms (blank names) ∙ ap (λ ns. all_known ns ms) (names_of-blank names))
