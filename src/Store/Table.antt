-- ===== src/Store/Table.antt =====
-- A table as a list of rows, its order of no meaning: what WHERE clauses find, change and delete,
-- and a unique column.
use mathlib.Core.Option
use dota_cuck.Prelude.{
  Bool-cases, inl, inr, ◌≡◌, refl, String, Bool, true, false, ◌||◌, List, [], ◌∷◌, Option, none,
  some, arith, All, if◌then◌else◌, str_eq, eq_iff,
}

module _ {ℓ} {A : Type ℓ} where
  -- SELECT … WHERE, the first row
  unfoldable pub find : (A → Bool) → List A → Option A
  find test [] = none
  find test (x ∷ xs) = if test x then some x else find test xs

  -- whether a row matches; `RowsAffected() != 0`
  unfoldable pub any_row : (A → Bool) → List A → Bool
  any_row test [] = false
  any_row test (x ∷ xs) = test x || any_row test xs

  -- UPDATE … WHERE
  unfoldable pub update_rows : (A → Bool) → (A → A) → List A → List A
  update_rows test change [] = []
  update_rows test change (x ∷ xs) = (if test x then change x else x) ∷ update_rows test change xs

  -- DELETE … WHERE
  unfoldable pub delete_rows : (A → Bool) → List A → List A
  delete_rows test [] = []
  delete_rows test (x ∷ xs) = let rest = delete_rows test xs in if test x then rest else x ∷ rest

  -- no two rows have the same value in a column
  abbrev pub UniqueBy : (A → String) → List A → Type 0
  UniqueBy key [] = Unit
  UniqueBy key (x ∷ xs) = All (λ y. str_eq (key x) (key y) ≡ false) xs × UniqueBy key xs

  abbrev pub has_key : (A → String) → String → A → Bool
  has_key key k x = str_eq (key x) k

  pub lacking_of_any_row :
      (key : A → String) (k : String) (xs : List A)
      → any_row (has_key key k) xs ≡ false
      → All (λ y. str_eq k (key y) ≡ false) xs
  unfolding any_row
  lacking_of_any_row key k [] h = tt
  lacking_of_any_row key k (x ∷ xs) h = (
    ground (arith, eq_iff (key x) k, eq_iff k (key x)),
    lacking_of_any_row key k xs (ground arith),
  )

  All-update_rows :
      (key : A → String) (k : String) (test : A → Bool) (change : A → A) (xs : List A)
      → ((x : A) → key (change x) ≡ key x)
      → All (λ y. str_eq k (key y) ≡ false) xs
      → All (λ y. str_eq k (key y) ≡ false) (update_rows test change xs)
  unfolding update_rows
  All-update_rows key k test change [] keeps h = tt
  All-update_rows key k test change (x ∷ xs) keeps (hx, hxs) =
      (ground (arith, keeps x), All-update_rows key k test change xs keeps hxs)

  key-update :
      (key : A → String) (test : A → Bool) (change : A → A) (x : A)
      → ((x : A) → key (change x) ≡ key x)
      → key (if test x then change x else x) ≡ key x
  key-update key test change x keeps = ground (arith, keeps x)

  pub update_rows-UniqueBy :
      (key : A → String) (test : A → Bool) (change : A → A) (xs : List A)
      → ((x : A) → key (change x) ≡ key x)
      → UniqueBy key xs
      → UniqueBy key (update_rows test change xs)
  unfolding update_rows
  update_rows-UniqueBy key test change [] keeps u = tt
  update_rows-UniqueBy key test change (x ∷ xs) keeps (hx, u) = (
    rw (key-update key test change x keeps) (All-update_rows key (key x) test change xs keeps hx),
    update_rows-UniqueBy key test change xs keeps u,
  )

  pub All-delete_rows {κ} :
      (P : A → Type κ) (test : A → Bool) (xs : List A) → All P xs → All P (delete_rows test xs)
  unfolding delete_rows
  All-delete_rows P test [] h = tt
  All-delete_rows P test (x ∷ xs) (hx, hxs) = ground (arith, All-delete_rows P test xs hxs)

  pub delete_rows-UniqueBy :
      (key : A → String) (test : A → Bool) (xs : List A)
      → UniqueBy key xs
      → UniqueBy key (delete_rows test xs)
  unfolding delete_rows
  delete_rows-UniqueBy key test [] u = tt
  delete_rows-UniqueBy key test (x ∷ xs) (hx, u) =
      let more = delete_rows-UniqueBy key test xs u in
      let rest = All-delete_rows _ test xs hx in ground arith

module _ {ℓ} {A : Type ℓ} where
  -- A search by a column that an update keeps finds the updated row.
  pub find-update_rows :
      (key : A → String) (k : String) (test : A → Bool) (change : A → A) (xs : List A)
      → ((x : A) → key (change x) ≡ key x)
      → find (has_key key k) (update_rows test change xs)
        ≡ Option.map (λ x. if test x then change x else x) (find (has_key key k) xs)
  unfolding find update_rows
  find-update_rows key k test change [] keeps = refl
  find-update_rows key k test change (x ∷ xs) keeps =
      ground (arith, keeps x, find-update_rows key k test change xs keeps)

  -- Deleting rows that the search does not want changes nothing that it finds.
  pub find-delete_rows :
      (want test : A → Bool) (xs : List A)
      → ((x : A) → test x ≡ true → want x ≡ false)
      → find want (delete_rows test xs) ≡ find want xs
  unfolding find delete_rows
  find-delete_rows want test [] apart = refl
  find-delete_rows want test (x ∷ xs) apart =
      ground (arith, apart x, find-delete_rows want test xs apart)

  pub find-none :
      (key : A → String) (k : String) (xs : List A)
      → All (λ y. str_eq k (key y) ≡ false) xs
      → find (has_key key k) xs ≡ none
  unfolding find
  find-none key k [] h = refl
  find-none key k (x ∷ xs) (hx, hxs) =
      ground (arith, eq_iff k (key x), eq_iff (key x) k, find-none key k xs hxs)

  apart_of_any_row :
      (key : A → String) (j k : String) (test : A → Bool) (xs : List A)
      → All (λ y. str_eq j (key y) ≡ false) xs
      → ((x : A) → test x ≡ true → key x ≡ k)
      → any_row test xs ≡ true
      → str_eq j k ≡ false
  unfolding any_row
  apart_of_any_row key j k test [] h same found = absurd (ground arith)
  apart_of_any_row key j k test (x ∷ xs) (hx, hxs) same found =
      ground (arith, same x, apart_of_any_row key j k test xs hxs same)

  -- If a row to delete is there, and only rows of one key are deleted, no row of that key is left.
  pub find-delete_rows_self :
      (key : A → String) (k : String) (test : A → Bool) (xs : List A)
      → UniqueBy key xs
      → ((x : A) → test x ≡ true → key x ≡ k)
      → any_row test xs ≡ true
      → find (has_key key k) (delete_rows test xs) ≡ none
  unfolding find delete_rows any_row
  find-delete_rows_self key k test [] u same h = absurd (ground arith)
  find-delete_rows_self key k test (x ∷ xs) (hx, u) same h = elim (Bool-cases (test x)) [
    | inl gone ↦ rw gone (
        find-none key k (delete_rows test xs)
          (rw (← same x gone) (All-delete_rows (λ y. str_eq (key x) (key y) ≡ false) test xs hx)))
    | inr stays ↦ rw stays (
        ground (
          arith,
          apart_of_any_row key (key x) k test xs hx same (ground arith),
          find-delete_rows_self key k test xs u same (ground arith),
        ))
  ]

module _ {ℓ} {A : Type ℓ} where
  abbrev pub is_some : Option A → Bool
  is_some none = false
  is_some (some x) = true

  pub any_row-find : (test : A → Bool) (xs : List A) → any_row test xs ≡ is_some (find test xs)
  unfolding any_row find
  any_row-find test [] = refl
  any_row-find test (x ∷ xs) = ground (arith, any_row-find test xs)
