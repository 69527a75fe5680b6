-- ===== src/Go/Order.antt =====
-- `<` on strings, and `sort.Slice`. The sort is not stable: of equal entries any order may come out,
-- so it is a parameter with the contract that the package documents.
pub mod Insertion
use mathlib.Core.List.{Perm}
use dota_cuck.Prelude.{
  ℕ, ◌≡◌, refl, Bool, true, false, List, [], ◌∷◌, Bytes, All, arith, ltb, ◌==◌, if◌then◌else◌,
}

-- By the bytes.
unfoldable pub bytes_lt : Bytes → Bytes → Bool
bytes_lt [] [] = false
bytes_lt [] (d ∷ t) = true
bytes_lt (c ∷ s) [] = false
bytes_lt (c ∷ s) (d ∷ t) =
    let rest = bytes_lt s t in if ltb c d then true else if c == d then rest else false

module _ {A : Type 0} where
  -- The strict weak order that `sort.Slice` asks of `less`.
  pub record IsStrictWeak (less : A → A → Bool) : Type 0 where
    pub asym : (a b : A) → less a b ≡ true → less b a ≡ false
    pub neg_trans : (a b c : A) → less a b ≡ false → less b c ≡ false → less a c ≡ false

  -- No entry is less than one before it.
  abbrev pub IsSorted : (A → A → Bool) → List A → Type 0
  IsSorted less [] = Unit
  IsSorted less (x ∷ xs) = All (λ y. less y x ≡ false) xs × IsSorted less xs

pub record SliceSort (A : Type 0) : Type 0 where
  pub sort : (A → A → Bool) → List A → List A
  pub sort-perm : (less : A → A → Bool) (xs : List A) → IsStrictWeak less → Perm (sort less xs) xs
  pub sort-IsSorted :
      (less : A → A → Bool) (xs : List A) → IsStrictWeak less → IsSorted less (sort less xs)

bytes_lt_asym : (s t : Bytes) → bytes_lt s t ≡ true → bytes_lt t s ≡ false
unfolding bytes_lt
bytes_lt_asym [] [] h = refl
bytes_lt_asym [] (d ∷ t) h = refl
bytes_lt_asym (c ∷ s) [] h = absurd (ground arith)
bytes_lt_asym (c ∷ s) (d ∷ t) h = ground (arith, bytes_lt_asym s t)

bytes_lt_neg_trans :
    (s t u : Bytes) → bytes_lt s t ≡ false → bytes_lt t u ≡ false → bytes_lt s u ≡ false
unfolding bytes_lt
bytes_lt_neg_trans s [] [] h k = h
bytes_lt_neg_trans s [] (e ∷ u) h k = absurd (ground arith)
bytes_lt_neg_trans [] (d ∷ t) u h k = absurd (ground arith)
bytes_lt_neg_trans (c ∷ s) (d ∷ t) [] h k = refl
bytes_lt_neg_trans (c ∷ s) (d ∷ t) (e ∷ u) h k = ground (arith, bytes_lt_neg_trans s t u)

pub bytes_lt-IsStrictWeak :
    {A : Type 0} (name : A → Bytes) → IsStrictWeak (λ a b. bytes_lt (name a) (name b))
bytes_lt-IsStrictWeak name = record {
  asym = λ a b. bytes_lt_asym (name a) (name b);
  neg_trans = λ a b c. bytes_lt_neg_trans (name a) (name b) (name c);
}
