-- ===== src/Go/Order/Insertion.antt =====
-- A sort that meets the contract of `sort.Slice`.
use mathlib.Core.List.{Perm}
use mathlib.Core.List.Perm
use dota_cuck.Prelude.{◌≡◌, Bool, false, List, [], ◌∷◌, All, if◌then◌else◌, Bool-cases, inl, inr}
use dota_cuck.Go.Order.{IsStrictWeak, IsSorted, SliceSort}

module _ {A : Type 0} (less : A → A → Bool) where
  insert : A → List A → List A
  insert x [] = x ∷ []
  insert x (y ∷ ys) = let rest = insert x ys in if less y x then y ∷ rest else x ∷ y ∷ ys

  unfoldable pub insertion_sort : List A → List A
  unfolding insert
  insertion_sort [] = []
  insertion_sort (x ∷ xs) = insert x (insertion_sort xs)

  insert-perm : (x : A) (ys : List A) → Perm (insert x ys) (x ∷ ys)
  unfolding insert
  insert-perm x [] = Perm.refl (x ∷ [])
  insert-perm x (y ∷ ys) = elim (Bool-cases (less y x)) [
    | inl after ↦ rw after (Perm.trans (Perm.cons y (insert-perm x ys)) (Perm.swap x y ys))
    | inr before ↦ rw before (Perm.refl (x ∷ y ∷ ys))
  ]

  pub sort-perm : (xs : List A) → Perm (insertion_sort xs) xs
  unfolding insertion_sort
  sort-perm [] = Perm.refl []
  sort-perm (x ∷ xs) = Perm.trans (insert-perm x (insertion_sort xs)) (Perm.cons x (sort-perm xs))

  -- Entries that are not less than `y`.
  abbrev FollowAll : A → List A → Type 0
  FollowAll y xs = All (λ z. less z y ≡ false) xs

  insert-FollowAll :
      (y x : A) (ys : List A) → less x y ≡ false → FollowAll y ys → FollowAll y (insert x ys)
  unfolding insert
  insert-FollowAll y x [] h f = (h, tt)
  insert-FollowAll y x (z ∷ zs) h (hz, f) = elim (Bool-cases (less z x)) [
    | inl after ↦ rw after (hz, insert-FollowAll y x zs h f)
    | inr before ↦ rw before (h, (hz, f))
  ]

  weaken :
      (w : IsStrictWeak less) (x y : A) (zs : List A)
      → less y x ≡ false
      → FollowAll y zs
      → FollowAll x zs
  weaken w x y [] h f = tt
  weaken w x y (z ∷ zs) h (hz, f) = (w.neg_trans z y x hz h, weaken w x y zs h f)

  insert-IsSorted :
      (w : IsStrictWeak less) (x : A) (ys : List A) → IsSorted less ys → IsSorted less (insert x ys)
  unfolding insert
  insert-IsSorted w x [] s = (tt, tt)
  insert-IsSorted w x (y ∷ ys) (f, s) = elim (Bool-cases (less y x)) [
    | inl after ↦ rw after (insert-FollowAll y x ys (w.asym y x after) f, insert-IsSorted w x ys s)
    | inr before ↦ rw before ((before, weaken w x y ys before f), (f, s))
  ]

  pub sort-IsSorted : (w : IsStrictWeak less) (xs : List A) → IsSorted less (insertion_sort xs)
  unfolding insertion_sort
  sort-IsSorted w [] = tt
  sort-IsSorted w (x ∷ xs) = insert-IsSorted w x (insertion_sort xs) (sort-IsSorted w xs)

abbrev pub insertion : {A : Type 0} → SliceSort A
insertion = record {
  sort = insertion_sort;
  sort-perm = λ less xs w. sort-perm less xs;
  sort-IsSorted = λ less xs w. sort-IsSorted less w xs;
}
