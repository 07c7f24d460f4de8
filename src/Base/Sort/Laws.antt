-- ===== src/Base/Sort/Laws.antt =====
-- Sorting keeps the elements, puts them in order, and commutes with filtering.
use glass_guru.Base.Lists.{length, select, All, Any, All-map, Pairs}
use glass_guru.Base.Tests.{if◌then◌else◌, Bool-cases}
use glass_guru.Base.Sort.{insert, sorted}
use Prim.Native.Nat.{suc}
use mathlib.Core.List.{List, [], ◌∷◌}
use mathlib.Core.Path.{◌≡◌, refl}
use mathlib.Core.Logic.{◌⊎◌, inl, inr, ◌↔◌}
use mathlib.Core.Bool.{Bool, true, false}
use native.Mathlib.Omega.{arith}

module _ {ℓ} {A : Type ℓ} (le : A → A → Bool) where
  length-select-insert :
      (p : A → Bool) (x : A) (ys : List A)
      → length (select p (insert le x ys)) ≡ length (select p (x ∷ ys))
  unfolding insert
  length-select-insert p x [] = refl
  length-select-insert p x (y ∷ ys) = ground (arith, length-select-insert p x ys)

  pub length-select-sorted :
      (p : A → Bool) (xs : List A) → length (select p (sorted le xs)) ≡ length (select p xs)
  unfolding sorted
  length-select-sorted p [] = refl
  length-select-sorted p (x ∷ xs) =
      ground (arith, length-select-insert p x (sorted le xs), length-select-sorted p xs)

  length-insert : (x : A) (ys : List A) → length (insert le x ys) ≡ suc (length ys)
  unfolding insert
  length-insert x [] = refl
  length-insert x (y ∷ ys) = ground (arith, length-insert x ys)

  pub length-sorted : (xs : List A) → length (sorted le xs) ≡ length xs
  unfolding sorted
  length-sorted [] = refl
  length-sorted (x ∷ xs) = ground (arith, length-insert x (sorted le xs), length-sorted xs)

  All-insert {κ} :
      (P : A → Type κ) (x : A) (ys : List A) → All P (insert le x ys) ↔ (P x × All P ys)
  unfolding insert
  All-insert P x [] = ground arith
  All-insert P x (y ∷ ys) = elim (Bool-cases (le x y)) [
    | inl e ↦ rw e (λ h. h, λ h. h)
    | inr e ↦ rw e (
      λ h. let (px, rest) = (All-insert P x ys).0 h.1 in (px, (h.0, rest)),
      λ h. (h.1.0, (All-insert P x ys).1 (h.0, h.1.1)),
    )
  ]

  pub All-sorted {κ} : (P : A → Type κ) (xs : List A) → All P (sorted le xs) ↔ All P xs
  unfolding sorted
  All-sorted P [] = (λ h. h, λ h. h)
  All-sorted P (x ∷ xs) = (
    λ h. let (px, rest) = (All-insert P x (sorted le xs)).0 h in (px, (All-sorted P xs).0 rest),
    λ h. (All-insert P x (sorted le xs)).1 (h.0, (All-sorted P xs).1 h.1),
  )

module _ {A : Type 0} (le : A → A → Bool) where
  Any-insert : (P : A → Type 0) (x : A) (ys : List A) → Any P (insert le x ys) ↔ (P x ⊎ Any P ys)
  unfolding insert
  Any-insert P x [] = (λ h. h, λ h. h)
  Any-insert P x (y ∷ ys) = ground (arith, Any-insert P x ys)

  pub Any-sorted : (P : A → Type 0) (xs : List A) → Any P (sorted le xs) ↔ Any P xs
  unfolding sorted
  Any-sorted P [] = (λ h. h, λ h. h)
  Any-sorted P (x ∷ xs) = ground (arith, Any-insert P x (sorted le xs), Any-sorted P xs)

module _ {A : Type 0} (le : A → A → Bool) (total : (x y : A) → le x y ≡ false → le y x ≡ true)
    (trans : (x y z : A) → le x y ≡ true → le y z ≡ true → le x z ≡ true) where
  -- Each element stands before those that follow it.
  abbrev pub InOrder : List A → Type 0
  InOrder = Pairs (λ x y. le x y ≡ true)

  insert-InOrder : (x : A) (ys : List A) → InOrder ys → InOrder (insert le x ys)
  unfolding insert
  insert-InOrder x [] h = (tt, tt)
  insert-InOrder x (y ∷ ys) h = elim (Bool-cases (le x y)) [
    | inl e ↦
        rw e (
          (e, All-map (λ z. le y z ≡ true) (λ z. le x z ≡ true) (λ z f. trans x y z e f) ys h.0),
          h,
        )
    | inr e ↦
        rw e
          ((All-insert le (λ z. le y z ≡ true) x ys).1 (total x y e, h.0), insert-InOrder x ys h.1)
  ]

  pub sorted-InOrder : (xs : List A) → InOrder (sorted le xs)
  unfolding sorted
  sorted-InOrder [] = tt
  sorted-InOrder (x ∷ xs) = insert-InOrder x (sorted le xs) (sorted-InOrder xs)

  insert_first : (x : A) (ys : List A) → All (λ z. le x z ≡ true) ys → insert le x ys ≡ x ∷ ys
  unfolding insert
  insert_first x [] h = refl
  insert_first x (y ∷ ys) h = rw h.0

  All-select {κ} : (P : A → Type κ) (p : A → Bool) (xs : List A) → All P xs → All P (select p xs)
  All-select P p [] h = tt
  All-select P p (x ∷ xs) h = elim (Bool-cases (p x)) [
    | inl e ↦ rw e (h.0, All-select P p xs h.1)
    | inr e ↦ rw e (All-select P p xs h.1)
  ]

  select-insert :
      (p : A → Bool) (x : A) (ys : List A)
      → InOrder ys
      → select p (insert le x ys) ≡ (if p x then insert le x (select p ys) else select p ys)
  unfolding insert
  select-insert p x [] h = ground arith
  select-insert p x (y ∷ ys) h = elim (Bool-cases (le x y)) [
    | inl e ↦
        let later =
          All-map (λ z. le y z ≡ true) (λ z. le x z ≡ true) (λ z f. trans x y z e f) ys h.0 in
        ground (arith, e, insert_first x (select p ys) (All-select (λ z. le x z ≡ true) p ys later))
    | inr e ↦ ground (arith, e, select-insert p x ys h.1)
  ]

  -- Filtering and sorting commute.
  pub select-sorted :
      (p : A → Bool) (xs : List A) → select p (sorted le xs) ≡ sorted le (select p xs)
  unfolding sorted
  select-sorted p [] = refl
  select-sorted p (x ∷ xs) =
      ground (arith, select-insert p x (sorted le xs) (sorted-InOrder xs), select-sorted p xs)
