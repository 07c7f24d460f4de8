-- ===== src/Base/Sort.antt =====
-- Python's `sorted`, which is stable, as insertion, and the lemmas on its result.
pub mod Laws
use mathlib.Core.List.{Permᴰ, List, [], ◌∷◌}
use mathlib.Core.Path.{◌≡◌, refl, sym, ap, ap₂, ◌∙◌}
use mathlib.Core.Logic.{◌⊎◌, inl, inr}
use mathlib.Core.Bool.{Bool, true, false}
use native.Mathlib.Omega.{arith}
use glass_guru.Base.Tests.{if◌then◌else◌, Bool-cases}
use glass_guru.Base.Lists.{All, Member, select}

module _ {ℓ} {A : Type ℓ} (le : A → A → Bool) where
  unfoldable pub insert : A → List A → List A
  insert x [] = x ∷ []
  insert x (y ∷ ys) = if le x y then x ∷ y ∷ ys else y ∷ insert x ys

  -- `sorted(xs, key=k)`, where `le x y` is `k(x) <= k(y)`
  unfoldable pub sorted : List A → List A
  unfolding insert
  sorted [] = []
  sorted (x ∷ xs) = insert x (sorted xs)

module _ {A : Type 0} (le : A → A → Bool) (total : (x y : A) → le x y ≡ false → le y x ≡ true)
    (trans : (x y z : A) → le x y ≡ true → le y z ≡ true → le x z ≡ true) where
  -- Two insertions commute, unless the order takes two different elements for equal.
  insert_comm :
      (x y : A) (zs : List A)
      → (le x y ≡ true → le y x ≡ true → x ≡ y)
      → insert le x (insert le y zs) ≡ insert le y (insert le x zs)
  unfolding insert
  insert_comm x y [] h = ground (arith, total x y, total y x)
  insert_comm x y (z ∷ zs) h = ground (
    arith,
    total x y,
    total y x,
    trans x y z,
    trans y x z,
    trans x z y,
    trans y z x,
    trans z x y,
    trans z y x,
    insert_comm x y zs h,
  )

  -- The order tells the elements of the list apart.
  abbrev pub Separates : List A → Type 0
  Separates xs = (x y : A) → Member x xs → Member y xs → le x y ≡ true → le y x ≡ true → x ≡ y

  Member-perm : {xs ys : List A} (x : A) → Permᴰ xs ys → Member x ys → Member x xs
  Member-perm x Permᴰ.nil m = m
  Member-perm x (Permᴰ.cons e p) (inl f) = inl (e ∙ f)
  Member-perm x (Permᴰ.cons e p) (inr m) = inr (Member-perm x p m)
  Member-perm x (Permᴰ.swap e f) (inl g) = inr (inl (f ∙ g))
  Member-perm x (Permᴰ.swap e f) (inr (inl g)) = inl (e ∙ g)
  Member-perm x (Permᴰ.swap e f) (inr (inr m)) = inr (inr m)
  Member-perm x (Permᴰ.trans p q) m = Member-perm x p (Member-perm x q m)

  -- Sorting forgets the order in which such elements came.
  pub sorted-perm : {xs ys : List A} → Permᴰ xs ys → Separates xs → sorted le xs ≡ sorted le ys
  unfolding sorted
  sorted-perm Permᴰ.nil h = refl
  sorted-perm (Permᴰ.cons e p) h =
      ap₂ (insert le) e (sorted-perm p (λ x y m n. h x y (inr m) (inr n)))
  sorted-perm (Permᴰ.swap {a = a} {b = b} {l = l} e f) h =
      insert_comm a b (sorted le l) (h a b (inl refl) (inr (inl refl)))
      ∙ ap₂ (λ u v. insert le u (insert le v (sorted le l))) f e
  sorted-perm (Permᴰ.trans p q) h =
      sorted-perm p h ∙ sorted-perm q (λ x y m n. h x y (Member-perm x p m) (Member-perm y p n))
