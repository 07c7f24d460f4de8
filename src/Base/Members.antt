-- ===== src/Base/Members.antt =====
-- Elements of appended, filtered and mapped lists.
use mathlib.Core.Path.{◌≡◌, refl, ap}
use mathlib.Core.Logic.{◌↔◌, ◌⊎◌, inl, inr}
use mathlib.Core.Bool.{Bool, true}
use mathlib.Core.List.{List, [], ◌∷◌, ◌++◌, map}
use native.Mathlib.Omega.{arith}
use glass_guru.Base.Tests.{Bool-cases}
use glass_guru.Base.Lists.{select, All, All-append, All-map, Any, Pairs, Member}

module _ {A : Type 0} where
  pub Any-append : (P : A → Type 0) (xs ys : List A) → Any P (xs ++ ys) ↔ (Any P xs ⊎ Any P ys)
  Any-append P [] ys = (λ h. inr h, λ h. elim h [ inl v ↦ absurd v | inr k ↦ k ])
  Any-append P (x ∷ xs) ys = ground (arith, Any-append P xs ys)

  pub Member-select :
      (p : A → Bool) (k : A) (ks : List A) → Member k (select p ks) ↔ (Member k ks × (p k ≡ true))
  Member-select p k [] = (λ h. absurd h, λ h. absurd h.0)
  Member-select p k (j ∷ ks) = elim (Bool-cases (p j)) [
    | inl keep ↦ rw keep (ground (arith, Member-select p k ks, keep))
    | inr leave ↦ rw leave (ground (arith, Member-select p k ks, leave))
  ]

  pub Member-map :
      {B : Type 0} (f : A → B) (x : A) (xs : List A) → Member x xs → Member (f x) (map f xs)
  Member-map f x [] m = absurd m
  Member-map f x (y ∷ ys) (inl e) = inl (ap f e)
  Member-map f x (y ∷ ys) (inr m) = inr (Member-map f x ys m)

  -- What holds between the elements of two lists in turn holds within each, and across.
  pub Pairs-append {κ} :
      (R : A → A → Type κ) (xs ys : List A)
      → Pairs R (xs ++ ys)
      → Pairs R xs × Pairs R ys × All (λ x. All (R x) ys) xs
  Pairs-append R [] ys h = (tt, h, tt)
  Pairs-append R (x ∷ xs) ys h =
      let (a, b, c) = Pairs-append R xs ys h.1 in
      let (here, across) = (All-append (R x) xs ys).0 h.0 in ((here, a), b, (across, c))

pub List-cases {ℓ} :
    {A : Type ℓ} (xs : List A) → (xs ≡ []) ⊎ ((x : A) × (rest : List A) × (xs ≡ x ∷ rest))
List-cases [] = inl refl
List-cases (x ∷ xs) = inr (x, xs, refl)

pub Pairs-map {ℓ κ μ} :
    {A : Type ℓ} (R : A → A → Type κ) (S : A → A → Type μ)
    → ((x y : A) → R x y → S x y)
    → (xs : List A) → Pairs R xs
    → Pairs S xs
Pairs-map R S f [] h = tt
Pairs-map R S f (x ∷ xs) h = (All-map (R x) (S x) (f x) xs h.0, Pairs-map R S f xs h.1)
