-- ===== src/Base/Lists.antt =====
-- Lists measured by native numbers, Boolean quantifiers, and predicates by recursion.
use Prim.Native.Nat.{ℕ, suc}
use mathlib.Core.Path.{◌≡◌, refl, ap, subst}
use mathlib.Core.Logic.{◌↔◌, ◌⊎◌, inl, inr}
use mathlib.Core.Bool.{Bool, true, false, ◌&&◌, ◌||◌}
use mathlib.Core.List.{List, [], ◌∷◌, ◌++◌}
use native.Mathlib.Omega.{arith}
use glass_guru.Base.Tests.{if◌then◌else◌}
use glass_guru.Base.Classes.{Eq, ◌==◌}

module _ {ℓ} {A : Type ℓ} where
  abbrev pub length : List A → ℕ
  length [] = 0
  length (x ∷ xs) = suc (length xs)

  abbrev pub any : (A → Bool) → List A → Bool
  any p [] = false
  any p (x ∷ xs) = p x || any p xs

  abbrev pub all : (A → Bool) → List A → Bool
  all p [] = true
  all p (x ∷ xs) = p x && all p xs

  -- [x for x in xs if p(x)]
  abbrev pub select : (A → Bool) → List A → List A
  select p [] = []
  select p (x ∷ xs) = let rest = select p xs in if p x then x ∷ rest else rest

  -- Every element satisfies `P`.
  abbrev pub All {κ} : (A → Type κ) → List A → Type κ
  All P [] = Unit
  All P (x ∷ xs) = P x × All P xs

  -- Some element satisfies `P`.
  abbrev pub Any : (A → Type 0) → List A → Type 0
  Any P [] = ⊥
  Any P (x ∷ xs) = P x ⊎ Any P xs

  -- `R` holds from each element to every later one.
  abbrev pub Pairs {κ} : (A → A → Type κ) → List A → Type κ
  Pairs R [] = Unit
  Pairs R (x ∷ xs) = All (R x) xs × Pairs R xs

module _ {ℓ} {A : Type ℓ} where
  pub append_nil : (xs : List A) → xs ++ [] ≡ xs
  append_nil [] = refl
  append_nil (x ∷ xs) = ap (λ ys. x ∷ ys) (append_nil xs)

  pub any_iff :
      (P : A → Type 0) (p : A → Bool)
      → ((x : A) → (p x ≡ true) ↔ P x)
      → (xs : List A) → (any p xs ≡ true) ↔ Any P xs
  any_iff P p h [] = (λ e. cc, λ v. absurd v)
  any_iff P p h (x ∷ xs) = ground (arith, h x, any_iff P p h xs)

  pub all_iff :
      (P : A → Type 0) (p : A → Bool)
      → ((x : A) → (p x ≡ true) ↔ P x)
      → (xs : List A) → (all p xs ≡ true) ↔ All P xs
  all_iff P p h [] = (λ e. tt, λ v. refl)
  all_iff P p h (x ∷ xs) = ground (arith, h x, all_iff P p h xs)

  pub All-append {κ} : (P : A → Type κ) (xs ys : List A) → All P (xs ++ ys) ↔ (All P xs × All P ys)
  All-append P [] ys = (λ h. (tt, h), λ h. h.1)
  All-append P (x ∷ xs) ys = (
    λ h. ((h.0, ((All-append P xs ys).0 h.1).0), ((All-append P xs ys).0 h.1).1),
    λ h. (h.0.0, (All-append P xs ys).1 (h.0.1, h.1)),
  )

  pub All-map {κ μ} :
      (P : A → Type κ) (Q : A → Type μ) (f : (x : A) → P x → Q x) (xs : List A)
      → All P xs
      → All Q xs
  All-map P Q f [] h = tt
  All-map P Q f (x ∷ xs) h = (f x h.0, All-map P Q f xs h.1)

  pub All-iff {κ μ} :
      (P : A → Type κ) (Q : A → Type μ)
      → ((x : A) → P x ↔ Q x)
      → (xs : List A) → All P xs ↔ All Q xs
  All-iff P Q f xs = (All-map P Q (λ x. (f x).0) xs, All-map Q P (λ x. (f x).1) xs)

  pub All-both {κ μ} :
      (P : A → Type κ) (Q : A → Type μ) (xs : List A)
      → All (λ x. P x × Q x) xs ↔ (All P xs × All Q xs)
  All-both P Q [] = (λ h. (tt, tt), λ h. tt)
  All-both P Q (x ∷ xs) = (
    λ h. let (a, b) = (All-both P Q xs).0 h.1 in ((h.0.0, a), (h.0.1, b)),
    λ h. ((h.0.0, h.1.0), (All-both P Q xs).1 (h.0.1, h.1.1)),
  )

module _ {A : Type 0} where
  -- `x` is an element.
  abbrev pub Member : A → List A → Type 0
  Member x = Any (λ y. y ≡ x)

  -- What holds of all elements holds of one that is there.
  pub All-at {κ} : (P : A → Type κ) (x : A) (xs : List A) → All P xs → Member x xs → P x
  All-at P x [] h v = absurd v
  All-at P x (y ∷ ys) h (inl e) = subst P e h.0
  All-at P x (y ∷ ys) h (inr v) = All-at P x ys h.1 v

  pub All-of {κ} : (P : A → Type κ) (xs : List A) → ((x : A) → Member x xs → P x) → All P xs
  All-of P [] h = tt
  All-of P (x ∷ xs) h = (h x (inl refl), All-of P xs (λ y m. h y (inr m)))

module _ {A : Type 0} ⦃e : Eq A⦄ where
  -- `x in xs`
  abbrev pub mem : A → List A → Bool
  mem x = any (λ y. y == x)

  pub mem_iff : (x : A) (xs : List A) → (mem x xs ≡ true) ↔ Member x xs
  mem_iff x = any_iff (λ y. y ≡ x) (λ y. y == x) (λ y. e.equals_iff y x)
