-- ===== src/Dict/Laws.antt =====
-- Lookups after each update of a dictionary, with no side conditions.
use mathlib.Core.Option
use glass_guru.Base.{
  Bool, true, false, Option, none, some, [], ◌∷◌, ◌≡◌, refl, subst, inl, inr, Bool-cases,
  Option-cases, Eq, ◌==◌, if◌then◌else◌, arith,
}
use glass_guru.Dict.{Dict, get, has, put, pop, map_values}

abbrev pub is_some {κ} : {V : Type κ} → Option V → Bool
is_some none = false
is_some (some v) = true

module _ {ℓ κ} {K : Type ℓ} {V : Type κ} ⦃e : Eq K⦄ where
  pub get-put :
      (d : Dict K V) (k j : K) (v : V) → get (put d k v) j ≡ (if k == j then some v else get d j)
  unfolding get put
  get-put [] k j v = refl
  get-put ((i, w) ∷ d) k j v =
      ground (arith, e.equals_iff i k, e.equals_iff i j, e.equals_iff k j, get-put d k j v)

  pub get-pop : (d : Dict K V) (k j : K) → get (pop d k) j ≡ (if k == j then none else get d j)
  unfolding get pop
  get-pop [] k j = ground arith
  get-pop ((i, w) ∷ d) k j =
      ground (arith, e.equals_iff i k, e.equals_iff i j, e.equals_iff k j, get-pop d k j)

  pub get-map_values :
      (f : V → V) (d : Dict K V) (j : K) → get (map_values f d) j ≡ Option.map f (get d j)
  unfolding get map_values
  get-map_values f [] j = refl
  get-map_values f ((i, w) ∷ d) j = ground (arith, get-map_values f d j)

  pub has-eq-get : (d : Dict K V) (k : K) → has d k ≡ is_some (get d k)
  unfolding has get
  has-eq-get [] k = refl
  has-eq-get ((j, v) ∷ d) k = ground (arith, has-eq-get d k)

  pub get-nil : (k : K) → get {V = V} [] k ≡ none
  unfolding get
  get-nil k = refl

pub ruleset dict_laws = (get-nil, get-put, get-pop)

module _ {ℓ κ μ} {K : Type ℓ} {V : Type κ} ⦃e : Eq K⦄ (P : K → V → Type μ) where
  -- `P` holds of every key with its value.
  abbrev pub Entries : Dict K V → Type (ℓ ⊔ κ ⊔ μ)
  Entries d = (k : K) (v : V) → get d k ≡ some v → P k v

  pub Entries-nil : Entries []
  Entries-nil k v h = cc (get-nil {V = V} k)

  pub Entries-put : (d : Dict K V) (k : K) (v : V) → P k v → Entries d → Entries (put d k v)
  Entries-put d k v p h j w q = elim (Bool-cases (k == j)) [
    | inl same ↦
        let found : v ≡ w = ground (arith, get-put d k j v) in
        subst (λ x. P x w) ((e.equals_iff k j).0 same) (subst (P k) found p)
    | inr other ↦ h j w (ground (arith, get-put d k j v))
  ]

  pub Entries-pop : (d : Dict K V) (k : K) → Entries d → Entries (pop d k)
  Entries-pop d k h j w q = h j w (ground (arith, get-pop d k j))

  pub Entries-map_values :
      (f : V → V) (d : Dict K V)
      → ((k : K) (v : V) → P k v → P k (f v))
      → Entries d
      → Entries (map_values f d)
  Entries-map_values f d step h j w q = elim (Option-cases (get d j)) [
    | inl missing ↦ cc (get-map_values f d j, missing)
    | inr (v, there) ↦
        let image : f v ≡ w = cc (get-map_values f d j) in
        subst (P j) image (step j v (h j v there))
  ]

module _ {ℓ κ} {K : Type ℓ} {V : Type κ} ⦃e : Eq K⦄ where
  pub has-put :
      (d : Dict K V) (k j : K) (v : V) → has (put d k v) j ≡ (if k == j then true else has d j)
  has-put d k j v = ground (arith, has-eq-get (put d k v) j, has-eq-get d j, get-put d k j v)
