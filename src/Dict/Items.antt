-- ===== src/Dict/Items.antt =====
-- The items of a dictionary, `d.items()`, against its lookups: no key stands twice.
use glass_guru.Base.{
  some, [], ◌∷◌, ◌≡◌, ◌≢◌, subst, inl, inr, Bool-cases, Eq, ◌==◌, arith, All, Pairs,
}
use glass_guru.Dict.{Dict, get, put}

module _ {ℓ κ} {K : Type ℓ} {V : Type κ} ⦃e : Eq K⦄ where
  abbrev pub HasUniqueKeys : Dict K V → Type ℓ
  HasUniqueKeys = Pairs (λ p q. p.0 ≢ q.0)

  All-put :
      (P : K → Type ℓ) (d : Dict K V) (k : K) (v : V)
      → P k
      → All (λ (p : K × V). P p.0) d
      → All (λ (p : K × V). P p.0) (put d k v)
  unfolding put
  All-put P [] k v pk h = (pk, tt)
  All-put P ((j, w) ∷ d) k v pk h = elim (Bool-cases (j == k)) [
    | inl same ↦ rw (same, put) (h.0, h.1)
    | inr other ↦ rw (other, put) (h.0, All-put P d k v pk h.1)
  ]

  pub put-HasUniqueKeys :
      (d : Dict K V) (k : K) (v : V) → HasUniqueKeys d → HasUniqueKeys (put d k v)
  unfolding put
  put-HasUniqueKeys [] k v h = (tt, tt)
  put-HasUniqueKeys ((j, w) ∷ d) k v h = elim (Bool-cases (j == k)) [
    | inl same ↦ rw (same, put) (h.0, h.1)
    | inr other ↦
        rw (other, put)
          (
            All-put (λ i. j ≢ i) d k v (λ p. absurd (ground (arith, e.equals_iff j k))) h.0,
            put-HasUniqueKeys d k v h.1,
          )
  ]

  pub lookups_of_items {μ} :
      (P : K → V → Type μ) (d : Dict K V)
      → All (λ (p : K × V). P p.0 p.1) d
      → (k : K) (v : V) → get d k ≡ some v
      → P k v
  unfolding get
  lookups_of_items P [] h k v there = absurd (cc)
  lookups_of_items P ((j, w) ∷ d) h k v there = elim (Bool-cases (j == k)) [
    | inl same ↦
        let a : w ≡ v = ground arith in
        subst (λ i. P i v) ((e.equals_iff j k).0 same) (subst (P j) a h.0)
    | inr other ↦ lookups_of_items P d h.1 k v (ground arith)
  ]

  -- What holds of every item holds of every lookup, and the other way round.
  pub items_of_lookups {μ} :
      (P : K → V → Type μ) (d : Dict K V)
      → HasUniqueKeys d
      → ((k : K) (v : V) → get d k ≡ some v → P k v)
      → All (λ (p : K × V). P p.0 p.1) d
  unfolding get
  items_of_lookups P [] u h = tt
  items_of_lookups P ((j, w) ∷ d) u h = (
    h j w (ground (arith, e.equals_iff j j)),
    items_of_lookups P d u.1 (λ k v there. h k v (later k v there)),
  )
    where
      later : (k : K) (v : V) → get d k ≡ some v → get ((j, w) ∷ d) k ≡ some v
      later k v there =
          ground (arith, lookups_of_items (λ i x. j ≢ i) d u.0 k v there, e.equals_iff j k)
