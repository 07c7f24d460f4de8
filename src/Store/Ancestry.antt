-- ===== src/Store/Ancestry.antt =====
-- `ancestry` follows the parents to the end: its loop stops by itself within as many rounds as there
-- are versions.
use mathlib.Core.Option
use glass_guru.Base.{
  ℕ, zero, suc, ◌≤◌, String, ◌≡◌, ◌⊎◌, refl, sym, ◌∙◌, ap, subst, true, false, not, Option, none,
  some, List, [], ◌∷◌, Any, select, length, mem, Option-cases, Bool-cases, inl, inr, arith,
  string_eq, ◌==◌,
}
use text.Mathlib.TextEquality.{eq_iff}
use glass_guru.Dict.{Dict, get, values}
use glass_guru.Model.Plan.{PlanVersion}
use glass_guru.Store.Files.{Json, strip}
use glass_guru.Store.PlanStore.{Directory, version, head, parent_of, chain, first_of, ancestry}

module _ (json : Json PlanVersion) where
  open json use {Text, load}

  -- Some file of the directory holds the version.
  abbrev pub IsStored : List Text → PlanVersion → Type 0
  IsStored ts p = Any (λ t. load t ≡ p) ts

  -- What the loop of `ancestry` has gone through when it stops: from `current`, each version with its
  -- parent after it, none of an id that was seen; it stops where there is no parent, or at an id that
  -- was seen.
  abbrev pub Lineage :
      Directory Text
      → (seen : List String) → (current : Option PlanVersion) → List PlanVersion
      → Type 0
  Lineage s seen current [] =
      (current ≡ none) ⊎ ((p : PlanVersion) × (current ≡ some p) × (mem p.id seen ≡ true))
  Lineage s seen current (p ∷ ps) =
      (current ≡ some p) × (mem p.id seen ≡ false) × Lineage s (p.id ∷ seen) (parent_of json s p) ps

  -- how many files hold a version whose id was not seen
  abbrev unseen : List String → List Text → ℕ
  unseen seen ts = length (select (λ t. not (mem (load t).id seen)) ts)

  unseen_fewer :
      (id : String) (seen : List String) (ts : List Text) → unseen (id ∷ seen) ts ≤ unseen seen ts
  unseen_fewer id seen [] = ground arith
  unseen_fewer id seen (t ∷ ts) = ground (arith, unseen_fewer id seen ts)

  unseen_less :
      (p : PlanVersion) (seen : List String) (ts : List Text)
      → IsStored ts p
      → mem p.id seen ≡ false
      → suc (unseen (p.id ∷ seen) ts) ≤ unseen seen ts
  unseen_less p seen [] there new = absurd there
  unseen_less p seen (t ∷ ts) (inl e) new =
      let same : (load t).id ≡ p.id = ap (λ (v : PlanVersion). v.id) e in
      ground (
        arith,
        unseen_fewer p.id seen ts,
        subst (λ i. mem i seen ≡ false) (sym same) new,
        (eq_iff p.id (load t).id).1 (sym same),
      )
  unseen_less p seen (t ∷ ts) (inr later) new = ground (arith, unseen_less p seen ts later new)

  IsStored-get :
      (d : Dict String Text) (id : String) (t : Text)
      → get d id ≡ some t
      → Any (λ u. u ≡ t) (values d)
  unfolding get values
  IsStored-get [] id t h = absurd (cc)
  IsStored-get ((k, u) ∷ d) id t h = elim (Bool-cases (k == id)) [
    | inl here ↦ inl (ground (arith, here))
    | inr later ↦ inr (IsStored-get d id t (ground (arith, later)))
  ]

  IsStored-Any : (ts : List Text) (t : Text) → Any (λ u. u ≡ t) ts → IsStored ts (load t)
  IsStored-Any [] t m = absurd m
  IsStored-Any (u ∷ ts) t (inl e) = inl (ap load e)
  IsStored-Any (u ∷ ts) t (inr m) = inr (IsStored-Any ts t m)

  IsStored-version :
      (s : Directory Text) (id : String) (q : PlanVersion)
      → version json s id ≡ some q
      → IsStored (values s.versions) q
  unfolding version
  IsStored-version s id q h = elim (Option-cases (get s.versions id)) [
    | inl missing ↦ absurd (cc)
    | inr (t, there) ↦
        let same : load t ≡ q = cc (sym (ap (Option.map load) there) ∙ h) in
        subst (IsStored (values s.versions)) same
          (IsStored-Any (values s.versions) t (IsStored-get s.versions id t there))
  ]

  IsStored-parent_case :
      (s : Directory Text) (p q : PlanVersion) (parent : Option String)
      → parent_of json s (record p { parent_id = parent }) ≡ some q
      → IsStored (values s.versions) q
  unfolding parent_of
  IsStored-parent_case s p q none h = absurd (cc)
  IsStored-parent_case s p q (some parent) h = elim (Bool-cases (parent == "")) [
    | inl empty ↦ absurd (ground (arith, empty))
    | inr named ↦ IsStored-version s parent q (ground (arith, named))
  ]

  IsStored-parent :
      (s : Directory Text) (p q : PlanVersion)
      → parent_of json s p ≡ some q
      → IsStored (values s.versions) q
  IsStored-parent s p q h = IsStored-parent_case s p q p.parent_id h

  IsStored-head :
      (s : Directory Text) (q : PlanVersion) → head json s ≡ some q → IsStored (values s.versions) q
  unfolding head
  IsStored-head s q h = by_file s.head_file h
    where
      by_file :
          (file : Option String)
          → head json (record s { head_file = file }) ≡ some q
          → IsStored (values s.versions) q
      by_file none e = absurd (cc)
      by_file (some text) e = IsStored-version s (strip text) q e

  IsStored-first :
      (s : Directory Text) (o : Option String) (q : PlanVersion)
      → first_of json s o ≡ some q
      → IsStored (values s.versions) q
  unfolding first_of
  IsStored-first s none q h = IsStored-head s q h
  IsStored-first s (some id) q h = elim (Bool-cases (id == "")) [
    | inl empty ↦ IsStored-head s q (ground (arith, empty))
    | inr named ↦ IsStored-version s id q (ground (arith, named))
  ]

  unseen_bound : (seen : List String) (d : Dict String Text) → unseen seen (values d) ≤ length d
  unfolding values
  unseen_bound seen [] = ground arith
  unseen_bound seen ((k, t) ∷ d) = ground (arith, unseen_bound seen d)

  chain-Lineage :
      (s : Directory Text) (rounds : ℕ) (seen : List String) (current : Option PlanVersion)
      → unseen seen (values s.versions) ≤ rounds
      → ((p : PlanVersion) → current ≡ some p → IsStored (values s.versions) p)
      → Lineage s seen current (chain json s rounds seen current)
  unfolding chain
  chain-Lineage s zero seen none few there = inl refl
  chain-Lineage s zero seen (some p) few there = elim (Bool-cases (mem p.id seen)) [
    | inl old ↦ inr (p, refl, old)
    | inr new ↦
        absurd (ground (arith, unseen_less p seen (values s.versions) (there p refl) new, few))
  ]
  chain-Lineage s (suc rounds) seen none few there = inl refl
  chain-Lineage s (suc rounds) seen (some p) few there = elim (Bool-cases (mem p.id seen)) [
    | inl old ↦ rw (old, chain) (inr (p, refl, old))
    | inr new ↦
        let fewer = unseen_less p seen (values s.versions) (there p refl) new in
        rw (new, chain)
          (
            refl,
            new,
            chain-Lineage s rounds (p.id ∷ seen) (parent_of json s p) (ground (arith, fewer, few))
                (λ q e. IsStored-parent s p q e),
          )
  ]

  -- The rounds given are enough: what `ancestry` returns is all that its loop goes through until it
  -- stops by itself, each version followed by its parent, and no id twice.
  pub ancestry-Lineage :
      (s : Directory Text) (plan_id : Option String)
      → Lineage s [] (first_of json s plan_id) (ancestry json s plan_id)
  unfolding ancestry
  ancestry-Lineage s plan_id =
      chain-Lineage s (length s.versions) [] (first_of json s plan_id) (unseen_bound [] s.versions)
        (IsStored-first s plan_id)
