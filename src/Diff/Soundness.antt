-- ===== src/Diff/Soundness.antt =====
-- What a diff holds: a change for each job whose placement differs, and for no other.
use text.Mathlib.TextEquality.{eq_iff}
use glass_guru.Base.{
  ◌≡◌, ◌≢◌, ◌↔◌, ◌⊎◌, ◌∙◌, refl, ap, sym, subst, Bool, true, false, not, Option, none, some, List,
  [], ◌∷◌, select, All-of, Any, Member, Any-append, Member-select, Option-cases, inl, inr, arith,
  nat_eq, string_eq,
}
use mathlib.Core.Path.{subst₂}
use glass_guru.Base.Sort.{sorted}
use glass_guru.Base.Sort.Laws.{Any-sorted}
use glass_guru.Base.Text.{text_leb}
use glass_guru.Dict.{Dict, get, has}
use glass_guru.Dict.Laws.{has-eq-get, is_some}
use glass_guru.Model.Units.Int.{ℤ}
use glass_guru.Model.Crews.{SameCrew, same_set_iff}
use glass_guru.Model.Entities.{JobId}
use glass_guru.Model.Plan.{PlanVersion}
use glass_guru.World.State.{WorldState}
use glass_guru.Diff.Changes.{ChangeKind, Placement, JobChange}
use glass_guru.Diff.Plans.{
  placements, classify, kind_of, change_of, keys, all_keys, changes_of, diff_plans,
}

-- The two placements of a job differ: only one is there, or they differ in date, arrival, crew or
-- van.
abbrev pub Differs : Option Placement → Option Placement → Type 0
Differs none none = ⊥
Differs none (some q) = Unit
Differs (some p) none = Unit
Differs (some p) (some q) =
    (p.on_date ≢ q.on_date)
    ⊎ (p.arrival ≢ q.arrival)
    ⊎ (¬ SameCrew p.worker_ids q.worker_ids)
    ⊎ (p.van_id ≢ q.van_id)

abbrev is_kind : Option ChangeKind → Bool
is_kind none = false
is_kind (some k) = true

classify_iff : (p q : Placement) → (is_kind (classify p q) ≡ true) ↔ Differs (some p) (some q)
unfolding classify
classify_iff p q = ground (arith, same_set_iff p.worker_ids q.worker_ids, eq_iff p.van_id q.van_id)

kind_of_iff : (o n : Option Placement) → (is_kind (kind_of o n) ≡ true) ↔ Differs o n
unfolding kind_of
kind_of_iff none none = (λ h. absurd (cc), λ h. absurd h)
kind_of_iff none (some q) = (λ h. tt, λ h. refl)
kind_of_iff (some p) none = (λ h. tt, λ h. refl)
kind_of_iff (some p) (some q) = classify_iff p q

module _ (world : Option WorldState) (old new : Dict JobId Placement) where
  abbrev pub Of : JobId → JobChange → Type 0
  Of id c = c.job_id ≡ id

  change_of_iff :
      (k id : JobId)
      → Any (Of id) (change_of world old new k) ↔ ((k ≡ id) × Differs (get old id) (get new id))
  unfolding change_of
  change_of_iff k id =
      let differs = kind_of_iff (get old k) (get new k) in
      elim (Option-cases (kind_of (get old k) (get new k))) [
        | inl same ↦
            rw (same, change_of)
              (
                λ h. absurd h,
                λ h.
                    absurd
                      (unchanged (subst (λ i. Differs (get old i) (get new i)) (sym h.0) h.1) same),
              )
        | inr (kind, there) ↦
            rw (there, change_of)
              (
                λ h. elim h [
                  | inl e ↦ (
                    e,
                    subst (λ i. Differs (get old i) (get new i)) e
                        (differs.0 (ground (arith, there))),
                  )
                  | inr none_left ↦ absurd none_left
                ],
                λ h. inl h.0,
              )
      ]
    where
      unchanged : Differs (get old k) (get new k) → kind_of (get old k) (get new k) ≡ none → ⊥
      unchanged d same = cc ((kind_of_iff (get old k) (get new k)).1 d, ap is_kind same)

  changes_of_iff :
      (ks : List JobId) (id : JobId)
      → Any (Of id) (changes_of world old new ks)
        ↔ (Member id ks × Differs (get old id) (get new id))
  unfolding changes_of
  changes_of_iff [] id = (λ h. absurd h, λ h. absurd h.0)
  changes_of_iff (k ∷ ks) id =
      let split = Any-append (Of id) (change_of world old new k) (changes_of world old new ks) in
      let first = change_of_iff k id in
      let later = changes_of_iff ks id in
      (
        λ h. elim (split.0 h) [
          | inl a ↦ let (e, d) = first.0 a in (inl e, d)
          | inr b ↦ let (m, d) = later.0 b in (inr m, d)
        ],
        λ h. split.1 (elim h.0 [ inl e ↦ inl (first.1 (e, h.1)) | inr m ↦ inr (later.1 (m, h.1)) ]),
      )

  -- The change of a listed job is in the diff.
  pub change_listed :
      (ks : List JobId) (id : JobId) (c : JobChange)
      → Member id ks
      → change_of world old new id ≡ c ∷ []
      → Member c (changes_of world old new ks)
  unfolding changes_of
  change_listed [] id c m e = absurd m
  change_listed (k ∷ ks) id c m e =
      let split =
        Any-append (λ x. x ≡ c) (change_of world old new k) (changes_of world old new ks) in
      split.1 (elim m [
        | inl same ↦
            inl (subst (Member c) (sym e ∙ ap (change_of world old new) (sym same)) (inl refl))
        | inr later ↦ inr (change_listed ks id c later e)
      ])

Member-keys : (d : Dict JobId Placement) (k : JobId) → Member k (keys d) ↔ (has d k ≡ true)
unfolding keys has
Member-keys [] k = (λ h. absurd h, λ h. absurd (cc))
Member-keys ((j, p) ∷ d) k = ground (arith, Member-keys d k, eq_iff j k)

Member-all_keys :
    (old new : Dict JobId Placement) (k : JobId)
    → Member k (all_keys old new) ↔ ((has old k ≡ true) ⊎ (has new k ≡ true))
unfolding all_keys
Member-all_keys old new k =
    let rest = select (λ j. not (has old j)) (keys new) in
    ground (
      arith,
      Any-append (λ j. j ≡ k) (keys old) rest,
      Member-keys old k,
      Member-keys new k,
      Member-select (λ j. not (has old j)) k (keys new),
    )

-- Of two placements that differ one is there.
some_place :
    (old new : Dict JobId Placement) (k : JobId)
    → Differs (get old k) (get new k)
    → (has old k ≡ true) ⊎ (has new k ≡ true)
some_place old new k d = elim (Option-cases (get old k)) [
  | inr (p, there) ↦ inl (has-eq-get old k ∙ ap is_some there)
  | inl missing ↦ elim (Option-cases (get new k)) [
    | inr (q, there) ↦ inr (has-eq-get new k ∙ ap is_some there)
    | inl both ↦ absurd (subst₂ Differs missing both d)
  ]
]

-- Every job whose placement differs is among the ids that the loop visits.
pub Member-visited :
    (old new : Dict JobId Placement) (k : JobId)
    → Differs (get old k) (get new k)
    → Member k (sorted text_leb (all_keys old new))
Member-visited old new k d =
    (Any-sorted text_leb (λ j. j ≡ k) (all_keys old new)).1
      ((Member-all_keys old new k).1 (some_place old new k d))

-- The diff of two plans has a change for a job exactly when its placements differ: the job is
-- scheduled in one plan only, or on another date, at another time, with other workers or another
-- van.
pub diff_plans_iff :
    (before after : PlanVersion) (world : Option WorldState) (cost : ℤ) (id : JobId)
    → Any (λ (c : JobChange). c.job_id ≡ id) (diff_plans before after world cost).changes
      ↔ Differs (get (placements world before) id) (get (placements world after) id)
unfolding diff_plans
diff_plans_iff before after world cost id =
    let old = placements world before in
    let new = placements world after in
    let f = changes_of_iff world old new (sorted text_leb (all_keys old new)) id in
    (λ h. (f.0 h).1, λ d. f.1 (Member-visited old new id d, d))

not-Differs_self : (o : Option Placement) → ¬ Differs o o
not-Differs_self none d = d
not-Differs_self (some p) d = ground (arith, same_crew p)
  where
    same_crew : (p : Placement) → SameCrew p.worker_ids p.worker_ids
    same_crew p =
        let all = All-of (λ w. Member w p.worker_ids) p.worker_ids (λ w m. m) in (all, all)

empty_of :
    (cs : List JobChange) → ((id : JobId) → ¬ Any (λ (c : JobChange). c.job_id ≡ id) cs) → cs ≡ []
empty_of [] h = refl
empty_of (c ∷ cs) h = absurd (h c.job_id (inl refl))

-- A plan compared with itself shows no changes.
pub diff_plans_self :
    (plan : PlanVersion) (world : Option WorldState) (cost : ℤ)
    → (diff_plans plan plan world cost).changes ≡ []
diff_plans_self plan world cost = empty_of _ λ id h.
    not-Differs_self (get (placements world plan) id) ((diff_plans_iff plan plan world cost id).0 h)
