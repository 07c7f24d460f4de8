-- ===== src/Store/Commits.antt =====
-- What a commit promises to the dispatchers who work at the same time.
use mathlib.Core.Option
use glass_guru.Base.{
  Bool, beq_other, String, ◌≡◌, ◌≢◌, refl, sym, ap, ◌∙◌, subst, true, false, Option, some,
  Bool-cases, inl, inr, arith, string_eq, option_eq, option_beq_iff, beq_self, ◌==◌, if◌then◌else◌,
}
use glass_guru.Dict.{get, put}
use glass_guru.Dict.Laws.{get-put}
use glass_guru.Model.Plan.{PlanVersion}
use glass_guru.Store.Files.{Json, strip}
use glass_guru.Store.PlanStore.{Directory, Commit, version, head, head_id, commit}

module _ (json : Json PlanVersion) where
  open json use {Text, dump, load, load-dump}

  -- The directory after a commit that found no conflict.
  abbrev pub stored : Directory Text → PlanVersion → Directory Text
  stored s p = record { head_file = some p.id; versions = put s.versions p.id (dump p) }

  load_if :
      (b : Bool) (p : PlanVersion) (o : Option Text)
      → Option.map load (if b then some (dump p) else o) ≡ (if b then some p else Option.map load o)
  load_if true p o = ap (λ v. some v) (load-dump p)
  load_if false p o = refl

  version-stored :
      (s : Directory Text) (p : PlanVersion) (id : String)
      → version json (stored s p) id ≡ (if p.id == id then some p else version json s id)
  unfolding version
  version-stored s p id =
      ap (Option.map load) (get-put s.versions p.id id (dump p))
      ∙ load_if (p.id == id) p (get s.versions id)

  pub head-stored :
      (s : Directory Text) (p : PlanVersion) → strip p.id ≡ p.id → head json (stored s p) ≡ some p
  unfolding head
  head-stored s p clean =
      ap (version json (stored s p)) clean ∙ version-stored s p p.id ∙ rw (beq_self p.id) refl

  -- A commit succeeds only against the head, and then has stored the plan.
  pub commit-stored :
      (s s' : Directory Text) (p : PlanVersion) (e : Option String)
      → commit json s p e ≡ Commit.committed s'
      → (head_id json s ≡ e) × (stored s p ≡ s')
  unfolding commit
  commit-stored s s' p e h = elim (Bool-cases (head_id json s == e)) [
    | inl same ↦
        let decided : commit json s p e ≡ Commit.committed (stored s p) =
          ap (λ b. if b then Commit.committed (stored s p) else Commit.conflict e (head_id json s))
            same in
        ((option_beq_iff (head_id json s) e).0 same, cc (sym decided ∙ h))
    | inr other ↦ absurd (ground (arith, other))
  ]

  commit-stale :
      (s : Directory Text) (p q : PlanVersion) (e : Option String)
      → head json s ≡ some p
      → e ≢ some p.id
      → commit json s q e ≡ Commit.conflict e (some p.id)
  unfolding commit head_id
  commit-stale s p q e h other =
      ap (λ o. if o == e then Commit.committed (stored s q) else Commit.conflict e o)
        (ap (Option.map (λ (v : PlanVersion). v.id)) h)
      ∙ rw (beq_other (some p.id) e (λ x. other (sym x))) refl

  -- A commit that succeeds was made against the head: the plan becomes the head, and what is on
  -- record under every other id stays as it was. (The plan's id has no space at its ends.)
  pub commit-head :
      (s s' : Directory Text) (p : PlanVersion) (e : Option String) (id : String)
      → commit json s p e ≡ Commit.committed s'
      → strip p.id ≡ p.id
      → id ≢ p.id
      → (head_id json s ≡ e) × (head json s' ≡ some p) × (version json s' id ≡ version json s id)
  commit-head s s' p e id h clean other =
      let (at_head, same) = commit-stored s s' p e h in
      (
        at_head,
        subst (λ d. head json d ≡ some p) same (head-stored s p clean),
        subst (λ d. version json d id ≡ version json s id) same
            (version-stored s p id ∙ rw (beq_other p.id id (λ x. other (sym x))) refl),
      )

  -- Of two plans built from the same version the second is refused: once a commit against a version
  -- has succeeded, a commit of any plan against that version is a conflict. (The
  -- first plan's id has no space at its ends, and is not the id of the version it was built from.)
  pub second_commit_conflicts :
      (s s' : Directory Text) (p q : PlanVersion) (e : Option String)
      → commit json s p e ≡ Commit.committed s'
      → strip p.id ≡ p.id
      → e ≢ some p.id
      → commit json s' q e ≡ Commit.conflict e (some p.id)
  second_commit_conflicts s s' p q e h clean moved =
      commit-stale s' p q e
        (subst (λ d. head json d ≡ some p) (commit-stored s s' p e h).1 (head-stored s p clean))
        moved
