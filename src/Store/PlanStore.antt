-- ===== src/Store/PlanStore.antt =====
-- `JsonPlanStore`: immutable versions by id, and a head pointer; a commit names the version it was
-- built from.
use glass_guru.Base.{
  ℕ, zero, suc, String, Bool, Option, none, some, List, [], ◌∷◌, map, length, mem, ltb, ◌==◌,
  nat_eq, string_eq, option_eq, if◌then◌else◌,
}
use mathlib.Core.Option
use glass_guru.Base.Sort.{sorted}
use glass_guru.Base.Text.{text_leb}
use glass_guru.Dict.{Dict, get, put, values}
use glass_guru.Model.Plan.{PlanVersion}
use glass_guru.Store.Files.{Json, strip}

-- The directory: the text of HEAD, and that of `{id}.json` under each id.
pub record Directory (Text : Type 0) : Type 0 where
  pub head_file : Option String
  pub versions : Dict String Text

-- A commit stores the version, or raises `PlanConflict`.
pub data Commit (Text : Type 0) : Type 0 where
  committed : Directory Text → Commit Text
  conflict : (expected actual : Option String) → Commit Text

-- the order of the sort key, `(p.created_at, p.id)`
unfoldable pub plan_leb : PlanVersion → PlanVersion → Bool
plan_leb p q =
    if p.created_at == q.created_at then text_leb p.id q.id else ltb p.created_at q.created_at

module _ (json : Json PlanVersion) where
  open json use {Text, dump, load}

  -- JsonPlanStore.get
  unfoldable pub version : Directory Text → String → Option PlanVersion
  version s plan_id = Option.map load (get s.versions plan_id)

  -- JsonPlanStore.head
  unfoldable pub head : Directory Text → Option PlanVersion
  unfolding version
  head s = elim s.head_file [ none ↦ none | some text ↦ version s (strip text) ]

  -- JsonPlanStore.history
  unfoldable pub history : Directory Text → List PlanVersion
  history s = sorted plan_leb (map load (values s.versions))

  -- `self.get(current.parent_id) if current.parent_id else None`
  unfoldable pub parent_of : Directory Text → PlanVersion → Option PlanVersion
  unfolding version
  parent_of s p = elim p.parent_id [
    | none ↦ none
    | some parent ↦ if parent == "" then none else version s parent
  ]

  -- the loop of ancestry, for as many rounds as there are versions
  unfoldable pub chain :
      Directory Text → ℕ → (seen : List String) → (current : Option PlanVersion) → List PlanVersion
  unfolding parent_of
  chain s zero seen current = []
  chain s (suc rounds) seen none = []
  chain s (suc rounds) seen (some p) =
      let rest = chain s rounds (p.id ∷ seen) (parent_of s p) in
      if mem p.id seen then [] else p ∷ rest

  -- `self.get(plan_id) if plan_id else self.head()`
  unfoldable pub first_of : Directory Text → Option String → Option PlanVersion
  unfolding head version
  first_of s none = head s
  first_of s (some plan_id) = if plan_id == "" then head s else version s plan_id

  -- JsonPlanStore.ancestry
  unfoldable pub ancestry : Directory Text → Option String → List PlanVersion
  unfolding chain first_of
  ancestry s plan_id = chain s (length s.versions) [] (first_of s plan_id)

  -- `current.id if current else None`
  unfoldable pub head_id : Directory Text → Option String
  unfolding head
  head_id s = Option.map (λ (p : PlanVersion). p.id) (head s)

  -- JsonPlanStore.commit
  unfoldable pub commit : Directory Text → PlanVersion → Option String → Commit Text
  unfolding head_id
  commit s plan expected_parent =
      if head_id s == expected_parent
      then committed
          record { head_file = some plan.id; versions = put s.versions plan.id (dump plan) }
      else conflict expected_parent (head_id s)
