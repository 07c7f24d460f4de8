-- ===== src/Autonomy.antt =====
-- When the system may change the plan on its own (src/krama/domain/autonomy.py).
pub mod Promises
use glass_guru.Base.{
  ℕ, ◌≤◌, String, ◌≡◌, ◌↔◌, refl, Bool, true, false, not, ◌&&◌, ◌||◌, List, [], ◌∷◌, ◌++◌, ltb,
  length, any, All, Bool-cases, inl, inr, arith, map, ◌==◌, string_eq, if◌then◌else◌,
}
use glass_guru.Model.Units.Int.{ℤ, pos, ltb_ℤ, ◌≤ℤ◌}
use glass_guru.Diff.Changes.{
  BlastRadius, JobChange, PlanDiff, is_visible, is_reassigned, blast_radius,
  customer_visible_changes,
}

pub data Decision : Type 0 where
  auto_apply escalate : Decision

pub record AutonomyPolicy : Type 0 where
  pub max_cost_delta : ℤ
  pub max_changes : ℕ
  pub escalate_new_overtime : Bool

-- The sentences of a decision, with what they print.
pub data Reason : Type 0 where
  need_telling : (count : ℕ) (names : List String) → Reason
  adds_overtime : (added_minutes : ℤ) → Reason
  costs_more : (delta limit : ℤ) → Reason
  too_many_movements : (count limit : ℕ) → Reason
  nothing_changed : Reason
  internal_changes : (count : ℕ) → Reason

pub record AutonomyDecision : Type 0 where
  pub decision : Decision
  pub reasons : List Reason

-- `visible[:3]`
-- AutonomyDecision.auto
abbrev pub is_auto : AutonomyDecision → Bool
is_auto d = elim d.decision [ Decision.auto_apply ↦ true | Decision.escalate ↦ false ]

abbrev pub first_three : List JobChange → List JobChange
first_three (a ∷ b ∷ c ∷ rest) = a ∷ b ∷ c ∷ []
first_three cs = cs

-- `c.customer_name or c.job_id`
abbrev pub name_of : JobChange → String
name_of c = if c.customer_name == "" then c.job_id else c.customer_name

abbrev pub is_customer_visible : BlastRadius → Bool
is_customer_visible BlastRadius.customer_visible = true
is_customer_visible _ = false

abbrev pub reason_if : Bool → Reason → List Reason
reason_if b r = if b then r ∷ [] else []

-- the reasons that stand against applying the change
unfoldable pub blocking : PlanDiff → AutonomyPolicy → ℤ → List Reason
blocking d policy added =
    let visible = customer_visible_changes d in
    reason_if (is_customer_visible (blast_radius d))
      (need_telling (length visible) (map name_of (first_three visible)))
    ++ (reason_if (policy.escalate_new_overtime && ltb_ℤ (pos 0) added) (adds_overtime added)
        ++ (reason_if (ltb_ℤ policy.max_cost_delta d.cost_delta)
              (costs_more d.cost_delta policy.max_cost_delta)
            ++ reason_if (ltb policy.max_changes (length d.changes))
                (too_many_movements (length d.changes) policy.max_changes)))

abbrev pub settle : PlanDiff → List Reason → AutonomyDecision
settle d (r ∷ rs) = record { decision = Decision.escalate; reasons = r ∷ rs }
settle d [] = elim d.changes [
  | [] ↦ record { decision = Decision.auto_apply; reasons = nothing_changed ∷ [] }
  | c ∷ cs ↦ record {
    decision = Decision.auto_apply;
    reasons = internal_changes (length d.changes) ∷ [];
  }
]

-- decide
unfoldable pub decide : PlanDiff → AutonomyPolicy → ℤ → AutonomyDecision
unfolding blocking
decide d policy added = settle d (blocking d policy added)

-- The change may go ahead on its own: no customer would notice, no overtime is added that somebody
-- should agree to, and cost and number of movements keep to the policy's limits.
abbrev pub IsHarmless : PlanDiff → AutonomyPolicy → ℤ → Type 0
IsHarmless d policy added =
    All (λ c. is_visible c ≡ false) d.changes
    × (policy.escalate_new_overtime ≡ true → added ≤ℤ pos 0)
    × (d.cost_delta ≤ℤ policy.max_cost_delta)
    × (length d.changes ≤ policy.max_changes)

settle-auto :
    (d : PlanDiff) (rs : List Reason) → ((settle d rs).decision ≡ Decision.auto_apply) ↔ (rs ≡ [])
settle-auto d [] = (λ h. refl, λ h. auto d.changes)
  where
    auto :
        (cs : List JobChange)
        → (settle (record d { changes = cs }) []).decision ≡ Decision.auto_apply
    auto [] = refl
    auto (c ∷ cs) = refl
settle-auto d (r ∷ rs) = (λ h. absurd (cc), λ h. absurd (cc))

none_visible :
    (cs : List JobChange) → (any is_visible cs ≡ false) ↔ All (λ c. is_visible c ≡ false) cs
none_visible [] = (λ h. tt, λ h. refl)
none_visible (c ∷ cs) = ground (arith, none_visible cs)

visible_iff :
    (d : PlanDiff)
    → (is_customer_visible (blast_radius d) ≡ false) ↔ All (λ c. is_visible c ≡ false) d.changes
unfolding blast_radius
visible_iff d = ground (arith, none_visible d.changes)

four_silent :
    (a b c d : Bool) (q r s t : Reason)
    → (reason_if a q ++ (reason_if b r ++ (reason_if c s ++ reason_if d t)) ≡ [])
      ↔ ((a ≡ false) × (b ≡ false) × (c ≡ false) × (d ≡ false))
four_silent a b c d q r s t = ground arith

overtime_iff :
    (ask : Bool) (added : ℤ)
    → ((ask && ltb_ℤ (pos 0) added) ≡ false) ↔ (ask ≡ true → added ≤ℤ pos 0)
overtime_iff ask added = ground arith

cost_iff : (delta limit : ℤ) → (ltb_ℤ limit delta ≡ false) ↔ (delta ≤ℤ limit)
cost_iff delta limit = ground arith

count_iff : (n limit : ℕ) → (ltb limit n ≡ false) ↔ (n ≤ limit)
count_iff n limit = ground arith

blocking-nil :
    (d : PlanDiff) (policy : AutonomyPolicy) (added : ℤ)
    → (blocking d policy added ≡ []) ↔ IsHarmless d policy added
unfolding blocking
blocking-nil d policy added =
    let silent =
      four_silent (is_customer_visible (blast_radius d))
        (policy.escalate_new_overtime && ltb_ℤ (pos 0) added)
        (ltb_ℤ policy.max_cost_delta d.cost_delta) (ltb policy.max_changes (length d.changes))
        (need_telling (length (customer_visible_changes d))
          (map name_of (first_three (customer_visible_changes d))))
        (adds_overtime added) (costs_more d.cost_delta policy.max_cost_delta)
        (too_many_movements (length d.changes) policy.max_changes) in
    let overtime = overtime_iff policy.escalate_new_overtime added in
    let cost = cost_iff d.cost_delta policy.max_cost_delta in
    let count = count_iff (length d.changes) policy.max_changes in
    (
      λ h.
          let (a, b, c, e) = silent.0 h in ((visible_iff d).0 a, overtime.0 b, cost.0 c, count.0 e),
      λ h. silent.1 ((visible_iff d).1 h.0, overtime.1 h.1, cost.1 h.2, count.1 h.3),
    )

-- A change is applied without asking exactly when no change of the diff is one that a customer would
-- experience, no overtime is added where the policy wants it agreed to, the cost is within the limit
-- and so is the number of movements.
pub decide-auto_iff :
    (d : PlanDiff) (policy : AutonomyPolicy) (added : ℤ)
    → ((decide d policy added).decision ≡ Decision.auto_apply) ↔ IsHarmless d policy added
unfolding decide
decide-auto_iff d policy added =
    let settled = settle-auto d (blocking d policy added) in
    let quiet = blocking-nil d policy added in
    (λ h. quiet.0 (settled.0 h), λ h. settled.1 (quiet.1 h))

pub is_auto-apply : (d : AutonomyDecision) → is_auto d ≡ true → d.decision ≡ Decision.auto_apply
is_auto-apply d h = auto d.decision h
  where
    auto :
        (e : Decision)
        → (elim e as (λ _. Bool) [ Decision.auto_apply ↦ true | Decision.escalate ↦ false ]) ≡ true
        → e ≡ Decision.auto_apply
    auto Decision.auto_apply h = refl
    auto Decision.escalate h = absurd (cc)
