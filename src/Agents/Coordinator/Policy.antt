-- ===== src/Agents/Coordinator/Policy.antt =====
-- The model picks only what the engine made, and can ask for more review, never for less.
use glass_guru.Base.{
  ℕ, String, ◌≡◌, ◌⊎◌, inl, inr, refl, sym, ap, subst, ◌∙◌, true, false, some, List, [], ◌∷◌, All,
  Member, List-cases, Option-cases, Bool-cases, arith, string_eq, ◌==◌,
}
use glass_guru.Dict.{Dict, get, put}
use glass_guru.Dict.Laws.{get-put, get-nil}
use glass_guru.Model.Units.Int.{pos}
use glass_guru.Autonomy.{
  AutonomyPolicy, AutonomyDecision, decide, is_auto, IsHarmless, decide-auto_iff, is_auto-apply,
}
use glass_guru.Scheduler.Repair.Options.{RepairCandidate, RepairOptions}
use glass_guru.Scheduler.Repair.Options.Best.{best_by_fewest_calls_least, NoWorse}
use glass_guru.Agents.Structured.{Extraction, Model, extract}
use glass_guru.Agents.Coordinator.{
  CoordinatorChoice, CoordinatorDecision, StrategyName, strategy_name, by_name, pick, judged,
  no_candidate, settle_choice, choose_repair, needs_human, wants_review,
}

by_name-Member :
    (cs : List RepairCandidate) (d : Dict String RepairCandidate) (k : String) (c : RepairCandidate)
    → get (by_name cs d) k ≡ some c
    → (Member c cs × (c.strategy.name ≡ k)) ⊎ (get d k ≡ some c)
unfolding by_name
by_name-Member [] d k c h = inr h
by_name-Member (b ∷ cs) d k c h = elim (by_name-Member cs (put d b.strategy.name b) k c h) [
  | inl found ↦ inl (inr found.0, found.1)
  | inr there ↦
      let put_here = get-put d b.strategy.name k b in
      elim (Bool-cases (b.strategy.name == k)) [
        | inl same ↦
            let is_b : b ≡ c = ground arith in
            inl (
              inl is_b,
              ap (λ x. x.strategy.name) (sym is_b)
                  ∙ (string_eq.equals_iff b.strategy.name k).0 same,
            )
        | inr other ↦ inr (ground arith)
      ]
]

-- A candidate of the name that was asked for, or one that is no worse than any.
abbrev pub IsPick : RepairOptions → StrategyName → RepairCandidate → Type 0
IsPick o name chosen =
    (chosen.strategy.name ≡ strategy_name name) ⊎ All (NoWorse chosen) o.candidates

pick-IsPick :
    (o : RepairOptions) (c : RepairCandidate) (cs : List RepairCandidate) (name : StrategyName)
    → o.candidates ≡ c ∷ cs
    → (chosen : RepairCandidate) × (pick o name ≡ some chosen)
      × Member chosen o.candidates
      × IsPick o name chosen
unfolding pick
pick-IsPick o c cs name e =
    elim (Option-cases (get (by_name o.candidates []) (strategy_name name))) [
      | inl absent ↦
          let (best, is_best, m, h) = best_by_fewest_calls_least o c cs e in
          (best, rw (absent, pick) is_best, m, inr h)
      | inr (chosen, there) ↦
          let (m, named) : Member chosen o.candidates
              × (chosen.strategy.name ≡ strategy_name name) =
            elim (by_name-Member o.candidates [] (strategy_name name) chosen there) [
              | inl found ↦ found
              | inr from_nil ↦
                  let empty = get-nil {K = String} {V = RepairCandidate} (strategy_name name) in
                  absurd (cc)
            ] in
          (chosen, rw (there, pick) refl, m, inl named)
    ]

-- The decision is for one of the candidates, judged by the policy: for one of the name that the
-- model answered with, or for one that is no worse than any.
abbrev pub IsDecided : RepairOptions → AutonomyPolicy → CoordinatorDecision → Type 0
IsDecided o policy d =
    (chosen : RepairCandidate) × (d.candidate ≡ some chosen)
    × (d.autonomy ≡ some (decide chosen.diff policy (pos 0)))
    × Member chosen o.candidates
    × (All (NoWorse chosen) o.candidates
        ⊎ ((choice : CoordinatorChoice) × (d.extraction.value ≡ some choice)
            × (chosen.strategy.name ≡ strategy_name choice.chosen_strategy)))

settle_choice-IsDecided :
    (o : RepairOptions) (policy : AutonomyPolicy) (x : Extraction CoordinatorChoice)
    (c : RepairCandidate) (cs : List RepairCandidate)
    → o.candidates ≡ c ∷ cs
    → IsDecided o policy (settle_choice o policy x)
unfolding settle_choice judged
settle_choice-IsDecided o policy x c cs e = elim (Option-cases x.value) [
  | inl abstained ↦
      let (best, is_best, m, h) = best_by_fewest_calls_least o c cs e in
      (
        best,
        rw (abstained, settle_choice) is_best,
        rw (abstained, settle_choice) (rw (is_best, judged) refl),
        m,
        inl h,
      )
  | inr (choice, answered) ↦
      let (chosen, is_chosen, m, why) = pick-IsPick o c cs choice.chosen_strategy e in
      (
        chosen,
        rw (answered, settle_choice) is_chosen,
        rw (answered, settle_choice) (rw (is_chosen, judged) refl),
        m,
        elim why [
          | inl named ↦ inr (choice, rw (answered, settle_choice) answered, named)
          | inr best ↦ inl best
        ],
      )
]

needs_human-quiet :
    (d : CoordinatorDecision)
    → needs_human d ≡ false
    → (a : AutonomyDecision) × (d.autonomy ≡ some a)
      × (is_auto a ≡ true)
      × (wants_review d.extraction.value ≡ false)
unfolding needs_human
needs_human-quiet d h = elim (Option-cases d.autonomy) [
  | inl unjudged ↦
      let needed : needs_human d ≡ true = rw (unjudged, needs_human) refl in absurd (cc)
  | inr (a, is_judged) ↦ elim (Option-cases d.candidate) [
    | inl nobody ↦
        let needed : needs_human d ≡ true = rw (is_judged, needs_human) (rw nobody refl) in
        absurd (cc)
    | inr (c, is_chosen) ↦ elim (Bool-cases (is_auto a)) [
      | inl auto ↦
          let asks : needs_human d ≡ wants_review d.extraction.value =
            rw (is_judged, needs_human) (rw is_chosen (rw auto refl)) in
          (a, is_judged, auto, sym asks ∙ h)
      | inr held ↦
          let needed : needs_human d ≡ true =
            rw (is_judged, needs_human) (rw is_chosen (rw held refl)) in
          absurd (cc)
    ]
  ]
]

module _ {Payload : Type 0} (model : Model Payload CoordinatorChoice)
    (brief : RepairOptions → String) where
  -- Of any repaired candidates, the first one given apart, one is chosen and judged by the policy,
  -- whatever the model answers: one whose strategy has the name that the model answered with, or
  -- one that no candidate is better than.
  pub choose_repair-IsDecided :
      (o : RepairOptions) (policy : AutonomyPolicy) (max_attempts : ℕ) (c : RepairCandidate)
      (cs : List RepairCandidate)
      → o.candidates ≡ c ∷ cs
      → IsDecided o policy (choose_repair model brief o policy max_attempts)
  unfolding choose_repair
  choose_repair-IsDecided o policy max_attempts c cs e =
      let answer = extract model (brief o) max_attempts in
      let settled : choose_repair model brief o policy max_attempts
          ≡ settle_choice o policy answer =
        ap (λ xs. elim xs [ [] ↦ no_candidate | x ∷ ys ↦ settle_choice o policy answer ]) e in
      subst (IsDecided o policy) (sym settled) (settle_choice-IsDecided o policy answer c cs e)

  no_candidates :
      (o : RepairOptions) (policy : AutonomyPolicy) (max_attempts : ℕ)
      → o.candidates ≡ []
      → needs_human (choose_repair model brief o policy max_attempts) ≡ true
  unfolding choose_repair needs_human
  no_candidates o policy max_attempts e =
      let answer = extract model (brief o) max_attempts in
      ap
        (λ xs. needs_human (elim xs [ [] ↦ no_candidate | x ∷ ys ↦ settle_choice o policy answer ]))
        e

  -- A decision that needs no person is for one of the candidates, its change is one that the policy
  -- lets go ahead on its own, and the model did not ask for a person: whatever it answers, it
  -- cannot make less review than the policy asks for.
  pub unattended-IsHarmless :
      (o : RepairOptions) (policy : AutonomyPolicy) (max_attempts : ℕ)
      → needs_human (choose_repair model brief o policy max_attempts) ≡ false
      → (chosen : RepairCandidate) × ((choose_repair model brief o policy max_attempts).candidate
          ≡ some chosen)
        × Member chosen o.candidates
        × IsHarmless chosen.diff policy (pos 0)
        × (wants_review (choose_repair model brief o policy max_attempts).extraction.value ≡ false)
  unattended-IsHarmless o policy max_attempts h =
      let (a, is_judged, auto, quiet) =
        needs_human-quiet (choose_repair model brief o policy max_attempts) h in
      elim (List-cases o.candidates) [
        | inl empty ↦ absurd (let needed = no_candidates o policy max_attempts empty in cc)
        | inr (c, cs, e) ↦
            let (chosen, is_chosen, by_policy, m, why) =
              choose_repair-IsDecided o policy max_attempts c cs e in
            let same : decide chosen.diff policy (pos 0) ≡ a = cc in
            (
              chosen,
              is_chosen,
              m,
              (decide-auto_iff chosen.diff policy (pos 0)).0
                  (ap (λ x. x.decision) same ∙ is_auto-apply a auto),
              quiet,
            )
      ]
