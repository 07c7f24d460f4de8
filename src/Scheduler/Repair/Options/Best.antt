-- ===== src/Scheduler/Repair/Options/Best.antt =====
-- The recommended candidate.
use glass_guru.Base.{
  ◌≤◌, ◌≡◌, ◌⊎◌, refl, sym, ◌∙◌, true, false, some, List, [], ◌∷◌, All, Member, Bool-cases, inl,
  inr, arith, nat_eq, if◌then◌else◌,
}
use glass_guru.Scheduler.Repair.Options.{
  RepairCandidate, RepairOptions, changes, customer_calls, jobs_served, key_ltb, least,
  best_by_fewest_calls,
}

-- The first is at least as good: it takes fewer calls, or as many and serves more jobs, or as many of
-- both and changes no more.
abbrev pub NoWorse : RepairCandidate → RepairCandidate → Type 0
NoWorse a b =
    (customer_calls a ≤ customer_calls b)
    × (customer_calls a ≡ customer_calls b → jobs_served b ≤ jobs_served a)
    × (customer_calls a ≡ customer_calls b → jobs_served a ≡ jobs_served b → changes a ≤ changes b)

NoWorse-self : (a : RepairCandidate) → NoWorse a a
NoWorse-self a = (omega arith, λ e. omega arith, λ e f. omega arith)

NoWorse-trans : (a b c : RepairCandidate) → NoWorse a b → NoWorse b c → NoWorse a c
NoWorse-trans a b c h k = ground arith

key_ltb-NoWorse : (a b : RepairCandidate) → key_ltb a b ≡ true → NoWorse a b
unfolding key_ltb
key_ltb-NoWorse a b h = ground arith

not_key_ltb-NoWorse : (a b : RepairCandidate) → key_ltb a b ≡ false → NoWorse b a
unfolding key_ltb
not_key_ltb-NoWorse a b h = ground arith

-- The one that is kept of two.
chosen :
    (best c : RepairCandidate)
    → (((if key_ltb c best then c else best) ≡ c) ⊎ ((if key_ltb c best then c else best) ≡ best))
      × NoWorse (if key_ltb c best then c else best) best
      × NoWorse (if key_ltb c best then c else best) c
chosen best c = elim (Bool-cases (key_ltb c best)) [
  | inl better ↦ rw better (inl refl, key_ltb-NoWorse c best better, NoWorse-self c)
  | inr worse ↦ rw worse (inr refl, NoWorse-self best, not_key_ltb-NoWorse c best worse)
]

least-NoWorse :
    (best : RepairCandidate) (cs : List RepairCandidate)
    → Member (least best cs) (best ∷ cs) × All (NoWorse (least best cs)) (best ∷ cs)
unfolding least
least-NoWorse best [] = (inl refl, (NoWorse-self best, tt))
least-NoWorse best (c ∷ cs) =
    let (is_one, below_best, below_c) = chosen best c in
    let next = if key_ltb c best then c else best in
    let (m, h) = least-NoWorse next cs in
    let last = least next cs in
    (
      elim m [
        | inl e ↦ elim is_one [ inl f ↦ inr (inl (sym f ∙ e)) | inr f ↦ inl (sym f ∙ e) ]
        | inr n ↦ inr (inr n)
      ],
      (NoWorse-trans last next best h.0 below_best, (NoWorse-trans last next c h.0 below_c, h.1)),
    )

-- Of any repaired candidates, the first one given apart, one is recommended, and it is no worse
-- than any of them: none takes fewer calls to customers, of those with as few calls none serves more
-- jobs, and of those that serve as many none changes less.
pub best_by_fewest_calls_least :
    (o : RepairOptions) (c : RepairCandidate) (cs : List RepairCandidate)
    → o.candidates ≡ c ∷ cs
    → (best : RepairCandidate) × (best_by_fewest_calls o ≡ some best)
      × Member best o.candidates
      × All (NoWorse best) o.candidates
unfolding best_by_fewest_calls
best_by_fewest_calls_least o c cs e =
    let (m, h) = least-NoWorse c cs in
    (least c cs, rw (e, best_by_fewest_calls) refl, rw e m, rw e h)
