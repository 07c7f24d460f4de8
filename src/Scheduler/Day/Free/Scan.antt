-- ===== src/Scheduler/Day/Free/Scan.antt =====
-- What the loop over intervals in order finds.
use glass_guru.Base.{
  ℕ, ◌-◌, ◌≤◌, ◌<◌, ◌≡◌, ◌⊎◌, refl, max, Option, none, some, List, [], ◌∷◌, All, All-map, Any,
  Pairs, Bool-cases, inl, inr, arith, ltb, ◌&&◌, if◌then◌else◌,
}
use glass_guru.Scheduler.Day.Free.{Interval, longer, scan}

-- The interval `[c, d)` has no minute of the other one.
abbrev pub IsApart : ℕ → ℕ → Interval → Type 0
IsApart c d p = (p.1 ≤ c) ⊎ (d ≤ p.0)

abbrev pub IsFree : ℕ → ℕ → List Interval → Type 0
IsFree c d = All (IsApart c d)

-- The intervals begin one after the other, end after they begin or then, and begin by a last minute.
abbrev pub InTurn : ℕ → List Interval → Type 0
InTurn last ps =
    Pairs (λ (p q : Interval). p.0 ≤ q.0) ps × All (λ (p : Interval). (p.0 ≤ p.1) × (p.0 ≤ last)) ps

-- A result is the best one from before, or a free interval after the cursor.
abbrev pub Found : ℕ → ℕ → List Interval → Option Interval → Option Interval → Type 0
Found cursor last ps best none = best ≡ none
Found cursor last ps best (some (a, b)) =
    (best ≡ some (a, b)) ⊎ ((cursor ≤ a) × (a < b) × (b ≤ last) × IsFree a b ps)

module _ (cursor last lo hi : ℕ) (rest : List Interval) where
  Found-new :
      (best r : Option Interval)
      → cursor < lo
      → lo ≤ last
      → All (λ (q : Interval). lo ≤ q.0) rest
      → Found (max cursor hi) last rest (some (cursor, lo)) r
      → Found cursor last ((lo, hi) ∷ rest) best r
  Found-new best none l q later h = absurd (cc)
  Found-new best (some (a, b)) l q later (inl e) =
      let is_a : cursor ≡ a = ground arith in
      let is_b : lo ≡ b = ground arith in
      let free =
        All-map _ (λ (x : Interval). (x.1 ≤ a) ⊎ (b ≤ x.0)) (λ x m. inr (omega arith)) rest later in
      inr (omega arith, omega arith, omega arith, (inr (omega arith), free))
  Found-new best (some (a, b)) l q later (inr h) =
      inr (omega arith, h.1, h.2, (inl (omega arith), h.3))

  Found-keep :
      (best r : Option Interval)
      → Found (max cursor hi) last rest best r
      → Found cursor last ((lo, hi) ∷ rest) best r
  Found-keep best none h = h
  Found-keep best (some (a, b)) (inl e) = inl e
  Found-keep best (some (a, b)) (inr h) = inr (omega arith, h.1, h.2, (inl (omega arith), h.3))

  Found-next :
      (best r : Option Interval)
      → lo ≤ last
      → All (λ (q : Interval). lo ≤ q.0) rest
      → Found
          (max cursor hi)
          last
          rest
          (if ltb cursor lo && longer (lo - cursor) best then some (cursor, lo) else best)
          r
      → Found cursor last ((lo, hi) ∷ rest) best r
  Found-next best r q later h = elim (Bool-cases (ltb cursor lo && longer (lo - cursor) best)) [
    | inl new ↦ Found-new best r (ground arith) q later (rw new at h)
    | inr keep ↦ Found-keep best r (rw keep at h)
  ]

pub scan-Found :
    (cursor last : ℕ) (best : Option Interval) (ps : List Interval)
    → InTurn last ps
    → Found cursor last ps best (scan cursor best ps)
unfolding scan
scan-Found cursor last none [] h = refl
scan-Found cursor last (some p) [] h = inl refl
scan-Found cursor last best ((lo, hi) ∷ rest) h =
    Found-next cursor last lo hi rest best _ h.1.0.1 h.0.0
      (scan-Found (max cursor hi) last _ rest (h.0.1, h.1.1))

-- A length, or more.
abbrev pub AtLeast : ℕ → Option Interval → Type 0
AtLeast n none = ⊥
AtLeast n (some (a, b)) = n ≤ b - a

AtLeast-le : (m n : ℕ) (o : Option Interval) → m ≤ n → AtLeast n o → AtLeast m o
AtLeast-le m n none l h = h
AtLeast-le m n (some (a, b)) l h = omega arith

module _ (cursor lo : ℕ) where
  pick-grows :
      (n : ℕ) (best : Option Interval)
      → AtLeast n best
      → AtLeast n (if ltb cursor lo && longer (lo - cursor) best then some (cursor, lo) else best)
  pick-grows n none h = absurd h
  pick-grows n (some (a, b)) h = elim (Bool-cases (ltb cursor lo && ltb (b - a) (lo - cursor))) [
    | inl new ↦ rw new (ground arith)
    | inr keep ↦ rw keep h
  ]

  pick-gap :
      (best : Option Interval)
      → cursor < lo
      → AtLeast
          (lo - cursor)
          (if ltb cursor lo && longer (lo - cursor) best then some (cursor, lo) else best)
  pick-gap none l = elim (Bool-cases (ltb cursor lo)) [
    | inl less ↦ rw less (omega arith)
    | inr not_less ↦ absurd (ground arith)
  ]
  pick-gap (some (a, b)) l = elim (Bool-cases (ltb cursor lo && ltb (b - a) (lo - cursor))) [
    | inl new ↦ rw new (omega arith)
    | inr keep ↦ rw keep (ground arith)
  ]

scan-grows :
    (n cursor : ℕ) (best : Option Interval) (ps : List Interval)
    → AtLeast n best
    → AtLeast n (scan cursor best ps)
unfolding scan
scan-grows n cursor best [] h = h
scan-grows n cursor best ((lo, hi) ∷ rest) h =
    scan-grows n (max cursor hi) _ rest (pick-grows cursor lo n best h)

-- No free interval after the cursor, and before the start of some interval, is longer.
pub scan-longest :
    (cursor last c d : ℕ) (best : Option Interval) (ps : List Interval)
    → InTurn last ps
    → cursor ≤ c
    → c < d
    → IsFree c d ps
    → Any (λ (p : Interval). d ≤ p.0) ps
    → AtLeast (d - c) (scan cursor best ps)
unfolding scan
scan-longest cursor last c d best [] h l m f a = absurd a
scan-longest cursor last c d best ((lo, hi) ∷ rest) h l m (inr before, f) a =
    scan-grows (d - c) (max cursor hi) _ rest
      (AtLeast-le (d - c) (lo - cursor) _ (omega arith) (pick-gap cursor lo best (omega arith)))
scan-longest cursor last c d best ((lo, hi) ∷ rest) h l m (inl past, f) (inl a) =
    let ordered = h.1.0.0 in absurd (omega arith)
scan-longest cursor last c d best ((lo, hi) ∷ rest) h l m (inl past, f) (inr a) =
    scan-longest (max cursor hi) last c d _ rest (h.0.1, h.1.1) (omega arith) m f a
