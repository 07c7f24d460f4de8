-- ===== src/Scheduler/Day/Free/Merge.antt =====
-- Merging intervals in order keeps what is free of them.
use glass_guru.Base.{
  ℕ, ◌≤◌, ◌<◌, ◌≡◌, ◌↔◌, max, true, List, [], ◌∷◌, ◌++◌, All, All-map, All-append, Pairs, Pairs-map,
  Bool-cases, inl, inr, arith, leb, ltb,
}
use glass_guru.Base.Sort.{sorted}
use glass_guru.Base.Sort.Laws.{All-sorted, sorted-InOrder}
use glass_guru.Model.Units.{Moment}
use glass_guru.World.Outages.{Unavailability}
use glass_guru.Scheduler.Day.Free.{Interval, min, pair_leb, clamped, blocked, merge_from, merged}
use glass_guru.Scheduler.Day.Free.Scan.{IsApart, IsFree, InTurn}

-- Intervals inside the span, that take some time.
abbrev pub IsInside : ℕ → ℕ → Interval → Type 0
IsInside s e p = (s ≤ p.0) × (p.0 < p.1) × (p.1 ≤ e)

abbrev pub Ascending : List Interval → Type 0
Ascending = Pairs (λ (p q : Interval). p.0 ≤ q.0)

min-le : (a b : ℕ) → min a b ≤ a
min-le a b = ground arith

clamped-inside :
    (start : Moment) (s e : ℕ) (o : Unavailability)
    → (s ≤ (clamped start s e o).0) × ((clamped start s e o).1 ≤ e)
unfolding clamped
clamped-inside start s e o = (omega arith, min-le e _)

pub blocked-IsInside :
    (start : Moment) (s e : ℕ) (os : List Unavailability)
    → All (IsInside s e) (blocked start s e os)
unfolding blocked clamped
blocked-IsInside start s e [] = tt
blocked-IsInside start s e (o ∷ os) =
    let (lo, hi) = clamped start s e o in
    let h = clamped-inside start s e o in
    elim (Bool-cases (ltb lo hi)) [
      | inl some_time ↦
          rw (some_time, blocked) ((h.0, ground arith, h.1), blocked-IsInside start s e os)
      | inr no_time ↦ rw (no_time, blocked) (blocked-IsInside start s e os)
    ]

-- An interval of some minutes is apart from two that touch exactly when it is from both as one.
IsApart-both :
    (c d a b lo hi : ℕ)
    → c < d
    → a ≤ lo
    → lo < hi
    → lo ≤ b
    → IsApart c d (a, max b hi) ↔ (IsApart c d (a, b) × IsApart c d (lo, hi))
IsApart-both c d a b lo hi l m n o = ground arith

later_intervals :
    {P : Interval → Type 0} (lo : ℕ) (qs : List Interval)
    → ((q : Interval) → P q → q.0 < q.1)
    → All (λ (q : Interval). lo ≤ q.0) qs
    → All P qs
    → All (λ (q : Interval). (lo ≤ q.0) × (q.0 < q.1)) qs
later_intervals lo [] proper f g = tt
later_intervals lo (q ∷ qs) proper f g = ((f.0, proper q g.0), later_intervals lo qs proper f.1 g.1)

-- Merging keeps what is free.
merge-IsFree :
    (c d a b : ℕ) (ps : List Interval)
    → c < d
    → All (λ (p : Interval). (a ≤ p.0) × (p.0 < p.1)) ps
    → Ascending ps
    → IsFree c d (merge_from (a, b) ps) ↔ IsFree c d ((a, b) ∷ ps)
unfolding merge_from
merge-IsFree c d a b [] l h k = (λ f. f, λ f. f)
merge-IsFree c d a b ((lo, hi) ∷ ps) l h k = elim (Bool-cases (leb lo b)) [
  | inl touch ↦
      let ih = merge-IsFree c d a (max b hi) ps l h.1 k.1 in
      let both = IsApart-both c d a b lo hi l h.0.0 h.0.1 (ground arith) in
      rw (touch, merge_from)
        (
          λ f. let (here, rest) = ih.0 f in let (x, y) = both.0 here in (x, (y, rest)),
          λ f. ih.1 (both.1 (f.0, f.1.0), f.1.1),
        )
  | inr gap ↦
      let ih = merge-IsFree c d lo hi ps l (later_intervals lo ps (λ q g. g.1) k.0 h.1) k.1 in
      rw (gap, merge_from) (λ f. (f.0, ih.0 f.1), λ f. (f.0, ih.1 f.1))
]

module _ (s e : ℕ) where
  merge-InTurn :
      (a b : ℕ) (ps : List Interval)
      → IsInside s e (a, b)
      → All (λ (p : Interval). a ≤ p.0) ps
      → All (IsInside s e) ps
      → Ascending ps
      → InTurn e (merge_from (a, b) ps) × All (λ (p : Interval). a ≤ p.0) (merge_from (a, b) ps)
  unfolding merge_from
  merge-InTurn a b [] h g k m = (((tt, tt), ((omega arith, omega arith), tt)), (omega arith, tt))
  merge-InTurn a b ((lo, hi) ∷ ps) h g k m = elim (Bool-cases (leb lo b)) [
    | inl touch ↦
        rw (touch, merge_from)
          (merge-InTurn a (max b hi) ps (omega arith, omega arith, omega arith) g.1 k.1 m.1)
    | inr gap ↦
        let ((turn, good), above) = merge-InTurn lo hi ps k.0 m.0 k.1 m.1 in
        let after_a = All-map _ (λ (p : Interval). a ≤ p.0) (λ p l. omega arith) _ above in
        rw (gap, merge_from)
          (((after_a, turn), ((omega arith, omega arith), good)), (omega arith, after_a))
  ]

  InTurn-snoc : (ps : List Interval) → InTurn e ps → InTurn e (ps ++ ((e, e) ∷ []))
  InTurn-snoc [] h = ((tt, tt), ((omega arith, omega arith), tt))
  InTurn-snoc (p ∷ ps) h =
      let (turn, good) = InTurn-snoc ps (h.0.1, h.1.1) in
      (
        (
          (All-append (λ (q : Interval). p.0 ≤ q.0) ps ((e, e) ∷ [])).1 (h.0.0, (h.1.0.1, tt)),
          turn,
        ),
        (h.1.0, good),
      )

  -- The intervals that are scanned, and what is free of them.
  abbrev pub scanned : List Interval → List Interval
  scanned bs = merged (sorted pair_leb bs) ++ ((e, e) ∷ [])

  Ascending-sorted : (bs : List Interval) → Ascending (sorted pair_leb bs)
  Ascending-sorted bs =
      Pairs-map (λ p q. pair_leb p q ≡ true) (λ (p q : Interval). p.0 ≤ q.0) (λ p q h. ground arith)
        (sorted pair_leb bs)
        (sorted-InOrder pair_leb (λ p q h. ground arith) (λ p q r h k. ground arith) bs)

  pub scanned-InTurn : (bs : List Interval) → All (IsInside s e) bs → InTurn e (scanned bs)
  unfolding merged
  scanned-InTurn bs h =
      InTurn-snoc _
        (turn (sorted pair_leb bs) ((All-sorted pair_leb _ bs).1 h) (Ascending-sorted bs))
    where
      turn : (ps : List Interval) → All (IsInside s e) ps → Ascending ps → InTurn e (merged ps)
      turn [] h k = (tt, tt)
      turn ((a, b) ∷ ps) h k = (merge-InTurn a b ps h.0 k.0 h.1 k.1).0

  pub scanned-IsFree :
      (c d : ℕ) (bs : List Interval)
      → c < d
      → d ≤ e
      → All (IsInside s e) bs
      → IsFree c d (scanned bs) ↔ IsFree c d bs
  unfolding merged
  scanned-IsFree c d bs l m h =
      let ps = sorted pair_leb bs in
      let keeps =
        merged_free ps ((All-sorted pair_leb (IsInside s e) bs).1 h) (Ascending-sorted bs) in
      let kept = All-sorted pair_leb (IsApart c d) bs in
      let split = All-append (IsApart c d) (merged ps) ((e, e) ∷ []) in
      (λ f. kept.0 (keeps.0 ((split.0 f).0)), λ f. split.1 (keeps.1 (kept.1 f), (inr m, tt)))
    where
      merged_free :
          (ps : List Interval)
          → All (IsInside s e) ps
          → Ascending ps
          → IsFree c d (merged ps) ↔ IsFree c d ps
      merged_free [] g k = (λ f. f, λ f. f)
      merged_free ((a, b) ∷ ps) g k =
          merge-IsFree c d a b ps l (later_intervals a ps (λ q i. i.1) k.0 g.1) k.1
