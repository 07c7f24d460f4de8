-- ===== src/Scheduler/Day/Free/Longest.antt =====
-- The interval that is found is free, and no free one is longer.
use glass_guru.Base.{
  ℕ, ◌+◌, ◌-◌, ◌≤◌, ◌<◌, ◌≡◌, refl, subst, Option, none, some, List, [], ◌∷◌, All, Any-append,
  Bool-cases, inl, inr, arith, ltb, false,
}
use glass_guru.Base.Sort.{sorted}
use glass_guru.Model.Units.{Moment, minutes}
use glass_guru.World.Outages.{Unavailability}
use glass_guru.Scheduler.Day.Free.{
  Interval, pair_leb, blocked, merged, largest_free, largest_free_interval,
}
use glass_guru.Scheduler.Day.Free.Scan.{IsFree, AtLeast, Found, scan-Found, scan-longest}
use glass_guru.World.Queries.{is_out}
use glass_guru.Scheduler.Day.Free.Clear.{EndsOnMinute, blocked-IsFree, blocked-IsClear, is_out_iff}
use glass_guru.Scheduler.Day.Free.Merge.{
  IsInside, scanned, blocked-IsInside, scanned-InTurn, scanned-IsFree,
}

same_interval :
    (s e a b : ℕ) → ◌≡◌ {A = Option Interval} (some (s, e)) (some (a, b)) → (s ≡ a) × (e ≡ b)
same_interval s e a b h = (ground arith, ground arith)

AtLeast-some :
    (n : ℕ) (o : Option Interval)
    → AtLeast n o
    → (a : ℕ) × (b : ℕ) × (o ≡ some (a, b)) × (n ≤ b - a)
AtLeast-some n none h = absurd h
AtLeast-some n (some (a, b)) h = (a, b, refl, h)

longest :
    (s e : ℕ) (bs : List Interval)
    → All (IsInside s e) bs
    → (c d : ℕ) → s ≤ c
    → c < d
    → d ≤ e
    → IsFree c d bs
    → (a : ℕ) × (b : ℕ) × (largest_free s e bs ≡ some (a, b)) × (d - c ≤ b - a)
unfolding largest_free
longest s e [] inside c d l m n free = elim (Bool-cases (ltb s e)) [
  | inl some_time ↦ (s, e, rw (some_time, largest_free) refl, omega arith)
  | inr no_time ↦ absurd (ground arith)
]
longest s e (b ∷ bs) inside c d l m n free = AtLeast-some (d - c) _ (
    scan-longest s e c d none (scanned s e (b ∷ bs)) (scanned-InTurn s e (b ∷ bs) inside) l m
      ((scanned-IsFree s e c d (b ∷ bs) m n inside).1 free)
      ((Any-append (λ (p : Interval). d ≤ p.0) (merged (sorted pair_leb (b ∷ bs))) ((e, e) ∷ [])).1
        (inr (inl n))))

only-IsFree :
    (s e : ℕ) (bs : List Interval)
    → All (IsInside s e) bs
    → (a b : ℕ) → largest_free s e bs ≡ some (a, b)
    → (s ≤ a) × (a < b) × (b ≤ e) × IsFree a b bs
unfolding largest_free
only-IsFree s e [] inside a b found = elim (Bool-cases (ltb s e)) [
  | inl some_time ↦
      let (is_a, is_b) = same_interval s e a b (rw (some_time, largest_free) at found) in
      (omega arith, ground arith, omega arith, tt)
  | inr no_time ↦ absurd (ground arith)
]
only-IsFree s e (p ∷ bs) inside a b found =
    let h =
      subst (Found s e (scanned s e (p ∷ bs)) none) found
        (scan-Found s e none (scanned s e (p ∷ bs)) (scanned-InTurn s e (p ∷ bs) inside)) in
    elim h [
      | inl impossible ↦ absurd (cc)
      | inr (l, m, n, free) ↦ (l, m, n, (scanned-IsFree s e a b (p ∷ bs) m n inside).0 free)
    ]

-- An answer of the function, of a span of one day and of outages of which each ends after it began and
-- on a whole minute, lies in the span, has a minute or more, and nobody is out in it, by the outages'
-- own test.
pub largest_free_interval-IsFree :
    (os : List Unavailability) (day_start : Moment) (span_start span_end a b : ℕ)
    → span_end ≤ 1_440
    → All (EndsOnMinute day_start) os
    → largest_free_interval os day_start span_start span_end ≡ some (a, b)
    → (span_start ≤ a)
      × (a < b)
      × (b ≤ span_end)
      × (is_out os (day_start + minutes a) (day_start + minutes b) ≡ false)
unfolding largest_free_interval
largest_free_interval-IsFree os day_start s e a b day ends found =
    let (l, m, n, free) =
      only-IsFree s e (blocked day_start s e os) (blocked-IsInside day_start s e os) a b found in
    let clear = blocked-IsClear day_start s e a b os l m n day ends free in
    (l, m, n, (is_out_iff day_start a b os).1 clear)

longest_found :
    (os : List Unavailability) (day_start : Moment) (s e c d : ℕ)
    → s ≤ c
    → c < d
    → d ≤ e
    → IsFree c d (blocked day_start s e os)
    → (a : ℕ) × (b : ℕ) × (largest_free_interval os day_start s e ≡ some (a, b)) × (d - c ≤ b - a)
unfolding largest_free_interval
longest_found os day_start s e c d l m n free =
    longest s e (blocked day_start s e os) (blocked-IsInside day_start s e os) c d l m n free

-- When nobody is out in some stretch of minutes of a span of one day, by the outages' own test, and each
-- outage ends after it began and on a whole minute, the function answers with a stretch of the span in
-- which nobody is out either, and which takes at least as long.
pub largest_free_interval_longest :
    (os : List Unavailability) (day_start : Moment) (span_start span_end c d : ℕ)
    → span_end ≤ 1_440
    → All (EndsOnMinute day_start) os
    → span_start ≤ c
    → c < d
    → d ≤ span_end
    → is_out os (day_start + minutes c) (day_start + minutes d) ≡ false
    → (a : ℕ) × (b : ℕ) × (largest_free_interval os day_start span_start span_end ≡ some (a, b))
      × (span_start ≤ a)
      × (a < b)
      × (b ≤ span_end)
      × (is_out os (day_start + minutes a) (day_start + minutes b) ≡ false)
      × (d - c ≤ b - a)
largest_free_interval_longest os day_start s e c d day ends l m n free =
    let (a, b, found, long) =
      longest_found os day_start s e c d l m n
        (blocked-IsFree day_start s e c d os ((is_out_iff day_start c d os).0 free)) in
    let (from_a, some_time, to_b, clear) =
      largest_free_interval-IsFree os day_start s e a b day ends found in
    (a, b, found, from_a, some_time, to_b, clear, long)
