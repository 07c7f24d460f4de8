-- ===== src/Agents/Triage/Recorded.antt =====
-- The events of a note say what its items say.
use glass_guru.Base.{
  ℕ, zero, suc, String, ◌≡◌, refl, sym, subst, if◌then◌else◌, not, ◌&&◌, Option, none, some, List,
  [], ◌∷◌, Option-cases, Bool-cases, inl, inr, string_eq, nat_eq, ◌==◌,
}
use glass_guru.Model.Units.{Moment}
use glass_guru.Model.Units.Int.{ℤ, pos, negsuc}
use glass_guru.Events.{Body}
use glass_guru.Agents.Events.{
  EventKind, Made, envelope, build_event, build_body, require, positive, positive_ratio, from_of,
  until_of,
}
use glass_guru.Agents.Triage.{
  TriagedEvent, Fate, Sorted, Desk, known_target, target_of, arguments, moment, fate, fate_of,
  note_fate, sort_items,
}
use glass_guru.Agents.Triage.Statement.{IsTime, IsEnd, Says, IsEventOf, AreEventsOf}

module _ (desk : Desk) (item : TriagedEvent) where
  moment-IsTime : (clock : String) → IsTime desk clock (moment desk clock)
  unfolding moment
  moment-IsTime clock = elim (Bool-cases (clock == "")) [
    | inl blank ↦ inl ((string_eq.equals_iff clock "").0 blank, rw (blank, moment) refl)
    | inr typed ↦ elim (Option-cases (desk.on_clock clock)) [
      | inl unread ↦ inr (inl (unread, rw (typed, unread, moment) refl))
      | inr (t, read) ↦ inr (
          inr (
            λ e. absurd (cc ((string_eq.equals_iff clock "").1 e, typed)),
            rw (typed, read, moment) refl,
          ))
    ]
  ]

  IsTime-IsEnd :
      (clock : String) (t : Moment)
      → IsTime desk clock t
      → IsEnd desk clock (if clock == "" then none else some t)
  IsTime-IsEnd clock t h = elim (Bool-cases (clock == "")) [
    | inl blank ↦ rw blank ((string_eq.equals_iff clock "").0 blank)
    | inr typed ↦ rw typed (λ e. absurd (cc ((string_eq.equals_iff clock "").1 e, typed)), h)
  ]

  until-IsEnd : IsEnd desk item.until (arguments desk item).until
  unfolding arguments
  until-IsEnd = IsTime-IsEnd item.until (moment desk item.until) (moment-IsTime item.until)

  same_until :
      (o : Option Moment) → elim o as (λ _. Option Moment) [ none ↦ none | some t ↦ some t ] ≡ o
  same_until none = refl
  same_until (some t) = refl

  until_of-IsEnd : IsEnd desk item.until (until_of (arguments desk item))
  unfolding until_of arguments
  until_of-IsEnd =
      subst (IsEnd desk item.until) (sym (same_until (arguments desk item).until)) until-IsEnd

  -- What is built, if anything is, says it.
  SaysIt : Made Body → Type 0
  SaysIt (Made.made body) = Says desk item (moment desk item.clock) body
  SaysIt (Made.refused e) = Unit

  minutes-SaysIt :
      (minutes : Option ℤ) (name : String) (body : ℕ → Body)
      → ((n : ℕ) → minutes ≡ some (pos n) → Says desk item (moment desk item.clock) (body n))
      → SaysIt (require minutes "--minutes" (λ m. positive m name (λ n. Made.made (body n))))
  unfolding require positive SaysIt
  minutes-SaysIt none name body h = tt
  minutes-SaysIt (some (pos zero)) name body h = tt
  minutes-SaysIt (some (pos (suc n))) name body h = h (suc n) refl
  minutes-SaysIt (some (negsuc n)) name body h = tt

  delay-SaysIt :
      (target : Option String)
      → item.kind ≡ EventKind.traffic_delay
      → SaysIt (build_body EventKind.traffic_delay target (arguments desk item))
  unfolding build_body require positive_ratio SaysIt arguments
  delay-SaysIt target k = elim (Option-cases item.multiplier) [
    | inl absent ↦ rw (absent, build_body, require) tt
    | inr (r, there) ↦ elim (Bool-cases (r.num == 0)) [
      | inl zero_rate ↦ rw (there, build_body, require) (rw (zero_rate, positive_ratio) tt)
      | inr fine ↦
          rw (there, build_body, require)
            (rw (fine, positive_ratio) (k, refl, refl, until-IsEnd, refl))
    ]
  ]

  named-SaysIt :
      (kind : EventKind)
      → item.kind ≡ kind
      → SaysIt (build_body kind (some item.target) (arguments desk item))
  unfolding build_body require SaysIt from_of arguments
  named-SaysIt EventKind.van_unavailable k = (k, refl, refl, until_of-IsEnd, refl)
  named-SaysIt EventKind.van_restored k = (k, refl, refl, refl)
  named-SaysIt EventKind.worker_unavailable k = (k, refl, refl, until_of-IsEnd, refl)
  named-SaysIt EventKind.worker_restored k = (k, refl, refl, refl)
  named-SaysIt EventKind.job_dispatched k = (k, refl)
  named-SaysIt EventKind.job_cancelled k = (k, refl, refl)
  named-SaysIt EventKind.job_overran k =
      minutes-SaysIt item.minutes "extra_minutes" (Body.job_overran item.target)
        (λ n m. (k, refl, m))
  named-SaysIt EventKind.job_completed k =
      minutes-SaysIt item.minutes "actual_duration_min" (Body.job_completed item.target)
        (λ n m. (k, refl, m))
  named-SaysIt EventKind.traffic_delay k = delay-SaysIt (some item.target) k

  unnamed-SaysIt :
      (kind : EventKind) → item.kind ≡ kind → SaysIt (build_body kind none (arguments desk item))
  unfolding build_body require SaysIt
  unnamed-SaysIt EventKind.van_unavailable k = tt
  unnamed-SaysIt EventKind.van_restored k = tt
  unnamed-SaysIt EventKind.worker_unavailable k = tt
  unnamed-SaysIt EventKind.worker_restored k = tt
  unnamed-SaysIt EventKind.job_dispatched k = tt
  unnamed-SaysIt EventKind.job_cancelled k = tt
  unnamed-SaysIt EventKind.job_overran k = tt
  unnamed-SaysIt EventKind.job_completed k = tt
  unnamed-SaysIt EventKind.traffic_delay k = delay-SaysIt none k

  target_of-SaysIt : SaysIt (build_body item.kind (target_of item) (arguments desk item))
  unfolding target_of
  target_of-SaysIt = elim (Bool-cases (item.target == "")) [
    | inl blank ↦ rw (blank, target_of) (unnamed-SaysIt item.kind refl)
    | inr named ↦ rw (named, target_of) (named-SaysIt item.kind refl)
  ]

  -- What becomes of the item, if it is recorded, is its event.
  IsFateOf : ℕ → Fate → Type 0
  IsFateOf index (Fate.recorded e) = IsEventOf desk index item e
  IsFateOf index _ = Unit

  built-IsFateOf :
      (index : ℕ) (m : Made Body)
      → SaysIt m
      → IsFateOf index (
          fate_of item (elim m [
            | Made.refused e ↦ Made.refused e
            | Made.made body ↦ Made.made (record {
              base = envelope (desk.fresh_id index) (moment desk item.clock) desk.dispatch_id;
              body = body;
            })
          ]))
  unfolding SaysIt IsFateOf fate_of envelope
  built-IsFateOf index (Made.made body) h = (refl, refl, moment-IsTime item.clock, refl, h)
  built-IsFateOf index (Made.refused e) h = tt

  fate-IsFateOf : (index : ℕ) → IsFateOf index (fate desk index item)
  unfolding fate build_event arguments IsFateOf
  fate-IsFateOf index =
      elim (Bool-cases
        (not (item.target == "") && not (known_target desk.world item.kind item.target))) [
          | inl stranger ↦ rw (stranger, fate) tt
          | inr fine ↦
              rw (fine, fate)
                (built-IsFateOf index (build_body item.kind (target_of item) (arguments desk item))
                  target_of-SaysIt)
        ]

note_fate-AreEventsOf :
    (desk : Desk) (index : ℕ) (item : TriagedEvent) (items : List TriagedEvent) (x : Fate)
    (s : Sorted)
    → IsFateOf desk item index x
    → (note_fate x s).unknown_targets ≡ []
    → (note_fate x s).rejections ≡ []
    → (s.unknown_targets ≡ [] → s.rejections ≡ [] → AreEventsOf desk (suc index) items s.events)
    → AreEventsOf desk index (item ∷ items) (note_fate x s).events
unfolding note_fate IsFateOf
note_fate-AreEventsOf desk index item items (Fate.recorded e) s here h k rest = (here, rest h k)
note_fate-AreEventsOf desk index item items (Fate.unknown u) s here h k rest = absurd (cc)
note_fate-AreEventsOf desk index item items (Fate.rejected r) s here h k rest = absurd (cc)

-- When nothing is left over, each item has its event.
pub sort_items-AreEventsOf :
    (desk : Desk) (index : ℕ) (items : List TriagedEvent)
    → (sort_items desk index items).unknown_targets ≡ []
    → (sort_items desk index items).rejections ≡ []
    → AreEventsOf desk index items (sort_items desk index items).events
unfolding sort_items note_fate
sort_items-AreEventsOf desk index [] h k = tt
sort_items-AreEventsOf desk index (item ∷ items) h k =
    note_fate-AreEventsOf desk index item items (fate desk index item)
      (sort_items desk (suc index) items) (fate-IsFateOf desk item index) h k
      (sort_items-AreEventsOf desk (suc index) items)
