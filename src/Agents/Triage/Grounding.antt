-- ===== src/Agents/Triage/Grounding.antt =====
-- What triage records is of things on record, and nothing that a note says is lost.
use glass_guru.Base.{
  ℕ, suc, String, ◌≡◌, refl, sym, ap, ◌∙◌, Bool, ◌||◌, not, true, false, Option, none, some, List,
  [], ◌∷◌, All, Option-cases, Bool-cases, inl, inr, arith, string_eq, nat_eq, ◌==◌,
}
use glass_guru.World.State.{WorldState}
use glass_guru.Events.{Event}
use glass_guru.Agents.Structured.{Extraction, Model, escalated, extract}
use glass_guru.Agents.Events.{Made, build_event}
use glass_guru.Agents.Triage.{
  TriagedEvent, TriageOutcome, TriageResult, Fate, Sorted, Desk, known_target, target_of, arguments,
  note_fate, is_asked, is_blank, Question, Rejection, fate, fate_of, sort_items, read_value,
  read_note, triage, needs_dispatcher,
}
use glass_guru.Agents.Triage.Statement.{AreEventsOf}
use glass_guru.Agents.Triage.Recorded.{sort_items-AreEventsOf}
use glass_guru.Agents.Triage.Built.{
  IsOnRecord, IsFair, build_body-IsGrounded, unnamed-IsGrounded, build_event-IsFair,
}

abbrev IsFairFate : WorldState → Fate → Type 0
IsFairFate world (Fate.recorded e) = IsOnRecord world e.body
IsFairFate world _ = Unit

fate_of-IsFairFate :
    (world : WorldState) (item : TriagedEvent) (m : Made Event)
    → IsFair world m
    → IsFairFate world (fate_of item m)
unfolding fate_of
fate_of-IsFairFate world item (Made.made e) h = h
fate_of-IsFairFate world item (Made.refused e) h = tt

fate-IsFairFate :
    (desk : Desk) (index : ℕ) (item : TriagedEvent) → IsFairFate desk.world (fate desk index item)
unfolding fate target_of
fate-IsFairFate desk index item =
    let args = arguments desk item in
    let built = λ (target : Option String).
      build_event-IsFair desk.world (desk.fresh_id index) desk.dispatch_id item.kind target args in
    elim (Bool-cases (item.target == "")) [
      | inl unnamed ↦
          rw (unnamed, fate, target_of)
            (fate_of-IsFairFate desk.world item
              (build_event (desk.fresh_id index) desk.dispatch_id item.kind none args)
              (built none (unnamed-IsGrounded desk.world item.kind args)))
      | inr named ↦ elim (Bool-cases (known_target desk.world item.kind item.target)) [
        | inl known ↦
            rw (named, fate, target_of)
              (rw (known, fate)
                (fate_of-IsFairFate desk.world item
                  (build_event (desk.fresh_id index) desk.dispatch_id item.kind (some item.target)
                    args)
                  (built (some item.target)
                    (build_body-IsGrounded desk.world item.kind item.target args known))))
        | inr stranger ↦ rw (named, fate, target_of) (rw (stranger, fate) tt)
      ]
    ]

-- The events are of things on record.
abbrev AreOnRecord : WorldState → Sorted → Type 0
AreOnRecord world s = All (λ e. IsOnRecord world e.body) s.events

note_fate-AreOnRecord :
    (world : WorldState) (x : Fate) (s : Sorted)
    → IsFairFate world x
    → AreOnRecord world s
    → AreOnRecord world (note_fate x s)
unfolding note_fate
note_fate-AreOnRecord world (Fate.recorded e) s h k = (h, k)
note_fate-AreOnRecord world (Fate.unknown u) s h k = k
note_fate-AreOnRecord world (Fate.rejected r) s h k = k

sort_items-AreOnRecord :
    (desk : Desk) (index : ℕ) (items : List TriagedEvent)
    → AreOnRecord desk.world (sort_items desk index items)
unfolding sort_items
sort_items-AreOnRecord desk index [] = tt
sort_items-AreOnRecord desk index (item ∷ items) =
    note_fate-AreOnRecord desk.world (fate desk index item) (sort_items desk (suc index) items)
      (fate-IsFairFate desk index item) (sort_items-AreOnRecord desk (suc index) items)

quiet_lists :
    (q : Question) (us : List String) (rs : List Rejection) (b : Bool)
    → (is_asked q || not (is_blank us) || not (is_blank rs) || b) ≡ false
    → (is_asked q ≡ false) × (us ≡ []) × (rs ≡ []) × (b ≡ false)
quiet_lists q [] [] b h = (ground arith, refl, refl, ground arith)
quiet_lists q (u ∷ us) rs b h = absurd (ground arith)
quiet_lists q [] (r ∷ rs) b h = absurd (ground arith)

quiet_parts :
    (r : TriageResult)
    → needs_dispatcher r ≡ false
    → (is_asked r.question ≡ false)
      × (r.unknown_targets ≡ [])
      × (r.rejected ≡ [])
      × (escalated r.extraction ≡ false)
unfolding needs_dispatcher
quiet_parts r h = quiet_lists r.question r.unknown_targets r.rejected (escalated r.extraction) h

not_escalated :
    (x : Extraction TriageOutcome)
    → escalated x ≡ false
    → (outcome : TriageOutcome) × (x.value ≡ some outcome)
unfolding escalated
not_escalated x h = elim (Option-cases x.value) [
  | inl absent ↦ let t : escalated x ≡ true = rw (absent, escalated) refl in absurd (cc)
  | inr there ↦ there
]

read_value-extraction :
    (desk : Desk) (x : Extraction TriageOutcome) (v : Option TriageOutcome)
    → (read_value desk x v).extraction ≡ x
unfolding read_value
read_value-extraction desk x none = refl
read_value-extraction desk x (some outcome) = refl

read_note-AreEventsOf :
    (desk : Desk) (x : Extraction TriageOutcome) (outcome : TriageOutcome)
    → x.value ≡ some outcome
    → (read_note desk x).unknown_targets ≡ []
    → (read_note desk x).rejected ≡ []
    → AreEventsOf desk 0 outcome.events (read_note desk x).events
unfolding read_note read_value
read_note-AreEventsOf desk x outcome there h k =
    rw there (sort_items-AreEventsOf desk 0 outcome.events (rw there at h) (rw there at k))

read_value-IsOnRecord :
    (desk : Desk) (x : Extraction TriageOutcome) (v : Option TriageOutcome)
    → All (λ e. IsOnRecord desk.world e.body) (read_value desk x v).events
unfolding read_value
read_value-IsOnRecord desk x none = tt
read_value-IsOnRecord desk x (some outcome) = sort_items-AreOnRecord desk 0 outcome.events

all_recorded :
    (desk : Desk) (x : Extraction TriageOutcome)
    → needs_dispatcher (read_note desk x) ≡ false
    → (outcome : TriageOutcome) × (x.value ≡ some outcome)
      × AreEventsOf desk 0 outcome.events (read_note desk x).events
unfolding read_note
all_recorded desk x h =
    let r = read_note desk x in
    let (no_question, no_unknown, no_rejected, answered) = quiet_parts r h in
    let (outcome, there) =
      not_escalated x (ap escalated (sym (read_value-extraction desk x x.value)) ∙ answered) in
    (outcome, there, read_note-AreEventsOf desk x outcome there no_unknown no_rejected)

module _ {Payload : Type 0} (model : Model Payload TriageOutcome) where
  -- Whatever the model answers, the events that triage records are of vans, workers and jobs that are
  -- on record; a delay of the traffic names none.
  pub triage-IsOnRecord :
      (desk : Desk) (text : String) (max_attempts : ℕ)
      → All (λ e. IsOnRecord desk.world e.body) (triage model desk text max_attempts).events
  unfolding triage read_note
  triage-IsOnRecord desk text max_attempts =
      let x = extract model text max_attempts in read_value-IsOnRecord desk x x.value

  -- A note that needs no dispatcher was read, and the events are those of the items that the model
  -- found in it, one for each and in their order: with the id that was drawn for the item, of the time
  -- that it names, or else of when the note was typed, and of the kind, the target, the end, the
  -- minutes or multiplier and the reason that it states.
  pub unattended_note_recorded :
      (desk : Desk) (text : String) (max_attempts : ℕ)
      → needs_dispatcher (triage model desk text max_attempts) ≡ false
      → (outcome : TriageOutcome) × ((extract model text max_attempts).value ≡ some outcome)
        × AreEventsOf desk 0 outcome.events (triage model desk text max_attempts).events
  unfolding triage
  unattended_note_recorded desk text max_attempts h =
      all_recorded desk (extract model text max_attempts) h
