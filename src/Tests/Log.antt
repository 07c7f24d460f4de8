-- ===== src/Tests/Log.antt =====
-- A log of the small business, and what the theorems on the fold say of it.
use mathlib.Core.List.{Permᴰ}
use glass_guru.Base.{
  ◌==◌, ℕ, ◌≤◌, ◌<◌, String, ◌≡◌, ◌≢◌, ◌↔◌, refl, sym, ap, ◌∙◌, true, false, none, some, List, [],
  ◌∷◌, inl, inr, arith, string_eq,
}
use glass_guru.Dict.{get, has, put, get_or}
use glass_guru.Model.Units.{Moment}
use glass_guru.Events.{Body, Event, WorkerRestored}
use glass_guru.World.Outages.{Unavailability, carve_outages}
use glass_guru.World.Outages.Laws.{Out, InWindow, Out-carve_outages}
use glass_guru.World.State.{OvertimeOffer, WorldState}
use glass_guru.World.Apply.{apply_body}
use glass_guru.World.Fold.{fold, apply_all}
use glass_guru.World.Fold.Replay.{HasUniqueIds, fold-perm}
use glass_guru.World.Queries.{is_worker_available}
use glass_guru.World.Invariant.{
  IsConsistent, JobAt, WorkerAt, VanAt, AskAt, IsFairOffer, fold-IsConsistent,
}
use glass_guru.Dict.Laws.{Entries-nil, Entries-put}
use glass_guru.World.Jobs.{HasWindows, apply_all-frame, apply_all-HasWindows}
use glass_guru.World.Offers.{first_reply_wins}
use glass_guru.World.Availability.{restored_worker_available, available_iff_free}
use glass_guru.Tests.Data.{
  at, monday, ann, bob, truck, window_job, screen_job, morning, small_world,
}

abbrev pub event : String → ℕ → Body → Event
event id minute body = record {
  base = record {
    event_id = id;
    occurred_at = at minute;
    recorded_at = at minute;
    dispatch_id = "";
    actor = "office";
  };
  body = body;
}

abbrev pub booked : Event
booked = event "e1" 1 (Body.job_requested window_job)

abbrev claimed_late : Event
claimed_late = event "e2" 5 (Body.overtime_claimed "j1" "w2")

abbrev pub extended : Event
extended = event "e3" 9 (
    Body.shift_extended
      record { worker_id = "w1"; on_date = monday; until_time = at 1080; reason = "" })

abbrev pub log : List Event
log = booked ∷ extended ∷ []

abbrev backwards : List Event
backwards = extended ∷ booked ∷ []

ids : {a b : Event} → a ≡ b → a.event_id ≡ b.event_id
ids e = ap (λ (x : Event). x.event_id) e

apart : ◌≢◌ {A = String} "e1" "e3"
apart e = let same : false ≡ true = ap (λ s. s == "e3") e in cc same

log-HasUniqueIds : HasUniqueIds log
log-HasUniqueIds a b (inl p) (inl q) h = sym p ∙ q
log-HasUniqueIds a b (inl p) (inr (inl q)) h = absurd (apart (ids p ∙ h ∙ sym (ids q)))
log-HasUniqueIds a b (inl p) (inr (inr v)) h = absurd v
log-HasUniqueIds a b (inr (inl p)) (inl q) h = absurd (apart (ids q ∙ sym h ∙ sym (ids p)))
log-HasUniqueIds a b (inr (inl p)) (inr (inl q)) h = sym p ∙ q
log-HasUniqueIds a b (inr (inl p)) (inr (inr v)) h = absurd v
log-HasUniqueIds a b (inr (inr v)) n h = absurd v

small_world-IsConsistent : IsConsistent small_world
unfolding put
small_world-IsConsistent = (
  Entries-put JobAt _ "j2" screen_job refl
      (Entries-put JobAt [] "j1" window_job refl (Entries-nil JobAt)),
  Entries-put WorkerAt _ "w2" bob refl
      (Entries-put WorkerAt [] "w1" ann refl (Entries-nil WorkerAt)),
  Entries-put VanAt [] "v1" truck refl (Entries-nil VanAt),
  Entries-nil IsFairOffer,
  Entries-nil AskAt,
)

fold-perm_example : fold log none ≡ fold backwards none
fold-perm_example = fold-perm none (Permᴰ.swap refl refl) log-HasUniqueIds

fold-IsConsistent_example : IsConsistent (fold log none)
fold-IsConsistent_example = fold-IsConsistent log none

abbrev offer : OvertimeOffer
offer = record {
  job_id = "j1";
  on_date = monday;
  offered_to = "w1" ∷ "w2" ∷ [];
  fallback = "w1";
  overtime_minutes = 30;
  claim_deadline = at 600;
  claimed_by = none;
}

abbrev taken : OvertimeOffer
taken = record offer { claimed_by = some "w1" }

abbrev taken_world : WorldState
taken_world = record small_world { overtime_offers = ("j1", taken) ∷ [] }

first_reply_wins_example :
    get (apply_all taken_world (claimed_late ∷ [])).overtime_offers "j1" ≡ some taken
unfolding get
first_reply_wins_example =
    first_reply_wins taken_world (claimed_late ∷ []) "j1" taken "w1" refl refl (refl, tt)

apply_all-frame_example :
    get (apply_all small_world (booked ∷ [])).jobs "j2" ≡ get small_world.jobs "j2"
apply_all-frame_example =
    apply_all-frame small_world (booked ∷ []) "j2" small_world-IsConsistent (refl, tt)

apply_all-HasWindows_example :
    HasWindows
      (apply_all small_world (event "e4" 3 (Body.job_dispatched "j1") ∷ []))
      "j1"
      (morning ∷ [])
unfolding get
apply_all-HasWindows_example =
    apply_all-HasWindows small_world (event "e4" 3 (Body.job_dispatched "j1") ∷ []) "j1"
      (morning ∷ []) small_world-IsConsistent (refl, tt) (window_job, refl, refl)

-- Out from nine to noon.
abbrev sick : Unavailability
sick = record { from_time = at 540; until_time = some (at 720); reason = "sick" }

abbrev sick_world : WorldState
sick_world = record small_world {
  worker_outages = ("w1", sick ∷ []) ∷ [];
  van_outages = ("v1", sick ∷ []) ∷ [];
}

Out-carve_outages_example :
    Out (carve_outages (sick ∷ []) (at 600) (some (at 660))) (at 570)
    ↔ (Out (sick ∷ []) (at 570) × ¬ InWindow (at 600) (some (at 660)) (at 570))
Out-carve_outages_example = Out-carve_outages (sick ∷ []) (at 600) (some (at 660)) (at 570)

abbrev back : WorkerRestored
back = record { worker_id = "w1"; window_start = some (at 600); window_end = some (at 660) }

restored_worker_available_example :
    is_worker_available
      (apply_body sick_world (at 0) (Body.worker_restored back))
      "w1"
      (at 610)
      (at 650)
    ≡ true
unfolding has
restored_worker_available_example =
    restored_worker_available sick_world (at 0) back (at 610) (at 650) refl
      (omega arith, omega arith)

available_iff_free_example : (is_worker_available sick_world "w1" (at 480) (at 540) ≡ true) ↔ (
    (has sick_world.workers "w1" ≡ true)
    × ((t : Moment) → at 480 ≤ t → t < at 540 → ¬ Out (get_or sick_world.worker_outages "w1" []) t))
unfolding get_or get
available_iff_free_example =
    available_iff_free sick_world "w1" (at 480) (at 540) (omega arith) (omega arith, tt)
