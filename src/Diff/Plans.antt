-- ===== src/Diff/Plans.antt =====
-- `diff_plans`: the placements of two plans compared, job by job.
use glass_guru.Base.{
  String, not, ◌||◌, Option, none, some, List, [], ◌∷◌, ◌++◌, select, ◌==◌, nat_eq, string_eq,
  if◌then◌else◌,
}
use glass_guru.Base.Sort.{sorted}
use glass_guru.Base.Text.{text_leb}
use glass_guru.Dict.{Dict, get, has, put}
use glass_guru.Model.Units.Int.{ℤ}
use glass_guru.Model.Enums.{CommitmentState, commitment_eq}
use glass_guru.Model.Entities.{WorkerId, JobId, TimeWindow}
use glass_guru.Model.Plan.{PlanVersion, CrewRoute, Stop}
use glass_guru.World.State.{WorldState}
use glass_guru.Model.Crews.{same_set}
use glass_guru.Diff.Changes.{ChangeKind, Placement, JobChange, PlanDiff}

-- the inner `names` of _placements
unfoldable pub names_of : Option WorldState → List WorkerId → List String
names_of none ws = []
names_of (some world) [] = []
names_of (some world) (w ∷ ws) =
    elim (get world.workers w) [ none ↦ w | some worker ↦ worker.name ] ∷ names_of (some world) ws

unfoldable pub placement_of : Option WorldState → CrewRoute → Stop → Placement
unfolding names_of
placement_of world r s = record {
  on_date = r.date;
  crew_id = r.crew_id;
  van_id = r.van_id;
  worker_ids = r.worker_ids;
  arrival = s.arrival;
  departure = s.departure;
  worker_names = names_of world r.worker_ids;
}

-- the comprehension of _placements; a later stop of a job replaces an earlier one
unfoldable pub place_stops :
    Option WorldState → CrewRoute → List Stop → Dict JobId Placement → Dict JobId Placement
unfolding placement_of
place_stops world r [] d = d
place_stops world r (s ∷ ss) d = place_stops world r ss (put d s.job_id (placement_of world r s))

unfoldable pub place_routes :
    Option WorldState → List CrewRoute → Dict JobId Placement → Dict JobId Placement
unfolding place_stops
place_routes world [] d = d
place_routes world (r ∷ rs) d = place_routes world rs (place_stops world r r.stops d)

-- _placements
unfoldable pub placements : Option WorldState → PlanVersion → Dict JobId Placement
unfolding place_routes
placements world plan = place_routes world plan.routes []

-- _classify
unfoldable pub classify : Placement → Placement → Option ChangeKind
classify before after =
    if not (before.on_date == after.on_date)
    then some ChangeKind.rescheduled
    else if not (before.arrival == after.arrival)
    then some ChangeKind.retimed
    else if not (same_set before.worker_ids after.worker_ids) || not (before.van_id == after.van_id)
    then some ChangeKind.reassigned
    else none

abbrev pub first_window : List TimeWindow → Option TimeWindow
first_window [] = none
first_window (w ∷ ws) = some w

-- the inner `_promise` of diff_plans: the job's state, its customer's name and the promised window
unfoldable pub promise : Option WorldState → JobId → CommitmentState × String × Option TimeWindow
promise none job_id = (CommitmentState.provisional, "", none)
promise (some world) job_id = elim (get world.jobs job_id) [
  | none ↦ (CommitmentState.provisional, "", none)
  | some j ↦ (
    j.commitment_state,
    j.customer_name,
    if j.commitment_state == CommitmentState.confirmed then first_window j.windows else none,
  )
]

-- what the loop's body takes for the kind of change; `none` goes on with the next job. Of no job are
-- both placements missing, since it is a key of one of the two.
unfoldable pub kind_of : Option Placement → Option Placement → Option ChangeKind
unfolding classify
kind_of none (some q) = some ChangeKind.added
kind_of (some p) none = some ChangeKind.dropped
kind_of (some p) (some q) = classify p q
kind_of none none = none

-- the JobChange of the loop's body, as the list of what is appended
abbrev pub recorded_change :
    JobId
    → CommitmentState × String × Option TimeWindow
    → Option Placement
    → Option Placement
    → Option ChangeKind
    → List JobChange
recorded_change job_id told before after none = []
recorded_change job_id told before after (some kind) =
    record {
      job_id = job_id;
      kind = kind;
      before = before;
      after = after;
      commitment_state = told.0;
      customer_name = told.1;
      promised_window = told.2;
    }
    ∷ []

-- the loop's body
unfoldable pub change_of :
    Option WorldState → Dict JobId Placement → Dict JobId Placement → JobId → List JobChange
unfolding kind_of promise
change_of world old new job_id =
    recorded_change job_id (promise world job_id) (get old job_id) (get new job_id)
      (kind_of (get old job_id) (get new job_id))

unfoldable pub keys : Dict JobId Placement → List JobId
keys [] = []
keys ((k, p) ∷ d) = k ∷ keys d

-- `set(old) | set(new)`
unfoldable pub all_keys : Dict JobId Placement → Dict JobId Placement → List JobId
unfolding keys
all_keys old new = keys old ++ select (λ k. not (has old k)) (keys new)

-- the loop over the sorted ids
unfoldable pub changes_of :
    Option WorldState → Dict JobId Placement → Dict JobId Placement → List JobId → List JobChange
unfolding change_of
changes_of world old new [] = []
changes_of world old new (k ∷ ks) = change_of world old new k ++ changes_of world old new ks

-- diff_plans
unfoldable pub diff_plans : PlanVersion → PlanVersion → Option WorldState → ℤ → PlanDiff
unfolding placements changes_of all_keys
diff_plans before after world cost_delta =
    let old = placements world before in
    let new = placements world after in
    record {
      changes = changes_of world old new (sorted text_leb (all_keys old new));
      cost_delta = cost_delta;
    }
