-- ===== src/Scheduler/Repair/Locked.antt =====
-- `locked_jobs` and `carve_out_locked`: work that has begun is taken out of the planning problem.
pub mod Carried
pub mod Kept
use glass_guru.Base.{
  ℕ, zero, suc, ◌-◌, String, Bool, not, Option, none, some, List, [], ◌∷◌, ◌++◌, map, select, mem,
  string_eq, if◌then◌else◌,
}
use glass_guru.Base.Sort.{sorted}
use glass_guru.Base.Text.{text_leb}
use glass_guru.Dict.{Dict, has, get_or, values}
use glass_guru.Model.Units.{minutes}
use glass_guru.Model.Entities.{WorkerId, JobId}
use glass_guru.Model.Jobs.{Job}
use glass_guru.Model.Plan.{CrewRoute, Stop, PlanVersion}
use glass_guru.World.Outages.{Unavailability}
use glass_guru.World.State.{WorldState}
use glass_guru.World.Apply.{add_outage}
use glass_guru.Checker.Report.{last_of}
use glass_guru.Checker.Baseline.{is_locked}

-- locked_jobs
unfoldable pub locked_jobs : WorldState → List JobId
locked_jobs world = sorted text_leb (map (λ (j : Job). j.id) (select is_locked (values world.jobs)))

-- the `max` over the indices of the locked stops
unfoldable pub last_locked : List JobId → List Stop → Option ℕ
last_locked locked [] = none
last_locked locked (s ∷ ss) = elim (last_locked locked ss) [
  | some i ↦ some (suc i)
  | none ↦ if mem s.job_id locked then some 0 else none
]

-- stops[:n]
unfoldable pub take : ℕ → List Stop → List Stop
take zero ss = []
take (suc n) [] = []
take (suc n) (s ∷ ss) = s ∷ take n ss

-- The variables of the loop over the baseline's routes.
pub record Carving : Type 0 where
  pub carried : List CrewRoute
  pub consumed_workers : Dict String (List Unavailability)
  pub consumed_vans : Dict String (List Unavailability)
  pub removed : List JobId

abbrev pub nothing_carved : Carving
nothing_carved = record { carried = []; consumed_workers = []; consumed_vans = []; removed = [] }

-- `route.model_copy(update=…)`
unfoldable pub carried_route : CrewRoute → List Stop → CrewRoute
carried_route r prefix = record r {
  stops = prefix;
  return_to_depot_minutes = 0;
  return_to_depot_miles = 0;
}

-- from leaving the depot until the last locked stop is finished
unfoldable pub busy : Stop → List Stop → Unavailability
busy first rest = record {
  from_time = first.arrival - minutes first.travel_minutes_from_prev;
  until_time = some (last_of first rest).departure;
  reason = "already dispatched";
}

-- `for worker_id in route.worker_ids: consumed.setdefault(worker_id, []).append(outage)`
unfoldable pub consume :
    Dict String (List Unavailability)
    → List WorkerId
    → Unavailability
    → Dict String (List Unavailability)
unfolding add_outage
consume d [] o = d
consume d (w ∷ ws) o = consume (add_outage d w o) ws o

-- the loop's body with the prefix of a route that has a locked stop; a prefix is not empty
unfoldable pub carve_prefix : Carving → CrewRoute → List Stop → Carving
unfolding carried_route busy consume add_outage
carve_prefix c r [] = c
carve_prefix c r (first ∷ rest) = record {
  carried = c.carried ++ (carried_route r (first ∷ rest) ∷ []);
  consumed_workers = consume c.consumed_workers r.worker_ids (busy first rest);
  consumed_vans = add_outage c.consumed_vans r.van_id (busy first rest);
  removed = c.removed ++ map (λ (s : Stop). s.job_id) (first ∷ rest);
}

unfoldable pub carve_route : List JobId → Carving → CrewRoute → Carving
unfolding last_locked carve_prefix take
carve_route locked c r = elim (last_locked locked r.stops) [
  | none ↦ c
  | some i ↦ carve_prefix c r (take (suc i) r.stops)
]

unfoldable pub carve_routes : List JobId → Carving → List CrewRoute → Carving
unfolding carve_route
carve_routes locked c [] = c
carve_routes locked c (r ∷ rs) = carve_routes locked (carve_route locked c r) rs

-- `{k: [*outages.get(k, []), *extra] for k, extra in consumed.items()}`
unfoldable pub with_consumed :
    Dict String (List Unavailability)
    → Dict String (List Unavailability)
    → Dict String (List Unavailability)
with_consumed outages [] = []
with_consumed outages ((k, extra) ∷ d) = (k, get_or outages k [] ++ extra) ∷ with_consumed outages d

-- the same with the entries of `outages` that are not in `consumed`
unfoldable pub merged_outages :
    Dict String (List Unavailability)
    → Dict String (List Unavailability)
    → Dict String (List Unavailability)
unfolding with_consumed
merged_outages outages consumed =
    with_consumed outages consumed
    ++ select (λ (p : String × List Unavailability). not (has consumed p.0)) outages

-- what is carved, as the world that is left to plan in
unfoldable pub reduced_world : WorldState → Carving → WorldState
unfolding merged_outages
reduced_world world c = record world {
  jobs = select (λ (p : JobId × Job). not (mem p.0 c.removed)) world.jobs;
  worker_outages = merged_outages world.worker_outages c.consumed_workers;
  van_outages = merged_outages world.van_outages c.consumed_vans;
}

-- carve_out_locked
unfoldable pub carve_out_locked :
    WorldState → PlanVersion → List JobId → WorldState × List CrewRoute
unfolding carve_routes reduced_world
carve_out_locked world baseline locked =
    let c = carve_routes locked nothing_carved baseline.routes in (reduced_world world c, c.carried)
