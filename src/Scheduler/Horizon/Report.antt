-- ===== src/Scheduler/Horizon/Report.antt =====
-- The end of `plan_horizon`: who is reported as unserved.
use glass_guru.Base.{not, ◌&&◌, List, [], ◌∷◌, ◌++◌, map, mem, string_eq, if◌then◌else◌}
use glass_guru.Model.Enums.{UnservedReason}
use glass_guru.Model.Entities.{JobId}
use glass_guru.Model.Jobs.{Job}
use glass_guru.Model.Plan.{UnservedJob}
use glass_guru.Scheduler.Params.{DayPlanResult}

-- what a Python set of the ids holds
unfoldable pub distinct : List JobId → List JobId
distinct [] = []
distinct (k ∷ ks) = let rest = distinct ks in if mem k rest then rest else k ∷ rest

-- The reported jobs, and `seen`, the ids of them.
pub record Reported : Type 0 where
  pub unserved : List UnservedJob
  pub seen : List JobId

-- `if … not in scheduled_ids and … not in seen: …`
unfoldable pub report : List JobId → Reported → UnservedJob → Reported
report scheduled r u =
    if not (mem u.job_id scheduled) && not (mem u.job_id r.seen)
    then record { unserved = r.unserved ++ (u ∷ []); seen = u.job_id ∷ r.seen }
    else r

unfoldable pub report_items : List JobId → Reported → List UnservedJob → Reported
unfolding report
report_items scheduled r [] = r
report_items scheduled r (u ∷ us) = report_items scheduled (report scheduled r u) us

-- the loop over the days' results
unfoldable pub report_results : List JobId → Reported → List DayPlanResult → Reported
unfolding report_items
report_results scheduled r [] = r
report_results scheduled r (d ∷ ds) =
    report_results scheduled (report_items scheduled r d.unserved) ds

unfoldable pub left_over : Job → UnservedJob
left_over j = record {
  job_id = j.id;
  reason = UnservedReason.no_capacity_in_horizon;
  detail = "assigned to a day that could not route it, and nowhere else fit";
}

-- the loop over the candidates
unfoldable pub report_jobs : List JobId → Reported → List Job → Reported
unfolding report left_over
report_jobs scheduled r [] = r
report_jobs scheduled r (j ∷ js) = report_jobs scheduled (report scheduled r (left_over j)) js

-- `list(unplaceable)`, and the ids in it
abbrev pub placed_nowhere : List UnservedJob → Reported
placed_nowhere us = record { unserved = us; seen = map (λ (u : UnservedJob). u.job_id) us }

unfoldable pub report_all :
    List JobId → List UnservedJob → List DayPlanResult → List Job → List UnservedJob
unfolding report_results report_jobs
report_all scheduled unplaceable results candidates =
    (report_jobs scheduled (report_results scheduled (placed_nowhere unplaceable) results)
      candidates).unserved
