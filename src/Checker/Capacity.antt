-- ===== src/Checker/Capacity.antt =====
-- `_check_van_capacity`: rack slots and stock, per van and day.
pub mod Demand
pub mod Silence
use text.Mathlib.TextEquality.{eq_iff}
use glass_guru.Base.{
  ℕ, ◌+◌, ◌≤◌, String, ◌≡◌, ◌↔◌, refl, subst, Bool, true, false, not, Option, none, some, List, [],
  ◌∷◌, ◌++◌, ltb, All, ◌==◌, Option-cases, Bool-cases, inl, inr, arith, string_eq, if◌then◌else◌,
}
use glass_guru.Base.Sort.{sorted}
use glass_guru.Base.Sort.Laws.{All-sorted}
use glass_guru.Base.Text.{text_leb}
use glass_guru.Dict.{Dict, get, get_or, put}
use glass_guru.Dict.Laws.{get-put}
use glass_guru.Dict.Items.{HasUniqueKeys, put-HasUniqueKeys, items_of_lookups, lookups_of_items}
use glass_guru.Model.Enums.{ViolationCode}
use glass_guru.Model.Entities.{Van, Material, GlassSpec, has_stock}
use glass_guru.Model.Jobs.{Job}
use glass_guru.Model.Plan.{CrewRoute, Stop}
use glass_guru.World.State.{WorldState}
use glass_guru.Checker.Report.{
  Violation, Detail, too_many_panes, short_of_stock, collect, emit, emit-ltb, emit-not,
  append-nil_iff, collect-nil,
}

-- `job.glass_spec.pane_count if job.glass_spec else 1`
unfoldable pub panes_of : Option GlassSpec → ℕ
panes_of none = 1
panes_of (some g) = g.pane_count

-- the panes of the known jobs
unfoldable pub count_panes : WorldState → List Stop → ℕ
unfolding panes_of
count_panes world [] = 0
count_panes world (s ∷ ss) =
    let rest = count_panes world ss in
    elim (get world.jobs s.job_id) [ none ↦ rest | some j ↦ panes_of j.glass_spec + rest ]

-- the loop over a job's materials
unfoldable pub add_needs : Dict String ℕ → List Material → Dict String ℕ
add_needs needed [] = needed
add_needs needed (m ∷ ms) =
    add_needs
      (if m.in_stock
        then put needed m.part_code (get_or needed m.part_code 0 + m.quantity)
        else needed)
      ms

-- the parts that the known jobs take from the van
unfoldable pub add_route_needs : WorldState → Dict String ℕ → List Stop → Dict String ℕ
unfolding add_needs
add_route_needs world needed [] = needed
add_route_needs world needed (s ∷ ss) =
    add_route_needs world
      (elim (get world.jobs s.job_id) [ none ↦ needed | some j ↦ add_needs needed j.materials ]) ss

unfoldable pub capacity_violation : Van → CrewRoute → Detail → Violation
capacity_violation van r detail = record {
  code = ViolationCode.van_capacity_exceeded;
  detail = detail;
  job_id = none;
  crew_id = some r.crew_id;
  worker_id = none;
  van_id = some van.id;
  on_date = some r.date;
}

unfoldable pub check_load : WorldState → CrewRoute → Van → List Violation
unfolding count_panes add_route_needs
check_load world r van =
    let panes = count_panes world r.stops in
    let needed = sorted (λ p q. text_leb p.0 q.0) (add_route_needs world [] r.stops) in
    emit (ltb van.rack_slots panes) (capacity_violation van r (too_many_panes panes van.rack_slots))
    ++ collect
        (λ (item : String × ℕ).
          emit (not (has_stock van item.0 item.1))
            (capacity_violation van r (short_of_stock item.1 item.0 (get_or van.stock item.0 0))))
        needed

unfoldable pub check_route_load : WorldState → CrewRoute → List Violation
unfolding check_load
check_route_load world r = elim (get world.vans r.van_id) [
  | none ↦ []
  | some van ↦ check_load world r van
]

-- _check_van_capacity
unfoldable pub check_van_capacity : WorldState → List CrewRoute → List Violation
unfolding check_route_load
check_van_capacity world routes = collect (check_route_load world) routes

-- How much of a part the materials take from the van's stock.
abbrev pub demand : String → List Material → ℕ
demand part [] = 0
demand part (m ∷ ms) =
    (if m.in_stock then (if m.part_code == part then m.quantity else 0) else 0) + demand part ms

-- How much of a part the known jobs of the stops take.
abbrev pub route_demand : WorldState → String → List Stop → ℕ
route_demand world part [] = 0
route_demand world part (s ∷ ss) =
    (elim (get world.jobs s.job_id) [ none ↦ 0 | some j ↦ demand part j.materials ])
    + route_demand world part ss

-- How many panes the known jobs of the stops take: one for a job with no glass to fit.
abbrev pub route_panes : WorldState → List Stop → ℕ
route_panes world [] = 0
route_panes world (s ∷ ss) =
    (elim (get world.jobs s.job_id) [
      | none ↦ 0
      | some j ↦ elim j.glass_spec [ none ↦ 1 | some g ↦ g.pane_count ]
    ])
    + route_panes world ss

-- The van has a slot for every pane and stock for every part of the route.
abbrev pub Carries : WorldState → CrewRoute → Van → Type 0
Carries world r van =
    (route_panes world r.stops ≤ van.rack_slots)
    × ((part : String) → route_demand world part r.stops ≤ get_or van.stock part 0)
