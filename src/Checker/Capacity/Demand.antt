-- ===== src/Checker/Capacity/Demand.antt =====
-- What `_check_van_capacity` notes of the parts is what the stops need of them.
use text.Mathlib.TextEquality.{eq_iff}
use glass_guru.Base.{
  ℕ, ◌+◌, String, ◌≡◌, refl, ◌∙◌, List, [], ◌∷◌, ◌==◌, Option-cases, Bool-cases, inl, inr, arith,
  string_eq, if◌then◌else◌,
}
use glass_guru.Dict.{Dict, get, get_or, put}
use glass_guru.Dict.Laws.{get-put}
use glass_guru.Dict.Items.{HasUniqueKeys, put-HasUniqueKeys}
use glass_guru.Model.Entities.{Material}
use glass_guru.Model.Plan.{Stop}
use glass_guru.World.State.{WorldState}
use glass_guru.Checker.Capacity.{
  add_needs, add_route_needs, demand, route_demand, count_panes, panes_of, route_panes,
}

get_or-put :
    (d : Dict String ℕ) (k j : String) (v : ℕ)
    → get_or (put d k v) j 0 ≡ (if k == j then v else get_or d j 0)
unfolding get_or
get_or-put d k j v = ground (arith, get-put d k j v)

get_or-add_needs :
    (ms : List Material) (needed : Dict String ℕ) (part : String)
    → get_or (add_needs needed ms) part 0 ≡ get_or needed part 0 + demand part ms
unfolding add_needs
get_or-add_needs [] needed part = omega arith
get_or-add_needs (m ∷ ms) needed part =
    let more = put needed m.part_code (get_or needed m.part_code 0 + m.quantity) in
    ground (
      arith,
      get_or-add_needs ms more part,
      get_or-add_needs ms needed part,
      get_or-put needed m.part_code part (get_or needed m.part_code 0 + m.quantity),
      eq_iff m.part_code part,
    )

get_or-add_route_needs :
    (world : WorldState) (ss : List Stop) (needed : Dict String ℕ) (part : String)
    → get_or (add_route_needs world needed ss) part 0
      ≡ get_or needed part 0 + route_demand world part ss
unfolding add_route_needs
get_or-add_route_needs world [] needed part = omega arith
get_or-add_route_needs world (s ∷ ss) needed part = elim (Option-cases (get world.jobs s.job_id)) [
  | inl unknown ↦
      rw (unknown, add_route_needs) (omega (arith, get_or-add_route_needs world ss needed part))
  | inr (j, there) ↦
      rw (there, add_route_needs)
        (omega (
          arith,
          get_or-add_route_needs world ss (add_needs needed j.materials) part,
          get_or-add_needs j.materials needed part,
        ))
]

add_needs-HasUniqueKeys :
    (ms : List Material) (d : Dict String ℕ) → HasUniqueKeys d → HasUniqueKeys (add_needs d ms)
unfolding add_needs
add_needs-HasUniqueKeys [] d h = h
add_needs-HasUniqueKeys (m ∷ ms) d h = elim (Bool-cases m.in_stock) [
  | inl here ↦ rw here (add_needs-HasUniqueKeys ms _ (put-HasUniqueKeys d m.part_code _ h))
  | inr ordered ↦ rw ordered (add_needs-HasUniqueKeys ms d h)
]

pub add_route_needs-HasUniqueKeys :
    (world : WorldState) (ss : List Stop) (d : Dict String ℕ)
    → HasUniqueKeys d
    → HasUniqueKeys (add_route_needs world d ss)
unfolding add_route_needs
add_route_needs-HasUniqueKeys world [] d h = h
add_route_needs-HasUniqueKeys world (s ∷ ss) d h = elim (Option-cases (get world.jobs s.job_id)) [
  | inl unknown ↦ rw (unknown, add_route_needs) (add_route_needs-HasUniqueKeys world ss d h)
  | inr (j, there) ↦
      rw (there, add_route_needs)
        (add_route_needs-HasUniqueKeys world ss (add_needs d j.materials)
          (add_needs-HasUniqueKeys j.materials d h))
]

-- What is noted for a part is what the route takes of it.
pub total_need :
    (world : WorldState) (ss : List Stop) (part : String)
    → get_or (add_route_needs world [] ss) part 0 ≡ route_demand world part ss
total_need world ss part = get_or-add_route_needs world ss [] part ∙ nothing_before
  where
    nothing_before : get_or [] part 0 + route_demand world part ss ≡ route_demand world part ss
    nothing_before = unfold get_or get in omega arith

-- The panes that are counted are those that the stops need slots for.
pub total_panes :
    (world : WorldState) (ss : List Stop) → count_panes world ss ≡ route_panes world ss
unfolding count_panes panes_of
total_panes world [] = refl
total_panes world (s ∷ ss) = elim (Option-cases (get world.jobs s.job_id)) [
  | inl unknown ↦ rw (unknown, count_panes) (omega (arith, total_panes world ss))
  | inr (j, there) ↦ elim (Option-cases j.glass_spec) [
    | inl no_glass ↦
        rw (there, no_glass, count_panes, panes_of) (omega (arith, total_panes world ss))
    | inr (g, glass) ↦
        rw (there, glass, count_panes, panes_of) (omega (arith, total_panes world ss))
  ]
]
