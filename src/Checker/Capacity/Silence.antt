-- ===== src/Checker/Capacity/Silence.antt =====
-- What it means that `_check_van_capacity` is silent.
use glass_guru.Base.{
  ℕ, ◌≤◌, String, ◌≡◌, ◌↔◌, subst, Bool, true, ltb, none, some, List, [], All, Option-cases, inl,
  inr, arith, string_eq,
}
use glass_guru.Base.Sort.{sorted}
use glass_guru.Base.Sort.Laws.{All-sorted}
use glass_guru.Base.Text.{text_leb}
use glass_guru.Dict.{Dict, get, get_or}
use glass_guru.Dict.Items.{HasUniqueKeys, items_of_lookups, lookups_of_items}
use glass_guru.Model.Entities.{Van, has_stock}
use glass_guru.Model.Plan.{CrewRoute}
use glass_guru.World.State.{WorldState}
use glass_guru.Checker.Report.{
  too_many_panes, emit, emit-ltb, emit-not, append-nil_iff, collect-nil,
}
use glass_guru.Checker.Capacity.{
  count_panes, route_panes, capacity_violation, add_route_needs, check_load, check_route_load,
  check_van_capacity, Carries,
}
use glass_guru.Checker.Capacity.Demand.{total_need, total_panes, add_route_needs-HasUniqueKeys}

has_stock_iff :
    (van : Van) (part : String) (n : ℕ)
    → (has_stock van part n ≡ true) ↔ (n ≤ get_or van.stock part 0)
unfolding has_stock
has_stock_iff van part n = ground arith

get_or-some : (d : Dict String ℕ) (k : String) (n : ℕ) → get d k ≡ some n → get_or d k 0 ≡ n
unfolding get_or
get_or-some d k n there = rw (there, get_or)

absent_zero :
    (van : Van) (d : Dict String ℕ) (part : String)
    → get d part ≡ none
    → get_or d part 0 ≤ get_or van.stock part 0
unfolding get_or
absent_zero van d part absent = ground (arith, absent)

stocked_at :
    (van : Van) (d : Dict String ℕ) (part : String)
    → ((n : ℕ) → get d part ≡ some n → n ≤ get_or van.stock part 0)
    → get_or d part 0 ≤ get_or van.stock part 0
stocked_at van d part h = elim (Option-cases (get d part)) [
  | inl absent ↦ absent_zero van d part absent
  | inr (n, there) ↦ rw (get_or-some d part n there) (h n there)
]

-- Every noted part is in stock exactly when every lookup is.
stocked_iff :
    (van : Van) (d : Dict String ℕ)
    → HasUniqueKeys d
    → All (λ (p : String × ℕ). has_stock van p.0 p.1 ≡ true) d
      ↔ ((part : String) → get_or d part 0 ≤ get_or van.stock part 0)
stocked_iff van d u = (
  λ h part. stocked_at van d part (λ n there.
      (has_stock_iff van part n).0
        (lookups_of_items (λ p m. has_stock van p m ≡ true) d h part n there)),
  λ h.
      items_of_lookups (λ p m. has_stock van p m ≡ true) d u
        (λ k n there.
          (has_stock_iff van k n).1
            (subst (λ m. m ≤ get_or van.stock k 0) (get_or-some d k n there) (h k))),
)

check_load-nil :
    (world : WorldState) (r : CrewRoute) (van : Van)
    → (check_load world r van ≡ []) ↔ Carries world r van
unfolding check_load
check_load-nil world r van =
    let needs = add_route_needs world [] r.stops in
    let by_key : String × ℕ → String × ℕ → Bool = λ p q. text_leb p.0 q.0 in
    let items =
      collect-nil (λ (p : String × ℕ). has_stock van p.0 p.1 ≡ true) _
        (λ p. emit-not (has_stock van p.0 p.1) _) (sorted by_key needs) in
    let back = All-sorted by_key (λ (p : String × ℕ). has_stock van p.0 p.1 ≡ true) needs in
    let stocked = stocked_iff van needs (add_route_needs-HasUniqueKeys world r.stops [] tt) in
    let counted = count_panes world r.stops in
    let over =
      emit (ltb van.rack_slots counted)
        (capacity_violation van r (too_many_panes counted van.rack_slots)) in
    let slots : (over ≡ []) ↔ (route_panes world r.stops ≤ van.rack_slots) =
      subst (λ n. (over ≡ []) ↔ (n ≤ van.rack_slots)) (total_panes world r.stops)
        (emit-ltb van.rack_slots counted _) in
    append-nil_iff _ _ slots (
      λ e part. omega (arith, stocked.0 (back.0 (items.0 e)) part, total_need world r.stops part),
      λ h.
          items.1
            (back.1 (stocked.1 (λ part. omega (arith, h part, total_need world r.stops part)))),
    )

check_route_load-nil :
    (world : WorldState) (r : CrewRoute)
    → (check_route_load world r ≡ [])
      ↔ ((van : Van) → get world.vans r.van_id ≡ some van → Carries world r van)
unfolding check_route_load
check_route_load-nil world r = elim (Option-cases (get world.vans r.van_id)) [
  | inl unknown ↦ (λ e van there. absurd (cc), λ k. rw (unknown, check_route_load))
  | inr (van, there) ↦ (
    λ e other same.
        let same_van : van ≡ other = ground arith in
        subst (Carries world r) same_van
          ((check_load-nil world r van).0 (rw (there, check_route_load) at e)),
    λ k. rw (there, check_route_load) ((check_load-nil world r van).1 (k van there)),
  )
]

-- The check of van capacity is silent exactly when, for each route by itself, a van on record that
-- the route names has a rack slot for each pane of the route's known jobs, one for a job with no glass
-- to fit, and in stock as much of each part as their in-stock materials add up to.
pub check_van_capacity-nil :
    (world : WorldState) (routes : List CrewRoute)
    → (check_van_capacity world routes ≡ [])
      ↔ All
          (λ (r : CrewRoute).
            (van : Van) → get world.vans r.van_id ≡ some van → Carries world r van)
          routes
unfolding check_van_capacity
check_van_capacity-nil world routes =
    collect-nil
      (λ (r : CrewRoute). (van : Van) → get world.vans r.van_id ≡ some van → Carries world r van)
      (check_route_load world) (check_route_load-nil world) routes
