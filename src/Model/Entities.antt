-- ===== src/Model/Entities.antt =====
-- Places, windows, workers, vans and materials (src/krama/domain/models.py), and the travel
-- interface of src/krama/domain/travel.py.
use glass_guru.Base.{
  ℕ, ◌+◌, String, Bool, Option, none, some, List, [], ◌∷◌, leb, mem, all, ◌&&◌, ◌==◌, nat_eq,
  string_eq, if◌then◌else◌,
}
use glass_guru.Dict.{Dict, get_or}
use glass_guru.Model.Units.{Moment, Date, ClockTime}
use glass_guru.Model.Units.Int.{ℤ}
use glass_guru.Model.Enums.{Certification, certification_eq, WindowHardness, GlassType}

abbrev pub WorkerId : Type 0
WorkerId = String

abbrev pub VanId : Type 0
VanId = String

abbrev pub JobId : Type 0
JobId = String

pub record Location : Type 0 where
  pub lat : ℤ
  pub lon : ℤ
  pub address : String
  pub geocode_confidence : ℕ
  pub precision : String
  pub matched_road : String
  pub matched_name : String

pub record TimeWindow : Type 0 where
  pub start : Moment
  pub end : Moment
  pub hardness : WindowHardness

-- TimeWindow._ordered: `none` is the `ValueError`
unfoldable pub checked_window : TimeWindow → Option TimeWindow
checked_window w = if leb w.end w.start then none else some w

-- TimeWindow.contains
unfoldable pub contains : TimeWindow → Moment → Bool
contains w moment = leb w.start moment && leb moment w.end

pub record DayHours : Type 0 where
  pub weekday : ℕ
  pub start : ClockTime
  pub end : ClockTime

pub record Worker : Type 0 where
  pub id : WorkerId
  pub name : String
  pub certifications : List Certification
  pub working_hours : List DayHours
  pub home_location : Location
  pub overtime_eligible : Bool
  pub loaded_cost_per_hour : ℕ
  pub phone : String

-- Worker.hours_for
unfoldable pub hours_for : List DayHours → ℕ → Option DayHours
hours_for [] weekday = none
hours_for (h ∷ hs) weekday = if h.weekday == weekday then some h else hours_for hs weekday

-- Worker.is_certified_for
unfoldable pub is_certified_for : Worker → List Certification → Bool
is_certified_for w required = all (λ c. mem c w.certifications) required

pub record Van : Type 0 where
  pub id : VanId
  pub label : String
  pub rack_slots : ℕ
  pub stock : Dict String ℕ
  pub home_depot : Location
  pub cost_per_mile : ℕ

-- Van.has_stock
unfoldable pub has_stock : Van → String → ℕ → Bool
has_stock v part_code quantity = leb quantity (get_or v.stock part_code 0)

pub record Material : Type 0 where
  pub part_code : String
  pub quantity : ℕ
  pub in_stock : Bool
  pub lead_time_days : ℕ

-- Material.available_from
unfoldable pub available_from : Material → Date → Date
available_from m ordered_on = if m.in_stock then ordered_on else ordered_on + m.lead_time_days

pub record GlassSpec : Type 0 where
  pub pane_count : ℕ
  pub width_inches : Option ℕ
  pub height_inches : Option ℕ
  pub glass_type : Option GlassType
  pub frame_material : Option String

pub record TravelLeg : Type 0 where
  pub minutes : ℕ
  pub miles : ℕ

-- The oracle that answers "how long from here to there, leaving then?".
pub record TravelOracle : Type 0 where
  pub leg : Location → Location → Moment → TravelLeg
