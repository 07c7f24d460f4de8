-- ===== src/Tests/Data.antt =====
-- A business of two workers and a van, with two jobs, on Monday of the calendar.
use glass_guru.Base.{if◌then◌else◌, ltb, ℕ, ◌+◌, ◌*◌, String, true, false, none, List, [], ◌∷◌}
use glass_guru.Model.Units.{Moment, Date, minutes, day_length}
use glass_guru.Model.Units.Int.{pos}
use glass_guru.Model.Enums.{
  Certification, ServiceType, PropertyType, Priority, CommitmentState, WindowHardness,
}
use glass_guru.Model.Entities.{Location, TimeWindow, DayHours, Worker, Van, TravelOracle}
use glass_guru.Model.Jobs.{Job, Provenance}
use glass_guru.Model.Plan.{Stop, CrewRoute, PlanVersion}
use glass_guru.World.State.{WorldState, empty_world}
use glass_guru.Checker.Report.{ValidationConfig}

-- Minutes after midnight of the calendar's eighth day, a Monday.
abbrev pub at : ℕ → Moment
at m = 7 * day_length + minutes m

abbrev pub monday : Date
monday = 8

abbrev pub shop : Location
shop = record {
  lat = pos 401_000;
  lon = pos 830_000;
  address = "1 Main St";
  geocode_confidence = 10_000;
  precision = "rooftop";
  matched_road = "";
  matched_name = "";
}

abbrev pub all_day : DayHours
all_day = record { weekday = 0; start = minutes 420; end = minutes 1020 }

abbrev pub ann : Worker
ann = record {
  id = "w1";
  name = "Ann";
  certifications = Certification.residential_glazing ∷ [];
  working_hours = all_day ∷ [];
  home_location = shop;
  overtime_eligible = true;
  loaded_cost_per_hour = 450_000;
  phone = "";
}

abbrev pub bob : Worker
bob = record ann { id = "w2"; name = "Bob"; overtime_eligible = false }

abbrev pub truck : Van
truck = record {
  id = "v1";
  label = "Truck";
  rack_slots = 4;
  stock = ("pane", 3) ∷ [];
  home_depot = shop;
  cost_per_mile = 7_000;
}

abbrev pub morning : TimeWindow
morning = record { start = at 480; end = at 720; hardness = WindowHardness.hard }

abbrev pub afternoon : TimeWindow
afternoon = record { start = at 780; end = at 1020; hardness = WindowHardness.soft }

abbrev no_provenance : Provenance
no_provenance = record {
  source_channel = "phone";
  received_at = none;
  transcript = "";
  field_confidence = [];
  missing_required = [];
  extractor_retries = 0;
}

abbrev pub window_job : Job
window_job = record {
  id = "j1";
  customer_id = "c1";
  customer_name = "Eve";
  phone = "";
  email = "";
  location = shop;
  property_type = PropertyType.residential;
  service_type = ServiceType.residential_window_replacement;
  description_raw = "";
  glass_spec = none;
  required_certifications = Certification.residential_glazing ∷ [];
  crew_size = 1;
  estimated_duration_min = 60;
  duration_confidence_min = 15;
  materials = record { part_code = "pane"; quantity = 2; in_stock = true; lead_time_days = 0 } ∷ [];
  windows = morning ∷ [];
  priority = Priority.normal;
  revenue = 3_000_000;
  quoted_total = 0;
  booking_note = "";
  commitment_state = CommitmentState.confirmed;
  commitment_cost = 0;
  deferral_count = 0;
  requires_customer_present = true;
  site_notes = "";
  requested_at = at 0;
  provenance = no_provenance;
}

abbrev pub screen_job : Job
screen_job = record window_job {
  id = "j2";
  customer_name = "Dan";
  materials = [];
  windows = afternoon ∷ [];
  commitment_state = CommitmentState.provisional;
}

abbrev pub small_world : WorldState
small_world = record (empty_world (at 0)) {
  workers = ("w1", ann) ∷ ("w2", bob) ∷ [];
  vans = ("v1", truck) ∷ [];
  jobs = ("j1", window_job) ∷ ("j2", screen_job) ∷ [];
}

-- Every drive takes a quarter of an hour.
abbrev pub steady : TravelOracle
steady = record { leg = λ a b t. record { minutes = 15; miles = 50_000 } }

-- Drives that take longer before half past seven.
abbrev pub rush : TravelOracle
rush = record {
  leg = λ a b t. record { minutes = if ltb t (at 450) then 29 else 20; miles = 50_000 };
}

abbrev pub strict : ValidationConfig
strict = record {
  business_tz = λ t. t;
  travel_slack_minutes = 5;
  allow_overtime = false;
  released_job_ids = [];
}

abbrev pub visit : String → ℕ → ℕ → Stop
visit id from to = record {
  job_id = id;
  arrival = at from;
  departure = at to;
  travel_minutes_from_prev = 15;
  travel_miles_from_prev = 50_000;
}

abbrev pub route_of : List Stop → CrewRoute
route_of stops = record {
  crew_id = "crew1";
  date = monday;
  worker_ids = "w1" ∷ [];
  van_id = "v1";
  stops = stops;
  return_to_depot_minutes = 15;
  return_to_depot_miles = 50_000;
}

abbrev pub plan_of : String → List CrewRoute → PlanVersion
plan_of id routes = record {
  id = id;
  parent_id = none;
  created_at = at 0;
  horizon_start = monday;
  horizon_end = 14;
  routes = routes;
  unserved = [];
  cost = record {
    vehicle = pos 0;
    overtime = pos 0;
    unserved_penalty = pos 0;
    lateness_penalty = pos 0;
    reschedule_penalty = pos 0;
  };
  label = "";
  solver_metrics = [];
}

-- Both jobs, each in its window.
abbrev pub good_routes : List CrewRoute
good_routes = route_of (visit "j1" 540 600 ∷ visit "j2" 840 900 ∷ []) ∷ []

abbrev pub good_plan : PlanVersion
good_plan = plan_of "p1" good_routes

-- The confirmed job moved out of its window, and the other left out.
abbrev pub late_plan : PlanVersion
late_plan = plan_of "p2" (route_of (visit "j1" 900 960 ∷ []) ∷ [])
