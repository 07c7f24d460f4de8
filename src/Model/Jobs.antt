-- ===== src/Model/Jobs.antt =====
-- Jobs (src/krama/domain/models.py).
use glass_guru.Base.{ℕ, max, String, Bool, not, Option, List, [], ◌∷◌, select, ◌==◌, ◌||◌}
use glass_guru.Dict.{Dict}
use glass_guru.Model.Units.{Moment, Date}
use glass_guru.Model.Units.Int.{ℤ}
use glass_guru.Model.Enums.{
  Certification, ServiceType, PropertyType, Priority, CommitmentState, commitment_eq, is_hard,
}
use glass_guru.Model.Entities.{JobId, Location, TimeWindow, Material, GlassSpec, available_from}

pub record Provenance : Type 0 where
  pub source_channel : String
  pub received_at : Option Moment
  pub transcript : String
  pub field_confidence : Dict String ℤ
  pub missing_required : List String
  pub extractor_retries : ℕ

pub record Job : Type 0 where
  pub id : JobId
  pub customer_id : String
  pub customer_name : String
  pub phone : String
  pub email : String
  pub location : Location
  pub property_type : PropertyType
  pub service_type : ServiceType
  pub description_raw : String
  pub glass_spec : Option GlassSpec
  pub required_certifications : List Certification
  pub crew_size : ℕ
  pub estimated_duration_min : ℕ
  pub duration_confidence_min : ℕ
  pub materials : List Material
  pub windows : List TimeWindow
  pub priority : Priority
  pub revenue : ℕ
  pub quoted_total : ℕ
  pub booking_note : String
  pub commitment_state : CommitmentState
  pub commitment_cost : ℕ
  pub deferral_count : ℕ
  pub requires_customer_present : Bool
  pub site_notes : String
  pub requested_at : Moment
  pub provenance : Provenance

-- Job.is_active
unfoldable pub is_active : Job → Bool
is_active j = not (
    j.commitment_state == CommitmentState.completed
    || j.commitment_state == CommitmentState.cancelled)

-- Job.hard_windows
unfoldable pub hard_windows : Job → List TimeWindow
hard_windows j = select (λ w. is_hard w.hardness) j.windows

-- the `max` over the generator: of the first date and the later ones
unfoldable pub latest_date : Date → List Material → Date → Date
unfolding available_from
latest_date best [] ordered_on = best
latest_date best (m ∷ ms) ordered_on =
    latest_date (max best (available_from m ordered_on)) ms ordered_on

-- Job.earliest_material_date
unfoldable pub earliest_material_date : List Material → Date → Date
unfolding latest_date available_from
earliest_material_date [] ordered_on = ordered_on
earliest_material_date (m ∷ ms) ordered_on = latest_date (available_from m ordered_on) ms ordered_on
