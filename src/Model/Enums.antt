-- ===== src/Model/Enums.antt =====
-- The closed vocabularies of src/krama/domain/enums.py. Each `StrEnum` is a data type with the
-- members in the source's order.
use glass_guru.Base.{ℕ, Bool, true, false, ◌≡◌, ◌↔◌, Eq, nat_beq, List, [], ◌∷◌, arith}

pub data Certification : Type 0 where
  residential_glazing commercial_storefront auto_glass tempered_safety screen_repair shower_door :
      Certification

pub data ServiceType : Type 0 where
  residential_window_replacement storefront_glass auto_glass emergency_board_up screen_repair
        shower_door_install measure_quote :
      ServiceType

pub data GlassType : Type 0 where
  annealed tempered laminated insulated_unit : GlassType

pub data PropertyType : Type 0 where
  residential commercial vehicle : PropertyType

pub data WindowHardness : Type 0 where
  hard soft : WindowHardness

pub data Priority : Type 0 where
  emergency high normal low : Priority

pub data CommitmentState : Type 0 where
  draft provisional confirmed dispatched completed cancelled : CommitmentState

pub data UnservedReason : Type 0 where
  no_certified_worker no_capacity_in_horizon window_on_another_day hard_window_unreachable
        materials_not_available crew_size_unavailable van_capacity_exceeded outside_service_radius
        cost_exceeds_value :
      UnservedReason

pub data ViolationCode : Type 0 where
  worker_double_booked van_double_booked worker_unavailable van_unavailable hard_window_violated
        missing_certification crew_size_mismatch van_capacity_exceeded travel_time_inconsistent
        outside_working_hours materials_unavailable confirmed_window_moved locked_job_moved
        duplicate_job_assignment unknown_entity_reference scheduled_before_request :
      ViolationCode

abbrev certification_index : Certification → ℕ
certification_index Certification.residential_glazing = 0
certification_index Certification.commercial_storefront = 1
certification_index Certification.auto_glass = 2
certification_index Certification.tempered_safety = 3
certification_index Certification.screen_repair = 4
certification_index Certification.shower_door = 5

abbrev certification_beq : Certification → Certification → Bool
certification_beq a b = nat_beq (certification_index a) (certification_index b)

pub certification_beq_iff : (a b : Certification) → (certification_beq a b ≡ true) ↔ (a ≡ b)
certification_beq_iff a b = ground arith

instance abbrev pub certification_eq : Eq Certification
certification_eq = record { equals = certification_beq; equals_iff = certification_beq_iff }

-- Every certification once, in the order of its text value, as `sorted(c.value for c in …)` lists
-- them.
abbrev pub certifications_by_value : List Certification
certifications_by_value =
    Certification.auto_glass ∷ Certification.commercial_storefront
    ∷ Certification.residential_glazing ∷ Certification.screen_repair ∷ Certification.shower_door
    ∷ Certification.tempered_safety ∷ []

abbrev commitment_index : CommitmentState → ℕ
commitment_index CommitmentState.draft = 0
commitment_index CommitmentState.provisional = 1
commitment_index CommitmentState.confirmed = 2
commitment_index CommitmentState.dispatched = 3
commitment_index CommitmentState.completed = 4
commitment_index CommitmentState.cancelled = 5

abbrev commitment_beq : CommitmentState → CommitmentState → Bool
commitment_beq a b = nat_beq (commitment_index a) (commitment_index b)

pub commitment_beq_iff : (a b : CommitmentState) → (commitment_beq a b ≡ true) ↔ (a ≡ b)
commitment_beq_iff a b = ground arith

instance abbrev pub commitment_eq : Eq CommitmentState
commitment_eq = record { equals = commitment_beq; equals_iff = commitment_beq_iff }

-- `window.hardness is WindowHardness.HARD`
abbrev pub is_hard : WindowHardness → Bool
is_hard WindowHardness.hard = true
is_hard WindowHardness.soft = false
