-- ===== src/Flight/Record.antt =====
-- flight/record.py: the normalised flight record. A float of seconds is an exact number of thousandths.
-- A reason is the constructor of its sentence with the values the sentence is made from; the English
-- text is not modelled.
use uas_sustainment_workbenc.Base.{ℕ, ℤ, String, Bool, true, false, List, ◌≡◌, refl, ◌⊎◌, inl, inr}
use uas_sustainment_workbenc.Base.Time.{DateTime}

pub data Source : Type 0 where
  px4 ardupilot : Source

-- The sentences an `Unknown` or an entry of `unchecked` carries.
pub data Reason : Type 0 where
  said : String → Reason
  aircraft_unknown : Reason → Reason
  no_lifetime_counter : Reason → Reason
  no_flight_time : Reason → Reason
  cannot_order : Reason
  duplicate_of : String → Reason
  last_known_log : Reason
  no_boot_counter : Reason
  no_record : Reason
  before_first_log : String → ℕ → ℤ → Reason
  records_disagree : String → ℕ → ℤ → ℤ → Reason
  derived_disagree : String → ℕ → ℤ → ℤ → Reason
  no_date : String → String → ℕ → Reason
  not_measured : String → String → ℕ → Reason → Reason

-- `Maybe[T]`: a value, or Unknown with its reason.
pub data Maybe {ℓ} (A : Type ℓ) : Type ℓ where
  known : A → Maybe A
  unknown : Reason → Maybe A

abbrev pub is_known {ℓ} : {A : Type ℓ} → Maybe A → Bool
is_known (known a) = true
is_known (unknown r) = false

pub Maybe-cases {ℓ} :
    {A : Type ℓ} (m : Maybe A) → ((r : Reason) × (m ≡ unknown r)) ⊎ ((a : A) × (m ≡ known a))
Maybe-cases (known a) = inr (a, refl)
Maybe-cases (unknown r) = inl (r, refl)

pub record FaultEvent : Type 0 where
  pub t_s : ℤ
  pub kind : String
  pub detail : String

pub record LifetimeCounter : Type 0 where
  pub at_boot_s : ℤ
  pub last_seen_s : ℤ
  pub last_seen_at_s : ℤ

pub record FlightRecord : Type 0 where
  pub source : Source
  pub log_ref : String
  pub licence : String
  pub attribution : String
  pub firmware : String
  pub log_span_s : ℤ
  pub aircraft_key : Maybe String
  pub utc_start : Maybe DateTime
  pub flight_time_s : Maybe ℤ
  pub arm_cycles : Maybe ℤ
  pub landings : Maybe ℤ
  pub battery_mah : Maybe ℤ
  pub battery_wh : Maybe ℤ
  pub fault_events : Maybe (List FaultEvent)
  pub boot_count : Maybe ℤ
  pub lifetime : Maybe LifetimeCounter
  pub synthetic : Bool
