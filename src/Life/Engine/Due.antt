-- ===== src/Life/Engine/Due.antt =====
-- `due_list` of life/engine.py: every limit that applies to an aircraft at a date.
pub mod Instant
use uas_sustainment_workbenc.Base.{
  ℤ, pos, ltb, String, Bool, true, false, ◌&&◌, ◌||◌, any, keep, Option, none, some, List, [], ◌∷◌,
  ◌++◌, if◌then◌else◌,
}
use uas_sustainment_workbenc.Base.Dict.{Dict, get, put}
use uas_sustainment_workbenc.Base.Time.{DateTime, in_utc}
use uas_sustainment_workbenc.Flight.Record.{
  Reason, no_record, Maybe, known, unknown, is_known, FlightRecord,
}
use uas_sustainment_workbenc.Life.Model.{
  Basis, hours, cycles, calendar, Component, InspectionDone, MaintenanceRecord, Usage, DueItem,
  DueList, WorkOrder, Note, no_utc_start, kind_without_rule, never_recorded, cannot_place,
}
use uas_sustainment_workbenc.Life.Policy.{LifeRule, LifePolicy, limits}
use uas_sustainment_workbenc.Life.Engine.Usage.{
  Flown, AircraftUsage, usage, usage_over, installed_on, first_log, not_known, total,
}
use uas_sustainment_workbenc.Life.Engine.Items.{component_items}
use uas_sustainment_workbenc.Life.Engine.Inspections.{
  inspection_items, disagreement, disagreeing_items,
}

abbrev undated_notes : List Flown → List Note
undated_notes [] = []
undated_notes (f ∷ fs) =
    let rest = undated_notes fs in if is_known f.utc then rest else no_utc_start f.log_ref ∷ rest

abbrev unplaced_notes : String → List Flown → List Note
unplaced_notes name [] = []
unplaced_notes name (f ∷ fs) =
    let rest = unplaced_notes name fs in
    if is_known f.utc then rest else cannot_place f.log_ref name f.seconds ∷ rest

-- The later of two completed inspections; the first of two at one instant.
abbrev pub later_done : InspectionDone → InspectionDone → InspectionDone
later_done a b = if ltb a.done_utc.utc b.done_utc.utc then b else a

-- done_by_name: for each name its latest completion.
unfoldable pub done_by_name : List InspectionDone → Dict InspectionDone → Dict InspectionDone
done_by_name [] d = d
done_by_name (i ∷ is) d = done_by_name is (elim (get d i.name) [
  | none ↦ put d i.name i
  | some before ↦ put d i.name (later_done before i)
])

-- The latest completion of the named inspections: max over `satisfying`.
unfoldable pub latest_of : Dict InspectionDone → List String → Option InspectionDone
latest_of d [] = none
latest_of d (n ∷ ns) =
    let rest = latest_of d ns in
    elim (get d n) [
      | none ↦ rest
      | some i ↦ elim rest [ none ↦ some i | some j ↦ some (later_done i j) ]
    ]

abbrev pub same_basis : Basis → Basis → Bool
same_basis hours hours = true
same_basis cycles cycles = true
same_basis calendar calendar = true
same_basis _ _ = false

abbrev pub has_basis : LifeRule → Basis → Bool
has_basis rule b = any (λ l. same_basis l.0 b) (limits rule)

pub record Sheet : Type 0 where
  pub sheet_items : List DueItem
  pub sheet_usage : Dict Usage
  pub sheet_notes : List Note

module _ (key : String) (policy : LifePolicy) (as_of : DateTime) (of : String → AircraftUsage) where
  -- The loop over the installed components.
  unfoldable pub component_sheet : List Component → Sheet → Sheet
  unfolding usage_over component_items
  component_sheet [] s = s
  component_sheet (c ∷ cs) s = component_sheet cs (elim (get policy.component_kinds c.kind) [
    | none ↦ record s { sheet_notes = s.sheet_notes ++ kind_without_rule c.kind c.id ∷ [] }
    | some rule ↦
        let u =
          usage_over of c.installations
            (record { hours_s = c.hours_s_before; cycles = c.cycles_before }) in
        record s {
          sheet_items =
              s.sheet_items ++ component_items key c rule u as_of policy.due_soon_fraction;
          sheet_usage = put s.sheet_usage c.id u;
        }
  ])

module _ (key : String) (policy : LifePolicy) (as_of : DateTime) (before : ℤ)
    (records : List FlightRecord) (tolerance : ℤ) (flown : List Flown) (service : Maybe ℤ)
    (completed : Dict InspectionDone) where
  -- What the records say of the completion an hours interval is counted from.
  unfoldable pub disagreement_of : LifeRule → Option InspectionDone → Option Reason
  unfolding disagreement
  disagreement_of rule none = none
  disagreement_of rule (some last) =
      if has_basis rule hours && is_known service
      then disagreement key last before records tolerance
      else none

  unfoldable pub items_of : LifeRule → Option InspectionDone → List DueItem
  unfolding disagreement_of inspection_items disagreeing_items
  items_of rule none = inspection_items key rule none service as_of policy.due_soon_fraction none
  items_of rule (some last) = elim (disagreement_of rule (some last)) [
    | none ↦ inspection_items key rule (some last) service as_of policy.due_soon_fraction none
    | some why ↦
        disagreeing_items key rule last why before records service as_of policy.due_soon_fraction
          tolerance
  ]

  unfoldable pub notes_of : String → LifeRule → Option InspectionDone → List Note
  notes_of name rule none =
      let from_zero = has_basis rule hours && is_known service in
      if from_zero || has_basis rule calendar
      then never_recorded name (has_basis rule calendar) from_zero ∷ []
      else []
  notes_of name rule (some last) =
      if has_basis rule hours && is_known service then unplaced_notes last.name flown else []

  -- The loop over the inspections of the policy.
  unfoldable pub inspection_sheet : Dict LifeRule → Sheet → Sheet
  unfolding items_of notes_of latest_of
  inspection_sheet [] s = s
  inspection_sheet ((name, rule) ∷ rules) s =
      let last = latest_of completed (name ∷ rule.satisfied_by) in
      inspection_sheet rules (record s {
        sheet_items = s.sheet_items ++ items_of rule last;
        sheet_notes = s.sheet_notes ++ notes_of name rule last;
      })

abbrev pub before_of : Option MaintenanceRecord → ℤ
before_of none = pos 0
before_of (some m) = m.time_in_service_before_s

abbrev pub inspections_of : Option MaintenanceRecord → List InspectionDone
inspections_of none = []
inspections_of (some m) = m.inspections

abbrev pub work_orders_of : Option MaintenanceRecord → List WorkOrder
work_orders_of none = []
work_orders_of (some m) = m.work_orders

abbrev pub is_none {ℓ} : {A : Type ℓ} → Option A → Bool
is_none none = true
is_none (some a) = false

abbrev pub is_empty {ℓ} : {A : Type ℓ} → List A → Bool
is_empty [] = true
is_empty (x ∷ xs) = false

-- The time in service of the due list.
unfoldable pub service_of : String → ℤ → List FlightRecord → DateTime → AircraftUsage → Maybe ℤ
unfolding not_known first_log
service_of key before records as_of own =
    elim (not_known key before (some as_of) (first_log records)) [
      | some why ↦ unknown why
      | none ↦ known (total before own)
    ]

-- The due list of an aircraft with a record or a component, `as_of` already in UTC.
unfoldable pub due_list_of :
    String
    → Option MaintenanceRecord
    → List Component
    → (String → List FlightRecord)
    → LifePolicy
    → DateTime
    → ℤ
    → DueList
unfolding usage service_of component_sheet inspection_sheet done_by_name
due_list_of key maintenance installed flights_of policy as_of tolerance =
    let of = λ (k : String). usage k (flights_of k) tolerance (some as_of) true in
    let own = of key in
    let before = before_of maintenance in
    let service = service_of key before (flights_of key) as_of own in
    let sheet =
      inspection_sheet key policy as_of before (flights_of key) tolerance own.flown service
        (done_by_name (inspections_of maintenance) []) policy.inspections
        (component_sheet key policy as_of of installed (record {
          sheet_items = [];
          sheet_usage = [];
          sheet_notes = own.notes ++ (if is_empty installed then [] else undated_notes own.flown);
        })) in
    record {
      aircraft_key = key;
      as_of = as_of;
      has_record = true;
      time_in_service_s = service;
      items = sheet.sheet_items;
      usage = sheet.sheet_usage;
      work_orders = work_orders_of maintenance;
      notes = sheet.sheet_notes;
    }

-- `due_list` after its first line, which takes `as_of` to UTC.
unfoldable pub due_list_at :
    String
    → Option MaintenanceRecord
    → List Component
    → (String → List FlightRecord)
    → LifePolicy
    → ℤ
    → DateTime
    → DueList
unfolding installed_on due_list_of
due_list_at key maintenance components flights_of policy tolerance as_of =
    let installed = keep (λ c. installed_on c key as_of) components in
    if is_none maintenance && is_empty installed
    then record {
      aircraft_key = key;
      as_of = as_of;
      has_record = false;
      time_in_service_s = unknown no_record;
      items = [];
      usage = [];
      work_orders = [];
      notes = [];
    }
    else due_list_of key maintenance installed flights_of policy as_of tolerance

-- `due_list`
unfoldable pub due_list :
    String
    → Option MaintenanceRecord
    → List Component
    → (String → List FlightRecord)
    → LifePolicy
    → DateTime
    → ℤ
    → DueList
unfolding due_list_at in_utc
due_list key maintenance components flights_of policy as_of tolerance =
    due_list_at key maintenance components flights_of policy tolerance (in_utc as_of)
