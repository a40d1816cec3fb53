-- ===== src/Life/Engine/Usage.antt =====
-- The usage functions of life/engine.py: which logs count, and what they add up to.
pub mod Monotone
use uas_sustainment_workbenc.Base.{
  ℕ, ℤ, pos, negsuc, pos_part, sub_ℕ, ◌+ℤ◌, ◌-ℤ◌, ltb_ℤ, leb_ℤ, ◌+◌, ◌-◌, ◌*◌, ◌/◌, ◌%◌, ltb, leb,
  ◌==◌, String, str_eq, Bool, true, false, not, ◌&&◌, ◌||◌, any, keep, Option, none, some, List, [],
  ◌∷◌, ◌++◌, if◌then◌else◌,
}
use uas_sustainment_workbenc.Base.Dict.{Dict, get}
use uas_sustainment_workbenc.Base.Time.{DateTime, add_seconds}
use uas_sustainment_workbenc.Flight.Record.{
  Reason, duplicate_of, before_first_log, Maybe, known, unknown, is_known, FlightRecord,
}
use uas_sustainment_workbenc.Flight.Reconcile.{
  Reconciliation, Finding, unlogged_flight, counter_mismatch, reconcile,
}
use uas_sustainment_workbenc.Life.Model.{
  Installation, Component, Usage, Note, not_counted_duplicate,
}

pub record Flown : Type 0 where
  pub log_ref : String
  pub utc : Maybe DateTime
  pub seconds : ℤ
  pub cycle : Bool

pub record AircraftUsage : Type 0 where
  pub flown : List Flown
  pub unlogged : List (Maybe DateTime × ℤ)
  pub notes : List Note

-- The log's start plus its span; in UTC, as every start a reader gives.
unfoldable pub log_end : FlightRecord → Maybe DateTime
log_end r = elim r.utc_start [
  | unknown why ↦ unknown why
  | known t ↦ known (record t { utc = add_seconds t.utc r.log_span_s })
]

unfoldable pub counted : FlightRecord → Option DateTime → Bool → Bool
unfolding log_end
counted r until undated = elim (log_end r) [
  | unknown why ↦ undated
  | known end ↦ elim until [ none ↦ true | some t ↦ leb end.utc t.utc ]
]

-- {r.log_ref: r for r in records}.get(ref): a later record of the same reference wins.
unfoldable pub by_ref : List FlightRecord → String → Option FlightRecord
by_ref [] ref = none
by_ref (r ∷ rs) ref =
    let rest = by_ref rs ref in
    elim rest [ some x ↦ some x | none ↦ if str_eq r.log_ref ref then some r else none ]

-- why.startswith("duplicate of ")
abbrev pub is_duplicate : Option Reason → Bool
is_duplicate none = false
is_duplicate (some why) = elim why [ duplicate_of k ↦ true | _ ↦ false ]

abbrev pub flown_of : FlightRecord → Flown
flown_of r = record {
  log_ref = r.log_ref;
  utc = r.utc_start;
  seconds = elim r.flight_time_s [ unknown _ ↦ pos 0 | known s ↦ s ];
  cycle = elim r.flight_time_s [ unknown _ ↦ true | known s ↦ ltb_ℤ (pos 0) s ];
}

module _ (result : Reconciliation) (until : Option DateTime) (undated : Bool) where
  -- The loop over the records of `_usage`.
  unfoldable pub flown_logs : List FlightRecord → List Flown
  unfolding counted
  flown_logs [] = []
  flown_logs (r ∷ rs) =
      let rest = flown_logs rs in
      if is_duplicate (get result.unchecked r.log_ref)
      then rest
      else if counted r until undated
      then flown_of r ∷ rest
      else rest

  unfoldable pub duplicate_notes : String → List FlightRecord → List Note
  duplicate_notes key [] = []
  duplicate_notes key (r ∷ rs) =
      let rest = duplicate_notes key rs in
      if is_duplicate (get result.unchecked r.log_ref)
      then not_counted_duplicate r.log_ref key ∷ rest
      else rest

  -- The unlogged flight of `_usage`, with the start of the log it followed.
  unfoldable pub unlogged_of : List FlightRecord → List Finding → List (Maybe DateTime × ℤ)
  unfolding counted by_ref
  unlogged_of records [] = []
  unlogged_of records (f ∷ fs) =
      let rest = unlogged_of records fs in
      elim f.kind [
        | counter_mismatch ↦ rest
        | unlogged_flight ↦ elim (by_ref records f.log_ref) [
          | none ↦ rest
          | some r ↦ if counted r until undated then (r.utc_start, f.seconds) ∷ rest else rest
        ]
      ]

-- `_usage`
unfoldable pub usage : String → List FlightRecord → ℤ → Option DateTime → Bool → AircraftUsage
unfolding flown_logs duplicate_notes unlogged_of
usage key records tolerance until undated =
    let result = reconcile records (some key) tolerance in
    record {
      flown = flown_logs result until undated records;
      unlogged = unlogged_of result until undated records result.findings;
      notes = duplicate_notes result until undated key records;
    }

abbrev pub sum_flown : List Flown → ℤ
sum_flown [] = pos 0
sum_flown (f ∷ fs) = f.seconds +ℤ sum_flown fs

abbrev pub sum_unlogged : List (Maybe DateTime × ℤ) → ℤ
sum_unlogged [] = pos 0
sum_unlogged ((_, s) ∷ us) = s +ℤ sum_unlogged us

abbrev pub earlier : Option DateTime → Maybe DateTime → Option DateTime
earlier o (unknown _) = o
earlier none (known t) = some t
earlier (some m) (known t) = if ltb t.utc m.utc then some t else some m

-- `_first_log`: the earliest known start.
unfoldable pub first_log_from : Option DateTime → List FlightRecord → Option DateTime
first_log_from o [] = o
first_log_from o (r ∷ rs) = first_log_from (earlier o r.utc_start) rs

unfoldable pub first_log : List FlightRecord → Option DateTime
unfolding first_log_from
first_log = first_log_from none

-- `_not_known`
unfoldable pub not_known : String → ℤ → Option DateTime → Option DateTime → Option Reason
not_known key before none first = none
not_known key before (some until) none = none
not_known key before (some until) (some first) =
    if leb_ℤ before (pos 0) || leb first.utc until.utc
    then none
    else some (before_first_log key first.utc before)

abbrev pub total : ℤ → AircraftUsage → ℤ
total before own = before +ℤ sum_flown own.flown +ℤ sum_unlogged own.unlogged

unfoldable pub most_time_in_service : String → ℤ → List FlightRecord → ℤ → Option DateTime → ℤ
unfolding usage
most_time_in_service key before records tolerance until =
    total before (usage key records tolerance until true)

unfoldable pub time_in_service :
    String → ℤ → List FlightRecord → ℤ → Option DateTime → Bool → Maybe ℤ
unfolding usage not_known first_log
time_in_service key before records tolerance until undated =
    elim (not_known key before until (first_log records)) [
      | some why ↦ unknown why
      | none ↦ known (total before (usage key records tolerance until undated))
    ]

-- `_installed_on`
unfoldable pub installed_on : Component → String → DateTime → Bool
installed_on c key as_of =
    any
      (λ i.
        str_eq i.aircraft_key key
        && (leb i.from_utc.utc as_of.utc
            && elim i.to_utc [ none ↦ true | some t ↦ ltb as_of.utc t.utc ]))
      c.installations

-- `_in_window`
unfoldable pub in_window : Maybe DateTime → DateTime → Option DateTime → Bool
in_window (unknown _) start end = false
in_window (known t) start end =
    leb start.utc t.utc && elim end [ none ↦ true | some e ↦ ltb t.utc e.utc ]

module _ (start : DateTime) (end : Option DateTime) where
  -- The inner loops of `_component_usage`, over one installation window.
  unfoldable pub add_flown : List Flown → Usage → Usage
  unfolding in_window
  add_flown [] u = u
  add_flown (f ∷ fs) u = add_flown fs (
      if in_window f.utc start end
      then record {
        hours_s = u.hours_s +ℤ f.seconds;
        cycles = u.cycles +ℤ (if f.cycle then pos 1 else pos 0);
      }
      else u)

  unfoldable pub add_unlogged : List (Maybe DateTime × ℤ) → Usage → Usage
  unfolding in_window
  add_unlogged [] u = u
  add_unlogged ((t, s) ∷ us) u =
      add_unlogged us (if in_window t start end then record u { hours_s = u.hours_s +ℤ s } else u)

-- `_component_usage`; `of` is the usage of an aircraft.
unfoldable pub usage_over : (String → AircraftUsage) → List Installation → Usage → Usage
unfolding add_flown add_unlogged
usage_over of [] u = u
usage_over of (i ∷ is) u = usage_over of is (
    add_unlogged i.from_utc i.to_utc (of i.aircraft_key).unlogged
      (add_flown i.from_utc i.to_utc (of i.aircraft_key).flown u))

-- `component_usage`
unfoldable pub component_usage :
    Component → (String → List FlightRecord) → ℤ → Option DateTime → Usage
unfolding usage_over usage
component_usage c flights_of tolerance until =
    usage_over (λ k. usage k (flights_of k) tolerance until true) c.installations
      (record { hours_s = c.hours_s_before; cycles = c.cycles_before })
