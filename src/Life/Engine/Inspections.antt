-- ===== src/Life/Engine/Inspections.antt =====
-- `_inspection_items`, `_disagreement` and `_disagreeing_items` of life/engine.py.
use Prim.Native.String.{◌++◌ as str_append}
use uas_sustainment_workbenc.Base.{
  ℤ, pos, ◌-ℤ◌, ◌*ℤ◌, ◌+ℤ◌, ltb_ℤ, leb_ℤ, eqb_ℤ, String, Bool, true, false, not, Option, none, some,
  List, [], ◌∷◌, ◌++◌, first, if◌then◌else◌,
}
use uas_sustainment_workbenc.Base.Time.{DateTime, ordinal, day_of, date_of_day, in_utc}
use uas_sustainment_workbenc.Flight.Record.{
  Reason, no_date, not_measured, records_disagree, derived_disagree, Maybe, known, unknown,
  FlightRecord,
}
use uas_sustainment_workbenc.Life.Model.{
  Basis, hours, cycles, calendar, overdue, not_known, InspectionDone, DueItem, Message, due_in,
  within_tolerance, beyond_tolerance, overdue_by, reason, counted_from, at_least,
}
use uas_sustainment_workbenc.Life.Policy.{LifeRule, limits}
use uas_sustainment_workbenc.Life.Engine.Rounding.{
  hours_of, round_3, days_between, end_of_month_after,
}
use uas_sustainment_workbenc.Life.Engine.Usage.{time_in_service, most_time_in_service}
use uas_sustainment_workbenc.Life.Engine.Items.{state_of}

-- HOURS_SLACK_S
abbrev pub hours_slack_s : ℤ
hours_slack_s = pos 1000

abbrev pub inspection_subject : LifeRule → String
inspection_subject rule = str_append "the " rule.name

abbrev pub blank_item : String → LifeRule → Basis → ℤ → DueItem
blank_item key rule basis limit = record {
  aircraft_key = key;
  subject = inspection_subject rule;
  component_id = none;
  basis = basis;
  used = known (pos 0);
  limit = limit;
  remaining = known (pos 0);
  tolerance = pos 0;
  state = not_known;
  source = rule.source;
  message = due_in;
}

abbrev pub hours_message : ℤ → ℤ → Message
hours_message remaining tolerance =
    if leb_ℤ (pos 0) remaining
    then due_in
    else if leb_ℤ ((pos 0 -ℤ remaining) *ℤ pos 1000) tolerance
    then within_tolerance
    else if not (eqb_ℤ tolerance (pos 0))
    then beyond_tolerance
    else overdue_by

-- An hours interval whose time in service, or whose recorded hours, cannot be used.
abbrev pub unmeasured : String → LifeRule → DateTime → ℤ → Reason → DueItem
unmeasured key rule as_of limit why = record (blank_item key rule hours limit) {
  used = unknown why;
  remaining = unknown why;
  tolerance = rule.tolerance_hours;
  message = reason (not_measured (inspection_subject rule) key (day_of as_of) why);
}

abbrev pub counted_since : Option InspectionDone → ℤ
counted_since none = pos 0
counted_since (some d) = d.at_hours_s -ℤ d.carried_over_s

unfoldable pub hours_item : String → LifeRule → Option InspectionDone → ℤ → ℤ → ℤ → DueItem
unfolding hours_of round_3 state_of
hours_item key rule done service fraction limit =
    let used = hours_of (service -ℤ counted_since done) in
    let remaining = round_3 (limit -ℤ used *ℤ pos 1000) in
    record (blank_item key rule hours limit) {
      used = known used;
      remaining = known remaining;
      tolerance = rule.tolerance_hours;
      state = state_of remaining limit rule.tolerance_hours fraction;
      message = hours_message remaining rule.tolerance_hours;
    }

unfoldable pub calendar_item :
    String → LifeRule → Option InspectionDone → DateTime → ℤ → ℤ → DueItem
unfolding state_of
calendar_item key rule none as_of fraction limit =
    let why = no_date (inspection_subject rule) key (day_of as_of) in
    record (blank_item key rule calendar limit) {
      used = unknown why;
      remaining = unknown why;
      message = reason why;
    }
calendar_item key rule (some done) as_of fraction limit =
    let start = day_of (in_utc done.done_utc) in
    let due = ordinal (end_of_month_after (date_of_day start) limit) in
    let scale = days_between due start in
    let remaining = days_between due (day_of as_of) in
    record (blank_item key rule calendar limit) {
      used = known (scale -ℤ remaining);
      remaining = known remaining;
      state = state_of remaining (scale *ℤ pos 1000) (pos 0) fraction;
      message = if leb_ℤ (pos 0) remaining then due_in else overdue_by;
    }

-- One round of the loop of `_inspection_items`: an interval in cycles has no item.
unfoldable pub inspection_item :
    String
    → LifeRule
    → Option InspectionDone
    → Maybe ℤ
    → DateTime
    → ℤ
    → Option Reason
    → Basis
    → ℤ
    → List DueItem
unfolding hours_item calendar_item
inspection_item key rule last (unknown why) as_of fraction disagree hours limit =
    unmeasured key rule as_of limit why ∷ []
inspection_item key rule last (known s) as_of fraction (some why) hours limit =
    unmeasured key rule as_of limit why ∷ []
inspection_item key rule last (known s) as_of fraction none hours limit =
    hours_item key rule last s fraction limit ∷ []
inspection_item key rule last service as_of fraction disagree calendar limit =
    calendar_item key rule last as_of fraction limit ∷ []
inspection_item key rule last service as_of fraction disagree cycles limit = []

module _ (key : String) (rule : LifeRule) (done : Option InspectionDone) (service : Maybe ℤ)
    (as_of : DateTime) (fraction : ℤ) (disagree : Option Reason) where
  unfoldable pub inspection_items_over : List (Basis × ℤ) → List DueItem
  unfolding inspection_item
  inspection_items_over [] = []
  inspection_items_over ((basis, limit) ∷ ls) =
      inspection_item key rule done service as_of fraction disagree basis limit
      ++ inspection_items_over ls

  -- `_inspection_items`
  unfoldable pub inspection_items : List DueItem
  unfolding inspection_items_over limits
  inspection_items = inspection_items_over (limits rule)

-- `_disagreement`
unfoldable pub disagreement : String → InspectionDone → ℤ → List FlightRecord → ℤ → Option Reason
unfolding most_time_in_service time_in_service
disagreement key done before records tolerance =
    let until = some done.done_utc in
    let most = most_time_in_service key before records tolerance until in
    let day = day_of (in_utc done.done_utc) in
    if ltb_ℤ (most +ℤ hours_slack_s) done.at_hours_s
    then some (records_disagree done.name day done.at_hours_s most)
    else if not done.derived
    then none
    else elim (time_in_service key before records tolerance until false) [
      | unknown _ ↦ none
      | known least ↦
          if leb_ℤ done.at_hours_s (least +ℤ hours_slack_s)
          then none
          else some (derived_disagree done.name day done.at_hours_s least)
    ]

abbrev is_hours : DueItem → Bool
is_hours i = elim i.basis [ hours ↦ true | _ ↦ false ]

abbrev is_overdue : DueItem → Bool
is_overdue i = elim i.state [ overdue ↦ true | _ ↦ false ]

abbrev left : DueItem → ℤ
left i = elim i.remaining [ unknown _ ↦ pos 0 | known r ↦ r ]

-- The figure a disagreeing inspection is counted from, and whether the records give it.
unfoldable pub least_hours : String → InspectionDone → ℤ → List FlightRecord → ℤ → ℤ × Bool
unfolding time_in_service most_time_in_service
least_hours key done before records tolerance =
    elim (time_in_service key before records tolerance (some done.done_utc) false) [
      | known least ↦ (least, true)
      | unknown _ ↦ (most_time_in_service key before records tolerance (some done.done_utc), false)
    ]

module _ (at : ℤ) (exact : Bool) (disagree : Reason) (stated : List DueItem) where
  -- One round of the loop of `_disagreeing_items`; `stated` are the items at the recorded hours.
  unfoldable pub disagreeing_item : DueItem → List DueItem
  disagreeing_item i =
      if not (is_hours i)
      then i ∷ []
      else if exact
      then record i { message = counted_from i.message at disagree } ∷ []
      else if is_overdue i
      then record i { message = at_least (left i) disagree } ∷ []
      else elim (first is_hours stated) [ none ↦ [] | some u ↦ u ∷ [] ]

  unfoldable pub disagreeing_over : List DueItem → List DueItem
  unfolding disagreeing_item
  disagreeing_over [] = []
  disagreeing_over (i ∷ is) = disagreeing_item i ++ disagreeing_over is

-- `_disagreeing_items`
unfoldable pub disagreeing_items :
    String
    → LifeRule
    → InspectionDone
    → Reason
    → ℤ
    → List FlightRecord
    → Maybe ℤ
    → DateTime
    → ℤ
    → ℤ
    → List DueItem
unfolding least_hours inspection_items disagreeing_over
disagreeing_items key rule done disagree before records service as_of fraction tolerance =
    let (at, exact) = least_hours key done before records tolerance in
    disagreeing_over at exact disagree
      (inspection_items key rule (some done) service as_of fraction (some disagree))
      (inspection_items key rule (some (record done { at_hours_s = at })) service as_of fraction
        none)
