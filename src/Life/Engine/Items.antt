-- ===== src/Life/Engine/Items.antt =====
-- `_state` and `_component_items` of life/engine.py.
use Prim.Native.String.{◌++◌ as str_append}
use uas_sustainment_workbenc.Base.{
  ℤ, pos, ◌-ℤ◌, ◌*ℤ◌, ltb_ℤ, leb_ℤ, eqb_ℤ, String, Bool, false, some, List, map, if◌then◌else◌,
}
use uas_sustainment_workbenc.Base.Time.{DateTime, ordinal, day_of}
use uas_sustainment_workbenc.Flight.Record.{known}
use uas_sustainment_workbenc.Life.Model.{
  Basis, hours, cycles, calendar, DueState, ok, due_soon, overdue_within_tolerance, overdue,
  Component, Usage, DueItem, Message, left_of, reached, past,
}
use uas_sustainment_workbenc.Life.Policy.{LifeRule, limits}
use uas_sustainment_workbenc.Life.Engine.Rounding.{
  hours_of, round_3, days_between, end_of_month_after,
}

-- `_state`; the fraction is a number of thousandths, and the limit and the tolerance are in thousandths of the
-- unit of what remains.
unfoldable pub state_of : ℤ → ℤ → ℤ → ℤ → DueState
state_of remaining limit tolerance fraction =
    if ltb_ℤ remaining (pos 0)
    then (if leb_ℤ ((pos 0 -ℤ remaining) *ℤ pos 1000) tolerance
        then overdue_within_tolerance
        else overdue)
    else if leb_ℤ (remaining *ℤ pos 1000000) (fraction *ℤ limit)
    then due_soon
    else ok

abbrev pub life_message : ℤ → Message
life_message remaining =
    if ltb_ℤ (pos 0) remaining then left_of else if eqb_ℤ remaining (pos 0) then reached else past

-- What `_component_items` measures on one basis: used, remaining, the scale in thousandths of their unit, whether
-- it is reached. A limit in hours is a number of millionths; used and remaining hours are thousandths.
pub record Measure : Type 0 where
  pub used : ℤ
  pub remaining : ℤ
  pub scale : ℤ
  pub is_reached : Bool
  pub message : Message

unfoldable pub measure : Component → Usage → DateTime → Basis → ℤ → Measure
unfolding hours_of round_3
measure c u as_of hours limit =
    let remaining = round_3 (limit -ℤ hours_of u.hours_s *ℤ pos 1000) in
    record {
      used = hours_of u.hours_s;
      remaining = remaining;
      scale = limit;
      is_reached = leb_ℤ remaining (pos 0);
      message = life_message remaining;
    }
measure c u as_of cycles limit =
    let remaining = limit -ℤ u.cycles in
    record {
      used = u.cycles;
      remaining = remaining;
      scale = limit *ℤ pos 1000;
      is_reached = leb_ℤ remaining (pos 0);
      message = life_message remaining;
    }
measure c u as_of calendar limit =
    let due = ordinal (end_of_month_after c.in_service_since limit) in
    let scale = days_between due (ordinal c.in_service_since) in
    let remaining = days_between due (day_of as_of) in
    record {
      used = scale -ℤ remaining;
      remaining = remaining;
      scale = scale *ℤ pos 1000;
      is_reached = false;
      message = if leb_ℤ (pos 0) remaining then left_of else past;
    }

unfoldable pub component_item :
    String → Component → LifeRule → Usage → DateTime → ℤ → Basis × ℤ → DueItem
unfolding measure state_of
component_item key c rule u as_of fraction (basis, limit) =
    let m = measure c u as_of basis limit in
    record {
      aircraft_key = key;
      subject = str_append c.kind (str_append " " c.id);
      component_id = some c.id;
      basis = basis;
      used = known m.used;
      limit = limit;
      remaining = known m.remaining;
      tolerance = pos 0;
      state = if m.is_reached then overdue else state_of m.remaining m.scale (pos 0) fraction;
      source = rule.source;
      message = m.message;
    }

-- `_component_items`
unfoldable pub component_items : String → Component → LifeRule → Usage → DateTime → ℤ → List DueItem
unfolding component_item limits
component_items key c rule u as_of fraction =
    map (component_item key c rule u as_of fraction) (limits rule)
