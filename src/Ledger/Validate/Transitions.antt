-- ===== src/Ledger/Validate/Transitions.antt =====
-- `_limits_past` and `_transitions` of ledger/validate.py: an entry judged against the records as they
-- stood when it happened.
use Prim.Native.String.{◌++◌ as str_append}
use uas_sustainment_workbenc.Base.{
  ℤ, ◌*ℤ◌, pos, negsuc, sub_ℕ, ◌+◌, ◌*◌, ltb, leb_ℤ, eqb_ℤ, String, str_eq, Bool, true, false, not,
  any, keep, Option, none, some, List, [], ◌∷◌, first, if◌then◌else◌,
}
use uas_sustainment_workbenc.Base.Dict.{Dict, get, put}
use uas_sustainment_workbenc.Base.Time.{DateTime, in_utc, day_of, ordinal}
use uas_sustainment_workbenc.Flight.Record.{known, unknown}
use uas_sustainment_workbenc.Life.Model.{
  Basis, hours, cycles, calendar, Component, Installation, Usage,
}
use uas_sustainment_workbenc.Life.Policy.{LifeRule, limits}
use uas_sustainment_workbenc.Life.Engine.Rounding.{hours_of, end_of_month_after, round_div}
use uas_sustainment_workbenc.Life.Engine.Usage.{component_usage, time_in_service}
use uas_sustainment_workbenc.Ledger.Model.{
  Kind, work_order_open, work_order_state, work_order_close, inspection_done, component_install,
  component_remove, Value, null, flag, integer, number, text, Entry, Projection, WorkOrderState,
}
use uas_sustainment_workbenc.Ledger.Store.{Store, next_entry_id}
use uas_sustainment_workbenc.Ledger.Judged.{
  Judged, accepted, refuse, refuse_if, found_or, ◌>>=◌, ◌>>◌, order_exists, default_order_exists,
  no_open_order, order_opened_later, order_closed, not_registered_by_then, installed_on,
  installed_elsewhere, not_installed, at_its_limit, hours_not_derived,
}
use uas_sustainment_workbenc.Ledger.Validate.Shape.{Rules}
use uas_sustainment_workbenc.Ledger.Validate.Checks.{text_of, or_null}

-- Whether one limit of `_limits_past` is reached at the usage and the date.
unfoldable pub limit_past : Component → Usage → DateTime → Basis × ℤ → Bool
unfolding hours_of end_of_month_after in_utc day_of
limit_past c u at (hours, limit) = leb_ℤ limit (hours_of u.hours_s *ℤ pos 1000)
limit_past c u at (cycles, limit) = leb_ℤ limit u.cycles
limit_past c u at (calendar, limit) =
    ltb (ordinal (end_of_month_after c.in_service_since limit)) (day_of (in_utc at))

abbrev pub bases : List (Basis × ℤ) → List Basis
bases [] = []
bases ((b, _) ∷ ls) = b ∷ bases ls

-- `_limits_past`
unfoldable pub limits_past : Rules → Store → Component → LifeRule → DateTime → List Basis
unfolding limit_past limits component_usage
limits_past rules store c rule at =
    let u = component_usage c store.flights rules.tolerance (some at) in
    bases (keep (limit_past c u at) (limits rule))

abbrev pub orders_on : String → Projection → List WorkOrderState
orders_on subject p = elim (get p.work_orders subject) [ none ↦ [] | some ws ↦ ws ]

abbrev pub has_order : Value → List WorkOrderState → Bool
has_order v ws = any (λ w. elim v [ text s ↦ str_eq w.work_id s | _ ↦ false ]) ws

-- whole is not None and any(w.work_id == wid ...)
abbrev pub order_in : Option Projection → String → Value → Bool
order_in none subject v = false
order_in (some p) subject v = has_order v (orders_on subject p)

-- `wid` in a test: None, "", 0 and False are false.
abbrev pub is_truthy : Value → Bool
is_truthy null = false
is_truthy (flag b) = b
is_truthy (integer n) = not (eqb_ℤ n (pos 0))
is_truthy (number n) = not (eqb_ℤ n (pos 0))
is_truthy (text s) = not (str_eq s "")
is_truthy _ = true

-- work_order.open: an id typed or assigned is one the aircraft's whole history does not hold.
unfoldable pub open_order :
    Rules → Store → Entry → Dict Value → Option Projection → Judged (Dict Value)
unfolding next_entry_id
open_order rules store e details whole =
    let assigned = str_append "WO-" (rules.decimal (next_entry_id store)) in
    let wid = or_null (get details "work_id") in
    if is_truthy wid
    then (do
      refuse_if (order_in whole e.subject wid) 409 (order_exists e.subject)
      accepted details)
    else (do
      refuse_if (order_in whole e.subject (text assigned)) 409 (default_order_exists assigned)
      accepted (put details "work_id" (text assigned)))

abbrev pub find_order : String → List WorkOrderState → Option WorkOrderState
find_order wid ws = first (λ w. str_eq w.work_id wid) ws

abbrev pub order_later : Option Projection → String → String → Option WorkOrderState
order_later none subject wid = none
order_later (some p) subject wid = find_order wid (orders_on subject p)

-- work_order.state and work_order.close: the order is open by then.
unfoldable pub change_order :
    Rules → Entry → Dict Value → Projection → Option Projection → Judged (Dict Value)
unfolding text_of
change_order rules e details then_ whole = do
  wid ← text_of rules details "work_id"
  found_or (find_order wid (orders_on e.subject then_))
      (found_or (order_later whole e.subject wid) (refuse 409 (no_open_order wid))
        λ w. refuse 409 (order_opened_later wid w.opened_utc))
      λ w. found_or w.closed_utc (accepted details) λ t. refuse 409 (order_closed wid t)

abbrev pub is_open : Installation → Bool
is_open i = elim i.to_utc [ none ↦ true | some _ ↦ false ]

abbrev pub refuse_past : String → List Basis → Judged (Unit {0})
refuse_past id [] = accepted tt
refuse_past id (b ∷ bs) = refuse 409 (at_its_limit (b ∷ bs))

-- _limits_past(...) if the policy has a rule for the kind, else []
unfoldable pub past_at : Rules → Store → Entry → Component → List Basis
unfolding limits_past
past_at rules store e c = elim (get rules.policy.component_kinds c.kind) [
  | none ↦ []
  | some rule ↦ limits_past rules store c rule e.occurred_utc
]

-- component.install: on nothing, and within every life limit of its kind.
unfoldable pub install : Rules → Store → Entry → Component → Dict Value → Judged (Dict Value)
unfolding past_at found_or
install rules store e c details = do
  found_or (first is_open c.installations) (refuse_past c.id (past_at rules store e c))
      λ i. refuse 409 (installed_on i.aircraft_key)
  accepted details

-- component.remove: on that aircraft.
unfoldable pub remove : Component → String → Dict Value → Judged (Dict Value)
unfolding found_or
remove c key details = found_or (first is_open c.installations) (refuse 409 not_installed) λ i.
    if str_eq i.aircraft_key key
    then accepted details
    else refuse 409 (installed_elsewhere i.aircraft_key)

-- round(least, 1): to the nearest tenth, a half to the even one, in thousandths.
unfoldable pub round_tenth : ℤ → ℤ
unfolding round_div
round_tenth (pos n) = pos (round_div n 100 * 100)
round_tenth (negsuc n) = sub_ℕ 0 (round_div (n + 1) 100 * 100)

abbrev pub before_at : String → Projection → ℤ
before_at subject p = elim (get p.maintenance subject) [
  | none ↦ pos 0
  | some m ↦ m.time_in_service_before_s
]

abbrev pub is_stated : Option Value → Bool
is_stated none = false
is_stated (some v) = elim v [ null ↦ false | _ ↦ true ]

-- details["at_hours_s"] = round(least, 1); details["derived"] = True
abbrev pub with_hours : Dict Value → ℤ → Dict Value
with_hours details least =
    put (put details "at_hours_s" (number (round_tenth least))) "derived" (flag true)

-- inspection.done: hours that are not stated are derived, the least the records allow.
unfoldable pub derive_hours : Rules → Store → Entry → Dict Value → Projection → Judged (Dict Value)
unfolding time_in_service round_tenth
derive_hours rules store e details then_ =
    if is_stated (get details "at_hours_s")
    then accepted details
    else elim (time_in_service e.subject (before_at e.subject then_) (store.flights e.subject)
        rules.tolerance (some e.occurred_utc) false) [
          | unknown why ↦ refuse 422 hours_not_derived
          | known least ↦ accepted (with_hours details least)
        ]

abbrev pub find_component : String → Projection → Option Component
find_component id p = first (λ c. str_eq c.id id) p.components

-- The branch of component.install and component.remove.
unfoldable pub move_component :
    Rules → Store → Entry → Dict Value → Projection → Bool → Judged (Dict Value)
unfolding install remove text_of
move_component rules store e details then_ fits =
    found_or (find_component e.subject then_) (refuse 409 (not_registered_by_then e.subject)) λ c.
      do
        key ← text_of rules details "aircraft_key"
        if fits then install rules store e c details else remove c key details

-- `_transitions`
unfoldable pub transitions :
    Rules → Store → Kind → Entry → Dict Value → Projection → Option Projection → Judged (Dict Value)
unfolding open_order change_order move_component derive_hours
transitions rules store work_order_open e details then_ whole =
    open_order rules store e details whole
transitions rules store work_order_state e details then_ whole =
    change_order rules e details then_ whole
transitions rules store work_order_close e details then_ whole =
    change_order rules e details then_ whole
transitions rules store component_install e details then_ whole =
    move_component rules store e details then_ true
transitions rules store component_remove e details then_ whole =
    move_component rules store e details then_ false
transitions rules store inspection_done e details then_ whole =
    derive_hours rules store e details then_
transitions rules store _ e details then_ whole = accepted details
