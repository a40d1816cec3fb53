-- ===== src/Ledger/Project/Fold.antt =====
-- `_fold` of ledger/project.py: one live entry folded into the records, its details typed as it reads
-- them. Python's own conversions of a JSON value are a parameter.
use uas_sustainment_workbenc.Base.{
  ℕ, ℤ, pos, ◌+◌, String, str_eq, Bool, true, false, ◌&&◌, Option, none, some, List, [], ◌∷◌, ◌++◌,
  if◌then◌else◌,
}
use uas_sustainment_workbenc.Base.Time.{DateTime, Date}
use uas_sustainment_workbenc.Base.Dict.{Dict, get, put}
use uas_sustainment_workbenc.Life.Model.{
  Installation, InspectionDone, WorkState, deferred, in_work, awaiting_parts, other_state,
}
use uas_sustainment_workbenc.Ledger.Model.{
  Kind, work_order_open, work_order_state, work_order_close, inspection_done, time_in_service_set,
  component_register, component_install, component_remove, Value, flag, Entry, WorkOrderState, Why,
  missing, malformed,
}

-- str(v), float(v), int(v) and date.fromisoformat(str(v)); none where the conversion raises.
pub record Conversions : Type 0 where
  pub to_str : Value → String
  pub to_float : Value → Option ℤ
  pub to_int : Value → Option ℤ
  pub to_date : Value → Option Date

pub data Outcome {ℓ} (A : Type ℓ) : Type ℓ where
  ok : A → Outcome A
  raise : Why → Outcome A

infixl 5 ◌>>=◌
abbrev pub ◌>>=◌ {ℓ κ} : {A : Type ℓ} {B : Type κ} → Outcome A → (A → Outcome B) → Outcome B
ok a >>= f = f a
raise w >>= f = raise w

pub record AircraftRecords : Type 0 where
  pub before_s : ℤ
  pub inspections : List InspectionDone
  pub orders : Dict WorkOrderState
  pub entries : ℕ
  pub synthetic : Bool

abbrev pub new_aircraft : AircraftRecords
new_aircraft = record {
  before_s = pos 0;
  inspections = [];
  orders = [];
  entries = 0;
  synthetic = true;
}

pub record ComponentRecords : Type 0 where
  pub kind : String
  pub in_service_since : Date
  pub hours_s_before : ℤ
  pub cycles_before : ℤ
  pub installations : List Installation
  pub synthetic : Bool
  pub registered_at : DateTime

pub record Records : Type 0 where
  pub aircraft : Dict AircraftRecords
  pub components : Dict ComponentRecords

-- A text is taken for a state as it is written.
abbrev pub work_state : String → WorkState
work_state s =
    if str_eq s "deferred"
    then deferred
    else if str_eq s "in_work"
    then in_work
    else if str_eq s "awaiting_parts"
    then awaiting_parts
    else other_state s

module _ {ℓ} {A : Type ℓ} where
  -- `_detail` of a required detail.
  abbrev pub detail : Dict Value → String → (Value → Option A) → Outcome A
  detail p name convert = elim (get p name) [
    | none ↦ raise (missing name)
    | some v ↦ elim (convert v) [ none ↦ raise (malformed name) | some a ↦ ok a ]
  ]

  -- `_detail` with a default.
  abbrev pub detail_or : Dict Value → String → (Value → Option A) → A → Outcome A
  detail_or p name convert default = elim (get p name) [
    | none ↦ ok default
    | some v ↦ elim (convert v) [ none ↦ raise (malformed name) | some a ↦ ok a ]
  ]

abbrev pub is_true : Option Value → Bool
is_true o = elim o [ none ↦ false | some v ↦ elim v [ flag b ↦ b | _ ↦ false ] ]

-- `_with` the time the order was closed.
abbrev pub closed_at : WorkOrderState → DateTime → WorkOrderState
closed_at w t = record w { closed_utc = some t }

-- The first open window on the aircraft is closed.
abbrev pub close_window : List Installation → String → DateTime → List Installation
close_window [] key t = []
close_window (i ∷ is) key t =
    let rest = close_window is key t in
    let closed = record i { to_utc = some t } in
    elim i.to_utc [
      | some _ ↦ i ∷ rest
      | none ↦ if str_eq i.aircraft_key key then closed ∷ is else i ∷ rest
    ]

-- aircraft.setdefault(e.subject, _Aircraft())
abbrev pub or_new : Option AircraftRecords → AircraftRecords
or_new none = new_aircraft
or_new (some a) = a

abbrev pub counted : Entry → AircraftRecords → AircraftRecords
counted e a = record a { entries = a.entries + 1; synthetic = a.synthetic && e.synthetic }

-- `_with` a new state: an empty text leaves the state as it was.
abbrev pub with_state : WorkOrderState → String → WorkOrderState
with_state w s = record w { state = if str_eq s "" then w.state else work_state s }

module _ (py : Conversions) where
  abbrev pub text_detail : Dict Value → String → Outcome String
  text_detail p name = detail p name (λ v. some (py.to_str v))

  -- `_Component.__init__`
  unfoldable pub new_component : Entry → Outcome ComponentRecords
  new_component e = do
    kind ← text_detail e.details "kind"
    since ← detail e.details "in_service_since" py.to_date
    hours ← detail e.details "hours_s_before" py.to_float
    cycles ← detail e.details "cycles_before" py.to_int
    ok (record {
      kind = kind;
      in_service_since = since;
      hours_s_before = hours;
      cycles_before = cycles;
      installations = [];
      synthetic = e.synthetic;
      registered_at = e.occurred_utc;
    })

  -- The entry's effect on its aircraft's records, already counted.
  unfoldable pub fold_aircraft : Kind → Entry → AircraftRecords → Outcome AircraftRecords
  fold_aircraft time_in_service_set e a = do
    before ← detail e.details "before_s" py.to_float
    ok (record a { before_s = before })
  fold_aircraft inspection_done e a = do
    name ← text_detail e.details "name"
    at ← detail e.details "at_hours_s" py.to_float
    carried ← detail_or e.details "carried_over_s" py.to_float (pos 0)
    ok (record a {
      inspections =
          a.inspections
          ++ record {
            name = name;
            done_utc = e.occurred_utc;
            at_hours_s = at;
            carried_over_s = carried;
            derived = is_true (get e.details "derived");
          }
            ∷ [];
    })
  fold_aircraft work_order_open e a = do
    id ← text_detail e.details "work_id"
    state ← text_detail e.details "state"
    ok (record a {
      orders = put a.orders id (record {
        work_id = id;
        aircraft_key = e.subject;
        opened_utc = e.occurred_utc;
        state = work_state state;
        description = e.statement;
        closed_utc = none;
        synthetic = e.synthetic;
      });
    })
  fold_aircraft work_order_state e a = do
    id ← text_detail e.details "work_id"
    elim (get a.orders id) [
      | none ↦ ok a
      | some w ↦ do
        state ← text_detail e.details "state"
        ok (record a { orders = put a.orders w.work_id (with_state w state) })
    ]
  fold_aircraft work_order_close e a = do
    id ← text_detail e.details "work_id"
    elim (get a.orders id) [
      | none ↦ ok a
      | some w ↦ ok (record a { orders = put a.orders w.work_id (closed_at w e.occurred_utc) })
    ]
  fold_aircraft _ e a = ok a

  -- The branch of the kinds that are about an aircraft.
  unfoldable pub fold_on_aircraft : Entry → Records → Outcome Records
  unfolding fold_aircraft
  fold_on_aircraft e r = do
    a' ← fold_aircraft e.kind e (counted e (or_new (get r.aircraft e.subject)))
    ok (record r { aircraft = put r.aircraft e.subject a' })

  -- The windows of a component after an install or a remove on an aircraft.
  abbrev pub move : Kind → String → Entry → ComponentRecords → ComponentRecords
  move component_install key e c = record c {
    installations =
        c.installations
        ++ record { aircraft_key = key; from_utc = e.occurred_utc; to_utc = none } ∷ [];
  }
  move _ key e c = record c { installations = close_window c.installations key e.occurred_utc }

  unfoldable pub fold_move : Entry → Records → Outcome Records
  fold_move e r = elim (get r.components e.subject) [
    | none ↦ ok r
    | some c ↦ do
      key ← text_detail e.details "aircraft_key"
      ok (record r { components = put r.components e.subject (move e.kind key e c) })
  ]

  unfoldable pub fold_register : Entry → Records → Outcome Records
  unfolding new_component
  fold_register e r = do
    c ← new_component e
    ok (record r { components = put r.components e.subject c })

  -- `_fold`
  unfoldable pub fold_kind : Kind → Entry → Records → Outcome Records
  unfolding fold_on_aircraft fold_move fold_register
  fold_kind work_order_open e r = fold_on_aircraft e r
  fold_kind work_order_state e r = fold_on_aircraft e r
  fold_kind work_order_close e r = fold_on_aircraft e r
  fold_kind inspection_done e r = fold_on_aircraft e r
  fold_kind time_in_service_set e r = fold_on_aircraft e r
  fold_kind component_register e r = fold_register e r
  fold_kind component_install e r = fold_move e r
  fold_kind component_remove e r = fold_move e r
  fold_kind _ e r = ok r

  unfoldable pub fold : Entry → Records → Outcome Records
  unfolding fold_kind
  fold e = fold_kind e.kind e
