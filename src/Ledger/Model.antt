-- ===== src/Ledger/Model.antt =====
-- ledger/model.py: entries and what is projected from them.
use uas_sustainment_workbenc.Base.{ℕ, ℤ, String, Bool, true, false, Option, List}
use uas_sustainment_workbenc.Base.Time.{DateTime}
use uas_sustainment_workbenc.Base.Dict.{Dict}
use uas_sustainment_workbenc.Life.Model.{Component, MaintenanceRecord, WorkState}

-- The kinds of KINDS; any other text is `other_kind`.
pub data Kind : Type 0 where
  work_order_open work_order_state work_order_close : Kind
  inspection_done time_in_service_set : Kind
  component_register component_install component_remove : Kind
  retraction : Kind
  other_kind : String → Kind

abbrev pub in_aircraft_kinds : Kind → Bool
in_aircraft_kinds work_order_open = true
in_aircraft_kinds work_order_state = true
in_aircraft_kinds work_order_close = true
in_aircraft_kinds inspection_done = true
in_aircraft_kinds time_in_service_set = true
in_aircraft_kinds _ = false

abbrev pub in_component_kinds : Kind → Bool
in_component_kinds component_register = true
in_component_kinds component_install = true
in_component_kinds component_remove = true
in_component_kinds _ = false

abbrev pub is_retraction : Kind → Bool
is_retraction retraction = true
is_retraction _ = false

-- A JSON value in an entry's details. An `integer` is an int, a `number` a float in
-- thousandths; `other_value` is a list or an object, by its text.
pub data Value : Type 0 where
  null : Value
  flag : Bool → Value
  integer : ℤ → Value
  number : ℤ → Value
  text : String → Value
  other_value : String → Value

pub record Entry : Type 0 where
  pub id : Option ℕ
  pub subject : String
  pub kind : Kind
  pub occurred_utc : DateTime
  pub recorded_utc : DateTime
  pub entered_by : String
  pub statement : String
  pub details : Dict Value
  pub supersedes : Option ℕ
  pub reason : Option String
  pub synthetic : Bool

pub record WorkOrderState : Type 0 where
  pub work_id : String
  pub aircraft_key : String
  pub opened_utc : DateTime
  pub state : WorkState
  pub description : String
  pub closed_utc : Option DateTime
  pub synthetic : Bool

pub record Projection : Type 0 where
  pub live : List Entry
  pub superseded_by : List (ℕ × ℕ)
  pub maintenance : Dict MaintenanceRecord
  pub components : List Component
  pub work_orders : Dict (List WorkOrderState)
  pub registered_at : Dict DateTime
  pub as_of : Option DateTime

-- `UnreadableRecord`: the entry and the detail that cannot be used, and whether it is missing.
pub data Why : Type 0 where
  missing malformed : String → Why

pub record UnreadableRecord : Type 0 where
  pub row_id : ℕ
  pub subject : String
  pub kind : Kind
  pub why : Why
