-- ===== src/Life/Model.antt =====
-- life/model.py: what an operator entered, and what is derived from it.
use uas_sustainment_workbenc.Base.{ℤ, String, Bool, Option, List}
use uas_sustainment_workbenc.Base.Time.{DateTime, Date}
use uas_sustainment_workbenc.Base.Dict.{Dict}
use uas_sustainment_workbenc.Flight.Record.{Maybe, Reason}

pub data Basis : Type 0 where
  hours cycles calendar : Basis

pub data DueState : Type 0 where
  ok due_soon overdue_within_tolerance overdue not_known : DueState

pub data WorkState : Type 0 where
  deferred in_work awaiting_parts : WorkState
  other_state : String → WorkState

pub record Installation : Type 0 where
  pub aircraft_key : String
  pub from_utc : DateTime
  pub to_utc : Option DateTime

pub record Component : Type 0 where
  pub id : String
  pub kind : String
  pub in_service_since : Date
  pub hours_s_before : ℤ
  pub cycles_before : ℤ
  pub installations : List Installation
  pub synthetic : Bool

pub record InspectionDone : Type 0 where
  pub name : String
  pub done_utc : DateTime
  pub at_hours_s : ℤ
  pub carried_over_s : ℤ
  pub derived : Bool

pub record WorkOrder : Type 0 where
  pub opened_utc : DateTime
  pub description : String
  pub state : WorkState
  pub synthetic : Bool

pub record MaintenanceRecord : Type 0 where
  pub aircraft_key : String
  pub time_in_service_before_s : ℤ
  pub inspections : List InspectionDone
  pub work_orders : List WorkOrder
  pub synthetic : Bool

pub record Usage : Type 0 where
  pub hours_s : ℤ
  pub cycles : ℤ

-- The sentence of an item, by the branch that writes it; the values it quotes are the item's fields.
pub data Message : Type 0 where
  left_of reached past : Message
  due_in within_tolerance beyond_tolerance overdue_by : Message
  reason : Reason → Message
  counted_from : Message → ℤ → Reason → Message
  at_least : ℤ → Reason → Message

-- In hours, `used` and `remaining` are thousandths, the limit and the tolerance millionths.
pub record DueItem : Type 0 where
  pub aircraft_key : String
  pub subject : String
  pub component_id : Option String
  pub basis : Basis
  pub used : Maybe ℤ
  pub limit : ℤ
  pub remaining : Maybe ℤ
  pub tolerance : ℤ
  pub state : DueState
  pub source : String
  pub message : Message

-- A sentence that a due list notes besides its items.
pub data Note : Type 0 where
  not_counted_duplicate : String → String → Note
  no_utc_start : String → Note
  kind_without_rule : String → String → Note
  never_recorded : String → Bool → Bool → Note
  cannot_place : String → String → ℤ → Note

pub record DueList : Type 0 where
  pub aircraft_key : String
  pub as_of : DateTime
  pub has_record : Bool
  pub time_in_service_s : Maybe ℤ
  pub items : List DueItem
  pub usage : Dict Usage
  pub work_orders : List WorkOrder
  pub notes : List Note

pub data Status : Type 0 where
  aog in_maintenance unserviceable deferred_defects serviceable : Status

pub data BoardReason : Type 0 where
  work : WorkOrder → BoardReason
  item : DueItem → BoardReason

pub record Board : Type 0 where
  pub status : Maybe Status
  pub reasons : List BoardReason
