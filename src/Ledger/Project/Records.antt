-- ===== src/Ledger/Project/Records.antt =====
-- `project` of ledger/project.py.
use Prim.Native.String.{compare}
use Prim.Native.Nat.{Ordering}
use uas_sustainment_workbenc.Base.{
  ℕ, leb, ◌==◌, String, Bool, true, false, keep, Option, none, some, List, [], ◌∷◌, map,
  if◌then◌else◌,
}
use uas_sustainment_workbenc.Base.Sort.{sort_by}
use uas_sustainment_workbenc.Base.Time.{DateTime}
use uas_sustainment_workbenc.Base.Dict.{Dict}
use uas_sustainment_workbenc.Life.Model.{Component, WorkOrder, MaintenanceRecord}
use uas_sustainment_workbenc.Ledger.Model.{Entry, Projection, UnreadableRecord, WorkOrderState}
use uas_sustainment_workbenc.Ledger.Project.Order.{id_or_zero, fold_key, key_lt, liveness}
use uas_sustainment_workbenc.Ledger.Project.Fold.{
  Conversions, ok, raise, AircraftRecords, ComponentRecords, Records, fold,
}

pub data Projected {ℓ} (A : Type ℓ) : Type ℓ where
  projected : A → Projected A
  unreadable : UnreadableRecord → Projected A

abbrev pub no_records : Records
no_records = record { aircraft = []; components = [] }

abbrev pub open_orders : List WorkOrderState → List WorkOrder
open_orders [] = []
open_orders (w ∷ ws) =
    let rest = open_orders ws in
    elim w.closed_utc [
      | some _ ↦ rest
      | none ↦
          record {
            opened_utc = w.opened_utc;
            description = w.description;
            state = w.state;
            synthetic = w.synthetic;
          }
          ∷ rest
    ]

values : {V : Type 0} → Dict V → List V
values [] = []
values ((k, v) ∷ d) = v ∷ values d

maintenance_of : String → AircraftRecords → MaintenanceRecord
unfolding values
maintenance_of key a = record {
  aircraft_key = key;
  time_in_service_before_s = a.before_s;
  inspections = a.inspections;
  work_orders = open_orders (values a.orders);
  synthetic = a.synthetic;
}

-- The loop over the aircraft: one with no entry is left out.
maintenance_records : Dict AircraftRecords → Dict MaintenanceRecord
unfolding maintenance_of
maintenance_records [] = []
maintenance_records ((key, a) ∷ d) =
    let rest = maintenance_records d in
    if a.entries == 0 then rest else (key, maintenance_of key a) ∷ rest

orders_of : Dict AircraftRecords → Dict (List WorkOrderState)
unfolding values
orders_of [] = []
orders_of ((key, a) ∷ d) =
    let rest = orders_of d in if a.entries == 0 then rest else (key, values a.orders) ∷ rest

abbrev id_le : String × ComponentRecords → String × ComponentRecords → Bool
id_le (a, _) (b, _) = elim (compare a b) [ Ordering.gt ↦ false | _ ↦ true ]

unfoldable pub component_of : String × ComponentRecords → Component
component_of (cid, c) = record {
  id = cid;
  kind = c.kind;
  in_service_since = c.in_service_since;
  hours_s_before = c.hours_s_before;
  cycles_before = c.cycles_before;
  installations = c.installations;
  synthetic = c.synthetic;
}

registered : Dict ComponentRecords → Dict DateTime
registered [] = []
registered ((cid, c) ∷ d) = (cid, c.registered_at) ∷ registered d

-- if as_of is not None: the entries that had occurred by then
unfoldable pub occurred_by : Option DateTime → List Entry → List Entry
occurred_by none live = live
occurred_by (some t) live = keep (λ e. leb e.occurred_utc.utc t.utc) live

-- if before is not None: the entries that fold before it
unfoldable pub folded_before : List Entry → Option Entry → List Entry → List Entry
unfolding fold_key
folded_before entries none live = live
folded_before entries (some cut) live =
    keep (λ e. key_lt (fold_key entries e) (fold_key entries cut)) live

module _ (py : Conversions) where
  -- The loop over the live entries: the first that cannot be used stops it.
  unfoldable pub fold_all : List Entry → Records → Projected Records
  unfolding fold
  fold_all [] r = projected r
  fold_all (e ∷ es) r = elim (fold py e r) [
    | ok r' ↦ fold_all es r'
    | raise why ↦
        unreadable (record { row_id = id_or_zero e; subject = e.subject; kind = e.kind; why = why })
  ]

  unfoldable pub projection_of : List Entry → List (ℕ × ℕ) → Option DateTime → Records → Projection
  unfolding maintenance_records orders_of component_of registered
  projection_of live by as_of r = record {
    live = live;
    superseded_by = by;
    maintenance = maintenance_records r.aircraft;
    components = map component_of (sort_by id_le r.components);
    work_orders = orders_of r.aircraft;
    registered_at = registered r.components;
    as_of = as_of;
  }

  unfoldable pub counted_entries : List Entry → Option DateTime → Option Entry → List Entry
  unfolding liveness occurred_by folded_before
  counted_entries entries as_of before =
      folded_before entries before (occurred_by as_of (liveness entries).0)

  unfoldable pub project : List Entry → Option DateTime → Option Entry → Projected Projection
  unfolding fold_all projection_of counted_entries
  project entries as_of before =
      let live = counted_entries entries as_of before in
      elim (fold_all live no_records) [
        | unreadable u ↦ unreadable u
        | projected r ↦ projected (projection_of live (liveness entries).1 as_of r)
      ]
