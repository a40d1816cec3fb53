-- ===== src/Life/Engine/Board.antt =====
-- `grounding_reasons` and `board` of life/engine.py.
pub mod Worst
use uas_sustainment_workbenc.Base.{
  String, Bool, true, false, keep, Option, none, some, List, [], ◌∷◌, ◌++◌, map, if◌then◌else◌,
}
use uas_sustainment_workbenc.Flight.Record.{Reason, no_record, said, Maybe, known, unknown}
use uas_sustainment_workbenc.Life.Model.{
  DueState, ok, due_soon, overdue_within_tolerance, overdue, not_known, WorkState, deferred,
  in_work, awaiting_parts, WorkOrder, DueItem, DueList, Message, reason, Status, aog,
  in_maintenance, unserviceable, deferred_defects, serviceable, BoardReason, work, item, Board,
}

abbrev pub is_awaiting : WorkOrder → Bool
is_awaiting w = elim w.state [ awaiting_parts ↦ true | _ ↦ false ]

abbrev pub is_in_work : WorkOrder → Bool
is_in_work w = elim w.state [ in_work ↦ true | _ ↦ false ]

abbrev pub is_deferred : WorkOrder → Bool
is_deferred w = elim w.state [ deferred ↦ true | _ ↦ false ]

abbrev pub is_overdue : DueItem → Bool
is_overdue i = elim i.state [ overdue ↦ true | _ ↦ false ]

abbrev pub is_not_known : DueItem → Bool
is_not_known i = elim i.state [ not_known ↦ true | _ ↦ false ]

abbrev pub is_within : DueItem → Bool
is_within i = elim i.state [ overdue_within_tolerance ↦ true | _ ↦ false ]

unfoldable pub grounding_reasons : DueList → List BoardReason
grounding_reasons due =
    map work (keep is_awaiting due.work_orders)
    ++ (map work (keep is_in_work due.work_orders) ++ map item (keep is_overdue due.items))

abbrev pub item_reason : DueItem → Reason
item_reason i = elim i.message [ reason why ↦ why | _ ↦ said i.subject ]

-- The status when nothing grounds the aircraft.
unfoldable pub status_flying : DueList → Maybe Status
status_flying due = elim (keep is_not_known due.items) [
  | i ∷ _ ↦ elim due.time_in_service_s [
    | unknown why ↦ unknown why
    | known _ ↦ unknown (item_reason i)
  ]
  | [] ↦ elim (keep is_within due.items) [
    | _ ∷ _ ↦ known deferred_defects
    | [] ↦ elim (keep is_deferred due.work_orders) [
      | _ ∷ _ ↦ known deferred_defects
      | [] ↦ known serviceable
    ]
  ]
]

unfoldable pub status_of : DueList → Maybe Status
unfolding status_flying
status_of due = elim (keep is_awaiting due.work_orders) [
  | _ ∷ _ ↦ known aog
  | [] ↦ elim (keep is_in_work due.work_orders) [
    | _ ∷ _ ↦ known in_maintenance
    | [] ↦ elim (keep is_overdue due.items) [ _ ∷ _ ↦ known unserviceable | [] ↦ status_flying due ]
  ]
]

unfoldable pub board : DueList → Board
unfolding status_of
board due =
    if due.has_record
    then record {
      status = status_of due;
      reasons =
          map work (keep is_awaiting due.work_orders)
          ++ (map work (keep is_in_work due.work_orders)
              ++ (map item (keep is_overdue due.items)
                  ++ (map item (keep is_not_known due.items)
                      ++ (map item (keep is_within due.items)
                          ++ map work (keep is_deferred due.work_orders)))));
    }
    else record { status = unknown no_record; reasons = [] }
