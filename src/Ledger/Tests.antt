-- ===== src/Ledger/Tests.antt =====
-- The ledger on one aircraft with a work order, and on one component.
use uas_sustainment_workbenc.Base.{
  ℕ, ℤ, pos, ◌*ℤ◌, ◌-ℤ◌, ◌*◌, ◌≡◌, refl, String, str_eq, ◌==◌, if◌then◌else◌, true, false, Option,
  none, some, length, arith, List, [], ◌∷◌, All,
}
use uas_sustainment_workbenc.Base.Time.{DateTime, Date, day, in_utc, ordinal}
use uas_sustainment_workbenc.Life.Model.{Component, hours, overdue, Usage}
use uas_sustainment_workbenc.Life.Policy.{LifeRule}
use uas_sustainment_workbenc.Life.Engine.Items.{component_item}
use uas_sustainment_workbenc.Ledger.Model.{
  Entry, Kind, work_order_open, work_order_state, work_order_close, component_install,
  component_remove, retraction, Value, text, integer, number,
}
use uas_sustainment_workbenc.Ledger.Project.Order.{
  liveness, by_id, fold_key, root_from, root_id, id_or_zero,
}
use uas_sustainment_workbenc.Life.Model.{Installation}
use uas_sustainment_workbenc.Ledger.Project.Fold.{ComponentRecords, move}
use uas_sustainment_workbenc.Ledger.Project.Records.{component_of}
use uas_sustainment_workbenc.Ledger.Validate.Windows.{
  open_windows, install-OneWindow, remove-NoWindow,
}
use uas_sustainment_workbenc.Ledger.Project.Roots.{root_id_lem}
use uas_sustainment_workbenc.Ledger.Project.Places.{fold_key-correction}
use uas_sustainment_workbenc.Ledger.Project.Liveness.{IsLedger}
use uas_sustainment_workbenc.Ledger.Project.Liveness.Exact.{LiveIffUnended, liveness-exact}
use uas_sustainment_workbenc.Ledger.Store.{Store}
use uas_sustainment_workbenc.Ledger.Judged.{
  LedgerError, accepted, refused, no_open_order, ◌>>=◌, refuse_if, read, reworded,
}
use uas_sustainment_workbenc.Ledger.Validate.Shape.{Rules}
use uas_sustainment_workbenc.Ledger.Validate.Transitions.{install, remove, limit_past}
use uas_sustainment_workbenc.Ledger.Validate.Write.{validate, append}
use uas_sustainment_workbenc.Ledger.Validate.Statuses.{is_documented}
use uas_sustainment_workbenc.Ledger.Validate.Statuses.Whole.{refused-status}
use uas_sustainment_workbenc.Ledger.Validate.Effects.{
  Appended, append-Appended, append-IsLedger, append_all, append_all-exact,
}
use uas_sustainment_workbenc.Ledger.Validate.Agreement.{limit_past-overdue, overdue-limit_past}
use uas_sustainment_workbenc.Ledger.Validate.Accepted.{LaterHold, accepted-LaterHold}

abbrev new_year : Date
new_year = record { year = 2025; month = 1; day_of_month = 1 }

abbrev text_of_value : Value → String
text_of_value (text s) = s
text_of_value _ = ""

abbrev number_of_value : Value → Option ℤ
number_of_value (integer n) = some (n *ℤ pos 1000)
number_of_value (number n) = some n
number_of_value _ = none

abbrev date_of_value : Value → Option Date
date_of_value (text s) = if str_eq s "2025-01-01" then some new_year else none
date_of_value _ = none

abbrev decimal_of : ℕ → String
decimal_of n = if n == 1 then "1" else if n == 2 then "2" else "3"

abbrev at_day : ℕ → DateTime
at_day n = record { utc = n * day; offset = some (pos 0) }

abbrev battery_rule : LifeRule
battery_rule = record {
  name = "battery";
  hours = some (pos 300000000);
  cycles = none;
  calendar_months = some (pos 24);
  tolerance_hours = pos 0;
  source = "manual";
  satisfied_by = [];
}

abbrev rules : Rules
rules = record {
  py = record {
    to_str = text_of_value;
    to_float = number_of_value;
    to_int = number_of_value;
    to_date = date_of_value;
  };
  decimal = decimal_of;
  model_details = λ k d. some d;
  policy = record {
    due_soon_fraction = pos 100;
    component_kinds = ("battery", battery_rule) ∷ [];
    inspections = [];
  };
  tolerance = pos 60000;
}

abbrev order : Kind → Option ℕ → ℕ → Entry
order k id n = record {
  id = id;
  subject = "uav-1";
  kind = k;
  occurred_utc = at_day n;
  recorded_utc = at_day n;
  entered_by = "mechanic";
  statement = "motor mount cracked";
  details =
      ("work_id", text "WO-1") ∷ ("description", text "mount") ∷ ("state", text "in_work") ∷ [];
  supersedes = none;
  reason = none;
  synthetic = false;
}

abbrev no_rows : Store
no_rows = record { aircraft = "uav-1" ∷ []; entries = []; flights = λ k. [] }

abbrev one_order : Store
one_order = record {
  aircraft = "uav-1" ∷ [];
  entries = order work_order_open (some 1) 739000 ∷ [];
  flights = λ k. [];
}

one_order-IsLedger : IsLedger one_order.entries
one_order-IsLedger = (record { present = refl; older = λ m p. cc }, tt, tt)

abbrev not_open : LedgerError
not_open = record { status = 409; detail = no_open_order "WO-1" }

abbrev now : DateTime
now = at_day 739100

-- An order that no row opens cannot be closed.
closes_nothing : validate rules no_rows (order work_order_close none 739010) now ≡ refused not_open
unfolding validate ◌>>=◌ refuse_if read
closes_nothing = refl

refused-status_example : is_documented 409 ≡ true
refused-status_example =
    refused-status rules no_rows (order work_order_close none 739010) now not_open closes_nothing

append-Appended_example :
    Appended one_order (append rules one_order (order work_order_close none 739010) now)
append-Appended_example =
    append-Appended rules one_order (order work_order_close none 739010) now one_order-IsLedger

append-IsLedger_example :
    IsLedger (append rules one_order (order work_order_close none 739010) now).0.entries
append-IsLedger_example =
    append-IsLedger rules one_order (order work_order_close none 739010) now one_order-IsLedger

abbrev three_writes : List (Entry × DateTime)
three_writes =
    (order work_order_open none 739000, now)
    ∷ (order work_order_close none 738000, now)
    ∷ (order work_order_close none 739010, now)
    ∷ []

-- The second is refused, the order is not open by then.
writes_two : length (append_all rules no_rows three_writes).entries ≡ 2
unfolding append_all ◌>>=◌ refuse_if read
writes_two = refl

append_all-exact_example :
    All
      (LiveIffUnended (liveness (append_all rules no_rows three_writes).entries).0)
      (append_all rules no_rows three_writes).entries
append_all-exact_example = append_all-exact rules no_rows three_writes refl

-- An order that is opened and closed; the retraction of the close, and of the retraction.
abbrev retracts : ℕ → ℕ → Entry
retracts n m = record (order retraction (some n) 739020) {
  supersedes = some m;
  reason = some "entered twice";
}

abbrev four_rows : List Entry
four_rows =
    order work_order_open (some 1) 739000
    ∷ order work_order_close (some 2) 739010
    ∷ retracts 3 2
    ∷ retracts 4 3
    ∷ []

four_rows-IsLedger : IsLedger four_rows
four_rows-IsLedger = (
  record { present = refl; older = λ m p. cc },
  ((λ p. omega (arith, p)), ((λ p. omega (arith, p)), ((λ p. omega (arith, p)), tt))),
  (
    record { present = refl; older = λ m p. cc },
    ((λ p. omega (arith, p)), ((λ p. omega (arith, p)), tt)),
    (
      record { present = refl; older = λ m p. ground arith },
      ((λ p. omega (arith, p)), tt),
      (record { present = refl; older = λ m p. ground arith }, tt, tt),
    ),
  ),
)

-- The close is live again.
close_is_back : length (liveness four_rows).0 ≡ 3
unfolding liveness
close_is_back = refl

liveness-exact_example : All (LiveIffUnended (liveness four_rows).0) four_rows
liveness-exact_example = liveness-exact four_rows four_rows-IsLedger

abbrev closed_order : Store
closed_order = record {
  aircraft = "uav-1" ∷ [];
  entries = order work_order_open (some 1) 739000 ∷ order work_order_close (some 2) 739010 ∷ [];
  flights = λ k. [];
}

-- A state between the two: the close, which is later, still holds.
changes_it :
    validate rules closed_order (order work_order_state none 739005) now
    ≡ accepted (order work_order_state none 739005)
unfolding validate ◌>>=◌ refuse_if read reworded
changes_it = refl

accepted-LaterHold_example : LaterHold rules closed_order (order work_order_state none 739005)
accepted-LaterHold_example =
    accepted-LaterHold rules closed_order (order work_order_state none 739005)
      (order work_order_state none 739005) now changes_it

abbrev battery : Component
battery = record {
  id = "bat-7";
  kind = "battery";
  in_service_since = new_year;
  hours_s_before = pos 3600000;
  cycles_before = pos 4;
  installations = [];
  synthetic = false;
}

abbrev fits : Entry
fits = record (order component_install (some 1) 739500) {
  subject = "bat-7";
  details = ("aircraft_key", text "uav-1") ∷ [];
}

fits_it : install rules no_rows fits battery fits.details ≡ accepted fits.details
unfolding install ◌>>=◌ ordinal ◌*ℤ◌
fits_it = refl

abbrev used_up : Usage
used_up = record { hours_s = pos 1080001800; cycles = pos 1 }

at_its_limit : limit_past battery used_up now (hours, pos 300000000) ≡ true
unfolding limit_past ◌*ℤ◌
at_its_limit = refl

limit_past-overdue_example :
    (component_item "uav-1" battery battery_rule used_up
      (in_utc now)
      (pos 100)
      (hours, pos 300000000)).state
    ≡ overdue
limit_past-overdue_example =
    limit_past-overdue "uav-1" battery battery_rule used_up now (pos 100) hours (pos 300000000)
      at_its_limit

reads_overdue :
    (component_item "uav-1" battery battery_rule used_up
      (in_utc now)
      (pos 100)
      (hours, pos 300000000)).state
    ≡ overdue
unfolding component_item ◌*ℤ◌ ◌-ℤ◌
reads_overdue = refl

whole_limit : pos 300000000 ≡ pos 300000 *ℤ pos 1000
unfolding ◌*ℤ◌
whole_limit = refl

overdue-limit_past_example : limit_past battery used_up now (hours, pos 300000000) ≡ true
overdue-limit_past_example =
    overdue-limit_past "uav-1" battery battery_rule used_up now (pos 100) hours (pos 300000000)
      (pos 300000, whole_limit) reads_overdue

-- With a limit finer than a thousandth of an hour the two differ: nothing is left of it to the board, and the
-- part can still be fitted.
abbrev one_third_short : Usage
one_third_short = record { hours_s = pos 119998800; cycles = pos 1 }

board_reads_overdue :
    (component_item "uav-1" battery battery_rule one_third_short
      (in_utc now)
      (pos 100)
      (hours, pos 33333300)).state
    ≡ overdue
unfolding component_item ◌*ℤ◌ ◌-ℤ◌
board_reads_overdue = refl

rules_let_it_be_fitted : limit_past battery one_third_short now (hours, pos 33333300) ≡ false
unfolding limit_past ◌*ℤ◌
rules_let_it_be_fitted = refl

-- The retraction of row 3 folds in the place of row 2.
same_place : by_id four_rows 3 ≡ some (retracts 3 2)
unfolding by_id
same_place = refl

fold_key-correction_example : fold_key four_rows (retracts 4 3) ≡ fold_key four_rows (retracts 3 2)
fold_key-correction_example =
    fold_key-correction four_rows (retracts 4 3) (retracts 3 2) 3 four_rows-IsLedger refl same_place
      refl

root_id_lem_example :
    id_or_zero (root_from 9 four_rows [] (retracts 4 3)) ≡ root_id four_rows (retracts 4 3)
root_id_lem_example = root_id_lem four_rows (retracts 4 3) 9 (omega arith)

root_of_four : root_id four_rows (retracts 4 3) ≡ 2
unfolding root_id
root_of_four = refl

-- The battery in the fold, with the windows given.
abbrev battery_records : List Installation → ComponentRecords
battery_records windows = record {
  kind = "battery";
  in_service_since = new_year;
  hours_s_before = pos 3600000;
  cycles_before = pos 4;
  installations = windows;
  synthetic = false;
  registered_at = at_day 739490;
}

fits_records :
    install rules no_rows fits (component_of ("bat-7", battery_records [])) fits.details
    ≡ accepted fits.details
unfolding component_of
fits_records = fits_it

install-OneWindow_example :
    open_windows (move rules.py component_install "uav-1" fits (battery_records [])).installations
    ≡ 1
install-OneWindow_example =
    install-OneWindow rules no_rows fits "bat-7" "uav-1" (battery_records []) fits.details
      fits.details fits_records

abbrev fitted : List Installation
fitted = record { aircraft_key = "uav-1"; from_utc = at_day 739500; to_utc = none } ∷ []

abbrev off : Entry
off = record fits { kind = component_remove; occurred_utc = at_day 739600 }

takes_it_off :
    remove (component_of ("bat-7", battery_records fitted)) "uav-1" off.details
    ≡ accepted off.details
unfolding remove component_of
takes_it_off = refl

remove-NoWindow_example :
    open_windows (move rules.py component_remove "uav-1" off (battery_records fitted)).installations
    ≡ 0
remove-NoWindow_example =
    remove-NoWindow rules off "bat-7" "uav-1" (battery_records fitted) off.details off.details
      (omega arith) takes_it_off
