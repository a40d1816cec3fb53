-- ===== src/Life/Tests.antt =====
-- One aircraft: its due list, its board and its usage.
use uas_sustainment_workbenc.Base.{
  ℕ, ◌+◌, ◌*◌, pos, ◌+ℤ◌, ◌-ℤ◌, ◌≤ℤ◌, ◌≡◌, ◌≢◌, ◌↔◌, refl, true, false, any, All, some, [], ◌∷◌,
  arith,
}
use uas_sustainment_workbenc.Base.Time.{DateTime, Date, IsDate, days_in_month, day}
use uas_sustainment_workbenc.Flight.Record.{known, unknown, last_known_log}
use uas_sustainment_workbenc.Flight.Reconcile.{reconcile}
use uas_sustainment_workbenc.Flight.Tests.{logs}
use uas_sustainment_workbenc.Life.Policy.{LifePolicy}
use uas_sustainment_workbenc.Life.Engine.Due.{due_list}
use uas_sustainment_workbenc.Life.Engine.Due.Instant.{due_list-same_instant}
use uas_sustainment_workbenc.Life.Model.{
  MaintenanceRecord, DueItem, DueList, WorkOrder, in_work, hours, overdue, serviceable,
  in_maintenance, past,
}
use uas_sustainment_workbenc.Life.Engine.Rounding.{end_of_month_after, end_of_month_after-IsDate}
use uas_sustainment_workbenc.Life.Engine.Usage.{most_time_in_service, time_in_service}
use uas_sustainment_workbenc.Life.Engine.Usage.Monotone.{
  HasNoNegativeFlight, least-le-most, time_in_service-mono,
}
use uas_sustainment_workbenc.Life.Engine.Board.{
  board, grounding_reasons, is_awaiting, is_in_work, is_deferred, is_overdue, is_within,
  is_not_known,
}
use uas_sustainment_workbenc.Life.Engine.Board.Worst.{
  Grounded, board-Grounded_iff, board-serviceable_iff,
}

abbrev at_day : ℕ → DateTime
at_day n = record { utc = n * day; offset = some (pos 0) }

abbrev expired : DueItem
expired = record {
  aircraft_key = "uav-1";
  subject = "battery";
  component_id = some "bat-7";
  basis = hours;
  used = known (pos 300001);
  limit = pos 300000000;
  remaining = unknown last_known_log;
  tolerance = pos 0;
  state = overdue;
  source = "manual";
  message = past;
}

abbrev opened : WorkOrder
opened = record {
  opened_utc = at_day 739000;
  description = "mount";
  state = in_work;
  synthetic = false;
}

abbrev pub sheet : DueList
sheet = record {
  aircraft_key = "uav-1";
  as_of = at_day 739100;
  has_record = true;
  time_in_service_s = known (pos 7200000);
  items = expired ∷ [];
  usage = [];
  work_orders = opened ∷ [];
  notes = [];
}

in_maintenance_first : (board sheet).status ≡ known in_maintenance
unfolding board
in_maintenance_first = refl

board-Grounded_iff_example : Grounded (board sheet).status ↔ (grounding_reasons sheet ≢ [])
board-Grounded_iff_example = board-Grounded_iff sheet refl

board-serviceable_iff_example : ((board sheet).status ≡ known serviceable) ↔ (
    (any is_awaiting sheet.work_orders ≡ false)
    × (any is_in_work sheet.work_orders ≡ false)
    × (any is_deferred sheet.work_orders ≡ false)
    × (any is_overdue sheet.items ≡ false)
    × (any is_within sheet.items ≡ false)
    × (any is_not_known sheet.items ≡ false))
board-serviceable_iff_example = board-serviceable_iff sheet refl

abbrev leap_january : Date
leap_january = record { year = 2024; month = 1; day_of_month = 31 }

leap_january-IsDate : IsDate leap_january
unfolding days_in_month
leap_january-IsDate = record {
  year_pos = omega arith;
  month_pos = omega arith;
  month_le = omega arith;
  day_pos = omega arith;
  day_le = omega arith;
}

end_of_month_after-IsDate_example :
    let due = end_of_month_after leap_january (pos 1) in
    IsDate due
    × (due.day_of_month ≡ days_in_month due.year due.month)
    × (due.year * 12 + due.month ≡ 2024 * 12 + 1 + 1)
end_of_month_after-IsDate_example = end_of_month_after-IsDate leap_january 1 leap_january-IsDate

logs-HasNoNegativeFlight : All HasNoNegativeFlight logs
logs-HasNoNegativeFlight = (omega arith, (omega arith, tt))

-- By the end of the first log 4 500 s are known, and by the end of the second 8 100 s.
one_log_known :
    time_in_service "uav-1" (pos 0) logs (pos 60000) (some (at_day 739002)) false
    ≡ known (pos 4500000)
unfolding time_in_service ◌+ℤ◌ ◌-ℤ◌ reconcile
one_log_known = refl

two_logs_known :
    time_in_service "uav-1" (pos 0) logs (pos 60000) (some (at_day 739003)) false
    ≡ known (pos 8100000)
unfolding time_in_service ◌+ℤ◌ ◌-ℤ◌ reconcile
two_logs_known = refl

least-le-most_example :
    pos 4500000 ≤ℤ most_time_in_service "uav-1" (pos 0) logs (pos 60000) (some (at_day 739002))
least-le-most_example =
    least-le-most "uav-1" (pos 0) logs 60000 (some (at_day 739002)) (pos 4500000)
      logs-HasNoNegativeFlight one_log_known

time_in_service-mono_example : pos 4500000 ≤ℤ pos 8100000
time_in_service-mono_example =
    time_in_service-mono "uav-1" (pos 0) logs 60000 false (at_day 739002) (at_day 739003)
      (pos 4500000) (pos 8100000) (omega arith) logs-HasNoNegativeFlight one_log_known
      two_logs_known

abbrev no_rules : LifePolicy
no_rules = record { due_soon_fraction = pos 100; component_kinds = []; inspections = [] }

abbrev record_of : MaintenanceRecord
record_of = record {
  aircraft_key = "uav-1";
  time_in_service_before_s = pos 0;
  inspections = [];
  work_orders = opened ∷ [];
  synthetic = false;
}

-- The same instant, as it is written one hour east of Greenwich.
abbrev hour_east : DateTime
hour_east = record { utc = 739003 * day; offset = some (pos 3600000000) }

due_list-same_instant_example :
    (due_list "uav-1" (some record_of) [] (λ k. logs) no_rules hour_east (pos 60000)
      ≡ due_list "uav-1" (some record_of) [] (λ k. logs) no_rules (at_day 739003) (pos 60000))
    × (board (due_list "uav-1" (some record_of) [] (λ k. logs) no_rules hour_east (pos 60000))
        ≡ board
            (due_list "uav-1" (some record_of) [] (λ k. logs) no_rules (at_day 739003) (pos 60000)))
due_list-same_instant_example =
    due_list-same_instant "uav-1" (some record_of) [] (λ k. logs) no_rules (pos 60000) hour_east
      (at_day 739003) (pos 3600000000) (pos 0) refl refl refl
