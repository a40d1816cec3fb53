-- ===== src/Flight/Tests.antt =====
-- Two logs of one aircraft with flight between them that no log shows.
use uas_sustainment_workbenc.Base.{
  ℕ, ◌+◌, ◌*◌, pos, ◌+ℤ◌, ◌-ℤ◌, ◌≡◌, ◌↔◌, refl, ◌≤◌, abs, String, true, All, none, some, List, [],
  ◌∷◌,
}
use uas_sustainment_workbenc.Base.Time.{day}
use uas_sustainment_workbenc.Flight.Record.{
  px4, known, unknown, last_known_log, FlightRecord, LifetimeCounter,
}
use uas_sustainment_workbenc.Flight.Reconcile.{
  Checkable, unlogged, pair_coverage, pair_findings, drop_duplicates, reconcile, unlogged_flight,
}
use uas_sustainment_workbenc.Flight.Reconcile.Telescope.{
  total_unlogged, flown_before_last, unlogged_telescopes,
}
use uas_sustainment_workbenc.Flight.Reconcile.Findings.{
  Beyond, pair_findings-none_iff, reconcile-Beyond,
}
use uas_sustainment_workbenc.Flight.Reconcile.Duplicates.{IsDistinct, drop_duplicates-IsDistinct}
use uas_sustainment_workbenc.Flight.Reconcile.Accounting.{Accounted}
use uas_sustainment_workbenc.Flight.Reconcile.Complete.{reconcile-Accounted}

-- A log of an hour, of the boot whose number it is, with the counter at boot.
abbrev pub log : String → ℕ → ℕ → FlightRecord
log ref boot at = record {
  source = px4;
  log_ref = ref;
  licence = "CC0";
  attribution = "tests";
  firmware = "1.14";
  log_span_s = pos 3700000;
  aircraft_key = known "uav-1";
  utc_start = known (record { utc = (739000 + boot) * day; offset = some (pos 0) });
  flight_time_s = known (pos 3600000);
  arm_cycles = known (pos 1);
  landings = known (pos 1);
  battery_mah = unknown last_known_log;
  battery_wh = unknown last_known_log;
  fault_events = known [];
  boot_count = known (pos boot);
  lifetime = known (counter at);
  synthetic = true;
}
  where
    counter : ℕ → LifetimeCounter
    counter n = record {
      at_boot_s = pos n;
      last_seen_s = pos (n + 3600000);
      last_seen_at_s = pos 3650000;
    }

abbrev checkable_log : String → ℕ → ℕ → Checkable
checkable_log ref boot at = record {
  log = log ref boot at;
  key = "uav-1";
  lifetime = record {
    at_boot_s = pos at;
    last_seen_s = pos (at + 3600000);
    last_seen_at_s = pos 3650000;
  };
  flight_s = pos 3600000;
}

-- The second begins 900 s after the first ends by the counter.
abbrev pub logs : List FlightRecord
logs = log "b" 2 4500000 ∷ log "a" 1 0 ∷ []

abbrev checkable_logs : List Checkable
checkable_logs = checkable_log "a" 1 0 ∷ checkable_log "b" 2 4500000 ∷ []

reports_900 :
    (reconcile logs none (pos 60000)).findings
    ≡ record { aircraft_key = "uav-1"; log_ref = "a"; kind = unlogged_flight; seconds = pos 900000 }
      ∷ []
unfolding reconcile ◌-ℤ◌ ◌+ℤ◌
reports_900 = refl

reconcile-Accounted_example : Accounted (reconcile logs none (pos 60000)) "b"
reconcile-Accounted_example = reconcile-Accounted logs none (pos 60000) "b" refl

unlogged_telescopes_example :
    total_unlogged (pair_coverage "uav-1" checkable_logs) +ℤ flown_before_last checkable_logs
    ≡ pos 4500000 -ℤ pos 0
unlogged_telescopes_example =
    unlogged_telescopes "uav-1" (checkable_log "a" 1 0) (checkable_log "b" 2 4500000 ∷ [])

pair_findings-none_iff_example :
    (pair_findings (pos 60000) "uav-1" (checkable_log "a" 1 0) (checkable_log "b" 2 4500000) ≡ [])
    ↔ (abs (unlogged (checkable_log "a" 1 0) (checkable_log "b" 2 4500000)) ≤ 60000)
pair_findings-none_iff_example =
    pair_findings-none_iff 60000 "uav-1" (checkable_log "a" 1 0) (checkable_log "b" 2 4500000)

reconcile-Beyond_example : All (Beyond 60000) (reconcile logs none (pos 60000)).findings
reconcile-Beyond_example = reconcile-Beyond logs none 60000

drop_duplicates-IsDistinct_example :
    IsDistinct (drop_duplicates (checkable_log "c" 1 0 ∷ checkable_logs) []).0
drop_duplicates-IsDistinct_example =
    drop_duplicates-IsDistinct (checkable_log "c" 1 0 ∷ checkable_logs) []
