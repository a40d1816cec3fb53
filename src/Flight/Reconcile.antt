-- ===== src/Flight/Reconcile.antt =====
-- flight/reconcile.py: logged flight time against the autopilot's lifetime counter.
pub mod Steps
pub mod Telescope
pub mod Findings
pub mod Duplicates
pub mod Accounting
pub mod Complete
use uas_sustainment_workbenc.Base.{
  ℕ, ℤ, pos, ◌+ℤ◌, ◌-ℤ◌, ltb_ℤ, leb_ℤ, abs, ltb, leb, ◌-◌, ◌+◌, String, str_eq, Bool, true, false,
  ◌&&◌, ◌||◌, Option, none, some, List, [], ◌∷◌, ◌++◌, map, all, any, first, if◌then◌else◌, ◌≡◌,
  refl,
}
use uas_sustainment_workbenc.Base.Sort.{sort_by}
use uas_sustainment_workbenc.Base.Dict.{Dict, put}
use uas_sustainment_workbenc.Base.Time.{DateTime, second}
use uas_sustainment_workbenc.Flight.Record.{
  Source, px4, ardupilot, Reason, aircraft_unknown, no_lifetime_counter, no_flight_time,
  cannot_order, duplicate_of, last_known_log, no_boot_counter, Maybe, known, unknown, is_known,
  LifetimeCounter, FlightRecord,
}

abbrev pub flush_interval_s : ℤ
flush_interval_s = pos 30000

-- DUPLICATE_WINDOW_S, in microseconds and in thousandths of a second
abbrev pub duplicate_window : ℕ
duplicate_window = second

abbrev pub duplicate_window_s : ℕ
duplicate_window_s = 1000

pub record Coverage : Type 0 where
  pub aircraft_key : String
  pub log_ref : String
  pub next_log_ref : String
  pub unlogged_s : ℤ
  pub boots_between : Maybe ℤ

pub data FindingKind : Type 0 where
  unlogged_flight counter_mismatch : FindingKind

-- The message is the sentence of the kind with the values that follow it.
pub record Finding : Type 0 where
  pub aircraft_key : String
  pub log_ref : String
  pub kind : FindingKind
  pub seconds : ℤ

pub record Reconciliation : Type 0 where
  pub coverage : List Coverage
  pub findings : List Finding
  pub unchecked : Dict Reason

pub record Checkable : Type 0 where
  pub log : FlightRecord
  pub key : String
  pub lifetime : LifetimeCounter
  pub flight_s : ℤ

checked : FlightRecord → Maybe String → Maybe LifetimeCounter → Maybe ℤ → Maybe Checkable
checked r (unknown why) l f = unknown (aircraft_unknown why)
checked r (known k) (unknown why) f = unknown (no_lifetime_counter why)
checked r (known k) (known l) (unknown why) = unknown (no_flight_time why)
checked r (known k) (known l) (known f) =
    known (record { log = r; key = k; lifetime = l; flight_s = f })

-- `_checkable`
pub checkable : FlightRecord → Option String → Maybe Checkable
unfolding checked
checkable r key =
    checked r (elim key [ none ↦ r.aircraft_key | some k ↦ known k ]) r.lifetime r.flight_time_s

abbrev pub boot_le : Checkable → Checkable → Bool
boot_le a b = elim a.log.boot_count [
  | unknown _ ↦ true
  | known m ↦ elim b.log.boot_count [ unknown _ ↦ true | known n ↦ leb_ℤ m n ]
]

abbrev pub start_le : Checkable → Checkable → Bool
start_le a b = elim a.log.utc_start [
  | unknown _ ↦ true
  | known s ↦ elim b.log.utc_start [ unknown _ ↦ true | known t ↦ leb s.utc t.utc ]
]

-- `_ordered`
pub ordered : List Checkable → Maybe (List Checkable)
ordered group =
    if all (λ c. is_known c.log.boot_count) group
    then known (sort_by boot_le group)
    else if all (λ c. is_known c.log.utc_start) group
    then known (sort_by start_le group)
    else unknown cannot_order

within_window : Maybe DateTime → Maybe DateTime → Bool
within_window (known s) (known t) = ltb (s.utc - t.utc + (t.utc - s.utc)) duplicate_window
within_window _ _ = false

-- The test of `_drop_duplicates`: same UTC start and same span, both within the window.
pub same_log : Checkable → Checkable → Bool
unfolding within_window
same_log c k =
    within_window c.log.utc_start k.log.utc_start
    && ltb (abs (c.log.log_span_s -ℤ k.log.log_span_s)) duplicate_window_s

-- The loop of `_drop_duplicates`, over the logs kept so far and what was noted.
pub drop_from : List Checkable → List Checkable → Dict Reason → List Checkable × Dict Reason
unfolding same_log
drop_from kept [] unchecked = (kept, unchecked)
drop_from kept (c ∷ rest) unchecked = elim (first (same_log c) kept) [
  | some k ↦ drop_from kept rest (put unchecked c.log.log_ref (duplicate_of k.log.log_ref))
  | none ↦ drop_from (kept ++ c ∷ []) rest unchecked
]

pub drop_duplicates : List Checkable → Dict Reason → List Checkable × Dict Reason
unfolding drop_from
drop_duplicates = drop_from []

boots_between : Maybe ℤ → Maybe ℤ → Maybe ℤ
boots_between (known m) (known n) = known (n -ℤ m -ℤ pos 1)
boots_between _ _ = unknown no_boot_counter

-- `_in_log_mismatch`: the counter's advance within the log against the log's flight.
pub in_log_mismatch : ℤ → Checkable → List Finding
in_log_mismatch tolerance c =
    let gap = c.lifetime.last_seen_s -ℤ c.lifetime.at_boot_s -ℤ c.flight_s in
    if leb_ℤ c.lifetime.last_seen_at_s (pos 0)
    then []
    else if leb_ℤ (pos (abs gap)) tolerance
    then []
    else record {
      aircraft_key = c.key;
      log_ref = c.log.log_ref;
      kind = counter_mismatch;
      seconds = gap;
    }
      ∷ []

-- Flight the counter saw between two boots that the first log does not show.
pub unlogged : Checkable → Checkable → ℤ
unlogged cur nxt = nxt.lifetime.at_boot_s -ℤ (cur.lifetime.at_boot_s +ℤ cur.flight_s)

pub covered : String → Checkable → Checkable → Coverage
unfolding unlogged boots_between
covered key cur nxt = record {
  aircraft_key = key;
  log_ref = cur.log.log_ref;
  next_log_ref = nxt.log.log_ref;
  unlogged_s = unlogged cur nxt;
  boots_between = boots_between cur.log.boot_count nxt.log.boot_count;
}

pub pair_findings : ℤ → String → Checkable → Checkable → List Finding
unfolding unlogged
pair_findings tolerance key cur nxt =
    let u = unlogged cur nxt in
    if ltb_ℤ tolerance u
    then record {
      aircraft_key = key;
      log_ref = cur.log.log_ref;
      kind = unlogged_flight;
      seconds = u;
    }
      ∷ []
    else if ltb_ℤ u (pos 0 -ℤ tolerance)
    then record {
      aircraft_key = key;
      log_ref = cur.log.log_ref;
      kind = counter_mismatch;
      seconds = u;
    }
      ∷ []
    else []

-- The loop over `pairwise(ordered)`.
pub pair_coverage : String → List Checkable → List Coverage
unfolding covered
pair_coverage key [] = []
pair_coverage key (c ∷ []) = []
pair_coverage key (c ∷ d ∷ rest) = covered key c d ∷ pair_coverage key (d ∷ rest)

pub pairs_findings : ℤ → String → List Checkable → List Finding
unfolding pair_findings
pairs_findings tolerance key [] = []
pairs_findings tolerance key (c ∷ []) = []
pairs_findings tolerance key (c ∷ d ∷ rest) =
    pair_findings tolerance key c d ++ pairs_findings tolerance key (d ∷ rest)

pub mismatches : ℤ → List Checkable → List Finding
unfolding in_log_mismatch
mismatches tolerance [] = []
mismatches tolerance (c ∷ rest) = in_log_mismatch tolerance c ++ mismatches tolerance rest

-- unchecked[ordered[-1].record.log_ref] = ...
pub note_last : List Checkable → Dict Reason → Dict Reason
note_last [] unchecked = unchecked
note_last (c ∷ []) unchecked = put unchecked c.log.log_ref last_known_log
note_last (c ∷ d ∷ rest) unchecked = note_last (d ∷ rest) unchecked

pub note_group : Reason → List Checkable → Dict Reason → Dict Reason
note_group why [] unchecked = unchecked
note_group why (c ∷ rest) unchecked = note_group why rest (put unchecked c.log.log_ref why)

abbrev pub Group : Type 0
Group = (Source × String) × List Checkable

same_source : Source → Source → Bool
same_source px4 px4 = true
same_source ardupilot ardupilot = true
same_source _ _ = false

-- groups[(record.source, checkable.key)].append(checkable)
pub add_to_group : Source → String → Checkable → List Group → List Group
unfolding same_source
add_to_group s k c [] = ((s, k), c ∷ []) ∷ []
add_to_group s k c (((t, j), cs) ∷ groups) =
    if same_source t s && str_eq j k
    then ((t, j), cs ++ c ∷ []) ∷ groups
    else ((t, j), cs) ∷ add_to_group s k c groups

-- The first loop of `reconcile`.
pub group_logs :
    Option String → List FlightRecord → List Group → Dict Reason → List Group × Dict Reason
unfolding checkable add_to_group
group_logs key [] groups unchecked = (groups, unchecked)
group_logs key (r ∷ rest) groups unchecked = elim (checkable r key) [
  | unknown why ↦ group_logs key rest groups (put unchecked r.log_ref why)
  | known c ↦ group_logs key rest (add_to_group r.source c.key c groups) unchecked
]

-- The body of the second loop, for the logs of one aircraft in order.
pub reconcile_ordered : ℤ → String → List Checkable → Reconciliation → Reconciliation
unfolding pair_coverage pairs_findings mismatches note_last
reconcile_ordered tolerance key logs so_far = record {
  coverage = so_far.coverage ++ pair_coverage key logs;
  findings = so_far.findings ++ (pairs_findings tolerance key logs ++ mismatches tolerance logs);
  unchecked = note_last logs so_far.unchecked;
}

pub reconcile_group : ℤ → Group → Reconciliation → Reconciliation
unfolding ordered drop_duplicates note_group reconcile_ordered
reconcile_group tolerance ((s, key), group) so_far = elim (ordered group) [
  | unknown why ↦ record so_far { unchecked = note_group why group so_far.unchecked }
  | known logs ↦
      let (kept, unchecked) = drop_duplicates logs so_far.unchecked in
      reconcile_ordered tolerance key kept (record so_far { unchecked = unchecked })
]

pub reconcile_groups : ℤ → List Group → Reconciliation → Reconciliation
unfolding reconcile_group
reconcile_groups tolerance [] so_far = so_far
reconcile_groups tolerance (g ∷ groups) so_far =
    reconcile_groups tolerance groups (reconcile_group tolerance g so_far)

unfoldable pub reconcile : List FlightRecord → Option String → ℤ → Reconciliation
unfolding group_logs reconcile_groups
reconcile records key tolerance =
    let (groups, unchecked) = group_logs key records [] [] in
    reconcile_groups tolerance groups
      (record { coverage = []; findings = []; unchecked = unchecked })
