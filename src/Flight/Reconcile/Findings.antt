-- ===== src/Flight/Reconcile/Findings.antt =====
-- When a pair of logs is reported, and as what.
use uas_sustainment_workbenc.Base.{
  ℕ, pos, ◌<ℤ◌, abs, -ℤ_parts, ◌<◌, ◌≤◌, String, ◌≡◌, ◌↔◌, List, [], inl, inr, ◌∷◌, arith, All,
  All-append,
}
use uas_sustainment_workbenc.Flight.Record.{FlightRecord, Maybe-cases}
use uas_sustainment_workbenc.Flight.Reconcile.{
  Checkable, Finding, unlogged_flight, unlogged, pair_findings, pairs_findings, in_log_mismatch,
  mismatches, reconcile_ordered, reconcile_group, reconcile_groups, reconcile, ordered,
  drop_duplicates, group_logs, Group, Reconciliation,
}
use uas_sustainment_workbenc.Flight.Reconcile.Steps.{
  reconcile_group-unordered, reconcile_group-ordered,
}
use uas_sustainment_workbenc.Base.{Option}

-- A finding lies beyond the tolerance, and one of unlogged flight above it.
abbrev pub Beyond : ℕ → Finding → Type 0
Beyond t f = (t < abs f.seconds) × (f.kind ≡ unlogged_flight → pos t <ℤ f.seconds)

-- A pair of logs has no finding exactly when what it leaves uncovered is within the tolerance, on
-- either side.
pub pair_findings-none_iff :
    (t : ℕ) (key : String) (cur nxt : Checkable)
    → (pair_findings (pos t) key cur nxt ≡ []) ↔ (abs (unlogged cur nxt) ≤ t)
unfolding pair_findings
pair_findings-none_iff t key cur nxt =
    (ground (arith, -ℤ_parts (pos 0) (pos t)), ground (arith, -ℤ_parts (pos 0) (pos t)))

pair_findings-Beyond :
    (t : ℕ) (key : String) (cur nxt : Checkable)
    → All (Beyond t) (pair_findings (pos t) key cur nxt)
unfolding pair_findings
pair_findings-Beyond t key cur nxt = ground (arith, -ℤ_parts (pos 0) (pos t))

pairs_findings-Beyond :
    (t : ℕ) (key : String) (logs : List Checkable)
    → All (Beyond t) (pairs_findings (pos t) key logs)
unfolding pairs_findings
pairs_findings-Beyond t key [] = tt
pairs_findings-Beyond t key (c ∷ []) = tt
pairs_findings-Beyond t key (c ∷ d ∷ rest) =
    All-append (Beyond t) _ _ (pair_findings-Beyond t key c d)
      (pairs_findings-Beyond t key (d ∷ rest))

in_log_mismatch-Beyond : (t : ℕ) (c : Checkable) → All (Beyond t) (in_log_mismatch (pos t) c)
unfolding in_log_mismatch
in_log_mismatch-Beyond t c = ground arith

mismatches-Beyond : (t : ℕ) (logs : List Checkable) → All (Beyond t) (mismatches (pos t) logs)
unfolding mismatches
mismatches-Beyond t [] = tt
mismatches-Beyond t (c ∷ rest) =
    All-append (Beyond t) _ _ (in_log_mismatch-Beyond t c) (mismatches-Beyond t rest)

reconcile_group-Beyond :
    (t : ℕ) (g : Group) (r : Reconciliation)
    → All (Beyond t) r.findings
    → All (Beyond t) (reconcile_group (pos t) g r).findings
unfolding reconcile_ordered
reconcile_group-Beyond t ((s, key), group) r h = elim (Maybe-cases (ordered group)) [
  | inl (w, e) ↦ rw (reconcile_group-unordered (pos t) s key group r e) h
  | inr (logs, e) ↦ rw (reconcile_group-ordered (pos t) s key group r e) (
      let kept = (drop_duplicates logs r.unchecked).0 in
      All-append (Beyond t) _ _ h
        (All-append (Beyond t) _ _ (pairs_findings-Beyond t key kept) (mismatches-Beyond t kept)))
]

reconcile_groups-Beyond :
    (t : ℕ) (gs : List Group) (r : Reconciliation)
    → All (Beyond t) r.findings
    → All (Beyond t) (reconcile_groups (pos t) gs r).findings
unfolding reconcile_groups
reconcile_groups-Beyond t [] r h = h
reconcile_groups-Beyond t (g ∷ gs) r h =
    reconcile_groups-Beyond t gs (reconcile_group (pos t) g r) (reconcile_group-Beyond t g r h)

-- Whatever the logs, every finding `reconcile` reports lies beyond the tolerance, and a finding of
-- unlogged flight is a positive number of seconds above it.
pub reconcile-Beyond :
    (records : List FlightRecord) (key : Option String) (t : ℕ)
    → All (Beyond t) (reconcile records key (pos t)).findings
unfolding reconcile
reconcile-Beyond records key t =
    let (groups, unchecked) = group_logs key records [] [] in
    reconcile_groups-Beyond t groups
      (record { coverage = []; findings = []; unchecked = unchecked }) tt
