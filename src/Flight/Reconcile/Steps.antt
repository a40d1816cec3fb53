-- ===== src/Flight/Reconcile/Steps.antt =====
-- The steps of the loops of `reconcile`, one equation for each outcome of what a step looks up.
use uas_sustainment_workbenc.Base.{ℤ, String, ◌≡◌, Option, none, some, List, [], ◌∷◌, ◌++◌, first}
use uas_sustainment_workbenc.Base.Dict.{Dict, put}
use uas_sustainment_workbenc.Flight.Record.{
  Source, Reason, duplicate_of, known, unknown, FlightRecord,
}
use uas_sustainment_workbenc.Flight.Reconcile.{
  Checkable, checkable, same_log, drop_from, drop_duplicates, ordered, note_group, Group,
  add_to_group, group_logs, Reconciliation, reconcile_ordered, reconcile_group,
}

pub drop_from-first :
    (kept rest : List Checkable) (c : Checkable) (u : Dict Reason)
    → first (same_log c) kept ≡ none
    → drop_from kept (c ∷ rest) u ≡ drop_from (kept ++ c ∷ []) rest u
unfolding drop_from
drop_from-first kept rest c u e = rw (e, drop_from)

pub drop_from-duplicate :
    (kept rest : List Checkable) (c : Checkable) (u : Dict Reason) {k : Checkable}
    → first (same_log c) kept ≡ some k
    → drop_from kept (c ∷ rest) u
      ≡ drop_from kept rest (put u c.log.log_ref (duplicate_of k.log.log_ref))
unfolding drop_from
drop_from-duplicate kept rest c u e = rw (e, drop_from)

pub group_logs-unknown :
    (key : Option String) (r : FlightRecord) (rest : List FlightRecord) (gs : List Group)
    (u : Dict Reason) {why : Reason}
    → checkable r key ≡ unknown why
    → group_logs key (r ∷ rest) gs u ≡ group_logs key rest gs (put u r.log_ref why)
unfolding group_logs
group_logs-unknown key r rest gs u e = rw (e, group_logs)

pub group_logs-known :
    (key : Option String) (r : FlightRecord) (rest : List FlightRecord) (gs : List Group)
    (u : Dict Reason) {c : Checkable}
    → checkable r key ≡ known c
    → group_logs key (r ∷ rest) gs u ≡ group_logs key rest (add_to_group r.source c.key c gs) u
unfolding group_logs
group_logs-known key r rest gs u e = rw (e, group_logs)

pub reconcile_group-unordered :
    (t : ℤ) (s : Source) (key : String) (group : List Checkable) (r : Reconciliation) {w : Reason}
    → ordered group ≡ unknown w
    → reconcile_group t ((s, key), group) r
      ≡ record r { unchecked = note_group w group r.unchecked }
unfolding reconcile_group
reconcile_group-unordered t s key group r e = rw (e, reconcile_group)

pub reconcile_group-ordered :
    (t : ℤ) (s : Source) (key : String) (group : List Checkable) (r : Reconciliation)
    {logs : List Checkable}
    → ordered group ≡ known logs
    → reconcile_group t ((s, key), group) r
      ≡ reconcile_ordered t key
          (drop_duplicates logs r.unchecked).0
          (record r { unchecked = (drop_duplicates logs r.unchecked).1 })
unfolding reconcile_group
reconcile_group-ordered t s key group r e = rw (e, reconcile_group)
