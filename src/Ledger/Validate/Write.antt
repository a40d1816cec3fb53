-- ===== src/Ledger/Validate/Write.antt =====
-- `validate` and `append` of ledger/validate.py.
use uas_sustainment_workbenc.Base.{
  String, str_eq, not, Option, none, some, List, [], ◌∷◌, ◌++◌, keep, if◌then◌else◌,
}
use uas_sustainment_workbenc.Base.Time.{DateTime, in_utc}
use uas_sustainment_workbenc.Ledger.Model.{Entry}
use uas_sustainment_workbenc.Ledger.Project.Order.{fold_key, key_lt}
use uas_sustainment_workbenc.Ledger.Project.Records.{project}
use uas_sustainment_workbenc.Ledger.Store.{Store, next_entry_id, append_entry}
use uas_sustainment_workbenc.Ledger.Judged.{
  Judged, accepted, refused, cannot_read, raises, ◌>>=◌, ◌>>◌, read,
}
use uas_sustainment_workbenc.Ledger.Validate.Text.{strip}
use uas_sustainment_workbenc.Ledger.Validate.Shape.{Rules, shape}
use uas_sustainment_workbenc.Ledger.Validate.Checks.{subjects, policy_check, correction, same_id}
use uas_sustainment_workbenc.Ledger.Validate.Transitions.{transitions}
use uas_sustainment_workbenc.Ledger.Validate.Change.{
  change, revived_entries_hold, later_entries_still_hold,
}
use uas_sustainment_workbenc.Ledger.Validate.Hours.{inspection_hours_hold}

-- min(es, key=order): the first of the least.
abbrev pub earliest : List Entry → Entry → List Entry → Entry
earliest timeline e [] = e
earliest timeline e (x ∷ xs) =
    earliest timeline (if key_lt (fold_key timeline x) (fold_key timeline e) then x else e) xs

abbrev pub without_corrected : Option Entry → List Entry → List Entry
without_corrected none es = es
without_corrected (some c) es = keep (λ e. not (same_id e.id c.id)) es

-- entry.statement.strip() or (entry.reason or "").strip()
abbrev pub stored_statement : Entry → String
stored_statement e =
    let said = strip e.statement in
    if str_eq said "" then elim e.reason [ none ↦ "" | some r ↦ strip r ] else said

abbrev pub or_self : Option Entry → Entry → Entry
or_self none e = e
or_self (some c) e = c

-- The checks of `validate` that look at what the write changes besides adding the candidate.
unfoldable pub consequences :
    Rules → Store → List Entry → List Entry → Entry → Option Entry → Judged (Unit {0})
unfolding change revived_entries_hold inspection_hours_hold later_entries_still_hold fold_key
consequences rules store existing timeline candidate corrected =
    let ch = change existing timeline candidate in
    let cut = earliest timeline (or_self corrected candidate) (ch.revived ++ ch.ended) in
    (do
      revived_entries_hold rules store timeline candidate ch
      inspection_hours_hold rules (store.flights candidate.subject) existing timeline candidate
          corrected ch
      later_entries_still_hold rules store timeline candidate cut)

-- `validate`
unfoldable pub validate : Rules → Store → Entry → DateTime → Judged Entry
unfolding shape subjects correction policy_check project transitions consequences strip
    next_entry_id in_utc
validate rules store e now = do
  shaped ← shape rules e now
  let entry = record e { occurred_utc = in_utc e.occurred_utc }
  current ← read (project rules.py store.entries none none)
  subjects rules store entry current shaped
  corrected ← correction store entry current
  policy_check rules.policy entry shaped
  let first_candidate = record entry { id = some (next_entry_id store); details = shaped }
  others ← read (project rules.py (without_corrected corrected store.entries) none none)
  then_ ←
      read (project rules.py (store.entries ++ first_candidate ∷ []) none (some first_candidate))
  details ← transitions rules store first_candidate.kind first_candidate shaped then_ (some others)
  let candidate = record first_candidate { details = details }
  consequences rules store store.entries (store.entries ++ candidate ∷ []) candidate corrected
  accepted (record entry { details = details; statement = stored_statement e })

-- What follows `validate` in `append`: a refusal raises, and an entry is written.
unfoldable pub committed : Store → Judged Entry → Store × Judged Entry
unfolding append_entry
committed store (accepted valid) =
    let (store', stored) = append_entry store valid in (store', accepted stored)
committed store (refused err) = (store, refused err)
committed store (cannot_read u) = (store, cannot_read u)
committed store (raises w) = (store, raises w)

-- `append`, under the store's write lock.
unfoldable pub append : Rules → Store → Entry → DateTime → Store × Judged Entry
unfolding validate committed
append rules store e now = committed store (validate rules store e now)
