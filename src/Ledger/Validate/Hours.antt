-- ===== src/Ledger/Validate/Hours.antt =====
-- `_counting` and `_inspection_hours_hold` of ledger/validate.py: an inspection's hours against the most
-- time in service the records allow at its date.
use uas_sustainment_workbenc.Base.{
  ℕ, ℤ, pos, ◌-ℤ◌, ◌+ℤ◌, ltb_ℤ, leb_ℤ, max_ℤ, String, str_eq, Bool, true, false, not, ◌&&◌, ◌||◌,
  any, keep, Option, none, some, List, [], ◌∷◌, ◌++◌, first, map, if◌then◌else◌,
}
use uas_sustainment_workbenc.Base.Dict.{get}
use uas_sustainment_workbenc.Flight.Record.{FlightRecord}
use uas_sustainment_workbenc.Life.Engine.Usage.{most_time_in_service}
use uas_sustainment_workbenc.Life.Engine.Inspections.{hours_slack_s}
use uas_sustainment_workbenc.Ledger.Model.{
  Kind, inspection_done, time_in_service_set, Entry, missing, malformed,
}
use uas_sustainment_workbenc.Ledger.Project.Order.{id_or_zero, liveness, fold_key, key_lt}
use uas_sustainment_workbenc.Ledger.Judged.{
  Judged, accepted, raises, refuse, found_or, ◌>>=◌, ◌>>◌, Sentence, too_many_hours, counting,
  brings_back, makes_impossible,
}
use uas_sustainment_workbenc.Ledger.Validate.Shape.{Rules}
use uas_sustainment_workbenc.Ledger.Validate.Checks.{same_id}
use uas_sustainment_workbenc.Ledger.Validate.Change.{Change, ended_by, id_in}

abbrev pub is_inspection : Kind → Bool
is_inspection inspection_done = true
is_inspection _ = false

abbrev pub is_total : Kind → Bool
is_total time_in_service_set = true
is_total _ = false

-- max(es, key=order): the first of the greatest.
abbrev pub latest : List Entry → List Entry → Option Entry
latest all_entries [] = none
latest all_entries (e ∷ es) =
    let rest = latest all_entries es in
    elim rest [
      | none ↦ some e
      | some x ↦ if key_lt (fold_key all_entries e) (fold_key all_entries x) then some x else some e
    ]

-- `_counting`; `order` is the fold order of the given entries.
unfoldable pub counted_with : List Entry → List Entry → Entry → List (Option Entry)
unfolding fold_key
counted_with all_entries live e =
    let totals = keep (λ s. str_eq s.subject e.subject && is_total s.kind) live in
    latest all_entries (keep (λ s. key_lt (fold_key all_entries s) (fold_key all_entries e)) totals)
    ∷ map some (keep (λ s. key_lt (fold_key all_entries e) (fold_key all_entries s)) totals)

-- float(e.details[name])
unfoldable pub float_of : Rules → Entry → String → Judged ℤ
unfolding found_or
float_of rules e name =
    found_or (get e.details name) (raises (missing name))
      λ v. found_or (rules.py.to_float v) (raises (malformed name)) λ n. accepted n

unfoldable pub before_s_of : Rules → Option Entry → Judged ℤ
unfolding float_of
before_s_of rules none = accepted (pos 0)
before_s_of rules (some s) = float_of rules s "before_s"

-- How far the hours pass the bound, and the bound.
pub record Excess : Type 0 where
  pub excess : ℤ
  pub most : ℤ
  pub with_entry : Option Entry

module _ (rules : Rules) (flights : List FlightRecord) where
  -- `over`
  unfoldable pub over : Entry → Option Entry → Judged Excess
  unfolding most_time_in_service before_s_of
  over e s = do
    before ← before_s_of rules s
    at ← float_of rules e "at_hours_s"
    let most = most_time_in_service e.subject before flights rules.tolerance (some e.occurred_utc)
    accepted (record { excess = at -ℤ most; most = most; with_entry = s })

  -- max over the entries of `_counting`: the first of the greatest.
  unfoldable pub worst_of : Entry → List (Option Entry) → Judged Excess
  unfolding over
  worst_of e [] = over e none
  worst_of e (s ∷ []) = over e s
  worst_of e (s ∷ t ∷ ss) = do
    x ← over e s
    y ← worst_of e (t ∷ ss)
    accepted (if ltb_ℤ x.excess y.excess then y else x)

  unfoldable pub worst : List Entry → List Entry → Entry → Judged Excess
  unfolding counted_with worst_of
  worst all_entries live e = worst_of e (counted_with all_entries live e)

abbrev pub with_counting : Excess → Sentence → Sentence
with_counting x s = elim x.with_entry [ none ↦ s | some t ↦ counting x.most (id_or_zero t) s ]

abbrev follows : List Entry → Option Entry → Entry → Bool
follows timeline none e = false
follows timeline (some s) e = not (key_lt (fold_key timeline s) (fold_key timeline e))

module _ (rules : Rules) (flights : List FlightRecord) (existing timeline : List Entry)
    (candidate : Entry) (corrected : Option Entry) (ch : Change) where
  abbrev was : Entry → Option ℕ
  was e = if same_id e.id candidate.id then elim corrected [ none ↦ none | some c ↦ c.id ] else e.id

  -- The inspection as the records held it before the write.
  abbrev pub held : Entry → Option Entry
  held e = first (λ x. same_id x.id (was e) && is_inspection x.kind) ch.old_live

  -- The write may leave an inspection as far past its bound as it was.
  unfoldable pub no_worse : Entry → Excess → Judged Bool
  unfolding worst found_or
  no_worse e x = found_or (held e) (accepted false) λ h. do
    old ← worst rules flights existing ch.old_live h
    accepted (leb_ℤ x.excess (max_ℤ (pos 0) old.excess +ℤ hours_slack_s))

  abbrev pub refusal : Entry → Excess → Judged (Unit {0})
  refusal e x =
      let why = too_many_hours x.most in
      if not (same_id e.id candidate.id) && not (id_in ch.old_live e)
      then refuse 409 (brings_back (ended_by ch e) (with_counting x why))
      else if not (same_id e.id candidate.id)
      then refuse 409 (makes_impossible (id_or_zero e) why)
      else if follows timeline x.with_entry e
      then refuse 409 (with_counting x why)
      else refuse 422 (with_counting x why)

  -- One round of the loop over the live entries.
  unfoldable pub hours_hold : List Entry → Entry → Judged (Unit {0})
  unfolding worst no_worse
  hours_hold live e = do
    x ← worst rules flights timeline live e
    within ← (if leb_ℤ x.excess hours_slack_s then accepted true else no_worse e x)
    if within then accepted tt else refusal e x

  abbrev pub is_judged : Bool → Entry → Bool
  is_judged totals e =
      str_eq e.subject candidate.subject
      && is_inspection e.kind
      && (totals || same_id e.id candidate.id || id_in ch.revived e)

  unfoldable pub hours_hold_all : Bool → List Entry → List Entry → Judged (Unit {0})
  unfolding hours_hold
  hours_hold_all totals live [] = accepted tt
  hours_hold_all totals live (e ∷ es) =
      let rest = hours_hold_all totals live es in
      if is_judged totals e then (do hours_hold live e; rest) else rest

  -- `_inspection_hours_hold`
  unfoldable pub inspection_hours_hold : Judged (Unit {0})
  unfolding hours_hold_all liveness
  inspection_hours_hold =
      let hours =
        keep (λ e. is_inspection e.kind || is_total e.kind) (candidate ∷ ch.revived ++ ch.ended) in
      let live = (liveness timeline).0 in
      let judged = hours_hold_all (any (λ e. is_total e.kind) hours) live live in
      elim hours [ [] ↦ accepted tt | _ ∷ _ ↦ judged ]
