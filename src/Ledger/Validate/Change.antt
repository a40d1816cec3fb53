-- ===== src/Ledger/Validate/Change.antt =====
-- `_Change`, `_change`, `_twin`, `_revived_entries_hold` and `_later_entries_still_hold` of
-- ledger/validate.py: the entries a write brings back or ends, and those that follow it.
use uas_sustainment_workbenc.Base.{
  ℕ, str_eq, Bool, true, false, not, ◌&&◌, ◌||◌, any, keep, Option, none, some, List, [], ◌∷◌,
  first, if◌then◌else◌,
}
use uas_sustainment_workbenc.Ledger.Model.{Kind, work_order_open, is_retraction, Entry}
use uas_sustainment_workbenc.Ledger.Project.Order.{
  id_or_zero, get_id, liveness, fold_key, key_eq, key_le,
}
use uas_sustainment_workbenc.Ledger.Project.Records.{project}
use uas_sustainment_workbenc.Ledger.Store.{Store}
use uas_sustainment_workbenc.Ledger.Judged.{
  Judged, accepted, refuse, found_or, ◌>>=◌, ◌>>◌, read, reworded, Sentence, twin_registration,
  twin_supersession, twin_place, twin_order, undoes, brings_back, makes_impossible,
}
use uas_sustainment_workbenc.Ledger.Validate.Shape.{Rules}
use uas_sustainment_workbenc.Ledger.Validate.Checks.{
  subjects, policy_check, same_detail, same_id, is_register,
}
use uas_sustainment_workbenc.Ledger.Validate.Transitions.{transitions}

pub record Change : Type 0 where
  pub revived : List Entry
  pub ended : List Entry
  pub old_live : List Entry
  pub superseded_by : List (ℕ × ℕ)
  pub returned : List Entry

-- e.id in {x.id for x in live}
abbrev pub id_in : List Entry → Entry → Bool
id_in live e = any (λ x. same_id x.id e.id) live

-- `_change`; the candidate is told from the others by its id, which is no other entry's.
unfoldable pub change : List Entry → List Entry → Entry → Change
unfolding liveness
change existing timeline candidate =
    let old = (liveness existing).0 in
    let new = (liveness timeline).0 in
    let returned = keep (λ e. not (same_id e.id candidate.id) && not (id_in old e)) new in
    record {
      revived = keep (λ e. not (is_retraction e.kind)) returned;
      ended = keep (λ e. not (id_in new e) && not (is_retraction e.kind)) old;
      old_live = old;
      superseded_by = (liveness existing).1;
      returned = returned;
    }

-- The id of the entry that had ended this one.
abbrev pub ended_by : Change → Entry → ℕ
ended_by ch e = elim (get_id ch.superseded_by (id_or_zero e)) [ none ↦ 0 | some n ↦ n ]

abbrev pub is_open : Kind → Bool
is_open work_order_open = true
is_open _ = false

abbrev pub supersedes_same : Entry → Entry → Bool
supersedes_same e x = elim e.supersedes [ none ↦ false | some n ↦ same_id x.supersedes (some n) ]

abbrev pub or_else : Option Sentence → Option Sentence → Option Sentence
or_else (some s) o = some s
or_else none o = o

abbrev pub found_as : (ℕ → Sentence) → Option Entry → Option Sentence
found_as f none = none
found_as f (some x) = some (f (id_or_zero x))

-- The live entry at the same place in the fold.
abbrev pub place_twin : List Entry → Entry → Change → Entry → Option Entry → Option Sentence
place_twin timeline candidate ch e none = none
place_twin timeline candidate ch e (some x) =
    if same_id x.id candidate.id
    then some (undoes (ended_by ch e))
    else some (twin_place (id_or_zero x))

-- `_twin`
unfoldable pub twin : Entry → List Entry → List Entry → Entry → Change → Option Sentence
unfolding fold_key
twin e live timeline candidate ch =
    let others = keep (λ x. not (same_id x.id e.id) && str_eq x.subject e.subject) live in
    or_else
      (if is_register e.kind
        then found_as twin_registration (first (λ x. is_register x.kind) others)
        else none)
      (or_else (found_as twin_supersession (first (supersedes_same e) others)) (
        or_else
          (if is_retraction e.kind
            then none
            else place_twin timeline candidate ch e (
                first
                  (λ x.
                    not (is_retraction x.kind)
                    && key_eq (fold_key timeline x) (fold_key timeline e))
                  others))
          (if is_open e.kind
            then found_as twin_order
                (first (λ x. is_open x.kind && same_detail x.details e.details "work_id") others)
            else none)))

abbrev pub without : List Entry → Entry → List Entry
without timeline e = keep (λ x. not (same_id x.id e.id || supersedes_it x)) timeline
  where
    supersedes_it : Entry → Bool
    supersedes_it x = same_id x.id e.supersedes

module _ (rules : Rules) (store : Store) (timeline : List Entry) (candidate : Entry)
    (ch : Change) where
  abbrev pub about : Entry → Sentence → Sentence
  about e s = brings_back (ended_by ch e) s

  -- The checks a revived entry faces as a new one of its kind and date would.
  unfoldable pub revived_holds : Entry → Judged (Unit {0})
  unfolding project subjects policy_check transitions
  revived_holds e = do
    whole ← read (project rules.py (without timeline e) none none)
    reworded (about e) (subjects rules store e whole e.details)
    reworded (about e) (policy_check rules.policy e e.details)
    then_ ← read (project rules.py timeline none (some e))
    kept ← reworded (about e) (transitions rules store e.kind e e.details then_ (some whole))
    accepted tt

  -- The loop of `_revived_entries_hold`.
  unfoldable pub revived_hold : List Entry → List Entry → Judged (Unit {0})
  unfolding twin revived_holds found_or
  revived_hold live [] = accepted tt
  revived_hold live (e ∷ es) =
      let rest = revived_hold live es in
      found_or (twin e live timeline candidate ch)
        (if is_retraction e.kind then rest else (do revived_holds e; rest))
        λ why. refuse 409 (about e why)

  unfoldable pub revived_entries_hold : Judged (Unit {0})
  unfolding revived_hold
  revived_entries_hold = revived_hold (liveness timeline).0 ch.returned

module _ (rules : Rules) (store : Store) (timeline : List Entry) (candidate cut : Entry) where
  -- e is candidate or e.subject != candidate.subject or e.kind == RETRACTION, or it does not follow the cut
  abbrev pub is_passed_over : Entry → Bool
  is_passed_over e =
      same_id e.id candidate.id
      || not (str_eq e.subject candidate.subject)
      || is_retraction e.kind
      || key_le (fold_key timeline e) (fold_key timeline cut)

  unfoldable pub later_holds : Entry → Judged (Unit {0})
  unfolding project transitions
  later_holds e = do
    then_ ← read (project rules.py timeline none (some e))
    kept ←
        reworded (makes_impossible (id_or_zero e))
          (transitions rules store e.kind e e.details then_ none)
    accepted tt

  -- The loop of `_later_entries_still_hold`.
  unfoldable pub later_hold : List Entry → Judged (Unit {0})
  unfolding later_holds
  later_hold [] = accepted tt
  later_hold (e ∷ es) =
      let rest = later_hold es in if is_passed_over e then rest else (do later_holds e; rest)

  unfoldable pub later_entries_still_hold : Judged (Unit {0})
  unfolding later_hold
  later_entries_still_hold = later_hold (liveness timeline).0
