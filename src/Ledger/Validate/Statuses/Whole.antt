-- ===== src/Ledger/Validate/Statuses/Whole.antt =====
-- Every refusal of an entry has one of the statuses the interface documents: the consequences of a write,
-- and `validate` as a whole.
use uas_sustainment_workbenc.Base.{String, ◌≡◌, refl, Bool, true, Option, none, some, List, [], ◌∷◌}
use uas_sustainment_workbenc.Base.Time.{DateTime}
use uas_sustainment_workbenc.Flight.Record.{FlightRecord}
use uas_sustainment_workbenc.Ledger.Model.{Entry}
use uas_sustainment_workbenc.Ledger.Project.Order.{liveness}
use uas_sustainment_workbenc.Ledger.Store.{Store}
use uas_sustainment_workbenc.Ledger.Judged.{Judged, accepted, refused, LedgerError}
use uas_sustainment_workbenc.Ledger.Validate.Shape.{Rules}
use uas_sustainment_workbenc.Ledger.Validate.Change.{
  Change, revived_holds, revived_hold, revived_entries_hold, later_holds, later_hold,
  later_entries_still_hold,
}
use uas_sustainment_workbenc.Ledger.Validate.Hours.{
  Excess, counted_with, over, worst_of, worst, no_worse, hours_hold, hours_hold_all,
  inspection_hours_hold, float_of, before_s_of,
}
use uas_sustainment_workbenc.Ledger.Validate.Write.{consequences, validate}
use uas_sustainment_workbenc.Ledger.Validate.Statuses.{
  is_documented, Documented, documented_rules, Documented-accepted, Documented-refuse,
  Documented-if, Documented-bind, Documented-found_or, Documented-shape, Documented-subjects,
  Documented-policy_check, Documented-correction, Documented-transitions,
}

module _ (rules : Rules) (store : Store) (timeline : List Entry) (candidate : Entry) where
  Documented-revived_holds :
      (ch : Change) (e : Entry) → Documented (revived_holds rules store timeline candidate ch e)
  unfolding revived_holds
  Documented-revived_holds ch e = search documented_rules depth 14

  Documented-revived_hold :
      (ch : Change) (live es : List Entry)
      → Documented (revived_hold rules store timeline candidate ch live es)
  unfolding revived_hold
  Documented-revived_hold ch live [] = Documented-accepted tt
  Documented-revived_hold ch live (e ∷ es) =
      let ih = Documented-revived_hold ch live es in
      Documented-found_or _ _ _
        (Documented-if _ _ _ ih (Documented-bind _ _ (Documented-revived_holds ch e) λ a. ih))
        λ why. Documented-refuse 409 _ refl

  Documented-revived_entries_hold :
      (ch : Change) → Documented (revived_entries_hold rules store timeline candidate ch)
  unfolding revived_entries_hold
  Documented-revived_entries_hold ch = Documented-revived_hold ch (liveness timeline).0 ch.returned

  Documented-later_holds :
      (cut e : Entry) → Documented (later_holds rules store timeline candidate cut e)
  unfolding later_holds
  Documented-later_holds cut e = search documented_rules depth 10

  Documented-later_hold :
      (cut : Entry) (es : List Entry)
      → Documented (later_hold rules store timeline candidate cut es)
  unfolding later_hold
  Documented-later_hold cut [] = Documented-accepted tt
  Documented-later_hold cut (e ∷ es) =
      let ih = Documented-later_hold cut es in
      Documented-if _ _ _ ih (Documented-bind _ _ (Documented-later_holds cut e) λ a. ih)

  Documented-later_entries_still_hold :
      (cut : Entry) → Documented (later_entries_still_hold rules store timeline candidate cut)
  unfolding later_entries_still_hold
  Documented-later_entries_still_hold cut = Documented-later_hold cut (liveness timeline).0

Documented-float_of : (rules : Rules) (e : Entry) (n : String) → Documented (float_of rules e n)
unfolding float_of
Documented-float_of rules e n = search (documented_rules, Documented-found_or) depth 8

Documented-before_s_of : (rules : Rules) (s : Option Entry) → Documented (before_s_of rules s)
unfolding before_s_of
Documented-before_s_of rules none = Documented-accepted _
Documented-before_s_of rules (some s) = Documented-float_of rules s "before_s"

module _ (rules : Rules) (flights : List FlightRecord) where
  Documented-over : (e : Entry) (s : Option Entry) → Documented (over rules flights e s)
  unfolding over
  Documented-over e s =
      search (documented_rules, Documented-float_of, Documented-before_s_of) depth 8

  Documented-worst_of :
      (e : Entry) (ss : List (Option Entry)) → Documented (worst_of rules flights e ss)
  unfolding worst_of
  Documented-worst_of e [] = Documented-over e none
  Documented-worst_of e (s ∷ []) = Documented-over e s
  Documented-worst_of e (s ∷ t ∷ ss) =
      let ih = Documented-worst_of e (t ∷ ss) in
      Documented-bind _ _ (Documented-over e s)
        λ x. Documented-bind _ _ ih λ y. Documented-accepted _

  Documented-worst : (es live : List Entry) (e : Entry) → Documented (worst rules flights es live e)
  unfolding worst
  Documented-worst es live e = Documented-worst_of e (counted_with es live e)

module _ (rules : Rules) (flights : List FlightRecord) (existing timeline : List Entry)
    (candidate : Entry) (corrected : Option Entry) (ch : Change) where
  Documented-no_worse :
      (e : Entry) (x : Excess)
      → Documented (no_worse rules flights existing timeline candidate corrected ch e x)
  unfolding no_worse
  Documented-no_worse e x = search (documented_rules, Documented-found_or, Documented-worst) depth 8

  Documented-hours_hold :
      (live : List Entry) (e : Entry)
      → Documented (hours_hold rules flights existing timeline candidate corrected ch live e)
  unfolding hours_hold
  Documented-hours_hold live e =
      search (documented_rules, Documented-worst, Documented-no_worse) depth 12

  Documented-hours_hold_all :
      (totals : Bool) (live es : List Entry)
      → Documented
          (hours_hold_all rules flights existing timeline candidate corrected ch totals live es)
  unfolding hours_hold_all
  Documented-hours_hold_all totals live [] = Documented-accepted tt
  Documented-hours_hold_all totals live (e ∷ es) =
      let ih = Documented-hours_hold_all totals live es in
      Documented-if _ _ _ (Documented-bind _ _ (Documented-hours_hold live e) λ a. ih) ih

  if_any :
      (es : List Entry) (j : Judged (Unit {0}))
      → Documented j
      → Documented {A = Unit {0}} (elim es [ [] ↦ accepted tt | _ ∷ _ ↦ j ])
  if_any [] j p = Documented-accepted tt
  if_any (e ∷ es) j p = p

  Documented-inspection_hours_hold :
      Documented (inspection_hours_hold rules flights existing timeline candidate corrected ch)
  unfolding inspection_hours_hold
  Documented-inspection_hours_hold =
      if_any _ _ (Documented-hours_hold_all _ (liveness timeline).0 (liveness timeline).0)

Documented-consequences :
    (rules : Rules) (s : Store) (es ts : List Entry) (e : Entry) (c : Option Entry)
    → Documented (consequences rules s es ts e c)
unfolding consequences
Documented-consequences rules s es ts e c =
    search
      (
        documented_rules, Documented-revived_entries_hold, Documented-inspection_hours_hold,
        Documented-later_entries_still_hold,
      )
      depth 8

Documented-validate :
    (rules : Rules) (s : Store) (e : Entry) (now : DateTime) → Documented (validate rules s e now)
unfolding validate
Documented-validate rules s e now =
    search
      (
        documented_rules, Documented-shape, Documented-subjects, Documented-correction,
        Documented-policy_check, Documented-transitions, Documented-consequences,
      )
      depth 24

-- Whenever `validate` refuses an entry, whatever the rules, the store, the entry and the time, the status
-- is 403, 404, 409 or 422.
pub refused-status :
    (rules : Rules) (s : Store) (e : Entry) (now : DateTime) (err : LedgerError)
    → validate rules s e now ≡ refused err
    → is_documented err.status ≡ true
refused-status rules s e now err p = (Documented-validate rules s e now).at err p
