-- ===== src/Ledger/Validate/Statuses.antt =====
-- Every refusal of an entry has one of the statuses the interface documents: the checks before the consequences.
pub mod Whole
use uas_sustainment_workbenc.Base.{
  ℕ, ℤ, String, ◌==◌, ◌||◌, ◌≡◌, refl, Bool, true, false, Option, none, some, List, [], ◌∷◌, arith,
  if◌then◌else◌,
}
use uas_sustainment_workbenc.Base.Dict.{Dict, get}
use uas_sustainment_workbenc.Base.Time.{DateTime}
use uas_sustainment_workbenc.Flight.Record.{FlightRecord, Maybe, known, unknown}
use uas_sustainment_workbenc.Life.Policy.{LifePolicy}
use uas_sustainment_workbenc.Life.Model.{Component, Installation, Basis}
use uas_sustainment_workbenc.Life.Engine.Usage.{time_in_service}
use uas_sustainment_workbenc.Ledger.Model.{
  Kind, work_order_open, work_order_state, work_order_close, inspection_done, component_install,
  component_remove, component_register, Entry, Value, Projection, Why, UnreadableRecord,
  WorkOrderState,
}
use uas_sustainment_workbenc.Ledger.Project.Records.{Projected, projected, unreadable}
use uas_sustainment_workbenc.Ledger.Store.{Store}
use uas_sustainment_workbenc.Ledger.Judged.{
  Judged, accepted, refused, cannot_read, raises, refuse, refuse_if, found_or, read, reworded,
  ◌>>=◌, LedgerError, Sentence, hours_not_derived,
}
use uas_sustainment_workbenc.Ledger.Validate.Shape.{Rules, shape, or_refuse}
use uas_sustainment_workbenc.Ledger.Validate.Checks.{
  subjects, move_subject, policy_check, corrects, correction, text_of, refuse_some,
  refuse_superseded,
}
use uas_sustainment_workbenc.Ledger.Validate.Transitions.{
  transitions, open_order, change_order, install, remove, derive_hours, move_component, refuse_past,
  with_hours,
}

-- The statuses of the endpoint: a showcase aircraft, an unknown subject, a transition the records
-- cannot accept, a shape error.
abbrev pub is_documented : ℕ → Bool
is_documented n = (n == 403) || (n == 404) || (n == 409) || (n == 422)

pub record Documented {ℓ} {A : Type ℓ} (j : Judged A) : Type ℓ where
  pub at : (e : LedgerError) → j ≡ refused e → is_documented e.status ≡ true

module _ {ℓ} {A : Type ℓ} where
  pub Documented-accepted : (a : A) → Documented (accepted a)
  Documented-accepted a = record { at = λ e p. cc }

  pub Documented-refuse :
      (n : ℕ) (s : Sentence) → is_documented n ≡ true → Documented (refuse {A = A} n s)
  Documented-refuse n s h = record { at = λ e p. ground arith }

  pub Documented-raises : (w : Why) → Documented {A = A} (raises w)
  Documented-raises w = record { at = λ e p. cc }

  pub Documented-read : (p : Projected A) → Documented (read p)
  unfolding read
  Documented-read (projected a) = record { at = λ e p. cc }
  Documented-read (unreadable u) = record { at = λ e p. cc }

  pub Documented-reworded : (f : Sentence → Sentence) (j : Judged A) → Documented (reworded f j)
  unfolding reworded
  Documented-reworded f (accepted a) = record { at = λ e p. cc }
  Documented-reworded f (refused x) = record { at = λ e p. ground arith }
  Documented-reworded f (cannot_read u) = record { at = λ e p. cc }
  Documented-reworded f (raises w) = record { at = λ e p. cc }

  pub Documented-if :
      (b : Bool) (j k : Judged A) → Documented j → Documented k → Documented (if b then j else k)
  Documented-if true j k p q = p
  Documented-if false j k p q = q

pub Documented-refuse_if :
    (b : Bool) (n : ℕ) (s : Sentence) → is_documented n ≡ true → Documented (refuse_if b n s)
unfolding refuse_if
Documented-refuse_if true n s h = Documented-refuse n s h
Documented-refuse_if false n s h = Documented-accepted tt

pub Documented-bind {ℓ κ} :
    {A : Type ℓ} {B : Type κ} (m : Judged A) (f : A → Judged B)
    → Documented m
    → ((a : A) → Documented (f a))
    → Documented (m >>= f)
unfolding ◌>>=◌
Documented-bind (accepted a) f p q = q a
Documented-bind (refused x) f p q = record { at = λ e r. ground (arith, p.at x refl) }
Documented-bind (cannot_read u) f p q = record { at = λ e r. cc }
Documented-bind (raises w) f p q = record { at = λ e r. cc }

doc_403 : is_documented 403 ≡ true
doc_403 = refl

doc_404 : is_documented 404 ≡ true
doc_404 = refl

doc_409 : is_documented 409 ≡ true
doc_409 = refl

doc_422 : is_documented 422 ≡ true
doc_422 = refl

pub ruleset documented_rules = (
  Documented-accepted, Documented-refuse, Documented-raises, Documented-read, Documented-reworded,
  Documented-if, Documented-refuse_if, Documented-bind,
)

Documented-or_refuse :
    (o : Option (Dict Value)) (s : Sentence) → Documented (or_refuse o (refuse 422 s))
Documented-or_refuse none s = Documented-refuse 422 s refl
Documented-or_refuse (some a) s = Documented-accepted a

pub Documented-shape : (rules : Rules) (e : Entry) (now : DateTime) → Documented (shape rules e now)
unfolding shape
Documented-shape rules e now = search (documented_rules, Documented-or_refuse) depth 12

pub Documented-found_or {ℓ κ} :
    {A : Type ℓ} {B : Type κ} (o : Option B) (j : Judged A) (k : B → Judged A)
    → Documented j
    → ((b : B) → Documented (k b))
    → Documented (found_or o j k)
unfolding found_or
Documented-found_or none j k p q = p
Documented-found_or (some b) j k p q = q b

pub Documented-text_of :
    (rules : Rules) (p : Dict Value) (n : String) → Documented (text_of rules p n)
unfolding text_of
Documented-text_of rules p n = search (documented_rules, Documented-found_or)

Documented-move_subject :
    (rules : Rules) (s : Store) (p : Dict Value) → Documented (move_subject rules s p)
unfolding move_subject
Documented-move_subject rules s p = search (documented_rules, Documented-text_of)

pub Documented-subjects :
    (rules : Rules) (s : Store) (e : Entry) (p : Projection) (d : Dict Value)
    → Documented (subjects rules s e p d)
unfolding subjects
Documented-subjects rules s e p d = search (documented_rules, Documented-move_subject) depth 10

pub ruleset split_rules = (documented_rules, Documented-found_or, Documented-text_of)

kind_step :
    (k : Kind) (i j : Judged (Unit {0}))
    → Documented i
    → Documented j
    → Documented {A = Unit {0}}
        (elim k [ component_register ↦ i | inspection_done ↦ j | _ ↦ accepted tt ])
kind_step component_register i j p q = p
kind_step inspection_done i j p q = q
kind_step _ i j p q = Documented-accepted {A = Unit {0}} tt

pub Documented-policy_check :
    (p : LifePolicy) (e : Entry) (d : Dict Value) → Documented (policy_check p e d)
unfolding policy_check
Documented-policy_check p e d = kind_step e.kind _ _ (search split_rules) (search split_rules)

Documented-refuse_some : (ds : List ℕ) → Documented (refuse_some ds)
Documented-refuse_some [] = Documented-accepted tt
Documented-refuse_some (d ∷ ds) = Documented-refuse 409 _ refl

Documented-refuse_superseded : (o : Option ℕ) → Documented (refuse_superseded o)
Documented-refuse_superseded none = Documented-accepted tt
Documented-refuse_superseded (some n) = Documented-refuse 409 _ refl

Documented-corrects : (e t : Entry) (p : Projection) → Documented (corrects e t p)
unfolding corrects
Documented-corrects e t p =
    search (documented_rules, Documented-refuse_some, Documented-refuse_superseded) depth 10

pub Documented-correction : (s : Store) (e : Entry) (p : Projection) → Documented (correction s e p)
unfolding correction
Documented-correction s e p = search (split_rules, Documented-corrects)

Documented-open_order :
    (rules : Rules) (s : Store) (e : Entry) (d : Dict Value) (w : Option Projection)
    → Documented (open_order rules s e d w)
unfolding open_order
Documented-open_order rules s e d w = search documented_rules depth 8

Documented-change_order :
    (rules : Rules) (e : Entry) (d : Dict Value) (t : Projection) (w : Option Projection)
    → Documented (change_order rules e d t w)
unfolding change_order
Documented-change_order rules e d t w = search split_rules depth 8

Documented-refuse_past : (id : String) (bs : List Basis) → Documented (refuse_past id bs)
Documented-refuse_past id [] = Documented-accepted tt
Documented-refuse_past id (b ∷ bs) = Documented-refuse 409 _ refl

Documented-install :
    (rules : Rules) (s : Store) (e : Entry) (c : Component) (d : Dict Value)
    → Documented (install rules s e c d)
unfolding install
Documented-install rules s e c d = search (split_rules, Documented-refuse_past) depth 8

Documented-remove : (c : Component) (key : String) (d : Dict Value) → Documented (remove c key d)
unfolding remove
Documented-remove c key d = search split_rules depth 8

Documented-derive_hours :
    (rules : Rules) (s : Store) (e : Entry) (d : Dict Value) (t : Projection)
    → Documented (derive_hours rules s e d t)
unfolding derive_hours
Documented-derive_hours rules s e d t = Documented-if _ _ _ (Documented-accepted d) (service _)
  where
    service :
        (m : Maybe ℤ)
        → Documented (elim m [
          | unknown why ↦ refuse 422 hours_not_derived
          | known least ↦ accepted (with_hours d least)
        ])
    service (unknown w) = Documented-refuse 422 _ refl
    service (known n) = Documented-accepted _

Documented-move_component :
    (rules : Rules) (s : Store) (e : Entry) (d : Dict Value) (t : Projection) (b : Bool)
    → Documented (move_component rules s e d t b)
unfolding move_component
Documented-move_component rules s e d t b =
    search (split_rules, Documented-install, Documented-remove) depth 8

pub Documented-transitions :
    (rules : Rules) (s : Store) (k : Kind) (e : Entry) (d : Dict Value) (t : Projection)
    (w : Option Projection)
    → Documented (transitions rules s k e d t w)
unfolding transitions
Documented-transitions rules s work_order_open e d t w = Documented-open_order rules s e d w
Documented-transitions rules s work_order_state e d t w = Documented-change_order rules e d t w
Documented-transitions rules s work_order_close e d t w = Documented-change_order rules e d t w
Documented-transitions rules s component_install e d t w =
    Documented-move_component rules s e d t true
Documented-transitions rules s component_remove e d t w =
    Documented-move_component rules s e d t false
Documented-transitions rules s inspection_done e d t w = Documented-derive_hours rules s e d t
Documented-transitions rules s _ e d t w = Documented-accepted d
