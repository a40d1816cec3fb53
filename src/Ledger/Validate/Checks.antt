-- ===== src/Ledger/Validate/Checks.antt =====
-- `_subjects`, `_policy`, `_dependents` and `_correction` of ledger/validate.py.
use uas_sustainment_workbenc.Base.{
  ℕ, ℤ, pos, ◌*ℤ◌, eqb_ℤ, leb, ◌==◌, String, str_eq, Bool, true, false, not, ◌&&◌, any, keep,
  Option, none, some, List, [], ◌∷◌, if◌then◌else◌,
}
use uas_sustainment_workbenc.Base.Dict.{Dict, get, has}
use uas_sustainment_workbenc.Life.Policy.{LifePolicy}
use uas_sustainment_workbenc.Ledger.Model.{
  Kind, work_order_open, work_order_state, work_order_close, inspection_done, component_register,
  component_install, component_remove, in_aircraft_kinds, in_component_kinds, is_retraction, Value,
  null, flag, integer, number, text, other_value, Entry, Projection, missing,
}
use uas_sustainment_workbenc.Ledger.Project.Order.{get_id}
use uas_sustainment_workbenc.Ledger.Store.{Store, entry}
use uas_sustainment_workbenc.Ledger.Judged.{
  Judged, accepted, raises, refuse, refuse_if, found_or, ◌>>=◌, ◌>>◌, is_a_component,
  is_an_aircraft, showcase_aircraft, not_in_store, already_registered, not_registered,
  no_component_on_showcase, kind_not_in_policy, inspection_not_in_policy, no_such_entry,
  about_another, already_superseded, keeps_its_date, has_dependents,
}
use uas_sustainment_workbenc.Ledger.Validate.Shape.{Rules, showcase_keys}

abbrev pub member : String → List String → Bool
member s xs = any (λ x. str_eq x s) xs

abbrev pub is_component : String → Projection → Bool
is_component s p = any (λ c. str_eq c.id s) p.components

-- str(details[name])
unfoldable pub text_of : Rules → Dict Value → String → Judged String
unfolding found_or
text_of rules p name =
    found_or (get p name) (raises (missing name)) λ v. accepted (rules.py.to_str v)

abbrev pub is_register : Kind → Bool
is_register component_register = true
is_register _ = false

-- The aircraft a component is moved on or off.
unfoldable pub move_subject : Rules → Store → Dict Value → Judged (Unit {0})
unfolding text_of
move_subject rules store details = do
  key ← text_of rules details "aircraft_key"
  refuse_if (not (member key store.aircraft)) 404 (not_in_store key)
  refuse_if (member key showcase_keys) 403 (no_component_on_showcase key)

-- `_subjects`
unfoldable pub subjects : Rules → Store → Entry → Projection → Dict Value → Judged (Unit {0})
unfolding move_subject
subjects rules store e p details =
    if in_aircraft_kinds e.kind
    then (do
      refuse_if (is_component e.subject p) 422 (is_a_component e.subject)
      refuse_if (not (member e.subject store.aircraft)) 404 (not_in_store e.subject)
      refuse_if (member e.subject showcase_keys) 403 (showcase_aircraft e.subject))
    else if in_component_kinds e.kind
    then (do
      refuse_if (member e.subject store.aircraft) 422 (is_an_aircraft e.subject)
      refuse_if (is_register e.kind && is_component e.subject p) 409 (already_registered e.subject)
      refuse_if (not (is_register e.kind) && not (is_component e.subject p)) 404
          (not_registered e.subject)
      if is_register e.kind then accepted tt else move_subject rules store details)
    else accepted tt

-- details[name] not in names; a value that is not a text is no key.
abbrev pub named_in {ℓ} : {A : Type ℓ} → Dict A → Value → Bool
named_in d v = elim v [ text s ↦ has d s | _ ↦ false ]

-- `_policy`
unfoldable pub policy_check : LifePolicy → Entry → Dict Value → Judged (Unit {0})
unfolding found_or
policy_check policy e details = elim e.kind [
  | component_register ↦
      found_or (get details "kind") (raises (missing "kind"))
        λ v. refuse_if (not (named_in policy.component_kinds v)) 422 (kind_not_in_policy e.subject)
  | inspection_done ↦
      found_or (get details "name") (raises (missing "name")) λ v.
        refuse_if (not (named_in policy.inspections v)) 422 (inspection_not_in_policy e.subject)
  | _ ↦ accepted tt
]

abbrev pub or_null : Option Value → Value
or_null none = null
or_null (some v) = v

abbrev pub as_number : Bool → ℤ
as_number true = pos 1000
as_number false = pos 0

-- a == b of two JSON values: True is 1 and False is 0.
abbrev pub same_json : Value → Value → Bool
same_json null null = true
same_json (flag a) (flag b) = eqb_ℤ (as_number a) (as_number b)
same_json (flag a) (number n) = eqb_ℤ (as_number a) n
same_json (flag a) (integer n) = eqb_ℤ (as_number a) (n *ℤ pos 1000)
same_json (integer m) (flag b) = eqb_ℤ (m *ℤ pos 1000) (as_number b)
same_json (integer m) (integer n) = eqb_ℤ m n
same_json (integer m) (number n) = eqb_ℤ (m *ℤ pos 1000) n
same_json (number m) (integer n) = eqb_ℤ m (n *ℤ pos 1000)
same_json (number m) (flag b) = eqb_ℤ m (as_number b)
same_json (number m) (number n) = eqb_ℤ m n
same_json (text s) (text t) = str_eq s t
same_json (other_value s) (other_value t) = str_eq s t
same_json _ _ = false

-- p.get(name) == q.get(name)
abbrev pub same_detail : Dict Value → Dict Value → String → Bool
same_detail p q name = same_json (or_null (get p name)) (or_null (get q name))

abbrev pub same_id : Option ℕ → Option ℕ → Bool
same_id none none = true
same_id (some m) (some n) = m == n
same_id _ _ = false

-- [e.id for e in ... if e.id]
abbrev pub ids_of : List Entry → List ℕ
ids_of [] = []
ids_of (e ∷ es) =
    let rest = ids_of es in elim e.id [ none ↦ rest | some n ↦ if n == 0 then rest else n ∷ rest ]

abbrev pub is_move : Kind → Bool
is_move component_install = true
is_move component_remove = true
is_move _ = false

abbrev pub is_remove : Kind → Bool
is_remove component_remove = true
is_remove _ = false

abbrev pub changes_order : Kind → Bool
changes_order work_order_state = true
changes_order work_order_close = true
changes_order _ = false

-- [later[0].id] if later and later[0].id else []
abbrev pub first_id : List Entry → List ℕ
first_id [] = []
first_id (e ∷ es) = ids_of (e ∷ [])

abbrev pub others_of : Entry → List Entry → List Entry
others_of target live =
    keep (λ e. str_eq e.subject target.subject && not (same_id e.id target.id)) live

-- `_dependents`
unfoldable pub dependents : Entry → List Entry → List ℕ
dependents target live =
    let same = others_of target live in
    elim target.kind [
      | component_register ↦ ids_of (keep (λ e. is_move e.kind) same)
      | work_order_open ↦
          ids_of (
            keep (λ e. changes_order e.kind && same_detail e.details target.details "work_id") same)
      | component_install ↦ first_id (
          keep
            (λ e.
              is_remove e.kind
              && (leb target.occurred_utc.utc e.occurred_utc.utc
                  && same_detail e.details target.details "aircraft_key"))
            same)
      | _ ↦ []
    ]

abbrev pub refuse_some : List ℕ → Judged (Unit {0})
refuse_some [] = accepted tt
refuse_some (d ∷ ds) = refuse 409 (has_dependents (d ∷ ds))

abbrev pub refuse_superseded : Option ℕ → Judged (Unit {0})
refuse_superseded none = accepted tt
refuse_superseded (some by) = refuse 409 (already_superseded by)

abbrev pub superseder : List (ℕ × ℕ) → Entry → Option ℕ
superseder by e = elim e.id [ none ↦ none | some n ↦ get_id by n ]

-- The checks of `_correction` on the entry that is superseded.
unfoldable pub corrects : Entry → Entry → Projection → Judged (Option Entry)
unfolding dependents
corrects e target p = do
  refuse_if (not (str_eq target.subject e.subject)) 409 (about_another target.subject)
  refuse_superseded (superseder p.superseded_by target)
  refuse_if (not (is_retraction e.kind) && not (e.occurred_utc.utc == target.occurred_utc.utc)) 409
      keeps_its_date
  refuse_some (dependents target p.live)
  accepted (some target)

-- `_correction`
unfoldable pub correction : Store → Entry → Projection → Judged (Option Entry)
unfolding entry corrects found_or
correction store e p =
    found_or e.supersedes (accepted none)
      λ n. found_or (entry store n) (refuse 404 (no_such_entry n)) λ target. corrects e target p
