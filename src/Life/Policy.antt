-- ===== src/Life/Policy.antt =====
-- life/policy.py: life limits and inspection intervals as fleet.toml sets them. Hours are millionths of an
-- hour, a limit as well as a tolerance.
use uas_sustainment_workbenc.Base.{
  ℤ, pos, String, str_eq, not, ◌||◌, any, Option, none, some, List, [], ◌∷◌, ◌++◌, if◌then◌else◌,
  eqb_ℤ,
}
use uas_sustainment_workbenc.Base.Dict.{Dict, put}
use uas_sustainment_workbenc.Life.Model.{Basis}

pub record LifeRule : Type 0 where
  pub name : String
  pub hours : Option ℤ
  pub cycles : Option ℤ
  pub calendar_months : Option ℤ
  pub tolerance_hours : ℤ
  pub source : String
  pub satisfied_by : List String

pub record LifePolicy : Type 0 where
  pub due_soon_fraction : ℤ
  pub component_kinds : Dict LifeRule
  pub inspections : Dict LifeRule

abbrev on_basis : Basis → Option ℤ → List (Basis × ℤ)
on_basis b none = []
on_basis b (some n) = (b, n) ∷ []

-- `LifeRule.limits`; hours are millionths, cycles and months are counts.
unfoldable pub limits : LifeRule → List (Basis × ℤ)
limits r =
    on_basis Basis.hours r.hours
    ++ (on_basis Basis.cycles r.cycles ++ on_basis Basis.calendar r.calendar_months)

pub data PolicyError : Type 0 where
  no_limit tolerance_without_hours no_source : String → PolicyError
  not_another_inspection : String → String → PolicyError

-- The checks of `_rule`, on the values read from the table.
unfoldable pub check_rule : LifeRule → Option PolicyError
unfolding limits
check_rule r = elim (limits r) [
  | [] ↦ some (no_limit r.name)
  | _ ∷ _ ↦ elim r.hours [
    | none ↦
        if not (eqb_ℤ r.tolerance_hours (pos 0))
        then some (tolerance_without_hours r.name)
        else if str_eq r.source ""
        then some (no_source r.name)
        else none
    | some _ ↦ if str_eq r.source "" then some (no_source r.name) else none
  ]
]

abbrev first_error : List LifeRule → Option PolicyError
first_error [] = none
first_error (r ∷ rs) =
    let rest = first_error rs in elim (check_rule r) [ some e ↦ some e | none ↦ rest ]

bad_satisfied_by : List LifeRule → String → List String → Option PolicyError
bad_satisfied_by rules name [] = none
bad_satisfied_by rules name (other ∷ rest) =
    let next = bad_satisfied_by rules name rest in
    if not (any (λ r. str_eq r.name other) rules) || str_eq other name
    then some (not_another_inspection name other)
    else next

bad_reference : List LifeRule → List LifeRule → Option PolicyError
unfolding bad_satisfied_by
bad_reference all_rules [] = none
bad_reference all_rules (r ∷ rs) =
    let rest = bad_reference all_rules rs in
    elim (bad_satisfied_by all_rules r.name r.satisfied_by) [ some e ↦ some e | none ↦ rest ]

-- {r.name: r for r in rules}
by_name : List LifeRule → Dict LifeRule → Dict LifeRule
by_name [] d = d
by_name (r ∷ rs) d = by_name rs (put d r.name r)

pub data PolicyResult : Type 0 where
  policy : LifePolicy → PolicyResult
  refused : PolicyError → PolicyResult

-- `policy_from_toml`, on the tables already read into rules.
unfoldable pub policy_from_toml : ℤ → List LifeRule → List LifeRule → PolicyResult
unfolding check_rule bad_reference by_name
policy_from_toml fraction kinds inspections = elim (first_error kinds) [
  | some e ↦ refused e
  | none ↦ elim (first_error inspections) [
    | some e ↦ refused e
    | none ↦ elim (bad_reference inspections inspections) [
      | some e ↦ refused e
      | none ↦ policy (record {
        due_soon_fraction = fraction;
        component_kinds = by_name kinds [];
        inspections = by_name inspections [];
      })
    ]
  ]
]
