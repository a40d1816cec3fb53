-- ===== src/Ledger/Validate/Shape.antt =====
-- `_shape` of ledger/validate.py, the first checks of an entry, and what the judgement takes from outside.
use uas_sustainment_workbenc.Base.{
  ℕ, ℤ, ◌+◌, ◌*◌, ltb, String, Bool, true, false, not, ◌&&◌, Option, none, some, List, [], ◌∷◌,
}
use uas_sustainment_workbenc.Base.Dict.{Dict}
use uas_sustainment_workbenc.Base.Time.{DateTime, second}
use uas_sustainment_workbenc.Life.Policy.{LifePolicy}
use uas_sustainment_workbenc.Ledger.Model.{Kind, other_kind, is_retraction, Value, Entry}
use uas_sustainment_workbenc.Ledger.Project.Fold.{Conversions}
use uas_sustainment_workbenc.Ledger.Judged.{
  Judged, accepted, refuse, refuse_if, ◌>>◌, unknown_kind, bad_subject, no_name, no_statement,
  no_time_zone, in_the_future, no_reason, retracts_nothing, bad_details,
}
use uas_sustainment_workbenc.Ledger.Validate.Text.{is_subject, is_blank}

-- The configuration and the code outside the repository: Python's conversions, the text of a whole
-- number, and the validation of an entry's details by pydantic against the model of its kind.
pub record Rules : Type 0 where
  pub py : Conversions
  pub decimal : ℕ → String
  pub model_details : Kind → Dict Value → Option (Dict Value)
  pub policy : LifePolicy
  pub tolerance : ℤ

-- CLOCK_SKEW, five minutes
abbrev pub clock_skew : ℕ
clock_skew = 300 * second

-- `_showcase_keys`
abbrev pub showcase_keys : List String
showcase_keys = "alfa-fixed-wing" ∷ "px4-validation-quadrotor" ∷ []

abbrev pub in_kinds : Kind → Bool
in_kinds (other_kind _) = false
in_kinds _ = true

-- `not (reason or "").strip()`
abbrev pub is_unreasoned : Option String → Bool
is_unreasoned none = true
is_unreasoned (some s) = is_blank s

abbrev pub is_some {ℓ} : {A : Type ℓ} → Option A → Bool
is_some none = false
is_some (some a) = true

abbrev pub or_refuse {ℓ} : {A : Type ℓ} → Option A → Judged A → Judged A
or_refuse none j = j
or_refuse (some a) j = accepted a

unfoldable pub shape : Rules → Entry → DateTime → Judged (Dict Value)
unfolding is_subject
shape rules e now = do
  refuse_if (not (in_kinds e.kind)) 422 unknown_kind
  refuse_if (not (is_subject e.subject)) 422 bad_subject
  refuse_if (is_blank e.entered_by) 422 no_name
  refuse_if (not (is_retraction e.kind) && is_blank e.statement) 422 no_statement
  refuse_if (not (is_some e.occurred_utc.offset)) 422 no_time_zone
  refuse_if (ltb (now.utc + clock_skew) e.occurred_utc.utc) 422 in_the_future
  refuse_if (is_some e.supersedes && is_unreasoned e.reason) 422 no_reason
  refuse_if (is_retraction e.kind && not (is_some e.supersedes)) 422 retracts_nothing
  or_refuse (rules.model_details e.kind e.details) (refuse 422 bad_details)
