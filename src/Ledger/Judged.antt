-- ===== src/Ledger/Judged.antt =====
-- What judging an entry gives: it is accepted, or refused with an HTTP status and a sentence, or a stored
-- record cannot be read, or a detail the code indexes is not there and Python raises. A sentence is a
-- constructor with what it names.
use uas_sustainment_workbenc.Base.{ℕ, ℤ, String, Bool, true, false, List, Option, none, some}
use uas_sustainment_workbenc.Base.Time.{DateTime}
use uas_sustainment_workbenc.Life.Model.{Basis}
use uas_sustainment_workbenc.Ledger.Model.{UnreadableRecord, Why}
use uas_sustainment_workbenc.Ledger.Project.Records.{Projected, projected, unreadable}

pub data Sentence : Type 0 where
  unknown_kind bad_subject no_name no_statement no_time_zone in_the_future : Sentence
  no_reason retracts_nothing bad_details : Sentence
  is_a_component is_an_aircraft showcase_aircraft not_in_store already_registered :
      String → Sentence
  not_registered no_component_on_showcase kind_not_in_policy inspection_not_in_policy :
      String → Sentence
  no_such_entry : ℕ → Sentence
  about_another : String → Sentence
  already_superseded : ℕ → Sentence
  keeps_its_date : Sentence
  has_dependents : List ℕ → Sentence
  order_exists default_order_exists no_open_order : String → Sentence
  order_opened_later order_closed : String → DateTime → Sentence
  not_registered_by_then : String → Sentence
  installed_on installed_elsewhere : String → Sentence
  not_installed : Sentence
  at_its_limit : List Basis → Sentence
  hours_not_derived : Sentence
  twin_registration twin_supersession twin_place twin_order : ℕ → Sentence
  undoes : ℕ → Sentence
  brings_back : ℕ → Sentence → Sentence
  makes_impossible : ℕ → Sentence → Sentence
  too_many_hours : ℤ → Sentence
  counting : ℤ → ℕ → Sentence → Sentence

pub record LedgerError : Type 0 where
  pub status : ℕ
  pub detail : Sentence

pub data Judged {ℓ} (A : Type ℓ) : Type ℓ where
  accepted : A → Judged A
  refused : LedgerError → Judged A
  cannot_read : UnreadableRecord → Judged A
  raises : Why → Judged A

infixl 5 ◌>>=◌ ◌>>◌
unfoldable pub ◌>>=◌ {ℓ κ} : {A : Type ℓ} {B : Type κ} → Judged A → (A → Judged B) → Judged B
accepted a >>= f = f a
refused e >>= f = refused e
cannot_read u >>= f = cannot_read u
raises w >>= f = raises w

abbrev pub ◌>>◌ {ℓ} : {B : Type ℓ} → Judged (Unit {0}) → Judged B → Judged B
m >> k = m >>= λ _. k

abbrev pub refuse {ℓ} : {A : Type ℓ} → ℕ → Sentence → Judged A
refuse n s = refused (record { status = n; detail = s })

-- if test: raise LedgerError(status, sentence)
unfoldable pub refuse_if : Bool → ℕ → Sentence → Judged (Unit {0})
refuse_if true n s = refuse n s
refuse_if false n s = accepted tt

unfoldable pub read {ℓ} : {A : Type ℓ} → Projected A → Judged A
read (projected a) = accepted a
read (unreadable u) = cannot_read u

-- try: ... except LedgerError as exc: raise LedgerError(409, f(exc.detail))
unfoldable pub reworded {ℓ} : {A : Type ℓ} → (Sentence → Sentence) → Judged A → Judged A
reworded f (accepted a) = accepted a
reworded f (refused e) = refuse 409 (f e.detail)
reworded f (cannot_read u) = cannot_read u
reworded f (raises w) = raises w

-- A lookup that gives nothing, or the value the rest of the code goes on with.
unfoldable pub found_or {ℓ κ} :
    {A : Type ℓ} {B : Type κ} → Option B → Judged A → (B → Judged A) → Judged A
found_or none j k = j
found_or (some b) j k = k b
