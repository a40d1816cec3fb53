-- ===== src/Service/Tests/Concrete.antt =====
-- What the service calls, as concrete functions that keep the laws its theorems ask for.
use Prim.Native.Char.{code}
use uas_sustainment_workbenc.Base.{
  ℕ, zero, suc, ◌==◌, ◌≡◌, ◌≢◌, refl, sym, ap, ◌∙◌, ℤ, pos, String, Bool-cases, inl, inr, false,
  Option, none, some, arith, if◌then◌else◌,
}
use uas_sustainment_workbenc.Base.Time.{DateTime}
use uas_sustainment_workbenc.Base.Json.{
  Json, null, whole, real, text, array, no_items, item, Fields,
}
use uas_sustainment_workbenc.Flight.Record.{Reason, said}
use uas_sustainment_workbenc.Flight.Codec.{Python, IsPython}
use uas_sustainment_workbenc.Ledger.Codec.{Details}
use uas_sustainment_workbenc.Service.Journal.Hashes.{Library}
use uas_sustainment_workbenc.Service.Journal.Lines.{has_newline}
use uas_sustainment_workbenc.Service.Journal.History.{IsLibrary}
use uas_sustainment_workbenc.Service.Writes.{Platform, IsPlatform}
use uas_sustainment_workbenc.Service.Tests.Encoding.{json_text, text_json, text_json-json_text}

-- A text without its newlines, which are told apart from every other letter.
abbrev pub one_line : String → String
one_line String.[] = ""
one_line (String.◌∷◌ c s) =
    let rest = one_line s in
    if code c == 10 then String.◌∷◌ "n" rest else String.◌∷◌ "c" (String.◌∷◌ c rest)

abbrev pub tally : ℕ → String
tally zero = "i"
tally (suc n) = String.◌∷◌ "i" (tally n)

one_line-line : (s : String) → has_newline (one_line s) ≡ false
one_line-line String.[] = refl
one_line-line (String.◌∷◌ c s) = elim (Bool-cases (code c == 10)) [
  | inl e ↦ rw e (one_line-line s)
  | inr e ↦ rw (e, e) (one_line-line s)
]

tally-line : (n : ℕ) → has_newline (tally n) ≡ false
tally-line zero = refl
tally-line (suc n) = tally-line n

tail_of : String → String
tail_of String.[] = ""
tail_of (String.◌∷◌ c s) = s

tally_some : (n : ℕ) → tally n ≢ ""
tally_some zero h = cc h
tally_some (suc n) h = cc h

tally_inj : (m n : ℕ) → tally m ≡ tally n → m ≡ n
unfolding tail_of
tally_inj zero zero h = refl
tally_inj zero (suc n) h = absurd (tally_some n (sym (ap tail_of h)))
tally_inj (suc m) zero h = absurd (tally_some m (ap tail_of h))
tally_inj (suc m) (suc n) h = ap suc (tally_inj m n (ap tail_of h))

abbrev pub test_library : Library
test_library = record { sha256 = one_line; decimal = tally; dumps = json_text; loads = text_json }

pub test_library-IsLibrary : IsLibrary test_library
test_library-IsLibrary = record {
  sha256_line = one_line-line;
  decimal_line = tally-line;
  decimal_inj = tally_inj;
  decimal_some = tally_some;
}

abbrev pub offset_json : Option ℤ → Json
offset_json none = null
offset_json (some o) = whole o

abbrev pub time_json : DateTime → Json
time_json t = array (item (whole (pos t.utc)) (item (offset_json t.offset) no_items))

abbrev pub json_time : Option Json → Option DateTime
json_time (some (array (item (whole (pos n)) (item null no_items)))) =
    some (record { utc = n; offset = none })
json_time (some (array (item (whole (pos n)) (item (whole o) no_items)))) =
    some (record { utc = n; offset = some o })
json_time _ = none

abbrev pub text_or_json : Json → String
text_or_json (text s) = s
text_or_json j = json_text j

abbrev pub real_of : Json → Option ℤ
real_of (real x) = some x
real_of _ = none

abbrev pub whole_of : Json → Option ℤ
whole_of (whole n) = some n
whole_of _ = none

abbrev pub reason_text : Reason → String
reason_text (said s) = s
reason_text _ = "not known"

abbrev pub test_python : Python
test_python = record {
  isoformat = λ t. json_text (time_json t);
  fromisoformat = λ s. json_time (text_json s);
  str_of = text_or_json;
  float_of = real_of;
  int_of = whole_of;
  words = reason_text;
}

time_round : (t : DateTime) → json_time (some (time_json t)) ≡ some t
time_round t = ground arith

pub test_python-IsPython : IsPython test_python
test_python-IsPython = record {
  iso_round = λ t. ap json_time (text_json-json_text (time_json t)) ∙ time_round t;
  str_text = λ s. refl;
  float_real = λ x. refl;
  int_whole = λ n. refl;
}

abbrev pub no_dict : Json → Option Fields
no_dict j = none

abbrev pub test_details : Details
test_details = record { json_of = text; text_from = json_text; dict_of = no_dict }

abbrev pub test_platform : Platform
test_platform = record {
  lib = test_library;
  py = test_python;
  values = test_details;
  flight_text = json_text;
  entry_text = json_text;
}

pub test_platform-IsPlatform : IsPlatform test_platform
test_platform-IsPlatform = record {
  reads_flight = text_json-json_text;
  reads_entry = text_json-json_text;
}
