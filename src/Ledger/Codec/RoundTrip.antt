-- ===== src/Ledger/Codec/RoundTrip.antt =====
-- An entry written as JSON and read back.
use uas_sustainment_workbenc.Base.{ℕ, ◌≡◌, refl, String, Option, none, some, [], ◌∷◌}
use uas_sustainment_workbenc.Base.Dict.{Dict}
use uas_sustainment_workbenc.Base.Decode.{decoded}
use uas_sustainment_workbenc.Flight.Codec.{Python, IsPython}
use uas_sustainment_workbenc.Ledger.Model.{
  Value, null, flag, integer, number, text, other_value, Entry,
}
use uas_sustainment_workbenc.Ledger.Codec.{
  kind_text, kind_of, Details, details_json, details_of, id_json, id_of, reason_json, reason_of,
  entry_to_json, entry_from_json,
}

-- No detail is a list or an object.
abbrev pub IsPlain : Dict Value → Type 0
IsPlain [] = Unit
IsPlain ((k, other_value s) ∷ d) = ⊥
IsPlain ((k, v) ∷ d) = IsPlain d

module _ (py : Python) (laws : IsPython py) (values : Details) where
  details_of-details_json :
      (d : Dict Value) → IsPlain d → details_of py values (details_json py values d) ≡ d
  details_of-details_json [] h = refl
  details_of-details_json ((k, null) ∷ d) h = rw (details_of-details_json d h) refl
  details_of-details_json ((k, flag b) ∷ d) h = rw (details_of-details_json d h) refl
  details_of-details_json ((k, integer n) ∷ d) h = rw (details_of-details_json d h) refl
  details_of-details_json ((k, number x) ∷ d) h = rw (details_of-details_json d h) refl
  details_of-details_json ((k, text s) ∷ d) h = rw (details_of-details_json d h) refl
  details_of-details_json ((k, other_value s) ∷ d) h = absurd h

  id_of-id_json :
      (name : String) (n : Option ℕ) → id_of py values name (some (id_json n)) ≡ decoded n
  id_of-id_json name none = refl
  id_of-id_json name (some n) = rw (laws.int_whole _) refl

  reason_of-reason_json : (r : Option String) → reason_of py values (some (reason_json r)) ≡ r
  reason_of-reason_json none = refl
  reason_of-reason_json (some s) = rw (laws.str_text s) refl

  -- Reading the JSON of an entry gives the entry back, where its kind is one of the ledger's or a text that
  -- names none of them, no detail is a list or an object, fromisoformat reads what isoformat writes, str()
  -- keeps a text and int() an int.
  pub entry_from_json-entry_to_json :
      (e : Entry)
      → kind_of (kind_text e.kind) ≡ e.kind
      → IsPlain e.details
      → entry_from_json py values (entry_to_json py values e) ≡ decoded e
  unfolding entry_from_json entry_to_json
  entry_from_json-entry_to_json e named plain =
      rw
        (
          id_of-id_json "id" e.id,
          id_of-id_json "supersedes" e.supersedes,
          reason_of-reason_json e.reason,
          laws.str_text e.subject,
          laws.str_text (kind_text e.kind),
          laws.str_text e.entered_by,
          laws.str_text e.statement,
          laws.iso_round e.occurred_utc,
          laws.iso_round e.recorded_utc,
          named,
          details_of-details_json e.details plain,
        )
        refl
