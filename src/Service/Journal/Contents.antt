-- ===== src/Service/Journal/Contents.antt =====
-- The content of what a link refers_to_row to: `row_content`, and a note.
use uas_sustainment_workbenc.Base.{ℕ, pos, String, str_eq, Option, none, some, if◌then◌else◌}
use uas_sustainment_workbenc.Base.Json.{Json, null, whole, text, object, no_fields, field}
use uas_sustainment_workbenc.Service.Tables.{EntryRow, FlightRow, Link, Db, find_entry, find_flight}
use uas_sustainment_workbenc.Service.Journal.Hashes.{Library, is_note}

-- What a link refers_to_row to: no row, a row whose record is no JSON, or its content.
pub data Reading : Type 0 where
  gone unreadable : Reading
  holds : Json → Reading

abbrev pub number_or_null : Option ℕ → Json
number_or_null none = null
number_or_null (some n) = whole (pos n)

abbrev pub text_or_null : Option String → Json
text_or_null none = null
text_or_null (some s) = text s

-- dict(zip(columns, row)) with the record parsed
abbrev pub entry_content : EntryRow → Json → Json
entry_content r record_json = object (
    field "id" (whole (pos r.id)) (
      field "subject" (text r.subject) (
        field "kind" (text r.kind) (
          field "occurred_utc" (text r.occurred_utc) (
            field "recorded_utc" (text r.recorded_utc) (
              field "synthetic" (whole (pos r.synthetic)) (
                field "supersedes" (number_or_null r.supersedes)
                  (field "record" record_json no_fields))))))))

abbrev pub flight_content : FlightRow → Json → Json
flight_content r record_json = object (
    field "id" (whole (pos r.id)) (
      field "aircraft_key" (text r.aircraft_key) (
        field "log_ref" (text r.log_ref) (
          field "synthetic" (whole (pos r.synthetic)) (
            field "utc_start" (text_or_null r.utc_start) (field "record" record_json no_fields))))))

module _ (lib : Library) where
  abbrev pub read_entry : Option EntryRow → Reading
  read_entry none = gone
  read_entry (some r) = elim (lib.loads r.record_text) [
    | none ↦ unreadable
    | some j ↦ holds (entry_content r j)
  ]

  abbrev pub read_flight : Option FlightRow → Reading
  read_flight none = gone
  read_flight (some r) = elim (lib.loads r.record_text) [
    | none ↦ unreadable
    | some j ↦ holds (flight_content r j)
  ]

  -- `row_content`; a NULL id is no row's.
  unfoldable pub row_content : Db → String → Option ℕ → Reading
  row_content db kind none = gone
  row_content db kind (some n) =
      if str_eq kind "entry"
      then read_entry (find_entry db.entries n)
      else read_flight (find_flight db.flights n)

  -- json.loads(note) if note is not None else None, where null is None too
  abbrev pub note_content : Option String → Reading
  note_content none = gone
  note_content (some s) = elim (lib.loads s) [
    | none ↦ unreadable
    | some j ↦ elim j [ null ↦ gone | other ↦ holds other ]
  ]

  -- What `_check_content` reads.
  unfoldable pub content_of : Db → Link → Reading
  unfolding row_content
  content_of db l = if is_note l.kind then note_content l.note else row_content db l.kind l.ref
