-- ===== src/Service/Journal/Append.antt =====
-- `append_link` and `migrate`.
use Prim.Native.String.{◌++◌ as str_append}
use uas_sustainment_workbenc.Base.{
  ℕ, pos, ◌+◌, ◌==◌, leb, String, str_eq, Bool, false, ◌&&◌, any, Option, none, some, List, [], ◌∷◌,
  ◌++◌, length, if◌then◌else◌,
}
use uas_sustainment_workbenc.Base.Json.{Json, null, whole, text, object, no_fields, field}
use uas_sustainment_workbenc.Service.Tables.{EntryRow, FlightRow, Link, Db}
use uas_sustainment_workbenc.Service.Journal.Hashes.{
  Library, genesis, schema_version, is_note, content_hash, link_hash,
}
use uas_sustainment_workbenc.Service.Journal.Contents.{
  Reading, gone, unreadable, holds, row_content,
}
use uas_sustainment_workbenc.Service.Journal.Verify.{same_ref}

-- Why a link is not written: IntegrityError for a row that is not there or that is linked, ValueError for a
-- record that is no JSON. The transaction is rolled back.
pub data LinkError : Type 0 where
  not_in_store already_linked no_json : LinkError

-- The new state of the file and what the write gives, or the error the transaction ends at.
pub data Written {ℓ} (A : Type ℓ) : Type ℓ where
  wrote : Db → A → Written A
  fails : LinkError → Written A

-- `_tail`: the sequence number and the hash of the last link.
unfoldable pub tail : List Link → ℕ × String
tail [] = (0, genesis)
tail (l ∷ []) = (l.seq, l.link_hash)
tail (l ∷ m ∷ ls) = tail (m ∷ ls)

-- UNIQUE (kind, ref), where NULL is never equal
abbrev pub is_linked : List Link → String → Option ℕ → Bool
is_linked links kind none = false
is_linked links kind (some n) = any (λ l. str_eq l.kind kind && same_ref l.ref (some n)) links

module _ (lib : Library) where
  -- What `append_link` hashes: the note, or the row's content.
  unfoldable pub linked_content : Db → String → Option ℕ → Option Json → Reading
  unfolding row_content
  linked_content db kind ref none = if is_note kind then holds null else row_content lib db kind ref
  linked_content db kind ref (some note) =
      if is_note kind then holds note else row_content lib db kind ref

  abbrev pub note_text : Option Json → Option String
  note_text none = none
  note_text (some j) = some (lib.dumps j)

  -- The link after the last one.
  unfoldable pub next_link : Db → String → Option ℕ → Option Json → Json → Link
  unfolding tail content_hash link_hash
  next_link db kind ref note content =
      let (seq, prev) = tail db.links in
      let hash = content_hash lib content in
      record {
        seq = seq + 1;
        kind = kind;
        ref = ref;
        note = note_text note;
        content_hash = hash;
        prev_hash = prev;
        link_hash = link_hash lib (seq + 1) kind ref hash prev;
      }

  abbrev pub insert_link : Db → String → Option ℕ → Option Json → Reading → Written String
  insert_link db kind ref said gone = fails not_in_store
  insert_link db kind ref said unreadable = fails no_json
  insert_link db kind ref said (holds content) =
      if is_linked db.links kind ref
      then fails already_linked
      else let l = next_link db kind ref said content in
        wrote (record db { links = db.links ++ l ∷ [] }) l.link_hash

  -- `append_link`
  unfoldable pub append_link : Db → String → Option ℕ → Option Json → Written String
  unfolding linked_content next_link
  append_link db kind ref note = insert_link db kind ref note (linked_content db kind ref note)

  -- for ref in refs: append_link(db, kind, ref)
  unfoldable pub link_all : Db → String → List ℕ → Written (Unit {0})
  unfolding append_link
  link_all db kind [] = wrote db tt
  link_all db kind (n ∷ ns) = elim (append_link db kind (some n) none) [
    | fails e ↦ fails e
    | wrote db' hash ↦ link_all db' kind ns
  ]

  -- MIGRATION_NOTE.format
  abbrev pub migration_note : ℕ → ℕ → String
  migration_note flights entries = str_append "journal started at migration from a 0.5.x store: " (
      str_append (lib.decimal flights) (
        str_append " flights and " (
          str_append (lib.decimal entries)
            " entries were written before this link and are linked here as found, so the history before it is not tamper-evident; a change made to it before this link cannot be detected")))

  -- The note `migrate` links, with the time it is given.
  abbrev pub first_note : ℕ → ℕ → String → Json
  first_note flights entries at = object (
      field "note" (text (migration_note flights entries)) (
        field "flights" (whole (pos flights))
          (field "entries" (whole (pos entries)) (field "recorded_utc" (text at) no_fields))))

  abbrev pub entry_ids : List EntryRow → List ℕ
  entry_ids [] = []
  entry_ids (r ∷ rs) = r.id ∷ entry_ids rs

  abbrev pub flight_ids : List FlightRow → List ℕ
  flight_ids [] = []
  flight_ids (r ∷ rs) = r.id ∷ flight_ids rs

  abbrev pub then_link : Written (Unit {0}) → (Db → Written (Unit {0})) → Written (Unit {0})
  then_link (fails e) f = fails e
  then_link (wrote db u) f = f db

  abbrev pub set_version : Db → Written (Unit {0})
  set_version db = wrote (record db { version = schema_version }) tt

  abbrev pub link_rows : Db → Written (Unit {0})
  link_rows db =
      then_link (link_all db "flight" (flight_ids db.flights))
        λ db'. link_all db' "entry" (entry_ids db.entries)

  abbrev pub start_journal : Db → String → Written (Unit {0})
  start_journal db at =
      elim (append_link db "note" none
        (some (first_note (length db.flights) (length db.entries) at))) [
          | fails e ↦ fails e
          | wrote db' hash ↦ link_rows db'
        ]

  abbrev pub has_no_rows : Db → Bool
  has_no_rows db = (length db.flights == 0) && (length db.entries == 0)

  -- `migrate`, in one transaction, at the time it is given.
  unfoldable pub migrate : Db → String → Written (Unit {0})
  unfolding append_link link_all
  migrate db at =
      if leb schema_version db.version
      then wrote db tt
      else then_link (if has_no_rows db then wrote db tt else start_journal db at) set_version
