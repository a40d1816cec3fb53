-- ===== src/Service/Journal/Verify.antt =====
-- `verify`: the walk from the first link.
use uas_sustainment_workbenc.Base.{
  ℕ, pos, negsuc, ◌+◌, ◌-◌, ◌==◌, String, str_eq, Bool, true, false, not, ◌&&◌, ◌||◌, any, Option,
  none, some, List, [], ◌∷◌, if◌then◌else◌,
}
use uas_sustainment_workbenc.Base.Json.{Json, whole, text, object, lookup}
use uas_sustainment_workbenc.Service.Tables.{EntryRow, FlightRow, Link, Db}
use uas_sustainment_workbenc.Service.Journal.Hashes.{
  Library, genesis, in_journal_kinds, is_note, content_hash, link_hash,
}
use uas_sustainment_workbenc.Service.Journal.Contents.{Reading, gone, unreadable, holds, content_of}

pub data BreakKind : Type 0 where
  sequence duplicate previous_hash missing_row bad_content bad_link_hash unjournaled : BreakKind

-- The first bad sequence number and what is wrong there.
pub record Break : Type 0 where
  pub seq : ℕ
  pub kind : BreakKind

pub record Migration : Type 0 where
  pub seq : ℕ
  pub recorded_utc : String
  pub flights : ℕ
  pub entries : ℕ
  pub note : String

-- A count is a whole number that is not negative, and no bool.
abbrev pub count_of : Option Json → Option ℕ
count_of none = none
count_of (some j) = elim j [ whole n ↦ elim n [ pos k ↦ some k | negsuc k ↦ none ] | _ ↦ none ]

abbrev pub text_value : Option Json → Option String
text_value none = none
text_value (some j) = elim j [ text s ↦ some s | _ ↦ none ]

abbrev pub migration_fields :
    ℕ → Option ℕ → Option ℕ → Option String → Option String → Option Migration
migration_fields seq (some f) (some e) (some at) (some note) =
    some (record { seq = seq; recorded_utc = at; flights = f; entries = e; note = note })
migration_fields seq _ _ _ _ = none

-- `_migration`; nothing where it raises.
unfoldable pub migration_of : ℕ → Json → Option Migration
migration_of seq (object d) =
    migration_fields seq (count_of (lookup d "flights")) (count_of (lookup d "entries"))
      (text_value (lookup d "recorded_utc")) (text_value (lookup d "note"))
migration_of seq _ = none

-- What `_check_content` answers: a break, or the migration a note holds.
pub data Checked : Type 0 where
  broken : Break → Checked
  sound : Option Migration → Checked

module _ (lib : Library) where
  abbrev pub found_migration : ℕ → Option Migration → Checked
  found_migration seq none = broken (record { seq = seq; kind = bad_content })
  found_migration seq (some m) = sound (some m)

  abbrev pub check_reading : Link → Reading → Checked
  check_reading l gone = broken (record { seq = l.seq; kind = missing_row })
  check_reading l unreadable = broken (record { seq = l.seq; kind = bad_content })
  check_reading l (holds j) =
      if not (str_eq (content_hash lib j) l.content_hash)
      then broken (record { seq = l.seq; kind = bad_content })
      else if is_note l.kind
      then found_migration l.seq (migration_of l.seq j)
      else sound none

  -- `_check_content`
  unfoldable pub check_content : Db → Link → Checked
  unfolding content_of content_hash migration_of
  check_content db l = check_reading l (content_of lib db l)

-- The variables of the loop of `verify`.
pub record Walk : Type 0 where
  pub seen : List (String × Option ℕ)
  pub prev : String
  pub expected : ℕ
  pub migration : Option Migration
  pub given_at : Option ℕ

abbrev pub same_ref : Option ℕ → Option ℕ → Bool
same_ref none none = true
same_ref (some m) (some n) = m == n
same_ref _ _ = false

-- (kind, ref) in seen
abbrev pub in_seen : List (String × Option ℕ) → String → Option ℕ → Bool
in_seen [] kind ref = false
in_seen ((k, r) ∷ seen) kind ref = (str_eq k kind && same_ref r ref) || in_seen seen kind ref

abbrev pub has_some {ℓ} : {A : Type ℓ} → Option A → Bool
has_some none = false
has_some (some a) = true

-- head is not None and lhash == head
abbrev pub is_given : Option String → String → Bool
is_given none h = false
is_given (some g) h = str_eq h g

pub data Round : Type 0 where
  breaks : Break → Round
  goes : Walk → Round

module _ (lib : Library) (head : Option String) where
  -- The loop's variables after a link whose checks hold.
  abbrev pub after : Walk → Link → Option Migration → Walk
  after w l found = record {
    seen = (l.kind, l.ref) ∷ w.seen;
    prev = l.link_hash;
    expected = l.seq + 1;
    migration = if is_note l.kind then found else w.migration;
    given_at = if is_given head l.link_hash then some l.seq else w.given_at;
  }

  -- The checks after `_check_content`.
  abbrev pub check_link : Walk → Link → Checked → Round
  check_link w l (broken b) = breaks b
  check_link w l (sound found) =
      if not (str_eq (link_hash lib l.seq l.kind l.ref l.content_hash l.prev_hash) l.link_hash)
      then breaks (record { seq = l.seq; kind = bad_link_hash })
      else if is_note l.kind && has_some w.migration
      then breaks (record { seq = l.seq; kind = bad_content })
      else goes (after w l found)

  -- One round of the loop of `verify`.
  unfoldable pub link_round : Db → Walk → Link → Round
  unfolding check_content link_hash
  link_round db w l =
      if not (l.seq == w.expected)
      then breaks (record { seq = w.expected; kind = sequence })
      else if not (in_journal_kinds l.kind)
      then breaks (record { seq = l.seq; kind = bad_link_hash })
      else if not (is_note l.kind) && in_seen w.seen l.kind l.ref
      then breaks (record { seq = l.seq; kind = duplicate })
      else if not (str_eq l.prev_hash w.prev)
      then breaks (record { seq = l.seq; kind = previous_hash })
      else if not (is_note l.kind) && has_some l.note
      then breaks (record { seq = l.seq; kind = bad_content })
      else check_link w l (check_content lib db l)

  -- The loop, and the break it ends at.
  unfoldable pub walk : Db → Walk → List Link → Walk × Option Break
  unfolding link_round
  walk db w [] = (w, none)
  walk db w (l ∷ ls) = elim (link_round db w l) [ breaks b ↦ (w, some b) | goes w' ↦ walk db w' ls ]

-- The first row with no link.
abbrev pub unlinked_entries : List (String × Option ℕ) → List EntryRow → Bool
unlinked_entries seen rows = any (λ r. not (in_seen seen "entry" (some r.id))) rows

abbrev pub unlinked_flights : List (String × Option ℕ) → List FlightRow → Bool
unlinked_flights seen rows = any (λ r. not (in_seen seen "flight" (some r.id))) rows

-- `_unjournaled`
unfoldable pub unjournaled_row : Db → List (String × Option ℕ) → ℕ → Option Break
unjournaled_row db seen length =
    if unlinked_entries seen db.entries || unlinked_flights seen db.flights
    then some (record { seq = length + 1; kind = unjournaled })
    else none

pub record Verification : Type 0 where
  pub ok : Bool
  pub head : String
  pub length : ℕ
  pub broken : Option Break
  pub given : Option String
  pub given_at : Option ℕ
  pub migration : Option Migration

abbrev pub is_genesis : Option String → Bool
is_genesis none = false
is_genesis (some h) = str_eq h genesis

abbrev pub or_break : Option Break → Option Break → Option Break
or_break (some b) o = some b
or_break none o = o

-- The loop's variables before the first link.
abbrev pub start : Option String → Walk
start head = record {
  seen = [];
  prev = genesis;
  expected = 1;
  migration = none;
  given_at = if is_genesis head then some 0 else none;
}

abbrev pub verified : Db → Option String → Walk × Option Break → Verification
verified db head (w, b) =
    let length = w.expected - 1 in
    let break = or_break b (unjournaled_row db w.seen length) in
    record {
      ok = not (has_some break) && (not (has_some head) || has_some w.given_at);
      head = w.prev;
      length = length;
      broken = break;
      given = head;
      given_at = w.given_at;
      migration = w.migration;
    }

-- `verify`
unfoldable pub verify : Library → Db → Option String → Verification
unfolding walk unjournaled_row
verify lib db head = verified db head (walk lib head db (start head) db.links)
