-- ===== src/Service/Reads/Refinement.antt =====
-- The store's entries are those of the ledger's store: `append_entry` on the tables is `append_entry` there.
use uas_sustainment_workbenc.Base.{
  ℕ, ◌+◌, ◌≤◌, ◌<◌, ◌≡◌, refl, sym, ap, ◌∙◌, String, true, none, some, List, [], ◌∷◌, ◌++◌, arith,
}
use uas_sustainment_workbenc.Base.Time.{DateTime, in_utc}
use uas_sustainment_workbenc.Flight.Codec.{IsPython}
use uas_sustainment_workbenc.Ledger.Model.{Entry}
use uas_sustainment_workbenc.Ledger.Store.{Store, append_entry, next_entry_id, max_id}
use uas_sustainment_workbenc.Ledger.Project.Order.{id_or_zero}
use uas_sustainment_workbenc.Ledger.Codec.{kind_text, kind_of}
use uas_sustainment_workbenc.Ledger.Codec.RoundTrip.{IsPlain, entry_from_json-entry_to_json}
use uas_sustainment_workbenc.Service.Tables.{EntryRow, Db}
use uas_sustainment_workbenc.Service.Journal.Verify.{verify}
use uas_sustainment_workbenc.Service.Journal.Append.{wrote, append_link}
use uas_sustainment_workbenc.Service.Journal.Growth.{append_link-wrote}
use uas_sustainment_workbenc.Service.Writes.{
  Platform, IsPlatform, stored, append_entry_row, entry_row, stored_entry, next_entry,
  refers_to_row,
}
use uas_sustainment_workbenc.Service.Writes.Rows.{entry-Adds}
use uas_sustainment_workbenc.Service.Writes.Heads.{ok-IsIntact}
use uas_sustainment_workbenc.Service.Reads.{
  Shown, shown, odd, unreadable, and_then, shown_entry, shown_entries, entries, has_offset,
  decoded_entry, parsed_entry,
}

-- The tables hold the ledger store's entries, and the next id of both is one.
pub record Shows (p : Platform) (db : Db) (s : Store) : Type 0 where
  pub reads : entries p db ≡ shown s.entries
  pub next : next_entry db.entries ≡ next_entry_id s

-- An entry the codec reads back.
pub record IsRead (e : Entry) : Type 0 where
  pub named : kind_of (kind_text e.kind) ≡ e.kind
  pub plain : IsPlain e.details
  pub occurred : has_offset e.occurred_utc ≡ true
  pub recorded : has_offset e.recorded_utc ≡ true

offset-in_utc : (t : DateTime) → has_offset t ≡ true → has_offset (in_utc t) ≡ true
unfolding in_utc
offset-in_utc t h = ground (arith, h)

in_utc_idem : (t : DateTime) → in_utc (in_utc t) ≡ in_utc t
unfolding in_utc
in_utc_idem t = ground arith

next_entry-snoc :
    (rs : List EntryRow) (r : EntryRow)
    → next_entry rs ≤ r.id
    → next_entry (rs ++ r ∷ []) ≡ r.id + 1
next_entry-snoc [] r h = ground (arith, h)
next_entry-snoc (x ∷ rs) r h = ground (arith, h, next_entry-snoc rs r)

max_id-snoc :
    (es : List Entry) (e : Entry) (n : ℕ)
    → id_or_zero e ≡ n
    → max_id es < n
    → max_id (es ++ e ∷ []) ≡ n
max_id-snoc [] e n h k = ground (arith, h, k)
max_id-snoc (x ∷ es) e n h k = ground (arith, h, k, max_id-snoc es e n h)

same_list : (xs ys : List Entry) → shown xs ≡ shown ys → xs ≡ ys
same_list xs ys h = cc

module _ (p : Platform) (laws : IsPlatform p) (codec : IsPython p.py) where
  shown_entries-snoc :
      (rs : List EntryRow) (r : EntryRow) (es : List Entry) (e : Entry)
      → shown_entries p rs ≡ shown es
      → shown_entry p r ≡ shown e
      → shown_entries p (rs ++ r ∷ []) ≡ shown (es ++ e ∷ [])
  shown_entries-snoc [] r [] e h k = rw k refl
  shown_entries-snoc [] r (y ∷ es) e h k = cc h
  shown_entries-snoc (x ∷ rs) r es e h k =
      of_parts (λ ys q. shown_entries-snoc rs r ys e q k) (shown_entry p x) (shown_entries p rs)
        refl h
    where
      of_parts :
          ((ys : List Entry)
            → shown_entries p rs ≡ shown ys
            → shown_entries p (rs ++ r ∷ []) ≡ shown (ys ++ e ∷ []))
          → (a : Shown Entry) (b : Shown (List Entry)) → shown_entries p rs ≡ b
          → and_then a b ≡ shown es
          → and_then a (shown_entries p (rs ++ r ∷ [])) ≡ shown (es ++ e ∷ [])
      of_parts ih (shown y) (shown ys) q m =
          ap (and_then (shown y)) (ih ys q)
          ∙ ap (λ zs. shown (zs ++ e ∷ [])) (same_list (y ∷ ys) es m)
      of_parts ih (shown y) odd q m = cc m
      of_parts ih (shown y) (unreadable u) q m = cc m
      of_parts ih odd (shown ys) q m = cc m
      of_parts ih odd odd q m = cc m
      of_parts ih odd (unreadable u) q m = cc m
      of_parts ih (unreadable u) b q m = cc m

  shown_entry-entry_row :
      (n : ℕ) (e : Entry) → IsRead e → shown_entry p (entry_row p n e) ≡ shown (stored_entry p n e)
  unfolding shown_entry entry_row stored_entry
  shown_entry-entry_row n e r =
      ap (parsed_entry p (entry_row p n e)) (laws.reads_entry _)
      ∙ ap (decoded_entry p (entry_row p n e))
          (entry_from_json-entry_to_json p.py codec p.values (stored_entry p n e) r.named r.plain)
      ∙ rw
          (
            offset-in_utc e.occurred_utc r.occurred,
            offset-in_utc e.recorded_utc r.recorded,
            in_utc_idem e.occurred_utc,
            in_utc_idem e.recorded_utc,
          )
          refl

  written_by :
      (db db' : Db) (e : Entry) (h : String)
      → refers_to_row (db.entries ++ entry_row p (next_entry db.entries) e ∷ []) e.supersedes ≡ true
      → append_link p.lib
          (record db { entries = db.entries ++ entry_row p (next_entry db.entries) e ∷ [] })
          "entry"
          (some (next_entry db.entries))
          none
        ≡ wrote db' h
      → append_entry_row p db e ≡ stored db' (stored_entry p (next_entry db.entries) e, h)
  unfolding append_entry_row
  written_by db db' e h known q = rw (known, q) refl

  pub written :
      (db : Db) (e : Entry)
      → (verify p.lib db none).ok ≡ true
      → refers_to_row (db.entries ++ entry_row p (next_entry db.entries) e ∷ []) e.supersedes ≡ true
      → (db' : Db) × (h : String) × (append_entry_row p db e
          ≡ stored db' (stored_entry p (next_entry db.entries) e, h))
        × (db'.entries ≡ db.entries ++ entry_row p (next_entry db.entries) e ∷ [])
  unfolding entry_row
  written db e ok known =
      let n = next_entry db.entries in
      let wrote_it =
        append_link-wrote p.lib none db _ "entry" n _
          (entry-Adds p.lib db (entry_row p n e) _ (omega arith) (laws.reads_entry _))
          (ok-IsIntact p.lib db ok) in
      (_, _, written_by db _ e _ known wrote_it, refl)

  -- In a store whose journal verifies and whose entries read as the ledger's, an entry the codec can read
  -- back, that supersedes nothing or a row of the table, is written: the row read back is the one the
  -- ledger's store appends, with the same id, and the tables still read as the ledger's store.
  pub append_entry_row-Shows :
      (db : Db) (s : Store) (e : Entry)
      → Shows p db s
      → (verify p.lib db none).ok ≡ true
      → IsRead e
      → refers_to_row (db.entries ++ entry_row p (next_entry db.entries) e ∷ []) e.supersedes ≡ true
      → (db' : Db) × (h : String) × (append_entry_row p db e ≡ stored db' ((append_entry s e).1, h))
        × Shows p db' (append_entry s e).0
  unfolding append_entry next_entry_id stored_entry entry_row entries
  append_entry_row-Shows db s e rel ok r known =
      let (db', h, done, rows) = written db e ok known in
      (
        db',
        h,
        done ∙ ap (λ n. stored db' (stored_entry p n e, h)) rel.next,
        record {
          reads =
              ap (shown_entries p) rows
              ∙ shown_entries-snoc db.entries (entry_row p (next_entry db.entries) e) s.entries
                  (stored_entry p (next_entry db.entries) e) rel.reads
                  (shown_entry-entry_row (next_entry db.entries) e r)
              ∙ ap (λ n. shown (s.entries ++ stored_entry p n e ∷ [])) rel.next;
          next =
              ap next_entry rows
              ∙ next_entry-snoc db.entries (entry_row p (next_entry db.entries) e) (omega arith)
              ∙ ap (λ n. n + 1)
                  (rel.next ∙ sym (max_id-snoc s.entries _ (next_entry_id s) refl (omega arith)));
        },
      )
