-- ===== src/Service/Writes/Rows.antt =====
-- A row more is one row more that the journal can link.
use uas_sustainment_workbenc.Base.{
  ℕ, ==_iff, ◌≤◌, ◌≡◌, refl, ap, ◌∙◌, String, str_eq, eq_iff, Bool, true, false, ◌||◌, first,
  any-append, Option, none, some, List, [], ◌∷◌, ◌++◌, arith, if◌then◌else◌,
}
use uas_sustainment_workbenc.Base.Json.{Json}
use uas_sustainment_workbenc.Service.Tables.{EntryRow, FlightRow, Db, find_entry, find_flight}
use uas_sustainment_workbenc.Service.Journal.Hashes.{Library}
use uas_sustainment_workbenc.Service.Journal.Contents.{
  holds, read_entry, read_flight, row_content, entry_content, flight_content,
}
use uas_sustainment_workbenc.Service.Journal.Verify.{
  Break, in_seen, unlinked_entries, unlinked_flights, unjournaled_row,
}
use uas_sustainment_workbenc.Service.Journal.Growth.{Adds}
use uas_sustainment_workbenc.Service.Writes.{next_entry, next_flight}

-- What is found in a list is found in a longer one, and a new last element that is not in it is found.
first-kept {ℓ} :
    {A : Type ℓ} (p : A → Bool) (xs ys : List A) (a : A)
    → first p xs ≡ some a
    → first p (xs ++ ys) ≡ some a
first-kept p [] ys a h = cc
first-kept p (x ∷ xs) ys a h = ground (arith, h, first-kept p xs ys a)

first-last {ℓ} :
    {A : Type ℓ} (p : A → Bool) (xs : List A) (a : A)
    → first p xs ≡ none
    → p a ≡ true
    → first p (xs ++ a ∷ []) ≡ some a
first-last p [] a h q = rw q refl
first-last p (x ∷ xs) a h q = ground (arith, h, first-last p xs a, q)

-- Ids beyond the greatest are not found.
no_entry : (rs : List EntryRow) (n : ℕ) → next_entry rs ≤ n → find_entry rs n ≡ none
no_entry [] n h = refl
no_entry (r ∷ rs) n h = ground (arith, h, no_entry rs n)

no_flight : (rs : List FlightRow) (n : ℕ) → next_flight rs ≤ n → find_flight rs n ≡ none
no_flight [] n h = refl
no_flight (r ∷ rs) n h = ground (arith, h, no_flight rs n)

-- What was linked stays linked.
entries_linked :
    (seen : List (String × Option ℕ)) (x : String × Option ℕ) (rs : List EntryRow)
    → unlinked_entries seen rs ≡ false
    → unlinked_entries (x ∷ seen) rs ≡ false
entries_linked seen x [] h = refl
entries_linked seen (k, m) (r ∷ rs) h = ground (arith, h, entries_linked seen (k, m) rs)

flights_linked :
    (seen : List (String × Option ℕ)) (x : String × Option ℕ) (rs : List FlightRow)
    → unlinked_flights seen rs ≡ false
    → unlinked_flights (x ∷ seen) rs ≡ false
flights_linked seen x [] h = refl
flights_linked seen (k, m) (r ∷ rs) h = ground (arith, h, flights_linked seen (k, m) rs)

nothing_unlinked :
    (d : Db) (seen : List (String × Option ℕ)) (a : ℕ)
    → unjournaled_row d seen a ≡ none
    → (unlinked_entries seen d.entries ≡ false) × (unlinked_flights seen d.flights ≡ false)
unfolding unjournaled_row
nothing_unlinked d seen a h = parts _ _ _ h
  where
    parts :
        (x y : Bool) (b : Break)
        → (if x || y then some b else none) ≡ none
        → (x ≡ false) × (y ≡ false)
    parts true y b k = cc
    parts false true b k = cc
    parts false false b k = (refl, refl)

all_linked :
    (d : Db) (seen : List (String × Option ℕ)) (b : ℕ)
    → unlinked_entries seen d.entries ≡ false
    → unlinked_flights seen d.flights ≡ false
    → unjournaled_row d seen b ≡ none
unfolding unjournaled_row
all_linked d seen b h k = rw (h, k) refl

last_seen :
    (k : String) (n : ℕ) (seen : List (String × Option ℕ))
    → in_seen ((k, some n) ∷ seen) k (some n) ≡ true
last_seen k n seen = rw ((eq_iff k k).1 refl, (==_iff n n).1 refl) refl

module _ (lib : Library) (d : Db) where
  abbrev pub with_entry : EntryRow → Db
  with_entry r = record d { entries = d.entries ++ r ∷ [] }

  abbrev pub with_flight : FlightRow → Db
  with_flight r = record d { flights = d.flights ++ r ∷ [] }

  entry-kept :
      (r : EntryRow) (m : ℕ) (i : Json)
      → read_entry lib (find_entry d.entries m) ≡ holds i
      → read_entry lib (find_entry (d.entries ++ r ∷ []) m) ≡ holds i
  entry-kept r m i h = of_found (find_entry d.entries m) refl h
    where
      of_found :
          (f : Option EntryRow)
          → find_entry d.entries m ≡ f
          → read_entry lib f ≡ holds i
          → read_entry lib (find_entry (d.entries ++ r ∷ []) m) ≡ holds i
      of_found none q k = cc
      of_found (some x) q k = ap (read_entry lib) (first-kept _ d.entries (r ∷ []) x q) ∙ k

  flight-kept :
      (r : FlightRow) (m : ℕ) (i : Json)
      → read_flight lib (find_flight d.flights m) ≡ holds i
      → read_flight lib (find_flight (d.flights ++ r ∷ []) m) ≡ holds i
  flight-kept r m i h = of_found (find_flight d.flights m) refl h
    where
      of_found :
          (f : Option FlightRow)
          → find_flight d.flights m ≡ f
          → read_flight lib f ≡ holds i
          → read_flight lib (find_flight (d.flights ++ r ∷ []) m) ≡ holds i
      of_found none q k = cc
      of_found (some x) q k = ap (read_flight lib) (first-kept _ d.flights (r ∷ []) x q) ∙ k

  pub entry-Adds :
      (r : EntryRow) (j : Json)
      → next_entry d.entries ≤ r.id
      → lib.loads r.record_text ≡ some j
      → Adds lib d (with_entry r) "entry" r.id (entry_content r j)
  unfolding row_content
  entry-Adds r j h reads = record {
    same_links = refl;
    kept = λ k m i. of_kind (str_eq k "entry") m i;
    fresh = ap (read_entry lib) (no_entry d.entries r.id h);
    reads =
        ap (read_entry lib)
          (first-last _ d.entries r (no_entry d.entries r.id h) ((==_iff r.id r.id).1 refl))
        ∙ rw (reads, read_entry, read_flight) refl;
    known_kind = refl;
    ordinary = refl;
    all_linked = λ seen a b k.
        let (entries, flights) = nothing_unlinked d seen a k in
        all_linked (with_entry r) (("entry", some r.id) ∷ seen) b
          (any-append _ d.entries (r ∷ [])
            ∙ rw
                (
                  entries_linked seen ("entry", some r.id) d.entries entries,
                  last_seen "entry" r.id seen,
                )
                refl)
          (flights_linked seen ("entry", some r.id) d.flights flights);
  }
    where
      of_kind :
          (b : Bool) (m : ℕ) (i : Json)
          → (if b
              then read_entry lib (find_entry d.entries m)
              else read_flight lib (find_flight d.flights m))
            ≡ holds i
          → (if b
              then read_entry lib (find_entry (d.entries ++ r ∷ []) m)
              else read_flight lib (find_flight d.flights m))
            ≡ holds i
      of_kind true m i q = entry-kept r m i q
      of_kind false m i q = q

  pub flight-Adds :
      (r : FlightRow) (j : Json)
      → next_flight d.flights ≤ r.id
      → lib.loads r.record_text ≡ some j
      → Adds lib d (with_flight r) "flight" r.id (flight_content r j)
  unfolding row_content
  flight-Adds r j h reads = record {
    same_links = refl;
    kept = λ k m i. of_kind (str_eq k "entry") m i;
    fresh = ap (read_flight lib) (no_flight d.flights r.id h);
    reads =
        ap (read_flight lib)
          (first-last _ d.flights r (no_flight d.flights r.id h) ((==_iff r.id r.id).1 refl))
        ∙ rw (reads, read_entry, read_flight) refl;
    known_kind = refl;
    ordinary = refl;
    all_linked = λ seen a b k.
        let (entries, flights) = nothing_unlinked d seen a k in
        all_linked (with_flight r) (("flight", some r.id) ∷ seen) b
          (entries_linked seen ("flight", some r.id) d.entries entries)
          (any-append _ d.flights (r ∷ [])
            ∙ rw
                (
                  flights_linked seen ("flight", some r.id) d.flights flights,
                  last_seen "flight" r.id seen,
                )
                refl);
  }
    where
      of_kind :
          (b : Bool) (m : ℕ) (i : Json)
          → (if b
              then read_entry lib (find_entry d.entries m)
              else read_flight lib (find_flight d.flights m))
            ≡ holds i
          → (if b
              then read_entry lib (find_entry d.entries m)
              else read_flight lib (find_flight (d.flights ++ r ∷ []) m))
            ≡ holds i
      of_kind true m i q = q
      of_kind false m i q = flight-kept r m i q
