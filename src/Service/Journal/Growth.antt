-- ===== src/Service/Journal/Growth.antt =====
-- A row that is written and linked keeps a journal that verifies one that verifies.
use uas_sustainment_workbenc.Base.{
  ℕ, ◌+◌, ◌-◌, ◌≡◌, refl, sym, ap, ◌∙◌, String, eq_iff, Bool, true, false, ◌||◌, Bool-cases, inl,
  inr, Option, none, some, List, [], ◌∷◌, ◌++◌, arith, if◌then◌else◌,
}
use mathlib.Core.Path.{subst}
use uas_sustainment_workbenc.Base.Json.{Json}
use uas_sustainment_workbenc.Service.Tables.{Link, Db}
use uas_sustainment_workbenc.Service.Journal.Hashes.{
  Library, in_journal_kinds, is_note, content_hash,
}
use uas_sustainment_workbenc.Service.Journal.Contents.{gone, holds, row_content, content_of}
use uas_sustainment_workbenc.Service.Journal.Verify.{
  Break, sound, check_content, check_reading, Walk, in_seen, has_some, is_given, after, walk, start,
  unjournaled_row, verify, or_break,
}
use uas_sustainment_workbenc.Service.Journal.Append.{
  wrote, tail, is_linked, linked_content, next_link, append_link,
}
use uas_sustainment_workbenc.Service.Journal.Chain.{IsSound}
use uas_sustainment_workbenc.Service.Journal.Walked.{
  Keeps, Keeps-rows, walk-kept, walk-snoc, walk-tail, walk-seen, walk-Backed,
}

-- The whole walk of the journal, with no break, and no row without a link.
pub record IsIntact (lib : Library) (head : Option String) (db : Db) : Type 0 where
  pub last : Walk
  pub walked : walk lib head db (start head) db.links ≡ (last, none)
  pub journaled : unjournaled_row db last.seen (last.expected - 1) ≡ none

pub verify-IsIntact :
    (lib : Library) (head : Option String) (db : Db)
    → (verify lib db head).broken ≡ none
    → IsIntact lib head db
unfolding verify
verify-IsIntact lib head db h = of_walk (walk lib head db (start head) db.links) refl h
  where
    of_walk :
        (r : Walk × Option Break)
        → walk lib head db (start head) db.links ≡ r
        → or_break r.1 (unjournaled_row db r.0.seen (r.0.expected - 1)) ≡ none
        → IsIntact lib head db
    of_walk (w, some b) p k = cc
    of_walk (w, none) p k = record { last = w; walked = p; journaled = k }

pub IsIntact-broken :
    (lib : Library) (head : Option String) (db : Db)
    → IsIntact lib head db
    → (verify lib db head).broken ≡ none
unfolding verify
IsIntact-broken lib head db s = rw (s.walked, s.journaled) refl

pub IsIntact-head :
    (lib : Library) (head : Option String) (db : Db) (s : IsIntact lib head db)
    → (verify lib db head).head ≡ s.last.prev
unfolding verify
IsIntact-head lib head db s = rw s.walked refl

pub IsIntact-given_at :
    (lib : Library) (head : Option String) (db : Db) (s : IsIntact lib head db)
    → (verify lib db head).given_at ≡ s.last.given_at
unfolding verify
IsIntact-given_at lib head db s = rw s.walked refl

-- One row more, which is read as `j`; every other row is read as before.
pub record Adds (lib : Library) (d e : Db) (kind : String) (n : ℕ) (j : Json) : Type 0 where
  pub same_links : e.links ≡ d.links
  pub kept :
      (k : String) (m : ℕ) (i : Json)
      → row_content lib d k (some m) ≡ holds i
      → row_content lib e k (some m) ≡ holds i
  pub fresh : row_content lib d kind (some n) ≡ gone
  pub reads : row_content lib e kind (some n) ≡ holds j
  pub known_kind : in_journal_kinds kind ≡ true
  pub ordinary : is_note kind ≡ false
  pub all_linked :
      (seen : List (String × Option ℕ)) (a b : ℕ)
      → unjournaled_row d seen a ≡ none
      → unjournaled_row e ((kind, some n) ∷ seen) b ≡ none

first_false : (a b : Bool) → (a || b) ≡ false → a ≡ false
first_false a b h = ground (arith, h)

module _ (lib : Library) (head : Option String) (d e : Db) (kind : String) (n : ℕ) (j : Json)
    (a : Adds lib d e kind n j) (s : IsIntact lib head d) where
  abbrev pub link : Link
  link = next_link lib e kind (some n) none j

  abbrev pub linked : Db
  linked = record e { links = e.links ++ link ∷ [] }

  -- The row was not seen before.
  unseen : in_seen s.last.seen kind (some n) ≡ false
  unseen = elim (Bool-cases (in_seen s.last.seen kind (some n))) [
    | inr not_seen ↦ not_seen
    | inl seen ↦ absurd (
        walk-Backed lib head d (start head) s.last d.links s.walked (λ k m ordinary early. cc early)
          kind n a.ordinary seen a.fresh)
  ]

  not_linked : is_linked e.links kind (some n) ≡ false
  not_linked =
      ap (λ ls. is_linked ls kind (some n)) a.same_links
      ∙ first_false _ _
          (sym (walk-seen lib head d (start head) s.last d.links kind n s.walked) ∙ unseen)

  keeps : Keeps lib d linked
  unfolding row_content
  keeps = Keeps-rows lib d linked (λ k m i h. a.kept k m i h)

  last_link : ((tail e.links).0 + 1 ≡ s.last.expected) × ((tail e.links).1 ≡ s.last.prev)
  last_link =
      subst (λ ls. ((tail ls).0 + 1 ≡ s.last.expected) × ((tail ls).1 ≡ s.last.prev))
        (sym a.same_links) (walk-tail lib head d (start head) s.last d.links s.walked refl refl)

  link_content : content_of lib linked link ≡ holds j
  unfolding next_link content_of row_content
  link_content = rw a.ordinary a.reads

  link_checked : check_content lib linked link ≡ sound none
  unfolding check_content next_link
  link_checked =
      ap (check_reading lib link) link_content
      ∙ rw ((eq_iff (content_hash lib j) (content_hash lib j)).1 refl, a.ordinary) refl

  link-IsSound : IsSound lib head linked s.last link (after lib head s.last link none)
  unfolding next_link
  link-IsSound = record {
    found = none;
    in_order = last_link.0;
    known_kind = a.known_kind;
    unseen = inr unseen;
    follows = last_link.1;
    no_note = inr refl;
    checked = link_checked;
    hashed = refl;
    one_note = rw a.ordinary refl;
    next = refl;
  }

  -- The link is written.
  pub append_link-wrote : append_link lib e kind (some n) none ≡ wrote linked link.link_hash
  unfolding append_link linked_content
  append_link-wrote = rw (a.ordinary, a.reads, not_linked) refl

  -- A head that was in the journal is in it with the link.
  given_stays :
      has_some s.last.given_at ≡ true → has_some (after lib head s.last link none).given_at ≡ true
  given_stays h = either (is_given head link.link_hash) h
    where
      either :
          (b : Bool)
          → has_some s.last.given_at ≡ true
          → has_some (if b then some link.seq else s.last.given_at) ≡ true
      either true k = refl
      either false k = k

  -- The journal with the link.
  pub linked-IsIntact :
      (t : IsIntact lib head linked) × (t.last ≡ after lib head s.last link none)
      × (has_some s.last.given_at ≡ true → has_some t.last.given_at ≡ true)
  unfolding unjournaled_row next_link
  linked-IsIntact = (
    record {
      last = after lib head s.last link none;
      walked =
          subst
            (λ ls.
              walk lib head linked (start head) (ls ++ link ∷ [])
              ≡ (after lib head s.last link none, none))
            (sym a.same_links)
            (walk-snoc lib head linked (start head) s.last (after lib head s.last link none) d.links
              link (walk-kept lib head d linked (start head) s.last d.links keeps s.walked)
              link-IsSound);
      journaled = a.all_linked s.last.seen (s.last.expected - 1) _ s.journaled;
    },
    refl,
    given_stays,
  )

  pub link-seq : link.seq ≡ (s.last.expected - 1) + 1
  unfolding next_link
  link-seq = omega (arith, last_link.0)
