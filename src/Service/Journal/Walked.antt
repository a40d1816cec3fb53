-- ===== src/Service/Journal/Walked.antt =====
-- What the walk of a journal has seen when it ends at no break, and the walk of one link more.
use uas_sustainment_workbenc.Base.{
  ℕ, ◌+◌, ◌≡◌, ◌≢◌, refl, sym, ap, ◌∙◌, ==_iff, String, str_eq, eq_iff, Bool, true, false, ◌&&◌,
  ◌||◌, Bool-cases, inl, inr, Option, none, some, List, [], ◌∷◌, ◌++◌, arith,
}
use mathlib.Core.Path.{subst}
use uas_sustainment_workbenc.Base.Json.{Json}
use uas_sustainment_workbenc.Service.Tables.{Link, Db}
use uas_sustainment_workbenc.Service.Journal.Hashes.{Library, genesis, is_note}
use uas_sustainment_workbenc.Service.Journal.Contents.{
  gone, holds, row_content, note_content, content_of,
}
use uas_sustainment_workbenc.Service.Journal.Verify.{
  Break, Migration, sound, check_content, check_reading, Walk, same_ref, in_seen, walk,
}
use uas_sustainment_workbenc.Service.Journal.Append.{tail, is_linked}
use uas_sustainment_workbenc.Service.Journal.Chain.{IsSound, walk-step, walk_sound, link_round-goes}
use uas_sustainment_workbenc.Service.Journal.Evidence.{check-IsHashed}

-- Every row and note that is read in the one store is read in the other.
abbrev pub Keeps : Library → Db → Db → Type 0
Keeps lib d e = (l : Link) (j : Json) → content_of lib d l ≡ holds j → content_of lib e l ≡ holds j

content-note :
    (lib : Library) (db : Db) (l : Link)
    → is_note l.kind ≡ true
    → content_of lib db l ≡ note_content lib l.note
unfolding content_of
content-note lib db l h = rw h refl

content-row :
    (lib : Library) (db : Db) (l : Link) (r : Option ℕ)
    → is_note l.kind ≡ false
    → l.ref ≡ r
    → content_of lib db l ≡ row_content lib db l.kind r
unfolding content_of
content-row lib db l r h q = rw (h, q) refl

pub Keeps-rows :
    (lib : Library) (d e : Db)
    → ((k : String) (n : ℕ) (j : Json)
        → row_content lib d k (some n) ≡ holds j
        → row_content lib e k (some n) ≡ holds j)
    → Keeps lib d e
unfolding content_of row_content
Keeps-rows lib d e kept l j h = of_kind (is_note l.kind) refl l.ref refl
  where
    of_kind :
        (b : Bool) → is_note l.kind ≡ b → (r : Option ℕ) → l.ref ≡ r → content_of lib e l ≡ holds j
    of_kind true p r q = content-note lib e l p ∙ sym (content-note lib d l p) ∙ h
    of_kind false p none q = cc (h, content-row lib d l none p q)
    of_kind false p (some n) q =
        content-row lib e l (some n) p q
        ∙ kept l.kind n j (sym (content-row lib d l (some n) p q) ∙ h)

check-kept :
    (lib : Library) (d e : Db) (l : Link) (m : Option Migration)
    → Keeps lib d e
    → check_content lib d l ≡ sound m
    → check_content lib e l ≡ sound m
unfolding check_content
check-kept lib d e l m kept h =
    let (j, reads, _) = check-IsHashed lib d l m h in
    ap (check_reading lib l) (kept l j reads ∙ sym reads) ∙ h

IsSound-kept :
    (lib : Library) (head : Option String) (d e : Db) (w w' : Walk) (l : Link)
    → Keeps lib d e
    → IsSound lib head d w l w'
    → IsSound lib head e w l w'
IsSound-kept lib head d e w w' l kept s = record {
  found = s.found;
  in_order = s.in_order;
  known_kind = s.known_kind;
  unseen = s.unseen;
  follows = s.follows;
  no_note = s.no_note;
  checked = check-kept lib d e l s.found kept s.checked;
  hashed = s.hashed;
  one_note = s.one_note;
  next = s.next;
}

-- A walk with no break stays one when rows are added.
pub walk-kept :
    (lib : Library) (head : Option String) (d e : Db) (w w' : Walk) (ls : List Link)
    → Keeps lib d e
    → walk lib head d w ls ≡ (w', none)
    → walk lib head e w ls ≡ (w', none)
unfolding walk
walk-kept lib head d e w w' [] kept h = h
walk-kept lib head d e w w' (l ∷ ls) kept h =
    let (w1, s, rest) = walk-step lib head d w l ls w' h in
    walk_sound lib head e w l ls w1
      (link_round-goes lib head e w l w1 (IsSound-kept lib head d e w w1 l kept s))
    ∙ walk-kept lib head d e w1 w' ls kept rest

-- The walk of one link more.
pub walk-snoc :
    (lib : Library) (head : Option String) (db : Db) (w w' w2 : Walk) (ls : List Link) (l : Link)
    → walk lib head db w ls ≡ (w', none)
    → IsSound lib head db w' l w2
    → walk lib head db w (ls ++ l ∷ []) ≡ (w2, none)
unfolding walk
walk-snoc lib head db w w' w2 [] l h s = walk_sound lib head db w l [] w2 (
    link_round-goes lib head db w l w2
      (subst (λ v. IsSound lib head db v l w2) (sym (ap (λ (p : Walk × Option Break). p.0) h)) s))
walk-snoc lib head db w w' w2 (k ∷ ls) l h s =
    let (w1, t, rest) = walk-step lib head db w k ls w' h in
    walk_sound lib head db w k (ls ++ l ∷ []) w1 (link_round-goes lib head db w k w1 t)
    ∙ walk-snoc lib head db w1 w' w2 ls l rest s

-- The last link is the one the walk ends at.
pub walk-tail :
    (lib : Library) (head : Option String) (db : Db) (w w' : Walk) (ls : List Link)
    → walk lib head db w ls ≡ (w', none)
    → (w.expected ≡ 1)
    → (w.prev ≡ genesis)
    → ((tail ls).0 + 1 ≡ w'.expected) × ((tail ls).1 ≡ w'.prev)
unfolding walk tail
walk-tail lib head db w w' [] h first_seq first_prev =
    let same = ap (λ (p : Walk × Option Break). p.0) h in
    (sym first_seq ∙ ap (λ v. v.expected) same, sym first_prev ∙ ap (λ v. v.prev) same)
walk-tail lib head db w w' (l ∷ ls) h first_seq first_prev = last w l ls h
  where
    last :
        (v : Walk) (l : Link) (ls : List Link)
        → walk lib head db v (l ∷ ls) ≡ (w', none)
        → ((tail (l ∷ ls)).0 + 1 ≡ w'.expected) × ((tail (l ∷ ls)).1 ≡ w'.prev)
    last v l [] k =
        let (w1, s, rest) = walk-step lib head db v l [] w' k in
        let same = sym s.next ∙ ap (λ (p : Walk × Option Break). p.0) rest in
        (ap (λ u. u.expected) same, ap (λ u. u.prev) same)
    last v l (m ∷ ls) k =
        let (w1, s, rest) = walk-step lib head db v l (m ∷ ls) w' k in last w1 m ls rest

-- The rows seen are those with a link.
pub walk-seen :
    (lib : Library) (head : Option String) (db : Db) (w w' : Walk) (ls : List Link) (k : String)
    (n : ℕ)
    → walk lib head db w ls ≡ (w', none)
    → in_seen w'.seen k (some n) ≡ (is_linked ls k (some n) || in_seen w.seen k (some n))
unfolding walk
walk-seen lib head db w w' [] k n h = rw (sym (ap (λ (p : Walk × Option Break). p.0) h)) refl
walk-seen lib head db w w' (l ∷ ls) k n h =
    let (w1, s, rest) = walk-step lib head db w l ls w' h in
    walk-seen lib head db w1 w' ls k n rest
    ∙ rw s.next (
        swap (str_eq l.kind k && same_ref l.ref (some n)) (is_linked ls k (some n))
          (in_seen w.seen k (some n)))
  where
    swap : (a b c : Bool) → (b || (a || c)) ≡ ((a || b) || c)
    swap a b c = ground arith

-- A row that was seen is in the store.
abbrev pub Backed : Library → Db → List (String × Option ℕ) → Type 0
Backed lib db seen =
    (k : String) (n : ℕ)
    → is_note k ≡ false
    → in_seen seen k (some n) ≡ true
    → row_content lib db k (some n) ≢ gone

seen-found :
    (lib : Library) (db : Db) (l : Link) (j : Json) (k : String) (n : ℕ)
    → content_of lib db l ≡ holds j
    → is_note k ≡ false
    → (str_eq l.kind k && same_ref l.ref (some n)) ≡ true
    → row_content lib db k (some n) ≢ gone
seen-found lib db l j k n reads h same lost =
    let (a, b) = both (str_eq l.kind k) (same_ref l.ref (some n)) same in
    let same_kind = (eq_iff l.kind k).0 a in
    cc (
      reads,
      lost,
      content-row lib db l (some n) (ap is_note same_kind ∙ h) (of_ref l.ref b),
      ap (λ x. row_content lib db x (some n)) same_kind,
    )
  where
    both : (a b : Bool) → (a && b) ≡ true → (a ≡ true) × (b ≡ true)
    both true b p = (refl, p)
    both false b p = cc

    of_ref : (r : Option ℕ) → same_ref r (some n) ≡ true → r ≡ some n
    of_ref none p = cc
    of_ref (some m) p = ap some ((==_iff m n).0 p)

pub walk-Backed :
    (lib : Library) (head : Option String) (db : Db) (w w' : Walk) (ls : List Link)
    → walk lib head db w ls ≡ (w', none)
    → Backed lib db w.seen
    → Backed lib db w'.seen
unfolding walk
walk-Backed lib head db w w' [] h b =
    subst (λ v. Backed lib db v.seen) (ap (λ (p : Walk × Option Break). p.0) h) b
walk-Backed lib head db w w' (l ∷ ls) h b =
    let (w1, s, rest) = walk-step lib head db w l ls w' h in
    let (j, reads, _) = check-IsHashed lib db l s.found s.checked in
    walk-Backed lib head db w1 w' ls rest λ k n ordinary seen.
      elim (Bool-cases (str_eq l.kind k && same_ref l.ref (some n))) [
        | inl same ↦ seen-found lib db l j k n reads ordinary same
        | inr other ↦
            b k n ordinary
              (before _ _ other (sym (ap (λ v. in_seen v.seen k (some n)) s.next) ∙ seen))
      ]
  where
    before : (a b : Bool) → a ≡ false → (a || b) ≡ true → b ≡ true
    before true b p q = cc
    before false b p q = q
