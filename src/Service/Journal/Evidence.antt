-- ===== src/Service/Journal/Evidence.antt =====
-- What a journal that verifies tells, and that its head stands for all of it.
use uas_sustainment_workbenc.Base.{
  ℕ, ◌-◌, ◌≡◌, refl, sym, ap, ◌∙◌, String, str_eq, eq_iff, Bool, true, false, not, Bool-cases, ◌⊎◌,
  inl, inr, Option, none, some, List, [], ◌∷◌, if◌then◌else◌,
}
use mathlib.Core.Path.{subst}
use uas_sustainment_workbenc.Base.Json.{Json}
use uas_sustainment_workbenc.Service.Tables.{Link, Db}
use uas_sustainment_workbenc.Service.Journal.Hashes.{
  Library, genesis, in_journal_kinds, content_hash, link_text, link_hash,
}
use uas_sustainment_workbenc.Service.Journal.Contents.{Reading, gone, unreadable, holds, content_of}
use uas_sustainment_workbenc.Service.Journal.Verify.{
  Break, Migration, Checked, broken, sound, check_content, check_reading, Walk, walk, start, verify,
  or_break, unjournaled_row,
}
use uas_sustainment_workbenc.Service.Journal.Lines.{has_newline}
use uas_sustainment_workbenc.Service.Journal.Chain.{walk-step}
use uas_sustainment_workbenc.Service.Journal.History.{
  IsLibrary, HashBroken, preimage, same_hash, link_text_inj,
}

-- What a link says: its number, the row it is of, and that row's content in the canonical form.
pub record Told : Type 0 where
  pub seq : ℕ
  pub kind : String
  pub ref : Option ℕ
  pub content : Option String

abbrev pub content_text : Library → Reading → Option String
content_text lib (holds j) = some (lib.dumps j)
content_text lib _ = none

abbrev pub told : Library → Db → Link → Told
told lib db l = record {
  seq = l.seq;
  kind = l.kind;
  ref = l.ref;
  content = content_text lib (content_of lib db l);
}

-- What the journal tells, the newest first.
pub tell : Library → Db → List Link → List Told → List Told
tell lib db [] so_far = so_far
tell lib db (l ∷ ls) so_far = tell lib db ls (told lib db l ∷ so_far)

-- A link whose hashes are those of what it refers_to_row to.
pub record IsHashed (lib : Library) (db : Db) (l : Link) : Type 0 where
  pub content : Json
  pub known_kind : in_journal_kinds l.kind ≡ true
  pub reads : content_of lib db l ≡ holds content
  pub content_hashed : content_hash lib content ≡ l.content_hash
  pub hashed : link_hash lib l.seq l.kind l.ref l.content_hash l.prev_hash ≡ l.link_hash

-- The links from the newest, each naming the hash of the one before, down to the genesis hash.
abbrev pub Linked : Library → Db → List Link → String → Type 0
Linked lib db [] h = h ≡ genesis
Linked lib db (l ∷ ls) h = IsHashed lib db l × (l.link_hash ≡ h) × Linked lib db ls l.prev_hash

abbrev tell_back : Library → Db → List Link → List Told
tell_back lib db [] = []
tell_back lib db (l ∷ ls) = told lib db l ∷ tell_back lib db ls

abbrev onto : List Link → List Link → List Link
onto [] rev = rev
onto (l ∷ ls) rev = onto ls (l ∷ rev)

tell-onto :
    (lib : Library) (db : Db) (ls rev : List Link)
    → tell lib db ls (tell_back lib db rev) ≡ tell_back lib db (onto ls rev)
unfolding tell
tell-onto lib db [] rev = refl
tell-onto lib db (l ∷ ls) rev = tell-onto lib db ls (l ∷ rev)

refused_content :
    (b : Bool) (x : Break) (r : Checked) (m : Option Migration)
    → b ≡ false
    → (if not b then broken x else r) ≡ sound m
    → ⊥
refused_content true x r m p h = cc
refused_content false x r m p h = cc

pub check-IsHashed :
    (lib : Library) (db : Db) (l : Link) (m : Option Migration)
    → check_content lib db l ≡ sound m
    → (j : Json) × (content_of lib db l ≡ holds j) × (content_hash lib j ≡ l.content_hash)
unfolding check_content
check-IsHashed lib db l m h = of_reading (content_of lib db l) refl h
  where
    of_reading :
        (r : Reading)
        → content_of lib db l ≡ r
        → check_reading lib l r ≡ sound m
        → (j : Json) × (content_of lib db l ≡ holds j) × (content_hash lib j ≡ l.content_hash)
    of_reading gone p k = cc
    of_reading unreadable p k = cc
    of_reading (holds j) p k = elim (Bool-cases (str_eq (content_hash lib j) l.content_hash)) [
      | inl same ↦ (j, p, (eq_iff (content_hash lib j) l.content_hash).0 same)
      | inr differs ↦ absurd (refused_content _ _ _ m differs k)
    ]

walk-Linked :
    (lib : Library) (head : Option String) (db : Db) (ls rev : List Link) (w w' : Walk)
    → walk lib head db w ls ≡ (w', none)
    → Linked lib db rev w.prev
    → Linked lib db (onto ls rev) w'.prev
unfolding walk
walk-Linked lib head db [] rev w w' h k =
    subst (λ v. Linked lib db rev v.prev) (ap (λ (p : Walk × Option Break). p.0) h) k
walk-Linked lib head db (l ∷ ls) rev w w' h k =
    let (w1, s, rest) = walk-step lib head db w l ls w' h in
    let (j, reads, hashed) = check-IsHashed lib db l s.found s.checked in
    walk-Linked lib head db ls (l ∷ rev) w1 w' rest (
      record {
        content = j;
        known_kind = s.known_kind;
        reads = reads;
        content_hashed = hashed;
        hashed = s.hashed;
      },
      rw s.next refl,
      subst (λ p. Linked lib db rev p) (sym s.follows) k,
    )

told_same :
    (lib : Library) (d e : Db) (l l' : Link) (i j : Json)
    → content_of lib d l ≡ holds i
    → content_of lib e l' ≡ holds j
    → (l.seq ≡ l'.seq) × (l.kind ≡ l'.kind) × (l.ref ≡ l'.ref)
    → lib.dumps i ≡ lib.dumps j
    → told lib d l ≡ told lib e l'
told_same lib d e l l' i j p q (a, b, c) same = told_parts a b c (rw (p, q, same) refl)
  where
    told_parts :
        {m n : ℕ} {x y : String} {u v : Option ℕ} {s t : Option String}
        → m ≡ n
        → x ≡ y
        → u ≡ v
        → s ≡ t
        → ◌≡◌ {A = Told}
            (record { seq = m; kind = x; ref = u; content = s })
            (record { seq = n; kind = y; ref = v; content = t })
    told_parts f g h k = cc

hash_line :
    (lib : Library) (db : Db) (l : Link)
    → IsLibrary lib
    → IsHashed lib db l
    → has_newline l.content_hash ≡ false
unfolding content_hash
hash_line lib db l laws s =
    subst (λ t. has_newline t ≡ false) s.content_hashed (laws.sha256_line (lib.dumps s.content))

-- Two links of one hash.
same_link :
    (lib : Library)
    → IsLibrary lib
    → (d e : Db) (l l' : Link) → IsHashed lib d l
    → IsHashed lib e l'
    → l.link_hash ≡ l'.link_hash
    → ((told lib d l ≡ told lib e l') × (l.prev_hash ≡ l'.prev_hash)) ⊎ HashBroken lib
unfolding link_hash content_hash
same_link lib laws d e l l' s s' h =
    elim (same_hash lib (link_text lib l.seq l.kind l.ref l.content_hash l.prev_hash)
      (link_text lib l'.seq l'.kind l'.ref l'.content_hash l'.prev_hash)
      (s.hashed ∙ h ∙ sym s'.hashed)) [
        | inr breaks ↦ inr breaks
        | inl same_text ↦
            let (seq, kind, ref, content, prev) =
              link_text_inj lib laws _ _ _ _ _ _ _ _ _ _ s.known_kind s'.known_kind
                (hash_line lib d l laws s) (hash_line lib e l' laws s') same_text in
            of_content seq kind ref prev (
              same_hash lib (lib.dumps s.content) (lib.dumps s'.content)
                (s.content_hashed ∙ content ∙ sym s'.content_hashed))
      ]
  where
    of_content :
        l.seq ≡ l'.seq
        → l.kind ≡ l'.kind
        → l.ref ≡ l'.ref
        → l.prev_hash ≡ l'.prev_hash
        → (lib.dumps s.content ≡ lib.dumps s'.content) ⊎ HashBroken lib
        → ((told lib d l ≡ told lib e l') × (l.prev_hash ≡ l'.prev_hash)) ⊎ HashBroken lib
    of_content a b c p (inr breaks) = inr breaks
    of_content a b c p (inl same) =
        inl (told_same lib d e l l' s.content s'.content s.reads s'.reads (a, b, c) same, p)

-- One head, one history: link by link from the newest.
same_history :
    (lib : Library)
    → IsLibrary lib
    → (d e : Db) (r s : List Link) (h : String) → Linked lib d r h
    → Linked lib e s h
    → (tell_back lib d r ≡ tell_back lib e s) ⊎ HashBroken lib
unfolding link_hash
same_history lib laws d e [] [] h k m = inl refl
same_history lib laws d e [] (l ∷ s) h k m = inr (preimage _ (m.0.hashed ∙ m.1 ∙ k))
same_history lib laws d e (l ∷ r) [] h k m = inr (preimage _ (k.0.hashed ∙ k.1 ∙ m))
same_history lib laws d e (l ∷ r) (l' ∷ s) h k m =
    elim (same_link lib laws d e l l' k.0 m.0 (k.1 ∙ sym m.1)) [
      | inr breaks ↦ inr breaks
      | inl (now, before) ↦
          elim (same_history lib laws d e r s l.prev_hash k.2
            (subst (λ p. Linked lib e s p) (sym before) m.2)) [
              | inr breaks ↦ inr breaks
              | inl earlier ↦ inl (cc (now, earlier))
            ]
    ]

-- A journal with no break is linked down to the genesis hash.
pub verify-Linked :
    (lib : Library) (db : Db) (head : Option String)
    → (verify lib db head).broken ≡ none
    → Linked lib db (onto db.links []) (verify lib db head).head
unfolding verify
verify-Linked lib db head h = of_walk (walk lib head db (start head) db.links) refl h
  where
    of_walk :
        (r : Walk × Option Break)
        → walk lib head db (start head) db.links ≡ r
        → or_break r.1 (unjournaled_row db r.0.seen (r.0.expected - 1)) ≡ none
        → Linked lib db (onto db.links []) r.0.prev
    of_walk (w, some b) p k = cc
    of_walk (w, none) p k = walk-Linked lib head db db.links [] (start head) w p refl

-- Two stores whose journals verify with no break and have one head, where str() tells numbers apart and
-- neither it nor a hash holds a newline: their journals tell the same rows with the same content, or two
-- texts with one hash, or a text whose hash is the genesis hash, are at hand.
pub same_head :
    (lib : Library)
    → IsLibrary lib
    → (d e : Db) → (verify lib d none).broken ≡ none
    → (verify lib e none).broken ≡ none
    → (verify lib d none).head ≡ (verify lib e none).head
    → (tell lib d d.links [] ≡ tell lib e e.links []) ⊎ HashBroken lib
same_head lib laws d e h k same =
    elim (same_history lib laws d e (onto d.links []) (onto e.links []) _
      (verify-Linked lib d none h)
      (subst (λ x. Linked lib e (onto e.links []) x) (sym same) (verify-Linked lib e none k))) [
        | inr breaks ↦ inr breaks
        | inl one ↦ inl (tell-onto lib d d.links [] ∙ one ∙ sym (tell-onto lib e e.links []))
      ]
