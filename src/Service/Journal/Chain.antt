-- ===== src/Service/Journal/Chain.antt =====
-- What a round of `verify` that goes on has checked, and the chain the whole loop has checked.
use uas_sustainment_workbenc.Base.{
  ◌==◌, ==_iff, ◌≡◌, refl, sym, ap, String, str_eq, eq_iff, Bool, true, false, not, ◌&&◌, ◌⊎◌, inl,
  inr, Option, none, some, List, ◌∷◌, if◌then◌else◌,
}
use mathlib.Core.Path.{subst}
use uas_sustainment_workbenc.Service.Tables.{Link, Db}
use uas_sustainment_workbenc.Service.Journal.Hashes.{Library, in_journal_kinds, is_note, link_hash}
use uas_sustainment_workbenc.Service.Journal.Verify.{
  Break, Migration, Checked, broken, sound, check_content, Walk, in_seen, has_some, Round, breaks,
  goes, after, check_link, link_round, walk,
}

-- The checks of one round.
pub record IsSound (lib : Library) (head : Option String) (db : Db) (w : Walk) (l : Link)
    (w' : Walk) : Type 0 where
  pub found : Option Migration
  pub in_order : l.seq ≡ w.expected
  pub known_kind : in_journal_kinds l.kind ≡ true
  pub unseen : (is_note l.kind ≡ true) ⊎ (in_seen w.seen l.kind l.ref ≡ false)
  pub follows : l.prev_hash ≡ w.prev
  pub no_note : (is_note l.kind ≡ true) ⊎ (has_some l.note ≡ false)
  pub checked : check_content lib db l ≡ sound found
  pub hashed : link_hash lib l.seq l.kind l.ref l.content_hash l.prev_hash ≡ l.link_hash
  pub one_note : (is_note l.kind && has_some w.migration) ≡ false
  pub next : w' ≡ after lib head w l found

guard :
    (b : Bool) (x : Break) (r : Round) (w' : Walk)
    → (if b then breaks x else r) ≡ goes w'
    → (b ≡ false) × (r ≡ goes w')
guard true x r w' h = cc
guard false x r w' h = (refl, h)

was_true : (b : Bool) → not b ≡ false → b ≡ true
was_true true h = refl
was_true false h = cc

not_and : (a b : Bool) → (not a && b) ≡ false → (a ≡ true) ⊎ (b ≡ false)
not_and true b h = inl refl
not_and false b h = inr h

goes_inj : {u v : Walk} → goes u ≡ goes v → v ≡ u
goes_inj p = cc

pub link_round-IsSound :
    (lib : Library) (head : Option String) (db : Db) (w : Walk) (l : Link) (w' : Walk)
    → link_round lib head db w l ≡ goes w'
    → IsSound lib head db w l w'
unfolding link_round
link_round-IsSound lib head db w l w' h =
    let (a, h1) = guard _ _ _ w' h in
    let (b, h2) = guard _ _ _ w' h1 in
    let (c, h3) = guard _ _ _ w' h2 in
    let (d, h4) = guard _ _ _ w' h3 in
    let (e, h5) = guard _ _ _ w' h4 in checks (check_content lib db l) refl h5 a b c d e
  where
    checks :
        (ch : Checked)
        → check_content lib db l ≡ ch
        → check_link lib head w l ch ≡ goes w'
        → not (l.seq == w.expected) ≡ false
        → not (in_journal_kinds l.kind) ≡ false
        → (not (is_note l.kind) && in_seen w.seen l.kind l.ref) ≡ false
        → not (str_eq l.prev_hash w.prev) ≡ false
        → (not (is_note l.kind) && has_some l.note) ≡ false
        → IsSound lib head db w l w'
    checks (broken x) q k a b c d e = cc
    checks (sound m) q k a b c d e =
        let (f, k1) = guard _ _ _ w' k in
        let (g, k2) = guard _ _ _ w' k1 in
        record {
          found = m;
          in_order = (==_iff l.seq w.expected).0 (was_true _ a);
          known_kind = was_true _ b;
          unseen = not_and _ _ c;
          follows = (eq_iff l.prev_hash w.prev).0 (was_true _ d);
          no_note = not_and _ _ e;
          checked = q;
          hashed =
              (eq_iff (link_hash lib l.seq l.kind l.ref l.content_hash l.prev_hash) l.link_hash).0
                (was_true _ f);
          one_note = g;
          next = goes_inj k2;
        }

-- The first link of a walk that ends at no break, and the walk of the others.
pub walk-step :
    (lib : Library) (head : Option String) (db : Db) (w : Walk) (l : Link) (ls : List Link)
    (w' : Walk)
    → walk lib head db w (l ∷ ls) ≡ (w', none)
    → (w1 : Walk) × IsSound lib head db w l w1 × (walk lib head db w1 ls ≡ (w', none))
unfolding walk
walk-step lib head db w l ls w' h = step (link_round lib head db w l) refl h
  where
    step :
        (r : Round)
        → link_round lib head db w l ≡ r
        → elim r as (λ x. Walk × Option Break) [
          | breaks b ↦ (w, some b)
          | goes w1 ↦ walk lib head db w1 ls
        ]
          ≡ (w', none)
        → (w1 : Walk) × IsSound lib head db w l w1 × (walk lib head db w1 ls ≡ (w', none))
    step (breaks b) q k = cc
    step (goes w1) q k = (w1, link_round-IsSound lib head db w l w1 q, k)

pub walk_sound :
    (lib : Library) (head : Option String) (db : Db) (w : Walk) (l : Link) (ls : List Link)
    (w1 : Walk)
    → link_round lib head db w l ≡ goes w1
    → walk lib head db w (l ∷ ls) ≡ walk lib head db w1 ls
unfolding walk
walk_sound lib head db w l ls w1 h = rw (h, walk)

pass :
    (b : Bool) (x : Break) (r : Round) (w' : Walk)
    → b ≡ false
    → r ≡ goes w'
    → (if b then breaks x else r) ≡ goes w'
pass true x r w' p h = cc
pass false x r w' p h = h

is_false : (b : Bool) → b ≡ true → not b ≡ false
is_false b h = rw h

and_false : (a b : Bool) → (a ≡ true) ⊎ (b ≡ false) → (not a && b) ≡ false
and_false true b h = refl
and_false false b (inl p) = cc
and_false false b (inr p) = p

-- The checks of a round are enough for it to go on.
pub link_round-goes :
    (lib : Library) (head : Option String) (db : Db) (w : Walk) (l : Link) (w' : Walk)
    → IsSound lib head db w l w'
    → link_round lib head db w l ≡ goes w'
unfolding link_round
link_round-goes lib head db w l w' s =
    pass _ _ _ w' (is_false _ ((==_iff l.seq w.expected).1 s.in_order)) (
      pass _ _ _ w' (is_false _ s.known_kind) (
        pass _ _ _ w' (and_false (is_note l.kind) (in_seen w.seen l.kind l.ref) s.unseen) (
          pass _ _ _ w' (is_false _ ((eq_iff l.prev_hash w.prev).1 s.follows)) (
            pass _ _ _ w' (and_false (is_note l.kind) (has_some l.note) s.no_note) (
              subst (λ ch. check_link lib head w l ch ≡ goes w') (sym s.checked)
                (pass _ _ _ w'
                  (is_false _ (
                    (eq_iff (link_hash lib l.seq l.kind l.ref l.content_hash l.prev_hash)
                        l.link_hash).1
                      s.hashed))
                  (pass _ _ _ w' s.one_note (ap goes (sym s.next)))))))))
