-- ===== src/Service/Writes/Heads.antt =====
-- The journal of a run of writes verifies, and holds every head it had.
use uas_sustainment_workbenc.Base.{
  ℕ, ◌≡◌, refl, sym, ap, ◌∙◌, String, str_eq, eq_iff, Bool, true, not, ◌&&◌, Option, none, some,
  List, [], ◌∷◌, if◌then◌else◌,
}
use mathlib.Core.Path.{subst}
use uas_sustainment_workbenc.Service.Tables.{Link, Db}
use uas_sustainment_workbenc.Service.Journal.Hashes.{Library, genesis}
use uas_sustainment_workbenc.Service.Journal.Verify.{Break, Walk, walk, start, has_some, verify}
use uas_sustainment_workbenc.Service.Journal.Chain.{IsSound, walk-step, walk_sound, link_round-goes}
use uas_sustainment_workbenc.Service.Journal.Growth.{IsIntact, verify-IsIntact, IsIntact-head}
use uas_sustainment_workbenc.Service.Writes.{Platform, IsPlatform}
use uas_sustainment_workbenc.Service.Writes.Runs.{Write, run, IsKept, IsKept-ok, run-IsKept}

-- The same walk, looking for a head.
abbrev at_given : Walk → Option ℕ → Walk
at_given w g = record w { given_at = g }

abbrev Found : String → Walk → Type 0
Found h w = w.prev ≡ h → has_some w.given_at ≡ true

IsSound-given :
    (lib : Library) (h : String) (db : Db) (w w' : Walk) (l : Link) (g : Option ℕ)
    → IsSound lib none db w l w'
    → (g' : Option ℕ) × IsSound lib (some h) db (at_given w g) l (at_given w' g')
      × Found h (at_given w' g')
IsSound-given lib h db w w' l g s = (
  (if str_eq l.link_hash h then some l.seq else g),
  record {
    found = s.found;
    in_order = s.in_order;
    known_kind = s.known_kind;
    unseen = s.unseen;
    follows = s.follows;
    no_note = s.no_note;
    checked = s.checked;
    hashed = s.hashed;
    one_note = s.one_note;
    next = ap (λ v. at_given v (if str_eq l.link_hash h then some l.seq else g)) s.next;
  },
  λ same. rw ((eq_iff l.link_hash h).1 (sym (ap (λ v. v.prev) s.next) ∙ same)) refl,
)

walk-given :
    (lib : Library) (h : String) (db : Db) (w w' : Walk) (ls : List Link) (g : Option ℕ)
    → walk lib none db w ls ≡ (w', none)
    → Found h (at_given w g)
    → (g' : Option ℕ) × (walk lib (some h) db (at_given w g) ls ≡ (at_given w' g', none))
      × Found h (at_given w' g')
unfolding walk
walk-given lib h db w w' [] g k f = (
  g,
  ap (λ (p : Walk × Option Break). (at_given p.0 g, p.1)) k,
  λ same. f (ap (λ (p : Walk × Option Break). p.0.prev) k ∙ same),
)
walk-given lib h db w w' (l ∷ ls) g k f =
    let (w1, s, rest) = walk-step lib none db w l ls w' k in
    let (g1, s1, f1) = IsSound-given lib h db w w1 l g s in
    let (g', walked, f') = walk-given lib h db w1 w' ls g1 rest f1 in
    (
      g',
      walk_sound lib (some h) db (at_given w g) l ls (at_given w1 g1)
            (link_round-goes lib (some h) db (at_given w g) l (at_given w1 g1) s1)
          ∙ walked,
      f',
    )

start-Found : (h : String) → Found h (start (some h))
start-Found h same = rw ((eq_iff h genesis).1 (sym same)) refl

-- A journal that verifies holds its own head.
own_head : (lib : Library) (db : Db) (s : IsIntact lib none db) → IsKept lib (some s.last.prev) db
own_head lib db s =
    let (g, walked, found) =
      walk-given lib s.last.prev db (start none) s.last db.links (start (some s.last.prev)).given_at
        s.walked (start-Found s.last.prev) in
    record {
      intact = record { last = at_given s.last g; walked = walked; journaled = s.journaled };
      given = λ known. found refl;
    }

pub ok-IsIntact : (lib : Library) (db : Db) → (verify lib db none).ok ≡ true → IsIntact lib none db
unfolding verify
ok-IsIntact lib db h = verify-IsIntact lib none db (nothing _ _ h)
  where
    nothing : (o : Option Break) (b : Bool) → (not (has_some o) && b) ≡ true → o ≡ none
    nothing none b k = refl
    nothing (some x) b k = cc

-- A journal that verifies still does after any run of writes, refused ones included, where json.loads reads
-- what json.dumps writes.
pub run-verifies :
    (p : Platform)
    → IsPlatform p
    → (db : Db) (ws : List Write) → (verify p.lib db none).ok ≡ true
    → (verify p.lib (run p db ws) none).ok ≡ true
run-verifies p laws db ws h = IsKept-ok p.lib none (run p db ws) (
    run-IsKept p laws none db ws
      (record { intact = ok-IsIntact p.lib db h; given = λ known. cc known }))

-- The head of a journal that verifies is found in it after any run of writes: verifying against it then says
-- unchanged.
pub run-keeps_head :
    (p : Platform)
    → IsPlatform p
    → (db : Db) (ws : List Write) → (verify p.lib db none).ok ≡ true
    → (verify p.lib (run p db ws) (some (verify p.lib db none).head)).ok ≡ true
run-keeps_head p laws db ws h =
    let s = ok-IsIntact p.lib db h in
    subst (λ x. (verify p.lib (run p db ws) (some x)).ok ≡ true)
      (sym (IsIntact-head p.lib none db s))
      (IsKept-ok p.lib (some s.last.prev) (run p db ws)
        (run-IsKept p laws (some s.last.prev) db ws (own_head p.lib db s)))
