-- ===== src/Flight/Reconcile/Complete.antt =====
-- `reconcile` accounts for every record it is given.
use uas_sustainment_workbenc.Base.{
  ℤ, String, str_eq, eq_iff, ◌≡◌, sym, ap, Bool, true, false, ◌||◌, ◌⊎◌, ◌∙◌, inl, inr, Option,
  List, [], ◌∷◌, arith, All, any, any-append, Bool-cases,
}
use mathlib.Core.Path.{subst}
use uas_sustainment_workbenc.Base.Dict.{Dict, has, put}
use uas_sustainment_workbenc.Base.Sort.{any-sort_by}
use uas_sustainment_workbenc.Flight.Record.{FlightRecord, Reason, known, Maybe-cases, Source}
use uas_sustainment_workbenc.Flight.Reconcile.{
  Checkable, checkable, checked, pair_coverage, note_last, note_group, reconcile_ordered,
  reconcile_group, reconcile_groups, reconcile, ordered, drop_from, drop_duplicates, group_logs,
  Group, add_to_group, Reconciliation, boot_le, start_le,
}
use uas_sustainment_workbenc.Flight.Reconcile.Steps.{
  reconcile_group-unordered, reconcile_group-ordered, group_logs-unknown, group_logs-known,
}
use uas_sustainment_workbenc.Flight.Reconcile.Accounting.{
  Accounted, refers, has-put, has-put_self, has-note_last, has-note_group, note_group-Noted,
  pair_coverage-CoveredIn, drop_from-keeps, drop_from-KeptOrNoted,
}

abbrev named : String → Checkable → Bool
named ref c = str_eq c.log.log_ref ref

-- Ordering the logs of a group loses none.
any-ordered :
    (p : Checkable → Bool) (group : List Checkable) {logs : List Checkable}
    → ordered group ≡ known logs
    → any p logs ≡ any p group
unfolding ordered
any-ordered p group e = ground (arith, any-sort_by boot_le p group, any-sort_by start_le p group)

-- A property of every log of a list holds of the one that is named.
at_named :
    (P : String → Type 0) (ref : String) (cs : List Checkable)
    → All (λ c. P c.log.log_ref) cs
    → any (named ref) cs ≡ true
    → P ref
at_named P ref [] h e = absurd (false_true e)
  where
    false_true : false ≡ true → ⊥
    false_true e = cc
at_named P ref (c ∷ cs) h e = elim (Bool-cases (str_eq c.log.log_ref ref)) [
  | inl same ↦ subst P ((eq_iff c.log.log_ref ref).0 same) h.0
  | inr other ↦ at_named P ref cs h.1 (rw other at e)
]

-- A log that is noted before the pairs are walked, or that is among those walked, is accounted for.
Accounted-ordered :
    (t : ℤ) (key : String) (logs : List Checkable) (r : Reconciliation) (ref : String)
    → (has r.unchecked ref ≡ true) ⊎ (any (named ref) logs ≡ true)
    → Accounted (reconcile_ordered t key logs r) ref
unfolding reconcile_ordered
Accounted-ordered t key logs r ref (inl noted) = inl (has-note_last logs r.unchecked ref noted)
Accounted-ordered t key logs r ref (inr walked) =
    elim (at_named
      (λ x.
        (has (note_last logs r.unchecked) x ≡ true)
        ⊎ (any (refers x) (pair_coverage key logs) ≡ true))
      ref logs (pair_coverage-CoveredIn key logs r.unchecked) walked) [
        | inl a ↦ inl a
        | inr b ↦ inr (ground (arith, any-append (refers ref) r.coverage (pair_coverage key logs)))
      ]

covered_before :
    (t : ℤ) (key : String) (logs : List Checkable) (r : Reconciliation) (ref : String)
    → any (refers ref) r.coverage ≡ true
    → any (refers ref) (reconcile_ordered t key logs r).coverage ≡ true
unfolding reconcile_ordered
covered_before t key logs r ref h =
    ground (arith, any-append (refers ref) r.coverage (pair_coverage key logs))

Accounted-group :
    (t : ℤ) (g : Group) (r : Reconciliation) (ref : String)
    → Accounted r ref
    → Accounted (reconcile_group t g r) ref
unfolding drop_duplicates
Accounted-group t ((s, key), group) r ref h = elim (Maybe-cases (ordered group)) [
  | inl (w, e) ↦
      subst (λ x. Accounted x ref) (sym (reconcile_group-unordered t s key group r e))
        (elim h [ inl a ↦ inl (has-note_group w group r.unchecked ref a) | inr b ↦ inr b ])
  | inr (logs, e) ↦
      subst (λ x. Accounted x ref) (sym (reconcile_group-ordered t s key group r e))
        (still t key (drop_from [] logs r.unchecked).0
          (record r { unchecked = (drop_from [] logs r.unchecked).1 }) ref
          (elim h [
            | inl a ↦ inl (drop_from-keeps [] logs r.unchecked ref (inl a))
            | inr b ↦ inr b
          ]))
]
  where
    still :
        (t : ℤ) (key : String) (logs : List Checkable) (r : Reconciliation) (ref : String)
        → ((has r.unchecked ref ≡ true) ⊎ (any (named ref) logs ≡ true))
          ⊎ (any (refers ref) r.coverage ≡ true)
        → Accounted (reconcile_ordered t key logs r) ref
    still t key logs r ref (inl a) = Accounted-ordered t key logs r ref a
    still t key logs r ref (inr b) = inr (covered_before t key logs r ref b)

pub Accounted-members :
    (t : ℤ) (g : Group) (r : Reconciliation) (ref : String)
    → any (named ref) g.1 ≡ true
    → Accounted (reconcile_group t g r) ref
unfolding drop_duplicates
Accounted-members t ((s, key), group) r ref h = elim (Maybe-cases (ordered group)) [
  | inl (w, e) ↦
      subst (λ x. Accounted x ref) (sym (reconcile_group-unordered t s key group r e))
        (inl (
          at_named (λ x. has (note_group w group r.unchecked) x ≡ true) ref group
            (note_group-Noted w group r.unchecked) h))
  | inr (logs, e) ↦
      subst (λ x. Accounted x ref) (sym (reconcile_group-ordered t s key group r e))
        (Accounted-ordered t key (drop_from [] logs r.unchecked).0
          (record r { unchecked = (drop_from [] logs r.unchecked).1 }) ref
          (at_named
            (λ x.
              (has (drop_from [] logs r.unchecked).1 x ≡ true)
              ⊎ (any (named x) (drop_from [] logs r.unchecked).0 ≡ true))
            ref logs (drop_from-KeptOrNoted [] logs r.unchecked)
            (any-ordered (named ref) group e ∙ h)))
]

Accounted-groups :
    (t : ℤ) (gs : List Group) (r : Reconciliation) (ref : String)
    → Accounted r ref ⊎ (any (λ g. any (named ref) g.1) gs ≡ true)
    → Accounted (reconcile_groups t gs r) ref
unfolding reconcile_groups
Accounted-groups t [] r ref (inl h) = h
Accounted-groups t [] r ref (inr h) = cc
Accounted-groups t (g ∷ gs) r ref (inl h) =
    Accounted-groups t gs (reconcile_group t g r) ref (inl (Accounted-group t g r ref h))
Accounted-groups t (g ∷ gs) r ref (inr h) = elim (Bool-cases (any (named ref) g.1)) [
  | inl here ↦
      Accounted-groups t gs (reconcile_group t g r) ref (inl (Accounted-members t g r ref here))
  | inr there ↦ Accounted-groups t gs (reconcile_group t g r) ref (inr (rw there at h))
]

abbrev Held : List Group × Dict Reason → String → Type 0
Held (gs, u) ref = (has u ref ≡ true) ⊎ (any (λ g. any (named ref) g.1) gs ≡ true)

any-add_to_group :
    (s : Source) (k : String) (c : Checkable) (gs : List Group) (ref : String)
    → any (λ g. any (named ref) g.1) (add_to_group s k c gs)
      ≡ (any (λ g. any (named ref) g.1) gs || named ref c)
unfolding add_to_group
any-add_to_group s k c [] ref = ground arith
any-add_to_group s k c (((t, j), cs) ∷ gs) ref =
    ground (arith, any-append (named ref) cs (c ∷ []), any-add_to_group s k c gs ref)

checkable-log :
    (r : FlightRecord) (key : Option String) {c : Checkable} → checkable r key ≡ known c → c.log ≡ r
unfolding checkable checked
checkable-log r key e = ground arith

Held-group_logs :
    (key : Option String) (rs : List FlightRecord) (gs : List Group) (u : Dict Reason)
    (ref : String)
    → Held (gs, u) ref ⊎ (any (λ r. str_eq r.log_ref ref) rs ≡ true)
    → Held (group_logs key rs gs u) ref
unfolding group_logs
Held-group_logs key [] gs u ref (inl h) = h
Held-group_logs key [] gs u ref (inr h) = cc
Held-group_logs key (r ∷ rs) gs u ref h = elim (Maybe-cases (checkable r key)) [
  | inl (why, e) ↦
      subst (λ x. Held x ref) (sym (group_logs-unknown key r rs gs u e))
        (Held-group_logs key rs gs (put u r.log_ref why) ref (noted h why))
  | inr (c, e) ↦
      subst (λ x. Held x ref) (sym (group_logs-known key r rs gs u e))
        (Held-group_logs key rs (add_to_group r.source c.key c gs) u ref
          (grouped h c (checkable-log r key e)))
]
  where
    noted :
        Held (gs, u) ref ⊎ (any (λ r. str_eq r.log_ref ref) (r ∷ rs) ≡ true)
        → (why : Reason)
        → Held (gs, put u r.log_ref why) ref ⊎ (any (λ r. str_eq r.log_ref ref) rs ≡ true)
    noted (inl (inl a)) why = inl (inl (has-put u r.log_ref ref why a))
    noted (inl (inr b)) why = inl (inr b)
    noted (inr b) why = elim (Bool-cases (str_eq r.log_ref ref)) [
      | inl same ↦ inl (
          inl (
            subst (λ x. has (put u r.log_ref why) x ≡ true) ((eq_iff r.log_ref ref).0 same)
              (has-put_self u r.log_ref why)))
      | inr other ↦ inr (rw other at b)
    ]

    grouped :
        Held (gs, u) ref ⊎ (any (λ r. str_eq r.log_ref ref) (r ∷ rs) ≡ true)
        → (c : Checkable) → c.log ≡ r
        → Held (add_to_group r.source c.key c gs, u) ref
          ⊎ (any (λ r. str_eq r.log_ref ref) rs ≡ true)
    grouped (inl (inl a)) c e = inl (inl a)
    grouped (inl (inr b)) c e = inl (inr (ground (arith, any-add_to_group r.source c.key c gs ref)))
    grouped (inr b) c e = elim (Bool-cases (str_eq r.log_ref ref)) [
      | inl same ↦
          let this : named ref c ≡ true = ap (λ x. str_eq x.log_ref ref) e ∙ same in
          inl (inr (ground (arith, any-add_to_group r.source c.key c gs ref)))
      | inr other ↦ inr (rw other at b)
    ]

-- Every record given to `reconcile` is accounted for: its reference is noted in `unchecked` with why,
-- or a coverage pair begins with it.
pub reconcile-Accounted :
    (records : List FlightRecord) (key : Option String) (t : ℤ) (ref : String)
    → any (λ r. str_eq r.log_ref ref) records ≡ true
    → Accounted (reconcile records key t) ref
unfolding reconcile
reconcile-Accounted records key t ref h =
    let (groups, unchecked) = group_logs key records [] [] in
    Accounted-groups t groups (record { coverage = []; findings = []; unchecked = unchecked }) ref
      (start (Held-group_logs key records [] [] ref (inr h)))
  where
    start :
        Held (group_logs key records [] []) ref
        → Accounted
            (record { coverage = []; findings = []; unchecked = (group_logs key records [] []).1 })
            ref
          ⊎ (any (λ g. any (named ref) g.1) (group_logs key records [] []).0 ≡ true)
    start (inl a) = inl (inl a)
    start (inr b) = inr b
