-- ===== src/Flight/Reconcile/Accounting.antt =====
-- No log is left out: each is paired with the next one, or noted with a reason.
use uas_sustainment_workbenc.Base.{
  String, str_eq, ◌≡◌, sym, Bool, true, ◌⊎◌, inl, inr, List, [], ◌∷◌, ◌++◌, arith, All, any,
  any-append, first, Option-cases,
}
use mathlib.Core.Path.{subst}
use text.Mathlib.TextPositions.{eq_refl}
use uas_sustainment_workbenc.Base.Dict.{Dict, has, put, get-put}
use uas_sustainment_workbenc.Flight.Record.{Reason, duplicate_of}
use uas_sustainment_workbenc.Flight.Reconcile.{
  Checkable, Coverage, covered, pair_coverage, note_last, note_group, drop_from, Reconciliation,
  same_log,
}
use uas_sustainment_workbenc.Flight.Reconcile.Steps.{drop_from-first, drop_from-duplicate}

pub has-put :
    (d : Dict Reason) (k j : String) (v : Reason) → has d j ≡ true → has (put d k v) j ≡ true
has-put d k j v h = ground (arith, get-put d k j v)

pub has-put_self : (d : Dict Reason) (k : String) (v : Reason) → has (put d k v) k ≡ true
has-put_self d k v = ground (arith, get-put d k k v, eq_refl k)

abbrev pub refers : String → Coverage → Bool
refers ref c = str_eq c.log_ref ref

-- The log is noted in `unchecked`, or a covered pair begins with it.
abbrev pub Accounted : Reconciliation → String → Type 0
Accounted r ref = (has r.unchecked ref ≡ true) ⊎ (any (refers ref) r.coverage ≡ true)

abbrev pub Noted : Dict Reason → Checkable → Type 0
Noted u c = has u c.log.log_ref ≡ true

pub has-note_last :
    (logs : List Checkable) (u : Dict Reason) (ref : String)
    → has u ref ≡ true
    → has (note_last logs u) ref ≡ true
unfolding note_last
has-note_last [] u ref h = h
has-note_last (c ∷ []) u ref h = has-put u c.log.log_ref ref Reason.last_known_log h
has-note_last (c ∷ d ∷ rest) u ref h = has-note_last (d ∷ rest) u ref h

pub has-note_group :
    (why : Reason) (cs : List Checkable) (u : Dict Reason) (ref : String)
    → has u ref ≡ true
    → has (note_group why cs u) ref ≡ true
unfolding note_group
has-note_group why [] u ref h = h
has-note_group why (c ∷ cs) u ref h =
    has-note_group why cs (put u c.log.log_ref why) ref (has-put u c.log.log_ref ref why h)

pub note_group-Noted :
    (why : Reason) (cs : List Checkable) (u : Dict Reason) → All (Noted (note_group why cs u)) cs
unfolding note_group
note_group-Noted why [] u = tt
note_group-Noted why (c ∷ cs) u = (
  has-note_group why cs (put u c.log.log_ref why) c.log.log_ref (has-put_self u c.log.log_ref why),
  note_group-Noted why cs (put u c.log.log_ref why),
)

-- Every log of the ordered list is covered by a pair, or is the last and noted.
abbrev pub CoveredIn : String → List Checkable → Dict Reason → Checkable → Type 0
CoveredIn key logs u c =
    (has (note_last logs u) c.log.log_ref ≡ true)
    ⊎ (any (refers c.log.log_ref) (pair_coverage key logs) ≡ true)

weaken_covered :
    (key : String) (c d : Checkable) (rest : List Checkable) (u : Dict Reason) (xs : List Checkable)
    → All (CoveredIn key (d ∷ rest) u) xs
    → All (CoveredIn key (c ∷ d ∷ rest) u) xs
unfolding note_last pair_coverage
weaken_covered key c d rest u [] h = tt
weaken_covered key c d rest u (x ∷ xs) h =
    (elim h.0 [ inl e ↦ inl e | inr e ↦ inr (ground arith) ], weaken_covered key c d rest u xs h.1)

pub pair_coverage-CoveredIn :
    (key : String) (logs : List Checkable) (u : Dict Reason) → All (CoveredIn key logs u) logs
unfolding note_last pair_coverage covered
pair_coverage-CoveredIn key [] u = tt
pair_coverage-CoveredIn key (c ∷ []) u =
    (inl (has-put_self u c.log.log_ref Reason.last_known_log), tt)
pair_coverage-CoveredIn key (c ∷ d ∷ rest) u = (
  inr (rw (eq_refl c.log.log_ref)),
  weaken_covered key c d rest u (d ∷ rest) (pair_coverage-CoveredIn key (d ∷ rest) u),
)

-- What the duplicate loop does with each log: it is kept, or it is noted.
abbrev pub KeptOrNoted : List Checkable × Dict Reason → Checkable → Type 0
KeptOrNoted (kept, u) c =
    (has u c.log.log_ref ≡ true) ⊎ (any (λ k. str_eq k.log.log_ref c.log.log_ref) kept ≡ true)

pub drop_from-keeps :
    (kept logs : List Checkable) (u : Dict Reason) (ref : String)
    → (has u ref ≡ true) ⊎ (any (λ k. str_eq k.log.log_ref ref) kept ≡ true)
    → let (kept', u') = drop_from kept logs u in
      (has u' ref ≡ true) ⊎ (any (λ k. str_eq k.log.log_ref ref) kept' ≡ true)
unfolding drop_from
drop_from-keeps kept [] u ref h = h
drop_from-keeps kept (c ∷ rest) u ref h = elim (Option-cases (first (same_log c) kept)) [
  | inl e ↦ rw (drop_from-first kept rest c u e) (
      drop_from-keeps (kept ++ c ∷ []) rest u ref (elim h [
        | inl a ↦ inl a
        | inr b ↦
            inr (
              ground
                (arith, any-append (λ (k : Checkable). str_eq k.log.log_ref ref) kept (c ∷ [])))
      ]))
  | inr (k, e) ↦ rw (drop_from-duplicate kept rest c u e) (
      drop_from-keeps kept rest (put u c.log.log_ref (duplicate_of k.log.log_ref)) ref (elim h [
        | inl a ↦ inl (has-put u c.log.log_ref ref (duplicate_of k.log.log_ref) a)
        | inr b ↦ inr b
      ]))
]

pub drop_from-KeptOrNoted :
    (kept logs : List Checkable) (u : Dict Reason) → All (KeptOrNoted (drop_from kept logs u)) logs
unfolding drop_from
drop_from-KeptOrNoted kept [] u = tt
drop_from-KeptOrNoted kept (c ∷ rest) u = elim (Option-cases (first (same_log c) kept)) [
  | inl e ↦
      subst (λ r. All (KeptOrNoted r) (c ∷ rest)) (sym (drop_from-first kept rest c u e))
        (
          drop_from-keeps (kept ++ c ∷ []) rest u c.log.log_ref (
              inr (
                ground (
                  arith,
                  eq_refl c.log.log_ref,
                  any-append (λ (k : Checkable). str_eq k.log.log_ref c.log.log_ref) kept (c ∷ []),
                ))),
          drop_from-KeptOrNoted (kept ++ c ∷ []) rest u,
        )
  | inr (k, e) ↦
      subst (λ r. All (KeptOrNoted r) (c ∷ rest)) (sym (drop_from-duplicate kept rest c u e))
        (
          drop_from-keeps kept rest (put u c.log.log_ref (duplicate_of k.log.log_ref)) c.log.log_ref
              (inl (has-put_self u c.log.log_ref (duplicate_of k.log.log_ref))),
          drop_from-KeptOrNoted kept rest (put u c.log.log_ref (duplicate_of k.log.log_ref)),
        )
]
