-- ===== src/Ledger/Project/Order.antt =====
-- `fold_key` and `liveness` of ledger/project.py.
use uas_sustainment_workbenc.Base.{
  ℕ, zero, suc, ◌+◌, ltb, leb, ◌==◌, Bool, true, false, ◌&&◌, ◌||◌, any, length, Option, none, some,
  List, [], ◌∷◌, if◌then◌else◌,
}
use uas_sustainment_workbenc.Base.Sort.{sort_by}
use uas_sustainment_workbenc.Ledger.Model.{Entry}

-- `e.id or 0`
abbrev pub id_or_zero : Entry → ℕ
id_or_zero e = elim e.id [ none ↦ 0 | some n ↦ n ]

abbrev pub has_id : ℕ → Entry → Bool
has_id n e = elim e.id [ none ↦ false | some m ↦ m == n ]

-- {e.id: e for e in entries if e.id is not None}.get(n): a later entry of the same id wins.
unfoldable pub by_id : List Entry → ℕ → Option Entry
by_id [] n = none
by_id (e ∷ es) n =
    let rest = by_id es n in
    elim rest [ some x ↦ some x | none ↦ if has_id n e then some e else none ]

abbrev pub contains : ℕ → List ℕ → Bool
contains n seen = any (λ m. m == n) seen

-- The `while` of `fold_key`: from an entry along `supersedes` to the root of its chain. Each round adds
-- an id to `seen`, so as many rounds as there are entries are enough.
unfoldable pub root_from : ℕ → List Entry → List ℕ → Entry → Entry
unfolding by_id
root_from zero entries seen root = root
root_from (suc fuel) entries seen root = elim root.supersedes [
  | none ↦ root
  | some n ↦ elim (by_id entries n) [
    | none ↦ root
    | some next ↦ if contains n seen then root else root_from fuel entries (n ∷ seen) next
  ]
]

unfoldable pub root_id : List Entry → Entry → ℕ
unfolding root_from
root_id entries e = id_or_zero (root_from (length entries + 1) entries [] e)

-- The key of `fold_key`: when the entry occurred, then the root of its chain.
unfoldable pub fold_key : List Entry → Entry → ℕ × ℕ
unfolding root_id
fold_key entries e = (e.occurred_utc.utc, root_id entries e)

-- Python compares tuples from the left.
abbrev pub key_le : ℕ × ℕ → ℕ × ℕ → Bool
key_le (a, b) (c, d) = ltb a c || ((a == c) && leb b d)

abbrev pub key_lt : ℕ × ℕ → ℕ × ℕ → Bool
key_lt (a, b) (c, d) = ltb a c || ((a == c) && ltb b d)

abbrev pub key_eq : ℕ × ℕ → ℕ × ℕ → Bool
key_eq (a, b) (c, d) = (a == c) && (b == d)

abbrev pub fold_le : List Entry → Entry → Entry → Bool
fold_le entries a b = key_le (fold_key entries a) (fold_key entries b)

abbrev pub newest_first : Entry → Entry → Bool
newest_first a b = leb (id_or_zero b) (id_or_zero a)

-- superseded_by[n] and superseded_by[n] = m, on a dict keyed by ids.
abbrev pub get_id : List (ℕ × ℕ) → ℕ → Option ℕ
get_id [] n = none
get_id ((k, v) ∷ d) n = let rest = get_id d n in if k == n then some v else rest

abbrev pub put_id : List (ℕ × ℕ) → ℕ → ℕ → List (ℕ × ℕ)
put_id [] n v = (n, v) ∷ []
put_id ((k, w) ∷ d) n v = let rest = put_id d n v in if k == n then (k, v) ∷ d else (k, w) ∷ rest

-- e.id in superseded_by
abbrev pub is_dead : List (ℕ × ℕ) → Entry → Bool
is_dead by e = elim e.id [
  | none ↦ false
  | some n ↦ elim (get_id by n) [ none ↦ false | some _ ↦ true ]
]

abbrev pub note_superseded : List (ℕ × ℕ) → Entry → List (ℕ × ℕ)
note_superseded by e = elim e.supersedes [
  | none ↦ by
  | some n ↦ elim e.id [ none ↦ by | some m ↦ put_id by n m ]
]

-- The loop of `liveness`, over the entries from the newest.
unfoldable pub live_from : List Entry → List (ℕ × ℕ) → List Entry × List (ℕ × ℕ)
live_from [] by = ([], by)
live_from (e ∷ es) by = elim (is_dead by e) [
  | true ↦ live_from es by
  | false ↦ let (live, by') = live_from es (note_superseded by e) in (e ∷ live, by')
]

unfoldable pub liveness : List Entry → List Entry × List (ℕ × ℕ)
unfolding live_from fold_key
liveness entries =
    let (live, by) = live_from (sort_by newest_first entries) [] in
    (sort_by (fold_le entries) live, by)
