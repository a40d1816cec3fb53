-- ===== src/Service/Journal/History.antt =====
-- Two journals that verify and have one head tell the same history, or the hash is broken.
use uas_sustainment_workbenc.Base.{
  ℕ, ◌≡◌, ◌≢◌, refl, sym, ap, String, str_eq, eq_iff, true, false, Bool-cases, ◌⊎◌, inl, inr,
  Option, none, some, arith,
}
use uas_sustainment_workbenc.Service.Journal.Hashes.{
  Library, version, genesis, in_journal_kinds, ref_text, link_text, join_lines,
}
use uas_sustainment_workbenc.Service.Journal.Lines.{has_newline, split_line}

-- What the code relies on of str() and of hexdigest().
pub record IsLibrary (lib : Library) : Type 0 where
  pub sha256_line : (s : String) → has_newline (lib.sha256 s) ≡ false
  pub decimal_line : (n : ℕ) → has_newline (lib.decimal n) ≡ false
  pub decimal_inj : (m n : ℕ) → lib.decimal m ≡ lib.decimal n → m ≡ n
  pub decimal_some : (n : ℕ) → lib.decimal n ≢ ""

-- Two texts with one hash, or a text whose hash is the one before the first link.
pub data HashBroken (lib : Library) : Type 0 where
  collision : (a b : String) → a ≢ b → lib.sha256 a ≡ lib.sha256 b → HashBroken lib
  preimage : (a : String) → lib.sha256 a ≡ genesis → HashBroken lib

pub same_hash :
    (lib : Library) (a b : String) → lib.sha256 a ≡ lib.sha256 b → (a ≡ b) ⊎ HashBroken lib
same_hash lib a b h = elim (Bool-cases (str_eq a b)) [
  | inl same ↦ inl ((eq_iff a b).0 same)
  | inr differ ↦ inr (collision a b (λ p. cc (differ, (eq_iff a b).1 p)) h)
]

kind_line : (k : String) → in_journal_kinds k ≡ true → has_newline k ≡ false
kind_line k h = elim (Bool-cases (str_eq k "entry")) [
  | inl e ↦ rw ((eq_iff k "entry").0 e) refl
  | inr not_e ↦ elim (Bool-cases (str_eq k "flight")) [
    | inl f ↦ rw ((eq_iff k "flight").0 f) refl
    | inr not_f ↦ rw ((eq_iff k "note").0 (ground (arith, h, not_e, not_f))) refl
  ]
]

ref_line : (lib : Library) → IsLibrary lib → (r : Option ℕ) → has_newline (ref_text lib r) ≡ false
ref_line lib laws none = refl
ref_line lib laws (some n) = laws.decimal_line n

ref_text_inj :
    (lib : Library) → IsLibrary lib → (r s : Option ℕ) → ref_text lib r ≡ ref_text lib s → r ≡ s
ref_text_inj lib laws none none h = refl
ref_text_inj lib laws none (some n) h = absurd (laws.decimal_some n (sym h))
ref_text_inj lib laws (some m) none h = absurd (laws.decimal_some m h)
ref_text_inj lib laws (some m) (some n) h = ap some (laws.decimal_inj m n h)

-- What a link's hash covers can be read back from the text that is hashed.
pub link_text_inj :
    (lib : Library)
    → IsLibrary lib
    → (m n : ℕ) (j k : String) (r s : Option ℕ) (c d p q : String) → in_journal_kinds j ≡ true
    → in_journal_kinds k ≡ true
    → has_newline c ≡ false
    → has_newline d ≡ false
    → link_text lib m j r c p ≡ link_text lib n k s d q
    → (m ≡ n) × (j ≡ k) × (r ≡ s) × (c ≡ d) × (p ≡ q)
unfolding link_text join_lines
link_text_inj lib laws m n j k r s c d p q hj hk hc hd e =
    let (_, e1) = split_line version _ version _ refl refl e in
    let (same_seq, e2) =
      split_line (lib.decimal m) _ (lib.decimal n) _ (laws.decimal_line m) (laws.decimal_line n)
        e1 in
    let (same_kind, e3) = split_line j _ k _ (kind_line j hj) (kind_line k hk) e2 in
    let (same_ref, e4) =
      split_line (ref_text lib r) _ (ref_text lib s) _ (ref_line lib laws r) (ref_line lib laws s)
        e3 in
    let (same_content, same_prev) = split_line c p d q hc hd e4 in
    (
      laws.decimal_inj m n same_seq,
      same_kind,
      ref_text_inj lib laws r s same_ref,
      same_content,
      same_prev,
    )
