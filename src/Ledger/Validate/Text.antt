-- ===== src/Ledger/Validate/Text.antt =====
-- The tests ledger/validate.py makes on texts: the pattern of a subject, and `strip`.
use Prim.Native.Char.{Char, code}
use Prim.Native.String.{String}
use uas_sustainment_workbenc.Base.{
  ℕ, zero, suc, leb, ◌==◌, Bool, true, false, ◌&&◌, ◌||◌, if◌then◌else◌,
}

-- str.isspace of one character
abbrev pub is_space : Char → Bool
is_space ch =
    let c = code ch in
    (leb 9 c && leb c 13)
    || (leb 28 c && leb c 32)
    || (c == 133)
    || (c == 160)
    || (c == 5760)
    || (leb 8192 c && leb c 8202)
    || (c == 8232)
    || (c == 8233)
    || (c == 8239)
    || (c == 8287)
    || (c == 12288)

unfoldable pub strip_left : String → String
strip_left String.[] = String.[]
strip_left (String.◌∷◌ c s) = let rest = strip_left s in if is_space c then rest else String.◌∷◌ c s

abbrev pub is_blank : String → Bool
is_blank String.[] = true
is_blank (String.◌∷◌ c s) = is_space c && is_blank s

-- Spaces at the end are dropped: an end that is all spaces is the empty text.
unfoldable pub strip_right : String → String
strip_right String.[] = String.[]
strip_right (String.◌∷◌ c s) =
    let rest = strip_right s in if is_blank (String.◌∷◌ c s) then String.[] else String.◌∷◌ c rest

unfoldable pub strip : String → String
unfolding strip_left strip_right
strip s = strip_left (strip_right s)

abbrev pub is_alphanumeric : Char → Bool
is_alphanumeric ch =
    let c = code ch in
    (leb b'A' c && leb c b'Z') || (leb b'a' c && leb c b'z') || (leb b'0' c && leb c b'9')

abbrev pub is_subject_char : Char → Bool
is_subject_char ch =
    let c = code ch in is_alphanumeric ch || (c == b'_') || (c == b'.') || (c == b'-')

-- `[A-Za-z0-9_.-]{0,n}$`: `$` also matches before one newline that ends the text.
abbrev pub subject_rest : ℕ → String → Bool
subject_rest n String.[] = true
subject_rest zero (String.◌∷◌ c String.[]) = code c == 10
subject_rest zero (String.◌∷◌ c (String.◌∷◌ d s)) = false
subject_rest (suc n) (String.◌∷◌ c s) =
    if is_subject_char c then subject_rest n s else elim s [ String.[] ↦ code c == 10 | _ ↦ false ]

-- SUBJECT.match
unfoldable pub is_subject : String → Bool
is_subject String.[] = false
is_subject (String.◌∷◌ c s) = is_alphanumeric c && subject_rest 63 s
