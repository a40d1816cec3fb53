-- ===== src/Service/Journal/Lines.antt =====
-- Lines joined by a newline are read back one by one.
use Prim.Native.Char.{Char, code}
use Prim.Native.String.{String, ◌++◌}
use Prim.Native.String.append
use uas_sustainment_workbenc.Base.{◌==◌, ◌≡◌, refl, sym, ap, ◌∙◌, Bool, false, ◌||◌, arith}

abbrev newline : Char
newline = "\n"

abbrev pub has_newline : String → Bool
has_newline String.[] = false
has_newline (String.◌∷◌ c s) = (code c == 10) || has_newline s

same_heads : (x y : Char) (s t : String) → String.◌∷◌ x s ≡ String.◌∷◌ y t → (x ≡ y) × (s ≡ t)
same_heads x y s t e = (cc, cc)

no_end : (y : Char) (c : String) → has_newline (String.◌∷◌ y c) ≡ false → newline ≡ y → ⊥
no_end y c k same = ground (arith, k, ap code same)

-- The text before the first newline, and the text after it.
pub split_line :
    (a b c d : String)
    → has_newline a ≡ false
    → has_newline c ≡ false
    → a ++ String.◌∷◌ newline b ≡ c ++ String.◌∷◌ newline d
    → (a ≡ c) × (b ≡ d)
split_line String.[] b String.[] d h k e = (
  refl,
  (same_heads _ _ _ _
      (sym (append.nil (String.◌∷◌ newline b)) ∙ e ∙ append.nil (String.◌∷◌ newline d))).1,
)
split_line String.[] b (String.◌∷◌ y c) d h k e =
    let same =
      (same_heads _ _ _ _
        (sym (append.nil (String.◌∷◌ newline b)) ∙ e ∙ append.cons y c (String.◌∷◌ newline d))).0 in
    absurd (no_end y c k same)
split_line (String.◌∷◌ x a) b String.[] d h k e =
    let same =
      (same_heads _ _ _ _ (
        sym (append.nil (String.◌∷◌ newline d))
        ∙ sym e
        ∙ append.cons x a (String.◌∷◌ newline b))).0 in
    absurd (no_end x a h same)
split_line (String.◌∷◌ x a) b (String.◌∷◌ y c) d h k e =
    let (same, rest) =
      same_heads _ _ _ _ (
        sym (append.cons x a (String.◌∷◌ newline b))
        ∙ e
        ∙ append.cons y c (String.◌∷◌ newline d)) in
    let (p, q) = split_line a b c d (ground (arith, h)) (ground (arith, k)) rest in
    (cc (same, p), q)
