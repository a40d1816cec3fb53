-- ===== src/Service/Tests/Encoding.antt =====
-- A text for every JSON value, read back by a stack machine: a library the service's theorems can be run with.
use Prim.Native.Char.{Char, code}
use Prim.Native.String.{String}
use uas_sustainment_workbenc.Base.{
  ℕ, zero, suc, ◌==◌, ◌≡◌, refl, ap, ◌∙◌, pos, negsuc, Bool, true, false, Option, none, some, List,
  [], ◌∷◌, if◌then◌else◌,
}
use uas_sustainment_workbenc.Base.Json.{
  Json, null, flag, whole, real, text, array, object, Items, no_items, item, Fields, no_fields,
  field,
}

pub data Part : Type 0 where
  value : Json → Part
  letters : String → Part
  count : ℕ → Part
  parts : Items → Part
  pairs : Fields → Part

pub data Token : Type 0 where
  is_null is_true is_false is_zero is_suc is_whole is_minus is_real is_minus_real : Token
  is_empty is_text is_no_items is_item is_array is_no_fields is_field is_object : Token

abbrev pub mark : Token → String → String
mark is_null s = String.◌∷◌ "0" s
mark is_true s = String.◌∷◌ "1" s
mark is_false s = String.◌∷◌ "2" s
mark is_zero s = String.◌∷◌ "3" s
mark is_suc s = String.◌∷◌ "4" s
mark is_whole s = String.◌∷◌ "5" s
mark is_minus s = String.◌∷◌ "6" s
mark is_real s = String.◌∷◌ "7" s
mark is_minus_real s = String.◌∷◌ "8" s
mark is_empty s = String.◌∷◌ "9" s
mark is_text s = String.◌∷◌ "a" s
mark is_no_items s = String.◌∷◌ "b" s
mark is_item s = String.◌∷◌ "c" s
mark is_array s = String.◌∷◌ "d" s
mark is_no_fields s = String.◌∷◌ "e" s
mark is_field s = String.◌∷◌ "f" s
mark is_object s = String.◌∷◌ "g" s

abbrev pub token : ℕ → Option Token
token n =
    if n == 48
    then some is_null
    else if n == 49
    then some is_true
    else if n == 50
    then some is_false
    else if n == 51
    then some is_zero
    else if n == 52
    then some is_suc
    else if n == 53
    then some is_whole
    else if n == 54
    then some is_minus
    else if n == 55
    then some is_real
    else if n == 56
    then some is_minus_real
    else if n == 57
    then some is_empty
    else if n == 97
    then some is_text
    else if n == 98
    then some is_no_items
    else if n == 99
    then some is_item
    else if n == 100
    then some is_array
    else if n == 101
    then some is_no_fields
    else if n == 102
    then some is_field
    else if n == 103
    then some is_object
    else none

abbrev pub step : Option Token → List Part → List Part
step (some is_null) ps = value null ∷ ps
step (some is_true) ps = value (flag true) ∷ ps
step (some is_false) ps = value (flag false) ∷ ps
step (some is_zero) ps = count 0 ∷ ps
step (some is_suc) (count n ∷ ps) = count (suc n) ∷ ps
step (some is_whole) (count n ∷ ps) = value (whole (pos n)) ∷ ps
step (some is_minus) (count n ∷ ps) = value (whole (negsuc n)) ∷ ps
step (some is_real) (count n ∷ ps) = value (real (pos n)) ∷ ps
step (some is_minus_real) (count n ∷ ps) = value (real (negsuc n)) ∷ ps
step (some is_empty) ps = letters "" ∷ ps
step (some is_text) (letters s ∷ ps) = value (text s) ∷ ps
step (some is_no_items) ps = parts no_items ∷ ps
step (some is_item) (value j ∷ parts vs ∷ ps) = parts (item j vs) ∷ ps
step (some is_array) (parts vs ∷ ps) = value (array vs) ∷ ps
step (some is_no_fields) ps = pairs no_fields ∷ ps
step (some is_field) (value j ∷ letters n ∷ pairs d ∷ ps) = pairs (field n j d) ∷ ps
step (some is_object) (pairs d ∷ ps) = value (object d) ∷ ps
step _ ps = ps

abbrev pub with_letter : Char → List Part → List Part
with_letter c (letters s ∷ ps) = letters (String.◌∷◌ c s) ∷ ps
with_letter c ps = ps

-- A quote is followed by a letter of a text; the machine is told whether it has just read one.
unfoldable pub decode_from : Bool → String → List Part → List Part
decode_from quoted String.[] ps = ps
decode_from true (String.◌∷◌ c s) ps = decode_from false s (with_letter c ps)
decode_from false (String.◌∷◌ c s) ps =
    if code c == 34 then decode_from true s ps else decode_from false s (step (token (code c)) ps)

abbrev pub quote : Char
quote = "\""

-- Each is put in front of the text that follows.
abbrev pub put_letters : String → String → String
put_letters String.[] rest = mark is_empty rest
put_letters (String.◌∷◌ c s) rest = put_letters s (String.◌∷◌ quote (String.◌∷◌ c rest))

abbrev pub put_count : ℕ → String → String
put_count zero rest = mark is_zero rest
put_count (suc n) rest = put_count n (mark is_suc rest)

unfoldable mutual
  pub put : Json → String → String
  put null rest = mark is_null rest
  put (flag true) rest = mark is_true rest
  put (flag false) rest = mark is_false rest
  put (whole (pos n)) rest = put_count n (mark is_whole rest)
  put (whole (negsuc n)) rest = put_count n (mark is_minus rest)
  put (real (pos n)) rest = put_count n (mark is_real rest)
  put (real (negsuc n)) rest = put_count n (mark is_minus_real rest)
  put (text s) rest = put_letters s (mark is_text rest)
  put (array vs) rest = put_items vs (mark is_array rest)
  put (object d) rest = put_fields d (mark is_object rest)

  pub put_items : Items → String → String
  put_items no_items rest = mark is_no_items rest
  put_items (item j vs) rest = put_items vs (put j (mark is_item rest))

  pub put_fields : Fields → String → String
  put_fields no_fields rest = mark is_no_fields rest
  put_fields (field n j d) rest = put_fields d (put_letters n (put j (mark is_field rest)))

decode-mark :
    (t : Token) (rest : String) (ps : List Part)
    → decode_from false (mark t rest) ps ≡ decode_from false rest (step (some t) ps)
unfolding decode_from
decode-mark is_null rest ps = refl
decode-mark is_true rest ps = refl
decode-mark is_false rest ps = refl
decode-mark is_zero rest ps = refl
decode-mark is_suc rest ps = refl
decode-mark is_whole rest ps = refl
decode-mark is_minus rest ps = refl
decode-mark is_real rest ps = refl
decode-mark is_minus_real rest ps = refl
decode-mark is_empty rest ps = refl
decode-mark is_text rest ps = refl
decode-mark is_no_items rest ps = refl
decode-mark is_item rest ps = refl
decode-mark is_array rest ps = refl
decode-mark is_no_fields rest ps = refl
decode-mark is_field rest ps = refl
decode-mark is_object rest ps = refl

decode-put_letters :
    (s rest : String) (ps : List Part)
    → decode_from false (put_letters s rest) ps ≡ decode_from false rest (letters s ∷ ps)
unfolding decode_from
decode-put_letters String.[] rest ps = decode-mark is_empty rest ps
decode-put_letters (String.◌∷◌ c s) rest ps =
    decode-put_letters s (String.◌∷◌ quote (String.◌∷◌ c rest)) ps ∙ refl

decode-put_count :
    (n : ℕ) (rest : String) (ps : List Part)
    → decode_from false (put_count n rest) ps ≡ decode_from false rest (count n ∷ ps)
decode-put_count zero rest ps = decode-mark is_zero rest ps
decode-put_count (suc n) rest ps =
    decode-put_count n (mark is_suc rest) ps ∙ decode-mark is_suc rest (count n ∷ ps)

mutual
  unfolding put

  decode-put :
      (j : Json) (rest : String) (ps : List Part)
      → decode_from false (put j rest) ps ≡ decode_from false rest (value j ∷ ps)
  decode-put null rest ps = decode-mark is_null rest ps
  decode-put (flag true) rest ps = decode-mark is_true rest ps
  decode-put (flag false) rest ps = decode-mark is_false rest ps
  decode-put (whole (pos n)) rest ps =
      decode-put_count n (mark is_whole rest) ps ∙ decode-mark is_whole rest (count n ∷ ps)
  decode-put (whole (negsuc n)) rest ps =
      decode-put_count n (mark is_minus rest) ps ∙ decode-mark is_minus rest (count n ∷ ps)
  decode-put (real (pos n)) rest ps =
      decode-put_count n (mark is_real rest) ps ∙ decode-mark is_real rest (count n ∷ ps)
  decode-put (real (negsuc n)) rest ps =
      decode-put_count n (mark is_minus_real rest) ps
      ∙ decode-mark is_minus_real rest (count n ∷ ps)
  decode-put (text s) rest ps =
      decode-put_letters s (mark is_text rest) ps ∙ decode-mark is_text rest (letters s ∷ ps)
  decode-put (array vs) rest ps =
      decode-put_items vs (mark is_array rest) ps ∙ decode-mark is_array rest (parts vs ∷ ps)
  decode-put (object d) rest ps =
      decode-put_fields d (mark is_object rest) ps ∙ decode-mark is_object rest (pairs d ∷ ps)

  decode-put_items :
      (vs : Items) (rest : String) (ps : List Part)
      → decode_from false (put_items vs rest) ps ≡ decode_from false rest (parts vs ∷ ps)
  decode-put_items no_items rest ps = decode-mark is_no_items rest ps
  decode-put_items (item j vs) rest ps =
      decode-put_items vs (put j (mark is_item rest)) ps
      ∙ decode-put j (mark is_item rest) (parts vs ∷ ps)
      ∙ decode-mark is_item rest (value j ∷ parts vs ∷ ps)

  decode-put_fields :
      (d : Fields) (rest : String) (ps : List Part)
      → decode_from false (put_fields d rest) ps ≡ decode_from false rest (pairs d ∷ ps)
  decode-put_fields no_fields rest ps = decode-mark is_no_fields rest ps
  decode-put_fields (field n j d) rest ps =
      decode-put_fields d (put_letters n (put j (mark is_field rest))) ps
      ∙ decode-put_letters n (put j (mark is_field rest)) (pairs d ∷ ps)
      ∙ decode-put j (mark is_field rest) (letters n ∷ pairs d ∷ ps)
      ∙ decode-mark is_field rest (value j ∷ letters n ∷ pairs d ∷ ps)

abbrev pub top_value : List Part → Option Json
top_value (value j ∷ ps) = some j
top_value _ = none

unfoldable pub json_text : Json → String
unfolding put
json_text j = put j ""

unfoldable pub text_json : String → Option Json
unfolding decode_from
text_json s = top_value (decode_from false s [])

pub text_json-json_text : (j : Json) → text_json (json_text j) ≡ some j
unfolding text_json json_text decode_from
text_json-json_text j = ap top_value (decode-put j "" [])
