-- ===== src/Service/Journal/Hashes.antt =====
-- What a link hashes. What hashlib and json do is a parameter.
use Prim.Native.String.{◌++◌ as str_append}
use uas_sustainment_workbenc.Base.{ℕ, String, str_eq, Bool, ◌||◌, Option, none, some, List, [], ◌∷◌}
use uas_sustainment_workbenc.Base.Json.{Json}

-- hashlib.sha256 of a text's bytes as hex, str() of a number, `canonical` (json.dumps in its one form) and
-- json.loads, which gives nothing where it raises.
pub record Library : Type 0 where
  pub sha256 : String → String
  pub decimal : ℕ → String
  pub dumps : Json → String
  pub loads : String → Option Json

-- VERSION
abbrev pub version : String
version = "uasw-journal/1"

-- GENESIS
abbrev pub genesis : String
genesis = "0000000000000000000000000000000000000000000000000000000000000000"

-- SCHEMA_VERSION
abbrev pub schema_version : ℕ
schema_version = 1

-- "\n".join(lines)
unfoldable pub join_lines : List String → String
join_lines [] = ""
join_lines (s ∷ []) = s
join_lines (s ∷ t ∷ ss) = let rest = join_lines (t ∷ ss) in str_append s (String.◌∷◌ "\n" rest)

-- kind in KINDS
abbrev pub in_journal_kinds : String → Bool
in_journal_kinds k = str_eq k "entry" || str_eq k "flight" || str_eq k "note"

abbrev pub is_note : String → Bool
is_note k = str_eq k "note"

module _ (lib : Library) where
  unfoldable pub content_hash : Json → String
  content_hash content = lib.sha256 (lib.dumps content)

  abbrev pub ref_text : Option ℕ → String
  ref_text none = ""
  ref_text (some n) = lib.decimal n

  -- What `link_hash` hashes.
  unfoldable pub link_text : ℕ → String → Option ℕ → String → String → String
  unfolding join_lines
  link_text seq kind ref content prev =
      join_lines (version ∷ lib.decimal seq ∷ kind ∷ ref_text ref ∷ content ∷ prev ∷ [])

  unfoldable pub link_hash : ℕ → String → Option ℕ → String → String → String
  link_hash seq kind ref content prev = lib.sha256 (link_text seq kind ref content prev)
