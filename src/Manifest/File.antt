-- ===== src/Manifest/File.antt =====
-- The whole manifest file: parse and serialize of src/manifest.cpp over the INI library, which is a
-- parameter, and the tests of names and values that guard their round trip: parse_rung_section_name,
-- label_is_serializable and value_is_unserializable. The ladder loop has a round for each section and one
-- more: it goes on only past a rung that is there, and no two rungs of a ladder share a section.
pub mod Names
pub mod Format
pub mod Store
pub mod Reading
pub mod Reserved
pub mod Checks
pub mod RoundTrip
pub mod Ladder
use detour_mod_kit.Base.{
  ℕ, zero, suc, ◌+◌, ◌-◌, ◌*◌, ◌/◌, ◌^◌, ◌≤◌, ◌<◌, ◌≡◌, Bool, true, false, not, ◌&&◌, ◌||◌, List,
  [], ◌∷◌, ◌++◌, map, Option, none, some, ltb, leb, ◌==◌, if◌then◌else◌, length, All,
}
use detour_mod_kit.Text.{Text, codes, text_eq, has_char, split}
use detour_mod_kit.Text.Decimal.{digits}
use detour_mod_kit.Text.Unsigned.{unsigned_values}
use detour_mod_kit.Errors.{Result, value, failure, malformed_line, missing_header}
use detour_mod_kit.Manifest.Numbers.{parse_unsigned, trim_back}
use detour_mod_kit.Manifest.{CandidateSpec, SignatureRecord, ManifestFile, schema_version}
use detour_mod_kit.Manifest.Sections.{◌>>=◌, is_some, parse_rung, parse_record, or_malformed}
use detour_mod_kit.Manifest.Entries.{Fields, same, later, field, rung_entries, record_entries}

-- What stands behind the prefix.
unfoldable pub after_prefix : Text → Text → Option Text
after_prefix [] s = some s
after_prefix (p ∷ ps) [] = none
after_prefix (p ∷ ps) (c ∷ cs) = if p == c then after_prefix ps cs else none

-- The texts before and behind the last ".rung.".
unfoldable pub split_last : Text → Option (Text × Text)
unfolding after_prefix
split_last [] = none
split_last (c ∷ cs) = elim (split_last cs) [
  | some (parent, tail) ↦ some (c ∷ parent, tail)
  | none ↦ elim (after_prefix (codes ".rung.") (c ∷ cs)) [
    | none ↦ none
    | some tail ↦ some ([], tail)
  ]
]

unfoldable pub parse_index : ℕ → Text → Option ℕ
parse_index n [] = some n
parse_index n (c ∷ cs) =
    let more = parse_index (n * 10 + (c - b'0')) cs in
    if ltb c b'0' || ltb b'9' c
    then none
    else if ltb ((unsigned_values - 1 - (c - b'0')) / 10) n
    then none
    else more

unfoldable pub rung_of : Text × Text → Option (Text × ℕ)
unfolding parse_index
rung_of (parent, []) = none
rung_of (parent, c ∷ cs) = elim (parse_index 0 (c ∷ cs)) [ none ↦ none | some n ↦ some (parent, n) ]

unfoldable pub parse_rung_section_name : Text → Option (Text × ℕ)
unfolding split_last rung_of
parse_rung_section_name name = elim (split_last name) [ none ↦ none | some r ↦ rung_of r ]

abbrev pub is_blank : ℕ → Bool
is_blank c = c == b' ' || c == 9

abbrev pub is_structural : ℕ → Bool
is_structural c = c == 0 || c == 13 || c == 10 || c == b'[' || c == b']'

-- The last char, or the given one.
unfoldable pub back : ℕ → Text → ℕ
back d [] = d
back d (c ∷ cs) = back c cs

unfoldable pub any_char : (ℕ → Bool) → Text → Bool
any_char p [] = false
any_char p (c ∷ cs) = p c || any_char p cs

unfoldable pub section_of : Text → Text
section_of label = codes "sig." ++ label

unfoldable pub label_is_serializable : Text → Bool
unfolding back any_char section_of parse_rung_section_name
label_is_serializable [] = false
label_is_serializable (c ∷ cs) =
    not (is_blank (back c cs))
    && not (any_char is_structural (c ∷ cs))
    && not (is_some (parse_rung_section_name (section_of (c ∷ cs))))

unfoldable pub without_blanks : Text → Text
without_blanks [] = []
without_blanks (c ∷ cs) = elim (without_blanks cs) [
  | [] ↦ if is_blank c then [] else c ∷ []
  | d ∷ rest ↦ c ∷ d ∷ rest
]

unfoldable pub ends_heredoc : List Text → Bool
unfolding text_eq without_blanks
ends_heredoc [] = false
ends_heredoc (line ∷ lines) =
    text_eq (without_blanks line) (codes "END_OF_TEXT") || ends_heredoc lines

unfoldable pub takes_heredoc_path : Text → Bool
unfolding back has_char
takes_heredoc_path [] = false
takes_heredoc_path (c ∷ cs) = has_char 10 (c ∷ cs) || is_blank c || is_blank (back c cs)

unfoldable pub value_is_unserializable : Text → Bool
unfolding has_char takes_heredoc_path ends_heredoc split
value_is_unserializable v =
    has_char 0 v || has_char 13 v || (takes_heredoc_path v && ends_heredoc (split 10 v))

-- The INI library: what is set in a store, the names of its sections in the order in which they came, and
-- a store as the text of a file.
pub record Ini : Type 1 where
  pub Store : Type 0
  pub FileText : Type 0
  pub empty : Store
  pub set_value : Text → Text → Text → Store → Store
  pub get_value : Store → Text → Text → Option Text
  pub sections : Store → List Text
  pub save : Store → FileText
  pub load : FileText → Option Store

unfoldable pub has_section : List Text → Text → Bool
has_section [] s = false
has_section (t ∷ ts) s = same t s || has_section ts s

abbrev pub rung_section : Text → ℕ → Text
rung_section section index = section ++ (codes ".rung." ++ digits index)

-- A section and what is set in it.
abbrev pub Block : Type 0
Block = Text × Fields

unfoldable pub rung_blocks : Text → ℕ → List CandidateSpec → List Block
rung_blocks section index [] = []
rung_blocks section index (s ∷ ss) =
    (rung_section section index, rung_entries s) ∷ rung_blocks section (suc index) ss

unfoldable pub record_blocks : List SignatureRecord → List Block
unfolding rung_blocks section_of
record_blocks [] = []
record_blocks (r ∷ rs) =
    (section_of r.label, record_entries r)
    ∷ (rung_blocks (section_of r.label) 0 r.ladder ++ record_blocks rs)

abbrev pub revision_entries : ℕ → Fields
revision_entries n = if n == 0 then [] else (codes "revision", digits n) ∷ []

unfoldable pub manifest_blocks : ManifestFile → List Block
unfolding record_blocks
manifest_blocks m =
    (codes "manifest", (codes "schema", digits schema_version) ∷ revision_entries m.revision)
    ∷ record_blocks m.records

unfoldable pub revision_of : Option Text → Result ℕ
revision_of none = value 0
revision_of (some raw) = or_malformed (parse_unsigned raw) >>= λ n.
    if ltb 0xFFFFFFFF n then failure malformed_line else value n

-- No `schema` and another one are the same failure.
unfoldable pub schema_of : Option Text → Result ℕ
schema_of none = failure missing_header
schema_of (some raw) = elim (parse_unsigned raw) [
  | none ↦ failure missing_header
  | some n ↦ if n == schema_version then value n else failure missing_header
]

-- Every rung has its record.
unfoldable pub has_parents : List Text → List Text → Bool
unfolding has_section
has_parents all [] = true
has_parents all (name ∷ names) = elim (after_prefix (codes "sig.") name) [
  | none ↦ has_parents all names
  | some label ↦ elim (parse_rung_section_name name) [
    | none ↦ has_parents all names
    | some (parent, index) ↦
        ltb 4 (length parent) && has_section all parent && has_parents all names
  ]
]

-- A rung of this record behind the first one that is missing.
unfoldable pub has_surplus : Text → ℕ → List Text → Bool
has_surplus section missing [] = false
has_surplus section missing (name ∷ names) = elim (parse_rung_section_name name) [
  | none ↦ has_surplus section missing names
  | some (parent, index) ↦
      (text_eq parent section && leb missing index) || has_surplus section missing names
]

module _ (ini : Ini) where
  open ini use {Store, FileText, empty, set_value, get_value, sections, save, load}

  unfoldable pub set_fields : Text → Fields → Store → Store
  set_fields section [] st = st
  set_fields section ((k, v) ∷ fs) st = set_fields section fs (set_value section k v st)

  unfoldable pub set_blocks : List Block → Store → Store
  unfolding set_fields
  set_blocks [] st = st
  set_blocks ((section, fs) ∷ bs) st = set_blocks bs (set_fields section fs st)

  unfoldable pub serialize : ManifestFile → FileText
  unfolding set_blocks manifest_blocks
  serialize m = save (set_blocks (manifest_blocks m) empty)

  -- The ladder and the index of the first rung that is missing.
  unfoldable pub read_rungs : ℕ → Store → Text → ℕ → Result (List CandidateSpec × ℕ)
  read_rungs zero st section index = failure malformed_line
  read_rungs (suc f) st section index =
      elim (get_value st (rung_section section index) (codes "mode")) [
        | none ↦ value ([], index)
        | some mode ↦ parse_rung (get_value st (rung_section section index)) >>= λ s.
            read_rungs f st section (suc index) >>= λ r. value (s ∷ r.0, r.1)
      ]

  unfoldable pub parse_section : Store → List Text → Text → Text → Result SignatureRecord
  parse_section st all name [] = failure malformed_line
  parse_section st all name (c ∷ cs) = do
    r ← parse_record (get_value st name) (c ∷ cs)
    ladder ← read_rungs (suc (length all)) st name 0
    if has_surplus name ladder.1 all
        then failure malformed_line
        else value (record r { ladder = ladder.0 })

  unfoldable pub parse_sections : Store → List Text → List Text → Result (List SignatureRecord)
  parse_sections st all [] = value []
  parse_sections st all (name ∷ names) = elim (after_prefix (codes "sig.") name) [
    | none ↦ parse_sections st all names
    | some label ↦ elim (parse_rung_section_name name) [
      | some rung ↦ parse_sections st all names
      | none ↦ parse_section st all name label >>= λ r.
          parse_sections st all names >>= λ rs. value (r ∷ rs)
    ]
  ]

  unfoldable pub parse_store : Store → Result ManifestFile
  parse_store st = do
    schema ← schema_of (get_value st (codes "manifest") (codes "schema"))
    revision ← revision_of (get_value st (codes "manifest") (codes "revision"))
    if has_parents (sections st) (sections st)
        then (parse_sections st (sections st) (sections st) >>= λ records.
            value (record { schema = schema; revision = revision; records = records }))
        else failure malformed_line

  unfoldable pub parse : FileText → Result ManifestFile
  parse text = elim (load text) [ none ↦ failure malformed_line | some st ↦ parse_store st ]
