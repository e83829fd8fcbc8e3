-- ===== src/Drift.antt =====
-- The drift manifest: include/DetourModKit/detail/drift_manifest.hpp and src/drift_manifest.cpp, with
-- DriftEntry of include/DetourModKit/rtti_dissect.hpp. The two file functions are not modelled: they
-- call these on the bytes of a stream. A text's chars are their codes.
pub mod RoundTrip
pub mod Cells
pub mod Line
pub mod Loop
pub mod Accepts
pub mod CarriageReturn
use detour_mod_kit.Base.{
  ℕ, Bool, true, false, not, List, [], ◌∷◌, ◌++◌, Option, none, some, ◌==◌, if◌then◌else◌, ◌>>=◌,
}
use detour_mod_kit.Base.Int.{ℤ}
use detour_mod_kit.Text.{Text, codes, text_eq, split}
use detour_mod_kit.Text.Decimal.{to_string, from_chars}
pub use detour_mod_kit.Errors.{Result, value, failure}
use detour_mod_kit.Errors.{
  ErrorCode, ok, bad_descriptor, heal_no_match, heal_ambiguous, missing_header, malformed_line,
}

abbrev pub manifest_header : Text
manifest_header = codes "# DetourModKit drift manifest v1"

abbrev pub newline : ℕ
newline = 10

abbrev pub carriage_return : ℕ
carriage_return = 13

abbrev pub field_sep : ℕ
field_sep = 9

pub record DriftEntry : Type 0 where
  pub name : Text
  pub nominal_offset : ℤ
  pub healed_offset : ℤ
  pub delta : ℤ
  pub healed : Bool
  pub error : ErrorCode

pub record DriftRecord : Type 0 where
  pub name : Text
  pub nominal_offset : ℤ
  pub healed_offset : ℤ
  pub delta : ℤ
  pub healed : Bool
  pub error : ErrorCode

unfoldable pub heal_error_token : ErrorCode → Text
heal_error_token ok = codes "Ok"
heal_error_token heal_no_match = codes "NoMatch"
heal_error_token heal_ambiguous = codes "Ambiguous"
heal_error_token _ = codes "BadDescriptor"

unfoldable pub parse_heal_error : Text → Option ErrorCode
parse_heal_error token =
    if text_eq token (codes "Ok")
    then some ok
    else if text_eq token (codes "BadDescriptor")
    then some bad_descriptor
    else if text_eq token (codes "NoMatch")
    then some heal_no_match
    else if text_eq token (codes "Ambiguous")
    then some heal_ambiguous
    else none

-- The number must take the whole field.
spans : ℤ × Text → Option ℤ
spans (z, []) = some z
spans (z, c ∷ cs) = none

unfoldable pub parse_offset : Text → Option ℤ
unfolding spans
parse_offset field = from_chars field >>= spans

unfoldable pub serialize_entry : DriftEntry → Text
serialize_entry e =
    e.name
    ++ field_sep
      ∷ (to_string e.nominal_offset
          ++ field_sep
            ∷ (to_string e.healed_offset
                ++ field_sep
                  ∷ (to_string e.delta
                      ++ field_sep
                        ∷ ((if e.healed then b'1' else b'0')
                            ∷ field_sep
                            ∷ heal_error_token e.error))))

unfoldable pub serialize_entries : List DriftEntry → Text
serialize_entries [] = []
serialize_entries (e ∷ es) = serialize_entry e ++ newline ∷ serialize_entries es

unfoldable pub serialize_drift_report : List DriftEntry → Text
serialize_drift_report es = manifest_header ++ newline ∷ serialize_entries es

unfoldable pub strip_cr : Text → Text
strip_cr [] = []
strip_cr (c ∷ []) = if c == carriage_return then [] else c ∷ []
strip_cr (c ∷ d ∷ cs) = c ∷ strip_cr (d ∷ cs)

pub parse_healed : Text → Option Bool
parse_healed field =
    if text_eq field (codes "1")
    then some true
    else if text_eq field (codes "0")
    then some false
    else none

unfoldable pub parse_fields : List Text → Option DriftRecord
unfolding parse_healed
parse_fields (name ∷ nominal ∷ healed ∷ moved ∷ flag ∷ token ∷ []) = do
  n ← parse_offset nominal
  h ← parse_offset healed
  d ← parse_offset moved
  f ← parse_healed flag
  e ← parse_heal_error token
  some (record {
    name = name;
    nominal_offset = n;
    healed_offset = h;
    delta = d;
    healed = f;
    error = e;
  })
parse_fields _ = none

-- The locals of the loop.
pub record ReadState : Type 0 where
  pub header_seen : Bool
  pub records : List DriftRecord

add_record : Option DriftRecord → ReadState → Result ReadState
add_record none s = failure malformed_line
add_record (some r) s = value (record s { records = s.records ++ r ∷ [] })

-- A line with no carriage return behind it.
unfoldable pub read_line : Text → ReadState → Result ReadState
unfolding add_record
read_line [] s = value s
read_line (c ∷ cs) s =
    if s.header_seen
    then add_record (parse_fields (split field_sep (c ∷ cs))) s
    else if text_eq (c ∷ cs) manifest_header
    then value (record s { header_seen = true })
    else failure missing_header

unfoldable pub read_lines : List Text → ReadState → Result ReadState
read_lines [] s = value s
read_lines (line ∷ lines) s = elim (read_line (strip_cr line) s) [
  | value s' ↦ read_lines lines s'
  | failure e ↦ failure e
]

abbrev pub start : ReadState
start = record { header_seen = false; records = [] }

unfoldable pub at_end : ReadState → Result (List DriftRecord)
at_end s = if s.header_seen then value s.records else failure missing_header

-- A text's lines are its pieces between the newlines, the last one included.
unfoldable pub parse_drift_report : Text → Result (List DriftRecord)
unfolding at_end
parse_drift_report text = elim (read_lines (split newline text) start) [
  | value s ↦ at_end s
  | failure e ↦ failure e
]
