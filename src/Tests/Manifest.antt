-- ===== src/Tests/Manifest.antt =====
-- A manifest of two records, one with a ladder of two rungs, over an INI library that keeps its values in a
-- function and saves a store as it is.
use detour_mod_kit.Base.{
  suc, length, ◌≡◌, refl, Bool, ◌||◌, true, false, ◌&&◌, List, [], ◌∷◌, ◌++◌, Option, none, some,
  arith, if◌then◌else◌,
}
use detour_mod_kit.Base.Int.{pos, negsuc}
use detour_mod_kit.Text.{Text, codes, split}
use detour_mod_kit.Text.Decimal.{digits, emit}
use detour_mod_kit.Text.Unsigned.{
  hex_digits, emit_hex, hex_char, from_chars_unsigned, from_chars_hex, magnitude_hex,
}
use detour_mod_kit.Memory.Rip.{is_valid_rip_relative_layout}
use detour_mod_kit.Manifest.Sections.{is_decodable}
use detour_mod_kit.Manifest.Tokens.{
  anchor_kind_token, binding_kind_to_string, scan_mode_token, pages_token,
}
use detour_mod_kit.Errors.{value}
use detour_mod_kit.Manifest.{
  pointer_chain, vmt_method, rip_relative, rip_global, manual, default_binding, default_candidate,
  default_record, CandidateSpec, SignatureRecord, ManifestFile,
}
use detour_mod_kit.Manifest.Entries.{
  same, rung_entries, record_entries, kind_entries, binding_entries, mode_entries, offsets_text,
}
use detour_mod_kit.Manifest.Numbers.{parse_signed, parse_bool, format_signed_hex, to_lower}
use detour_mod_kit.Manifest.File.{
  Ini, has_section, read_rungs, set_blocks, serialize, parse, label_is_serializable,
  value_is_unserializable, section_of, back, any_char,
}
use detour_mod_kit.Manifest.File.Store.{IniLaws}
use detour_mod_kit.Manifest.File.Reserved.{ManifestOk, RecordOk}
use detour_mod_kit.Manifest.File.Ladder.{Ladder, read_rungs-Ladder}
use detour_mod_kit.Manifest.File.RoundTrip.{parse-serialize_manifest}

record MemoryStore : Type 0 where
  values : Text → Text → Option Text
  names : List Text

abbrev memory_ini : Ini
memory_ini = record {
  Store = MemoryStore;
  FileText = MemoryStore;
  empty = record { values = λ s k. none; names = [] };
  set_value = λ s k v st. record {
    values = λ t j. if same s t && same k j then some v else st.values t j;
    names = if has_section st.names s then st.names else st.names ++ s ∷ [];
  };
  get_value = λ st s k. st.values s k;
  sections = λ st. st.names;
  save = λ st. st;
  load = λ st. some st;
}

memory_ini-laws : IniLaws memory_ini
memory_ini-laws = record {
  get-empty = λ s k. refl;
  sections-empty = refl;
  get-set = λ s k v st t j n q h. refl;
  sections-set = λ s k v st n. refl;
  load-save = λ bs h. (set_blocks memory_ini bs memory_ini.empty, refl, (λ s k. refl), refl);
}

abbrev first_rung : CandidateSpec
first_rung = record default_candidate {
  mode = rip_relative;
  pattern = codes "48 8B 05 ?? ?? ?? ??";
  displacement_at = pos 3;
  instruction_length = 7;
}

abbrev second_rung : CandidateSpec
second_rung = record default_candidate {
  name = codes "old";
  pattern = codes "48 89";
  walk_back = negsuc 3;
}

abbrev player : SignatureRecord
player = record default_record {
  label = codes "player.hp";
  kind = rip_global;
  ladder = first_rung ∷ second_rung ∷ [];
  binding = record default_binding {
    kind = pointer_chain;
    offsets = pos 16 ∷ negsuc 7 ∷ [];
    value_width = 4;
  };
  expected_fingerprint = 0xABCDEF;
}

abbrev speed : SignatureRecord
speed = record default_record {
  label = codes "speed";
  kind = manual;
  manual_value = negsuc 41;
  binding = record default_binding { kind = vmt_method; vmt_index = 12 };
}

abbrev two_records : ManifestFile
two_records = record { schema = 1; revision = 3; records = player ∷ speed ∷ [] }

player-ok : RecordOk player
unfolding label_is_serializable is_decodable is_valid_rip_relative_layout
player-ok = record {
  section = record {
    binding = ((omega arith, (omega arith, tt)), omega arith);
    fingerprint = omega arith;
    kind = λ e. cc;
  };
  ladder = ((omega arith, omega arith, refl), (omega arith, tt));
  label = refl;
  small = omega arith;
}

speed-ok : RecordOk speed
unfolding label_is_serializable
speed-ok = record {
  section = record { binding = omega arith; fingerprint = omega arith; kind = omega arith };
  ladder = tt;
  label = refl;
  small = omega arith;
}

two_records-ok : ManifestOk two_records
unfolding value_is_unserializable section_of record_entries rung_entries same digits emit hex_digits
    emit_hex hex_char kind_entries binding_entries mode_entries offsets_text format_signed_hex
    anchor_kind_token binding_kind_to_string scan_mode_token pages_token back any_char to_lower
    split
two_records-ok = record {
  records = (player-ok, (speed-ok, tt));
  revision = omega arith;
  blocks = search;
  distinct = search;
}

parse-serialize_manifest_example :
    parse memory_ini (serialize memory_ini two_records) ≡ value two_records
parse-serialize_manifest_example =
    parse-serialize_manifest memory_ini memory_ini-laws two_records two_records-ok

signed_limits :
    (parse_signed (codes " -0x8000000000000000 ") ≡ some (negsuc 0x7FFFFFFFFFFFFFFF))
    × (parse_signed (codes "0x1G") ≡ none)
    × (parse_signed (codes "9223372036854775808") ≡ none)
unfolding parse_signed from_chars_unsigned from_chars_hex magnitude_hex
signed_limits = (refl, refl, refl)

yes_is_true : parse_bool (codes "Yes") ≡ some true
unfolding parse_bool
yes_is_true = refl

-- A heredoc that would end early is refused, a bare terminator is not.
heredoc :
    (value_is_unserializable (codes "END_OF_TEXT ") ≡ true)
    × (value_is_unserializable (codes "END_OF_TEXT") ≡ false)
unfolding value_is_unserializable
heredoc = (refl, refl)

-- The rung test of a label heeds case, which the INI library does not.
rung_in_capitals :
    (label_is_serializable (codes "a.RUNG.0") ≡ true)
    × (same (section_of (codes "a.RUNG.0")) (codes "sig.a.rung.0") ≡ true)
unfolding label_is_serializable same section_of
rung_in_capitals = (refl, refl)

abbrev rung_0 : Text
rung_0 = codes "sig.a.rung.0"

abbrev rung_1 : Text
rung_1 = codes "sig.a.rung.1"

-- One rung, and a second one that does not parse.
abbrev rungs : MemoryStore
rungs = record {
  values = λ s k.
      if same rung_0 s && same (codes "mode") k
      then some (codes "Direct")
      else if same rung_0 s && same (codes "pattern") k
      then some (codes "48")
      else if same rung_1 s && same (codes "mode") k
      then some (codes "sideways")
      else none;
  names = rung_0 ∷ rung_1 ∷ [];
}

two_listed :
    (a b c d e : Bool) (x y z v : Text)
    → (if a && c then some x else if a && d then some y else if b && e then some z else none)
      ≡ some v
    → (a || (b || false)) ≡ true
two_listed a b c d e x y z v h = ground arith

rungs-listed :
    (s k v : Text)
    → memory_ini.get_value rungs s k ≡ some v
    → has_section (memory_ini.sections rungs) s ≡ true
unfolding has_section
rungs-listed s k v h =
    two_listed (same rung_0 s) (same rung_1 s) (same (codes "mode") k) (same (codes "pattern") k)
      (same (codes "mode") k) _ _ _ v h

read_rungs-Ladder_example :
    Ladder memory_ini rungs
      (codes "sig.a")
      0
      (read_rungs memory_ini (suc (length (memory_ini.sections rungs))) rungs (codes "sig.a") 0)
read_rungs-Ladder_example =
    read_rungs-Ladder memory_ini rungs (codes "sig.a") rungs-listed (omega arith)
