-- ===== src/Manifest/Entries/Rungs.antt =====
-- A rung that is written reads back.
use detour_mod_kit.Base.{zero, suc, ◌<◌, ◌≡◌, refl, true, [], ◌∷◌, ◌++◌}
use detour_mod_kit.Base.Int.{ℤ, pos, negsuc}
use detour_mod_kit.Text.{Text, codes}
use detour_mod_kit.Text.Decimal.{InRange}
use detour_mod_kit.Text.Unsigned.{unsigned_values}
use detour_mod_kit.Errors.{value}
use detour_mod_kit.Manifest.Numbers.RoundTrip.{parse_signed-hex, parse_unsigned-digits}
use detour_mod_kit.Manifest.Tokens.{scan_mode_token, parse_scan_mode}
use detour_mod_kit.Manifest.Tokens.RoundTrip.{
  parse_encoding-encoding_token, parse_xref_return-xref_return_token, parse_bool-bool_token,
}
use detour_mod_kit.Manifest.{
  Mode, direct, rip_relative, rtti_vtable, CandidateSpec, default_candidate,
}
use detour_mod_kit.Manifest.Sections.{
  is_decodable, pattern_fields, rip_relative_gate, string_fields, parse_rung,
}
use detour_mod_kit.Manifest.Entries.{Fields, field, unless_empty, mode_entries, rung_entries}

-- What a file carries of a rung: the fields of its mode.
abbrev pub carried_mode : Mode → CandidateSpec → CandidateSpec
carried_mode direct s = record default_candidate {
  name = s.name;
  mode = s.mode;
  pattern = s.pattern;
  walk_back = s.walk_back;
}
carried_mode rip_relative s = record default_candidate {
  name = s.name;
  mode = s.mode;
  pattern = s.pattern;
  displacement_at = s.displacement_at;
  instruction_length = s.instruction_length;
}
carried_mode rtti_vtable s = record default_candidate {
  name = s.name;
  mode = s.mode;
  mangled = s.mangled;
}
carried_mode Mode.string_xref s = record default_candidate {
  name = s.name;
  mode = s.mode;
  string_text = s.string_text;
  string_encoding = s.string_encoding;
  string_return = s.string_return;
  string_require_terminator = s.string_require_terminator;
  string_broad_match = s.string_broad_match;
}

abbrev pub carried_rung : CandidateSpec → CandidateSpec
carried_rung s = carried_mode s.mode s

-- The numbers fit their types, and a RIP-relative rung can be decoded.
abbrev pub RungOk : Mode → CandidateSpec → Type 0
RungOk direct s = InRange s.walk_back
RungOk rip_relative s =
    InRange s.displacement_at
    × (s.instruction_length < unsigned_values)
    × (is_decodable s.displacement_at s.instruction_length ≡ true)
RungOk _ s = Unit {0}

abbrev entries : Text → Mode → CandidateSpec → Fields
entries n m s =
    (codes "mode", scan_mode_token m) ∷ (unless_empty (codes "name") n ++ mode_entries m s)

abbrev Reads : Text → Mode → CandidateSpec → Type 0
Reads n m s =
    parse_rung (λ k. field k (entries n m s))
    ≡ value (carried_mode m (record s { name = n; mode = m }))

rtti-Reads : (n : Text) (s : CandidateSpec) → Reads n rtti_vtable s
unfolding parse_rung mode_entries field scan_mode_token parse_scan_mode
rtti-Reads [] s = refl
rtti-Reads (c ∷ cs) s = refl

string-Reads : (n : Text) (s : CandidateSpec) → Reads n Mode.string_xref s
unfolding parse_rung mode_entries field scan_mode_token parse_scan_mode string_fields
string-Reads [] s = rw (
  parse_encoding-encoding_token s.string_encoding,
  parse_xref_return-xref_return_token s.string_return,
  parse_bool-bool_token s.string_require_terminator,
  parse_bool-bool_token s.string_broad_match,
)
string-Reads (c ∷ cs) s = rw (
  parse_encoding-encoding_token s.string_encoding,
  parse_xref_return-xref_return_token s.string_return,
  parse_bool-bool_token s.string_require_terminator,
  parse_bool-bool_token s.string_broad_match,
)

direct-Reads :
    (n : Text) (w : ℤ) (s : CandidateSpec) → InRange w → Reads n direct (record s { walk_back = w })
unfolding parse_rung mode_entries field scan_mode_token parse_scan_mode pattern_fields
direct-Reads [] (pos zero) s h = refl
direct-Reads [] (pos (suc w)) s h = rw (parse_signed-hex (pos (suc w)) h)
direct-Reads [] (negsuc w) s h = rw (parse_signed-hex (negsuc w) h)
direct-Reads (c ∷ cs) (pos zero) s h = refl
direct-Reads (c ∷ cs) (pos (suc w)) s h = rw (parse_signed-hex (pos (suc w)) h)
direct-Reads (c ∷ cs) (negsuc w) s h = rw (parse_signed-hex (negsuc w) h)

relative-Reads : (n : Text) (s : CandidateSpec) → RungOk rip_relative s → Reads n rip_relative s
unfolding parse_rung mode_entries field scan_mode_token parse_scan_mode pattern_fields
    rip_relative_gate
relative-Reads [] s h =
    rw (parse_signed-hex s.displacement_at h.0, parse_unsigned-digits s.instruction_length h.1, h.2)
relative-Reads (c ∷ cs) s h =
    rw (parse_signed-hex s.displacement_at h.0, parse_unsigned-digits s.instruction_length h.1, h.2)

mode-Reads : (n : Text) (m : Mode) (s : CandidateSpec) → RungOk m s → Reads n m s
mode-Reads n direct s h = direct-Reads n s.walk_back s h
mode-Reads n rip_relative s h = relative-Reads n s h
mode-Reads n rtti_vtable s h = rtti-Reads n s
mode-Reads n Mode.string_xref s h = string-Reads n s

pub parse_rung-entries :
    (s : CandidateSpec)
    → RungOk s.mode s
    → parse_rung (λ k. field k (rung_entries s)) ≡ value (carried_rung s)
unfolding rung_entries
parse_rung-entries s h = mode-Reads s.name s.mode s h
