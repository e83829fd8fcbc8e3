-- ===== src/Tests/Drift.antt =====
-- A drift manifest of two entries.
use detour_mod_kit.Base.{◌≡◌, ◌↔◌, refl, true, false, List, [], ◌∷◌, arith, map}
use detour_mod_kit.Base.Int.{pos, negsuc}
use detour_mod_kit.Text.{Text, codes, has_char, split, text_eq}
use detour_mod_kit.Text.Decimal.{to_string, from_chars}
use detour_mod_kit.Errors.{ok, heal_no_match, missing_header, malformed_line}
use detour_mod_kit.Drift.{
  DriftEntry, serialize_drift_report, serialize_entries, serialize_entry, heal_error_token, value,
  failure, parse_drift_report, read_lines, read_line, strip_cr, parse_fields, parse_offset,
  parse_heal_error,
}
use detour_mod_kit.Drift.RoundTrip.{Printable, recorded, parse-serialize}
use detour_mod_kit.Drift.Accepts.{Report, parse_drift_report_iff}

abbrev moved : DriftEntry
moved = record {
  name = codes ".?AVPlayer@@";
  nominal_offset = pos 64;
  healed_offset = pos 56;
  delta = negsuc 7;
  healed = true;
  error = ok;
}

abbrev lost : DriftEntry
lost = record {
  name = codes ".?AVCamera@@";
  nominal_offset = pos 8;
  healed_offset = pos 0;
  delta = pos 0;
  healed = false;
  error = heal_no_match;
}

abbrev report : List DriftEntry
report = moved ∷ lost ∷ []

moved-Printable : Printable moved
unfolding has_char
moved-Printable = record {
  no_tab = refl;
  no_newline = refl;
  nominal_fits = omega arith;
  healed_fits = omega arith;
  delta_fits = omega arith;
}

lost-Printable : Printable lost
unfolding has_char
lost-Printable = record {
  no_tab = refl;
  no_newline = refl;
  nominal_fits = omega arith;
  healed_fits = omega arith;
  delta_fits = omega arith;
}

serialize-report :
    serialize_drift_report report
    ≡ codes
        "# DetourModKit drift manifest v1\n.?AVPlayer@@\t64\t56\t-8\t1\tOk\n.?AVCamera@@\t8\t0\t0\t0\tNoMatch\n"
unfolding serialize_drift_report serialize_entries serialize_entry heal_error_token to_string
serialize-report = refl

parse-refusals :
    (parse_drift_report (codes "\r\n\n") ≡ failure missing_header)
    × (parse_drift_report (codes "x\t1\t1\t0\t1\tOk\n") ≡ failure missing_header)
    × (parse_drift_report (codes "# DetourModKit drift manifest v1\nx\t1\t1\t0\tOk\n")
        ≡ failure malformed_line)
    × (parse_drift_report (codes "# DetourModKit drift manifest v1\nx\t1a\t1\t0\t1\tOk\n")
        ≡ failure malformed_line)
unfolding parse_drift_report split read_lines read_line strip_cr parse_fields parse_offset
    parse_heal_error text_eq from_chars
parse-refusals = (refl, refl, refl, refl)

parse-serialize_example :
    parse_drift_report (serialize_drift_report report) ≡ value (map recorded report)
parse-serialize_example = parse-serialize report (moved-Printable, (lost-Printable, tt))

parse_drift_report_iff_example :
    (parse_drift_report (serialize_drift_report report) ≡ value (map recorded report))
    ↔ Report (serialize_drift_report report) (map recorded report)
parse_drift_report_iff_example =
    parse_drift_report_iff (serialize_drift_report report) (map recorded report)

abbrev short_text : Text
short_text = codes "# DetourModKit drift manifest v1\n\nx\t1\t1\t0\t1\tOk\n"
