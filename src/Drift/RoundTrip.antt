-- ===== src/Drift/RoundTrip.antt =====
-- A report that is written is read back.
use detour_mod_kit.Base.{
  ℕ, ◌<◌, ◌≡◌, refl, ap, ◌∙◌, Bool, true, false, List, [], ◌∷◌, ◌++◌, some, arith, ◌==◌,
  if◌then◌else◌, All, map, append-nil, append_assoc,
}
use detour_mod_kit.Base.Int.{ℤ}
use detour_mod_kit.Text.{Text, text_eq, split, has_char, split-append, split-none, has_char-append}
use detour_mod_kit.Text.Decimal.{InRange, to_string}
use detour_mod_kit.Text.Decimal.RoundTrip.{from_chars-to_string, has_char-to_string}
use detour_mod_kit.Errors.{ErrorCode, ok, bad_descriptor, heal_no_match, heal_ambiguous}
use detour_mod_kit.Drift.{
  manifest_header, newline, carriage_return, field_sep, DriftEntry, DriftRecord, heal_error_token,
  parse_heal_error, spans, parse_offset, serialize_entry, serialize_entries, serialize_drift_report,
  strip_cr, parse_healed, parse_fields, value, ReadState, add_record, read_line, read_lines, start,
  parse_drift_report,
}

-- The code that an entry's error is written as.
abbrev pub written : ErrorCode → ErrorCode
written ok = ok
written heal_no_match = heal_no_match
written heal_ambiguous = heal_ambiguous
written _ = bad_descriptor

abbrev pub recorded : DriftEntry → DriftRecord
recorded e = record {
  name = e.name;
  nominal_offset = e.nominal_offset;
  healed_offset = e.healed_offset;
  delta = e.delta;
  healed = e.healed;
  error = written e.error;
}

-- A name without tab and newline, and offsets that the machine type holds.
pub record Printable (e : DriftEntry) : Type 0 where
  pub no_tab : has_char field_sep e.name ≡ false
  pub no_newline : has_char newline e.name ≡ false
  pub nominal_fits : InRange e.nominal_offset
  pub healed_fits : InRange e.healed_offset
  pub delta_fits : InRange e.delta

parse_heal_error-token : (c : ErrorCode) → parse_heal_error (heal_error_token c) ≡ some (written c)
unfolding parse_heal_error heal_error_token text_eq
parse_heal_error-token ok = refl
parse_heal_error-token _ = refl

heal_error_token-lacks :
    (c : ErrorCode) (x : ℕ) → x < b' ' → has_char x (heal_error_token c) ≡ false
unfolding heal_error_token has_char
heal_error_token-lacks ok x h = ground arith
heal_error_token-lacks _ x h = ground arith

parse_offset-to_string : (z : ℤ) → InRange z → parse_offset (to_string z) ≡ some z
unfolding parse_offset spans
parse_offset-to_string z h = rw (from_chars-to_string z h)

parse_healed-flag : (b : Bool) → parse_healed ((if b then b'1' else b'0') ∷ []) ≡ some b
unfolding parse_healed text_eq
parse_healed-flag true = refl
parse_healed-flag false = refl

-- The text behind an entry's name.
abbrev tail_of : DriftEntry → Text
tail_of e =
    to_string e.nominal_offset
    ++ field_sep
      ∷ (to_string e.healed_offset
          ++ field_sep
            ∷ (to_string e.delta
                ++ field_sep
                  ∷ ((if e.healed then b'1' else b'0') ∷ field_sep ∷ heal_error_token e.error)))

flag-lacks : (b : Bool) (x : ℕ) → x < b' ' → ((if b then b'1' else b'0') == x) ≡ false
flag-lacks true x h = ground arith
flag-lacks false x h = ground arith

-- Control characters other than the tab.
tail_of-lacks :
    (e : DriftEntry) (x : ℕ)
    → Printable e
    → x < b' '
    → (field_sep == x) ≡ false
    → has_char x (tail_of e) ≡ false
unfolding has_char
tail_of-lacks e x p h t =
    let low : x < b'-' = omega arith in
    rw (has_char-append x (to_string e.nominal_offset)) (
      rw (t, has_char-to_string x e.nominal_offset p.nominal_fits low)
        (rw (has_char-append x (to_string e.healed_offset)) (
          rw (t, has_char-to_string x e.healed_offset p.healed_fits low)
            (rw (has_char-append x (to_string e.delta)) (
              rw (t, has_char-to_string x e.delta p.delta_fits low, flag-lacks e.healed x h)
                (heal_error_token-lacks e.error x h))))))

split-serialize_entry :
    (e : DriftEntry)
    → Printable e
    → split field_sep (serialize_entry e)
      ≡ e.name
        ∷ to_string e.nominal_offset
        ∷ to_string e.healed_offset
        ∷ to_string e.delta
        ∷ ((if e.healed then b'1' else b'0') ∷ [])
        ∷ heal_error_token e.error
        ∷ []
unfolding serialize_entry
split-serialize_entry e p = rw (split-append 9 e.name _ p.no_tab) (
    rw
      (split-append 9 (to_string e.nominal_offset) _
        (has_char-to_string 9 e.nominal_offset p.nominal_fits (omega arith)))
      (rw
        (split-append 9 (to_string e.healed_offset) _
          (has_char-to_string 9 e.healed_offset p.healed_fits (omega arith)))
        (rw
          (split-append 9 (to_string e.delta) _
            (has_char-to_string 9 e.delta p.delta_fits (omega arith)))
          (rw
            (split-append 9 ((if e.healed then b'1' else b'0') ∷ []) (heal_error_token e.error)
              (unfold has_char in rw (flag-lacks e.healed 9 (omega arith))))
            (rw (
              split-none 9 (heal_error_token e.error)
                (heal_error_token-lacks e.error 9 (omega arith))))))))

parse_fields-serialize_entry :
    (e : DriftEntry)
    → Printable e
    → parse_fields (split field_sep (serialize_entry e)) ≡ some (recorded e)
unfolding parse_fields
parse_fields-serialize_entry e p = rw (split-serialize_entry e p) (
    rw (
      parse_offset-to_string e.nominal_offset p.nominal_fits,
      parse_offset-to_string e.healed_offset p.healed_fits,
      parse_offset-to_string e.delta p.delta_fits,
      parse_healed-flag e.healed,
      parse_heal_error-token e.error,
    ))

pub strip_cr-append : (s : Text) (c : ℕ) (t : Text) → strip_cr (s ++ c ∷ t) ≡ s ++ strip_cr (c ∷ t)
unfolding strip_cr
strip_cr-append [] c t = refl
strip_cr-append (d ∷ []) c t = refl
strip_cr-append (d ∷ d' ∷ s) c t = ap (◌∷◌ d) (strip_cr-append (d' ∷ s) c t)

pub strip_cr-none : (s : Text) → has_char carriage_return s ≡ false → strip_cr s ≡ s
unfolding strip_cr has_char
strip_cr-none [] h = refl
strip_cr-none (c ∷ []) h = ground arith
strip_cr-none (c ∷ d ∷ s) h = ap (◌∷◌ c) (strip_cr-none (d ∷ s) (ground arith))

-- A carriage return in a name stays: the line ends in the token.
strip_cr-serialize_entry :
    (e : DriftEntry) → Printable e → strip_cr (serialize_entry e) ≡ serialize_entry e
unfolding serialize_entry
strip_cr-serialize_entry e p =
    strip_cr-append e.name field_sep (tail_of e)
    ∙ ap (◌++◌ e.name) (
        strip_cr-none (field_sep ∷ tail_of e)
          (unfold has_char in tail_of-lacks e carriage_return p (omega arith) refl))

read_line-joined :
    (s : Text) (c : ℕ) (t : Text) (st : ReadState)
    → st.header_seen ≡ true
    → read_line (s ++ c ∷ t) st ≡ add_record (parse_fields (split field_sep (s ++ c ∷ t))) st
unfolding read_line
read_line-joined [] c t st h = rw h
read_line-joined (d ∷ s) c t st h = rw h

read_line-serialize_entry :
    (e : DriftEntry) (rs : List DriftRecord)
    → Printable e
    → read_line (strip_cr (serialize_entry e)) (record { header_seen = true; records = rs })
      ≡ value (record { header_seen = true; records = rs ++ recorded e ∷ [] })
unfolding add_record
read_line-serialize_entry e rs p =
    let st : ReadState = record { header_seen = true; records = rs } in
    let joined : read_line (serialize_entry e) st
        ≡ add_record (parse_fields (split field_sep (serialize_entry e))) st =
      unfold serialize_entry in read_line-joined e.name field_sep (tail_of e) st refl in
    rw (strip_cr-serialize_entry e p)
      (joined ∙ ap (λ o. add_record o st) (parse_fields-serialize_entry e p))

serialize_entry-no_newline :
    (e : DriftEntry) → Printable e → has_char newline (serialize_entry e) ≡ false
unfolding serialize_entry has_char
serialize_entry-no_newline e p =
    rw (has_char-append newline e.name)
      (rw p.no_newline (tail_of-lacks e newline p (omega arith) refl))

read_lines-serialize_entries :
    (es : List DriftEntry) (rs : List DriftRecord)
    → All Printable es
    → read_lines
        (split newline (serialize_entries es))
        (record { header_seen = true; records = rs })
      ≡ value (record { header_seen = true; records = rs ++ map recorded es })
unfolding read_lines serialize_entries split read_line strip_cr
read_lines-serialize_entries [] rs p = rw (append-nil rs)
read_lines-serialize_entries (e ∷ es) rs (p, ps) =
    rw
      (split-append newline (serialize_entry e) (serialize_entries es)
        (serialize_entry-no_newline e p))
      (rw (read_line-serialize_entry e rs p, read_lines)
        (read_lines-serialize_entries es (rs ++ recorded e ∷ []) ps
          ∙ ap (λ r. value (record { header_seen = true; records = r }))
              (append_assoc rs (recorded e ∷ []) (map recorded es))))

header_read :
    (lines : List Text)
    → read_lines (manifest_header ∷ lines) start
      ≡ read_lines lines (record { header_seen = true; records = [] })
unfolding read_lines read_line strip_cr text_eq
header_read lines = refl

-- A report whose names have no tab and no newline, and whose offsets fit the machine type, is read
-- back entry by entry, in order; each with its own error where that is `Ok` or a heal code, and with
-- `BadDescriptor` where it is another.
pub parse-serialize :
    (es : List DriftEntry)
    → All Printable es
    → parse_drift_report (serialize_drift_report es) ≡ value (map recorded es)
unfolding parse_drift_report serialize_drift_report
parse-serialize es p =
    let lines =
      split-append newline manifest_header (serialize_entries es) (unfold has_char in refl) in
    let read =
      ap (λ ls. read_lines ls start) lines
      ∙ header_read (split newline (serialize_entries es))
      ∙ read_lines-serialize_entries es [] p in
    rw (read, parse_drift_report)
