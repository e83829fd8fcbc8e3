-- ===== src/Manifest/File/RoundTrip.antt =====
-- A manifest that is saved reads back.

use detour_mod_kit.Base.{
  ℕ, ◌≤◌, ◌≡◌, refl, ap, ◌∙◌, true, false, List, [], ◌∷◌, map, none, some, arith, ◌==◌, All,
  Bool-cases, inl, inr, length,
}
use detour_mod_kit.Text.{Text, codes}
use detour_mod_kit.Text.Decimal.{digits, emit}
use detour_mod_kit.Text.Unsigned.{from_chars_unsigned}
use detour_mod_kit.Errors.{value}
use detour_mod_kit.Manifest.{SignatureRecord, ManifestFile, schema_version}
use detour_mod_kit.Manifest.Numbers.{parse_unsigned}
use detour_mod_kit.Manifest.Numbers.RoundTrip.{parse_unsigned-digits}
use detour_mod_kit.Manifest.Entries.{field}
use detour_mod_kit.Manifest.File.{
  Ini, Block, after_prefix, parse_rung_section_name, section_of, has_section, revision_entries,
  manifest_blocks, revision_of, schema_of, has_parents, has_surplus, set_blocks, serialize,
  parse_store, parse_sections, parse,
}
use detour_mod_kit.Manifest.File.Store.{IniLaws, set_blocks-Holds, sections-set_blocks}
use detour_mod_kit.Manifest.File.Reading.{
  reserved_rungs, record_names, carried_record, InStore, Ready, parse_sections-records,
}
use detour_mod_kit.Manifest.File.Reserved.{
  reserved_records, reserved_blocks, RecordOk, ManifestOk, All-left, All-right, All-map,
  written-BlocksOk, written-reserved_blocks, set_blocks-written, names_of-reserved_records,
}
use detour_mod_kit.Manifest.File.Checks.{
  Presents, Fits, NoSurplus, records_present, ladders_fit, surplus_skip, surplus_records,
  NoSurplus-Distinct, parents_records,
}

-- What a file carries of a manifest.
abbrev pub carried : ManifestFile → ManifestFile
carried m = record {
  schema = schema_version;
  revision = m.revision;
  records = map carried_record m.records;
}

abbrev all_names : ManifestFile → List Text
all_names m = codes "manifest" ∷ record_names m.records

manifest_is_no_rung : parse_rung_section_name (codes "manifest") ≡ none
unfolding parse_rung_section_name
manifest_is_no_rung = refl

no_surplus :
    (m : ManifestFile)
    → ManifestOk m
    → (rs : List SignatureRecord) → All (λ r. All (NoSurplus r) m.records) rs
    → All (λ r. has_surplus (section_of r.label) (length r.ladder) (all_names m) ≡ false) rs
no_surplus m ok [] h = tt
no_surplus m ok (r ∷ rs) (h, hs) = (
  surplus_skip (section_of r.label) (length r.ladder) (codes "manifest") (record_names m.records)
        manifest_is_no_rung
      ∙ surplus_records r m.records ok.records h,
  no_surplus m ok rs hs,
)

All-Ready :
    (ini : Ini) (st : ini.Store) (names : List Text) (rs : List SignatureRecord)
    → All RecordOk rs
    → All (InStore ini st) (reserved_records rs)
    → All (Fits (length names)) rs
    → All (λ r. has_surplus (section_of r.label) (length r.ladder) names ≡ false) rs
    → All (Presents names) rs
    → All (Ready ini st names) rs
All-Ready ini st names [] o i f s p = tt
All-Ready ini st names (r ∷ rs) (o, os) (i, is) (f, fs) (s, ss) (p, ps) =
    let own = reserved_rungs (section_of r.label) 0 r.ladder in
    (
      record {
        section = o.section;
        ladder = o.ladder;
        label = o.label;
        small = o.small;
        fields = i;
        rungs = All-left _ own (reserved_records rs) is;
        fuel = f;
        no_surplus = s;
        present = p;
      },
      All-Ready ini st names rs os (All-right _ own (reserved_records rs) is) fs ss ps,
    )

revision_of-entries :
    (n : ℕ)
    → n ≤ 0xFFFFFFFF
    → revision_of
        (field (codes "revision") ((codes "schema", digits schema_version) ∷ revision_entries n))
      ≡ value n
unfolding field revision_of
revision_of-entries n h = elim (Bool-cases (n == 0)) [
  | inl e ↦ let q : n ≡ 0 = ground arith in rw q
  | inr e ↦ rw e (rw (parse_unsigned-digits n (omega arith)) (ground arith))
]

schema_of-entries :
    (n : ℕ)
    → schema_of
        (field (codes "schema") ((codes "schema", digits schema_version) ∷ revision_entries n))
      ≡ value schema_version
unfolding field schema_of emit from_chars_unsigned
schema_of-entries n = elim (Bool-cases (n == 0)) [
  | inl e ↦ rw e (unfold digits parse_unsigned in refl)
  | inr e ↦ rw e (unfold digits parse_unsigned in refl)
]

behind_manifest :
    (s : Text) (xs : List Text)
    → has_section xs s ≡ true
    → has_section (codes "manifest" ∷ xs) s ≡ true
unfolding has_section
behind_manifest s xs h = ground arith

parents_manifest :
    (names xs : List Text) → has_parents names (codes "manifest" ∷ xs) ≡ has_parents names xs
unfolding has_parents after_prefix
parents_manifest names xs = refl

sections_manifest :
    (ini : Ini) (st : ini.Store) (names xs : List Text)
    → parse_sections ini st names (codes "manifest" ∷ xs) ≡ parse_sections ini st names xs
unfolding parse_sections after_prefix
sections_manifest ini st names xs = refl

module _ (ini : Ini) (st : ini.Store) where
  store_steps :
      (schema revision : ℕ) (rs : List SignatureRecord)
      → schema_of (ini.get_value st (codes "manifest") (codes "schema")) ≡ value schema
      → revision_of (ini.get_value st (codes "manifest") (codes "revision")) ≡ value revision
      → has_parents (ini.sections st) (ini.sections st) ≡ true
      → parse_sections ini st (ini.sections st) (ini.sections st) ≡ value rs
      → parse_store ini st ≡ value (record { schema = schema; revision = revision; records = rs })
  unfolding parse_store
  store_steps schema revision rs a b c d = rw (a, b) (rw (c, d))

  pub parse_store-written :
      (m : ManifestFile)
      → ManifestOk m
      → All (InStore ini st) (reserved_blocks m)
      → ini.sections st ≡ all_names m
      → parse_store ini st ≡ value (carried m)
  parse_store-written m ok (i, is) names =
      let present =
        records_present (all_names m) m.records
          (λ s h. behind_manifest s (record_names m.records) h) in
      let fit = ladders_fit (length (all_names m)) m.records (omega arith) in
      let surplus = no_surplus m ok m.records (NoSurplus-Distinct m.records ok.distinct.1) in
      let ready = All-Ready ini st (all_names m) m.records ok.records is fit surplus present in
      store_steps schema_version m.revision (map carried_record m.records)
        (ap schema_of (i (codes "schema")) ∙ schema_of-entries m.revision)
        (ap revision_of (i (codes "revision")) ∙ revision_of-entries m.revision ok.revision)
        (rw names (
          parents_manifest (all_names m) (record_names m.records)
          ∙ parents_records (all_names m) m.records ok.records present))
        (rw names (
          sections_manifest ini st (all_names m) (record_names m.records)
          ∙ parse_sections-records ini st (all_names m) m.records ready))

nothing_set :
    (ini : Ini)
    → IniLaws ini
    → (bs : List Block) → All (λ b. (k : Text) → ini.get_value ini.empty b.0 k ≡ none) bs
nothing_set ini laws [] = tt
nothing_set ini laws (b ∷ bs) = (laws.get-empty b.0, nothing_set ini laws bs)

nothing_present :
    (xs : List Text) → xs ≡ [] → (bs : List Block) → All (λ b. has_section xs b.0 ≡ false) bs
unfolding has_section
nothing_present xs e [] = tt
nothing_present xs e (b ∷ bs) = (rw e, nothing_present xs e bs)

-- What is saved is loaded with the values of its blocks.
parse-loaded :
    (ini : Ini) (text : ini.FileText) (st : ini.Store) (m : ManifestFile)
    → ini.load text ≡ some st
    → parse_store ini st ≡ value m
    → parse ini text ≡ value m
unfolding parse
parse-loaded ini text st m l h = rw (l, parse) h

-- Over an INI library that holds plain names, keys and values as it documents, a manifest whose records
-- can be carried, whose labels are serializable, whose values the writer takes and are plain to the
-- format (none begins with `<<<`, has a line that begins with the end mark of a multi-line value, or begins
-- or ends with a newline), and whose section names differ in more than case, with those of the
-- rungs its ladders would go on with, is saved to a file that parses to the same revision and, in order,
-- the same records with their ladders: each field that the record's kind, its binding's kind or the rung's
-- mode uses, and the default for each that it does not.
pub parse-serialize_manifest :
    (ini : Ini)
    → IniLaws ini
    → (m : ManifestFile) → ManifestOk m
    → parse ini (serialize ini m) ≡ value (carried m)
unfolding serialize
parse-serialize_manifest ini laws m ok =
    let bs = reserved_blocks m in
    let e = written-reserved_blocks m in
    let kept = set_blocks-written ini bs ini.empty in
    let (st, l, g, n) =
      laws.load-save (manifest_blocks m) (rw e at (written-BlocksOk bs ok.blocks)) in
    let holds =
      set_blocks-Holds ini laws bs ini.empty ok.blocks ok.distinct (nothing_set ini laws bs) in
    let names : ini.sections (set_blocks ini bs ini.empty) ≡ all_names m =
      sections-set_blocks ini laws bs ini.empty ok.blocks ok.distinct
        (nothing_present (ini.sections ini.empty) laws.sections-empty bs)
      ∙ rw (laws.sections-empty, names_of-reserved_records m.records) in
    parse-loaded ini (ini.save (set_blocks ini (manifest_blocks m) ini.empty)) st (carried m) l (
      parse_store-written ini st m ok
        (All-map _ (λ b h k. g b.0 k ∙ rw (← e) (rw kept (h k))) bs holds)
        (n ∙ rw (← e) (rw kept names)))
