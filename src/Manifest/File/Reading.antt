-- ===== src/Manifest/File/Reading.antt =====
-- How the loops of parse read a store that holds the sections of a manifest.
use mathlib.Core.Path.{fun_ext}
use detour_mod_kit.Base.{
  ℕ, zero, suc, ◌+◌, ◌≤◌, ◌<◌, ◌≡◌, ◌≢◌, refl, ap, ◌∙◌, true, false, List, [], ◌∷◌, ◌++◌, map,
  Option, none, some, arith, All, length,
}
use detour_mod_kit.Text.{Text, codes}
use detour_mod_kit.Text.Unsigned.{unsigned_values}
use detour_mod_kit.Errors.{value}
use detour_mod_kit.Manifest.{CandidateSpec, SignatureRecord}
use detour_mod_kit.Manifest.Tokens.{scan_mode_token}
use detour_mod_kit.Manifest.Sections.{parse_rung, parse_record}
use detour_mod_kit.Manifest.Entries.{
  field, later, rung_entries, record_entries, mode_entries, unless_empty,
}
use detour_mod_kit.Manifest.Entries.Rungs.{RungOk, carried_rung, parse_rung-entries}
use detour_mod_kit.Manifest.Entries.Records.{SectionOk, carried_section}
use detour_mod_kit.Manifest.Entries.Records.Reading.{parse_record-entries}
use detour_mod_kit.Manifest.File.{
  Ini, Block, after_prefix, parse_rung_section_name, label_is_serializable, section_of, has_section,
  rung_section, has_surplus, read_rungs, parse_section, parse_sections,
}
use detour_mod_kit.Manifest.File.Names.{parse_rung_section_name-rung_section, label-no_rung}

-- The sections of a ladder and the one that it would go on with.
abbrev pub reserved_rungs : Text → ℕ → List CandidateSpec → List Block
reserved_rungs section i [] = (rung_section section i, []) ∷ []
reserved_rungs section i (s ∷ ss) =
    (rung_section section i, rung_entries s) ∷ reserved_rungs section (suc i) ss

abbrev pub rung_names : Text → ℕ → List CandidateSpec → List Text
rung_names section i [] = []
rung_names section i (s ∷ ss) = rung_section section i ∷ rung_names section (suc i) ss

abbrev pub record_names : List SignatureRecord → List Text
record_names [] = []
record_names (r ∷ rs) =
    section_of r.label ∷ (rung_names (section_of r.label) 0 r.ladder ++ record_names rs)

abbrev pub LadderOk : List CandidateSpec → Type 0
LadderOk = All (λ s. RungOk s.mode s)

abbrev pub carried_record : SignatureRecord → SignatureRecord
carried_record r = record (carried_section r) { ladder = map carried_rung r.ladder }

later-some : (o : Option Text) (v : Text) → (w : Text) × (later o (some v) ≡ some w)
later-some none v = (v, refl)
later-some (some w) v = (w, refl)

rung-mode : (s : CandidateSpec) → (v : Text) × (field (codes "mode") (rung_entries s) ≡ some v)
unfolding rung_entries field
rung-mode s =
    later-some (field (codes "mode") (unless_empty (codes "name") s.name ++ mode_entries s.mode s))
      (scan_mode_token s.mode)

module _ (ini : Ini) (st : ini.Store) where
  abbrev pub InStore : Block → Type 0
  InStore b = (k : Text) → ini.get_value st b.0 k ≡ field k b.1

  pub read_rungs-end :
      (f : ℕ) (section : Text) (i : ℕ)
      → ini.get_value st (rung_section section i) (codes "mode") ≡ none
      → read_rungs ini (suc f) st section i ≡ value ([], i)
  unfolding read_rungs
  read_rungs-end f section i h = rw (h, read_rungs)

  read_rungs-step :
      (f : ℕ) (section : Text) (i : ℕ) (v : Text) (s : CandidateSpec) (r : List CandidateSpec × ℕ)
      → ini.get_value st (rung_section section i) (codes "mode") ≡ some v
      → parse_rung (ini.get_value st (rung_section section i)) ≡ value s
      → read_rungs ini f st section (suc i) ≡ value r
      → read_rungs ini (suc f) st section i ≡ value (s ∷ r.0, r.1)
  unfolding read_rungs
  read_rungs-step f section i v s r h p q = rw (h, read_rungs) (rw (p, q))

  read_rungs-ladder :
      (f : ℕ) (section : Text) (i : ℕ) (ss : List CandidateSpec)
      → length ss < f
      → LadderOk ss
      → All InStore (reserved_rungs section i ss)
      → read_rungs ini f st section i ≡ value (map carried_rung ss, i + length ss)
  unfolding field
  read_rungs-ladder zero section i ss h l s = absurd (omega (arith, h))
  read_rungs-ladder (suc f) section i [] h l (s, _) =
      let e : i + 0 ≡ i = omega arith in rw e (read_rungs-end f section i (s (codes "mode")))
  read_rungs-ladder (suc f) section i (c ∷ cs) h (l, ls) (s, ss) =
      let (v, m) = rung-mode c in
      let e : i + suc (length cs) ≡ suc i + length cs = omega arith in
      rw e (
        read_rungs-step f section i v (carried_rung c) (map carried_rung cs, suc i + length cs)
          (s (codes "mode") ∙ m) (ap parse_rung (fun_ext s) ∙ parse_rung-entries c l)
          (read_rungs-ladder f section (suc i) cs (omega arith) ls ss))

  -- All that the reader of a record needs of the store and of the list of its sections.
  pub record Ready (names : List Text) (r : SignatureRecord) : Type 0 where
    pub section : SectionOk r
    pub ladder : LadderOk r.ladder
    pub label : label_is_serializable r.label ≡ true
    pub small : length r.ladder < unsigned_values
    pub fields : InStore (section_of r.label, record_entries r)
    pub rungs : All InStore (reserved_rungs (section_of r.label) 0 r.ladder)
    pub fuel : length r.ladder ≤ length names
    pub no_surplus : has_surplus (section_of r.label) (length r.ladder) names ≡ false
    pub present : has_section names (section_of r.label) ≡ true

  parse_section_step :
      (names : List Text) (name label : Text) (r : SignatureRecord) (ladder : List CandidateSpec)
      (n : ℕ)
      → label ≢ []
      → parse_record (ini.get_value st name) label ≡ value r
      → read_rungs ini (suc (length names)) st name 0 ≡ value (ladder, n)
      → has_surplus name n names ≡ false
      → parse_section ini st names name label ≡ value (record r { ladder = ladder })
  unfolding parse_section
  parse_section_step names name [] r ladder n e h l s = absurd (e refl)
  parse_section_step names name (c ∷ cs) r ladder n e h l s = rw (h, l) (rw s)

  label-ne-nil : (label : Text) → label_is_serializable label ≡ true → label ≢ []
  unfolding label_is_serializable
  label-ne-nil [] h e = cc
  label-ne-nil (c ∷ cs) h e = cc

  parse_section-record :
      (names : List Text) (r : SignatureRecord)
      → Ready names r
      → parse_section ini st names (section_of r.label) r.label ≡ value (carried_record r)
  parse_section-record names r k =
      let e : 0 + length r.ladder ≡ length r.ladder = omega arith in
      parse_section_step names (section_of r.label) r.label (carried_section r)
        (map carried_rung r.ladder) (length r.ladder) (label-ne-nil r.label k.label)
        (ap (λ get. parse_record get r.label) (fun_ext k.fields) ∙ parse_record-entries r k.section)
        (rw e at (
          read_rungs-ladder (suc (length names)) (section_of r.label) 0 r.ladder
            (omega (arith, k.fuel)) k.ladder k.rungs))
        k.no_surplus

  sections_rung :
      (names rest : List Text) (name label : Text) (p : Text × ℕ)
      → after_prefix (codes "sig.") name ≡ some label
      → parse_rung_section_name name ≡ some p
      → parse_sections ini st names (name ∷ rest) ≡ parse_sections ini st names rest
  unfolding parse_sections
  sections_rung names rest name label p a h = rw (a, parse_sections) (rw (h, parse_sections))

  sections_record :
      (names rest : List Text) (name label : Text) (r : SignatureRecord) (rs : List SignatureRecord)
      → after_prefix (codes "sig.") name ≡ some label
      → parse_rung_section_name name ≡ none
      → parse_section ini st names name label ≡ value r
      → parse_sections ini st names rest ≡ value rs
      → parse_sections ini st names (name ∷ rest) ≡ value (r ∷ rs)
  unfolding parse_sections
  sections_record names rest name label r rs a h p q =
      rw (a, parse_sections) (rw (h, parse_sections) (rw (p, q)))

  sections_rungs :
      (names rest : List Text) (label : Text) (i : ℕ) (ss : List CandidateSpec)
      → i + length ss < unsigned_values
      → parse_sections ini st names (rung_names (section_of label) i ss ++ rest)
        ≡ parse_sections ini st names rest
  unfolding section_of after_prefix
  sections_rungs names rest label i [] h = refl
  sections_rungs names rest label i (s ∷ ss) h =
      sections_rung names (rung_names (section_of label) (suc i) ss ++ rest)
        (rung_section (section_of label) i) _ (section_of label, i) refl
        (parse_rung_section_name-rung_section (section_of label) i (omega (arith, h)))
      ∙ sections_rungs names rest label (suc i) ss (omega (arith, h))

  pub parse_sections-records :
      (names : List Text) (rs : List SignatureRecord)
      → All (Ready names) rs
      → parse_sections ini st names (record_names rs) ≡ value (map carried_record rs)
  unfolding section_of after_prefix
  parse_sections-records names [] h = unfold parse_sections in refl
  parse_sections-records names (r ∷ rs) (k, ks) =
      sections_record names (rung_names (section_of r.label) 0 r.ladder ++ record_names rs)
        (section_of r.label) r.label (carried_record r) (map carried_record rs) refl
        (label-no_rung r.label k.label) (parse_section-record names r k)
        (sections_rungs names (record_names rs) r.label 0 r.ladder (omega (arith, k.small))
          ∙ parse_sections-records names rs ks)
