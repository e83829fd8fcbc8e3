-- ===== src/Manifest/File/Reserved.antt =====
-- What is asked of a manifest so that it reads back, and what its blocks come to.

use detour_mod_kit.Base.{ℕ, suc, ◌≤◌, ◌<◌, ◌≡◌, refl, true, List, [], ◌∷◌, ◌++◌, All, length}
use detour_mod_kit.Text.{Text, codes}
use detour_mod_kit.Text.Decimal.{digits}
use detour_mod_kit.Text.Unsigned.{unsigned_values}
use detour_mod_kit.Manifest.{CandidateSpec, SignatureRecord, ManifestFile, schema_version}
use detour_mod_kit.Manifest.Entries.{rung_entries, record_entries}
use detour_mod_kit.Manifest.Entries.Records.{SectionOk}
use detour_mod_kit.Manifest.File.{
  Ini, Block, label_is_serializable, section_of, rung_blocks, record_blocks, revision_entries,
  manifest_blocks, set_fields, set_blocks,
}
use detour_mod_kit.Manifest.File.Format.{BlocksOk}
use detour_mod_kit.Manifest.File.Store.{Distinct, names_of}
use detour_mod_kit.Manifest.File.Reading.{reserved_rungs, rung_names, record_names, LadderOk}

abbrev pub reserved_records : List SignatureRecord → List Block
reserved_records [] = []
reserved_records (r ∷ rs) =
    (section_of r.label, record_entries r)
    ∷ (reserved_rungs (section_of r.label) 0 r.ladder ++ reserved_records rs)

-- The sections of a manifest, with those that its ladders would go on with.
abbrev pub reserved_blocks : ManifestFile → List Block
reserved_blocks m =
    (codes "manifest", (codes "schema", digits schema_version) ∷ revision_entries m.revision)
    ∷ reserved_records m.records

pub record RecordOk (r : SignatureRecord) : Type 0 where
  pub section : SectionOk r
  pub ladder : LadderOk r.ladder
  pub label : label_is_serializable r.label ≡ true
  pub small : length r.ladder < unsigned_values

-- Every record can be carried, every name, key and value is one that the format holds as it stands, and no two sections have the
-- same name but for case.
pub record ManifestOk (m : ManifestFile) : Type 0 where
  pub records : All RecordOk m.records
  pub revision : m.revision ≤ 0xFFFFFFFF
  pub blocks : BlocksOk (reserved_blocks m)
  pub distinct : Distinct (reserved_blocks m)

module _ {A : Type 0} (P : A → Type 0) where
  pub All-left : (xs ys : List A) → All P (xs ++ ys) → All P xs
  All-left [] ys h = tt
  All-left (x ∷ xs) ys (h, t) = (h, All-left xs ys t)

  pub All-right : (xs ys : List A) → All P (xs ++ ys) → All P ys
  All-right [] ys h = h
  All-right (x ∷ xs) ys (h, t) = All-right xs ys t

  pub All-map : {Q : A → Type 0} (f : (a : A) → P a → Q a) (xs : List A) → All P xs → All Q xs
  All-map f [] h = tt
  All-map f (x ∷ xs) (h, t) = (f x h, All-map f xs t)

pub Distinct-right : (xs ys : List Block) → Distinct (xs ++ ys) → Distinct ys
Distinct-right [] ys d = d
Distinct-right (x ∷ xs) ys (f, d) = Distinct-right xs ys d

-- The blocks that hold something are those that are written.
pub written : List Block → List Block
written [] = []
written ((s, []) ∷ bs) = written bs
written ((s, f ∷ fs) ∷ bs) = (s, f ∷ fs) ∷ written bs

written-append : (xs ys : List Block) → written (xs ++ ys) ≡ written xs ++ written ys
unfolding written
written-append [] ys = refl
written-append ((s, []) ∷ xs) ys = written-append xs ys
written-append ((s, f ∷ fs) ∷ xs) ys = rw (written-append xs ys)

pub written-BlocksOk : (bs : List Block) → BlocksOk bs → BlocksOk (written bs)
unfolding written
written-BlocksOk [] h = tt
written-BlocksOk ((s, []) ∷ bs) (h, t) = written-BlocksOk bs t
written-BlocksOk ((s, f ∷ fs) ∷ bs) (h, t) = (h, written-BlocksOk bs t)

written-reserved_rungs :
    (section : Text) (i : ℕ) (ss : List CandidateSpec)
    → written (reserved_rungs section i ss) ≡ rung_blocks section i ss
unfolding written rung_blocks rung_entries
written-reserved_rungs section i [] = refl
written-reserved_rungs section i (s ∷ ss) = rw (written-reserved_rungs section (suc i) ss)

written-reserved_records :
    (rs : List SignatureRecord) → written (reserved_records rs) ≡ record_blocks rs
unfolding written record_blocks record_entries
written-reserved_records [] = refl
written-reserved_records (r ∷ rs) = rw (
  written-append (reserved_rungs (section_of r.label) 0 r.ladder) (reserved_records rs),
  written-reserved_rungs (section_of r.label) 0 r.ladder,
  written-reserved_records rs,
)

pub written-reserved_blocks : (m : ManifestFile) → written (reserved_blocks m) ≡ manifest_blocks m
unfolding written manifest_blocks
written-reserved_blocks m = rw (written-reserved_records m.records)

pub set_blocks-written :
    (ini : Ini) (bs : List Block) (st : ini.Store)
    → set_blocks ini (written bs) st ≡ set_blocks ini bs st
unfolding written set_blocks set_fields
set_blocks-written ini [] st = refl
set_blocks-written ini ((s, []) ∷ bs) st = set_blocks-written ini bs st
set_blocks-written ini ((s, f ∷ fs) ∷ bs) st =
    set_blocks-written ini bs (set_fields ini s (f ∷ fs) st)

names_of-append : (xs ys : List Block) → names_of (xs ++ ys) ≡ names_of xs ++ names_of ys
names_of-append [] ys = refl
names_of-append ((s, []) ∷ xs) ys = names_of-append xs ys
names_of-append ((s, f ∷ fs) ∷ xs) ys = rw (names_of-append xs ys)

names_of-reserved_rungs :
    (section : Text) (i : ℕ) (ss : List CandidateSpec)
    → names_of (reserved_rungs section i ss) ≡ rung_names section i ss
unfolding rung_entries
names_of-reserved_rungs section i [] = refl
names_of-reserved_rungs section i (s ∷ ss) = rw (names_of-reserved_rungs section (suc i) ss)

pub names_of-reserved_records :
    (rs : List SignatureRecord) → names_of (reserved_records rs) ≡ record_names rs
unfolding record_entries
names_of-reserved_records [] = refl
names_of-reserved_records (r ∷ rs) = rw (
  names_of-append (reserved_rungs (section_of r.label) 0 r.ladder) (reserved_records rs),
  names_of-reserved_rungs (section_of r.label) 0 r.ladder,
  names_of-reserved_records rs,
)
