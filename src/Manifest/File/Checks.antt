-- ===== src/Manifest/File/Checks.antt =====
-- The checks of parse pass on a list of names that is known to hold the names of these records.

use detour_mod_kit.Base.{
  ℕ, suc, ◌+◌, ◌≤◌, ◌<◌, lt→ltb, ◌≡◌, refl, ◌∙◌, true, false, ◌&&◌, ◌||◌, List, [], ◌∷◌, ◌++◌, none,
  some, arith, leb, All, inl, inr, ◌⊎◌, length, length-append,
}
use detour_mod_kit.Text.{Text, codes, text_eq}
use detour_mod_kit.Text.Unsigned.{unsigned_values}
use detour_mod_kit.Manifest.{CandidateSpec, SignatureRecord}
use detour_mod_kit.Manifest.Entries.{same}
use detour_mod_kit.Manifest.File.{
  after_prefix, parse_rung_section_name, label_is_serializable, section_of, has_section,
  rung_section, has_parents, has_surplus,
}
use detour_mod_kit.Manifest.File.Names.{
  parse_rung_section_name-rung_section, label-no_rung, same_refl, text_eq-same,
}
use detour_mod_kit.Manifest.File.Store.{same_sym, Fresh, Distinct}
use detour_mod_kit.Manifest.File.Reading.{reserved_rungs, rung_names, record_names}
use detour_mod_kit.Manifest.File.Reserved.{
  reserved_records, RecordOk, All-right, All-map, Distinct-right,
}

has_section-append :
    (xs ys : List Text) (s : Text)
    → has_section (xs ++ ys) s ≡ (has_section xs s || has_section ys s)
unfolding has_section
has_section-append [] ys s = refl
has_section-append (x ∷ xs) ys s = ground (arith, has_section-append xs ys s)

abbrev pub Presents : List Text → SignatureRecord → Type 0
Presents names r = has_section names (section_of r.label) ≡ true

pub records_present :
    (names : List Text) (rs : List SignatureRecord)
    → ((s : Text) → has_section (record_names rs) s ≡ true → has_section names s ≡ true)
    → All (Presents names) rs
unfolding has_section
records_present names [] f = tt
records_present names (r ∷ rs) f = (
  f (section_of r.label) (rw (same_refl (section_of r.label))),
  records_present names rs λ s h. f s (behind s h),
)
  where
    behind :
        (s : Text)
        → has_section (record_names rs) s ≡ true
        → has_section (record_names (r ∷ rs)) s ≡ true
    behind s h =
        ground (
          arith,
          has_section-append (rung_names (section_of r.label) 0 r.ladder) (record_names rs) s,
        )

length-rung_names :
    (section : Text) (i : ℕ) (ss : List CandidateSpec)
    → length (rung_names section i ss) ≡ length ss
length-rung_names section i [] = refl
length-rung_names section i (s ∷ ss) = omega (arith, length-rung_names section (suc i) ss)

abbrev pub Fits : ℕ → SignatureRecord → Type 0
Fits n r = length r.ladder ≤ n

pub ladders_fit :
    (n : ℕ) (rs : List SignatureRecord) → length (record_names rs) ≤ n → All (Fits n) rs
ladders_fit n [] h = tt
ladders_fit n (r ∷ rs) h =
    let l = length-append (rung_names (section_of r.label) 0 r.ladder) (record_names rs) in
    let k = length-rung_names (section_of r.label) 0 r.ladder in
    (omega (arith, l, k, h), ladders_fit n rs (omega (arith, l, k, h)))

-- No rung of the second record stands behind the ladder of the first.
abbrev pub NoSurplus : SignatureRecord → SignatureRecord → Type 0
NoSurplus r r' =
    (text_eq (section_of r'.label) (section_of r.label) ≡ false)
    ⊎ (length r'.ladder ≤ length r.ladder)

surplus_step :
    (section : Text) (n : ℕ) (name parent : Text) (i : ℕ) (names : List Text)
    → parse_rung_section_name name ≡ some (parent, i)
    → (text_eq parent section && leb n i) ≡ false
    → has_surplus section n (name ∷ names) ≡ has_surplus section n names
unfolding has_surplus
surplus_step section n name parent i names h k = rw (h, has_surplus) (rw k)

pub surplus_skip :
    (section : Text) (n : ℕ) (name : Text) (names : List Text)
    → parse_rung_section_name name ≡ none
    → has_surplus section n (name ∷ names) ≡ has_surplus section n names
unfolding has_surplus
surplus_skip section n name names h = rw (h, has_surplus)

own_or_below :
    (section parent : Text) (n i k : ℕ)
    → i < k
    → (text_eq parent section ≡ false) ⊎ (k ≤ n)
    → (text_eq parent section && leb n i) ≡ false
own_or_below section parent n i k h (inl e) = rw e
own_or_below section parent n i k h (inr l) = ground arith

surplus_rungs :
    (section parent : Text) (n i k : ℕ) (ss : List CandidateSpec) (rest : List Text)
    → i + length ss ≤ k
    → k < unsigned_values
    → (text_eq parent section ≡ false) ⊎ (k ≤ n)
    → has_surplus section n (rung_names parent i ss ++ rest) ≡ has_surplus section n rest
surplus_rungs section parent n i k [] rest h l e = refl
surplus_rungs section parent n i k (s ∷ ss) rest h l e =
    surplus_step section n (rung_section parent i) parent i (rung_names parent (suc i) ss ++ rest)
      (parse_rung_section_name-rung_section parent i (omega (arith, h)))
      (own_or_below section parent n i k (omega (arith, h)) e)
    ∙ surplus_rungs section parent n (suc i) k ss rest (omega (arith, h)) l e

pub surplus_records :
    (r : SignatureRecord) (rs : List SignatureRecord)
    → All RecordOk rs
    → All (NoSurplus r) rs
    → has_surplus (section_of r.label) (length r.ladder) (record_names rs) ≡ false
surplus_records r [] h e = unfold has_surplus in refl
surplus_records r (r' ∷ rs) (h, hs) (e, es) =
    surplus_skip (section_of r.label) (length r.ladder) (section_of r'.label)
      (rung_names (section_of r'.label) 0 r'.ladder ++ record_names rs)
      (label-no_rung r'.label h.label)
    ∙ surplus_rungs (section_of r.label) (section_of r'.label) (length r.ladder) 0
        (length r'.ladder) r'.ladder (record_names rs) (omega arith) h.small e
    ∙ surplus_records r rs hs es

Fresh-records :
    (s : Text) (rs : List SignatureRecord)
    → Fresh s (reserved_records rs)
    → All (λ r. same (section_of r.label) s ≡ false) rs
Fresh-records s [] f = tt
Fresh-records s (r ∷ rs) (f, fs) = (
  f,
  Fresh-records s rs
      (All-right _ (reserved_rungs (section_of r.label) 0 r.ladder) (reserved_records rs) fs),
)

with_first :
    (r : SignatureRecord) (rs qs : List SignatureRecord)
    → All (λ q. same (section_of q.label) (section_of r.label) ≡ false) qs
    → All (λ q. All (NoSurplus q) rs) qs
    → All (λ q. All (NoSurplus q) (r ∷ rs)) qs
with_first r rs [] f h = tt
with_first r rs (q ∷ qs) (f, fs) (h, hs) = (
  (
    inl (
        text_eq-same (section_of r.label) (section_of q.label)
          (same_sym (section_of q.label) (section_of r.label) f)),
    h,
  ),
  with_first r rs qs fs hs,
)

pub NoSurplus-Distinct :
    (rs : List SignatureRecord)
    → Distinct (reserved_records rs)
    → All (λ r. All (NoSurplus r) rs) rs
NoSurplus-Distinct [] d = tt
NoSurplus-Distinct (r ∷ rs) (f, d) =
    let rest = reserved_records rs in
    let own = reserved_rungs (section_of r.label) 0 r.ladder in
    let apart = Fresh-records (section_of r.label) rs (All-right _ own rest f) in
    (
      (
        inr (omega arith),
        All-map _ (λ r' h. inl (text_eq-same (section_of r'.label) (section_of r.label) h)) rs
            apart,
      ),
      with_first r rs rs apart (NoSurplus-Distinct rs (Distinct-right own rest d)),
    )

parents_step :
    (names : List Text) (name label parent : Text) (i : ℕ) (rest : List Text)
    → after_prefix (codes "sig.") name ≡ some label
    → parse_rung_section_name name ≡ some (parent, i)
    → 4 < length parent
    → has_section names parent ≡ true
    → has_parents names (name ∷ rest) ≡ has_parents names rest
unfolding has_parents
parents_step names name label parent i rest a h l p =
    rw (a, has_parents) (rw (h, has_parents) (rw (lt→ltb 4 (length parent) l, p)))

pub parents_skip :
    (names : List Text) (name label : Text) (rest : List Text)
    → after_prefix (codes "sig.") name ≡ some label
    → parse_rung_section_name name ≡ none
    → has_parents names (name ∷ rest) ≡ has_parents names rest
unfolding has_parents
parents_skip names name label rest a h = rw (a, has_parents) (rw (h, has_parents))

parents_rungs :
    (names : List Text) (label : Text) (i : ℕ) (ss : List CandidateSpec) (rest : List Text)
    → i + length ss < unsigned_values
    → 4 < length (section_of label)
    → has_section names (section_of label) ≡ true
    → has_parents names (rung_names (section_of label) i ss ++ rest) ≡ has_parents names rest
unfolding section_of after_prefix
parents_rungs names label i [] rest h l p = refl
parents_rungs names label i (s ∷ ss) rest h l p =
    parents_step names (rung_section (section_of label) i) _ (section_of label) i
      (rung_names (section_of label) (suc i) ss ++ rest) refl
      (parse_rung_section_name-rung_section (section_of label) i (omega (arith, h))) l p
    ∙ parents_rungs names label (suc i) ss rest (omega (arith, h)) l p

label-length : (label : Text) → label_is_serializable label ≡ true → 4 < length (section_of label)
unfolding label_is_serializable section_of
label-length [] h = cc
label-length (c ∷ cs) h = omega arith

pub parents_records :
    (names : List Text) (rs : List SignatureRecord)
    → All RecordOk rs
    → All (Presents names) rs
    → has_parents names (record_names rs) ≡ true
unfolding section_of after_prefix
parents_records names [] h p = unfold has_parents in refl
parents_records names (r ∷ rs) (h, hs) (p, ps) =
    parents_skip names (section_of r.label) r.label
      (rung_names (section_of r.label) 0 r.ladder ++ record_names rs) refl
      (label-no_rung r.label h.label)
    ∙ parents_rungs names r.label 0 r.ladder (record_names rs) (omega (arith, h.small))
        (label-length r.label h.label) p
    ∙ parents_records names rs hs ps
