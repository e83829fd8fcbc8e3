-- ===== src/Manifest/File/Store.antt =====
-- What the INI library documents, and what is in a store that a manifest was written into.
use detour_mod_kit.Base.{
  ◌≡◌, refl, sym, ◌∙◌, Bool, true, false, ◌&&◌, ◌||◌, List, [], ◌∷◌, ◌++◌, Option, none, some,
  arith, if◌then◌else◌, All, Bool-cases, inl, inr, append-nil, append_assoc,
}
use detour_mod_kit.Text.{Text, text_eq, eq_of_text_eq, text_eq_refl}
use detour_mod_kit.Manifest.Numbers.{to_lower}
use detour_mod_kit.Manifest.Entries.{Fields, same, later, field, later-none}
use detour_mod_kit.Manifest.File.{Ini, Block, has_section, set_fields, set_blocks}
use detour_mod_kit.Manifest.File.Names.{same_refl}
use detour_mod_kit.Manifest.File.Format.{is_section_name, is_key, is_value, FieldsOk, BlocksOk}

-- A section that is set first comes last. Names are compared without regard to ASCII case; what is saved
-- of blocks that the format can hold loads with the same values and the same order of sections.
pub record IniLaws (ini : Ini) : Type 0 where
  pub get-empty : (s k : Text) → ini.get_value ini.empty s k ≡ none
  pub sections-empty : ini.sections ini.empty ≡ []
  pub get-set :
      (s k v : Text) (st : ini.Store) (t j : Text)
      → is_section_name s ≡ true
      → is_key k ≡ true
      → is_value v ≡ true
      → ini.get_value (ini.set_value s k v st) t j
        ≡ (if same s t && same k j then some v else ini.get_value st t j)
  pub sections-set :
      (s k v : Text) (st : ini.Store)
      → is_section_name s ≡ true
      → ini.sections (ini.set_value s k v st)
        ≡ (if has_section (ini.sections st) s then ini.sections st else ini.sections st ++ s ∷ [])
  pub load-save :
      (bs : List Block)
      → BlocksOk bs
      → (st : ini.Store) × (ini.load (ini.save (set_blocks ini bs ini.empty)) ≡ some st)
        × ((s k : Text) → ini.get_value st s k ≡ ini.get_value (set_blocks ini bs ini.empty) s k)
        × (ini.sections st ≡ ini.sections (set_blocks ini bs ini.empty))

abbrev pub Fresh : Text → List Block → Type 0
Fresh s = All (λ b. same b.0 s ≡ false)

-- No name is another's, or the same but for case.
abbrev pub Distinct : List Block → Type 0
Distinct [] = Unit {0}
Distinct (b ∷ bs) = Fresh b.0 bs × Distinct bs

pub same_sym : (s t : Text) → same s t ≡ false → same t s ≡ false
unfolding same
same_sym s t h = elim (Bool-cases (text_eq (to_lower t) (to_lower s))) [
  | inl e ↦ cc (eq_of_text_eq (to_lower t) (to_lower s) e, text_eq_refl (to_lower s))
  | inr e ↦ e
]

-- The names of the blocks that hold something.
abbrev pub names_of : List Block → List Text
names_of [] = []
names_of ((s, []) ∷ bs) = names_of bs
names_of ((s, f ∷ fs) ∷ bs) = s ∷ names_of bs

has_section-append :
    (xs : List Text) (s t : Text) → has_section (xs ++ s ∷ []) t ≡ (has_section xs t || same s t)
unfolding has_section
has_section-append [] s t = ground arith
has_section-append (x ∷ xs) s t = ground (arith, has_section-append xs s t)

set_over :
    (a b : Bool) (x o : Option Text) (v : Text)
    → (if a then later x (if a && b then some v else o) else (if a && b then some v else o))
      ≡ (if a then later (later x (if b then some v else none)) o else o)
set_over false b x o v = refl
set_over true b (some y) o v = refl
set_over true true none o v = refl
set_over true false none o v = refl

module _ (ini : Ini) (laws : IniLaws ini) where
  open ini use {Store, get_value, set_value, sections}

  get-set_fields :
      (s : Text) (fs : Fields) (st : Store) (t j : Text)
      → is_section_name s ≡ true
      → FieldsOk fs
      → get_value (set_fields ini s fs st) t j
        ≡ (if same s t then later (field j fs) (get_value st t j) else get_value st t j)
  unfolding set_fields field
  get-set_fields s [] st t j n h = ground arith
  get-set_fields s ((k, v) ∷ fs) st t j n ((q, h), hs) =
      get-set_fields s fs (set_value s k v st) t j n hs
      ∙ rw (laws.get-set s k v st t j n q h)
          (set_over (same s t) (same k j) (field j fs) (get_value st t j) v)

  get-Fresh :
      (bs : List Block) (st : Store) (s k : Text)
      → BlocksOk bs
      → Fresh s bs
      → get_value (set_blocks ini bs st) s k ≡ get_value st s k
  unfolding set_blocks
  get-Fresh [] st s k h f = refl
  get-Fresh ((t, fs) ∷ bs) st s k ((n, h), hs) (f, g) =
      get-Fresh bs (set_fields ini t fs st) s k hs g ∙ get-set_fields t fs st s k n h ∙ rw f

  abbrev pub Holds : List Block → Store → Type 0
  Holds bs st = All (λ b. (k : Text) → get_value st b.0 k ≡ field k b.1) bs

  abbrev Unset : List Block → Store → Type 0
  Unset bs st = All (λ b. (k : Text) → get_value st b.0 k ≡ none) bs

  Unset-set_fields :
      (bs : List Block) (s : Text) (fs : Fields) (st : Store)
      → is_section_name s ≡ true
      → FieldsOk fs
      → Fresh s bs
      → Unset bs st
      → Unset bs (set_fields ini s fs st)
  Unset-set_fields [] s fs st n h f u = tt
  Unset-set_fields (b ∷ bs) s fs st n h (f, g) (u, us) = (
    λ k. get-set_fields s fs st b.0 k n h ∙ rw (same_sym b.0 s f) (u k),
    Unset-set_fields bs s fs st n h g us,
  )

  own :
      (s : Text) (fs : Fields) (st : Store) (k : Text)
      → is_section_name s ≡ true
      → FieldsOk fs
      → get_value st s k ≡ none
      → get_value (set_fields ini s fs st) s k ≡ field k fs
  own s fs st k n h u =
      get-set_fields s fs st s k n h ∙ rw (same_refl s) (rw u (later-none (field k fs)))

  pub set_blocks-Holds :
      (bs : List Block) (st : Store)
      → BlocksOk bs
      → Distinct bs
      → Unset bs st
      → Holds bs (set_blocks ini bs st)
  unfolding set_blocks
  set_blocks-Holds [] st h d u = tt
  set_blocks-Holds ((s, fs) ∷ bs) st ((n, h), hs) (f, d) (u, us) = (
    λ k. get-Fresh bs (set_fields ini s fs st) s k hs f ∙ own s fs st k n h (u k),
    set_blocks-Holds bs (set_fields ini s fs st) hs d (Unset-set_fields bs s fs st n h f us),
  )

  sections-kept :
      (s : Text) (fs : Fields) (st : Store)
      → is_section_name s ≡ true
      → has_section (sections st) s ≡ true
      → sections (set_fields ini s fs st) ≡ sections st
  unfolding set_fields
  sections-kept s [] st n h = refl
  sections-kept s ((k, v) ∷ fs) st n h =
      let e : sections (set_value s k v st) ≡ sections st = laws.sections-set s k v st n ∙ rw h in
      sections-kept s fs (set_value s k v st) n (rw e h) ∙ e

  sections-added :
      (s : Text) (f : Text × Text) (fs : Fields) (st : Store)
      → is_section_name s ≡ true
      → has_section (sections st) s ≡ false
      → sections (set_fields ini s (f ∷ fs) st) ≡ sections st ++ s ∷ []
  unfolding set_fields
  sections-added s (k, v) fs st n h =
      let e : sections (set_value s k v st) ≡ sections st ++ s ∷ [] =
        laws.sections-set s k v st n ∙ rw h in
      sections-kept s fs (set_value s k v st) n
        (rw e (has_section-append (sections st) s s ∙ rw (h, same_refl s)))
      ∙ e

  abbrev New : List Block → List Text → Type 0
  New bs xs = All (λ b. has_section xs b.0 ≡ false) bs

  New-append :
      (bs : List Block) (xs : List Text) (s : Text) → New bs xs → Fresh s bs → New bs (xs ++ s ∷ [])
  New-append [] xs s h f = tt
  New-append (b ∷ bs) xs s (h, hs) (f, fs) =
      (has_section-append xs s b.0 ∙ rw (h, same_sym b.0 s f), New-append bs xs s hs fs)

  pub sections-set_blocks :
      (bs : List Block) (st : Store)
      → BlocksOk bs
      → Distinct bs
      → New bs (sections st)
      → sections (set_blocks ini bs st) ≡ sections st ++ names_of bs
  unfolding set_blocks
  sections-set_blocks [] st h d w = sym (append-nil (sections st))
  sections-set_blocks ((s, []) ∷ bs) st (h, hs) (f, d) (w, ws) =
      unfold set_fields in sections-set_blocks bs st hs d ws
  sections-set_blocks ((s, g ∷ fs) ∷ bs) st ((n, h), hs) (f, d) (w, ws) =
      let e = sections-added s g fs st n w in
      sections-set_blocks bs (set_fields ini s (g ∷ fs) st) hs d
        (rw e (New-append bs (sections st) s ws f))
      ∙ rw e (append_assoc (sections st) (s ∷ []) (names_of bs))
