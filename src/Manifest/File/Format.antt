-- ===== src/Manifest/File/Format.antt =====
-- What the INI format carries as it stands: the section names, keys and values for which the library's
-- documentation says that they are read back as they were set.
use detour_mod_kit.Base.{ℕ, ◌≡◌, Bool, true, false, not, ◌&&◌, ◌||◌, List, [], ◌∷◌, leb, ◌==◌, All}
use detour_mod_kit.Text.{Text, codes, split}
use detour_mod_kit.Manifest.Numbers.{to_lower}
use detour_mod_kit.Manifest.Entries.{Fields}
use detour_mod_kit.Manifest.File.{
  Block, any_char, is_structural, is_blank, back, value_is_unserializable,
}

-- A name that a section can have: not empty, no blank at either end and no char of the format in it.
abbrev pub is_section_name : Text → Bool
is_section_name [] = false
is_section_name (c ∷ cs) =
    not (is_blank c) && not (is_blank (back c cs)) && not (any_char is_structural (c ∷ cs))

-- A key of small letters, digits and `_`.
abbrev pub is_key_char : ℕ → Bool
is_key_char c = (leb b'a' c && leb c b'z') || (leb b'0' c && leb c b'9') || c == b'_'

abbrev pub has_key_chars : Text → Bool
has_key_chars [] = true
has_key_chars (c ∷ cs) = is_key_char c && has_key_chars cs

abbrev pub is_key : Text → Bool
is_key [] = false
is_key (c ∷ cs) = has_key_chars (c ∷ cs)

-- `s` begins with `p`.
abbrev pub begins_with : Text → Text → Bool
begins_with [] s = true
begins_with (a ∷ p) [] = false
begins_with (a ∷ p) (b ∷ s) = a == b && begins_with p s

abbrev pub any_begins_with : Text → List Text → Bool
any_begins_with p [] = false
any_begins_with p (l ∷ ls) = begins_with p l || any_begins_with p ls

abbrev pub ends_in_newline : Text → Bool
ends_in_newline [] = false
ends_in_newline (c ∷ cs) = c == 10 || back c cs == 10

-- A value that the format can hold: the writer takes it, it does not open as a multi-line value does, with
-- `<<<`, no line of it begins with the end mark of one, in any case, and it has no newline at either end.
abbrev pub is_value : Text → Bool
is_value v =
    not (value_is_unserializable v)
    && not (begins_with (codes "<<<") v)
    && not (any_begins_with (codes "end_of_text") (split 10 (to_lower v)))
    && not (ends_in_newline v)

-- Each section has such a name, and each field such a key and such a value.
abbrev pub FieldsOk : Fields → Type 0
FieldsOk = All (λ f. (is_key f.0 ≡ true) × (is_value f.1 ≡ true))

abbrev pub BlocksOk : List Block → Type 0
BlocksOk = All (λ b. (is_section_name b.0 ≡ true) × FieldsOk b.1)
