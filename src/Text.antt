-- ===== src/Text.antt =====
-- Texts as lists of char codes, and what the components use of the C++ standard library on them:
-- `find` with `substr` as a split, comparison, `std::to_string` and `std::from_chars`.
pub mod Decimal
pub mod Unsigned
use Prim.Native.Char.{code}
use Prim.Native.String.{String}
use detour_mod_kit.Base.{
  ℕ, ◌≡◌, ◌↔◌, refl, ap, Bool, true, false, ◌&&◌, ◌||◌, List, [], ◌∷◌, ◌++◌, arith, ◌==◌,
  if◌then◌else◌, Bool-cases, ==_refl, inl, inr,
}

abbrev pub Text : Type 0
Text = List ℕ

-- The chars of a literal, which is ASCII.
abbrev pub codes : String → Text
codes String.[] = []
codes (String.◌∷◌ c s) = code c ∷ codes s

unfoldable pub text_eq : Text → Text → Bool
text_eq [] [] = true
text_eq (a ∷ s) (b ∷ t) = a == b && text_eq s t
text_eq _ _ = false

pub text_eq_refl : (s : Text) → text_eq s s ≡ true
unfolding text_eq
text_eq_refl [] = refl
text_eq_refl (a ∷ s) = ground (arith, text_eq_refl s)

pub eq_of_text_eq : (s t : Text) → text_eq s t ≡ true → s ≡ t
unfolding text_eq
eq_of_text_eq [] [] h = refl
eq_of_text_eq (a ∷ s) (b ∷ t) h = ground (arith, eq_of_text_eq s t)
eq_of_text_eq [] (b ∷ t) h = cc
eq_of_text_eq (a ∷ s) [] h = cc

-- The pieces between the separators, empty ones included; there is always one more than there are
-- separators.
unfoldable pub add_to_first : ℕ → List Text → List Text
add_to_first c [] = (c ∷ []) ∷ []
add_to_first c (p ∷ ps) = (c ∷ p) ∷ ps

unfoldable pub split : ℕ → Text → List Text
unfolding add_to_first
split sep [] = [] ∷ []
split sep (c ∷ cs) = let rest = split sep cs in if c == sep then [] ∷ rest else add_to_first c rest

unfoldable pub has_char : ℕ → Text → Bool
has_char c [] = false
has_char c (x ∷ xs) = x == c || has_char c xs

pub split-append :
    (sep : ℕ) (s rest : Text)
    → has_char sep s ≡ false
    → split sep (s ++ sep ∷ rest) ≡ s ∷ split sep rest
unfolding split has_char
split-append sep [] rest h = rw (==_refl sep)
split-append sep (c ∷ s) rest h = ground (arith, split-append sep s rest)

pub split-none : (sep : ℕ) (s : Text) → has_char sep s ≡ false → split sep s ≡ s ∷ []
unfolding split has_char
split-none sep [] h = refl
split-none sep (c ∷ s) h = ground (arith, split-none sep s)

pub has_char-append : (c : ℕ) (s t : Text) → has_char c (s ++ t) ≡ (has_char c s || has_char c t)
unfolding has_char
has_char-append c [] t = refl
has_char-append c (x ∷ s) t = ground (arith, has_char-append c s t)
