-- ===== src/Manifest/Numbers.antt =====
-- The readers and writers of a manifest's numbers and Booleans: to_lower, trim, parse_magnitude,
-- parse_signed, parse_unsigned, parse_u8, parse_bool and format_signed_hex of src/manifest.cpp.
pub mod RoundTrip
use detour_mod_kit.Base.{
  ℕ, zero, suc, ◌+◌, ◌-◌, Bool, true, false, ◌&&◌, ◌||◌, [], ◌∷◌, ◌++◌, Option, none, some, leb,
  ltb, ◌==◌, if◌then◌else◌, ◌>>=◌,
}
use detour_mod_kit.Base.Int.{ℤ, pos, negsuc}
use detour_mod_kit.Text.{Text, codes, text_eq}
use detour_mod_kit.Text.Decimal.{min_magnitude}
use detour_mod_kit.Text.Unsigned.{from_chars_unsigned, from_chars_hex, hex_digits}

abbrev pub lower : ℕ → ℕ
lower c = if leb b'A' c && leb c b'Z' then c - b'A' + b'a' else c

unfoldable pub to_lower : Text → Text
to_lower [] = []
to_lower (c ∷ cs) = lower c ∷ to_lower cs

abbrev pub is_space : ℕ → Bool
is_space c = c == b' ' || c == 9 || c == 13 || c == 10

unfoldable pub trim_front : Text → Text
trim_front [] = []
trim_front (c ∷ cs) = let rest = trim_front cs in if is_space c then rest else c ∷ cs

abbrev pub unless_blank : ℕ → Text → Text
unless_blank c [] = if is_space c then [] else c ∷ []
unless_blank c (d ∷ rest) = c ∷ d ∷ rest

unfoldable pub trim_back : Text → Text
trim_back [] = []
trim_back (c ∷ cs) = unless_blank c (trim_back cs)

unfoldable pub trim : Text → Text
unfolding trim_front trim_back
trim s = trim_back (trim_front s)

-- The whole text must have been read.
abbrev pub whole : ℕ × Text → Option ℕ
whole (n, []) = some n
whole (n, c ∷ cs) = none

unfoldable pub parse_magnitude : Text → Option ℕ
parse_magnitude (c ∷ d ∷ body) =
    if c == b'0' && (d == b'x' || d == b'X')
    then from_chars_hex body >>= whole
    else from_chars_unsigned (c ∷ d ∷ body) >>= whole
parse_magnitude body = from_chars_unsigned body >>= whole

unfoldable pub negated : ℕ → Option ℤ
negated zero = some (pos 0)
negated (suc n) = if ltb n min_magnitude then some (negsuc n) else none

unfoldable pub not_negated : ℕ → Option ℤ
not_negated n = if ltb n min_magnitude then some (pos n) else none

-- Of a trimmed token.
unfoldable pub signed_token : Text → Option ℤ
unfolding negated not_negated parse_magnitude
signed_token [] = none
signed_token (c ∷ cs) =
    if c == b'-'
    then parse_magnitude cs >>= negated
    else if c == b'+'
    then parse_magnitude cs >>= not_negated
    else parse_magnitude (c ∷ cs) >>= not_negated

unfoldable pub parse_signed : Text → Option ℤ
unfolding signed_token trim
parse_signed token = signed_token (trim token)

unfoldable pub unsigned_token : Text → Option ℕ
unfolding parse_magnitude
unsigned_token [] = none
unsigned_token (c ∷ cs) =
    if c == b'-' then none else if c == b'+' then parse_magnitude cs else parse_magnitude (c ∷ cs)

unfoldable pub parse_unsigned : Text → Option ℕ
unfolding unsigned_token trim
parse_unsigned token = unsigned_token (trim token)

abbrev pub byte_of : ℕ → Option ℕ
byte_of n = if ltb 0xFF n then none else some n

unfoldable pub parse_u8 : Text → Option ℕ
parse_u8 token = parse_unsigned token >>= byte_of

unfoldable pub parse_bool : Text → Option Bool
unfolding to_lower trim text_eq
parse_bool token =
    let lowered = to_lower (trim token) in
    if text_eq lowered (codes "true")
      || text_eq lowered (codes "1")
      || text_eq lowered (codes "yes")
      || text_eq lowered (codes "on")
    then some true
    else if text_eq lowered (codes "false")
        || text_eq lowered (codes "0")
        || text_eq lowered (codes "no")
        || text_eq lowered (codes "off")
    then some false
    else none

unfoldable pub format_signed_hex : ℤ → Text
format_signed_hex (pos n) = b'0' ∷ b'x' ∷ hex_digits n
format_signed_hex (negsuc n) = b'-' ∷ b'0' ∷ b'x' ∷ hex_digits (suc n)
