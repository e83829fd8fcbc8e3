-- ===== src/Text/Unsigned.antt =====
-- `std::from_chars` into an unsigned of 64 bits, base ten and base sixteen, and "{:X}" of std::format.
pub mod RoundTrip
use detour_mod_kit.Base.{
  ℕ, zero, suc, ◌+◌, ◌-◌, ◌*◌, ◌/◌, ◌%◌, ◌^◌, Bool, true, false, ◌&&◌, [], ◌∷◌, Option, none, some,
  leb, ltb, ◌==◌, if◌then◌else◌, ◌>>=◌,
}
use detour_mod_kit.Text.{Text}
use detour_mod_kit.Text.Decimal.{magnitude, scan, is_digit}

abbrev pub unsigned_values : ℕ
unsigned_values = 2 ^ 64

unfoldable pub hex_char : ℕ → ℕ
hex_char d = if ltb d 10 then b'0' + d else 55 + d

unfoldable pub hex_digit : ℕ → Option ℕ
hex_digit c =
    if leb b'0' c && leb c b'9'
    then some (c - b'0')
    else if leb b'A' c && leb c b'F'
    then some (c - 55)
    else if leb b'a' c && leb c b'f'
    then some (c - 87)
    else none

-- Rounds of division by sixteen; 16 of them are enough for 64 bits.
unfoldable pub emit_hex : ℕ → ℕ → Text → Text
unfolding hex_char
emit_hex zero n out = out
emit_hex (suc f) n out =
    let more = emit_hex f (n / 16) (hex_char (n % 16) ∷ out) in if n == 0 then out else more

unfoldable pub hex_digits : ℕ → Text
hex_digits n = if n == 0 then b'0' ∷ [] else emit_hex 16 n []

-- The longest run of digits as a number, with no bound, and the rest.
unfoldable pub scan_hex : ℕ → Text → ℕ × Text
unfolding hex_digit
scan_hex n [] = (n, [])
scan_hex n (c ∷ cs) = elim (hex_digit c) [ none ↦ (n, c ∷ cs) | some d ↦ scan_hex (n * 16 + d) cs ]

unfoldable pub magnitude_hex : Text → Option (ℕ × Text)
unfolding scan_hex hex_digit
magnitude_hex [] = none
magnitude_hex (c ∷ cs) = elim (hex_digit c) [ none ↦ none | some d ↦ some (scan_hex d cs) ]

unfoldable pub fits : ℕ × Text → Option (ℕ × Text)
fits (n, rest) = if ltb n unsigned_values then some (n, rest) else none

-- The value and the text behind it; `none` where `ec` is set.
unfoldable pub from_chars_unsigned : Text → Option (ℕ × Text)
unfolding magnitude scan is_digit fits
from_chars_unsigned s = magnitude s >>= fits

unfoldable pub from_chars_hex : Text → Option (ℕ × Text)
unfolding magnitude_hex fits
from_chars_hex s = magnitude_hex s >>= fits
