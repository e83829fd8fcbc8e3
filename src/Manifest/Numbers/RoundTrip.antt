-- ===== src/Manifest/Numbers/RoundTrip.antt =====
-- What is written as a number reads back, and has no blank for trim to take.
use detour_mod_kit.Base.{ℕ, suc, ◌≤◌, ◌<◌, ◌≡◌, ◌≢◌, refl, [], ◌∷◌, some, arith, All}
use detour_mod_kit.Base.Int.{ℤ, pos, negsuc}
use detour_mod_kit.Text.{Text}
use detour_mod_kit.Text.Decimal.{InRange, digits, is_digit, AreDigits}
use detour_mod_kit.Text.Decimal.RoundTrip.{digits-Prints}
use detour_mod_kit.Text.Unsigned.{unsigned_values, hex_digits, from_chars_unsigned}
use detour_mod_kit.Text.Unsigned.RoundTrip.{
  from_chars_unsigned-digits, from_chars_hex-hex_digits, hex_digits-bounds,
}
use detour_mod_kit.Manifest.Numbers.{
  trim_front, trim_back, trim, parse_magnitude, signed_token, parse_signed, unsigned_token,
  parse_unsigned, parse_u8, format_signed_hex, negated, not_negated,
}

-- Chars above the blank, which no number's sign is below.
abbrev pub NoBlank : Text → Type 0
NoBlank = All (λ c. b',' < c)

trim_front-NoBlank : (s : Text) → NoBlank s → trim_front s ≡ s
unfolding trim_front
trim_front-NoBlank [] h = refl
trim_front-NoBlank (c ∷ s) h = ground (arith, h.0)

trim_back-NoBlank : (s : Text) → NoBlank s → trim_back s ≡ s
unfolding trim_back
trim_back-NoBlank [] h = refl
trim_back-NoBlank (c ∷ []) h = ground (arith, h.0)
trim_back-NoBlank (c ∷ d ∷ s) h = rw (trim_back-NoBlank (d ∷ s) h.1)

pub trim-NoBlank : (s : Text) → NoBlank s → trim s ≡ s
unfolding trim
trim-NoBlank s h = rw (trim_front-NoBlank s h) (trim_back-NoBlank s h)

AreDigits-NoBlank : (s : Text) → AreDigits s → NoBlank s
unfolding is_digit
AreDigits-NoBlank [] h = tt
AreDigits-NoBlank (c ∷ s) (h, t) = (ground arith, AreDigits-NoBlank s t)

bounds-NoBlank : (s : Text) → All (λ c. b'-' < c) s → NoBlank s
bounds-NoBlank [] h = tt
bounds-NoBlank (c ∷ s) (h, t) = (omega arith, bounds-NoBlank s t)

digits-NoBlank : (n : ℕ) → n < unsigned_values → NoBlank (digits n)
digits-NoBlank n h = AreDigits-NoBlank (digits n) (digits-Prints n (omega arith)).digits

magnitude_of_digits :
    (n : ℕ) (s : Text)
    → AreDigits s
    → from_chars_unsigned s ≡ some (n, [])
    → parse_magnitude s ≡ some n
unfolding parse_magnitude is_digit
magnitude_of_digits n [] h e = rw e
magnitude_of_digits n (c ∷ []) h e = rw e
magnitude_of_digits n (c ∷ d ∷ s) (h, (k, t)) e = ground arith

parse_magnitude-digits : (n : ℕ) → n < unsigned_values → parse_magnitude (digits n) ≡ some n
parse_magnitude-digits n h =
    magnitude_of_digits n (digits n) (digits-Prints n (omega arith)).digits
      (from_chars_unsigned-digits n h)

parse_magnitude-hex :
    (n : ℕ) → n < unsigned_values → parse_magnitude (b'0' ∷ b'x' ∷ hex_digits n) ≡ some n
unfolding parse_magnitude
parse_magnitude-hex n h = rw (from_chars_hex-hex_digits n h)

unsigned_token-digits :
    (n : ℕ) (s : Text)
    → AreDigits s
    → s ≢ []
    → parse_magnitude s ≡ some n
    → unsigned_token s ≡ some n
unfolding unsigned_token is_digit
unsigned_token-digits n [] h k e = absurd (k refl)
unsigned_token-digits n (c ∷ s) (h, t) k e = ground arith

-- `std::to_string` of an unsigned.
pub parse_unsigned-digits : (n : ℕ) → n < unsigned_values → parse_unsigned (digits n) ≡ some n
unfolding parse_unsigned
parse_unsigned-digits n h =
    let p = digits-Prints n (omega arith) in
    rw (trim-NoBlank (digits n) (digits-NoBlank n h))
      (unsigned_token-digits n (digits n) p.digits p.filled (parse_magnitude-digits n h))

pub parse_unsigned-hex :
    (n : ℕ) → n < unsigned_values → parse_unsigned (b'0' ∷ b'x' ∷ hex_digits n) ≡ some n
unfolding parse_unsigned
parse_unsigned-hex n h =
    rw
      (trim-NoBlank (b'0' ∷ b'x' ∷ hex_digits n)
        (omega arith, (omega arith, bounds-NoBlank (hex_digits n) (hex_digits-bounds n))))
      (unfold unsigned_token in parse_magnitude-hex n h)

pub parse_u8-digits : (n : ℕ) → n ≤ 0xFF → parse_u8 (digits n) ≡ some n
unfolding parse_u8
parse_u8-digits n h = rw (parse_unsigned-digits n (omega arith)) (ground arith)

pub format_signed_hex-NoBlank : (z : ℤ) → NoBlank (format_signed_hex z)
unfolding format_signed_hex
format_signed_hex-NoBlank (pos n) =
    (omega arith, (omega arith, bounds-NoBlank (hex_digits n) (hex_digits-bounds n)))
format_signed_hex-NoBlank (negsuc n) = (
  omega arith,
  (omega arith, (omega arith, bounds-NoBlank (hex_digits (suc n)) (hex_digits-bounds (suc n)))),
)

signed_token-hex : (z : ℤ) → InRange z → signed_token (format_signed_hex z) ≡ some z
unfolding signed_token format_signed_hex
signed_token-hex (pos n) h =
    rw (parse_magnitude-hex n (omega arith)) (unfold not_negated in ground arith)
signed_token-hex (negsuc n) h =
    rw (parse_magnitude-hex (suc n) (omega arith)) (unfold negated in ground arith)

pub parse_signed-hex : (z : ℤ) → InRange z → parse_signed (format_signed_hex z) ≡ some z
unfolding parse_signed
parse_signed-hex z h =
    rw (trim-NoBlank (format_signed_hex z) (format_signed_hex-NoBlank z)) (signed_token-hex z h)
