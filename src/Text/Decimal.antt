-- ===== src/Text/Decimal.antt =====
-- `std::to_string(std::ptrdiff_t)` and `std::from_chars` into a std::ptrdiff_t of 64 bits, base ten.
pub mod RoundTrip
use native.Mathlib.Nat.{pow-suc}
use detour_mod_kit.Base.{
  ℕ, zero, suc, ◌+◌, ◌-◌, ◌*◌, ◌/◌, ◌%◌, ◌^◌, ◌≤◌, ◌<◌, ◌≡◌, ◌≢◌, refl, sym, ap, ◌∙◌, Bool, true,
  false, ◌&&◌, ◌||◌, List, [], ◌∷◌, ◌++◌, Option, none, some, arith, ltb, leb, ◌==◌, if◌then◌else◌,
  All, Bool-cases, inl, inr, lt→ltb, ◌>>=◌,
}
use detour_mod_kit.Base.Int.{ℤ, pos, negsuc}
use detour_mod_kit.Text.{Text, has_char}

abbrev pub min_magnitude : ℕ
min_magnitude = 2 ^ 63

-- The integers that a ptrdiff_t holds.
abbrev pub InRange : ℤ → Type 0
InRange (pos n) = n < min_magnitude
InRange (negsuc n) = n < min_magnitude

-- Rounds of division by ten; 20 of them are enough for a number below 10 ^ 20.
unfoldable pub emit : ℕ → ℕ → Text → Text
emit zero n out = out
emit (suc f) n out =
    let more = emit f (n / 10) ((b'0' + n % 10) ∷ out) in if n == 0 then out else more

unfoldable pub digits : ℕ → Text
digits n = if n == 0 then b'0' ∷ [] else emit 20 n []

unfoldable pub to_string : ℤ → Text
unfolding digits emit
to_string (pos n) = digits n
to_string (negsuc n) = b'-' ∷ digits (suc n)

unfoldable pub is_digit : ℕ → Bool
is_digit c = leb b'0' c && leb c b'9'

-- The longest run of digits as a number, with no bound, and the rest.
unfoldable pub scan : ℕ → Text → ℕ × Text
scan n [] = (n, [])
scan n (c ∷ cs) =
    let more = scan (n * 10 + (c - b'0')) cs in if is_digit c then more else (n, c ∷ cs)

-- No digit is an invalid argument, and so is a sign alone.
unfoldable pub magnitude : Text → Option (ℕ × Text)
magnitude [] = none
magnitude (c ∷ cs) = if is_digit c then some (scan 0 (c ∷ cs)) else none

signed : ℕ → ℤ
signed zero = pos 0
signed (suc n) = negsuc n

-- The value and the text behind it; `none` where `ec` is set.
unfoldable pub from_chars : Text → Option (ℤ × Text)
unfolding magnitude scan is_digit signed
from_chars [] = none
from_chars (c ∷ cs) =
    if c == b'-'
    then (magnitude cs >>= λ r. if leb r.0 min_magnitude then some (signed r.0, r.1) else none)
    else magnitude (c ∷ cs) >>= λ r. if ltb r.0 min_magnitude then some (pos r.0, r.1) else none

abbrev pub AreDigits : Text → Type 0
AreDigits = All (λ c. is_digit c ≡ true)

digit_is_digit : (n : ℕ) → is_digit (b'0' + n % 10) ≡ true
unfolding is_digit
digit_is_digit n = ground arith

emit-AreDigits : (f n : ℕ) (out : Text) → AreDigits out → AreDigits (emit f n out)
unfolding emit
emit-AreDigits zero n out h = h
emit-AreDigits (suc f) n out h = elim (Bool-cases (n == 0)) [
  | inl done ↦ rw done h
  | inr more ↦ rw more (emit-AreDigits f (n / 10) ((b'0' + n % 10) ∷ out) (digit_is_digit n, h))
]

scan_step :
    (n d : ℕ) (cs : Text) → is_digit d ≡ true → scan n (d ∷ cs) ≡ scan (n * 10 + (d - b'0')) cs
unfolding scan
scan_step n d cs h = rw h

-- Reading what was emitted gives back the number, in front of what stood behind it.
scan-emit : (f n : ℕ) (out : Text) → n < 10 ^ f → scan 0 (emit f n out) ≡ scan n out
unfolding emit
scan-emit zero n out h = let q : n ≡ 0 = omega arith in rw q
scan-emit (suc f) n out h = elim (Bool-cases (n == 0)) [
  | inl done ↦ let q : n ≡ 0 = ground arith in rw q
  | inr more ↦
      let small : n / 10 < 10 ^ f = omega (arith, pow-suc 10 f) in
      let last : n / 10 * 10 + (b'0' + n % 10 - b'0') ≡ n = omega arith in
      rw more (
        scan-emit f (n / 10) ((b'0' + n % 10) ∷ out) small
        ∙ scan_step (n / 10) (b'0' + n % 10) out (digit_is_digit n)
        ∙ ap (λ k. scan k out) last)
]
