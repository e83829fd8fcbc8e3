-- ===== src/Text/Decimal/RoundTrip.antt =====
-- A ptrdiff_t that is printed reads back, and its print holds no separator of a line format.

use detour_mod_kit.Base.{
  ℕ, zero, suc, ◌+◌, ◌/◌, ◌%◌, ◌^◌, ◌<◌, ◌≡◌, ◌≢◌, refl, true, false, [], ◌∷◌, some, arith, ◌==◌,
  Bool-cases, inl, inr,
}
use detour_mod_kit.Base.Int.{ℤ, pos, negsuc}
use detour_mod_kit.Text.{Text, has_char}
use detour_mod_kit.Text.Decimal.{
  min_magnitude, InRange, emit, digits, to_string, is_digit, scan, magnitude, signed, from_chars,
  AreDigits, emit-AreDigits, scan-emit,
}

emit-ne-nil : (f n : ℕ) (out : Text) → out ≢ [] → emit f n out ≢ []
unfolding emit
emit-ne-nil zero n out h = h
emit-ne-nil (suc f) n out h = elim (Bool-cases (n == 0)) [
  | inl done ↦ rw done h
  | inr more ↦ rw more (emit-ne-nil f (n / 10) ((b'0' + n % 10) ∷ out) (λ e. cc))
]

emit-suc-ne-nil : (f n : ℕ) → n ≢ 0 → emit (suc f) n [] ≢ []
unfolding emit
emit-suc-ne-nil f n h = elim (Bool-cases (n == 0)) [
  | inl done ↦ absurd (h (ground arith))
  | inr more ↦ rw more (emit-ne-nil f (n / 10) ((b'0' + n % 10) ∷ []) (λ e. cc))
]

-- The print of a number: digits, at least one, that read as the number.
pub record Prints (s : Text) (n : ℕ) : Type 0 where
  pub filled : s ≢ []
  pub digits : AreDigits s
  pub reads : scan 0 s ≡ (n, [])

scan_nil : (n : ℕ) → scan n [] ≡ (n, [])
unfolding scan
scan_nil n = refl

zero-Prints : Prints (b'0' ∷ []) 0
unfolding scan is_digit
zero-Prints = record { filled = λ e. cc; digits = (refl, tt); reads = refl }

pub digits-Prints : (n : ℕ) → n < 10 ^ 20 → Prints (digits n) n
unfolding digits
digits-Prints n h = elim (Bool-cases (n == 0)) [
  | inl nothing ↦ let q : n ≡ 0 = ground arith in rw q zero-Prints
  | inr more ↦ rw more (record {
    filled = emit-suc-ne-nil 19 n (ground arith);
    digits = emit-AreDigits 20 n [] tt;
    reads = rw (scan-emit 20 n [] h) (scan_nil n);
  })
]

pub magnitude-Prints : (s : Text) (n : ℕ) → Prints s n → magnitude s ≡ some (n, [])
unfolding magnitude
magnitude-Prints [] n p = absurd (p.filled refl)
magnitude-Prints (c ∷ cs) n p = rw p.digits.0 (rw p.reads)

not_minus : (c : ℕ) → is_digit c ≡ true → (c == b'-') ≡ false
unfolding is_digit
not_minus c h = ground arith

from_chars-pos :
    (s : Text) (n : ℕ) → Prints s n → n < min_magnitude → from_chars s ≡ some (pos n, [])
unfolding from_chars
from_chars-pos [] n p h = absurd (p.filled refl)
from_chars-pos (c ∷ cs) n p h =
    rw (not_minus c p.digits.0) (rw (magnitude-Prints (c ∷ cs) n p) (ground arith))

from_chars-neg :
    (s : Text) (n : ℕ)
    → Prints s (suc n)
    → n < min_magnitude
    → from_chars (b'-' ∷ s) ≡ some (negsuc n, [])
unfolding from_chars signed
from_chars-neg s n p h = rw (magnitude-Prints s (suc n) p) (ground arith)

pub from_chars-to_string : (z : ℤ) → InRange z → from_chars (to_string z) ≡ some (z, [])
unfolding to_string
from_chars-to_string (pos n) h = from_chars-pos (digits n) n (digits-Prints n (omega arith)) h
from_chars-to_string (negsuc n) h =
    from_chars-neg (digits (suc n)) n (digits-Prints (suc n) (omega arith)) h

AreDigits-lacks : (c : ℕ) (s : Text) → (c < b'-') → AreDigits s → has_char c s ≡ false
unfolding has_char is_digit
AreDigits-lacks c [] h d = refl
AreDigits-lacks c (x ∷ s) h (p, d) = ground (arith, AreDigits-lacks c s h d)

-- Tab and newline are below every char of a number.
pub has_char-to_string : (c : ℕ) (z : ℤ) → InRange z → c < b'-' → has_char c (to_string z) ≡ false
unfolding to_string has_char
has_char-to_string c (pos n) r h =
    AreDigits-lacks c (digits n) h (digits-Prints n (omega arith)).digits
has_char-to_string c (negsuc n) r h =
    ground
      (arith, AreDigits-lacks c (digits (suc n)) h (digits-Prints (suc n) (omega arith)).digits)
