-- ===== src/Text/Unsigned/RoundTrip.antt =====
-- An unsigned that is printed in either base reads back.
use native.Mathlib.Nat.{pow-suc}
use detour_mod_kit.Base.{
  ℕ, zero, suc, ◌+◌, ◌*◌, ◌/◌, ◌%◌, ◌^◌, ◌<◌, ◌≡◌, refl, ap, ◌∙◌, [], ◌∷◌, some, arith, ◌==◌, All,
  Bool-cases, inl, inr,
}
use detour_mod_kit.Text.{Text}
use detour_mod_kit.Text.Decimal.{digits}
use detour_mod_kit.Text.Decimal.RoundTrip.{digits-Prints, magnitude-Prints}
use detour_mod_kit.Text.Unsigned.{
  unsigned_values, hex_char, hex_digit, emit_hex, hex_digits, scan_hex, magnitude_hex,
  from_chars_unsigned, from_chars_hex,
}

pub from_chars_unsigned-digits :
    (n : ℕ) → n < unsigned_values → from_chars_unsigned (digits n) ≡ some (n, [])
unfolding from_chars_unsigned
from_chars_unsigned-digits n h =
    rw (magnitude-Prints (digits n) n (digits-Prints n (omega arith))) (ground arith)

hex_digit-hex_char : (n : ℕ) → hex_digit (hex_char (n % 16)) ≡ some (n % 16)
unfolding hex_digit hex_char
hex_digit-hex_char n = ground arith

scan_hex_step :
    (n d c : ℕ) (cs : Text) → hex_digit c ≡ some d → scan_hex n (c ∷ cs) ≡ scan_hex (n * 16 + d) cs
unfolding scan_hex
scan_hex_step n d c cs h = rw (h, scan_hex)

scan_hex-emit_hex :
    (f n : ℕ) (out : Text) → n < 16 ^ f → scan_hex 0 (emit_hex f n out) ≡ scan_hex n out
unfolding emit_hex
scan_hex-emit_hex zero n out h = let q : n ≡ 0 = omega arith in rw q
scan_hex-emit_hex (suc f) n out h = elim (Bool-cases (n == 0)) [
  | inl done ↦ let q : n ≡ 0 = ground arith in rw q
  | inr more ↦
      let small : n / 16 < 16 ^ f = omega (arith, pow-suc 16 f) in
      let last : n / 16 * 16 + n % 16 ≡ n = omega arith in
      rw more (
        scan_hex-emit_hex f (n / 16) (hex_char (n % 16) ∷ out) small
        ∙ scan_hex_step (n / 16) (n % 16) (hex_char (n % 16)) out (hex_digit-hex_char n)
        ∙ ap (λ k. scan_hex k out) last)
]

-- The digits begin with a digit.
Starts : Text → Type 0
Starts [] = ⊥
Starts (c ∷ cs) = (d : ℕ) × (hex_digit c ≡ some d)

emit_hex-Starts : (f n : ℕ) (out : Text) → Starts out → Starts (emit_hex f n out)
unfolding emit_hex Starts
emit_hex-Starts zero n out h = h
emit_hex-Starts (suc f) n out h = elim (Bool-cases (n == 0)) [
  | inl done ↦ rw done h
  | inr more ↦
      rw more (emit_hex-Starts f (n / 16) (hex_char (n % 16) ∷ out) (n % 16, hex_digit-hex_char n))
]

magnitude_hex-Starts : (s : Text) → Starts s → magnitude_hex s ≡ some (scan_hex 0 s)
unfolding Starts magnitude_hex
magnitude_hex-Starts [] h = absurd h
magnitude_hex-Starts (c ∷ cs) (d, h) =
    let e : 0 * 16 + d ≡ d = omega arith in
    rw (h, magnitude_hex) (rw (scan_hex_step 0 d c cs h) (rw e))

magnitude_hex-hex_digits :
    (n : ℕ) → n < unsigned_values → magnitude_hex (hex_digits n) ≡ some (n, [])
unfolding hex_digits
magnitude_hex-hex_digits n h = elim (Bool-cases (n == 0)) [
  | inl nothing ↦
      let q : n ≡ 0 = ground arith in rw q (unfold magnitude_hex scan_hex hex_digit in refl)
  | inr more ↦ rw more (
      magnitude_hex-Starts (emit_hex 16 n []) (
        unfold emit_hex in
        rw more (
          emit_hex-Starts 15 (n / 16) (hex_char (n % 16) ∷ [])
            (unfold Starts in (n % 16, hex_digit-hex_char n))))
      ∙ ap some (scan_hex-emit_hex 16 n [] (omega arith) ∙ (unfold scan_hex in refl)))
]

pub from_chars_hex-hex_digits :
    (n : ℕ) → n < unsigned_values → from_chars_hex (hex_digits n) ≡ some (n, [])
unfolding from_chars_hex
from_chars_hex-hex_digits n h = rw (magnitude_hex-hex_digits n h) (ground arith)

-- No blank and no sign stands in what is printed.
hex_char-bounds : (n : ℕ) → b'-' < hex_char (n % 16)
unfolding hex_char
hex_char-bounds n = ground arith

emit_hex-bounds :
    (f n : ℕ) (out : Text) → All (λ c. b'-' < c) out → All (λ c. b'-' < c) (emit_hex f n out)
unfolding emit_hex
emit_hex-bounds zero n out h = h
emit_hex-bounds (suc f) n out h = elim (Bool-cases (n == 0)) [
  | inl done ↦ rw done h
  | inr more ↦ rw more (emit_hex-bounds f (n / 16) (hex_char (n % 16) ∷ out) (hex_char-bounds n, h))
]

pub hex_digits-bounds : (n : ℕ) → All (λ c. b'-' < c) (hex_digits n)
unfolding hex_digits
hex_digits-bounds n = elim (Bool-cases (n == 0)) [
  | inl nothing ↦ rw nothing (omega arith)
  | inr more ↦ rw more (emit_hex-bounds 16 n [] tt)
]
