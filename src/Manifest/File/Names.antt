-- ===== src/Manifest/File/Names.antt =====
-- A rung's section name reads back as its record's name and its index.
use native.Mathlib.Nat.{pow-suc}
use detour_mod_kit.Base.{
  ℕ, zero, suc, ◌+◌, ◌-◌, ◌*◌, ◌/◌, ◌%◌, ◌^◌, ◌<◌, ◌≡◌, refl, sym, ap, ◌∙◌, true, false, [], ◌∷◌,
  ◌++◌, none, some, arith, ◌==◌, Bool-cases, Option-cases, inl, inr,
}
use detour_mod_kit.Text.{Text, codes, text_eq, text_eq_refl, eq_of_text_eq, has_char}
use detour_mod_kit.Text.Decimal.{digits, emit, is_digit, AreDigits}
use detour_mod_kit.Text.Decimal.RoundTrip.{Prints, digits-Prints}
use detour_mod_kit.Text.Unsigned.{unsigned_values}
use detour_mod_kit.Manifest.Numbers.{to_lower}
use detour_mod_kit.Manifest.Entries.{same}
use detour_mod_kit.Manifest.File.{
  after_prefix, split_last, parse_index, rung_of, parse_rung_section_name, section_of, rung_section,
  label_is_serializable,
}

-- The digits of an index, without a bound on the text before them.
parse_index_step :
    (n d : ℕ) (cs : Text)
    → is_digit d ≡ true
    → n * 10 + (d - b'0') < unsigned_values
    → parse_index n (d ∷ cs) ≡ parse_index (n * 10 + (d - b'0')) cs
unfolding parse_index is_digit
parse_index_step n d cs h l = ground arith

parse_index-emit :
    (f n : ℕ) (out : Text)
    → n < 10 ^ f
    → n < unsigned_values
    → parse_index 0 (emit f n out) ≡ parse_index n out
unfolding emit
parse_index-emit zero n out h l = let q : n ≡ 0 = omega arith in rw q
parse_index-emit (suc f) n out h l = elim (Bool-cases (n == 0)) [
  | inl done ↦ let q : n ≡ 0 = ground arith in rw q
  | inr more ↦
      let small : n / 10 < 10 ^ f = omega (arith, pow-suc 10 f) in
      let last : n / 10 * 10 + (b'0' + n % 10 - b'0') ≡ n = omega arith in
      rw more (
        parse_index-emit f (n / 10) ((b'0' + n % 10) ∷ out) small (omega arith)
        ∙ parse_index_step (n / 10) (b'0' + n % 10) out (unfold is_digit in ground arith)
            (omega arith)
        ∙ ap (λ k. parse_index k out) last)
]

pub parse_index-digits : (n : ℕ) → n < unsigned_values → parse_index 0 (digits n) ≡ some n
unfolding digits
parse_index-digits n h = elim (Bool-cases (n == 0)) [
  | inl nothing ↦ let q : n ≡ 0 = ground arith in rw q (unfold parse_index in refl)
  | inr more ↦ rw more (parse_index-emit 20 n [] (omega arith) h ∙ (unfold parse_index in refl))
]

NoDot : Text → Type 0
NoDot s = has_char b'.' s ≡ false

AreDigits-NoDot : (s : Text) → AreDigits s → NoDot s
unfolding NoDot has_char is_digit
AreDigits-NoDot [] h = refl
AreDigits-NoDot (c ∷ s) (h, t) = ground (arith, AreDigits-NoDot s t)

split_last-NoDot : (s : Text) → NoDot s → split_last s ≡ none
unfolding NoDot has_char split_last after_prefix
split_last-NoDot [] h = refl
split_last-NoDot (c ∷ s) h = ground (arith, split_last-NoDot s)

split_last-none :
    (c : ℕ) (s : Text)
    → after_prefix (codes ".rung.") (c ∷ s) ≡ none
    → split_last s ≡ none
    → split_last (c ∷ s) ≡ none
unfolding split_last
split_last-none c s a h = rw (h, split_last) (rw (a, split_last))

split_last-here :
    (c : ℕ) (s t : Text)
    → after_prefix (codes ".rung.") (c ∷ s) ≡ some t
    → split_last s ≡ none
    → split_last (c ∷ s) ≡ some ([], t)
unfolding split_last
split_last-here c s t a h = rw (h, split_last) (rw (a, split_last))

-- Where what follows is a digit, the dot behind "rung" begins no further ".rung.".
split_last-rung :
    (c : ℕ) (s : Text)
    → (b'r' == c) ≡ false
    → split_last (c ∷ s) ≡ none
    → split_last (codes ".rung." ++ (c ∷ s)) ≡ some ([], c ∷ s)
unfolding after_prefix
split_last-rung c s r h = split_last-here b'.' (codes "rung." ++ (c ∷ s)) (c ∷ s) refl (
    split_last-none b'r' (codes "ung." ++ (c ∷ s)) refl (
      split_last-none b'u' (codes "ng." ++ (c ∷ s)) refl (
        split_last-none b'n' (codes "g." ++ (c ∷ s)) refl (
          split_last-none b'g' (codes "." ++ (c ∷ s)) refl
            (split_last-none b'.' (c ∷ s) (rw r) h)))))

split_last-suffix : (p s t : Text) → split_last s ≡ some ([], t) → split_last (p ++ s) ≡ some (p, t)
unfolding split_last
split_last-suffix [] s t h = h
split_last-suffix (c ∷ p) s t h = rw (split_last-suffix p s t h, split_last)

pub digits-form :
    (n : ℕ) → n < unsigned_values → (c : ℕ) × (cs : Text) × (digits n ≡ c ∷ cs) × AreDigits (c ∷ cs)
digits-form n h = go (digits n) (digits-Prints n (omega arith))
  where
    go : (s : Text) → Prints s n → (c : ℕ) × (cs : Text) × (s ≡ c ∷ cs) × AreDigits (c ∷ cs)
    go [] p = absurd (p.filled refl)
    go (c ∷ cs) p = (c, cs, refl, p.digits)

digit-ne-r : (c : ℕ) → is_digit c ≡ true → (b'r' == c) ≡ false
unfolding is_digit
digit-ne-r c h = ground arith

rung_of-cons :
    (p : Text) (c : ℕ) (cs : Text) (n : ℕ)
    → parse_index 0 (c ∷ cs) ≡ some n
    → rung_of (p, c ∷ cs) ≡ some (p, n)
unfolding rung_of
rung_of-cons p c cs n h = rw (h, rung_of)

rung_of-digits :
    (section : Text) (n : ℕ) → n < unsigned_values → rung_of (section, digits n) ≡ some (section, n)
rung_of-digits section n h =
    let (c, cs, e, d) = digits-form n h in
    rw e (rung_of-cons section c cs n (sym (ap (parse_index 0) e) ∙ parse_index-digits n h))

name_of_split :
    (name : Text) (r : Text × Text)
    → split_last name ≡ some r
    → parse_rung_section_name name ≡ rung_of r
unfolding parse_rung_section_name
name_of_split name r h = rw (h, parse_rung_section_name)

pub parse_rung_section_name-rung_section :
    (section : Text) (n : ℕ)
    → n < unsigned_values
    → parse_rung_section_name (rung_section section n) ≡ some (section, n)
parse_rung_section_name-rung_section section n h =
    let (c, cs, e, d) = digits-form n h in
    let suffix : split_last (codes ".rung." ++ digits n) ≡ some ([], digits n) = rw e (
      split_last-rung c cs (digit-ne-r c d.0)
        (split_last-NoDot (c ∷ cs) (AreDigits-NoDot (c ∷ cs) d))) in
    name_of_split (rung_section section n) (section, digits n)
      (split_last-suffix section (codes ".rung." ++ digits n) (digits n) suffix)
    ∙ rung_of-digits section n h

-- A label that may be written names no rung.
pub label-no_rung :
    (label : Text)
    → label_is_serializable label ≡ true
    → parse_rung_section_name (section_of label) ≡ none
unfolding label_is_serializable
label-no_rung [] h = cc
label-no_rung (c ∷ cs) h = elim (Option-cases (parse_rung_section_name (section_of (c ∷ cs)))) [
  | inl e ↦ e
  | inr (r, e) ↦ ground (arith, e)
]

pub same_refl : (s : Text) → same s s ≡ true
unfolding same
same_refl s = text_eq_refl (to_lower s)

pub text_eq-same : (s t : Text) → same s t ≡ false → text_eq s t ≡ false
text_eq-same s t h = elim (Bool-cases (text_eq s t)) [
  | inl e ↦ cc (same_refl s, eq_of_text_eq s t e)
  | inr e ↦ e
]
