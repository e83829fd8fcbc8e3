-- ===== src/Drift/Cells.antt =====
-- The parts of a line of a drift manifest, as the format describes them.
use detour_mod_kit.Base.{
  ◌≡◌, ◌≢◌, ◌⊎◌, inl, inr, refl, ap, sym, ◌∙◌, Bool, true, false, [], ◌∷◌, ◌++◌, Option, none, some,
  arith, append-nil, ◌==◌, Bool-cases,
}
use detour_mod_kit.Base.Int.{ℤ}
use detour_mod_kit.Text.{Text, codes, text_eq, eq_of_text_eq}
use detour_mod_kit.Text.Decimal.{from_chars}
use detour_mod_kit.Errors.{ErrorCode, ok, bad_descriptor, heal_no_match, heal_ambiguous}
use detour_mod_kit.Drift.{
  carriage_return, spans, parse_offset, parse_heal_error, strip_cr, parse_healed,
}
use detour_mod_kit.Drift.RoundTrip.{strip_cr-append}

-- `s` is the line `l` without the one carriage return that it may end in.
abbrev pub Stripped : Text → Text → Type 0
Stripped l s =
    (l ≡ s ++ carriage_return ∷ []) ⊎ ((l ≡ s) × ((t : Text) → l ≢ t ++ carriage_return ∷ []))

-- The flag's field and the error's.
abbrev pub IsFlag : Bool → Text → Type 0
IsFlag true t = t ≡ codes "1"
IsFlag false t = t ≡ codes "0"

abbrev pub IsToken : ErrorCode → Text → Type 0
IsToken ok t = t ≡ codes "Ok"
IsToken bad_descriptor t = t ≡ codes "BadDescriptor"
IsToken heal_no_match t = t ≡ codes "NoMatch"
IsToken heal_ambiguous t = t ≡ codes "Ambiguous"
IsToken _ t = ⊥

pub strip_cr-Stripped : (l : Text) → Stripped l (strip_cr l)
unfolding strip_cr
strip_cr-Stripped [] = inr (refl, λ t q. go t q)
  where
    go : (t : Text) → [] ≢ t ++ carriage_return ∷ []
    go [] q = cc
    go (c ∷ t) q = cc
strip_cr-Stripped (c ∷ []) = elim (Bool-cases (c == carriage_return)) [
  | inl hit ↦ let q : c ≡ carriage_return = ground arith in rw hit (inl (ap (λ x. x ∷ []) q))
  | inr miss ↦ rw miss (inr (refl, λ t q. go t miss q))
]
  where
    go : (t : Text) → (c == carriage_return) ≡ false → c ∷ [] ≢ t ++ carriage_return ∷ []
    go [] miss q = let e : c ≡ carriage_return = cc in ground arith
    go (d ∷ []) miss q = cc
    go (d ∷ x ∷ t) miss q = cc
strip_cr-Stripped (c ∷ d ∷ cs) = elim (strip_cr-Stripped (d ∷ cs)) [
  | inl q ↦ inl (ap (◌∷◌ c) q)
  | inr (q, n) ↦ inr (ap (◌∷◌ c) q, λ t p. go n t p)
]
  where
    go :
        ((t : Text) → d ∷ cs ≢ t ++ carriage_return ∷ [])
        → (t : Text) → c ∷ d ∷ cs ≢ t ++ carriage_return ∷ []
    go n [] p = cc
    go n (x ∷ t) p = n t cc

pub Stripped-strip_cr : (l s : Text) → Stripped l s → strip_cr l ≡ s
Stripped-strip_cr l s (inl q) =
    let trimmed : strip_cr (s ++ carriage_return ∷ []) ≡ s =
      strip_cr-append s carriage_return [] ∙ unfold strip_cr in append-nil s in
    rw q trimmed
Stripped-strip_cr l s (inr (q, n)) = elim (strip_cr-Stripped l) [
  | inl p ↦ absurd (n (strip_cr l) p)
  | inr (p, _) ↦ sym p ∙ q
]

pub parse_offset-from_chars :
    (t : Text) (z : ℤ) → parse_offset t ≡ some z → from_chars t ≡ some (z, [])
unfolding parse_offset spans
parse_offset-from_chars t z e = go (from_chars t) refl
  where
    go : (o : Option (ℤ × Text)) → from_chars t ≡ o → from_chars t ≡ some (z, [])
    go none q = absurd (ground (arith, (rw (q, parse_offset) at e)))
    go (some (y, c ∷ cs)) q = absurd (ground (arith, (rw (q, parse_offset) at e)))
    go (some (y, [])) q = let p : y ≡ z = ground (arith, (rw (q, parse_offset) at e)) in rw p at q

pub from_chars-parse_offset :
    (t : Text) (z : ℤ) → from_chars t ≡ some (z, []) → parse_offset t ≡ some z
unfolding parse_offset spans
from_chars-parse_offset t z q = rw (q, parse_offset) refl

pub parse_healed-IsFlag : (t : Text) (b : Bool) → parse_healed t ≡ some b → IsFlag b t
unfolding parse_healed
parse_healed-IsFlag t b e = elim (Bool-cases (text_eq t (codes "1"))) [
  | inl one ↦
      let is : b ≡ true = ground (arith, (rw (one, parse_healed) at e)) in
      rw is (eq_of_text_eq t (codes "1") one)
  | inr n ↦ elim (Bool-cases (text_eq t (codes "0"))) [
    | inl zero' ↦
        let is : b ≡ false = ground (arith, (rw zero' at (rw (n, parse_healed) at e))) in
        rw is (eq_of_text_eq t (codes "0") zero')
    | inr m ↦ absurd (ground (arith, (rw m at (rw (n, parse_healed) at e))))
  ]
]

pub IsFlag-parse_healed : (t : Text) (b : Bool) → IsFlag b t → parse_healed t ≡ some b
unfolding parse_healed text_eq
IsFlag-parse_healed t true q = rw q refl
IsFlag-parse_healed t false q = rw q refl

pub parse_heal_error-IsToken :
    (t : Text) (c : ErrorCode) → parse_heal_error t ≡ some c → IsToken c t
unfolding parse_heal_error
parse_heal_error-IsToken t c e = elim (Bool-cases (text_eq t (codes "Ok"))) [
  | inl y ↦
      let is : c ≡ ok = ground (arith, (rw (y, parse_heal_error) at e)) in
      rw is (eq_of_text_eq t (codes "Ok") y)
  | inr n ↦ elim (Bool-cases (text_eq t (codes "BadDescriptor"))) [
    | inl y ↦
        let is : c ≡ bad_descriptor = ground (arith, (rw y at (rw (n, parse_heal_error) at e))) in
        rw is (eq_of_text_eq t (codes "BadDescriptor") y)
    | inr n' ↦ elim (Bool-cases (text_eq t (codes "NoMatch"))) [
      | inl y ↦
          let f = rw n' at (rw (n, parse_heal_error) at e) in
          let is : c ≡ heal_no_match = ground (arith, (rw y at f)) in
          rw is (eq_of_text_eq t (codes "NoMatch") y)
      | inr n'' ↦
          let f = rw n'' at (rw n' at (rw (n, parse_heal_error) at e)) in
          elim (Bool-cases (text_eq t (codes "Ambiguous"))) [
            | inl y ↦
                let is : c ≡ heal_ambiguous = ground (arith, (rw y at f)) in
                rw is (eq_of_text_eq t (codes "Ambiguous") y)
            | inr m ↦ absurd (ground (arith, (rw m at f)))
          ]
    ]
  ]
]

pub IsToken-parse_heal_error :
    (t : Text) (c : ErrorCode) → IsToken c t → parse_heal_error t ≡ some c
unfolding parse_heal_error text_eq
IsToken-parse_heal_error t ok q = rw q refl
IsToken-parse_heal_error t bad_descriptor q = rw q refl
IsToken-parse_heal_error t heal_no_match q = rw q refl
IsToken-parse_heal_error t heal_ambiguous q = rw q refl
IsToken-parse_heal_error t _ q = absurd q
