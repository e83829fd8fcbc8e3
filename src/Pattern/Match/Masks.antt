-- ===== src/Pattern/Match/Masks.antt =====
-- What the masked compare of one byte means under each of the four masks that a pattern may hold.
use detour_mod_kit.Base.{
  ℕ, zero, suc, ◌/◌, ◌%◌, ◌<◌, ◌≡◌, ◌↔◌, refl, Bool, true, false, ◌&&◌, arith, ◌==◌, inl, inr,
}
use detour_mod_kit.Pattern.Match.{byte_agrees}
use detour_mod_kit.Pattern.Parse.Shape.{IsCell}

-- A test that holds of each of the first `n` numbers.
first_all : (ℕ → Bool) → ℕ → Bool
first_all test zero = true
first_all test (suc n) = first_all test n && test n

first_all_lem : (test : ℕ → Bool) (n k : ℕ) → first_all test n ≡ true → k < n → test k ≡ true
unfolding first_all
first_all_lem test zero k all below = absurd (omega arith)
first_all_lem test (suc n) k all below = ground (arith, first_all_lem test n k)

abbrev same : Bool → Bool → Bool
same true b = b
same false true = false
same false false = true

same-eq : (a b : Bool) → same a b ≡ true → a ≡ b
same-eq true b h = ground arith
same-eq false b h = ground arith

-- A Boolean function of two bytes that agrees with another on all of them.
abbrev on_bytes : (ℕ → ℕ → Bool) → Bool
on_bytes p = first_all (λ w. first_all (p w) 256) 256

on_bytes_sound :
    (f g : ℕ → ℕ → Bool) (w v : ℕ)
    → on_bytes (λ w v. same (f w v) (g w v)) ≡ true
    → w < 256
    → v < 256
    → f w v ≡ g w v
on_bytes_sound f g w v h p q =
    let row = first_all_lem (λ w. first_all (λ v. same (f w v) (g w v)) 256) 256 w h p in
    same-eq (f w v) (g w v) (first_all_lem (λ v. same (f w v) (g w v)) 256 v row q)

literal_table : on_bytes (λ w v. same (byte_agrees w v 0xFF) (w == v)) ≡ true
unfolding first_all byte_agrees
literal_table = refl

high_table : on_bytes (λ w v. same (byte_agrees w v 0xF0) (w / 16 == v / 16)) ≡ true
unfolding first_all byte_agrees
high_table = refl

low_table : on_bytes (λ w v. same (byte_agrees w v 0x0F) (w % 16 == v % 16)) ≡ true
unfolding first_all byte_agrees
low_table = refl

any_table : on_bytes (λ w v. same (byte_agrees w v 0x00) true) ≡ true
unfolding first_all byte_agrees
any_table = refl

-- A literal byte is equal, a nibble token fixes one nibble, and a wildcard says nothing.
abbrev pub Agrees : ℕ → ℕ → ℕ → Type 0
Agrees w v m = (m ≡ 0xFF → w ≡ v) × (m ≡ 0xF0 → w / 16 ≡ v / 16) × (m ≡ 0x0F → w % 16 ≡ v % 16)

-- The compare of a memory byte with a cell of a pattern is the reading of that cell's token.
pub byte_agrees_iff : (w v m : ℕ) → w < 256 → IsCell v m → (byte_agrees w v m ≡ true) ↔ Agrees w v m
byte_agrees_iff w v m p (inl (e, q)) =
    let t = on_bytes_sound (λ w v. byte_agrees w v 0xFF) (λ w v. w == v) w v literal_table p q in
    rw e (
      (λ h. (λ _. ground (arith, t), λ k. absurd (omega arith), λ k. absurd (omega arith))),
      (λ h. ground (arith, t, h.0 refl)),
    )
byte_agrees_iff w v m p (inr (inl (e, q))) =
    let t =
      on_bytes_sound (λ w v. byte_agrees w v 0x00) (λ w v. true) w v any_table p (omega arith) in
    rw e (
      (λ h. (λ k. absurd (omega arith), λ k. absurd (omega arith), λ k. absurd (omega arith))),
      (λ h. t),
    )
byte_agrees_iff w v m p (inr (inr (inl (e, _, q)))) =
    let t =
      on_bytes_sound (λ w v. byte_agrees w v 0xF0) (λ w v. w / 16 == v / 16) w v high_table p q in
    rw e (
      (λ h. (λ k. absurd (omega arith), λ _. ground (arith, t), λ k. absurd (omega arith))),
      (λ h. ground (arith, t, h.1 refl)),
    )
byte_agrees_iff w v m p (inr (inr (inr (e, q)))) =
    let t =
      on_bytes_sound (λ w v. byte_agrees w v 0x0F) (λ w v. w % 16 == v % 16) w v low_table p
        (omega arith) in
    rw e (
      (λ h. (λ k. absurd (omega arith), λ k. absurd (omega arith), λ _. ground (arith, t))),
      (λ h. ground (arith, t, h.2 refl)),
    )
