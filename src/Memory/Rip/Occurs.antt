-- ===== src/Memory/Rip/Occurs.antt =====
-- What stands at an address, as the opcode prefix that the search compares with it.
use detour_mod_kit.Base.{
  ℕ, zero, suc, ◌+◌, ◌≡◌, ◌≢◌, ◌⊎◌, inl, inr, refl, true, false, List, [], ◌∷◌, some, arith, ◌==◌,
  length, Bool-cases, Option-cases,
}
use detour_mod_kit.Text.{text_eq, text_eq_refl, eq_of_text_eq}
use detour_mod_kit.Memory.{Memory, read_bytes}
use detour_mod_kit.Memory.Rip.{prefix_at, compare_rest}

-- The bytes from `a` on are those of the list.
abbrev pub Stands : Memory → ℕ → List ℕ → Type 0
Stands mem a [] = Unit {0}
Stands mem a (b ∷ bs) = (mem a ≡ some b) × Stands mem (a + 1) bs

-- What is compared with the list can be read and is another: the first byte differs, or it is the
-- same and the others differ.
abbrev pub Absent : Memory → ℕ → List ℕ → Type 0
Absent mem a [] = ⊥
Absent mem a (first ∷ rest) =
    ((c : ℕ) × (mem a ≡ some c) × (c ≢ first))
    ⊎ ((mem a ≡ some first)
        × (bs : List ℕ) × (length bs ≡ length rest)
        × Stands mem (a + 1) bs
        × (bs ≢ rest))

read_bytes-Stands :
    (mem : Memory) (a n : ℕ) (bs : List ℕ)
    → read_bytes mem a n ≡ some bs
    → (length bs ≡ n) × Stands mem a bs
unfolding read_bytes
read_bytes-Stands mem a zero bs e = let q : bs ≡ [] = ground arith in rw q (refl, tt)
read_bytes-Stands mem a (suc n) bs e = elim (Option-cases (mem a)) [
  | inl fault ↦ absurd (ground (arith, (rw fault at e)))
  | inr (b, q) ↦ elim (Option-cases (read_bytes mem (a + 1) n)) [
    | inl fault ↦ absurd (ground (arith, (rw fault at (rw q at e))))
    | inr (cs, r) ↦
        let same : bs ≡ b ∷ cs = ground (arith, (rw r at (rw q at e))) in
        let (long, there) = read_bytes-Stands mem (a + 1) n cs r in
        rw same (ground (arith, long), (q, there))
  ]
]

Stands-read_bytes :
    (mem : Memory) (a : ℕ) (bs : List ℕ) → Stands mem a bs → read_bytes mem a (length bs) ≡ some bs
unfolding read_bytes
Stands-read_bytes mem a [] h = refl
Stands-read_bytes mem a (b ∷ bs) (q, h) = rw q (rw (Stands-read_bytes mem (a + 1) bs h) refl)

text_eq_other : (s t : List ℕ) → s ≢ t → text_eq s t ≡ false
text_eq_other s t n = elim (Bool-cases (text_eq s t)) [
  | inl q ↦ absurd (n (eq_of_text_eq s t q))
  | inr q ↦ q
]

pub prefix_at-Stands :
    (mem : Memory) (prefix : List ℕ) (a : ℕ)
    → prefix_at mem prefix a ≡ some true
    → Stands mem a prefix
unfolding prefix_at compare_rest
prefix_at-Stands mem [] a e = tt
prefix_at-Stands mem (first ∷ rest) a e = elim (Option-cases (mem a)) [
  | inl fault ↦ absurd (ground (arith, (rw (fault, prefix_at) at e)))
  | inr (b, q) ↦ elim (Bool-cases (b == first)) [
    | inr other ↦ absurd (ground (arith, (rw other at (rw (q, prefix_at) at e))))
    | inl hit ↦ elim (Option-cases (read_bytes mem (a + 1) (length rest))) [
      | inl fault ↦ absurd (ground (arith, (rw fault at (rw hit at (rw (q, prefix_at) at e)))))
      | inr (bs, r) ↦
          let t : text_eq bs rest ≡ true =
            ground (arith, (rw r at (rw hit at (rw (q, prefix_at) at e)))) in
          let same : bs ≡ rest = eq_of_text_eq bs rest t in
          let b_is : b ≡ first = ground arith in
          (rw b_is at q, rw same at (read_bytes-Stands mem (a + 1) (length rest) bs r).1)
    ]
  ]
]

pub Stands-prefix_at :
    (mem : Memory) (prefix : List ℕ) (a : ℕ)
    → Stands mem a prefix
    → prefix_at mem prefix a ≡ some true
unfolding prefix_at compare_rest
Stands-prefix_at mem [] a h = refl
Stands-prefix_at mem (first ∷ rest) a (q, h) =
    let hit : (first == first) ≡ true = ground arith in
    rw (q, prefix_at)
      (rw hit (rw (Stands-read_bytes mem (a + 1) rest h) (rw (text_eq_refl rest) refl)))

pub prefix_at-Absent :
    (mem : Memory) (prefix : List ℕ) (a : ℕ)
    → prefix_at mem prefix a ≡ some false
    → Absent mem a prefix
unfolding prefix_at compare_rest
prefix_at-Absent mem [] a e = absurd (ground arith)
prefix_at-Absent mem (first ∷ rest) a e = elim (Option-cases (mem a)) [
  | inl fault ↦ absurd (ground (arith, (rw (fault, prefix_at) at e)))
  | inr (b, q) ↦ elim (Bool-cases (b == first)) [
    | inr other ↦ inl (b, q, λ same. absurd (ground arith))
    | inl hit ↦ elim (Option-cases (read_bytes mem (a + 1) (length rest))) [
      | inl fault ↦ absurd (ground (arith, (rw fault at (rw hit at (rw (q, prefix_at) at e)))))
      | inr (bs, r) ↦
          let t : text_eq bs rest ≡ false =
            ground (arith, (rw r at (rw hit at (rw (q, prefix_at) at e)))) in
          let (long, there) = read_bytes-Stands mem (a + 1) (length rest) bs r in
          let b_is : b ≡ first = ground arith in
          inr (
            rw b_is at q,
            bs,
            long,
            there,
            λ same. let u : text_eq bs rest ≡ true = rw same (text_eq_refl rest) in cc,
          )
    ]
  ]
]

pub Absent-prefix_at :
    (mem : Memory) (prefix : List ℕ) (a : ℕ)
    → Absent mem a prefix
    → prefix_at mem prefix a ≡ some false
unfolding prefix_at compare_rest
Absent-prefix_at mem [] a h = absurd h
Absent-prefix_at mem (first ∷ rest) a (inl (c, q, n)) =
    let miss : (c == first) ≡ false = ground arith in rw (q, prefix_at) (rw miss refl)
Absent-prefix_at mem (first ∷ rest) a (inr (q, bs, long, there, n)) =
    let hit : (first == first) ≡ true = ground arith in
    let r = rw long at (Stands-read_bytes mem (a + 1) bs there) in
    rw (q, prefix_at) (rw hit (rw r (rw (text_eq_other bs rest n) refl)))
