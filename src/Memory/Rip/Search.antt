-- ===== src/Memory/Rip/Search.antt =====
-- Which occurrence of an opcode prefix the search resolves.
use detour_mod_kit.Base.{
  ℕ, zero, suc, ◌+◌, ◌-◌, ◌≤◌, ◌<◌, ◌≡◌, ◌≢◌, ◌⊎◌, ◌↔◌, inl, inr, refl, Bool, true, false, List,
  Option, none, some, arith, ltb, ◌==◌, length, Bool-cases,
}
use detour_mod_kit.Errors.{ErrorCode, Result, value, failure}
use detour_mod_kit.Memory.{Memory}
use detour_mod_kit.Memory.Rip.Occurs.{
  Stands, Absent, prefix_at-Stands, prefix_at-Absent, Stands-prefix_at, Absent-prefix_at,
}
use detour_mod_kit.Memory.Rip.{
  is_valid_rip_relative_layout, resolve_rip_relative, prefix_at, find_loop,
  find_and_resolve_rip_relative,
}

module _ (mem : Memory) (base : ℕ) (prefix : List ℕ) (len : ℕ) where
  -- Other bytes stand at index `i`, or those of the prefix do and do not resolve.
  abbrev pub Decoy : ℕ → Type 0
  Decoy i =
      Absent mem (base + i) prefix
      ⊎ (Stands mem (base + i) prefix
          × (c : ErrorCode) × (resolve_rip_relative mem (base + i) (length prefix) len ≡ failure c))

  -- The first of the `n` indices from `i` on that is no decoy resolves to `target`.
  pub record FirstHit (n i target : ℕ) : Type 0 where
    pub index : ℕ
    pub from : i ≤ index
    pub below : index < i + n
    pub is_there : Stands mem (base + index) prefix
    pub resolves : resolve_rip_relative mem (base + index) (length prefix) len ≡ value target
    pub before : (j : ℕ) → i ≤ j → j < index → Decoy j

  further : (n i target : ℕ) → Decoy i → FirstHit n (i + 1) target → FirstHit (suc n) i target
  further n i target d h = record {
    index = h.index;
    from = omega (arith, h.from);
    below = omega (arith, h.below);
    is_there = h.is_there;
    resolves = h.resolves;
    before = λ j p q. elim (Bool-cases (j == i)) [
      | inl same ↦ let e : j ≡ i = ground arith in rw e d
      | inr other ↦ h.before j (ground arith) q
    ];
  }

  at_once :
      (n i target : ℕ)
      → Stands mem (base + i) prefix
      → resolve_rip_relative mem (base + i) (length prefix) len ≡ value target
      → FirstHit (suc n) i target
  at_once n i target p q = record {
    index = i;
    from = omega arith;
    below = omega arith;
    is_there = p;
    resolves = q;
    before = λ j a b. absurd (omega arith);
  }

  Result-cases : (r : Result ℕ) → ((t : ℕ) × (r ≡ value t)) ⊎ ((c : ErrorCode) × (r ≡ failure c))
  Result-cases (value t) = inl (t, refl)
  Result-cases (failure c) = inr (c, refl)

  prefix_cases :
      (i : ℕ)
      → (prefix_at mem prefix (base + i) ≡ none)
        ⊎ (prefix_at mem prefix (base + i) ≡ some false)
        ⊎ (prefix_at mem prefix (base + i) ≡ some true)
  prefix_cases i = go (prefix_at mem prefix (base + i))
    where
      go : (o : Option Bool) → (o ≡ none) ⊎ (o ≡ some false) ⊎ (o ≡ some true)
      go none = inl refl
      go (some false) = inr (inl refl)
      go (some true) = inr (inr refl)

  find_loop-FirstHit :
      (n i : ℕ) (last : Option ErrorCode) (target : ℕ)
      → find_loop mem base prefix len n i last ≡ some (value target)
      → FirstHit n i target
  unfolding find_loop
  find_loop-FirstHit zero i last target e = absurd (ground arith)
  find_loop-FirstHit (suc n) i last target e = elim (prefix_cases i) [
    | inl fault ↦ absurd (ground (arith, (rw (fault, find_loop) at e)))
    | inr (inl absent) ↦
        further n i target (inl (prefix_at-Absent mem prefix (base + i) absent))
          (find_loop-FirstHit n (i + 1) last target (rw (absent, find_loop) at e))
    | inr (inr present) ↦
        elim (Result-cases (resolve_rip_relative mem (base + i) (length prefix) len)) [
          | inl (t, q) ↦
              let f = rw (present, find_loop) at e in
              let same : t ≡ target = ground (arith, (rw q at f)) in
              at_once n i target (prefix_at-Stands mem prefix (base + i) present) (rw same at q)
          | inr (c, q) ↦
              let f = rw (present, find_loop) at e in
              further n i target (inr (prefix_at-Stands mem prefix (base + i) present, c, q))
                (find_loop-FirstHit n (i + 1) (some c) target (rw q at f))
        ]
  ]

  shrink :
      (n i target : ℕ) (h : FirstHit (suc n) i target) → i < h.index → FirstHit n (i + 1) target
  shrink n i target h later = record {
    index = h.index;
    from = omega arith;
    below = omega (arith, h.below);
    is_there = h.is_there;
    resolves = h.resolves;
    before = λ j p q. h.before j (omega arith) q;
  }

  FirstHit-find_loop :
      (n i : ℕ) (last : Option ErrorCode) (target : ℕ)
      → FirstHit n i target
      → find_loop mem base prefix len n i last ≡ some (value target)
  unfolding find_loop
  FirstHit-find_loop zero i last target h = absurd (omega (arith, h.from, h.below))
  FirstHit-find_loop (suc n) i last target h = elim (Bool-cases (h.index == i)) [
    | inl same ↦
        let e : h.index ≡ i = ground arith in
        rw (Stands-prefix_at mem prefix (base + i) (rw e at h.is_there), find_loop)
          (rw (rw e at h.resolves))
    | inr other ↦
        let later : i < h.index = ground (arith, h.from) in
        elim (h.before i (omega arith) later) [
          | inl absent ↦
              rw (Absent-prefix_at mem prefix (base + i) absent, find_loop)
                (FirstHit-find_loop n (i + 1) last target (shrink n i target h later))
          | inr (present, c, q) ↦
              rw (Stands-prefix_at mem prefix (base + i) present, find_loop)
                (rw q (FirstHit-find_loop n (i + 1) (some c) target (shrink n i target h later)))
        ]
  ]

  -- A search whose arguments are valid finds a target exactly when it is that of the first index at
  -- which the bytes of memory are those of the whole prefix, with room for its displacement, and which
  -- resolves at all; each index before it either has other bytes than the prefix, all of which can be
  -- read, or is an occurrence that does not resolve.
  pub find_and_resolve_iff :
      (size target : ℕ)
      → base ≢ 0
      → 0 < length prefix
      → is_valid_rip_relative_layout (length prefix) len ≡ true
      → length prefix + 4 ≤ size
      → (find_and_resolve_rip_relative mem base size prefix len ≡ some (value target))
        ↔ FirstHit (size - (length prefix + 4) + 1) 0 target
  unfolding find_and_resolve_rip_relative
  find_and_resolve_iff size target n p v room =
      let some_base : (base == 0) ≡ false = ground arith in
      let some_prefix : (length prefix == 0) ≡ false = ground arith in
      let fits : ltb size (length prefix + 4) ≡ false = ground arith in
      let rounds = size - (length prefix + 4) + 1 in
      rw (some_base, some_prefix)
        (rw v (
          rw fits
            (find_loop-FirstHit rounds 0 none target, FirstHit-find_loop rounds 0 none target)))
