-- ===== src/Memory/Chain.antt =====
-- `guarded_resolve_chain` of src/internal/memory_guarded.cpp, in the build whose reads are the guarded
-- copy, with ChainStep of include/DetourModKit/memory.hpp. The trace buffer is the list of what was
-- written to it, in order; `none` for its pointer is the capacity 0.
use detour_mod_kit.Base.{
  ℕ, zero, suc, ◌+◌, ◌-◌, ◌≤◌, ◌<◌, ◌≡◌, ◌⊎◌, inl, inr, refl, sym, ap, ◌∙◌, Bool, true, false, ◌||◌,
  List, [], ◌∷◌, ◌++◌, none, some, arith, ltb, leb, if◌then◌else◌, append_assoc, append-nil,
  Option-cases, Bool-cases,
}
use detour_mod_kit.Base.Int.{ℤ}
use detour_mod_kit.Memory.{Memory, userspace_ptr_max, offset, guarded_read}

pub record ChainStep : Type 0 where
  pub offset_of : ℤ
  pub min_valid : ℕ

pub record ChainWalkOutcome : Type 0 where
  pub address : ℕ
  pub fail_index : ℕ
  pub ok : Bool
  pub trace : List ℕ

abbrev stopped : ℕ → List ℕ → ChainWalkOutcome
stopped i trace = record { address = 0; fail_index = i; ok = false; trace = trace }

abbrev reached : ℕ → List ℕ → ChainWalkOutcome
reached leaf trace = record { address = leaf; fail_index = 0; ok = true; trace = trace }

-- `trace[i] = value` where it fits.
abbrev note : ℕ → ℕ → List ℕ → ℕ → List ℕ
note limit i trace value = if ltb i limit then trace ++ value ∷ [] else trace

-- The hops from index `i` on. The list of the steps is empty only where `count` is 0.
unfoldable pub walk : Memory → ℕ → ℕ → ℕ → List ChainStep → List ℕ → ChainWalkOutcome
walk mem limit cur i [] trace = reached cur trace
walk mem limit cur i (s ∷ []) trace =
    let leaf = offset cur s.offset_of in reached leaf (note limit i trace leaf)
walk mem limit cur i (s ∷ t ∷ steps) trace = elim (guarded_read mem 8 (offset cur s.offset_of)) [
  | none ↦ stopped i trace
  | some next ↦
      let rest = walk mem limit next (i + 1) (t ∷ steps) (note limit i trace next) in
      if ltb next s.min_valid || leb userspace_ptr_max next then stopped i trace else rest
]

unfoldable pub guarded_resolve_chain : Memory → ℕ → List ChainStep → ℕ → ChainWalkOutcome
guarded_resolve_chain mem base steps trace_cap = walk mem trace_cap base 0 steps []

abbrev pub take {ℓ} : {A : Type ℓ} → ℕ → List A → List A
take zero xs = []
take (suc n) [] = []
take (suc n) (x ∷ xs) = x ∷ take n xs

-- A hop reads a link at its offset, and the link is within the bounds of the hop.
pub record Link (mem : Memory) (s : ChainStep) (cur next : ℕ) : Type 0 where
  pub reads : guarded_read mem 8 (offset cur s.offset_of) ≡ some next
  pub floor : s.min_valid ≤ next
  pub ceiling : next < userspace_ptr_max

-- A chain leads over the links to its leaf, which the last step only adds to.
abbrev pub Leads : Memory → ℕ → List ChainStep → List ℕ → Type 0
Leads mem cur [] values = values ≡ []
Leads mem cur (s ∷ []) values = values ≡ offset cur s.offset_of ∷ []
Leads mem cur (s ∷ t ∷ steps) [] = ⊥
Leads mem cur (s ∷ t ∷ steps) (next ∷ values) =
    Link mem s cur next × Leads mem next (t ∷ steps) values

-- The hop at which a chain breaks, counted from `i`: those before it have links, and it has none.
abbrev pub Breaks : Memory → ℕ → ℕ → List ChainStep → ℕ → Type 0
Breaks mem cur i [] k = ⊥
Breaks mem cur i (s ∷ []) k = ⊥
Breaks mem cur i (s ∷ t ∷ steps) k =
    ((k ≡ i) × ((next : ℕ) → ¬ Link mem s cur next))
    ⊎ ((next : ℕ) × Link mem s cur next × Breaks mem next (i + 1) (t ∷ steps) k)

abbrev pub last_of : ℕ → List ℕ → ℕ
last_of d [] = d
last_of d (x ∷ xs) = last_of x xs

-- What an outcome says of the chain.
abbrev Explains : Memory → ℕ → ℕ → ℕ → List ChainStep → List ℕ → ChainWalkOutcome → Type 0
Explains mem limit cur i steps trace o =
    ((o.ok ≡ true)
      × (values : List ℕ) × Leads mem cur steps values
      × (o.address ≡ last_of cur values)
      × (o.trace ≡ trace ++ take (limit - i) values))
    ⊎ ((o.ok ≡ false) × Breaks mem cur i steps o.fail_index)

note-take :
    (limit i next : ℕ) (trace values : List ℕ)
    → note limit i trace next ++ take (limit - (i + 1)) values
      ≡ trace ++ take (limit - i) (next ∷ values)
note-take limit i next trace values = elim (Bool-cases (ltb i limit)) [
  | inl room ↦
      let left : limit - i ≡ suc (limit - (i + 1)) = ground arith in
      rw (room, left) (append_assoc trace (next ∷ []) (take (limit - (i + 1)) values))
  | inr full ↦
      let a : limit - i ≡ 0 = ground arith in
      let b : limit - (i + 1) ≡ 0 = ground arith in rw (full, a, b)
]

take-nil : (n : ℕ) → take {A = ℕ} n [] ≡ []
take-nil zero = refl
take-nil (suc n) = refl

-- One more hop in front of what is explained.
step-Explains :
    (mem : Memory) (limit cur i : ℕ) (s t : ChainStep) (steps : List ChainStep) (trace : List ℕ)
    (next : ℕ) (o : ChainWalkOutcome)
    → Link mem s cur next
    → Explains mem limit next (i + 1) (t ∷ steps) (note limit i trace next) o
    → Explains mem limit cur i (s ∷ t ∷ steps) trace o
step-Explains mem limit cur i s t steps trace next o link
      (inl (good, values, leads, address, written)) =
    inl (good, next ∷ values, (link, leads), address, written ∙ note-take limit i next trace values)
step-Explains mem limit cur i s t steps trace next o link (inr (bad, breaks)) =
    inr (bad, inr (next, link, breaks))

walk-Explains :
    (mem : Memory) (limit cur i : ℕ) (steps : List ChainStep) (trace : List ℕ)
    → Explains mem limit cur i steps trace (walk mem limit cur i steps trace)
unfolding walk
walk-Explains mem limit cur i [] trace = inl (
  refl,
  [],
  refl,
  refl,
  sym (append-nil trace) ∙ ap (λ xs. trace ++ xs) (sym (take-nil (limit - i))),
)
walk-Explains mem limit cur i (s ∷ []) trace =
    let leaf = offset cur s.offset_of in
    inl (
      refl,
      leaf ∷ [],
      refl,
      refl,
      sym (append-nil (note limit i trace leaf))
          ∙ ap (λ xs. note limit i trace leaf ++ xs) (sym (take-nil (limit - (i + 1))))
          ∙ note-take limit i leaf trace [],
    )
walk-Explains mem limit cur i (s ∷ t ∷ steps) trace =
    elim (Option-cases (guarded_read mem 8 (offset cur s.offset_of))) [
      | inl fault ↦ rw (fault, walk) (inr (refl, inl (refl, λ next link. cc link.reads)))
      | inr (next, read) ↦
          rw (read, walk)
            (elim (Bool-cases (ltb next s.min_valid || leb userspace_ptr_max next)) [
              | inl refused ↦ rw refused (
                  inr (
                    refl,
                    inl (
                      refl,
                      λ other link.
                          let same : other ≡ next = ground (arith, link.reads) in
                          ground (arith, link.floor, link.ceiling),
                    ),
                  ))
              | inr fine ↦ rw fine (
                  step-Explains mem limit cur i s t steps trace next _
                    (record { reads = read; floor = ground arith; ceiling = ground arith })
                    (walk-Explains mem limit next (i + 1) (t ∷ steps) (note limit i trace next)))
            ])
    ]

-- A pointer chain of any length is either resolved, to the leaf that its links lead to, each read
-- through the guard and within the bounds of its hop, with the first `trace_cap` of the links and the
-- leaf in the trace; or it is reported as broken at the first hop that has no such link.
pub chain_explained :
    (mem : Memory) (base : ℕ) (steps : List ChainStep) (trace_cap : ℕ)
    → let o = guarded_resolve_chain mem base steps trace_cap in
      ((o.ok ≡ true)
        × (values : List ℕ) × Leads mem base steps values
        × (o.address ≡ last_of base values)
        × (o.trace ≡ take trace_cap values))
      ⊎ ((o.ok ≡ false) × Breaks mem base 0 steps o.fail_index)
unfolding guarded_resolve_chain
chain_explained mem base steps trace_cap =
    let whole : trace_cap - 0 ≡ trace_cap = omega arith in
    rw whole at (walk-Explains mem trace_cap base 0 steps [])
