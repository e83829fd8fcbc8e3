-- ===== src/Memory/Rip/Target.antt =====
-- The address that a RIP-relative instruction names.
use detour_mod_kit.Base.{
  ℕ, ◌+◌, ◌-◌, ◌%◌, ◌^◌, ◌≤◌, ◌<◌, ◌≡◌, ◌≢◌, ◌↔◌, true, false, Option, none, some, arith, ◌==◌,
}
use detour_mod_kit.Base.Int.{pos}
use detour_mod_kit.Errors.{value}
use detour_mod_kit.Memory.{word, Memory, is_plausible_ptr, to_word, guarded_read}
use detour_mod_kit.Memory.Rip.{
  is_valid_rip_relative_layout, sign_extend, screened, displaced, resolve_rip_relative,
  resolve_rip_relative_candidate, candidate_displaced, plausible,
}

-- The 32 bits that an assembler writes for a target, counted from the next instruction.
abbrev pub displacement : ℕ → ℕ → ℕ
displacement next target = (target + (word - next)) % 2 ^ 32

displacement_lem :
    (next target : ℕ)
    → target < 2 ^ 47
    → next ≤ target + 2 ^ 31
    → target < next + 2 ^ 31
    → (next + sign_extend (displacement next target)) % word ≡ target
displacement_lem next target small back ahead = ground arith

plausible-lt : (t : ℕ) → is_plausible_ptr t ≡ true → t < 2 ^ 47
unfolding is_plausible_ptr
plausible-lt t h = ground arith

-- An instruction whose layout is valid and whose displacement can be read is resolved to the target
-- that its displacement was assembled for, if that is a plausible pointer less than 2 ^ 31 bytes
-- above the next instruction or at most that far below.
pub resolve-displacement :
    (mem : Memory) (instruction displacement_offset instruction_length target : ℕ)
    → let next = instruction + instruction_length in
      instruction ≢ 0
      → is_valid_rip_relative_layout displacement_offset instruction_length ≡ true
      → is_plausible_ptr target ≡ true
      → next ≤ target + 2 ^ 31
      → target < next + 2 ^ 31
      → guarded_read mem 4 ((instruction + displacement_offset) % word)
        ≡ some (displacement next target)
      → resolve_rip_relative mem instruction displacement_offset instruction_length ≡ value target
unfolding resolve_rip_relative displaced screened
resolve-displacement mem i off len target n v p back ahead read =
    let sum = displacement_lem (i + len) target (plausible-lt target p) back ahead in
    let nonzero : (i == 0) ≡ false = ground arith in rw nonzero (rw v (rw read (rw sum (rw p))))

-- Whatever memory holds, an address that is handed out is a plausible pointer: at least 64 KiB and
-- below the user-mode limit.
pub resolve-plausible :
    (mem : Memory) (instruction displacement_offset instruction_length target : ℕ)
    → resolve_rip_relative mem instruction displacement_offset instruction_length ≡ value target
    → (0x10000 ≤ target) × (target < 2 ^ 47)
unfolding resolve_rip_relative displaced screened is_plausible_ptr
resolve-plausible mem i off len target e = ground arith

displaced_alike :
    (next target : ℕ) (read : Option ℕ)
    → (candidate_displaced (next % word) read ≡ some target) ↔ (displaced next read ≡ value target)
unfolding candidate_displaced displaced screened plausible
displaced_alike next target none = ((λ h. cc), (λ h. cc))
displaced_alike next target (some d) =
    let sum : (next % word + sign_extend d) % word ≡ (next + sign_extend d) % word = ground arith in
    rw sum (ground arith)

layout-offset :
    (off len : ℕ) → is_valid_rip_relative_layout off len ≡ true → to_word (pos off) ≡ off
unfolding is_valid_rip_relative_layout
layout-offset off len h = ground arith

-- The resolver of a ladder's candidate agrees with the public one, where that one's arguments are
-- valid: on the address, or on there being none.
pub candidate_agrees :
    (mem : Memory) (found displacement_at instruction_length target : ℕ)
    → found ≢ 0
    → is_valid_rip_relative_layout displacement_at instruction_length ≡ true
    → (resolve_rip_relative_candidate mem found (pos displacement_at) instruction_length
        ≡ some target)
      ↔ (resolve_rip_relative mem found displacement_at instruction_length ≡ value target)
unfolding resolve_rip_relative resolve_rip_relative_candidate
candidate_agrees mem found off len target n v =
    let nonzero : (found == 0) ≡ false = ground arith in
    rw (layout-offset off len v, resolve_rip_relative_candidate)
      (rw nonzero
        (rw v (displaced_alike (found + len) target (guarded_read mem 4 ((found + off) % word)))))
