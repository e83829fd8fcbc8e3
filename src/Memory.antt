-- ===== src/Memory.antt =====
-- Guarded reads of process memory and what is computed from them: the read of
-- src/internal/memory_guarded.cpp, the RIP-relative resolvers of src/scan_rip_relative.cpp and
-- src/internal/scan_shared.hpp, and the pointer chains. Memory is a parameter: the byte at an address,
-- or none where a read faults; the exception handlers that turn a fault into a failure are not
-- modelled. Addresses are numbers below 2 ^ 64, and their arithmetic wraps there.
pub mod Rip
pub mod Chain
use detour_mod_kit.Base.{
  ℕ, zero, suc, ◌+◌, ◌-◌, ◌*◌, ◌%◌, ◌^◌, Bool, true, false, ◌&&◌, ◌||◌, List, [], ◌∷◌, Option, none,
  some, ltb, leb, ◌==◌, if◌then◌else◌, ◌>>=◌,
}
use detour_mod_kit.Base.Int.{ℤ, pos, negsuc}

abbrev pub word : ℕ
word = 2 ^ 64

abbrev pub userspace_ptr_min : ℕ
userspace_ptr_min = 0x10000

abbrev pub userspace_ptr_max : ℕ
userspace_ptr_max = 0x800000000000

abbrev pub Memory : Type 0
Memory = ℕ → Option ℕ

unfoldable pub is_plausible_ptr : ℕ → Bool
is_plausible_ptr address = leb userspace_ptr_min address && ltb address userspace_ptr_max

-- `static_cast<std::uintptr_t>` of a signed offset.
abbrev pub to_word : ℤ → ℕ
to_word (pos n) = n % word
to_word (negsuc n) = word - 1 - n % word

-- Address::offset.
abbrev pub offset : ℕ → ℤ → ℕ
offset address delta = (address + to_word delta) % word

-- The copy: all of the bytes, or a fault.
unfoldable pub read_bytes : Memory → ℕ → ℕ → Option (List ℕ)
read_bytes mem address zero = some []
read_bytes mem address (suc n) = do
  b ← mem address
  bs ← read_bytes mem (address + 1) n
  some (b ∷ bs)

unfoldable pub guarded_read_bytes : Memory → ℕ → ℕ → Option (List ℕ)
guarded_read_bytes mem address bytes =
    if bytes == 0
    then some []
    else if ltb address userspace_ptr_min
    then none
    else if ltb ((address + bytes) % word) address
    then none
    else read_bytes mem address bytes

-- A little-endian number.
abbrev pub little_endian : List ℕ → ℕ
little_endian [] = 0
little_endian (b ∷ bs) = b + 256 * little_endian bs

unfoldable pub guarded_read : Memory → ℕ → ℕ → Option ℕ
guarded_read mem size address =
    guarded_read_bytes mem address size >>= λ bs. some (little_endian bs)
