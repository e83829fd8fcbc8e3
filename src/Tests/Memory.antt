-- ===== src/Tests/Memory.antt =====
-- A page with one RIP-relative load, behind a decoy, and a pointer back to the page.
use detour_mod_kit.Base.{
  ℕ, ◌+◌, ◌-◌, ◌≡◌, ◌⊎◌, ◌↔◌, refl, true, false, ◌&&◌, List, [], ◌∷◌, none, some, arith, ltb, leb,
  if◌then◌else◌, get_or, length,
}
use detour_mod_kit.Base.Int.{pos, negsuc}
use detour_mod_kit.Text.{text_eq}
use detour_mod_kit.Errors.{value, failure, implausible_target, prefix_not_found}
use detour_mod_kit.Memory.{Memory, is_plausible_ptr, read_bytes, guarded_read_bytes, guarded_read}
use detour_mod_kit.Memory.Rip.{
  is_valid_rip_relative_layout, resolve_rip_relative, resolve_direct, prefix_at, find_loop, why,
  find_and_resolve_rip_relative,
}
use detour_mod_kit.Memory.Rip.Target.{resolve-displacement}
use detour_mod_kit.Memory.Rip.Search.{FirstHit, find_and_resolve_iff}
use detour_mod_kit.Memory.Chain.{
  ChainStep, walk, guarded_resolve_chain, Leads, Breaks, last_of, take, chain_explained,
}

abbrev page : ℕ
page = 0x20000

abbrev bytes : List ℕ
bytes =
    0x8B ∷ 0x05 ∷ 0x00 ∷ 0x00 ∷ 0x00 ∷ 0x80 ∷ 0x90 ∷ 0x90 ∷ 0x8B ∷ 0x05 ∷ 0xF2 ∷ 0xFF ∷ 0xFF ∷ 0xFF
    ∷ 0x90 ∷ 0x90 ∷ 0x00 ∷ 0x00 ∷ 0x02 ∷ 0x00 ∷ 0x00 ∷ 0x00 ∷ 0x00 ∷ 0x00 ∷ []

abbrev mem : Memory
mem a = if leb page a && ltb a (page + length bytes) then some (get_or bytes (a - page) 0) else none

abbrev opcode : List ℕ
opcode = 0x8B ∷ 0x05 ∷ []

read-displacement : guarded_read mem 4 (page + 10) ≡ some 0xFFFFFFF2
unfolding guarded_read guarded_read_bytes read_bytes
read-displacement = refl

resolve-page : resolve_rip_relative mem (page + 8) 2 6 ≡ value page
unfolding resolve_rip_relative is_valid_rip_relative_layout guarded_read guarded_read_bytes
    read_bytes is_plausible_ptr
resolve-page = refl

-- The first occurrence would name an address below the page by 2 ^ 31.
decoy : resolve_rip_relative mem page 2 6 ≡ failure implausible_target
unfolding resolve_rip_relative is_valid_rip_relative_layout guarded_read guarded_read_bytes
    read_bytes is_plausible_ptr
decoy = refl

searches :
    (find_and_resolve_rip_relative mem page (length bytes) opcode 6 ≡ some (value page))
    × (find_and_resolve_rip_relative mem page 7 opcode 6 ≡ some (failure implausible_target))
    × (find_and_resolve_rip_relative mem page 9 (0x48 ∷ []) 6 ≡ some (failure prefix_not_found))
    × (resolve_direct page (negsuc 0x1FFFF) ≡ none)
unfolding find_and_resolve_rip_relative find_loop why prefix_at resolve_rip_relative
    is_valid_rip_relative_layout guarded_read guarded_read_bytes read_bytes is_plausible_ptr text_eq
    resolve_direct
searches = (refl, refl, refl, refl)

valid_layout : is_valid_rip_relative_layout 2 6 ≡ true
unfolding is_valid_rip_relative_layout
valid_layout = refl

resolve-displacement_example : resolve_rip_relative mem (page + 8) 2 6 ≡ value page
resolve-displacement_example =
    resolve-displacement mem (page + 8) 2 6 page (omega arith) valid_layout
      (unfold is_plausible_ptr in refl) (omega arith) (omega arith) read-displacement

find_and_resolve_iff_example :
    (find_and_resolve_rip_relative mem page 24 opcode 6 ≡ some (value page))
    ↔ FirstHit mem page opcode 6 19 0 page
find_and_resolve_iff_example =
    find_and_resolve_iff mem page opcode 6 24 page (omega arith) (omega arith) valid_layout
      (omega arith)

abbrev hops : List ChainStep
hops =
    record { offset_of = pos 16; min_valid = 0x10000 }
    ∷ record { offset_of = pos 4; min_valid = 0x10000 }
    ∷ []

chains :
    (guarded_resolve_chain mem page hops 1
      ≡ record { address = page + 4; fail_index = 0; ok = true; trace = page ∷ [] })
    × ((guarded_resolve_chain mem (page + 4) hops 1).ok ≡ false)
unfolding guarded_resolve_chain walk guarded_read guarded_read_bytes read_bytes
chains = (refl, refl)

chain_explained_example :
    let o = guarded_resolve_chain mem page hops 1 in
    ((o.ok ≡ true)
      × (values : List ℕ) × Leads mem page hops values
      × (o.address ≡ last_of page values)
      × (o.trace ≡ take 1 values))
    ⊎ ((o.ok ≡ false) × Breaks mem page 0 hops o.fail_index)
chain_explained_example = chain_explained mem page hops 1
