-- ===== src/Tests/Ledger.antt =====
-- The ledger with two hooks on one target.
use detour_mod_kit.Base.{◌≡◌, refl, true, false, none, some, arith}
use detour_mod_kit.Ids.{contains, erase_first, newer_than}
use detour_mod_kit.Ledger.{
  succeeds, second_fails, HookLedger, initial, reserve_section, reserve_enter, reserve_wake,
  commit_hook, release_hook, teardown_wake, is_front, answered, failed, refused,
}
use detour_mod_kit.Ledger.Invariant.{Inv, Fresh, reserve_section-Inv}
use detour_mod_kit.Ledger.History.{reserves}
use detour_mod_kit.Ledger.Slot.{start, then_step}
use detour_mod_kit.Ledger.Slot.Held.{slot_exclusive}
use detour_mod_kit.Ledger.Layers.{SameAs, reserve-out_of_memory}

abbrev one : HookLedger
one = (reserve_section succeeds initial 7 false 1).0

abbrev two : HookLedger
two = (reserve_section succeeds one 7 false 2).0

one-Fresh : Fresh one 7 2
unfolding reserve_section contains
one-Fresh e h = ground arith

one-Inv : Inv one
one-Inv = reserve_section-Inv succeeds initial 7 false 1 (λ target e h. cc) (λ e h. cc)

one-front : is_front one 7 1 ≡ true
unfolding reserve_section is_front
one-front = refl

two-front : (is_front two 7 1 ≡ true) × (is_front two 7 2 ≡ false)
unfolding reserve_section is_front
two-front = (refl, refl)

-- The second hook gets its turn by the first one's commit, and is then the newest.
second_turn :
    let l = commit_hook two 7 1 in
    (is_front l 7 2 ≡ true) × (teardown_wake l 7 2 ≡ some 0) × ((release_hook l 7 1).1 ≡ 1)
unfolding reserve_section is_front commit_hook erase_first teardown_wake newer_than release_hook
second_turn = (refl, refl, refl)

duplicate_refused : (reserve_enter succeeds one 7 true 2).1 ≡ answered refused
unfolding reserve_enter reserve_section
duplicate_refused = refl

-- The second hook is reserved while the first one holds the slot.
slot_exclusive_example :
    (is_front two 7 1 ≡ true) × (reserve_wake two 7 2 true ≡ none) × (teardown_wake two 7 2 ≡ none)
slot_exclusive_example =
    slot_exclusive 7 1 2 true one-Inv one-front
      (then_step start (reserves succeeds 7 false 2 one-Fresh) (λ same. omega arith)) (omega arith)

reserve-out_of_memory_example :
    let r = reserve_enter second_fails one 7 false 2 in SameAs one r.0 × (r.1 ≡ answered failed)
reserve-out_of_memory_example =
    reserve-out_of_memory second_fails one 7 2 one-Inv one-Fresh (λ e. cc)
