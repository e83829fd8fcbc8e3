-- ===== src/Tests/Calls.antt =====
-- Two hooks on one target: the second call fetches its id before the first has the lock, a third finds no
-- memory and is rolled back, and the second hook asks for its teardown.
use detour_mod_kit.Base.{ℕ, ◌≡◌, ◌<◌, refl, true, false, [], ◌∷◌, some, arith}
use detour_mod_kit.Ids.{contains, erase_first, newer_than}
use detour_mod_kit.Ledger.{
  succeeds, second_fails, TargetEntry, initial, fetch_id, reserve_section, commit_hook,
  release_hook, teardown_enter,
}
use detour_mod_kit.Ledger.Invariant.{EntryOk}
use detour_mod_kit.Ledger.Calls.{
  Calls, no_calls, rest_of, none_of, fetches, reserves, commits, releases, claims, Reach, here,
  next,
}
use detour_mod_kit.Ledger.Tracked.{tracked-EntryOk}

abbrev fetched : Calls
fetched = record no_calls { ledger = record initial { next_id = 4 }; drawn = 1 ∷ 2 ∷ 3 ∷ [] }

fetched-Reach : Reach no_calls fetched
unfolding fetch_id
fetched-Reach =
    let one : Reach no_calls
        (record no_calls { ledger = record initial { next_id = 2 }; drawn = 1 ∷ [] }) =
      next here (fetches (omega arith)) in
    let two : Reach no_calls
        (record no_calls { ledger = record initial { next_id = 3 }; drawn = 1 ∷ 2 ∷ [] }) =
      next one (fetches (omega arith)) in
    next two (fetches (omega arith))

-- The first to come under the lock is the second call, then the third and its catch.
abbrev rolled_back : Calls
rolled_back = record {
  ledger =
      (release_hook
        (reserve_section second_fails (reserve_section succeeds fetched.ledger 7 false 2).0 7 false
          3).0
        7 3).0;
  drawn = 1 ∷ [];
  at_rest = none_of (none_of fetched.at_rest 2) 3;
}

rolled_back-Reach : Reach no_calls rolled_back
unfolding contains erase_first
rolled_back-Reach =
    next
      (next (next fetched-Reach (reserves succeeds 7 false 2 refl))
        (reserves second_fails 7 false 3 refl))
      (releases 7 3)

abbrev torn : Calls
torn = record {
  ledger =
      (teardown_enter succeeds
        (commit_hook (reserve_section succeeds rolled_back.ledger 7 false 1).0 7 2) 7 2).0;
  drawn = [];
  at_rest = rest_of (rest_of (none_of rolled_back.at_rest 1) 7 2 true) 7 2 false;
}

torn-Reach : Reach no_calls torn
unfolding contains erase_first
torn-Reach =
    next (next (next rolled_back-Reach (reserves succeeds 7 false 1 refl)) (commits 7 2))
      (claims succeeds 7 2 refl)

abbrev torn_entry : TargetEntry
torn_entry = record { order = 2 ∷ 1 ∷ []; pending = 1 ∷ 2 ∷ [] }

torn-by_target : torn.ledger.by_target 7 ≡ some torn_entry
unfolding reserve_section release_hook commit_hook teardown_enter contains erase_first newer_than
torn-by_target = refl

tracked-EntryOk_example :
    EntryOk torn_entry × ((x : ℕ) → contains x torn_entry.order ≡ true → x < torn.ledger.next_id)
tracked-EntryOk_example = tracked-EntryOk 7 torn_entry torn-Reach torn-by_target
