-- ===== src/Ledger/History.antt =====
-- The critical sections of the ledger's methods as steps, for the histories of one target's slot.
use detour_mod_kit.Base.{ℕ, ◌≡◌, refl, Bool}
use detour_mod_kit.Ledger.{
  Alloc, succeeds, HookLedger, fetch_id, release_hook, reserve_section, commit_hook,
  release_teardown_slot, teardown_enter, try_record_vmt, release_vmt,
}
use detour_mod_kit.Ledger.Invariant.{
  Inv, Fresh, NotQueued, reserve_section-Inv, drop_pending-Inv, release_hook-Inv,
  teardown_enter-Inv,
}

-- One critical section of one thread. A reservation brings an id of its own, and a hook that asks for
-- the slot is not already in the queue, as in every history of the calls (Ledger.Calls); the rest is free.
pub data Step (l : HookLedger) : HookLedger → Type 0 where
  fetches : Step l (fetch_id l).0
  reserves :
      (alloc : Alloc) (target : ℕ) (refuse : Bool) (id : ℕ)
      → Fresh l target id
      → Step l (reserve_section alloc l target refuse id).0
  commits : (target id : ℕ) → Step l (commit_hook l target id)
  releases : (target id : ℕ) → Step l (release_hook l target id).0
  claims :
      (alloc : Alloc) (target id : ℕ)
      → NotQueued l target id
      → Step l (teardown_enter alloc l target id).0
  unclaims : (target id : ℕ) → Step l (release_teardown_slot l target id)
  records : (alloc : Alloc) (base : ℕ) → Step l (try_record_vmt alloc l base).0
  forgets : (id : ℕ) → Step l (release_vmt l id)

-- The map is left alone by what touches only the counter and the clones.
pub try_record_vmt-by_target :
    (alloc : Alloc) (l : HookLedger) (base : ℕ)
    → (try_record_vmt alloc l base).0.by_target ≡ l.by_target
unfolding try_record_vmt
try_record_vmt-by_target succeeds l base = refl
try_record_vmt-by_target _ l base = refl

pub Step-Inv : {l m : HookLedger} → Step l m → Inv l → Inv m
unfolding commit_hook release_teardown_slot fetch_id release_vmt
Step-Inv fetches v = v
Step-Inv {l} (reserves alloc target refuse id h) v =
    reserve_section-Inv alloc l target refuse id v h
Step-Inv {l} (commits target id) v = drop_pending-Inv l target id v
Step-Inv {l} (releases target id) v = release_hook-Inv l target id v
Step-Inv {l} (claims alloc target id h) v = teardown_enter-Inv alloc l target id v h
Step-Inv {l} (unclaims target id) v = drop_pending-Inv l target id v
Step-Inv {l} (records alloc base) v = rw (try_record_vmt-by_target alloc l base) v
Step-Inv (forgets id) v = v
