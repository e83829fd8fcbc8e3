-- ===== src/Ledger/Frame.antt =====
-- What the sections of the ledger leave as it was: the counter, and the ids that were there.
use detour_mod_kit.Base.{ℕ, ◌+◌, ◌^◌, ◌<◌, ◌≤◌, ◌≡◌, Bool, true, false, arith, Bool-cases, inl, inr}
use detour_mod_kit.Ids.{contains}
use detour_mod_kit.Ledger.{
  Alloc, succeeds, first_fails, second_fails, HookLedger, fetch_id, release_from, release_hook,
  layer, publish, reserve_section, drop_pending, claim, teardown_enter, try_record_vmt,
}
use detour_mod_kit.Ledger.Members.{order_of, queue_of, Brings}

pub reserve_section-next_id :
    (alloc : Alloc) (l : HookLedger) (target : ℕ) (refuse : Bool) (id : ℕ)
    → (reserve_section alloc l target refuse id).0.next_id ≡ l.next_id
unfolding reserve_section layer publish
reserve_section-next_id succeeds l target refuse id = ground arith
reserve_section-next_id first_fails l target refuse id = ground arith
reserve_section-next_id second_fails l target refuse id = ground arith

pub release_hook-next_id :
    (l : HookLedger) (target id : ℕ) → (release_hook l target id).0.next_id ≡ l.next_id
unfolding release_hook release_from
release_hook-next_id l target id = ground arith

pub drop_pending-next_id :
    (l : HookLedger) (target id : ℕ) → (drop_pending l target id).next_id ≡ l.next_id
unfolding drop_pending
drop_pending-next_id l target id = ground arith

pub teardown_enter-next_id :
    (alloc : Alloc) (l : HookLedger) (target id : ℕ)
    → (teardown_enter alloc l target id).0.next_id ≡ l.next_id
unfolding teardown_enter claim
teardown_enter-next_id succeeds l target id = ground arith
teardown_enter-next_id first_fails l target id = ground arith
teardown_enter-next_id second_fails l target id = ground arith

-- What brings no id, whichever is named, leaves members that were there.
module _ (l m : HookLedger) (b : (y : ℕ) → Brings y l m) where
  pub old_order : (t x : ℕ) → contains x (order_of m t) ≡ true → contains x (order_of l t) ≡ true
  old_order t x h = elim ((b (x + 1)).in_order t x h) [
    | inl q ↦ absurd (omega (arith, q))
    | inr old ↦ old
  ]

  pub old_queue : (t x : ℕ) → contains x (queue_of l t) ≡ false → contains x (queue_of m t) ≡ false
  old_queue t x h = elim (Bool-cases (contains x (queue_of m t))) [
    | inr away ↦ away
    | inl there ↦ elim ((b (x + 1)).in_queue t x there) [
      | inl q ↦ absurd (omega (arith, q))
      | inr old ↦ cc
    ]
  ]

pub try_record_vmt-next_id :
    (alloc : Alloc) (l : HookLedger) (base : ℕ)
    → l.next_id + 1 < 2 ^ 64
    → l.next_id ≤ (try_record_vmt alloc l base).0.next_id
unfolding try_record_vmt fetch_id
try_record_vmt-next_id succeeds l base h = omega arith
try_record_vmt-next_id first_fails l base h = omega arith
try_record_vmt-next_id second_fails l base h = omega arith
