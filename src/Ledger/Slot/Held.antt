-- ===== src/Ledger/Slot/Held.antt =====
-- The slot under every step, and what that excludes.
use detour_mod_kit.Base.{
  ℕ, ◌≡◌, ◌≢◌, Bool, true, false, [], ◌∷◌, ◌++◌, none, some, arith, Option-cases, Bool-cases, inl,
  inr,
}
use detour_mod_kit.Ids.{contains}
use detour_mod_kit.Ledger.{
  Alloc, succeeds, first_fails, second_fails, TargetEntry, HookLedger, fetch_id, layer, publish,
  reserve_section, front_is, is_front, reserve_wake, commit_hook, release_teardown_slot, claim,
  teardown_enter, teardown_wake, release_vmt,
}
use detour_mod_kit.Ledger.Invariant.{Inv, Fresh}
use detour_mod_kit.Ledger.History.{
  Step, fetches, reserves, commits, releases, claims, unclaims, records, forgets, Step-Inv,
  try_record_vmt-by_target,
}
use detour_mod_kit.Ledger.Slot.{
  NotBy, Meanwhile, start, then_step, Front, is_front-Front, Front-is_front, put-Front,
  front_is-concat, release_hook-Front, drop_pending-Front,
}

module _ (target id : ℕ) where
  layer-Front :
      (alloc : Alloc) (l : HookLedger) (t x : ℕ) (e : TargetEntry)
      → Inv l
      → l.by_target t ≡ some e
      → contains x e.order ≡ false
      → (t ≡ target → x ≢ id)
      → Front (l.by_target target) id
      → Front ((layer alloc l t x e).0.by_target target) id
  unfolding layer
  layer-Front succeeds l t x e v found c n h =
      put-Front target id l t _ h
        λ same. front_is-concat target id e.pending x (rw found at (rw (← same) at h))
  layer-Front first_fails l t x e v found c n h = h
  layer-Front second_fails l t x e v found c n h =
      let longer : TargetEntry = record e { order = e.order ++ x ∷ [] } in
      put-Front target id l t (some longer) h λ same. rw found at (rw (← same) at h)

  -- A target that is not tracked has no front.
  publish-Front :
      (alloc : Alloc) (l : HookLedger) (t x : ℕ)
      → Inv l
      → l.by_target t ≡ none
      → (t ≡ target → x ≢ id)
      → Front (l.by_target target) id
      → Front ((publish alloc l t x).0.by_target target) id
  unfolding publish
  publish-Front succeeds l t x v missing n h =
      put-Front target id l t _ h λ same. absurd (rw missing at (rw (← same) at h))
  publish-Front _ l t x v missing n h = h

  reserve_section-Front :
      (alloc : Alloc) (l : HookLedger) (t : ℕ) (refuse : Bool) (x : ℕ)
      → Inv l
      → Fresh l t x
      → (t ≡ target → x ≢ id)
      → Front (l.by_target target) id
      → Front ((reserve_section alloc l t refuse x).0.by_target target) id
  unfolding reserve_section
  reserve_section-Front alloc l t refuse x v c n h = elim (Option-cases (l.by_target t)) [
    | inl missing ↦ rw (missing, reserve_section) (publish-Front alloc l t x v missing n h)
    | inr (e, found) ↦
        rw (found, reserve_section)
          (elim (Bool-cases refuse) [
            | inl q ↦ rw q h
            | inr q ↦ rw q (layer-Front alloc l t x e v found (c e found) n h)
          ])
  ]

  claim-Front :
      (alloc : Alloc) (l : HookLedger) (t x : ℕ) (e : TargetEntry)
      → l.by_target t ≡ some e
      → Front (l.by_target target) id
      → Front ((claim alloc l t x e).0.by_target target) id
  unfolding claim
  claim-Front succeeds l t x e found h =
      put-Front target id l t _ h
        λ same. front_is-concat target id e.pending x (rw found at (rw (← same) at h))
  claim-Front _ l t x e found h = h

  teardown_enter-Front :
      (alloc : Alloc) (l : HookLedger) (t x : ℕ)
      → Front (l.by_target target) id
      → Front ((teardown_enter alloc l t x).0.by_target target) id
  unfolding teardown_enter
  teardown_enter-Front alloc l t x h = elim (Option-cases (l.by_target t)) [
    | inl missing ↦ rw (missing, teardown_enter) h
    | inr (e, found) ↦
        rw (found, teardown_enter)
          (elim (Bool-cases (contains x e.order)) [
            | inl q ↦ rw q (claim-Front alloc l t x e found h)
            | inr q ↦ rw q h
          ])
  ]

  Step-Front :
      {l m : HookLedger} (s : Step l m)
      → Inv l
      → NotBy target id s
      → Front (l.by_target target) id
      → Front (m.by_target target) id
  unfolding commit_hook release_teardown_slot fetch_id release_vmt
  Step-Front fetches v n h = h
  Step-Front {l} (reserves alloc t r x c) v n h = reserve_section-Front alloc l t r x v c n h
  Step-Front {l} (commits t x) v n h = drop_pending-Front target id l t x n h
  Step-Front {l} (releases t x) v n h = release_hook-Front target id l t x v n h
  Step-Front {l} (claims alloc t x c) v n h = teardown_enter-Front alloc l t x h
  Step-Front {l} (unclaims t x) v n h = drop_pending-Front target id l t x n h
  Step-Front {l} (records alloc base) v n h = rw (try_record_vmt-by_target alloc l base) h
  Step-Front (forgets x) v n h = h

  Meanwhile-Front :
      {l m : HookLedger}
      → Meanwhile target id l m
      → Inv l
      → Front (l.by_target target) id
      → Inv m × Front (m.by_target target) id
  Meanwhile-Front start v h = (v, h)
  Meanwhile-Front (then_step r s n) v h =
      let (w, k) = Meanwhile-Front r v h in (Step-Inv s w, Step-Front s w n k)

  front_unique :
      (m : HookLedger) (x : ℕ) → is_front m target id ≡ true → x ≢ id → is_front m target x ≡ false
  unfolding is_front front_is
  front_unique m x h n = ground arith

  -- Once a hook's wait is over, then whatever the other threads do, and until that hook itself
  -- commits, releases or gives up the slot, no other install or teardown on the target gets past its
  -- own wait; so no two of them patch or restore the target at a time.
  pub slot_exclusive :
      {l m : HookLedger} (x : ℕ) (preexisting : Bool)
      → Inv l
      → is_front l target id ≡ true
      → Meanwhile target id l m
      → x ≢ id
      → (is_front m target id ≡ true)
        × (reserve_wake m target x preexisting ≡ none)
        × (teardown_wake m target x ≡ none)
  unfolding reserve_wake teardown_wake
  slot_exclusive {l} {m} x preexisting v h r n =
      let (w, k) = Meanwhile-Front r v (is_front-Front target id l h) in
      let held = Front-is_front target id m k in
      let other = front_unique m x held n in (held, rw other, rw other)
