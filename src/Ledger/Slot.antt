-- ===== src/Ledger/Slot.antt =====
-- The install slot of a target: who stands in front of its queue holds it until it acts itself.
pub mod Held
use detour_mod_kit.Base.{
  ℕ, ◌≡◌, ◌≢◌, refl, Bool, true, false, List, [], ◌∷◌, ◌++◌, Option, none, some, arith, ◌==◌,
  if◌then◌else◌, Option-cases, Bool-cases, inl, inr,
}
use detour_mod_kit.Ids.{contains, erase_first, newer_than, contains-erase_first}
use detour_mod_kit.Ledger.{
  Alloc, succeeds, first_fails, second_fails, TargetEntry, HookLedger, put, fetch_id, entry_of,
  release_from, release_hook, layer, publish, reserve_section, front_is, is_front, reserve_wake,
  drop_pending, commit_hook, release_teardown_slot, claim, teardown_enter, teardown_wake,
  try_record_vmt, release_vmt,
}
use detour_mod_kit.Ledger.Invariant.{EntryOk, Inv, Fresh, NotQueued}
use detour_mod_kit.Ledger.History.{
  Step, fetches, reserves, commits, releases, claims, unclaims, records, forgets, Step-Inv,
  try_record_vmt-by_target,
}

-- The step is not one that hook `id` makes on `target`.
abbrev pub NotBy : {l m : HookLedger} → ℕ → ℕ → Step l m → Type 0
NotBy target id fetches = Unit {0}
NotBy target id (reserves alloc t r x h) = t ≡ target → x ≢ id
NotBy target id (commits t x) = t ≡ target → x ≢ id
NotBy target id (releases t x) = t ≡ target → x ≢ id
NotBy target id (claims alloc t x h) = t ≡ target → x ≢ id
NotBy target id (unclaims t x) = t ≡ target → x ≢ id
NotBy target id (records alloc base) = Unit {0}
NotBy target id (forgets x) = Unit {0}

-- Steps of the other hooks, and of this one on other targets.
pub data Meanwhile (target id : ℕ) (l : HookLedger) : HookLedger → Type 0 where
  start : Meanwhile target id l l
  then_step :
      {m n : HookLedger}
      → Meanwhile target id l m
      → (s : Step m n) → NotBy target id s
      → Meanwhile target id l n

abbrev Front : Option TargetEntry → ℕ → Type 0
Front none id = ⊥
Front (some e) id = front_is e.pending id ≡ true

module _ (target id : ℕ) where
  is_front-Front : (l : HookLedger) → is_front l target id ≡ true → Front (l.by_target target) id
  unfolding is_front
  is_front-Front l h = elim (Option-cases (l.by_target target)) [
    | inl missing ↦ absurd (ground arith)
    | inr (e, found) ↦ rw found (ground arith)
  ]

  Front-is_front : (l : HookLedger) → Front (l.by_target target) id → is_front l target id ≡ true
  unfolding is_front
  Front-is_front l h = elim (Option-cases (l.by_target target)) [
    | inl missing ↦ absurd (rw missing at h)
    | inr (e, found) ↦ rw (found, is_front) (rw found at h)
  ]

  -- A put at another target, or one that keeps the front, keeps it.
  put-Front :
      (l : HookLedger) (t : ℕ) (o : Option TargetEntry)
      → Front (l.by_target target) id
      → (t ≡ target → Front o id)
      → Front ((put l t o).by_target target) id
  put-Front l t o h k = elim (Bool-cases (target == t)) [
    | inl same ↦ rw same (k (ground arith))
    | inr other ↦ rw other h
  ]

  front_is-concat :
      (xs : List ℕ) (x : ℕ) → front_is xs id ≡ true → front_is (xs ++ x ∷ []) id ≡ true
  unfolding front_is
  front_is-concat [] x h = cc
  front_is-concat (y ∷ xs) x h = h

  front_is-erase_first :
      (xs : List ℕ) (x : ℕ) → x ≢ id → front_is xs id ≡ true → front_is (erase_first x xs) id ≡ true
  unfolding front_is erase_first
  front_is-erase_first [] x n h = cc
  front_is-erase_first (y ∷ xs) x n h = ground arith

  front_is-contains : (xs : List ℕ) → front_is xs id ≡ true → contains id xs ≡ true
  unfolding front_is contains
  front_is-contains [] h = cc
  front_is-contains (y ∷ xs) h = ground arith

  entry_of-Front :
      (order pending : List ℕ)
      → contains id order ≡ true
      → front_is pending id ≡ true
      → Front (entry_of order pending) id
  unfolding entry_of contains
  entry_of-Front [] pending c h = absurd (ground arith)
  entry_of-Front (x ∷ order) pending c h = h

  release_from-Front :
      (l : HookLedger) (t x : ℕ) (e : TargetEntry)
      → EntryOk e
      → l.by_target t ≡ some e
      → (t ≡ target → x ≢ id)
      → Front (l.by_target target) id
      → Front ((release_from l t x e).0.by_target target) id
  unfolding release_from
  release_from-Front l t x e k found n h = elim (Option-cases (newer_than x e.order)) [
    | inl absent ↦
        rw (absent, release_from)
          (put-Front l t _ h λ same. front_is-erase_first e.pending x (n same) (at same))
    | inr (newer, there) ↦
        rw (there, release_from)
          (put-Front l t _ h λ same.
            entry_of-Front (erase_first x e.order) (erase_first x e.pending) (kept same)
              (front_is-erase_first e.pending x (n same) (at same)))
  ]
    where
      at : t ≡ target → front_is e.pending id ≡ true
      at same = rw found at (rw (← same) at h)

      kept : t ≡ target → contains id (erase_first x e.order) ≡ true
      kept same =
          let member = k.included id (front_is-contains e.pending (at same)) in
          let distinct = n same in
          ground (arith, contains-erase_first id x e.order k.order_distinct)

  release_hook-Front :
      (l : HookLedger) (t x : ℕ)
      → Inv l
      → (t ≡ target → x ≢ id)
      → Front (l.by_target target) id
      → Front ((release_hook l t x).0.by_target target) id
  unfolding release_hook
  release_hook-Front l t x v n h = elim (Option-cases (l.by_target t)) [
    | inl missing ↦ rw (missing, release_hook) h
    | inr (e, found) ↦ rw (found, release_hook) (release_from-Front l t x e (v t e found) found n h)
  ]

  drop_pending-Front :
      (l : HookLedger) (t x : ℕ)
      → (t ≡ target → x ≢ id)
      → Front (l.by_target target) id
      → Front ((drop_pending l t x).by_target target) id
  unfolding drop_pending
  drop_pending-Front l t x n h = elim (Option-cases (l.by_target t)) [
    | inl missing ↦ rw (missing, drop_pending) h
    | inr (e, found) ↦
        rw (found, drop_pending)
          (put-Front l t _ h
            λ same. front_is-erase_first e.pending x (n same) (rw found at (rw (← same) at h)))
  ]
