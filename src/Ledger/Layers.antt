-- ===== src/Ledger/Layers.antt =====
-- The layers on a target: what the teardown counts, and what a rolled back reservation leaves.
use detour_mod_kit.Base.{
  ℕ, ◌≡◌, ◌≢◌, refl, ap, true, false, List, [], ◌∷◌, ◌++◌, Option, none, some, arith, ◌==◌, length,
  Option-cases, Bool-cases, inl, inr, ==_refl,
}
use detour_mod_kit.Ids.{
  contains, erase_first, newer_than, erase_first-absent, erase_first-concat, newer_than-absent,
  newer_than-concat,
}
use detour_mod_kit.Ledger.{
  Alloc, succeeds, first_fails, second_fails, TargetEntry, HookLedger, put, entry_of, release_from,
  release_hook, layer, publish, reserve_section, reserve_enter, front_is, is_front, newer_or_leak,
  teardown_wake, answered, failed,
}
use detour_mod_kit.Ledger.Invariant.{EntryOk, Inv, Fresh}

-- An id's place in an order: the layers below it, then it, then the newer ones.
newer_than-splits :
    (id : ℕ) (xs : List ℕ)
    → contains id xs ≡ true
    → (older newer : List ℕ) × (xs ≡ older ++ id ∷ newer) × (newer_than id xs ≡ some (length newer))
unfolding contains newer_than
newer_than-splits id [] h = cc
newer_than-splits id (x ∷ xs) h = elim (Bool-cases (x == id)) [
  | inl hit ↦ ([], xs, ground arith, ground arith)
  | inr miss ↦
      let (older, newer, p, q) = newer_than-splits id xs (ground arith) in
      (x ∷ older, newer, ap (◌∷◌ x) p, ground arith)
]

front_is-contains : (xs : List ℕ) (id : ℕ) → front_is xs id ≡ true → contains id xs ≡ true
unfolding front_is contains
front_is-contains [] id h = cc
front_is-contains (y ∷ xs) id h = ground arith

-- When the teardown of a hook has the slot, it is told how many hooks stand above this one in the
-- target's creation order; so 0, which lets it restore the prologue, exactly when it is the newest.
pub teardown_wake-counts :
    (l : HookLedger) (target id : ℕ) (e : TargetEntry)
    → Inv l
    → l.by_target target ≡ some e
    → is_front l target id ≡ true
    → (older newer : List ℕ) × (e.order ≡ older ++ id ∷ newer)
      × (teardown_wake l target id ≡ some (length newer))
unfolding is_front teardown_wake newer_or_leak
teardown_wake-counts l target id e v found h =
    let k = v target e found in
    let member = k.included id (front_is-contains e.pending id (ground arith)) in
    let (older, newer, p, q) = newer_than-splits id e.order member in
    (older, newer, p, ground (arith, q))

-- Two ledgers that agree on every target and on the rest.
pub record SameAs (l m : HookLedger) : Type 0 where
  pub targets : (t : ℕ) → m.by_target t ≡ l.by_target t
  pub counter : m.next_id ≡ l.next_id
  pub clones : m.vmt ≡ l.vmt

SameAs-refl : (l : HookLedger) → SameAs l l
SameAs-refl l = record { targets = λ t. refl; counter = refl; clones = refl }

put_twice-SameAs :
    (l : HookLedger) (target : ℕ) (o o' : Option TargetEntry)
    → l.by_target target ≡ o'
    → SameAs l (put (put l target o) target o')
put_twice-SameAs l target o o' h = record {
  targets = λ t. elim (Bool-cases (t == target)) [
    | inl same ↦ rw same (let e : t ≡ target = ground arith in rw (e, h))
    | inr other ↦ rw other
  ];
  counter = refl;
  clones = refl;
}

entry_of-filled :
    (order pending : List ℕ)
    → order ≢ []
    → entry_of order pending ≡ some (record { order = order; pending = pending })
unfolding entry_of
entry_of-filled [] pending n = absurd (n refl)
entry_of-filled (x ∷ order) pending n = refl

-- Releasing the newest id of an entry that it joined.
release_from-joined :
    (l : HookLedger) (target id : ℕ) (e : TargetEntry) (pending : List ℕ)
    → EntryOk e
    → contains id e.order ≡ false
    → erase_first id pending ≡ e.pending
    → release_from l target id (record { order = e.order ++ id ∷ []; pending = pending })
      ≡ (put l target (some e), 0)
unfolding release_from
release_from-joined l target id e pending k h q =
    rw (newer_than-concat id e.order h, release_from)
      (rw (erase_first-concat id e.order h)
        (rw q (rw (entry_of-filled e.order e.pending k.filled))))

-- What follows the reservation of a new id, and takes it back.
taken_back :
    (l : HookLedger) (target id : ℕ) (e : TargetEntry) (pending : List ℕ)
    → Inv l
    → l.by_target target ≡ some e
    → contains id e.order ≡ false
    → erase_first id pending ≡ e.pending
    → let r =
        release_hook
          (put l target (some (record { order = e.order ++ id ∷ []; pending = pending })))
          target
          id in
      SameAs l r.0 × (r.1 ≡ 0)
unfolding release_hook
taken_back l target id e pending v found h q =
    rw (==_refl target, release_hook)
      (rw
        (release_from-joined
          (put l target (some (record { order = e.order ++ id ∷ []; pending = pending }))) target id
          e pending (v target e found) h q)
        (put_twice-SameAs l target _ (some e) found, refl))

-- The same for an id that the target was not tracked without.
taken_back_alone :
    (l : HookLedger) (target id : ℕ)
    → l.by_target target ≡ none
    → let r =
        release_hook
          (put l target (some (record { order = id ∷ []; pending = id ∷ [] })))
          target
          id in
      SameAs l r.0 × (r.1 ≡ 0)
unfolding release_hook release_from newer_than entry_of
taken_back_alone l target id missing =
    rw (==_refl target, release_hook)
      (rw (==_refl id, release_from)
        (rw (erase_first-concat id [] (unfold contains in refl))
          (put_twice-SameAs l target _ none missing, refl)))

absent_from_pending :
    (e : TargetEntry) (id : ℕ)
    → EntryOk e
    → contains id e.order ≡ false
    → contains id e.pending ≡ false
absent_from_pending e id k h = elim (Bool-cases (contains id e.pending)) [
  | inl queued ↦ cc (k.included id queued)
  | inr free ↦ free
]

-- The install path that a create step fails after its reservation: releasing the reserved id leaves
-- the ledger as it was, and reports that nothing newer stands on the target.
pub reserve_then_release :
    (l : HookLedger) (target id : ℕ)
    → Inv l
    → Fresh l target id
    → let r = release_hook (reserve_enter succeeds l target false id).0 target id in
      SameAs l r.0 × (r.1 ≡ 0)
unfolding reserve_enter reserve_section layer publish
reserve_then_release l target id v h = elim (Option-cases (l.by_target target)) [
  | inl missing ↦ rw (missing, reserve_section) (taken_back_alone l target id missing)
  | inr (e, found) ↦
      rw (found, reserve_section)
        (taken_back l target id e (e.pending ++ id ∷ []) v found (h e found) (
          erase_first-concat id e.pending
            (absent_from_pending e id (v target e found) (h e found))))
]

put_same-SameAs :
    (l : HookLedger) (target : ℕ) (e : TargetEntry)
    → l.by_target target ≡ some e
    → SameAs l (put l target (some e))
put_same-SameAs l target e h = record {
  targets = λ t. elim (Bool-cases (t == target)) [
    | inl same ↦ rw same (let e : t ≡ target = ground arith in rw (e, h))
    | inr other ↦ rw other
  ];
  counter = refl;
  clones = refl;
}

-- Releasing an id that the target does not know.
release_unknown :
    (l : HookLedger) (target id : ℕ)
    → Inv l
    → Fresh l target id
    → SameAs l (release_hook l target id).0
unfolding release_hook release_from
release_unknown l target id v h = elim (Option-cases (l.by_target target)) [
  | inl missing ↦ rw (missing, release_hook) (SameAs-refl l)
  | inr (e, found) ↦
      let free = absent_from_pending e id (v target e found) (h e found) in
      rw (found, release_hook)
        (rw (newer_than-absent id e.order (h e found), release_from)
          (rw (erase_first-absent id e.pending free) (put_same-SameAs l target e found)))
]

-- A reservation that runs out of memory, at either allocation, leaves the ledger as it was and says
-- so, where duplicates are not refused.
pub reserve-out_of_memory :
    (alloc : Alloc) (l : HookLedger) (target id : ℕ)
    → Inv l
    → Fresh l target id
    → alloc ≢ succeeds
    → let r = reserve_enter alloc l target false id in SameAs l r.0 × (r.1 ≡ answered failed)
unfolding reserve_enter reserve_section layer publish
reserve-out_of_memory succeeds l target id v h n = absurd (n refl)
reserve-out_of_memory first_fails l target id v h n = elim (Option-cases (l.by_target target)) [
  | inl missing ↦ rw (missing, reserve_section) (release_unknown l target id v h, refl)
  | inr (e, found) ↦ rw (found, reserve_section) (release_unknown l target id v h, refl)
]
reserve-out_of_memory second_fails l target id v h n = elim (Option-cases (l.by_target target)) [
  | inl missing ↦ rw (missing, reserve_section) (release_unknown l target id v h, refl)
  | inr (e, found) ↦
      let free = absent_from_pending e id (v target e found) (h e found) in
      rw (found, reserve_section)
        (
          (taken_back l target id e e.pending v found (h e found)
              (erase_first-absent id e.pending free)).0,
          refl,
        )
]
