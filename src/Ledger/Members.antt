-- ===== src/Ledger/Members.antt =====
-- Which ids stand in a target's order and in its queue behind each section under the ledger's lock.
use detour_mod_kit.Base.{
  ℕ, ◌≡◌, ◌⊎◌, refl, Bool, true, false, List, [], ◌∷◌, ◌++◌, Option, none, some, arith, ◌==◌,
  Option-cases, Bool-cases, inl, inr,
}
use detour_mod_kit.Ids.{contains, erase_first, newer_than, contains-concat, contains-erase_first}
use detour_mod_kit.Ledger.{
  Alloc, succeeds, first_fails, second_fails, TargetEntry, HookLedger, put, entry_of, release_from,
  release_hook, layer, publish, reserve_section, drop_pending, claim, teardown_enter,
}
use detour_mod_kit.Ledger.Invariant.{Inv}

-- The order and the queue of a target, empty where it is not tracked.
abbrev pub order_in : Option TargetEntry → List ℕ
order_in none = []
order_in (some e) = e.order

abbrev pub queue_in : Option TargetEntry → List ℕ
queue_in none = []
queue_in (some e) = e.pending

abbrev pub order_of : HookLedger → ℕ → List ℕ
order_of l target = order_in (l.by_target target)

abbrev pub queue_of : HookLedger → ℕ → List ℕ
queue_of l target = queue_in (l.by_target target)

-- Every id in the order or the queue of a target was there before, but for `id`.
pub record Brings (id : ℕ) (l m : HookLedger) : Type 0 where
  pub in_order :
      (t x : ℕ) → contains x (order_of m t) ≡ true → (x ≡ id) ⊎ (contains x (order_of l t) ≡ true)
  pub in_queue :
      (t x : ℕ) → contains x (queue_of m t) ≡ true → (x ≡ id) ⊎ (contains x (queue_of l t) ≡ true)

Brings-refl : (id : ℕ) (l : HookLedger) → Brings id l l
Brings-refl id l = record { in_order = λ t x h. inr h; in_queue = λ t x h. inr h }

erased : (x id : ℕ) (xs : List ℕ) → contains x (erase_first id xs) ≡ true → contains x xs ≡ true
unfolding contains erase_first
erased x id [] h = cc
erased x id (y ∷ xs) h = ground (arith, erased x id xs)

put-Brings :
    (id : ℕ) (l : HookLedger) (target : ℕ) (o : Option TargetEntry)
    → ((x : ℕ)
        → contains x (order_in o) ≡ true
        → (x ≡ id) ⊎ (contains x (order_of l target) ≡ true))
    → ((x : ℕ)
        → contains x (queue_in o) ≡ true
        → (x ≡ id) ⊎ (contains x (queue_of l target) ≡ true))
    → Brings id l (put l target o)
put-Brings id l target o a b = record {
  in_order = λ t x h. elim (Bool-cases (t == target)) [
    | inl same ↦ let e : t ≡ target = ground arith in rw e (a x (rw same at h))
    | inr other ↦ inr (rw other at h)
  ];
  in_queue = λ t x h. elim (Bool-cases (t == target)) [
    | inl same ↦ let e : t ≡ target = ground arith in rw e (b x (rw same at h))
    | inr other ↦ inr (rw other at h)
  ];
}

layer-Brings :
    (alloc : Alloc) (l : HookLedger) (target id : ℕ) (e : TargetEntry)
    → l.by_target target ≡ some e
    → Brings id l (layer alloc l target id e).0
unfolding layer
layer-Brings succeeds l target id e q =
    let both : TargetEntry = record {
      order = e.order ++ id ∷ [];
      pending = e.pending ++ id ∷ [];
    } in
    put-Brings id l target (some both) (λ x h. rw q (ground (arith, contains-concat x e.order id)))
      (λ x h. rw q (ground (arith, contains-concat x e.pending id)))
layer-Brings first_fails l target id e q = Brings-refl id l
layer-Brings second_fails l target id e q =
    let longer : TargetEntry = record e { order = e.order ++ id ∷ [] } in
    put-Brings id l target (some longer)
      (λ x h. rw q (ground (arith, contains-concat x e.order id))) (λ x h. rw q (inr h))

publish-Brings :
    (alloc : Alloc) (l : HookLedger) (target id : ℕ) → Brings id l (publish alloc l target id).0
unfolding publish contains
publish-Brings succeeds l target id =
    put-Brings id l target _ (λ x h. inl (ground arith)) (λ x h. inl (ground arith))
publish-Brings _ l target id = Brings-refl id l

pub reserve_section-Brings :
    (alloc : Alloc) (l : HookLedger) (target : ℕ) (refuse : Bool) (id : ℕ)
    → Brings id l (reserve_section alloc l target refuse id).0
unfolding reserve_section
reserve_section-Brings alloc l target refuse id = elim (Option-cases (l.by_target target)) [
  | inl missing ↦ rw (missing, reserve_section) (publish-Brings alloc l target id)
  | inr (e, found) ↦
      rw (found, reserve_section)
        (elim (Bool-cases refuse) [
          | inl q ↦ rw q (Brings-refl id l)
          | inr q ↦ rw q (layer-Brings alloc l target id e found)
        ])
]

entry_of-order : (order pending : List ℕ) → order_in (entry_of order pending) ≡ order
unfolding entry_of
entry_of-order [] pending = refl
entry_of-order (x ∷ order) pending = refl

entry_of-queue :
    (order pending : List ℕ) (x : ℕ)
    → contains x (queue_in (entry_of order pending)) ≡ true
    → contains x pending ≡ true
unfolding entry_of contains
entry_of-queue [] pending x h = cc
entry_of-queue (y ∷ order) pending x h = h

-- A release brings none: whatever id is named, those behind it were there.
release_from-Brings :
    (l : HookLedger) (target id : ℕ) (e : TargetEntry)
    → l.by_target target ≡ some e
    → (y : ℕ) → Brings y l (release_from l target id e).0
unfolding release_from
release_from-Brings l target id e q y = elim (Option-cases (newer_than id e.order)) [
  | inl absent ↦
      rw (absent, release_from)
        (put-Brings y l target _ (λ x h. rw q (inr h))
          (λ x h. rw q (inr (erased x id e.pending h))))
  | inr (n, found) ↦
      rw (found, release_from)
        (put-Brings y l target (entry_of (erase_first id e.order) (erase_first id e.pending))
          (λ x h. rw q (
            inr (
              erased x id e.order
                (rw (entry_of-order (erase_first id e.order) (erase_first id e.pending)) at h))))
          (λ x h. rw q (
            inr (
              erased x id e.pending
                (entry_of-queue (erase_first id e.order) (erase_first id e.pending) x h)))))
]

pub release_hook-Brings :
    (l : HookLedger) (target id y : ℕ) → Brings y l (release_hook l target id).0
unfolding release_hook
release_hook-Brings l target id y = elim (Option-cases (l.by_target target)) [
  | inl missing ↦ rw (missing, release_hook) (Brings-refl y l)
  | inr (e, found) ↦ rw (found, release_hook) (release_from-Brings l target id e found y)
]

pub drop_pending-Brings : (l : HookLedger) (target id y : ℕ) → Brings y l (drop_pending l target id)
unfolding drop_pending
drop_pending-Brings l target id y = elim (Option-cases (l.by_target target)) [
  | inl missing ↦ rw (missing, drop_pending) (Brings-refl y l)
  | inr (e, found) ↦
      rw (found, drop_pending)
        (put-Brings y l target _ (λ x h. rw found (inr h))
          (λ x h. rw found (inr (erased x id e.pending h))))
]

-- And it takes `id` out of the target's queue.
pub drop_pending-drops :
    (l : HookLedger) (target id : ℕ)
    → Inv l
    → contains id (queue_of (drop_pending l target id) target) ≡ false
unfolding drop_pending contains
drop_pending-drops l target id v = elim (Option-cases (l.by_target target)) [
  | inl missing ↦ rw (missing, drop_pending) (rw missing refl)
  | inr (e, found) ↦
      let gone = contains-erase_first id id e.pending (v target e found).pending_distinct in
      let hit : (target == target) ≡ true = ground arith in
      rw (found, drop_pending) (rw hit (ground arith))
]

-- What a teardown that asks for a slot adds: at most its id, to the queue of its target.
pub record Asks (target id : ℕ) (l m : HookLedger) : Type 0 where
  pub in_order : (t x : ℕ) → contains x (order_of m t) ≡ true → contains x (order_of l t) ≡ true
  pub in_queue :
      (t x : ℕ)
      → contains x (queue_of m t) ≡ true
      → ((t ≡ target) × (x ≡ id)) ⊎ (contains x (queue_of l t) ≡ true)

Asks-refl : (target id : ℕ) (l : HookLedger) → Asks target id l l
Asks-refl target id l = record { in_order = λ t x h. h; in_queue = λ t x h. inr h }

claim-Asks :
    (alloc : Alloc) (l : HookLedger) (target id : ℕ) (e : TargetEntry)
    → l.by_target target ≡ some e
    → Asks target id l (claim alloc l target id e).0
unfolding claim
claim-Asks succeeds l target id e q = record {
  in_order = λ t x h. elim (Bool-cases (t == target)) [
    | inl same ↦ let e' : t ≡ target = ground arith in rw e' (rw q (rw same at h))
    | inr other ↦ rw other at h
  ];
  in_queue = λ t x h. elim (Bool-cases (t == target)) [
    | inl same ↦
        let e' : t ≡ target = ground arith in
        let k = rw same at h in
        let more = contains-concat x e.pending id in
        elim (Bool-cases (contains x e.pending)) [
          | inl old ↦ inr (rw e' (rw q old))
          | inr new ↦ inl (e', ground arith)
        ]
    | inr other ↦ inr (rw other at h)
  ];
}
claim-Asks _ l target id e q = Asks-refl target id l

pub teardown_enter-Asks :
    (alloc : Alloc) (l : HookLedger) (target id : ℕ)
    → Asks target id l (teardown_enter alloc l target id).0
unfolding teardown_enter
teardown_enter-Asks alloc l target id = elim (Option-cases (l.by_target target)) [
  | inl missing ↦ rw (missing, teardown_enter) (Asks-refl target id l)
  | inr (e, found) ↦
      rw (found, teardown_enter)
        (elim (Bool-cases (contains id e.order)) [
          | inl m ↦ rw m (claim-Asks alloc l target id e found)
          | inr m ↦ rw m (Asks-refl target id l)
        ])
]
