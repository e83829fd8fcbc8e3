-- ===== src/Ledger/Invariant.antt =====
-- The ledger's invariant, and that every method keeps it.
use detour_mod_kit.Base.{
  ℕ, ◌≡◌, ◌≢◌, refl, Bool, true, false, List, [], ◌∷◌, ◌++◌, Option, some, arith, ◌==◌,
  Option-cases, Bool-cases, inl, inr,
}
use detour_mod_kit.Ids.{
  contains, erase_first, newer_than, Distinct, contains-concat, Distinct-concat,
  contains-erase_first, Distinct-erase_first,
}
use detour_mod_kit.Ledger.{
  Alloc, succeeds, first_fails, second_fails, TargetEntry, HookLedger, put, entry_of, release_from,
  release_hook, layer, publish, reserve_section, drop_pending, claim, teardown_enter,
}

-- A tracked target has a hook, tracks no id twice, and only its own hooks queue for its slot.
pub record EntryOk (e : TargetEntry) : Type 0 where
  pub filled : e.order ≢ []
  pub order_distinct : Distinct e.order
  pub pending_distinct : Distinct e.pending
  pub included : (x : ℕ) → contains x e.pending ≡ true → contains x e.order ≡ true

abbrev pub Inv : HookLedger → Type 0
Inv l = (target : ℕ) (e : TargetEntry) → l.by_target target ≡ some e → EntryOk e

-- No hook at the target has this id; no slot of the target is asked for under it.
abbrev pub Fresh : HookLedger → ℕ → ℕ → Type 0
Fresh l target id = (e : TargetEntry) → l.by_target target ≡ some e → contains id e.order ≡ false

abbrev pub NotQueued : HookLedger → ℕ → ℕ → Type 0
NotQueued l target id =
    (e : TargetEntry) → l.by_target target ≡ some e → contains id e.pending ≡ false

put-Inv :
    (l : HookLedger) (target : ℕ) (o : Option TargetEntry)
    → Inv l
    → ((e : TargetEntry) → o ≡ some e → EntryOk e)
    → Inv (put l target o)
put-Inv l target o v h t e q = elim (Bool-cases (t == target)) [
  | inl same_target ↦ h e (ground arith)
  | inr other ↦ v t e (ground arith)
]

concat-ne-nil : (xs : List ℕ) (x : ℕ) → xs ++ x ∷ [] ≡ [] → xs ≡ []
concat-ne-nil [] x q = refl
concat-ne-nil (y ∷ xs) x q = cc

drop-EntryOk :
    (e : TargetEntry) (id : ℕ)
    → EntryOk e
    → EntryOk (record e { pending = erase_first id e.pending })
drop-EntryOk e id k = record {
  filled = k.filled;
  order_distinct = k.order_distinct;
  pending_distinct = Distinct-erase_first id e.pending k.pending_distinct;
  included =
      λ x h. k.included x (ground (arith, contains-erase_first x id e.pending k.pending_distinct));
}

entry_of-EntryOk :
    (order pending : List ℕ) (e : TargetEntry)
    → Distinct order
    → Distinct pending
    → ((x : ℕ) → contains x pending ≡ true → contains x order ≡ true)
    → entry_of order pending ≡ some e
    → EntryOk e
unfolding entry_of
entry_of-EntryOk [] pending e d p h q = absurd (ground arith)
entry_of-EntryOk (x ∷ order) pending e d p h q =
    let same : e ≡ record { order = x ∷ order; pending = pending } = ground arith in
    rw same (record { filled = λ z. cc; order_distinct = d; pending_distinct = p; included = h })

release_from-Inv :
    (l : HookLedger) (target id : ℕ) (e : TargetEntry)
    → Inv l
    → EntryOk e
    → Inv (release_from l target id e).0
unfolding release_from
release_from-Inv l target id e v k = elim (Option-cases (newer_than id e.order)) [
  | inl absent ↦
      rw (absent, release_from)
        (put-Inv l target _ v λ e' q.
          let same : e' ≡ record e { pending = erase_first id e.pending } = ground arith in
          rw same (drop-EntryOk e id k))
  | inr (n, found) ↦
      rw (found, release_from)
        (put-Inv l target _ v (λ e'.
          entry_of-EntryOk (erase_first id e.order) (erase_first id e.pending) e'
            (Distinct-erase_first id e.order k.order_distinct)
            (Distinct-erase_first id e.pending k.pending_distinct)
            λ x h. ground (
              arith,
              contains-erase_first x id e.pending k.pending_distinct,
              contains-erase_first x id e.order k.order_distinct,
              k.included x,
            )))
]

pub release_hook-Inv : (l : HookLedger) (target id : ℕ) → Inv l → Inv (release_hook l target id).0
unfolding release_hook
release_hook-Inv l target id v = elim (Option-cases (l.by_target target)) [
  | inl missing ↦ rw (missing, release_hook) v
  | inr (e, found) ↦ rw (found, release_hook) (release_from-Inv l target id e v (v target e found))
]

order-concat-EntryOk :
    (e : TargetEntry) (id : ℕ)
    → EntryOk e
    → contains id e.order ≡ false
    → EntryOk (record e { order = e.order ++ id ∷ [] })
order-concat-EntryOk e id k h = record {
  filled = λ q. k.filled (concat-ne-nil e.order id q);
  order_distinct = Distinct-concat e.order id k.order_distinct h;
  pending_distinct = k.pending_distinct;
  included = λ x q. ground (arith, contains-concat x e.order id, k.included x q);
}

pending-concat-EntryOk :
    (e : TargetEntry) (id : ℕ)
    → EntryOk e
    → contains id e.pending ≡ false
    → contains id e.order ≡ true
    → EntryOk (record e { pending = e.pending ++ id ∷ [] })
pending-concat-EntryOk e id k h m = record {
  filled = k.filled;
  order_distinct = k.order_distinct;
  pending_distinct = Distinct-concat e.pending id k.pending_distinct h;
  included = λ x q. elim (Bool-cases (contains x e.pending)) [
    | inl queued ↦ k.included x queued
    | inr new ↦ let same : id ≡ x = ground (arith, contains-concat x e.pending id) in rw same at m
  ];
}

one-EntryOk : (id : ℕ) → EntryOk (record { order = id ∷ []; pending = id ∷ [] })
unfolding contains
one-EntryOk id = record {
  filled = λ q. cc;
  order_distinct = (refl, tt);
  pending_distinct = (refl, tt);
  included = λ x h. h;
}

-- An entry that is stored is the one that is found.
put-EntryOk :
    (l : HookLedger) (target : ℕ) (e : TargetEntry)
    → Inv l
    → EntryOk e
    → Inv (put l target (some e))
put-EntryOk l target e v k =
    put-Inv l target (some e) v λ e' q. let same : e' ≡ e = ground arith in rw same k

layer-Inv :
    (alloc : Alloc) (l : HookLedger) (target id : ℕ) (e : TargetEntry)
    → Inv l
    → EntryOk e
    → contains id e.order ≡ false
    → Inv (layer alloc l target id e).0
unfolding layer
layer-Inv succeeds l target id e v k h = put-EntryOk l target _ v (
    pending-concat-EntryOk (record e { order = e.order ++ id ∷ [] }) id
      (order-concat-EntryOk e id k h) (ground (arith, k.included id))
      (ground (arith, contains-concat id e.order id)))
layer-Inv first_fails l target id e v k h = v
layer-Inv second_fails l target id e v k h =
    put-EntryOk l target _ v (order-concat-EntryOk e id k h)

publish-Inv :
    (alloc : Alloc) (l : HookLedger) (target id : ℕ) → Inv l → Inv (publish alloc l target id).0
unfolding publish
publish-Inv succeeds l target id v = put-EntryOk l target _ v (one-EntryOk id)
publish-Inv _ l target id v = v

pub reserve_section-Inv :
    (alloc : Alloc) (l : HookLedger) (target : ℕ) (refuse : Bool) (id : ℕ)
    → Inv l
    → Fresh l target id
    → Inv (reserve_section alloc l target refuse id).0
unfolding reserve_section
reserve_section-Inv alloc l target refuse id v h = elim (Option-cases (l.by_target target)) [
  | inl missing ↦ rw (missing, reserve_section) (publish-Inv alloc l target id v)
  | inr (e, found) ↦
      rw (found, reserve_section)
        (elim (Bool-cases refuse) [
          | inl q ↦ rw q v
          | inr q ↦ rw q (layer-Inv alloc l target id e v (v target e found) (h e found))
        ])
]

pub drop_pending-Inv : (l : HookLedger) (target id : ℕ) → Inv l → Inv (drop_pending l target id)
unfolding drop_pending
drop_pending-Inv l target id v = elim (Option-cases (l.by_target target)) [
  | inl missing ↦ rw (missing, drop_pending) v
  | inr (e, found) ↦
      rw (found, drop_pending) (put-EntryOk l target _ v (drop-EntryOk e id (v target e found)))
]

claim-Inv :
    (alloc : Alloc) (l : HookLedger) (target id : ℕ) (e : TargetEntry)
    → Inv l
    → EntryOk e
    → contains id e.pending ≡ false
    → contains id e.order ≡ true
    → Inv (claim alloc l target id e).0
unfolding claim
claim-Inv succeeds l target id e v k h m =
    put-EntryOk l target _ v (pending-concat-EntryOk e id k h m)
claim-Inv _ l target id e v k h m = v

pub teardown_enter-Inv :
    (alloc : Alloc) (l : HookLedger) (target id : ℕ)
    → Inv l
    → NotQueued l target id
    → Inv (teardown_enter alloc l target id).0
unfolding teardown_enter
teardown_enter-Inv alloc l target id v h = elim (Option-cases (l.by_target target)) [
  | inl missing ↦ rw (missing, teardown_enter) v
  | inr (e, found) ↦
      rw (found, teardown_enter)
        (elim (Bool-cases (contains id e.order)) [
          | inl m ↦ rw m (claim-Inv alloc l target id e v (v target e found) (h e found) m)
          | inr m ↦ rw m v
        ])
]
