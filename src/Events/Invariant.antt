-- ===== src/Events/Invariant.antt =====
-- The dispatcher's invariant, which each critical section keeps.
use detour_mod_kit.Base.{
  ℕ, ◌+◌, ◌%◌, ◌^◌, ◌<◌, ◌≡◌, ◌⊎◌, inl, inr, refl, Bool, true, false, not, ◌&&◌, List, [], ◌∷◌,
  ◌++◌, Option, none, some, arith, ◌==◌, if◌then◌else◌, length, ltb, All, Bool-cases,
}
use detour_mod_kit.Ids.{contains, Distinct, Distinct-concat}
use detour_mod_kit.Events.{
  Entry, Dispatcher, Thread, ids, without, publish, claim_id, insert_entry, enqueue_pending_removal,
  is_emitting, unsubscribe, cleared, drain_pending_removals, clear, leave,
}

-- The count is that of the list, no id stands twice, every id is one already handed out, and a
-- queued removal is announced.
pub record Inv (d : Dispatcher) : Type 0 where
  pub counted : d.handler_count ≡ length d.handlers
  pub distinct : Distinct (ids d.handlers)
  pub handed_out : All (λ x. x < d.next_id) (ids d.handlers)
  pub announced : (d.pending_removals ≡ []) ⊎ (d.has_pending_removals ≡ true)

pub contains-without :
    (x : ℕ) (queued : List ℕ) (es : List Entry)
    → contains x (ids (without queued es)) ≡ (contains x (ids es) && not (contains x queued))
unfolding contains without
contains-without x queued [] = refl
contains-without x queued (e ∷ es) = elim (Bool-cases (e.id == x)) [
  | inl same ↦
      let q : e.id ≡ x = ground arith in rw q (ground (arith, contains-without x queued es))
  | inr other ↦ ground (arith, contains-without x queued es)
]

Distinct-without :
    (queued : List ℕ) (es : List Entry) → Distinct (ids es) → Distinct (ids (without queued es))
unfolding without
Distinct-without queued [] d = tt
Distinct-without queued (e ∷ es) (h, d) =
    ground (arith, contains-without e.id queued es, Distinct-without queued es d)

All-without :
    (n : ℕ) (queued : List ℕ) (es : List Entry)
    → All (λ x. x < n) (ids es)
    → All (λ x. x < n) (ids (without queued es))
unfolding without
All-without n queued [] h = tt
All-without n queued (e ∷ es) (h, hs) = elim (Bool-cases (contains e.id queued)) [
  | inl gone ↦ rw gone (All-without n queued es hs)
  | inr stays ↦ rw stays (h, All-without n queued es hs)
]

without-absent :
    (id : ℕ) (es : List Entry) → contains id (ids es) ≡ false → without (id ∷ []) es ≡ es
unfolding contains without
without-absent id [] h = refl
without-absent id (e ∷ es) h = ground (arith, without-absent id es)

-- An id that is there once is all that its removal takes.
length-without :
    (id : ℕ) (es : List Entry)
    → Distinct (ids es)
    → contains id (ids es) ≡ true
    → length es ≡ length (without (id ∷ []) es) + 1
unfolding contains without
length-without id [] d h = cc
length-without id (e ∷ es) (x, d) h = elim (Bool-cases (e.id == id)) [
  | inl same ↦ let q : e.id ≡ id = ground arith in ground (arith, without-absent id es (rw q at x))
  | inr other ↦ ground (arith, length-without id es d)
]

All-mono : (n m : ℕ) (xs : List ℕ) → All (λ x. x < n) xs → n < m → All (λ x. x < m) xs
All-mono n m [] h k = tt
All-mono n m (x ∷ xs) (h, hs) k = (omega arith, All-mono n m xs hs k)

pub ids-concat : (es : List Entry) (e : Entry) → ids (es ++ e ∷ []) ≡ ids es ++ e.id ∷ []
ids-concat [] e = refl
ids-concat (x ∷ es) e = rw (ids-concat es e)

All-concat :
    (n : ℕ) (xs : List ℕ) (x : ℕ) → All (λ x. x < n) xs → x < n → All (λ x. x < n) (xs ++ x ∷ [])
All-concat n [] x h k = (k, tt)
All-concat n (y ∷ xs) x (h, hs) k = (h, All-concat n xs x hs k)

pub fresh_id : (n : ℕ) (xs : List ℕ) → All (λ x. x < n) xs → contains n xs ≡ false
unfolding contains
fresh_id n [] h = refl
fresh_id n (x ∷ xs) (h, hs) = ground (arith, fresh_id n xs hs)

-- The ids that were handed out before the counter goes on stay so.
pub claim_id-Inv :
    (handler : Option ℕ) (t : Thread) (d : Dispatcher)
    → Inv d
    → d.next_id + 1 < 2 ^ 64
    → Inv (claim_id handler t d).0
unfolding claim_id
claim_id-Inv none t d v h = v
claim_id-Inv (some k) t d v h = elim (Bool-cases (ltb 0 t.depth)) [
  | inl nested ↦ rw nested v
  | inr outside ↦
      let q : (d.next_id + 1) % 2 ^ 64 ≡ d.next_id + 1 = omega arith in
      rw (outside, q)
        (record {
          counted = v.counted;
          distinct = v.distinct;
          handed_out =
              All-mono d.next_id (d.next_id + 1) (ids d.handlers) v.handed_out (omega arith);
          announced = v.announced;
        })
]

pub insert_entry-Inv :
    (memory : Bool) (id handler : ℕ) (d : Dispatcher)
    → Inv d
    → id < d.next_id
    → contains id (ids d.handlers) ≡ false
    → Inv (insert_entry memory id handler d).0
unfolding insert_entry
insert_entry-Inv false id handler d v h n = v
insert_entry-Inv true id handler d v h n = record {
  counted = refl;
  distinct = rw (ids-concat d.handlers) (Distinct-concat (ids d.handlers) id v.distinct n);
  handed_out = rw (ids-concat d.handlers) (All-concat d.next_id (ids d.handlers) id v.handed_out h);
  announced = v.announced;
}

enqueue-Inv :
    (memory : Bool) (id : ℕ) (d : Dispatcher) → Inv d → Inv (enqueue_pending_removal memory id d)
unfolding enqueue_pending_removal
enqueue-Inv memory id d v = elim (Bool-cases (contains id d.pending_removals)) [
  | inl queued ↦ rw queued v
  | inr new ↦ rw new (elim (Bool-cases memory) [
    | inl can ↦ rw can (record {
      counted = v.counted;
      distinct = v.distinct;
      handed_out = v.handed_out;
      announced = inr refl;
    })
    | inr cannot ↦ rw cannot v
  ])
]

pub unsubscribe-Inv :
    (memory : Bool) (self id : ℕ) (t : Thread) (d : Dispatcher)
    → Inv d
    → Inv (unsubscribe memory self id t d).0
unfolding unsubscribe
unsubscribe-Inv memory self id t d v = elim (Bool-cases (is_emitting self t)) [
  | inl emitting ↦ rw (emitting, unsubscribe) (enqueue-Inv memory id d v)
  | inr idle ↦ elim (Bool-cases (contains id (ids d.handlers))) [
    | inr absent ↦ rw (idle, absent, unsubscribe) v
    | inl found ↦ elim (Bool-cases memory) [
      | inr cannot ↦ rw (idle, found, cannot, unsubscribe) v
      | inl can ↦
          rw (idle, found, can, unsubscribe)
            (record {
              counted = omega (arith, length-without id d.handlers v.distinct found);
              distinct = Distinct-without (id ∷ []) d.handlers v.distinct;
              handed_out = All-without d.next_id (id ∷ []) d.handlers v.handed_out;
              announced = v.announced;
            })
    ]
  ]
]

drained-Inv :
    (d : Dispatcher)
    → Inv d
    → let next = without d.pending_removals d.handlers in
      Inv (cleared (publish d next (length next)))
unfolding cleared
drained-Inv d v = record {
  counted = refl;
  distinct = Distinct-without d.pending_removals d.handlers v.distinct;
  handed_out = All-without d.next_id d.pending_removals d.handlers v.handed_out;
  announced = inl refl;
}

List-cases : (xs : List ℕ) → (xs ≡ []) ⊎ ((y : ℕ) × (ys : List ℕ) × (xs ≡ y ∷ ys))
List-cases [] = inl refl
List-cases (y ∷ ys) = inr (y, ys, refl)

drain-Inv : (memory : Bool) (d : Dispatcher) → Inv d → Inv (drain_pending_removals memory d)
unfolding drain_pending_removals
drain-Inv memory d v = elim (List-cases d.pending_removals) [
  | inl nothing ↦
      rw (nothing, drain_pending_removals)
        (record {
          counted = v.counted;
          distinct = v.distinct;
          handed_out = v.handed_out;
          announced = inl nothing;
        })
  | inr (y, ys, q) ↦ elim (Bool-cases memory) [
    | inl can ↦ rw (q, can, drain_pending_removals) (drained-Inv d v)
    | inr cannot ↦ rw (q, cannot, drain_pending_removals) v
  ]
]

either-Inv : (b : Bool) (x y : Dispatcher) → Inv x → Inv y → Inv (if b then x else y)
either-Inv true x y v w = v
either-Inv false x y v w = w

pub leave-Inv : (memory : Bool) (d : Dispatcher) → Inv d → Inv (leave memory d)
unfolding leave
leave-Inv memory d v =
    either-Inv d.has_pending_removals (drain_pending_removals memory d) d (drain-Inv memory d v) v

pub clear-Inv : (memory : Bool) (d : Dispatcher) → Inv d → Inv (clear memory d)
unfolding clear
clear-Inv true d v = record {
  counted = refl;
  distinct = tt;
  handed_out = tt;
  announced = v.announced;
}
clear-Inv false d v = v
