-- ===== src/Events/History.antt =====
-- The histories of a dispatcher: every interleaving of the atomic parts of its calls.
use detour_mod_kit.Base.{
  ℕ, ◌+◌, ◌%◌, ◌^◌, ◌<◌, ◌≡◌, inl, inr, refl, Bool, true, false, List, [], ◌∷◌, ◌++◌, Option, none,
  some, arith, ltb, Bool-cases,
}
use detour_mod_kit.Ids.{
  contains, erase_first, Distinct, Distinct-concat, contains-concat, contains-erase_first,
  Distinct-erase_first,
}
use detour_mod_kit.Events.{
  Entry, Dispatcher, Thread, initial, ids, without, claim_id, insert_entry, unsubscribe,
  enqueue_pending_removal, cleared, drain_pending_removals, clear, leave,
}
use detour_mod_kit.Events.Invariant.{
  Inv, contains-without, ids-concat, fresh_id, claim_id-Inv, insert_entry-Inv, unsubscribe-Inv,
  leave-Inv, clear-Inv,
}

-- The dispatcher, with the ids that calls of `subscribe` have drawn and not yet come under the lock with.
pub record Flight : Type 0 where
  pub dispatcher : Dispatcher
  pub drawn : List ℕ

abbrev pub no_calls : Flight
no_calls = record { dispatcher = initial; drawn = [] }

abbrev add_drawn : List ℕ → Option ℕ → List ℕ
add_drawn xs none = xs
add_drawn xs (some id) = xs ++ id ∷ []

-- One atomic part of a call of one thread, which may be emitting; any other call's may come between those
-- of `subscribe`. The counter of ids does not wrap.
pub data Step (s : Flight) : Flight → Type 0 where
  claims :
      (handler : Option ℕ) (t : Thread)
      → s.dispatcher.next_id + 1 < 2 ^ 64
      → Step s (record {
        dispatcher = (claim_id handler t s.dispatcher).0;
        drawn = add_drawn s.drawn (claim_id handler t s.dispatcher).1;
      })
  inserts :
      (memory : Bool) (id handler : ℕ)
      → contains id s.drawn ≡ true
      → Step s (record {
        dispatcher = (insert_entry memory id handler s.dispatcher).0;
        drawn = erase_first id s.drawn;
      })
  unsubscribes :
      (memory : Bool) (self id : ℕ) (t : Thread)
      → Step s (record s { dispatcher = (unsubscribe memory self id t s.dispatcher).0 })
  leaves : (memory : Bool) → Step s (record s { dispatcher = leave memory s.dispatcher })
  clears : (memory : Bool) → Step s (record s { dispatcher = clear memory s.dispatcher })

pub data Reach (s : Flight) : Flight → Type 0 where
  here : Reach s s
  next : {m n : Flight} → Reach s m → Step m n → Reach s n

-- The dispatcher is in its invariant; no id is drawn twice, and each drawn one is handed out and no
-- handler's.
record FlightInv (s : Flight) : Type 0 where
  pub inner : Inv s.dispatcher
  pub once : Distinct s.drawn
  pub apart :
      (x : ℕ)
      → contains x s.drawn ≡ true
      → (x < s.dispatcher.next_id) × (contains x (ids s.dispatcher.handlers) ≡ false)

-- A part of a call that gives no handler an id and no id out.
abbrev Shrinks : Dispatcher → Dispatcher → Type 0
Shrinks d e =
    (e.next_id ≡ d.next_id)
    × ((x : ℕ) → contains x (ids d.handlers) ≡ false → contains x (ids e.handlers) ≡ false)

without-Shrinks :
    (queued : List ℕ) (es : List Entry) (x : ℕ)
    → contains x (ids es) ≡ false
    → contains x (ids (without queued es)) ≡ false
without-Shrinks queued es x h = rw (contains-without x queued es) (ground arith)

unsubscribe-Shrinks :
    (memory : Bool) (self id : ℕ) (t : Thread) (d : Dispatcher)
    → Shrinks d (unsubscribe memory self id t d).0
unfolding unsubscribe enqueue_pending_removal
unsubscribe-Shrinks memory self id t d =
    (ground arith, λ x h. ground (arith, without-Shrinks (id ∷ []) d.handlers x h))

drain-Shrinks : (memory : Bool) (d : Dispatcher) → Shrinks d (drain_pending_removals memory d)
unfolding drain_pending_removals cleared
drain-Shrinks memory d =
    (ground arith, λ x h. ground (arith, without-Shrinks d.pending_removals d.handlers x h))

leave-Shrinks : (memory : Bool) (d : Dispatcher) → Shrinks d (leave memory d)
unfolding leave
leave-Shrinks memory d =
    let r = drain-Shrinks memory d in (ground (arith, r.0), λ x h. ground (arith, r.1 x h))

clear-Shrinks : (memory : Bool) (d : Dispatcher) → Shrinks d (clear memory d)
unfolding clear contains
clear-Shrinks memory d = (ground arith, λ x h. ground arith)

shrunk :
    (s : Flight) (e : Dispatcher)
    → FlightInv s
    → Inv e
    → Shrinks s.dispatcher e
    → FlightInv (record s { dispatcher = e })
shrunk s e v w (n, k) = record {
  inner = w;
  once = v.once;
  apart = λ x h. let (a, b) = v.apart x h in (rw n a, k x b);
}

drawn_fresh :
    (n : ℕ) (xs : List ℕ) → ((x : ℕ) → contains x xs ≡ true → x < n) → contains n xs ≡ false
drawn_fresh n xs h = elim (Bool-cases (contains n xs)) [
  | inl there ↦ absurd (omega (arith, h n there))
  | inr away ↦ away
]

claims-FlightInv :
    (handler : Option ℕ) (t : Thread) (s : Flight)
    → FlightInv s
    → s.dispatcher.next_id + 1 < 2 ^ 64
    → let r = claim_id handler t s.dispatcher in
      FlightInv (record { dispatcher = r.0; drawn = add_drawn s.drawn r.1 })
unfolding claim_id
claims-FlightInv none t s v h = v
claims-FlightInv (some k) t s v h =
    let d = s.dispatcher in
    let w = claim_id-Inv (some k) t d v.inner h in
    elim (Bool-cases (ltb 0 t.depth)) [
      | inl nested ↦ rw nested v
      | inr outside ↦
          let q : (d.next_id + 1) % 2 ^ 64 ≡ d.next_id + 1 = omega arith in
          let new = drawn_fresh d.next_id s.drawn (λ x g. (v.apart x g).0) in
          let free = fresh_id d.next_id (ids d.handlers) v.inner.handed_out in
          rw (outside, q)
            (record {
              inner = rw (outside, q) at w;
              once = Distinct-concat s.drawn d.next_id v.once new;
              apart = λ x g.
                  let more = contains-concat x s.drawn d.next_id in
                  elim (Bool-cases (contains x s.drawn)) [
                    | inl old ↦ let (a, b) = v.apart x old in (omega (arith, a), b)
                    | inr other ↦ let e : x ≡ d.next_id = ground arith in rw e (omega arith, free)
                  ];
            })
    ]

inserts-FlightInv :
    (memory : Bool) (id handler : ℕ) (s : Flight)
    → FlightInv s
    → contains id s.drawn ≡ true
    → FlightInv (record {
      dispatcher = (insert_entry memory id handler s.dispatcher).0;
      drawn = erase_first id s.drawn;
    })
unfolding insert_entry
inserts-FlightInv false id handler s v h = record {
  inner = v.inner;
  once = Distinct-erase_first id s.drawn v.once;
  apart = λ x g. v.apart x (ground (arith, contains-erase_first x id s.drawn v.once));
}
inserts-FlightInv true id handler s v h =
    let (a, b) = v.apart id h in
    record {
      inner = insert_entry-Inv true id handler s.dispatcher v.inner a b;
      once = Distinct-erase_first id s.drawn v.once;
      apart = λ x g.
          let less = contains-erase_first x id s.drawn v.once in
          let (c, e) = v.apart x (ground arith) in
          let entry : Entry = record { id = id; callback = handler } in
          let more = contains-concat x (ids s.dispatcher.handlers) id in
          (c, rw (ids-concat s.dispatcher.handlers entry) (ground arith));
    }

Step-FlightInv : {s u : Flight} → Step s u → FlightInv s → FlightInv u
Step-FlightInv {s} (claims handler t h) v = claims-FlightInv handler t s v h
Step-FlightInv {s} (inserts memory id handler h) v = inserts-FlightInv memory id handler s v h
Step-FlightInv {s} (unsubscribes memory self id t) v =
    shrunk s (unsubscribe memory self id t s.dispatcher).0 v
      (unsubscribe-Inv memory self id t s.dispatcher v.inner)
      (unsubscribe-Shrinks memory self id t s.dispatcher)
Step-FlightInv {s} (leaves memory) v =
    shrunk s (leave memory s.dispatcher) v (leave-Inv memory s.dispatcher v.inner)
      (leave-Shrinks memory s.dispatcher)
Step-FlightInv {s} (clears memory) v =
    shrunk s (clear memory s.dispatcher) v (clear-Inv memory s.dispatcher v.inner)
      (clear-Shrinks memory s.dispatcher)

Reach-FlightInv : {s : Flight} → Reach no_calls s → FlightInv s
unfolding contains
Reach-FlightInv here = record {
  inner = record { counted = refl; distinct = tt; handed_out = tt; announced = inl refl };
  once = tt;
  apart = λ x h. absurd (ground arith);
}
Reach-FlightInv (next r s) = Step-FlightInv s (Reach-FlightInv r)

-- In every history of a dispatcher, whichever threads take the atomic parts of its calls in whatever
-- order, emitting or not, and whichever allocations of `subscribe`, `unsubscribe`, the drain and `clear` fail,
-- the count that `emit` tests first is the number of handlers, no two of them have the same id, each id
-- is one handed out before, and while a removal is queued the flag that makes the end of an emission
-- drain it is set; provided that the 64-bit counter of ids does not wrap.
pub dispatcher-Inv : {s : Flight} → Reach no_calls s → Inv s.dispatcher
dispatcher-Inv r = (Reach-FlightInv r).inner
