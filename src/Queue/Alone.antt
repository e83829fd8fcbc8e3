-- ===== src/Queue/Alone.antt =====
-- A call of the queue that runs by itself, from any state the others have left it in.
use detour_mod_kit.Base.{
  ℕ, zero, suc, ◌+◌, ◌≤◌, ◌≡◌, ◌⊎◌, inl, inr, true, false, arith, ltb, ◌==◌, if◌then◌else◌,
  Bool-cases, ==_refl,
}
use detour_mod_kit.Queue.{
  Queue, slot_of, Push, starts, pushed, refused, push_step, Pop, begins, popped, nothing, pop_step,
}
use detour_mod_kit.Queue.Calls.{
  Phase, future, pushing, full, popping, gone, Calls, Reach, from_start,
}
use detour_mod_kit.Queue.Invariant.{Holds, Between}
use detour_mod_kit.Queue.Delivery.{start-Inv, Reach-Inv}

unfoldable pub solo_push : ℕ → Queue → Push → Queue × Push
solo_push zero q s = (q, s)
solo_push (suc n) q s = let r = push_step false q s in solo_push n r.0 r.1

unfoldable pub solo_pop : ℕ → Queue → Pop → Queue × Pop
solo_pop zero q s = (q, s)
solo_pop (suc n) q s = let r = pop_step false q s in solo_pop n r.0 r.1

-- The slot at the end of the queue is not ahead of the end.
end-le :
    (q : Queue) (m : ℕ) (x : Phase)
    → Between q q.enqueue_pos x
    → Holds q.capacity (slot_of q q.enqueue_pos) q.enqueue_pos x m
    → (slot_of q q.enqueue_pos).sequence ≤ q.enqueue_pos
end-le q m future b h = h
end-le q m (pushing i) b h = absurd (omega (arith, b.0))
end-le q m full b h = absurd (omega (arith, b.0))
end-le q m (popping i) b h = absurd (omega (arith, b.0))
end-le q m (gone i) b h = absurd (omega (arith, b.0))

-- The slot at the front is published, or not ahead of the front.
front :
    (q : Queue) (m : ℕ) (x : Phase)
    → Between q q.dequeue_pos x
    → Holds q.capacity (slot_of q q.dequeue_pos) q.dequeue_pos x m
    → ((slot_of q q.dequeue_pos).sequence ≤ q.dequeue_pos)
      ⊎ (((slot_of q q.dequeue_pos).sequence ≡ q.dequeue_pos + 1)
          × ((slot_of q q.dequeue_pos).message ≡ m))
front q m future b h = inl h
front q m (pushing i) b h = inl (omega arith)
front q m full b h = inr h
front q m (popping i) b h = absurd (omega (arith, b.1))
front q m (gone i) b h = absurd (omega (arith, b.1))

push_free :
    (q : Queue) (m : ℕ)
    → ((slot_of q q.enqueue_pos).sequence == q.enqueue_pos) ≡ true
    → (solo_push 5 q (starts m)).1 ≡ pushed q.enqueue_pos
unfolding solo_push push_step
push_free q m h = rw (h, ==_refl q.enqueue_pos)

push_full :
    (q : Queue) (m : ℕ)
    → ((slot_of q q.enqueue_pos).sequence == q.enqueue_pos) ≡ false
    → ltb (slot_of q q.enqueue_pos).sequence q.enqueue_pos ≡ true
    → (solo_push 5 q (starts m)).1 ≡ refused m
unfolding solo_push push_step
push_full q m h k = rw (h, k)

pop_full :
    (q : Queue)
    → ((slot_of q q.dequeue_pos).sequence == q.dequeue_pos + 1) ≡ true
    → (solo_pop 5 q begins).1 ≡ popped q.dequeue_pos (slot_of q q.dequeue_pos).message
unfolding solo_pop pop_step
pop_full q h = rw (h, ==_refl q.dequeue_pos)

pop_empty :
    (q : Queue)
    → ((slot_of q q.dequeue_pos).sequence == q.dequeue_pos + 1) ≡ false
    → ltb (slot_of q q.dequeue_pos).sequence (q.dequeue_pos + 1) ≡ true
    → (solo_pop 5 q begins).1 ≡ nothing
unfolding solo_pop pop_step
pop_empty q h k = rw (h, k)

-- A call of `try_push` that runs alone in a reachable state, its compare-and-swap not failing for no
-- reason, has returned after five accesses: it has pushed at the end of the queue if the slot there
-- has that position as its sequence number, and has refused otherwise.
pub push_alone :
    (capacity : ℕ) (messages : ℕ → ℕ) {c : Calls} (m : ℕ)
    → 2 ≤ capacity
    → Reach (from_start capacity messages) c
    → (solo_push 5 c.queue (starts m)).1 ≡ (
        if (slot_of c.queue c.queue.enqueue_pos).sequence == c.queue.enqueue_pos
        then pushed c.queue.enqueue_pos
        else refused m)
push_alone capacity messages {c} m w r =
    let v = Reach-Inv r (start-Inv capacity messages w) in
    let q = c.queue in
    let e = q.enqueue_pos in
    let b = end-le q (c.message_of e) (c.phase e) (v.between e) (v.holds e) in
    elim (Bool-cases ((slot_of q e).sequence == e)) [
      | inl h ↦ rw (push_free q m h, h)
      | inr h ↦ rw (push_full q m h (ground arith), h)
    ]

-- A call of `try_pop` that runs alone in a reachable state, its compare-and-swap not failing for no
-- reason, has returned after five accesses: with the message that was claimed for the front of the
-- queue, if the slot there is published, and with nothing otherwise.
pub pop_alone :
    (capacity : ℕ) (messages : ℕ → ℕ) {c : Calls}
    → 2 ≤ capacity
    → Reach (from_start capacity messages) c
    → (solo_pop 5 c.queue begins).1 ≡ (
        if (slot_of c.queue c.queue.dequeue_pos).sequence == c.queue.dequeue_pos + 1
        then popped c.queue.dequeue_pos (c.message_of c.queue.dequeue_pos)
        else nothing)
pop_alone capacity messages {c} w r =
    let v = Reach-Inv r (start-Inv capacity messages w) in
    let q = c.queue in
    let d = q.dequeue_pos in
    elim (front q (c.message_of d) (c.phase d) (v.between d) (v.holds d)) [
      | inl b ↦
          let h : ((slot_of q d).sequence == d + 1) ≡ false = ground arith in
          rw (pop_empty q h (ground arith), h)
      | inr (s, t) ↦
          let h : ((slot_of q d).sequence == d + 1) ≡ true = ground arith in rw (pop_full q h, h, t)
    ]
