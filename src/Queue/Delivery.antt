-- ===== src/Queue/Delivery.antt =====
-- What the calls of the queue may rely on, in every interleaving.
use native.Mathlib.Nat.{mod-le, add-mod_right}
use detour_mod_kit.Base.{ℕ, ◌+◌, ◌≤◌, ◌<◌, ◌≡◌, ◌⊎◌, inl, inr, sym, ap, ◌∙◌, arith, dec_le}
use detour_mod_kit.Queue.{Queue, Slot, slot_of, popped, claimed, stored, size}
use detour_mod_kit.Queue.Calls.{
  Phase, future, pushing, full, popping, gone, Calls, pushes_on, pops_on, Reach, here, next,
  from_start,
}
use detour_mod_kit.Queue.Invariant.{Holds, Between, Inv}
use detour_mod_kit.Queue.Pushes.{step_push-Inv}
use detour_mod_kit.Queue.Pops.{step_pop-Inv}

pub start-Inv :
    (capacity : ℕ) (messages : ℕ → ℕ) → 2 ≤ capacity → Inv (from_start capacity messages)
start-Inv capacity messages h = record {
  wide = h;
  holds = λ p. mod-le p capacity;
  between = λ p. (omega arith, omega arith);
  push_ok = λ i. tt;
  pop_ok = λ i. tt;
}

pub Reach-Inv : {c d : Calls} → Reach c d → Inv c → Inv d
Reach-Inv here v = v
Reach-Inv (next {d} r (pushes_on i spurious)) v = step_push-Inv d i spurious (Reach-Inv r v)
Reach-Inv (next {d} r (pops_on i spurious)) v = step_pop-Inv d i spurious (Reach-Inv r v)

-- In every interleaving of any number of calls, a call of `try_pop` that has returned a message from a
-- position has the message with which the last push to claim that position claimed it, and no other
-- call has returned one from the same position.
pub popped_once :
    (capacity : ℕ) (messages : ℕ → ℕ) {c : Calls} (i k p m n : ℕ)
    → 2 ≤ capacity
    → Reach (from_start capacity messages) c
    → c.pops i ≡ popped p m
    → c.pops k ≡ popped p n
    → (m ≡ c.message_of p) × (n ≡ c.message_of p) × (i ≡ k)
popped_once capacity messages {c} i k p m n w r a b =
    let v = Reach-Inv r (start-Inv capacity messages w) in
    let (x, x') = rw a at (v.pop_ok i) in
    let (y, y') = rw b at (v.pop_ok k) in (x', y', owner (sym x ∙ y))
  where
    owner : gone i ≡ gone k → i ≡ k
    owner e = ground arith

at_work :
    {c : Calls} (i p m : ℕ)
    → Inv c
    → (c.pushes i ≡ claimed p m) ⊎ (c.pushes i ≡ stored p m)
    → c.phase p ≡ pushing i
at_work i p m v (inl a) = (rw a at (v.push_ok i)).0
at_work i p m v (inr a) = (rw a at (v.push_ok i)).0

-- While one call of `try_push` is between its compare-and-swap and its publication of a position, no
-- other call is so at that position, and the position's slot has the position itself as its sequence
-- number.
pub push_exclusive :
    (capacity : ℕ) (messages : ℕ → ℕ) {c : Calls} (i k p m n : ℕ)
    → 2 ≤ capacity
    → Reach (from_start capacity messages) c
    → (c.pushes i ≡ claimed p m) ⊎ (c.pushes i ≡ stored p m)
    → (c.pushes k ≡ claimed p n) ⊎ (c.pushes k ≡ stored p n)
    → (i ≡ k) × ((slot_of c.queue p).sequence ≡ p)
push_exclusive capacity messages {c} i k p m n w r a b =
    let v = Reach-Inv r (start-Inv capacity messages w) in
    let x = at_work i p m v a in
    let y = at_work k p n v b in (owner (sym x ∙ y), rw x at (v.holds p))
  where
    owner : pushing i ≡ pushing k → i ≡ k
    owner e = ground arith

no_overtaking : {c : Calls} → Inv c → c.queue.dequeue_pos ≤ c.queue.enqueue_pos
no_overtaking {c} v = go (c.phase c.queue.enqueue_pos) (v.between c.queue.enqueue_pos)
  where
    go :
        (x : Phase)
        → Between c.queue c.queue.enqueue_pos x
        → c.queue.dequeue_pos ≤ c.queue.enqueue_pos
    go future h = h.1
    go (pushing j) h = absurd (omega (arith, h.0))
    go full h = absurd (omega (arith, h.0))
    go (popping j) h = absurd (omega (arith, h.0))
    go (gone j) h = absurd (omega (arith, h.0))

-- Two positions a capacity apart, the later one claimed, the earlier one not yet taken.
clash :
    (q : Queue) (s : Slot) (p m n : ℕ) (x y : Phase)
    → 2 ≤ q.capacity
    → q.dequeue_pos ≤ p
    → p + q.capacity < q.enqueue_pos
    → Between q p x
    → Holds q.capacity s p x m
    → Between q (p + q.capacity) y
    → Holds q.capacity s (p + q.capacity) y n
    → ⊥
clash q s p m n future y w d e b h b' h' = omega (arith, b.0)
clash q s p m n (popping j) y w d e b h b' h' = omega (arith, b.1)
clash q s p m n (gone j) y w d e b h b' h' = omega (arith, b.1)
clash q s p m n (pushing j) future w d e b h b' h' = omega (arith, b'.0)
clash q s p m n (pushing j) (pushing l) w d e b h b' h' = omega (arith, h, h')
clash q s p m n (pushing j) full w d e b h b' h' = omega (arith, h, h'.0)
clash q s p m n (pushing j) (popping l) w d e b h b' h' = omega (arith, h, h'.0)
clash q s p m n (pushing j) (gone l) w d e b h b' h' = omega (arith, h, h')
clash q s p m n full future w d e b h b' h' = omega (arith, b'.0)
clash q s p m n full (pushing l) w d e b h b' h' = omega (arith, h.0, h')
clash q s p m n full full w d e b h b' h' = omega (arith, h.0, h'.0)
clash q s p m n full (popping l) w d e b h b' h' = omega (arith, h.0, h'.0)
clash q s p m n full (gone l) w d e b h b' h' = omega (arith, h.0, h')

same_slot : (q : Queue) (p : ℕ) → slot_of q (p + q.capacity) ≡ slot_of q p
same_slot q p = ap q.buffer (add-mod_right p q.capacity)

-- In every interleaving the number of positions that are claimed by pushes and not yet by pops, which
-- is what `size` answers, is at most the capacity, and the pops never overtake the pushes.
pub size-le :
    (capacity : ℕ) (messages : ℕ → ℕ) {c : Calls}
    → 2 ≤ capacity
    → Reach (from_start capacity messages) c
    → (size c.queue ≤ c.queue.capacity) × (c.queue.dequeue_pos ≤ c.queue.enqueue_pos)
unfolding size
size-le capacity messages {c} w r =
    let v = Reach-Inv r (start-Inv capacity messages w) in
    let q = c.queue in
    let d = q.dequeue_pos in
    let behind = no_overtaking v in
    elim (dec_le q.enqueue_pos (d + q.capacity)) [
      | yes fits ↦ (ground arith, behind)
      | no over ↦ absurd (
          clash q (slot_of q d) d (c.message_of d) (c.message_of (d + q.capacity)) (c.phase d)
            (c.phase (d + q.capacity)) v.wide (omega arith) (omega arith) (v.between d) (v.holds d)
            (v.between (d + q.capacity)) (rw (same_slot q d) at (v.holds (d + q.capacity))))
    ]
