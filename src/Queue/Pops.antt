-- ===== src/Queue/Pops.antt =====
-- The steps of try_pop keep the invariant.
use detour_mod_kit.Base.{
  ℕ, ◌+◌, ◌≤◌, ◌≡◌, ◌≢◌, inl, inr, refl, sym, ◌∙◌, Bool, false, not, ◌&&◌, arith, ltb, ◌==◌,
  Bool-cases, ==_refl,
}
use detour_mod_kit.Queue.{
  Slot, Queue, slot_of, set_slot, Pop, begins, located, seen, taking, moved, popped, nothing,
  pop_step,
}
use detour_mod_kit.Queue.Calls.{
  Phase, future, pushing, full, popping, gone, Calls, at, note_pop, step_pop,
}
use detour_mod_kit.Queue.Invariant.{
  Holds, Between, PopOk, Inv, released-Holds, slot_of-set_slot, others-Holds, PushOk-frame,
  PopOk-frame, at-elim, set_slot-up, set_slot-message,
}

quiet-Inv :
    (c : Calls) (i : ℕ) (x : Pop)
    → Inv c
    → PopOk c.queue c.phase c.message_of i x
    → Inv (record c { pops = at c.pops i x })
quiet-Inv c i x v h = record {
  wide = v.wide;
  holds = v.holds;
  between = v.between;
  push_ok = v.push_ok;
  pop_ok = at-elim (PopOk c.queue c.phase c.message_of) c.pops i x h (λ k n. v.pop_ok k);
}

-- A position in one phase is not one in another.
apart_by_phase :
    (phase : ℕ → Phase) (p p0 : ℕ) (x y : Phase)
    → phase p0 ≡ x
    → phase p ≡ y
    → x ≢ y
    → (p == p0) ≡ false
apart_by_phase phase p p0 x y a b n = elim (Bool-cases (p == p0)) [
  | inl same ↦ let e : p ≡ p0 = ground arith in absurd (n (sym a ∙ (rw e at b)))
  | inr other ↦ other
]

popping-other : (i k : ℕ) → (k == i) ≡ false → popping i ≢ popping k
popping-other i k n e = ground arith

release-Inv :
    (c : Calls) (i p m : ℕ)
    → Inv c
    → PopOk c.queue c.phase c.message_of i (moved p m)
    → Inv (record c {
      queue = set_slot c.queue p (record (slot_of c.queue p) { sequence = p + c.queue.capacity });
      phase = at c.phase p (gone i);
      pops = at c.pops i (popped p m);
    })
release-Inv c i p m v (mine, from_it) =
    let q = c.queue in
    let s : Slot = record (slot_of q p) { sequence = p + q.capacity } in
    let r = set_slot q p s in
    let at_p : (slot_of q p).sequence ≡ p + 1 = (rw mine at (v.holds p)).0 in
    let up = set_slot-up q p s (omega (arith, v.wide)) in
    record {
      wide = v.wide;
      holds =
          at-elim (λ k ph. Holds q.capacity (slot_of r k) k ph (c.message_of k)) c.phase p (gone i)
            (rw (slot_of-set_slot q p s) (omega arith))
            (others-Holds q p s c.phase c.message_of v.wide v.holds (λ k a h.
              released-Holds q.capacity k p (slot_of q p) (c.message_of k) (c.phase k) a at_p h));
      between =
          at-elim (λ k ph. Between r k ph) c.phase p (gone i) (rw mine at (v.between p))
            (λ k n. v.between k);
      push_ok = λ k.
          PushOk-frame q r c.phase (at c.phase p (gone i)) c.message_of c.message_of k (c.pushes k)
            up
            (λ p' h.
              let other = apart_by_phase c.phase p' p (popping i) (pushing k) mine h (λ e. cc) in
              (rw other h, refl, set_slot-message q p s refl p'))
            (v.push_ok k);
      pop_ok =
          at-elim (PopOk r (at c.phase p (gone i)) c.message_of) c.pops i (popped p m)
            (rw (==_refl p), from_it)
            (λ k n.
              PopOk-frame q r c.phase (at c.phase p (gone i)) c.message_of c.message_of k (c.pops k)
                up
                (λ p' h.
                  let other =
                    apart_by_phase c.phase p' p (popping i) (popping k) mine h
                      (popping-other i k n) in
                  (rw other h, refl))
                (λ p' h.
                  let other = apart_by_phase c.phase p' p (popping i) (gone k) mine h (λ e. cc) in
                  (rw other h, refl))
                (v.pop_ok k));
    }

take-Inv :
    (c : Calls) (i p : ℕ)
    → Inv c
    → c.queue.dequeue_pos ≡ p
    → p + 1 ≤ (slot_of c.queue p).sequence
    → Inv (record c {
      queue = record c.queue { dequeue_pos = p + 1 };
      phase = at c.phase p (popping i);
      pops = at c.pops i (taking p);
    })
take-Inv c i p v head reached =
    let ready = is_full (c.phase p) (v.between p) (v.holds p) in
    let r : Queue = record c.queue { dequeue_pos = p + 1 } in
    let same_slots : (k : ℕ) → (slot_of c.queue k).sequence ≤ (slot_of r k).sequence =
      λ k. omega arith in
    record {
      wide = v.wide;
      holds =
          at-elim (λ k ph. Holds c.queue.capacity (slot_of c.queue k) k ph (c.message_of k)) c.phase
            p (popping i) (rw ready at (v.holds p)) (λ k n. v.holds k);
      between =
          at-elim (λ k ph. Between r k ph) c.phase p (popping i)
            ((rw ready at (v.between p)).0, omega arith)
            (λ k n. later k n (c.phase k) (v.between k));
      push_ok = λ k.
          PushOk-frame c.queue r c.phase (at c.phase p (popping i)) c.message_of c.message_of k
            (c.pushes k) same_slots
            (λ p' h.
              let other = apart_by_phase c.phase p' p full (pushing k) ready h (λ e. cc) in
              (rw other h, refl, refl))
            (v.push_ok k);
      pop_ok =
          at-elim (PopOk r (at c.phase p (popping i)) c.message_of) c.pops i (taking p)
            (rw (==_refl p))
            (λ k n.
              PopOk-frame c.queue r c.phase (at c.phase p (popping i)) c.message_of c.message_of k
                (c.pops k) same_slots
                (λ p' h.
                  let other = apart_by_phase c.phase p' p full (popping k) ready h (λ e. cc) in
                  (rw other h, refl))
                (λ p' h.
                  let other = apart_by_phase c.phase p' p full (gone k) ready h (λ e. cc) in
                  (rw other h, refl))
                (v.pop_ok k));
    }
  where
    is_full :
        (x : Phase)
        → Between c.queue p x
        → Holds c.queue.capacity (slot_of c.queue p) p x (c.message_of p)
        → x ≡ full
    is_full future b h = absurd (omega (arith, h))
    is_full (pushing j) b h = absurd (omega (arith, h))
    is_full full b h = refl
    is_full (popping j) b h = absurd (omega (arith, b.1))
    is_full (gone j) b h = absurd (omega (arith, b.1))

    later :
        (k : ℕ)
        → (k == p) ≡ false
        → (x : Phase) → Between c.queue k x
        → Between (record c.queue { dequeue_pos = p + 1 }) k x
    later k n future h = (h.0, ground (arith, h.1))
    later k n (pushing j) h = (h.0, ground (arith, h.1))
    later k n full h = (h.0, ground (arith, h.1))
    later k n (popping j) h = (h.0, omega (arith, h.1))
    later k n (gone j) h = (h.0, omega (arith, h.1))

seen-Inv :
    (c : Calls) (i : ℕ) (spurious : Bool) (p seq : ℕ)
    → Inv c
    → c.pops i ≡ seen p seq
    → Inv (step_pop i spurious c)
unfolding step_pop pop_step note_pop
seen-Inv c i spurious p seq v e =
    let seen_up : seq ≤ (slot_of c.queue p).sequence = rw e at (v.pop_ok i) in
    elim (Bool-cases (seq == p + 1)) [
      | inr other ↦ elim (Bool-cases (ltb seq (p + 1))) [
        | inl behind ↦
            rw (e, step_pop) (rw (other, pop_step) (rw behind (quiet-Inv c i nothing v tt)))
        | inr ahead ↦
            rw (e, step_pop)
              (rw (other, pop_step) (rw ahead (quiet-Inv c i (located c.queue.dequeue_pos) v tt)))
      ]
      | inl same ↦ elim (Bool-cases (c.queue.dequeue_pos == p && not spurious)) [
        | inl wins ↦
            rw (e, step_pop)
              (rw (same, pop_step) (rw wins (take-Inv c i p v (ground arith) (ground arith))))
        | inr loses ↦
            rw (e, step_pop)
              (rw (same, pop_step) (rw loses (quiet-Inv c i (located c.queue.dequeue_pos) v tt)))
      ]
    ]

pub step_pop-Inv : (c : Calls) (i : ℕ) (spurious : Bool) → Inv c → Inv (step_pop i spurious c)
unfolding step_pop pop_step note_pop
step_pop-Inv c i spurious v = go (c.pops i) refl
  where
    go : (x : Pop) → c.pops i ≡ x → Inv (step_pop i spurious c)
    go begins e = rw (e, step_pop) (quiet-Inv c i (located c.queue.dequeue_pos) v tt)
    go (located p) e =
        rw (e, step_pop) (quiet-Inv c i (seen p (slot_of c.queue p).sequence) v (omega arith))
    go (seen p seq) e = seen-Inv c i spurious p seq v e
    go (taking p) e =
        let mine : c.phase p ≡ popping i = rw e at (v.pop_ok i) in
        rw (e, step_pop)
          (quiet-Inv c i (moved p (slot_of c.queue p).message) v (mine, (rw mine at (v.holds p)).1))
    go (moved p m) e = rw (e, step_pop) (release-Inv c i p m v (rw e at (v.pop_ok i)))
    go (popped p m) e = rw (e, step_pop) (quiet-Inv c i (popped p m) v (rw e at (v.pop_ok i)))
    go nothing e = rw (e, step_pop) (quiet-Inv c i nothing v tt)
