-- ===== src/Queue/Pushes.antt =====
-- The steps of try_push keep the invariant.
use detour_mod_kit.Base.{
  ℕ, ◌+◌, ◌%◌, ◌≤◌, ◌≡◌, ◌≢◌, inl, inr, refl, sym, ap, ◌∙◌, Bool, false, not, ◌&&◌, arith, ltb,
  ◌==◌, Bool-cases, ==_refl,
}
use detour_mod_kit.Queue.{
  Slot, Queue, slot_of, set_slot, Push, starts, loaded, saw, claimed, stored, pushed, refused,
  push_step,
}
use detour_mod_kit.Queue.Calls.{
  Phase, future, pushing, full, popping, gone, Calls, at, note_push, step_push,
}
use detour_mod_kit.Queue.Invariant.{
  Holds, Between, PushOk, Inv, published-Holds, stored-Holds, slot_of-set_slot, others-Holds,
  PushOk-frame, PopOk-frame, at-elim, set_slot-up, set_slot-message,
}

-- The call reads, or gives up: nothing else changes.
quiet-Inv :
    (c : Calls) (i : ℕ) (x : Push)
    → Inv c
    → PushOk c.queue c.phase c.message_of i x
    → Inv (record c { pushes = at c.pushes i x })
quiet-Inv c i x v h = record {
  wide = v.wide;
  holds = v.holds;
  between = v.between;
  push_ok = at-elim (PushOk c.queue c.phase c.message_of) c.pushes i x h (λ k n. v.push_ok k);
  pop_ok = v.pop_ok;
}

-- A position belongs to one call.
other_position :
    (phase : ℕ → Phase) (p p0 i k : ℕ)
    → phase p0 ≡ pushing i
    → phase p ≡ pushing k
    → (k == i) ≡ false
    → (p == p0) ≡ false
other_position phase p p0 i k a b n = elim (Bool-cases (p == p0)) [
  | inl same ↦ let e : p ≡ p0 = ground arith in ground (arith, (rw e at b))
  | inr other ↦ other
]

not_popped :
    (phase : ℕ → Phase) (p p0 i : ℕ) (x : Phase)
    → phase p0 ≡ pushing i
    → phase p ≡ x
    → pushing i ≢ x
    → (p == p0) ≡ false
not_popped phase p p0 i x a b n = elim (Bool-cases (p == p0)) [
  | inl same ↦ let e : p ≡ p0 = ground arith in absurd (n (sym a ∙ (rw e at b)))
  | inr other ↦ other
]

publish-Inv :
    (c : Calls) (i p m : ℕ)
    → Inv c
    → PushOk c.queue c.phase c.message_of i (stored p m)
    → Inv (record c {
      queue = set_slot c.queue p (record (slot_of c.queue p) { sequence = p + 1 });
      phase = at c.phase p full;
      pushes = at c.pushes i (pushed p);
    })
publish-Inv c i p m v (mine, for_it, there) =
    let q = c.queue in
    let s : Slot = record (slot_of q p) { sequence = p + 1 } in
    let r = set_slot q p s in
    let at_p : (slot_of q p).sequence ≡ p = rw mine at (v.holds p) in
    let up = set_slot-up q p s (omega arith) in
    record {
      wide = v.wide;
      holds =
          at-elim (λ k ph. Holds q.capacity (slot_of r k) k ph (c.message_of k)) c.phase p full
            (rw (slot_of-set_slot q p s) (refl, there ∙ sym for_it))
            (others-Holds q p s c.phase c.message_of v.wide v.holds (λ k a h.
              published-Holds q.capacity k p (slot_of q p) (c.message_of k) (c.phase k) a at_p h));
      between =
          at-elim (λ k ph. Between r k ph) c.phase p full (rw mine at (v.between p))
            (λ k n. v.between k);
      push_ok = at-elim (PushOk r (at c.phase p full) c.message_of) c.pushes i (pushed p) tt (λ k n.
          PushOk-frame q r c.phase (at c.phase p full) c.message_of c.message_of k (c.pushes k) up
            (λ p' h.
              let other = other_position c.phase p' p i k mine h n in
              (rw other h, refl, set_slot-message q p s refl p'))
            (v.push_ok k));
      pop_ok = λ k.
          PopOk-frame q r c.phase (at c.phase p full) c.message_of c.message_of k (c.pops k) up
            (λ p' h.
              let other = not_popped c.phase p' p i (popping k) mine h (λ e. cc) in
              (rw other h, refl))
            (λ p' h.
              let other = not_popped c.phase p' p i (gone k) mine h (λ e. cc) in (rw other h, refl))
            (v.pop_ok k);
    }

store-Inv :
    (c : Calls) (i p m : ℕ)
    → Inv c
    → PushOk c.queue c.phase c.message_of i (claimed p m)
    → Inv (record c {
      queue = set_slot c.queue p (record (slot_of c.queue p) { message = m });
      pushes = at c.pushes i (stored p m);
    })
store-Inv c i p m v (mine, for_it) =
    let q = c.queue in
    let s : Slot = record (slot_of q p) { message = m } in
    let r = set_slot q p s in
    let at_p : (slot_of q p).sequence ≡ p = rw mine at (v.holds p) in
    let up = set_slot-up q p s (omega arith) in
    record {
      wide = v.wide;
      holds = λ k. elim (Bool-cases (k == p)) [
        | inl same ↦
            let e : k ≡ p = ground arith in rw e (rw mine (rw (slot_of-set_slot q p s) at_p))
        | inr other ↦
            others-Holds q p s c.phase c.message_of v.wide v.holds
              (λ k a h.
                stored-Holds q.capacity k p (slot_of q p) (c.message_of k) (c.phase k) m a at_p h)
              k other
      ];
      between = λ k. v.between k;
      push_ok =
          at-elim (PushOk r c.phase c.message_of) c.pushes i (stored p m)
            (mine, for_it, ap (λ t. t.message) (slot_of-set_slot q p s))
            (λ k n.
              PushOk-frame q r c.phase c.phase c.message_of c.message_of k (c.pushes k) up
                (λ p' h. (h, refl, untouched k p' n h at_p)) (v.push_ok k));
      pop_ok = λ k.
          PopOk-frame q r c.phase c.phase c.message_of c.message_of k (c.pops k) up
            (λ p' h. (h, refl)) (λ p' h. (h, refl)) (v.pop_ok k);
    }
  where
    untouched :
        (k p' : ℕ)
        → (k == i) ≡ false
        → c.phase p' ≡ pushing k
        → (slot_of c.queue p).sequence ≡ p
        → (slot_of (set_slot c.queue p (record (slot_of c.queue p) { message = m })) p').message
          ≡ (slot_of c.queue p').message
    untouched k p' n h at_p =
        let other = other_position c.phase p' p i k mine h n in
        let there : (slot_of c.queue p').sequence ≡ p' = rw h at (v.holds p') in
        elim (Bool-cases (p' % c.queue.capacity == p % c.queue.capacity)) [
          | inl same ↦
              let e : p' % c.queue.capacity ≡ p % c.queue.capacity = ground arith in
              let f : slot_of c.queue p' ≡ slot_of c.queue p = ap c.queue.buffer e in
              absurd (ground (arith, (rw f at there)))
          | inr apart ↦ rw apart
        ]

claim-Inv :
    (c : Calls) (i p m : ℕ)
    → Inv c
    → c.queue.enqueue_pos ≡ p
    → p ≤ (slot_of c.queue p).sequence
    → Inv (record c {
      queue = record c.queue { enqueue_pos = p + 1 };
      phase = at c.phase p (pushing i);
      message_of = at c.message_of p m;
      pushes = at c.pushes i (claimed p m);
    })
claim-Inv c i p m v tail reached =
    let free = is_future (c.phase p) (v.between p) in
    let at_p : (slot_of c.queue p).sequence ≤ p = rw free at (v.holds p) in
    let r : Queue = record c.queue { enqueue_pos = p + 1 } in
    record {
      wide = v.wide;
      holds = λ k. elim (Bool-cases (k == p)) [
        | inl same ↦ let e : k ≡ p = ground arith in rw (same, e) (omega arith)
        | inr other ↦ rw other (v.holds k)
      ];
      between =
          at-elim (λ k ph. Between r k ph) c.phase p (pushing i)
            (omega (arith, (rw free at (v.between p)).0), (rw free at (v.between p)).1)
            (λ k n. later k n (c.phase k) (v.between k));
      push_ok =
          at-elim (PushOk r (at c.phase p (pushing i)) (at c.message_of p m)) c.pushes i
            (claimed p m) (rw (==_refl p), rw (==_refl p))
            (λ k n.
              PushOk-frame c.queue r c.phase (at c.phase p (pushing i)) c.message_of
                (at c.message_of p m) k (c.pushes k) (λ p'. omega arith)
                (λ p' h.
                  let other = not_future p' (pushing k) free h (λ e. cc) in
                  (rw other h, rw other, refl))
                (v.push_ok k));
      pop_ok = λ k.
          PopOk-frame c.queue r c.phase (at c.phase p (pushing i)) c.message_of
            (at c.message_of p m) k (c.pops k) (λ p'. omega arith)
            (λ p' h.
              let other = not_future p' (popping k) free h (λ e. cc) in (rw other h, rw other))
            (λ p' h. let other = not_future p' (gone k) free h (λ e. cc) in (rw other h, rw other))
            (v.pop_ok k);
    }
  where
    is_future : (x : Phase) → Between c.queue p x → x ≡ future
    is_future future h = refl
    is_future (pushing j) h = absurd (omega (arith, h.0))
    is_future full h = absurd (omega (arith, h.0))
    is_future (popping j) h = absurd (omega (arith, h.0))
    is_future (gone j) h = absurd (omega (arith, h.0))

    later :
        (k : ℕ)
        → (k == p) ≡ false
        → (x : Phase) → Between c.queue k x
        → Between (record c.queue { enqueue_pos = p + 1 }) k x
    later k n future h = (ground (arith, h.0), h.1)
    later k n (pushing j) h = (omega (arith, h.0), h.1)
    later k n full h = (omega (arith, h.0), h.1)
    later k n (popping j) h = (omega (arith, h.0), h.1)
    later k n (gone j) h = (omega (arith, h.0), h.1)

    not_future :
        (p' : ℕ) (x : Phase) → c.phase p ≡ future → c.phase p' ≡ x → future ≢ x → (p' == p) ≡ false
    not_future p' x a b n = elim (Bool-cases (p' == p)) [
      | inl same ↦ let e : p' ≡ p = ground arith in absurd (n (sym a ∙ (rw e at b)))
      | inr other ↦ other
    ]

-- The compare-and-swap, where it succeeds, and where it does not.
saw-Inv :
    (c : Calls) (i : ℕ) (spurious : Bool) (p seq m : ℕ)
    → Inv c
    → c.pushes i ≡ saw p seq m
    → Inv (step_push i spurious c)
unfolding step_push push_step note_push
saw-Inv c i spurious p seq m v e =
    let seen_up : seq ≤ (slot_of c.queue p).sequence = rw e at (v.push_ok i) in
    elim (Bool-cases (seq == p)) [
      | inr other ↦ elim (Bool-cases (ltb seq p)) [
        | inl behind ↦
            rw (e, step_push) (rw (other, push_step) (rw behind (quiet-Inv c i (refused m) v tt)))
        | inr ahead ↦
            rw (e, step_push)
              (rw (other, push_step) (rw ahead (quiet-Inv c i (loaded c.queue.enqueue_pos m) v tt)))
      ]
      | inl same ↦ elim (Bool-cases (c.queue.enqueue_pos == p && not spurious)) [
        | inl wins ↦
            rw (e, step_push)
              (rw (same, push_step) (rw wins (claim-Inv c i p m v (ground arith) (ground arith))))
        | inr loses ↦
            rw (e, step_push)
              (rw (same, push_step) (rw loses (quiet-Inv c i (loaded c.queue.enqueue_pos m) v tt)))
      ]
    ]

pub step_push-Inv : (c : Calls) (i : ℕ) (spurious : Bool) → Inv c → Inv (step_push i spurious c)
unfolding step_push push_step note_push
step_push-Inv c i spurious v = go (c.pushes i) refl
  where
    go : (x : Push) → c.pushes i ≡ x → Inv (step_push i spurious c)
    go (starts m) e = rw (e, step_push) (quiet-Inv c i (loaded c.queue.enqueue_pos m) v tt)
    go (loaded p m) e =
        rw (e, step_push) (quiet-Inv c i (saw p (slot_of c.queue p).sequence m) v (omega arith))
    go (saw p seq m) e = saw-Inv c i spurious p seq m v e
    go (claimed p m) e = rw (e, step_push) (store-Inv c i p m v (rw e at (v.push_ok i)))
    go (stored p m) e = rw (e, step_push) (publish-Inv c i p m v (rw e at (v.push_ok i)))
    go (pushed p) e = rw (e, step_push) (quiet-Inv c i (pushed p) v tt)
    go (refused m) e = rw (e, step_push) (quiet-Inv c i (refused m) v tt)
