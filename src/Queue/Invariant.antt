-- ===== src/Queue/Invariant.antt =====
-- What holds of every position and of every call, and that each step keeps it.
use native.Mathlib.Nat.{mul-suc, mul-le-mul_left}
use detour_mod_kit.Base.{
  ℕ, suc, ◌+◌, ◌*◌, ◌/◌, ◌%◌, ◌≤◌, ◌<◌, ◌≡◌, ◌≢◌, inl, inr, sym, ap, ◌∙◌, false, arith, ◌==◌,
  Bool-cases, ==_refl, dec_lt,
}
use detour_mod_kit.Queue.{
  Slot, Queue, slot_of, set_slot, Push, starts, loaded, saw, claimed, stored, pushed, refused, Pop,
  begins, located, seen, taking, moved, popped, nothing,
}
use detour_mod_kit.Queue.Calls.{Phase, future, pushing, full, popping, gone, Calls, at}

-- Two positions of one slot lie a capacity apart.
apart : (x y c : ℕ) → 2 ≤ c → x % c ≡ y % c → x < y → x + c ≤ y
apart x y c h e l = elim (dec_lt (x / c) (y / c)) [
  | yes more ↦
      let k : suc (x / c) ≤ y / c = omega arith in
      let m : c * suc (x / c) ≤ c * (y / c) = mul-le-mul_left c k in
      let d : c * suc (x / c) ≡ c * (x / c) + c = mul-suc c (x / c) in ground arith
  | no less ↦
      let k : y / c ≤ x / c = omega arith in
      let m : c * (y / c) ≤ c * (x / c) = mul-le-mul_left c k in ground arith
]

-- The slot of a position, by the position's phase. The last number is the message claimed for it.
abbrev pub Holds : ℕ → Slot → ℕ → Phase → ℕ → Type 0
Holds c s p future m = s.sequence ≤ p
Holds c s p (pushing i) m = s.sequence ≡ p
Holds c s p full m = (s.sequence ≡ p + 1) × (s.message ≡ m)
Holds c s p (popping i) m = (s.sequence ≡ p + 1) × (s.message ≡ m)
Holds c s p (gone i) m = p + c ≤ s.sequence

-- The two ends of the queue.
abbrev pub Between : Queue → ℕ → Phase → Type 0
Between q p future = (q.enqueue_pos ≤ p) × (q.dequeue_pos ≤ p)
Between q p (pushing i) = (p < q.enqueue_pos) × (q.dequeue_pos ≤ p)
Between q p full = (p < q.enqueue_pos) × (q.dequeue_pos ≤ p)
Between q p (popping i) = (p < q.enqueue_pos) × (p < q.dequeue_pos)
Between q p (gone i) = (p < q.enqueue_pos) × (p < q.dequeue_pos)

abbrev pub PushOk : Queue → (ℕ → Phase) → (ℕ → ℕ) → ℕ → Push → Type 0
PushOk q phase message_of i (saw p seq m) = seq ≤ (slot_of q p).sequence
PushOk q phase message_of i (claimed p m) = (phase p ≡ pushing i) × (message_of p ≡ m)
PushOk q phase message_of i (stored p m) =
    (phase p ≡ pushing i) × (message_of p ≡ m) × ((slot_of q p).message ≡ m)
PushOk q phase message_of i _ = Unit {0}

abbrev pub PopOk : Queue → (ℕ → Phase) → (ℕ → ℕ) → ℕ → Pop → Type 0
PopOk q phase message_of i (seen p seq) = seq ≤ (slot_of q p).sequence
PopOk q phase message_of i (taking p) = phase p ≡ popping i
PopOk q phase message_of i (moved p m) = (phase p ≡ popping i) × (m ≡ message_of p)
PopOk q phase message_of i (popped p m) = (phase p ≡ gone i) × (m ≡ message_of p)
PopOk q phase message_of i _ = Unit {0}

pub record Inv (c : Calls) : Type 0 where
  pub wide : 2 ≤ c.queue.capacity
  pub holds : (p : ℕ) → Holds c.queue.capacity (slot_of c.queue p) p (c.phase p) (c.message_of p)
  pub between : (p : ℕ) → Between c.queue p (c.phase p)
  pub push_ok : (i : ℕ) → PushOk c.queue c.phase c.message_of i (c.pushes i)
  pub pop_ok : (i : ℕ) → PopOk c.queue c.phase c.message_of i (c.pops i)

-- Other positions of a slot, when its sequence number moves on from `p0`, from `p0 + 1`, or when its
-- message is replaced.
module _ (c p p0 : ℕ) (s : Slot) (m : ℕ) where
  unfoldable pub Apart : Type 0
  Apart = (2 ≤ c) × (p ≢ p0) × (p < p0 → p + c ≤ p0) × (p0 < p → p0 + c ≤ p)

  pub published-Holds :
      (ph : Phase)
      → Apart
      → s.sequence ≡ p0
      → Holds c s p ph m
      → Holds c (record s { sequence = p0 + 1 }) p ph m
  unfolding Apart
  published-Holds future a e h = ground (arith, a)
  published-Holds (pushing i) a e h = ground (arith, a)
  published-Holds full a e h = ground (arith, a)
  published-Holds (popping i) a e h = ground (arith, a)
  published-Holds (gone i) a e h = ground (arith, a)

  pub stored-Holds :
      (ph : Phase) (x : ℕ)
      → Apart
      → s.sequence ≡ p0
      → Holds c s p ph m
      → Holds c (record s { message = x }) p ph m
  unfolding Apart
  stored-Holds future x a e h = h
  stored-Holds (pushing i) x a e h = h
  stored-Holds full x a e h = ground (arith, a)
  stored-Holds (popping i) x a e h = ground (arith, a)
  stored-Holds (gone i) x a e h = h

  pub released-Holds :
      (ph : Phase)
      → Apart
      → s.sequence ≡ p0 + 1
      → Holds c s p ph m
      → Holds c (record s { sequence = p0 + c }) p ph m
  unfolding Apart
  released-Holds future a e h = ground (arith, a)
  released-Holds (pushing i) a e h = ground (arith, a)
  released-Holds full a e h = ground (arith, a)
  released-Holds (popping i) a e h = ground (arith, a)
  released-Holds (gone i) a e h = ground (arith, a)

-- A slot that is replaced is seen by the positions of it only.
module _ (q : Queue) (p0 : ℕ) (s : Slot) where
  pub slot_of-set_slot : slot_of (set_slot q p0 s) p0 ≡ s
  slot_of-set_slot = rw (==_refl (p0 % q.capacity))

  pub slot_of-other :
      (p : ℕ)
      → (p % q.capacity == p0 % q.capacity) ≡ false
      → slot_of (set_slot q p0 s) p ≡ slot_of q p
  slot_of-other p h = rw h

-- Every other position, where the one slot of `p0` is replaced by `s`.
pub others-Holds :
    (q : Queue) (p0 : ℕ) (s : Slot) (phase : ℕ → Phase) (message_of : ℕ → ℕ)
    → 2 ≤ q.capacity
    → ((p : ℕ) → Holds q.capacity (slot_of q p) p (phase p) (message_of p))
    → ((p : ℕ)
        → Apart q.capacity p p0 (slot_of q p0) (message_of p)
        → Holds q.capacity (slot_of q p0) p (phase p) (message_of p)
        → Holds q.capacity s p (phase p) (message_of p))
    → (p : ℕ) → (p == p0) ≡ false
    → Holds q.capacity (slot_of (set_slot q p0 s) p) p (phase p) (message_of p)
unfolding Apart
others-Holds q p0 s phase message_of w h k p n =
    elim (Bool-cases (p % q.capacity == p0 % q.capacity)) [
      | inr other ↦ rw (slot_of-other q p0 s p other) (h p)
      | inl same ↦
          let e : p % q.capacity ≡ p0 % q.capacity = ground arith in
          let distinct : p ≢ p0 = λ d. ground arith in
          rw (e, ==_refl (p0 % q.capacity))
            (k p (w, distinct, apart p p0 q.capacity w e, apart p0 p q.capacity w (sym e))
              (rw (ap q.buffer e) at (h p)))
    ]

-- What another call relies on is kept by a step that moves no sequence number back and leaves alone
-- the positions of that call.
pub PushOk-frame :
    (q r : Queue) (ph ph' : ℕ → Phase) (mo mo' : ℕ → ℕ) (k : ℕ) (x : Push)
    → ((p : ℕ) → (slot_of q p).sequence ≤ (slot_of r p).sequence)
    → ((p : ℕ)
        → ph p ≡ pushing k
        → (ph' p ≡ pushing k) × (mo' p ≡ mo p) × ((slot_of r p).message ≡ (slot_of q p).message))
    → PushOk q ph mo k x
    → PushOk r ph' mo' k x
PushOk-frame q r ph ph' mo mo' k (starts m) up keep h = tt
PushOk-frame q r ph ph' mo mo' k (loaded p m) up keep h = tt
PushOk-frame q r ph ph' mo mo' k (saw p seq m) up keep h = omega (arith, up p)
PushOk-frame q r ph ph' mo mo' k (claimed p m) up keep (a, b) =
    let (x, y, _) = keep p a in (x, y ∙ b)
PushOk-frame q r ph ph' mo mo' k (stored p m) up keep (a, b, c) =
    let (x, y, z) = keep p a in (x, y ∙ b, z ∙ c)
PushOk-frame q r ph ph' mo mo' k (pushed p) up keep h = tt
PushOk-frame q r ph ph' mo mo' k (refused m) up keep h = tt

pub PopOk-frame :
    (q r : Queue) (ph ph' : ℕ → Phase) (mo mo' : ℕ → ℕ) (k : ℕ) (x : Pop)
    → ((p : ℕ) → (slot_of q p).sequence ≤ (slot_of r p).sequence)
    → ((p : ℕ) → ph p ≡ popping k → (ph' p ≡ popping k) × (mo' p ≡ mo p))
    → ((p : ℕ) → ph p ≡ gone k → (ph' p ≡ gone k) × (mo' p ≡ mo p))
    → PopOk q ph mo k x
    → PopOk r ph' mo' k x
PopOk-frame q r ph ph' mo mo' k begins up keep done h = tt
PopOk-frame q r ph ph' mo mo' k (located p) up keep done h = tt
PopOk-frame q r ph ph' mo mo' k (seen p seq) up keep done h = omega (arith, up p)
PopOk-frame q r ph ph' mo mo' k (taking p) up keep done h = (keep p h).0
PopOk-frame q r ph ph' mo mo' k (moved p m) up keep done (a, b) =
    let (x, y) = keep p a in (x, b ∙ sym y)
PopOk-frame q r ph ph' mo mo' k (popped p m) up keep done (a, b) =
    let (x, y) = done p a in (x, b ∙ sym y)
PopOk-frame q r ph ph' mo mo' k nothing up keep done h = tt

pub at-elim {ℓ κ} :
    {A : Type ℓ} (P : ℕ → A → Type κ) (f : ℕ → A) (i : ℕ) (a : A)
    → P i a
    → ((k : ℕ) → (k == i) ≡ false → P k (f k))
    → (k : ℕ) → P k (at f i a k)
at-elim P f i a x h k = elim (Bool-cases (k == i)) [
  | inl same ↦ let e : k ≡ i = ground arith in rw (same, e) x
  | inr other ↦ rw other (h k other)
]

-- A slot that moves up moves no sequence number back.
pub set_slot-up :
    (q : Queue) (p0 : ℕ) (s : Slot)
    → (slot_of q p0).sequence ≤ s.sequence
    → (p : ℕ) → (slot_of q p).sequence ≤ (slot_of (set_slot q p0 s) p).sequence
set_slot-up q p0 s h p = elim (Bool-cases (p % q.capacity == p0 % q.capacity)) [
  | inl same ↦
      let e : p % q.capacity ≡ p0 % q.capacity = ground arith in
      let f : slot_of q p ≡ slot_of q p0 = ap q.buffer e in rw (same, f) h
  | inr other ↦ rw other (omega arith)
]

pub set_slot-message :
    (q : Queue) (p0 : ℕ) (s : Slot)
    → s.message ≡ (slot_of q p0).message
    → (p : ℕ) → (slot_of (set_slot q p0 s) p).message ≡ (slot_of q p).message
set_slot-message q p0 s h p = elim (Bool-cases (p % q.capacity == p0 % q.capacity)) [
  | inl same ↦
      let e : p % q.capacity ≡ p0 % q.capacity = ground arith in
      let f : slot_of q p ≡ slot_of q p0 = ap q.buffer e in rw (same, f) h
  | inr other ↦ rw other
]
