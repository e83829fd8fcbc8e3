-- ===== src/Queue.antt =====
-- The async logger's bounded queue: DynamicMPMCQueue of src/internal/async_logger_queue.hpp and
-- src/internal/async_logger.cpp. A call is a state machine that makes one access of shared memory in
-- each step, so that calls interleave at every access. A message is a number; the positions are taken
-- not to wrap, as 64 bits do not in practice, so the signed difference is a comparison; the mask of a
-- power of two is the remainder. Accesses are sequentially consistent, a message is moved in one step,
-- and a slot keeps the number of the message that is moved out of it.
pub mod Calls
pub mod Invariant
pub mod Pushes
pub mod Pops
pub mod Delivery
pub mod Alone
use detour_mod_kit.Base.{
  ℕ, ◌+◌, ◌-◌, ◌%◌, Bool, true, false, not, ◌&&◌, ◌||◌, Option, none, some, ltb, ◌==◌,
  if◌then◌else◌, bit_and,
}

pub record Slot : Type 0 where
  pub sequence : ℕ
  pub message : ℕ

pub record Queue : Type 0 where
  pub capacity : ℕ
  pub buffer : ℕ → Slot
  pub enqueue_pos : ℕ
  pub dequeue_pos : ℕ

-- `none` is the exception.
unfoldable pub validated_capacity : ℕ → Option ℕ
validated_capacity capacity =
    if not (bit_and capacity (capacity - 1) == 0) || ltb capacity 2 then none else some capacity

abbrev pub with_capacity : ℕ → Queue
with_capacity capacity = record {
  capacity = capacity;
  buffer = λ i. record { sequence = i; message = 0 };
  enqueue_pos = 0;
  dequeue_pos = 0;
}

unfoldable pub new_queue : ℕ → Option Queue
new_queue capacity = elim (validated_capacity capacity) [
  | none ↦ none
  | some c ↦ some (with_capacity c)
]

abbrev pub slot_of : Queue → ℕ → Slot
slot_of q p = q.buffer (p % q.capacity)

abbrev pub set_slot : Queue → ℕ → Slot → Queue
set_slot q p s = record q { buffer = λ j. if j == p % q.capacity then s else q.buffer j }

-- A call of try_push by what it has read: at its start, with a position, with the sequence number at
-- it, behind its compare-and-swap, with the message stored, and with either answer.
pub data Push : Type 0 where
  starts : ℕ → Push
  loaded : ℕ → ℕ → Push
  saw : ℕ → ℕ → ℕ → Push
  claimed : ℕ → ℕ → Push
  stored : ℕ → ℕ → Push
  pushed : ℕ → Push
  refused : ℕ → Push

-- The flag says whether the weak compare-and-swap fails for no reason.
unfoldable pub push_step : Bool → Queue → Push → Queue × Push
push_step spurious q (starts m) = (q, loaded q.enqueue_pos m)
push_step spurious q (loaded p m) = (q, saw p (slot_of q p).sequence m)
push_step spurious q (saw p seq m) =
    if seq == p
    then if q.enqueue_pos == p && not spurious
      then (record q { enqueue_pos = p + 1 }, claimed p m)
      else (q, loaded q.enqueue_pos m)
    else if ltb seq p
    then (q, refused m)
    else (q, loaded q.enqueue_pos m)
push_step spurious q (claimed p m) =
    (set_slot q p (record (slot_of q p) { message = m }), stored p m)
push_step spurious q (stored p m) =
    (set_slot q p (record (slot_of q p) { sequence = p + 1 }), pushed p)
push_step spurious q (pushed p) = (q, pushed p)
push_step spurious q (refused m) = (q, refused m)

-- A call of try_pop.
pub data Pop : Type 0 where
  begins : Pop
  located : ℕ → Pop
  seen : ℕ → ℕ → Pop
  taking : ℕ → Pop
  moved : ℕ → ℕ → Pop
  popped : ℕ → ℕ → Pop
  nothing : Pop

unfoldable pub pop_step : Bool → Queue → Pop → Queue × Pop
pop_step spurious q begins = (q, located q.dequeue_pos)
pop_step spurious q (located p) = (q, seen p (slot_of q p).sequence)
pop_step spurious q (seen p seq) =
    if seq == p + 1
    then if q.dequeue_pos == p && not spurious
      then (record q { dequeue_pos = p + 1 }, taking p)
      else (q, located q.dequeue_pos)
    else if ltb seq (p + 1)
    then (q, nothing)
    else (q, located q.dequeue_pos)
pop_step spurious q (taking p) = (q, moved p (slot_of q p).message)
pop_step spurious q (moved p m) =
    (set_slot q p (record (slot_of q p) { sequence = p + q.capacity }), popped p m)
pop_step spurious q (popped p m) = (q, popped p m)
pop_step spurious q nothing = (q, nothing)

-- Approximate, and never negative.
unfoldable pub size : Queue → ℕ
size q = if ltb q.enqueue_pos q.dequeue_pos then 0 else q.enqueue_pos - q.dequeue_pos
