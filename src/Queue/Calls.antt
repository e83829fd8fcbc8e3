-- ===== src/Queue/Calls.antt =====
-- The queue under any number of calls at once, with what an observer would write down beside it: who
-- is at work on each position, and which message was claimed for it. That record is never read by the
-- queue.
use detour_mod_kit.Base.{ℕ, Bool, ◌==◌, if◌then◌else◌}
use detour_mod_kit.Queue.{
  Queue, Push, starts, claimed, stored, push_step, Pop, begins, taking, moved, pop_step,
  with_capacity,
}

-- Of a position.
pub data Phase : Type 0 where
  future : Phase
  pushing : ℕ → Phase
  full : Phase
  popping : ℕ → Phase
  gone : ℕ → Phase

pub record Calls : Type 0 where
  pub queue : Queue
  pub phase : ℕ → Phase
  pub message_of : ℕ → ℕ
  pub pushes : ℕ → Push
  pub pops : ℕ → Pop

abbrev pub at {ℓ} : {A : Type ℓ} → (ℕ → A) → ℕ → A → ℕ → A
at f i a = λ j. if j == i then a else f j

-- What the observer notes at a step of call `i`, by its state before and after.
unfoldable pub note_push : ℕ → Push → Push → Calls → Calls
note_push i (stored p m) after c = record c { phase = at c.phase p full }
note_push i before (claimed p m) c = record c {
  phase = at c.phase p (pushing i);
  message_of = at c.message_of p m;
}
note_push i before after c = c

unfoldable pub note_pop : ℕ → Pop → Pop → Calls → Calls
note_pop i (moved p m) after c = record c { phase = at c.phase p (gone i) }
note_pop i before (taking p) c = record c { phase = at c.phase p (popping i) }
note_pop i before after c = c

unfoldable pub step_push : ℕ → Bool → Calls → Calls
step_push i spurious c =
    let r = push_step spurious c.queue (c.pushes i) in
    note_push i (c.pushes i) r.1 (record c { queue = r.0; pushes = at c.pushes i r.1 })

unfoldable pub step_pop : ℕ → Bool → Calls → Calls
step_pop i spurious c =
    let r = pop_step spurious c.queue (c.pops i) in
    note_pop i (c.pops i) r.1 (record c { queue = r.0; pops = at c.pops i r.1 })

pub data Step (c : Calls) : Calls → Type 0 where
  pushes_on : (i : ℕ) (spurious : Bool) → Step c (step_push i spurious c)
  pops_on : (i : ℕ) (spurious : Bool) → Step c (step_pop i spurious c)

pub data Reach (c : Calls) : Calls → Type 0 where
  here : Reach c c
  next : {d e : Calls} → Reach c d → Step d e → Reach c e

-- Call `i` of try_push is to push message `messages i`.
abbrev pub from_start : ℕ → (ℕ → ℕ) → Calls
from_start capacity messages = record {
  queue = with_capacity capacity;
  phase = λ p. future;
  message_of = λ p. 0;
  pushes = λ i. starts (messages i);
  pops = λ i. begins;
}
