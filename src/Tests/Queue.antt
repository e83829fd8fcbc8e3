-- ===== src/Tests/Queue.antt =====
-- A queue of two slots: one push and one pop run to the end, in turn with a second push.
use detour_mod_kit.Base.{ℕ, ◌+◌, ◌≡◌, inl, refl, true, false, none, arith}
use detour_mod_kit.Queue.{
  new_queue, validated_capacity, slot_of, push_step, pop_step, claimed, popped, nothing, size,
  starts, pushed, begins,
}
use detour_mod_kit.Queue.Calls.{
  Calls, Reach, here, next, pushes_on, pops_on, step_push, step_pop, note_push, note_pop,
  from_start,
}
use detour_mod_kit.Queue.Alone.{solo_push, solo_pop, push_alone, pop_alone}
use detour_mod_kit.Queue.Delivery.{popped_once, push_exclusive}

abbrev messages : ℕ → ℕ
messages i = i + 7

abbrev s0 : Calls
s0 = from_start 2 messages

-- The first push has claimed position 0, after a compare-and-swap that failed for no reason.
abbrev s1 : Calls
s1 =
    step_push 0 false
      (step_push 0 false (step_push 0 true (step_push 0 false (step_push 0 false s0))))

abbrev s2 : Calls
s2 = step_push 0 false (step_push 1 false (step_push 0 false s1))

abbrev s3 : Calls
s3 = step_pop 4 false (step_pop 4 false (step_pop 4 false (step_pop 4 false (step_pop 4 false s2))))

reach1 : Reach s0 s1
reach1 =
    next
      (next (next (next (next here (pushes_on 0 false)) (pushes_on 0 false)) (pushes_on 0 true))
        (pushes_on 0 false))
      (pushes_on 0 false)

reach2 : Reach s0 s2
reach2 = next (next (next reach1 (pushes_on 0 false)) (pushes_on 1 false)) (pushes_on 0 false)

reach3 : Reach s0 s3
reach3 =
    next
      (next (next (next (next reach2 (pops_on 4 false)) (pops_on 4 false)) (pops_on 4 false))
        (pops_on 4 false))
      (pops_on 4 false)

claimed_0 : s1.pushes 0 ≡ claimed 0 7
unfolding step_push push_step note_push
claimed_0 = refl

popped_7 : s3.pops 4 ≡ popped 0 7
unfolding step_push push_step note_push step_pop pop_step note_pop
popped_7 = refl

odd_capacity : new_queue 3 ≡ none
unfolding new_queue validated_capacity
odd_capacity = refl

-- A pop that overtakes the publication of a claimed position finds nothing.
abbrev early : Calls
early = step_pop 4 false (step_pop 4 false (step_pop 4 false s1))

early_pop : (early.pops 4 ≡ nothing) × (size early.queue ≡ 1)
unfolding step_push push_step note_push step_pop pop_step note_pop size
early_pop = (refl, refl)

popped_once_example : (7 ≡ s3.message_of 0) × (7 ≡ s3.message_of 0) × (◌≡◌ {A = ℕ} 4 4)
popped_once_example = popped_once 2 messages 4 4 0 7 7 (omega arith) reach3 popped_7 popped_7

push_exclusive_example : (◌≡◌ {A = ℕ} 0 0) × ((slot_of s1.queue 0).sequence ≡ 0)
push_exclusive_example =
    push_exclusive 2 messages 0 0 0 7 7 (omega arith) reach1 (inl claimed_0) (inl claimed_0)

push_alone_example : (solo_push 5 s3.queue (starts 9)).1 ≡ pushed 1
unfolding solo_push push_step note_push step_push solo_pop pop_step note_pop step_pop
push_alone_example = push_alone 2 messages 9 (omega arith) reach3

pop_alone_example : (solo_pop 5 s2.queue begins).1 ≡ popped 0 7
unfolding solo_pop push_step note_push step_push pop_step note_pop step_pop
pop_alone_example = pop_alone 2 messages (omega arith) reach2
