-- ===== src/Tests/Events.antt =====
-- A dispatcher with two subscribers, the first of which ends its own subscription when it is called.
use detour_mod_kit.Base.{◌≡◌, ◌≢◌, refl, true, false, [], ◌∷◌, some, arith}
use detour_mod_kit.Ids.{contains, erase_first}
use detour_mod_kit.Events.{
  Dispatcher, Thread, initial, ids, without, subscribe, claim_id, insert_entry, unsubscribe,
  enqueue_pending_removal, drain_pending_removals, is_emitting, enter, leave, inactive, active,
  reset, World, Callback, emit, emit_safe, call_all, call_all_safe,
}
use detour_mod_kit.Events.Invariant.{Inv, unsubscribe-Inv}
use detour_mod_kit.Events.History.{no_calls, Reach, here, next, claims, inserts, dispatcher-Inv}
use detour_mod_kit.Events.Removal.{reset_twice}
use detour_mod_kit.Events.Emission.{Balanced, Keeps, Called, emit-unwinds, emit_safe-unwinds}

abbrev idle : Thread
idle = record { emit_stack = []; depth = 0 }

abbrev emitting : Thread
emitting = record { emit_stack = 9 ∷ 5 ∷ []; depth = 2 }

abbrev two : Dispatcher
two = (subscribe true (some 30) idle (subscribe true (some 20) idle initial).0).0

two_handlers : ids two.handlers ≡ 1 ∷ 2 ∷ []
unfolding subscribe claim_id insert_entry
two_handlers = refl

-- The second call draws its id before the first has come under the lock, and a third finds no memory.
two-Reach : Reach no_calls (record { dispatcher = record two { next_id = 4 }; drawn = [] })
unfolding subscribe claim_id insert_entry contains erase_first
two-Reach =
    let drawn_both =
      next
        (next (next here (claims (some 20) idle (omega arith)))
          (claims (some 30) idle (omega arith)))
        (claims (some 40) idle (omega arith)) in
    next (next (next drawn_both (inserts true 1 20 refl)) (inserts false 3 40 refl))
      (inserts true 2 30 refl)

dispatcher-Inv_example : Inv (record two { next_id = 4 })
dispatcher-Inv_example = dispatcher-Inv two-Reach

two_calls-Reach : Reach no_calls (record { dispatcher = two; drawn = [] })
unfolding subscribe claim_id insert_entry contains erase_first
two_calls-Reach =
    let first = next (next here (claims (some 20) idle (omega arith))) (inserts true 1 20 refl) in
    next (next first (claims (some 30) idle (omega arith))) (inserts true 2 30 refl)

two-Inv : Inv two
two-Inv = dispatcher-Inv two_calls-Reach

two_filled : two.handlers ≢ []
unfolding subscribe claim_id insert_entry
two_filled q = cc

emitting_it : is_emitting 5 emitting ≡ true
unfolding contains
emitting_it = refl

idle_it : is_emitting 5 idle ≡ false
unfolding contains
idle_it = refl

reset_twice_example :
    let first = reset true 5 emitting two (record { unsubscribe_id = some 1; alive = true }) in
    let e = leave true first.0 in
    (active first.1 ≡ true)
    × (contains 1 (ids e.handlers) ≡ false)
    × (reset true 5 idle e first.1 ≡ (e, inactive))
reset_twice_example = reset_twice two emitting idle 5 1 two-Inv emitting_it idle_it

-- Each callback ends its own subscription, and throws.
abbrev once : Callback
once e w = (record w { dispatcher = (unsubscribe true 5 e.id w.thread w.dispatcher).0 }, true)

once-Balanced : Balanced once
once-Balanced e w = refl

once-Keeps : Keeps once
once-Keeps e w v = unsubscribe-Inv true 5 e.id w.thread w.dispatcher v

abbrev world : World
world = record { dispatcher = two; thread = idle }

once-runs :
    let (v, called, threw) = emit once true 5 world in
    let (w, safely) = emit_safe once true 5 world in
    (called ≡ 1 ∷ [])
    × (threw ≡ true)
    × (ids v.dispatcher.handlers ≡ 2 ∷ [])
    × (safely ≡ 1 ∷ 2 ∷ [])
    × (w.dispatcher.handlers ≡ [])
unfolding emit emit_safe call_all call_all_safe unsubscribe enqueue_pending_removal
    drain_pending_removals leave subscribe claim_id insert_entry contains without
once-runs = (refl, refl, refl, refl, refl)

emit-unwinds_example :
    let r = emit once true 5 world in
    ((behind : World) × Called once two.handlers
        (record world { thread = enter 5 idle })
        behind
        r.1
        r.2
      × (r.0.dispatcher ≡ leave true behind.dispatcher))
    × (r.0.thread ≡ idle)
    × (r.0.dispatcher.pending_removals ≡ [])
    × Inv r.0.dispatcher
emit-unwinds_example = emit-unwinds once 5 world once-Balanced once-Keeps two-Inv two_filled

emit_safe-unwinds_example :
    let r = emit_safe once true 5 world in
    (r.1 ≡ ids two.handlers)
    × (r.0.thread ≡ idle)
    × (r.0.dispatcher.pending_removals ≡ [])
    × Inv r.0.dispatcher
emit_safe-unwinds_example =
    emit_safe-unwinds once 5 world once-Balanced once-Keeps two-Inv two_filled
