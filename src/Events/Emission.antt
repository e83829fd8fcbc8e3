-- ===== src/Events/Emission.antt =====
-- An emission, with whatever its callbacks do to the dispatcher meanwhile.
use detour_mod_kit.Base.{
  ℕ, ◌+◌, ◌-◌, ◌≡◌, ◌≢◌, inl, inr, refl, ap, ◌∙◌, Bool, true, false, List, [], ◌∷◌, arith, ◌==◌,
  Bool-cases,
}
use detour_mod_kit.Events.{
  Entry, Dispatcher, Thread, ids, enter, leave_thread, leave, World, Callback, call_all,
  call_all_safe, emit, emit_safe, drain_pending_removals, cleared,
}
use detour_mod_kit.Events.Invariant.{Inv, leave-Inv}

-- A callback, however it ends, leaves the thread's emissions as it found them, as every emission in
-- it has a guard; and the dispatcher in its invariant, as every call of it does.
abbrev pub Balanced : Callback → Type 0
Balanced call = (e : Entry) (w : World) → (call e w).0.thread ≡ w.thread

abbrev pub Keeps : Callback → Type 0
Keeps call = (e : Entry) (w : World) → Inv w.dispatcher → Inv (call e w).0.dispatcher

-- Nothing is queued behind an emission that had memory.
leave-drained : (d : Dispatcher) → Inv d → (leave true d).pending_removals ≡ []
unfolding leave drain_pending_removals cleared
leave-drained d v = ground (arith, v.announced)

call_all-thread :
    (call : Callback) (es : List Entry) (w : World)
    → Balanced call
    → (call_all call es w).0.thread ≡ w.thread
unfolding call_all
call_all-thread call [] w b = refl
call_all-thread call (e ∷ es) w b = ground (arith, b e w, call_all-thread call es (call e w).0 b)

call_all-Inv :
    (call : Callback) (es : List Entry) (w : World)
    → Keeps call
    → Inv w.dispatcher
    → Inv (call_all call es w).0.dispatcher
unfolding call_all
call_all-Inv call [] w k v = v
call_all-Inv call (e ∷ es) w k v = elim (Bool-cases (call e w).1) [
  | inl threw ↦ rw threw (k e w v)
  | inr went ↦ rw went (call_all-Inv call es (call e w).0 k (k e w v))
]

-- The calls of a list of handlers from a world on, to the world behind them, with the ids that are called
-- and whether one threw: a handler that throws is the last that is called.
pub data Called (call : Callback) : List Entry → World → World → List ℕ → Bool → Type 0 where
  done : {w : World} → Called call [] w w [] false
  threw :
      {e : Entry} {es : List Entry} {w : World}
      → (call e w).1 ≡ true
      → Called call (e ∷ es) w (call e w).0 (e.id ∷ []) true
  went :
      {e : Entry} {es : List Entry} {w w' : World} {called : List ℕ} {t : Bool}
      → (call e w).1 ≡ false
      → Called call es (call e w).0 w' called t
      → Called call (e ∷ es) w w' (e.id ∷ called) t

call_all-Called :
    (call : Callback) (es : List Entry) (w : World)
    → let r = call_all call es w in Called call es w r.0 r.1 r.2
unfolding call_all
call_all-Called call [] w = done
call_all-Called call (e ∷ es) w = elim (Bool-cases (call e w).1) [
  | inl q ↦ rw q (threw q)
  | inr q ↦ rw q (went q (call_all-Called call es (call e w).0))
]

call_all_safe-ids :
    (call : Callback) (es : List Entry) (w : World) → (call_all_safe call es w).1 ≡ ids es
unfolding call_all_safe
call_all_safe-ids call [] w = refl
call_all_safe-ids call (e ∷ es) w = ap (◌∷◌ e.id) (call_all_safe-ids call es (call e w).0)

call_all_safe-thread :
    (call : Callback) (es : List Entry) (w : World)
    → Balanced call
    → (call_all_safe call es w).0.thread ≡ w.thread
unfolding call_all_safe
call_all_safe-thread call [] w b = refl
call_all_safe-thread call (e ∷ es) w b = call_all_safe-thread call es (call e w).0 b ∙ b e w

call_all_safe-Inv :
    (call : Callback) (es : List Entry) (w : World)
    → Keeps call
    → Inv w.dispatcher
    → Inv (call_all_safe call es w).0.dispatcher
unfolding call_all_safe
call_all_safe-Inv call [] w k v = v
call_all_safe-Inv call (e ∷ es) w k v = call_all_safe-Inv call es (call e w).0 k (k e w v)

count_filled : (d : Dispatcher) → Inv d → d.handlers ≢ [] → (d.handler_count == 0) ≡ false
count_filled d v n = ground (arith, v.counted)

leave_thread-enter : (self : ℕ) (t : Thread) → leave_thread (enter self t) ≡ t
leave_thread-enter self t = let q : t.depth + 1 - 1 ≡ t.depth = omega arith in rw q

-- An `emit` on a dispatcher with handlers calls those that were subscribed when it began, in order,
-- up to and with the first that throws and none behind it, each in the world that the one before left,
-- whatever they do to the dispatcher meanwhile, and says whether one threw. Either way the emission is left
-- behind the last call: the thread's emissions are as before, and nothing is left queued if memory does
-- not run out; provided that each callback leaves the thread balanced and the dispatcher in its invariant.
pub emit-unwinds :
    (call : Callback) (self : ℕ) (w : World)
    → Balanced call
    → Keeps call
    → Inv w.dispatcher
    → w.dispatcher.handlers ≢ []
    → let r = emit call true self w in
      ((behind : World) × Called call w.dispatcher.handlers
          (record w { thread = enter self w.thread })
          behind
          r.1
          r.2
        × (r.0.dispatcher ≡ leave true behind.dispatcher))
      × (r.0.thread ≡ w.thread)
      × (r.0.dispatcher.pending_removals ≡ [])
      × Inv r.0.dispatcher
unfolding emit
emit-unwinds call self w b k v n =
    let inside : World = record w { thread = enter self w.thread } in
    let r = call_all call w.dispatcher.handlers inside in
    let kept = call_all-Inv call w.dispatcher.handlers inside k v in
    let balanced = call_all-thread call w.dispatcher.handlers inside b in
    rw (count_filled w.dispatcher v n) (
      (r.0, call_all-Called call w.dispatcher.handlers inside, refl),
      ap leave_thread balanced ∙ leave_thread-enter self w.thread,
      leave-drained r.0.dispatcher kept,
      leave-Inv true r.0.dispatcher kept,
    )

-- An `emit_safe` on a dispatcher with handlers calls all that were subscribed when it began, in order,
-- whichever of them throw and whatever they do to the dispatcher meanwhile. The thread's emissions are
-- then as before, and nothing is left queued if memory does not run out; provided that each callback
-- leaves the thread balanced and the dispatcher in its invariant.
pub emit_safe-unwinds :
    (call : Callback) (self : ℕ) (w : World)
    → Balanced call
    → Keeps call
    → Inv w.dispatcher
    → w.dispatcher.handlers ≢ []
    → let r = emit_safe call true self w in
      (r.1 ≡ ids w.dispatcher.handlers)
      × (r.0.thread ≡ w.thread)
      × (r.0.dispatcher.pending_removals ≡ [])
      × Inv r.0.dispatcher
unfolding emit_safe
emit_safe-unwinds call self w b k v n =
    let inside : World = record w { thread = enter self w.thread } in
    let r = call_all_safe call w.dispatcher.handlers inside in
    let kept = call_all_safe-Inv call w.dispatcher.handlers inside k v in
    let balanced = call_all_safe-thread call w.dispatcher.handlers inside b in
    rw (count_filled w.dispatcher v n) (
      call_all_safe-ids call w.dispatcher.handlers inside,
      ap leave_thread balanced ∙ leave_thread-enter self w.thread,
      leave-drained r.0.dispatcher kept,
      leave-Inv true r.0.dispatcher kept,
    )
