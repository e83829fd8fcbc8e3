-- ===== src/Events.antt =====
-- The event dispatcher: include/DetourModKit/detail/event_dispatcher.hpp. Each function is one critical
-- section under the writer mutex, one atomic access, or (`subscribe`, `reset`, the emissions) a
-- composition of these. The published list is a value, so a snapshot of it is
-- the list. Whether an allocation succeeds is an argument. Handlers, ids and dispatchers are numbers;
-- an empty handler is `none`. Log lines and the weak pointer of a destroyed dispatcher are not
-- modelled, but for the flag that says it is alive.
pub mod Invariant
pub mod History
pub mod Removal
pub mod Emission
use detour_mod_kit.Base.{
  ℕ, ◌+◌, ◌-◌, ◌%◌, ◌^◌, Bool, true, false, not, ◌&&◌, ◌||◌, List, [], ◌∷◌, ◌++◌, Option, none,
  some, ◌==◌, if◌then◌else◌, length, ltb,
}
use detour_mod_kit.Ids.{contains}

pub record Entry : Type 0 where
  pub id : ℕ
  pub callback : ℕ

pub record Dispatcher : Type 0 where
  pub handlers : List Entry
  pub handler_count : ℕ
  pub next_id : ℕ
  pub pending_removals : List ℕ
  pub has_pending_removals : Bool

-- The thread-local emit stack of the owners, and the thread-local depth.
pub record Thread : Type 0 where
  pub emit_stack : List ℕ
  pub depth : ℕ

abbrev pub initial : Dispatcher
initial = record {
  handlers = [];
  handler_count = 0;
  next_id = 1;
  pending_removals = [];
  has_pending_removals = false;
}

abbrev pub ids : List Entry → List ℕ
ids [] = []
ids (e ∷ es) = e.id ∷ ids es

-- The rebuilt list of `unsubscribe` and of the drain: the entries whose ids are not queued.
unfoldable pub without : List ℕ → List Entry → List Entry
without queued [] = []
without queued (e ∷ es) =
    let rest = without queued es in if contains e.id queued then rest else e ∷ rest

abbrev publish : Dispatcher → List Entry → ℕ → Dispatcher
publish d es n = record d { handlers = es; handler_count = n }

-- What `subscribe` comes to: an inactive Subscription, one for an id, or the exception of an allocation.
pub data Outcome : Type 0 where
  rejected : Outcome
  subscribed : ℕ → Outcome
  out_of_memory : Outcome

-- `subscribe` before its lock: the id that it draws, if it goes on.
unfoldable pub claim_id : Option ℕ → Thread → Dispatcher → Dispatcher × Option ℕ
claim_id none t d = (d, none)
claim_id (some handler) t d =
    if ltb 0 t.depth
    then (d, none)
    else (record d { next_id = (d.next_id + 1) % 2 ^ 64 }, some d.next_id)

-- And under it: the copy of the list with the new entry. The copy and the entry's place are allocated before
-- anything is published; where that throws the id is lost.
unfoldable pub insert_entry : Bool → ℕ → ℕ → Dispatcher → Dispatcher × Outcome
insert_entry memory id handler d =
    let next = d.handlers ++ record { id = id; callback = handler } ∷ [] in
    if memory then (publish d next (length next), subscribed id) else (d, out_of_memory)

abbrev insert_claimed : Bool → ℕ → Dispatcher × Option ℕ → Dispatcher × Outcome
insert_claimed memory handler (d, none) = (d, rejected)
insert_claimed memory handler (d, some id) = insert_entry memory id handler d

-- A call that no other thread interrupts between the two.
unfoldable pub subscribe : Bool → Option ℕ → Thread → Dispatcher → Dispatcher × Outcome
unfolding claim_id insert_entry
subscribe memory none t d = (d, rejected)
subscribe memory (some handler) t d = insert_claimed memory handler (claim_id (some handler) t d)

unfoldable pub enqueue_pending_removal : Bool → ℕ → Dispatcher → Dispatcher
enqueue_pending_removal memory id d =
    if contains id d.pending_removals
    then d
    else if memory
    then record d { pending_removals = d.pending_removals ++ id ∷ []; has_pending_removals = true }
    else d

abbrev pub is_emitting : ℕ → Thread → Bool
is_emitting self t = contains self t.emit_stack

-- Out of memory, the published list is left alone and the answer is false.
unfoldable pub unsubscribe : Bool → ℕ → ℕ → Thread → Dispatcher → Dispatcher × Bool
unsubscribe memory self id t d =
    if is_emitting self t
    then (enqueue_pending_removal memory id d, false)
    else if not (contains id (ids d.handlers))
    then (d, true)
    else if memory
    then (publish d (without (id ∷ []) d.handlers) (length d.handlers - 1), true)
    else (d, false)

cleared : Dispatcher → Dispatcher
cleared d = record d { pending_removals = []; has_pending_removals = false }

unfoldable pub drain_pending_removals : Bool → Dispatcher → Dispatcher
unfolding cleared
drain_pending_removals memory d =
    let next = without d.pending_removals d.handlers in
    elim d.pending_removals [
      | [] ↦ record d { has_pending_removals = false }
      | _ ∷ _ ↦ if memory then cleared (publish d next (length next)) else d
    ]

unfoldable pub clear : Bool → Dispatcher → Dispatcher
clear memory d = if memory then publish d [] 0 else d

-- EmitGuard.
abbrev pub enter : ℕ → Thread → Thread
enter self t = record { emit_stack = self ∷ t.emit_stack; depth = t.depth + 1 }

abbrev pop : List ℕ → List ℕ
pop [] = []
pop (x ∷ xs) = xs

abbrev pub leave_thread : Thread → Thread
leave_thread t = record { emit_stack = pop t.emit_stack; depth = t.depth - 1 }

unfoldable pub leave : Bool → Dispatcher → Dispatcher
leave memory d = if d.has_pending_removals then drain_pending_removals memory d else d

-- A Subscription is its unsubscribe closure, by the id in it, and whether its dispatcher is alive.
pub record Subscription : Type 0 where
  pub unsubscribe_id : Option ℕ
  pub alive : Bool

abbrev pub inactive : Subscription
inactive = record { unsubscribe_id = none; alive = false }

unfoldable pub active : Subscription → Bool
active s = elim s.unsubscribe_id [ none ↦ false | some id ↦ s.alive ]

-- The Subscription is emptied unless an unsubscribe that it asked for was put off.
reset_with : Subscription → Dispatcher × Bool → Dispatcher × Subscription
reset_with s (d, done) = (d, if done then inactive else s)

unfoldable pub reset : Bool → ℕ → Thread → Dispatcher → Subscription → Dispatcher × Subscription
unfolding reset_with
reset memory self t d s = elim s.unsubscribe_id [
  | none ↦ (d, inactive)
  | some id ↦ if s.alive then reset_with s (unsubscribe memory self id t d) else (d, inactive)
]

-- What a callback can reach: the dispatcher and the thread's stack. The callback is a parameter, the
-- world behind it and whether it threw.
pub record World : Type 0 where
  pub dispatcher : Dispatcher
  pub thread : Thread

abbrev pub Callback : Type 0
Callback = Entry → World → World × Bool

-- The loop of `emit`, with the ids that were called; it ends with the first exception.
unfoldable pub call_all : Callback → List Entry → World → World × List ℕ × Bool
call_all call [] w = (w, [], false)
call_all call (e ∷ es) w =
    let r = call e w in
    let more = call_all call es r.0 in
    if r.1 then (r.0, e.id ∷ [], true) else (more.0, e.id ∷ more.1, more.2)

-- The loop of `emit_safe`, which swallows them.
unfoldable pub call_all_safe : Callback → List Entry → World → World × List ℕ
call_all_safe call [] w = (w, [])
call_all_safe call (e ∷ es) w =
    let more = call_all_safe call es (call e w).0 in (more.0, e.id ∷ more.1)

abbrev entered : ℕ → World → World
entered self w = record w { thread = enter self w.thread }

abbrev left : Bool → World → World
left memory w = record { dispatcher = leave memory w.dispatcher; thread = leave_thread w.thread }

unfoldable pub emit : Callback → Bool → ℕ → World → World × List ℕ × Bool
emit call memory self w =
    let r = call_all call w.dispatcher.handlers (entered self w) in
    if w.dispatcher.handler_count == 0 then (w, [], false) else (left memory r.0, r.1, r.2)

unfoldable pub emit_safe : Callback → Bool → ℕ → World → World × List ℕ
emit_safe call memory self w =
    let r = call_all_safe call w.dispatcher.handlers (entered self w) in
    if w.dispatcher.handler_count == 0 then (w, []) else (left memory r.0, r.1)
