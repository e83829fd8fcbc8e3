-- ===== src/Events/Removal.antt =====
-- How a subscription ends: at once, or put off while its dispatcher is emitting.
use detour_mod_kit.Base.{
  ℕ, ◌-◌, ◌≡◌, refl, ap, ◌∙◌, true, false, List, [], ◌∷◌, ◌++◌, some, arith, ◌==◌, length,
  length-concat, Bool-cases, inl, inr, ==_refl,
}
use detour_mod_kit.Ids.{contains, contains-concat}
use detour_mod_kit.Events.{
  Entry, Dispatcher, Thread, ids, without, subscribe, claim_id, insert_entry, subscribed,
  Subscription, enqueue_pending_removal, is_emitting, unsubscribe, cleared, drain_pending_removals,
  leave, Subscription, inactive, active, reset, reset_with,
}
use detour_mod_kit.Events.Invariant.{Inv, contains-without, fresh_id}

without-ext :
    (a b : List ℕ) (es : List Entry)
    → ((x : ℕ) → contains x a ≡ contains x b)
    → without a es ≡ without b es
unfolding without
without-ext a b [] h = refl
without-ext a b (e ∷ es) h = rw (h e.id) (rw (without-ext a b es h))

contains_again : (id x : ℕ) (q : List ℕ) → contains id q ≡ true → contains x q ≡ contains x (id ∷ q)
unfolding contains
contains_again id x q h = elim (Bool-cases (id == x)) [
  | inl same ↦ let e : id ≡ x = ground arith in rw (same, ← e, h)
  | inr other ↦ rw other
]

contains_swap : (id x : ℕ) (q : List ℕ) → contains x (q ++ id ∷ []) ≡ contains x (id ∷ q)
unfolding contains
contains_swap id x q = ground (arith, contains-concat x q id)

-- The end of an emission, where something is queued.
leave-handlers :
    (d : Dispatcher) (x : ℕ)
    → d.has_pending_removals ≡ true
    → contains x d.pending_removals ≡ true
    → ((leave true d).handlers ≡ without d.pending_removals d.handlers)
      × ((leave true d).pending_removals ≡ [])
unfolding leave drain_pending_removals contains cleared
leave-handlers d x f h = ground arith

-- What an unsubscription within an emission leaves queued.
record Queued (d : Dispatcher) (id : ℕ) (e : Dispatcher) : Type 0 where
  same_handlers : e.handlers ≡ d.handlers
  flag : e.has_pending_removals ≡ true
  queued : contains id e.pending_removals ≡ true
  nothing_else : (x : ℕ) → contains x e.pending_removals ≡ contains x (id ∷ d.pending_removals)

announced_flag :
    (d : Dispatcher) (id : ℕ)
    → Inv d
    → contains id d.pending_removals ≡ true
    → d.has_pending_removals ≡ true
unfolding contains
announced_flag d id v h = ground (arith, v.announced)

enqueue-Queued : (d : Dispatcher) (id : ℕ) → Inv d → Queued d id (enqueue_pending_removal true id d)
unfolding enqueue_pending_removal
enqueue-Queued d id v = elim (Bool-cases (contains id d.pending_removals)) [
  | inl again ↦ rw again (record {
    same_handlers = refl;
    flag = announced_flag d id v again;
    queued = again;
    nothing_else = λ x. contains_again id x d.pending_removals again;
  })
  | inr new ↦ rw new (record {
    same_handlers = refl;
    flag = refl;
    queued = contains_swap id id d.pending_removals ∙ unfold contains in rw (==_refl id);
    nothing_else = λ x. contains_swap id x d.pending_removals;
  })
]

-- A handler that is unsubscribed by a thread that is emitting its dispatcher, is left in the
-- published list, the caller is told that it is not done, and the end of the emission takes out
-- exactly it and the others that were queued; provided that memory does not run out.
pub deferred_removal :
    (d : Dispatcher) (t : Thread) (self id : ℕ)
    → Inv d
    → is_emitting self t ≡ true
    → let (e, done) = unsubscribe true self id t d in
      (done ≡ false)
      × (e.handlers ≡ d.handlers)
      × ((leave true e).handlers ≡ without (id ∷ d.pending_removals) d.handlers)
      × ((leave true e).pending_removals ≡ [])
unfolding unsubscribe
deferred_removal d t self id v h =
    let q = enqueue-Queued d id v in
    let e = enqueue_pending_removal true id d in
    let (gone, nothing) = leave-handlers e id q.flag q.queued in
    let list =
      gone
      ∙ without-ext e.pending_removals (id ∷ d.pending_removals) e.handlers q.nothing_else
      ∙ ap (without (id ∷ d.pending_removals)) q.same_handlers in
    rw (h, unsubscribe) (refl, q.same_handlers, list, nothing)

abbrev bound : ℕ → Subscription
bound id = record { unsubscribe_id = some id; alive = true }

gone_from_rest :
    (id : ℕ) (q : List ℕ) (es : List Entry) → contains id (ids (without (id ∷ q) es)) ≡ false
unfolding contains
gone_from_rest id q es = ground (arith, contains-without id (id ∷ q) es)

-- A Subscription that is reset by a handler of its own dispatcher stays active; when the emission
-- has ended, with memory, its handler is gone, and a second reset outside emissions changes nothing
-- but the Subscription, which it empties.
pub reset_twice :
    (d : Dispatcher) (t idle : Thread) (self id : ℕ)
    → Inv d
    → is_emitting self t ≡ true
    → is_emitting self idle ≡ false
    → let first = reset true self t d (bound id) in
      let e = leave true first.0 in
      (active first.1 ≡ true)
      × (contains id (ids e.handlers) ≡ false)
      × (reset true self idle e first.1 ≡ (e, inactive))
unfolding reset reset_with active
reset_twice d t idle self id v h n =
    let (told, _, list, _) = deferred_removal d t self id v h in
    let e = leave true (unsubscribe true self id t d).0 in
    let gone : contains id (ids e.handlers) ≡ false =
      rw list (gone_from_rest id d.pending_removals d.handlers) in
    let again : unsubscribe true self id idle e ≡ (e, true) = unfold unsubscribe in rw (n, gone) in
    rw told (refl, gone, rw (again, reset_with))

last_id : (es : List Entry) (e : Entry) → contains e.id (ids (es ++ e ∷ [])) ≡ true
unfolding contains
last_id [] e = rw (==_refl e.id)
last_id (x ∷ es) e = ground (arith, last_id es e)

without-last :
    (es : List Entry) (e : Entry)
    → contains e.id (ids es) ≡ false
    → without (e.id ∷ []) (es ++ e ∷ []) ≡ es
unfolding without contains
without-last [] e h = rw (==_refl e.id)
without-last (x ∷ es) e h = ground (arith, without-last es e)

-- A subscription that is made and reset outside emissions leaves the handlers and their count as
-- they were, in their order; provided that memory does not run out.
pub subscribe_then_reset :
    (d : Dispatcher) (t : Thread) (self handler : ℕ)
    → Inv d
    → t.depth ≡ 0
    → is_emitting self t ≡ false
    → let (e, got) = subscribe true (some handler) t d in
      let made : Subscription = record { unsubscribe_id = some d.next_id; alive = true } in
      let (f, s) = reset true self t e made in
      (got ≡ subscribed d.next_id)
      × (f.handlers ≡ d.handlers)
      × (f.handler_count ≡ d.handler_count)
      × (s ≡ inactive)
unfolding subscribe claim_id insert_entry reset reset_with unsubscribe
subscribe_then_reset d t self handler v outside idle =
    let entry : Entry = record { id = d.next_id; callback = handler } in
    let there : contains d.next_id (ids (d.handlers ++ entry ∷ [])) ≡ true =
      last_id d.handlers entry in
    let back : without (d.next_id ∷ []) (d.handlers ++ entry ∷ []) ≡ d.handlers =
      without-last d.handlers entry (fresh_id d.next_id (ids d.handlers) v.handed_out) in
    let count : length (d.handlers ++ entry ∷ []) - 1 ≡ d.handler_count =
      omega (arith, length-concat d.handlers entry, v.counted) in
    rw outside (rw idle (rw there (refl, back, count, refl)))
