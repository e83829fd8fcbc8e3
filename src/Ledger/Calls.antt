-- ===== src/Ledger/Calls.antt =====
-- The histories of the ledger under the calls of src/hook.cpp, with the ids that the ledger hands out.
use detour_mod_kit.Base.{
  ℕ, ◌+◌, ◌^◌, ◌<◌, ◌≡◌, Bool, true, false, ◌&&◌, List, [], ◌∷◌, ◌++◌, ◌==◌, if◌then◌else◌,
  Bool-cases, inl, inr,
}
use detour_mod_kit.Ids.{contains, erase_first, Distinct}
use detour_mod_kit.Ledger.{
  Alloc, HookLedger, initial, fetch_id, release_hook, reserve_section, commit_hook,
  release_teardown_slot, teardown_enter, try_record_vmt, release_vmt,
}
use detour_mod_kit.Ledger.Invariant.{Inv, Fresh, NotQueued}
use detour_mod_kit.Ledger.Members.{order_of, queue_of}

-- The ledger, the ids that calls of `try_reserve_hook` have fetched and not yet come under the lock with,
-- and the hooks, by target and id, that have given up their slot and ask for none.
pub record Calls : Type 0 where
  pub ledger : HookLedger
  pub drawn : List ℕ
  pub at_rest : ℕ → ℕ → Bool

abbrev pub no_calls : Calls
no_calls = record { ledger = initial; drawn = []; at_rest = λ target id. false }

-- `rests` for one hook, and for the others as before; of the hooks of an id, none rests.
abbrev pub rest_of : (ℕ → ℕ → Bool) → ℕ → ℕ → Bool → ℕ → ℕ → Bool
rest_of rests target id b t x = if t == target && x == id then b else rests t x

abbrev pub none_of : (ℕ → ℕ → Bool) → ℕ → ℕ → ℕ → Bool
none_of rests id t x = if x == id then false else rests t x

-- One section of a call of one thread. A reservation takes the id that its call has fetched; a hook's
-- teardown asks for its slot once, behind the commit of its install or behind the teardown that gave the
-- slot up; a release may come for any target and id. The counter of ids does not wrap.
pub data Step (s : Calls) : Calls → Type 0 where
  fetches :
      s.ledger.next_id + 1 < 2 ^ 64
      → Step s (record s {
        ledger = (fetch_id s.ledger).0;
        drawn = s.drawn ++ (fetch_id s.ledger).1 ∷ [];
      })
  reserves :
      (alloc : Alloc) (target : ℕ) (refuse : Bool) (id : ℕ)
      → contains id s.drawn ≡ true
      → Step s (record {
        ledger = (reserve_section alloc s.ledger target refuse id).0;
        drawn = erase_first id s.drawn;
        at_rest = none_of s.at_rest id;
      })
  commits :
      (target id : ℕ)
      → Step s (record s {
        ledger = commit_hook s.ledger target id;
        at_rest = rest_of s.at_rest target id true;
      })
  releases : (target id : ℕ) → Step s (record s { ledger = (release_hook s.ledger target id).0 })
  claims :
      (alloc : Alloc) (target id : ℕ)
      → s.at_rest target id ≡ true
      → Step s (record s {
        ledger = (teardown_enter alloc s.ledger target id).0;
        at_rest = rest_of s.at_rest target id false;
      })
  unclaims :
      (target id : ℕ)
      → Step s (record s {
        ledger = release_teardown_slot s.ledger target id;
        at_rest = rest_of s.at_rest target id true;
      })
  records :
      (alloc : Alloc) (base : ℕ)
      → s.ledger.next_id + 1 < 2 ^ 64
      → Step s (record s { ledger = (try_record_vmt alloc s.ledger base).0 })
  forgets : (id : ℕ) → Step s (record s { ledger = release_vmt s.ledger id })

pub data Reach (s : Calls) : Calls → Type 0 where
  here : Reach s s
  next : {m n : Calls} → Reach s m → Step m n → Reach s n

-- No id is drawn twice; a drawn id was handed out and a tracked one was too and is drawn no longer; a hook
-- at rest is not in the queue of its target.
pub record CallsInv (s : Calls) : Type 0 where
  pub inner : Inv s.ledger
  pub once : Distinct s.drawn
  pub handed_out : (x : ℕ) → contains x s.drawn ≡ true → x < s.ledger.next_id
  pub used :
      (t x : ℕ)
      → contains x (order_of s.ledger t) ≡ true
      → (x < s.ledger.next_id) × (contains x s.drawn ≡ false)
  pub quiet : (t x : ℕ) → s.at_rest t x ≡ true → contains x (queue_of s.ledger t) ≡ false

pub drawn-Fresh :
    (s : Calls) (target id : ℕ) → CallsInv s → contains id s.drawn ≡ true → Fresh s.ledger target id
drawn-Fresh s target id v h e found = elim (Bool-cases (contains id e.order)) [
  | inr away ↦ away
  | inl there ↦ let (a, b) = v.used target id (rw found there) in cc
]

pub at_rest-NotQueued :
    (s : Calls) (target id : ℕ)
    → CallsInv s
    → s.at_rest target id ≡ true
    → NotQueued s.ledger target id
at_rest-NotQueued s target id v h e found = rw found at (v.quiet target id h)
