-- ===== src/Ledger.antt =====
-- The hook ledger: src/internal/hook_ledger.hpp. A method that waits on the condition variable is two
-- functions, for the two critical sections around the wait: `_enter` up to the wait, `_wake` for the
-- test of its predicate and what follows. The catch of `try_reserve_hook` takes the lock again, so that what
-- runs under the lock before it is a function of its own, `reserve_section`. All else runs under one lock. Addresses and ids are numbers;
-- the map is a function; a failed allocation is an argument.
pub mod Invariant
pub mod Members
pub mod Frame
pub mod Calls
pub mod Tracked
pub mod History
pub mod Slot
pub mod Layers
use detour_mod_kit.Base.{
  ℕ, ◌+◌, ◌%◌, ◌^◌, Bool, true, false, not, ◌&&◌, ◌||◌, List, [], ◌∷◌, ◌++◌, Option, none, some,
  ◌==◌, if◌then◌else◌, length,
}
use detour_mod_kit.Ids.{contains, erase_first, newer_than}

-- What the allocations of a method do, in their order.
pub data Alloc : Type 0 where
  succeeds first_fails second_fails : Alloc

pub data ReserveStatus : Type 0 where
  reserved already_hooked out_of_memory : ReserveStatus

pub record Reservation : Type 0 where
  pub status : ReserveStatus
  pub id : ℕ
  pub preexisting : Bool

pub record VmtEntry : Type 0 where
  pub id : ℕ
  pub base : ℕ

pub record TargetEntry : Type 0 where
  pub order : List ℕ
  pub pending : List ℕ

pub record HookLedger : Type 0 where
  pub next_id : ℕ
  pub by_target : ℕ → Option TargetEntry
  pub vmt : List VmtEntry

abbrev pub initial : HookLedger
initial = record { next_id = 1; by_target = λ target. none; vmt = [] }

abbrev pub put : HookLedger → ℕ → Option TargetEntry → HookLedger
put l target e = record l { by_target = λ t. if t == target then e else l.by_target t }

-- `m_next_id.fetch_add(1)`, outside the lock.
unfoldable pub fetch_id : HookLedger → HookLedger × ℕ
fetch_id l = (record l { next_id = (l.next_id + 1) % 2 ^ 64 }, l.next_id)

-- A section under the lock that may wait answers at once, waits, or throws.
pub data Entered {ℓ} (A : Type ℓ) : Type ℓ where
  answered : A → Entered A
  waits : Entered A
  throws : Entered A

-- An entry that lost an id: erased from the map with its last one.
entry_of : List ℕ → List ℕ → Option TargetEntry
entry_of [] pending = none
entry_of (x ∷ order) pending = some (record { order = x ∷ order; pending = pending })

release_from : HookLedger → ℕ → ℕ → TargetEntry → HookLedger × ℕ
unfolding entry_of
release_from l target id e =
    let pending = erase_first id e.pending in
    elim (newer_than id e.order) [
      | none ↦ (put l target (some (record e { pending = pending })), 0)
      | some newer ↦ (put l target (entry_of (erase_first id e.order) pending), newer)
    ]

unfoldable pub release_hook : HookLedger → ℕ → ℕ → HookLedger × ℕ
unfolding release_from
release_hook l target id = elim (l.by_target target) [
  | none ↦ (l, 0)
  | some e ↦ release_from l target id e
]

abbrev pub refused : Reservation
refused = record { status = already_hooked; id = 0; preexisting = true }

abbrev pub failed : Reservation
failed = record { status = out_of_memory; id = 0; preexisting = false }

-- Layering: two push_backs. A new entry is built aside and published whole.
layer : Alloc → HookLedger → ℕ → ℕ → TargetEntry → HookLedger × Entered Reservation
layer succeeds l target id e = (
  put l target (some (record { order = e.order ++ id ∷ []; pending = e.pending ++ id ∷ [] })),
  waits,
)
layer first_fails l target id e = (l, throws)
layer second_fails l target id e =
    (put l target (some (record e { order = e.order ++ id ∷ [] })), throws)

publish : Alloc → HookLedger → ℕ → ℕ → HookLedger × Entered Reservation
publish succeeds l target id =
    (put l target (some (record { order = id ∷ []; pending = id ∷ [] })), waits)
publish _ l target id = (l, throws)

-- try_reserve_hook from the lock to the wait or the exception, with the id that it has fetched.
unfoldable pub reserve_section :
    Alloc → HookLedger → ℕ → Bool → ℕ → HookLedger × Entered Reservation
unfolding layer publish
reserve_section alloc l target refuse_if_hooked id = elim (l.by_target target) [
  | none ↦ publish alloc l target id
  | some e ↦ if refuse_if_hooked then (l, answered refused) else layer alloc l target id e
]

-- The `catch` behind it.
abbrev pub roll_back : ℕ → ℕ → HookLedger × Entered Reservation → HookLedger × Entered Reservation
roll_back target id (l, answered a) = (l, answered a)
roll_back target id (l, waits) = (l, waits)
roll_back target id (l, throws) = ((release_hook l target id).0, answered failed)

-- Up to the wait or the answer, where no other thread comes before the catch.
unfoldable pub reserve_enter : Alloc → HookLedger → ℕ → Bool → ℕ → HookLedger × Entered Reservation
unfolding reserve_section release_hook
reserve_enter alloc l target refuse_if_hooked id =
    roll_back target id (reserve_section alloc l target refuse_if_hooked id)

front_is : List ℕ → ℕ → Bool
front_is [] id = false
front_is (x ∷ xs) id = x == id

-- The predicate of both waits.
unfoldable pub is_front : HookLedger → ℕ → ℕ → Bool
unfolding front_is
is_front l target id = elim (l.by_target target) [ none ↦ false | some e ↦ front_is e.pending id ]

-- `none` goes on waiting.
unfoldable pub reserve_wake : HookLedger → ℕ → ℕ → Bool → Option Reservation
reserve_wake l target id preexisting =
    if is_front l target id
    then some (record { status = reserved; id = id; preexisting = preexisting })
    else none

pub drop_pending : HookLedger → ℕ → ℕ → HookLedger
drop_pending l target id = elim (l.by_target target) [
  | none ↦ l
  | some e ↦ put l target (some (record e { pending = erase_first id e.pending }))
]

unfoldable pub commit_hook : HookLedger → ℕ → ℕ → HookLedger
unfolding drop_pending
commit_hook = drop_pending

unfoldable pub release_teardown_slot : HookLedger → ℕ → ℕ → HookLedger
unfolding drop_pending
release_teardown_slot = drop_pending

claim : Alloc → HookLedger → ℕ → ℕ → TargetEntry → HookLedger × Entered ℕ
claim succeeds l target id e =
    (put l target (some (record e { pending = e.pending ++ id ∷ [] })), waits)
claim _ l target id e = (l, answered 1)

-- acquire_teardown_slot up to the wait.
unfoldable pub teardown_enter : Alloc → HookLedger → ℕ → ℕ → HookLedger × Entered ℕ
unfolding claim
teardown_enter alloc l target id = elim (l.by_target target) [
  | none ↦ (l, answered 1)
  | some e ↦ if contains id e.order then claim alloc l target id e else (l, answered 1)
]

-- The count behind the wait, or 1 where the target or the id is gone.
newer_or_leak : HookLedger → ℕ → ℕ → ℕ
newer_or_leak l target id = elim (l.by_target target) [
  | none ↦ 1
  | some e ↦ elim (newer_than id e.order) [ none ↦ 1 | some n ↦ n ]
]

unfoldable pub teardown_wake : HookLedger → ℕ → ℕ → Option ℕ
unfolding newer_or_leak
teardown_wake l target id = if is_front l target id then some (newer_or_leak l target id) else none

unfoldable pub is_target_hooked : HookLedger → ℕ → Bool
is_target_hooked l target = elim (l.by_target target) [ none ↦ false | some e ↦ true ]

unfoldable pub try_record_vmt : Alloc → HookLedger → ℕ → HookLedger × Option ℕ
unfolding fetch_id
try_record_vmt alloc l base =
    let (l', id) = fetch_id l in
    elim alloc [
      | succeeds ↦ (record l' { vmt = l'.vmt ++ record { id = id; base = base } ∷ [] }, some id)
      | _ ↦ (l', none)
    ]

drop_vmt : ℕ → List VmtEntry → List VmtEntry
drop_vmt id [] = []
drop_vmt id (v ∷ vs) = if v.id == id then drop_vmt id vs else v ∷ drop_vmt id vs

unfoldable pub release_vmt : HookLedger → ℕ → HookLedger
unfolding drop_vmt
release_vmt l id = record l { vmt = drop_vmt id l.vmt }

any_base : ℕ → List VmtEntry → Bool
any_base vptr [] = false
any_base vptr (v ∷ vs) = v.base == vptr || any_base vptr vs

unfoldable pub is_vmt_clone_base : HookLedger → ℕ → Bool
unfolding any_base
is_vmt_clone_base l vptr = if vptr == 0 then false else any_base vptr l.vmt
