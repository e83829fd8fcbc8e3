-- ===== src/Lib.antt =====
-- DetourModKit: a verification library of the parts of the toolkit whose logic does not live in
-- Win32. It models them as functions on values and proves what the rest of the toolkit relies on.
--
-- Parts and files:
--   Base, Ids, Text    what the others share: tests on numbers, lists, vectors of ids, texts with the
--                      number conversions that the C++ library documents.
--   Errors             include/DetourModKit/error.hpp: ErrorCode, its numbers, categories and names.
--   Pattern            include/DetourModKit/detail/pattern_core.hpp and, of
--                      src/internal/scan_engine.cpp, parse_aob with its sink and
--                      select_pattern_anchor. Pattern.Jump is parse_jump_token, Pattern.Parse is
--                      parse_pattern_into and its callers, Pattern.Anchor the two anchor selections,
--                      Pattern.Match the matcher from run_matches_at to matches_buffer_at.
--   Ledger             src/internal/hook_ledger.hpp: HookLedger, method by method, and its histories under the
--                      calls of src/hook.cpp (Ledger.Calls).
--   Gate               src/internal/input_binding_gate.hpp (Gate.Hold, Gate.Press) and
--                      src/internal/input_key_cache.hpp (Gate.Keys).
--   Drift              include/DetourModKit/detail/drift_manifest.hpp and src/drift_manifest.cpp.
--   Events             include/DetourModKit/detail/event_dispatcher.hpp, and its histories (Events.History).
--   Memory             src/internal/memory_guarded.cpp (the guarded read, and in Memory.Chain the pointer
--                      chains), and in Memory.Rip src/scan_rip_relative.cpp with the resolvers of
--                      src/internal/scan_shared.hpp.
--   Queue              the bounded queue of src/internal/async_logger.cpp, DynamicMPMCQueue, under
--                      interleaved calls (Queue.Calls).
--   Manifest           src/manifest.cpp with include/DetourModKit/manifest.hpp: the numbers and tokens of
--                      its values, parse_rung and parse_record (Manifest.Sections), what serialize
--                      writes for them (Manifest.Entries), parse and serialize (Manifest.File), and
--                      resolve_and_gate over what the signatures resolve to (Manifest.Gate).
--   Anchors            assess_quality and evaluate_gate of src/anchor.cpp.
--   Input              src/internal/input_poller.cpp: how a code is read, the evaluation of a cycle
--                      of poll_loop (Input.Cycle), the operations on the binding set
--                      (Input.Bindings) and their histories (Input.Bindings.History); and of
--                      src/internal/input_intercept.cpp the wheel and suppression steps
--                      (Input.Intercept).
--   Tests              runs on concrete inputs, and instances of the theorems.
--
-- How they interact: the pattern grammar is shared by the compile-time literal and the scan
-- engine, which differ in their sinks; the matcher works on what either parser hands out. Hooks of
-- every kind go through the one ledger of the process. The input poller samples keys through the
-- cache and reports edges through the gates. The claims of a poll cycle are what the suppression
-- latch is stepped with, and the wheel's pulses are what a cycle reads. The drift manifest writes
-- heal codes of the error module. What the scan engine finds is turned into an address by the
-- resolvers of Memory.Rip.
--
-- State and operations. An object is a record and a method a function from its record; what a
-- method returns stands beside the new record. A fixed array with a count is the list of its valid
-- entries, a hash map a function, an enum a data type, a status that carries data a result type. A
-- method that takes one lock is one step; the id that one draws before its lock, and a catch that
-- takes the lock again, are steps of their own; one that waits on a condition variable is two,
-- before and behind the wait; and in Queue.Calls each access of shared memory is a step of its
-- own. Interleavings of threads are step relations (Ledger.Calls, Ledger.History, Events.History,
-- Queue.Calls), and the invariants hold for every sequence of steps. A user callback is a
-- parameter: in Gate.Hold it is what it does to its own guard and whether it throws, in Events any
-- function on the dispatcher and the thread's emit stack. Whether an allocation succeeds is an
-- argument where the source catches the failure or lets it out of a section under a lock; the
-- parsers' own allocations are taken to succeed. Process memory is a function from addresses to
-- bytes, with none where a read faults: a guarded read then fails, and an unguarded one is a fault
-- of the function that makes it.
--
-- The INI library that holds a manifest is a record of operations (Manifest.File.Ini); what the
-- round trip relies on is what that library documents, for the section names, keys and values that
-- the format holds as they stand (Manifest.File.Format; a value that begins with `<<<` is not
-- one): a value that was set is read back without regard to the case of names, sections are listed
-- in the order in which they were first set, and what is saved loads with the same values. A ratio
-- of a gate's policy, a floating-point number, is what the code asks of it: whether the counts are
-- below it. The key cache of a poll cycle is one function, as each key has one answer in a cycle.
-- The set of known modifiers is a list, as nothing depends on its order.
--
-- Bounds. Bytes are numbers below 256 where it matters, which the statements say. The unsigned
-- difference in run_matches_at is written with the test that its wrap-around amounts to. Ids wrap
-- at 64 bits; the histories whose invariants need distinct ids go on while the counters do not
-- wrap. The matcher's step budget is 65536: a pattern with at most one gap never reaches it, as a
-- gap is at most 256 wide; two gaps of that width can (66307 nodes), and the matcher then answers
-- no, so its equivalence has the budget as a condition. The loop over the rungs of a ladder has a
-- round for each section of the file and one more. Codes of inputs are natural numbers, and the
-- texts of a manifest hold no NUL. Decimal printing divides at most 20 times, enough for 64 bits.
-- The queue's positions are taken not to wrap.
--
-- Not modelled: the SIMD scan loops, the exception handlers behind guarded reads, RTTI, hooks and
-- their back end, the session, the loggers but for the queue, the threads and hooks around the
-- input poller, the compilation of a manifest's signatures, the back ends of anchors, and all else
-- that calls Win32; log lines; memory orderings, as every access that is modelled is under a lock
-- or is one atomic operation, and the queue's accesses are taken to be sequentially consistent.
pub mod Base
pub mod Ids
pub mod Text
pub mod Errors
pub mod Pattern
pub mod Ledger
pub mod Gate
pub mod Drift
pub mod Events
pub mod Memory
pub mod Queue
pub mod Manifest
pub mod Input
pub mod Anchors
mod Tests
