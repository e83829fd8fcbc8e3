-- ===== src/Ledger/Tracked.antt =====
-- What holds of a target's entry in every history of the ledger.
use detour_mod_kit.Ledger.Frame.{
  old_order, old_queue, reserve_section-next_id, release_hook-next_id, drop_pending-next_id,
  teardown_enter-next_id, try_record_vmt-next_id,
}
use detour_mod_kit.Base.{
  ℕ, ◌+◌, ◌%◌, ◌^◌, ◌<◌, ◌≤◌, ◌≡◌, ◌⊎◌, refl, Bool, true, false, ◌&&◌, [], ◌∷◌, ◌++◌, some, arith,
  ◌==◌, Bool-cases, inl, inr,
}
use detour_mod_kit.Ids.{
  contains, erase_first, contains-concat, Distinct-concat, contains-erase_first,
  Distinct-erase_first,
}
use detour_mod_kit.Ledger.{
  Alloc, TargetEntry, HookLedger, fetch_id, release_hook, reserve_section, drop_pending,
  commit_hook, release_teardown_slot, teardown_enter, try_record_vmt, release_vmt,
}
use detour_mod_kit.Ledger.Invariant.{
  EntryOk, Inv, reserve_section-Inv, drop_pending-Inv, release_hook-Inv, teardown_enter-Inv,
}
use detour_mod_kit.Ledger.History.{try_record_vmt-by_target}
use detour_mod_kit.Ledger.Members.{
  queue_of, Brings, reserve_section-Brings, release_hook-Brings, drop_pending-Brings,
  drop_pending-drops, teardown_enter-Asks,
}
use detour_mod_kit.Ledger.Calls.{
  Calls, no_calls, rest_of, none_of, Step, fetches, reserves, commits, releases, claims, unclaims,
  records, forgets, Reach, here, next, CallsInv, drawn-Fresh, at_rest-NotQueued,
}

fetch-CallsInv :
    (s : Calls)
    → CallsInv s
    → s.ledger.next_id + 1 < 2 ^ 64
    → CallsInv
        (record s { ledger = (fetch_id s.ledger).0; drawn = s.drawn ++ (fetch_id s.ledger).1 ∷ [] })
unfolding fetch_id
fetch-CallsInv s v h =
    let n = s.ledger.next_id in
    let q : (n + 1) % 2 ^ 64 ≡ n + 1 = omega arith in
    rw q (record {
      inner = v.inner;
      once = Distinct-concat s.drawn n v.once (elim (Bool-cases (contains n s.drawn)) [
        | inl there ↦ absurd (omega (arith, v.handed_out n there))
        | inr away ↦ away
      ]);
      handed_out = λ x g.
          let more = contains-concat x s.drawn n in
          elim (Bool-cases (contains x s.drawn)) [
            | inl old ↦ omega (arith, v.handed_out x old)
            | inr other ↦ let e : n ≡ x = ground arith in omega arith
          ];
      used = λ t x g.
          let (a, b) = v.used t x g in
          let more = contains-concat x s.drawn n in
          let apart : (n == x) ≡ false = ground arith in (omega (arith, a), ground arith);
      quiet = v.quiet;
    })

reserve-CallsInv :
    (s : Calls) (alloc : Alloc) (target : ℕ) (refuse : Bool) (id : ℕ)
    → CallsInv s
    → contains id s.drawn ≡ true
    → CallsInv (record {
      ledger = (reserve_section alloc s.ledger target refuse id).0;
      drawn = erase_first id s.drawn;
      at_rest = none_of s.at_rest id;
    })
reserve-CallsInv s alloc target refuse id v h =
    let l = s.ledger in
    let same = reserve_section-next_id alloc l target refuse id in
    let b = reserve_section-Brings alloc l target refuse id in
    record {
      inner = reserve_section-Inv alloc l target refuse id v.inner (drawn-Fresh s target id v h);
      once = Distinct-erase_first id s.drawn v.once;
      handed_out = λ x g.
          let less = contains-erase_first x id s.drawn v.once in
          rw same (v.handed_out x (ground arith));
      used = λ t x g.
          let less = contains-erase_first x id s.drawn v.once in
          elim (b.in_order t x g) [
            | inl e ↦ (rw same (rw e (v.handed_out id h)), ground arith)
            | inr old ↦ let (c, d) = v.used t x old in (rw same c, ground arith)
          ];
      quiet = λ t x g.
          elim (Bool-cases (contains x (queue_of (reserve_section alloc l target refuse id).0 t))) [
            | inr away ↦ away
            | inl there ↦ elim (b.in_queue t x there) [
              | inl e ↦ absurd (ground arith)
              | inr old ↦ let k = v.quiet t x (ground arith) in absurd (ground arith)
            ]
          ];
    }

-- A section that brings no id, where what comes to rest is not in its queue.
calm :
    (s : Calls) (m : HookLedger) (rests : ℕ → ℕ → Bool)
    → CallsInv s
    → Inv m
    → m.next_id ≡ s.ledger.next_id
    → ((y : ℕ) → Brings y s.ledger m)
    → ((t x : ℕ) → rests t x ≡ true → (s.at_rest t x ≡ true) ⊎ (contains x (queue_of m t) ≡ false))
    → CallsInv (record s { ledger = m; at_rest = rests })
calm s m rests v w same b r = record {
  inner = w;
  once = v.once;
  handed_out = λ x g. rw same (v.handed_out x g);
  used = λ t x g. let (c, d) = v.used t x (old_order s.ledger m b t x g) in (rw same c, d);
  quiet = λ t x g. elim (r t x g) [
    | inl before ↦ old_queue s.ledger m b t x (v.quiet t x before)
    | inr now ↦ now
  ];
}

drop-CallsInv :
    (s : Calls) (target id : ℕ)
    → CallsInv s
    → CallsInv (record s {
      ledger = drop_pending s.ledger target id;
      at_rest = rest_of s.at_rest target id true;
    })
drop-CallsInv s target id v =
    let l = s.ledger in
    calm s (drop_pending l target id) (rest_of s.at_rest target id true) v
      (drop_pending-Inv l target id v.inner) (drop_pending-next_id l target id)
      (drop_pending-Brings l target id)
      λ t x g. elim (Bool-cases (t == target && x == id)) [
        | inl hit ↦
            let e : t ≡ target = ground arith in
            let e' : x ≡ id = ground arith in
            inr (rw (e, e') (drop_pending-drops l target id v.inner))
        | inr miss ↦ inl (rw miss at g)
      ]

claim-CallsInv :
    (s : Calls) (alloc : Alloc) (target id : ℕ)
    → CallsInv s
    → s.at_rest target id ≡ true
    → CallsInv (record s {
      ledger = (teardown_enter alloc s.ledger target id).0;
      at_rest = rest_of s.at_rest target id false;
    })
claim-CallsInv s alloc target id v h =
    let l = s.ledger in
    let same = teardown_enter-next_id alloc l target id in
    let a = teardown_enter-Asks alloc l target id in
    record {
      inner = teardown_enter-Inv alloc l target id v.inner (at_rest-NotQueued s target id v h);
      once = v.once;
      handed_out = λ x g. rw same (v.handed_out x g);
      used = λ t x g. let (c, d) = v.used t x (a.in_order t x g) in (rw same c, d);
      quiet = λ t x g.
          elim (Bool-cases (contains x (queue_of (teardown_enter alloc l target id).0 t))) [
            | inr away ↦ away
            | inl there ↦ elim (a.in_queue t x there) [
              | inl (e, e') ↦ absurd (ground arith)
              | inr old ↦ let k = v.quiet t x (ground arith) in absurd (ground arith)
            ]
          ];
    }

-- A section that leaves the hooks alone and the counter no lower.
aside :
    (s : Calls) (m : HookLedger)
    → CallsInv s
    → m.by_target ≡ s.ledger.by_target
    → s.ledger.next_id ≤ m.next_id
    → CallsInv (record s { ledger = m })
aside s m v same le = record {
  inner = rw same v.inner;
  once = v.once;
  handed_out = λ x g. omega (arith, le, v.handed_out x g);
  used = λ t x g. let (a, b) = v.used t x (rw same at g) in (omega (arith, le, a), b);
  quiet = λ t x g. rw same (v.quiet t x g);
}

Step-CallsInv : {s u : Calls} → Step s u → CallsInv s → CallsInv u
unfolding commit_hook release_teardown_slot release_vmt
Step-CallsInv {s} (fetches h) v = fetch-CallsInv s v h
Step-CallsInv {s} (reserves alloc target refuse id h) v =
    reserve-CallsInv s alloc target refuse id v h
Step-CallsInv {s} (commits target id) v = drop-CallsInv s target id v
Step-CallsInv {s} (releases target id) v =
    calm s (release_hook s.ledger target id).0 s.at_rest v
      (release_hook-Inv s.ledger target id v.inner) (release_hook-next_id s.ledger target id)
      (release_hook-Brings s.ledger target id) (λ t x g. inl g)
Step-CallsInv {s} (claims alloc target id h) v = claim-CallsInv s alloc target id v h
Step-CallsInv {s} (unclaims target id) v = drop-CallsInv s target id v
Step-CallsInv {s} (records alloc base h) v =
    aside s (try_record_vmt alloc s.ledger base).0 v (try_record_vmt-by_target alloc s.ledger base)
      (try_record_vmt-next_id alloc s.ledger base h)
Step-CallsInv {s} (forgets id) v =
    aside s (release_vmt s.ledger id) v (unfold release_vmt in refl)
      (unfold release_vmt in omega arith)

Reach-CallsInv : {s : Calls} → Reach no_calls s → CallsInv s
unfolding contains
Reach-CallsInv here = record {
  inner = λ target e q. cc;
  once = tt;
  handed_out = λ x h. absurd (ground arith);
  used = λ t x h. absurd (ground arith);
  quiet = λ t x h. refl;
}
Reach-CallsInv (next r s) = Step-CallsInv s (Reach-CallsInv r)

-- In every history of the ledger, the sections of any calls in any order and any allocation failing, where
-- the reservations take the ids that their calls fetched and a hook's teardown asks for its slot behind the
-- commit or the teardown that gave the slot up, a tracked target has at least one hook, no id
-- stands twice in its order or in its queue, whoever queues for its slot is one of its hooks, and each of
-- its ids was handed out; provided that the 64-bit counter of ids does not wrap.
pub tracked-EntryOk :
    {s : Calls} (target : ℕ) (e : TargetEntry)
    → Reach no_calls s
    → s.ledger.by_target target ≡ some e
    → EntryOk e × ((x : ℕ) → contains x e.order ≡ true → x < s.ledger.next_id)
tracked-EntryOk target e r found =
    let v = Reach-CallsInv r in (v.inner target e found, λ x h. (v.used target x (rw found h)).0)
