-- ===== src/Input/Bindings/Balance/Operations.antt =====
-- What each operation of an InputPoller of internal/input_poller.cpp tells the callbacks of holds.
use detour_mod_kit.Base.{
  ℕ, ◌≡◌, refl, Bool, true, false, List, [], ◌∷◌, ◌++◌, map, arith, ◌==◌, if◌then◌else◌, Bool-cases,
  inl, inr, length,
}
use detour_mod_kit.Text.{Text}
use detour_mod_kit.Input.{InputBinding, Entry, Call}
use detour_mod_kit.Input.Bindings.{
  KeyCombo, Poller, recompute, with_name, without_name, release_calls, rewrite_combos, appended,
  update_named, inactive, any_entry, owned_by, add_bindings, remove_named, clear_bindings,
  release_active_holds, set_named_consume, set_consume, set_owned_consume, set_consume_by_owner,
}
use detour_mod_kit.Input.Bindings.Rebuild.{recompute-entries}
use detour_mod_kit.Input.Bindings.Balance.{
  told, active_holds, active_holds-append, Balanced, unchanged,
}
use detour_mod_kit.Input.Bindings.Balance.Reshapes.{
  active_holds-split, told-release_calls, active_holds-rewrite_combos, active_holds-appended,
  active_holds-inactive, active_holds-deactivate, active_holds-set_named_consume,
  active_holds-set_owned_consume,
}

same_holds :
    (f : ℕ) (es ds : List Entry) → active_holds f ds ≡ active_holds f es → Balanced f [] es ds
unfolding Balanced told
same_holds f es ds q = omega (arith, q)

-- A rebuild puts `ds` in place.
rebuilt :
    (f : ℕ) (memory : Bool) (drawn : ℕ) (cs : List Call) (es ds : List Entry) (p : Poller)
    → Balanced f cs es ds
    → Balanced f cs es (recompute memory drawn ds p).entries
rebuilt f memory drawn cs es ds p h = rw (recompute-entries memory drawn ds p) h

rebuilt_same :
    (f : ℕ) (memory : Bool) (drawn : ℕ) (es ds : List Entry) (p : Poller)
    → active_holds f ds ≡ active_holds f es
    → Balanced f [] es (recompute memory drawn ds p).entries
rebuilt_same f memory drawn es ds p q = rebuilt f memory drawn [] es ds p (same_holds f es ds q)

-- The entries of a name leave, and are released, for others that are not active.
replaced :
    (f : ℕ) (name : Text) (es found fresh : List Entry)
    → with_name name es ≡ found
    → active_holds f fresh ≡ 0
    → Balanced f (release_calls found) es (without_name name es ++ fresh)
unfolding Balanced
replaced f name es found fresh q z =
    let whole = active_holds-split f name es in
    let r = told-release_calls f found in
    let a = active_holds-append f (without_name name es) fresh in
    omega (arith, rw q at whole, r.0, r.1, a, z)

removed :
    (f : ℕ) (name : Text) (es found : List Entry)
    → with_name name es ≡ found
    → Balanced f (release_calls found) es (without_name name es)
unfolding Balanced
removed f name es found q =
    let whole = active_holds-split f name es in
    let r = told-release_calls f found in omega (arith, rw q at whole, r.0, r.1)

update_named-Balanced :
    (f : ℕ) (memory caches : Bool) (drawn : ℕ) (name : Text) (combos : List KeyCombo)
    (found : List Entry) (p : Poller)
    → with_name name p.entries ≡ found
    → let r = update_named memory caches drawn name combos found p in
      Balanced f r.2 p.entries r.0.entries
unfolding update_named
update_named-Balanced f memory caches drawn name combos [] p q = unchanged f p.entries
update_named-Balanced f false caches drawn name combos (e ∷ es) p q = unchanged f p.entries
update_named-Balanced f true caches drawn name combos (e ∷ es) p q =
    elim (Bool-cases (length (e ∷ es) == length combos)) [
      | inl c ↦ rw c (
          rebuilt_same f caches drawn p.entries (rewrite_combos name combos p.entries) p
            (active_holds-rewrite_combos f name combos p.entries))
      | inr c ↦ rw c (
          rebuilt f caches drawn (release_calls (e ∷ es)) p.entries
            (without_name name p.entries ++ appended e.binding combos) p
            (replaced f name p.entries (e ∷ es) (appended e.binding combos) q
              (active_holds-appended f e.binding combos)))
    ]

pub update_found-Balanced :
    (f : ℕ) (memory caches : Bool) (drawn : ℕ) (name : Text) (combos : List KeyCombo) (p : Poller)
    (indexed : Bool)
    → let r =
        update_named memory caches drawn name combos
          (if indexed then with_name name p.entries else [])
          p in
      Balanced f r.2 p.entries r.0.entries
unfolding update_named
update_found-Balanced f memory caches drawn name combos p true =
    update_named-Balanced f memory caches drawn name combos (with_name name p.entries) p refl
update_found-Balanced f memory caches drawn name combos p false = unchanged f p.entries

pub add_bindings-Balanced :
    (f : ℕ) (memory caches : Bool) (drawn : ℕ) (bs : List InputBinding) (p : Poller)
    → Balanced f [] p.entries (add_bindings memory caches drawn bs p).0.entries
unfolding add_bindings
add_bindings-Balanced f memory caches drawn [] p = unchanged f p.entries
add_bindings-Balanced f false caches drawn (b ∷ bs) p = unchanged f p.entries
add_bindings-Balanced f true caches drawn (b ∷ bs) p =
    rebuilt_same f caches drawn p.entries (p.entries ++ map inactive (b ∷ bs)) p (
      omega (
        arith,
        active_holds-append f p.entries (map inactive (b ∷ bs)),
        active_holds-inactive f (b ∷ bs),
      ))

remove_named-Balanced :
    (f : ℕ) (memory caches : Bool) (drawn : ℕ) (name : Text) (found : List Entry) (p : Poller)
    → with_name name p.entries ≡ found
    → let r = remove_named memory caches drawn name true found p in
      Balanced f r.2 p.entries r.0.entries
unfolding remove_named
remove_named-Balanced f memory caches drawn name [] p q = unchanged f p.entries
remove_named-Balanced f false caches drawn name (e ∷ es) p q = unchanged f p.entries
remove_named-Balanced f true caches drawn name (e ∷ es) p q =
    rebuilt f caches drawn (release_calls (e ∷ es)) p.entries (without_name name p.entries) p
      (removed f name p.entries (e ∷ es) q)

pub remove_found-Balanced :
    (f : ℕ) (memory caches : Bool) (drawn : ℕ) (name : Text) (p : Poller) (indexed : Bool)
    → let r =
        remove_named memory caches drawn name true
          (if indexed then with_name name p.entries else [])
          p in
      Balanced f r.2 p.entries r.0.entries
unfolding remove_named
remove_found-Balanced f memory caches drawn name p true =
    remove_named-Balanced f memory caches drawn name (with_name name p.entries) p refl
remove_found-Balanced f memory caches drawn name p false = unchanged f p.entries

pub clear_bindings-Balanced :
    (f : ℕ) (memory : Bool) (drawn : ℕ) (p : Poller)
    → let r = clear_bindings memory drawn true p in Balanced f r.1 p.entries r.0.entries
unfolding clear_bindings Balanced active_holds
clear_bindings-Balanced f false drawn p = unchanged f p.entries
clear_bindings-Balanced f true drawn p =
    let r = told-release_calls f p.entries in omega (arith, r.0, r.1)

pub release-Balanced :
    (f : ℕ) (p : Poller) → let r = release_active_holds p in Balanced f r.1 p.entries r.0.entries
unfolding release_active_holds Balanced
release-Balanced f p =
    let r = told-release_calls f p.entries in
    omega (arith, r.0, r.1, active_holds-deactivate f p.entries)

pub set_consume-Balanced :
    (f : ℕ) (caches : Bool) (drawn : ℕ) (name : Text) (consume : Bool) (p : Poller)
    → Balanced f [] p.entries (set_consume caches drawn name consume p).entries
unfolding set_consume
set_consume-Balanced f caches drawn name consume p =
    go (if p.indexed then with_name name p.entries else [])
  where
    go :
        (found : List Entry)
        → Balanced f [] p.entries
            (elim found as (λ x. Poller) [
              | [] ↦ p
              | e ∷ es ↦ recompute caches drawn (set_named_consume name consume p.entries) p
            ]).entries
    go [] = unchanged f p.entries
    go (e ∷ es) =
        rebuilt_same f caches drawn p.entries (set_named_consume name consume p.entries) p
          (active_holds-set_named_consume f name consume p.entries)

pub set_consume_by_owner-Balanced :
    (f : ℕ) (caches : Bool) (drawn owner : ℕ) (consume : Bool) (p : Poller)
    → Balanced f [] p.entries (set_consume_by_owner caches drawn owner consume p).entries
unfolding set_consume_by_owner
set_consume_by_owner-Balanced f caches drawn owner consume p = elim (Bool-cases (owner == 0)) [
  | inl q ↦ rw q (unchanged f p.entries)
  | inr q ↦ rw q (elim (Bool-cases (any_entry (owned_by owner consume) p.entries)) [
    | inl a ↦ rw a (
        rebuilt_same f caches drawn p.entries (set_owned_consume owner consume p.entries) p
          (active_holds-set_owned_consume f owner consume p.entries))
    | inr a ↦ rw a (unchanged f p.entries)
  ])
]
