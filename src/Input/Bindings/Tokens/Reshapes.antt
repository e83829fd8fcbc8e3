-- ===== src/Input/Bindings/Tokens/Reshapes.antt =====
-- What keeps the bindings of an InputPoller of internal/input_poller.cpp as they are, and what draws a new
-- generation.
use detour_mod_kit.Base.{
  All, ℕ, ◌≡◌, ◌≢◌, inl, inr, refl, ap, ◌∙◌, Bool, true, false, List, [], ◌∷◌, map, ◌==◌,
  if◌then◌else◌, Bool-cases, length,
}
use detour_mod_kit.Text.{Text}
use detour_mod_kit.Input.{InputCode, InputBinding, Sample, Entry, Call}
use detour_mod_kit.Input.Cycle.{
  Claims, no_claims, evaluate, edge_calls, can_stage, Pass, pass_entry, pass_over, poll_cycle,
}
use detour_mod_kit.Input.Bindings.{
  KeyCombo, Poller, recompute, with_name, update_named, update_combos, any_entry, owned_by,
  add_bindings, remove_named, remove_bindings_by_name, clear_bindings, deactivate,
  release_active_holds, set_named_consume, set_consume, set_consume_by_owner,
}
use detour_mod_kit.Input.Bindings.History.{
  Op, cycle, update, add, remove, clear, release, consume_named, consume_owned, apply, run,
}

abbrev pub binding_of : Entry → InputBinding
binding_of e = e.binding

-- The same bindings, whatever is active.
unfoldable pub Same : Poller → Poller → Type 0
Same p q = (map binding_of q.entries ≡ map binding_of p.entries) × (q.indexed ≡ p.indexed)

-- Where the generation of `q` is `g`, so is that of `p`, and both have the same bindings.
unfoldable pub Kept : ℕ → Poller → Poller → Type 0
unfolding Same
Kept g p q = q.generation ≡ g → (p.generation ≡ g) × Same p q

unchanged : (g : ℕ) (p : Poller) → Kept g p p
unfolding Kept Same
unchanged g p h = (h, (refl, refl))

redrawn :
    (g : ℕ) (p : Poller) (memory : Bool) (drawn : ℕ) (es : List Entry) (r : Poller)
    → drawn ≢ g
    → Kept g p (recompute memory drawn es r)
unfolding Kept recompute
redrawn g p true drawn es r d h = elim (d h) [ ]
redrawn g p false drawn es r d h = elim (d h) [ ]

pass_entry-bindings :
    (ks : List InputCode) (staging : Bool) (e : Entry) (es : List Entry) (r : Bool × Claims)
    (cs : List Call) (rest further : Pass)
    → map binding_of rest.entries ≡ map binding_of es
    → map binding_of further.entries ≡ map binding_of es
    → map binding_of (pass_entry ks staging e es r cs rest further).entries
      ≡ map binding_of (e ∷ es)
unfolding pass_entry
pass_entry-bindings [] staging e es r cs rest further h k = ap (λ x. e.binding ∷ x) h
pass_entry-bindings (c ∷ ks) false e es r cs rest further h k = refl
pass_entry-bindings (c ∷ ks) true e es r cs rest further h k = ap (λ x. e.binding ∷ x) k

pass_over-bindings :
    (memory : Call → Bool) (focused : Bool) (s : Sample) (known : List InputCode) (es : List Entry)
    (c : Claims)
    → map binding_of (pass_over memory focused s known es c).entries ≡ map binding_of es
unfolding pass_over
pass_over-bindings memory focused s known [] c = refl
pass_over-bindings memory focused s known (e ∷ es) c =
    let r = evaluate focused s known e.binding c in
    let staged = edge_calls e.binding.trigger e.binding e.active r.0 in
    pass_entry-bindings e.binding.keys (can_stage memory staged) e es r staged _ _
      (pass_over-bindings memory focused s known es c)
      (pass_over-bindings memory focused s known es r.1)

poll_cycle-bindings :
    (reserves : Bool) (memory : Call → Bool) (focused : Bool) (s : Sample) (known : List InputCode)
    (es : List Entry)
    → map binding_of (poll_cycle reserves memory focused s known es).entries ≡ map binding_of es
unfolding poll_cycle
poll_cycle-bindings false memory focused s known es = refl
poll_cycle-bindings true memory focused s known es =
    let h = pass_over-bindings memory focused s known es no_claims in
    elim (Bool-cases (pass_over memory focused s known es no_claims).broken) [
      | inl q ↦ rw q h
      | inr q ↦ rw q h
    ]

map-deactivate : (es : List Entry) → map binding_of (map deactivate es) ≡ map binding_of es
map-deactivate [] = refl
map-deactivate (e ∷ es) = ap (λ x. e.binding ∷ x) (map-deactivate es)

update_named-Kept :
    (g : ℕ) (memory caches : Bool) (drawn : ℕ) (name : Text) (combos : List KeyCombo)
    (found : List Entry) (p : Poller)
    → drawn ≢ g
    → Kept g p (update_named memory caches drawn name combos found p).0
unfolding update_named
update_named-Kept g memory caches drawn name combos [] p d = unchanged g p
update_named-Kept g false caches drawn name combos (e ∷ es) p d = unchanged g p
update_named-Kept g true caches drawn name combos (e ∷ es) p d =
    elim (Bool-cases (length (e ∷ es) == length combos)) [
      | inl q ↦ rw q (redrawn g p caches drawn _ p d)
      | inr q ↦ rw q (redrawn g p caches drawn _ p d)
    ]

add_bindings-Kept :
    (g : ℕ) (memory caches : Bool) (drawn : ℕ) (bs : List InputBinding) (p : Poller)
    → drawn ≢ g
    → Kept g p (add_bindings memory caches drawn bs p).0
unfolding add_bindings
add_bindings-Kept g memory caches drawn [] p d = unchanged g p
add_bindings-Kept g true caches drawn (b ∷ bs) p d = redrawn g p caches drawn _ p d
add_bindings-Kept g false caches drawn (b ∷ bs) p d = unchanged g p

remove_named-Kept :
    (g : ℕ) (memory caches : Bool) (drawn : ℕ) (name : Text) (invoke : Bool) (found : List Entry)
    (p : Poller)
    → drawn ≢ g
    → Kept g p (remove_named memory caches drawn name invoke found p).0
unfolding remove_named
remove_named-Kept g memory caches drawn name invoke [] p d = unchanged g p
remove_named-Kept g true caches drawn name invoke (e ∷ es) p d = redrawn g p caches drawn _ p d
remove_named-Kept g false caches drawn name invoke (e ∷ es) p d = unchanged g p

clear_bindings-Kept :
    (g : ℕ) (memory : Bool) (drawn : ℕ) (invoke : Bool) (p : Poller)
    → drawn ≢ g
    → Kept g p (clear_bindings memory drawn invoke p).0
unfolding clear_bindings Kept Same
clear_bindings-Kept g true drawn invoke p d h = elim (d h) [ ]
clear_bindings-Kept g false drawn invoke p d h = (h, (refl, refl))

set_consume-Kept :
    (g : ℕ) (caches : Bool) (drawn : ℕ) (name : Text) (consume : Bool) (p : Poller)
    → drawn ≢ g
    → Kept g p (set_consume caches drawn name consume p)
unfolding set_consume
set_consume-Kept g caches drawn name consume p d =
    go (if p.indexed then with_name name p.entries else [])
  where
    go :
        (found : List Entry)
        → Kept g p (elim found as (λ x. Poller) [
          | [] ↦ p
          | e ∷ es ↦ recompute caches drawn (set_named_consume name consume p.entries) p
        ])
    go [] = unchanged g p
    go (e ∷ es) = redrawn g p caches drawn _ p d

set_consume_by_owner-Kept :
    (g : ℕ) (caches : Bool) (drawn owner : ℕ) (consume : Bool) (p : Poller)
    → drawn ≢ g
    → Kept g p (set_consume_by_owner caches drawn owner consume p)
unfolding set_consume_by_owner
set_consume_by_owner-Kept g caches drawn owner consume p d = elim (Bool-cases (owner == 0)) [
  | inl q ↦ rw q (unchanged g p)
  | inr q ↦ rw q (elim (Bool-cases (any_entry (owned_by owner consume) p.entries)) [
    | inl a ↦ rw a (redrawn g p caches drawn _ p d)
    | inr a ↦ rw a (unchanged g p)
  ])
]

-- The generation that a rebuild draws is another one than this.
unfoldable pub DrawsAnew : ℕ → Op → Type 0
DrawsAnew g (cycle reserves memory focused s) = Unit
DrawsAnew g release = Unit
DrawsAnew g (update memory caches drawn name combos) = drawn ≢ g
DrawsAnew g (add memory caches drawn bs) = drawn ≢ g
DrawsAnew g (remove memory caches drawn name invoke) = drawn ≢ g
DrawsAnew g (clear memory drawn invoke) = drawn ≢ g
DrawsAnew g (consume_named caches drawn name consume) = drawn ≢ g
DrawsAnew g (consume_owned caches drawn owner consume) = drawn ≢ g

apply-Kept : (g : ℕ) (o : Op) (p : Poller) → DrawsAnew g o → Kept g p (apply o p).0
unfolding apply DrawsAnew update_combos remove_bindings_by_name release_active_holds
apply-Kept g (cycle reserves memory focused s) p t =
    unfold Kept in
    unfold Same in
    λ h. (h, (poll_cycle-bindings reserves memory focused s p.known_modifiers p.entries, refl))
apply-Kept g release p t = unfold Kept in unfold Same in λ h. (h, (map-deactivate p.entries, refl))
apply-Kept g (update memory caches drawn name combos) p t =
    update_named-Kept g memory caches drawn name combos _ p t
apply-Kept g (add memory caches drawn bs) p t = add_bindings-Kept g memory caches drawn bs p t
apply-Kept g (remove memory caches drawn name invoke) p t =
    remove_named-Kept g memory caches drawn name invoke _ p t
apply-Kept g (clear memory drawn invoke) p t = clear_bindings-Kept g memory drawn invoke p t
apply-Kept g (consume_named caches drawn name consume) p t =
    set_consume-Kept g caches drawn name consume p t
apply-Kept g (consume_owned caches drawn owner consume) p t =
    set_consume_by_owner-Kept g caches drawn owner consume p t

Kept-trans : (g : ℕ) (p q r : Poller) → Kept g p q → Kept g q r → Kept g p r
unfolding Kept Same
Kept-trans g p q r h k e =
    let second = k e in
    let first = h second.0 in (first.0, (second.1.0 ∙ first.1.0, second.1.1 ∙ first.1.1))

pub run-Kept : (g : ℕ) (os : List Op) (p : Poller) → All (DrawsAnew g) os → Kept g p (run os p).0
unfolding run
run-Kept g [] p t = unchanged g p
run-Kept g (o ∷ os) p t =
    let q = (apply o p).0 in
    Kept-trans g p q (run os q).0 (apply-Kept g o p t.0) (run-Kept g os q t.1)
