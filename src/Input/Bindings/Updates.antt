-- ===== src/Input/Bindings/Updates.antt =====
-- What update_combos of internal/input_poller.cpp makes of the entries of a name, and of the others.
use detour_mod_kit.Base.{
  ℕ, ◌≡◌, inl, inr, refl, ap, ◌∙◌, Bool, true, false, List, [], ◌∷◌, ◌++◌, ◌==◌, ==_iff,
  if◌then◌else◌, Bool-cases, arith, length, map, append-nil,
}
use detour_mod_kit.Text.{Text, text_eq}
use detour_mod_kit.Input.{InputBinding, Entry}
use detour_mod_kit.Input.Bindings.Rebuild.{recompute-entries}
use detour_mod_kit.Input.Bindings.{
  KeyCombo, Poller, named, with_name, without_name, rewrite_combos, fresh_entries, appended,
  no_combo, update_named, update_combos,
}
use detour_mod_kit.Input.Bindings.Names.{
  with_name-append, with_name-without_name, found-named, rewrite_combos-other, without_name-other,
  appended-named, appended-other,
}

unfoldable pub combo_of : Entry → KeyCombo
combo_of e = record { keys = e.binding.keys; modifiers = e.binding.modifiers }

rewrite_combos-combos :
    (name : Text) (cs : List KeyCombo) (es : List Entry)
    → length (with_name name es) ≡ length cs
    → map combo_of (with_name name (rewrite_combos name cs es)) ≡ cs
unfolding rewrite_combos with_name combo_of named
rewrite_combos-combos name [] [] l = refl
rewrite_combos-combos name (c ∷ cs) [] l = ground arith
rewrite_combos-combos name [] (e ∷ es) l = go (with_name name (e ∷ es)) l
  where
    go : (ds : List Entry) → length ds ≡ 0 → map combo_of ds ≡ []
    go [] q = refl
    go (d ∷ ds) q = ground arith
rewrite_combos-combos name (c ∷ cs) (e ∷ es) l = elim (Bool-cases (named name e)) [
  | inl q ↦
      let l' : length (with_name name es) ≡ length cs = let k = rw q at l in omega (arith, k) in
      rw (q, q) (ap (λ r. c ∷ r) (rewrite_combos-combos name cs es l'))
  | inr q ↦ rw (q, q) (rewrite_combos-combos name (c ∷ cs) es (rw q at l))
]

fresh_entries-combos :
    (b : InputBinding) (cs : List KeyCombo) → map combo_of (fresh_entries b cs) ≡ cs
unfolding fresh_entries combo_of
fresh_entries-combos b [] = refl
fresh_entries-combos b (c ∷ cs) = ap (λ r. c ∷ r) (fresh_entries-combos b cs)

-- The combos that a name has after a replacement, which an empty one keeps addressable.
unfoldable pub or_none : List KeyCombo → List KeyCombo
or_none [] = no_combo ∷ []
or_none (c ∷ cs) = c ∷ cs

appended-combos :
    (b : InputBinding) (cs : List KeyCombo) → map combo_of (appended b cs) ≡ or_none cs
unfolding combo_of or_none
appended-combos b [] = refl
appended-combos b (c ∷ cs) = fresh_entries-combos b (c ∷ cs)

update_named-combos :
    (memory caches : Bool) (drawn : ℕ) (name : Text) (combos : List KeyCombo) (found : List Entry)
    (p : Poller)
    → with_name name p.entries ≡ found
    → let r = update_named memory caches drawn name combos found p in
      r.1 ≡ true → map combo_of (with_name name r.0.entries) ≡ or_none combos
unfolding update_named
update_named-combos memory caches drawn name combos [] p q t = ground arith
update_named-combos false caches drawn name combos (e ∷ es) p q t = ground arith
update_named-combos true caches drawn name combos (e ∷ es) p q t =
    elim (Bool-cases (length (e ∷ es) == length combos)) [
      | inl l ↦
          rw (l, recompute-entries caches drawn (rewrite_combos name combos p.entries) p)
            (rewrite_combos-combos name combos p.entries (ap length q ∙ (==_iff _ _).0 l)
              ∙ some_combo combos l)
      | inr l ↦
          let n = found-named name p.entries e es q in
          rw
            (
              l,
              recompute-entries caches drawn
                  (without_name name p.entries ++ appended e.binding combos) p,
              with_name-append name (without_name name p.entries) (appended e.binding combos),
              with_name-without_name name p.entries,
              appended-named name e n combos,
            )
            (appended-combos e.binding combos)
    ]
  where
    some_combo : (cs : List KeyCombo) → (length (e ∷ es) == length cs) ≡ true → cs ≡ or_none cs
    some_combo [] l = ground arith
    some_combo (c ∷ cs) l = unfold or_none in refl

update_named-other :
    (memory caches : Bool) (drawn : ℕ) (name : Text) (combos : List KeyCombo) (found : List Entry)
    (p : Poller) (other : Text)
    → with_name name p.entries ≡ found
    → text_eq name other ≡ false
    → with_name other (update_named memory caches drawn name combos found p).0.entries
      ≡ with_name other p.entries
unfolding update_named
update_named-other memory caches drawn name combos [] p other q d = refl
update_named-other false caches drawn name combos (e ∷ es) p other q d = refl
update_named-other true caches drawn name combos (e ∷ es) p other q d =
    elim (Bool-cases (length (e ∷ es) == length combos)) [
      | inl l ↦
          rw (l, recompute-entries caches drawn (rewrite_combos name combos p.entries) p)
            (rewrite_combos-other other name combos p.entries d)
      | inr l ↦
          let n = found-named name p.entries e es q in
          rw
            (
              l,
              recompute-entries caches drawn
                  (without_name name p.entries ++ appended e.binding combos) p,
              with_name-append other (without_name name p.entries) (appended e.binding combos),
              appended-other name e n other combos d,
              without_name-other other name p.entries d,
            )
            (append-nil (with_name other p.entries))
    ]

found_by :
    (memory caches : Bool) (drawn : ℕ) (name : Text) (combos : List KeyCombo) (p : Poller)
    (indexed : Bool)
    → let r =
        update_named memory caches drawn name combos
          (if indexed then with_name name p.entries else [])
          p in
      r.1 ≡ true → map combo_of (with_name name r.0.entries) ≡ or_none combos
unfolding update_named
found_by memory caches drawn name combos p true t =
    update_named-combos memory caches drawn name combos (with_name name p.entries) p refl t
found_by memory caches drawn name combos p false t = ground arith

found_other :
    (memory caches : Bool) (drawn : ℕ) (name : Text) (combos : List KeyCombo) (p : Poller)
    (other : Text) (indexed : Bool)
    → text_eq name other ≡ false
    → let r =
        update_named memory caches drawn name combos
          (if indexed then with_name name p.entries else [])
          p in
      with_name other r.0.entries ≡ with_name other p.entries
unfolding update_named
found_other memory caches drawn name combos p other true d =
    update_named-other memory caches drawn name combos (with_name name p.entries) p other refl d
found_other memory caches drawn name combos p other false d = refl

-- After an update that reports success the entries of the name have the combos that were given, in order,
-- however many it had before; none given leaves it one entry with no keys, so that a later update finds it.
pub update_combos-combos :
    (memory caches : Bool) (drawn : ℕ) (name : Text) (combos : List KeyCombo) (p : Poller)
    → (update_combos memory caches drawn name combos p).1 ≡ true
    → map combo_of (with_name name (update_combos memory caches drawn name combos p).0.entries)
      ≡ or_none combos
unfolding update_combos
update_combos-combos memory caches drawn name combos p t =
    found_by memory caches drawn name combos p p.indexed t

-- An update of one name leaves the entries of every other name, their callbacks and active states with
-- them, in their order.
pub update_combos-other :
    (memory caches : Bool) (drawn : ℕ) (name : Text) (combos : List KeyCombo) (p : Poller)
    (other : Text)
    → text_eq name other ≡ false
    → with_name other (update_combos memory caches drawn name combos p).0.entries
      ≡ with_name other p.entries
unfolding update_combos
update_combos-other memory caches drawn name combos p other d =
    found_other memory caches drawn name combos p other p.indexed d
