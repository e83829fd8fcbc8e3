-- ===== src/Input/Bindings/Names.antt =====
-- Which entries of an InputPoller of internal/input_poller.cpp a name has, and how that goes with a change of
-- the list.
use detour_mod_kit.Base.{
  ◌≡◌, inl, inr, refl, sym, ap, ◌∙◌, true, false, List, [], ◌∷◌, ◌++◌, Bool-cases, arith,
}
use detour_mod_kit.Text.{Text, text_eq, text_eq_refl, eq_of_text_eq}
use detour_mod_kit.Input.{Entry}
use detour_mod_kit.Input.Bindings.{
  KeyCombo, named, with_name, without_name, rewrite_combos, fresh_entries, appended,
}

named_apart :
    (name other : Text) (e : Entry)
    → text_eq name other ≡ false
    → named name e ≡ true
    → named other e ≡ false
unfolding named
named_apart name other e d h = elim (Bool-cases (named other e)) [
  | inl q ↦
      let a : text_eq e.binding.name name ≡ true = ground arith in
      let b : text_eq e.binding.name other ≡ true = ground arith in
      let same : name ≡ other =
        sym (eq_of_text_eq e.binding.name name a) ∙ eq_of_text_eq e.binding.name other b in
      let t : text_eq name other ≡ true = rw same (text_eq_refl other) in ground arith
  | inr q ↦ q
]

pub with_name-append :
    (name : Text) (es ds : List Entry)
    → with_name name (es ++ ds) ≡ with_name name es ++ with_name name ds
unfolding with_name
with_name-append name [] ds = refl
with_name-append name (e ∷ es) ds =
    let h = with_name-append name es ds in
    elim (Bool-cases (named name e)) [ inl q ↦ rw q (ap (λ r. e ∷ r) h) | inr q ↦ rw q h ]

pub with_name-without_name :
    (name : Text) (es : List Entry) → with_name name (without_name name es) ≡ []
unfolding with_name without_name
with_name-without_name name [] = refl
with_name-without_name name (e ∷ es) =
    let h = with_name-without_name name es in
    elim (Bool-cases (named name e)) [ inl q ↦ rw q h | inr q ↦ rw (q, q) h ]

-- The first entry of a name has the name.
pub found-named :
    (name : Text) (es : List Entry) (first : Entry) (more : List Entry)
    → with_name name es ≡ first ∷ more
    → named name first ≡ true
unfolding with_name
found-named name [] first more h = ground arith
found-named name (e ∷ es) first more h = elim (Bool-cases (named name e)) [
  | inl q ↦
      let g : e ∷ with_name name es ≡ first ∷ more = rw q at h in
      let same : e ≡ first = ground arith in rw⁻¹ same q
  | inr q ↦ found-named name es first more (rw q at h)
]

module _ (other : Text) where
  pub rewrite_combos-other :
      (name : Text) (combos : List KeyCombo) (es : List Entry)
      → text_eq name other ≡ false
      → with_name other (rewrite_combos name combos es) ≡ with_name other es
  unfolding with_name rewrite_combos named
  rewrite_combos-other name combos [] d = refl
  rewrite_combos-other name [] (e ∷ es) d = refl
  rewrite_combos-other name (c ∷ cs) (e ∷ es) d =
      let here = rewrite_combos-other name cs es d in
      let later = rewrite_combos-other name (c ∷ cs) es d in
      elim (Bool-cases (named name e)) [
        | inl q ↦ let n = named_apart name other e d q in rw (q, n) here
        | inr q ↦ rw (q, later) refl
      ]

  pub without_name-other :
      (name : Text) (es : List Entry)
      → text_eq name other ≡ false
      → with_name other (without_name name es) ≡ with_name other es
  unfolding with_name without_name
  without_name-other name [] d = refl
  without_name-other name (e ∷ es) d =
      let h = without_name-other name es d in
      elim (Bool-cases (named name e)) [
        | inl q ↦ rw (q, named_apart name other e d q) h
        | inr q ↦ rw (q, h) refl
      ]

module _ (name : Text) (e : Entry) (h : named name e ≡ true) where
  fresh_entries-named :
      (cs : List KeyCombo)
      → with_name name (fresh_entries e.binding cs) ≡ fresh_entries e.binding cs
  unfolding with_name fresh_entries named
  fresh_entries-named [] = refl
  fresh_entries-named (c ∷ cs) = let r = fresh_entries-named cs in rw (h, r) refl

  pub appended-named :
      (cs : List KeyCombo) → with_name name (appended e.binding cs) ≡ appended e.binding cs
  unfolding with_name named
  appended-named [] = rw h refl
  appended-named (c ∷ cs) = fresh_entries-named (c ∷ cs)

  fresh_entries-other :
      (other : Text) (cs : List KeyCombo)
      → text_eq name other ≡ false
      → with_name other (fresh_entries e.binding cs) ≡ []
  unfolding with_name fresh_entries named
  fresh_entries-other other [] d = refl
  fresh_entries-other other (c ∷ cs) d =
      let n = named_apart name other e d h in rw n (fresh_entries-other other cs d)

  pub appended-other :
      (other : Text) (cs : List KeyCombo)
      → text_eq name other ≡ false
      → with_name other (appended e.binding cs) ≡ []
  unfolding with_name named
  appended-other other [] d = let n = named_apart name other e d h in rw n refl
  appended-other other (c ∷ cs) d = fresh_entries-other other (c ∷ cs) d
