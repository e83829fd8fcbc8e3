-- ===== src/Gate/Keys.antt =====
-- KeyStateCache. `vk` is the code after its cast to unsigned, so a negative one is far out of range.
-- The samples are a function on codes; `live` is what the probe would answer, and the last part of the
-- result says whether it was asked.
use detour_mod_kit.Base.{
  ℕ, ◌<◌, ◌≡◌, ◌≢◌, refl, Bool, true, false, List, [], ◌∷◌, arith, leb, ◌==◌, if◌then◌else◌,
  Bool-cases, inl, inr, ◌∙◌, sym,
}

abbrev pub vk_count : ℕ
vk_count = 256

pub data Sample : Type 0 where
  unknown pressed_down released_up : Sample

abbrev pub KeyStateCache : Type 0
KeyStateCache = ℕ → Sample

unfoldable pub reset : KeyStateCache → KeyStateCache
reset c = λ vk. unknown

abbrev pub store : KeyStateCache → ℕ → Sample → KeyStateCache
store c vk s = λ k. if k == vk then s else c k

is_down : Sample → Bool
is_down pressed_down = true
is_down _ = false

pub record Reading : Type 0 where
  pub cache : KeyStateCache
  pub answer : Bool
  pub probed : Bool

in_range : KeyStateCache → ℕ → Bool → Sample → Reading
unfolding is_down
in_range c vk live unknown = record {
  cache = store c vk (if live then pressed_down else released_up);
  answer = live;
  probed = true;
}
in_range c vk live s = record { cache = c; answer = is_down s; probed = false }

unfoldable pub pressed : KeyStateCache → ℕ → Bool → Reading
unfolding in_range
pressed c vk live =
    if leb vk_count vk
    then record { cache = c; answer = false; probed = false }
    else in_range c vk live (c vk)

-- Later reads of the cycle, each with what its probe would answer at that time.
unfoldable pub read_all : KeyStateCache → List (ℕ × Bool) → KeyStateCache
read_all c [] = c
read_all c ((vk, live) ∷ reads) = read_all (pressed c vk live).cache reads

in_range-keeps :
    (c : KeyStateCache) (vk k : ℕ) (live : Bool) (s : Sample)
    → c vk ≡ s
    → c k ≢ unknown
    → (in_range c vk live s).cache k ≡ c k
unfolding in_range
in_range-keeps c vk k live unknown e h = elim (Bool-cases (k == vk)) [
  | inl same ↦ let q : k ≡ vk = ground arith in absurd (h (rw q e))
  | inr other ↦ rw other
]
in_range-keeps c vk k live pressed_down e h = refl
in_range-keeps c vk k live released_up e h = refl

-- A known sample stays.
pressed-keeps :
    (c : KeyStateCache) (vk k : ℕ) (live : Bool) → c k ≢ unknown → (pressed c vk live).cache k ≡ c k
unfolding pressed
pressed-keeps c vk k live h = elim (Bool-cases (leb vk_count vk)) [
  | inl outside ↦ rw outside
  | inr inside ↦ rw inside (in_range-keeps c vk k live (c vk) refl h)
]

read_all-keeps :
    (c : KeyStateCache) (reads : List (ℕ × Bool)) (k : ℕ) → c k ≢ unknown → read_all c reads k ≡ c k
unfolding read_all
read_all-keeps c [] k h = refl
read_all-keeps c ((vk, live) ∷ reads) k h =
    let same = pressed-keeps c vk k live h in
    read_all-keeps (pressed c vk live).cache reads k (λ e. h (sym same ∙ e)) ∙ same

abbrev taken : Bool → Sample
taken live = if live then pressed_down else released_up

taken-ne-unknown : (live : Bool) → taken live ≢ unknown
taken-ne-unknown true e = cc
taken-ne-unknown false e = cc

pressed-known :
    (c : KeyStateCache) (vk : ℕ) (first live : Bool)
    → vk < vk_count
    → c vk ≡ taken first
    → (pressed c vk live).answer ≡ first × ((pressed c vk live).probed ≡ false)
unfolding pressed in_range is_down
pressed-known c vk true live h e = rw e (ground arith)
pressed-known c vk false live h e = rw e (ground arith)

-- In one poll cycle a key is probed on its first read, and every later read of it, whatever else is
-- read in between and whatever the probe would say by then, gives the first answer unprobed.
pub pressed_coherent :
    (c : KeyStateCache) (vk : ℕ) (first live : Bool) (reads : List (ℕ × Bool))
    → vk < vk_count
    → let r = pressed (reset c) vk first in
      let later = pressed (read_all r.cache reads) vk live in
      (r.answer ≡ first) × (r.probed ≡ true) × (later.answer ≡ first) × (later.probed ≡ false)
unfolding reset
pressed_coherent c vk first live reads h =
    let r = pressed (reset c) vk first in
    let sample : r.cache vk ≡ taken first = unfold pressed in_range in ground arith in
    let kept =
      read_all-keeps r.cache reads vk (λ e. taken-ne-unknown first (sym sample ∙ e)) ∙ sample in
    let again = pressed-known (read_all r.cache reads) vk first live h kept in
    (
      unfold pressed in_range in ground arith,
      unfold pressed in_range in ground arith,
      again.0,
      again.1,
    )
