-- ===== src/Gate/Press.antt =====
-- PressGate: as HoldGate, with nothing to balance. `presses` counts the callback's calls, `released`
-- is also what the guard's release sets from inside one.
use detour_mod_kit.Base.{
  ℕ, ◌+◌, ◌≡◌, refl, Bool, true, false, not, List, [], ◌∷◌, Option, none, some, arith,
  if◌then◌else◌,
}

pub record PressGate : Type 0 where
  pub enabled : Option Bool
  pub has_callback : Bool
  pub released : Bool
  pub presses : ℕ

unfoldable pub release : PressGate → PressGate
release g = record g { released = true }

is_disabled : Option Bool → Bool
is_disabled none = false
is_disabled (some on) = not on

-- The argument says whether the callback releases its own guard.
unfoldable pub deliver : Bool → PressGate → PressGate
unfolding is_disabled release
deliver self_release g =
    let pressed : PressGate = record g { presses = g.presses + 1 } in
    if g.released
    then g
    else if is_disabled g.enabled
    then g
    else if not g.has_callback
    then g
    else if self_release
    then release pressed
    else pressed

unfoldable pub deliver_all : List Bool → PressGate → PressGate
deliver_all [] g = g
deliver_all (b ∷ bs) g = deliver_all bs (deliver b g)

deliver-released : (b : Bool) (g : PressGate) → g.released ≡ true → deliver b g ≡ g
unfolding deliver
deliver-released b g h = ground arith

deliver_all-released : (bs : List Bool) (g : PressGate) → g.released ≡ true → deliver_all bs g ≡ g
unfolding deliver_all
deliver_all-released [] g h = refl
deliver_all-released (b ∷ bs) g h =
    let q = deliver-released b g h in rw q (deliver_all-released bs g h)

-- A press that releases its own guard from its callback is the last: on a live gate it is delivered
-- once, and no later edge reaches the callback.
pub one_shot :
    (g : PressGate) (bs : List Bool)
    → g.released ≡ false
    → g.enabled ≡ some true
    → g.has_callback ≡ true
    → (deliver_all (true ∷ bs) g).presses ≡ g.presses + 1
unfolding deliver_all
one_shot g bs a b c =
    let once : (deliver true g).presses ≡ g.presses + 1 = unfold deliver in ground arith in
    let done : (deliver true g).released ≡ true = unfold deliver in ground arith in
    rw (deliver_all-released bs (deliver true g) done) once
