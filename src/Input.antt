-- ===== src/Input.antt =====
-- The input poll engine: src/internal/input_poller.cpp with InputBinding of its header, InputCode of
-- include/DetourModKit/input_codes.hpp and the wheel and suppression steps of
-- src/internal/input_intercept.cpp. This file has the data and how one code is read. A code is a natural
-- number. The keyboard is one function for a poll cycle, which the key cache makes of it.
pub mod Cycle
pub mod Bindings
pub mod Intercept
use Prim.Native.Nat.{bit_or}
use detour_mod_kit.Base.{
  ℕ, zero, suc, ◌+◌, ◌-◌, ◌^◌, Bool, true, false, not, ◌&&◌, ◌||◌, List, [], ◌∷◌, Option, none,
  some, bit_and, ltb, leb, ◌==◌, if◌then◌else◌,
}
use detour_mod_kit.Base.Int.{ℤ, pos, negsuc}
use detour_mod_kit.Text.{Text}

pub data InputSource : Type 0 where
  keyboard mouse gamepad mouse_wheel : InputSource

pub record InputCode : Type 0 where
  pub source : InputSource
  pub code : ℕ

pub data Trigger : Type 0 where
  press hold : Trigger

-- A callback is the number that it is known by; `none` is an empty function.
pub record InputBinding : Type 0 where
  pub name : Text
  pub keys : List InputCode
  pub modifiers : List InputCode
  pub trigger : Trigger
  pub consume : Bool
  pub consume_owner : ℕ
  pub on_press : Option ℕ
  pub on_state_change : Option ℕ

pub record Gamepad : Type 0 where
  pub buttons : ℕ
  pub left_trigger : ℕ
  pub right_trigger : ℕ
  pub left_x : ℤ
  pub left_y : ℤ
  pub right_x : ℤ
  pub right_y : ℤ

-- What one cycle reads.
pub record Sample : Type 0 where
  pub key_down : ℕ → Bool
  pub gamepad_state : Gamepad
  pub gamepad_connected : Bool
  pub trigger_threshold : ℕ
  pub stick_threshold : ℕ
  pub wheel_pulse : ℕ

abbrev pub first_synthetic : ℕ
first_synthetic = 0x10000

abbrev pub wheel_up : ℕ
wheel_up = 1

abbrev pub wheel_right : ℕ
wheel_right = 4

abbrev pub above : ℤ → ℕ → Bool
above (pos n) t = ltb t n
above (negsuc n) t = false

abbrev pub below : ℤ → ℕ → Bool
below (pos n) t = false
below (negsuc n) t = ltb t (suc n)

unfoldable pub analog_pressed : ℕ → Sample → Bool
analog_pressed code s =
    let g = s.gamepad_state in
    if code == 0x10000
    then ltb s.trigger_threshold g.left_trigger
    else if code == 0x10001
    then ltb s.trigger_threshold g.right_trigger
    else if code == 0x10002
    then above g.left_y s.stick_threshold
    else if code == 0x10003
    then below g.left_y s.stick_threshold
    else if code == 0x10004
    then below g.left_x s.stick_threshold
    else if code == 0x10005
    then above g.left_x s.stick_threshold
    else if code == 0x10006
    then above g.right_y s.stick_threshold
    else if code == 0x10007
    then below g.right_y s.stick_threshold
    else if code == 0x10008
    then below g.right_x s.stick_threshold
    else if code == 0x10009
    then above g.right_x s.stick_threshold
    else false

unfoldable pub code_pressed : InputSource → ℕ → Sample → Bool
unfolding analog_pressed
code_pressed keyboard code s = not (code == 0) && s.key_down code
code_pressed mouse code s = not (code == 0) && s.key_down code
code_pressed mouse_wheel code s =
    leb wheel_up code
    && leb code wheel_right
    && not (bit_and s.wheel_pulse (2 ^ (code - wheel_up)) == 0)
code_pressed gamepad code s =
    s.gamepad_connected
    && (if ltb code first_synthetic
        then not (bit_and s.gamepad_state.buttons code == 0)
        else analog_pressed code s)

unfoldable pub is_code_pressed : InputCode → Sample → Bool
unfolding code_pressed
is_code_pressed c s = code_pressed c.source c.code s

abbrev pub same_source : InputSource → InputSource → Bool
same_source keyboard keyboard = true
same_source mouse mouse = true
same_source gamepad gamepad = true
same_source mouse_wheel mouse_wheel = true
same_source _ _ = false

unfoldable pub same_code : InputCode → InputCode → Bool
same_code a b = same_source a.source b.source && a.code == b.code

-- Ctrl, Shift and Alt, each as it is, left and right.
abbrev pub in_family : ℕ → ℕ → ℕ → ℕ → Bool
in_family generic left right vk = vk == generic || vk == left || vk == right

unfoldable pub same_family : ℕ → ℕ → Bool
same_family a b =
    (in_family 0x11 0xA2 0xA3 a && in_family 0x11 0xA2 0xA3 b)
    || (in_family 0x10 0xA0 0xA1 a && in_family 0x10 0xA0 0xA1 b)
    || (in_family 0x12 0xA4 0xA5 a && in_family 0x12 0xA4 0xA5 b)

unfoldable pub modifier_satisfies : InputCode → InputCode → Bool
unfolding same_code same_family
modifier_satisfies required held =
    same_code required held
    || (same_source required.source keyboard
        && same_source held.source keyboard
        && same_family required.code held.code)

-- A digital gamepad button, the only kind that can be masked.
unfoldable pub is_digital_gamepad : InputCode → Bool
is_digital_gamepad c = same_source c.source gamepad && ltb 0 c.code && ltb c.code first_synthetic

-- A binding with its slot of the active states.
pub record Entry : Type 0 where
  pub binding : InputBinding
  pub active : Bool

-- A call of a callback, with what it is told.
pub data Call : Type 0 where
  pressed_call : ℕ → Call
  state_call : ℕ → Bool → Call
