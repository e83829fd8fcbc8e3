-- ===== src/Input/Bindings/Tokens.antt =====
-- The queries of an InputPoller of internal/input_poller.cpp: is_binding_active by index, by name and by a
-- token, and the tokens.
pub mod Reshapes
pub mod Agreement
use detour_mod_kit.Base.{
  ℕ, zero, suc, ◌+◌, Bool, true, false, not, ◌&&◌, ◌||◌, List, [], ◌∷◌, ltb, ◌==◌, if◌then◌else◌,
}
use detour_mod_kit.Text.{Text}
use detour_mod_kit.Input.{Entry}
use detour_mod_kit.Input.Bindings.{Poller, named}

-- The generation 0 is that of an invalid token.
pub record BindingToken : Type 0 where
  pub generation : ℕ
  pub indices : List ℕ

abbrev pub invalid : BindingToken
invalid = record { generation = 0; indices = [] }

-- Out of bounds nothing is active.
unfoldable pub active_at : List Entry → ℕ → Bool
active_at [] i = false
active_at (e ∷ es) zero = e.active
active_at (e ∷ es) (suc i) = active_at es i

unfoldable pub any_active : List Entry → List ℕ → Bool
unfolding active_at
any_active es [] = false
any_active es (i ∷ is) = active_at es i || any_active es is

-- The index of a name, from a first index on.
unfoldable pub indices_of : Text → ℕ → List Entry → List ℕ
indices_of name i [] = []
indices_of name i (e ∷ es) =
    let rest = indices_of name (suc i) es in if named name e then i ∷ rest else rest

abbrev pub looked_up : Bool → Text → List Entry → List ℕ
looked_up true name es = indices_of name 0 es
looked_up false name es = []

unfoldable pub is_index_active : ℕ → Poller → Bool
unfolding active_at
is_index_active index p = active_at p.entries index

unfoldable pub is_name_active : Text → Poller → Bool
unfolding any_active indices_of
is_name_active name p = any_active p.entries (looked_up p.indexed name p.entries)

abbrev pub token_of : ℕ → List ℕ → BindingToken
token_of generation [] = invalid
token_of generation (i ∷ is) = record { generation = generation; indices = i ∷ is }

unfoldable pub acquire_binding_token : Bool → Text → Poller → BindingToken
unfolding indices_of
acquire_binding_token memory name p =
    if memory then token_of p.generation (looked_up p.indexed name p.entries) else invalid

unfoldable pub binding_token_current : BindingToken → Poller → Bool
binding_token_current token p = not (token.generation == 0) && token.generation == p.generation

unfoldable pub is_token_active : BindingToken → Poller → Bool
unfolding any_active
is_token_active token p =
    if token.generation == 0
    then false
    else if token.generation == p.generation
    then any_active p.entries token.indices
    else false
