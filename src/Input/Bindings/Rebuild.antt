-- ===== src/Input/Bindings/Rebuild.antt =====
-- A rebuild of the caches of internal/input_poller.cpp keeps the entries, with memory for it or without.
use detour_mod_kit.Base.{ℕ, ◌≡◌, refl, Bool, true, false, List}
use detour_mod_kit.Input.{Entry}
use detour_mod_kit.Input.Bindings.{Poller, recompute}

pub recompute-entries :
    (memory : Bool) (drawn : ℕ) (es : List Entry) (p : Poller)
    → (recompute memory drawn es p).entries ≡ es
unfolding recompute
recompute-entries true drawn es p = refl
recompute-entries false drawn es p = refl
