-- ===== src/Gate.antt =====
-- The input side's small gates: src/internal/input_binding_gate.hpp (HoldGate, PressGate) and
-- src/internal/input_key_cache.hpp (KeyStateCache).
pub mod Hold
pub mod Press
pub mod Keys
