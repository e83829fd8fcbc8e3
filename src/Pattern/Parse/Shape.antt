-- ===== src/Pattern/Parse/Shape.antt =====
-- The shape of a well-formed pattern, and what single tokens contribute to it.
use detour_mod_kit.Base.{
  ℕ, ◌%◌, ◌≤◌, ◌<◌, ◌≡◌, ◌⊎◌, refl, Bool, List, [], ◌∷◌, ◌++◌, Option, none, some, arith, ◌==◌,
}
use detour_mod_kit.Pattern.{
  PatternJump, PatternBuffer, size, jump_count, max_pattern_bytes, max_pattern_jumps, max_jump_span,
  hex_digit,
}
use detour_mod_kit.Pattern.Jump.{parse_jump_token}
use detour_mod_kit.Pattern.Jump.Accepts.{JumpForm, exact, range, parse_jump_token_iff}
use detour_mod_kit.Pattern.Parse.{SinkKind, fixed_array, heap_backed, byte_token, nibbles}

-- A byte value under one of the four masks, with no bit set outside its mask.
abbrev pub IsCell : ℕ → ℕ → Type 0
IsCell v m =
    ((m ≡ 0xFF) × (v < 256))
    ⊎ ((m ≡ 0x00) × (v ≡ 0))
    ⊎ ((m ≡ 0xF0) × (v % 16 ≡ 0) × (v < 256))
    ⊎ ((m ≡ 0x0F) × (v < 16))

abbrev pub AreCells : List ℕ → List ℕ → Type 0
AreCells [] [] = Unit {0}
AreCells (v ∷ vs) (m ∷ ms) = IsCell v m × AreCells vs ms
AreCells _ _ = ⊥

-- The gaps stand in ascending order behind `lo`, never adjacent; the last stands at `last`.
abbrev pub Segments : ℕ → List PatternJump → ℕ → Type 0
Segments lo [] last = lo ≡ last
Segments lo (j ∷ js) last =
    (lo < j.position)
    × (j.min_skip ≤ j.max_skip)
    × (j.max_skip ≤ max_jump_span)
    × Segments j.position js last

abbrev pub Capped : SinkKind → ℕ → Type 0
Capped fixed_array n = n ≤ max_pattern_bytes
Capped heap_backed n = Unit {0}

-- The last segment is not empty either, so the pattern has a byte.
pub record WellFormed (k : SinkKind) (b : PatternBuffer) : Type 0 where
  pub cells : AreCells b.bytes b.mask
  pub last : ℕ
  pub segments : Segments 0 b.jumps last
  pub last_filled : last < size b
  pub byte_cap : Capped k (size b)
  pub jump_cap : jump_count b ≤ max_pattern_jumps
  pub offset_within : b.offset ≤ size b

pub AreCells-concat :
    (vs ms : List ℕ) (v m : ℕ)
    → AreCells vs ms
    → IsCell v m
    → AreCells (vs ++ v ∷ []) (ms ++ m ∷ [])
AreCells-concat [] [] v m h c = (c, tt)
AreCells-concat (x ∷ vs) (y ∷ ms) v m (h, hs) c = (h, AreCells-concat vs ms v m hs c)
AreCells-concat [] (y ∷ ms) v m h c = absurd h
AreCells-concat (x ∷ vs) [] v m h c = absurd h

pub Segments-concat :
    (lo : ℕ) (js : List PatternJump) (last : ℕ) (j : PatternJump)
    → Segments lo js last
    → last < j.position
    → j.min_skip ≤ j.max_skip
    → j.max_skip ≤ max_jump_span
    → Segments lo (js ++ j ∷ []) j.position
Segments-concat lo [] last j e h p q = (omega arith, p, q, refl)
Segments-concat lo (i ∷ js) last j (a, b, c, e) h p q =
    (a, b, c, Segments-concat i.position js last j e h p q)

hex_digit-lt : (c d : ℕ) → hex_digit c ≡ some d → d < 16
unfolding hex_digit
hex_digit-lt c d e = ground arith

nibbles-IsCell :
    (x y : Option ℕ) (q r : Bool) (v m : ℕ)
    → ((d : ℕ) → x ≡ some d → d < 16)
    → ((d : ℕ) → y ≡ some d → d < 16)
    → nibbles x y q r ≡ some (v, m)
    → IsCell v m
unfolding nibbles
nibbles-IsCell (some h) (some l) q r v m hx hy e = ground (arith, hx h refl, hy l refl)
nibbles-IsCell (some h) none q r v m hx hy e = ground (arith, hx h refl)
nibbles-IsCell none (some l) q r v m hx hy e = ground (arith, hy l refl)
nibbles-IsCell none none q r v m hx hy e = cc

pub byte_token-IsCell : (t : List ℕ) (v m : ℕ) → byte_token t ≡ some (v, m) → IsCell v m
unfolding byte_token
byte_token-IsCell [] v m e = cc
byte_token-IsCell (a ∷ []) v m e = ground arith
byte_token-IsCell (a ∷ b ∷ []) v m e = ground (
  arith,
  nibbles-IsCell (hex_digit a) (hex_digit b) (a == b'?') (b == b'?') v m (hex_digit-lt a)
      (hex_digit-lt b),
)
byte_token-IsCell (a ∷ b ∷ c ∷ cs) v m e = cc

pub parse_jump_token-bounds :
    (t : List ℕ) (mn mx : ℕ) → parse_jump_token t ≡ some (mn, mx) → (mn ≤ mx) × (mx ≤ max_jump_span)
parse_jump_token-bounds t mn mx e = go ((parse_jump_token_iff t mn mx).0 e)
  where
    go : JumpForm t mn mx → (mn ≤ mx) × (mx ≤ max_jump_span)
    go (exact ds _ d eq) = (omega arith, omega (arith, d.in_range))
    go (range ds es _ d f le) = (le, f.in_range)
