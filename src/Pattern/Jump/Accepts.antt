-- ===== src/Pattern/Jump/Accepts.antt =====
-- The jump tokens that `parse_jump_token` accepts, against their grammar.
use detour_mod_kit.Base.{
  ℕ, ◌+◌, ◌-◌, ◌*◌, ◌≤◌, ◌≡◌, ◌≢◌, ◌↔◌, inl, inr, refl, ap, ◌∙◌, true, false, List, [], ◌∷◌, ◌++◌,
  some, arith, All, Bool-cases, >>=-eq-some, ◌>>=◌, ◌==◌, append-nil,
}
use detour_mod_kit.Pattern.{max_jump_span, is_decimal}
use detour_mod_kit.Pattern.Jump.{
  init_last, strip_brackets, take_number, number, finish, upper, bounds, parse_jump_token,
}

abbrev AreDigits : List ℕ → Type 0
AreDigits = All (λ c. is_decimal c ≡ true)

-- The number that digits stand for, behind those already folded into `acc`.
abbrev value : ℕ → List ℕ → ℕ
value acc [] = acc
value acc (c ∷ cs) = value (acc * 10 + (c - b'0')) cs

-- A non-empty run of decimal digits (leading zeros included) that stands for `n`, in range.
pub record Numeral (ds : List ℕ) (n : ℕ) : Type 0 where
  pub filled : ds ≢ []
  pub digits : AreDigits ds
  pub stands_for : value 0 ds ≡ n
  pub in_range : n ≤ max_jump_span

-- `[X]` or `[X-Y]` with X ≤ Y.
pub data JumpForm (token : List ℕ) (mn mx : ℕ) : Type 0 where
  exact :
      (ds : List ℕ)
      → token ≡ b'[' ∷ (ds ++ b']' ∷ [])
      → Numeral ds mn
      → mn ≡ mx
      → JumpForm token mn mx
  range :
      (ds es : List ℕ)
      → token ≡ b'[' ∷ ((ds ++ b'-' ∷ es) ++ b']' ∷ [])
      → Numeral ds mn
      → Numeral es mx
      → mn ≤ mx
      → JumpForm token mn mx

value-le : (acc : ℕ) (ds : List ℕ) → acc ≤ value acc ds
value-le acc [] = omega arith
value-le acc (c ∷ cs) = omega (arith, value-le (acc * 10 + (c - b'0')) cs)

-- What follows a number is no digit.
abbrev NoDigit : List ℕ → Type 0
NoDigit [] = Unit {0}
NoDigit (c ∷ cs) = is_decimal c ≡ false

take_number-append :
    (acc : ℕ) (ds rest : List ℕ)
    → AreDigits ds
    → NoDigit rest
    → value acc ds ≤ max_jump_span
    → take_number acc (ds ++ rest) ≡ some (value acc ds, rest)
unfolding take_number
take_number-append acc [] [] d e h = refl
take_number-append acc [] (c ∷ rest) d e h = rw e
take_number-append acc (c ∷ ds) rest (x, xs) e h =
    let step = acc * 10 + (c - b'0') in
    ground (arith, value-le step ds, take_number-append step ds rest xs e h)

-- A number that is read, split off.
record Reads (acc : ℕ) (cs : List ℕ) (n : ℕ) (rest : List ℕ) : Type 0 where
  ds : List ℕ
  splits : cs ≡ ds ++ rest
  digits : AreDigits ds
  stands_for : value acc ds ≡ n
  in_range : n ≤ max_jump_span

take_number-Reads :
    (acc : ℕ) (cs : List ℕ) (n : ℕ) (rest : List ℕ)
    → acc ≤ max_jump_span
    → take_number acc cs ≡ some (n, rest)
    → Reads acc cs n rest
unfolding take_number
take_number-Reads acc [] n rest h e = record {
  ds = [];
  splits = cc;
  digits = tt;
  stands_for = cc;
  in_range = ground arith;
}
take_number-Reads acc (c ∷ cs) n rest h e = elim (Bool-cases (is_decimal c)) [
  | inr no_digit ↦ record {
    ds = [];
    splits = ground arith;
    digits = tt;
    stands_for = ground arith;
    in_range = ground arith;
  }
  | inl digit ↦
      let step = acc * 10 + (c - b'0') in
      let r = take_number-Reads step cs n rest (ground arith) (ground arith) in
      record {
        ds = c ∷ r.ds;
        splits = ap (◌∷◌ c) r.splits;
        digits = (digit, r.digits);
        stands_for = r.stands_for;
        in_range = r.in_range;
      }
]

number-append :
    (ds rest : List ℕ) (n : ℕ) → Numeral ds n → NoDigit rest → number (ds ++ rest) ≡ some (n, rest)
unfolding number
number-append [] rest n d e = absurd (d.filled refl)
number-append (c ∷ ds) rest n d e =
    let whole = take_number-append 0 (c ∷ ds) rest d.digits e (omega (arith, d.in_range)) in
    ground (arith, whole)

number-Numeral :
    (cs : List ℕ) (n : ℕ) (rest : List ℕ)
    → number cs ≡ some (n, rest)
    → (ds : List ℕ) × (cs ≡ ds ++ rest) × Numeral ds n
unfolding number take_number
number-Numeral [] n rest e = cc
number-Numeral (c ∷ cs) n rest e = elim (Bool-cases (is_decimal c)) [
  | inr no_digit ↦ cc
  | inl digit ↦
      let r = take_number-Reads (0 * 10 + (c - b'0')) cs n rest (ground arith) (ground arith) in
      (
        c ∷ r.ds,
        ap (◌∷◌ c) r.splits,
        record {
          filled = λ h. cc;
          digits = (digit, r.digits);
          stands_for = r.stands_for;
          in_range = r.in_range;
        },
      )
]

init_last-append : (inner : List ℕ) → init_last (inner ++ b']' ∷ []) ≡ some inner
unfolding init_last
init_last-append [] = refl
init_last-append (c ∷ []) = refl
init_last-append (c ∷ d ∷ cs) = rw (init_last-append (d ∷ cs))

init_last-eq-some : (cs inner : List ℕ) → init_last cs ≡ some inner → cs ≡ inner ++ b']' ∷ []
unfolding init_last
init_last-eq-some [] inner e = cc
init_last-eq-some (c ∷ []) inner e = ground arith
init_last-eq-some (c ∷ d ∷ cs) inner e =
    let (rest, h, k) = >>=-eq-some (init_last (d ∷ cs)) (λ rest. some (c ∷ rest)) e in
    cc (init_last-eq-some (d ∷ cs) rest h)

strip_brackets-eq-some :
    (token inner : List ℕ) → strip_brackets token ≡ some inner → token ≡ b'[' ∷ (inner ++ b']' ∷ [])
unfolding strip_brackets
strip_brackets-eq-some [] inner e = cc
strip_brackets-eq-some (c ∷ cs) inner e = ground (arith, init_last-eq-some cs inner)

finish-eq-some :
    (n m : ℕ) (rest : List ℕ) (mn mx : ℕ)
    → finish n m rest ≡ some (mn, mx)
    → (rest ≡ []) × (n ≡ mn) × (m ≡ mx) × (mn ≤ mx)
unfolding finish
finish-eq-some n m [] mn mx e = ground arith
finish-eq-some n m (c ∷ rest) mn mx e = cc

-- What `upper` reads behind a first bound `n`, as a token's inner text.
upper-JumpForm :
    (token ds : List ℕ) (n : ℕ) (rest : List ℕ) (mn mx : ℕ)
    → token ≡ b'[' ∷ ((ds ++ rest) ++ b']' ∷ [])
    → Numeral ds n
    → upper n rest ≡ some (mn, mx)
    → JumpForm token mn mx
unfolding upper
upper-JumpForm token ds n [] mn mx t d e =
    let (_, a, b, _) = finish-eq-some n n [] mn mx e in
    exact ds (rw (t, append-nil ds)) (rw a at d) (cc)
upper-JumpForm token ds n (c ∷ cs) mn mx t d e = elim (Bool-cases (c == b'-')) [
  | inr other ↦ absurd (ground arith)
  | inl dash ↦
      let read : (number cs >>= (λ r. finish n r.0 r.1)) ≡ some (mn, mx) = ground arith in
      let ((m, rest), h, k) = >>=-eq-some (number cs) (λ r. finish n r.0 r.1) read in
      let (es, s, f) = number-Numeral cs m rest h in
      let (nil, a, b, le) = finish-eq-some n m rest mn mx k in
      let hyphen : c ≡ b'-' = ground arith in
      range ds es (rw (t, hyphen, s, nil, append-nil es)) (rw a at d) (rw b at f) le
]

strip_brackets-append : (inner : List ℕ) → strip_brackets (b'[' ∷ (inner ++ b']' ∷ [])) ≡ some inner
unfolding strip_brackets
strip_brackets-append inner = init_last-append inner

bounds-exact : (ds : List ℕ) (n : ℕ) → Numeral ds n → bounds ds ≡ some (n, n)
unfolding bounds upper finish
bounds-exact ds n d =
    let h = number-append ds [] n d tt in rw (rw (append-nil ds) at h) (ground arith)

bounds-range :
    (ds es : List ℕ) (n m : ℕ)
    → Numeral ds n
    → Numeral es m
    → n ≤ m
    → bounds (ds ++ b'-' ∷ es) ≡ some (n, m)
unfolding bounds upper finish
bounds-range ds es n m d f le =
    let h = number-append es [] m f tt in
    rw (number-append ds (b'-' ∷ es) n d (unfold is_decimal in refl))
      (rw (rw (append-nil es) at h) (ground arith))

-- A token is accepted with two bounds exactly when it is `[X]` with both equal to X, or `[X-Y]` with X
-- no greater than Y, where X and Y are decimal numerals of at most 256.
pub parse_jump_token_iff :
    (token : List ℕ) (mn mx : ℕ) → (parse_jump_token token ≡ some (mn, mx)) ↔ JumpForm token mn mx
unfolding parse_jump_token bounds
parse_jump_token_iff token mn mx = (sound, complete)
  where
    sound : parse_jump_token token ≡ some (mn, mx) → JumpForm token mn mx
    sound e =
        let (inner, h, k) = >>=-eq-some (strip_brackets token) bounds e in
        let ((n, rest), p, q) = >>=-eq-some (number inner) (λ r. upper r.0 r.1) k in
        let (ds, s, d) = number-Numeral inner n rest p in
        let t = strip_brackets-eq-some token inner h in
        upper-JumpForm token ds n rest mn mx (t ∙ ap (λ i. b'[' ∷ (i ++ b']' ∷ [])) s) d q

    complete : JumpForm token mn mx → parse_jump_token token ≡ some (mn, mx)
    complete (exact ds t d e) =
        rw t (rw (strip_brackets-append ds) (rw (← e) (bounds-exact ds mn d)))
    complete (range ds es t d f le) =
        rw t (rw (strip_brackets-append (ds ++ b'-' ∷ es)) (bounds-range ds es mn mx d f le))
