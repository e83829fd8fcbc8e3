-- ===== src/Drift/CarriageReturn.antt =====
-- CRLF input.
use detour_mod_kit.Base.{
  ℕ, ◌≡◌, refl, ◌∙◌, false, List, [], ◌∷◌, ◌++◌, arith, ◌==◌, if◌then◌else◌, Bool-cases, inl, inr,
  All, append-nil,
}
use detour_mod_kit.Text.{Text, split, add_to_first, has_char}
use detour_mod_kit.Drift.{
  newline, carriage_return, strip_cr, Result, value, failure, ReadState, read_line, read_lines,
  start, parse_drift_report,
}
use detour_mod_kit.Drift.RoundTrip.{strip_cr-append, strip_cr-none}

-- A text with each newline turned into a carriage return and a newline.
unfoldable pub crlf : Text → Text
crlf [] = []
crlf (c ∷ cs) =
    let rest = crlf cs in if c == newline then carriage_return ∷ newline ∷ rest else c ∷ rest

-- Every line but the last, with a carriage return behind it.
abbrev with_cr : List Text → List Text
with_cr [] = []
with_cr (l ∷ []) = l ∷ []
with_cr (l ∷ m ∷ ls) = (l ++ carriage_return ∷ []) ∷ with_cr (m ∷ ls)

split-filled : (c : ℕ) (s : Text) → (l : Text) × (ls : List Text) × (split c s ≡ l ∷ ls)
unfolding split
split-filled c [] = ([], [], refl)
split-filled c (x ∷ s) =
    let (l, ls, q) = split-filled c s in
    elim (Bool-cases (x == c)) [
      | inl hit ↦ ([], split c s, ground arith)
      | inr miss ↦ (x ∷ l, ls, ground arith)
    ]

with_cr-add_to_first :
    (c : ℕ) (l : Text) (ls : List Text)
    → with_cr (add_to_first c (l ∷ ls)) ≡ add_to_first c (with_cr (l ∷ ls))
unfolding add_to_first
with_cr-add_to_first c l [] = refl
with_cr-add_to_first c l (m ∷ ls) = refl

split-crlf : (s : Text) → split newline (crlf s) ≡ with_cr (split newline s)
unfolding split crlf
split-crlf [] = refl
split-crlf (c ∷ s) =
    let (l, ls, q) = split-filled newline s in
    elim (Bool-cases (c == newline)) [
      | inl hit ↦ rw hit (unfold add_to_first in rw (split-crlf s) (rw q))
      | inr miss ↦ rw miss (rw (split-crlf s) (rw q (let m = with_cr-add_to_first c l ls in cc)))
    ]

-- No line has a carriage return of its own.
Bare : List Text → Type 0
Bare = All (λ l. has_char carriage_return l ≡ false)

strip_cr-concat :
    (l : Text)
    → has_char carriage_return l ≡ false
    → strip_cr (l ++ carriage_return ∷ []) ≡ strip_cr l
unfolding strip_cr
strip_cr-concat l h = strip_cr-append l carriage_return [] ∙ rw (strip_cr-none l h) (append-nil l)

abbrev then_lines : Result ReadState → List Text → Result ReadState
then_lines r ls = elim r [ value t ↦ read_lines ls t | failure e ↦ failure e ]

then_lines-same :
    (ls ms : List Text) (r : Result ReadState)
    → ((t : ReadState) → read_lines ls t ≡ read_lines ms t)
    → then_lines r ls ≡ then_lines r ms
then_lines-same ls ms (value t) h = h t
then_lines-same ls ms (failure e) h = refl

read_lines-with_cr :
    (ls : List Text) (s : ReadState) → Bare ls → read_lines (with_cr ls) s ≡ read_lines ls s
unfolding Bare read_lines
read_lines-with_cr [] s h = refl
read_lines-with_cr (l ∷ []) s h = refl
read_lines-with_cr (l ∷ m ∷ ls) s (h, hs) =
    rw (strip_cr-concat l h, read_lines)
      (then_lines-same (with_cr (m ∷ ls)) (m ∷ ls) (read_line (strip_cr l) s)
        (λ t. read_lines-with_cr (m ∷ ls) t hs))

split-Bare : (s : Text) → has_char carriage_return s ≡ false → Bare (split newline s)
unfolding Bare split has_char
split-Bare [] h = (refl, tt)
split-Bare (c ∷ s) h =
    let (l, ls, q) = split-filled newline s in
    let ih = split-Bare s (ground arith) in
    elim (Bool-cases (c == newline)) [
      | inl hit ↦ rw hit (refl, ih)
      | inr miss ↦
          rw miss (rw q (unfold add_to_first in (ground (arith, (rw q at ih).0), (rw q at ih).1)))
    ]

-- A text without carriage returns is read alike with either line ending: the records are the same,
-- or the error is.
pub parse-crlf :
    (text : Text)
    → has_char carriage_return text ≡ false
    → parse_drift_report (crlf text) ≡ parse_drift_report text
unfolding parse_drift_report
parse-crlf text h =
    rw (split-crlf text, parse_drift_report)
      (rw (read_lines-with_cr (split newline text) start (split-Bare text h)))
