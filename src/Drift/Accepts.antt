-- ===== src/Drift/Accepts.antt =====
-- The texts that `parse_drift_report` accepts, and what it reads in them.
use detour_mod_kit.Drift.Loop.{push_line, kept, Reads, Read, read_lines-Read, Read-read_lines}
use detour_mod_kit.Drift.Cells.{Stripped, strip_cr-Stripped, Stripped-strip_cr}
use detour_mod_kit.Drift.Line.{LineOf, parse_fields-LineOf, LineOf-parse_fields}
use detour_mod_kit.Base.{ℕ, ◌≡◌, ◌↔◌, refl, ap, List, [], ◌∷◌, arith}
use detour_mod_kit.Text.{Text, split}
use detour_mod_kit.Drift.{
  manifest_header, newline, DriftRecord, strip_cr, Result, value, failure, ReadState, read_lines,
  start, at_end, parse_drift_report,
}

-- The lines that count: each stripped of its carriage return, and the blank ones left out.
pub data Kept : List Text → List Text → Type 0 where
  no_line : Kept [] []
  blank : {l : Text} {ls ks : List Text} → Stripped l [] → Kept ls ks → Kept (l ∷ ls) ks
  filled :
      {l : Text} {c : ℕ} {cs : Text} {ls ks : List Text}
      → Stripped l (c ∷ cs)
      → Kept ls ks
      → Kept (l ∷ ls) ((c ∷ cs) ∷ ks)

-- A line for each record.
abbrev pub Lines : List Text → List DriftRecord → Type 0
Lines [] [] = Unit {0}
Lines (l ∷ ls) (r ∷ rs) = LineOf l r × Lines ls rs
Lines _ _ = ⊥

-- The text's lines are the header and a line for each record.
abbrev pub Report : Text → List DriftRecord → Type 0
Report text rs =
    (body : List Text) × Kept (split newline text) (manifest_header ∷ body) × Lines body rs

push_line-Kept :
    (l s : Text) (ls ks : List Text) → Stripped l s → Kept ls ks → Kept (l ∷ ls) (push_line s ks)
push_line-Kept l [] ls ks h k = blank h k
push_line-Kept l (c ∷ cs) ls ks h k = filled h k

kept-Kept : (ls : List Text) → Kept ls (kept ls)
kept-Kept [] = no_line
kept-Kept (l ∷ ls) = push_line-Kept l (strip_cr l) ls (kept ls) (strip_cr-Stripped l) (kept-Kept ls)

Kept-kept : {ls ks : List Text} → Kept ls ks → kept ls ≡ ks
Kept-kept no_line = refl
Kept-kept (blank {l} {ls} {ks} h k) = rw (Stripped-strip_cr l [] h) (Kept-kept k)
Kept-kept (filled {l} {c} {cs} {ls} {ks} h k) =
    rw (Stripped-strip_cr l (c ∷ cs) h) (ap (◌∷◌ (c ∷ cs)) (Kept-kept k))

Reads-Lines : (ls : List Text) (rs : List DriftRecord) → Reads ls rs → Lines ls rs
Reads-Lines [] [] h = tt
Reads-Lines (l ∷ ls) (r ∷ rs) (q, h) = (parse_fields-LineOf l r q, Reads-Lines ls rs h)
Reads-Lines [] (r ∷ rs) h = absurd h
Reads-Lines (l ∷ ls) [] h = absurd h

Lines-Reads : (ls : List Text) (rs : List DriftRecord) → Lines ls rs → Reads ls rs
Lines-Reads [] [] h = tt
Lines-Reads (l ∷ ls) (r ∷ rs) (q, h) = (LineOf-parse_fields l r q, Lines-Reads ls rs h)
Lines-Reads [] (r ∷ rs) h = absurd h
Lines-Reads (l ∷ ls) [] h = absurd h

Read-Report :
    (text : Text) (rs : List DriftRecord) → Read (kept (split newline text)) rs → Report text rs
Read-Report text rs (body, q, h) =
    (body, rw q at (kept-Kept (split newline text)), Reads-Lines body rs h)

Report-Read :
    (text : Text) (rs : List DriftRecord) → Report text rs → Read (kept (split newline text)) rs
Report-Read text rs (body, k, h) = (body, Kept-kept k, Lines-Reads body rs h)

-- A text is accepted with the records `rs` exactly when its lines, each without the one carriage
-- return that it may end in and the blank ones left out, are the header and, for each record in turn, a
-- line of exactly six fields: the record's name, three numbers that take their whole fields and are its
-- offsets and its delta, `1` or `0` as it is healed or not, and the token of its error, one of four.
pub parse_drift_report_iff :
    (text : Text) (rs : List DriftRecord) → (parse_drift_report text ≡ value rs) ↔ Report text rs
unfolding parse_drift_report at_end
parse_drift_report_iff text rs = (there, back)
  where
    there : parse_drift_report text ≡ value rs → Report text rs
    there e = go (read_lines (split newline text) start) refl
      where
        go : (r : Result ReadState) → read_lines (split newline text) start ≡ r → Report text rs
        go (value s) h = Read-Report text rs (
            read_lines-Read (split newline text) s rs
              (ground (arith, (rw (h, parse_drift_report) at e))) h)
        go (failure c) h = absurd (ground (arith, (rw (h, parse_drift_report) at e)))

    back : Report text rs → parse_drift_report text ≡ value rs
    back h =
        rw (Read-read_lines (split newline text) rs (Report-Read text rs h), parse_drift_report)
