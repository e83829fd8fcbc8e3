-- ===== src/Drift/Loop.antt =====
-- What the loop of `parse_drift_report` reads, line by line.
use detour_mod_kit.Base.{
  ◌≡◌, inl, inr, ap, sym, ◌∙◌, true, List, [], ◌∷◌, ◌++◌, some, arith, append-nil, append_assoc,
  Option-cases, Bool-cases,
}
use detour_mod_kit.Text.{Text, split, text_eq, text_eq_refl, eq_of_text_eq}
use detour_mod_kit.Drift.{
  manifest_header, field_sep, DriftRecord, strip_cr, parse_fields, Result, value, failure,
  ReadState, add_record, read_line, read_lines, start, at_end,
}

-- The lines that the loop reads: stripped of their carriage return, and not blank.
abbrev pub push_line : Text → List Text → List Text
push_line [] ls = ls
push_line (c ∷ cs) ls = (c ∷ cs) ∷ ls

abbrev pub kept : List Text → List Text
kept [] = []
kept (l ∷ ls) = push_line (strip_cr l) (kept ls)

-- The fields of each line make the record beside it.
abbrev pub Reads : List Text → List DriftRecord → Type 0
Reads [] [] = Unit {0}
Reads (l ∷ ls) (r ∷ rs) = (parse_fields (split field_sep l) ≡ some r) × Reads ls rs
Reads _ _ = ⊥

abbrev seen : List DriftRecord → ReadState
seen rs = record { header_seen = true; records = rs }

abbrev then_lines : Result ReadState → List Text → Result ReadState
then_lines r ls = elim r [ value s ↦ read_lines ls s | failure e ↦ failure e ]

-- What a run of the loop behind the header has read.
abbrev Ran : List Text → List DriftRecord → ReadState → Type 0
Ran ls acc s = (rs : List DriftRecord) × (s ≡ seen (acc ++ rs)) × Reads ls rs

line-Ran :
    (x : Text) (ls : List Text) (acc : List DriftRecord) (s : ReadState)
    → ((acc : List DriftRecord) (s : ReadState)
        → read_lines ls (seen acc) ≡ value s
        → Ran (kept ls) acc s)
    → then_lines (read_line x (seen acc)) ls ≡ value s
    → Ran (push_line x (kept ls)) acc s
unfolding read_line
line-Ran [] ls acc s ih e = ih acc s e
line-Ran (c ∷ cs) ls acc s ih e = elim (Option-cases (parse_fields (split field_sep (c ∷ cs)))) [
  | inl bad ↦ absurd (ground (arith, (rw (bad, add_record) at e)))
  | inr (r, found) ↦
      let (rs, p, q) = ih (acc ++ r ∷ []) s (rw (found, add_record) at e) in
      (r ∷ rs, p ∙ ap seen (append_assoc acc (r ∷ []) rs), (found, q))
]

read_lines-Ran :
    (ls : List Text) (acc : List DriftRecord) (s : ReadState)
    → read_lines ls (seen acc) ≡ value s
    → Ran (kept ls) acc s
unfolding read_lines
read_lines-Ran [] acc s e =
    let same : s ≡ seen acc = ground arith in ([], same ∙ ap seen (sym (append-nil acc)), tt)
read_lines-Ran (l ∷ ls) acc s e = line-Ran (strip_cr l) ls acc s (read_lines-Ran ls) e

line-Reads :
    (x : Text) (ls : List Text) (acc rs : List DriftRecord)
    → ((acc rs : List DriftRecord)
        → Reads (kept ls) rs
        → read_lines ls (seen acc) ≡ value (seen (acc ++ rs)))
    → Reads (push_line x (kept ls)) rs
    → then_lines (read_line x (seen acc)) ls ≡ value (seen (acc ++ rs))
unfolding read_line add_record
line-Reads [] ls acc rs ih h = ih acc rs h
line-Reads (c ∷ cs) ls acc [] ih h = absurd h
line-Reads (c ∷ cs) ls acc (r ∷ rs) ih (found, h) =
    rw found (ih (acc ++ r ∷ []) rs h ∙ ap (λ t. value (seen t)) (append_assoc acc (r ∷ []) rs))

read_lines-Reads :
    (ls : List Text) (acc rs : List DriftRecord)
    → Reads (kept ls) rs
    → read_lines ls (seen acc) ≡ value (seen (acc ++ rs))
unfolding read_lines
read_lines-Reads [] acc [] h = rw (append-nil acc)
read_lines-Reads [] acc (r ∷ rs) h = absurd h
read_lines-Reads (l ∷ ls) acc rs h = line-Reads (strip_cr l) ls acc rs (read_lines-Reads ls) h

-- The lines are a header and the lines of the records.
abbrev pub Read : List Text → List DriftRecord → Type 0
Read ls rs = (body : List Text) × (ls ≡ manifest_header ∷ body) × Reads body rs

start_line-Read :
    (x : Text) (ls : List Text) (s : ReadState) (rs : List DriftRecord)
    → (read_lines ls start ≡ value s → Read (kept ls) rs)
    → at_end s ≡ value rs
    → then_lines (read_line x start) ls ≡ value s
    → Read (push_line x (kept ls)) rs
unfolding read_line
start_line-Read [] ls s rs ih f e = ih e
start_line-Read (c ∷ cs) ls s rs ih f e = elim (Bool-cases (text_eq (c ∷ cs) manifest_header)) [
  | inl header ↦
      let (rs', p, q) = read_lines-Ran ls [] s (rw header at e) in
      let same : rs' ≡ rs = unfold at_end in ground (arith, (rw p at f)) in
      (
        kept ls,
        ap (λ l. l ∷ kept ls) (eq_of_text_eq (c ∷ cs) manifest_header header),
        rw (← same) q,
      )
  | inr other ↦ absurd (ground (arith, (rw other at e)))
]

pub read_lines-Read :
    (ls : List Text) (s : ReadState) (rs : List DriftRecord)
    → at_end s ≡ value rs
    → read_lines ls start ≡ value s
    → Read (kept ls) rs
unfolding read_lines
read_lines-Read [] s rs f e = unfold at_end in absurd (ground arith)
read_lines-Read (l ∷ ls) s rs f e =
    start_line-Read (strip_cr l) ls s rs (read_lines-Read ls s rs f) f e

Read-start_line :
    (x : Text) (ls : List Text) (rs : List DriftRecord)
    → (Read (kept ls) rs → read_lines ls start ≡ value (seen rs))
    → Read (push_line x (kept ls)) rs
    → then_lines (read_line x start) ls ≡ value (seen rs)
unfolding read_line
Read-start_line [] ls rs ih h = ih h
Read-start_line (c ∷ cs) ls rs ih (body, e, h) =
    let header : c ∷ cs ≡ manifest_header = ground arith in
    let behind : kept ls ≡ body = ground arith in
    let same : text_eq (c ∷ cs) manifest_header ≡ true = rw header (text_eq_refl manifest_header) in
    rw same (read_lines-Reads ls [] rs (rw behind h))

pub Read-read_lines :
    (ls : List Text) (rs : List DriftRecord)
    → Read (kept ls) rs
    → read_lines ls start ≡ value (seen rs)
unfolding read_lines
Read-read_lines [] rs (body, e, h) = cc
Read-read_lines (l ∷ ls) rs h = Read-start_line (strip_cr l) ls rs (Read-read_lines ls rs) h
