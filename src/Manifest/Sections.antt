-- ===== src/Manifest/Sections.antt =====
-- The readers of one section of a manifest: parse_rung and parse_record of src/manifest.cpp.

use detour_mod_kit.Base.{
  ℕ, Bool, true, false, ◌&&◌, List, [], ◌∷◌, Option, none, some, if◌then◌else◌,
}
use detour_mod_kit.Base.Int.{ℤ, pos, negsuc}
use detour_mod_kit.Text.{Text, codes, split}
use detour_mod_kit.Errors.{Result, value, failure, malformed_line}
use detour_mod_kit.Memory.Rip.{is_valid_rip_relative_layout}
use detour_mod_kit.Manifest.Numbers.{trim, parse_signed, parse_unsigned, parse_u8, parse_bool}
use detour_mod_kit.Manifest.Tokens.{
  parse_anchor_kind, parse_scan_mode, parse_operand_kind, parse_encoding, parse_pages,
  parse_xref_return, parse_binding_kind, parse_gpr,
}
use detour_mod_kit.Manifest.{
  address, rax, immediate, utf8, referencing_instruction, StringEncoding, XrefReturn, Mode, direct,
  rip_relative, rtti_vtable, readable, AnchorKind, vtable_identity, rip_global, code_operand,
  manual, export_name, Binding, xmm_index_unused, CandidateSpec, SignatureRecord, default_candidate,
  default_record,
}

infixl 5 ◌>>=◌
abbrev pub ◌>>=◌ {ℓ κ} : {A : Type ℓ} {B : Type κ} → Result A → (A → Result B) → Result B
value a >>= f = f a
failure e >>= f = failure e

abbrev pub or_malformed {ℓ} : {A : Type ℓ} → Option A → Result A
or_malformed (some a) = value a
or_malformed none = failure malformed_line

abbrev pub required {ℓ} : {A : Type ℓ} → (Text → Option A) → Option Text → Result A
required parse none = failure malformed_line
required parse (some raw) = or_malformed (parse raw)

-- A key that is absent leaves the default.
abbrev pub optional {ℓ} : {A : Type ℓ} → (Text → Option A) → A → Option Text → Result A
optional parse default none = value default
optional parse default (some raw) = or_malformed (parse raw)

abbrev pub text_or_empty : Option Text → Text
text_or_empty none = []
text_or_empty (some s) = s

abbrev pub is_some {ℓ} : {A : Type ℓ} → Option A → Bool
is_some none = false
is_some (some a) = true

-- The offset is not negative, and the layout is valid.
unfoldable pub is_decodable : ℤ → ℕ → Bool
is_decodable (pos d) len = is_valid_rip_relative_layout d len
is_decodable (negsuc d) len = false

-- From the values of pattern, walk_back, displacement_at and instruction_length.
unfoldable pub pattern_fields :
    Option Text → Option Text → Option Text → Option Text → CandidateSpec → Result CandidateSpec
pattern_fields pattern walk disp len spec = do
  p ← or_malformed pattern
  w ← optional parse_signed (pos 0) walk
  d ← optional parse_signed (pos 0) disp
  l ← optional parse_unsigned 0 len
  value (record spec { pattern = p; walk_back = w; displacement_at = d; instruction_length = l })

unfoldable pub rip_relative_gate : Option Text → Option Text → CandidateSpec → Result CandidateSpec
unfolding is_decodable is_valid_rip_relative_layout
rip_relative_gate disp len spec =
    if is_some len && is_some disp && is_decodable spec.displacement_at spec.instruction_length
    then value spec
    else failure malformed_line

-- From the values of the five keys of a string reference, `string_` or `xref_` before each.
unfoldable pub string_fields {ℓ} :
    {A : Type ℓ}
    → (StringEncoding → XrefReturn → Bool → Bool → A)
    → Option Text
    → Option Text
    → Option Text
    → Option Text
    → Result A
string_fields make encoding ret term broad = do
  e ← optional parse_encoding utf8 encoding
  r ← optional parse_xref_return referencing_instruction ret
  t ← optional parse_bool true term
  b ← optional parse_bool false broad
  value (make e r t b)

unfoldable pub mode_fields : Mode → (Text → Option Text) → CandidateSpec → Result CandidateSpec
mode_fields direct get spec =
    pattern_fields (get (codes "pattern")) (get (codes "walk_back")) (get (codes "displacement_at"))
      (get (codes "instruction_length")) spec
mode_fields rip_relative get spec =
    pattern_fields (get (codes "pattern")) (get (codes "walk_back")) (get (codes "displacement_at"))
      (get (codes "instruction_length")) spec
    >>= rip_relative_gate (get (codes "displacement_at")) (get (codes "instruction_length"))
mode_fields rtti_vtable get spec =
    or_malformed (get (codes "mangled")) >>= λ m. value (record spec { mangled = m })
mode_fields Mode.string_xref get spec = or_malformed (get (codes "string_text")) >>= λ s.
    string_fields
      (λ e r t b. record spec {
        string_text = s;
        string_encoding = e;
        string_return = r;
        string_require_terminator = t;
        string_broad_match = b;
      })
      (get (codes "string_encoding")) (get (codes "string_return"))
      (get (codes "string_require_terminator")) (get (codes "string_broad_match"))

-- `get` is GetValue of the section.
unfoldable pub parse_rung : (Text → Option Text) → Result CandidateSpec
unfolding mode_fields
parse_rung get = do
  mode ← required parse_scan_mode (get (codes "mode"))
  mode_fields mode get
      (record default_candidate { name = text_or_empty (get (codes "name")); mode = mode })

-- The blank pieces between commas are passed over.
unfoldable pub parse_pieces : List Text → Option (List ℤ)
parse_pieces [] = some []
parse_pieces (p ∷ ps) = elim (trim p) [
  | [] ↦ parse_pieces ps
  | c ∷ cs ↦ elim (parse_signed (c ∷ cs)) [
    | none ↦ none
    | some z ↦ elim (parse_pieces ps) [ none ↦ none | some zs ↦ some (z ∷ zs) ]
  ]
]

unfoldable pub parse_offsets : Text → Option (List ℤ)
unfolding parse_pieces
parse_offsets s = parse_pieces (split b',' s)

-- From the values of binding, offsets, value_width, read_register, xmm_index and vmt_index.
unfoldable pub parse_binding :
    Option Text
    → Option Text
    → Option Text
    → Option Text
    → Option Text
    → Option Text
    → Result Binding
parse_binding kind offsets width reg xmm vmt = do
  k ← optional parse_binding_kind address kind
  o ← optional parse_offsets [] offsets
  w ← optional parse_u8 8 width
  r ← optional parse_gpr rax reg
  x ← optional parse_u8 xmm_index_unused xmm
  v ← optional parse_unsigned 0 vmt
  value (record {
    kind = k;
    offsets = o;
    value_width = w;
    read_register = r;
    xmm_index = x;
    vmt_index = v;
  })

-- From the values of operand_kind, operand_index and byte_width.
unfoldable pub operand_fields :
    Option Text → Option Text → Option Text → SignatureRecord → Result SignatureRecord
operand_fields kind index width r = do
  k ← optional parse_operand_kind immediate kind
  i ← optional parse_u8 0 index
  w ← optional parse_u8 0 width
  value (record r { operand_kind = k; operand_index = i; byte_width = w })

unfoldable pub kind_fields :
    AnchorKind → (Text → Option Text) → SignatureRecord → Result SignatureRecord
kind_fields vtable_identity get r =
    value (record r { mangled = text_or_empty (get (codes "mangled")) })
kind_fields code_operand get r =
    operand_fields (get (codes "operand_kind")) (get (codes "operand_index"))
      (get (codes "byte_width")) r
kind_fields AnchorKind.string_xref get r =
    string_fields
      (λ e x t b. record r {
        xref_text = text_or_empty (get (codes "xref_text"));
        xref_encoding = e;
        xref_return = x;
        xref_require_terminator = t;
        xref_broad_match = b;
      })
      (get (codes "xref_encoding")) (get (codes "xref_return"))
      (get (codes "xref_require_terminator")) (get (codes "xref_broad_match"))
kind_fields manual get r = required parse_signed (get (codes "manual_value")) >>= λ m.
    value (record r { manual_value = m })
kind_fields rip_global get r =
    optional parse_pages readable (get (codes "pages")) >>= λ p. value (record r { pages = p })
kind_fields export_name get r =
    value (record r { export_symbol = text_or_empty (get (codes "export_name")) })
kind_fields _ get r = value r

-- The ladder is attached by the caller.
unfoldable pub parse_record : (Text → Option Text) → Text → Result SignatureRecord
parse_record get label = do
  kind ← required parse_anchor_kind (get (codes "kind"))
  binding ←
      parse_binding (get (codes "binding")) (get (codes "offsets")) (get (codes "value_width"))
        (get (codes "read_register")) (get (codes "xmm_index")) (get (codes "vmt_index"))
  fingerprint ← optional parse_unsigned 0 (get (codes "fingerprint"))
  kind_fields kind get (record default_record {
    label = label;
    kind = kind;
    module_name = text_or_empty (get (codes "module"));
    binding = binding;
    expected_fingerprint = fingerprint;
  })
