-- ===== src/Manifest/Entries.antt =====
-- What serialize of src/manifest.cpp writes into one section, as the list of its calls of SetValue. The INI
-- library compares names without regard to ASCII case, and a later call replaces the value.
pub mod Rungs
pub mod Records
use detour_mod_kit.Base.{
  ◌≡◌, refl, ℕ, zero, suc, ◌+◌, Bool, true, false, not, ◌&&◌, List, [], ◌∷◌, ◌++◌, map, Option,
  none, some, ◌==◌, if◌then◌else◌,
}
use detour_mod_kit.Base.Int.{ℤ, pos, negsuc}
use detour_mod_kit.Text.{Text, codes, text_eq, split}
use detour_mod_kit.Text.Decimal.{digits}
use detour_mod_kit.Text.Unsigned.{hex_digits}
use detour_mod_kit.Errors.{Result, value, failure, malformed_line}
use detour_mod_kit.Memory.Rip.{is_valid_rip_relative_layout}
use detour_mod_kit.Manifest.Numbers.{
  to_lower, trim, parse_signed, parse_unsigned, parse_u8, parse_bool, format_signed_hex,
}
use detour_mod_kit.Manifest.Tokens.{
  anchor_kind_token, parse_anchor_kind, scan_mode_token, parse_scan_mode, operand_kind_token,
  parse_operand_kind, encoding_token, parse_encoding, pages_token, parse_pages, xref_return_token,
  parse_xref_return, binding_kind_to_string, parse_binding_kind, gpr_token, parse_gpr, bool_token,
}
use detour_mod_kit.Manifest.{
  BindingKind, address, rax, immediate, utf8, referencing_instruction, StringEncoding, XrefReturn,
  pointer_chain, mid_hook_register, vmt_method, Mode, direct, rip_relative, rtti_vtable, Pages,
  readable, executable, out_of_range, AnchorKind, vtable_identity, rip_global, code_operand, manual,
  export_name, Binding, xmm_index_unused, CandidateSpec, SignatureRecord, default_binding,
  default_candidate, default_record,
}

abbrev pub Fields : Type 0
Fields = List (Text × Text)

unfoldable pub same : Text → Text → Bool
unfolding to_lower text_eq
same a b = text_eq (to_lower a) (to_lower b)

abbrev pub later {ℓ} : {A : Type ℓ} → Option A → Option A → Option A
later (some a) o = some a
later none o = o

pub later-none {ℓ} : {A : Type ℓ} (o : Option A) → later o none ≡ o
later-none none = refl
later-none (some a) = refl

-- What a key holds after these calls of SetValue.
unfoldable pub field : Text → Fields → Option Text
unfolding same
field k [] = none
field k ((j, v) ∷ fs) = later (field k fs) (if same j k then some v else none)

-- The writers. A text that is empty, and a number at its default, is mostly left out.
abbrev pub unless_empty : Text → Text → Fields
unless_empty k [] = []
unless_empty k (c ∷ cs) = (k, c ∷ cs) ∷ []

abbrev pub unless_zero : Text → ℤ → Fields
unless_zero k (pos zero) = []
unless_zero k z = (k, format_signed_hex z) ∷ []

unfoldable pub mode_entries : Mode → CandidateSpec → Fields
mode_entries direct spec =
    (codes "pattern", spec.pattern) ∷ unless_zero (codes "walk_back") spec.walk_back
mode_entries rip_relative spec =
    (codes "pattern", spec.pattern)
    ∷ (codes "displacement_at", format_signed_hex spec.displacement_at)
    ∷ (codes "instruction_length", digits spec.instruction_length)
    ∷ []
mode_entries rtti_vtable spec = (codes "mangled", spec.mangled) ∷ []
mode_entries Mode.string_xref spec =
    (codes "string_text", spec.string_text)
    ∷ (codes "string_encoding", encoding_token spec.string_encoding)
    ∷ (codes "string_return", xref_return_token spec.string_return)
    ∷ (codes "string_require_terminator", bool_token spec.string_require_terminator)
    ∷ (codes "string_broad_match", bool_token spec.string_broad_match)
    ∷ []

unfoldable pub rung_entries : CandidateSpec → Fields
rung_entries spec =
    (codes "mode", scan_mode_token spec.mode)
    ∷ (unless_empty (codes "name") spec.name ++ mode_entries spec.mode spec)

unfoldable pub offsets_text : List ℤ → Text
offsets_text [] = []
offsets_text (z ∷ []) = format_signed_hex z
offsets_text (z ∷ y ∷ zs) = format_signed_hex z ++ (b',' ∷ b' ' ∷ offsets_text (y ∷ zs))

abbrev pub xmm_entries : ℕ → Fields
xmm_entries n = if n == xmm_index_unused then [] else (codes "xmm_index", digits n) ∷ []

unfoldable pub binding_entries : BindingKind → Binding → Fields
binding_entries pointer_chain b =
    (codes "offsets", offsets_text b.offsets) ∷ (codes "value_width", digits b.value_width) ∷ []
binding_entries mid_hook_register b =
    (codes "read_register", gpr_token b.read_register) ∷ xmm_entries b.xmm_index
binding_entries vmt_method b = (codes "vmt_index", digits b.vmt_index) ∷ []
binding_entries address b = []

abbrev pub fingerprint_entries : ℕ → Fields
fingerprint_entries n =
    if n == 0 then [] else (codes "fingerprint", b'0' ∷ b'x' ∷ hex_digits n) ∷ []

abbrev pub pages_entries : Pages → Fields
pages_entries readable = []
pages_entries p = (codes "pages", pages_token p) ∷ []

unfoldable pub kind_entries : AnchorKind → SignatureRecord → Fields
kind_entries vtable_identity r = (codes "mangled", r.mangled) ∷ []
kind_entries code_operand r =
    (codes "operand_kind", operand_kind_token r.operand_kind)
    ∷ (codes "operand_index", digits r.operand_index)
    ∷ (codes "byte_width", digits r.byte_width)
    ∷ []
kind_entries AnchorKind.string_xref r =
    (codes "xref_text", r.xref_text)
    ∷ (codes "xref_encoding", encoding_token r.xref_encoding)
    ∷ (codes "xref_return", xref_return_token r.xref_return)
    ∷ (codes "xref_require_terminator", bool_token r.xref_require_terminator)
    ∷ (codes "xref_broad_match", bool_token r.xref_broad_match)
    ∷ []
kind_entries manual r = (codes "manual_value", format_signed_hex r.manual_value) ∷ []
kind_entries rip_global r = pages_entries r.pages
kind_entries export_name r = (codes "export_name", r.export_symbol) ∷ []
kind_entries _ r = []

unfoldable pub record_entries : SignatureRecord → Fields
record_entries r =
    ((codes "kind", anchor_kind_token r.kind) ∷ unless_empty (codes "module") r.module_name)
    ++ (((codes "binding", binding_kind_to_string r.binding.kind)
          ∷ binding_entries r.binding.kind r.binding)
        ++ (fingerprint_entries r.expected_fingerprint ++ kind_entries r.kind r))
