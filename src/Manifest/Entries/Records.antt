-- ===== src/Manifest/Entries/Records.antt =====
-- A record's section that is written reads back. The section is in three parts, and a key that stands in
-- one of them stands in no other.

pub mod Offsets
pub mod Parts
pub mod Reading
use detour_mod_kit.Base.{
  ℕ, ◌+◌, ◌≤◌, ◌<◌, ◌≡◌, ◌≢◌, refl, true, List, [], ◌∷◌, ◌++◌, Option, none, some, arith, ◌==◌,
  if◌then◌else◌, All, Bool-cases, inl, inr,
}
use detour_mod_kit.Base.Int.{ℤ}
use detour_mod_kit.Text.{Text, codes}
use detour_mod_kit.Text.Decimal.{InRange, digits}
use detour_mod_kit.Text.Unsigned.{unsigned_values, hex_digits}
use detour_mod_kit.Errors.{Result, value}
use detour_mod_kit.Manifest.Numbers.{parse_unsigned}
use detour_mod_kit.Manifest.{
  BindingKind, address, pointer_chain, mid_hook_register, vmt_method, AnchorKind, vtable_identity,
  rip_global, code_operand, manual, export_name, call_arg_home, quorum, unset, out_of_range,
  Binding, SignatureRecord, default_binding, default_record,
}

abbrev pub carried_binding : BindingKind → Binding → Binding
carried_binding address b = record default_binding { kind = address }
carried_binding pointer_chain b = record default_binding {
  kind = pointer_chain;
  offsets = b.offsets;
  value_width = b.value_width;
}
carried_binding mid_hook_register b = record default_binding {
  kind = mid_hook_register;
  read_register = b.read_register;
  xmm_index = b.xmm_index;
}
carried_binding vmt_method b = record default_binding { kind = vmt_method; vmt_index = b.vmt_index }

abbrev pub BindingOk : BindingKind → Binding → Type 0
BindingOk address b = Unit {0}
BindingOk pointer_chain b = All InRange b.offsets × (b.value_width ≤ 0xFF)
BindingOk mid_hook_register b = b.xmm_index ≤ 0xFF
BindingOk vmt_method b = b.vmt_index < unsigned_values

-- `to` has the fields that all kinds carry.
abbrev pub carried_kind : AnchorKind → SignatureRecord → SignatureRecord → SignatureRecord
carried_kind vtable_identity r to = record to { mangled = r.mangled }
carried_kind code_operand r to = record to {
  operand_kind = r.operand_kind;
  operand_index = r.operand_index;
  byte_width = r.byte_width;
}
carried_kind AnchorKind.string_xref r to = record to {
  xref_text = r.xref_text;
  xref_encoding = r.xref_encoding;
  xref_return = r.xref_return;
  xref_require_terminator = r.xref_require_terminator;
  xref_broad_match = r.xref_broad_match;
}
carried_kind manual r to = record to { manual_value = r.manual_value }
carried_kind rip_global r to = record to { pages = r.pages }
carried_kind export_name r to = record to { export_symbol = r.export_symbol }
carried_kind _ r to = to

abbrev pub KindOk : AnchorKind → SignatureRecord → Type 0
KindOk code_operand r = (r.operand_index ≤ 0xFF) × (r.byte_width ≤ 0xFF)
KindOk manual r = InRange r.manual_value
KindOk rip_global r = r.pages ≢ out_of_range
KindOk call_arg_home r = ⊥
KindOk quorum r = ⊥
KindOk unset r = ⊥
KindOk _ r = Unit {0}

-- What a file carries of a record, apart from its ladder.
abbrev pub carried_section : SignatureRecord → SignatureRecord
carried_section r = carried_kind r.kind r (record default_record {
  label = r.label;
  kind = r.kind;
  module_name = r.module_name;
  binding = carried_binding r.binding.kind r.binding;
  expected_fingerprint = r.expected_fingerprint;
})

-- The numbers fit their types, the kind is one a file can hold and the pages are an enumerator.
pub record SectionOk (r : SignatureRecord) : Type 0 where
  pub binding : BindingOk r.binding.kind r.binding
  pub fingerprint : r.expected_fingerprint < unsigned_values
  pub kind : KindOk r.kind r
