-- ===== src/Manifest/Tokens/RoundTrip.antt =====
-- Each word reads back as its enumerator.
use detour_mod_kit.Base.{◌≡◌, refl, Bool, true, false, some}
use detour_mod_kit.Manifest.Numbers.{parse_bool}
use detour_mod_kit.Manifest.Tokens.{
  anchor_kind_token, parse_anchor_kind, scan_mode_token, parse_scan_mode, operand_kind_token,
  parse_operand_kind, encoding_token, parse_encoding, xref_return_token, parse_xref_return,
  binding_kind_to_string, parse_binding_kind, gpr_token, parse_gpr, bool_token,
}
use detour_mod_kit.Manifest.{
  BindingKind, Gpr, Mode, OperandKind, StringEncoding, XrefReturn, AnchorKind, address,
  pointer_chain, mid_hook_register, vmt_method, rax, rbx, rcx, rdx, rsi, rdi, rbp, r8, r9, r10, r11,
  r12, r13, r14, r15, direct, rip_relative, rtti_vtable, immediate, memory_displacement, utf8,
  utf16le, referencing_instruction, enclosing_function, string_pointer_slot, vtable_identity,
  rip_global, code_operand, manual, call_arg_home, quorum, export_name, unset,
}

-- The six kinds that a file can hold.
abbrev pub IsSerializable : AnchorKind → Type 0
IsSerializable call_arg_home = ⊥
IsSerializable quorum = ⊥
IsSerializable unset = ⊥
IsSerializable _ = Unit {0}

pub parse_anchor_kind-token :
    (k : AnchorKind) → IsSerializable k → parse_anchor_kind (anchor_kind_token k) ≡ some k
unfolding parse_anchor_kind anchor_kind_token
parse_anchor_kind-token vtable_identity h = refl
parse_anchor_kind-token rip_global h = refl
parse_anchor_kind-token code_operand h = refl
parse_anchor_kind-token AnchorKind.string_xref h = refl
parse_anchor_kind-token manual h = refl
parse_anchor_kind-token export_name h = refl
parse_anchor_kind-token call_arg_home h = absurd h
parse_anchor_kind-token quorum h = absurd h
parse_anchor_kind-token unset h = absurd h

pub parse_scan_mode-scan_mode_token : (k : Mode) → parse_scan_mode (scan_mode_token k) ≡ some k
unfolding parse_scan_mode scan_mode_token
parse_scan_mode-scan_mode_token direct = refl
parse_scan_mode-scan_mode_token rip_relative = refl
parse_scan_mode-scan_mode_token rtti_vtable = refl
parse_scan_mode-scan_mode_token Mode.string_xref = refl

pub parse_operand_kind-operand_kind_token :
    (k : OperandKind) → parse_operand_kind (operand_kind_token k) ≡ some k
unfolding parse_operand_kind operand_kind_token
parse_operand_kind-operand_kind_token immediate = refl
parse_operand_kind-operand_kind_token memory_displacement = refl

pub parse_encoding-encoding_token :
    (k : StringEncoding) → parse_encoding (encoding_token k) ≡ some k
unfolding parse_encoding encoding_token
parse_encoding-encoding_token utf8 = refl
parse_encoding-encoding_token utf16le = refl

pub parse_xref_return-xref_return_token :
    (k : XrefReturn) → parse_xref_return (xref_return_token k) ≡ some k
unfolding parse_xref_return xref_return_token
parse_xref_return-xref_return_token referencing_instruction = refl
parse_xref_return-xref_return_token enclosing_function = refl
parse_xref_return-xref_return_token string_pointer_slot = refl

pub parse_binding_kind-binding_kind_to_string :
    (k : BindingKind) → parse_binding_kind (binding_kind_to_string k) ≡ some k
unfolding parse_binding_kind binding_kind_to_string
parse_binding_kind-binding_kind_to_string address = refl
parse_binding_kind-binding_kind_to_string pointer_chain = refl
parse_binding_kind-binding_kind_to_string mid_hook_register = refl
parse_binding_kind-binding_kind_to_string vmt_method = refl

pub parse_gpr-gpr_token : (k : Gpr) → parse_gpr (gpr_token k) ≡ some k
unfolding parse_gpr gpr_token
parse_gpr-gpr_token rax = refl
parse_gpr-gpr_token rbx = refl
parse_gpr-gpr_token rcx = refl
parse_gpr-gpr_token rdx = refl
parse_gpr-gpr_token rsi = refl
parse_gpr-gpr_token rdi = refl
parse_gpr-gpr_token rbp = refl
parse_gpr-gpr_token r8 = refl
parse_gpr-gpr_token r9 = refl
parse_gpr-gpr_token r10 = refl
parse_gpr-gpr_token r11 = refl
parse_gpr-gpr_token r12 = refl
parse_gpr-gpr_token r13 = refl
parse_gpr-gpr_token r14 = refl
parse_gpr-gpr_token r15 = refl

pub parse_bool-bool_token : (k : Bool) → parse_bool (bool_token k) ≡ some k
unfolding parse_bool
parse_bool-bool_token true = refl
parse_bool-bool_token false = refl
