-- ===== src/Manifest/Tokens.antt =====
-- The words for the enumerators of a manifest, written and read, in src/manifest.cpp. A number that is no
-- enumerator has no model, but of Pages.
pub mod RoundTrip
use detour_mod_kit.Base.{Bool, true, false, List, [], ◌∷◌, Option, none, some, if◌then◌else◌}
use detour_mod_kit.Text.{Text, codes, text_eq}
use detour_mod_kit.Manifest.Numbers.{to_lower, trim}
use detour_mod_kit.Manifest.{
  BindingKind, Gpr, Mode, OperandKind, StringEncoding, XrefReturn, Pages, AnchorKind, address,
  pointer_chain, mid_hook_register, vmt_method, rax, rbx, rcx, rdx, rsi, rdi, rbp, r8, r9, r10, r11,
  r12, r13, r14, r15, direct, rip_relative, rtti_vtable, immediate, memory_displacement, utf8,
  utf16le, referencing_instruction, enclosing_function, string_pointer_slot, readable, executable,
  out_of_range, vtable_identity, rip_global, code_operand, manual, call_arg_home, quorum,
  export_name, unset,
}

unfoldable pub anchor_kind_token : AnchorKind → Text
anchor_kind_token vtable_identity = codes "vtable_identity"
anchor_kind_token rip_global = codes "rip_global"
anchor_kind_token code_operand = codes "code_operand"
anchor_kind_token AnchorKind.string_xref = codes "string_xref"
anchor_kind_token export_name = codes "export_name"
anchor_kind_token manual = codes "manual"
anchor_kind_token call_arg_home = codes "call_arg_home"
anchor_kind_token quorum = codes "quorum"
anchor_kind_token unset = codes "unset"

unfoldable pub parse_anchor_kind : Text → Option AnchorKind
unfolding to_lower trim text_eq
parse_anchor_kind token =
    let lowered = to_lower (trim token) in
    if text_eq lowered (codes "vtable_identity")
    then some vtable_identity
    else if text_eq lowered (codes "rip_global")
    then some rip_global
    else if text_eq lowered (codes "code_operand")
    then some code_operand
    else if text_eq lowered (codes "string_xref")
    then some AnchorKind.string_xref
    else if text_eq lowered (codes "export_name")
    then some export_name
    else if text_eq lowered (codes "manual")
    then some manual
    else none

unfoldable pub scan_mode_token : Mode → Text
scan_mode_token direct = codes "direct"
scan_mode_token rip_relative = codes "rip_relative"
scan_mode_token rtti_vtable = codes "rtti_vtable"
scan_mode_token Mode.string_xref = codes "string_xref"

unfoldable pub parse_scan_mode : Text → Option Mode
unfolding to_lower trim text_eq
parse_scan_mode token =
    let lowered = to_lower (trim token) in
    if text_eq lowered (codes "direct")
    then some direct
    else if text_eq lowered (codes "rip_relative")
    then some rip_relative
    else if text_eq lowered (codes "rtti_vtable")
    then some rtti_vtable
    else if text_eq lowered (codes "string_xref")
    then some Mode.string_xref
    else none

unfoldable pub operand_kind_token : OperandKind → Text
operand_kind_token immediate = codes "immediate"
operand_kind_token memory_displacement = codes "memory_displacement"

unfoldable pub parse_operand_kind : Text → Option OperandKind
unfolding to_lower trim text_eq
parse_operand_kind token =
    let lowered = to_lower (trim token) in
    if text_eq lowered (codes "immediate")
    then some immediate
    else if text_eq lowered (codes "memory_displacement")
    then some memory_displacement
    else none

unfoldable pub encoding_token : StringEncoding → Text
encoding_token utf8 = codes "utf8"
encoding_token utf16le = codes "utf16le"

unfoldable pub parse_encoding : Text → Option StringEncoding
unfolding to_lower trim text_eq
parse_encoding token =
    let lowered = to_lower (trim token) in
    if text_eq lowered (codes "utf8")
    then some utf8
    else if text_eq lowered (codes "utf16le")
    then some utf16le
    else none

unfoldable pub pages_token : Pages → Text
pages_token readable = codes "readable"
pages_token executable = codes "executable"
pages_token out_of_range = codes "invalid"

unfoldable pub parse_pages : Text → Option Pages
unfolding to_lower trim text_eq
parse_pages token =
    let lowered = to_lower (trim token) in
    if text_eq lowered (codes "readable")
    then some readable
    else if text_eq lowered (codes "executable")
    then some executable
    else none

unfoldable pub xref_return_token : XrefReturn → Text
xref_return_token referencing_instruction = codes "instruction"
xref_return_token enclosing_function = codes "function"
xref_return_token string_pointer_slot = codes "pointer_slot"

unfoldable pub parse_xref_return : Text → Option XrefReturn
unfolding to_lower trim text_eq
parse_xref_return token =
    let lowered = to_lower (trim token) in
    if text_eq lowered (codes "instruction")
    then some referencing_instruction
    else if text_eq lowered (codes "function")
    then some enclosing_function
    else if text_eq lowered (codes "pointer_slot")
    then some string_pointer_slot
    else none

unfoldable pub binding_kind_to_string : BindingKind → Text
binding_kind_to_string address = codes "address"
binding_kind_to_string pointer_chain = codes "pointer_chain"
binding_kind_to_string mid_hook_register = codes "mid_hook_register"
binding_kind_to_string vmt_method = codes "vmt_method"

unfoldable pub parse_binding_kind : Text → Option BindingKind
unfolding to_lower trim text_eq
parse_binding_kind token =
    let lowered = to_lower (trim token) in
    if text_eq lowered (codes "address")
    then some address
    else if text_eq lowered (codes "pointer_chain")
    then some pointer_chain
    else if text_eq lowered (codes "mid_hook_register")
    then some mid_hook_register
    else if text_eq lowered (codes "vmt_method")
    then some vmt_method
    else none

-- GPR_TOKENS, by enumerator.
unfoldable pub gpr_token : Gpr → Text
gpr_token rax = codes "rax"
gpr_token rbx = codes "rbx"
gpr_token rcx = codes "rcx"
gpr_token rdx = codes "rdx"
gpr_token rsi = codes "rsi"
gpr_token rdi = codes "rdi"
gpr_token rbp = codes "rbp"
gpr_token r8 = codes "r8"
gpr_token r9 = codes "r9"
gpr_token r10 = codes "r10"
gpr_token r11 = codes "r11"
gpr_token r12 = codes "r12"
gpr_token r13 = codes "r13"
gpr_token r14 = codes "r14"
gpr_token r15 = codes "r15"

abbrev pub gprs : List Gpr
gprs = rax ∷ rbx ∷ rcx ∷ rdx ∷ rsi ∷ rdi ∷ rbp ∷ r8 ∷ r9 ∷ r10 ∷ r11 ∷ r12 ∷ r13 ∷ r14 ∷ r15 ∷ []

unfoldable pub find_gpr : Text → List Gpr → Option Gpr
unfolding text_eq gpr_token
find_gpr lowered [] = none
find_gpr lowered (g ∷ gs) = if text_eq lowered (gpr_token g) then some g else find_gpr lowered gs

unfoldable pub parse_gpr : Text → Option Gpr
unfolding find_gpr to_lower trim
parse_gpr token = find_gpr (to_lower (trim token)) gprs

abbrev pub bool_token : Bool → Text
bool_token true = codes "true"
bool_token false = codes "false"
