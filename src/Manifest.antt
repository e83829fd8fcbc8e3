-- ===== src/Manifest.antt =====
-- The signature manifest: include/DetourModKit/manifest.hpp and src/manifest.cpp. This file has the data;
-- Numbers and Tokens the readers and writers of single values, Rung and Record those of a section, File
-- those of the whole file over the INI library, Signature what a record compiles to and Gate what of it is
-- trusted. A record's validator, which no file carries, is left out, so that a record is plain data.
pub mod Numbers
pub mod Tokens
pub mod Sections
pub mod Entries
pub mod File
pub mod Gate
use detour_mod_kit.Base.{ℕ, Bool, true, false, List, []}
use detour_mod_kit.Base.Int.{ℤ, pos}
use detour_mod_kit.Text.{Text}

pub data BindingKind : Type 0 where
  address pointer_chain mid_hook_register vmt_method : BindingKind

pub data Gpr : Type 0 where
  rax rbx rcx rdx rsi rdi rbp r8 r9 r10 r11 r12 r13 r14 r15 : Gpr

pub data Mode : Type 0 where
  direct rip_relative rtti_vtable string_xref : Mode

pub data OperandKind : Type 0 where
  immediate memory_displacement : OperandKind

pub data StringEncoding : Type 0 where
  utf8 utf16le : StringEncoding

pub data XrefReturn : Type 0 where
  referencing_instruction enclosing_function string_pointer_slot : XrefReturn

-- `out_of_range` is a number that is no enumerator.
pub data Pages : Type 0 where
  readable executable out_of_range : Pages

pub data AnchorKind : Type 0 where
  vtable_identity rip_global code_operand string_xref manual call_arg_home quorum export_name
        unset :
      AnchorKind

abbrev pub xmm_index_unused : ℕ
xmm_index_unused = 0xFF

abbrev pub schema_version : ℕ
schema_version = 1

pub record Binding : Type 0 where
  pub kind : BindingKind
  pub offsets : List ℤ
  pub value_width : ℕ
  pub read_register : Gpr
  pub xmm_index : ℕ
  pub vmt_index : ℕ

pub record CandidateSpec : Type 0 where
  pub name : Text
  pub mode : Mode
  pub pattern : Text
  pub walk_back : ℤ
  pub displacement_at : ℤ
  pub instruction_length : ℕ
  pub mangled : Text
  pub string_text : Text
  pub string_encoding : StringEncoding
  pub string_return : XrefReturn
  pub string_require_terminator : Bool
  pub string_broad_match : Bool

pub record SignatureRecord : Type 0 where
  pub label : Text
  pub kind : AnchorKind
  pub module_name : Text
  pub ladder : List CandidateSpec
  pub mangled : Text
  pub operand_kind : OperandKind
  pub operand_index : ℕ
  pub byte_width : ℕ
  pub xref_text : Text
  pub xref_encoding : StringEncoding
  pub xref_return : XrefReturn
  pub xref_require_terminator : Bool
  pub xref_broad_match : Bool
  pub manual_value : ℤ
  pub binding : Binding
  pub expected_fingerprint : ℕ
  pub pages : Pages
  pub export_symbol : Text

-- `schema` is always written and read as the one version.
pub record ManifestFile : Type 0 where
  pub schema : ℕ
  pub revision : ℕ
  pub records : List SignatureRecord

abbrev pub default_binding : Binding
default_binding = record {
  kind = address;
  offsets = [];
  value_width = 8;
  read_register = rax;
  xmm_index = xmm_index_unused;
  vmt_index = 0;
}

abbrev pub default_candidate : CandidateSpec
default_candidate = record {
  name = [];
  mode = direct;
  pattern = [];
  walk_back = pos 0;
  displacement_at = pos 0;
  instruction_length = 0;
  mangled = [];
  string_text = [];
  string_encoding = utf8;
  string_return = referencing_instruction;
  string_require_terminator = true;
  string_broad_match = false;
}

abbrev pub default_record : SignatureRecord
default_record = record {
  label = [];
  kind = rip_global;
  module_name = [];
  ladder = [];
  mangled = [];
  operand_kind = immediate;
  operand_index = 0;
  byte_width = 0;
  xref_text = [];
  xref_encoding = utf8;
  xref_return = referencing_instruction;
  xref_require_terminator = true;
  xref_broad_match = false;
  manual_value = pos 0;
  binding = default_binding;
  expected_fingerprint = 0;
  pages = readable;
  export_symbol = [];
}
