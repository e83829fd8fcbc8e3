-- ===== src/Manifest/Entries/Records/Reading.antt =====
-- A record's section that is written reads back as what the file carries of it.
use detour_mod_kit.Base.{
  ℕ, ◌<◌, ◌≡◌, ◌≢◌, refl, ◌∙◌, [], ◌∷◌, ◌++◌, some, arith, ◌==◌, Bool-cases, inl, inr,
}
use detour_mod_kit.Text.{Text, codes}
use detour_mod_kit.Text.Unsigned.{unsigned_values}
use detour_mod_kit.Errors.{Result, value}
use detour_mod_kit.Manifest.Numbers.{parse_unsigned}
use detour_mod_kit.Manifest.Numbers.RoundTrip.{
  parse_unsigned-digits, parse_unsigned-hex, parse_u8-digits, parse_signed-hex,
}
use detour_mod_kit.Manifest.Tokens.{
  anchor_kind_token, binding_kind_to_string, parse_binding_kind, parse_pages, pages_token,
}
use detour_mod_kit.Manifest.Tokens.RoundTrip.{
  IsSerializable, parse_anchor_kind-token, parse_operand_kind-operand_kind_token,
  parse_encoding-encoding_token, parse_xref_return-xref_return_token, parse_gpr-gpr_token,
  parse_bool-bool_token,
}
use detour_mod_kit.Manifest.{
  BindingKind, address, pointer_chain, mid_hook_register, vmt_method, xmm_index_unused, Pages,
  readable, executable, out_of_range, AnchorKind, vtable_identity, rip_global, code_operand, manual,
  export_name, call_arg_home, quorum, unset, Binding, SignatureRecord,
}
use detour_mod_kit.Manifest.Sections.{
  optional, text_or_empty, string_fields, parse_binding, operand_fields, kind_fields, parse_record,
}
use detour_mod_kit.Manifest.Entries.{
  Fields, field, pages_entries, binding_entries, fingerprint_entries, kind_entries, record_entries,
}
use detour_mod_kit.Manifest.Entries.Records.{
  carried_binding, BindingOk, carried_kind, KindOk, carried_section, SectionOk,
}
use detour_mod_kit.Manifest.Entries.Records.Offsets.{parse_offsets-offsets_text}
use detour_mod_kit.Manifest.Entries.Records.Parts.{
  Absent, kind_keys, head_keys, binding_keys, field-front, field-back, Absent-append, head_part,
  binding_part, head_part-Absent, binding_part-Absent, fingerprint_entries-Absent,
  kind_entries-Absent,
}

abbrev binding_of : Fields → Result Binding
binding_of fs =
    parse_binding (field (codes "binding") fs) (field (codes "offsets") fs)
      (field (codes "value_width") fs) (field (codes "read_register") fs)
      (field (codes "xmm_index") fs) (field (codes "vmt_index") fs)

binding_reads :
    (kind : BindingKind) (b : Binding)
    → BindingOk kind b
    → binding_of (binding_part (binding_kind_to_string kind) kind b)
      ≡ value (carried_binding kind b)
unfolding parse_binding field binding_entries binding_kind_to_string parse_binding_kind
binding_reads address b h = refl
binding_reads pointer_chain b h =
    rw (parse_offsets-offsets_text b.offsets h.0, parse_u8-digits b.value_width h.1)
binding_reads vmt_method b h = rw (parse_unsigned-digits b.vmt_index h)
binding_reads mid_hook_register b h = elim (Bool-cases (b.xmm_index == xmm_index_unused)) [
  | inl e ↦
      let q : xmm_index_unused ≡ b.xmm_index = ground arith in
      rw e (rw (parse_gpr-gpr_token b.read_register) (rw q))
  | inr e ↦ rw e (rw (parse_gpr-gpr_token b.read_register, parse_u8-digits b.xmm_index h))
]

IsSerializable-kind :
    (kind : AnchorKind) (r : SignatureRecord) → KindOk kind r → IsSerializable kind
IsSerializable-kind vtable_identity r h = tt
IsSerializable-kind rip_global r h = tt
IsSerializable-kind code_operand r h = tt
IsSerializable-kind AnchorKind.string_xref r h = tt
IsSerializable-kind manual r h = tt
IsSerializable-kind export_name r h = tt
IsSerializable-kind call_arg_home r h = h
IsSerializable-kind quorum r h = h
IsSerializable-kind unset r h = h

fingerprint_reads :
    (n : ℕ)
    → n < unsigned_values
    → optional parse_unsigned 0 (field (codes "fingerprint") (fingerprint_entries n)) ≡ value n
unfolding field
fingerprint_reads n h = elim (Bool-cases (n == 0)) [
  | inl e ↦ let q : n ≡ 0 = ground arith in rw q
  | inr e ↦ rw e (rw (parse_unsigned-hex n h))
]

pages_reads :
    (p : Pages)
    → p ≢ out_of_range
    → optional parse_pages readable (field (codes "pages") (pages_entries p)) ≡ value p
unfolding field pages_token parse_pages
pages_reads readable h = refl
pages_reads executable h = refl
pages_reads out_of_range h = absurd (h refl)

-- The fields of a kind, read from its own part alone.
own_reads :
    (kind : AnchorKind) (r to : SignatureRecord)
    → KindOk kind r
    → kind_fields kind (λ k. field k (kind_entries kind r)) to ≡ value (carried_kind kind r to)
unfolding kind_fields kind_entries field operand_fields string_fields
own_reads vtable_identity r to h = refl
own_reads code_operand r to h = rw (
  parse_operand_kind-operand_kind_token r.operand_kind,
  parse_u8-digits r.operand_index h.0,
  parse_u8-digits r.byte_width h.1,
)
own_reads AnchorKind.string_xref r to h = rw (
  parse_encoding-encoding_token r.xref_encoding,
  parse_xref_return-xref_return_token r.xref_return,
  parse_bool-bool_token r.xref_require_terminator,
  parse_bool-bool_token r.xref_broad_match,
)
own_reads manual r to h = rw (parse_signed-hex r.manual_value h)
own_reads rip_global r to h = unfold field in rw (pages_reads r.pages h)
own_reads export_name r to h = refl
own_reads call_arg_home r to h = absurd h
own_reads quorum r to h = absurd h
own_reads unset r to h = absurd h

-- The other parts do not matter to it.
kind_fields_back :
    (kind : AnchorKind) (fs gs : Fields) (to : SignatureRecord)
    → Absent kind_keys fs
    → kind_fields kind (λ k. field k (fs ++ gs)) to ≡ kind_fields kind (λ k. field k gs) to
unfolding kind_fields
kind_fields_back vtable_identity fs gs to (a, _) = rw (field-back (codes "mangled") fs gs a)
kind_fields_back code_operand fs gs to (_, (a, (b, (c, _)))) = rw (
  field-back (codes "operand_kind") fs gs a,
  field-back (codes "operand_index") fs gs b,
  field-back (codes "byte_width") fs gs c,
)
kind_fields_back AnchorKind.string_xref fs gs to (_, (_, (_, (_, (a, (b, (c, (d, (e, _))))))))) =
    rw (
      field-back (codes "xref_text") fs gs a,
      field-back (codes "xref_encoding") fs gs b,
      field-back (codes "xref_return") fs gs c,
      field-back (codes "xref_require_terminator") fs gs d,
      field-back (codes "xref_broad_match") fs gs e,
    )
kind_fields_back manual fs gs to (_, (_, (_, (_, (_, (_, (_, (_, (_, (a, _)))))))))) =
    rw (field-back (codes "manual_value") fs gs a)
kind_fields_back rip_global fs gs to (_, (_, (_, (_, (_, (_, (_, (_, (_, (_, (a, _))))))))))) =
    rw (field-back (codes "pages") fs gs a)
kind_fields_back export_name fs gs to
      (_, (_, (_, (_, (_, (_, (_, (_, (_, (_, (_, (a, _)))))))))))) =
    rw (field-back (codes "export_name") fs gs a)
kind_fields_back call_arg_home fs gs to a = refl
kind_fields_back quorum fs gs to a = refl
kind_fields_back unset fs gs to a = refl

-- A binding is read from its part alone.
binding_of_front : (fs gs : Fields) → Absent binding_keys gs → binding_of (fs ++ gs) ≡ binding_of fs
binding_of_front fs gs (a, (b, (c, (d, (e, (f, _)))))) = rw (
  field-front (codes "binding") fs gs a,
  field-front (codes "offsets") fs gs b,
  field-front (codes "value_width") fs gs c,
  field-front (codes "read_register") fs gs d,
  field-front (codes "xmm_index") fs gs e,
  field-front (codes "vmt_index") fs gs f,
)

binding_of_back : (fs gs : Fields) → Absent binding_keys fs → binding_of (fs ++ gs) ≡ binding_of gs
binding_of_back fs gs (a, (b, (c, (d, (e, (f, _)))))) = rw (
  field-back (codes "binding") fs gs a,
  field-back (codes "offsets") fs gs b,
  field-back (codes "value_width") fs gs c,
  field-back (codes "read_register") fs gs d,
  field-back (codes "xmm_index") fs gs e,
  field-back (codes "vmt_index") fs gs f,
)

head_reads :
    (token name : Text)
    → (field (codes "kind") (head_part token name) ≡ some token)
      × (text_or_empty (field (codes "module") (head_part token name)) ≡ name)
unfolding field
head_reads token [] = (refl, refl)
head_reads token (c ∷ cs) = (refl, refl)

module _ (r : SignatureRecord) (ok : SectionOk r) where
  abbrev H : Fields
  H = head_part (anchor_kind_token r.kind) r.module_name

  abbrev B : Fields
  B = binding_part (binding_kind_to_string r.binding.kind) r.binding.kind r.binding

  abbrev F : Fields
  F = fingerprint_entries r.expected_fingerprint

  abbrev K : Fields
  K = kind_entries r.kind r

  reads_head :
      (field (codes "kind") (H ++ (B ++ (F ++ K))) ≡ some (anchor_kind_token r.kind))
      × (text_or_empty (field (codes "module") (H ++ (B ++ (F ++ K)))) ≡ r.module_name)
  reads_head =
      let b =
        (binding_part-Absent (binding_kind_to_string r.binding.kind) r.binding.kind r.binding).0 in
      let f = (fingerprint_entries-Absent r.expected_fingerprint).0 in
      let k = (kind_entries-Absent r.kind r).0 in
      let (x, (y, _)) = Absent-append head_keys B (F ++ K) b (Absent-append head_keys F K f k) in
      let (u, v) = head_reads (anchor_kind_token r.kind) r.module_name in
      (
        rw (field-front (codes "kind") H (B ++ (F ++ K)) x) u,
        rw (field-front (codes "module") H (B ++ (F ++ K)) y) v,
      )

  reads_binding :
      binding_of (H ++ (B ++ (F ++ K))) ≡ value (carried_binding r.binding.kind r.binding)
  reads_binding =
      let h = (head_part-Absent (anchor_kind_token r.kind) r.module_name).0 in
      let f = (fingerprint_entries-Absent r.expected_fingerprint).1 in
      let k = (kind_entries-Absent r.kind r).1 in
      binding_of_back H (B ++ (F ++ K)) h
      ∙ binding_of_front B (F ++ K) (Absent-append binding_keys F K f k)
      ∙ binding_reads r.binding.kind r.binding ok.binding

  reads_fingerprint :
      optional parse_unsigned 0 (field (codes "fingerprint") (H ++ (B ++ (F ++ K))))
      ≡ value r.expected_fingerprint
  reads_fingerprint =
      let h = (head_part-Absent (anchor_kind_token r.kind) r.module_name).1 in
      let b =
        (binding_part-Absent (binding_kind_to_string r.binding.kind) r.binding.kind r.binding).1 in
      let k = (kind_entries-Absent r.kind r).2 in
      rw
        (
          field-back (codes "fingerprint") H (B ++ (F ++ K)) h.0,
          field-back (codes "fingerprint") B (F ++ K) b.0,
          field-front (codes "fingerprint") F K k.0,
        )
        (fingerprint_reads r.expected_fingerprint ok.fingerprint)

  reads_kind :
      (to : SignatureRecord)
      → kind_fields r.kind (λ k. field k (H ++ (B ++ (F ++ K)))) to
        ≡ value (carried_kind r.kind r to)
  reads_kind to =
      kind_fields_back r.kind H (B ++ (F ++ K)) to
        (head_part-Absent (anchor_kind_token r.kind) r.module_name).2
      ∙ kind_fields_back r.kind B (F ++ K) to
          (binding_part-Absent (binding_kind_to_string r.binding.kind) r.binding.kind r.binding).2
      ∙ kind_fields_back r.kind F K to (fingerprint_entries-Absent r.expected_fingerprint).2
      ∙ own_reads r.kind r to ok.kind

  pub parse_record-entries :
      parse_record (λ k. field k (record_entries r)) r.label ≡ value (carried_section r)
  unfolding parse_record record_entries
  parse_record-entries = rw (reads_head.0) (
      rw (parse_anchor_kind-token r.kind (IsSerializable-kind r.kind r ok.kind))
        (rw (reads_binding, reads_fingerprint, reads_head.1) (reads_kind _)))
