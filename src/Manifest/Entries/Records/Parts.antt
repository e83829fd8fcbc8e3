-- ===== src/Manifest/Entries/Records/Parts.antt =====
-- Which keys the parts of a record's section do not have, and what that means for a look at the whole.
use detour_mod_kit.Base.{
  ℕ, ◌≡◌, refl, List, [], ◌∷◌, ◌++◌, Option, none, some, arith, ◌==◌, All, Bool-cases, inl, inr,
}
use detour_mod_kit.Text.{Text, codes}
use detour_mod_kit.Manifest.{
  BindingKind, address, pointer_chain, mid_hook_register, vmt_method, xmm_index_unused, Pages,
  readable, executable, out_of_range, AnchorKind, vtable_identity, rip_global, code_operand, manual,
  export_name, call_arg_home, quorum, unset, Binding, SignatureRecord,
}
use detour_mod_kit.Manifest.Tokens.{gpr_token}
use detour_mod_kit.Manifest.Entries.{
  Fields, later, later-none, field, unless_empty, binding_entries, fingerprint_entries,
  pages_entries, kind_entries, xmm_entries,
}

abbrev pub Absent : List Text → Fields → Type 0
Absent ks fs = All (λ k. field k fs ≡ none) ks

abbrev pub head_keys : List Text
head_keys = codes "kind" ∷ codes "module" ∷ []

abbrev pub binding_keys : List Text
binding_keys =
    codes "binding"
    ∷ codes "offsets"
    ∷ codes "value_width"
    ∷ codes "read_register"
    ∷ codes "xmm_index"
    ∷ codes "vmt_index"
    ∷ []

abbrev pub fingerprint_keys : List Text
fingerprint_keys = codes "fingerprint" ∷ []

abbrev pub kind_keys : List Text
kind_keys =
    codes "mangled"
    ∷ codes "operand_kind"
    ∷ codes "operand_index"
    ∷ codes "byte_width"
    ∷ codes "xref_text"
    ∷ codes "xref_encoding"
    ∷ codes "xref_return"
    ∷ codes "xref_require_terminator"
    ∷ codes "xref_broad_match"
    ∷ codes "manual_value"
    ∷ codes "pages"
    ∷ codes "export_name"
    ∷ []

later_assoc {ℓ} : {A : Type ℓ} (a b c : Option A) → later (later a b) c ≡ later a (later b c)
later_assoc none b c = refl
later_assoc (some x) b c = refl

pub field-append :
    (k : Text) (fs gs : Fields) → field k (fs ++ gs) ≡ later (field k gs) (field k fs)
unfolding field
field-append k [] gs = rw (later-none (field k gs))
field-append k ((j, v) ∷ fs) gs =
    rw (field-append k fs gs) (later_assoc (field k gs) (field k fs) _)

pub field-front : (k : Text) (fs gs : Fields) → field k gs ≡ none → field k (fs ++ gs) ≡ field k fs
field-front k fs gs h = rw (field-append k fs gs, h)

pub field-back : (k : Text) (fs gs : Fields) → field k fs ≡ none → field k (fs ++ gs) ≡ field k gs
field-back k fs gs h = rw (field-append k fs gs, h) (later-none (field k gs))

pub Absent-append :
    (ks : List Text) (fs gs : Fields) → Absent ks fs → Absent ks gs → Absent ks (fs ++ gs)
Absent-append [] fs gs h g = tt
Absent-append (k ∷ ks) fs gs (h, hs) (e, es) =
    (rw (field-back k fs gs h) e, Absent-append ks fs gs hs es)

abbrev pub head_part : Text → Text → Fields
head_part token name = (codes "kind", token) ∷ unless_empty (codes "module") name

abbrev pub binding_part : Text → BindingKind → Binding → Fields
binding_part token kind b = (codes "binding", token) ∷ binding_entries kind b

-- A test for each part and each group of keys of another.
pub head_part-Absent :
    (token name : Text)
    → Absent binding_keys (head_part token name)
      × Absent fingerprint_keys (head_part token name)
      × Absent kind_keys (head_part token name)
unfolding field
head_part-Absent token [] = (ground arith, ground arith, ground arith)
head_part-Absent token (c ∷ cs) = (ground arith, ground arith, ground arith)

mid_hook-Absent :
    (token : Text) (b : Binding) (rest : Fields) (ks : List Text)
    → Absent ks ((codes "binding", token) ∷ (codes "read_register", gpr_token b.read_register) ∷ [])
    → Absent ks rest
    → Absent ks
        ((codes "binding", token) ∷ (codes "read_register", gpr_token b.read_register) ∷ rest)
mid_hook-Absent token b rest ks h g =
    Absent-append ks
      ((codes "binding", token) ∷ (codes "read_register", gpr_token b.read_register) ∷ []) rest h g

xmm_entries-Absent :
    (n : ℕ)
    → Absent head_keys (xmm_entries n)
      × Absent fingerprint_keys (xmm_entries n)
      × Absent kind_keys (xmm_entries n)
unfolding field
xmm_entries-Absent n = elim (Bool-cases (n == xmm_index_unused)) [
  | inl e ↦ rw e (ground arith, ground arith, ground arith)
  | inr e ↦ rw e (ground arith, ground arith, ground arith)
]

pub binding_part-Absent :
    (token : Text) (kind : BindingKind) (b : Binding)
    → Absent head_keys (binding_part token kind b)
      × Absent fingerprint_keys (binding_part token kind b)
      × Absent kind_keys (binding_part token kind b)
unfolding field binding_entries
binding_part-Absent token address b = (ground arith, ground arith, ground arith)
binding_part-Absent token pointer_chain b = (ground arith, ground arith, ground arith)
binding_part-Absent token vmt_method b = (ground arith, ground arith, ground arith)
binding_part-Absent token mid_hook_register b =
    let (h, f, k) = xmm_entries-Absent b.xmm_index in
    (
      mid_hook-Absent token b (xmm_entries b.xmm_index) head_keys (ground arith) h,
      mid_hook-Absent token b (xmm_entries b.xmm_index) fingerprint_keys (ground arith) f,
      mid_hook-Absent token b (xmm_entries b.xmm_index) kind_keys (ground arith) k,
    )

pub fingerprint_entries-Absent :
    (n : ℕ)
    → Absent head_keys (fingerprint_entries n)
      × Absent binding_keys (fingerprint_entries n)
      × Absent kind_keys (fingerprint_entries n)
unfolding field
fingerprint_entries-Absent n = elim (Bool-cases (n == 0)) [
  | inl e ↦ rw e (ground arith, ground arith, ground arith)
  | inr e ↦ rw e (ground arith, ground arith, ground arith)
]

abbrev common_keys : List Text
common_keys = head_keys ++ (binding_keys ++ fingerprint_keys)

pages_entries-Absent : (p : Pages) → Absent common_keys (pages_entries p)
unfolding field
pages_entries-Absent readable = ground arith
pages_entries-Absent executable = ground arith
pages_entries-Absent out_of_range = ground arith

common-Absent : (kind : AnchorKind) (r : SignatureRecord) → Absent common_keys (kind_entries kind r)
unfolding field kind_entries
common-Absent rip_global r = pages_entries-Absent r.pages
common-Absent vtable_identity r = ground arith
common-Absent code_operand r = ground arith
common-Absent AnchorKind.string_xref r = ground arith
common-Absent manual r = ground arith
common-Absent export_name r = ground arith
common-Absent call_arg_home r = ground arith
common-Absent quorum r = ground arith
common-Absent unset r = ground arith

pub kind_entries-Absent :
    (kind : AnchorKind) (r : SignatureRecord)
    → Absent head_keys (kind_entries kind r)
      × Absent binding_keys (kind_entries kind r)
      × Absent fingerprint_keys (kind_entries kind r)
kind_entries-Absent kind r =
    let (a, (b, (c, (d, (e, (f, (g, (h, (i, _))))))))) = common-Absent kind r in
    ((a, (b, tt)), (c, (d, (e, (f, (g, (h, tt)))))), (i, tt))
