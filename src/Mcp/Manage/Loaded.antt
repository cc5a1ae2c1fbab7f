-- ===== src/Mcp/Manage/Loaded.antt =====
-- kernel/mcp.py: the policy that is added, loaded.
use mathlib.Core.Path.{subst}
use context_control_plane.Base.{
  String, ◌≡◌, refl, sym, ◌∙◌, inl, inr, true, List, [], ◌∷◌, contains, ◌==◌, eq_iff, false≢true,
  arith, Bool-cases, if_false,
}
use context_control_plane.Python.Error.{ok}
use context_control_plane.Python.Text.{strip, lower, lower_char, or_else, is_empty}
use context_control_plane.Python.Value.{
  str, arr, obj, Fields, end, dict, texts, objects, text_or, get_or, find, put, pop, bool,
}
use context_control_plane.Resource.{ResourceDocument, experimental, source_of}
use context_control_plane.Sorting.{All}
use context_control_plane.Tracing.{field_text, object_or_raise}
use context_control_plane.Tracing.Written.{field_text-found, namespace-read}
use context_control_plane.Packs.Written.{IsItem, stripped_texts-texts}
use context_control_plane.Registry.Documents.Returns.{checked_iff}
use context_control_plane.Registry.Loaders.{
  coerce_stability, required, compatibility_fields, read_compatibility, namespace_text,
  build_resource_document,
}
use context_control_plane.Registry.Loaders.Written.{required-given}
use context_control_plane.Mcp.Profile.{
  trust_tiers, secret_usage_modes, egress_modes, McpPolicyProfile, pick, mcp_string_list,
  mcp_mapping, mcp_items, stringify_mapping_list, lowered_or, one_of, policy_from_document,
}
use context_control_plane.Mcp.Manage.{
  NewServer, addable_egress_modes, payload_of, policy_spec, tool_rules_of, redacted_names,
}

-- A test that the accepted texts pass is passed by a text that is accepted.
All-contains :
    (P : String → Type 0) (xs : List String) (s : String) → All P xs → contains xs s ≡ true → P s
unfolding contains
All-contains P [] s a h = absurd (false≢true h)
All-contains P (x ∷ xs) s a h = elim (Bool-cases (x == s)) [
  | inl e ↦ subst P ((eq_iff x s).0 e) a.0
  | inr e ↦ All-contains P xs s a.1 (sym (if_false true e) ∙ h)
]

pub one_of_accepted :
    (accepted : List String) (s t what : String)
    → one_of accepted s what ≡ ok t
    → contains accepted s ≡ true
unfolding one_of
one_of_accepted accepted s t what h = elim (Bool-cases (contains accepted s)) [
  | inl e ↦ e
  | inr e ↦ ground arith
]

one_of-given :
    (accepted : List String) (s what : String)
    → contains accepted s ≡ true
    → one_of accepted s what ≡ ok s
unfolding one_of
one_of-given accepted s what h = rw h refl

tier-read : (s : String) → contains trust_tiers s ≡ true → lowered_or (str s) "quarantined" ≡ s
unfolding lowered_or text_or lower lower_char strip or_else
tier-read s h =
    All-contains (λ t. lowered_or (str t) "quarantined" ≡ t) trust_tiers s
      (refl, (refl, (refl, (refl, tt)))) h

usage-read : (s : String) → contains secret_usage_modes s ≡ true → lowered_or (str s) "brokered" ≡ s
unfolding lowered_or text_or lower lower_char strip or_else
usage-read s h =
    All-contains (λ t. lowered_or (str t) "brokered" ≡ t) secret_usage_modes s
      (refl, (refl, (refl, tt))) h

mode-read :
    (s : String) → contains addable_egress_modes s ≡ true → lowered_or (str s) "unspecified" ≡ s
unfolding lowered_or text_or lower lower_char strip or_else
mode-read s h =
    All-contains (λ t. lowered_or (str t) "unspecified" ≡ t) addable_egress_modes s
      (refl, (refl, (refl, tt))) h

mode-known : (s : String) → contains addable_egress_modes s ≡ true → contains egress_modes s ≡ true
unfolding contains
mode-known s h =
    All-contains (λ t. contains egress_modes t ≡ true) addable_egress_modes s
      (refl, (refl, (refl, tt))) h

mcp_items-objects : (ms : List Fields) (n : String) → mcp_items (objects ms) n ≡ ok ms
unfolding mcp_items objects
mcp_items-objects [] n = refl
mcp_items-objects (m ∷ ms) n = rw (mcp_items-objects ms n) refl

-- The document of a payload.
abbrev pub added_document : String → NewServer → Fields → String → ResourceDocument
added_document kind n spec path = record {
  identifier = record {
    api_version = "ccp.io/v1beta1";
    kind = kind;
    name = n.name;
    namespace = n.namespace;
  };
  spec = spec;
  metadata = end;
  compatibility = record {
    introduced_in = "";
    deprecated_in = "";
    replaced_by = "";
    stability = experimental;
  };
  provenance = record { source = path; layer = "local"; native = true } ∷ [];
}

-- The policy that is added.
abbrev pub added_policy : NewServer → List String → String → McpPolicyProfile
added_policy n allow path = record {
  name = n.name;
  namespace = n.namespace;
  targets = n.name ∷ [];
  trust_tier = n.trust_tier;
  sandbox_profile = dict (
      (
        "filesystem",
        obj (
            dict (
              ("read", arr (texts n.sandbox_read))
              ∷ ("write", arr (texts n.sandbox_write))
              ∷ ("allowTmp", bool n.allow_tmp)
              ∷ [])),
      )
      ∷ []);
  egress_policy = dict (("mode", str n.egress_mode) ∷ ("allow", arr (texts allow)) ∷ []);
  secret_usage_mode = n.secret_usage_mode;
  input_sanitization = redacted_names;
  output_sanitization = redacted_names;
  trace_redaction = redacted_names;
  tool_rules = tool_rules_of n.declared_tools;
  source = path;
}

read_compatibility_end :
    read_compatibility end
    ≡ ok (record {
      introduced_in = "";
      deprecated_in = "";
      replaced_by = "";
      stability = experimental;
    })
unfolding read_compatibility coerce_stability is_empty lower strip text_or get_or field_text
read_compatibility_end = refl

pub payload-built :
    (kind : String) (n : NewServer) (spec : Fields) (path : String)
    → IsItem kind
    → IsItem n.name
    → IsItem n.namespace
    → build_resource_document (obj (payload_of kind n spec)) path "local" true
      ≡ ok (added_document kind n spec path)
unfolding build_resource_document payload_of object_or_raise get_or find compatibility_fields pop
    namespace_text required field_text is_empty
payload-built kind n spec path k name namespace =
    let top = field_text-found (payload_of kind n spec) in
    let inner =
      field_text-found (dict (("name", str n.name) ∷ ("namespace", str n.namespace) ∷ [])) in
    rw
      (
        top "apiVersion" "ccp.io/v1beta1" refl (unfold strip in refl),
        top "kind" kind refl k.0,
        required-given kind "resource document is missing kind" k.1,
        inner "name" n.name refl name.0,
        required-given n.name "resource document metadata.name is required" name.1,
        read_compatibility_end,
        namespace-read n.namespace namespace.0 namespace.1,
      )
      ((checked_iff (added_document kind n spec path)).1 (refl, refl))

pub policy-read :
    (n : NewServer) (allow : List String) (path : String)
    → IsItem n.name
    → contains trust_tiers n.trust_tier ≡ true
    → contains secret_usage_modes n.secret_usage_mode ≡ true
    → contains addable_egress_modes n.egress_mode ≡ true
    → policy_from_document (added_document "McpPolicy" n (policy_spec n allow) path)
      ≡ ok (added_policy n allow path)
unfolding policy_from_document policy_spec pick find mcp_mapping get_or put source_of
    mcp_string_list stringify_mapping_list
policy-read n allow path name tier usage mode =
    rw
      (
        tier-read n.trust_tier tier,
        one_of-given trust_tiers n.trust_tier "trust tier" tier,
        usage-read n.secret_usage_mode usage,
        one_of-given secret_usage_modes n.secret_usage_mode "secret usage mode" usage,
        mode-read n.egress_mode mode,
        one_of-given egress_modes n.egress_mode "egress mode" (mode-known n.egress_mode mode),
        mcp_items-objects (tool_rules_of n.declared_tools) "tool_rules",
        stripped_texts-texts (n.name ∷ []) (name, tt),
      )
      refl
