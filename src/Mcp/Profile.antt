-- ===== src/Mcp/Profile.antt =====
-- kernel/mcp.py: MCP servers and policies, as their documents declare them.
pub mod Known
use context_control_plane.Base.{
  String, ◌<>◌, Bool, true, false, not, ◌&&◌, ◌||◌, Option, none, some, List, [], ◌∷◌, ◌==◌,
  contains, if◌then◌else◌,
}
use context_control_plane.Python.Error.{Result, ok, err, mcp_error, ◌>>=◌}
use context_control_plane.Python.Text.{strip, lower, is_empty, or_else, repr}
use context_control_plane.Python.Value.{
  Value, null, bool, str, arr, obj, Items, nil, cons, Fields, end, dict, objects, texts, text_or,
  get_or, put, truthy, is_blank, find,
}
use context_control_plane.Resource.{ResourceDocument, source_of}
use context_control_plane.Packs.{stripped_texts}

abbrev pub trust_tiers : List String
trust_tiers = "builtin-trusted" ∷ "verified" ∷ "user-added" ∷ "quarantined" ∷ []

abbrev pub secret_usage_modes : List String
secret_usage_modes = "brokered" ∷ "ephemeral-materialization" ∷ "raw-secret" ∷ []

abbrev pub egress_modes : List String
egress_modes = "deny" ∷ "allowlist" ∷ "open" ∷ "inherit" ∷ "unspecified" ∷ []

-- `_string_list`
unfoldable pub mcp_string_list : Value → Result (List String)
mcp_string_list (arr vs) = ok (stripped_texts vs)
mcp_string_list v = if is_blank v then ok [] else err (mcp_error "expected a JSON array of strings")

-- `_mapping`
unfoldable pub mcp_mapping : Value → String → Result Fields
mcp_mapping (obj fs) field_name = ok fs
mcp_mapping v field_name =
    if is_blank v
    then ok end
    else err (mcp_error (field_name <> " must be a JSON object when provided"))

-- `_pick`
unfoldable pub pick : Fields → List String → Value
pick spec [] = null
pick spec (k ∷ ks) = let rest = pick spec ks in elim (find spec k) [ some v ↦ v | none ↦ rest ]

pub record McpServerProfile : Type 0 where
  pub name : String
  pub namespace : String
  pub transport : String
  pub enabled : Bool
  pub command : String
  pub args : List String
  pub url : String
  pub mode : String
  pub capabilities : List String
  pub declared_tools : List String
  pub source : String

unfoldable pub is_http : String → Bool
is_http transport = transport == "http" || transport == "https"

-- The tests with which `McpServerProfile.from_document` refuses a document.
unfoldable pub server_problem : String → String → String → Option String
server_problem transport command url =
    if not (transport == "stdio" || is_http transport)
    then some "McpServer transport must be one of stdio, http, or https"
    else if transport == "stdio" && is_empty command
    then some "stdio McpServer resources require spec.command"
    else if is_http transport && is_empty url
    then some "http/https McpServer resources require spec.url"
    else none

-- An exception, where there is a problem.
unfoldable pub raise_if : Option String → Result Bool
raise_if none = ok true
raise_if (some problem) = err (mcp_error problem)

-- `bool(v if v is not None else True)`
unfoldable pub enabled_value : Value → Bool
enabled_value null = true
enabled_value v = truthy v

-- `McpServerProfile.from_document`
unfoldable pub server_from_document : ResourceDocument → Result McpServerProfile
server_from_document d =
    let spec = d.spec in
    let transport = lower (strip (text_or (pick spec ("transport" ∷ [])) "")) in
    let command = strip (text_or (pick spec ("command" ∷ [])) "") in
    let url = strip (text_or (pick spec ("url" ∷ [])) "") in
    if not (d.identifier.kind == "McpServer")
    then err (mcp_error "expected an McpServer resource")
    else do
      checked ← raise_if (server_problem transport command url)
      args ← mcp_string_list (pick spec ("args" ∷ []))
      capabilities ← mcp_string_list (pick spec ("capabilities" ∷ []))
      declared_tools ← mcp_string_list (pick spec ("declared_tools" ∷ "declaredTools" ∷ []))
      ok (record {
        name = d.identifier.name;
        namespace = d.identifier.namespace;
        transport = transport;
        enabled = enabled_value (pick spec ("enabled" ∷ []));
        command = command;
        args = args;
        url = url;
        mode = or_else (strip (text_or (pick spec ("mode" ∷ [])) "read")) "read";
        capabilities = capabilities;
        declared_tools = declared_tools;
        source = source_of d;
      })

-- `McpServerProfile.to_dict`
unfoldable pub server_to_dict : McpServerProfile → Fields
server_to_dict s = dict (
    ("name", str s.name)
    ∷ ("namespace", str s.namespace)
    ∷ ("transport", str s.transport)
    ∷ ("enabled", bool s.enabled)
    ∷ ("command", str s.command)
    ∷ ("args", arr (texts s.args))
    ∷ ("url", str s.url)
    ∷ ("mode", str s.mode)
    ∷ ("capabilities", arr (texts s.capabilities))
    ∷ ("declaredTools", arr (texts s.declared_tools))
    ∷ ("source", str s.source)
    ∷ [])

pub record McpPolicyProfile : Type 0 where
  pub name : String
  pub namespace : String
  pub targets : List String
  pub trust_tier : String
  pub sandbox_profile : Fields
  pub egress_policy : Fields
  pub secret_usage_mode : String
  pub input_sanitization : Fields
  pub output_sanitization : Fields
  pub trace_redaction : Fields
  pub tool_rules : List Fields
  pub source : String

unfoldable pub mcp_items : Items → String → Result (List Fields)
mcp_items nil field_name = ok []
mcp_items (cons (obj fs) vs) field_name = do rest ← mcp_items vs field_name; ok (fs ∷ rest)
mcp_items (cons v vs) field_name = err (mcp_error (field_name <> " entries must be JSON objects"))

-- `_stringify_mapping_list`
unfoldable pub stringify_mapping_list : Value → String → Result (List Fields)
unfolding mcp_items
stringify_mapping_list (arr vs) field_name = mcp_items vs field_name
stringify_mapping_list v field_name =
    if is_blank v
    then ok []
    else err (mcp_error (field_name <> " must be a JSON array when provided"))

-- `str(v or d).strip().lower() or d`
unfoldable pub lowered_or : Value → String → String
lowered_or v d = or_else (lower (strip (text_or v d))) d

-- A text that must be one of those given.
unfoldable pub one_of : List String → String → String → Result String
one_of accepted value what =
    if not (contains accepted value)
    then err (mcp_error ("unsupported MCP " <> what <> " " <> repr value))
    else ok value

-- `McpPolicyProfile.from_document`
unfoldable pub policy_from_document : ResourceDocument → Result McpPolicyProfile
policy_from_document d =
    let spec = d.spec in
    if not (d.identifier.kind == "McpPolicy")
    then err (mcp_error "expected an McpPolicy resource")
    else do
      trust_tier ←
          one_of trust_tiers
            (lowered_or (pick spec ("trust_tier" ∷ "trustTier" ∷ [])) "quarantined") "trust tier"
      secret_usage_mode ←
          one_of secret_usage_modes
            (lowered_or (pick spec ("secret_usage_mode" ∷ "secretUsageMode" ∷ [])) "brokered")
            "secret usage mode"
      egress ← mcp_mapping (pick spec ("egress_policy" ∷ "egressPolicy" ∷ [])) "egress_policy"
      egress_mode ←
          one_of egress_modes (lowered_or (get_or egress "mode" (str "unspecified")) "unspecified")
            "egress mode"
      tool_rules ← stringify_mapping_list (pick spec ("tool_rules" ∷ "toolRules" ∷ [])) "tool_rules"
      targets ← mcp_string_list (pick spec ("targets" ∷ []))
      sandbox_profile ←
          mcp_mapping (pick spec ("sandbox_profile" ∷ "sandboxProfile" ∷ [])) "sandbox_profile"
      input ←
          mcp_mapping (pick spec ("input_sanitization" ∷ "inputSanitization" ∷ []))
            "input_sanitization"
      output ←
          mcp_mapping (pick spec ("output_sanitization" ∷ "outputSanitization" ∷ []))
            "output_sanitization"
      trace ← mcp_mapping (pick spec ("trace_redaction" ∷ "traceRedaction" ∷ [])) "trace_redaction"
      ok (record {
        name = d.identifier.name;
        namespace = d.identifier.namespace;
        targets = targets;
        trust_tier = trust_tier;
        sandbox_profile = sandbox_profile;
        egress_policy = put egress "mode" (str egress_mode);
        secret_usage_mode = secret_usage_mode;
        input_sanitization = input;
        output_sanitization = output;
        trace_redaction = trace;
        tool_rules = tool_rules;
        source = source_of d;
      })

-- `McpPolicyProfile.targets_server`
unfoldable pub targets_server : McpPolicyProfile → String → Bool
targets_server p server_name = p.name == server_name || contains p.targets server_name

-- `McpPolicyProfile.to_dict`
unfoldable pub policy_to_dict : McpPolicyProfile → Fields
policy_to_dict p = dict (
    ("name", str p.name)
    ∷ ("namespace", str p.namespace)
    ∷ ("targets", arr (texts p.targets))
    ∷ ("trustTier", str p.trust_tier)
    ∷ ("sandboxProfile", obj p.sandbox_profile)
    ∷ ("egressPolicy", obj p.egress_policy)
    ∷ ("secretUsageMode", str p.secret_usage_mode)
    ∷ ("inputSanitization", obj p.input_sanitization)
    ∷ ("outputSanitization", obj p.output_sanitization)
    ∷ ("traceRedaction", obj p.trace_redaction)
    ∷ ("toolRules", arr (objects p.tool_rules))
    ∷ ("source", str p.source)
    ∷ [])
