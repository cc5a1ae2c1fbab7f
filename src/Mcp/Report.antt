-- ===== src/Mcp/Report.antt =====
-- kernel/mcp.py: the report on a server and its policy.
use context_control_plane.Base.{
  String, ◌<>◌, Bool, true, false, not, ◌&&◌, ◌||◌, Option, none, some, List, [], ◌∷◌, ◌++◌, ◌==◌,
  contains, if◌then◌else◌,
}
use context_control_plane.Python.Error.{Result, ok, ◌>>=◌}
use context_control_plane.Python.Value.{Value, str, arr, obj, nil, Fields, end, dict, get, truthy}
use context_control_plane.Mcp.Profile.{mcp_string_list, McpServerProfile, McpPolicyProfile, is_http}
use context_control_plane.Mcp.Startup.{
  Host, Startup, build_startup_report, filesystem_access_requested, network_destinations_requested,
}

unfoldable pub capability_tools : List String → List String
capability_tools [] = []
capability_tools (c ∷ cs) = ("capability:" <> c) ∷ capability_tools cs

unfoldable pub no_texts : List String → Bool
no_texts [] = true
no_texts (x ∷ xs) = false

-- `declared_tools` of `build_mcp_test_report`: without capabilities the second list is empty too.
unfoldable pub tools_of : McpServerProfile → List String
tools_of server =
    if no_texts server.declared_tools
    then capability_tools server.capabilities
    else server.declared_tools

-- What the report says, before its warnings.
pub record Posture : Type 0 where
  pub startup : Startup
  pub attached : Bool
  pub trust_tier : String
  pub secret_usage_mode : String
  pub declared_tools : List String
  pub filesystem : Fields
  pub destinations : List String
  pub input : Bool
  pub output : Bool
  pub trace : Bool
  pub egress_policy : Fields
  pub sandbox_profile : Fields
  -- the allowlist that the endpoint is compared with
  pub allowed : List String

unfoldable pub posture_of :
    McpServerProfile
    → Option McpPolicyProfile
    → Startup
    → Fields
    → List String
    → List String
    → Posture
posture_of server none startup filesystem destinations allowed = record {
  startup = startup;
  attached = false;
  trust_tier = "quarantined";
  secret_usage_mode = "brokered";
  declared_tools = tools_of server;
  filesystem = filesystem;
  destinations = destinations;
  input = false;
  output = false;
  trace = false;
  egress_policy = dict (("mode", str "unspecified") ∷ ("allow", arr nil) ∷ []);
  sandbox_profile = end;
  allowed = allowed;
}
posture_of server (some p) startup filesystem destinations allowed = record {
  startup = startup;
  attached = true;
  trust_tier = p.trust_tier;
  secret_usage_mode = p.secret_usage_mode;
  declared_tools = tools_of server;
  filesystem = filesystem;
  destinations = destinations;
  input = truthy (obj p.input_sanitization);
  output = truthy (obj p.output_sanitization);
  trace = truthy (obj p.trace_redaction);
  egress_policy = p.egress_policy;
  sandbox_profile = p.sandbox_profile;
  allowed = allowed;
}

-- The items of `egress_policy.get("allow")`, where the endpoint is compared with them.
unfoldable pub allowed_of :
    McpServerProfile → Option McpPolicyProfile → List String → Result (List String)
allowed_of server none destinations = ok []
allowed_of server (some p) destinations =
    if is_http server.transport && not (no_texts destinations)
    then mcp_string_list (get p.egress_policy "allow")
    else ok []

-- The calls of `build_mcp_test_report` that may raise, in their order.
unfoldable pub build_posture : Host → McpServerProfile → Option McpPolicyProfile → Result Posture
build_posture host server policy = do
  startup ← build_startup_report host server
  filesystem ← filesystem_access_requested policy
  destinations ← network_destinations_requested host server policy
  allowed ← allowed_of server policy destinations
  ok (posture_of server policy startup filesystem destinations allowed)

-- `value in modes`
unfoldable pub value_in : Value → List String → Bool
value_in (str s) modes = contains modes s
value_in _ modes = false

-- `egress_policy.get("mode") in modes`
unfoldable pub mode_in : Posture → List String → Bool
unfolding value_in
mode_in p modes = value_in (get p.egress_policy "mode") modes

-- `set(xs).issubset(ys)`
unfoldable pub is_subset : List String → List String → Bool
is_subset [] ys = true
is_subset (x ∷ xs) ys = let rest = is_subset xs ys in if contains ys x then rest else false

-- A warning, where the test holds.
unfoldable pub warn : Bool → String → List String
warn true message = message ∷ []
warn false message = []

abbrev pub loose_modes : List String
loose_modes = "open" ∷ "unspecified" ∷ "inherit" ∷ []

unfoldable pub unsanitized : Posture → Bool
unsanitized p = not p.input || not p.output || not p.trace

unfoldable pub uncovered_endpoint : McpServerProfile → Posture → Bool
uncovered_endpoint server p =
    is_http server.transport
    && not (no_texts p.destinations)
    && mode_in p ("allowlist" ∷ [])
    && not (is_subset p.destinations p.allowed)

unfoldable pub trust_warning : String → List String
trust_warning trust_tier =
    if trust_tier == "quarantined"
    then "quarantined MCPs should stay isolated until their behavior is reviewed." ∷ []
    else if trust_tier == "user-added"
    then "user-added MCPs should be reviewed before broader access is enabled." ∷ []
    else []

-- The warnings of `build_mcp_test_report` after those that it inherits.
unfoldable pub own_warnings : McpServerProfile → Posture → List String
own_warnings server p =
    warn (not server.enabled) "MCP is disabled and will not be started until explicitly enabled."
    ++ (trust_warning p.trust_tier
        ++ (warn (not p.attached)
              "attach an McpPolicy to declare trust tier, sandbox profile, egress policy, and sanitization."
            ++ (warn (no_texts p.declared_tools)
                  "declare tools or capabilities so AI clients can reason about the MCP surface safely."
                ++ (warn (p.secret_usage_mode == "raw-secret")
                      "raw-secret mode is risky; prefer brokered or ephemeral-materialization handling."
                    ++ (warn (unsanitized p)
                          "configure input, output, and trace sanitization before relying on this MCP in governed flows."
                        ++ (warn (not (truthy (obj p.sandbox_profile)))
                              "sandbox profile is not defined; filesystem and process limits are unclear."
                            ++ (warn (mode_in p loose_modes)
                                  "egress policy is not explicitly constrained; restrict destinations with an allowlist."
                                ++ warn (uncovered_endpoint server p)
                                    "configured MCP endpoint is not fully covered by the egress allowlist.")))))))

unfoldable pub blocked_by : Startup → List String
blocked_by s = if not s.success then s.reason ∷ [] else []

-- `"blocked" if blocked_reasons else ("attention_needed" if warnings else "safe")`
unfoldable pub health_of : List String → List String → String
health_of blocked_reasons warnings =
    if not (no_texts blocked_reasons)
    then "blocked"
    else if not (no_texts warnings)
    then "attention_needed"
    else "safe"

-- `recommendations`, without a probe.
unfoldable pub recommendations_of : Posture → List String
recommendations_of p =
    warn (not p.attached)
      "Attach an McpPolicy with trust_tier, sandbox_profile, egress_policy, and sanitization before wider use."
    ++ (warn (mode_in p loose_modes)
          "Restrict egress_policy to an explicit allowlist of expected destinations."
        ++ (warn (not (p.secret_usage_mode == "brokered"))
              "Prefer brokered secret handling unless a short-lived exception is required."
            ++ (warn (unsanitized p)
                  "Enable input_sanitization, output_sanitization, and trace_redaction for this MCP."
                ++ warn (p.startup.status == "missing_executable")
                    "Install or correct the stdio command before enabling this MCP.")))
