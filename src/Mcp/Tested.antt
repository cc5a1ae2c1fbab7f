-- ===== src/Mcp/Tested.antt =====
-- kernel/mcp.py: the report on a server as it is written out, with a probe or without.
use context_control_plane.Base.{
  String, Bool, true, false, not, ◌&&◌, Option, none, some, List, [], ◌∷◌, ◌++◌, ◌==◌,
}
use context_control_plane.Python.Error.{Result, ok, ◌>>=◌}
use context_control_plane.Python.Value.{
  bool, str, arr, obj, Fields, end, dict, texts, get_or, text_or,
}
use context_control_plane.Resource.{ResourceDocument, ResourceRegistry}
use context_control_plane.Mcp.Profile.{
  McpServerProfile, McpPolicyProfile, server_to_dict, server_from_document,
}
use context_control_plane.Mcp.Policy.{resolve_mcp_policy}
use context_control_plane.Mcp.Startup.{Host, startup_to_dict}
use context_control_plane.Mcp.Report.{
  Posture, build_posture, own_warnings, blocked_by, health_of, recommendations_of, warn, mode_in,
}

-- `McpObservedRuntimeReport` of mcp_runtime.py.
pub record ObservedReport : Type 0 where
  pub mode : String
  pub attempted : Bool
  pub startup_success : Bool
  pub status : String
  pub reason : String
  pub sandbox_applied : Fields
  pub network_destinations : List String
  pub filesystem_paths : List String
  pub egress_violations : List String
  pub warnings : List String

-- `McpObservedRuntimeReport.to_dict`
unfoldable pub observed_to_dict : ObservedReport → Fields
observed_to_dict o = dict (
    ("mode", str o.mode)
    ∷ ("attempted", bool o.attempted)
    ∷ ("startupSuccess", bool o.startup_success)
    ∷ ("status", str o.status)
    ∷ ("reason", str o.reason)
    ∷ ("sandboxApplied", obj o.sandbox_applied)
    ∷ ("observedNetworkDestinations", arr (texts o.network_destinations))
    ∷ ("observedFilesystemPaths", arr (texts o.filesystem_paths))
    ∷ ("egressViolations", arr (texts o.egress_violations))
    ∷ ("warnings", arr (texts o.warnings))
    ∷ [])

-- `observed_report`, where no probe was asked for.
abbrev pub not_run : ObservedReport
not_run = record {
  mode = "not-run";
  attempted = false;
  startup_success = false;
  status = "not-run";
  reason = "observed runtime probing was not requested";
  sandbox_applied = end;
  network_destinations = [];
  filesystem_paths = [];
  egress_violations = [];
  warnings = [];
}

-- The answer of `build_mcp_test_report`, before it is written.
pub record TestReport : Type 0 where
  pub health : String
  pub posture : Posture
  pub observed : ObservedReport
  pub warnings : List String
  pub recommendations : List String

-- `egress_enforcement`
unfoldable pub egress_enforcement : ObservedReport → String
egress_enforcement o =
    text_or (get_or o.sandbox_applied "egressEnforcement" (str "observed-only")) "observed-only"

-- The warnings that a probe adds.
unfoldable pub probe_warnings : Posture → ObservedReport → List String
probe_warnings p o =
    o.warnings
    ++ (warn (not p.attached && egress_enforcement o == "observed-only")
          "no policy is attached and the runtime could not enforce stricter egress controls during observation."
        ++ (warn
              (p.attached
                && mode_in p ("deny" ∷ "allowlist" ∷ [])
                && egress_enforcement o == "observed-only")
              "runtime egress enforcement is partial here, so keep this MCP in a lower trust tier until the runner can fence it."
            ++ o.egress_violations))

-- The reasons to block that a probe adds.
unfoldable pub probe_blocks : ObservedReport → List String
probe_blocks o = o.egress_violations ++ warn (o.attempted && not o.startup_success) o.reason

-- The report without a probe, and with one: `observe_mcp_runtime` has given its report.
unfoldable pub report_of :
    McpServerProfile → List String → Posture → Option ObservedReport → TestReport
report_of server inherited p none =
    let warnings = inherited ++ own_warnings server p in
    record {
      health = health_of (blocked_by p.startup) warnings;
      posture = p;
      observed = not_run;
      warnings = warnings;
      recommendations = recommendations_of p;
    }
report_of server inherited p (some o) =
    let warnings = (inherited ++ own_warnings server p) ++ probe_warnings p o in
    record {
      health = health_of (blocked_by p.startup ++ probe_blocks o) warnings;
      posture = p;
      observed = o;
      warnings = warnings;
      recommendations =
          recommendations_of p
          ++ warn (o.mode == "process-probe")
              "Use observed MCP testing before widening trust for custom stdio servers.";
    }

-- `build_mcp_test_report`; the last argument is what the probe reports, if one is asked for.
unfoldable pub build_mcp_test_report :
    Host
    → McpServerProfile
    → Option McpPolicyProfile
    → List String
    → Option ObservedReport
    → Result TestReport
build_mcp_test_report host server policy inherited_warnings observed = do
  posture ← build_posture host server policy
  ok (report_of server inherited_warnings posture observed)

policy_entry : Option McpPolicyProfile → Fields
policy_entry none = dict (("attached", bool false) ∷ ("name", str "") ∷ ("source", str "") ∷ [])
policy_entry (some p) =
    dict (("attached", bool true) ∷ ("name", str p.name) ∷ ("source", str p.source) ∷ [])

-- The `dict` that `build_mcp_test_report` returns.
unfoldable pub report_to_dict : McpServerProfile → Option McpPolicyProfile → TestReport → Fields
unfolding policy_entry
report_to_dict server policy r = dict (
    ("health", str r.health)
    ∷ ("server", obj (server_to_dict server))
    ∷ ("policy", obj (policy_entry policy))
    ∷ ("startup", obj (startup_to_dict r.posture.startup))
    ∷ ("declaredTools", arr (texts r.posture.declared_tools))
    ∷ ("capabilities", arr (texts server.capabilities))
    ∷ ("networkDestinationsRequested", arr (texts r.posture.destinations))
    ∷ ("filesystemAccessRequested", obj r.posture.filesystem)
    ∷ ("secretUsageMode", str r.posture.secret_usage_mode)
    ∷ (
      "sanitizationPolicyApplied",
      obj (
          dict (
            ("input", bool r.posture.input)
            ∷ ("output", bool r.posture.output)
            ∷ ("trace", bool r.posture.trace)
            ∷ [])),
    )
    ∷ ("trustTier", str r.posture.trust_tier)
    ∷ ("sandboxProfile", obj r.posture.sandbox_profile)
    ∷ ("egressPolicy", obj r.posture.egress_policy)
    ∷ ("observed", obj (observed_to_dict r.observed))
    ∷ ("warnings", arr (texts r.warnings))
    ∷ ("recommendations", arr (texts r.recommendations))
    ∷ [])

-- One round of the loop of `build_mcp_list_records`.
unfoldable pub list_record : Host → ResourceRegistry → ResourceDocument → Result Fields
list_record host registry document = do
  server ← server_from_document document
  resolved ← resolve_mcp_policy server registry
  report ← build_mcp_test_report host server resolved.policy resolved.warnings none
  ok (
      dict (
        ("name", str server.name)
        ∷ ("namespace", str server.namespace)
        ∷ ("enabled", bool server.enabled)
        ∷ ("transport", str server.transport)
        ∷ ("trustTier", str report.posture.trust_tier)
        ∷ ("health", str report.health)
        ∷ ("declaredTools", arr (texts report.posture.declared_tools))
        ∷ ("policyAttached", bool report.posture.attached)
        ∷ ("source", str server.source)
        ∷ []))

unfoldable pub list_records : Host → ResourceRegistry → List ResourceDocument → Result (List Fields)
list_records host registry [] = ok []
list_records host registry (d ∷ ds) = do
  entry ← list_record host registry d
  rest ← list_records host registry ds
  ok (entry ∷ rest)

-- `build_mcp_list_records`
unfoldable pub build_mcp_list_records : Host → ResourceRegistry → String → Result (List Fields)
build_mcp_list_records host registry namespace = do
  documents ← registry.list_resources "McpServer" namespace
  list_records host registry documents
