-- ===== src/Mcp/Manage.antt =====
-- kernel/mcp.py: adding a server with its policy, and disabling a server.
pub mod Loaded
pub mod Added
use context_control_plane.Base.{
  String, ◌<>◌, Bool, true, false, not, ◌&&◌, ◌||◌, Option, none, some, List, [], ◌∷◌, ◌++◌, ◌==◌,
  contains, if◌then◌else◌,
}
use context_control_plane.Python.Error.{Result, ok, err, mcp_error, ◌>>=◌}
use context_control_plane.Python.Text.{is_empty, repr}
use context_control_plane.Python.Value.{
  Value, bool, str, arr, obj, Fields, end, field, dict, texts, objects, put, find, has_key,
}
use context_control_plane.Resource.{ResourceDocument, document_to_dict}
use context_control_plane.Registry.Loaders.{build_resource_document}
use context_control_plane.Mcp.Profile.{
  trust_tiers, secret_usage_modes, is_http, one_of, McpServerProfile, server_from_document,
}
use context_control_plane.Mcp.Startup.{Host, url_destinations}

-- The arguments of `add_mcp_resources` but for the directory.
pub record NewServer : Type 0 where
  pub name : String
  pub namespace : String
  pub transport : String
  pub command : String
  pub args : List String
  pub url : String
  pub declared_tools : List String
  pub capabilities : List String
  pub trust_tier : String
  pub egress_mode : String
  pub egress_allow : List String
  pub sandbox_read : List String
  pub sandbox_write : List String
  pub allow_tmp : Bool
  pub secret_usage_mode : String
  pub enabled : Bool

-- `_EGRESS_MODES - {"unspecified", "inherit"}`
abbrev pub addable_egress_modes : List String
addable_egress_modes = "deny" ∷ "allowlist" ∷ "open" ∷ []

-- `if args: server_payload["spec"]["args"] = list(args)`
unfoldable pub args_fields : List String → Fields
args_fields [] = end
args_fields (a ∷ rest) = field "args" (arr (texts (a ∷ rest))) end

-- What the branches on the transport add to the spec.
unfoldable pub transport_fields : NewServer → Result Fields
transport_fields n =
    if n.transport == "stdio"
    then (if is_empty n.command
        then err (mcp_error "stdio MCPs require a command")
        else ok (field "command" (str n.command) (args_fields n.args)))
    else if is_http n.transport
    then (if is_empty n.url
        then err (mcp_error "http/https MCPs require a url")
        else ok (field "url" (str n.url) end))
    else err (mcp_error "MCP transport must be one of stdio, http, or https")

unfoldable pub payload_of : String → NewServer → Fields → Fields
payload_of kind n spec = dict (
    ("apiVersion", str "ccp.io/v1beta1")
    ∷ ("kind", str kind)
    ∷ ("metadata", obj (dict (("name", str n.name) ∷ ("namespace", str n.namespace) ∷ [])))
    ∷ ("spec", obj spec)
    ∷ [])

unfoldable pub server_spec : NewServer → Fields → Fields
server_spec n more = field "transport" (str n.transport) (
    field "enabled" (bool n.enabled) (
      field "mode" (str "read") (
        field "capabilities" (arr (texts n.capabilities))
          (field "declared_tools" (arr (texts n.declared_tools)) more))))

abbrev pub redacted_names : Fields
redacted_names =
    dict (("redact", arr (texts ("token" ∷ "authorization" ∷ "cookie" ∷ "secret" ∷ []))) ∷ [])

unfoldable pub tool_rules_of : List String → List Fields
tool_rules_of [] = []
tool_rules_of (t ∷ ts) = dict (("tool", str t) ∷ ("access", str "read") ∷ []) ∷ tool_rules_of ts

unfoldable pub policy_spec : NewServer → List String → Fields
policy_spec n default_allow = dict (
    ("targets", arr (texts (n.name ∷ [])))
    ∷ ("trust_tier", str n.trust_tier)
    ∷ (
      "sandbox_profile",
      obj (
          dict (
            (
              "filesystem",
              obj (
                  dict (
                    ("read", arr (texts n.sandbox_read))
                    ∷ ("write", arr (texts n.sandbox_write))
                    ∷ ("allowTmp", bool n.allow_tmp)
                    ∷ [])),
            )
            ∷ [])),
    )
    ∷ (
      "egress_policy",
      obj (dict (("mode", str n.egress_mode) ∷ ("allow", arr (texts default_allow)) ∷ [])),
    )
    ∷ ("secret_usage_mode", str n.secret_usage_mode)
    ∷ ("input_sanitization", obj redacted_names)
    ∷ ("output_sanitization", obj redacted_names)
    ∷ ("trace_redaction", obj redacted_names)
    ∷ ("tool_rules", arr (objects (tool_rules_of n.declared_tools)))
    ∷ [])

-- `default_allow`
unfoldable pub default_allow : Host → NewServer → Result (List String)
default_allow host n = elim n.egress_allow [
  | a ∷ rest ↦ ok (a ∷ rest)
  | [] ↦ if is_empty n.url then ok [] else url_destinations host n.url
]

pub record Payloads : Type 0 where
  pub server : Fields
  pub policy : Fields

-- The part of `add_mcp_resources` before the files are written.
unfoldable pub build_payloads : Host → NewServer → Result Payloads
build_payloads host n = do
  trust_tier ← one_of trust_tiers n.trust_tier "trust tier"
  secret_usage_mode ← one_of secret_usage_modes n.secret_usage_mode "secret usage mode"
  egress_mode ← one_of addable_egress_modes n.egress_mode "egress mode"
  more ← transport_fields n
  allow ← default_allow host n
  ok (record {
    server = payload_of "McpServer" n (server_spec n more);
    policy = payload_of "McpPolicy" n (policy_spec n allow);
  })

-- A file that holds a JSON object.
pub record Stored : Type 0 where
  pub path : String
  pub payload : Fields

-- `path.exists()` and `json.loads(path.read_text())`
unfoldable pub stored_at : List Stored → String → Option Fields
stored_at [] path = none
stored_at (f ∷ fs) path =
    let rest = stored_at fs path in if f.path == path then some f.payload else rest

-- `path.write_text(_dump_json(payload))`
unfoldable pub write_payload : List Stored → String → Fields → List Stored
write_payload [] path payload = record { path = path; payload = payload } ∷ []
write_payload (f ∷ fs) path payload =
    let rest = write_payload fs path payload in
    if f.path == path then record { path = path; payload = payload } ∷ fs else f ∷ rest

unfoldable pub is_stored : List Stored → String → Bool
is_stored files path = elim (stored_at files path) [ none ↦ false | some p ↦ true ]

-- `add_mcp_resources`, given the texts of `server_path`, `policy_path` and `root`: the files after it.
unfoldable pub add_mcp_resources :
    Host → List Stored → String → String → String → NewServer → Result (List Stored)
add_mcp_resources host files root server_path policy_path n = do
  payloads ← build_payloads host n
  (if is_stored files server_path || is_stored files policy_path
      then err (mcp_error ("MCP resources for " <> repr n.name <> " already exist in " <> root))
      else ok (
          write_payload (write_payload files server_path payloads.server) policy_path
            payloads.policy))

-- `payload.setdefault("spec", {})` and `payload["spec"]["enabled"] = False`
unfoldable pub disabled_payload : Fields → Fields
disabled_payload payload = elim (find payload "spec") [
  | some (obj spec) ↦ put payload "spec" (obj (put spec "enabled" (bool false)))
  | _ ↦ put payload "spec" (obj (field "enabled" (bool false) end))
]

unfoldable pub disable_stored : List Stored → String → Option Fields → Result (List Stored)
disable_stored files path none = err (mcp_error ("MCP server source file does not exist: " <> path))
disable_stored files path (some payload) = do
  document ← build_resource_document (obj payload) path "local" true
  ok (write_payload files path (disabled_payload (document_to_dict document)))

-- `disable_mcp_server`: the files after it.
unfoldable pub disable_mcp_server : List Stored → ResourceDocument → Result (List Stored)
disable_mcp_server files document = do
  server ← server_from_document document
  disable_stored files server.source (stored_at files server.source)
