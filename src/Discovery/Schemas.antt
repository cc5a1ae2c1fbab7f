-- ===== src/Discovery/Schemas.antt =====
-- kernel/discovery.py: the schemas of the kinds of resources and of the manifests.
use context_control_plane.Base.{
  String, Bool, Option, none, some, List, [], ◌∷◌, ◌==◌, if◌then◌else◌,
}
use context_control_plane.Python.Text.{strip}
use context_control_plane.Python.Text.Order.{text_lt}
use context_control_plane.Python.Value.{str, arr, Fields, dict, texts}
use context_control_plane.Resource.{CompatibilityLevel, beta, stability_text}
use context_control_plane.Sorting.{sort}

pub record ResourceKindSchema : Type 0 where
  pub kind : String
  pub description : String
  pub required_fields : List String
  pub spec_fields : List String
  pub stability : CompatibilityLevel
  pub api_version : String
  pub notes : List String

-- `ResourceKindSchema.to_dict`
unfoldable pub schema_summary : ResourceKindSchema → Fields
unfolding stability_text
schema_summary s = dict (
    ("kind", str s.kind)
    ∷ ("apiVersion", str s.api_version)
    ∷ ("stability", str (stability_text s.stability))
    ∷ ("description", str s.description)
    ∷ [])

-- `ResourceKindSchema.schema_dict`
unfoldable pub schema_dict : ResourceKindSchema → Fields
unfolding stability_text
schema_dict s = dict (
    ("kind", str s.kind)
    ∷ ("apiVersion", str s.api_version)
    ∷ ("stability", str (stability_text s.stability))
    ∷ ("description", str s.description)
    ∷ ("required_fields", arr (texts s.required_fields))
    ∷ ("spec_fields", arr (texts s.spec_fields))
    ∷ ("notes", arr (texts s.notes))
    ∷ [])

-- `_RESOURCE_KIND_SCHEMAS`
abbrev pub resource_kind_schemas : List (String × ResourceKindSchema)
resource_kind_schemas =
    (
      "ConnectionProfile",
      record {
        kind = "ConnectionProfile";
        description = "Reusable outbound connection profile backed by secret references.";
        required_fields = ("apiVersion" ∷ "kind" ∷ "metadata.name" ∷ "spec" ∷ []);
        spec_fields =
            ("adapter" ∷ "endpoint" ∷ "classification" ∷ "allowedAccess" ∷ "allowedModes"
              ∷ "defaultMode" ∷ "approval" ∷ "secretHandling" ∷ "secretBackendRef" ∷ "secretBackend"
              ∷ "materialization" ∷ "outputPolicy" ∷ "auth" ∷ "gatewayPolicyRef" ∷ "secret_refs"
              ∷ "timeouts" ∷ []);
        stability = beta;
        api_version = "ccp.io/v1beta1";
        notes =
            ("Prefer brokered execution over secret reveal."
              ∷ "One approval layer should be enough." ∷ []);
      },
    )
    ∷ (
      "SecretBackend",
      record {
        kind = "SecretBackend";
        description =
            "Named secret backend with durability and provider metadata for connection usage.";
        required_fields = ("apiVersion" ∷ "kind" ∷ "metadata.name" ∷ "spec" ∷ []);
        spec_fields = ("type" ∷ "durability" ∷ "provider" ∷ "managed" ∷ "config" ∷ []);
        stability = beta;
        api_version = "ccp.io/v1beta1";
        notes =
            ("Use durable local defaults before asking users to run Vault."
              ∷ "Backend lifecycle can stay separate from the lightweight kernel." ∷ []);
      },
    )
    ∷ (
      "GatewayPolicy",
      record {
        kind = "GatewayPolicy";
        description = "Governed action policy for allow, deny, and approval-required decisions.";
        required_fields = ("apiVersion" ∷ "kind" ∷ "metadata.name" ∷ "spec" ∷ []);
        spec_fields = ("defaults" ∷ "rules" ∷ "classifications" ∷ []);
        stability = beta;
        api_version = "ccp.io/v1beta1";
        notes = ("Keep user-local overlays separate from shared policy packs." ∷ []);
      },
    )
    ∷ (
      "McpPolicy",
      record {
        kind = "McpPolicy";
        description = "Input, output, approval, and trace rules for an MCP integration.";
        required_fields = ("apiVersion" ∷ "kind" ∷ "metadata.name" ∷ "spec" ∷ []);
        spec_fields =
            ("targets" ∷ "tool_rules" ∷ "trust_tier" ∷ "sandbox_profile" ∷ "egress_policy"
              ∷ "secret_usage_mode" ∷ "input_sanitization" ∷ "output_sanitization"
              ∷ "trace_redaction" ∷ []);
        stability = beta;
        api_version = "ccp.io/v1beta1";
        notes =
            ("Policy config defines behavior; core must enforce it."
              ∷ "Custom MCPs should be treated as untrusted until reviewed." ∷ []);
      },
    )
    ∷ (
      "McpServer",
      record {
        kind = "McpServer";
        description = "Managed MCP server definition for stdio, HTTP, or future transports.";
        required_fields = ("apiVersion" ∷ "kind" ∷ "metadata.name" ∷ "spec" ∷ []);
        spec_fields =
            ("transport" ∷ "command" ∷ "args" ∷ "url" ∷ "mode" ∷ "enabled" ∷ "capabilities"
              ∷ "declared_tools" ∷ []);
        stability = beta;
        api_version = "ccp.io/v1beta1";
        notes =
            ("Custom MCPs should be first-class resources, not repo edits."
              ∷ "Capability declaration should happen before broader AI access is allowed." ∷ []);
      },
    )
    ∷ (
      "ProviderProfile",
      record {
        kind = "ProviderProfile";
        description = "Named AI or runtime provider configuration with stable execution knobs.";
        required_fields = ("apiVersion" ∷ "kind" ∷ "metadata.name" ∷ "spec" ∷ []);
        spec_fields = ("provider" ∷ "target" ∷ "model" ∷ "timeouts" ∷ "routing" ∷ []);
        stability = beta;
        api_version = "ccp.io/v1beta1";
        notes = ("Provider profiles stay generic; vendor quirks belong in adapters." ∷ []);
      },
    )
    ∷ (
      "PackActivation",
      record {
        kind = "PackActivation";
        description = "Enables or disables a named pack in a specific layer or namespace.";
        required_fields = ("apiVersion" ∷ "kind" ∷ "metadata.name" ∷ "spec" ∷ []);
        spec_fields = ("pack" ∷ "state" ∷ "reason" ∷ []);
        stability = beta;
        api_version = "ccp.io/v1beta1";
        notes = ("Activation should be layered and reversible." ∷ []);
      },
    )
    ∷ (
      "TracePolicy",
      record {
        kind = "TracePolicy";
        description = "Trace capture and redaction policy for governed execution.";
        required_fields = ("apiVersion" ∷ "kind" ∷ "metadata.name" ∷ "spec" ∷ []);
        spec_fields = ("sinks" ∷ "redaction" ∷ "retention" ∷ "sampling" ∷ []);
        stability = beta;
        api_version = "ccp.io/v1beta1";
        notes = ("Trace should explain the decision without leaking secrets." ∷ []);
      },
    )
    ∷ []

-- `_MANIFEST_SCHEMAS`
abbrev pub manifest_schemas : List (String × ResourceKindSchema)
manifest_schemas =
    (
      "ApprovalReceipt",
      record {
        kind = "ApprovalReceipt";
        description =
            "Exact approval receipt for one governed action against one resource and operation.";
        required_fields =
            ("apiVersion" ∷ "kind" ∷ "metadata.name" ∷ "spec.subject.kind" ∷ "spec.subject.name"
              ∷ "spec.access" ∷ "spec.mode" ∷ "spec.operation" ∷ "spec.approvedBy" ∷ "spec.issuedAt"
              ∷ "spec.expiresAt" ∷ "spec.bindingDigest" ∷ "spec.issuer" ∷ "spec.signature" ∷ []);
        spec_fields =
            ("subject" ∷ "access" ∷ "mode" ∷ "operation" ∷ "approvedBy" ∷ "issuedAt" ∷ "expiresAt"
              ∷ "bindingDigest" ∷ "issuer" ∷ "signature" ∷ "reason" ∷ []);
        stability = beta;
        api_version = "ccp.io/runtime/v1beta1";
        notes =
            ("One receipt should map to one exact governed action and a signed connection binding."
              ∷ []);
      },
    )
    ∷ (
      "TraceRecord",
      record {
        kind = "TraceRecord";
        description = "Sanitized execution trace for one governed action.";
        required_fields =
            ("apiVersion" ∷ "kind" ∷ "metadata.name" ∷ "spec.executionId" ∷ "spec.status"
              ∷ "spec.events" ∷ []);
        spec_fields =
            ("executionId" ∷ "status" ∷ "operation" ∷ "connection" ∷ "events" ∷ "storedAt" ∷ []);
        stability = beta;
        api_version = "ccp.io/runtime/v1beta1";
        notes = ("Trace should explain decisions without leaking secrets." ∷ []);
      },
    )
    ∷ (
      "Pack",
      record {
        kind = "Pack";
        description =
            "Installable pack manifest that declares compatibility, resources, and activation defaults.";
        required_fields =
            ("apiVersion" ∷ "kind" ∷ "metadata.name" ∷ "metadata.version" ∷ "spec" ∷ []);
        spec_fields =
            ("displayName" ∷ "description" ∷ "requiresCore" ∷ "requiresCapabilities" ∷ "dependsOn"
              ∷ "installsResources" ∷ "optionalResources" ∷ "migrations" ∷ "defaultActivation"
              ∷ "stability" ∷ []);
        stability = beta;
        api_version = "ccp.io/pack/v1beta1";
        notes = ("Pack manifests should stay generic and avoid private repo assumptions." ∷ []);
      },
    )
    ∷ []

-- The order of the keys in `sorted(catalog)`.
unfoldable pub entry_lt : String × ResourceKindSchema → String × ResourceKindSchema → Bool
entry_lt e f = text_lt e.0 f.0

-- `[catalog[key] for key in keys]`
unfoldable pub schemas_in : List (String × ResourceKindSchema) → List ResourceKindSchema
schemas_in [] = []
schemas_in (e ∷ es) = e.1 ∷ schemas_in es

-- `list_resource_kind_schemas`
unfoldable pub list_resource_kind_schemas : List ResourceKindSchema
unfolding sort entry_lt schemas_in
list_resource_kind_schemas = schemas_in (sort entry_lt resource_kind_schemas)

-- `catalog[kind] = schema`
unfoldable pub put_schema :
    List (String × ResourceKindSchema)
    → String × ResourceKindSchema
    → List (String × ResourceKindSchema)
put_schema [] e = e ∷ []
put_schema (f ∷ fs) e = let rest = put_schema fs e in if f.0 == e.0 then e ∷ fs else f ∷ rest

-- `catalog.update(schemas)`
unfoldable pub update_catalog :
    List (String × ResourceKindSchema)
    → List (String × ResourceKindSchema)
    → List (String × ResourceKindSchema)
unfolding put_schema
update_catalog catalog [] = catalog
update_catalog catalog (e ∷ es) = update_catalog (put_schema catalog e) es

-- `list_schema_definitions`
unfoldable pub list_schema_definitions : List ResourceKindSchema
unfolding sort entry_lt update_catalog schemas_in
list_schema_definitions =
    schemas_in (sort entry_lt (update_catalog resource_kind_schemas manifest_schemas))

-- `schemas.get(name)`
unfoldable pub schema_of : List (String × ResourceKindSchema) → String → Option ResourceKindSchema
schema_of [] name = none
schema_of (e ∷ es) name = let rest = schema_of es name in if e.0 == name then some e.1 else rest

-- `get_resource_kind_schema`
unfoldable pub get_resource_kind_schema : String → Option ResourceKindSchema
unfolding schema_of strip
get_resource_kind_schema kind = schema_of resource_kind_schemas (strip kind)

-- `a or b`
unfoldable pub first_schema :
    Option ResourceKindSchema → Option ResourceKindSchema → Option ResourceKindSchema
first_schema (some s) other = some s
first_schema none other = other

-- `get_schema_definition`
unfoldable pub get_schema_definition : String → Option ResourceKindSchema
unfolding schema_of strip first_schema
get_schema_definition kind =
    first_schema (schema_of resource_kind_schemas (strip kind))
      (schema_of manifest_schemas (strip kind))
