-- ===== src/Discovery.antt =====
-- kernel/discovery.py: the versions, capabilities and schemas that the core reports.
pub mod Schemas
pub mod Catalog
use context_control_plane.Base.{String, Option, none, some, List, [], ◌∷◌}
use context_control_plane.Python.Value.{str, arr, obj, Fields, dict, objects}
use context_control_plane.Resource.{beta}
use context_control_plane.Registry.Explain.{ContractVersion, contract_to_dict, Capability}

-- `_CONTRACT_VERSIONS`
abbrev pub contract_versions : List ContractVersion
contract_versions =
    record { name = "command-api"; version = "v1beta1"; stability = beta }
    ∷ record { name = "job-api"; version = "v1beta1"; stability = beta }
    ∷ record { name = "resource-registry-api"; version = "v1beta1"; stability = beta }
    ∷ record { name = "resource-schema-catalog"; version = "v1beta1"; stability = beta }
    ∷ record { name = "adapter-api"; version = "v1beta1"; stability = beta }
    ∷ []

-- `_CORE_CAPABILITIES`
abbrev pub core_capabilities : List Capability
core_capabilities =
    record {
      name = "command-api";
      version = "v1beta1";
      stability = beta;
      description = "Stable command envelope for northbound callers.";
    }
    ∷ record {
      name = "job-api";
      version = "v1beta1";
      stability = beta;
      description = "Async job handle and event contract for long-running work.";
    }
    ∷ record {
      name = "resource-schema-catalog";
      version = "v1beta1";
      stability = beta;
      description = "Lists supported resource kinds and compact schema summaries.";
    }
    ∷ record {
      name = "pack-manifest";
      version = "v1beta1";
      stability = beta;
      description = "Defines pack compatibility and activation metadata for installable bundles.";
    }
    ∷ record {
      name = "upgrade-plan";
      version = "v1beta1";
      stability = beta;
      description = "Produces a reviewable upgrade plan before applying core or pack changes.";
    }
    ∷ record {
      name = "pack-health";
      version = "v1beta1";
      stability = beta;
      description =
          "Reports pack activation status, validation findings, and doctor recommendations.";
    }
    ∷ record {
      name = "connection-safety";
      version = "v1beta1";
      stability = beta;
      description = "Explains connection usage, secret handling, and single-step approval needs.";
    }
    ∷ record {
      name = "secret-backend";
      version = "v1beta1";
      stability = beta;
      description =
          "Models durable secret backend selection without exposing raw secrets to AI callers.";
    }
    ∷ record {
      name = "secret-sanitization";
      version = "v1beta1";
      stability = beta;
      description =
          "Applies response allowlists and secret detectors before results reach AI or traces.";
    }
    ∷ record {
      name = "secret-backend-health";
      version = "v1beta1";
      stability = beta;
      description =
          "Reports secret backend readiness and durability without exposing raw credentials.";
    }
    ∷ record {
      name = "materialization-lifecycle";
      version = "v1beta1";
      stability = beta;
      description = "Issues short-lived materialization leases for exceptional connection flows.";
    }
    ∷ record {
      name = "secret-binding-resolution";
      version = "v1beta1";
      stability = beta;
      description =
          "Resolves secret_refs inside ccp-core so adapters receive capabilities instead of chat-visible secrets.";
    }
    ∷ record {
      name = "approval-receipt";
      version = "v1beta1";
      stability = beta;
      description = "Issues and validates exact approval receipts for governed execution.";
    }
    ∷ record {
      name = "execution-plan";
      version = "v1beta1";
      stability = beta;
      description = "Builds a governed execution plan without exposing raw secrets by default.";
    }
    ∷ record {
      name = "execution-run";
      version = "v1beta1";
      stability = beta;
      description =
          "Runs one governed operation through a brokered adapter and returns sanitized output.";
    }
    ∷ record {
      name = "trace-record";
      version = "v1beta1";
      stability = beta;
      description = "Captures sanitized execution traces for governed actions.";
    }
    ∷ record {
      name = "mcp-security-report";
      version = "v1beta1";
      stability = beta;
      description =
          "Explains MCP trust tier, sandboxing, egress, secret usage, and safe test posture.";
    }
    ∷ record {
      name = "mcp-runtime-observation";
      version = "v1beta1";
      stability = beta;
      description =
          "Runs observed MCP process probes with scrubbed environments and egress reporting.";
    }
    ∷ record {
      name = "mcp-runtime-enforcement";
      version = "v1beta1";
      stability = beta;
      description =
          "Uses the strongest available local runner controls to fence MCP egress and filesystem writes during probes.";
    }
    ∷ record {
      name = "mcp-management";
      version = "v1beta1";
      stability = beta;
      description = "Creates, disables, and inventories MCP resources through the CLI.";
    }
    ∷ record {
      name = "gateway-policy-evaluation";
      version = "v1beta1";
      stability = beta;
      description =
          "Summarizes gateway policies and explains allow, deny, or approval-required decisions.";
    }
    ∷ record {
      name = "trace-inspection";
      version = "v1beta1";
      stability = beta;
      description = "Lists, loads, and explains sanitized trace records for governed execution.";
    }
    ∷ record {
      name = "version-discovery";
      version = "v1beta1";
      stability = beta;
      description = "Reports package and contract versions through a stable surface.";
    }
    ∷ []

-- `resolve_package_version`, by the version of the installed distribution "ccp-core"; `none` where it
-- is not installed.
unfoldable pub resolve_package_version : Option String → String
resolve_package_version none = "0.1.0"
resolve_package_version (some version) = version

contract_fields : List ContractVersion → List Fields
contract_fields [] = []
contract_fields (c ∷ cs) = contract_to_dict c ∷ contract_fields cs

-- `build_version_payload`
unfoldable pub build_version_payload : Option String → Fields
unfolding resolve_package_version contract_fields contract_to_dict
build_version_payload installed = dict (
    (
      "package",
      obj (
          dict
            (("name", str "ccp-core") ∷ ("version", str (resolve_package_version installed)) ∷ [])),
    )
    ∷ ("default_api_version", str "ccp.io/v1beta1")
    ∷ ("contracts", arr (objects (contract_fields contract_versions)))
    ∷ [])
