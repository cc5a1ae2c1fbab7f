-- ===== src/Examples/Data.antt =====
-- A connection to a service, the gateway policy of its namespace, and a registry with both.
use context_control_plane.Base.{String, none, [], ◌∷◌, ◌==◌, if◌then◌else◌}
use context_control_plane.Python.Error.{ok}
use context_control_plane.Python.Value.{pos, num, str, arr, obj, nil, cons, Fields, end, field}
use context_control_plane.Gateway.Profile.{GatewayPolicyProfile}
use context_control_plane.Resource.{
  stable, ResourceCompatibility, ResourceDocument, ResourceRegistry,
}

abbrev pub compatibility : ResourceCompatibility
compatibility = record {
  introduced_in = "";
  deprecated_in = "";
  replaced_by = "";
  stability = stable;
}

abbrev pub resource : String → String → Fields → ResourceDocument
resource kind name spec = record {
  identifier = record { api_version = "ccp.io/v1"; kind = kind; name = name; namespace = "dev" };
  spec = spec;
  metadata = end;
  compatibility = compatibility;
  provenance = [];
}

abbrev pub connection : ResourceDocument
connection = resource "ConnectionProfile" "orders" (
    field "adapter" (str "http-json") (
      field "endpoint" (str "https://orders") (
        field "classification" (str "internal") (
          field "allowedAccess" (arr (cons (str "read") (cons (str "Write") nil))) (
            field "allowedModes" (arr (cons (str "connect") (cons (str "materialize") nil))) (
              field "secretRefs" (arr (cons (str "orders.key") nil))
                (field "materialization" (obj (field "ttlSeconds" (num (pos 60)) end)) end)))))))

-- Writes whose operation mentions "drop" are denied, other writes need an approval.
abbrev pub policy : ResourceDocument
policy = resource "GatewayPolicy" "guard" (
    field "defaults" (obj (field "decision" (str "allow") end)) (
      field "rules"
        (arr (
          cons
            (obj (
              field "match"
                (obj (field "access" (str "write") (field "operationContains" (str "DROP") end)))
                (field "decision" (str "deny") end)))
            (cons
              (obj (
                field "match" (obj (field "access" (str "write") end)) (
                  field "decision" (str "approval_required")
                    (field "reason" (str "a change") end))))
              nil)))
        (field "classifications"
          (obj (
            field "restricted" (obj (field "decision" (str "deny") end))
              (field "public" (obj (field "decision" (str "maybe") end)) end)))
          end)))

abbrev pub registry : ResourceRegistry
registry = record {
  list_resources = λ kind namespace. ok (if kind == "GatewayPolicy" then policy ∷ [] else []);
  get_resource = λ kind name namespace. ok none;
}

-- The policy as it is loaded.
abbrev pub profile : GatewayPolicyProfile
profile = record {
  name = "guard";
  namespace = "dev";
  default_decision = "allow";
  rules =
      record {
        match = field "access" (str "write") (field "operationContains" (str "DROP") end);
        decision = "deny";
        reason = "";
      }
      ∷ record {
        match = field "access" (str "write") end;
        decision = "approval_required";
        reason = "a change";
      }
      ∷ [];
  classifications =
      ("restricted", field "decision" (str "deny") end)
      ∷ ("public", field "decision" (str "maybe") end)
      ∷ [];
  source = "";
}
