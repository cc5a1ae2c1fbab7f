-- ===== src/Registry/Explain.antt =====
-- kernel/registry.py and kernel/versioning.py: capabilities, and a resource explained.
use context_control_plane.Base.{
  String, ◌<>◌, Bool, true, false, Option, none, some, List, [], ◌∷◌, ◌==◌, if◌then◌else◌,
}
use context_control_plane.Python.Error.{Result, ok, ◌>>=◌}
use context_control_plane.Python.Text.Order.{text_lt}
use context_control_plane.Python.Value.{bool, str, arr, obj, Fields, dict, objects}
use context_control_plane.Resource.{
  CompatibilityLevel, beta, stability_text, ResourceProvenance, ResourceDocument, document_to_dict,
  source_of,
}
use context_control_plane.Sorting.{sort}
use context_control_plane.Registry.Documents.{Group, get_resource}

pub record ContractVersion : Type 0 where
  pub name : String
  pub version : String
  pub stability : CompatibilityLevel

-- `ContractVersion.to_dict`
unfoldable pub contract_to_dict : ContractVersion → Fields
unfolding stability_text
contract_to_dict c = dict (
    ("name", str c.name)
    ∷ ("version", str c.version)
    ∷ ("stability", str (stability_text c.stability))
    ∷ [])

pub record Capability : Type 0 where
  pub name : String
  pub version : String
  pub stability : CompatibilityLevel
  pub description : String

-- `Capability.capability_id`
unfoldable pub capability_id : Capability → String
capability_id c = c.name <> "/" <> c.version

-- `Capability.to_dict`
unfoldable pub capability_to_dict : Capability → Fields
unfolding capability_id stability_text
capability_to_dict c = dict (
    ("name", str c.name)
    ∷ ("version", str c.version)
    ∷ ("stability", str (stability_text c.stability))
    ∷ ("description", str c.description)
    ∷ ("capability_id", str (capability_id c))
    ∷ [])

abbrev pub resource_registry : Capability
resource_registry = record {
  name = "resource-registry";
  version = "v1beta1";
  stability = beta;
  description = "Lists, resolves, and explains effective resources with provenance.";
}

abbrev pub resource_provenance : Capability
resource_provenance = record {
  name = "resource-provenance";
  version = "v1beta1";
  stability = beta;
  description = "Reports resource source and layer provenance for effective configuration.";
}

-- `deduped[capability.capability_id] = capability`
unfoldable pub put_capability : Capability → List Capability → List Capability
unfolding capability_id
put_capability c [] = c ∷ []
put_capability c (d ∷ ds) =
    let rest = put_capability c ds in
    if capability_id d == capability_id c then c ∷ ds else d ∷ rest

unfoldable pub deduped : List Capability → List Capability → List Capability
unfolding put_capability
deduped known [] = known
deduped known (c ∷ cs) = deduped (put_capability c known) cs

unfoldable pub capability_lt : Capability → Capability → Bool
unfolding capability_id
capability_lt c d = text_lt (capability_id c) (capability_id d)

-- `list_capabilities`
unfoldable pub list_capabilities : List Capability → List Capability
unfolding deduped sort
list_capabilities capabilities =
    sort capability_lt (deduped [] (resource_registry ∷ resource_provenance ∷ capabilities))

provenance_fields : List ResourceProvenance → List Fields
provenance_fields [] = []
provenance_fields (p ∷ ps) =
    dict (("source", str p.source) ∷ ("layer", str p.layer) ∷ ("native", bool p.native) ∷ [])
    ∷ provenance_fields ps

layer_of : ResourceDocument → String
layer_of d = elim d.provenance [ [] ↦ "" | p ∷ ps ↦ p.layer ]

native_of : ResourceDocument → Bool
native_of d = elim d.provenance [ [] ↦ true | p ∷ ps ↦ p.native ]

-- The two returns of `explain_resource`.
unfoldable pub explanation : String → String → String → Option ResourceDocument → Fields
unfolding provenance_fields layer_of native_of source_of document_to_dict
explanation kind name namespace none = dict (
    ("found", bool false)
    ∷ ("kind", str kind)
    ∷ ("name", str name)
    ∷ ("namespace", str namespace)
    ∷ [])
explanation kind name namespace (some d) = dict (
    ("found", bool true)
    ∷ ("resource", obj (document_to_dict d))
    ∷ ("effective_layer", str (layer_of d))
    ∷ ("effective_source", str (source_of d))
    ∷ ("native", bool (native_of d))
    ∷ ("provenance", arr (objects (provenance_fields d.provenance)))
    ∷ [])

-- `explain_resource`
unfoldable pub explain_resource : List Group → String → String → String → Result Fields
unfolding get_resource explanation
explain_resource groups kind name namespace = do
  found ← get_resource groups kind name namespace
  ok (explanation kind name namespace found)
