-- ===== src/Resource.antt =====
-- kernel/resource_registry.py and the stability levels of kernel/versioning.py: resource documents.
use context_control_plane.Base.{String, Bool, Option, List, [], ◌∷◌, if◌then◌else◌}
use context_control_plane.Python.Error.{Result, ok, err, value_error}
use context_control_plane.Python.Value.{
  Value, bool, str, arr, obj, Fields, end, field, items, put, has_key,
}

pub data CompatibilityLevel : Type 0 where
  experimental beta stable : CompatibilityLevel

-- The `.value` of the enumeration.
unfoldable pub stability_text : CompatibilityLevel → String
stability_text experimental = "experimental"
stability_text beta = "beta"
stability_text stable = "stable"

pub record ResourceIdentifier : Type 0 where
  pub api_version : String
  pub kind : String
  pub name : String
  pub namespace : String

pub record ResourceProvenance : Type 0 where
  pub source : String
  pub layer : String
  pub native : Bool

pub record ResourceCompatibility : Type 0 where
  pub introduced_in : String
  pub deprecated_in : String
  pub replaced_by : String
  pub stability : CompatibilityLevel

pub record ResourceDocument : Type 0 where
  pub identifier : ResourceIdentifier
  pub spec : Fields
  pub metadata : Fields
  pub compatibility : ResourceCompatibility
  pub provenance : List ResourceProvenance

-- `__post_init__`, on the document that the constructor has filled.
unfoldable pub checked : ResourceDocument → Result ResourceDocument
checked d =
    if has_key d.metadata "name"
    then (if has_key d.metadata "namespace"
        then err
            (value_error "resource metadata must not override reserved fields: name, namespace")
        else err (value_error "resource metadata must not override reserved fields: name"))
    else if has_key d.metadata "namespace"
    then err (value_error "resource metadata must not override reserved fields: namespace")
    else ok d

-- `metadata.update(other)`
unfoldable pub update : Fields → Fields → Fields
update base end = base
update base (field k v fs) = update (put base k v) fs

provenance_values : List ResourceProvenance → List Value
provenance_values [] = []
provenance_values (p ∷ ps) =
    obj (
      field "source" (str p.source)
        (field "layer" (str p.layer) (field "native" (bool p.native) end)))
    ∷ provenance_values ps

-- `ResourceDocument.to_dict`
unfoldable pub document_to_dict : ResourceDocument → Fields
unfolding update provenance_values stability_text
document_to_dict d = field "apiVersion" (str d.identifier.api_version) (
    field "kind" (str d.identifier.kind) (
      field "metadata"
        (obj (
          update
            (field "name" (str d.identifier.name)
              (field "namespace" (str d.identifier.namespace) end))
            d.metadata))
        (field "spec" (obj d.spec) (
          field "compatibility"
            (obj (
              field "introducedIn" (str d.compatibility.introduced_in) (
                field "deprecatedIn" (str d.compatibility.deprecated_in) (
                  field "replacedBy" (str d.compatibility.replaced_by)
                    (field "stability" (str (stability_text d.compatibility.stability)) end)))))
            (field "provenance" (arr (items (provenance_values d.provenance))) end)))))

-- `document.provenance[0].source if document.provenance else ""`
unfoldable pub source_of : ResourceDocument → String
source_of d = elim d.provenance [ [] ↦ "" | p ∷ ps ↦ p.source ]

-- The `ResourceRegistry` protocol, as far as the policy code calls it. An empty text is `None`.
pub record ResourceRegistry : Type 0 where
  pub list_resources : String → String → Result (List ResourceDocument)
  pub get_resource : String → String → String → Result (Option ResourceDocument)
