-- ===== src/Registry/Loaders.antt =====
-- kernel/loaders.py: resource documents, read from JSON values, files and directories.
pub mod Written
use context_control_plane.Base.{
  String, ◌<>◌, Bool, true, false, Option, none, some, List, [], ◌∷◌, ◌==◌, not, if◌then◌else◌,
}
use context_control_plane.Python.Error.{Result, ok, err, load_error, ◌>>=◌}
use context_control_plane.Python.Text.{strip, lower, is_empty, or_else, repr}
use context_control_plane.Python.Value.{Value, null, str, obj, Fields, end, get_or, pop, text_or}
use context_control_plane.Resource.{
  CompatibilityLevel, experimental, beta, stable, ResourceCompatibility, ResourceDocument, checked,
}
use context_control_plane.Tracing.{field_text, object_or_raise}

-- `CompatibilityLevel(raw)`, raised again.
level_of : String → Result CompatibilityLevel
level_of raw =
    if raw == "experimental"
    then ok experimental
    else if raw == "beta"
    then ok beta
    else if raw == "stable"
    then ok stable
    else err (load_error ("unsupported compatibility stability " <> repr raw))

-- `_coerce_stability`
unfoldable pub coerce_stability : Value → Result CompatibilityLevel
unfolding level_of
coerce_stability value =
    let raw = lower (strip (text_or value "")) in
    if is_empty raw then ok experimental else level_of raw

-- A text that must not be empty.
unfoldable pub required : String → String → Result String
required s problem = if is_empty s then err (load_error problem) else ok s

unfoldable pub compatibility_fields : Value → Result Fields
compatibility_fields null = ok end
compatibility_fields v =
    object_or_raise v "resource document compatibility must be a JSON object when provided"

-- The `ResourceCompatibility` that `build_resource_document` constructs.
unfoldable pub read_compatibility : Fields → Result ResourceCompatibility
read_compatibility c = do
  stability ← coerce_stability (get_or c "stability" (str ""))
  ok (record {
    introduced_in = field_text c "introducedIn";
    deprecated_in = field_text c "deprecatedIn";
    replaced_by = field_text c "replacedBy";
    stability = stability;
  })

-- `str(metadata.get("namespace", "default") or "default").strip() or "default"`
unfoldable pub namespace_text : Fields → String
unfolding get_or text_or or_else
namespace_text m =
    or_else (strip (text_or (get_or m "namespace" (str "default")) "default")) "default"

-- `build_resource_document`
unfoldable pub build_resource_document : Value → String → String → Bool → Result ResourceDocument
build_resource_document payload source layer native = do
  p ← object_or_raise payload "resource document must be a JSON object"
  api_version ← required (field_text p "apiVersion") "resource document is missing apiVersion"
  kind ← required (field_text p "kind") "resource document is missing kind"
  metadata ←
      object_or_raise (get_or p "metadata" (obj end))
        "resource document metadata must be a JSON object"
  name ← required (field_text metadata "name") "resource document metadata.name is required"
  spec ← object_or_raise (get_or p "spec" (obj end)) "resource document spec must be a JSON object"
  c ← compatibility_fields (get_or p "compatibility" (obj end))
  compatibility ← read_compatibility c
  checked (record {
    identifier = record {
      api_version = api_version;
      kind = kind;
      name = name;
      namespace = namespace_text metadata;
    };
    spec = spec;
    metadata = pop (pop metadata "name") "namespace";
    compatibility = compatibility;
    provenance = record { source = source; layer = layer; native = native } ∷ [];
  })

-- What `json.loads` gives.
pub data Decoded : Type 0 where
  decoded : Value → Decoded
  undecodable : String → Decoded

-- What the loaders ask of the files and of the JSON decoder.
pub record Files : Type 0 where
  pub exists : String → Bool
  pub is_dir : String → Bool
  -- `file_path.read_text(encoding="utf-8")`; `none` where the file does not exist
  pub read_text : String → Option String
  -- `sorted(root.rglob("*.json"))`
  pub json_files : String → List String
  -- `sorted(root.rglob("pack.json"))`
  pub pack_files : String → List String
  pub loads : String → Decoded

decoded_or_raise : String → Decoded → Result Value
decoded_or_raise path (decoded v) = ok v
decoded_or_raise path (undecodable problem) =
    err (load_error ("invalid JSON in resource file " <> path <> ": " <> problem))

file_payload : Files → String → Option String → Result Value
unfolding decoded_or_raise
file_payload files path none = err (load_error ("resource file does not exist: " <> path))
file_payload files path (some s) = decoded_or_raise path (files.loads s)

-- `load_resource_file`
unfoldable pub load_resource_file : Files → String → String → Bool → Result ResourceDocument
unfolding file_payload build_resource_document
load_resource_file files path layer native = do
  payload ← file_payload files path (files.read_text path)
  build_resource_document payload path layer native

-- The loop of `load_resources_from_dir`.
unfoldable pub load_each : Files → String → Bool → List String → Result (List ResourceDocument)
unfolding load_resource_file
load_each files layer native [] = ok []
load_each files layer native (path ∷ paths) = do
  document ← load_resource_file files path layer native
  rest ← load_each files layer native paths
  ok (document ∷ rest)

-- `load_resources_from_dir`
unfoldable pub load_resources_from_dir :
    Files → String → String → Bool → Result (List ResourceDocument)
unfolding load_each
load_resources_from_dir files root layer native =
    if not (files.exists root)
    then ok []
    else if not (files.is_dir root)
    then err (load_error ("resource directory does not exist: " <> root))
    else load_each files layer native (files.json_files root)
