-- ===== src/Packs.antt =====
-- kernel/packs.py: the manifests of installable packs.
pub mod Written
use context_control_plane.Base.{
  String, ◌<>◌, not, Option, none, some, List, [], ◌∷◌, ◌==◌, if◌then◌else◌,
}
use context_control_plane.Python.Error.{Result, ok, err, pack_error, ◌>>=◌}
use context_control_plane.Python.Text.{strip, lower, is_empty, or_else, repr}
use context_control_plane.Python.Value.{
  Value, null, str, arr, obj, Items, nil, cons, Fields, end, dict, objects, texts, text, text_or,
  get_or, is_blank,
}
use context_control_plane.Resource.{CompatibilityLevel, experimental, beta, stable, stability_text}
use context_control_plane.Tracing.{field_text}
use context_control_plane.Registry.Loaders.{Files, Decoded, decoded, undecodable}

abbrev pub pack_api_version : String
pack_api_version = "ccp.io/pack/v1beta1"

-- The texts of the items that are not empty without the space around them.
unfoldable pub stripped_texts : Items → List String
stripped_texts nil = []
stripped_texts (cons v vs) =
    let rest = stripped_texts vs in
    if is_empty (strip (text v)) then rest else strip (text v) ∷ rest

-- `_coerce_string_list`
unfoldable pub coerce_string_list : Value → String → Result (List String)
coerce_string_list (arr vs) field_name = ok (stripped_texts vs)
coerce_string_list v field_name =
    if is_blank v
    then ok []
    else err (pack_error ("pack manifest field " <> repr field_name <> " must be an array"))

-- `CompatibilityLevel(raw)`, raised again.
unfoldable pub pack_level_of : String → Result CompatibilityLevel
pack_level_of raw =
    if raw == "experimental"
    then ok experimental
    else if raw == "beta"
    then ok beta
    else if raw == "stable"
    then ok stable
    else err (pack_error ("unsupported pack stability " <> repr raw))

-- `_coerce_stability`
unfoldable pub pack_stability : Value → Result CompatibilityLevel
pack_stability value = pack_level_of (lower (strip (text_or value "beta")))

pub record PackManifest : Type 0 where
  pub name : String
  pub version : String
  pub display_name : String
  pub description : String
  pub requires_core : String
  pub requires_capabilities : List String
  pub depends_on : List String
  pub installs_resources : List String
  pub optional_resources : List String
  pub migrations : List Fields
  pub default_activation : String
  pub stability : CompatibilityLevel
  pub source : String

-- `PackManifest.pack_id`
unfoldable pub pack_id : PackManifest → String
pack_id p = p.name <> "@" <> p.version

-- `PackManifest.to_dict`
unfoldable pub manifest_to_dict : PackManifest → Fields
manifest_to_dict p = dict (
    ("apiVersion", str pack_api_version)
    ∷ ("kind", str "Pack")
    ∷ ("metadata", obj (dict (("name", str p.name) ∷ ("version", str p.version) ∷ [])))
    ∷ (
      "spec",
      obj (
          dict (
            ("displayName", str p.display_name)
            ∷ ("description", str p.description)
            ∷ ("requiresCore", str p.requires_core)
            ∷ ("requiresCapabilities", arr (texts p.requires_capabilities))
            ∷ ("dependsOn", arr (texts p.depends_on))
            ∷ ("installsResources", arr (texts p.installs_resources))
            ∷ ("optionalResources", arr (texts p.optional_resources))
            ∷ ("migrations", arr (objects p.migrations))
            ∷ ("defaultActivation", str p.default_activation)
            ∷ ("stability", str (stability_text p.stability))
            ∷ [])),
    )
    ∷ ("source", str p.source)
    ∷ ("pack_id", str (pack_id p))
    ∷ [])

-- A value that must be a JSON object.
unfoldable pub pack_object : Value → String → Result Fields
pack_object (obj fs) problem = ok fs
pack_object v problem = err (pack_error problem)

-- A text that must not be empty.
unfoldable pub pack_required : String → String → Result String
pack_required s problem = if is_empty s then err (pack_error problem) else ok s

-- A text that must be the one given.
unfoldable pub pack_declares : String → String → String → Result String
pack_declares s wanted problem = if not (s == wanted) then err (pack_error problem) else ok s

unfoldable pub migration_items : Items → Result (List Fields)
migration_items nil = ok []
migration_items (cons v vs) = do
  item ← pack_object v "pack manifest migrations entries must be objects"
  rest ← migration_items vs
  ok (item ∷ rest)

unfoldable pub read_migrations : Value → Result (List Fields)
read_migrations (arr vs) = migration_items vs
read_migrations v =
    if is_blank v
    then ok []
    else err (pack_error "pack manifest field 'migrations' must be an array")

-- `build_pack_manifest`
unfoldable pub build_pack_manifest : Value → String → Result PackManifest
build_pack_manifest raw source = do
  payload ← pack_object raw "pack manifest must be a JSON object"
  api_version ←
      pack_declares (field_text payload "apiVersion") pack_api_version
        "pack manifest must declare apiVersion 'ccp.io/pack/v1beta1'"
  kind ← pack_declares (field_text payload "kind") "Pack" "pack manifest must declare kind 'Pack'"
  metadata ←
      pack_object (get_or payload "metadata" (obj end))
        "pack manifest metadata must be a JSON object"
  name ← pack_required (field_text metadata "name") "pack manifest metadata.name is required"
  version ←
      pack_required (field_text metadata "version") "pack manifest metadata.version is required"
  spec ← pack_object (get_or payload "spec" (obj end)) "pack manifest spec must be a JSON object"
  migrations ← read_migrations (get_or spec "migrations" (arr nil))
  capabilities ←
      coerce_string_list (get_or spec "requiresCapabilities" (arr nil)) "requiresCapabilities"
  depends_on ← coerce_string_list (get_or spec "dependsOn" (arr nil)) "dependsOn"
  installs ← coerce_string_list (get_or spec "installsResources" (arr nil)) "installsResources"
  optional ← coerce_string_list (get_or spec "optionalResources" (arr nil)) "optionalResources"
  stability ← pack_stability (get_or spec "stability" (str "beta"))
  ok (record {
    name = name;
    version = version;
    display_name = field_text spec "displayName";
    description = field_text spec "description";
    requires_core = field_text spec "requiresCore";
    requires_capabilities = capabilities;
    depends_on = depends_on;
    installs_resources = installs;
    optional_resources = optional;
    migrations = migrations;
    default_activation =
        or_else (strip (text_or (get_or spec "defaultActivation" (str "disabled")) "disabled"))
          "disabled";
    stability = stability;
    source = source;
  })

pack_decoded : String → Decoded → Result Value
pack_decoded path (decoded v) = ok v
pack_decoded path (undecodable problem) =
    err (pack_error ("invalid JSON in pack manifest " <> path <> ": " <> problem))

pack_payload : Files → String → Option String → Result Value
unfolding pack_decoded
pack_payload files path none = err (pack_error ("pack manifest file does not exist: " <> path))
pack_payload files path (some s) = pack_decoded path (files.loads s)

-- `load_pack_manifest_file`
unfoldable pub load_pack_manifest_file : Files → String → Result PackManifest
unfolding pack_payload
load_pack_manifest_file files path = do
  payload ← pack_payload files path (files.read_text path)
  build_pack_manifest payload path

unfoldable pub load_each_manifest : Files → List String → Result (List PackManifest)
load_each_manifest files [] = ok []
load_each_manifest files (path ∷ paths) = do
  manifest ← load_pack_manifest_file files path
  rest ← load_each_manifest files paths
  ok (manifest ∷ rest)

-- `load_pack_manifests_from_dir`
unfoldable pub load_pack_manifests_from_dir : Files → String → Result (List PackManifest)
load_pack_manifests_from_dir files root =
    if not (files.exists root)
    then ok []
    else if not (files.is_dir root)
    then err (pack_error ("pack manifest directory does not exist: " <> root))
    else load_each_manifest files (files.pack_files root)
