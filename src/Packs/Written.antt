-- ===== src/Packs/Written.antt =====
-- kernel/packs.py: a manifest that is written, and read again.
use context_control_plane.Base.{String, ◌≡◌, refl, ap, false, List, [], ◌∷◌, if_false}
use context_control_plane.Python.Error.{ok}
use context_control_plane.Python.Text.{strip, lower, lower_char, is_empty, or_else}
use context_control_plane.Python.Value.{
  str, arr, obj, Fields, dict, objects, texts, text, text_or, get_or, find,
}
use context_control_plane.Resource.{CompatibilityLevel, experimental, beta, stable, stability_text}
use context_control_plane.Tracing.Written.{field_text-found, text_or-given}
use context_control_plane.Packs.{
  PackManifest, manifest_to_dict, build_pack_manifest, pack_object, pack_required, pack_declares,
  stripped_texts, coerce_string_list, migration_items, read_migrations, pack_stability,
  pack_level_of,
}

-- The text has no space around it and is not empty.
abbrev pub IsItem : String → Type 0
IsItem s = (strip s ≡ s) × (is_empty s ≡ false)

abbrev pub AllItems : List String → Type 0
AllItems [] = Unit
AllItems (s ∷ ss) = IsItem s × AllItems ss

-- The texts of the manifest have no space around them, and those that the loader fills in or asks
-- for are not empty.
pub record IsTidyManifest (p : PackManifest) : Type 0 where
  pub name : IsItem p.name
  pub version : IsItem p.version
  pub display_name : strip p.display_name ≡ p.display_name
  pub description : strip p.description ≡ p.description
  pub requires_core : strip p.requires_core ≡ p.requires_core
  pub requires_capabilities : AllItems p.requires_capabilities
  pub depends_on : AllItems p.depends_on
  pub installs_resources : AllItems p.installs_resources
  pub optional_resources : AllItems p.optional_resources
  pub default_activation : IsItem p.default_activation

pub stripped_texts-texts : (ss : List String) → AllItems ss → stripped_texts (texts ss) ≡ ss
unfolding stripped_texts texts text
stripped_texts-texts [] x = refl
stripped_texts-texts (s ∷ ss) x = rw (x.0.0, stripped_texts-texts ss x.1) (if_false _ x.0.1)

coerced :
    (ss : List String) (n : String) → AllItems ss → coerce_string_list (arr (texts ss)) n ≡ ok ss
unfolding coerce_string_list
coerced ss n x = ap ok (stripped_texts-texts ss x)

migration_items-objects : (ms : List Fields) → migration_items (objects ms) ≡ ok ms
unfolding migration_items objects pack_object
migration_items-objects [] = refl
migration_items-objects (m ∷ ms) = rw (migration_items-objects ms) refl

pack_stability-stability_text :
    (l : CompatibilityLevel) → pack_stability (str (stability_text l)) ≡ ok l
unfolding pack_stability pack_level_of stability_text text_or lower lower_char strip
pack_stability-stability_text experimental = refl
pack_stability-stability_text beta = refl
pack_stability-stability_text stable = refl

required-item : (s problem : String) → IsItem s → pack_required s problem ≡ ok s
unfolding pack_required
required-item s problem x = if_false _ x.1

activation-read :
    (s : String) → IsItem s → or_else (strip (text_or (str s) "disabled")) "disabled" ≡ s
unfolding or_else
activation-read s x = rw (text_or-given s "disabled" x.1) (rw x.0 (if_false _ x.1))

abbrev written_metadata : PackManifest → Fields
written_metadata p = dict (("name", str p.name) ∷ ("version", str p.version) ∷ [])

abbrev written_spec : PackManifest → Fields
written_spec p = dict (
    ("displayName", str p.display_name)
    ∷ ("description", str p.description)
    ∷ ("requiresCore", str p.requires_core)
    ∷ ("requiresCapabilities", arr (texts p.requires_capabilities))
    ∷ ("dependsOn", arr (texts p.depends_on))
    ∷ ("installsResources", arr (texts p.installs_resources))
    ∷ ("optionalResources", arr (texts p.optional_resources))
    ∷ ("migrations", arr (objects p.migrations))
    ∷ ("defaultActivation", str p.default_activation)
    ∷ ("stability", str (stability_text p.stability))
    ∷ [])

-- A manifest that is written as a JSON object and read from it again, by the same source, is the same
-- manifest, where no text of it has space around it and its name, its version, its activation and the
-- items of its lists are not empty.
pub build_pack_manifest-manifest_to_dict :
    (p : PackManifest)
    → IsTidyManifest p
    → build_pack_manifest (obj (manifest_to_dict p)) p.source ≡ ok p
unfolding build_pack_manifest manifest_to_dict pack_object pack_declares get_or find read_migrations
build_pack_manifest-manifest_to_dict p x =
    let top = field_text-found (manifest_to_dict p) in
    let inner = field_text-found (written_metadata p) in
    let spec = field_text-found (written_spec p) in
    rw
      (
        top "apiVersion" "ccp.io/pack/v1beta1" refl (unfold strip in refl),
        top "kind" "Pack" refl (unfold strip in refl),
        inner "name" p.name refl x.name.0,
        required-item p.name "pack manifest metadata.name is required" x.name,
        inner "version" p.version refl x.version.0,
        required-item p.version "pack manifest metadata.version is required" x.version,
        migration_items-objects p.migrations,
        coerced p.requires_capabilities "requiresCapabilities" x.requires_capabilities,
        coerced p.depends_on "dependsOn" x.depends_on,
        coerced p.installs_resources "installsResources" x.installs_resources,
        coerced p.optional_resources "optionalResources" x.optional_resources,
        pack_stability-stability_text p.stability,
        activation-read p.default_activation x.default_activation,
      )
      (ap ok (
        cc (
          spec "displayName" p.display_name refl x.display_name,
          spec "description" p.description refl x.description,
          spec "requiresCore" p.requires_core refl x.requires_core,
        )))
