-- ===== src/Examples/Upgrades.antt =====
-- A pack, the versions that it accepts, and the plan of an upgrade.
use context_control_plane.Base.{◌↔◌, ◌≡◌, refl, true, some, ◌+◌, [], ◌∷◌}
use context_control_plane.Python.Error.{ok}
use context_control_plane.Python.Text.{strip, is_empty, or_else, is_space, starts_with}
use context_control_plane.Python.Value.{int, str, obj, field, end}
use context_control_plane.Resource.{beta}
use context_control_plane.Sorting.Members.{Has}
use context_control_plane.Discovery.{resolve_package_version}
use context_control_plane.Discovery.Schemas.{
  ResourceKindSchema, get_schema_definition, list_schema_definitions,
}
use context_control_plane.Discovery.Catalog.{get_schema_definition_iff}
use context_control_plane.Packs.{PackManifest, manifest_to_dict, build_pack_manifest}
use context_control_plane.Packs.Written.{build_pack_manifest-manifest_to_dict}
use context_control_plane.Upgrade.Versions.{
  accepts, compare_padded, compare_tuples, int_parts, is_dot, non_empty, padded, pieces, tuple_lt,
  tuple_of, version_tuple, ℤ_lt, compare_versions, satisfies_range, tokens_hold, split, token_holds,
  accepted, drop, accepts, max, zeros, less, greater,
}
use context_control_plane.Upgrade.Ranges.{compare_versions-order, satisfies_range-between}
use context_control_plane.Upgrade.Plan.{
  UpgradePlan, pack_actions, pack_action, effective_target, action_of, plan_of, exposed_ids,
  build_upgrade_plan,
}
use context_control_plane.Upgrade.Summary.{ArePlanned, build_upgrade_plan-ArePlanned}

abbrev pack : PackManifest
pack = record {
  name = "guards";
  version = "1.2";
  display_name = "Guards";
  description = "";
  requires_core = ">=0.9 <2";
  requires_capabilities = "job-api/v1beta1" ∷ [];
  depends_on = [];
  installs_resources = [];
  optional_resources = [];
  migrations = field "from" (str "1.1") end ∷ [];
  default_activation = "disabled";
  stability = beta;
  source = "packs/guards/pack.json";
}

build_pack_manifest-manifest_to_dict_example :
    build_pack_manifest (obj (manifest_to_dict pack)) "packs/guards/pack.json" ≡ ok pack
build_pack_manifest-manifest_to_dict_example = build_pack_manifest-manifest_to_dict pack (record {
  name = (unfold strip in refl, unfold is_empty in refl);
  version = (unfold strip in refl, unfold is_empty in refl);
  display_name = unfold strip in refl;
  description = unfold strip in refl;
  requires_core = unfold strip in refl;
  requires_capabilities = ((unfold strip in refl, unfold is_empty in refl), tt);
  depends_on = tt;
  installs_resources = tt;
  optional_resources = tt;
  default_activation = (unfold strip in refl, unfold is_empty in refl);
})

lower_bound : compare_versions "0.9" "1.0.3" ≡ ok less
unfolding compare_versions version_tuple tuple_of non_empty pieces strip is_dot int_parts int
    compare_tuples compare_padded tuple_lt padded ℤ_lt
lower_bound = refl

upper_bound : compare_versions "1.0.3" "1.10" ≡ ok less
unfolding compare_versions version_tuple tuple_of non_empty pieces strip is_dot int_parts int
    compare_tuples compare_padded tuple_lt padded ℤ_lt
upper_bound = refl

compare_versions-order_example :
    (compare_versions "1.0.3" "0.9" ≡ ok greater) × (compare_versions "0.9" "1.10" ≡ ok less)
unfolding accepts
compare_versions-order_example =
    compare_versions-order "0.9" "1.0.3" "1.10" less less lower_bound upper_bound refl refl

in_range_low : satisfies_range "0.9" ">=0.9 <2" ≡ ok true
unfolding satisfies_range is_empty strip is_space tokens_hold split non_empty pieces token_holds
    starts_with accepted compare_versions version_tuple tuple_of is_dot int_parts int drop accepts
    compare_padded compare_tuples max padded tuple_lt zeros ℤ_lt
in_range_low = refl

in_range_high : satisfies_range "1.10" ">=0.9 <2" ≡ ok true
unfolding satisfies_range is_empty strip is_space tokens_hold split non_empty pieces token_holds
    starts_with accepted compare_versions version_tuple tuple_of is_dot int_parts int drop accepts
    compare_padded compare_tuples max padded tuple_lt zeros ℤ_lt
in_range_high = refl

satisfies_range-between_example : satisfies_range "1.0.3" ">=0.9 <2" ≡ ok true
unfolding accepts
satisfies_range-between_example =
    satisfies_range-between "0.9" "1.0.3" "1.10" ">=0.9 <2" less less lower_bound upper_bound refl
      refl in_range_low in_range_high

abbrev step : UpgradePlan
step = plan_of "1.0" "1.5" (pack ∷ []) (action_of exposed_ids "1.0" "1.5" pack true ∷ [])

in_range_step : satisfies_range "1.5" ">=0.9 <2" ≡ ok true
unfolding satisfies_range is_empty strip is_space tokens_hold split non_empty pieces token_holds
    starts_with accepted compare_versions version_tuple tuple_of is_dot int_parts int drop accepts
    compare_padded compare_tuples max padded tuple_lt zeros ℤ_lt
in_range_step = refl

step-made : build_upgrade_plan (some "1.0") "1.5" (pack ∷ []) ≡ ok step
unfolding build_upgrade_plan pack_actions pack_action resolve_package_version effective_target
    or_else is_empty strip
step-made = rw in_range_step refl

build_upgrade_plan-ArePlanned_example :
    ArePlanned step.current_core_version step.target_core_version (pack ∷ []) step.actions
    × (step.summary.auto_migrations + (step.summary.manual_actions + step.summary.blocked_items)
        ≡ 1)
build_upgrade_plan-ArePlanned_example =
    build_upgrade_plan-ArePlanned (some "1.0") "1.5" (pack ∷ []) step step-made

abbrev activation : ResourceKindSchema
activation = record {
  kind = "PackActivation";
  description = "Enables or disables a named pack in a specific layer or namespace.";
  required_fields = "apiVersion" ∷ "kind" ∷ "metadata.name" ∷ "spec" ∷ [];
  spec_fields = "pack" ∷ "state" ∷ "reason" ∷ [];
  stability = beta;
  api_version = "ccp.io/v1beta1";
  notes = "Activation should be layered and reversible." ∷ [];
}

activation-found : get_schema_definition " PackActivation" ≡ some activation
unfolding get_schema_definition
activation-found = refl

get_schema_definition_iff_example :
    (get_schema_definition " PackActivation" ≡ some activation)
    ↔ (Has activation list_schema_definitions × ("PackActivation" ≡ strip " PackActivation"))
get_schema_definition_iff_example = get_schema_definition_iff " PackActivation" activation
