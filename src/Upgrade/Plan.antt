-- ===== src/Upgrade/Plan.antt =====
-- kernel/upgrade.py: the plan of an upgrade.
use context_control_plane.Base.{
  ℕ, suc, String, Bool, true, false, not, ◌&&◌, Option, List, [], ◌∷◌, ◌++◌, ◌==◌, contains,
  if◌then◌else◌,
}
use context_control_plane.Python.Error.{Result, ok, ◌>>=◌}
use context_control_plane.Python.Text.{strip, or_else}
use context_control_plane.Python.Text.Order.{text_lt}
use context_control_plane.Python.Value.{pos, num, str, arr, obj, Fields, dict, objects, texts}
use context_control_plane.Resource.{stability_text}
use context_control_plane.Sorting.{sort}
use context_control_plane.Registry.Explain.{Capability, capability_id, list_capabilities}
use context_control_plane.Discovery.{core_capabilities, resolve_package_version}
use context_control_plane.Discovery.Schemas.{ResourceKindSchema, list_resource_kind_schemas}
use context_control_plane.Packs.{PackManifest, pack_id}
use context_control_plane.Upgrade.Versions.{satisfies_range}

pub record UpgradePlanItem : Type 0 where
  pub category : String
  pub item_id : String
  pub disposition : String
  pub reason : String
  pub details : Fields

-- `UpgradePlanItem.to_dict`
unfoldable pub item_to_dict : UpgradePlanItem → Fields
item_to_dict i = dict (
    ("category", str i.category)
    ∷ ("item_id", str i.item_id)
    ∷ ("disposition", str i.disposition)
    ∷ ("reason", str i.reason)
    ∷ ("details", obj i.details)
    ∷ [])

pub record Summary : Type 0 where
  pub auto_migrations : ℕ
  pub manual_actions : ℕ
  pub blocked_items : ℕ

pub record UpgradePlan : Type 0 where
  pub current_core_version : String
  pub target_core_version : String
  pub summary : Summary
  pub packs : List Fields
  pub resources : List Fields
  pub actions : List UpgradePlanItem

item_fields : List UpgradePlanItem → List Fields
item_fields [] = []
item_fields (i ∷ is) = item_to_dict i ∷ item_fields is

-- `UpgradePlan.to_dict`
unfoldable pub plan_to_dict : UpgradePlan → Fields
unfolding item_fields item_to_dict
plan_to_dict p = dict (
    ("currentCoreVersion", str p.current_core_version)
    ∷ ("targetCoreVersion", str p.target_core_version)
    ∷ (
      "summary",
      obj (
          dict (
            ("autoMigrations", num (pos p.summary.auto_migrations))
            ∷ ("manualActions", num (pos p.summary.manual_actions))
            ∷ ("blockedItems", num (pos p.summary.blocked_items))
            ∷ [])),
    )
    ∷ ("packs", arr (objects p.packs))
    ∷ ("resources", arr (objects p.resources))
    ∷ ("actions", arr (objects (item_fields p.actions)))
    ∷ [])

unfoldable pub capability_ids : List Capability → List String
capability_ids [] = []
capability_ids (c ∷ cs) = capability_id c ∷ capability_ids cs

-- The set `capability_ids` of `build_upgrade_plan`.
unfoldable pub exposed_ids : List String
exposed_ids = capability_ids (core_capabilities ++ list_capabilities [])

unfoldable pub missing : List String → List String → List String
missing exposed [] = []
missing exposed (c ∷ cs) =
    let rest = missing exposed cs in if not (contains exposed c) then c ∷ rest else rest

unfoldable pub missing_capabilities : List String → PackManifest → List String
missing_capabilities exposed pack = sort text_lt (missing exposed pack.requires_capabilities)

unfoldable pub is_nil : {A : Type 0} → List A → Bool
is_nil [] = true
is_nil (x ∷ xs) = false

pub record Decision : Type 0 where
  pub disposition : String
  pub reason : String

-- The chain of `if`s of `build_upgrade_plan`.
unfoldable pub decide : String → String → PackManifest → List String → Bool → Decision
unfolding is_nil
decide current target pack missing_capabilities core_compatible =
    if not (is_nil missing_capabilities)
    then record {
      disposition = "blocked";
      reason = "pack requires capabilities that are not exposed by this core";
    }
    else if not core_compatible
    then record {
      disposition = "blocked";
      reason = "pack core version requirement does not match the target core version";
    }
    else if not (target == current) && not (is_nil pack.migrations)
    then record {
      disposition = "manual";
      reason = "pack declares migrations that should be reviewed before upgrade";
    }
    else record { disposition = "auto"; reason = "pack is compatible with the target core version" }

-- The action that a round of the loop of `build_upgrade_plan` appends.
unfoldable pub action_of : List String → String → String → PackManifest → Bool → UpgradePlanItem
action_of exposed current target pack core_compatible =
    let absent = missing_capabilities exposed pack in
    let decision = decide current target pack absent core_compatible in
    record {
      category = "pack";
      item_id = pack_id pack;
      disposition = decision.disposition;
      reason = decision.reason;
      details = dict (
          ("requiresCore", str pack.requires_core)
          ∷ ("requiresCapabilities", arr (texts pack.requires_capabilities))
          ∷ ("missingCapabilities", arr (texts absent))
          ∷ ("source", str pack.source)
          ∷ []);
    }

unfoldable pub pack_action : List String → String → String → PackManifest → Result UpgradePlanItem
pack_action exposed current target pack = do
  core_compatible ← satisfies_range target pack.requires_core
  ok (action_of exposed current target pack core_compatible)

unfoldable pub pack_actions :
    List String → String → String → List PackManifest → Result (List UpgradePlanItem)
pack_actions exposed current target [] = ok []
pack_actions exposed current target (p ∷ ps) = do
  action ← pack_action exposed current target p
  rest ← pack_actions exposed current target ps
  ok (action ∷ rest)

unfoldable pub pack_entries : List PackManifest → List Fields
pack_entries [] = []
pack_entries (p ∷ ps) =
    dict (
      ("name", str p.name)
      ∷ ("version", str p.version)
      ∷ ("pack_id", str (pack_id p))
      ∷ ("requiresCore", str p.requires_core)
      ∷ ("requiresCapabilities", arr (texts p.requires_capabilities))
      ∷ ("defaultActivation", str p.default_activation)
      ∷ ("stability", str (stability_text p.stability))
      ∷ ("source", str p.source)
      ∷ [])
    ∷ pack_entries ps

unfoldable pub resource_entries : List ResourceKindSchema → List Fields
resource_entries [] = []
resource_entries (s ∷ ss) =
    dict (
      ("kind", str s.kind)
      ∷ ("apiVersion", str "ccp.io/v1beta1")
      ∷ ("status", str "supported")
      ∷ [])
    ∷ resource_entries ss

-- `sum(1 for item in actions if item.disposition == disposition)`
unfoldable pub count : String → List UpgradePlanItem → ℕ
count disposition [] = 0
count disposition (i ∷ is) =
    let rest = count disposition is in if i.disposition == disposition then suc rest else rest

-- `effective_target`; an empty text is `None`.
unfoldable pub effective_target : String → String → String
effective_target current target = or_else (strip (or_else target current)) current

-- The plan that `build_upgrade_plan` returns, by its actions.
unfoldable pub plan_of : String → String → List PackManifest → List UpgradePlanItem → UpgradePlan
plan_of current target pack_manifests actions = record {
  current_core_version = current;
  target_core_version = target;
  summary = record {
    auto_migrations = count "auto" actions;
    manual_actions = count "manual" actions;
    blocked_items = count "blocked" actions;
  };
  packs = pack_entries pack_manifests;
  resources = resource_entries list_resource_kind_schemas;
  actions = actions;
}

-- `build_upgrade_plan`
unfoldable pub build_upgrade_plan : Option String → String → List PackManifest → Result UpgradePlan
build_upgrade_plan installed target_version pack_manifests =
    let current = resolve_package_version installed in
    let target = effective_target current target_version in
    do
      actions ← pack_actions exposed_ids current target pack_manifests
      ok (plan_of current target pack_manifests actions)
