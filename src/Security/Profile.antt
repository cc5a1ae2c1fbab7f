-- ===== src/Security/Profile.antt =====
-- kernel/security.py: what a connection profile declares.
use context_control_plane.Base.{String, ◌<>◌, Bool, true, false, List, [], ◌∷◌, ◌==◌, if◌then◌else◌}
use context_control_plane.Python.Error.{Result, ok, err, value_error, ◌>>=◌}
use context_control_plane.Python.Text.{strip, lower, or_else, is_empty, repr}
use context_control_plane.Python.Value.{
  Value, bool, str, arr, obj, Items, nil, cons, Fields, end, is_blank, truthy, text_or, get_or,
}
use context_control_plane.Secrets.Resolve.{ConnectionSecretControls}

pub data DataClassification : Type 0 where
  public internal confidential restricted : DataClassification

unfoldable pub classification_text : DataClassification → String
classification_text public = "public"
classification_text internal = "internal"
classification_text confidential = "confidential"
classification_text restricted = "restricted"

pub data ConnectionMode : Type 0 where
  connect materialize reveal : ConnectionMode

unfoldable pub mode_text : ConnectionMode → String
mode_text connect = "connect"
mode_text materialize = "materialize"
mode_text reveal = "reveal"

pub data AccessLevel : Type 0 where
  read write admin : AccessLevel

unfoldable pub access_text : AccessLevel → String
access_text read = "read"
access_text write = "write"
access_text admin = "admin"

-- `tuple(str(item or "").strip().lower() for item in value)` without its empty texts.
lowered_items : Items → List String
lowered_items nil = []
lowered_items (cons v xs) =
    let item = lower (strip (text_or v "")) in
    let rest = lowered_items xs in if is_empty item then rest else item ∷ rest

or_default : List String → List String → List String
or_default [] default = default
or_default (x ∷ xs) default = x ∷ xs

-- `_normalize_string_set`
unfoldable pub normalize_string_set : Value → List String → Result (List String)
unfolding lowered_items or_default is_blank
normalize_string_set (str s) default = if is_empty s then ok default else ok (s ∷ [])
normalize_string_set (arr xs) default = ok (or_default (lowered_items xs) default)
normalize_string_set value default =
    if is_blank value then ok default else err (value_error "expected a string or array of strings")

-- `_parse_classification`
unfoldable pub parse_classification : Value → Result DataClassification
parse_classification raw =
    let value = or_else (lower (strip (text_or raw "internal"))) "internal" in
    if value == "public"
    then ok public
    else if value == "internal"
    then ok internal
    else if value == "confidential"
    then ok confidential
    else if value == "restricted"
    then ok restricted
    else err (value_error ("unsupported connection classification " <> repr value))

-- `_parse_mode`
unfoldable pub parse_mode : Value → ConnectionMode → Result ConnectionMode
parse_mode raw default =
    let value = lower (strip (text_or raw (mode_text default))) in
    if is_empty value
    then ok default
    else if value == "connect"
    then ok connect
    else if value == "materialize"
    then ok materialize
    else if value == "reveal"
    then ok reveal
    else err (value_error ("unsupported connection mode " <> repr value))

-- `_parse_access`
unfoldable pub parse_access : String → Result AccessLevel
parse_access raw =
    let value = or_else (lower (strip (or_else raw "read"))) "read" in
    if value == "read"
    then ok read
    else if value == "write"
    then ok write
    else if value == "admin"
    then ok admin
    else err (value_error ("unsupported connection access " <> repr value))

pub record SecretHandlingPolicy : Type 0 where
  pub brokered : Bool
  pub sanitize_input : Bool
  pub sanitize_output : Bool
  pub allow_raw_secret_reveal : Bool

pub record ApprovalPolicy : Type 0 where
  pub required_for_access : List String
  pub required_for_modes : List String

pub record ConnectionSafetyDecision : Type 0 where
  pub connection_name : String
  pub namespace : String
  pub adapter : String
  pub endpoint : String
  pub classification : DataClassification
  pub requested_access : AccessLevel
  pub requested_mode : ConnectionMode
  pub effective_mode : ConnectionMode
  pub allowed_access : List String
  pub allowed_modes : List String
  pub secret_handling : SecretHandlingPolicy
  pub secret_controls : ConnectionSecretControls
  pub approval_policy : ApprovalPolicy
  pub approval_required : Bool
  pub allowed : Bool
  pub reason : String
  pub gateway_policy_name : String
  pub gateway_decision : String
  pub gateway_reason : String
  pub warnings : List String

-- A value that must be an object, or be left out.
object_or_blank : Value → String → Result Fields
unfolding is_blank
object_or_blank (obj fs) problem = ok fs
object_or_blank value problem = if is_blank value then ok end else err (value_error problem)

-- `_parse_secret_handling`
unfoldable pub parse_secret_handling : Fields → Result SecretHandlingPolicy
unfolding object_or_blank
parse_secret_handling spec = do
  handling ←
      object_or_blank (get_or spec "secretHandling" (obj end))
        "ConnectionProfile spec.secretHandling must be an object when provided"
  ok (record {
    brokered = truthy (get_or handling "brokered" (bool true));
    sanitize_input = truthy (get_or handling "sanitizeInput" (bool true));
    sanitize_output = truthy (get_or handling "sanitizeOutput" (bool true));
    allow_raw_secret_reveal = truthy (get_or handling "allowRawSecretReveal" (bool false));
  })

-- `_parse_approval_policy`
unfoldable pub parse_approval_policy : Fields → Result ApprovalPolicy
unfolding object_or_blank
parse_approval_policy spec = do
  approval ←
      object_or_blank (get_or spec "approval" (obj end))
        "ConnectionProfile spec.approval must be an object when provided"
  access ← normalize_string_set (get_or approval "requiredForAccess" (arr nil)) []
  modes ← normalize_string_set (get_or approval "requiredForModes" (arr nil)) []
  ok (record { required_for_access = access; required_for_modes = modes })
