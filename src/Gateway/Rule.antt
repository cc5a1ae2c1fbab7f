-- ===== src/Gateway/Rule.antt =====
-- kernel/gateway.py: decisions, and the rules of a policy.
use context_control_plane.Base.{
  String, ◌<>◌, Bool, true, false, not, ◌&&◌, List, [], ◌∷◌, ◌==◌, contains, if◌then◌else◌,
}
use context_control_plane.Python.Error.{Result, ok, err, gateway_error, ◌>>=◌}
use context_control_plane.Python.Text.{strip, lower, is_empty, has_part, repr}
use context_control_plane.Python.Value.{
  Value, str, arr, obj, Items, nil, cons, Fields, end, field, is_blank, text_or, get_or, has_key,
}

abbrev pub allowed_decisions : List String
allowed_decisions = "allow" ∷ "deny" ∷ "approval_required" ∷ []

-- `_mapping`
unfoldable pub mapping : Value → String → Result Fields
unfolding is_blank
mapping (obj fs) field_name = ok fs
mapping value field_name =
    if is_blank value
    then ok end
    else err (gateway_error (field_name <> " must be a JSON object when provided"))

mapping_items : Items → String → Result (List Fields)
mapping_items nil field_name = ok []
mapping_items (cons (obj fs) xs) field_name = do rest ← mapping_items xs field_name; ok (fs ∷ rest)
mapping_items (cons _ xs) field_name =
    err (gateway_error (field_name <> " entries must be JSON objects"))

-- `_mapping_list`
unfoldable pub mapping_list : Value → String → Result (List Fields)
unfolding is_blank mapping_items
mapping_list (arr xs) field_name = mapping_items xs field_name
mapping_list value field_name =
    if is_blank value
    then ok []
    else err (gateway_error (field_name <> " must be a JSON array when provided"))

-- `str(v or "").strip().lower()`
unfoldable pub lowered : Value → String
lowered v = lower (strip (text_or v ""))

-- `_normalize_decision`
unfoldable pub normalize_decision : Value → String → Result String
normalize_decision raw field_name =
    let value = lowered raw in
    if is_empty value
    then err (gateway_error (field_name <> " must not be empty"))
    else if not (contains allowed_decisions value)
    then err (gateway_error ("unsupported gateway decision " <> repr value))
    else ok value

pub record GatewayRule : Type 0 where
  pub match : Fields
  pub decision : String
  pub reason : String

-- The request that a rule is matched against.
pub record Context : Type 0 where
  pub access : String
  pub classification : String
  pub mode : String
  pub operation : String
  pub namespace : String

-- One round of the loop over `expectations`: false where `matches` returns.
unfoldable pub expectation_holds : Fields → String → String → Bool
expectation_holds match key actual =
    if has_key match key
    then (let expected = lowered (get_or match key (str "")) in
        not (not (is_empty expected) && not (expected == lower (strip actual))))
    else true

unfoldable pub expectations_hold : Fields → List (String × String) → Bool
unfolding expectation_holds
expectations_hold match [] = true
expectations_hold match ((key, actual) ∷ rest) =
    if expectation_holds match key actual then expectations_hold match rest else false

-- The test of `operationContains`.
unfoldable pub operation_holds : Fields → String → Bool
operation_holds match operation =
    if has_key match "operationContains"
    then (let needle = lowered (get_or match "operationContains" (str "")) in
        not (not (is_empty needle) && not (has_part needle (lower (strip operation)))))
    else true

-- `GatewayRule.matches`
unfoldable pub matches : GatewayRule → Context → Bool
unfolding expectations_hold operation_holds
matches rule c =
    if expectations_hold rule.match (
      ("access", c.access)
      ∷ ("classification", c.classification)
      ∷ ("mode", c.mode)
      ∷ ("namespace", c.namespace)
      ∷ [])
    then operation_holds rule.match c.operation
    else false

-- `GatewayRule.to_dict`
unfoldable pub rule_to_dict : GatewayRule → Fields
rule_to_dict rule =
    field "match" (obj rule.match)
      (field "decision" (str rule.decision) (field "reason" (str rule.reason) end))
