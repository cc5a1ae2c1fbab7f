-- ===== src/Gateway/Profile.antt =====
-- kernel/gateway.py: loading a gateway policy.
use context_control_plane.Base.{String, ◌<>◌, not, List, [], ◌∷◌, ◌==◌, if◌then◌else◌}
use context_control_plane.Python.Error.{Result, ok, err, gateway_error, ◌>>=◌}
use context_control_plane.Python.Text.{strip, lower}
use context_control_plane.Python.Value.{str, Fields, end, field, text_or, get_or, get}
use context_control_plane.Resource.{ResourceDocument, source_of}
use context_control_plane.Gateway.Rule.{mapping, mapping_list, normalize_decision, GatewayRule}

-- A `dict` from texts to `dict`s.
abbrev pub Classifications : Type 0
Classifications = List (String × Fields)

unfoldable pub put_entry : Classifications → String → Fields → Classifications
put_entry [] k v = (k, v) ∷ []
put_entry ((j, w) ∷ m) k v = if j == k then (j, v) ∷ m else (j, w) ∷ put_entry m k v

-- `classifications.get(k, {})`
unfoldable pub entry_of : Classifications → String → Fields
entry_of [] k = end
entry_of ((j, w) ∷ m) k = if j == k then w else entry_of m k

pub record GatewayPolicyProfile : Type 0 where
  pub name : String
  pub namespace : String
  pub default_decision : String
  pub rules : List GatewayRule
  pub classifications : Classifications
  pub source : String

-- The body of the loop over `rules`.
unfoldable pub load_rule : Fields → Result GatewayRule
load_rule item = do
  match ← mapping (get item "match") "rules[].match"
  decision ← normalize_decision (get item "decision") "rules[].decision"
  ok (record {
    match = match;
    decision = decision;
    reason = strip (text_or (get_or item "reason" (str "")) "");
  })

unfoldable pub load_rules : List Fields → Result (List GatewayRule)
load_rules [] = ok []
load_rules (item ∷ rest) = do rule ← load_rule item; more ← load_rules rest; ok (rule ∷ more)

-- The loop over `classifications_raw.items()`.
unfoldable pub load_classifications : Fields → Classifications → Result Classifications
load_classifications end acc = ok acc
load_classifications (field key value rest) acc = do
  entry ← mapping value ("classifications." <> key)
  load_classifications rest (put_entry acc (lower (strip key)) entry)

-- `GatewayPolicyProfile.from_document`
unfoldable pub from_document : ResourceDocument → Result GatewayPolicyProfile
from_document document =
    if not (document.identifier.kind == "GatewayPolicy")
    then err (gateway_error "expected a GatewayPolicy resource")
    else do
      defaults ← mapping (get document.spec "defaults") "defaults"
      default_decision ←
          normalize_decision (get_or defaults "decision" (str "allow")) "defaults.decision"
      rule_items ← mapping_list (get document.spec "rules") "rules"
      rules ← load_rules rule_items
      raw ← mapping (get document.spec "classifications") "classifications"
      classifications ← load_classifications raw []
      ok (record {
        name = document.identifier.name;
        namespace = document.identifier.namespace;
        default_decision = default_decision;
        rules = rules;
        classifications = classifications;
        source = source_of document;
      })
