-- ===== src/Examples/Resources.antt =====
-- Two documents of one name in different layers, and one of another name.
use mathlib.Core.Path.{subst}
use context_control_plane.Base.{
  ◌≡◌, refl, sym, inr, some, List, [], ◌∷◌, true, false, String, Option,
}
use context_control_plane.Python.Error.{ok}
use context_control_plane.Python.Text.{strip, lower, lower_char, is_empty, or_else}
use context_control_plane.Python.Value.{Value, pos, num, obj, Fields, end, dict, find, has_key, put}
use context_control_plane.Resource.{ResourceDocument, document_to_dict, checked}
use context_control_plane.Sorting.{swap, NoTies, All, Ordered}
use context_control_plane.Sorting.Members.{Has}
use context_control_plane.Registry.Layers.{
  layer_priority, document_lt, primary_provenance, winner_key, winner_sort_key, key_lt,
  provenance_lt, same_provenance,
}
use context_control_plane.Registry.Merge.{deep_merge, overlay_compatibility}
use context_control_plane.Registry.Merge.Laws.{IsPlain}
use context_control_plane.Registry.Merge.Paths.{IsDeep, below, IsUntouched, below-deep_merge}
use context_control_plane.Registry.Documents.{
  DocumentKey, document_key, same_key, add_document, add_documents, variants, get_resource,
  list_resources, resource_lt,
}
use context_control_plane.Registry.Documents.Index.{matching, variants-index}
use context_control_plane.Registry.Documents.Unordered.{get_resource-Reordering}
use context_control_plane.Registry.Documents.Winner.{get_resource_winner}
use context_control_plane.Registry.Documents.Returns.{IsAnswer, IsConstructed, registry-returns}
use context_control_plane.Registry.Documents.Listing.{IsListed, list_resources_iff}
use context_control_plane.Registry.Loaders.{build_resource_document}
use context_control_plane.Registry.Loaders.Written.{build_resource_document-document_to_dict}
use context_control_plane.Examples.Data.{resource}

abbrev in_layer : String → Fields → ResourceDocument
in_layer layer spec = record (resource "ConnectionProfile" "orders" spec) {
  provenance = record { source = "orders.json"; layer = layer; native = true } ∷ [];
}

abbrev shared : ResourceDocument
shared =
    in_layer "common"
      (dict (("timeout", num (pos 30)) ∷ ("retry", obj (dict (("max", num (pos 1)) ∷ []))) ∷ []))

abbrev own : ResourceDocument
own =
    in_layer "user"
      (dict (("timeout", num (pos 5)) ∷ ("retry", obj (dict (("delay", num (pos 2)) ∷ []))) ∷ []))

abbrev other : ResourceDocument
other = resource "ConnectionProfile" "billing" end

abbrev documents : List ResourceDocument
documents = own ∷ shared ∷ other ∷ []

abbrev orders : DocumentKey
orders = record { kind = "ConnectionProfile"; namespace = "dev"; name = "orders" }

variants-index_example : variants (add_documents [] documents) orders ≡ matching orders documents
variants-index_example = variants-index documents orders

below-deep_merge_example :
    ((v : Value)
      → IsPlain v
      → below (some (obj own.spec)) ("retry" ∷ "max" ∷ []) ≡ some v
      → below (some (obj (deep_merge shared.spec own.spec))) ("retry" ∷ "max" ∷ []) ≡ some v)
    × (IsUntouched (some (obj own.spec)) ("retry" ∷ "max" ∷ [])
        → below (some (obj (deep_merge shared.spec own.spec))) ("retry" ∷ "max" ∷ [])
          ≡ below (some (obj shared.spec)) ("retry" ∷ "max" ∷ []))
below-deep_merge_example =
    below-deep_merge shared.spec own.spec ("retry" ∷ "max" ∷ [])
      (unfold find IsDeep in (refl, (tt, (refl, ((refl, (tt, tt)), tt)))))

-- The limit that only the shared document sets is kept, inside an object that both set.
retry-kept :
    below (some (obj (deep_merge shared.spec own.spec))) ("retry" ∷ "max" ∷ []) ≡ some (num (pos 1))
unfolding below deep_merge find put
retry-kept = refl

own_above : document_lt shared own ≡ true
unfolding document_lt winner_sort_key winner_key primary_provenance key_lt layer_priority strip
    lower lower_char
own_above = refl

matched : matching orders documents ≡ own ∷ shared ∷ []
unfolding same_key document_key
matched = refl

get_resource-Reordering_example :
    get_resource (add_documents [] documents) "ConnectionProfile" "orders" "dev"
    ≡ get_resource (add_documents [] (shared ∷ own ∷ other ∷ [])) "ConnectionProfile" "orders" "dev"
get_resource-Reordering_example =
    get_resource-Reordering "ConnectionProfile" "orders" "dev" (swap own shared (other ∷ []))
      (subst (NoTies document_lt) (sym matched) ((inr own_above, tt), (tt, tt)))

abbrev effective : ResourceDocument
effective = record own {
  spec = dict (
      ("timeout", num (pos 5))
      ∷ ("retry", obj (dict (("max", num (pos 1)) ∷ ("delay", num (pos 2)) ∷ [])))
      ∷ []);
  provenance =
      record { source = "orders.json"; layer = "user"; native = true }
      ∷ record { source = "orders.json"; layer = "common"; native = true }
      ∷ [];
}

orders-found :
    get_resource (add_documents [] documents) "ConnectionProfile" "orders" "dev"
    ≡ ok (some effective)
unfolding get_resource add_documents add_document document_lt key_lt winner_sort_key
    primary_provenance layer_priority lower strip lower_char has_key deep_merge put
    overlay_compatibility provenance_lt or_else same_provenance
orders-found = refl

get_resource_winner_example :
    (effective.identifier ≡ own.identifier) × (find effective.spec "timeout" ≡ some (num (pos 5)))
get_resource_winner_example =
    get_resource_winner "ConnectionProfile" "orders" "dev" "timeout" (num (pos 5)) documents []
      (shared ∷ []) own effective matched tt (own_above, tt) (unfold find in (refl, (refl, tt)))
      (unfold find in refl) tt orders-found

constructed : All IsConstructed documents
unfolding checked has_key find
constructed = (refl, (refl, (refl, tt)))

registry-returns_example :
    ((r : Option ResourceDocument) × (get_resource
          (add_documents [] documents)
          "ConnectionProfile"
          "orders"
          "dev"
        ≡ ok r)
      × IsAnswer (matching orders documents) r)
    × ((rs : List ResourceDocument) × (list_resources
            (add_documents [] documents)
            "ConnectionProfile"
            "dev"
          ≡ ok rs))
registry-returns_example = registry-returns "ConnectionProfile" "orders" "dev" documents constructed

list_resources_iff_example :
    (rs : List ResourceDocument) × (list_resources
        (add_documents [] documents)
        "ConnectionProfile"
        ""
      ≡ ok rs)
    × Ordered resource_lt rs
    × All (IsListed (add_documents [] documents) "ConnectionProfile" "") rs
    × ((r : ResourceDocument)
        → IsListed (add_documents [] documents) "ConnectionProfile" "" r
        → Has r rs)
list_resources_iff_example = list_resources_iff documents "ConnectionProfile" "" constructed

build_resource_document-document_to_dict_example :
    build_resource_document (obj (document_to_dict own)) "copy.json" "local" false
    ≡ ok (record own {
      provenance = record { source = "copy.json"; layer = "local"; native = false } ∷ [];
    })
build_resource_document-document_to_dict_example =
    build_resource_document-document_to_dict own "copy.json" "local" false (record {
      api_version = unfold strip in refl;
      has_api_version = unfold is_empty in refl;
      kind = unfold strip in refl;
      has_kind = unfold is_empty in refl;
      name = unfold strip in refl;
      has_name = unfold is_empty in refl;
      namespace = unfold strip in refl;
      has_namespace = unfold is_empty in refl;
      introduced_in = unfold strip in refl;
      deprecated_in = unfold strip in refl;
      replaced_by = unfold strip in refl;
      metadata = tt;
      unreserved = unfold find in (refl, refl);
    })
