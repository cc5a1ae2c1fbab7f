-- ===== src/Registry/Documents.antt =====
-- kernel/registry.py: the documents of each name, and the effective resource that they make.
pub mod Index
pub mod Unordered
pub mod Winner
pub mod Returns
pub mod Keys
pub mod Listing
use context_control_plane.Base.{
  String, Bool, true, false, not, ◌&&◌, Option, none, some, List, [], ◌∷◌, ◌++◌, ◌==◌,
  if◌then◌else◌,
}
use context_control_plane.Python.Error.{Result, ok, ◌>>=◌}
use context_control_plane.Python.Text.{is_empty}
use context_control_plane.Python.Text.Order.{text_lt}
use context_control_plane.Python.Value.{Fields, end}
use context_control_plane.Resource.{ResourceIdentifier, ResourceDocument, ResourceRegistry, checked}
use context_control_plane.Sorting.{sort}
use context_control_plane.Registry.Layers.{document_lt}
use context_control_plane.Registry.Merge.{deep_merge, merge_compatibility, ordered_provenance}

pub record DocumentKey : Type 0 where
  pub kind : String
  pub namespace : String
  pub name : String

-- `_document_key` and `_resource_sort_key`
unfoldable pub document_key : ResourceDocument → DocumentKey
document_key d = record {
  kind = d.identifier.kind;
  namespace = d.identifier.namespace;
  name = d.identifier.name;
}

unfoldable pub same_key : DocumentKey → DocumentKey → Bool
same_key a b = a.kind == b.kind && a.namespace == b.namespace && a.name == b.name

unfoldable pub document_key_lt : DocumentKey → DocumentKey → Bool
document_key_lt a b =
    if text_lt a.kind b.kind
    then true
    else if a.kind == b.kind
    then (if text_lt a.namespace b.namespace
        then true
        else if a.namespace == b.namespace
        then text_lt a.name b.name
        else false)
    else false

-- An entry of `_documents_by_key`.
pub record Group : Type 0 where
  pub key : DocumentKey
  pub documents : List ResourceDocument

-- `self._documents_by_key.setdefault(_document_key(document), []).append(document)`
unfoldable pub add_document : ResourceDocument → List Group → List Group
unfolding document_key same_key
add_document d [] = record { key = document_key d; documents = d ∷ [] } ∷ []
add_document d (g ∷ gs) =
    let rest = add_document d gs in
    if same_key g.key (document_key d)
    then record { key = g.key; documents = g.documents ++ (d ∷ []) } ∷ gs
    else g ∷ rest

-- The loop of `__init__`.
unfoldable pub add_documents : List Group → List ResourceDocument → List Group
add_documents groups [] = groups
add_documents groups (d ∷ ds) = add_documents (add_document d groups) ds

-- `self._documents_by_key.get(key, [])`
unfoldable pub variants : List Group → DocumentKey → List ResourceDocument
variants [] k = []
variants (g ∷ gs) k = let rest = variants gs k in if same_key g.key k then g.documents else rest

unfoldable pub last_of : ResourceDocument → List ResourceDocument → ResourceDocument
last_of d [] = d
last_of d (e ∷ es) = last_of e es

unfoldable pub merge_metadata : Fields → List ResourceDocument → Fields
merge_metadata merged [] = merged
merge_metadata merged (d ∷ ds) = merge_metadata (deep_merge merged d.metadata) ds

unfoldable pub merge_spec : Fields → List ResourceDocument → Fields
merge_spec merged [] = merged
merge_spec merged (d ∷ ds) = merge_spec (deep_merge merged d.spec) ds

-- The document that `_merged_document` constructs from the sorted variants.
unfoldable pub combined : ResourceDocument → List ResourceDocument → ResourceDocument
unfolding last_of merge_metadata merge_spec merge_compatibility ordered_provenance
combined d ds = record {
  identifier = (last_of d ds).identifier;
  spec = merge_spec end (d ∷ ds);
  metadata = merge_metadata end (d ∷ ds);
  compatibility = merge_compatibility d.compatibility ds;
  provenance = ordered_provenance (d ∷ ds) (last_of d ds);
}

-- The rest of `_merged_document` after the sort, which leaves nothing where there are no variants.
unfoldable pub merge_ordered : List ResourceDocument → Result (Option ResourceDocument)
unfolding combined checked
merge_ordered [] = ok none
merge_ordered (d ∷ ds) = do merged ← checked (combined d ds); ok (some merged)

-- `_merged_document`
unfoldable pub merged_document : List Group → DocumentKey → Result (Option ResourceDocument)
unfolding variants merge_ordered sort
merged_document groups k = merge_ordered (sort document_lt (variants groups k))

-- `if kind and document.identifier.kind != kind`, turned round.
unfoldable pub passes : String → String → Bool
passes wanted actual = if is_empty wanted then true else actual == wanted

group_keys : List Group → List DocumentKey
group_keys [] = []
group_keys (g ∷ gs) = g.key ∷ group_keys gs

-- One round of the loop of `list_resources`: an empty text is `None`.
unfoldable pub kept : String → String → Option ResourceDocument → List ResourceDocument
unfolding passes
kept kind namespace none = []
kept kind namespace (some d) =
    if not (passes kind d.identifier.kind)
    then []
    else if not (passes namespace d.identifier.namespace)
    then []
    else d ∷ []

unfoldable pub listed :
    List Group → String → String → List DocumentKey → Result (List ResourceDocument)
unfolding merged_document kept
listed groups kind namespace [] = ok []
listed groups kind namespace (k ∷ ks) = do
  document ← merged_document groups k
  rest ← listed groups kind namespace ks
  ok (kept kind namespace document ++ rest)

unfoldable pub resource_lt : ResourceDocument → ResourceDocument → Bool
unfolding document_key document_key_lt
resource_lt d e = document_key_lt (document_key d) (document_key e)

-- `list_resources`
unfoldable pub list_resources : List Group → String → String → Result (List ResourceDocument)
unfolding listed group_keys sort
list_resources groups kind namespace = do
  documents ← listed groups kind namespace (sort document_key_lt (group_keys groups))
  ok (sort resource_lt documents)

-- `get_resource`
unfoldable pub get_resource :
    List Group → String → String → String → Result (Option ResourceDocument)
unfolding merged_document
get_resource groups kind name namespace =
    merged_document groups (record { kind = kind; namespace = namespace; name = name })

-- `InMemoryResourceRegistry(documents)`
unfoldable pub registry_of : List ResourceDocument → ResourceRegistry
unfolding list_resources get_resource add_documents
registry_of documents =
    let groups = add_documents [] documents in
    record { list_resources = list_resources groups; get_resource = get_resource groups }
