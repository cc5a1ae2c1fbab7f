-- ===== src/Registry/Documents/Unordered.antt =====
-- kernel/registry.py: the effective resource does not depend on the order of the documents.
use context_control_plane.Base.{
  String, ◌≡◌, refl, ap, sym, ◌∙◌, inl, inr, List, [], ◌∷◌, Bool-cases,
}
use context_control_plane.Resource.{ResourceDocument}
use context_control_plane.Sorting.{
  Reordering, nil, keep, swap, trans, NoTies, sort, sort-Reordering,
}
use context_control_plane.Registry.Layers.{document_lt, document_lt-IsWeakOrder}
use context_control_plane.Registry.Documents.{
  DocumentKey, document_key, same_key, add_documents, get_resource, merge_ordered, merged_document,
}
use context_control_plane.Registry.Documents.Index.{matching, variants-index}

Reordering-refl : {A : Type 0} (xs : List A) → Reordering xs xs
Reordering-refl [] = nil
Reordering-refl (x ∷ xs) = keep x (Reordering-refl xs)

matching-Reordering :
    (k : DocumentKey) {ds es : List ResourceDocument}
    → Reordering ds es
    → Reordering (matching k ds) (matching k es)
matching-Reordering k nil = nil
matching-Reordering k (keep d r) = elim (Bool-cases (same_key (document_key d) k)) [
  | inl e ↦ rw e (keep d (matching-Reordering k r))
  | inr e ↦ rw e (matching-Reordering k r)
]
matching-Reordering k (swap d e xs) = elim (Bool-cases (same_key (document_key d) k)) [
  | inl h ↦ elim (Bool-cases (same_key (document_key e) k)) [
    | inl l ↦ rw (h, l) (swap d e (matching k xs))
    | inr l ↦ rw (h, l) (Reordering-refl _)
  ]
  | inr h ↦ elim (Bool-cases (same_key (document_key e) k)) [
    | inl l ↦ rw (h, l) (Reordering-refl _)
    | inr l ↦ rw (h, l) (Reordering-refl _)
  ]
]
matching-Reordering k (trans r s) = trans (matching-Reordering k r) (matching-Reordering k s)

pub merged_document-index :
    (k : DocumentKey) (ds : List ResourceDocument)
    → merged_document (add_documents [] ds) k ≡ merge_ordered (sort document_lt (matching k ds))
unfolding merged_document
merged_document-index k ds = rw (variants-index ds k) refl

-- A lookup does not depend on the order in which the documents were given, where no two documents of
-- the name tie in layer, nativeness and source.
pub get_resource-Reordering :
    (kind name namespace : String) {ds es : List ResourceDocument}
    → Reordering ds es
    → NoTies document_lt (matching (record { kind = kind; namespace = namespace; name = name }) ds)
    → get_resource (add_documents [] ds) kind name namespace
      ≡ get_resource (add_documents [] es) kind name namespace
unfolding get_resource
get_resource-Reordering kind name namespace {ds} {es} r apart =
    let k : DocumentKey = record { kind = kind; namespace = namespace; name = name } in
    merged_document-index k ds
    ∙ ap merge_ordered
        (sort-Reordering document_lt document_lt-IsWeakOrder (matching-Reordering k r) apart)
    ∙ sym (merged_document-index k es)
