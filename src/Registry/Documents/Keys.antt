-- ===== src/Registry/Documents/Keys.antt =====
-- kernel/registry.py: the names of the effective resources, and their order.
use context_control_plane.Base.{
  ◌≡◌, ap, sym, ◌∙◌, inl, inr, true, false, some, List, [], ◌∷◌, arith, Bool-cases, eq_iff,
}
use context_control_plane.Python.Error.{ok}
use context_control_plane.Python.Text.Order.{text_lt_asymm, text_lt_weak, text_lt_connected}
use context_control_plane.Resource.{ResourceDocument}
use context_control_plane.Sorting.{All, All-sort, sort, IsWeakOrder}
use context_control_plane.Registry.Layers.{document_lt}
use context_control_plane.Registry.Documents.{
  DocumentKey, document_key, same_key, add_documents, document_key_lt, merged_document, resource_lt,
  last_of, merge_ordered, combined,
}
use context_control_plane.Registry.Documents.Index.{matching, same_key_sound}
use context_control_plane.Registry.Documents.Unordered.{merged_document-index}
use context_control_plane.Registry.Documents.Winner.{merge_ordered-some}

document_key_lt_asymm :
    (a b : DocumentKey) → document_key_lt a b ≡ true → document_key_lt b a ≡ false
unfolding document_key_lt
document_key_lt_asymm a b h = ground (
  arith,
  text_lt_asymm a.kind b.kind,
  text_lt_asymm a.namespace b.namespace,
  text_lt_asymm a.name b.name,
  eq_iff a.kind b.kind,
  eq_iff a.namespace b.namespace,
  eq_iff b.kind a.kind,
  eq_iff b.namespace a.namespace,
)

document_key_lt_weak :
    (y a b : DocumentKey)
    → document_key_lt y a ≡ true
    → document_key_lt y b ≡ false
    → document_key_lt b a ≡ true
unfolding document_key_lt
document_key_lt_weak y a b h k = ground (
  arith,
  text_lt_weak y.kind a.kind b.kind,
  text_lt_weak y.namespace a.namespace b.namespace,
  text_lt_weak y.name a.name b.name,
  text_lt_connected y.kind b.kind,
  text_lt_connected y.namespace b.namespace,
  eq_iff y.kind a.kind,
  eq_iff y.kind b.kind,
  eq_iff b.kind a.kind,
  eq_iff y.namespace a.namespace,
  eq_iff y.namespace b.namespace,
  eq_iff b.namespace a.namespace,
)

pub resource_lt-IsWeakOrder : IsWeakOrder resource_lt
unfolding resource_lt
resource_lt-IsWeakOrder = record {
  asymm = λ d e. document_key_lt_asymm (document_key d) (document_key e);
  weak = λ c d e. document_key_lt_weak (document_key c) (document_key d) (document_key e);
}

matching-key :
    (k : DocumentKey) (ds : List ResourceDocument) → All (λ d. document_key d ≡ k) (matching k ds)
matching-key k [] = tt
matching-key k (d ∷ ds) = elim (Bool-cases (same_key (document_key d) k)) [
  | inl e ↦ rw e (same_key_sound (document_key d) k e, matching-key k ds)
  | inr e ↦ rw e (matching-key k ds)
]

last_of-key :
    (k : DocumentKey) (d : ResourceDocument) (ds : List ResourceDocument)
    → All (λ d. document_key d ≡ k) (d ∷ ds)
    → document_key (last_of d ds) ≡ k
unfolding last_of
last_of-key k d [] h = h.0
last_of-key k d (e ∷ es) h = last_of-key k e es h.1

merge_ordered-key :
    (k : DocumentKey) (ds : List ResourceDocument) (r : ResourceDocument)
    → All (λ d. document_key d ≡ k) ds
    → merge_ordered ds ≡ ok (some r)
    → document_key r ≡ k
unfolding merge_ordered
merge_ordered-key k [] r h e = cc
merge_ordered-key k (d ∷ ds) r h e =
    ap document_key (sym (merge_ordered-some d ds r e))
    ∙ unfold document_key combined in last_of-key k d ds h

-- An effective resource has the name under which it was looked up.
pub merged_document-key :
    (k : DocumentKey) (ds : List ResourceDocument) (r : ResourceDocument)
    → merged_document (add_documents [] ds) k ≡ ok (some r)
    → document_key r ≡ k
merged_document-key k ds r h =
    merge_ordered-key k (sort document_lt (matching k ds)) r
      (All-sort document_lt (λ d. document_key d ≡ k) (matching k ds) (matching-key k ds))
      (sym (merged_document-index k ds) ∙ h)
