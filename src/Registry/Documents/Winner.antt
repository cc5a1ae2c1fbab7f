-- ===== src/Registry/Documents/Winner.antt =====
-- kernel/registry.py: what the effective resource takes from the document of the highest precedence.
use context_control_plane.Base.{
  String, ◌≡◌, refl, ap, sym, ◌∙◌, true, Option, none, some, List, [], ◌∷◌, ◌++◌, arith,
}
use context_control_plane.Python.Error.{ok, >>=-eq-ok, ok_injective}
use context_control_plane.Python.Value.{Value, null, bool, num, str, arr, obj, Fields, end, find}
use context_control_plane.Resource.{ResourceDocument, checked}
use context_control_plane.Sorting.{All, sort, sort_last}
use context_control_plane.Registry.Layers.{document_lt, document_lt-IsWeakOrder}
use context_control_plane.Registry.Merge.{merge_value, deep_merge}
use context_control_plane.Registry.Merge.Laws.{IsDict, IsPlain, merge_value-found, find-deep_merge}
use context_control_plane.Registry.Documents.{
  add_documents, get_resource, merge_ordered, combined, merge_spec, last_of,
}
use context_control_plane.Registry.Documents.Index.{matching}
use context_control_plane.Registry.Documents.Unordered.{merged_document-index}

merge_value-IsPlain : (base : Option Value) (v : Value) → IsPlain v → merge_value base v ≡ v
unfolding merge_value
merge_value-IsPlain none v p = refl
merge_value-IsPlain (some (obj b)) (obj fs) p = absurd p
merge_value-IsPlain (some (obj b)) null p = refl
merge_value-IsPlain (some (obj b)) (bool x) p = refl
merge_value-IsPlain (some (obj b)) (num x) p = refl
merge_value-IsPlain (some (obj b)) (str x) p = refl
merge_value-IsPlain (some (obj b)) (arr x) p = refl
merge_value-IsPlain (some null) v p = refl
merge_value-IsPlain (some (bool x)) v p = refl
merge_value-IsPlain (some (num x)) v p = refl
merge_value-IsPlain (some (str x)) v p = refl
merge_value-IsPlain (some (arr x)) v p = refl

merge_spec_last :
    (base : Fields) (ds : List ResourceDocument) (d : ResourceDocument)
    → merge_spec base (ds ++ (d ∷ [])) ≡ deep_merge (merge_spec base ds) d.spec
unfolding merge_spec
merge_spec_last base [] d = refl
merge_spec_last base (e ∷ ds) d = merge_spec_last (deep_merge base e.spec) ds d

last_of_end :
    (e : ResourceDocument) (ds : List ResourceDocument) (d : ResourceDocument)
    → last_of e (ds ++ (d ∷ [])) ≡ d
unfolding last_of
last_of_end e [] d = refl
last_of_end e (x ∷ ds) d = last_of_end x ds d

checked_same : (d e : ResourceDocument) → checked d ≡ ok e → d ≡ e
unfolding checked
checked_same d e h = ground arith

pub merge_ordered-some :
    (d : ResourceDocument) (ds : List ResourceDocument) (r : ResourceDocument)
    → merge_ordered (d ∷ ds) ≡ ok (some r)
    → combined d ds ≡ r
unfolding merge_ordered
merge_ordered-some d ds r h =
    let got = >>=-eq-ok (checked (combined d ds)) (λ m. ok (some m)) h in
    checked_same (combined d ds) got.0 got.1 ∙ cc (ok_injective got.2)

-- What a merged document has from the last of the sorted documents.
record Follows (r d : ResourceDocument) : Type 0 where
  identifier : r.identifier ≡ d.identifier
  spec : (base : Fields) × (r.spec ≡ deep_merge base d.spec)

combined-Follows :
    (ds : List ResourceDocument) (d : ResourceDocument) (r : ResourceDocument)
    → merge_ordered (ds ++ (d ∷ [])) ≡ ok (some r)
    → Follows r d
unfolding combined merge_spec last_of
combined-Follows [] d r h =
    let same = merge_ordered-some d [] r h in
    record {
      identifier = sym (ap (λ e. e.identifier) same);
      spec = (end, sym (ap (λ e. e.spec) same));
    }
combined-Follows (e ∷ ds) d r h =
    let same = merge_ordered-some e (ds ++ (d ∷ [])) r h in
    record {
      identifier = sym (ap (λ e. e.identifier) same) ∙ ap (λ e. e.identifier) (last_of_end e ds d);
      spec =
          (merge_spec end (e ∷ ds), sym (ap (λ e. e.spec) same) ∙ merge_spec_last end (e ∷ ds) d);
    }

-- Where one of the documents of a name takes precedence over all others of that name, and a lookup
-- of the name gives a resource, the resource has the identifier of that document and, under each key
-- of that document's spec whose value is not an object, that value.
pub get_resource_winner :
    (kind name namespace key : String) (v : Value) (documents before after : List ResourceDocument)
    (d r : ResourceDocument)
    → matching (record { kind = kind; namespace = namespace; name = name }) documents
      ≡ before ++ (d ∷ after)
    → All (λ e. document_lt e d ≡ true) before
    → All (λ e. document_lt e d ≡ true) after
    → IsDict d.spec
    → find d.spec key ≡ some v
    → IsPlain v
    → get_resource (add_documents [] documents) kind name namespace ≡ ok (some r)
    → (r.identifier ≡ d.identifier) × (find r.spec key ≡ some v)
unfolding get_resource
get_resource_winner kind name namespace key v documents before after d r m lower higher x found
      plain h =
    let sorted = sort_last document_lt document_lt-IsWeakOrder before d after lower higher in
    let whole : merge_ordered (sorted.0 ++ (d ∷ [])) ≡ ok (some r) =
      sym (ap merge_ordered (ap (sort document_lt) m ∙ sorted.1))
      ∙ sym (
          merged_document-index (record { kind = kind; namespace = namespace; name = name })
            documents)
      ∙ h in
    let f = combined-Follows sorted.0 d r whole in
    (
      f.identifier,
      ap (λ fs. find fs key) f.spec.1
          ∙ find-deep_merge d.spec f.spec.0 key x
          ∙ rw found (
              sym (merge_value-found (find f.spec.0 key) v)
              ∙ ap some (merge_value-IsPlain (find f.spec.0 key) v plain)),
    )
