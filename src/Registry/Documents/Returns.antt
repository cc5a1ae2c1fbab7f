-- ===== src/Registry/Documents/Returns.antt =====
-- kernel/registry.py: the registry of documents that could be constructed raises nothing.
use mathlib.Core.Path.{subst}
use context_control_plane.Base.{
  some_injective, String, ◌≡◌, refl, ◌∙◌, inl, inr, false, Option, none, some, List, [], ◌∷◌, ◌++◌,
  arith, Bool-cases, ◌↔◌, ◌==◌,
}
use context_control_plane.Python.Error.{ok}
use context_control_plane.Python.Value.{Value, Fields, end, field, find, has_key, put}
use context_control_plane.Resource.{ResourceDocument, checked}
use context_control_plane.Sorting.{All, All-sort, sort, insert}
use context_control_plane.Registry.Layers.{document_lt}
use context_control_plane.Registry.Merge.{merge_value, deep_merge}
use context_control_plane.Registry.Merge.Laws.{find-put}
use context_control_plane.Registry.Documents.{
  DocumentKey, document_key, same_key, add_documents, get_resource, list_resources, listed,
  group_keys, document_key_lt, merge_ordered, merged_document, combined, merge_metadata,
  resource_lt, kept,
}
use context_control_plane.Registry.Documents.Index.{matching}
use context_control_plane.Registry.Documents.Unordered.{merged_document-index}

-- The dictionary lacks the two reserved keys.
abbrev pub IsUnreserved : Fields → Type 0
IsUnreserved m = (find m "name" ≡ none) × (find m "namespace" ≡ none)

-- The document passes the check of its constructor.
abbrev pub IsConstructed : ResourceDocument → Type 0
IsConstructed d = checked d ≡ ok d

pub checked_iff : (d : ResourceDocument) → IsConstructed d ↔ IsUnreserved d.metadata
unfolding checked has_key
checked_iff d = (λ h. ground arith, λ h. ground (arith, h.0, h.1))

find-put-none :
    (m : Fields) (j k : String) (v : Value)
    → find m k ≡ none
    → (j == k) ≡ false
    → find (put m j v) k ≡ none
find-put-none m j k v h e = rw (find-put m j k v, e) h

deep_merge-none :
    (overlay base : Fields) (k : String)
    → find base k ≡ none
    → find overlay k ≡ none
    → find (deep_merge base overlay) k ≡ none
unfolding deep_merge find
deep_merge-none end base k h l = h
deep_merge-none (field j v fs) base k h l = ground (
  arith,
  find-put base j k (merge_value (find base j) v),
  deep_merge-none fs (put base j (merge_value (find base j) v)) k,
)

merge_metadata-IsUnreserved :
    (base : Fields) (ds : List ResourceDocument)
    → IsUnreserved base
    → All IsConstructed ds
    → IsUnreserved (merge_metadata base ds)
unfolding merge_metadata
merge_metadata-IsUnreserved base [] u h = u
merge_metadata-IsUnreserved base (d ∷ ds) u h =
    let v = (checked_iff d).0 h.0 in
    merge_metadata-IsUnreserved (deep_merge base d.metadata) ds
      (
        deep_merge-none d.metadata base "name" u.0 v.0,
        deep_merge-none d.metadata base "namespace" u.1 v.1,
      )
      h.1

-- What a lookup gives: nothing exactly where there are no documents, else a document that the
-- constructor accepts.
pub record IsAnswer (ds : List ResourceDocument) (r : Option ResourceDocument) : Type 0 where
  pub none_iff : (r ≡ none) ↔ (ds ≡ [])
  pub constructed : (d : ResourceDocument) → r ≡ some d → IsConstructed d

merge_ordered-returns :
    (ds : List ResourceDocument)
    → All IsConstructed ds
    → (r : Option ResourceDocument) × (merge_ordered ds ≡ ok r) × IsAnswer ds r
unfolding merge_ordered
merge_ordered-returns [] h =
    (none, refl, record { none_iff = (λ e. refl, λ e. refl); constructed = λ d e. cc })
merge_ordered-returns (d ∷ ds) h =
    let passed = (checked_iff (combined d ds)).1 (
      unfold combined in
      merge_metadata-IsUnreserved end (d ∷ ds) (unfold find in (refl, refl)) h) in
    (
      some (combined d ds),
      rw passed refl,
      record {
        none_iff = (λ e. cc, λ e. cc);
        constructed = λ r e. subst IsConstructed (some_injective e) passed;
      },
    )

All-matching :
    (k : DocumentKey) (ds : List ResourceDocument)
    → All IsConstructed ds
    → All IsConstructed (matching k ds)
All-matching k [] h = tt
All-matching k (d ∷ ds) h = elim (Bool-cases (same_key (document_key d) k)) [
  | inl e ↦ rw e (h.0, All-matching k ds h.1)
  | inr e ↦ rw e (All-matching k ds h.1)
]

insert-cons : (d : ResourceDocument) (ds : List ResourceDocument) → insert document_lt d ds ≡ [] → ⊥
unfolding insert
insert-cons d [] h = cc
insert-cons d (e ∷ ds) h = ground arith

sort_nil : (ds : List ResourceDocument) → (sort document_lt ds ≡ []) ↔ (ds ≡ [])
unfolding sort
sort_nil [] = (λ e. refl, λ e. refl)
sort_nil (d ∷ ds) = (λ e. absurd (insert-cons d (sort document_lt ds) e), λ e. cc)

IsAnswer-sort :
    (ds : List ResourceDocument) (r : Option ResourceDocument)
    → IsAnswer (sort document_lt ds) r
    → IsAnswer ds r
IsAnswer-sort ds r h =
    let empty = sort_nil ds in
    record {
      none_iff = (λ e. empty.0 (h.none_iff.0 e), λ e. h.none_iff.1 (empty.1 e));
      constructed = h.constructed;
    }

merged_document-returns :
    (k : DocumentKey) (ds : List ResourceDocument)
    → All IsConstructed ds
    → (r : Option ResourceDocument) × (merged_document (add_documents [] ds) k ≡ ok r)
      × IsAnswer (sort document_lt (matching k ds)) r
merged_document-returns k ds h =
    let got =
      merge_ordered-returns (sort document_lt (matching k ds))
        (All-sort document_lt IsConstructed (matching k ds) (All-matching k ds h)) in
    (got.0, merged_document-index k ds ∙ got.1, got.2)

listed-returns :
    (kind namespace : String) (ks : List DocumentKey) (ds : List ResourceDocument)
    → All IsConstructed ds
    → (rs : List ResourceDocument) × (listed (add_documents [] ds) kind namespace ks ≡ ok rs)
unfolding listed
listed-returns kind namespace [] ds h = ([], refl)
listed-returns kind namespace (k ∷ ks) ds h =
    let got = merged_document-returns k ds h in
    let rest = listed-returns kind namespace ks ds h in
    (kept kind namespace got.0 ++ rest.0, rw (got.1, rest.1) refl)

-- Where every document is one that the constructor accepts, the registry raises nothing: a lookup
-- gives none exactly where no document has the name, and otherwise a document that the constructor
-- accepts, and the list of resources is returned.
pub registry-returns :
    (kind name namespace : String) (documents : List ResourceDocument)
    → All IsConstructed documents
    → ((r : Option ResourceDocument) × (get_resource
            (add_documents [] documents)
            kind
            name
            namespace
          ≡ ok r)
        × IsAnswer
            (matching (record { kind = kind; namespace = namespace; name = name }) documents)
            r)
      × ((rs : List ResourceDocument) × (list_resources (add_documents [] documents) kind namespace
            ≡ ok rs))
unfolding get_resource list_resources
registry-returns kind name namespace documents h =
    let k : DocumentKey = record { kind = kind; namespace = namespace; name = name } in
    let got = merged_document-returns k documents h in
    let rs =
      listed-returns kind namespace (sort document_key_lt (group_keys (add_documents [] documents)))
        documents h in
    (
      (got.0, got.1, IsAnswer-sort (matching k documents) got.0 got.2),
      (sort resource_lt rs.0, rw rs.1 refl),
    )
