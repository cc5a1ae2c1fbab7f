-- ===== src/Registry/Documents/Listing.antt =====
-- kernel/registry.py: the list of resources, against the lookup.
use mathlib.Core.Path.{subst}
use context_control_plane.Base.{
  String, ◌≡◌, refl, ap, sym, ◌∙◌, inl, inr, true, Option, none, some, List, [], ◌∷◌, ◌++◌,
  Bool-cases, ◌⊎◌,
}
use context_control_plane.Python.Error.{ok, ◌>>=◌, >>=-eq-ok, ok_injective}
use context_control_plane.Resource.{ResourceDocument}
use context_control_plane.Sorting.{All, All-sort, sort, Ordered, sort-Ordered}
use context_control_plane.Sorting.Members.{Has, Has-sort, Has-left, Has-right}
use context_control_plane.Registry.Layers.{document_lt}
use context_control_plane.Registry.Documents.{
  DocumentKey, document_key, same_key, Group, add_documents, get_resource, list_resources, listed,
  group_keys, document_key_lt, merged_document, resource_lt, kept, passes, merge_ordered, variants,
}
use context_control_plane.Registry.Documents.Index.{same_key_sound}
use context_control_plane.Registry.Documents.Returns.{IsConstructed, registry-returns}
use context_control_plane.Registry.Documents.Keys.{resource_lt-IsWeakOrder, merged_document-key}

All-append {ℓ κ} :
    {A : Type ℓ} (P : A → Type κ) (xs ys : List A) → All P xs → All P ys → All P (xs ++ ys)
All-append P [] ys h k = k
All-append P (x ∷ xs) ys h k = (h.0, All-append P xs ys h.1 k)

-- The resource passes both filters, and the lookup of its name gives it.
pub record IsListed (groups : List Group) (kind namespace : String) (r : ResourceDocument)
    : Type 0 where
  kind_passes : passes kind r.identifier.kind ≡ true
  namespace_passes : passes namespace r.identifier.namespace ≡ true
  found :
      get_resource groups r.identifier.kind r.identifier.name r.identifier.namespace ≡ ok (some r)

get_resource_own :
    (ds : List ResourceDocument) (k : DocumentKey) (r : ResourceDocument)
    → merged_document (add_documents [] ds) k ≡ ok (some r)
    → get_resource (add_documents [] ds) r.identifier.kind r.identifier.name r.identifier.namespace
      ≡ ok (some r)
unfolding get_resource
get_resource_own ds k r h =
    ap (merged_document (add_documents [] ds)) {y = k}
      (unfold document_key in merged_document-key k ds r h)
    ∙ h

kept-IsListed :
    (ds : List ResourceDocument) (kind namespace : String) (k : DocumentKey)
    (found : Option ResourceDocument)
    → merged_document (add_documents [] ds) k ≡ ok found
    → All (IsListed (add_documents [] ds) kind namespace) (kept kind namespace found)
unfolding kept
kept-IsListed ds kind namespace k none h = tt
kept-IsListed ds kind namespace k (some r) h = elim (Bool-cases (passes kind r.identifier.kind)) [
  | inl e ↦ elim (Bool-cases (passes namespace r.identifier.namespace)) [
    | inl f ↦
        rw (e, f)
          (record { kind_passes = e; namespace_passes = f; found = get_resource_own ds k r h }, tt)
    | inr f ↦ rw (e, f) tt
  ]
  | inr e ↦ rw e tt
]

-- A loop that returns has been through its first round and through the others.
listed_first :
    (gs : List Group) (kind namespace : String) (k : DocumentKey) (ks : List DocumentKey)
    (rs : List ResourceDocument)
    → listed gs kind namespace (k ∷ ks) ≡ ok rs
    → (found : Option ResourceDocument) × (rest : List ResourceDocument) × (merged_document gs k
        ≡ ok found)
      × (listed gs kind namespace ks ≡ ok rest)
      × (kept kind namespace found ++ rest ≡ rs)
unfolding listed
listed_first gs kind namespace k ks rs h =
    let first =
      >>=-eq-ok (merged_document gs k)
        (λ found. do rest ← listed gs kind namespace ks; ok (kept kind namespace found ++ rest))
        h in
    let second =
      >>=-eq-ok (listed gs kind namespace ks) (λ rest. ok (kept kind namespace first.0 ++ rest))
        first.2 in
    (first.0, second.0, first.1, second.1, ok_injective second.2)

listed-IsListed :
    (ds : List ResourceDocument) (kind namespace : String) (ks : List DocumentKey)
    (rs : List ResourceDocument)
    → listed (add_documents [] ds) kind namespace ks ≡ ok rs
    → All (IsListed (add_documents [] ds) kind namespace) rs
unfolding listed
listed-IsListed ds kind namespace [] rs h =
    subst (All (IsListed (add_documents [] ds) kind namespace)) (ok_injective h) tt
listed-IsListed ds kind namespace (k ∷ ks) rs h =
    let r = listed_first (add_documents [] ds) kind namespace k ks rs h in
    subst (All (IsListed (add_documents [] ds) kind namespace)) r.4 (
      All-append (IsListed (add_documents [] ds) kind namespace) (kept kind namespace r.0) r.1
        (kept-IsListed ds kind namespace k r.0 r.2) (listed-IsListed ds kind namespace ks r.1 r.3))

list_resources_sound :
    (documents : List ResourceDocument) (kind namespace : String) (rs : List ResourceDocument)
    → list_resources (add_documents [] documents) kind namespace ≡ ok rs
    → All (IsListed (add_documents [] documents) kind namespace) rs × Ordered resource_lt rs
unfolding list_resources
list_resources_sound documents kind namespace rs h =
    let ks = sort document_key_lt (group_keys (add_documents [] documents)) in
    let got =
      >>=-eq-ok (listed (add_documents [] documents) kind namespace ks)
        (λ found. ok (sort resource_lt found)) h in
    subst
      (λ xs. All (IsListed (add_documents [] documents) kind namespace) xs × Ordered resource_lt xs)
      (ok_injective got.2)
      (
        All-sort resource_lt (IsListed (add_documents [] documents) kind namespace) got.0
            (listed-IsListed documents kind namespace ks got.0 got.1),
        sort-Ordered resource_lt resource_lt-IsWeakOrder got.0,
      )

kept_passes :
    (kind namespace : String) (r : ResourceDocument)
    → passes kind r.identifier.kind ≡ true
    → passes namespace r.identifier.namespace ≡ true
    → kept kind namespace (some r) ≡ r ∷ []
unfolding kept
kept_passes kind namespace r e f = rw (e, f) refl

-- A group of the dictionary stands under a key where there are documents under it.
variants-Has : (gs : List Group) (k : DocumentKey) → (variants gs k ≡ []) ⊎ Has k (group_keys gs)
unfolding variants group_keys
variants-Has [] k = inl refl
variants-Has (g ∷ gs) k = elim (Bool-cases (same_key g.key k)) [
  | inl e ↦ inr (inl (sym (same_key_sound g.key k e)))
  | inr e ↦ elim (variants-Has gs k) [ inl f ↦ inl (rw e f) | inr f ↦ inr (inr f) ]
]

found-Has :
    (gs : List Group) (k : DocumentKey) (r : ResourceDocument)
    → merged_document gs k ≡ ok (some r)
    → Has k (group_keys gs)
unfolding merged_document merge_ordered sort
found-Has gs k r h = elim (variants-Has gs k) [
  | inl e ↦ absurd (nothing-found (sym (ap (λ ds. merge_ordered (sort document_lt ds)) e) ∙ h))
  | inr e ↦ e
]
  where
    nothing-found : merge_ordered [] ≡ ok (some r) → ⊥
    nothing-found h = cc

listed-Has :
    (gs : List Group) (kind namespace : String) (ks : List DocumentKey) (k : DocumentKey)
    (r : ResourceDocument) (rs : List ResourceDocument)
    → Has k ks
    → merged_document gs k ≡ ok (some r)
    → passes kind r.identifier.kind ≡ true
    → passes namespace r.identifier.namespace ≡ true
    → listed gs kind namespace ks ≡ ok rs
    → Has r rs
unfolding listed
listed-Has gs kind namespace [] k r rs m found e f h = absurd m
listed-Has gs kind namespace (j ∷ ks) k r rs m found e f h =
    let got = listed_first gs kind namespace j ks rs h in
    let own : j ≡ k → Has r (kept kind namespace got.0) = λ same.
      subst (λ o. Has r (kept kind namespace o))
        (ok_injective (sym found ∙ ap (merged_document gs) (sym same) ∙ got.2))
        (rw (kept_passes kind namespace r e f) (inl refl)) in
    subst (Has r) got.4 (elim m [
      | inl same ↦ Has-left r (kept kind namespace got.0) got.1 (own (sym same))
      | inr later ↦
          Has-right r (kept kind namespace got.0) got.1
            (listed-Has gs kind namespace ks k r got.1 later found e f got.3)
    ])

list_resources_complete :
    (documents : List ResourceDocument) (kind namespace : String) (r : ResourceDocument)
    (rs : List ResourceDocument)
    → IsListed (add_documents [] documents) kind namespace r
    → list_resources (add_documents [] documents) kind namespace ≡ ok rs
    → Has r rs
unfolding list_resources get_resource
list_resources_complete documents kind namespace r rs l h =
    let gs = add_documents [] documents in
    let ks = sort document_key_lt (group_keys gs) in
    let got = >>=-eq-ok (listed gs kind namespace ks) (λ found. ok (sort resource_lt found)) h in
    let k : DocumentKey = record {
      kind = r.identifier.kind;
      namespace = r.identifier.namespace;
      name = r.identifier.name;
    } in
    subst (Has r) (ok_injective got.2) (
      Has-sort resource_lt r got.0 (
        listed-Has gs kind namespace ks k r got.0
          (Has-sort document_key_lt k (group_keys gs) (found-Has gs k r l.found)) l.found
          l.kind_passes l.namespace_passes got.1))

-- Where every document is one that the constructor accepts, the list of the resources of a kind and a
-- namespace is returned, in the order of kind, namespace and name. A resource stands in it exactly
-- where it passes both filters and the lookup of its own name gives it.
pub list_resources_iff :
    (documents : List ResourceDocument) (kind namespace : String)
    → All IsConstructed documents
    → (rs : List ResourceDocument) × (list_resources (add_documents [] documents) kind namespace
        ≡ ok rs)
      × Ordered resource_lt rs
      × All (IsListed (add_documents [] documents) kind namespace) rs
      × ((r : ResourceDocument) → IsListed (add_documents [] documents) kind namespace r → Has r rs)
list_resources_iff documents kind namespace h =
    let got = (registry-returns kind "" namespace documents h).1 in
    let sound = list_resources_sound documents kind namespace got.0 got.1 in
    (
      got.0,
      got.1,
      sound.1,
      sound.0,
      λ r l. list_resources_complete documents kind namespace r got.0 l got.1,
    )
