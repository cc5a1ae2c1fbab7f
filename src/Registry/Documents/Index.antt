-- ===== src/Registry/Documents/Index.antt =====
-- kernel/registry.py: what the dictionary of documents holds under a name.
use mathlib.Core.List.{append-nil, append_assoc}
use context_control_plane.Base.{
  ◌≡◌, refl, sym, ◌∙◌, inl, inr, true, List, [], ◌∷◌, ◌++◌, eq_iff, arith, Bool-cases,
  if◌then◌else◌, eq_refl,
}
use context_control_plane.Resource.{ResourceDocument}
use context_control_plane.Registry.Documents.{
  DocumentKey, document_key, same_key, Group, add_document, add_documents, variants,
}

DocumentKey-ext :
    (a b : DocumentKey) → a.kind ≡ b.kind → a.namespace ≡ b.namespace → a.name ≡ b.name → a ≡ b
DocumentKey-ext a b p q r = λ i. record { kind = p i; namespace = q i; name = r i }

same_parts :
    (a b : DocumentKey)
    → same_key a b ≡ true
    → (a.kind ≡ b.kind) × (a.namespace ≡ b.namespace) × (a.name ≡ b.name)
unfolding same_key
same_parts a b h =
    ground (arith, eq_iff a.kind b.kind, eq_iff a.namespace b.namespace, eq_iff a.name b.name)

pub same_key_sound : (a b : DocumentKey) → same_key a b ≡ true → a ≡ b
same_key_sound a b h = let same = same_parts a b h in DocumentKey-ext a b same.0 same.1 same.2

pub same_key_refl : (a : DocumentKey) → same_key a a ≡ true
unfolding same_key
same_key_refl a = ground (arith, eq_refl a.kind, eq_refl a.namespace, eq_refl a.name)

-- The documents with a name, in the order they were given.
abbrev pub matching : DocumentKey → List ResourceDocument → List ResourceDocument
matching k [] = []
matching k (d ∷ ds) =
    let rest = matching k ds in if same_key (document_key d) k then d ∷ rest else rest

variants-add_document :
    (d : ResourceDocument) (k : DocumentKey) (gs : List Group)
    → variants (add_document d gs) k
      ≡ (if same_key (document_key d) k then variants gs k ++ (d ∷ []) else variants gs k)
unfolding variants add_document
variants-add_document d k [] = refl
variants-add_document d k (g ∷ gs) = elim (Bool-cases (same_key g.key (document_key d))) [
  | inl e ↦ rw e (ground (arith, same_key_sound g.key (document_key d) e))
  | inr e ↦ rw e (
      ground (
        arith,
        variants-add_document d k gs,
        same_key_sound g.key k,
        same_key_sound (document_key d) k,
        same_key_refl k,
      ))
]

variants-add_documents :
    (ds : List ResourceDocument) (k : DocumentKey) (gs : List Group)
    → variants (add_documents gs ds) k ≡ variants gs k ++ matching k ds
unfolding add_documents
variants-add_documents [] k gs = sym (append-nil (variants gs k))
variants-add_documents (d ∷ ds) k gs =
    variants-add_documents ds k (add_document d gs)
    ∙ rw (variants-add_document d k gs) (elim (Bool-cases (same_key (document_key d) k)) [
      | inl e ↦ rw e (append_assoc (variants gs k) (d ∷ []) (matching k ds))
      | inr e ↦ rw e refl
    ])

-- The dictionary that the documents fill, one `setdefault(…).append` at a time, holds under each name
-- the documents of that name, in the order they were given, and nothing under any other.
pub variants-index :
    (ds : List ResourceDocument) (k : DocumentKey)
    → variants (add_documents [] ds) k ≡ matching k ds
unfolding variants
variants-index ds k = variants-add_documents ds k []
