-- ===== src/Registry/Loaders/Written.antt =====
-- kernel/loaders.py and `ResourceDocument.to_dict`: a document that is written, and read again.
use context_control_plane.Base.{
  String, ◌≡◌, refl, ap, sym, ◌∙◌, Bool, false, none, [], ◌∷◌, arith, eq_iff, if_false, ◌==◌,
}
use context_control_plane.Python.Error.{ok}
use context_control_plane.Python.Text.{strip, lower, lower_char, is_empty}
use context_control_plane.Python.Value.{
  Value, str, obj, Fields, end, field, dict, text_or, get_or, find, put, pop,
}
use context_control_plane.Resource.{
  CompatibilityLevel, experimental, beta, stable, stability_text, ResourceCompatibility,
  ResourceDocument, update, document_to_dict,
}
use context_control_plane.Tracing.{field_text, object_or_raise}
use context_control_plane.Tracing.Written.{field_text-found, namespace-read}
use context_control_plane.Registry.Merge.Laws.{IsDict}
use context_control_plane.Registry.Documents.Returns.{IsUnreserved, checked_iff}
use context_control_plane.Registry.Loaders.{
  coerce_stability, required, compatibility_fields, read_compatibility, namespace_text,
  build_resource_document,
}

-- One object after the other.
abbrev followed : Fields → Fields → Fields
followed end m = m
followed (field k v fs) m = field k v (followed fs m)

-- No key of the second stands in the first.
abbrev IsApart : Fields → Fields → Type 0
IsApart base end = Unit
IsApart base (field k v fs) = (find base k ≡ none) × IsApart base fs

put_new :
    (fs : Fields) (k : String) (v : Value)
    → find fs k ≡ none
    → put fs k v ≡ followed fs (field k v end)
unfolding find put
put_new end k v h = refl
put_new (field j w fs) k v h = ground (arith, put_new fs k v)

followed_assoc : (a b c : Fields) → followed (followed a b) c ≡ followed a (followed b c)
followed_assoc end b c = refl
followed_assoc (field k v a) b c = ap (field k v) (followed_assoc a b c)

find-followed :
    (a : Fields) (j k : String) (v : Value)
    → find a k ≡ none
    → (j == k) ≡ false
    → find (followed a (field j v end)) k ≡ none
unfolding find
find-followed end j k v h e = rw e refl
find-followed (field i w a) j k v h e = ground (arith, find-followed a j k v)

other_key :
    (k j : String) (w : Value) (m : Fields)
    → find (field k w m) j ≡ none
    → ((j == k) ≡ false) × (find m j ≡ none)
unfolding find
other_key k j w m h = ground (arith, eq_iff j k, eq_iff k j)

IsApart-followed :
    (base m : Fields) (j : String) (v : Value)
    → IsApart base m
    → find m j ≡ none
    → IsApart (followed base (field j v end)) m
unfolding find
IsApart-followed base end j v a h = tt
IsApart-followed base (field k w m) j v a h =
    let other = other_key k j w m h in
    (find-followed base j k v a.0 other.0, IsApart-followed base m j v a.1 other.1)

followed_end : (a : Fields) → followed a end ≡ a
followed_end end = refl
followed_end (field k v a) = ap (field k v) (followed_end a)

update_new : (base m : Fields) → IsApart base m → IsDict m → update base m ≡ followed base m
unfolding update
update_new base end a d = sym (followed_end base)
update_new base (field k v m) a d = rw (put_new base k v a.0) (
    update_new (followed base (field k v end)) m (IsApart-followed base m k v a.1 d.0) d.1
    ∙ followed_assoc base (field k v end) m)

unreserved-IsApart :
    (m : Fields) (v w : Value)
    → IsUnreserved m
    → IsApart (field "name" v (field "namespace" w end)) m
unfolding find
unreserved-IsApart end v w u = tt
unreserved-IsApart (field k x m) v w u =
    let name = other_key k "name" x m u.0 in
    let namespace = other_key k "namespace" x m u.1 in
    (rw (name.0, namespace.0) refl, unreserved-IsApart m v w (name.1, namespace.1))

-- The texts of the document have no space around them, the required ones are not empty, and the
-- metadata could be given to the constructor.
pub record IsTidyDocument (d : ResourceDocument) : Type 0 where
  pub api_version : strip d.identifier.api_version ≡ d.identifier.api_version
  pub has_api_version : is_empty d.identifier.api_version ≡ false
  pub kind : strip d.identifier.kind ≡ d.identifier.kind
  pub has_kind : is_empty d.identifier.kind ≡ false
  pub name : strip d.identifier.name ≡ d.identifier.name
  pub has_name : is_empty d.identifier.name ≡ false
  pub namespace : strip d.identifier.namespace ≡ d.identifier.namespace
  pub has_namespace : is_empty d.identifier.namespace ≡ false
  pub introduced_in : strip d.compatibility.introduced_in ≡ d.compatibility.introduced_in
  pub deprecated_in : strip d.compatibility.deprecated_in ≡ d.compatibility.deprecated_in
  pub replaced_by : strip d.compatibility.replaced_by ≡ d.compatibility.replaced_by
  pub metadata : IsDict d.metadata
  pub unreserved : IsUnreserved d.metadata

abbrev written_metadata : ResourceDocument → Fields
written_metadata d =
    field "name" (str d.identifier.name) (field "namespace" (str d.identifier.namespace) d.metadata)

metadata_update :
    (d : ResourceDocument)
    → IsTidyDocument d
    → update
        (field "name" (str d.identifier.name) (field "namespace" (str d.identifier.namespace) end))
        d.metadata
      ≡ written_metadata d
metadata_update d x =
    update_new
      (field "name" (str d.identifier.name) (field "namespace" (str d.identifier.namespace) end))
      d.metadata
      (unreserved-IsApart d.metadata (str d.identifier.name) (str d.identifier.namespace)
        x.unreserved)
      x.metadata

abbrev written_compatibility : ResourceCompatibility → Fields
written_compatibility c = dict (
    ("introducedIn", str c.introduced_in)
    ∷ ("deprecatedIn", str c.deprecated_in)
    ∷ ("replacedBy", str c.replaced_by)
    ∷ ("stability", str (stability_text c.stability))
    ∷ [])

coerce_stability-stability_text :
    (l : CompatibilityLevel) → coerce_stability (str (stability_text l)) ≡ ok l
unfolding coerce_stability stability_text text_or lower lower_char strip is_empty
coerce_stability-stability_text experimental = refl
coerce_stability-stability_text beta = refl
coerce_stability-stability_text stable = refl

read_compatibility-written :
    (d : ResourceDocument)
    → IsTidyDocument d
    → read_compatibility (written_compatibility d.compatibility) ≡ ok d.compatibility
unfolding read_compatibility get_or find
read_compatibility-written d x =
    let found = field_text-found (written_compatibility d.compatibility) in
    rw (coerce_stability-stability_text d.compatibility.stability) (
      ap ok (
        cc (
          found "introducedIn" d.compatibility.introduced_in refl x.introduced_in,
          found "deprecatedIn" d.compatibility.deprecated_in refl x.deprecated_in,
          found "replacedBy" d.compatibility.replaced_by refl x.replaced_by,
        )))

pub required-given : (s problem : String) → is_empty s ≡ false → required s problem ≡ ok s
unfolding required
required-given s problem h = if_false _ h

-- A document that is written as a JSON object and built from it again is the same document, with the
-- source of the second reading as its provenance, where no text of it has space around it, the
-- required texts are not empty and the metadata has each key once and no reserved key.
pub build_resource_document-document_to_dict :
    (d : ResourceDocument) (source layer : String) (native : Bool)
    → IsTidyDocument d
    → build_resource_document (obj (document_to_dict d)) source layer native
      ≡ ok (record d {
        provenance = record { source = source; layer = layer; native = native } ∷ [];
      })
unfolding build_resource_document document_to_dict object_or_raise get_or find compatibility_fields
    pop namespace_text required field_text
build_resource_document-document_to_dict d source layer native x =
    let top = field_text-found (document_to_dict d) in
    let inner = field_text-found (written_metadata d) in
    rw
      (
        metadata_update d x,
        top "apiVersion" d.identifier.api_version refl x.api_version,
        required-given d.identifier.api_version "resource document is missing apiVersion"
            x.has_api_version,
        top "kind" d.identifier.kind refl x.kind,
        required-given d.identifier.kind "resource document is missing kind" x.has_kind,
        inner "name" d.identifier.name refl x.name,
        required-given d.identifier.name "resource document metadata.name is required" x.has_name,
        read_compatibility-written d x,
        namespace-read d.identifier.namespace x.namespace x.has_namespace,
      )
      ((checked_iff (record d {
        provenance = record { source = source; layer = layer; native = native } ∷ [];
      })).1
        x.unreserved)
