-- ===== src/Discovery/Catalog.antt =====
-- kernel/discovery.py: the schema of a kind, against the list of all schemas.
use mathlib.Core.Path.{subst}
use context_control_plane.Base.{
  String, ◌≡◌, refl, ◌∙◌, inl, inr, ◌⊎◌, Option, none, some, List, [], ◌∷◌, ◌++◌, ◌==◌, eq_iff, ap,
  sym, some_injective, if_true, if_false, Bool-cases, ◌↔◌,
}
use context_control_plane.Python.Text.{strip}
use context_control_plane.Sorting.{All, All-sort, sort}
use context_control_plane.Sorting.Members.{Has, Has-sort, Has-left, Has-right}
use context_control_plane.Discovery.Schemas.{
  ResourceKindSchema, resource_kind_schemas, manifest_schemas, schema_of, entry_lt, schemas_in,
  update_catalog, put_schema, list_schema_definitions, get_schema_definition, first_schema,
}

abbrev Entry : Type 0
Entry = String × ResourceKindSchema

-- Every schema of a table stands under its own kind.
abbrev IsKeyed : Entry → Type 0
IsKeyed e = e.1.kind ≡ e.0

resource_kind_schemas-IsKeyed : All IsKeyed resource_kind_schemas
resource_kind_schemas-IsKeyed = (refl, (refl, (refl, (refl, (refl, (refl, (refl, (refl, tt))))))))

manifest_schemas-IsKeyed : All IsKeyed manifest_schemas
manifest_schemas-IsKeyed = (refl, (refl, (refl, tt)))

schema_of-Has :
    (entries : List Entry) (name : String) (s : ResourceKindSchema)
    → schema_of entries name ≡ some s
    → Has (name, s) entries
unfolding schema_of
schema_of-Has [] name s h = cc
schema_of-Has (e ∷ es) name s h = elim (Bool-cases (e.0 == name)) [
  | inl same ↦
      let t : e.1 ≡ s = some_injective (sym (if_true (schema_of es name) same) ∙ h) in
      inl (sym (cc (t, (eq_iff e.0 name).0 same)))
  | inr other ↦ inr (schema_of-Has es name s (sym (if_false (some e.1) other) ∙ h))
]

All-Has :
    (P : Entry → Type 0) (entries : List Entry) (e : Entry) → All P entries → Has e entries → P e
All-Has P [] e h m = absurd m
All-Has P (f ∷ fs) e h (inl same) = subst P (sym same) h.0
All-Has P (f ∷ fs) e h (inr m) = All-Has P fs e h.1 m

Has-schemas_in : (entries : List Entry) (e : Entry) → Has e entries → Has e.1 (schemas_in entries)
unfolding schemas_in
Has-schemas_in [] e m = absurd m
Has-schemas_in (f ∷ fs) e (inl same) = inl (ap (λ x. x.1) same)
Has-schemas_in (f ∷ fs) e (inr m) = inr (Has-schemas_in fs e m)

catalog :
    update_catalog resource_kind_schemas manifest_schemas
    ≡ resource_kind_schemas ++ manifest_schemas
unfolding update_catalog put_schema
catalog = refl

first_schema-some :
    (a b : Option ResourceKindSchema) (s : ResourceKindSchema)
    → first_schema a b ≡ some s
    → (a ≡ some s) ⊎ (b ≡ some s)
unfolding first_schema
first_schema-some (some t) b s h = inl h
first_schema-some none b s h = inr h

either-Has :
    (name : String) (s : ResourceKindSchema)
    → (schema_of resource_kind_schemas name ≡ some s) ⊎ (schema_of manifest_schemas name ≡ some s)
    → Has (name, s) (update_catalog resource_kind_schemas manifest_schemas) × (s.kind ≡ name)
either-Has name s h =
    subst (λ all. Has (name, s) all × (s.kind ≡ name)) (sym catalog)
      (elim h [
        | inl e ↦
            let found = schema_of-Has resource_kind_schemas name s e in
            (
              Has-left (name, s) resource_kind_schemas manifest_schemas found,
              All-Has IsKeyed resource_kind_schemas (name, s) resource_kind_schemas-IsKeyed found,
            )
        | inr e ↦
            let found = schema_of-Has manifest_schemas name s e in
            (
              Has-right (name, s) resource_kind_schemas manifest_schemas found,
              All-Has IsKeyed manifest_schemas (name, s) manifest_schemas-IsKeyed found,
            )
      ])

schemas_in-Has :
    (entries : List Entry) (s : ResourceKindSchema)
    → Has s (schemas_in entries)
    → (e : Entry) × Has e entries × (e.1 ≡ s)
unfolding schemas_in
schemas_in-Has [] s m = absurd m
schemas_in-Has (f ∷ fs) s (inl same) = (f, inl refl, sym same)
schemas_in-Has (f ∷ fs) s (inr m) = let r = schemas_in-Has fs s m in (r.0, inr r.1, r.2)

-- The two lookups find the schema of the entry, under the kind of the schema.
abbrev IsFound : Entry → Type 0
IsFound e =
    first_schema (schema_of resource_kind_schemas e.1.kind) (schema_of manifest_schemas e.1.kind)
    ≡ some e.1

All-IsFound : All IsFound (update_catalog resource_kind_schemas manifest_schemas)
unfolding update_catalog put_schema first_schema schema_of
All-IsFound =
    (refl, (refl, (refl, (refl, (refl, (refl, (refl, (refl, (refl, (refl, (refl, tt)))))))))))

-- The schema that is found for a kind, stripped of space, is the one of that kind in the list of all
-- schemas, and each schema of the list is found for its kind.
pub get_schema_definition_iff :
    (kind : String) (s : ResourceKindSchema)
    → (get_schema_definition kind ≡ some s)
      ↔ (Has s list_schema_definitions × (s.kind ≡ strip kind))
unfolding get_schema_definition list_schema_definitions
get_schema_definition_iff kind s =
    let all = update_catalog resource_kind_schemas manifest_schemas in
    let table = resource_kind_schemas in
    (
      λ h.
          let found = either-Has (strip kind) s (
            first_schema-some (schema_of table (strip kind))
              (schema_of manifest_schemas (strip kind)) s h) in
          (
            Has-schemas_in (sort entry_lt all) (strip kind, s)
                (Has-sort entry_lt (strip kind, s) all found.0),
            found.1,
          ),
      λ h.
          let e = schemas_in-Has (sort entry_lt all) s h.0 in
          let found =
            All-Has IsFound (sort entry_lt all) e.0 (All-sort entry_lt IsFound all All-IsFound)
              e.1 in
          subst
            (λ name. first_schema (schema_of table name) (schema_of manifest_schemas name) ≡ some s)
            (ap (λ t. t.kind) e.2 ∙ h.1) (found ∙ ap some e.2),
    )
