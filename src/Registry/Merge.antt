-- ===== src/Registry/Merge.antt =====
-- kernel/registry.py: how documents are merged.
pub mod Laws
pub mod Paths
use context_control_plane.Base.{
  String, ◌≡◌, refl, Bool, true, false, not, ◌&&◌, ◌||◌, Option, none, some, List, [], ◌∷◌, ◌++◌,
  if◌then◌else◌,
}
use context_control_plane.Python.Text.{is_empty, or_else}
use context_control_plane.Python.Value.{
  Value, null, bool, num, str, arr, obj, Fields, end, field, find, put,
}
use context_control_plane.Resource.{
  CompatibilityLevel, experimental, beta, stable, ResourceProvenance, ResourceCompatibility,
  ResourceDocument,
}
use context_control_plane.Sorting.{sort}
use context_control_plane.Registry.Layers.{primary_provenance, provenance_lt, same_provenance}

-- The round of `_deep_merge_mapping` for one key: the value that is stored, by what is there.
unfoldable mutual
  pub merge_value : Option Value → Value → Value
  merge_value (some (obj base)) (obj overlay) = obj (deep_merge base overlay)
  merge_value existing value = value

  -- `_deep_merge_mapping`
  pub deep_merge : Fields → Fields → Fields
  deep_merge merged end = merged
  deep_merge merged (field k v rest) =
      deep_merge (put merged k (merge_value (find merged k) v)) rest

is_experimental : CompatibilityLevel → Bool
is_experimental experimental = true
is_experimental _ = false

-- The body of the loop of `_merge_compatibility`.
unfoldable pub overlay_compatibility :
    ResourceCompatibility → ResourceCompatibility → ResourceCompatibility
unfolding is_experimental
overlay_compatibility c candidate = record {
  introduced_in = or_else candidate.introduced_in c.introduced_in;
  deprecated_in = or_else candidate.deprecated_in c.deprecated_in;
  replaced_by = or_else candidate.replaced_by c.replaced_by;
  stability =
      if not (is_empty candidate.introduced_in)
        || not (is_empty candidate.deprecated_in)
        || not (is_empty candidate.replaced_by)
        || not (is_experimental candidate.stability)
      then candidate.stability
      else c.stability;
}

unfoldable pub merge_compatibility :
    ResourceCompatibility → List ResourceDocument → ResourceCompatibility
merge_compatibility c [] = c
merge_compatibility c (d ∷ ds) = merge_compatibility (overlay_compatibility c d.compatibility) ds

flattened : List ResourceDocument → List ResourceProvenance
flattened [] = []
flattened (d ∷ ds) = d.provenance ++ flattened ds

others : ResourceProvenance → List ResourceProvenance → List ResourceProvenance
others p [] = []
others p (q ∷ qs) = let rest = others p qs in if not (same_provenance q p) then q ∷ rest else rest

-- The two returns of `_ordered_provenance` that are not empty.
winner_first : Option ResourceProvenance → List ResourceProvenance → List ResourceProvenance
unfolding others
winner_first none entries = entries
winner_first (some p) entries = p ∷ others p entries

-- `_ordered_provenance`
unfoldable pub ordered_provenance :
    List ResourceDocument → ResourceDocument → List ResourceProvenance
unfolding flattened winner_first
ordered_provenance documents winner = elim (flattened documents) [
  | [] ↦ []
  | p ∷ ps ↦ winner_first (primary_provenance winner) (sort provenance_lt (p ∷ ps))
]
