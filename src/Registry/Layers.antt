-- ===== src/Registry/Layers.antt =====
-- kernel/registry.py: the precedence of a document among those of the same name.
use context_control_plane.Base.{
  ℕ, String, ◌≡◌, Bool, true, false, ◌&&◌, Option, none, some, [], ◌∷◌, ◌==◌, arith, ltb, eqb,
  if◌then◌else◌,
}
use context_control_plane.Python.Text.{strip, lower}
use context_control_plane.Python.Text.Order.{text_lt, text_lt_asymm, text_lt_weak}
use context_control_plane.Resource.{ResourceProvenance, ResourceDocument}
use context_control_plane.Sorting.{IsWeakOrder}

-- `_layer_priority`
unfoldable pub layer_priority : String → ℕ
layer_priority layer =
    let name = lower (strip layer) in
    if name == "builtin"
    then 10
    else if name == "common"
    then 20
    else if name == "pack"
    then 30
    else if name == "workspace"
    then 40
    else if name == "user"
    then 50
    else if name == "local"
    then 60
    else 0

-- `_primary_provenance`
unfoldable pub primary_provenance : ResourceDocument → Option ResourceProvenance
primary_provenance d = elim d.provenance [ [] ↦ none | p ∷ ps ↦ some p ]

-- `_native_score`
unfoldable pub native_score : Option ResourceProvenance → ℕ
native_score none = 1
native_score (some p) = if p.native then 1 else 0

-- A key of two numbers and a text.
pub record SortKey : Type 0 where
  pub priority : ℕ
  pub score : ℕ
  pub source : String

unfoldable pub winner_key : Option ResourceProvenance → SortKey
winner_key none = record { priority = layer_priority ""; score = native_score none; source = "" }
winner_key (some p) = record {
  priority = layer_priority p.layer;
  score = native_score (some p);
  source = p.source;
}

-- `_winner_sort_key`
unfoldable pub winner_sort_key : ResourceDocument → SortKey
unfolding winner_key
winner_sort_key d = winner_key (primary_provenance d)

-- `a < b` on such keys.
unfoldable pub key_lt : SortKey → SortKey → Bool
key_lt a b =
    if ltb a.priority b.priority
    then true
    else if eqb a.priority b.priority
    then (if ltb a.score b.score
        then true
        else if eqb a.score b.score
        then text_lt a.source b.source
        else false)
    else false

-- The second document takes precedence.
unfoldable pub document_lt : ResourceDocument → ResourceDocument → Bool
document_lt d e = key_lt (winner_sort_key d) (winner_sort_key e)

key_lt_asymm : (a b : SortKey) → key_lt a b ≡ true → key_lt b a ≡ false
unfolding key_lt
key_lt_asymm a b h = ground (arith, text_lt_asymm a.source b.source)

key_lt_weak : (y a b : SortKey) → key_lt y a ≡ true → key_lt y b ≡ false → key_lt b a ≡ true
unfolding key_lt
key_lt_weak y a b h k = ground (arith, text_lt_weak y.source a.source b.source)

pub document_lt-IsWeakOrder : IsWeakOrder document_lt
unfolding document_lt
document_lt-IsWeakOrder = record {
  asymm = λ d e. key_lt_asymm (winner_sort_key d) (winner_sort_key e);
  weak = λ c d e. key_lt_weak (winner_sort_key c) (winner_sort_key d) (winner_sort_key e);
}

-- `_provenance_sort_key`: by falling priority, then falling score, then rising source.
unfoldable pub provenance_lt : ResourceProvenance → ResourceProvenance → Bool
provenance_lt p q =
    if ltb (layer_priority q.layer) (layer_priority p.layer)
    then true
    else if eqb (layer_priority q.layer) (layer_priority p.layer)
    then (if ltb (native_score (some q)) (native_score (some p))
        then true
        else if eqb (native_score (some q)) (native_score (some p))
        then text_lt p.source q.source
        else false)
    else false

bool_eq : Bool → Bool → Bool
bool_eq true b = b
bool_eq false true = false
bool_eq false false = true

-- `p == q`
unfoldable pub same_provenance : ResourceProvenance → ResourceProvenance → Bool
unfolding bool_eq
same_provenance p q = p.source == q.source && p.layer == q.layer && bool_eq p.native q.native
