-- ===== src/Mcp/Proxy/Authority.antt =====
-- kernel/mcp_proxy.py: destinations, and the allowlist.

use context_control_plane.Base.{
  ℕ, ◌+◌, ◌-◌, ◌*◌, code, String, ◌<>◌, Bool, true, false, not, ◌&&◌, ◌||◌, List, [], ◌∷◌, ◌==◌,
  leb, eqb, if◌then◌else◌,
}
use context_control_plane.Python.Text.{strip, lower, is_empty, decimal, has_part}

-- `_normalize_destination`
unfoldable pub normalize_destination : String → ℕ → String
normalize_destination host port = lower (strip host) <> ":" <> decimal port

pub record Parted : Type 0 where
  pub before : String
  pub after : String

-- The parts of `s.partition(":")` beside the separator.
unfoldable pub partition : String → Parted
partition String.[] = record { before = ""; after = "" }
partition (String.◌∷◌ c s) =
    let rest = partition s in
    if eqb (code c) 58
    then record { before = ""; after = s }
    else record { before = String.◌∷◌ c rest.before; after = rest.after }

-- `s.endswith(end)`
unfoldable pub ends_with : String → String → Bool
ends_with String.[] end = is_empty end
ends_with (String.◌∷◌ c s) end =
    let rest = ends_with s end in if String.◌∷◌ c s == end then true else rest

-- One round of the loop of `_matches_allowlist`: whether it returns.
unfoldable pub candidate_matches : Parted → Parted → Bool
candidate_matches destination allowed =
    if is_empty allowed.before
    then false
    else if not (is_empty allowed.after)
        && not (allowed.after == "*")
        && not (is_empty destination.after)
        && not (allowed.after == destination.after)
    then false
    else destination.before == allowed.before
      || ends_with destination.before ("." <> allowed.before)

unfoldable pub any_matches : Parted → List String → Bool
any_matches destination [] = false
any_matches destination (c ∷ cs) =
    let rest = any_matches destination cs in
    if candidate_matches destination (partition (lower (strip c))) then true else rest

-- `_matches_allowlist`
unfoldable pub matches_allowlist : String → List String → Bool
matches_allowlist destination allowlist = any_matches (partition destination) allowlist

unfoldable pub all_digits : String → Bool
all_digits String.[] = true
all_digits (String.◌∷◌ c s) =
    let rest = all_digits s in if leb 48 (code c) && leb (code c) 57 then rest else false

-- `s.isdigit()`, for the ASCII digits.
unfoldable pub is_digit : String → Bool
is_digit s = if is_empty s then false else all_digits s

unfoldable pub digits_value : ℕ → String → ℕ
digits_value n String.[] = n
digits_value n (String.◌∷◌ c s) = digits_value (n * 10 + (code c - 48)) s

-- `s.rsplit(":", 1)`, for an `s` with a colon: the text after the last one, and that before it.
unfoldable pub rsplit : String → Parted
rsplit String.[] = record { before = ""; after = "" }
rsplit (String.◌∷◌ c s) =
    let rest = rsplit s in
    if has_part ":" s
    then record { before = String.◌∷◌ c rest.before; after = rest.after }
    else if eqb (code c) 58
    then record { before = ""; after = s }
    else record { before = String.◌∷◌ c s; after = "" }

pub record HostPort : Type 0 where
  pub host : String
  pub port : ℕ

-- `_parse_authority`
unfoldable pub parse_authority : String → ℕ → HostPort
parse_authority value default_port =
    let text = strip value in
    let parts = rsplit text in
    if not (has_part ":" text)
    then record { host = text; port = default_port }
    else if is_digit parts.after
    then record { host = parts.before; port = digits_value 0 parts.after }
    else record { host = text; port = default_port }
