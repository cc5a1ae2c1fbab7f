-- ===== src/Mcp/Proxy/Server.antt =====
-- kernel/mcp_proxy.py: what the proxy records of the destinations that are asked for.
use context_control_plane.Base.{
  String, Bool, not, ◌&&◌, Option, none, some, List, [], ◌∷◌, ◌++◌, contains, if◌then◌else◌,
}
use context_control_plane.Python.Value.{arr, nil, Fields, dict, texts}

-- The fields of `_ProxyServer` that change.
pub record Destinations : Type 0 where
  pub requested : List String
  pub blocked : List String

abbrev pub no_destinations : Destinations
no_destinations = record { requested = []; blocked = [] }

-- `_ProxyServer.record_destination`, under its lock.
unfoldable pub record_destination : Destinations → String → Bool → Destinations
record_destination d destination allowed = record {
  requested =
      if not (contains d.requested destination)
      then d.requested ++ (destination ∷ [])
      else d.requested;
  blocked =
      if not allowed && not (contains d.blocked destination)
      then d.blocked ++ (destination ∷ [])
      else d.blocked;
}

-- `McpAllowlistProxy.snapshot`: no server is `none`.
unfoldable pub snapshot : Option Destinations → Fields
snapshot none = dict (("requestedDestinations", arr nil) ∷ ("blockedDestinations", arr nil) ∷ [])
snapshot (some d) = dict (
    ("requestedDestinations", arr (texts d.requested))
    ∷ ("blockedDestinations", arr (texts d.blocked))
    ∷ [])
