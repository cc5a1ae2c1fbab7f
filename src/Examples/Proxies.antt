-- ===== src/Examples/Proxies.antt =====
-- A proxy with one destination on its allowlist, asked for that one and for another.
use context_control_plane.Python.Value.{int}
use context_control_plane.Mcp.Proxy.Authority.{
  all_digits, any_matches, candidate_matches, digits_value, ends_with, is_digit, matches_allowlist,
  normalize_destination, parse_authority, partition, rsplit,
}
use context_control_plane.Upgrade.Versions.{non_empty, pieces, split}
use context_control_plane.Python.Text.{
  decimal, digit_text, has_part, is_empty, is_space, is_space_code, join, lower, lower_char, lstrip,
  map_char, or_else, repr, rstrip, starts_with, strip, translate,
}
use context_control_plane.Base.{contains, ◌≡◌, refl, String, true, none, some, List, [], ◌∷◌}
use context_control_plane.Python.Error.{ok}
use context_control_plane.Sorting.{All}
use context_control_plane.Mcp.Proxy.Server.{record_destination, no_destinations}
use context_control_plane.Mcp.Proxy.Handler.{
  admit, connect, dispatch, forward, handle_connect, handle_http, handle_target, header_or,
  http_target, is_connect, kept_headers, put_header, read_headers, read_headers_loop, request_body,
  request_text, take_text, Network, Request, refused, connected, established, Outcome, handle,
}
use context_control_plane.Mcp.Proxy.Recorded.{IsRecorded, start, step, Reaches-IsRecorded}
use context_control_plane.Mcp.Proxy.Confined.{IsConfined, IsServed, handle-IsGuarded}

-- A network in which everyone answers.
abbrev network : Network
network = record {
  urlsplit = λ url. record {
    scheme = "http";
    hostname = some "example.com";
    port = ok none;
    path = "";
    query = "";
  };
  dial = λ host port. true;
}

abbrev allowlist : List String
allowlist = "Example.com:443" ∷ []

abbrev tunnel : Request
tunnel = record { line = "CONNECT api.example.com:443 HTTP/1.1"; header_lines = []; body = "" }

abbrev elsewhere : Request
elsewhere = record { line = "CONNECT example.org:443 HTTP/1.1"; header_lines = []; body = "" }

tunnelled : handle network allowlist no_destinations tunnel ≡ record {
  destinations = record { requested = "api.example.com:443" ∷ []; blocked = [] };
  effects = connected "api.example.com" 443 ∷ established "HTTP/1.1" ∷ [];
}
unfolding handle is_empty strip dispatch split non_empty pieces is_connect lower lower_char
    handle_connect admit connect record_destination matches_allowlist contains any_matches
    normalize_destination candidate_matches parse_authority partition has_part is_digit all_digits
    digits_value ends_with rsplit forward handle_http handle_target header_or http_target
    kept_headers put_header read_headers read_headers_loop request_body request_text take_text
    decimal digit_text is_space is_space_code join lstrip map_char or_else repr rstrip starts_with
    translate int
tunnelled = refl

turned_away : handle network allowlist no_destinations elsewhere ≡ record {
  destinations = record { requested = "example.org:443" ∷ []; blocked = "example.org:443" ∷ [] };
  effects = refused 403 "Forbidden" ∷ [];
}
unfolding handle is_empty strip dispatch split non_empty pieces is_connect lower lower_char
    handle_connect admit connect record_destination matches_allowlist contains any_matches
    normalize_destination candidate_matches parse_authority partition has_part is_digit all_digits
    digits_value ends_with rsplit forward handle_http handle_target header_or http_target
    kept_headers put_header read_headers read_headers_loop request_body request_text take_text
    decimal digit_text is_space is_space_code join lstrip map_char or_else repr rstrip starts_with
    translate int
turned_away = refl

abbrev later : Outcome
later =
    handle network allowlist (handle network allowlist no_destinations tunnel).destinations
      elsewhere

Reaches-IsRecorded_example : IsRecorded allowlist later.destinations
Reaches-IsRecorded_example =
    Reaches-IsRecorded network allowlist later.destinations (step elsewhere (step tunnel start))

handle-IsGuarded_example :
    All (IsConfined network allowlist later.destinations) later.effects × IsServed later.effects
handle-IsGuarded_example =
    handle-IsGuarded network allowlist
      (handle network allowlist no_destinations tunnel).destinations elsewhere
