-- ===== src/Mcp/Proxy/Handler.antt =====
-- kernel/mcp_proxy.py: how one request is handled.
use context_control_plane.Base.{
  ℕ, zero, suc, String, ◌<>◌, Bool, not, ◌||◌, Option, none, some, List, [], ◌∷◌, ◌++◌, ◌==◌,
  if◌then◌else◌,
}
use context_control_plane.Python.Error.{Error, Result, ok, err}
use context_control_plane.Python.Text.{strip, lower, is_empty, or_else, has_part, join}
use context_control_plane.Python.Value.{pos, negsuc, str, int}
use context_control_plane.Upgrade.Versions.{split}
use context_control_plane.Mcp.Proxy.Authority.{
  normalize_destination, partition, matches_allowlist, HostPort, parse_authority,
}
use context_control_plane.Mcp.Proxy.Server.{Destinations, record_destination}

-- What `urllib.parse.urlsplit` gives.
pub record SplitUrl : Type 0 where
  pub scheme : String
  pub hostname : Option String
  -- `parsed.port`, which raises for a port that is no number from 0 to 65535
  pub port : Result (Option ℕ)
  pub path : String
  pub query : String

-- What the proxy asks of the network and of `urllib`.
pub record Network : Type 0 where
  pub urlsplit : String → SplitUrl
  -- whether `socket.create_connection` succeeds
  pub dial : String → ℕ → Bool

-- A request, as it is read from the connection: its first line, the lines after that, and the rest.
pub record Request : Type 0 where
  pub line : String
  pub header_lines : List String
  pub body : String

-- What the handler does beside recording. A call of `create_connection` has given a socket, or raised
-- `OSError`: the effect is `connected` or `unreachable`. `raised` ends the handler: the server prints the exception
-- and goes on.
pub data Effect : Type 0 where
  refused : ℕ → String → Effect
  connected : String → ℕ → Effect
  unreachable : String → ℕ → Effect
  established : String → Effect
  forwarded : String → Effect
  raised : Error → Effect

-- The state after the handler, and what it has done.
pub record Outcome : Type 0 where
  pub destinations : Destinations
  pub effects : List Effect

pub record Header : Type 0 where
  pub key : String
  pub value : String

-- `headers[key] = value`
unfoldable pub put_header : List Header → Header → List Header
put_header [] h = h ∷ []
put_header (g ∷ gs) h = let rest = put_header gs h in if g.key == h.key then h ∷ gs else g ∷ rest

unfoldable pub read_headers_loop : List Header → List String → List Header
read_headers_loop headers [] = headers
read_headers_loop headers (line ∷ lines) =
    let parts = partition line in
    let rest =
      read_headers_loop
        (put_header headers (record { key = strip parts.before; value = strip parts.after }))
        lines in
    if line == "\r\n" || line == "\n" || is_empty line then headers else rest

-- `_read_headers`: the end of the stream is the end of the list.
unfoldable pub read_headers : List String → List Header
read_headers lines = read_headers_loop [] lines

-- `headers.get(key, default)`
unfoldable pub header_or : List Header → String → String → String
header_or [] key default = default
header_or (h ∷ hs) key default =
    let rest = header_or hs key default in if h.key == key then h.value else rest

-- The tests with which both handlers start: the destination is recorded, and refused or gone on with.
unfoldable pub admit : List String → Destinations → HostPort → List Effect → Outcome
admit allowlist d at next =
    let destination = normalize_destination at.host at.port in
    let allowed = matches_allowlist destination allowlist in
    let recorded = record_destination d destination allowed in
    record {
      destinations = recorded;
      effects = if not allowed then refused 403 "Forbidden" ∷ [] else next;
    }

-- The `try` around `create_connection`, and what follows where it gives a socket.
unfoldable pub connect : Network → HostPort → List Effect → List Effect
connect net at next =
    if net.dial at.host at.port
    then connected at.host at.port ∷ next
    else unreachable at.host at.port ∷ refused 502 "Bad Gateway" ∷ []

-- `_handle_connect`
unfoldable pub handle_connect : Network → List String → Destinations → String → String → Outcome
handle_connect net allowlist d target version =
    let at = parse_authority target 443 in
    admit allowlist d at (connect net at (established version ∷ []))

-- The destination and the path of a request that is not CONNECT.
pub record Target : Type 0 where
  pub at : HostPort
  pub path : String

default_port : String → ℕ
default_port scheme = if scheme == "https" then 443 else 80

-- `parsed.port or (443 if parsed.scheme == "https" else 80)`
port_or : Option ℕ → String → ℕ
unfolding default_port
port_or none scheme = default_port scheme
port_or (some zero) scheme = default_port scheme
port_or (some (suc n)) scheme = suc n

hostname_or : Option String → String
hostname_or none = ""
hostname_or (some h) = h

split_target : SplitUrl → Option ℕ → Target
unfolding port_or hostname_or
split_target u port =
    let path = or_else u.path "/" in
    record {
      at = record { host = hostname_or u.hostname; port = port_or port u.scheme };
      path = if not (is_empty u.query) then path <> "?" <> u.query else path;
    }

parsed_target : SplitUrl → Result (Option ℕ) → Result Target
unfolding split_target
parsed_target u (ok port) = ok (split_target u port)
parsed_target u (err e) = err e

-- The two branches of `_handle_http` that find the host.
unfoldable pub http_target : Network → String → List Header → Result Target
unfolding parsed_target
http_target net target headers =
    if has_part "://" target
    then parsed_target (net.urlsplit target) (net.urlsplit target).port
    else ok (record { at = parse_authority (header_or headers "host" "") 80; path = target })

unfoldable pub kept_headers : List Header → List String
kept_headers [] = []
kept_headers (h ∷ hs) =
    let rest = kept_headers hs in
    if lower h.key == "proxy-connection" || lower h.key == "connection"
    then rest
    else (h.key <> ": " <> h.value) ∷ rest

-- `self.rfile.read(n)`
unfoldable pub take_text : ℕ → String → String
take_text zero s = ""
take_text (suc n) String.[] = ""
take_text (suc n) (String.◌∷◌ c s) = String.◌∷◌ c (take_text n s)

-- `body` of `_handle_http`
unfoldable pub request_body : List Header → String → Result String
request_body headers rest =
    elim (int (str (or_else (header_or headers "content-length" "0") "0"))) [
      | ok (pos n) ↦ ok (take_text n rest)
      | ok (negsuc n) ↦ ok ""
      | err e ↦ err e
    ]

-- The bytes that are sent on.
unfoldable pub request_text : String → String → String → List Header → String → String
request_text method path version headers body =
    join "\r\n" (
      (method <> " " <> or_else path "/" <> " " <> version)
      ∷ (kept_headers headers ++ ("" ∷ "" ∷ [])))
    <> body

-- The part of `_handle_http` after the guard.
unfoldable pub forward :
    Network → String → String → List Header → Target → Result String → List Effect
forward net method version headers t (err e) = raised e ∷ []
forward net method version headers t (ok body) =
    connect net t.at (forwarded (request_text method t.path version headers body) ∷ [])

-- `_handle_http`, when the target has been found.
unfoldable pub handle_target :
    Network
    → List String
    → Destinations
    → String
    → String
    → List Header
    → String
    → Result Target
    → Outcome
handle_target net allowlist d method version headers body (err e) = record {
  destinations = d;
  effects = raised e ∷ [];
}
handle_target net allowlist d method version headers body (ok t) =
    admit allowlist d t.at (forward net method version headers t (request_body headers body))

-- `_handle_http`
unfoldable pub handle_http :
    Network → List String → Destinations → String → String → String → Request → Outcome
handle_http net allowlist d method target version r =
    let headers = read_headers r.header_lines in
    handle_target net allowlist d method version headers r.body (http_target net target headers)

-- `method.upper() == "CONNECT"`
unfoldable pub is_connect : String → Bool
is_connect method = lower method == "connect"

-- The parts of the first line.
unfoldable pub dispatch : Network → List String → Destinations → Request → List String → Outcome
dispatch net allowlist d r (method ∷ target ∷ version ∷ []) =
    if is_connect method
    then handle_connect net allowlist d target version
    else handle_http net allowlist d method target version r
dispatch net allowlist d r parts = record {
  destinations = d;
  effects = refused 400 "Bad Request" ∷ [];
}

-- `_ProxyHandler.handle`
unfoldable pub handle : Network → List String → Destinations → Request → Outcome
handle net allowlist d r =
    let line = strip r.line in
    if is_empty line
    then record { destinations = d; effects = [] }
    else dispatch net allowlist d r (split line)
