-- ===== src/Mcp/Proxy/Confined.antt =====
-- kernel/mcp_proxy.py: what the proxy connects to.
use context_control_plane.Base.{
  ℕ, false, String, ◌≡◌, refl, inl, inr, Bool, true, ◌++◌, List, [], ◌∷◌, contains, Bool-cases,
  arith, eq_refl,
}
use context_control_plane.Python.Error.{Result, ok, err}
use context_control_plane.Python.Text.{strip, is_empty}
use context_control_plane.Sorting.{All}
use context_control_plane.Upgrade.Versions.{split}
use context_control_plane.Mcp.Proxy.Authority.{
  parse_authority, matches_allowlist, normalize_destination, HostPort,
}
use context_control_plane.Mcp.Proxy.Server.{Destinations, record_destination}
use context_control_plane.Mcp.Proxy.Handler.{
  Network, Request, Effect, connected, unreachable, refused, connect, established, forwarded,
  Outcome, Target, Header, admit, handle_connect, handle_target, handle_http, http_target,
  read_headers, request_body, forward, dispatch, handle, is_connect,
}

-- The allowlist covers the destination, and it has been recorded.
abbrev IsAdmitted : List String → Destinations → String → ℕ → Type 0
IsAdmitted allowlist d host port =
    (matches_allowlist (normalize_destination host port) allowlist ≡ true)
    × (contains d.requested (normalize_destination host port) ≡ true)

-- Only a destination that is admitted is called, and the call has ended as the network says.
abbrev pub IsConfined : Network → List String → Destinations → Effect → Type 0
IsConfined net allowlist d (connected host port) =
    (net.dial host port ≡ true) × IsAdmitted allowlist d host port
IsConfined net allowlist d (unreachable host port) =
    (net.dial host port ≡ false) × IsAdmitted allowlist d host port
IsConfined net allowlist d _ = Unit

-- Nothing is established or sent on unless a connection has been made just before, and a call that
-- fails is answered with 502 and nothing else.
abbrev pub IsServed : List Effect → Type 0
IsServed [] = Unit
IsServed (established v ∷ es) = ⊥
IsServed (forwarded s ∷ es) = ⊥
IsServed (connected h p ∷ established v ∷ es) = IsServed es
IsServed (connected h p ∷ forwarded s ∷ es) = IsServed es
IsServed (unreachable h p ∷ es) = es ≡ refused 502 "Bad Gateway" ∷ []
IsServed (e ∷ es) = IsServed es

abbrev IsGuarded : Network → List String → Outcome → Type 0
IsGuarded net allowlist o =
    All (IsConfined net allowlist o.destinations) o.effects × IsServed o.effects

contains_last : (xs : List String) (x : String) → contains (xs ++ (x ∷ [])) x ≡ true
unfolding contains
contains_last [] x = rw (eq_refl x) refl
contains_last (y ∷ xs) x = ground (arith, contains_last xs x)

recorded_contains :
    (d : Destinations) (x : String) (allowed : Bool)
    → contains (record_destination d x allowed).requested x ≡ true
unfolding record_destination
recorded_contains d x allowed = elim (Bool-cases (contains d.requested x)) [
  | inl e ↦ rw (e, e) refl
  | inr e ↦ rw e (contains_last d.requested x)
]

admit-IsGuarded :
    (net : Network) (allowlist : List String) (d : Destinations) (at : HostPort)
    (next : List Effect)
    → ((known : Destinations)
        → IsAdmitted allowlist known at.host at.port
        → IsGuarded net allowlist (record { destinations = known; effects = next }))
    → IsGuarded net allowlist (admit allowlist d at next)
unfolding admit
admit-IsGuarded net allowlist d at next h =
    let x = normalize_destination at.host at.port in
    elim (Bool-cases (matches_allowlist x allowlist)) [
      | inl m ↦ rw m (h (record_destination d x true) (m, recorded_contains d x true))
      | inr m ↦ rw m ((tt, tt), tt)
    ]

connect-IsGuarded :
    (net : Network) (allowlist : List String) (known : Destinations) (at : HostPort) (e : Effect)
    → IsAdmitted allowlist known at.host at.port
    → IsConfined net allowlist known e
    → IsServed (connected at.host at.port ∷ e ∷ [])
    → IsGuarded net allowlist (record { destinations = known; effects = connect net at (e ∷ []) })
unfolding connect
connect-IsGuarded net allowlist known at e m confined served =
    elim (Bool-cases (net.dial at.host at.port)) [
      | inl up ↦ rw up (((up, m), (confined, tt)), served)
      | inr down ↦ rw down (((down, m), (tt, tt)), refl)
    ]

forward-IsGuarded :
    (net : Network) (allowlist : List String) (known : Destinations) (method version : String)
    (headers : List Header) (t : Target) (body : Result String)
    → IsAdmitted allowlist known t.at.host t.at.port
    → IsGuarded net allowlist
        (record { destinations = known; effects = forward net method version headers t body })
unfolding forward
forward-IsGuarded net allowlist known method version headers t (err e) m = ((tt, tt), tt)
forward-IsGuarded net allowlist known method version headers t (ok body) m =
    connect-IsGuarded net allowlist known t.at _ m tt tt

handle_target-IsGuarded :
    (net : Network) (allowlist : List String) (d : Destinations) (method version : String)
    (headers : List Header) (body : String) (t : Result Target)
    → IsGuarded net allowlist (handle_target net allowlist d method version headers body t)
unfolding handle_target
handle_target-IsGuarded net allowlist d method version headers body (err e) = ((tt, tt), tt)
handle_target-IsGuarded net allowlist d method version headers body (ok t) =
    admit-IsGuarded net allowlist d t.at
      (forward net method version headers t (request_body headers body))
      (λ known m.
        forward-IsGuarded net allowlist known method version headers t (request_body headers body)
          m)

handle_connect-IsGuarded :
    (net : Network) (allowlist : List String) (d : Destinations) (target version : String)
    → IsGuarded net allowlist (handle_connect net allowlist d target version)
unfolding handle_connect
handle_connect-IsGuarded net allowlist d target version =
    let at = parse_authority target 443 in
    admit-IsGuarded net allowlist d at (connect net at (established version ∷ []))
      (λ known m. connect-IsGuarded net allowlist known at (established version) m tt tt)

dispatch-IsGuarded :
    (net : Network) (allowlist : List String) (d : Destinations) (r : Request) (parts : List String)
    → IsGuarded net allowlist (dispatch net allowlist d r parts)
unfolding dispatch handle_http
dispatch-IsGuarded net allowlist d r [] = ((tt, tt), tt)
dispatch-IsGuarded net allowlist d r (a ∷ []) = ((tt, tt), tt)
dispatch-IsGuarded net allowlist d r (a ∷ b ∷ []) = ((tt, tt), tt)
dispatch-IsGuarded net allowlist d r (a ∷ b ∷ c ∷ e ∷ rest) = ((tt, tt), tt)
dispatch-IsGuarded net allowlist d r (method ∷ target ∷ version ∷ []) =
    elim (Bool-cases (is_connect method)) [
      | inl e ↦ rw e (handle_connect-IsGuarded net allowlist d target version)
      | inr e ↦ rw e (
          handle_target-IsGuarded net allowlist d method version (read_headers r.header_lines)
            r.body (http_target net target (read_headers r.header_lines)))
    ]

-- Whatever a client sends, the proxy calls only a destination that the allowlist covers and that it
-- has recorded by then; it answers that a connection is established, or sends a request on, only right
-- after a call that gave it a connection, and it answers a call that failed with 502 and goes no further.
pub handle-IsGuarded :
    (net : Network) (allowlist : List String) (d : Destinations) (r : Request)
    → All
        (IsConfined net allowlist (handle net allowlist d r).destinations)
        (handle net allowlist d r).effects
      × IsServed (handle net allowlist d r).effects
unfolding handle
handle-IsGuarded net allowlist d r = elim (Bool-cases (is_empty (strip r.line))) [
  | inl e ↦ rw e (tt, tt)
  | inr e ↦ rw e (dispatch-IsGuarded net allowlist d r (split (strip r.line)))
]
