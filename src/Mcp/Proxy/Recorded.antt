-- ===== src/Mcp/Proxy/Recorded.antt =====
-- kernel/mcp_proxy.py: the recorded destinations, over every sequence of requests.
use mathlib.Core.List.{append-nil}
use context_control_plane.Base.{
  String, ◌≡◌, refl, ap, ◌∙◌, inl, inr, true, false, List, [], ◌∷◌, ◌++◌, ◌==◌, contains, arith,
  Bool-cases, eq_iff, if◌then◌else◌,
}
use context_control_plane.Python.Error.{Result, ok, err}
use context_control_plane.Mcp.Proxy.Authority.{
  parse_authority, matches_allowlist, normalize_destination, HostPort,
}
use context_control_plane.Python.Text.{strip, is_empty}
use context_control_plane.Upgrade.Versions.{split}
use context_control_plane.Mcp.Proxy.Server.{Destinations, no_destinations, record_destination}
use context_control_plane.Mcp.Proxy.Handler.{
  Network, Request, Effect, Target, Header, admit, handle_connect, handle_target, handle_http,
  http_target, read_headers, dispatch, handle, is_connect,
}

-- No text stands twice.
abbrev pub AreDistinct : List String → Type 0
AreDistinct [] = Unit
AreDistinct (x ∷ xs) = (contains xs x ≡ false) × AreDistinct xs

-- The destinations that the allowlist does not cover, in their order.
abbrev pub uncovered : List String → List String → List String
uncovered allowlist [] = []
uncovered allowlist (x ∷ xs) =
    let rest = uncovered allowlist xs in if matches_allowlist x allowlist then rest else x ∷ rest

pub record IsRecorded (allowlist : List String) (d : Destinations) : Type 0 where
  pub distinct : AreDistinct d.requested
  pub blocked : d.blocked ≡ uncovered allowlist d.requested

-- The states that the requests of clients can lead to.
pub data Reaches (net : Network) (allowlist : List String) : Destinations → Type 0 where
  start : Reaches net allowlist no_destinations
  step :
      {d : Destinations} (r : Request)
      → Reaches net allowlist d
      → Reaches net allowlist (handle net allowlist d r).destinations

contains-append :
    (xs ys : List String) (x : String)
    → contains (xs ++ ys) x ≡ (if contains xs x then true else contains ys x)
unfolding contains
contains-append [] ys x = refl
contains-append (y ∷ xs) ys x = ground (arith, contains-append xs ys x)

apart_heads :
    (y x : String) (xs : List String)
    → contains (y ∷ xs) x ≡ false
    → ((x == y) ≡ false) × (contains xs x ≡ false)
unfolding contains
apart_heads y x xs e = ground (arith, eq_iff x y, eq_iff y x)

new_head :
    (y x : String) (xs : List String)
    → contains xs y ≡ false
    → (x == y) ≡ false
    → contains (xs ++ (x ∷ [])) y ≡ false
unfolding contains
new_head y x xs h e = rw (contains-append xs (x ∷ []) y, h, e) refl

AreDistinct-append :
    (xs : List String) (x : String)
    → AreDistinct xs
    → contains xs x ≡ false
    → AreDistinct (xs ++ (x ∷ []))
AreDistinct-append [] x h e = (unfold contains in refl, tt)
AreDistinct-append (y ∷ xs) x h e =
    let other = apart_heads y x xs e in
    (new_head y x xs h.0 other.0, AreDistinct-append xs x h.1 other.1)

uncovered-append :
    (allowlist xs ys : List String)
    → uncovered allowlist (xs ++ ys) ≡ uncovered allowlist xs ++ uncovered allowlist ys
uncovered-append allowlist [] ys = refl
uncovered-append allowlist (x ∷ xs) ys = ground (arith, uncovered-append allowlist xs ys)

contains-uncovered :
    (allowlist xs : List String) (x : String)
    → matches_allowlist x allowlist ≡ false
    → contains (uncovered allowlist xs) x ≡ contains xs x
unfolding contains
contains-uncovered allowlist [] x h = refl
contains-uncovered allowlist (y ∷ xs) x h =
    ground (arith, contains-uncovered allowlist xs x h, eq_iff y x)

record_destination-IsRecorded :
    (allowlist : List String) (d : Destinations) (x : String)
    → IsRecorded allowlist d
    → IsRecorded allowlist (record_destination d x (matches_allowlist x allowlist))
unfolding record_destination
record_destination-IsRecorded allowlist d x h = elim (Bool-cases (contains d.requested x)) [
  | inl c ↦ elim (Bool-cases (matches_allowlist x allowlist)) [
    | inl m ↦ rw (c, m) h
    | inr m ↦ rw (c, m, blocked_known m ∙ c) h
  ]
  | inr c ↦ record {
    distinct = rw c (AreDistinct-append d.requested x h.distinct c);
    blocked = elim (Bool-cases (matches_allowlist x allowlist)) [
      | inl m ↦
          rw
            (
              c,
              m,
              uncovered-append allowlist d.requested (x ∷ []),
              m,
              append-nil (uncovered allowlist d.requested),
            )
            h.blocked
      | inr m ↦
          rw (c, m, blocked_known m ∙ c, uncovered-append allowlist d.requested (x ∷ []), m)
            (ap (λ xs. xs ++ (x ∷ [])) h.blocked)
    ];
  }
]
  where
    blocked_known :
        matches_allowlist x allowlist ≡ false → contains d.blocked x ≡ contains d.requested x
    blocked_known m =
        ap (λ xs. contains xs x) h.blocked ∙ contains-uncovered allowlist d.requested x m

admit-IsRecorded :
    (allowlist : List String) (d : Destinations) (at : HostPort) (next : List Effect)
    → IsRecorded allowlist d
    → IsRecorded allowlist (admit allowlist d at next).destinations
unfolding admit
admit-IsRecorded allowlist d at next h =
    record_destination-IsRecorded allowlist d (normalize_destination at.host at.port) h

handle_target-IsRecorded :
    (net : Network) (allowlist : List String) (d : Destinations) (method version : String)
    (headers : List Header) (body : String) (t : Result Target)
    → IsRecorded allowlist d
    → IsRecorded allowlist
        (handle_target net allowlist d method version headers body t).destinations
unfolding handle_target
handle_target-IsRecorded net allowlist d method version headers body (err e) h = h
handle_target-IsRecorded net allowlist d method version headers body (ok t) h =
    admit-IsRecorded allowlist d t.at _ h

dispatch-IsRecorded :
    (net : Network) (allowlist : List String) (d : Destinations) (r : Request) (parts : List String)
    → IsRecorded allowlist d
    → IsRecorded allowlist (dispatch net allowlist d r parts).destinations
unfolding dispatch handle_connect handle_http
dispatch-IsRecorded net allowlist d r [] h = h
dispatch-IsRecorded net allowlist d r (a ∷ []) h = h
dispatch-IsRecorded net allowlist d r (a ∷ b ∷ []) h = h
dispatch-IsRecorded net allowlist d r (a ∷ b ∷ c ∷ e ∷ rest) h = h
dispatch-IsRecorded net allowlist d r (method ∷ target ∷ version ∷ []) h =
    elim (Bool-cases (is_connect method)) [
      | inl e ↦ rw e (admit-IsRecorded allowlist d (parse_authority target 443) _ h)
      | inr e ↦ rw e (
          handle_target-IsRecorded net allowlist d method version (read_headers r.header_lines)
            r.body (http_target net target (read_headers r.header_lines)) h)
    ]

handle-IsRecorded :
    (net : Network) (allowlist : List String) (d : Destinations) (r : Request)
    → IsRecorded allowlist d
    → IsRecorded allowlist (handle net allowlist d r).destinations
unfolding handle
handle-IsRecorded net allowlist d r h = elim (Bool-cases (is_empty (strip r.line))) [
  | inl e ↦ rw e h
  | inr e ↦ rw e (dispatch-IsRecorded net allowlist d r (split (strip r.line)) h)
]

-- In every state that the requests of clients can lead to, no destination stands twice among those
-- asked for, and the blocked ones are those among them that the allowlist does not cover, in the order
-- in which they were first asked for.
pub Reaches-IsRecorded :
    (net : Network) (allowlist : List String) (d : Destinations)
    → Reaches net allowlist d
    → IsRecorded allowlist d
Reaches-IsRecorded net allowlist _ start = record { distinct = tt; blocked = refl }
Reaches-IsRecorded net allowlist _ (step {d} r before) =
    handle-IsRecorded net allowlist d r (Reaches-IsRecorded net allowlist d before)
