-- ===== src/Mcp/Started.antt =====
-- kernel/mcp.py: when a server can start.
use context_control_plane.Base.{
  String, ◌≡◌, ◌≢◌, ◌⊎◌, refl, ap, sym, ◌∙◌, inl, inr, ◌↔◌, true, false, not, Option, none, some,
  ◌==◌, eq_iff, false≢true, arith, Bool-cases, if_true, if_false, some_injective,
}
use context_control_plane.Python.Error.{ok, >>=-eq-ok, ok_injective}
use context_control_plane.Python.Text.{is_empty, or_else}
use context_control_plane.Mcp.Profile.{McpServerProfile, is_http}
use context_control_plane.Mcp.Startup.{
  ParsedUrl, Host, Startup, executable_of, stdio_startup, http_startup, build_startup_report,
}

-- The command is on the PATH, or is the path of a file.
abbrev pub IsFound : Host → String → Type 0
IsFound host command =
    ((path : String) × (host.which command ≡ some path) × (is_empty path ≡ false))
    ⊎ (is_empty (host.existing_path command) ≡ false)

-- The URL has the scheme http or https, and a host.
abbrev pub IsEndpoint : Host → String → Type 0
IsEndpoint host url =
    (u : ParsedUrl) × (host.urlparse url ≡ ok u)
    × ((u.scheme ≡ "http") ⊎ (u.scheme ≡ "https"))
    × (is_empty u.netloc ≡ false)

abbrev pub Starts : Host → McpServerProfile → Type 0
Starts host server =
    ((server.transport ≡ "stdio") × IsFound host server.command)
    ⊎ ((server.transport ≢ "stdio") × IsEndpoint host server.url)

or_else-given :
    (a b : String)
    → (is_empty (or_else a b) ≡ false) ↔ ((is_empty a ≡ false) ⊎ (is_empty b ≡ false))
unfolding or_else
or_else-given a b = elim (Bool-cases (is_empty a)) [
  | inl e ↦ rw e (λ h. inr h, λ h. elim h [ inl f ↦ absurd (false≢true (sym f)) | inr f ↦ f ])
  | inr e ↦ (λ h. inl e, λ h. rw (e, e) refl)
]

chosen-IsFound :
    (which : Option String) (existing : String)
    → (is_empty (elim which [ none ↦ existing | some path ↦ or_else path existing ]) ≡ false) ↔ (
        ((path : String) × (which ≡ some path) × (is_empty path ≡ false))
        ⊎ (is_empty existing ≡ false))
chosen-IsFound none existing = (λ h. inr h, λ h. elim h [ inl f ↦ absurd (cc f.1) | inr f ↦ f ])
chosen-IsFound (some path) existing =
    let given = or_else-given path existing in
    (
      λ h. elim (given.0 h) [ inl f ↦ inl (path, refl, f) | inr f ↦ inr f ],
      λ h.
          given.1 (elim h [ inl f ↦ inl (ap is_empty (some_injective f.1) ∙ f.2) | inr f ↦ inr f ]),
    )

executable_of-IsFound :
    (host : Host) (command : String)
    → (is_empty (executable_of host command) ≡ false) ↔ IsFound host command
unfolding executable_of
executable_of-IsFound host command =
    chosen-IsFound (host.which command) (host.existing_path command)

stdio_startup-success :
    (command executable : String)
    → ((stdio_startup command executable).success ≡ true) ↔ (is_empty executable ≡ false)
unfolding stdio_startup
stdio_startup-success command executable = elim (Bool-cases (is_empty executable)) [
  | inl e ↦ rw e (λ h. absurd (false≢true h), λ h. absurd (false≢true (sym h)))
  | inr e ↦ rw e (λ h. refl, λ h. refl)
]

pub is_http_iff : (s : String) → (is_http s ≡ true) ↔ ((s ≡ "http") ⊎ (s ≡ "https"))
unfolding is_http
is_http_iff s = ground (arith, eq_iff s "http", eq_iff s "https")

http_startup-success :
    (url : String) (u : ParsedUrl)
    → ((http_startup url u).success ≡ true)
      ↔ (((u.scheme ≡ "http") ⊎ (u.scheme ≡ "https")) × (is_empty u.netloc ≡ false))
unfolding http_startup
http_startup-success url u =
    let scheme = is_http_iff u.scheme in
    elim (Bool-cases (is_http u.scheme)) [
      | inr e ↦ rw e (λ h. absurd (false≢true h), λ h. absurd (false≢true (sym e ∙ scheme.1 h.0)))
      | inl e ↦ elim (Bool-cases (is_empty u.netloc)) [
        | inl f ↦ rw (e, f) (λ h. absurd (false≢true h), λ h. absurd (false≢true (sym h.1)))
        | inr f ↦ rw (e, f) (λ h. (scheme.0 e, refl), λ h. refl)
      ]
    ]

pub build_startup_report-Starts :
    (host : Host) (server : McpServerProfile) (s : Startup)
    → server.enabled ≡ true
    → build_startup_report host server ≡ ok s
    → (s.success ≡ true) ↔ Starts host server
unfolding build_startup_report
build_startup_report-Starts host server s on h =
    let h₁ = sym (if_false _ (ap not on)) ∙ h in
    elim (Bool-cases (server.transport == "stdio")) [
      | inl e ↦
          let local = (eq_iff server.transport "stdio").0 e in
          let same = ap (λ r. r.success) (ok_injective (sym (if_true _ e) ∙ h₁)) in
          let success = stdio_startup-success server.command (executable_of host server.command) in
          let found = executable_of-IsFound host server.command in
          (
            λ x. inl (local, found.0 (success.0 (same ∙ x))),
            λ x. elim x [ inl y ↦ sym same ∙ success.1 (found.1 y.1) | inr y ↦ absurd (y.0 local) ],
          )
      | inr e ↦
          let remote : server.transport ≢ "stdio" =
            λ x. false≢true (sym e ∙ (eq_iff server.transport "stdio").1 x) in
          let got =
            >>=-eq-ok (host.urlparse server.url) (λ parsed. ok (http_startup server.url parsed))
              (sym (if_false _ e) ∙ h₁) in
          let same = ap (λ r. r.success) (ok_injective got.2) in
          let success = http_startup-success server.url got.0 in
          (
            λ x. let y = success.0 (same ∙ x) in inr (remote, (got.0, got.1, y.0, y.1)),
            λ x. elim x [
              | inl y ↦ absurd (remote y.0)
              | inr y ↦
                  let u = ok_injective (sym y.1.1 ∙ got.1) in
                  sym same
                  ∙ ap (λ v. (http_startup server.url v).success) (sym u)
                  ∙ (http_startup-success server.url y.1.0).1 (y.1.2, y.1.3)
            ],
          )
    ]
