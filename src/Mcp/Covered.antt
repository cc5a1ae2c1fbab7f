-- ===== src/Mcp/Covered.antt =====
-- kernel/mcp.py: when the allowlist of a policy covers the endpoint of a server.
use mathlib.Core.Path.{subst}
use context_control_plane.Base.{
  String, ◌≡◌, ◌⊎◌, refl, ap, sym, ◌∙◌, inl, inr, ◌↔◌, true, false, not, ◌&&◌, some, List, [], ◌∷◌,
  ◌++◌, ◌==◌, eq_iff, false≢true, Bool-cases, contains, if_true, if_false, if◌then◌else◌,
}
use context_control_plane.Python.Error.{ok, ◌>>=◌, >>=-eq-ok, ok_injective}
use context_control_plane.Python.Text.{is_empty}
use context_control_plane.Python.Value.{get}
use context_control_plane.Sorting.Members.{Has}
use context_control_plane.Mcp.Profile.{McpServerProfile, McpPolicyProfile, is_http, mcp_string_list}
use context_control_plane.Mcp.Startup.{
  ParsedUrl, Host, url_destinations, endpoint_destinations, append_new,
  network_destinations_requested,
}
use context_control_plane.Mcp.Report.{no_texts, is_subset, allowed_of}

-- Where the server has an endpoint, its host is one of the entries of the allowlist.
pub CoversEndpoint : Host → McpServerProfile → List String → Type 0
CoversEndpoint host server entries =
    (u : ParsedUrl)
    → host.urlparse server.url ≡ ok u
    → is_empty server.url ≡ false
    → is_empty u.netloc ≡ false
    → Has u.netloc entries

contains-Has : (xs : List String) (x : String) → (contains xs x ≡ true) ↔ Has x xs
unfolding contains
contains-Has [] x = (λ h. absurd (false≢true h), λ h. absurd h)
contains-Has (y ∷ ys) x = elim (Bool-cases (y == x)) [
  | inl e ↦ rw e (λ h. inl (sym ((eq_iff y x).0 e)), λ h. refl)
  | inr e ↦ rw e (
    λ h. inr ((contains-Has ys x).0 h),
    λ h. elim h [
      | inl f ↦ absurd (false≢true (sym e ∙ (eq_iff y x).1 (sym f)))
      | inr f ↦ (contains-Has ys x).1 f
    ],
  )
]

is_subset_all :
    (xs ys : List String) → (is_subset xs ys ≡ true) ↔ ((x : String) → Has x xs → Has x ys)
unfolding is_subset
is_subset_all [] ys = (λ h x m. absurd m, λ h. refl)
is_subset_all (x ∷ xs) ys =
    let rest = is_subset_all xs ys in
    elim (Bool-cases (contains ys x)) [
      | inl e ↦ rw e (
        λ h y m. elim m [
          | inl f ↦ subst (λ z. Has z ys) (sym f) ((contains-Has ys x).0 e)
          | inr f ↦ rest.0 h y f
        ],
        λ h. rest.1 (λ y m. h y (inr m)),
      )
      | inr e ↦ rw e (
        λ h. absurd (false≢true h),
        λ h. absurd (false≢true (sym e ∙ (contains-Has ys x).1 (h x (inl refl)))),
      )
    ]

Has-append : (x : String) (xs ys : List String) → Has x (xs ++ ys) → Has x xs ⊎ Has x ys
Has-append x [] ys h = inr h
Has-append x (y ∷ xs) ys (inl e) = inl (inl e)
Has-append x (y ∷ xs) ys (inr h) = elim (Has-append x xs ys h) [
  | inl m ↦ inl (inr m)
  | inr m ↦ inr m
]

Has-left : (x : String) (xs ys : List String) → Has x xs → Has x (xs ++ ys)
Has-left x [] ys h = absurd h
Has-left x (y ∷ xs) ys (inl e) = inl e
Has-left x (y ∷ xs) ys (inr h) = inr (Has-left x xs ys h)

-- What is appended is new or was there.
append_new-Has : (ds xs : List String) (x : String) → Has x (append_new ds xs) → Has x ds ⊎ Has x xs
unfolding append_new
append_new-Has ds [] x h = inl h
append_new-Has ds (y ∷ ys) x h = elim (Bool-cases (contains ds y)) [
  | inl e ↦ elim (append_new-Has ds ys x (subst (λ zs. Has x (append_new zs ys)) (if_true _ e) h)) [
    | inl m ↦ inl m
    | inr m ↦ inr (inr m)
  ]
  | inr e ↦
      elim (append_new-Has (ds ++ (y ∷ [])) ys x
        (subst (λ zs. Has x (append_new zs ys)) (if_false _ e) h)) [
          | inl m ↦ elim (Has-append x ds (y ∷ []) m) [
            | inl n ↦ inl n
            | inr n ↦ elim n [ inl f ↦ inr (inl f) | inr f ↦ absurd f ]
          ]
          | inr m ↦ inr (inr m)
        ]
]

Has-append_new : (ds xs : List String) (x : String) → Has x ds → Has x (append_new ds xs)
unfolding append_new
Has-append_new ds [] x h = h
Has-append_new ds (y ∷ ys) x h = elim (Bool-cases (contains ds y)) [
  | inl e ↦ rw e (Has-append_new ds ys x h)
  | inr e ↦ rw e (Has-append_new (ds ++ (y ∷ [])) ys x (Has-left x ds (y ∷ []) h))
]

-- The destinations of the endpoint: its host, where it has one.
endpoint-Has :
    (host : Host) (server : McpServerProfile) (ds : List String)
    → is_http server.transport ≡ true
    → endpoint_destinations host server ≡ ok ds
    → ((x : String)
        → Has x ds
        → (u : ParsedUrl) × (host.urlparse server.url ≡ ok u)
          × (is_empty server.url ≡ false)
          × (is_empty u.netloc ≡ false)
          × (x ≡ u.netloc))
      × ((u : ParsedUrl)
          → host.urlparse server.url ≡ ok u
          → is_empty server.url ≡ false
          → is_empty u.netloc ≡ false
          → Has u.netloc ds)
unfolding endpoint_destinations url_destinations
endpoint-Has host server ds http h = elim (Bool-cases (is_empty server.url)) [
  | inl blank ↦
      let none : [] ≡ ds = ok_injective (
        sym (
          if_false {b = is_http server.transport && not (is_empty server.url)} _
            (rw (http, blank) refl))
        ∙ h) in
      (
        λ x m. absurd (subst (Has x) (sym none) m),
        λ u p given q. absurd (false≢true (sym given ∙ blank)),
      )
  | inr given ↦
      let got =
        >>=-eq-ok (host.urlparse server.url)
          (λ parsed. ok (if is_empty parsed.netloc then [] else parsed.netloc ∷ []))
          (sym (
              if_true {b = is_http server.transport && not (is_empty server.url)} _
                (rw (http, given) refl))
            ∙ h) in
      elim (Bool-cases (is_empty got.0.netloc)) [
        | inl e ↦
            let none : [] ≡ ds = sym (if_true _ e) ∙ ok_injective got.2 in
            (
              λ x m. absurd (subst (Has x) (sym none) m),
              λ u p g q. absurd (
                  false≢true
                    (sym q ∙ ap (λ v. is_empty v.netloc) (ok_injective (sym p ∙ got.1)) ∙ e)),
            )
        | inr e ↦
            let one : got.0.netloc ∷ [] ≡ ds = sym (if_false _ e) ∙ ok_injective got.2 in
            (
              λ x m. elim (subst (Has x) (sym one) m) [
                | inl f ↦ (got.0, got.1, given, e, f)
                | inr f ↦ absurd f
              ],
              λ u p g q.
                  subst (Has u.netloc) one
                    (inl (ap (λ v. v.netloc) (ok_injective (sym p ∙ got.1)))),
            )
      ]
]

no_texts-Has : (x : String) (xs : List String) → Has x xs → no_texts xs ≡ false
unfolding no_texts
no_texts-Has x [] h = absurd h
no_texts-Has x (y ∷ xs) h = refl

no_texts-nil : (xs : List String) → no_texts xs ≡ true → (x : String) → Has x xs → ⊥
no_texts-nil xs h x m = false≢true (sym (no_texts-Has x xs m) ∙ h)

-- The destinations are among the entries exactly where the endpoint is.
pub is_subset-CoversEndpoint :
    (host : Host) (server : McpServerProfile) (p : McpPolicyProfile)
    (ds allowed entries : List String)
    → is_http server.transport ≡ true
    → network_destinations_requested host server (some p) ≡ ok ds
    → allowed_of server (some p) ds ≡ ok allowed
    → mcp_string_list (get p.egress_policy "allow") ≡ ok entries
    → ((no_texts ds ≡ true) ⊎ (is_subset ds allowed ≡ true)) ↔ CoversEndpoint host server entries
unfolding network_destinations_requested allowed_of CoversEndpoint
is_subset-CoversEndpoint host server p ds allowed entries http hd ha he =
    let first =
      >>=-eq-ok (endpoint_destinations host server)
        (λ destinations. do
          allow ← mcp_string_list (get p.egress_policy "allow")
          ok (append_new destinations allow))
        hd in
    let second =
      >>=-eq-ok (mcp_string_list (get p.egress_policy "allow"))
        (λ allow. ok (append_new first.0 allow)) first.2 in
    let same : second.0 ≡ entries = ok_injective (sym second.1 ∙ he) in
    let ends = endpoint-Has host server first.0 http first.1 in
    let all : append_new first.0 entries ≡ ds =
      ap (append_new first.0) (sym same) ∙ ok_injective second.2 in
    let listed : no_texts ds ≡ false → entries ≡ allowed = λ some_ds. ok_injective (
      sym he
      ∙ sym
          (if_true {b = is_http server.transport && not (no_texts ds)} _ (rw (http, some_ds) refl))
      ∙ ha) in
    (
      λ h u parsed given netloc.
          let there : Has u.netloc ds =
            subst (Has u.netloc) all
              (Has-append_new first.0 entries u.netloc (ends.1 u parsed given netloc)) in
          let some_ds = no_texts-Has u.netloc ds there in
          elim h [
            | inl e ↦ absurd (false≢true (sym some_ds ∙ e))
            | inr e ↦
                subst (Has u.netloc) (sym (listed some_ds))
                  ((is_subset_all ds allowed).0 e u.netloc there)
          ],
      λ h. elim (Bool-cases (no_texts ds)) [
        | inl e ↦ inl e
        | inr e ↦ inr (
            (is_subset_all ds allowed).1 (λ x m.
              subst (Has x) (listed e)
                (elim (append_new-Has first.0 entries x (subst (Has x) (sym all) m)) [
                  | inl n ↦
                      let end = ends.0 x n in
                      subst (λ y. Has y entries) (sym end.4) (h end.0 end.1 end.2 end.3)
                  | inr n ↦ n
                ])))
      ],
    )

pub allow-entries :
    (host : Host) (server : McpServerProfile) (p : McpPolicyProfile) (ds : List String)
    → network_destinations_requested host server (some p) ≡ ok ds
    → (entries : List String) × (mcp_string_list (get p.egress_policy "allow") ≡ ok entries)
unfolding network_destinations_requested
allow-entries host server p ds h =
    let first =
      >>=-eq-ok (endpoint_destinations host server)
        (λ destinations. do
          allow ← mcp_string_list (get p.egress_policy "allow")
          ok (append_new destinations allow))
        h in
    let second =
      >>=-eq-ok (mcp_string_list (get p.egress_policy "allow"))
        (λ allow. ok (append_new first.0 allow)) first.2 in
    (second.0, second.1)
