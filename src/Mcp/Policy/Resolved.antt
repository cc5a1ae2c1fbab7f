-- ===== src/Mcp/Policy/Resolved.antt =====
-- kernel/mcp.py: which policy a server gets.
use mathlib.Core.Path.{subst}
use context_control_plane.Base.{
  String, ◌≡◌, refl, ap, sym, ◌∙◌, inl, inr, true, none, some, List, [], ◌∷◌, ◌==◌, Bool-cases,
  if◌then◌else◌, ◌⊎◌, some_injective, if_true, if_false, Option-cases, ◌↔◌, eq_iff,
}
use context_control_plane.Python.Error.{ok, ◌>>=◌, >>=-eq-ok, ok_injective}
use context_control_plane.Resource.{ResourceDocument, ResourceRegistry}
use context_control_plane.Sorting.Members.{Has}
use context_control_plane.Mcp.Profile.{
  McpServerProfile, McpPolicyProfile, policy_from_document, targets_server,
}
use context_control_plane.Mcp.Policy.{
  candidates_of, exact_of, ResolvedPolicy, choose, choose_candidate, resolve_mcp_policy,
}

-- The policy is read from one of the documents, and targets the server.
pub record IsAttached (server_name : String) (documents : List ResourceDocument)
    (p : McpPolicyProfile) : Type 0 where
  pub document : ResourceDocument
  pub listed : Has document documents
  pub read : policy_from_document document ≡ ok p
  pub targets : targets_server p server_name ≡ true

-- What the resolution has to give: an attached policy wherever there is one, of the server's own name
-- wherever one has that name.
pub record IsResolution (server_name : String) (documents : List ResourceDocument)
    (r : ResolvedPolicy) : Type 0 where
  pub attached : (p : McpPolicyProfile) → r.policy ≡ some p → IsAttached server_name documents p
  pub none_iff :
      (r.policy ≡ none) ↔ ((p : McpPolicyProfile) → IsAttached server_name documents p → ⊥)
  pub exact :
      (p q : McpPolicyProfile)
      → r.policy ≡ some p
      → IsAttached server_name documents q
      → q.name ≡ server_name
      → p.name ≡ server_name

-- A loop that returns has read its first document, and has been through the others.
candidates_first :
    (server_name : String) (d : ResourceDocument) (ds : List ResourceDocument)
    (ps : List McpPolicyProfile)
    → candidates_of server_name (d ∷ ds) ≡ ok ps
    → (profile : McpPolicyProfile) × (rest : List McpPolicyProfile) × (policy_from_document d
        ≡ ok profile)
      × (candidates_of server_name ds ≡ ok rest)
      × (ps ≡ (if targets_server profile server_name then profile ∷ rest else rest))
unfolding candidates_of
candidates_first server_name d ds ps h =
    let first =
      >>=-eq-ok (policy_from_document d)
        (λ profile. do
          rest ← candidates_of server_name ds
          ok (if targets_server profile server_name then profile ∷ rest else rest))
        h in
    let rest =
      >>=-eq-ok (candidates_of server_name ds)
        (λ rest. ok (if targets_server first.0 server_name then first.0 ∷ rest else rest))
        first.2 in
    (first.0, rest.0, first.1, rest.1, sym (ok_injective rest.2))

IsAttached-later :
    (server_name : String) (d : ResourceDocument) (ds : List ResourceDocument)
    (p : McpPolicyProfile)
    → IsAttached server_name ds p
    → IsAttached server_name (d ∷ ds) p
IsAttached-later server_name d ds p a = record {
  document = a.document;
  listed = inr a.listed;
  read = a.read;
  targets = a.targets;
}

candidates_none :
    (server_name : String) (ps : List McpPolicyProfile)
    → candidates_of server_name [] ≡ ok ps
    → ps ≡ []
unfolding candidates_of
candidates_none server_name ps h = sym (ok_injective h)

candidates_sound :
    (server_name : String) (ds : List ResourceDocument) (ps : List McpPolicyProfile)
    → candidates_of server_name ds ≡ ok ps
    → (p : McpPolicyProfile) → Has p ps
    → IsAttached server_name ds p
candidates_sound server_name [] ps h p m =
    absurd (subst (Has p) (candidates_none server_name ps h) m)
candidates_sound server_name (d ∷ ds) ps h p m =
    let first = candidates_first server_name d ds ps h in
    let later = candidates_sound server_name ds first.1 first.3 p in
    elim (Bool-cases (targets_server first.0 server_name)) [
      | inl e ↦
          let found : Has p (first.0 ∷ first.1) = subst (Has p) (first.4 ∙ if_true first.1 e) m in
          elim found [
            | inl same ↦ record {
              document = d;
              listed = inl refl;
              read = first.2 ∙ ap ok (sym same);
              targets = ap (λ q. targets_server q server_name) same ∙ e;
            }
            | inr rest ↦ IsAttached-later server_name d ds p (later rest)
          ]
      | inr e ↦
          IsAttached-later server_name d ds p
            (later (subst (Has p) (first.4 ∙ if_false (first.0 ∷ first.1) e) m))
    ]

candidates_complete :
    (server_name : String) (ds : List ResourceDocument) (ps : List McpPolicyProfile)
    → candidates_of server_name ds ≡ ok ps
    → (p : McpPolicyProfile) → IsAttached server_name ds p
    → Has p ps
candidates_complete server_name [] ps h p a = absurd a.listed
candidates_complete server_name (d ∷ ds) ps h p a =
    let first = candidates_first server_name d ds ps h in
    let later = candidates_complete server_name ds first.1 first.3 p in
    subst (Has p) (sym first.4) (elim a.listed [
      | inl same ↦
          let own : p ≡ first.0 =
            ok_injective (sym a.read ∙ ap policy_from_document same ∙ first.2) in
          let t = ap (λ q. targets_server q server_name) (sym own) ∙ a.targets in rw t (inl own)
      | inr rest ↦ elim (Bool-cases (targets_server first.0 server_name)) [
        | inl e ↦ rw e (
            inr (
              later (record {
                document = a.document;
                listed = rest;
                read = a.read;
                targets = a.targets;
              })))
        | inr e ↦ rw e (
            later
              (record { document = a.document; listed = rest; read = a.read; targets = a.targets }))
      ]
    ])

exact_of-Has :
    (server_name : String) (ps : List McpPolicyProfile) (p : McpPolicyProfile)
    → Has p (exact_of server_name ps)
    → Has p ps × (p.name ≡ server_name)
unfolding exact_of
exact_of-Has server_name [] p m = absurd m
exact_of-Has server_name (q ∷ qs) p m = elim (Bool-cases (q.name == server_name)) [
  | inl e ↦ elim (subst (Has p) (if_true (exact_of server_name qs) e) m) [
    | inl same ↦ (inl same, ap (λ x. x.name) same ∙ (eq_iff q.name server_name).0 e)
    | inr rest ↦ let r = exact_of-Has server_name qs p rest in (inr r.0, r.1)
  ]
  | inr e ↦
      let r =
        exact_of-Has server_name qs p
          (subst (Has p) (if_false (q ∷ exact_of server_name qs) e) m) in
      (inr r.0, r.1)
]

Has-exact_of :
    (server_name : String) (ps : List McpPolicyProfile) (p : McpPolicyProfile)
    → Has p ps
    → p.name ≡ server_name
    → Has p (exact_of server_name ps)
unfolding exact_of
Has-exact_of server_name [] p m e = absurd m
Has-exact_of server_name (q ∷ qs) p (inl same) e =
    let named = (eq_iff q.name server_name).1 (ap (λ x. x.name) (sym same) ∙ e) in
    subst (Has p) (sym (if_true (exact_of server_name qs) named)) (inl same)
Has-exact_of server_name (q ∷ qs) p (inr m) e =
    let rest = Has-exact_of server_name qs p m e in
    elim (Bool-cases (q.name == server_name)) [
      | inl f ↦ subst (Has p) (sym (if_true (exact_of server_name qs) f)) (inr rest)
      | inr f ↦ subst (Has p) (sym (if_false (q ∷ exact_of server_name qs) f)) rest
    ]

choose-some :
    (ex cs : List McpPolicyProfile) (p : McpPolicyProfile)
    → (choose ex cs).policy ≡ some p
    → Has p ex ⊎ ((ex ≡ []) × Has p cs)
unfolding choose choose_candidate
choose-some [] [] p h = cc
choose-some [] (q ∷ []) p h = inr (refl, inl (sym (some_injective h)))
choose-some [] (q ∷ r ∷ cs) p h = inr (refl, inl (sym (some_injective h)))
choose-some (q ∷ []) cs p h = inl (inl (sym (some_injective h)))
choose-some (q ∷ r ∷ ex) cs p h = inl (inl (sym (some_injective h)))

choose-none : (ex cs : List McpPolicyProfile) → (choose ex cs).policy ≡ none → cs ≡ []
unfolding choose choose_candidate
choose-none [] [] h = refl
choose-none [] (q ∷ []) h = cc
choose-none [] (q ∷ r ∷ cs) h = cc
choose-none (q ∷ []) cs h = cc
choose-none (q ∷ r ∷ ex) cs h = cc

choose-IsResolution :
    (server_name : String) (ds : List ResourceDocument) (ps : List McpPolicyProfile)
    → candidates_of server_name ds ≡ ok ps
    → IsResolution server_name ds (choose (exact_of server_name ps) ps)
choose-IsResolution server_name ds ps h = record {
  attached = λ p e. candidates_sound server_name ds ps h p (chosen p e);
  none_iff = (
    λ e p a. subst (Has p) (choose-none ex ps e) (candidates_complete server_name ds ps h p a),
    λ nothing. elim (Option-cases (choose ex ps).policy) [
      | inl e ↦ e
      | inr e ↦ absurd (nothing e.0 (candidates_sound server_name ds ps h e.0 (chosen e.0 e.1)))
    ],
  );
  exact = λ p q e a named.
      let own = Has-exact_of server_name ps q (candidates_complete server_name ds ps h q a) named in
      elim (choose-some ex ps p e) [
        | inl m ↦ (exact_of-Has server_name ps p m).1
        | inr m ↦ absurd (subst (Has q) m.0 own)
      ];
}
  where
    ex : List McpPolicyProfile
    ex = exact_of server_name ps

    chosen : (p : McpPolicyProfile) → (choose ex ps).policy ≡ some p → Has p ps
    chosen p e = elim (choose-some ex ps p e) [
      | inl m ↦ (exact_of-Has server_name ps p m).0
      | inr m ↦ m.1
    ]

-- Where the registry gives the policies of the namespace and the resolution returns, it gives a policy
-- that is read from one of them and targets the server; it gives none exactly where no such policy
-- exists; and it gives one with the server's own name wherever there is one.
pub resolve_mcp_policy-IsResolution :
    (server : McpServerProfile) (registry : ResourceRegistry) (documents : List ResourceDocument)
    (r : ResolvedPolicy)
    → registry.list_resources "McpPolicy" server.namespace ≡ ok documents
    → resolve_mcp_policy server registry ≡ ok r
    → IsResolution server.name documents r
unfolding resolve_mcp_policy
resolve_mcp_policy-IsResolution server registry documents r given h =
    let first =
      >>=-eq-ok (registry.list_resources "McpPolicy" server.namespace)
        (λ documents. do
          candidates ← candidates_of server.name documents
          ok (choose (exact_of server.name candidates) candidates))
        h in
    let second =
      >>=-eq-ok (candidates_of server.name first.0)
        (λ candidates. ok (choose (exact_of server.name candidates) candidates)) first.2 in
    subst (IsResolution server.name documents) (ok_injective second.2) (
      choose-IsResolution server.name documents second.0
        (ap (candidates_of server.name) (ok_injective (sym given ∙ first.1)) ∙ second.1))
