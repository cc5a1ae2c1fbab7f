-- ===== src/Mcp/Shown.antt =====
-- kernel/mcp.py: what a server and its policy show, against the flags of the report.
use context_control_plane.Base.{
  String, ◌≡◌, ◌≢◌, ◌⊎◌, refl, ap, sym, ◌∙◌, inl, inr, ◌↔◌, true, false, none, some, List, [], ◌∷◌,
  ◌==◌, eq_iff, false≢true, arith, Bool-cases, contains, if◌then◌else◌, Option-cases,
  some_injective,
}
use context_control_plane.Python.Value.{
  Value, null, bool, num, str, arr, obj, Fields, end, field, find, get, get_or, truthy,
}
use context_control_plane.Mcp.Profile.{McpServerProfile}
use context_control_plane.Mcp.Report.{
  no_texts, capability_tools, tools_of, loose_modes, Posture, value_in, mode_in,
}

pub truthy-end : (fs : Fields) → (truthy (obj fs) ≡ true) ↔ (fs ≢ end)
unfolding truthy
truthy-end end = (λ h. absurd (false≢true h), λ h. absurd (h refl))
truthy-end (field k v fs) = (λ h e. cc, λ h. refl)

declared_iff :
    (declared capabilities : List String)
    → (no_texts (if no_texts declared then capability_tools capabilities else declared) ≡ false)
      ↔ ((declared ≢ []) ⊎ (capabilities ≢ []))
unfolding no_texts capability_tools
declared_iff [] [] =
    (λ h. absurd (false≢true (sym h)), λ h. absurd (elim h [ inl f ↦ f refl | inr f ↦ f refl ]))
declared_iff [] (c ∷ cs) = (λ h. inr (λ e. cc), λ h. refl)
declared_iff (d ∷ ds) cs = (λ h. inl (λ e. cc), λ h. refl)

str_injective : {s t : String} → str s ≡ str t → s ≡ t
str_injective h = cc

different : (s t : String) → s ≢ t → (s == t) ≡ false
different s t h = elim (Bool-cases (s == t)) [ inl e ↦ absurd (h ((eq_iff s t).0 e)) | inr e ↦ e ]

-- The egress mode is none of the three that confine nothing.
abbrev pub IsConfining : Fields → Type 0
IsConfining egress =
    (find egress "mode" ≢ some (str "open"))
    × (find egress "mode" ≢ some (str "unspecified"))
    × (find egress "mode" ≢ some (str "inherit"))

loose_iff :
    (mode : Value)
    → (value_in mode loose_modes ≡ false)
      ↔ ((mode ≢ str "open") × (mode ≢ str "unspecified") × (mode ≢ str "inherit"))
unfolding value_in contains
loose_iff null = (λ h. (λ e. cc, λ e. cc, λ e. cc), λ h. refl)
loose_iff (bool b) = (λ h. (λ e. cc, λ e. cc, λ e. cc), λ h. refl)
loose_iff (num n) = (λ h. (λ e. cc, λ e. cc, λ e. cc), λ h. refl)
loose_iff (arr xs) = (λ h. (λ e. cc, λ e. cc, λ e. cc), λ h. refl)
loose_iff (obj fs) = (λ h. (λ e. cc, λ e. cc, λ e. cc), λ h. refl)
loose_iff (str s) = (
  λ h. (
    λ e. let t = (eq_iff "open" s).1 (sym (str_injective e)) in ground arith,
    λ e. let t = (eq_iff "unspecified" s).1 (sym (str_injective e)) in ground arith,
    λ e. let t = (eq_iff "inherit" s).1 (sym (str_injective e)) in ground arith,
  ),
  λ h.
      let a = different "open" s (λ e. h.0 (ap str (sym e))) in
      let b = different "unspecified" s (λ e. h.1 (ap str (sym e))) in
      let c = different "inherit" s (λ e. h.2 (ap str (sym e))) in ground arith,
)

get_or-none : (fs : Fields) (k : String) → find fs k ≡ none → get_or fs k null ≡ null
unfolding get_or
get_or-none fs k e = rw (e, get_or) refl

pub get_or-some : (fs : Fields) (k : String) (v : Value) → find fs k ≡ some v → get_or fs k null ≡ v
unfolding get_or
get_or-some fs k v e = rw (e, get_or) refl

value_in-IsConfining :
    (egress : Fields)
    → (value_in (get_or egress "mode" null) loose_modes ≡ false) ↔ IsConfining egress
value_in-IsConfining egress = elim (Option-cases (find egress "mode")) [
  | inl e ↦ (
    λ h. (λ x. cc (x, e), λ x. cc (x, e), λ x. cc (x, e)),
    λ h. rw (get_or-none egress "mode" e) (unfold value_in in refl),
  )
  | inr e ↦
      let words = loose_iff e.0 in
      let read = ap (λ v. value_in v loose_modes) (get_or-some egress "mode" e.0 e.1) in
      (
        λ h.
            let w = words.0 (sym read ∙ h) in
            (
              λ x. w.0 (some_injective (sym e.1 ∙ x)),
              λ x. w.1 (some_injective (sym e.1 ∙ x)),
              λ x. w.2 (some_injective (sym e.1 ∙ x)),
            ),
        λ h.
            read
            ∙ words.1 (
              λ x. h.0 (e.1 ∙ ap some x),
              λ x. h.1 (e.1 ∙ ap some x),
              λ x. h.2 (e.1 ∙ ap some x),
            ),
      )
]

-- The flag for a loose mode is read from the mode of the policy.
pub mode_in-IsConfining :
    (p : Posture) → (mode_in p loose_modes ≡ false) ↔ IsConfining p.egress_policy
unfolding mode_in
mode_in-IsConfining p = value_in-IsConfining p.egress_policy

value_in-allowlist :
    (mode : Value) → (value_in mode ("allowlist" ∷ []) ≡ true) ↔ (mode ≡ str "allowlist")
unfolding value_in contains
value_in-allowlist null = (λ h. cc, λ h. cc)
value_in-allowlist (bool b) = (λ h. cc, λ h. cc)
value_in-allowlist (num n) = (λ h. cc, λ h. cc)
value_in-allowlist (arr xs) = (λ h. cc, λ h. cc)
value_in-allowlist (obj fs) = (λ h. cc, λ h. cc)
value_in-allowlist (str s) = (
  λ h. let t = (eq_iff "allowlist" s).0 (ground arith) in ap str (sym t),
  λ h. let t = (eq_iff "allowlist" s).1 (sym (str_injective h)) in ground arith,
)

-- The mode of the posture is "allowlist" where that of the policy is.
pub mode_in-allowlist :
    (p : Posture)
    → (mode_in p ("allowlist" ∷ []) ≡ true) ↔ (get p.egress_policy "mode" ≡ str "allowlist")
unfolding mode_in
mode_in-allowlist p = value_in-allowlist (get p.egress_policy "mode")

pub tools_of-declared :
    (server : McpServerProfile)
    → (no_texts (tools_of server) ≡ false)
      ↔ ((server.declared_tools ≢ []) ⊎ (server.capabilities ≢ []))
unfolding tools_of
tools_of-declared server = declared_iff server.declared_tools server.capabilities
