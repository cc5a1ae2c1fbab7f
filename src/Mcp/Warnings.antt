-- ===== src/Mcp/Warnings.antt =====
-- kernel/mcp.py: when a report has nothing to warn of.
use context_control_plane.Base.{
  String, ◌≡◌, ◌≢◌, refl, sym, ◌∙◌, inl, inr, ◌↔◌, Bool, true, false, not, ◌||◌, List, [], ◌∷◌,
  ◌++◌, ◌==◌, eq_iff, false≢true, arith, Bool-cases, if◌then◌else◌,
}
use context_control_plane.Python.Value.{obj, truthy}
use context_control_plane.Mcp.Profile.{McpServerProfile}
use context_control_plane.Mcp.Startup.{Startup}
use context_control_plane.Mcp.Report.{
  Posture, no_texts, mode_in, warn, loose_modes, unsanitized, uncovered_endpoint, trust_warning,
  own_warnings, blocked_by, health_of,
}

pub append_iff :
    {P Q : Type 0} (xs ys : List String)
    → (no_texts xs ≡ true) ↔ P
    → (no_texts ys ≡ true) ↔ Q
    → (no_texts (xs ++ ys) ≡ true) ↔ (P × Q)
unfolding no_texts
append_iff [] ys f g = (λ h. (f.0 refl, g.0 h), λ h. g.1 h.1)
append_iff (x ∷ xs) ys f g = (λ h. absurd (false≢true h), λ h. absurd (false≢true (f.1 h.0)))

warn_iff : (b : Bool) (m : String) → (no_texts (warn b m) ≡ true) ↔ (b ≡ false)
unfolding no_texts warn
warn_iff true m = (λ h. absurd (false≢true h), λ h. absurd (false≢true (sym h)))
warn_iff false m = (λ h. refl, λ h. refl)

warn-not_iff : (b : Bool) (m : String) → (no_texts (warn (not b) m) ≡ true) ↔ (b ≡ true)
unfolding no_texts warn
warn-not_iff true m = (λ h. refl, λ h. refl)
warn-not_iff false m = (λ h. absurd (false≢true h), λ h. absurd (false≢true h))

pub texts_iff : (xs : List String) → (no_texts xs ≡ true) ↔ (xs ≡ [])
unfolding no_texts
texts_iff [] = (λ h. refl, λ h. refl)
texts_iff (x ∷ xs) = (λ h. absurd (false≢true h), λ h. cc)

trust_iff :
    (tier : String)
    → (no_texts (trust_warning tier) ≡ true) ↔ ((tier ≢ "quarantined") × (tier ≢ "user-added"))
unfolding no_texts trust_warning
trust_iff tier = elim (Bool-cases (tier == "quarantined")) [
  | inl e ↦ rw e (λ h. absurd (false≢true h), λ h. absurd (h.0 ((eq_iff tier "quarantined").0 e)))
  | inr e ↦ elim (Bool-cases (tier == "user-added")) [
    | inl f ↦
        rw (e, f) (λ h. absurd (false≢true h), λ h. absurd (h.1 ((eq_iff tier "user-added").0 f)))
    | inr f ↦
        rw (e, f)
          (
            λ h. (
              λ x. false≢true (sym e ∙ (eq_iff tier "quarantined").1 x),
              λ x. false≢true (sym f ∙ (eq_iff tier "user-added").1 x),
            ),
            λ h. refl,
          )
  ]
]

different_iff : (s t m : String) → (no_texts (warn (s == t) m) ≡ true) ↔ (s ≢ t)
different_iff s t m =
    let flag = warn_iff (s == t) m in
    (
      λ h e. false≢true (sym (flag.0 h) ∙ (eq_iff s t).1 e),
      λ h.
          flag.1 (elim (Bool-cases (s == t)) [ inl e ↦ absurd (h ((eq_iff s t).0 e)) | inr e ↦ e ]),
    )

unsanitized_iff :
    (p : Posture) (m : String)
    → (no_texts (warn (unsanitized p) m) ≡ true)
      ↔ ((p.input ≡ true) × (p.output ≡ true) × (p.trace ≡ true))
unfolding unsanitized
unsanitized_iff p m =
    let flag = warn_iff (not p.input || not p.output || not p.trace) m in
    (λ h. let low = flag.0 h in ground arith, λ h. flag.1 (rw (h.0, h.1, h.2) refl))

-- The warnings of the report itself.
pub own_iff :
    (server : McpServerProfile) (p : Posture)
    → (no_texts (own_warnings server p) ≡ true) ↔ (
        (server.enabled ≡ true)
        × (((p.trust_tier ≢ "quarantined") × (p.trust_tier ≢ "user-added"))
            × ((p.attached ≡ true)
                × ((no_texts p.declared_tools ≡ false)
                    × ((p.secret_usage_mode ≢ "raw-secret")
                        × (((p.input ≡ true) × (p.output ≡ true) × (p.trace ≡ true))
                            × ((truthy (obj p.sandbox_profile) ≡ true)
                                × ((mode_in p loose_modes ≡ false)
                                    × (uncovered_endpoint server p ≡ false)))))))))
unfolding own_warnings
own_iff server p = append_iff _ _ (warn-not_iff server.enabled _) (
    append_iff _ _ (trust_iff p.trust_tier) (
      append_iff _ _ (warn-not_iff p.attached _) (
        append_iff _ _ (warn_iff (no_texts p.declared_tools) _) (
          append_iff _ _ (different_iff p.secret_usage_mode "raw-secret" _) (
            append_iff _ _ (unsanitized_iff p _) (
              append_iff _ _ (warn-not_iff (truthy (obj p.sandbox_profile)) _) (
                append_iff _ _ (warn_iff (mode_in p loose_modes) _)
                  (warn_iff (uncovered_endpoint server p) _))))))))

reason_iff : (b : Bool) (r : String) → (no_texts (if not b then r ∷ [] else []) ≡ true) ↔ (b ≡ true)
unfolding no_texts
reason_iff true r = (λ h. refl, λ h. refl)
reason_iff false r = (λ h. absurd (false≢true h), λ h. absurd (false≢true h))

pub blocked_iff : (s : Startup) → (no_texts (blocked_by s) ≡ true) ↔ (s.success ≡ true)
unfolding blocked_by
blocked_iff s = reason_iff s.success s.reason

pub health_iff :
    (blocks warnings : List String)
    → (health_of blocks warnings ≡ "safe") ↔ ((no_texts blocks ≡ true) × (no_texts warnings ≡ true))
unfolding health_of no_texts
health_iff [] [] = (λ h. (refl, refl), λ h. refl)
health_iff [] (w ∷ ws) = (
  λ h. absurd (false≢true ((eq_iff "attention_needed" "safe").1 h)),
  λ h. absurd (false≢true h.1),
)
health_iff (b ∷ bs) ws =
    (λ h. absurd (false≢true ((eq_iff "blocked" "safe").1 h)), λ h. absurd (false≢true h.0))
