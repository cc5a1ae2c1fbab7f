-- ===== src/Upgrade/Decide.antt =====
-- kernel/upgrade.py: the disposition of a pack.
use context_control_plane.Base.{
  String, ◌≡◌, refl, sym, ◌∙◌, ◌⊎◌, inl, inr, ◌↔◌, Bool, true, false, not, ◌&&◌, List, [], ◌∷◌,
  ◌==◌, contains, arith, false≢true, Bool-cases, eq_iff,
}
use context_control_plane.Python.Text.Order.{text_lt}
use context_control_plane.Sorting.{All, sort, insert}
use context_control_plane.Packs.{PackManifest}
use context_control_plane.Upgrade.Plan.{exposed_ids, missing, missing_capabilities, is_nil, decide}

-- The core exposes every capability that the pack requires.
abbrev pub IsProvided : List String → List String → Type 0
IsProvided exposed required = All (λ c. contains exposed c ≡ true) required

-- No step to another version, or nothing to migrate.
abbrev pub IsSettled : String → String → PackManifest → Type 0
IsSettled current target pack = (target ≡ current) ⊎ (pack.migrations ≡ [])

is_nil-sort : (xs : List String) → is_nil (sort text_lt xs) ≡ is_nil xs
unfolding is_nil sort
is_nil-sort [] = refl
is_nil-sort (x ∷ xs) = is_nil-insert x (sort text_lt xs)
  where
    is_nil-insert : (x : String) (xs : List String) → is_nil (insert text_lt x xs) ≡ false
    is_nil-insert x [] = refl
    is_nil-insert x (y ∷ ys) = ground arith

missing-IsProvided :
    (exposed cs : List String) → (is_nil (missing exposed cs) ≡ true) ↔ IsProvided exposed cs
unfolding is_nil missing
missing-IsProvided exposed [] = (λ h. tt, λ h. refl)
missing-IsProvided exposed (c ∷ cs) = elim (Bool-cases (contains exposed c)) [
  | inl e ↦
      rw e let rest = missing-IsProvided exposed cs in (λ h. (refl, rest.0 h), λ h. rest.1 h.1)
  | inr e ↦ rw e (λ h. absurd (false≢true h), λ h. absurd (false≢true h.0))
]

pub IsProvided-iff :
    (pack : PackManifest)
    → (is_nil (missing_capabilities exposed_ids pack) ≡ true)
      ↔ IsProvided exposed_ids pack.requires_capabilities
unfolding missing_capabilities
IsProvided-iff pack =
    let same = is_nil-sort (missing exposed_ids pack.requires_capabilities) in
    let all = missing-IsProvided exposed_ids pack.requires_capabilities in
    (λ h. all.0 (sym same ∙ h), λ x. same ∙ all.1 x)

pub disposition_of : Bool → Bool → Bool → String
disposition_of false compatible moves = "blocked"
disposition_of true false moves = "blocked"
disposition_of true true true = "manual"
disposition_of true true false = "auto"

pub decide-disposition :
    (current target : String) (pack : PackManifest) (absent : List String) (compatible : Bool)
    → (decide current target pack absent compatible).disposition
      ≡ disposition_of
          (is_nil absent)
          compatible
          (not (target == current) && not (is_nil pack.migrations))
unfolding decide disposition_of
decide-disposition current target pack absent compatible = ground arith

pub disposition_of-blocked :
    (a c m : Bool) → (disposition_of a c m ≡ "blocked") ↔ ((a ≡ false) ⊎ (c ≡ false))
unfolding disposition_of
disposition_of-blocked false c m = (λ h. inl refl, λ h. refl)
disposition_of-blocked true false m = (λ h. inr refl, λ h. refl)
disposition_of-blocked true true true = (
  λ h. absurd (false≢true ((eq_iff "manual" "blocked").1 h)),
  λ h. absurd (elim h [ inl e ↦ false≢true (sym e) | inr e ↦ false≢true (sym e) ]),
)
disposition_of-blocked true true false = (
  λ h. absurd (false≢true ((eq_iff "auto" "blocked").1 h)),
  λ h. absurd (elim h [ inl e ↦ false≢true (sym e) | inr e ↦ false≢true (sym e) ]),
)

pub disposition_of-auto :
    (a c m : Bool) → (disposition_of a c m ≡ "auto") ↔ ((a ≡ true) × (c ≡ true) × (m ≡ false))
unfolding disposition_of
disposition_of-auto false c m =
    (λ h. absurd (false≢true ((eq_iff "blocked" "auto").1 h)), λ h. absurd (false≢true h.0))
disposition_of-auto true false m =
    (λ h. absurd (false≢true ((eq_iff "blocked" "auto").1 h)), λ h. absurd (false≢true h.1))
disposition_of-auto true true true =
    (λ h. absurd (false≢true ((eq_iff "manual" "auto").1 h)), λ h. absurd (false≢true (sym h.2)))
disposition_of-auto true true false = (λ h. (refl, refl, refl), λ h. refl)

pub disposition_of-three :
    (a c m : Bool)
    → (disposition_of a c m ≡ "auto")
      ⊎ ((disposition_of a c m ≡ "manual") ⊎ (disposition_of a c m ≡ "blocked"))
unfolding disposition_of
disposition_of-three false c m = inr (inr refl)
disposition_of-three true false m = inr (inr refl)
disposition_of-three true true true = inr (inl refl)
disposition_of-three true true false = inl refl

is_nil_iff : {A : Type 0} (xs : List A) → (is_nil xs ≡ true) ↔ (xs ≡ [])
unfolding is_nil
is_nil_iff [] = (λ h. refl, λ h. refl)
is_nil_iff (x ∷ xs) = (λ h. absurd (false≢true h), λ h. cc)

pub IsSettled-iff :
    (current target : String) (pack : PackManifest)
    → ((not (target == current) && not (is_nil pack.migrations)) ≡ false)
      ↔ IsSettled current target pack
IsSettled-iff current target pack =
    let same = eq_iff target current in
    let empty = is_nil_iff pack.migrations in
    elim (Bool-cases (target == current)) [
      | inl e ↦ (λ h. inl (same.0 e), λ h. rw e refl)
      | inr e ↦ elim (Bool-cases (is_nil pack.migrations)) [
        | inl f ↦ (λ h. inr (empty.0 f), λ h. rw (e, f) refl)
        | inr f ↦ (
          λ h. absurd (false≢true (sym h ∙ rw (e, f) refl)),
          λ h. absurd (elim h [
            | inl x ↦ false≢true (sym e ∙ same.1 x)
            | inr x ↦ false≢true (sym f ∙ empty.1 x)
          ]),
        )
      ]
    ]
