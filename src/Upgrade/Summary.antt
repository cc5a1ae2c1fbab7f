-- ===== src/Upgrade/Summary.antt =====
-- kernel/upgrade.py: what the plan of an upgrade says of each pack.
use mathlib.Core.Path.{subst}
use context_control_plane.Base.{
  ◌+◌, String, ◌≡◌, refl, ap, sym, ◌∙◌, ◌⊎◌, inl, inr, ◌↔◌, Bool, true, false, not, ◌&&◌, Option,
  List, [], ◌∷◌, ◌==◌, length, arith, false≢true, Bool-cases,
}
use context_control_plane.Python.Error.{ok, ◌>>=◌, >>=-eq-ok, ok_injective}
use context_control_plane.Discovery.{resolve_package_version}
use context_control_plane.Packs.{PackManifest, pack_id}
use context_control_plane.Upgrade.Versions.{satisfies_range}
use context_control_plane.Upgrade.Plan.{
  UpgradePlanItem, UpgradePlan, exposed_ids, missing_capabilities, is_nil, action_of, pack_action,
  pack_actions, count, effective_target, plan_of, build_upgrade_plan,
}
use context_control_plane.Upgrade.Decide.{
  IsProvided, IsSettled, IsProvided-iff, decide-disposition, disposition_of-blocked,
  disposition_of-auto, disposition_of-three, IsSettled-iff,
}

-- What the action of a pack has to say.
pub record IsPlanned (current target : String) (pack : PackManifest) (i : UpgradePlanItem)
    : Type 0 where
  pub item_id : i.item_id ≡ pack_id pack
  pub blocked : (i.disposition ≡ "blocked") ↔ (
      (IsProvided exposed_ids pack.requires_capabilities → ⊥)
      ⊎ (satisfies_range target pack.requires_core ≡ ok false))
  pub auto : (i.disposition ≡ "auto") ↔ (
      IsProvided exposed_ids pack.requires_capabilities
      × (satisfies_range target pack.requires_core ≡ ok true)
      × IsSettled current target pack)
  pub one_of_three :
      (i.disposition ≡ "auto") ⊎ ((i.disposition ≡ "manual") ⊎ (i.disposition ≡ "blocked"))

-- Each pack has its action, in the same place.
abbrev pub ArePlanned : String → String → List PackManifest → List UpgradePlanItem → Type 0
ArePlanned current target [] [] = Unit
ArePlanned current target (p ∷ ps) (i ∷ is) =
    IsPlanned current target p i × ArePlanned current target ps is
ArePlanned current target _ _ = ⊥

-- The two ways to be blocked.
blocked_iff :
    (target : String) (pack : PackManifest) (compatible : Bool)
    → satisfies_range target pack.requires_core ≡ ok compatible
    → ((is_nil (missing_capabilities exposed_ids pack) ≡ false) ⊎ (compatible ≡ false)) ↔ (
        (IsProvided exposed_ids pack.requires_capabilities → ⊥)
        ⊎ (satisfies_range target pack.requires_core ≡ ok false))
blocked_iff target pack compatible h =
    let all = IsProvided-iff pack in
    (
      λ b. elim b [ inl e ↦ inl (λ x. false≢true (sym e ∙ all.1 x)) | inr e ↦ inr (h ∙ ap ok e) ],
      λ b. elim b [
        | inl e ↦ inl (elim (Bool-cases (is_nil (missing_capabilities exposed_ids pack))) [
          | inl f ↦ absurd (e (all.0 f))
          | inr f ↦ f
        ])
        | inr e ↦ inr (ok_injective (sym h ∙ e))
      ],
    )

auto_iff :
    (current target : String) (pack : PackManifest) (compatible : Bool)
    → satisfies_range target pack.requires_core ≡ ok compatible
    → ((is_nil (missing_capabilities exposed_ids pack) ≡ true)
        × (compatible ≡ true)
        × ((not (target == current) && not (is_nil pack.migrations)) ≡ false))
      ↔ (IsProvided exposed_ids pack.requires_capabilities
          × (satisfies_range target pack.requires_core ≡ ok true)
          × IsSettled current target pack)
auto_iff current target pack compatible h =
    let all = IsProvided-iff pack in
    let settled = IsSettled-iff current target pack in
    (
      λ x. (all.0 x.0, h ∙ ap ok x.1, settled.0 x.2),
      λ x. (all.1 x.0, ok_injective (sym h ∙ x.1), settled.1 x.2),
    )

iff_trans : {P Q R : Type 0} → P ↔ Q → Q ↔ R → P ↔ R
iff_trans f g = (λ p. g.0 (f.0 p), λ r. f.1 (g.1 r))

action_of-IsPlanned :
    (current target : String) (pack : PackManifest) (compatible : Bool)
    → satisfies_range target pack.requires_core ≡ ok compatible
    → IsPlanned current target pack (action_of exposed_ids current target pack compatible)
unfolding action_of
action_of-IsPlanned current target pack compatible h =
    let absent = missing_capabilities exposed_ids pack in
    let moves = not (target == current) && not (is_nil pack.migrations) in
    let d = decide-disposition current target pack absent compatible in
    record {
      item_id = refl;
      blocked = rw d (
          iff_trans (disposition_of-blocked (is_nil absent) compatible moves)
            (blocked_iff target pack compatible h));
      auto = rw d (
          iff_trans (disposition_of-auto (is_nil absent) compatible moves)
            (auto_iff current target pack compatible h));
      one_of_three = rw d (disposition_of-three (is_nil absent) compatible moves);
    }

pack_action-IsPlanned :
    (current target : String) (pack : PackManifest) (i : UpgradePlanItem)
    → pack_action exposed_ids current target pack ≡ ok i
    → IsPlanned current target pack i
unfolding pack_action
pack_action-IsPlanned current target pack i h =
    let got =
      >>=-eq-ok (satisfies_range target pack.requires_core)
        (λ c. ok (action_of exposed_ids current target pack c)) h in
    subst (IsPlanned current target pack) (ok_injective got.2)
      (action_of-IsPlanned current target pack got.0 got.1)

pack_actions-ArePlanned :
    (current target : String) (packs : List PackManifest) (is : List UpgradePlanItem)
    → pack_actions exposed_ids current target packs ≡ ok is
    → ArePlanned current target packs is
unfolding pack_actions
pack_actions-ArePlanned current target [] is h =
    subst (ArePlanned current target []) (ok_injective h) tt
pack_actions-ArePlanned current target (p ∷ ps) is h =
    let first =
      >>=-eq-ok (pack_action exposed_ids current target p)
        (λ i. do rest ← pack_actions exposed_ids current target ps; ok (i ∷ rest)) h in
    let rest =
      >>=-eq-ok (pack_actions exposed_ids current target ps) (λ rest. ok (first.0 ∷ rest))
        first.2 in
    subst (ArePlanned current target (p ∷ ps)) (ok_injective rest.2) (
      pack_action-IsPlanned current target p first.0 first.1,
      pack_actions-ArePlanned current target ps rest.0 rest.1,
    )

count_three :
    (current target : String) (packs : List PackManifest) (is : List UpgradePlanItem)
    → ArePlanned current target packs is
    → count "auto" is + (count "manual" is + count "blocked" is) ≡ length packs
unfolding count
count_three current target [] [] h = refl
count_three current target [] (i ∷ is) h = absurd h
count_three current target (p ∷ ps) [] h = absurd h
count_three current target (p ∷ ps) (i ∷ is) h =
    let before = count_three current target ps is h.1 in
    elim h.0.one_of_three [
      | inl e ↦ rw e (omega arith)
      | inr (inl e) ↦ rw e (omega arith)
      | inr (inr e) ↦ rw e (omega arith)
    ]

-- Where a plan is made, it has one action for each pack, in the order of the packs, and its three
-- counts add up to the number of packs. A pack is blocked exactly where the core lacks a capability
-- that it requires or the target version is outside its range; it is automatic exactly where the core
-- has all of them, the target version is in its range, and the version stays or there is nothing to
-- migrate; and there is no other outcome but a manual review.
pub build_upgrade_plan-ArePlanned :
    (installed : Option String) (target : String) (packs : List PackManifest) (plan : UpgradePlan)
    → build_upgrade_plan installed target packs ≡ ok plan
    → ArePlanned plan.current_core_version plan.target_core_version packs plan.actions
      × (plan.summary.auto_migrations + (plan.summary.manual_actions + plan.summary.blocked_items)
          ≡ length packs)
unfolding build_upgrade_plan
build_upgrade_plan-ArePlanned installed target packs plan h =
    let current = resolve_package_version installed in
    let wanted = effective_target current target in
    let got =
      >>=-eq-ok (pack_actions exposed_ids current wanted packs)
        (λ is. ok (plan_of current wanted packs is)) h in
    let planned = pack_actions-ArePlanned current wanted packs got.0 got.1 in
    subst
      (λ p.
        ArePlanned p.current_core_version p.target_core_version packs p.actions
        × (p.summary.auto_migrations + (p.summary.manual_actions + p.summary.blocked_items)
            ≡ length packs))
      (ok_injective got.2)
      (unfold plan_of in (planned, count_three current wanted packs got.0 planned))
