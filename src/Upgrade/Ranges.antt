-- ===== src/Upgrade/Ranges.antt =====
-- kernel/upgrade.py: comparing is an order, and ranges have no gaps.
use context_control_plane.Base.{
  ◌+◌, ◌≡◌, refl, ap, sym, ◌∙◌, Bool, true, List, [], ◌∷◌, length, arith, String,
}
use context_control_plane.Python.Value.{ℤ}
use context_control_plane.Python.Error.{Result, ok, ◌>>=◌, >>=-eq-ok, ok_injective}
use context_control_plane.Python.Text.{strip}
use context_control_plane.Upgrade.Versions.{
  padded, Comparison, less, equal, greater, compare_padded, compare_tuples, compare_versions,
  version_tuple, Operator, at_least, at_most, above, below, exactly, accepts, accepted, token_holds,
  tokens_hold, satisfies_range, drop, split,
}
use context_control_plane.Upgrade.Order.{tuple_lt-IsWeakOrder, compare_tuples-padded}

abbrev pub flipped : Comparison → Comparison
flipped less = greater
flipped equal = equal
flipped greater = less

-- The comparison of the ends, from those of two steps that do not fall.
abbrev pub both : Comparison → Comparison → Comparison
both equal equal = equal
both _ _ = less

compare_padded_flip : (a b : List ℤ) → compare_padded b a ≡ flipped (compare_padded a b)
unfolding compare_padded
compare_padded_flip a b = ground (arith, tuple_lt-IsWeakOrder.asymm a b)

compare_padded_trans :
    (a b c : List ℤ)
    → accepts at_most (compare_padded a b) ≡ true
    → accepts at_most (compare_padded b c) ≡ true
    → compare_padded a c ≡ both (compare_padded a b) (compare_padded b c)
unfolding compare_padded accepts
compare_padded_trans a b c h k =
    let w = tuple_lt-IsWeakOrder in
    ground (
      arith,
      w.asymm a b,
      w.asymm b c,
      w.asymm a c,
      w.weak a b c,
      w.weak b a c,
      w.weak b c a,
      w.weak a c b,
      w.weak c a b,
      w.weak c b a,
    )

compare_tuples_flip : (a b : List ℤ) → compare_tuples b a ≡ flipped (compare_tuples a b)
compare_tuples_flip a b =
    let n = length a + length b in
    compare_tuples-padded b a n (omega arith) (omega arith)
    ∙ compare_padded_flip (padded a n) (padded b n)
    ∙ ap flipped (sym (compare_tuples-padded a b n (omega arith) (omega arith)))

compare_tuples_trans :
    (a b c : List ℤ)
    → accepts at_most (compare_tuples a b) ≡ true
    → accepts at_most (compare_tuples b c) ≡ true
    → compare_tuples a c ≡ both (compare_tuples a b) (compare_tuples b c)
compare_tuples_trans a b c h k =
    let n = length a + (length b + length c) in
    let ab = compare_tuples-padded a b n (omega arith) (omega arith) in
    let bc = compare_tuples-padded b c n (omega arith) (omega arith) in
    let ac = compare_tuples-padded a c n (omega arith) (omega arith) in
    ac
    ∙ compare_padded_trans (padded a n) (padded b n) (padded c n)
        (sym (ap (accepts at_most) ab) ∙ h) (sym (ap (accepts at_most) bc) ∙ k)
    ∙ sym (ap (λ x. both x (compare_padded (padded b n) (padded c n))) ab)
    ∙ sym (ap (both (compare_tuples a b)) bc)

accepts_between :
    (op : Operator) (u v w b : List ℤ)
    → accepts at_most (compare_tuples u v) ≡ true
    → accepts at_most (compare_tuples v w) ≡ true
    → accepts op (compare_tuples u b) ≡ true
    → accepts op (compare_tuples w b) ≡ true
    → accepts op (compare_tuples v b) ≡ true
unfolding accepts
accepts_between op u v w b h k p q = ground (
  arith,
  compare_tuples_trans u v b h,
  compare_tuples_trans v w b k,
  compare_tuples_trans b u v,
  compare_tuples_flip u b,
  compare_tuples_flip v b,
  compare_tuples_flip w b,
)

-- What a comparison of two texts has gone through.
compared :
    (left right : String) (c : Comparison)
    → compare_versions left right ≡ ok c
    → (l r : List ℤ) × (version_tuple left ≡ ok l)
      × (version_tuple right ≡ ok r)
      × (compare_tuples l r ≡ c)
unfolding compare_versions
compared left right c h =
    let l =
      >>=-eq-ok (version_tuple left) (λ l. do r ← version_tuple right; ok (compare_tuples l r)) h in
    let r = >>=-eq-ok (version_tuple right) (λ r. ok (compare_tuples l.0 r)) l.2 in
    (l.0, r.0, l.1, r.1, ok_injective r.2)

-- The two texts are versions, with the tuples that are given.
compare_versions_tuples :
    (left right : String) (l r : List ℤ)
    → version_tuple left ≡ ok l
    → version_tuple right ≡ ok r
    → compare_versions left right ≡ ok (compare_tuples l r)
unfolding compare_versions
compare_versions_tuples left right l r h k = rw (h, k) refl

-- The comparison of versions is an order: where one version is at most a second and that at most a
-- third, the first is at most the third, and equal to it only where all three are equal; and a
-- comparison turned round has the opposite result.
pub compare_versions-order :
    (u v w : String) (c d : Comparison)
    → compare_versions u v ≡ ok c
    → compare_versions v w ≡ ok d
    → accepts at_most c ≡ true
    → accepts at_most d ≡ true
    → (compare_versions v u ≡ ok (flipped c)) × (compare_versions u w ≡ ok (both c d))
compare_versions-order u v w c d h k p q =
    let uv = compared u v c h in
    let vw = compared v w d k in
    let same = ok_injective (sym uv.3 ∙ vw.2) in
    let vw_same = ap (λ t. compare_tuples t vw.1) same ∙ vw.4 in
    (
      compare_versions_tuples v u uv.1 uv.0 uv.3 uv.2
          ∙ ap ok (compare_tuples_flip uv.0 uv.1 ∙ ap flipped uv.4),
      compare_versions_tuples u w uv.0 vw.1 uv.2 vw.3
          ∙ ap ok (
              compare_tuples_trans uv.0 uv.1 vw.1 (ap (accepts at_most) uv.4 ∙ p)
                (ap (accepts at_most) vw_same ∙ q)
              ∙ ap (λ x. both x (compare_tuples uv.1 vw.1)) uv.4
              ∙ ap (both c) vw_same),
    )

-- Tokens that all hold: the first does, and the others.
tokens_both :
    (version t : String) (ts : List String)
    → tokens_hold version (t ∷ ts) ≡ ok true
    → (token_holds version t ≡ ok true) × (tokens_hold version ts ≡ ok true)
unfolding tokens_hold
tokens_both version t ts h = ground arith

-- Between two versions, given by their tuples.
module _ (u v w : String) (tu tv tw : List ℤ) (hu : version_tuple u ≡ ok tu)
    (hv : version_tuple v ≡ ok tv) (hw : version_tuple w ≡ ok tw)
    (uv : accepts at_most (compare_tuples tu tv) ≡ true)
    (vw : accepts at_most (compare_tuples tv tw) ≡ true) where
  -- A test that both ends pass is passed by the version in between.
  abbrev Fills : (String → Result Bool) → Type 0
  Fills test = test u ≡ ok true → test w ≡ ok true → test v ≡ ok true

  accepted-tuples :
      (op : Operator) (version bound : String) (t : List ℤ)
      → version_tuple version ≡ ok t
      → accepted op version bound ≡ ok true
      → (b : List ℤ) × (version_tuple bound ≡ ok b) × (accepts op (compare_tuples t b) ≡ true)
  unfolding accepted
  accepted-tuples op version bound t e h =
      let got = >>=-eq-ok (compare_versions version bound) (λ c. ok (accepts op c)) h in
      let tuples = compared version bound got.0 got.1 in
      (
        tuples.1,
        tuples.3,
        ap (λ l. accepts op (compare_tuples l tuples.1)) (ok_injective (sym e ∙ tuples.2))
            ∙ ap (accepts op) tuples.4
            ∙ ok_injective got.2,
      )

  accepted-Fills : (op : Operator) (bound : String) → Fills (λ x. accepted op x bound)
  unfolding accepted
  accepted-Fills op bound h k =
      let a = accepted-tuples op u bound tu hu h in
      let b = accepted-tuples op w bound tw hw k in
      let upper = ap (λ t. accepts op (compare_tuples tw t)) (ok_injective (sym a.1 ∙ b.1)) ∙ b.2 in
      rw (compare_versions_tuples v bound tv a.0 hv a.1)
        (ap ok (accepts_between op tu tv tw a.0 uv vw a.2 upper))

  token_holds-Fills : (token : String) → Fills (λ x. token_holds x token)
  unfolding token_holds
  token_holds-Fills token h k = ground (
    arith,
    accepted-Fills at_least (drop 2 token),
    accepted-Fills at_most (drop 2 token),
    accepted-Fills above (drop 1 token),
    accepted-Fills below (drop 1 token),
    accepted-Fills exactly (drop 2 token),
  )

  tokens_hold-Fills : (tokens : List String) → Fills (λ x. tokens_hold x tokens)
  unfolding tokens_hold
  tokens_hold-Fills [] h k = refl
  tokens_hold-Fills (t ∷ ts) h k =
      let a = tokens_both u t ts h in
      let b = tokens_both w t ts k in
      rw (token_holds-Fills t a.0 b.0) (tokens_hold-Fills ts a.1 b.1)

-- A range has no gaps: a version between two that satisfy it satisfies it too.
pub satisfies_range-between :
    (u v w requirement : String) (c d : Comparison)
    → compare_versions u v ≡ ok c
    → compare_versions v w ≡ ok d
    → accepts at_most c ≡ true
    → accepts at_most d ≡ true
    → satisfies_range u requirement ≡ ok true
    → satisfies_range w requirement ≡ ok true
    → satisfies_range v requirement ≡ ok true
unfolding satisfies_range
satisfies_range-between u v w requirement c d h k p q l m =
    let uv = compared u v c h in
    let vw = compared v w d k in
    let same = ok_injective (sym uv.3 ∙ vw.2) in
    let fills =
      tokens_hold-Fills u v w uv.0 uv.1 vw.1 uv.2 uv.3 vw.3 (ap (accepts at_most) uv.4 ∙ p)
        (ap (λ t. accepts at_most (compare_tuples t vw.1)) same ∙ ap (accepts at_most) vw.4 ∙ q) in
    ground (arith, fills (split (strip requirement)))
