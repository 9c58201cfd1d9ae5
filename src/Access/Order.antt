-- ===== src/Access/Order.antt =====
-- The decision does not depend on the order of the policies, which are a dictionary.
use calvin_base.Base.{
  ◌≡◌, refl, sym, ap, ◌∙◌, Bool, true, false, ◌||◌, Option, none, some, List, ◌∷◌, subst, arith,
}
use calvin_base.Access.{Request, TextRules, Verdict}
use calvin_base.Access.Conditions.{applies}
use calvin_base.Access.Policies.{
  Combination, permit_overrides, deny_overrides, Policy, is_final, policy_decision,
  combined_policy_decision,
}
use calvin_base.Access.Combining.{combined_policy_decision_lem}
use calvin_base.Access.Verdicts.{
  policy_verdicts, any, is_permit, is_unclear, is_relevant, decision_of, add_verdict,
}

-- The same elements in another order: exchanges of neighbours, one after another.
pub data Reordered {A : Type 0} : List A → List A → Type 0 where
  same : (xs : List A) → Reordered xs xs
  under : (a : A) (xs ys : List A) → Reordered xs ys → Reordered (a ∷ xs) (a ∷ ys)
  exchange : (a b : A) (xs : List A) → Reordered (a ∷ b ∷ xs) (b ∷ a ∷ xs)
  then_by : (xs ys zs : List A) → Reordered xs ys → Reordered ys zs → Reordered xs zs

any-Reordered : (p : Verdict → Bool) {vs us : List Verdict} → Reordered vs us → any p vs ≡ any p us
any-Reordered p (same xs) = refl
any-Reordered p (under a xs ys d) = ap (λ t. p a || t) (any-Reordered p d)
any-Reordered p (exchange a b xs) = ground arith
any-Reordered p (then_by xs ys zs c d) = any-Reordered p c ∙ any-Reordered p d

decision_of-Reordered :
    (c : Combination) {vs us : List Verdict} → Reordered vs us → decision_of c vs ≡ decision_of c us
decision_of-Reordered permit_overrides d = rw (
  any-Reordered (is_final permit_overrides) d,
  any-Reordered is_unclear d,
  any-Reordered is_relevant d,
  any-Reordered is_permit d,
)
decision_of-Reordered deny_overrides d = rw (
  any-Reordered (is_final deny_overrides) d,
  any-Reordered is_unclear d,
  any-Reordered is_relevant d,
)

-- Two lists of verdicts that differ in their order only, or an exception in both.
SameVerdicts : Option (List Verdict) → Option (List Verdict) → Type 0
SameVerdicts none none = Unit {0}
SameVerdicts (some vs) (some us) = Reordered vs us
SameVerdicts _ _ = ⊥

add_verdict-SameVerdicts :
    (b : Option Bool) (verdict : Option Verdict) (r t : Option (List Verdict))
    → SameVerdicts r t
    → SameVerdicts (add_verdict b verdict r) (add_verdict b verdict t)
unfolding SameVerdicts
add_verdict-SameVerdicts none verdict r t s = tt
add_verdict-SameVerdicts (some false) verdict r t s = s
add_verdict-SameVerdicts (some true) none r t s = tt
add_verdict-SameVerdicts (some true) (some v) none none s = tt
add_verdict-SameVerdicts (some true) (some v) none (some us) s = s
add_verdict-SameVerdicts (some true) (some v) (some vs) none s = s
add_verdict-SameVerdicts (some true) (some v) (some vs) (some us) s = under v vs us s

SameVerdicts-refl : (r : Option (List Verdict)) → SameVerdicts r r
unfolding SameVerdicts
SameVerdicts-refl none = tt
SameVerdicts-refl (some vs) = same vs

SameVerdicts-trans :
    (r s t : Option (List Verdict)) → SameVerdicts r s → SameVerdicts s t → SameVerdicts r t
unfolding SameVerdicts
SameVerdicts-trans none none t a b = b
SameVerdicts-trans none (some vs) t a b = absurd a
SameVerdicts-trans (some vs) none t a b = absurd a
SameVerdicts-trans (some vs) (some us) none a b = absurd b
SameVerdicts-trans (some vs) (some us) (some ts) a b = then_by vs us ts a b

add_verdict-exchange :
    (b c : Option Bool) (u v : Option Verdict) (r : Option (List Verdict))
    → SameVerdicts (add_verdict b u (add_verdict c v r)) (add_verdict c v (add_verdict b u r))
unfolding SameVerdicts
add_verdict-exchange none none u v r = tt
add_verdict-exchange none (some false) u v r = tt
add_verdict-exchange none (some true) u none r = tt
add_verdict-exchange none (some true) u (some v) r = tt
add_verdict-exchange (some false) c u v r = SameVerdicts-refl (add_verdict c v r)
add_verdict-exchange (some true) none none v r = tt
add_verdict-exchange (some true) none (some u) v r = tt
add_verdict-exchange (some true) (some false) u v r =
    SameVerdicts-refl (add_verdict (some true) u r)
add_verdict-exchange (some true) (some true) none none r = tt
add_verdict-exchange (some true) (some true) none (some v) r = tt
add_verdict-exchange (some true) (some true) (some u) none r = tt
add_verdict-exchange (some true) (some true) (some u) (some v) none = tt
add_verdict-exchange (some true) (some true) (some u) (some v) (some vs) = exchange u v vs

module _ (w : TextRules) (request : Request) where
  policy_verdicts-Reordered :
      {ps qs : List Policy}
      → Reordered ps qs
      → SameVerdicts (policy_verdicts w request ps) (policy_verdicts w request qs)
  policy_verdicts-Reordered (same ps) = SameVerdicts-refl (policy_verdicts w request ps)
  policy_verdicts-Reordered (under p ps qs d) =
      add_verdict-SameVerdicts (applies w p.target request) (policy_decision w p request) _ _
        (policy_verdicts-Reordered d)
  policy_verdicts-Reordered (exchange p q ps) =
      add_verdict-exchange (applies w p.target request) (applies w q.target request)
        (policy_decision w p request) (policy_decision w q request) (policy_verdicts w request ps)
  policy_verdicts-Reordered (then_by ps qs rs c d) =
      SameVerdicts-trans _ _ _ (policy_verdicts-Reordered c) (policy_verdicts-Reordered d)

  verdicts_of :
      (c : Combination) (qs : List Policy) (vs : List Verdict) (r : Option (List Verdict))
      → policy_verdicts w request qs ≡ r
      → SameVerdicts (some vs) r
      → (combined_policy_decision w c (some qs) request).0 ≡ decision_of c vs
  unfolding SameVerdicts
  verdicts_of c qs vs none e s = absurd s
  verdicts_of c qs vs (some us) e s =
      ap (λ t. t.0) (combined_policy_decision_lem w request c qs us e)
      ∙ sym (decision_of-Reordered c s)

  -- Where no policy raises an exception, the decision is the same in whatever order the policies
  -- are looked at.
  pub combined_policy_decision-Reordered :
      (c : Combination) (ps qs : List Policy) (vs : List Verdict)
      → policy_verdicts w request ps ≡ some vs
      → Reordered ps qs
      → (combined_policy_decision w c (some qs) request).0
        ≡ (combined_policy_decision w c (some ps) request).0
  combined_policy_decision-Reordered c ps qs vs e d =
      verdicts_of c qs vs (policy_verdicts w request qs) refl
        (subst (λ t. SameVerdicts t (policy_verdicts w request qs)) e (policy_verdicts-Reordered d))
      ∙ sym (ap (λ t. t.0) (combined_policy_decision_lem w request c ps vs e))
