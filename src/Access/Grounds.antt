-- ===== src/Access/Grounds.antt =====
-- A permission has grounds: a policy and a rule that apply and permit.
use calvin_base.Base.{
  ℕ, ◌≡◌, refl, ◌≢◌, ◌⊎◌, inl, inr, Bool, true, Option, none, some, List, [], ◌∷◌, ◌++◌, subst,
  Bool-cases, Option-cases, arith,
}
use calvin_base.Access.{
  Atom, Function, Arguments, Request, TextRules, Decision, permit, Verdict, Rule,
}
use calvin_base.Access.Conditions.{◌>>=◌, applies, rule_decision, condition_value, is_satisfied}
use calvin_base.Access.Permits.{
  Permits, IsSound, conclude-permits, push-IsSound, Shows, round_permits,
}
use calvin_base.Access.Combining.{policy_decision-accepted}
use calvin_base.Access.Policies.{
  Combination, Policy, accepted, decide_rules, policy_decision, decide_policies,
  combined_policy_decision,
}

-- Some element has the property.
pub data Any {A : Type 0} (P : A → Type 0) : List A → Type 0 where
  this : (a : A) (xs : List A) → P a → Any P (a ∷ xs)
  later : (a : A) (xs : List A) → Any P xs → Any P (a ∷ xs)

Permits-Any :
    {A : Type 0} (P : A → Type 0) (applied : A → Option Bool) (decide : A → Option Verdict)
    (xs : List A)
    → ((a : A) (o : List ℕ) → applied a ≡ some true → decide a ≡ some (permit, o) → P a)
    → Permits applied decide xs
    → Any P xs
Permits-Any P applied decide _ f (Permits.this a xs o b d) = Any.this a xs (f a o b d)
Permits-Any P applied decide _ f (Permits.later a xs p) =
    Any.later a xs (Permits-Any P applied decide xs f p)

some_inj : {u v : Verdict} → some u ≡ some v → u ≡ v
some_inj e = cc

module _ (w : TextRules) (request : Request) where
  -- The rule applies, means to permit, and its condition, if it has one, holds.
  abbrev pub IsGround : Rule → Type 0
  IsGround rule =
      (applies w rule.target request ≡ some true)
      × (rule.effect ≡ some permit)
      × ((rule.condition ≡ none)
          ⊎ ((c : Function × Arguments) × (a : Atom) × (rule.condition ≡ some c)
              × (condition_value w request c ≡ some a)
              × (is_satisfied w a ≡ true)))

  -- The policy applies and has such a rule.
  abbrev pub IsGranting : Policy → Type 0
  IsGranting policy =
      (applies w policy.target request ≡ some true)
      × (rules : List Rule) × (policy.rules ≡ some rules)
      × Any IsGround rules

  rule-IsGround :
      (rule : Rule) (o : List ℕ)
      → applies w rule.target request ≡ some true
      → rule_decision w rule request ≡ some (permit, o)
      → IsGround rule
  unfolding rule_decision
  rule-IsGround rule o b d = elim (Option-cases rule.condition) [
    | inl n ↦ (b, ground arith, inl n)
    | inr (c, k) ↦ elim (Option-cases (condition_value w request c)) [
      | inl n ↦ absurd (ground arith)
      | inr (a, v) ↦ elim (Bool-cases (is_satisfied w a)) [
        | inl s ↦ (b, ground arith, inr (c, a, k, v, s))
        | inr n ↦ absurd (ground arith)
      ]
    ]
  ]

  decide_rules_permits :
      (c : Combination) (rules : List Rule) (ds : List Decision) (os o : List ℕ)
      → IsSound c ds os
      → decide_rules w (some c) rules request ds os ≡ some (permit, o)
      → Shows
          (λ rule. applies w rule.target request)
          (λ rule. rule_decision w rule request)
          ds
          rules
  unfolding decide_rules
  decide_rules_permits c [] ds os o s e = inl (conclude-permits c ds os o s (some_inj e))
  decide_rules_permits c (rule ∷ rules) ds os o s e =
      round_permits _ _ c ds rule rules o (applies w rule.target request)
        (rule_decision w rule request) _ _ refl refl (λ r. decide_rules_permits c rules ds os o s r)
        (λ v d n r.
          decide_rules_permits c rules (ds ++ v.0 ∷ []) (os ++ accepted v) o
            (push-IsSound c ds os v s n) r)
        e

  -- Without a combination no rule can decide.
  decide_rules_never :
      (rules : List Rule) (ds : List Decision) (os o : List ℕ)
      → decide_rules w none rules request ds os ≢ some (permit, o)
  unfolding decide_rules
  decide_rules_never [] ds os o e = ground arith
  decide_rules_never (rule ∷ rules) ds os o e = ground (arith, decide_rules_never rules ds os o)

  start-IsSound : (c : Combination) → IsSound c [] []
  start-IsSound c = record { backed = λ e. cc; no_deny = λ k. refl }

  policy_permits :
      (policy : Policy) (k : Option Combination) (rules : List Rule) (o : List ℕ)
      → applies w policy.target request ≡ some true
      → policy.rules ≡ some rules
      → decide_rules w k rules request [] [] ≡ some (permit, o)
      → IsGranting policy
  policy_permits policy none rules o b r e = absurd (decide_rules_never rules [] [] o e)
  policy_permits policy (some c) rules o b r e =
      elim (decide_rules_permits c rules [] [] o (start-IsSound c) e) [
        | inl h ↦ cc
        | inr p ↦ (b, rules, r, Permits-Any IsGround _ _ rules rule-IsGround p)
      ]

  policy_decision_permits :
      (policy : Policy) (o : List ℕ)
      → applies w policy.target request ≡ some true
      → policy_decision w policy request ≡ some (permit, o)
      → IsGranting policy
  unfolding policy_decision
  policy_decision_permits policy o b e = elim (Option-cases policy.rules) [
    | inl n ↦ absurd (ground arith)
    | inr (rules, r) ↦ policy_permits policy policy.rule_combining rules o b r (
        subst
          (λ t.
            (t >>= λ rs. decide_rules w policy.rule_combining rs request [] []) ≡ some (permit, o))
          r e)
  ]

  decide_policies_permits :
      (c : Combination) (policies : List Policy) (ds : List Decision) (os o : List ℕ)
      → IsSound c ds os
      → decide_policies w c policies request ds os ≡ some (permit, o)
      → Shows (λ p. applies w p.target request) (λ p. policy_decision w p request) ds policies
  unfolding decide_policies
  decide_policies_permits c [] ds os o s e = inl (conclude-permits c ds os o s (some_inj e))
  decide_policies_permits c (policy ∷ policies) ds os o s e =
      round_permits _ _ c ds policy policies o (applies w policy.target request)
        (policy_decision w policy request) _ _ refl refl
        (λ r. decide_policies_permits c policies ds os o s r)
        (λ v d n r.
          decide_policies_permits c policies (ds ++ v.0 ∷ []) (os ++ v.1) o
            (subst (λ t. IsSound c (ds ++ v.0 ∷ []) (os ++ t))
              (policy_decision-accepted w request policy v d) (push-IsSound c ds os v s n))
            r)
        e

  -- A request is permitted, also where policies or rules raise exceptions, only if some policy
  -- applies to it and has a rule that applies, means to permit, and whose condition, if it has
  -- one, holds.
  pub combined_policy_decision_permits :
      (c : Combination) (policies : Option (List Policy)) (o : List ℕ)
      → combined_policy_decision w c policies request ≡ (permit, o)
      → (ps : List Policy) × (policies ≡ some ps) × Any IsGranting ps
  unfolding combined_policy_decision
  combined_policy_decision_permits c none o e = absurd (ground arith)
  combined_policy_decision_permits c (some ps) o e =
      elim (Option-cases (decide_policies w c ps request [] [])) [
        | inl n ↦ absurd (ground arith)
        | inr (v, d) ↦
            elim (decide_policies_permits c ps [] [] o (start-IsSound c) (ground arith)) [
              | inl h ↦ cc
              | inr p ↦ (ps, refl, Permits-Any IsGranting _ _ ps policy_decision_permits p)
            ]
      ]
