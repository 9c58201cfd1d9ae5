-- ===== src/Access/Combining.antt =====
-- How decisions are combined, whatever the order in which rules and policies are looked at.
use calvin_base.Base.{
  ℕ, ◌≡◌, refl, sym, ap, ◌∙◌, inl, inr, Bool, true, false, Option, none, some, List, [], ◌∷◌, ◌++◌,
  if◌then◌else◌, subst, Bool-cases, append-nil, arith,
}
use calvin_base.Access.{
  Request, TextRules, Decision, permit, deny, indeterminate, not_applicable, Verdict, Rule,
}
use calvin_base.Access.Conditions.{◌>>=◌, applies, rule_decision}
use calvin_base.Access.Policies.{
  Combination, Policy, is_final, accepted, conclude, decide_rules, policy_decision, decide_policies,
  combined_policy_decision,
}
use calvin_base.Access.Verdicts.{
  decision_of, obligations_of, add_verdict, is_final-override, loop_result, loop_result-cons,
  loop_result-nil, some_inj, rule_verdicts, policy_verdicts,
}

-- One round of either loop.
abbrev pub round :
    Combination
    → Option Bool
    → Option Verdict
    → Option Verdict
    → (Verdict → Option Verdict)
    → Option Verdict
round c b verdict skip go_on = b >>= λ applied.
    if applied then (verdict >>= λ v. if is_final c v then some (v.0, []) else go_on v) else skip

module _ (c : Combination) (ds : List Decision) (os : List ℕ) (skip : Option Verdict)
    (go_on : Verdict → Option Verdict) where
  final_lem :
      (v : Verdict) (us : List Verdict)
      → is_final c v ≡ true
      → ◌≡◌ {A = Option Verdict} (some (v.0, [])) (some (loop_result c ds os (v ∷ us)))
  final_lem v us f = rw f (ap (λ d. some (d, [])) (is_final-override c v f))

  round_lem :
      (b : Option Bool) (verdict : Option Verdict) (rest : Option (List Verdict))
      (vs : List Verdict)
      → add_verdict b verdict rest ≡ some vs
      → ((us : List Verdict) → rest ≡ some us → skip ≡ some (loop_result c ds os us))
      → ((v : Verdict) (us : List Verdict)
          → verdict ≡ some v
          → rest ≡ some us
          → go_on v ≡ some (loop_result c (ds ++ v.0 ∷ []) (os ++ accepted v) us))
      → round c b verdict skip go_on ≡ some (loop_result c ds os vs)
  round_lem none verdict rest vs e s g = cc
  round_lem (some false) verdict rest vs e s g = s vs e
  round_lem (some true) none rest vs e s g = cc
  round_lem (some true) (some v) none vs e s g = cc
  round_lem (some true) (some v) (some us) vs e s g =
      subst (λ zs. round c (some true) (some v) skip go_on ≡ some (loop_result c ds os zs))
        (some_inj (v ∷ us) vs e)
        (elim (Bool-cases (is_final c v)) [
          | inl f ↦
              subst
                (λ t. (if t then some (v.0, []) else go_on v) ≡ some (loop_result c ds os (v ∷ us)))
                (sym f) (final_lem v us f)
          | inr n ↦
              subst
                (λ t. (if t then some (v.0, []) else go_on v) ≡ some (loop_result c ds os (v ∷ us)))
                (sym n) (g v us refl refl ∙ ap some (loop_result-cons c ds os v us n))
        ])

-- Only a permit comes with obligations.
abbrev IsAccepted : Option Verdict → Type 0
IsAccepted none = Unit {0}
IsAccepted (some v) = accepted v ≡ v.1

conclude-IsAccepted :
    (c : Combination) (ds : List Decision) (os : List ℕ) → IsAccepted (some (conclude c ds os))
unfolding conclude
conclude-IsAccepted c ds os = ground arith

bind-IsAccepted :
    {A : Type 0} (f : A → Option Verdict) (o : Option A)
    → ((a : A) → IsAccepted (f a))
    → IsAccepted (o >>= f)
bind-IsAccepted f none h = tt
bind-IsAccepted f (some a) h = h a

round-IsAccepted :
    (c : Combination) (b : Option Bool) (verdict skip : Option Verdict)
    (go_on : Verdict → Option Verdict)
    → IsAccepted skip
    → ((v : Verdict) → IsAccepted (go_on v))
    → IsAccepted (round c b verdict skip go_on)
round-IsAccepted c none verdict skip go_on s g = tt
round-IsAccepted c (some false) verdict skip go_on s g = s
round-IsAccepted c (some true) none skip go_on s g = tt
round-IsAccepted c (some true) (some v) skip go_on s g = elim (Bool-cases (is_final c v)) [
  | inl f ↦ rw f (stopped v.0)
  | inr n ↦ rw n (g v)
]
  where
    stopped : (d : Decision) → accepted (d, []) ≡ []
    stopped permit = refl
    stopped deny = refl
    stopped indeterminate = refl
    stopped not_applicable = refl

module _ (w : TextRules) (request : Request) where
  decide_rules-IsAccepted :
      (k : Option Combination) (rules : List Rule) (ds : List Decision) (os : List ℕ)
      → IsAccepted (decide_rules w k rules request ds os)
  unfolding decide_rules
  decide_rules-IsAccepted none [] ds os = ground arith
  decide_rules-IsAccepted (some c) [] ds os = conclude-IsAccepted c ds os
  decide_rules-IsAccepted (some c) (rule ∷ rules) ds os =
      round-IsAccepted c (applies w rule.target request) (rule_decision w rule request) _ _
        (decide_rules-IsAccepted (some c) rules ds os)
        (λ v. decide_rules-IsAccepted (some c) rules _ _)
  decide_rules-IsAccepted none (rule ∷ rules) ds os =
      ground (arith, decide_rules-IsAccepted none rules ds os)

  pub policy_decision-accepted :
      (policy : Policy) (v : Verdict) → policy_decision w policy request ≡ some v → accepted v ≡ v.1
  unfolding policy_decision
  policy_decision-accepted policy v d = subst IsAccepted d (
      bind-IsAccepted _ policy.rules
        (λ rules. decide_rules-IsAccepted policy.rule_combining rules [] []))

module _ (w : TextRules) (request : Request) (c : Combination) where
  decide_rules_lem :
      (rules : List Rule) (ds : List Decision) (os : List ℕ) (vs : List Verdict)
      → rule_verdicts w request rules ≡ some vs
      → decide_rules w (some c) rules request ds os ≡ some (loop_result c ds os vs)
  unfolding decide_rules
  decide_rules_lem [] ds os [] e =
      λ i. some (conclude c (sym (append-nil ds) i) (sym (append-nil os) i))
  decide_rules_lem [] ds os (v ∷ vs) e = absurd (ground arith)
  decide_rules_lem (rule ∷ rules) ds os vs e =
      round_lem c ds os _ _ (applies w rule.target request) (rule_decision w rule request)
        (rule_verdicts w request rules) vs e (λ us r. decide_rules_lem rules ds os us r)
        (λ v us d r. decide_rules_lem rules (ds ++ v.0 ∷ []) (os ++ accepted v) us r)

  -- Without exceptions, the decision of a policy is that of the verdicts of its rules that apply:
  -- a final one (a permit without obligations, or a deny, as the policy combines) decides alone;
  -- then an indeterminate one; where none is applicable, not_applicable; and else permit, which
  -- needs a permit with obligations where permits override, with the obligations of all permits.
  pub policy_decision_lem :
      (policy : Policy) (rules : List Rule) (vs : List Verdict)
      → policy.rules ≡ some rules
      → policy.rule_combining ≡ some c
      → rule_verdicts w request rules ≡ some vs
      → policy_decision w policy request ≡ some (decision_of c vs, obligations_of c vs)
  unfolding policy_decision
  policy_decision_lem policy rules vs r k e =
      rw (r, k) (decide_rules_lem rules [] [] vs e ∙ ap some (loop_result-nil c vs))

  decide_policies_lem :
      (policies : List Policy) (ds : List Decision) (os : List ℕ) (vs : List Verdict)
      → policy_verdicts w request policies ≡ some vs
      → decide_policies w c policies request ds os ≡ some (loop_result c ds os vs)
  unfolding decide_policies
  decide_policies_lem [] ds os [] e =
      λ i. some (conclude c (sym (append-nil ds) i) (sym (append-nil os) i))
  decide_policies_lem [] ds os (v ∷ vs) e = absurd (ground arith)
  decide_policies_lem (policy ∷ policies) ds os vs e =
      round_lem c ds os _ _ (applies w policy.target request) (policy_decision w policy request)
        (policy_verdicts w request policies) vs e (λ us r. decide_policies_lem policies ds os us r)
        (λ v us d r.
          subst
            (λ o.
              decide_policies w c policies request (ds ++ v.0 ∷ []) (os ++ o)
              ≡ some (loop_result c (ds ++ v.0 ∷ []) (os ++ accepted v) us))
            (policy_decision-accepted w request policy v d)
            (decide_policies_lem policies (ds ++ v.0 ∷ []) (os ++ accepted v) us r))

  -- Without exceptions, the decision over the policies is that of the verdicts of those that apply:
  -- a final one (a permit without obligations, or a deny, as they are combined) decides alone; then
  -- an indeterminate one; where none is applicable, not_applicable; and else permit, which needs a
  -- permit with obligations where permits override, with the obligations of all permits.
  pub combined_policy_decision_lem :
      (policies : List Policy) (vs : List Verdict)
      → policy_verdicts w request policies ≡ some vs
      → combined_policy_decision w c (some policies) request
        ≡ (decision_of c vs, obligations_of c vs)
  unfolding combined_policy_decision
  combined_policy_decision_lem policies vs e =
      rw (decide_policies_lem policies [] [] vs e, combined_policy_decision) (loop_result-nil c vs)
