-- ===== src/Access/Policies.antt =====
-- PolicyDecisionPoint: policy_decision, combined_policy_decision and _authorize_cont. `none` is an
-- exception.
use calvin_base.Base.{
  ℕ, Bool, true, false, ◌&&◌, ◌||◌, Option, none, some, List, [], ◌∷◌, ◌++◌, is_empty,
  if◌then◌else◌, Dict,
}
use calvin_base.Access.{
  Value, Request, TextRules, Decision, permit, deny, indeterminate, not_applicable, Verdict, Rule,
}
use calvin_base.Access.Conditions.{◌>>=◌, applies, rule_decision}

pub data Combination : Type 0 where
  permit_overrides deny_overrides : Combination

pub record Policy : Type 0 where
  pub target : Option (Dict (Dict Value))
  pub rule_combining : Option Combination
  pub rules : Option (List Rule)

-- A decision after which no further rule, or policy, is looked at.
abbrev pub is_final : Combination → Verdict → Bool
is_final permit_overrides (permit, obligations) = is_empty obligations
is_final deny_overrides (deny, obligations) = true
is_final _ _ = false

abbrev pub is_indeterminate : Decision → Bool
is_indeterminate indeterminate = true
is_indeterminate _ = false

abbrev pub is_not_applicable : Decision → Bool
is_not_applicable not_applicable = true
is_not_applicable _ = false

abbrev pub some_indeterminate : List Decision → Bool
some_indeterminate [] = false
some_indeterminate (d ∷ ds) = is_indeterminate d || some_indeterminate ds

abbrev pub all_not_applicable : List Decision → Bool
all_not_applicable [] = true
all_not_applicable (d ∷ ds) = is_not_applicable d && all_not_applicable ds

-- Obligations are only accepted if the decision is "permit".
abbrev pub accepted : Verdict → List ℕ
accepted (permit, obligations) = obligations
accepted _ = []

-- What the two functions return after their loops.
unfoldable pub conclude : Combination → List Decision → List ℕ → Verdict
conclude combination decisions obligations =
    if some_indeterminate decisions
    then (indeterminate, [])
    else if all_not_applicable decisions
    then (not_applicable, [])
    else elim combination [
      | deny_overrides ↦ (permit, obligations)
      | permit_overrides ↦ if is_empty obligations then (deny, []) else (permit, obligations)
    ]

module _ (w : TextRules) where
  -- The loop over the rules, with the decisions and obligations so far.
  unfoldable pub decide_rules :
      Option Combination → List Rule → Request → List Decision → List ℕ → Option Verdict
  unfolding conclude
  decide_rules combining [] request decisions obligations = elim combining [
    | some combination ↦ some (conclude combination decisions obligations)
    | none ↦
        if some_indeterminate decisions
        then some (indeterminate, [])
        else if all_not_applicable decisions
        then some (not_applicable, [])
        else none
  ]
  decide_rules combining (rule ∷ rules) request decisions obligations =
      let skip = decide_rules combining rules request decisions obligations in
      let go_on = λ (v : Verdict).
        decide_rules combining rules request (decisions ++ v.0 ∷ []) (obligations ++ accepted v) in
      applies w rule.target request >>= λ b.
      if b
      then (rule_decision w rule request >>= λ v.
          combining >>= λ combination. if is_final combination v then some (v.0, []) else go_on v)
      else skip

  unfoldable pub policy_decision : Policy → Request → Option Verdict
  unfolding decide_rules
  policy_decision policy request =
      policy.rules >>= λ rules. decide_rules policy.rule_combining rules request [] []

  -- The loop over the policies.
  unfoldable pub decide_policies :
      Combination → List Policy → Request → List Decision → List ℕ → Option Verdict
  unfolding policy_decision conclude
  decide_policies combination [] request decisions obligations =
      some (conclude combination decisions obligations)
  decide_policies combination (policy ∷ policies) request decisions obligations =
      let skip = decide_policies combination policies request decisions obligations in
      let go_on = λ (v : Verdict).
        decide_policies combination policies request (decisions ++ v.0 ∷ []) (obligations ++ v.1) in
      applies w policy.target request >>= λ b.
      if b
      then (policy_decision policy request >>= λ v.
          if is_final combination v then some (v.0, []) else go_on v)
      else skip

  -- `policies` is `none` where the policy retrieval point raises an exception.
  unfoldable pub combined_policy_decision : Combination → Option (List Policy) → Request → Verdict
  unfolding decide_policies
  combined_policy_decision combination policies request =
      elim (policies >>= λ ps. decide_policies combination ps request [] []) [
        | none ↦ (indeterminate, [])
        | some v ↦ v
      ]
