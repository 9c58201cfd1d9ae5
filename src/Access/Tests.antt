-- ===== src/Access/Tests.antt =====
-- A request, policies and rules.
use calvin_base.Base.{
  ℕ, ◌+◌, ◌%◌, ◌-◌, ◌≡◌, refl, true, false, Option, none, some, List, [], ◌∷◌, ltb, leb, ◌==◌,
  if◌then◌else◌, Dict, arith,
}
use calvin_base.Access.{
  Atom, text, number, truth, nothing, Value, single, several, Request, TextRules, Function, equal,
  and, Arguments, end, next, value, call, permit, deny, Rule,
}
use calvin_base.Access.Conditions.{target_matches, evaluate_function, rule_decision}
use calvin_base.Access.Policies.{
  permit_overrides, deny_overrides, Policy, policy_decision, combined_policy_decision,
}
use calvin_base.Access.Combining.{policy_decision_lem, combined_policy_decision_lem}
use calvin_base.Access.Verdicts.{rule_verdicts, policy_verdicts}
use calvin_base.Access.Grounds.{Any, IsGranting, combined_policy_decision_permits}
use calvin_base.Access.Order.{exchange, combined_policy_decision-Reordered}
use calvin_base.Access.Nested.{rule_decision_nested}
use calvin_base.Access.Search.{
  subject, action, requires, without_forbidden, authorize_node, runtime_search, authorization_check,
}
use calvin_base.Access.Search.Answers.{Answer, authorization_check_lem, runtime_search_lem}

-- Text 100 is "attr:subject:..." with the attribute 3.
abbrev str : Atom → ℕ
str (text t) = t
str (number n) = n + 1000
str (truth b) = if b then 2000 else 2001
str nothing = 2002

abbrev path_of : ℕ → Option (List ℕ)
path_of t = if t == 100 then some (9 ∷ subject ∷ 3 ∷ []) else none

abbrev texts : TextRules
texts = record {
  match = λ r x. some (r == x);
  attr_path = path_of;
  str = str;
  str_call = λ f args. 3000;
  text_leb = leb;
  get_attribute_value = λ kind name. none;
}

abbrev request : Request
request =
    (subject, (3, single (text 7)) ∷ [])
    ∷ (action, (requires, several (text 20 ∷ text 21 ∷ [])) ∷ [])
    ∷ []

abbrev same_user : Function × Arguments
same_user = (equal, next (value (single (text 100))) (next (value (several (text 7 ∷ []))) end))

abbrev for_user : Rule
for_user = record {
  has_id = false;
  target = some ((subject, (3, several (text 7 ∷ text 8 ∷ [])) ∷ []) ∷ []);
  effect = some permit;
  condition = some same_user;
  obligations = 5 ∷ [];
}

abbrev for_others : Rule
for_others = record {
  has_id = true;
  target = none;
  effect = some deny;
  condition = none;
  obligations = [];
}

abbrev policy : Policy
policy = record {
  target = none;
  rule_combining = some permit_overrides;
  rules = some (for_user ∷ for_others ∷ []);
}

abbrev strict : Policy
strict = record {
  target = none;
  rule_combining = some deny_overrides;
  rules = some (for_others ∷ []);
}

user_verdict : rule_decision texts for_user request ≡ some (permit, 5 ∷ [])
unfolding rule_decision evaluate_function
user_verdict = refl

verdicts :
    rule_verdicts texts request (for_user ∷ for_others ∷ [])
    ≡ some ((permit, 5 ∷ []) ∷ (deny, []) ∷ [])
unfolding rule_decision evaluate_function target_matches
verdicts = refl

policy_decision_example : policy_decision texts policy request ≡ some (permit, 5 ∷ [])
policy_decision_example =
    policy_decision_lem texts request permit_overrides policy _ _ refl refl verdicts

two_verdicts :
    policy_verdicts texts request (policy ∷ strict ∷ []) ≡ some ((permit, 5 ∷ []) ∷ (deny, []) ∷ [])
unfolding policy_decision rule_decision evaluate_function target_matches
two_verdicts = refl

combined_policy_decision_example :
    combined_policy_decision texts permit_overrides (some (policy ∷ strict ∷ [])) request
    ≡ (permit, 5 ∷ [])
combined_policy_decision_example =
    combined_policy_decision_lem texts request permit_overrides _ _ two_verdicts

combined_policy_decision-Reordered_example :
    (combined_policy_decision texts deny_overrides (some (strict ∷ policy ∷ [])) request).0
    ≡ (combined_policy_decision texts deny_overrides (some (policy ∷ strict ∷ [])) request).0
combined_policy_decision-Reordered_example =
    combined_policy_decision-Reordered texts request deny_overrides _ _ _ two_verdicts
      (exchange policy strict [])

permitted :
    combined_policy_decision texts permit_overrides (some (policy ∷ [])) request ≡ (permit, 5 ∷ [])
unfolding combined_policy_decision rule_decision evaluate_function target_matches
permitted = refl

combined_policy_decision_permits_example :
    (ps : List Policy) × (◌≡◌ {A = Option (List Policy)} (some (policy ∷ [])) (some ps))
    × Any (IsGranting texts request) ps
combined_policy_decision_permits_example =
    combined_policy_decision_permits texts request permit_overrides _ _ permitted

abbrev nested_rule : Rule
nested_rule = record {
  has_id = true;
  target = none;
  effect = some permit;
  condition = some (and, next (call and (next (call equal end) end)) end);
  obligations = [];
}

rule_decision_nested_example : rule_decision texts nested_rule request ≡ some (permit, [])
rule_decision_nested_example =
    rule_decision_nested texts request nested_rule equal end permit refl refl

-- From 23:00 to 01:00, at half past midnight.
authorization_check_example :
    authorization_check 1380 60 30 ≡ ltb ((30 + 1440 - 1380) % 1440) ((60 + 1440 - 1380) % 1440)
authorization_check_example =
    authorization_check_lem 1380 60 30 (omega arith) (omega arith) (omega arith)

abbrev nodes : Dict (Dict Value)
nodes = (31, []) ∷ (32, []) ∷ []

runtime_search_example :
    Answer
      (λ o. some true)
      (authorize_node
        (λ n. texts)
        permit_overrides
        (some (policy ∷ []))
        nodes
        (without_forbidden request))
      (32 ∷ [])
      (31 ∷ 32 ∷ [])
      (runtime_search
        (λ n. texts)
        permit_overrides
        (some (policy ∷ []))
        nodes
        (λ o. some true)
        request
        (32 ∷ []))
runtime_search_example =
    runtime_search_lem (λ o. some true) (λ n. texts) permit_overrides (some (policy ∷ [])) nodes
      request (32 ∷ [])
