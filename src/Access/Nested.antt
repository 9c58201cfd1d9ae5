-- ===== src/Access/Nested.antt =====
-- Functions that are nested in the functions of a condition.
use calvin_base.Base.{◌≡◌, refl, some}
use calvin_base.Access.{
  Request, TextRules, Function, and, Arguments, end, next, call, Decision, Rule,
}
use calvin_base.Access.Conditions.{evaluate_function, rule_decision}

module _ (w : TextRules) (request : Request) where
  -- A function that stands two levels deep under "and" is not evaluated: the rule has its effect
  -- whatever the function and its arguments are.
  pub rule_decision_nested :
      (rule : Rule) (f : Function) (args : Arguments) (effect : Decision)
      → rule.condition ≡ some (and, next (call and (next (call f args) end)) end)
      → rule.effect ≡ some effect
      → rule_decision w rule request ≡ some (effect, rule.obligations)
  unfolding rule_decision evaluate_function
  rule_decision_nested rule f args effect c e = rw (c, e) refl
