-- ===== src/Access/Verdicts.antt =====
-- Lists of verdicts: the decision and the obligations that they stand for.
use calvin_base.Base.{
  ℕ, ◌≡◌, refl, ◌∙◌, inl, inr, Bool, true, false, not, ◌||◌, Option, some, List, [], ◌∷◌, ◌++◌,
  is_empty, if◌then◌else◌, Bool-cases, append_assoc, arith,
}
use calvin_base.Access.{
  Request, TextRules, Decision, permit, deny, indeterminate, not_applicable, Verdict, Rule,
}
use calvin_base.Access.Conditions.{◌>>=◌, applies, rule_decision}
use calvin_base.Access.Policies.{
  Combination, permit_overrides, deny_overrides, Policy, is_final, is_indeterminate,
  is_not_applicable, some_indeterminate, all_not_applicable, accepted, conclude, policy_decision,
}

abbrev pub any : (Verdict → Bool) → List Verdict → Bool
any p [] = false
any p (v ∷ vs) = p v || any p vs

abbrev pub is_relevant : Verdict → Bool
is_relevant (d, obligations) = not (is_not_applicable d)

abbrev pub is_permit : Verdict → Bool
is_permit (permit, obligations) = true
is_permit _ = false

abbrev pub is_unclear : Verdict → Bool
is_unclear (d, obligations) = is_indeterminate d

-- The decision and the obligations that a list of verdicts stands for.
abbrev pub override : Combination → Decision
override permit_overrides = permit
override deny_overrides = deny

abbrev pub otherwise : Combination → List Verdict → Decision
otherwise permit_overrides vs = if any is_permit vs then permit else deny
otherwise deny_overrides vs = permit

abbrev pub decision_of : Combination → List Verdict → Decision
decision_of c vs =
    if any (is_final c) vs
    then override c
    else if any is_unclear vs
    then indeterminate
    else if any is_relevant vs
    then otherwise c vs
    else not_applicable

abbrev pub all_obligations : List Verdict → List ℕ
all_obligations [] = []
all_obligations (v ∷ vs) = accepted v ++ all_obligations vs

abbrev pub obligations_of : Combination → List Verdict → List ℕ
obligations_of c vs = if any (is_final c) vs || any is_unclear vs then [] else all_obligations vs

abbrev decisions : List Verdict → List Decision
decisions [] = []
decisions (v ∷ vs) = v.0 ∷ decisions vs

-- The verdicts of the rules, and of the policies, that apply; `none` where one raises an exception.
abbrev pub add_verdict :
    Option Bool → Option Verdict → Option (List Verdict) → Option (List Verdict)
add_verdict b verdict rest =
    b >>= λ applied. if applied then (verdict >>= λ v. rest >>= λ vs. some (v ∷ vs)) else rest

module _ (w : TextRules) (request : Request) where
  abbrev pub rule_verdicts : List Rule → Option (List Verdict)
  rule_verdicts [] = some []
  rule_verdicts (rule ∷ rules) =
      add_verdict (applies w rule.target request) (rule_decision w rule request)
        (rule_verdicts rules)

  abbrev pub policy_verdicts : List Policy → Option (List Verdict)
  policy_verdicts [] = some []
  policy_verdicts (policy ∷ policies) =
      add_verdict (applies w policy.target request) (policy_decision w policy request)
        (policy_verdicts policies)

some_indeterminate-decisions :
    (vs : List Verdict) → some_indeterminate (decisions vs) ≡ any is_unclear vs
some_indeterminate-decisions [] = refl
some_indeterminate-decisions (v ∷ vs) = rw (some_indeterminate-decisions vs) refl

all_not_applicable-decisions :
    (vs : List Verdict) → all_not_applicable (decisions vs) ≡ not (any is_relevant vs)
all_not_applicable-decisions [] = refl
all_not_applicable-decisions ((d, o) ∷ vs) = ground (arith, all_not_applicable-decisions vs)

-- Where nothing is final, only a permit brings obligations.
is_empty-all_obligations :
    (vs : List Verdict)
    → any (is_final permit_overrides) vs ≡ false
    → is_empty (all_obligations vs) ≡ not (any is_permit vs)
is_empty-all_obligations [] n = refl
is_empty-all_obligations ((permit, []) ∷ vs) n = cc
is_empty-all_obligations ((permit, o ∷ os) ∷ vs) n = refl
is_empty-all_obligations ((deny, o) ∷ vs) n = is_empty-all_obligations vs n
is_empty-all_obligations ((indeterminate, o) ∷ vs) n = is_empty-all_obligations vs n
is_empty-all_obligations ((not_applicable, o) ∷ vs) n = is_empty-all_obligations vs n

no_obligations : (vs : List Verdict) → any is_relevant vs ≡ false → all_obligations vs ≡ []
no_obligations [] n = refl
no_obligations ((permit, o) ∷ vs) n = cc
no_obligations ((deny, o) ∷ vs) n = cc
no_obligations ((indeterminate, o) ∷ vs) n = cc
no_obligations ((not_applicable, o) ∷ vs) n = no_obligations vs n

conclude_lem :
    (c : Combination) (vs : List Verdict)
    → any (is_final c) vs ≡ false
    → conclude c (decisions vs) (all_obligations vs) ≡ (decision_of c vs, obligations_of c vs)
unfolding conclude
conclude_lem permit_overrides vs n = ground (
  arith,
  some_indeterminate-decisions vs,
  all_not_applicable-decisions vs,
  is_empty-all_obligations vs,
  no_obligations vs,
)
conclude_lem deny_overrides vs n =
    ground
      (arith, some_indeterminate-decisions vs, all_not_applicable-decisions vs, no_obligations vs)

pub is_final-override : (c : Combination) (v : Verdict) → is_final c v ≡ true → v.0 ≡ override c
is_final-override permit_overrides (permit, o) f = refl
is_final-override permit_overrides (deny, o) f = cc
is_final-override permit_overrides (indeterminate, o) f = cc
is_final-override permit_overrides (not_applicable, o) f = cc
is_final-override deny_overrides (permit, o) f = cc
is_final-override deny_overrides (deny, o) f = refl
is_final-override deny_overrides (indeterminate, o) f = cc
is_final-override deny_overrides (not_applicable, o) f = cc

-- The result of a loop that has decisions and obligations already.
abbrev pub loop_result : Combination → List Decision → List ℕ → List Verdict → Verdict
loop_result c ds os vs =
    if any (is_final c) vs
    then (override c, [])
    else conclude c (ds ++ decisions vs) (os ++ all_obligations vs)

pub loop_result-cons :
    (c : Combination) (ds : List Decision) (os : List ℕ) (v : Verdict) (vs : List Verdict)
    → is_final c v ≡ false
    → loop_result c (ds ++ v.0 ∷ []) (os ++ accepted v) vs ≡ loop_result c ds os (v ∷ vs)
loop_result-cons c ds os v vs n = rw n (simp append_assoc)

pub loop_result-nil :
    (c : Combination) (vs : List Verdict)
    → loop_result c [] [] vs ≡ (decision_of c vs, obligations_of c vs)
loop_result-nil c vs = elim (Bool-cases (any (is_final c) vs)) [
  | inl f ↦ rw f refl
  | inr n ↦ rw n (conclude_lem c vs n ∙ rw n refl)
]

pub some_inj : (us vs : List Verdict) → some us ≡ some vs → us ≡ vs
some_inj us vs e = cc
