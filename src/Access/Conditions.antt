-- ===== src/Access/Conditions.antt =====
-- PolicyDecisionPoint: target_matches, evaluate_function and rule_decision. `none` is an exception.
use calvin_base.Base.{
  ℕ, Bool, true, false, not, ◌&&◌, ◌||◌, Option, none, some, List, [], ◌∷◌, map, is_empty,
  get_elem?, ◌==◌, if◌then◌else◌, Dict, lookup,
}
use calvin_base.Access.{
  Atom, text, number, truth, nothing, Value, single, several, Request, Function, equal, not_equal,
  and, or, less_than_or_equal, greater_than_or_equal, unknown, Argument, value, call, Arguments,
  end, next, TextRules, indeterminate, not_applicable, Verdict, Rule, atoms, same_atom, meets,
}

infixl 5 ◌>>=◌
abbrev pub ◌>>=◌ {ℓ κ} : {A : Type ℓ} {B : Type κ} → Option A → (A → Option B) → Option B
none >>= f = none
some a >>= f = f a

abbrev pub request_value : Request → ℕ → ℕ → Option Value
request_value request kind name = elim (lookup kind request) [
  | none ↦ none
  | some attributes ↦ lookup name attributes
]

-- What a list of matches gives: whether one holds, or the first exception.
pub data Matching : Type 0 where
  found : Bool → Matching
  type_error pattern_error : Matching

module _ (w : TextRules) where
  abbrev match_atoms : Atom → Atom → Matching
  match_atoms (text r) (text x) = elim (w.match r x) [ none ↦ pattern_error | some b ↦ found b ]
  match_atoms _ _ = type_error

  abbrev either : Matching → Matching → Matching
  either (found a) (found b) = found (a || b)
  either (found a) other = other
  either error _ = error

  -- `[re.match(r + "$", x) for r in rs for x in xs]`, each pair in its order.
  abbrev match_values : Atom → List Atom → Matching
  match_values r [] = found false
  match_values r (x ∷ xs) = either (match_atoms r x) (match_values r xs)

  abbrev match_lists : List Atom → List Atom → Matching
  match_lists [] xs = found false
  match_lists (r ∷ rs) xs = either (match_values r xs) (match_lists rs xs)

  -- The value in the request, or else of the policy information point.
  abbrev pub attribute : Request → ℕ → ℕ → Option Value
  attribute request kind name = elim (request_value request kind name) [
    | some v ↦ some v
    | none ↦ w.get_attribute_value kind name
  ]

  value_matches : Value → Value → Option Bool
  value_matches policy_value request_value =
      elim (match_lists (atoms policy_value) (atoms request_value)) [
        | found b ↦ some b
        | type_error ↦ some (meets (atoms request_value) (atoms policy_value))
        | pattern_error ↦ none
      ]

  attributes_match : Request → ℕ → Dict Value → Option Bool
  unfolding value_matches
  attributes_match request kind [] = some true
  attributes_match request kind ((name, policy_value) ∷ rest) =
      let others = attributes_match request kind rest in
      elim (attribute request kind name) [
        | none ↦ some false
        | some v ↦ value_matches policy_value v >>= λ b. if b then others else some false
      ]

  unfoldable pub target_matches : Dict (Dict Value) → Request → Option Bool
  unfolding attributes_match
  target_matches [] request = some true
  target_matches ((kind, attributes) ∷ target) request =
      let others = target_matches target request in
      attributes_match request kind attributes >>= λ b. if b then others else some false

  -- A policy or a rule without target matches everything.
  abbrev pub applies : Option (Dict (Dict Value)) → Request → Option Bool
  applies none request = some true
  applies (some target) request = target_matches target request

  -- An argument that names an attribute becomes its value; `some none` is one that is not found.
  resolve : Request → Argument → Option (Option Argument)
  resolve request (value (single (text t))) = elim (w.attr_path t) [
    | none ↦ some (some (value (single (text t))))
    | some path ↦ get_elem? path 1 >>= λ kind. get_elem? path 2 >>= λ name.
        elim (attribute request kind name) [ none ↦ some none | some v ↦ some (some (value v)) ]
  ]
  resolve request other = some (some other)

  resolve_all : Request → Arguments → Option (Option (List Argument))
  unfolding resolve
  resolve_all request end = some (some [])
  resolve_all request (next argument rest) =
      let others = resolve_all request rest in
      resolve request argument >>= λ first. elim first [
        | none ↦ some none
        | some a ↦
            others >>= λ more. elim more [ none ↦ some none | some args ↦ some (some (a ∷ args)) ]
      ]

  abbrev to_string : Atom → ℕ
  to_string (text t) = t
  to_string other = w.str other

  abbrev texts : Argument → List ℕ
  texts (value v) = map to_string (atoms v)
  texts (call f args) = w.str_call f args ∷ []

  abbrev any_match : List ℕ → List ℕ → Option Bool
  any_match rs xs = elim (match_lists (map text rs) (map text xs)) [ found b ↦ some b | _ ↦ none ]

  -- The order of lists of texts, the first difference decides.
  abbrev list_leb : List ℕ → List ℕ → Bool
  list_leb [] ys = true
  list_leb (x ∷ xs) [] = false
  list_leb (x ∷ xs) (y ∷ ys) = if x == y then list_leb xs ys else w.text_leb x y

  -- `all(args)` and `True in args`. A function that is nested is a dictionary, which is true.
  abbrev is_true : Argument → Bool
  is_true (value (single (text t))) = not (t == 0)
  is_true (value (single (number n))) = not (n == 0)
  is_true (value (single (truth b))) = b
  is_true (value (single nothing)) = false
  is_true (value (several xs)) = not (is_empty xs)
  is_true (call f args) = true

  abbrev all_true : List Argument → Bool
  all_true [] = true
  all_true (a ∷ args) = is_true a && all_true args

  abbrev is_one : Argument → Bool
  is_one (value (single a)) = same_atom a (truth true)
  is_one other = false

  abbrev any_one : List Argument → Bool
  any_one [] = false
  any_one (a ∷ args) = is_one a || any_one args

  -- `f(args[0], args[1])` for lists of texts.
  abbrev on_texts : (List ℕ → List ℕ → Option Bool) → List Argument → Option Atom
  on_texts f args = get_elem? args 0 >>= λ a.
      get_elem? args 1 >>= λ b. f (texts a) (texts b) >>= λ c. some (truth c)

  apply : Function → List Argument → Option Atom
  apply equal args = on_texts (λ xs rs. any_match rs xs) args
  apply not_equal args = on_texts (λ xs rs. any_match rs xs >>= λ b. some (not b)) args
  apply and args = some (truth (all_true args))
  apply or args = some (truth (any_one args))
  apply less_than_or_equal args = on_texts (λ xs ys. some (list_leb xs ys)) args
  apply greater_than_or_equal args = on_texts (λ xs ys. some (list_leb ys xs)) args
  apply unknown args = some nothing

  unfoldable pub evaluate_function : Request → Function → Arguments → Option Atom
  unfolding resolve_all apply
  evaluate_function request f args = resolve_all request args >>= λ found. elim found [
    | none ↦ some (truth false)
    | some values ↦ apply f values
  ]

  -- The arguments of a rule's condition, with the functions among them evaluated.
  condition_arguments : Request → Arguments → Option Arguments
  unfolding evaluate_function
  condition_arguments request end = some end
  condition_arguments request (next (call f args) rest) =
      let others = condition_arguments request rest in
      evaluate_function request f args >>= λ a.
      others >>= λ more. some (next (value (single a)) more)
  condition_arguments request (next (value v) rest) =
      condition_arguments request rest >>= λ more. some (next (value v) more)

  abbrev pub is_satisfied : Atom → Bool
  is_satisfied a = is_true (value (single a))

  unfoldable pub condition_value : Request → Function × Arguments → Option Atom
  unfolding condition_arguments
  condition_value request (f, args) =
      condition_arguments request args >>= λ values. evaluate_function request f values

  unfoldable pub rule_decision : Rule → Request → Option Verdict
  unfolding condition_value
  rule_decision rule request = elim rule.condition [
    | none ↦ elim rule.effect [
      | some effect ↦ if rule.has_id then some (effect, rule.obligations) else none
      | none ↦ none
    ]
    | some condition ↦ elim (condition_value request condition) [
      | none ↦ some (indeterminate, [])
      | some a ↦
          if is_satisfied a
          then elim rule.effect [
            | some effect ↦ some (effect, rule.obligations)
            | none ↦ some (indeterminate, [])
          ]
          else some (not_applicable, [])
    ]
  ]
