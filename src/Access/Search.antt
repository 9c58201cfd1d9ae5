-- ===== src/Access/Search.antt =====
-- PolicyDecisionPoint: _authorize_cont and runtime_search, with the checks of obligations in
-- calvin/runtime/north/plugins/authorization_checks.
pub mod Answers
use calvin_base.Base.{
  ℕ, zero, suc, ◌<◌, Bool, true, false, not, ◌&&◌, ◌||◌, Option, none, some, List, [], ◌∷◌, ◌++◌,
  is_empty, ltb, leb, ◌==◌, length, contains, if◌then◌else◌, Dict, lookup, insert, erase, keys,
}
use calvin_base.Access.{
  Atom, text, Value, single, several, Request, TextRules, Decision, permit, deny, indeterminate,
  not_applicable, Verdict, atoms,
}
use calvin_base.Access.Conditions.{request_value}
use calvin_base.Access.Policies.{Combination, Policy, combined_policy_decision}

-- The names of attributes that the code itself uses.
abbrev pub subject : ℕ
subject = 0

abbrev pub action : ℕ
action = 1

abbrev pub resource : ℕ
resource = 2

abbrev pub requires : ℕ
requires = 0

abbrev pub actor_signer : ℕ
actor_signer = 0

abbrev pub node_id : ℕ
node_id = 0

-- The obligations of a response: of one decision, or of each requirement that has some.
pub data Obligations : Type 0 where
  of_one : List ℕ → Obligations
  of_each : List (List ℕ) → Obligations

pub record Response : Type 0 where
  pub decision : Decision
  pub obligations : Obligations

-- `request[kind][name] = v`
abbrev pub set_attribute : ℕ → ℕ → Value → Request → Request
set_attribute kind name v request = elim (lookup kind request) [
  | none ↦ insert kind ((name, v) ∷ []) request
  | some attributes ↦ insert kind (insert name v attributes) request
]

-- `node_id` as a key of `registered_nodes`.
abbrev registered : Dict (Dict Value) → Value → Option (Dict Value)
registered nodes (single (text t)) = lookup t nodes
registered nodes other = none

abbrev pub for_requirement : Request → Atom → Request
for_requirement request r = set_attribute action requires (several (r ∷ [])) request

module _ (w : TextRules) (combination : Combination) (policies : Option (List Policy)) where
  abbrev pub requirement_verdicts : Request → List Atom → List Verdict
  requirement_verdicts request [] = []
  requirement_verdicts request (r ∷ rs) =
      combined_policy_decision w combination policies (for_requirement request r)
      ∷ requirement_verdicts request rs

abbrev pub same_decision : Decision → Decision → Bool
same_decision permit permit = true
same_decision deny deny = true
same_decision indeterminate indeterminate = true
same_decision not_applicable not_applicable = true
same_decision _ _ = false

abbrev pub all_decided : Decision → List Verdict → Bool
all_decided d [] = true
all_decided d (v ∷ vs) = same_decision v.0 d && all_decided d vs

abbrev pub collected : List Verdict → List (List ℕ)
collected [] = []
collected ((d, []) ∷ vs) = collected vs
collected ((d, o ∷ os) ∷ vs) = (o ∷ os) ∷ collected vs

-- The response for several requirements.
unfoldable pub answer_all : List Verdict → Response
answer_all [] = record { decision = indeterminate; obligations = of_each [] }
answer_all (v ∷ vs) =
    if all_decided v.0 (v ∷ vs)
    then record { decision = v.0; obligations = of_each (collected (v ∷ vs)) }
    else record { decision = indeterminate; obligations = of_each [] }

module _ (w : TextRules) (combination : Combination) (policies : Option (List Policy))
    (registered_nodes : Dict (Dict Value)) where
  -- The resource gets the attributes of its node, if that is registered.
  unfoldable pub with_resource : Request → Request
  with_resource request = elim (request_value request resource node_id) [
    | none ↦ request
    | some id ↦ elim (registered registered_nodes id) [
      | none ↦ request
      | some attributes ↦ insert resource (insert node_id id attributes) request
    ]
  ]

  -- The requirements, in the request or else of the policy information point, which are a list.
  unfoldable pub with_requires : Request → Request × Option (List Atom)
  with_requires request = elim (request_value request action requires) [
    | some v ↦ (request, some (atoms v))
    | none ↦ elim (w.get_attribute_value action requires) [
      | none ↦ (request, none)
      | some v ↦ (insert action ((requires, v) ∷ []) request, some (atoms v))
    ]
  ]

  unfoldable pub answer_one : Request → Response
  answer_one request =
      let v = combined_policy_decision w combination policies request in
      record { decision = v.0; obligations = of_one v.1 }

  -- One request for each requirement where there are several.
  unfoldable pub answer : Request → Option (List Atom) → Response
  unfolding answer_all answer_one
  answer request none = answer_one request
  answer request (some rs) =
      if ltb 1 (length rs)
      then answer_all (requirement_verdicts w combination policies request rs)
      else answer_one request

  unfoldable pub authorize_cont : Request → Response
  unfolding with_resource with_requires answer
  authorize_cont request =
      let (asked, required) = with_requires (with_resource request) in answer asked required

abbrev pub in_whitelist : List ℕ → ℕ → Bool
in_whitelist [] node = true
in_whitelist (n ∷ ns) node = contains (n ∷ ns) node

abbrev pub possible_nodes : List ℕ → List ℕ → List ℕ
possible_nodes whitelist [] = []
possible_nodes whitelist (node ∷ nodes) =
    let rest = possible_nodes whitelist nodes in
    if in_whitelist whitelist node then node ∷ rest else rest

abbrev is_permit : Decision → Bool
is_permit permit = true
is_permit _ = false

-- The loop over the nodes; `check` is a plugin's authorization_check of an obligation, `none` where
-- it raises an exception.
module _ (check : ℕ → Option Bool) where
  pub check_plugins : Bool → List ℕ → Bool
  check_plugins some_true [] = some_true
  check_plugins some_true (o ∷ os) =
      let rest = λ (b : Bool). check_plugins (b || some_true) os in
      elim (check o) [ none ↦ false | some b ↦ rest b ]

  -- At least one of the checks must return True.
  unfoldable pub check_authorization_plugin_list : List ℕ → Bool
  unfolding check_plugins
  check_authorization_plugin_list os = check_plugins false os

  abbrev pub check_each : List (List ℕ) → Bool
  check_each [] = true
  check_each (os ∷ rest) = check_authorization_plugin_list os && check_each rest

  abbrev pub is_valid_now : Obligations → Bool
  is_valid_now (of_one []) = true
  is_valid_now (of_one (o ∷ os)) = check_authorization_plugin_list (o ∷ os)
  is_valid_now (of_each lists) = check_each lists

  abbrev pub is_allowed : Response → Bool
  is_allowed r = is_permit r.decision && is_valid_now r.obligations

  -- `none` is an IndexError; `authorize` is the response for a node.
  unfoldable pub search_authorize : (ℕ → Response) → List ℕ → Option (Option (ℕ × Response))
  search_authorize authorize [] = none
  search_authorize authorize (node ∷ nodes) =
      let rest = search_authorize authorize nodes in
      if is_allowed (authorize node)
      then some (some (node, authorize node))
      else if is_empty nodes
      then some none
      else rest

-- `del request[kind][name]`, if it is there.
abbrev delete_attribute : ℕ → ℕ → Request → Request
delete_attribute kind name request = elim (lookup kind request) [
  | none ↦ request
  | some attributes ↦ insert kind (erase name attributes) request
]

-- Attributes that another domain must not be asked with.
abbrev pub without_forbidden : Request → Request
without_forbidden request =
    delete_attribute action requires (delete_attribute subject actor_signer request)

-- `information node` is what the policy information point answers for a node.
module _ (information : ℕ → TextRules) (combination : Combination) (policies : Option (List Policy))
    (registered_nodes : Dict (Dict Value)) where
  abbrev pub authorize_node : Request → ℕ → Response
  authorize_node request node =
      authorize_cont (information node) combination policies registered_nodes
        (insert resource ((node_id, single (text node)) ∷ []) request)

  unfoldable pub runtime_search :
      (ℕ → Option Bool) → Request → List ℕ → Option (Option (ℕ × Response))
  runtime_search check request whitelist =
      search_authorize check (authorize_node (without_forbidden request))
        (possible_nodes whitelist (keys registered_nodes))

-- calvin/runtime/north/plugins/authorization_checks/time_range.py, with times in minutes.
unfoldable pub authorization_check : ℕ → ℕ → ℕ → Bool
authorization_check start_time end_time time =
    if leb start_time end_time
    then leb start_time time && ltb time end_time
    else leb start_time time || ltb time end_time
