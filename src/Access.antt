-- ===== src/Access.antt =====
-- calvin/runtime/north/authorization/policy_decision_point.py: the values of requests and policies,
-- targets, the functions of conditions, and the decision of a rule.
mod Conditions
mod Policies
mod Combining
mod Verdicts
mod Permits
mod Grounds
mod Order
mod Nested
mod Search
mod Tests
use calvin_base.Base.{
  ℕ, Bool, true, false, not, ◌||◌, Option, none, some, List, [], ◌∷◌, ◌++◌, is_empty, get_elem?,
  contains, ◌==◌, if◌then◌else◌, Dict, lookup,
}

-- A text is known by its number, the empty one by 0; `TextRules` says what the code asks of texts.
pub data Atom : Type 0 where
  text : ℕ → Atom
  number : ℕ → Atom
  truth : Bool → Atom
  nothing : Atom

pub data Value : Type 0 where
  single : Atom → Value
  several : List Atom → Value

-- The attributes of each type, as in `{"subject": {"first_name": "Tomas"}}`.
abbrev pub Request : Type 0
Request = Dict (Dict Value)

pub data Function : Type 0 where
  equal not_equal and or less_than_or_equal greater_than_or_equal : Function
  unknown : Function

mutual
  pub data Argument : Type 0 where
    value : Value → Argument
    call : Function → Arguments → Argument

  pub data Arguments : Type 0 where
    end : Arguments
    next : Argument → Arguments → Arguments

pub data Decision : Type 0 where
  permit deny indeterminate not_applicable : Decision

-- `re.match(pattern + "$", text)`, which fails on a bad pattern; the parts between ":" of a text
-- that starts with "attr"; `str` of what is not a text; the order of texts; and what the policy
-- information point answers, which it keeps for the time of a request.
pub record TextRules : Type 0 where
  pub match : ℕ → ℕ → Option Bool
  pub attr_path : ℕ → Option (List ℕ)
  pub str : Atom → ℕ
  pub str_call : Function → Arguments → ℕ
  pub text_leb : ℕ → ℕ → Bool
  pub get_attribute_value : ℕ → ℕ → Option Value

-- A decision with its obligations.
abbrev pub Verdict : Type 0
Verdict = Decision × List ℕ

pub record Rule : Type 0 where
  pub has_id : Bool
  pub target : Option (Dict (Dict Value))
  pub effect : Option Decision
  pub condition : Option (Function × Arguments)
  pub obligations : List ℕ

abbrev pub atoms : Value → List Atom
atoms (single a) = a ∷ []
atoms (several xs) = xs

-- Python's equality, for which True is 1.
abbrev pub same_atom : Atom → Atom → Bool
same_atom (text a) (text b) = a == b
same_atom (number a) (number b) = a == b
same_atom (number a) (truth b) = a == (if b then 1 else 0)
same_atom (truth a) (number b) = b == (if a then 1 else 0)
same_atom (truth a) (truth b) = if a then b else not b
same_atom nothing nothing = true
same_atom _ _ = false

abbrev pub has : List Atom → Atom → Bool
has [] a = false
has (x ∷ xs) a = same_atom x a || has xs a

-- `not set(xs).isdisjoint(ys)`
abbrev pub meets : List Atom → List Atom → Bool
meets [] ys = false
meets (x ∷ xs) ys = has ys x || meets xs ys
