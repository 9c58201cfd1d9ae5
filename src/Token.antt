-- ===== src/Token.antt =====
-- calvin/runtime/north/calvin_token.py: tokens and their representation for a coder.
-- The labels of a dictionary are numbers: the code only compares them for equality and order.
pub mod Laws
use calvin_base.Base.{ℕ, Option, none, some, Bool, true, false}

-- What a token carries: the values that the coders carry, as far as the queues look at them.
mutual
  pub data Value : Type 0 where
    null : Value
    bad_token : Value
    num : ℕ → Value
    list : Items → Value
    dict : Fields → Value

  pub data Items : Type 0 where
    nil : Items
    cons : Value → Items → Items

  pub data Fields : Type 0 where
    end : Fields
    field : ℕ → Value → Fields → Fields

-- `Token`, `ExceptionToken` and `EOSToken`, each with its value.
pub data Token : Type 0 where
  plain : Value → Token
  exception : Value → Token
  eos : Value → Token

-- `isinstance(token, ExceptionToken)`: the end of a stream is an exception too.
abbrev pub is_exception : Token → Bool
is_exception (plain v) = false
is_exception (exception v) = true
is_exception (eos v) = true

abbrev pub value : Token → Value
value (plain v) = v
value (exception v) = v
value (eos v) = v

-- `data.value = v` on a token, whose class stays.
abbrev pub set_value : Token → Value → Token
set_value (plain _) v = plain v
set_value (exception _) v = exception v
set_value (eos _) v = eos v

-- The class names that a representation may hold; `other` is any other text.
pub data ClassName : Type 0 where
  token_class exception_class eos_class other : ClassName

-- The dictionary with the keys `type` and `data`, either of which may be missing.
pub record Repr : Type 0 where
  pub type_name : Option ClassName
  pub content : Option Value

unfoldable pub class_name : Token → ClassName
class_name (plain v) = token_class
class_name (exception v) = exception_class
class_name (eos v) = eos_class

unfoldable pub repr_for_coder : Token → Repr
unfolding class_name
repr_for_coder t = record { type_name = some (class_name t); content = some (value t) }

-- The lookup of the class falls back to `ExceptionToken`.
unfoldable pub instantiate : Option ClassName → Value → Token
instantiate none v = exception v
instantiate (some token_class) v = plain v
instantiate (some exception_class) v = exception v
instantiate (some eos_class) v = eos v
instantiate (some other) v = exception v

abbrev content_or_bad : Option Value → Value
content_or_bad none = bad_token
content_or_bad (some v) = v

unfoldable pub from_repr : Repr → Token
unfolding instantiate
from_repr r = instantiate r.type_name (content_or_bad r.content)

-- A coder turns representations into what is sent and back.
pub record Coder (Wire : Type 0) : Type 0 where
  pub encode_repr : Repr → Wire
  pub decode_repr : Wire → Repr

unfoldable pub encode : {Wire : Type 0} → Coder Wire → Token → Wire
encode coder t = coder.encode_repr (repr_for_coder t)

unfoldable pub decode : {Wire : Type 0} → Coder Wire → Wire → Token
decode coder w = from_repr (coder.decode_repr w)
