-- ===== src/Token/Laws.antt =====
-- Encoding a token and decoding it again.
use calvin_base.Base.{◌≡◌, refl, ap, ◌∙◌, List, [], ◌∷◌, map}
use calvin_base.Token.{
  Token, plain, exception, eos, Repr, repr_for_coder, from_repr, Coder, encode, decode,
}

pub from_repr-repr_for_coder : (t : Token) → from_repr (repr_for_coder t) ≡ t
unfolding from_repr repr_for_coder
from_repr-repr_for_coder (plain v) = refl
from_repr-repr_for_coder (exception v) = refl
from_repr-repr_for_coder (eos v) = refl

pub map-from_repr : (ts : List Token) → map from_repr (map repr_for_coder ts) ≡ ts
map-from_repr [] = refl
map-from_repr (t ∷ ts) = cc (from_repr-repr_for_coder t, map-from_repr ts)

-- A token survives the wire with its class and its value, under every coder that decodes what it
-- encodes.
pub decode-encode :
    {Wire : Type 0} (coder : Coder Wire) (t : Token)
    → ((r : Repr) → coder.decode_repr (coder.encode_repr r) ≡ r)
    → decode coder (encode coder t) ≡ t
unfolding decode encode
decode-encode coder t h = ap from_repr (h (repr_for_coder t)) ∙ from_repr-repr_for_coder t
