-- ===== src/Base/Effects.antt =====
-- Methods of a mutable object: state passing with exceptions. A raised exception keeps the state
-- that the object had when it was raised.
use Prim.Native.Nat.{ℕ}
use mathlib.Core.Bool.{Bool, true, false}
use mathlib.Core.Path.{◌≡◌, refl, sym, ◌∙◌}
use native.Mathlib.Omega.{arith}
use mathlib.Core.Logic.{◌⊎◌, inl, inr}
use mathlib.Core.List.{List}
use mathlib.Core.Option.{Option, none, some}
use calvin_base.Base.Lists.{get_elem?}
use calvin_base.Base.Dicts.{Dict, lookup}

-- The exceptions that the modelled code raises, Python's own and the repository's.
pub data Error : Type 0 where
  queue_full : Error
  queue_empty : ℕ → Error
  unknown_reader : ℕ → Error
  unknown_writer : ℕ → Error
  illegal_mapping illegal_order : Error
  key_error index_error value_error attribute_error type_error : Error
  zero_division not_implemented exception : Error

pub data Outcome (S A : Type 0) : Type 0 where
  done : A → S → Outcome S A
  raised : Error → S → Outcome S A

abbrev pub Method : Type 0 → Type 0 → Type 0
Method S A = S → Outcome S A

infixl 5 ◌>>=◌ ◌>>◌
abbrev pub ◌>>=◌ : {S A B : Type 0} → Method S A → (A → Method S B) → Method S B
◌>>=◌ m f s = elim (m s) [ done a s' ↦ f a s' | raised e s' ↦ raised e s' ]

abbrev pub ◌>>◌ : {S B : Type 0} → Method S (Unit {0}) → Method S B → Method S B
m >> k = m >>= λ _. k

abbrev pub return : {S A : Type 0} → A → Method S A
return a s = done a s

abbrev pub raise : {S A : Type 0} → Error → Method S A
raise e s = raised e s

abbrev pub self : {S : Type 0} → Method S S
self s = done s s

abbrev pub put : {S : Type 0} → S → Method S (Unit {0})
put s _ = done tt s

-- Goes on if the test holds, and raises otherwise.
abbrev pub require : {S : Type 0} → Bool → Error → Method S (Unit {0})
require true e s = done tt s
require false e s = raised e s

abbrev pub or_raise : {S A : Type 0} → Option A → Error → Method S A
or_raise none e s = raised e s
or_raise (some a) e s = done a s

-- `d[k]` and `xs[i]`.
abbrev pub item : {S V : Type 0} → Dict V → ℕ → Method S V
item d k = or_raise (lookup k d) key_error

abbrev pub elem : {S V : Type 0} → List V → ℕ → Method S V
elem xs i = or_raise (get_elem? xs i) index_error

-- `try: m  except: pass`.
abbrev pub attempt : {S A : Type 0} → Method S A → Method S (Unit {0})
attempt m s = elim (m s) [ done a s' ↦ done tt s' | raised e s' ↦ done tt s' ]

-- The state that a call leaves, whichever way it ends.
abbrev pub after : {S A : Type 0} → Outcome S A → S
after (done a s) = s
after (raised e s) = s

-- A step whose outcome is known.
pub >>=_done :
    {S A B : Type 0} (m : Method S A) (f : A → Method S B) (s : S) {a : A} {t : S}
    → m s ≡ done a t
    → (m >>= f) s ≡ f a t
>>=_done m f s e = rw (e, ◌>>=◌)

pub >>=_raised :
    {S A B : Type 0} (m : Method S A) (f : A → Method S B) (s : S) {e : Error} {t : S}
    → m s ≡ raised e t
    → (m >>= f) s ≡ raised e t
>>=_raised m f s e = rw (e, ◌>>=◌)

pub Outcome-cases :
    {S A : Type 0} (o : Outcome S A)
    → ((a : A) × (s : S) × (o ≡ done a s)) ⊎ ((e : Error) × (s : S) × (o ≡ raised e s))
Outcome-cases (done a s) = inl (a, s, refl)
Outcome-cases (raised e s) = inr (e, s, refl)

-- What a chain of two steps that succeeds is made of.
pub >>=_parts :
    {S A B : Type 0} (m : Method S A) (f : A → Method S B) (s : S) {b : B} {t : S}
    → (m >>= f) s ≡ done b t
    → (a : A) × (r : S) × (m s ≡ done a r) × (f a r ≡ done b t)
>>=_parts m f s h = elim (Outcome-cases (m s)) [
  | inl (a, r, e) ↦ (a, r, e, sym (>>=_done m f s e) ∙ h)
  | inr (x, r, e) ↦ absurd (ground (arith, sym (>>=_raised m f s e) ∙ h))
]
