-- ===== src/Base/Dicts.antt =====
-- Python dictionaries keyed by ids, as association lists; an entry keeps its place on update.
use Prim.Native.Nat.{ℕ, ◌≤◌}
use mathlib.Core.Path.{◌≡◌, refl}
use mathlib.Core.Logic.{inl, inr}
use mathlib.Core.List.{List, [], ◌∷◌}
use mathlib.Core.Option.{Option, none, some}
use native.Mathlib.Omega.{arith}
use calvin_base.Base.Tests.{◌==◌, if◌then◌else◌, leb, Bool-cases}

abbrev pub Dict {ℓ} : Type ℓ → Type ℓ
Dict V = List (ℕ × V)

module _ {ℓ} {V : Type ℓ} where
  abbrev pub lookup : ℕ → Dict V → Option V
  lookup k [] = none
  lookup k ((j, v) ∷ d) = if j == k then some v else lookup k d

  abbrev pub insert : ℕ → V → Dict V → Dict V
  insert k v [] = (k, v) ∷ []
  insert k v ((j, w) ∷ d) = if j == k then (k, v) ∷ d else (j, w) ∷ insert k v d

  abbrev pub erase : ℕ → Dict V → Dict V
  erase k [] = []
  erase k ((j, w) ∷ d) = let rest = erase k d in if j == k then rest else (j, w) ∷ rest

  abbrev pub keys : Dict V → List ℕ
  keys [] = []
  keys ((j, w) ∷ d) = j ∷ keys d

  abbrev pub values : Dict V → List V
  values [] = []
  values ((j, w) ∷ d) = w ∷ values d

  -- `d.setdefault(k, v)`, for its effect.
  abbrev pub set_default : ℕ → V → Dict V → Dict V
  set_default k v d = elim (lookup k d) [ some w ↦ d | none ↦ insert k v d ]

  -- `d.update(e)`: the entries of `e`, one after another.
  abbrev pub update : Dict V → Dict V → Dict V
  update d [] = d
  update d ((k, v) ∷ e) = update (insert k v d) e

  -- Every entry's value satisfies `P`.
  abbrev pub AllValues {κ} : (V → Type κ) → Dict V → Type κ
  AllValues P [] = Unit
  AllValues P ((k, v) ∷ d) = P v × AllValues P d

abbrev pub map_values {ℓ κ} : {V : Type ℓ} {W : Type κ} → (V → W) → Dict V → Dict W
map_values f [] = []
map_values f ((k, v) ∷ d) = (k, f v) ∷ map_values f d

module _ {ℓ} {V : Type ℓ} where
  pub lookup-insert :
      (j k : ℕ) (v : V) (d : Dict V)
      → lookup j (insert k v d) ≡ (if k == j then some v else lookup j d)
  lookup-insert j k v [] = refl
  lookup-insert j k v ((i, w) ∷ d) = ground (arith, lookup-insert j k v d)

  pub insert_self : (k : ℕ) (v : V) (d : Dict V) → lookup k d ≡ some v → insert k v d ≡ d
  insert_self k v [] e = cc
  insert_self k v ((j, w) ∷ d) e = ground (arith, insert_self k v d)

  pub insert-insert : (k : ℕ) (v w : V) (d : Dict V) → insert k v (insert k w d) ≡ insert k v d
  insert-insert k v w [] = ground arith
  insert-insert k v w ((j, u) ∷ d) = ground (arith, insert-insert k v w d)

  pub lookup-erase :
      (j k : ℕ) (d : Dict V) → lookup j (erase k d) ≡ (if k == j then none else lookup j d)
  lookup-erase j k [] = ground arith
  lookup-erase j k ((i, w) ∷ d) = ground (arith, lookup-erase j k d)

module _ {ℓ κ} {V : Type ℓ} (P : V → Type κ) where
  pub insert-AllValues :
      (k : ℕ) (v : V) (d : Dict V) → P v → AllValues P d → AllValues P (insert k v d)
  insert-AllValues k v [] p a = (p, tt)
  insert-AllValues k v ((j, w) ∷ d) p a = ground (arith, insert-AllValues k v d p a.1)

  pub erase-AllValues : (k : ℕ) (d : Dict V) → AllValues P d → AllValues P (erase k d)
  erase-AllValues k [] a = tt
  erase-AllValues k ((j, w) ∷ d) a = ground (arith, erase-AllValues k d a.1)

  pub lookup-AllValues : (k : ℕ) (d : Dict V) (v : V) → AllValues P d → lookup k d ≡ some v → P v
  lookup-AllValues k [] v a e = absurd (ground arith)
  lookup-AllValues k ((j, w) ∷ d) v a e = ground (arith, lookup-AllValues k d v a.1)

pub map-AllValues {ℓ κ μ} :
    {V : Type ℓ} {P : V → Type κ} {Q : V → Type μ} (d : Dict V)
    → ((v : V) → P v → Q v)
    → AllValues P d
    → AllValues Q d
map-AllValues [] f a = tt
map-AllValues ((k, v) ∷ d) f a = (f v a.0, map-AllValues d f a.1)

-- `min(d.values())`, and with a default for the empty dictionary.
abbrev pub lesser : ℕ → ℕ → ℕ
lesser a b = if leb a b then a else b

abbrev pub min_of : ℕ → List ℕ → ℕ
min_of a [] = a
min_of a (b ∷ bs) = min_of (lesser a b) bs

abbrev pub minimum? : List ℕ → Option ℕ
minimum? [] = none
minimum? (a ∷ xs) = some (min_of a xs)

abbrev pub minimum_or : ℕ → List ℕ → ℕ
minimum_or z [] = z
minimum_or z (a ∷ xs) = min_of a xs

min_of-le : (a : ℕ) (xs : List ℕ) → min_of a xs ≤ a
min_of-le a [] = omega arith
min_of-le a (b ∷ xs) = ground (arith, min_of-le (lesser a b) xs)

min_of-AllValues : (a : ℕ) (d : Dict ℕ) → AllValues (λ b. min_of a (values d) ≤ b) d
min_of-AllValues a [] = tt
min_of-AllValues a ((k, b) ∷ d) =
    (ground (arith, min_of-le (lesser a b) (values d)), min_of-AllValues (lesser a b) d)

-- The minimum of a dictionary is below each of its entries,
pub minimum_or-AllValues : (z : ℕ) (d : Dict ℕ) → AllValues (λ a. minimum_or z (values d) ≤ a) d
minimum_or-AllValues z [] = tt
minimum_or-AllValues z ((k, v) ∷ d) = (min_of-le v (values d), min_of-AllValues v d)

-- and has every property that they all have.
lesser-has {κ} : (P : ℕ → Type κ) (a b : ℕ) → P a → P b → P (lesser a b)
lesser-has P a b p q = elim (Bool-cases (leb a b)) [ inl e ↦ rw e p | inr e ↦ rw e q ]

pub min_of-has {κ} :
    (P : ℕ → Type κ) (a : ℕ) (d : Dict ℕ) → P a → AllValues P d → P (min_of a (values d))
min_of-has P a [] p h = p
min_of-has P a ((k, v) ∷ d) p h = min_of-has P (lesser a v) d (lesser-has P a v p h.0) h.1
