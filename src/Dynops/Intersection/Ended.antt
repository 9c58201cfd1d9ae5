-- ===== src/Dynops/Intersection/Ended.antt =====
-- What the iterables of an intersection have in common once they are at their end.
use calvin_base.Base.{
  ℕ, ◌+◌, ◌≤◌, ◌≡◌, refl, ap, ◌∙◌, inl, inr, Bool, true, false, not, List, [], ◌∷◌, length,
  contains, if◌then◌else◌, Bool-cases, arith,
}
use calvin_base.Dynops.{offers}
use calvin_base.Dynops.Intersection.{
  Iter, keep, all_inf, all_final, in_every, first_drawn, common, forget,
}
use calvin_base.Dynops.Intersection.Draws.{every_has, AllSound, weight, weights}
use calvin_base.Dynops.Intersection.Common.{
  contains-keep, length-keep, length-keep-keep, contains-common,
}

weights-forget : (found : List ℕ) (vs : List Iter) → weights (forget found vs) ≤ weights vs
weights-forget found [] = omega arith
weights-forget found (v ∷ vs) =
    omega (arith, weights-forget found vs, length-keep (λ n. not (contains found n)) v.drawn)

abbrev remaining : List ℕ → Iter → Iter
remaining found v = record v { drawn = keep (λ n. not (contains found n)) v.drawn }

taken :
    (p : ℕ → Bool) (found : List ℕ) (v : Iter) (vs : List Iter) (b : Bool)
    → (((n : ℕ) → contains (first_drawn vs) n ≡ true → p n ≡ true → contains found n ≡ true)
        → length (keep p (first_drawn vs)) + weights (forget found vs) ≤ weights vs)
    → ((n : ℕ)
        → contains (if b then first_drawn vs else v.drawn) n ≡ true
        → p n ≡ true
        → contains found n ≡ true)
    → length (keep p (if b then first_drawn vs else v.drawn))
        + (weight (remaining found v) + weights (forget found vs))
      ≤ weight v + weights vs
taken p found v vs true ih h =
    omega (arith, ih h, length-keep (λ n. not (contains found n)) v.drawn)
taken p found v vs false ih h = omega (
  arith,
  weights-forget found vs,
  length-keep-keep p (λ n. not (contains found n)) v.drawn (λ n c q. ap not (h n c q)),
)

-- Each candidate is taken from the first iterable that is not infinite.
pub candidates_taken :
    (p : ℕ → Bool) (found : List ℕ) (vs : List Iter)
    → ((n : ℕ) → contains (first_drawn vs) n ≡ true → p n ≡ true → contains found n ≡ true)
    → length (keep p (first_drawn vs)) + weights (forget found vs) ≤ weights vs
candidates_taken p found [] h = omega arith
candidates_taken p found (v ∷ vs) h = taken p found v vs v.inf (candidates_taken p found vs) h

-- Where all iterables are at their end, what they have in common is among the candidates.
ended_in_every :
    (found : List ℕ) (vs : List Iter) (n : ℕ)
    → AllSound vs
    → all_final vs ≡ true
    → every_has (forget found vs) n ≡ true
    → in_every vs n ≡ true
ended_in_every found [] n s f e = refl
ended_in_every found (v ∷ vs) n s f e =
    let rest = ended_in_every found vs n s.1 (ground arith) (ground arith) in
    elim (s.0.at_end (ground arith)) [
      | inl i ↦ ground arith
      | inr h ↦
          ground
            (arith, contains-keep (λ k. not (contains found k)) v.drawn n, ap (λ es. offers es n) h)
    ]

ended_found :
    (found : List ℕ) (vs : List Iter) (n : ℕ)
    → AllSound vs
    → all_final vs ≡ true
    → all_inf vs ≡ false
    → contains found n ≡ true
    → every_has (forget found vs) n ≡ false
ended_found found [] n s f a c = cc
ended_found found (v ∷ vs) n s f a c = elim (s.0.at_end (ground arith)) [
  | inl i ↦ ground (arith, ended_found found vs n s.1 (ground arith) (ground arith) c)
  | inr h ↦ elim (Bool-cases v.inf) [
    | inl i ↦ ground (arith, ended_found found vs n s.1 (ground arith) (ground arith) c)
    | inr i ↦
        ground
          (arith, contains-keep (λ k. not (contains found k)) v.drawn n, ap (λ es. offers es n) h)
  ]
]

pub ended :
    (vs : List Iter) (n : ℕ)
    → AllSound vs
    → all_final vs ≡ true
    → all_inf vs ≡ false
    → every_has (forget (common vs) vs) n ≡ false
ended vs n s f a = elim (Bool-cases (every_has (forget (common vs) vs) n)) [
  | inr e ↦ e
  | inl e ↦
      ended_found (common vs) vs n s f a
        (contains-common vs n a ∙ ended_in_every (common vs) vs n s f e)
]
