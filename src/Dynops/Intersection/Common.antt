-- ===== src/Dynops/Intersection/Common.antt =====
-- What all iterables have given: the candidates of a round, and what is left when they are taken.
use calvin_base.Base.{
  ℕ, ◌+◌, ◌≤◌, ◌≡◌, refl, sym, ◌∙◌, inl, inr, Bool, true, false, not, ◌||◌, ◌&&◌, List, [], ◌∷◌,
  length, contains, Distinct, ◌==◌, ==_iff, Bool-cases, subst, arith,
}
use calvin_base.Dynops.Intersection.{
  Iter, keep, all_inf, all_final, in_every, first_drawn, common, forget, left_events,
}
use calvin_base.Dynops.Intersection.Draws.{has, every_has, AllSound}

keep_here :
    (p : ℕ → Bool) (m n : ℕ) (c : Bool)
    → p m ≡ true
    → (m == n || (c && p n)) ≡ ((m == n || c) && p n)
keep_here p m n c h = elim (Bool-cases (m == n)) [
  | inl e ↦ rw e (sym (subst (λ t. p t ≡ true) ((==_iff m n).0 e) h))
  | inr e ↦ rw e refl
]

keep_not_here :
    (p : ℕ → Bool) (m n : ℕ) (c : Bool) → p m ≡ false → (c && p n) ≡ ((m == n || c) && p n)
keep_not_here p m n c h = elim (Bool-cases (m == n)) [
  | inl e ↦ rw (e, subst (λ t. p t ≡ false) ((==_iff m n).0 e) h) (ground arith)
  | inr e ↦ rw e refl
]

pub contains-keep :
    (p : ℕ → Bool) (xs : List ℕ) (n : ℕ) → contains (keep p xs) n ≡ (contains xs n && p n)
contains-keep p [] n = refl
contains-keep p (m ∷ xs) n = elim (Bool-cases (p m)) [
  | inl h ↦ rw (h, contains-keep p xs n) (keep_here p m n (contains xs n) h)
  | inr h ↦ rw (h, contains-keep p xs n) (keep_not_here p m n (contains xs n) h)
]

pub keep-Distinct : (p : ℕ → Bool) (xs : List ℕ) → Distinct xs → Distinct (keep p xs)
keep-Distinct p [] d = tt
keep-Distinct p (m ∷ xs) d = ground (arith, contains-keep p xs m, keep-Distinct p xs d.1)

pub length-keep : (p : ℕ → Bool) (xs : List ℕ) → length (keep p xs) ≤ length xs
length-keep p [] = omega arith
length-keep p (m ∷ xs) = ground (arith, length-keep p xs)

-- Two tests that no element passes both.
pub length-keep-keep :
    (p q : ℕ → Bool) (xs : List ℕ)
    → ((n : ℕ) → contains xs n ≡ true → p n ≡ true → q n ≡ false)
    → length (keep p xs) + length (keep q xs) ≤ length xs
length-keep-keep p q [] h = omega arith
length-keep-keep p q (m ∷ xs) h =
    let rest = length-keep-keep p q xs (λ n c. h n (ground arith)) in
    let here = h m (ground arith) in ground arith

-- The candidates are what every iterable has drawn.
pub contains-common :
    (vs : List Iter) (n : ℕ) → all_inf vs ≡ false → contains (common vs) n ≡ in_every vs n
contains-common vs n a = contains-keep (in_every vs) (first_drawn vs) n ∙ among vs n a
  where
    among :
        (ws : List Iter) (n : ℕ)
        → all_inf ws ≡ false
        → (contains (first_drawn ws) n && in_every ws n) ≡ in_every ws n
    among [] n a = cc
    among (w ∷ ws) n a = ground (arith, among ws n)

-- Without the candidates an iterable has the other elements still.
has-forget :
    (found : List ℕ) (v : Iter) (n : ℕ)
    → contains found n ≡ false
    → has (record v { drawn = keep (λ k. not (contains found k)) v.drawn }) n ≡ has v n
has-forget found v n e = ground (arith, contains-keep (λ k. not (contains found k)) v.drawn n)

pub every_has-forget :
    (found : List ℕ) (vs : List Iter) (n : ℕ)
    → contains found n ≡ false
    → every_has (forget found vs) n ≡ every_has vs n
every_has-forget found [] n e = refl
every_has-forget found (v ∷ vs) n e =
    ground (arith, has-forget found v n e, every_has-forget found vs n e)

pub forget-AllSound : (found : List ℕ) (vs : List Iter) → AllSound vs → AllSound (forget found vs)
forget-AllSound found [] s = tt
forget-AllSound found (v ∷ vs) s = (
  record { at_end = s.0.at_end; distinct = keep-Distinct _ v.drawn s.0.distinct },
  forget-AllSound found vs s.1,
)

pub all_final-forget :
    (found : List ℕ) (vs : List Iter) → all_final (forget found vs) ≡ all_final vs
all_final-forget found [] = refl
all_final-forget found (v ∷ vs) = rw (all_final-forget found vs) refl

pub left_events-forget :
    (found : List ℕ) (vs : List Iter) → left_events (forget found vs) ≡ left_events vs
left_events-forget found [] = refl
left_events-forget found (v ∷ vs) = rw (left_events-forget found vs) refl

pub every_has-in_every : (vs : List Iter) (n : ℕ) → in_every vs n ≡ true → every_has vs n ≡ true
every_has-in_every [] n e = refl
every_has-in_every (v ∷ vs) n e = ground (arith, every_has-in_every vs n)

pub common-Distinct : (vs : List Iter) → AllSound vs → Distinct (common vs)
common-Distinct vs s = keep-Distinct (in_every vs) (first_drawn vs) (drawn vs s)
  where
    drawn : (ws : List Iter) → AllSound ws → Distinct (first_drawn ws)
    drawn [] s = tt
    drawn (w ∷ ws) s = elim (Bool-cases w.inf) [
      | inl e ↦ rw e (drawn ws s.1)
      | inr e ↦ rw e s.0.distinct
    ]
