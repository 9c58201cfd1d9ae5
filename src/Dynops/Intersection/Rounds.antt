-- ===== src/Dynops/Intersection/Rounds.antt =====
-- One call of `next`: the rounds of its loop end, and nothing is lost in them.
use calvin_base.Base.{
  ℕ, ◌+◌, ◌≤◌, ◌<◌, ◌≡◌, refl, ◌∙◌, inl, inr, Bool, true, false, not, ◌||◌, Option, none, some,
  List, [], ◌∷◌, ◌++◌, length, contains, contains-append, Distinct, ◌==◌, ==_iff, Bool-cases, subst,
  arith,
}
use calvin_base.Dynops.{Event, gives, infinite, pauses}
use calvin_base.Dynops.Intersection.{
  Iter, Intersection, draw_all, all_inf, in_every, first_drawn, common, forget, unseen,
}
use calvin_base.Dynops.Intersection.Draws.{
  every_has, AllSound, weights, every_has-draw_all, draw_all-AllSound,
}
use calvin_base.Dynops.Intersection.Common.{
  contains-keep, keep-Distinct, length-keep, contains-common, every_has-forget, forget-AllSound,
  every_has-in_every, common-Distinct,
}
use calvin_base.Dynops.Intersection.Ended.{candidates_taken}

abbrev pub state : List ℕ → List ℕ → List Iter → Intersection
state set candidates iters = record {
  iters = iters;
  set = set;
  candidates = candidates;
  infinite_set = false;
  infinite_sent = false;
}

-- The elements that are given or still to come.
abbrev pub known : List ℕ → List ℕ → List Iter → ℕ → Bool
known set candidates iters n = contains set n || (contains candidates n || every_has iters n)

pub record IsGood (set candidates : List ℕ) (iters : List Iter) : Type 0 where
  pub sound : AllSound iters
  pub distinct : Distinct candidates
  pub apart : (n : ℕ) → contains candidates n ≡ true → contains set n ≡ false

-- The state after an answer: nothing that was known to come (`before`) is lost, and less is left
-- than `measure`.
pub record Goes (before : ℕ → Bool) (measure : ℕ) (set : List ℕ) (s : Intersection) : Type 0 where
  pub candidates : List ℕ
  pub iters : List Iter
  pub is_state : s ≡ state set candidates iters
  pub good : IsGood set candidates iters
  pub fewer : weights iters + length candidates < measure
  pub same : (n : ℕ) → before n ≡ known set candidates iters n

abbrev pub Result : List ℕ → (ℕ → Bool) → ℕ → Option Event × Intersection → Type 0
Result set before measure (none, s) = (n : ℕ) → before n ≡ contains set n
Result set before measure (some (gives e), s) =
    (contains set e ≡ false) × Goes before measure (set ++ e ∷ []) s
Result set before measure (some infinite, s) =
    (s.infinite_set ≡ true) × (s.infinite_sent ≡ true) × ((n : ℕ) → before n ≡ true)
Result set before measure (some pauses, s) = Goes before measure set s

Goes-weaken :
    {before after : ℕ → Bool} {m k : ℕ} {set : List ℕ} {s : Intersection}
    → ((n : ℕ) → after n ≡ before n)
    → m ≤ k
    → Goes before m set s
    → Goes after k set s
Goes-weaken h l g = record {
  candidates = g.candidates;
  iters = g.iters;
  is_state = g.is_state;
  good = g.good;
  fewer = omega (arith, g.fewer);
  same = λ n. h n ∙ g.same n;
}

pub Result-weaken :
    {before after : ℕ → Bool} {m k : ℕ} (set : List ℕ) (r : Option Event × Intersection)
    → ((n : ℕ) → after n ≡ before n)
    → m ≤ k
    → Result set before m r
    → Result set after k r
Result-weaken set (none, s) h l r = λ n. h n ∙ r n
Result-weaken set (some (gives e), s) h l (f, g) = (f, Goes-weaken h l g)
Result-weaken set (some infinite, s) h l (a, b, c) = (a, b, λ n. h n ∙ c n)
Result-weaken set (some pauses, s) h l g = Goes-weaken h l g

still_apart :
    (set : List ℕ) (e : ℕ) (rest : List ℕ) (n : ℕ)
    → contains rest e ≡ false
    → contains rest n ≡ true
    → contains set n ≡ false
    → contains (set ++ e ∷ []) n ≡ false
still_apart set e rest n d c a = elim (Bool-cases (e == n)) [
  | inl q ↦ absurd (ground (arith, subst (λ t. contains rest t ≡ false) ((==_iff e n).0 q) d))
  | inr q ↦ ground (arith, contains-append set (e ∷ []) n)
]

-- A candidate is given.
pub pop_lem :
    (set : List ℕ) (e : ℕ) (rest : List ℕ) (iters : List Iter)
    → IsGood set (e ∷ rest) iters
    → Result set
        (known set (e ∷ rest) iters)
        (weights iters + length (e ∷ rest))
        (some (gives e), state (set ++ e ∷ []) rest iters)
pop_lem set e rest iters g = (
  g.apart e (ground arith),
  record {
    candidates = rest;
    iters = iters;
    is_state = refl;
    good = record {
      sound = g.sound;
      distinct = g.distinct.1;
      apart = λ n c. still_apart set e rest n g.distinct.0 c (g.apart n (ground arith));
    };
    fewer = omega arith;
    same = λ n. ground (arith, contains-append set (e ∷ []) n);
  },
)

-- The state after a round, whose candidates are those that were not given before.
module _ (set : List ℕ) (vs : List Iter) (sound : AllSound vs) where
  abbrev pub drawn : List Iter
  drawn = draw_all vs

  abbrev pub found : List ℕ
  found = common drawn

  abbrev pub left : List Iter
  left = forget found drawn

  pub round-IsGood : IsGood set (unseen set found) left
  round-IsGood = record {
    sound = forget-AllSound found drawn (draw_all-AllSound vs sound);
    distinct = keep-Distinct _ found (common-Distinct drawn (draw_all-AllSound vs sound));
    apart = λ n c. ground (arith, contains-keep (λ k. not (contains set k)) found n);
  }

  pub round_known :
      (n : ℕ)
      → all_inf drawn ≡ false
      → (contains set n || every_has vs n) ≡ known set (unseen set found) left n
  round_known n a = elim (Bool-cases (contains found n)) [
    | inl f ↦ ground (
      arith,
      every_has-draw_all vs n,
      every_has-in_every drawn n,
      contains-common drawn n a,
      contains-keep (λ k. not (contains set k)) found n,
    )
    | inr f ↦ ground (
      arith,
      every_has-draw_all vs n,
      every_has-forget found drawn n f,
      contains-keep (λ k. not (contains set k)) found n,
    )
  ]

  pub round_weights : length (unseen set found) + weights left ≤ weights drawn
  round_weights = omega (
    arith,
    length-keep (λ n. not (contains set n)) found,
    candidates_taken (in_every drawn) found drawn
        (λ n c p. contains-keep (in_every drawn) (first_drawn drawn) n ∙ ground arith),
  )
