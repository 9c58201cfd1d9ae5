-- ===== src/Dynops/Intersection/Calls.antt =====
-- A call of `next`: its loop ends, and loses nothing.
use calvin_base.Base.{
  ℕ, zero, suc, ◌+◌, ◌≤◌, ◌<◌, ◌≡◌, refl, sym, ◌∙◌, inl, inr, Bool, true, false, not, ◌||◌, some,
  List, [], ◌∷◌, ◌++◌, length, contains, if◌then◌else◌, Bool-cases, subst, arith,
}
use calvin_base.Dynops.{gives}
use calvin_base.Dynops.Intersection.{
  Iter, draw_all, active, all_inf, all_final, common, forget, unseen, left_events, pop, searching,
  end_search, rounds,
}
use calvin_base.Dynops.Intersection.Draws.{
  every_has, AllSound, weights, AllDraw, every_has-draw_all, draw_all-AllSound, draw_all-AllDraw,
}
use calvin_base.Dynops.Intersection.Common.{all_final-forget, left_events-forget}
use calvin_base.Dynops.Intersection.Rounds.{
  state, known, IsGood, Goes, Result, Result-weaken, pop_lem, round-IsGood, round_known,
  round_weights,
}
use calvin_base.Dynops.Intersection.Ended.{ended}

all_inf-every_has : (vs : List Iter) (n : ℕ) → all_inf vs ≡ true → every_has vs n ≡ true
all_inf-every_has [] n a = refl
all_inf-every_has (v ∷ vs) n a = ground (arith, all_inf-every_has vs n)

-- The state after a round without new candidates.
module _ (set : List ℕ) (vs : List Iter) (sound : AllSound vs)
    (none_new : unseen set (common (draw_all vs)) ≡ [])
    (limited : all_inf (draw_all vs) ≡ false) where
  abbrev rest : List Iter
  rest = forget (common (draw_all vs)) (draw_all vs)

  abbrev before : ℕ → Bool
  before n = contains set n || every_has vs n

  rest_known : (n : ℕ) → before n ≡ known set [] rest n
  rest_known n =
      subst (λ c. before n ≡ known set c rest n) none_new (round_known set vs sound n limited)

  rest-IsGood : IsGood set [] rest
  rest-IsGood = subst (λ c. IsGood set c rest) none_new (round-IsGood set vs sound)

  rest_weights : weights rest ≤ weights (draw_all vs)
  rest_weights = omega (arith, round_weights set vs sound)

  stop_lem : all_final rest ≡ true → (n : ℕ) → before n ≡ contains set n
  stop_lem f n =
      let all_ended =
        ended (draw_all vs) n (draw_all-AllSound vs sound)
          (sym (all_final-forget (common (draw_all vs)) (draw_all vs)) ∙ f) limited in
      rest_known n ∙ ground arith

  pause_lem :
      AllDraw vs (draw_all vs) false
      → all_final rest ≡ false
      → Goes before (weights vs) set (searching set rest)
  pause_lem (a, b, inl c) f =
      absurd (ground (arith, all_final-forget (common (draw_all vs)) (draw_all vs)))
  pause_lem (a, b, inr c) f = record {
    candidates = [];
    iters = rest;
    is_state = refl;
    good = rest-IsGood;
    fewer = omega (arith, rest_weights);
    same = rest_known;
  }

  end_search_lem :
      (b : Bool)
      → AllDraw vs (draw_all vs) b
      → (not b || all_final rest) ≡ true
      → Result set before (weights vs) (end_search set rest)
  end_search_lem b d stop = elim (Bool-cases (all_final rest)) [
    | inl f ↦ rw f (stop_lem f)
    | inr f ↦ rw f (paused b d (ground arith) f)
  ]
    where
      paused :
          (b : Bool)
          → AllDraw vs (draw_all vs) b
          → b ≡ false
          → all_final rest ≡ false
          → Goes before (weights vs) set (searching set rest)
      paused true d e f = cc
      paused false d e f = pause_lem d f

infinite_lem :
    (set : List ℕ) (vs : List Iter)
    → all_inf (draw_all vs) ≡ true
    → (n : ℕ) → (contains set n || every_has vs n) ≡ true
infinite_lem set vs a n = ground (arith, every_has-draw_all vs n, all_inf-every_has (draw_all vs) n)

abbrev rest_of : List Iter → List Iter
rest_of vs = forget (common (draw_all vs)) (draw_all vs)

weights_draw :
    (vs : List Iter) (b : Bool) → AllDraw vs (draw_all vs) b → weights (draw_all vs) ≤ weights vs
weights_draw vs true d = omega arith
weights_draw vs false d = d.1

weights_after : (vs : List Iter) → weights (draw_all vs) ≤ weights vs
weights_after vs = weights_draw vs (active vs) (draw_all-AllDraw vs)

fewer_events :
    (vs : List Iter) (b : Bool) {fuel : ℕ}
    → AllDraw vs (draw_all vs) b
    → b ≡ true
    → left_events vs < suc fuel
    → left_events (rest_of vs) < fuel
fewer_events vs false d e l = cc
fewer_events vs true d e l = omega (arith, left_events-forget (common (draw_all vs)) (draw_all vs))

after_round :
    (fuel : ℕ) (set : List ℕ) (vs : List Iter)
    → AllSound vs
    → all_inf (draw_all vs) ≡ false
    → left_events vs < suc fuel
    → (new : List ℕ) → unseen set (common (draw_all vs)) ≡ new
    → (AllSound (rest_of vs)
        → left_events (rest_of vs) < fuel
        → Result set
            (λ n. contains set n || every_has (rest_of vs) n)
            (weights (rest_of vs))
            (rounds fuel set (rest_of vs)))
    → Result set
        (λ n. contains set n || every_has vs n)
        (weights vs)
        (pop set new (rest_of vs) (
          if not (active vs) || all_final (rest_of vs)
          then end_search set (rest_of vs)
          else rounds fuel set (rest_of vs)))
after_round fuel set vs s a l (e ∷ es) u again =
    Result-weaken {m = weights (rest_of vs) + length (e ∷ es)} {k = weights vs} set
      (some (gives e), state (set ++ e ∷ []) es (rest_of vs))
      (λ n.
        subst (λ c. (contains set n || every_has vs n) ≡ known set c (rest_of vs) n) u
          (round_known set vs s n a))
      (omega (
        arith,
        weights_after vs,
        subst (λ c. length c + weights (rest_of vs) ≤ weights (draw_all vs)) u
            (round_weights set vs s),
      ))
      (pop_lem set e es (rest_of vs)
        (subst (λ c. IsGood set c (rest_of vs)) u (round-IsGood set vs s)))
after_round fuel set vs s a l [] u again =
    elim (Bool-cases (not (active vs) || all_final (rest_of vs))) [
      | inl stop ↦ rw stop (end_search_lem set vs s u a (active vs) (draw_all-AllDraw vs) stop)
      | inr go ↦ rw go (
          Result-weaken set (rounds fuel set (rest_of vs)) (λ n. rest_known set vs s u a n)
            (omega (arith, weights_after vs, rest_weights set vs s u a))
            (again (rest-IsGood set vs s u a).sound
              (fewer_events vs (active vs) (draw_all-AllDraw vs) (ground arith) l)))
    ]

-- A call of `next` loops until it has an answer, with enough fuel, and loses nothing.
pub rounds_lem :
    (fuel : ℕ) (set : List ℕ) (vs : List Iter)
    → AllSound vs
    → left_events vs < fuel
    → Result set (λ n. contains set n || every_has vs n) (weights vs) (rounds fuel set vs)
unfolding rounds
rounds_lem zero set vs s l = elim l [ ]
rounds_lem (suc fuel) set vs s l = elim (Bool-cases (all_inf (draw_all vs))) [
  | inl a ↦ rw a (refl, refl, infinite_lem set vs a)
  | inr a ↦ rw a (
      after_round fuel set vs s a l (unseen set (common (draw_all vs))) refl
        (rounds_lem fuel set (forget (common (draw_all vs)) (draw_all vs))))
]
