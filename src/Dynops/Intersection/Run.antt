-- ===== src/Dynops/Intersection/Run.antt =====
-- An intersection gives the elements that all its iterables have, each once.
use calvin_base.Base.{
  ℕ, zero, suc, ◌+◌, ◌*◌, ◌≤◌, ◌<◌, ◌≡◌, refl, sym, ap, ◌∙◌, inl, inr, Bool, true, false, not, ◌||◌,
  ◌&&◌, Option, none, some, List, [], ◌∷◌, ◌++◌, length, contains, contains-append, is_empty, ◌==◌,
  Bool-cases, arith,
}
use calvin_base.Dynops.{
  Event, gives, infinite, pauses, offers, all_offer, Source, everything, answers, scripts, total,
  run, run_stop, run_more, Fresh,
}
use calvin_base.Dynops.Intersection.{Iter, Intersection, limiting, init, left_events, rounds, next}
use calvin_base.Dynops.Intersection.Draws.{every_has, AllSound, weights}
use calvin_base.Dynops.Intersection.Calls.{rounds_lem}
use calvin_base.Dynops.Intersection.Rounds.{state, known, IsGood, Result, Result-weaken, pop_lem}

next-Result :
    (set candidates : List ℕ) (vs : List Iter)
    → IsGood set candidates vs
    → Result set
        (known set candidates vs)
        (weights vs + length candidates)
        (next (state set candidates vs))
unfolding next
next-Result set [] vs g =
    Result-weaken {m = weights vs} {k = weights vs + 0} set (rounds (left_events vs + 1) set vs)
      (λ n. refl) (omega arith) (rounds_lem (left_events vs + 1) set vs g.sound (omega arith))
next-Result set (e ∷ rest) vs g = pop_lem set e rest vs g

-- All that an intersection answers from a state on.
abbrev Answers : ℕ → List ℕ → List ℕ → List Iter → Type 0
Answers fuel set candidates vs =
    (out : List Event) × (run next fuel (state set candidates vs) ≡ some out)
    × Fresh set out
    × ((n : ℕ) → (contains set n || offers out n) ≡ known set candidates vs n)

infinite_stops :
    (s : Intersection) (fuel : ℕ)
    → s.infinite_set ≡ true
    → s.infinite_sent ≡ true
    → 0 < fuel
    → run next fuel s ≡ some []
unfolding next
infinite_stops s zero a b l = elim l [ ]
infinite_stops s (suc fuel) a b l = run_stop next fuel s s (simp (a, b))

given :
    (set : List ℕ) (m : ℕ) (b : Bool) (n : ℕ)
    → (contains set n || (m == n || b)) ≡ (contains (set ++ m ∷ []) n || b)
given set m b n = ground (arith, contains-append set (m ∷ []) n)

run_step :
    (fuel : ℕ) (set candidates : List ℕ) (vs : List Iter) (r : Option Event × Intersection)
    → next (state set candidates vs) ≡ r
    → Result set (known set candidates vs) (weights vs + length candidates) r
    → suc (weights vs + length candidates) < suc fuel
    → ((t c : List ℕ) (ws : List Iter)
        → IsGood t c ws
        → suc (weights ws + length c) < fuel
        → Answers fuel t c ws)
    → Answers (suc fuel) set candidates vs
run_step fuel set candidates vs (none, s) e h l again =
    ([], run_stop next fuel _ s e, tt, λ n. ground (arith, h n))
run_step fuel set candidates vs (some infinite, s) e (a, b, h) l again = (
  infinite ∷ [],
  run_more next fuel _ s infinite [] e (infinite_stops s fuel a b (omega arith)),
  tt,
  λ n. ground (arith, h n),
)
run_step fuel set candidates vs (some pauses, s) e g l again =
    let (out, answered, fresh, same) =
      again set g.candidates g.iters g.good (omega (arith, g.fewer)) in
    (
      pauses ∷ out,
      run_more next fuel _ s pauses out e (ap (run next fuel) g.is_state ∙ answered),
      fresh,
      λ n. same n ∙ sym (g.same n),
    )
run_step fuel set candidates vs (some (gives m), s) e (f, g) l again =
    let (out, answered, fresh, same) =
      again (set ++ m ∷ []) g.candidates g.iters g.good (omega (arith, g.fewer)) in
    (
      gives m ∷ out,
      run_more next fuel _ s (gives m) out e (ap (run next fuel) g.is_state ∙ answered),
      (f, fresh),
      λ n. given set m (offers out n) n ∙ same n ∙ sym (g.same n),
    )

run_state :
    (fuel : ℕ) (set candidates : List ℕ) (vs : List Iter)
    → IsGood set candidates vs
    → suc (weights vs + length candidates) < fuel
    → Answers fuel set candidates vs
run_state zero set candidates vs g l = elim l [ ]
run_state (suc fuel) set candidates vs g l =
    run_step fuel set candidates vs (next (state set candidates vs)) refl
      (next-Result set candidates vs g) l (λ t c ws h k. run_state fuel t c ws h k)

limiting-AllSound : (sources : List Source) → AllSound (limiting sources)
limiting-AllSound [] = tt
limiting-AllSound (everything ∷ sources) = limiting-AllSound sources
limiting-AllSound (answers es ∷ sources) =
    (record { at_end = λ h. cc; distinct = tt }, limiting-AllSound sources)

limiting-every_has :
    (sources : List Source) (n : ℕ) → every_has (limiting sources) n ≡ all_offer (scripts sources) n
limiting-every_has [] n = refl
limiting-every_has (everything ∷ sources) n = limiting-every_has sources n
limiting-every_has (answers es ∷ sources) n =
    ap (λ b. offers es n && b) (limiting-every_has sources n)

limiting-weights :
    (sources : List Source) → weights (limiting sources) ≤ 2 * total (scripts sources)
limiting-weights [] = omega arith
limiting-weights (everything ∷ sources) = omega (arith, limiting-weights sources)
limiting-weights (answers es ∷ sources) = omega (arith, limiting-weights sources)

everything_offers :
    (sources : List Source) (n : ℕ)
    → is_empty (limiting sources) ≡ true
    → all_offer (scripts sources) n ≡ true
everything_offers [] n e = refl
everything_offers (everything ∷ sources) n e = everything_offers sources n e
everything_offers (answers es ∷ sources) n e = cc

infinite_answers :
    (s : Intersection) (fuel : ℕ)
    → s.infinite_set ≡ true
    → s.infinite_sent ≡ false
    → 1 < fuel
    → run next fuel s ≡ some (infinite ∷ [])
unfolding next
infinite_answers s zero a b l = elim l [ ]
infinite_answers s (suc fuel) a b l =
    run_more next fuel s (record s { infinite_sent = true }) infinite [] (simp (a, b))
      (infinite_stops (record s { infinite_sent = true }) fuel a refl (omega arith))

not_infinite :
    (sources : List Source)
    → (is_empty (limiting sources) && not (is_empty sources)) ≡ false
    → init sources ≡ state [] [] (limiting sources)
unfolding init
not_infinite sources e = λ i. record {
  iters = limiting sources;
  set = [];
  candidates = [];
  infinite_set = e i;
  infinite_sent = false;
}

-- The intersection of iterables ends after a number of answers that their events bound, gives no
-- element twice, and offers exactly what all of them offer, whatever pauses they make.
pub intersection-offers :
    (sources : List Source) (fuel : ℕ)
    → 2 * total (scripts sources) + 1 < fuel
    → (out : List Event) × (run next fuel (init sources) ≡ some out)
      × Fresh [] out
      × ((n : ℕ) → offers out n ≡ all_offer (scripts sources) n)
unfolding init
intersection-offers sources fuel l =
    elim (Bool-cases (is_empty (limiting sources) && not (is_empty sources))) [
      | inl e ↦ (
        infinite ∷ [],
        infinite_answers (init sources) fuel e refl (omega arith),
        tt,
        λ n. sym (everything_offers sources n (ground arith)),
      )
      | inr e ↦
          let (out, answered, fresh, same) =
            run_state fuel [] [] (limiting sources)
              (record { sound = limiting-AllSound sources; distinct = tt; apart = λ n h. cc })
              (omega (arith, limiting-weights sources)) in
          (
            out,
            ap (run next fuel) (not_infinite sources e) ∙ answered,
            fresh,
            λ n. same n ∙ limiting-every_has sources n,
          )
    ]
