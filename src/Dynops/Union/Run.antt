-- ===== src/Dynops/Union/Run.antt =====
-- A union gives the elements of all its iterables, each once.
use calvin_base.Base.{
  ℕ, zero, suc, ◌<◌, ◌≡◌, refl, sym, ap, ◌∙◌, ◌⊎◌, inl, inr, Bool, true, false, ◌||◌, Option, none,
  some, List, [], ◌∷◌, contains, contains-append, Bool-cases, arith,
}
use calvin_base.Dynops.{
  Event, gives, infinite, pauses, Source, everything, answers, offers, any_offers, scripts,
  some_everything, total, run, run_stop, run_more, Fresh,
}
use calvin_base.Dynops.Union.{Union, init, draw_from, add_new, next}
use calvin_base.Dynops.Union.Rounds.{Round, IsFresh, draw_from_lem, draw_from-IsFresh}

abbrev drawing : List ℕ → List (List Event) → Union
drawing set iters = record { iters = iters; infinite_set = false; infinite_sent = false; set = set }

-- All that a union answers, with enough fuel.
abbrev Answers : ℕ → List ℕ → List (List Event) → Type 0
Answers fuel set iters =
    (out : List Event) × (run next fuel (drawing set iters) ≡ some out)
    × Fresh set out
    × ((n : ℕ) → (contains set n || offers out n) ≡ (contains set n || any_offers iters n))

Fresh-cons :
    (set : List ℕ) (e : Event) (out : List Event)
    → IsFresh set (some e)
    → Fresh (add_new (some e) set) out
    → Fresh set (e ∷ out)
Fresh-cons set (gives n) out f h = (f, h)
Fresh-cons set infinite out f h = h
Fresh-cons set pauses out f h = h

add_answer :
    (set : List ℕ) (e : Event) (out : List Event) (b : Bool) (n : ℕ)
    → (contains (add_new (some e) set) n || offers out n) ≡ (contains (add_new (some e) set) n || b)
    → (contains set n || offers (e ∷ out) n)
      ≡ (contains (add_new (some e) set) n || (offers (e ∷ []) n || b))
add_answer set (gives m) out b n h = ground (arith, contains-append set (m ∷ []) n)
add_answer set infinite out b n h = ground arith
add_answer set pauses out b n h = h

next-drawing :
    (set : List ℕ) (iters : List (List Event)) (r : Option Event × List (List Event))
    → draw_from set false iters ≡ r
    → next (drawing set iters) ≡ (r.0, drawing (add_new r.0 set) r.1)
unfolding next
next-drawing set iters r e = ap (λ t. (t.0, drawing (add_new t.0 set) t.1)) e

run_step :
    (fuel : ℕ) (set : List ℕ) (iters : List (List Event)) (r : Option Event × List (List Event))
    → draw_from set false iters ≡ r
    → ((n : ℕ) → Round set false iters r n)
    → IsFresh set r.0
    → ((next_set : List ℕ) → total r.1 < fuel → Answers fuel next_set r.1)
    → total iters < suc fuel
    → Answers (suc fuel) set iters
run_step fuel set iters (none, rest) e h f again l =
    ([], run_stop next fuel _ _ (next-drawing set iters _ e), tt, λ n. ground (arith, h n))
run_step fuel set iters (some v, rest) e h f again l =
    let (out, answered, fresh, same) = again (add_new (some v) set) (fewer (h 0).2 l) in
    (
      v ∷ out,
      run_more next fuel _ _ v out (next-drawing set iters _ e) answered,
      Fresh-cons set v out f fresh,
      λ n. add_answer set v out (any_offers rest n) n (same n) ∙ sym (h n).0,
    )
  where
    fewer : (false ≡ true) ⊎ (total rest < total iters) → total iters < suc fuel → total rest < fuel
    fewer (inl t) l = cc
    fewer (inr k) l = omega arith

run_drawing :
    (fuel : ℕ) (set : List ℕ) (iters : List (List Event))
    → total iters < fuel
    → Answers fuel set iters
run_drawing zero set iters l = elim l [ ]
run_drawing (suc fuel) set iters l =
    run_step fuel set iters (draw_from set false iters) refl (λ n. draw_from_lem set false iters n)
      (draw_from-IsFresh set false iters) (λ s k. run_drawing fuel s _ k) l

pub everything_offers :
    (sources : List Source) (n : ℕ)
    → some_everything sources ≡ true
    → any_offers (scripts sources) n ≡ true
everything_offers [] n e = cc
everything_offers (everything ∷ sources) n e = refl
everything_offers (answers es ∷ sources) n e = ground (arith, everything_offers sources n e)

infinite_answers :
    (u : Union) (fuel : ℕ)
    → u.infinite_set ≡ true
    → u.infinite_sent ≡ false
    → 1 < fuel
    → run next fuel u ≡ some (infinite ∷ [])
unfolding next
infinite_answers u zero a b l = absurd (omega arith)
infinite_answers u (suc zero) a b l = absurd (omega arith)
infinite_answers u (suc (suc fuel)) a b l =
    run_more next (suc fuel) u (record u { infinite_sent = true }) infinite [] (simp (a, b))
      (run_stop next fuel _ (record u { infinite_sent = true }) (simp a))

-- The union of iterables ends after at most as many answers as they give together (or with the one
-- answer of an infinite set, where one of them is infinite from the start), gives no element twice, and offers exactly what one of them offers.
pub union-offers :
    (sources : List Source) (fuel : ℕ)
    → total (scripts sources) < fuel
    → 1 < fuel
    → (out : List Event) × (run next fuel (init sources) ≡ some out)
      × Fresh [] out
      × ((n : ℕ) → offers out n ≡ any_offers (scripts sources) n)
unfolding init
union-offers sources fuel l k = elim (Bool-cases (some_everything sources)) [
  | inl all ↦ (
    infinite ∷ [],
    infinite_answers (init sources) fuel all refl (omega arith),
    tt,
    λ n. sym (everything_offers sources n all),
  )
  | inr e ↦ rw e (run_drawing fuel [] (scripts sources) (omega arith))
]
