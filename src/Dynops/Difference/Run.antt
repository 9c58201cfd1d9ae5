-- ===== src/Dynops/Difference/Run.antt =====
-- A difference gives the elements of the first iterable that no other one has, each once.
use calvin_base.Base.{
  ℕ, zero, suc, ◌+◌, ◌<◌, ◌≡◌, refl, ap, ◌∙◌, inl, inr, Bool, true, false, not, ◌||◌, ◌&&◌, some,
  List, [], ◌∷◌, length, contains, Bool-cases, arith,
}
use calvin_base.Dynops.{
  Event, pauses, offers, any_offers, Source, everything, answers, script, scripts, some_everything,
  total, run, run_stop, run_more, run_same, Fresh,
}
use calvin_base.Dynops.Difference.{
  Removed, Difference, all_removed, to_remove, init, collect_all, next,
}
use calvin_base.Dynops.Difference.Removals.{
  IsFinite, any_removed, left_to_remove, AllFinite, CollectsAll, collect_all-CollectsAll,
  all_removed-none,
}
use calvin_base.Dynops.Difference.Filters.{state, Filters, run_filter, Fresh-apart, Fresh-fewer}

-- All that a difference answers.
abbrev Differs : ℕ → List Event → List Removed → List ℕ → Type 0
Differs fuel first iters remove =
    (out : List Event) × (run next fuel (state first iters remove) ≡ some out)
    × IsFinite out
    × Fresh [] out
    × ((n : ℕ) → offers out n ≡ (offers first n && not (contains remove n || any_removed iters n)))

Filters-Differs :
    (fuel : ℕ) (first : List Event) (iters : List Removed) (remove : List ℕ)
    → AllFinite iters
    → all_removed iters ≡ true
    → Filters fuel first iters remove
    → Differs fuel first iters remove
Filters-Differs fuel first iters remove f a (out, answered, finite, fresh, same) = (
  out,
  answered,
  finite,
  Fresh-fewer remove [] out (λ n c. refl) fresh,
  λ n. ground (arith, same n, all_removed-none iters n f a, Fresh-apart remove out n fresh finite),
)

-- The state after the elements to remove were collected.
module _ (fuel : ℕ) (first : List Event) (iters : List Removed) (remove : List ℕ)
    (not_all : all_removed iters ≡ false) where
  next-pause :
      (c : Bool × List Removed × List ℕ)
      → collect_all iters remove ≡ c
      → c.0 ≡ false
      → next (state first iters remove) ≡ (some pauses, state first c.1 c.2)
  unfolding next
  next-pause c e p = rw (not_all, e, p) refl

  next-collected :
      (c : Bool × List Removed × List ℕ)
      → collect_all iters remove ≡ c
      → c.0 ≡ true
      → all_removed c.1 ≡ true
      → next (state first iters remove) ≡ next (state first c.1 c.2)
  unfolding next
  next-collected c e p a = rw (not_all, e, p, a) refl

  difference_step :
      (c : Bool × List Removed × List ℕ)
      → collect_all iters remove ≡ c
      → CollectsAll iters remove c
      → IsFinite first
      → length first + left_to_remove iters < suc fuel
      → ((vs : List Removed) (q : List ℕ)
          → AllFinite vs
          → length first + left_to_remove vs < fuel
          → Differs fuel first vs q)
      → Differs (suc fuel) first iters remove
  difference_step (true, vs, q) e (g, h, m, a, b) f l again =
      let (out, answered, finite, fresh, same) =
        Filters-Differs (suc fuel) first vs q g (a refl)
          (run_filter (suc fuel) first vs q (a refl) f (omega arith)) in
      (
        out,
        run_same next fuel _ _ (next-collected (true, vs, q) e refl (a refl)) ∙ answered,
        finite,
        fresh,
        λ n. same n ∙ ap (λ t. offers first n && not t) (h n),
      )
  difference_step (false, vs, q) e (g, h, m, a, b) f l again =
      let (out, answered, finite, fresh, same) = again vs q g (omega (arith, b refl)) in
      (
        pauses ∷ out,
        run_more next fuel _ _ pauses out (next-pause (false, vs, q) e refl) answered,
        finite,
        fresh,
        λ n. same n ∙ ap (λ t. offers first n && not t) (h n),
      )

run_difference :
    (fuel : ℕ) (first : List Event) (iters : List Removed) (remove : List ℕ)
    → AllFinite iters
    → IsFinite first
    → length first + left_to_remove iters < fuel
    → Differs fuel first iters remove
run_difference zero first iters remove g f l = elim l [ ]
run_difference (suc fuel) first iters remove g f l = elim (Bool-cases (all_removed iters)) [
  | inl a ↦
      Filters-Differs (suc fuel) first iters remove g a
        (run_filter (suc fuel) first iters remove a f (omega arith))
  | inr a ↦
      difference_step fuel first iters remove a (collect_all iters remove) refl
        (collect_all-CollectsAll iters remove g) f l
        (λ vs q h k. run_difference fuel first vs q h f k)
]

-- The sources to remove, unless one is infinite from the start.
abbrev pub FiniteSource : Source → Type 0
FiniteSource everything = Unit {0}
FiniteSource (answers es) = IsFinite es

abbrev pub FiniteSources : List Source → Type 0
FiniteSources [] = Unit {0}
FiniteSources (s ∷ ss) = FiniteSource s × FiniteSources ss

to_remove-AllFinite :
    (ss : List Source) → FiniteSources ss → some_everything ss ≡ false → AllFinite (to_remove ss)
to_remove-AllFinite [] f e = tt
to_remove-AllFinite (everything ∷ ss) f e = cc
to_remove-AllFinite (answers es ∷ ss) f e = (f.0, λ h. cc, to_remove-AllFinite ss f.1 e)

to_remove-any_removed :
    (ss : List Source) (n : ℕ) → any_removed (to_remove ss) n ≡ any_offers (scripts ss) n
to_remove-any_removed [] n = refl
to_remove-any_removed (s ∷ ss) n = ap (λ b. offers (script s) n || b) (to_remove-any_removed ss n)

to_remove-left : (ss : List Source) → left_to_remove (to_remove ss) ≡ total (scripts ss)
to_remove-left [] = refl
to_remove-left (s ∷ ss) = ap (λ t. length (script s) + t) (to_remove-left ss)

everything_removed :
    (ss : List Source) (n : ℕ) → some_everything ss ≡ true → any_offers (scripts ss) n ≡ true
everything_removed [] n e = cc
everything_removed (everything ∷ ss) n e = refl
everything_removed (answers es ∷ ss) n e = ground (arith, everything_removed ss n e)

zero_stops : (d : Difference) (fuel : ℕ) → d.zero_set ≡ true → 0 < fuel → run next fuel d ≡ some []
unfolding next
zero_stops d zero z l = elim l [ ]
zero_stops d (suc fuel) z l = run_stop next fuel d d (simp z)

not_zero :
    (first : List Event) (sources : List Source)
    → some_everything sources ≡ false
    → init (answers first) sources ≡ state first (to_remove sources) []
unfolding init
not_zero first sources e =
    λ i. record { first = first; iters = to_remove sources; remove = []; zero_set = e i }

-- The difference of iterables, none of which answers InfiniteElement (an infinite set may be among
-- those to remove if it is known at the start), ends after a number of answers that their events
-- bound, gives no element twice, and offers exactly what the first offers and no other does.
pub difference-offers :
    (first : List Event) (sources : List Source) (fuel : ℕ)
    → IsFinite first
    → FiniteSources sources
    → length first + total (scripts sources) < fuel
    → (out : List Event) × (run next fuel (init (answers first) sources) ≡ some out)
      × IsFinite out
      × Fresh [] out
      × ((n : ℕ) → offers out n ≡ (offers first n && not (any_offers (scripts sources) n)))
unfolding init
difference-offers first sources fuel f g l = elim (Bool-cases (some_everything sources)) [
  | inl e ↦ (
    [],
    zero_stops (init (answers first) sources) fuel e (omega arith),
    tt,
    tt,
    λ n. ground (arith, everything_removed sources n e),
  )
  | inr e ↦
      let (out, answered, finite, fresh, same) =
        run_difference fuel first (to_remove sources) [] (to_remove-AllFinite sources g e) f
          (omega (arith, to_remove-left sources)) in
      (
        out,
        ap (run next fuel) (not_zero first sources e) ∙ answered,
        finite,
        fresh,
        λ n. same n ∙ ap (λ t. offers first n && not t) (to_remove-any_removed sources n),
      )
]
