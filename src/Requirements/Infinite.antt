-- ===== src/Requirements/Infinite.antt =====
-- A requirement that is negative only.
use calvin_base.Base.{
  ℕ, zero, suc, ◌+◌, ◌<◌, ◌≡◌, refl, ap, ◌∙◌, true, false, some, List, [], ◌∷◌, length,
  get_or_default, arith,
}
use calvin_base.Dynops.{add, Event, gives, infinite, answers, run, run_stop, run_more}
use calvin_base.Dynops.Intersection as Intersection
use calvin_base.Dynops.Union.{draw_new}
use calvin_base.Dynops.Difference as Difference
use calvin_base.Dynops.Difference.{Removed, init, next}
use calvin_base.Requirements.{
  negative, intersection_events, difference_events, build_match, start, collect_placements,
  placements,
}
use calvin_base.Requirements.Match.{poll}

-- Elements only: a list that is at hand.
abbrev pub listed : List ℕ → List Event
listed [] = []
listed (n ∷ ns) = gives n ∷ listed ns

collect-listed :
    (ns remove : List ℕ) → (r : List ℕ) × (Difference.collect (listed ns) remove ≡ (true, [], r))
unfolding Difference.collect
collect-listed [] remove = (remove, refl)
collect-listed (n ∷ ns) remove = collect-listed ns (add n remove)

-- What the difference answers: InfiniteElement.
difference_infinite :
    (ns : List ℕ) (fuel : ℕ)
    → 1 < fuel
    → run next fuel (init (answers (infinite ∷ [])) (answers (listed ns) ∷ []))
      ≡ some (infinite ∷ [])
unfolding next init draw_new
difference_infinite ns zero l = elim l [ ]
difference_infinite ns (suc zero) l = absurd (omega arith)
difference_infinite ns (suc (suc fuel)) l =
    let (r, e) = collect-listed ns [] in
    run_more next (suc fuel) _
      (record {
        first = [];
        iters = record { script = []; final = true } ∷ [];
        remove = r;
        zero_set = false;
      })
      infinite [] (rw e refl) (run_stop next fuel _ _ refl)

-- The intersection of nothing is infinite.
nothing_infinite : intersection_events [] ≡ infinite ∷ []
unfolding run Intersection.next Intersection.init
nothing_infinite = refl

events_infinite :
    (ns : List ℕ) → build_match (negative (some (answers (listed ns))) ∷ []) ≡ infinite ∷ []
unfolding build_match
events_infinite ns =
    ap (λ f. difference_events f (answers (listed ns) ∷ [])) nothing_infinite
    ∙ ap (get_or_default []) (
        difference_infinite ns (length {A = Event} (infinite ∷ []) + (length (listed ns) + 0) + 1)
          (omega arith))

-- An actor whose only requirement excludes the nodes of a list may be placed on every known node,
-- also on those: the possible placements are all that is known.
pub match_negative_only :
    (ns known : List ℕ)
    → placements true known (poll 2 (start (negative (some (answers (listed ns))) ∷ []))) ≡ known
unfolding start poll collect_placements
match_negative_only ns known =
    ap
      (λ es. placements true known (
        poll 2 (record {
          events = es;
          possible_placements = [];
          has_infinite = false;
          counter = 0;
          done = false;
        })))
      (events_infinite ns)
