-- ===== src/Requirements/Match.antt =====
-- The nodes that are found are those that meet every requirement.
use calvin_base.Base.{
  ℕ, zero, suc, ◌<◌, ◌≡◌, refl, sym, ap, ◌∙◌, ◌⊎◌, inl, inr, Bool, true, false, not, ◌&&◌, ◌||◌,
  List, [], ◌∷◌, contains, length, if◌then◌else◌, subst, arith,
}
use calvin_base.Dynops.{
  add, contains-add, Event, gives, infinite, pauses, offers, any_offers, all_offer, scripts,
}
use calvin_base.Dynops.Difference.Run.{FiniteSources}
use calvin_base.Requirements.{
  Requirement, intersection_iters, difference_iters, build_match, ReqMatch, start, collect,
  collect_placements, placements,
}
use calvin_base.Requirements.Build.{meets_all, requirements_split, Limits, build_match-offers}

-- The calls of `_collect_placements`, after every pause again.
unfoldable pub poll : ℕ → ReqMatch → ReqMatch
poll zero m = m
poll (suc k) m = let rest = poll k (collect_placements m).0 in if m.done then m else rest

-- The nodes that are found or still to come.
abbrev coming : ReqMatch → ℕ → Bool
coming m n = m.has_infinite || (contains m.possible_placements n || offers m.events n)

-- How a call ends: done with nothing left, or at a pause that it uses up.
abbrev Ends : ReqMatch → Bool → ℕ → Type 0
Ends l d k = ((l.done ≡ true) × (l.events ≡ [])) ⊎ ((l.done ≡ d) × (length l.events < k))

abbrev Collects : ReqMatch → ReqMatch → Type 0
Collects m l = ((n : ℕ) → coming l n ≡ coming m n) × Ends l m.done (length m.events)

longer : (l : ReqMatch) (d : Bool) (k : ℕ) → Ends l d k → Ends l d (suc k)
longer l d k (inl e) = inl e
longer l d k (inr (e, h)) = inr (e, omega arith)

collect-Collects :
    (es : List Event) (m : ReqMatch) → Collects (record m { events = es }) (collect es m).0
unfolding collect
collect-Collects [] m = (λ n. refl, inl (refl, refl))
collect-Collects (pauses ∷ es) m = (λ n. refl, inr (refl, omega arith))
collect-Collects (infinite ∷ es) m =
    let (same, ends) = collect-Collects es (record m { has_infinite = true }) in
    (
      λ n. same n ∙ ground arith,
      longer (collect es (record m { has_infinite = true })).0 m.done (length es) ends,
    )
collect-Collects (gives k ∷ es) m =
    let (same, ends) =
      collect-Collects es (record m { possible_placements = add k m.possible_placements }) in
    (
      λ n. same n ∙ ground (arith, contains-add k m.possible_placements n),
      longer (collect es (record m { possible_placements = add k m.possible_placements })).0 m.done
          (length es) ends,
    )

-- A match that is done has found everything.
abbrev Complete : ReqMatch → (ℕ → Bool) → Type 0
Complete m all =
    (m.done ≡ true) × ((n : ℕ) → (m.has_infinite || contains m.possible_placements n) ≡ all n)

poll_done : (k : ℕ) (m : ReqMatch) → m.done ≡ true → poll k m ≡ m
unfolding poll
poll_done zero m d = refl
poll_done (suc k) m d = simp d

poll_step :
    (k : ℕ) (m l : ReqMatch) (all : ℕ → Bool)
    → m.done ≡ false
    → ((n : ℕ) → coming l n ≡ all n)
    → Ends l m.done (length m.events)
    → length m.events < suc k
    → (l.done ≡ false → length l.events < k → Complete (poll k l) all)
    → Complete (poll k l) all
poll_step k m l all f h (inl (d, e)) lt again =
    subst (λ x. Complete x all) (sym (poll_done k l d))
      (d, λ n. ground (arith, h n, ap (λ es. offers es n) e))
poll_step k m l all f h (inr (d, fewer)) lt again = again (d ∙ f) (omega arith)

poll_lem :
    (k : ℕ) (m : ReqMatch) (all : ℕ → Bool)
    → m.done ≡ false
    → ((n : ℕ) → coming m n ≡ all n)
    → length m.events < k
    → Complete (poll k m) all
unfolding poll collect_placements
poll_lem zero m all d h l = elim l [ ]
poll_lem (suc k) m all d h l =
    let (same, ends) = collect-Collects m.events m in
    simp d (
      poll_step k m (collect m.events m).0 all d (λ n. same n ∙ h n) ends l
        (λ f fewer. poll_lem k _ all f (λ n. same n ∙ h n) fewer))

-- Where the requirements other than the negative ones leave some node out, and no negative one
-- answers InfiniteElement later than at its start: after as many calls as there are answers and one
-- more the match is done, and the possible placements are exactly the nodes that meet every
-- requirement, one alternative of each group, and no negative requirement; those that failed are
-- dropped.
pub match_lem :
    (rs : List Requirement) (replace_infinite : Bool) (known : List ℕ) (k : ℕ)
    → Limits rs
    → FiniteSources (difference_iters rs)
    → length (build_match rs) < k
    → ((poll k (start rs)).done ≡ true)
      × ((n : ℕ)
          → contains (placements replace_infinite known (poll k (start rs))) n ≡ meets_all rs n)
unfolding start
match_lem rs replace known k limits f l =
    let (done, all) =
      poll_lem k (start rs) (meets_all rs) refl (λ n. build_match-offers rs n limits f) l in
    (
      done,
      λ n. limited (poll k (start rs)) n (all n) (all limits.0) (requirements_split rs limits.0),
    )
  where
    limited :
        (m : ReqMatch) (n : ℕ)
        → (m.has_infinite || contains m.possible_placements n) ≡ meets_all rs n
        → (m.has_infinite || contains m.possible_placements limits.0) ≡ meets_all rs limits.0
        → meets_all rs limits.0 ≡ (
            all_offer (scripts (intersection_iters rs)) limits.0
            && not (any_offers (scripts (difference_iters rs)) limits.0))
        → contains (placements replace known m) n ≡ meets_all rs n
    limited m n a b c = ground (arith, limits.1)
