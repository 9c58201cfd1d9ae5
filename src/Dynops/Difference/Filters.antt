-- ===== src/Dynops/Difference/Filters.antt =====
-- What a difference answers when every element to remove is known.
use calvin_base.Base.{
  ℕ, zero, suc, ◌<◌, ◌≡◌, refl, sym, ◌∙◌, inl, inr, true, false, ◌||◌, some, List, [], ◌∷◌, ◌++◌,
  length, contains, contains-append, ◌==◌, ==_iff, Bool-cases, subst, arith,
}
use calvin_base.Dynops.{Event, gives, infinite, pauses, offers, run, run_stop, run_more, Fresh}
use calvin_base.Dynops.Union.{Draw, new, paused, stopped, draw_new}
use calvin_base.Dynops.Union.Draws.{Drawn, IsNew, draw_new_lem, draw_new-IsNew}
use calvin_base.Dynops.Difference.{Removed, Difference, all_removed, filtered, filter_first, next}
use calvin_base.Dynops.Difference.Removals.{IsFinite}

abbrev pub state : List Event → List Removed → List ℕ → Difference
state first iters remove = record {
  first = first;
  iters = iters;
  remove = remove;
  zero_set = false;
}

next-filter :
    (first : List Event) (iters : List Removed) (remove : List ℕ)
    → all_removed iters ≡ true
    → next (state first iters remove) ≡ filtered (state first iters remove) (draw_new remove first)
unfolding next filter_first
next-filter first iters remove a = simp a

-- What is left of a finite iterable is finite.
DrawnFinite : Draw → Type 0
DrawnFinite (new e es) = IsFinite (e ∷ es)
DrawnFinite (paused es) = IsFinite es
DrawnFinite stopped = Unit {0}

draw_new-finite : (set : List ℕ) (es : List Event) → IsFinite es → DrawnFinite (draw_new set es)
unfolding DrawnFinite draw_new
draw_new-finite set [] f = tt
draw_new-finite set (pauses ∷ es) f = f
draw_new-finite set (infinite ∷ es) f = absurd f
draw_new-finite set (gives n ∷ es) f = elim (Bool-cases (contains set n)) [
  | inl e ↦ rw e (draw_new-finite set es f)
  | inr e ↦ rw e f
]

-- All that is answered when every element to remove is known.
abbrev pub Filters : ℕ → List Event → List Removed → List ℕ → Type 0
Filters fuel first iters remove =
    (out : List Event) × (run next fuel (state first iters remove) ≡ some out)
    × IsFinite out
    × Fresh remove out
    × ((n : ℕ) → (contains remove n || offers out n) ≡ (contains remove n || offers first n))

filter_step :
    (fuel : ℕ) (first : List Event) (iters : List Removed) (remove : List ℕ) (d : Draw)
    → next (state first iters remove) ≡ filtered (state first iters remove) d
    → ((n : ℕ) → Drawn remove first d n)
    → IsNew remove d
    → DrawnFinite d
    → length first < suc fuel
    → ((es : List Event) (q : List ℕ) → IsFinite es → length es < fuel → Filters fuel es iters q)
    → Filters (suc fuel) first iters remove
unfolding DrawnFinite
filter_step fuel first iters remove stopped e h i f l again =
    ([], run_stop next fuel _ _ e, tt, tt, λ n. ground (arith, h n))
filter_step fuel first iters remove (paused es) e h i f l again =
    let (out, answered, finite, fresh, same) = again es remove f (omega (arith, (h 0).1)) in
    (
      pauses ∷ out,
      run_more next fuel _ _ pauses out e answered,
      finite,
      fresh,
      λ n. same n ∙ sym (h n).0,
    )
filter_step fuel first iters remove (new (gives m) es) e h i f l again =
    let (out, answered, finite, fresh, same) =
      again es (remove ++ m ∷ []) f (omega (arith, (h 0).1)) in
    (
      gives m ∷ out,
      run_more next fuel _ _ (gives m) out e answered,
      finite,
      (i, fresh),
      λ n. ground (arith, h n, same n, contains-append remove (m ∷ []) n),
    )
filter_step fuel first iters remove (new infinite es) e h i f l again = absurd f
filter_step fuel first iters remove (new pauses es) e h i f l again =
    let (out, answered, finite, fresh, same) = again es remove f (omega (arith, (h 0).1)) in
    (
      pauses ∷ out,
      run_more next fuel _ _ pauses out e answered,
      finite,
      fresh,
      λ n. same n ∙ sym (h n).0,
    )

pub run_filter :
    (fuel : ℕ) (first : List Event) (iters : List Removed) (remove : List ℕ)
    → all_removed iters ≡ true
    → IsFinite first
    → length first < fuel
    → Filters fuel first iters remove
run_filter zero first iters remove a f l = elim l [ ]
run_filter (suc fuel) first iters remove a f l =
    filter_step fuel first iters remove (draw_new remove first) (next-filter first iters remove a)
      (λ n. draw_new_lem remove first n) (draw_new-IsNew remove first)
      (draw_new-finite remove first f) l (λ es q g k. run_filter fuel es iters q a g k)

-- Elements that are given are not among those to remove.
pub Fresh-apart :
    (set : List ℕ) (out : List Event) (n : ℕ)
    → Fresh set out
    → IsFinite out
    → contains set n ≡ true
    → offers out n ≡ false
Fresh-apart set [] n f i c = refl
Fresh-apart set (pauses ∷ out) n f i c = Fresh-apart set out n f i c
Fresh-apart set (infinite ∷ out) n f i c = absurd i
Fresh-apart set (gives m ∷ out) n (f, g) i c = elim (Bool-cases (m == n)) [
  | inl e ↦ absurd (ground (arith, subst (λ t. contains set t ≡ false) ((==_iff m n).0 e) f))
  | inr e ↦
      rw e (Fresh-apart (set ++ m ∷ []) out n g i (ground (arith, contains-append set (m ∷ []) n)))
]

pub Fresh-fewer :
    (set few : List ℕ) (out : List Event)
    → ((n : ℕ) → contains set n ≡ false → contains few n ≡ false)
    → Fresh set out
    → Fresh few out
Fresh-fewer set few [] h f = tt
Fresh-fewer set few (pauses ∷ out) h f = Fresh-fewer set few out h f
Fresh-fewer set few (infinite ∷ out) h f = Fresh-fewer set few out h f
Fresh-fewer set few (gives m ∷ out) h (f, g) = (
  h m f,
  Fresh-fewer (set ++ m ∷ []) (few ++ m ∷ []) out
      (λ n c. ground (arith, h n, contains-append set (m ∷ []) n, contains-append few (m ∷ []) n))
      g,
)
