-- ===== src/Dynops/Intersection/Draws.antt =====
-- One draw from each iterable: no element is lost, and events are used up.
use calvin_base.Base.{
  ℕ, ◌+◌, ◌*◌, ◌≤◌, ◌<◌, ◌≡◌, refl, ap, ◌⊎◌, inl, inr, Bool, true, false, ◌||◌, ◌&&◌, List, [], ◌∷◌,
  length, length-append, contains, Distinct, append-Distinct, Bool-cases, arith,
}
use calvin_base.Dynops.{contains-add, add, Event, gives, infinite, pauses, offers}
use calvin_base.Dynops.Intersection.{
  Iter, draw_next, draw, draw_all, active, all_final, left_events,
}

-- What an iterable still has to offer.
abbrev pub has : Iter → ℕ → Bool
has v n = v.inf || (contains v.drawn n || offers v.script n)

abbrev pub every_has : List Iter → ℕ → Bool
every_has [] n = true
every_has (v ∷ vs) n = has v n && every_has vs n

-- An iterable is final at its end, or where it is infinite, and what was drawn is a set.
pub record IsSound (v : Iter) : Type 0 where
  pub at_end : v.final ≡ true → (v.inf ≡ true) ⊎ (v.script ≡ [])
  pub distinct : Distinct v.drawn

abbrev pub AllSound : List Iter → Type 0
AllSound [] = Unit {0}
AllSound (v ∷ vs) = IsSound v × AllSound vs

abbrev pub weight : Iter → ℕ
weight v = 2 * length v.script + length v.drawn

abbrev pub weights : List Iter → ℕ
weights [] = 0
weights (v ∷ vs) = weight v + weights vs

length-add : (m : ℕ) (s : List ℕ) → length (add m s) ≤ length s + 1
length-add m s = elim (Bool-cases (contains s m)) [
  | inl old ↦ rw old (omega arith)
  | inr new ↦ rw new (omega (arith, length-append s (m ∷ [])))
]

add-Distinct : (m : ℕ) (s : List ℕ) → Distinct s → Distinct (add m s)
add-Distinct m s d = elim (Bool-cases (contains s m)) [
  | inl old ↦ rw old d
  | inr new ↦ rw new (append-Distinct m s new d)
]

-- A draw that is active leaves fewer events; one that is not, and not the last, too.
abbrev pub Draws : Iter → Iter × Bool → Type 0
Draws v (w, true) = (length w.script < length v.script) × (weight w < weight v)
Draws v (w, false) =
    (length w.script ≤ length v.script)
    × (weight w ≤ weight v)
    × ((w.final ≡ true) ⊎ (weight w < weight v))

pub draw-has : (v : Iter) (n : ℕ) → has (draw v).0 n ≡ has v n
unfolding draw
draw-has v n = elim (Bool-cases v.final) [ inl f ↦ simp f | inr f ↦ simp f (drawn v.script refl) ]
  where
    drawn : (es : List Event) → v.script ≡ es → has (draw_next es v).0 n ≡ has v n
    drawn [] e = refl
    drawn (pauses ∷ es) e = rw e refl
    drawn (infinite ∷ es) e = rw e (ground arith)
    drawn (gives m ∷ es) e = rw e (ground (arith, contains-add m v.drawn n))

draw-Draws : (v : Iter) → Draws v (draw v)
unfolding draw
draw-Draws v = elim (Bool-cases v.final) [
  | inl f ↦ simp f (omega arith, omega arith, inl refl)
  | inr f ↦ simp f (drawn v.script refl)
]
  where
    drawn : (es : List Event) → v.script ≡ es → Draws v (draw_next es v)
    drawn [] e = (omega arith, omega arith, inl refl)
    drawn (pauses ∷ es) e = let l = ap length e in (omega arith, omega arith, inr (omega arith))
    drawn (infinite ∷ es) e = let l = ap length e in (omega arith, omega arith)
    drawn (gives m ∷ es) e =
        let l = ap length e in (omega arith, omega (arith, length-add m v.drawn))

draw-IsSound : (v : Iter) → IsSound v → IsSound (draw v).0
unfolding draw
draw-IsSound v s = elim (Bool-cases v.final) [
  | inl f ↦ simp f s
  | inr f ↦ simp f (drawn f v.script refl)
]
  where
    drawn : v.final ≡ false → (es : List Event) → v.script ≡ es → IsSound (draw_next es v).0
    drawn f [] e = record { at_end = λ h. inr e; distinct = s.distinct }
    drawn f (pauses ∷ es) e = record { at_end = λ h. cc; distinct = s.distinct }
    drawn f (infinite ∷ es) e = record { at_end = λ h. inl refl; distinct = s.distinct }
    drawn f (gives m ∷ es) e = record {
      at_end = λ h. cc;
      distinct = add-Distinct m v.drawn s.distinct;
    }

-- All iterables together.
pub every_has-draw_all : (vs : List Iter) (n : ℕ) → every_has (draw_all vs) n ≡ every_has vs n
every_has-draw_all [] n = refl
every_has-draw_all (v ∷ vs) n = ground (arith, draw-has v n, every_has-draw_all vs n)

pub draw_all-AllSound : (vs : List Iter) → AllSound vs → AllSound (draw_all vs)
draw_all-AllSound [] s = tt
draw_all-AllSound (v ∷ vs) s = (draw-IsSound v s.0, draw_all-AllSound vs s.1)

abbrev pub AllDraw : List Iter → List Iter → Bool → Type 0
AllDraw vs ws true = (left_events ws < left_events vs) × (weights ws < weights vs)
AllDraw vs ws false =
    (left_events ws ≤ left_events vs)
    × (weights ws ≤ weights vs)
    × ((all_final ws ≡ true) ⊎ (weights ws < weights vs))

AllDraw-cons :
    (v : Iter) (vs ws : List Iter) (r : Iter × Bool) (b : Bool)
    → Draws v r
    → AllDraw vs ws b
    → AllDraw (v ∷ vs) (r.0 ∷ ws) (r.1 || b)
AllDraw-cons v vs ws (w, true) true h k = (omega arith, omega arith)
AllDraw-cons v vs ws (w, true) false h k = (omega arith, omega arith)
AllDraw-cons v vs ws (w, false) true h k = (omega arith, omega arith)
AllDraw-cons v vs ws (w, false) false (a, b, c) (d, e, f) = (omega arith, omega arith, final c f)
  where
    final :
        (w.final ≡ true) ⊎ (weight w < weight v)
        → (all_final ws ≡ true) ⊎ (weights ws < weights vs)
        → (all_final (w ∷ ws) ≡ true) ⊎ (weights (w ∷ ws) < weights (v ∷ vs))
    final (inl p) (inl q) = inl (ground arith)
    final (inr p) q = inr (omega arith)
    final (inl p) (inr q) = inr (omega arith)

pub draw_all-AllDraw : (vs : List Iter) → AllDraw vs (draw_all vs) (active vs)
draw_all-AllDraw [] = (omega arith, omega arith, inl refl)
draw_all-AllDraw (v ∷ vs) =
    AllDraw-cons v vs (draw_all vs) (draw v) (active vs) (draw-Draws v) (draw_all-AllDraw vs)
