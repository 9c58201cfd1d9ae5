-- ===== src/Dynops/Union/Draws.antt =====
-- A draw from one iterable: up to an element that is new, a pause, or the end.
use calvin_base.Base.{
  ℕ, ◌<◌, ◌≡◌, refl, sym, ◌∙◌, inl, inr, true, false, ◌||◌, some, List, [], ◌∷◌, length, contains,
  contains-append, if◌then◌else◌, Bool-cases, ◌==◌, ==_iff, subst, arith,
}
use calvin_base.Dynops.{Event, gives, infinite, pauses, offers}
use calvin_base.Dynops.Union.{Draw, new, paused, stopped, draw_new, add_new}

-- What a draw tells of the elements, and that it uses up events.
abbrev pub Drawn : List ℕ → List Event → Draw → ℕ → Type 0
Drawn set v (new e w) n =
    ((contains set n || offers v n) ≡ (contains (add_new (some e) set) n || offers (e ∷ w) n))
    × (length w < length v)
Drawn set v (paused w) n =
    ((contains set n || offers v n) ≡ (contains set n || offers w n)) × (length w < length v)
Drawn set v stopped n = (contains set n || offers v n) ≡ contains set n

skip_old :
    (set : List ℕ) (m : ℕ) (v : List Event) (n : ℕ)
    → contains set m ≡ true
    → (contains set n || offers (gives m ∷ v) n) ≡ (contains set n || offers v n)
skip_old set m v n c = elim (Bool-cases (m == n)) [
  | inl e ↦ rw (subst (λ t. contains set t ≡ true) ((==_iff m n).0 e) c) refl
  | inr e ↦ rw e refl
]

Drawn-skip :
    (set : List ℕ) (m : ℕ) (v : List Event) (d : Draw) (n : ℕ)
    → contains set m ≡ true
    → Drawn set v d n
    → Drawn set (gives m ∷ v) d n
Drawn-skip set m v (new e w) n c (h, l) = (skip_old set m v n c ∙ h, omega arith)
Drawn-skip set m v (paused w) n c (h, l) = (skip_old set m v n c ∙ h, omega arith)
Drawn-skip set m v stopped n c h = skip_old set m v n c ∙ h

pub draw_new_lem : (set : List ℕ) (v : List Event) (n : ℕ) → Drawn set v (draw_new set v) n
unfolding draw_new
draw_new_lem set [] n = ground arith
draw_new_lem set (infinite ∷ v) n = (refl, omega arith)
draw_new_lem set (pauses ∷ v) n = (refl, omega arith)
draw_new_lem set (gives m ∷ v) n = elim (Bool-cases (contains set m)) [
  | inl old ↦
      subst (λ t. Drawn set (gives m ∷ v) (if t then draw_new set v else new (gives m) v) n)
        (sym old) (Drawn-skip set m v (draw_new set v) n old (draw_new_lem set v n))
  | inr e ↦ rw e (ground (arith, contains-append set (m ∷ []) n), omega arith)
]

abbrev pub IsNew : List ℕ → Draw → Type 0
IsNew set (new (gives n) w) = contains set n ≡ false
IsNew set _ = Unit {0}

pub draw_new-IsNew : (set : List ℕ) (v : List Event) → IsNew set (draw_new set v)
unfolding draw_new
draw_new-IsNew set [] = tt
draw_new-IsNew set (infinite ∷ v) = tt
draw_new-IsNew set (pauses ∷ v) = tt
draw_new-IsNew set (gives m ∷ v) = elim (Bool-cases (contains set m)) [
  | inl old ↦ rw old (draw_new-IsNew set v)
  | inr e ↦ rw e e
]
