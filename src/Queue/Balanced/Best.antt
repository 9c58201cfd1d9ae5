-- ===== src/Queue/Balanced/Best.antt =====
-- FanoutBalancedFIFO: the reader with the most free slots.
use calvin_base.Base.{
  ℕ, ◌+◌, ◌-◌, ◌≤◌, ◌<◌, ◌≡◌, refl, ap, ◌∙◌, ◌⊎◌, inl, inr, true, false, ◌&&◌, ◌||◌, List, [], ◌∷◌,
  contains, ltb, ◌==◌, subst, get_or_default, Bool-cases, lookup, done, arith,
}
use native.Mathlib.Nat.{le_refl, le_trans}
use calvin_base.Base.{==_iff}
use calvin_base.Token.{Token}
use calvin_base.Queue.Balanced.{Balanced, free_slots, slots, any_room, greater, max_from}
use calvin_base.Queue.Routed.{FanoutBase}
use calvin_base.Queue.Routed.Lanes.{Lane}

-- The free slots of a reader, read off the dictionaries.
abbrev pub room : Balanced → ℕ → ℕ
room q r =
    q.size + get_or_default 0 (lookup r q.read_pos) - get_or_default 0 (lookup r q.write_pos) - 1

-- Every listed reader has a lane.
abbrev pub Lanes : (ℕ → List Token) → FanoutBase → List ℕ → Type 0
Lanes logs b [] = Unit {0}
Lanes logs b (r ∷ rs) = Lane (logs r) b r × Lanes logs b rs

free_slots_lem :
    (log : List Token) (q : Balanced) (r : ℕ)
    → Lane log q.base r
    → free_slots r q ≡ done (room q r) q
unfolding free_slots
free_slots_lem log q r l = ground (arith, l.has_write, l.has_read)

unfoldable pub pairs : Balanced → List ℕ → List (ℕ × ℕ)
pairs q [] = []
pairs q (r ∷ rs) = (room q r, r) ∷ pairs q rs

pub slots_lem :
    (logs : ℕ → List Token) (q : Balanced) (rs : List ℕ)
    → Lanes logs q.base rs
    → slots rs q ≡ done (pairs q rs) q
unfolding slots pairs
slots_lem logs q [] l = refl
slots_lem logs q (r ∷ rs) l =
    ground (arith, free_slots_lem (logs r) q r l.0, slots_lem logs q rs l.1)

-- A pair of the list with the most slots.
abbrev IsBest : Balanced → List ℕ → ℕ → Type 0
IsBest q rs r = (contains rs r ≡ true) × ((p : ℕ) → contains rs p ≡ true → room q p ≤ room q r)

widen :
    (q : Balanced) (a b c : ℕ) (rs : List ℕ) (r : ℕ)
    → (c ≡ a) ⊎ (c ≡ b)
    → room q a ≤ room q c
    → room q b ≤ room q c
    → IsBest q (c ∷ rs) r
    → IsBest q (a ∷ b ∷ rs) r
widen q a b c rs r w h k (m, best) =
    let top = best c (ground arith) in (ground arith, λ p n. widened p n top)
  where
    widened : (p : ℕ) → contains (a ∷ b ∷ rs) p ≡ true → room q c ≤ room q r → room q p ≤ room q r
    widened p n top = elim (Bool-cases (a == p)) [
      | inl e ↦ subst (λ x. room q x ≤ room q r) ((==_iff a p).0 e) (le_trans h top)
      | inr e ↦ elim (Bool-cases (b == p)) [
        | inl f ↦ subst (λ x. room q x ≤ room q r) ((==_iff b p).0 f) (le_trans k top)
        | inr f ↦ best p (ground arith)
      ]
    ]

greater_cases :
    (q : Balanced) (a b : ℕ)
    → (c : ℕ) × (greater (room q a, a) (room q b, b) ≡ (room q c, c))
      × ((c ≡ a) ⊎ (c ≡ b))
      × (room q a ≤ room q c)
      × (room q b ≤ room q c)
greater_cases q a b =
    elim (Bool-cases (ltb (room q a) (room q b) || (room q a == room q b && ltb a b))) [
      | inl e ↦ (b, rw e, inr refl, take_b (room q a) (room q b) e, le_refl _)
      | inr e ↦ (a, rw e, inl refl, le_refl _, keep_a (room q a) (room q b) e)
    ]
  where
    take_b : (s t : ℕ) → (ltb s t || (s == t && ltb a b)) ≡ true → s ≤ t
    take_b s t e = ground arith

    keep_a : (s t : ℕ) → (ltb s t || (s == t && ltb a b)) ≡ false → t ≤ s
    keep_a s t e = ground arith

single-IsBest : (q : Balanced) (a : ℕ) → IsBest q (a ∷ []) a
single-IsBest q a = (ground arith, λ p m. only p m)
  where
    only : (p : ℕ) → contains (a ∷ []) p ≡ true → room q p ≤ room q a
    only p m = let e : p ≡ a = ground arith in rw e (le_refl _)

pub max_from_lem :
    (q : Balanced) (a : ℕ) (rs : List ℕ)
    → (r : ℕ) × (max_from (room q a, a) (pairs q rs) ≡ (room q r, r)) × (IsBest q (a ∷ rs) r)
unfolding pairs
max_from_lem q a [] = (a, refl, single-IsBest q a)
max_from_lem q a (b ∷ rs) =
    let (c, e, w, h, k) = greater_cases q a b in
    let (r, f, best) = max_from_lem q c rs in
    (r, ap (λ x. max_from x (pairs q rs)) e ∙ f, widen q a b c rs r w h k best)

any_room-true :
    (q : Balanced) (rs : List ℕ) (r : ℕ)
    → contains rs r ≡ true
    → 0 < room q r
    → any_room (pairs q rs) ≡ true
unfolding pairs
any_room-true q [] r m h = absurd (cc)
any_room-true q (x ∷ xs) r m h = elim (Bool-cases (x == r)) [
  | inl e ↦ rw ((==_iff x r).0 e) (ground arith)
  | inr e ↦ ground (arith, any_room-true q xs r)
]

pub any_room-false :
    (q : Balanced) (rs : List ℕ)
    → any_room (pairs q rs) ≡ false
    → (r : ℕ) → contains rs r ≡ true
    → room q r ≡ 0
unfolding pairs
any_room-false q [] e r m = absurd (cc)
any_room-false q (x ∷ xs) e r m = elim (Bool-cases (x == r)) [
  | inl h ↦ subst (λ y. room q y ≡ 0) ((==_iff x r).0 h) (ground arith)
  | inr h ↦ any_room-false q xs (ground arith) r (ground arith)
]

pub any_room_zero :
    (q : Balanced) (rs : List ℕ)
    → ((p : ℕ) → contains rs p ≡ true → room q p ≤ 0)
    → any_room (pairs q rs) ≡ false
unfolding pairs
any_room_zero q [] h = refl
any_room_zero q (x ∷ xs) h =
    let here : room q x ≤ 0 = h x (ground arith) in
    let there = any_room_zero q xs (λ p m. h p (ground arith)) in rw there (first (room q x) here)
  where
    first : (s : ℕ) → s ≤ 0 → (ltb 0 s || false) ≡ false
    first s e = ground arith
