-- ===== src/Queue/Balanced/Routes.antt =====
-- FanoutBalancedFIFO: a written token goes to a reader with the most free slots.
use calvin_base.Base.{
  ℕ, ◌+◌, ◌≤◌, ◌<◌, ◌≡◌, refl, sym, ◌≢◌, ◌⊎◌, inl, inr, true, false, List, [], ◌∷◌, ◌++◌, contains,
  ◌==◌, subst, Bool-cases, queue_full, done, raised, arith, ℕ_discrete,
}
use calvin_base.Base.{==_iff}
use calvin_base.Token.{Token}
use calvin_base.Queue.Balanced.{Balanced, slots, any_room, write}
use calvin_base.Queue.Routed.{FanoutBase}
use calvin_base.Queue.Routed.Lanes.{Lane, push-Lane}
use calvin_base.Queue.Balanced.Best.{
  room, Lanes, pairs, slots_lem, max_from_lem, any_room-false, any_room_zero,
}

lane_of :
    (logs : ℕ → List Token) (b : FanoutBase) (rs : List ℕ) (r : ℕ)
    → Lanes logs b rs
    → contains rs r ≡ true
    → Lane (logs r) b r
lane_of logs b [] r l m = absurd (cc)
lane_of logs b (x ∷ xs) r l m = elim (Bool-cases (x == r)) [
  | inl e ↦ subst (λ y. Lane (logs y) b y) ((==_iff x r).0 e) l.0
  | inr e ↦ lane_of logs b xs r l.1 (ground arith)
]

-- What a write did: the token went to a reader with the most free slots, and to no other, or
-- nobody had one.
pub record Balances (logs : ℕ → List Token) (token : Token) (q : Balanced) (s : Balanced)
    : Type 0 where
  pub reader : ℕ
  pub member : contains q.readers reader ≡ true
  pub most : (p : ℕ) → contains q.readers p ≡ true → room q p ≤ room q reader
  pub returned : write token q ≡ done true s
  pub grown : Lane (logs reader ++ token ∷ []) s.base reader
  pub others : (p : ℕ) (log : List Token) → reader ≢ p → Lane log q.base p → Lane log s.base p

write_to :
    (logs : ℕ → List Token) (token : Token) (q : Balanced) (a : ℕ) (rs : List ℕ)
    → q.readers ≡ a ∷ rs
    → Lanes logs q.base (a ∷ rs)
    → any_room (pairs q (a ∷ rs)) ≡ true
    → (s : Balanced) × Balances logs token q s
unfolding write pairs
write_to logs token q a rs e l any =
    let (r, best, (m, most)) = max_from_lem q a rs in
    let lane = lane_of logs q.base (a ∷ rs) r l m in
    let some_room : 0 < room q r = elim (ℕ_discrete (room q r) 0) [
      | yes z ↦ absurd (
          let none_left =
            any_room_zero q (a ∷ rs) (λ p n. subst (λ k. room q p ≤ k) z (most p n)) in
          ground (arith, any, none_left))
      | no n ↦ omega arith
    ] in
    let free : lane.write + 1 < lane.read + q.size =
      ground (arith, some_room, lane.has_write, lane.has_read) in
    let (b, pushed, grown, others, _, _, _, _) = push-Lane (logs r) q.base r token lane free in
    let found : slots q.readers q ≡ done (pairs q (a ∷ rs)) q =
      subst (λ k. slots k q ≡ done (pairs q (a ∷ rs)) q) (sym e) (slots_lem logs q (a ∷ rs) l) in
    (
      record q { base = b },
      record {
        reader = r;
        member = subst (λ k. contains k r ≡ true) (sym e) m;
        most = λ p n. most p (subst (λ k. contains k p ≡ true) e n);
        returned = ground (arith, found, any, best, pushed);
        grown = grown;
        others = others;
      },
    )

write_full :
    (logs : ℕ → List Token) (token : Token) (q : Balanced) (rs : List ℕ)
    → q.readers ≡ rs
    → Lanes logs q.base rs
    → any_room (pairs q rs) ≡ false
    → write token q ≡ raised queue_full q
unfolding write
write_full logs token q rs e l none_left =
    let found : slots q.readers q ≡ done (pairs q rs) q =
      subst (λ k. slots k q ≡ done (pairs q rs) q) (sym e) (slots_lem logs q rs l) in
    ground (arith, found, none_left)

write_cases :
    (logs : ℕ → List Token) (token : Token) (q : Balanced) (rs : List ℕ)
    → q.readers ≡ rs
    → Lanes logs q.base rs
    → ((s : Balanced) × Balances logs token q s)
      ⊎ (((p : ℕ) → contains rs p ≡ true → room q p ≡ 0) × (write token q ≡ raised queue_full q))
write_cases logs token q [] e l =
    inr (λ p m. absurd (cc), write_full logs token q [] e l (unfold pairs in refl))
write_cases logs token q (a ∷ rs) e l = elim (Bool-cases (any_room (pairs q (a ∷ rs)))) [
  | inl any ↦ inl (write_to logs token q a rs e l any)
  | inr full ↦ inr (any_room-false q (a ∷ rs) full, write_full logs token q (a ∷ rs) e l full)
]

-- A write reaches a reader with the most free slots, and no other; it raises `QueueFull`, and
-- changes nothing, exactly where no reader has a free slot.
pub write-Balances :
    (logs : ℕ → List Token) (token : Token) (q : Balanced)
    → Lanes logs q.base q.readers
    → ((s : Balanced) × Balances logs token q s)
      ⊎ (((p : ℕ) → contains q.readers p ≡ true → room q p ≡ 0)
          × (write token q ≡ raised queue_full q))
write-Balances logs token q l = write_cases logs token q q.readers refl l

-- Where every reader has a lane, a written token is added to the log of a reader that has at least
-- as many free slots as the reader `p` has, and `p`'s log does not change if it is another; or
-- `p` has no free slot, `QueueFull` is raised, and nothing changes.
pub write_balances :
    (logs : ℕ → List Token) (token : Token) (q : Balanced) (p : ℕ)
    → Lanes logs q.base q.readers
    → contains q.readers p ≡ true
    → ((s : Balanced) × (r : ℕ) × (contains q.readers r ≡ true)
        × (room q p ≤ room q r)
        × (write token q ≡ done true s)
        × Lane (logs r ++ token ∷ []) s.base r
        × ((r ≡ p) ⊎ Lane (logs p) s.base p))
      ⊎ ((room q p ≡ 0) × (write token q ≡ raised queue_full q))
write_balances logs token q p l m = elim (write-Balances logs token q l) [
  | inl (s, b) ↦ inl (
    s,
    b.reader,
    b.member,
    b.most p m,
    b.returned,
    b.grown,
    elim (ℕ_discrete b.reader p) [
      | yes e ↦ inl e
      | no n ↦ inr (b.others p (logs p) n (lane_of logs q.base q.readers p l m))
    ],
  )
  | inr (none_free, full) ↦ inr (none_free p m, full)
]
