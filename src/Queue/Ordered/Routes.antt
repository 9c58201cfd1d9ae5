-- ===== src/Queue/Ordered/Routes.antt =====
-- FanoutOrderedFIFO and FanoutRoundRobinFIFO: where a written token goes.
use calvin_base.Base.{lt_cases, inl, inr, ◌⊎◌}
use calvin_base.Base.{
  ℕ, ◌+◌, ◌%◌, ◌≤◌, ◌<◌, ◌≡◌, sym, ap, ◌∙◌, ◌≢◌, true, some, List, [], ◌∷◌, ◌++◌, get_elem?, ltb,
  queue_full, done, raised, arith,
}
use native.Mathlib.Nat.{add-zero}
use calvin_base.Token.{Token}
use calvin_base.Queue.Ordered.{Ordered, random, slots_available, write}
use calvin_base.Queue.Ordered.Windows.{InTurn}
use calvin_base.Queue.Ordered.Turns.{rotated, update_turn-InTurn, rebased-InTurn}
use calvin_base.Queue.Routed.Lanes.{Lane, push-Lane}

-- The reader whose turn it is.
abbrev pub AtTurn : ℕ → Ordered → ℕ → Type 0
AtTurn k q r = get_elem? q.readers (k % q.nbr_peers) ≡ some r

slots_available_one :
    (k : ℕ) (log : List Token) (q : Ordered) (r : ℕ) (l : Lane log q.base r)
    → InTurn k q
    → AtTurn k q r
    → 1 < q.size
    → slots_available 1 q ≡ done (ltb (l.write + 1) (q.size + l.read)) q
unfolding slots_available
slots_available_one k log q r l x at big =
    let now : get_elem? q.reader_turn (q.turn_pos % q.size) ≡ some (k % q.nbr_peers) =
      ap (λ (t : ℕ). get_elem? q.reader_turn (t % q.size)) (sym (add-zero q.turn_pos))
      ∙ x.turns 0 x.positive
      ∙ ap (λ (t : ℕ). some (t % q.nbr_peers)) (add-zero k) in
    ground (arith, l.has_write, l.has_read)

-- A token is written to the reader whose turn it is and to no other, and the turn passes on; if
-- that reader's buffer is full, `QueueFull` is raised and nothing changes, whatever room the
-- others have.
pub write-AtTurn :
    (k number : ℕ) (log : List Token) (token : Token) (q : Ordered) (r : ℕ) (l : Lane log q.base r)
    → q.update ≢ random
    → InTurn k q
    → AtTurn k q r
    → 1 < q.size
    → (l.write + 1 < l.read + q.size
        → (s : Ordered) × (write number token q ≡ done true s)
          × Lane (log ++ token ∷ []) s.base r
          × ((p : ℕ) (other : List Token) → r ≢ p → Lane other q.base p → Lane other s.base p)
          × InTurn (k + 1) s
          × (s.readers ≡ q.readers)
          × (s.nbr_peers ≡ q.nbr_peers)
          × (s.size ≡ q.size))
      × (l.read + q.size ≤ l.write + 1 → write number token q ≡ raised queue_full q)
unfolding write
write-AtTurn k number log token q r l h x at big = (
  λ room.
      let (b, pushed, grown, others, _, same_readers, size, peers) =
        push-Lane log q.base r token l room in
      let (turned, next) = update_turn-InTurn k number q h x in
      let available = slots_available_one k log q r l x at big in
      (
        record (rotated q k) { base = b },
        ground (arith, available, turned, at, pushed),
        grown,
        others,
        rebased-InTurn (k + 1) (rotated q k) b size peers next,
        same_readers,
        peers,
        size,
      ),
  λ full. ground (arith, slots_available_one k log q r l x at big),
)

-- In the turns of the ordered and the round-robin queue a token is written to the reader whose turn
-- it is, the lane of another reader stays as it was, and the turn passes to the next number; if the
-- buffer of that reader is full, `QueueFull` is raised and nothing changes, whatever room the other
-- has.
pub write-InTurn :
    (k number : ℕ) (log other : List Token) (token : Token) (q : Ordered) (r p : ℕ)
    (l : Lane log q.base r)
    → q.update ≢ random
    → InTurn k q
    → AtTurn k q r
    → 1 < q.size
    → r ≢ p
    → Lane other q.base p
    → ((s : Ordered) × (l.write + 1 < l.read + q.size)
        × (write number token q ≡ done true s)
        × Lane (log ++ token ∷ []) s.base r
        × Lane other s.base p
        × InTurn (k + 1) s)
      ⊎ ((l.read + q.size ≤ l.write + 1) × (write number token q ≡ raised queue_full q))
write-InTurn k number log other token q r p l h x at big n m =
    let (room, full) = write-AtTurn k number log token q r l h x at big in
    elim (lt_cases (l.write + 1) (l.read + q.size)) [
      | inl free ↦
          let (s, e, grown, others, next, _, _, _) = room free in
          inl (s, free, e, grown, others p other n m, next)
      | inr none_free ↦ inr (none_free, full none_free)
    ]
