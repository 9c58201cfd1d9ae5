-- ===== src/Queue/Mapped/Routes.antt =====
-- FanoutMappedFIFO: where a written token goes, and that room for everyone is room for each.
use calvin_base.Base.{lt_cases, ◌⊎◌}
use calvin_base.Base.{
  ℕ, ◌+◌, ◌≤◌, ◌<◌, ◌≡◌, refl, ap, ◌∙◌, ◌≢◌, inl, inr, true, false, some, List, [], ◌∷◌, ◌++◌,
  contains, ltb, ◌==◌, subst, Bool-cases, Dict, lookup, queue_full, done, raised, arith,
}
use calvin_base.Base.{lt→ltb, ==_iff}
use calvin_base.Token.{Token, Value, dict, end, field, value, set_value}
use calvin_base.Queue.Mapped.{
  Mapped, unwrap_data, pop_item, slots_available, lane_room, all_room, write,
}
use calvin_base.Queue.Routed.Lanes.{Lane, push-Lane}

lane_room_lem :
    (n : ℕ) (log : List Token) (q : Mapped) (r : ℕ) (l : Lane log q.base r)
    → lane_room n r q ≡ done (ltb (l.write + n) (q.size + l.read)) q
unfolding lane_room
lane_room_lem n log q r l = ground (arith, l.has_write, l.has_read)

unwrap_data_lem :
    (q : Mapped) (token : Token) (mapping : Dict ℕ) (select r : ℕ) (v : Value)
    → value token ≡ dict (field select v end)
    → q.mapping ≡ some mapping
    → lookup select mapping ≡ some r
    → unwrap_data (record { queue = q; token = token })
      ≡ done r (record { queue = q; token = set_value token v })
unfolding unwrap_data
unwrap_data_lem q token mapping select r v e m k = rw (e, pop_item) (ground (arith, m, k))

slots_available_lem :
    (n : ℕ) (log : List Token) (q : Mapped) (r : ℕ) (l : Lane log q.base r)
    → slots_available n r q ≡ done (ltb (l.write + n) (q.size + l.read)) q
unfolding slots_available
slots_available_lem n log q r l = rw l.member (lane_room_lem n log q r l)

all_room_cons :
    (n : ℕ) (q : Mapped) (x : ℕ) (xs : List ℕ)
    → all_room n (x ∷ xs) q ≡ done true q
    → (lane_room n x q ≡ done true q) × (all_room n xs q ≡ done true q)
unfolding all_room lane_room
all_room_cons n q x xs e = ground arith

-- The question with the port's own id: every reader has room.
all_room_lem :
    (n : ℕ) (q : Mapped) (readers : List ℕ)
    → all_room n readers q ≡ done true q
    → (r : ℕ) (log : List Token) (l : Lane log q.base r) → contains readers r ≡ true
    → l.write + n < q.size + l.read
all_room_lem n q [] e r log l m = absurd (cc)
all_room_lem n q (x ∷ xs) e r log l m =
    let (first, others) = all_room_cons n q x xs e in
    elim (Bool-cases (x == r)) [
      | inl same ↦
          let here : lane_room n r q ≡ done true q =
            subst (λ k. lane_room n k q ≡ done true q) ((==_iff x r).0 same) first in
          ground (arith, here, lane_room_lem n log q r l)
      | inr other ↦ all_room_lem n q xs others r log l (ground arith)
    ]

-- Where the answer for a port that is no reader, which asks for all readers, is that there is room
-- for `n` tokens, it is the same for each reader.
pub slots_available-each :
    (n port : ℕ) (q : Mapped) (r : ℕ) (log : List Token)
    → contains q.readers port ≡ false
    → slots_available n port q ≡ done true q
    → Lane log q.base r
    → slots_available n r q ≡ done true q
unfolding slots_available
slots_available-each n port q r log m e l =
    let every : all_room n q.readers q ≡ done true q = rw m at e in
    let room = all_room_lem n q q.readers every r log l l.member in
    rw l.member (lane_room_lem n log q r l ∙ ap (λ b. done b q) (lt→ltb _ _ room))

-- A token {select: value} is written to the reader that the mapping gives for its selector, and to
-- no other, where that reader has room.
write-mapping :
    (log : List Token) (q : Mapped) (token : Token) (mapping : Dict ℕ) (select r : ℕ) (v : Value)
    (l : Lane log q.base r)
    → value token ≡ dict (field select v end)
    → q.mapping ≡ some mapping
    → lookup select mapping ≡ some r
    → (l.write + 1 < l.read + q.size
        → (s : Mapped) × (write (record { queue = q; token = token })
            ≡ done true (record { queue = s; token = set_value token v }))
          × Lane (log ++ set_value token v ∷ []) s.base r
          × ((p : ℕ) (other : List Token) → r ≢ p → Lane other q.base p → Lane other s.base p)
          × (s.mapping ≡ q.mapping))
      × (l.read + q.size ≤ l.write + 1
          → write (record { queue = q; token = token })
            ≡ raised queue_full (record { queue = q; token = set_value token v }))
unfolding write
write-mapping log q token mapping select r v l e m k =
    let unwrapped = unwrap_data_lem q token mapping select r v e m k in
    let slots : slots_available 1 r q ≡ done (ltb (l.write + 1) (q.size + l.read)) q =
      slots_available_lem 1 log q r l in
    (
      λ room.
          let (b, pushed, grown, others, _, _, _, _) =
            push-Lane log q.base r (set_value token v) l room in
          (record q { base = b }, ground (arith, unwrapped, slots, pushed), grown, others, refl),
      λ full. ground (arith, unwrapped, slots),
    )

-- A write takes the value out of the caller's token {select: value}. The token goes to the reader
-- that the mapping gives for its selector, as a token of its class with the value alone; the lane of
-- another reader and the mapping stay as they were. If that reader has no free slot, `QueueFull` is
-- raised and the queue does not change; but the caller's token has lost its selector all the same.
pub write-unwrap :
    (log other : List Token) (q : Mapped) (token : Token) (mapping : Dict ℕ) (select r p : ℕ)
    (v : Value) (l : Lane log q.base r)
    → value token ≡ dict (field select v end)
    → q.mapping ≡ some mapping
    → lookup select mapping ≡ some r
    → r ≢ p
    → Lane other q.base p
    → ((s : Mapped) × (l.write + 1 < l.read + q.size)
        × (write (record { queue = q; token = token })
            ≡ done true (record { queue = s; token = set_value token v }))
        × Lane (log ++ set_value token v ∷ []) s.base r
        × Lane other s.base p
        × (s.mapping ≡ q.mapping))
      ⊎ ((l.read + q.size ≤ l.write + 1)
          × (write (record { queue = q; token = token })
              ≡ raised queue_full (record { queue = q; token = set_value token v })))
write-unwrap log other q token mapping select r p v l e m k n o =
    let (room, full) = write-mapping log q token mapping select r v l e m k in
    elim (lt_cases (l.write + 1) (l.read + q.size)) [
      | inl free ↦
          let (s, w, grown, others, same) = room free in
          inl (s, free, w, grown, others p other n o, same)
      | inr none_free ↦ inr (none_free, full none_free)
    ]
