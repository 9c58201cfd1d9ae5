-- ===== src/Queue/Ordered/Tests.antt =====
-- FanoutOrderedFIFO: the theorems at queues with two and three readers.
use calvin_base.Base.{
  ℕ, zero, suc, ◌+◌, ◌%◌, ◌≤◌, ◌<◌, ◌≡◌, refl, ◌≢◌, ◌⊎◌, true, Option, some, [], ◌∷◌, get_elem?,
  queue_full, index_error, done, raised, arith,
}
use calvin_base.Base.{replicate-Stores}
use calvin_base.Token.{plain, num}
use calvin_base.Queue.Routed.{FanoutBase}
use calvin_base.Queue.Routed.Lanes.{Lane}
use calvin_base.Queue.Routed.Tests.{two_readers, lane_4, lane_9, 4≢9, token_c, blank_fifo}
use calvin_base.Queue.Ordered.{Ordered, ordered, random, write, remove_reader, update_turn}
use calvin_base.Queue.Ordered.Windows.{InTurn}
use calvin_base.Queue.Ordered.Routes.{write-InTurn}
use calvin_base.Queue.Ordered.Removal.{after_removal, remove_reader_breaks_turns}

abbrev two_turns : Ordered
two_turns = record {
  base = two_readers;
  update = ordered;
  reader_turn = 0 ∷ 1 ∷ 0 ∷ [];
  turn_pos = 0;
  is_ordered = true;
}

two_turns-turns : (j : ℕ) → j < 3 → get_elem? (0 ∷ 1 ∷ 0 ∷ []) ((0 + j) % 3) ≡ some ((0 + j) % 2)
two_turns-turns zero h = refl
two_turns-turns (suc zero) h = refl
two_turns-turns (suc (suc zero)) h = refl
two_turns-turns (suc (suc (suc j))) h = absurd (omega arith)

two_turns-InTurn : InTurn 0 two_turns
two_turns-InTurn = record {
  some_peer = omega arith;
  positive = omega arith;
  sized = refl;
  turns = two_turns-turns;
}

ordered≢random : ordered ≢ random
ordered≢random e = ground arith

write-InTurn_example :
    ((s : Ordered) × (1 < 3)
      × (write 0 token_c two_turns ≡ done true s)
      × Lane (token_c ∷ []) s.base 4
      × Lane [] s.base 9
      × InTurn 1 s)
    ⊎ ((3 ≤ 1) × (write 0 token_c two_turns ≡ raised queue_full two_turns))
write-InTurn_example =
    write-InTurn 0 0 [] [] token_c two_turns 4 9 lane_4 ordered≢random two_turns-InTurn refl
      (omega arith) 4≢9 lane_9

abbrev three_readers : FanoutBase
three_readers = record {
  fifo = (4, blank_fifo) ∷ (9, blank_fifo) ∷ (2, blank_fifo) ∷ [];
  nbr_peers = 3;
  size = 3;
  readers = 4 ∷ 9 ∷ 2 ∷ [];
  write_pos = (4, 0) ∷ (9, 0) ∷ (2, 0) ∷ [];
  read_pos = (4, 0) ∷ (9, 0) ∷ (2, 0) ∷ [];
  tentative_read_pos = (4, 0) ∷ (9, 0) ∷ (2, 0) ∷ [];
  queue_type = Option.none;
}

three_readers_4 : Lane [] three_readers 4
three_readers_4 = record {
  buffer = blank_fifo;
  write = 0;
  read = 0;
  tentative = 0;
  member = refl;
  has_buffer = refl;
  has_write = refl;
  has_read = refl;
  has_tentative = refl;
  stores = replicate-Stores 2 (plain (num 0));
  read_le = omega arith;
  tentative_le = omega arith;
  near = omega arith;
}

abbrev three_turns : Ordered
three_turns = record {
  base = three_readers;
  update = ordered;
  reader_turn = 0 ∷ 1 ∷ 2 ∷ [];
  turn_pos = 0;
  is_ordered = true;
}

three_turns-turns : (j : ℕ) → j < 3 → get_elem? (0 ∷ 1 ∷ 2 ∷ []) ((0 + j) % 3) ≡ some ((0 + j) % 3)
three_turns-turns zero h = refl
three_turns-turns (suc zero) h = refl
three_turns-turns (suc (suc zero)) h = refl
three_turns-turns (suc (suc (suc j))) h = absurd (omega arith)

three_turns-InTurn : InTurn 0 three_turns
three_turns-InTurn = record {
  some_peer = omega arith;
  positive = omega arith;
  sized = refl;
  turns = three_turns-turns;
}

-- The second of two readers has the turn.
abbrev second_turn : Ordered
second_turn = record two_turns { turn_pos = 1 }

remove_reader_breaks_turns_example :
    let s = after_removal second_turn 4 1 in
    (remove_reader [] 4 second_turn ≡ done true s)
    × (update_turn 0 s ≡ raised index_error s)
    × ((u : Ordered) → write 0 token_c s ≢ done true u)
remove_reader_breaks_turns_example =
    remove_reader_breaks_turns [] second_turn 4 0 [] token_c ordered≢random lane_4 refl refl
      (omega arith)
