-- ===== src/Queue/Collect/Tests.antt =====
-- The collect queues: the theorems at a queue with two writers, one of which has written a token.
use calvin_base.Base.{
  ℕ, ◌≤◌, ◌<◌, ◌≡◌, refl, ◌⊎◌, false, none, List, [], ◌∷◌, set, replicate, ◌==◌, if◌then◌else◌,
  queue_full, done, raised, arith,
}
use calvin_base.Base.{replicate-Stores, set-Stores}
use calvin_base.Token.{Token, plain, num}
use calvin_base.Queue.Common.{handled, unhandled, invalid}
use calvin_base.Queue.Collect.{CollectBase, com_write}
use calvin_base.Queue.Collect.Lanes.{Lane, com_write_lanes}
use calvin_base.Queue.Collect.Unordered.{Unordered, minus_one, at}

abbrev blank : List Token
blank = replicate 3 (plain (num 0))

abbrev token_e : Token
token_e = plain (num 5)

abbrev token_f : Token
token_f = plain (num 6)

abbrev two_writers : CollectBase
two_writers = record {
  fifo = (3, blank) ∷ (5, set blank 0 token_e) ∷ [];
  nbr_peers = 2;
  size = 3;
  writers = 3 ∷ 5 ∷ [];
  write_pos = (3, 0) ∷ (5, 1) ∷ [];
  read_pos = (3, 0) ∷ (5, 0) ∷ [];
  tentative_read_pos = (3, 0) ∷ (5, 0) ∷ [];
  tags = (3, 3) ∷ (5, 5) ∷ [];
  tags_are_ordering = false;
  exhausted_tokens = [];
  termination = [];
  queue_type = none;
}

abbrev lane_3 : Lane [] two_writers 3
lane_3 = record {
  buffer = blank;
  write = 0;
  read = 0;
  tentative = 0;
  member = refl;
  has_buffer = refl;
  has_write = refl;
  has_read = refl;
  has_tentative = refl;
  stores = replicate-Stores 2 (plain (num 0));
  read_le = omega arith;
  tentative_le = omega arith;
  near = omega arith;
  some_slot = omega arith;
}

abbrev lane_5 : Lane (token_e ∷ []) two_writers 5
lane_5 = record {
  buffer = set blank 0 token_e;
  write = 1;
  read = 0;
  tentative = 0;
  member = refl;
  has_buffer = refl;
  has_write = refl;
  has_read = refl;
  has_tentative = refl;
  stores = set-Stores [] blank 0 3 token_e (replicate-Stores 2 (plain (num 0)));
  read_le = omega arith;
  tentative_le = omega arith;
  near = omega arith;
  some_slot = omega arith;
}

com_write_lanes_example :
    ((s : CollectBase) × (◌≡◌ {A = ℕ} 1 1)
      × (2 < 3)
      × (com_write token_f 5 1 two_writers ≡ done handled s)
      × Lane (token_e ∷ token_f ∷ []) s 5
      × Lane [] s 3)
    ⊎ ((◌≡◌ {A = ℕ} 1 1)
        × (3 ≤ 2)
        × (com_write token_f 5 1 two_writers ≡ raised queue_full two_writers))
    ⊎ ((1 < 1) × (com_write token_f 5 1 two_writers ≡ done unhandled two_writers))
    ⊎ ((1 < 1) × (com_write token_f 5 1 two_writers ≡ done invalid two_writers))
com_write_lanes_example =
    com_write_lanes (token_e ∷ []) [] two_writers 5 3 1 token_f lane_5 (λ e. ground arith) lane_3

abbrev collecting : Unordered
collecting = record {
  base = two_writers;
  tagged = false;
  turn_pos = at 0;
  peek_turn_pos = minus_one;
}

-- What the writers wrote.
abbrev logs : ℕ → List Token
logs r = if r == 5 then token_e ∷ [] else []
