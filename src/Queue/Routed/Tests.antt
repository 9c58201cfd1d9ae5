-- ===== src/Queue/Routed/Tests.antt =====
-- FanoutBase: the theorems at a queue with two readers.
use calvin_base.Base.{
  ℕ, ◌<◌, ◌≡◌, refl, ◌≢◌, ◌⊎◌, false, Option, some, List, [], ◌∷◌, set, get_elem?, replicate,
  queue_empty, done, raised, arith,
}
use calvin_base.Base.{replicate-Stores, set-Stores}
use calvin_base.Token.{Token, plain, num}
use calvin_base.Queue.Common.{exhaust_peer_send}
use calvin_base.Queue.Routed.{FanoutBase, peek, commit, cancel, remove_reader, exhaust}
use calvin_base.Queue.Routed.Lanes.{Lane, moved}
use calvin_base.Queue.Routed.Readers.{removed, exhaust-unread}
use calvin_base.Queue.Routed.Promises.{read_lane}

abbrev pub blank_fifo : List Token
blank_fifo = replicate 3 (plain (num 0))

abbrev pub token_c : Token
token_c = plain (num 3)

abbrev pub two_readers : FanoutBase
two_readers = record {
  fifo = (4, blank_fifo) ∷ (9, blank_fifo) ∷ [];
  nbr_peers = 2;
  size = 3;
  readers = 4 ∷ 9 ∷ [];
  write_pos = (4, 0) ∷ (9, 0) ∷ [];
  read_pos = (4, 0) ∷ (9, 0) ∷ [];
  tentative_read_pos = (4, 0) ∷ (9, 0) ∷ [];
  queue_type = Option.none;
}

abbrev pub lane_4 : Lane [] two_readers 4
lane_4 = record {
  buffer = blank_fifo;
  write = 0;
  read = 0;
  tentative = 0;
  member = refl;
  has_buffer = refl;
  has_write = refl;
  has_read = refl;
  has_tentative = refl;
  stores = replicate-Stores 2 (plain (num 0));
  read_le = omega arith;
  tentative_le = omega arith;
  near = omega arith;
}

abbrev pub lane_9 : Lane [] two_readers 9
lane_9 = record {
  buffer = blank_fifo;
  write = 0;
  read = 0;
  tentative = 0;
  member = refl;
  has_buffer = refl;
  has_write = refl;
  has_read = refl;
  has_tentative = refl;
  stores = replicate-Stores 2 (plain (num 0));
  read_le = omega arith;
  tentative_le = omega arith;
  near = omega arith;
}

pub 4≢9 : ◌≢◌ {A = ℕ} 4 9
4≢9 e = ground arith

-- A token waits for the reader 4.
abbrev loaded : FanoutBase
loaded = record two_readers {
  fifo = (4, set blank_fifo 0 token_c) ∷ (9, blank_fifo) ∷ [];
  write_pos = (4, 1) ∷ (9, 0) ∷ [];
}

abbrev loaded_4 : Lane (token_c ∷ []) loaded 4
loaded_4 = record {
  buffer = set blank_fifo 0 token_c;
  write = 1;
  read = 0;
  tentative = 0;
  member = refl;
  has_buffer = refl;
  has_write = refl;
  has_read = refl;
  has_tentative = refl;
  stores = set-Stores [] blank_fifo 0 3 token_c (replicate-Stores 2 (plain (num 0)));
  read_le = omega arith;
  tentative_le = omega arith;
  near = omega arith;
}

read_lane_example :
    (((token : Token) × (0 < 1)
        × (get_elem? (token_c ∷ []) 0 ≡ some token)
        × (peek 4 loaded ≡ done token (moved loaded 4 0 1))
        × Lane (token_c ∷ []) (moved loaded 4 0 1) 4)
      ⊎ ((◌≡◌ {A = ℕ} 0 1) × (peek 4 loaded ≡ raised (queue_empty 4) loaded)))
    × (commit 4 loaded ≡ done false (moved loaded 4 0 0))
    × Lane (token_c ∷ []) (moved loaded 4 0 0) 4
    × (cancel 4 loaded ≡ done tt (moved loaded 4 0 0))
    × Lane (token_c ∷ []) (moved loaded 4 0 0) 4
read_lane_example = read_lane (token_c ∷ []) loaded 4 loaded_4

exhaust-unread_example :
    exhaust (λ s. s) remove_reader 4 exhaust_peer_send loaded
    ≡ done ((0, token_c) ∷ []) (removed loaded 4)
exhaust-unread_example = exhaust-unread (token_c ∷ []) loaded 4 exhaust_peer_send loaded_4 refl
