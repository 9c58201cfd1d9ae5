-- ===== src/Queue/Fanout/Tests.antt =====
-- FanoutFIFO: the theorems at a queue with one reader and two slots.
use calvin_base.Base.{
  ℕ, ◌+◌, ◌≤◌, ◌<◌, ◌≡◌, refl, ◌≢◌, ◌⊎◌, true, false, none, some, [], ◌∷◌, ◌++◌, get_elem?,
  replicate, drop, contains, subst, lookup, queue_full, queue_empty, value_error, attribute_error,
  done, raised, after, arith, ℕ_discrete,
}
use calvin_base.Base.{replicate-Stores}
use calvin_base.Token.{Token, plain, num}
use calvin_base.Queue.Common.{handled, unhandled, invalid, fanout_fifo}
use calvin_base.Queue.Fanout.{FanoutFifo, write, peek, slots_available, add_reader}
use calvin_base.Queue.Fanout.Com.{com_write, com_peek, com_commit, com_cancel}
use calvin_base.Queue.Fanout.Exhaust.{commit, transfer_exhaust_tokens}
use calvin_base.Queue.Fanout.Log.{written}
use calvin_base.Queue.Fanout.Invariant.{IsValid, Follows}
use calvin_base.Queue.Fanout.Run.{Holds, write-Holds, moved-Holds}
use calvin_base.Queue.Fanout.Reads.{tentatively}
use calvin_base.Queue.Fanout.Readers.{add_reader_stranded}
use calvin_base.Queue.Fanout.Joins.{Joined, add_reader-Joined}
use calvin_base.Queue.Fanout.Transfer.{Transferred, numbered, transfer_exhaust_tokens-Transferred}
use calvin_base.Queue.Fanout.Commit.{Settled, committed, commit-Settled}
use calvin_base.Queue.Fanout.Promises.{
  write_lem, com_write_lem, com_peek_lem, com_commit_lem, com_cancel_lem,
}

abbrev pub token_a : Token
token_a = plain (num 1)

abbrev pub token_b : Token
token_b = plain (num 2)

abbrev no_readers : FanoutFifo
no_readers = record {
  fifo = replicate 3 (plain (num 0));
  size = 3;
  direction = none;
  nbr_peers = 1;
  readers = [];
  write_pos = 0;
  read_pos = [];
  tentative_read_pos = [];
  reader_offset = [];
  queue_type = fanout_fifo;
  writer = none;
  exhausted_tokens = [];
  termination = [];
}

abbrev pub one_reader : FanoutFifo
one_reader = record no_readers {
  readers = 7 ∷ [];
  read_pos = (7, 0) ∷ [];
  tentative_read_pos = (7, 0) ∷ [];
  reader_offset = (7, 0) ∷ [];
}

pub one_reader-Holds : Holds [] one_reader
one_reader-Holds = record {
  represents = replicate-Stores 2 (plain (num 0));
  valid = record {
    positive = omega arith;
    near = ((omega arith, omega arith), tt);
    distinct = (refl, tt);
    follows = λ r m. elim (ℕ_discrete 7 r) [
      | yes e ↦ subst (Follows one_reader) e (record {
        offset = 0;
        read = 0;
        tentative = 0;
        has_offset = refl;
        has_read = refl;
        has_tentative = refl;
        offset_le = omega arith;
        read_le = omega arith;
        tentative_le = omega arith;
      })
      | no n ↦ absurd (ground arith)
    ];
  };
}

abbrev pub one_token : FanoutFifo
one_token = written one_reader token_a

pub one_token-Holds : Holds (token_a ∷ []) one_token
unfolding slots_available
one_token-Holds = ((write-Holds [] one_reader token_a one_reader-Holds).0 refl).1

abbrev pub one_token-Follows : Follows one_token 7
one_token-Follows = record {
  offset = 0;
  read = 0;
  tentative = 0;
  has_offset = refl;
  has_read = refl;
  has_tentative = refl;
  offset_le = omega arith;
  read_le = omega arith;
  tentative_le = omega arith;
}

write_example :
    ((slots_available 1 one_token ≡ true)
      × (write token_b one_token ≡ done true (written one_token token_b))
      × Holds (token_a ∷ token_b ∷ []) (written one_token token_b))
    ⊎ ((slots_available 1 one_token ≡ false)
        × (write token_b one_token ≡ raised queue_full one_token))
write_example = write_lem (token_a ∷ []) one_token token_b one_token-Holds

com_write_example :
    ((◌≡◌ {A = ℕ} 1 1)
      × (slots_available 1 one_token ≡ true)
      × (com_write token_b 1 one_token ≡ done handled (written one_token token_b))
      × Holds (token_a ∷ token_b ∷ []) (written one_token token_b))
    ⊎ ((◌≡◌ {A = ℕ} 1 1)
        × (slots_available 1 one_token ≡ false)
        × (com_write token_b 1 one_token ≡ raised queue_full one_token))
    ⊎ ((1 < 1) × (com_write token_b 1 one_token ≡ done unhandled one_token))
    ⊎ ((1 < 1) × (com_write token_b 1 one_token ≡ done invalid one_token))
com_write_example = com_write_lem (token_a ∷ []) one_token token_b 1 one_token-Holds

com_peek_example :
    ((token : Token) × (0 < 1)
      × (get_elem? (token_a ∷ []) 0 ≡ some token)
      × (peek 7 one_token ≡ done token (tentatively one_token 7 1))
      × (com_peek 7 one_token ≡ done (0, token) (tentatively one_token 7 1)))
    ⊎ ((◌≡◌ {A = ℕ} 0 1)
        × (peek 7 one_token ≡ raised (queue_empty 7) one_token)
        × (com_peek 7 one_token ≡ raised (queue_empty 7) one_token))
com_peek_example =
    com_peek_lem (token_a ∷ []) one_token 7 one_token-Holds.valid one_token-Follows
      one_token-Holds.represents refl

-- The queue after the reader has read its token.
abbrev pub one_read : FanoutFifo
one_read = tentatively one_token 7 1

abbrev pub one_read-Follows : Follows one_read 7
one_read-Follows = record {
  offset = 0;
  read = 0;
  tentative = 1;
  has_offset = refl;
  has_read = refl;
  has_tentative = refl;
  offset_le = omega arith;
  read_le = omega arith;
  tentative_le = omega arith;
}

pub one_read-Holds : Holds (token_a ∷ []) one_read
one_read-Holds =
    moved-Holds (token_a ∷ []) one_token 7 0 1 one_token-Follows one_token-Holds (omega arith)
      (omega arith) (omega arith)

com_commit_example :
    ((1 ≤ 0) × (com_commit 7 0 one_read ≡ done (some invalid) one_read))
    ⊎ ((◌≡◌ {A = ℕ} 0 0)
        × (0 < 1)
        × (com_commit 7 0 one_read
            ≡ done (some handled) (record one_read { read_pos = (7, 1) ∷ [] })))
    ⊎ ((◌≢◌ {A = ℕ} 0 0)
        × (0 < 1)
        × (0 < 1)
        × (com_commit 7 0 one_read ≡ done (some unhandled) one_read))
    ⊎ ((0 < 1) × (◌≡◌ {A = ℕ} 0 1) × (com_commit 7 0 one_read ≡ done none one_read))
com_commit_example = com_commit_lem one_read 7 0 one_read-Follows

com_cancel_example :
    ((0 < 1) × (com_cancel 7 0 one_read ≡ done handled (tentatively one_read 7 0)))
    ⊎ ((1 ≤ 0) × (com_cancel 7 0 one_read ≡ raised attribute_error one_read))
com_cancel_example = com_cancel_lem one_read 7 0 one_read-Follows

commit-Settled_example : Settled (token_a ∷ []) (committed one_token 7 0) (commit 7 one_token)
commit-Settled_example = commit-Settled (token_a ∷ []) one_token 7 one_token-Follows one_token-Holds

transfer_example :
    (x : Transferred (token_a ∷ []) (token_b ∷ []) one_token) × (transfer_exhaust_tokens
        (numbered 0 (token_a ∷ []) ++ numbered 1 (token_b ∷ []))
        one_token
      ≡ done (numbered (1 + x.count) (drop x.count (token_b ∷ []))) x.result)
unfolding slots_available
transfer_example =
    transfer_exhaust_tokens-Transferred (token_a ∷ []) (token_a ∷ []) (token_b ∷ []) one_token 0
      one_token-Holds refl refl

add_reader-Joined_example :
    (s : FanoutFifo) × (add_reader 8 one_token ≡ done tt s)
    × IsValid s
    × (((false ≡ true) × (s ≡ one_token)) ⊎ ((false ≡ false) × Joined 8 one_token s))
add_reader-Joined_example =
    add_reader-Joined one_token 8 one_token-Holds.valid (λ h e. ground arith) (λ h. omega arith)

-- All readers have gone.
abbrev deserted : FanoutFifo
deserted = record no_readers { nbr_peers = 0 }

add_reader_stranded_example :
    let o = add_reader 7 deserted in
    (o ≡ raised value_error (after o))
    × (contains (after o).readers 7 ≡ true)
    × (lookup 7 (after o).tentative_read_pos ≡ none)
add_reader_stranded_example = add_reader_stranded deserted 7 refl refl refl (omega arith)
