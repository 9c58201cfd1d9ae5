-- ===== src/Queue/Routed.antt =====
-- calvin/runtime/north/plugins/port/queue/fanout_base.py: class FanoutBase, a queue with a ring
-- buffer for each reader. Its subclasses decide which reader a token is written to.
pub mod Lanes
pub mod Promises
pub mod Tests
pub mod Readers
use calvin_base.Base.{
  ℕ, zero, suc, ◌+◌, ◌-◌, ◌*◌, ◌%◌, ◌≤◌, ◌<◌, ◌≡◌, refl, sym, ap, ◌∙◌, ◌≢◌, ◌⊎◌, inl, inr, Bool,
  true, false, not, ◌&&◌, ◌||◌, Option, none, some, List, [], ◌∷◌, ◌++◌, map, length, is_empty, set,
  get_elem?, replicate, take, drop, contains, remove, contains_all, same_set, sort, Distinct, leb,
  ltb, ◌==◌, if◌then◌else◌, subst, tests, get_or_default, Bool-cases, Option-cases, Dict, lookup,
  insert, erase, keys, values, map_values, set_default, update, AllValues, minimum?, minimum_or,
  Error, queue_full, queue_empty, unknown_reader, unknown_writer, illegal_mapping, illegal_order,
  value_error, attribute_error, key_error, type_error, index_error, zero_division, not_implemented,
  Method, Outcome, done, raised, ◌>>=◌, ◌>>◌, return, raise, self, put, require, or_raise, item,
  elem, attempt, after, arith, ℕ_discrete,
}
use calvin_base.Token.{Token, plain, num, Repr, repr_for_coder, from_repr}
use calvin_base.Queue.Common.{
  CommitResponse, handled, unhandled, invalid, Disconnect, is_sending, PortProperties, QueueType,
}

pub record FanoutBase : Type 0 where
  pub fifo : Dict (List Token)
  pub nbr_peers : ℕ
  pub size : ℕ  -- self.N
  pub readers : List ℕ
  pub write_pos : Dict ℕ
  pub read_pos : Dict ℕ
  pub tentative_read_pos : Dict ℕ
  pub queue_type : Option QueueType

-- One slot of each buffer stays unused.
unfoldable pub init : PortProperties → FanoutBase
init props = record {
  fifo = [];
  nbr_peers = get_or_default 1 props.nbr_peers;
  size = get_or_default 4 props.queue_length + 1;
  readers = [];
  write_pos = [];
  read_pos = [];
  tentative_read_pos = [];
  queue_type = none;
}

pub record State : Type 0 where
  pub queuetype : Option QueueType
  pub fifo : Dict (List Repr)
  pub size : ℕ
  pub readers : List ℕ
  pub write_pos : Dict ℕ
  pub read_pos : Dict ℕ
  pub tentative_read_pos : Dict ℕ

unfoldable pub state : FanoutBase → State
state q = record {
  queuetype = q.queue_type;
  fifo = map_values (map repr_for_coder) q.fifo;
  size = q.size;
  readers = q.readers;
  write_pos = q.write_pos;
  read_pos = q.read_pos;
  tentative_read_pos = q.tentative_read_pos;
}

-- A peer that was replicated counts from here on.
unfoldable pub set_state : State → FanoutBase → FanoutBase
set_state s q = record {
  fifo = map_values (map from_repr) s.fifo;
  nbr_peers = if ltb q.nbr_peers (length s.readers) then length s.readers else q.nbr_peers;
  size = s.size;
  readers = s.readers;
  write_pos = s.write_pos;
  read_pos = s.read_pos;
  tentative_read_pos = s.tentative_read_pos;
  queue_type = s.queuetype;
}

-- The new reader's buffer and positions.
pub open_lane : ℕ → FanoutBase → FanoutBase
open_lane reader q = record q {
  read_pos = insert reader 0 q.read_pos;
  write_pos = insert reader 0 q.write_pos;
  tentative_read_pos = insert reader 0 q.tentative_read_pos;
  fifo = set_default reader (replicate q.size (plain (num 0))) q.fifo;
  readers = q.readers ++ reader ∷ [];
}

-- `nbr_peers` grows with the readers.
abbrev pub count_peers : FanoutBase → FanoutBase
count_peers q = record q {
  nbr_peers = if ltb q.nbr_peers (length q.readers) then length q.readers else q.nbr_peers;
}

unfoldable pub add_reader : ℕ → FanoutBase → FanoutBase
unfolding open_lane
add_reader reader q = count_peers (if contains q.readers reader then q else open_lane reader q)

-- The answer is whether there was such a reader. Each deletion raises where its key is missing.
unfoldable pub remove_reader : ℕ → Method FanoutBase Bool
remove_reader reader q =
    if not (contains q.readers reader)
    then done false q
    else (do
      _ ← item q.read_pos reader
      let q1 = record q { read_pos = erase reader q.read_pos }
      put q1
      _ ← item q1.tentative_read_pos reader
      let q2 = record q1 { tentative_read_pos = erase reader q.tentative_read_pos }
      put q2
      _ ← item q2.write_pos reader
      let q3 = record q2 { write_pos = erase reader q.write_pos }
      put q3
      _ ← item q3.fifo reader
      put (record q3 {
        fifo = erase reader q.fifo;
        readers = remove reader q.readers;
        nbr_peers = q.nbr_peers - 1;
      })
      return true)
        q

abbrev pub is_exhausting : Option ℕ → FanoutBase → Bool
is_exhausting peer q = false

-- Exhausted tokens are not taken: the answer is the number of peers.
abbrev pub set_exhausted_tokens : FanoutBase → ℕ
set_exhausted_tokens q = q.nbr_peers

-- The tokens of a reader that it has not committed, with their positions.
pub unread : List Token → ℕ → ℕ → ℕ → Option (List (ℕ × Token))
unread buffer size zero pos = some []
unread buffer size (suc n) pos = elim (get_elem? buffer (pos % size)) [
  | none ↦ none
  | some token ↦ elim (unread buffer size n (pos + 1)) [
    | none ↦ none
    | some rest ↦ some ((pos, token) ∷ rest)
  ]
]

-- `self.remove_reader` is the subclass's, which is handed in.
unfoldable pub exhaust :
    {S : Type 0}
    → (S → FanoutBase)
    → (ℕ → Method S Bool)
    → ℕ
    → Disconnect
    → Method S (List (ℕ × Token))
unfolding unread
exhaust base remove_reader peer mode s =
    let q = base s in
    if not (contains q.readers peer)
    then done [] s
    else (if is_sending mode
        then (do
          read ← item q.read_pos peer
          w ← item q.write_pos peer
          buffer ← item q.fifo peer
          tokens ← or_raise (unread buffer q.size (w - read) read) index_error
          _ ← remove_reader peer
          return tokens)
            s
        else (do _ ← remove_reader peer; return []) s)

unfoldable pub tokens_available : ℕ → ℕ → Method FanoutBase Bool
tokens_available n reader q =
    (do
      require (contains q.readers reader) (unknown_reader reader)
      w ← item q.write_pos reader
      t ← item q.tentative_read_pos reader
      return (leb (t + n) w))
      q

unfoldable pub peek : ℕ → Method FanoutBase Token
peek reader q =
    (do
      available ← tokens_available 1 reader
      require available (queue_empty reader)
      pos ← item q.tentative_read_pos reader
      buffer ← item q.fifo reader
      token ← elem buffer (pos % q.size)
      put (record q { tentative_read_pos = insert reader (pos + 1) q.tentative_read_pos })
      return token)
      q

unfoldable pub commit : ℕ → Method FanoutBase Bool
commit reader q =
    (do
      t ← item q.tentative_read_pos reader
      put (record q { read_pos = insert reader t q.read_pos })
      return false)
      q

unfoldable pub cancel : ℕ → Method FanoutBase (Unit {0})
cancel reader q =
    (do
      a ← item q.read_pos reader
      put (record q { tentative_read_pos = insert reader a q.tentative_read_pos }))
      q

unfoldable pub com_peek : ℕ → Method FanoutBase (ℕ × Token)
com_peek reader q =
    (do pos ← item q.tentative_read_pos reader; token ← peek reader; return (pos, token)) q

commit_at : ℕ → ℕ → ℕ → ℕ → Method FanoutBase (Option CommitResponse)
commit_at reader nbr read tentative q =
    if leb tentative nbr
    then done (some invalid) q
    else (if ltb read tentative
        then (if nbr == read
            then done (some handled) (record q { read_pos = insert reader (read + 1) q.read_pos })
            else done (some unhandled) q)
        else done none q)

-- `none` is the end of the body without a `return`.
unfoldable pub com_commit : ℕ → ℕ → Method FanoutBase (Option CommitResponse)
unfolding commit_at
com_commit reader nbr q =
    (do
      tentative ← item q.tentative_read_pos reader
      read ← item q.read_pos reader
      commit_at reader nbr read tentative)
      q

-- `self.reader_pos` is no attribute of the queue: the second half of the test raises.
unfoldable pub com_cancel : ℕ → ℕ → Method FanoutBase CommitResponse
com_cancel reader nbr q =
    (do
      tentative ← item q.tentative_read_pos reader
      require (ltb nbr tentative) attribute_error
      put (record q { tentative_read_pos = insert reader nbr q.tentative_read_pos })
      return handled)
      q

unfoldable pub com_is_committed : ℕ → Method FanoutBase Bool
com_is_committed reader q =
    (do
      tentative ← item q.tentative_read_pos reader
      read ← item q.read_pos reader
      return (tentative == read))
      q

-- The end of every subclass's `write`: the token goes into the buffer of one peer.
unfoldable pub push : Token → ℕ → Method FanoutBase Bool
push token peer q =
    (do
      w ← item q.write_pos peer
      buffer ← item q.fifo peer
      _ ← elem buffer (w % q.size)
      put (record q {
        fifo = insert peer (set buffer (w % q.size) token) q.fifo;
        write_pos = insert peer (w + 1) q.write_pos;
      })
      return true)
      q
