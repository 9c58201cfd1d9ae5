-- ===== src/Queue/Routed/Lanes.antt =====
-- FanoutBase against what it promises: each reader has a lane of its own, which holds the end of
-- the sequence of tokens that were routed to it, and no operation touches another reader's lane.
use calvin_base.Base.{
  ℕ, ◌+◌, ◌%◌, ◌≤◌, ◌<◌, ◌≡◌, refl, ◌≢◌, true, false, some, List, [], ◌∷◌, ◌++◌, set, get_elem?,
  contains, lookup, insert, queue_empty, done, raised, arith,
}
use calvin_base.Base.{lookup-insert, insert_self, Stores, set-Stores, slot-some, stored-some}
use calvin_base.Token.{Token}
use calvin_base.Queue.Routed.{FanoutBase, push, peek, commit, cancel, tokens_available}

pub record Lane (log : List Token) (q : FanoutBase) (r : ℕ) : Type 0 where
  pub buffer : List Token
  pub write : ℕ
  pub read : ℕ
  pub tentative : ℕ
  pub member : contains q.readers r ≡ true
  pub has_buffer : lookup r q.fifo ≡ some buffer
  pub has_write : lookup r q.write_pos ≡ some write
  pub has_read : lookup r q.read_pos ≡ some read
  pub has_tentative : lookup r q.tentative_read_pos ≡ some tentative
  pub stores : Stores log buffer write q.size
  pub read_le : read ≤ tentative
  pub tentative_le : tentative ≤ write
  pub near : write < read + q.size

-- `push` adds its token to the log of the peer, if that has a free slot, and the slot stays free.
pub pushed : FanoutBase → ℕ → List Token → ℕ → Token → FanoutBase
pushed q peer buffer w token = record q {
  fifo = insert peer (set buffer (w % q.size) token) q.fifo;
  write_pos = insert peer (w + 1) q.write_pos;
}

push_lem :
    (log : List Token) (q : FanoutBase) (r : ℕ) (token : Token) (l : Lane log q r)
    → push token r q ≡ done true (pushed q r l.buffer l.write token)
unfolding push pushed
push_lem log q r token l =
    let (old, e) = slot-some log l.buffer l.write q.size l.write l.stores in
    ground (arith, l.has_write, l.has_buffer)

pushed-Lane :
    (log : List Token) (q : FanoutBase) (r : ℕ) (token : Token) (l : Lane log q r)
    → l.write + 1 < l.read + q.size
    → Lane (log ++ token ∷ []) (pushed q r l.buffer l.write token) r
unfolding pushed
pushed-Lane log q r token l h = record {
  buffer = set l.buffer (l.write % q.size) token;
  write = l.write + 1;
  read = l.read;
  tentative = l.tentative;
  member = l.member;
  has_buffer = ground (arith, lookup-insert r r (set l.buffer (l.write % q.size) token) q.fifo);
  has_write = ground (arith, lookup-insert r r (l.write + 1) q.write_pos);
  has_read = l.has_read;
  has_tentative = l.has_tentative;
  stores = set-Stores log l.buffer l.write q.size token l.stores;
  read_le = l.read_le;
  tentative_le = omega (arith, l.tentative_le);
  near = h;
}

pushed-Lane_other :
    (log : List Token) (q : FanoutBase) (r p w : ℕ) (buffer : List Token) (token : Token)
    → r ≢ p
    → Lane log q p
    → Lane log (pushed q r buffer w token) p
unfolding pushed
pushed-Lane_other log q r p w buffer token n l = record {
  buffer = l.buffer;
  write = l.write;
  read = l.read;
  tentative = l.tentative;
  member = l.member;
  has_buffer =
      ground (arith, l.has_buffer, lookup-insert p r (set buffer (w % q.size) token) q.fifo);
  has_write = ground (arith, l.has_write, lookup-insert p r (w + 1) q.write_pos);
  has_read = l.has_read;
  has_tentative = l.has_tentative;
  stores = l.stores;
  read_le = l.read_le;
  tentative_le = l.tentative_le;
  near = l.near;
}

-- A token that is pushed to a reader with a free slot is added to that reader's log, and to no
-- other's.
pub push-Lane :
    (log : List Token) (q : FanoutBase) (r : ℕ) (token : Token) (l : Lane log q r)
    → l.write + 1 < l.read + q.size
    → (s : FanoutBase) × (push token r q ≡ done true s)
      × Lane (log ++ token ∷ []) s r
      × ((p : ℕ) (other : List Token) → r ≢ p → Lane other q p → Lane other s p)
      × (s.read_pos ≡ q.read_pos)
      × (s.readers ≡ q.readers)
      × (s.size ≡ q.size)
      × (s.nbr_peers ≡ q.nbr_peers)
unfolding pushed
push-Lane log q r token l h = (
  pushed q r l.buffer l.write token,
  push_lem log q r token l,
  pushed-Lane log q r token l h,
  λ p other. pushed-Lane_other other q r p l.write l.buffer token,
  refl,
  refl,
  refl,
  refl,
)

-- Moving the read positions of one reader.
abbrev pub moved : FanoutBase → ℕ → ℕ → ℕ → FanoutBase
moved q r read tentative = record q {
  read_pos = insert r read q.read_pos;
  tentative_read_pos = insert r tentative q.tentative_read_pos;
}

pub moved-Lane :
    (log : List Token) (q : FanoutBase) (r read tentative : ℕ) (l : Lane log q r)
    → l.read ≤ read
    → read ≤ tentative
    → tentative ≤ l.write
    → Lane log (moved q r read tentative) r
moved-Lane log q r read tentative l a b c = record {
  buffer = l.buffer;
  write = l.write;
  read = read;
  tentative = tentative;
  member = l.member;
  has_buffer = l.has_buffer;
  has_write = l.has_write;
  has_read = ground (arith, lookup-insert r r read q.read_pos);
  has_tentative = ground (arith, lookup-insert r r tentative q.tentative_read_pos);
  stores = l.stores;
  read_le = b;
  tentative_le = c;
  near = omega (arith, l.near);
}

pub moved-Lane_other :
    (log : List Token) (q : FanoutBase) (r p read tentative : ℕ)
    → r ≢ p
    → Lane log q p
    → Lane log (moved q r read tentative) p
moved-Lane_other log q r p read tentative n l = record {
  buffer = l.buffer;
  write = l.write;
  read = l.read;
  tentative = l.tentative;
  member = l.member;
  has_buffer = l.has_buffer;
  has_write = l.has_write;
  has_read = ground (arith, l.has_read, lookup-insert p r read q.read_pos);
  has_tentative = ground (arith, l.has_tentative, lookup-insert p r tentative q.tentative_read_pos);
  stores = l.stores;
  read_le = l.read_le;
  tentative_le = l.tentative_le;
  near = l.near;
}

-- Reading a lane: `peek` gives the tokens of the reader's log one after another, `QueueEmpty` at
-- their end; `commit` makes the reads final and `cancel` takes them back. No other lane changes.
module _ (log : List Token) (q : FanoutBase) (r : ℕ) (l : Lane log q r) where
  pub peek_lem :
      l.tentative < l.write
      → (token : Token) × (get_elem? log l.tentative ≡ some token)
        × (peek r q ≡ done token (moved q r l.read (l.tentative + 1)))
  unfolding peek tokens_available
  peek_lem h =
      let (token, e, s) =
        stored-some log l.buffer l.write q.size l.tentative l.stores h
          (omega (arith, l.near, l.read_le)) in
      (
        token,
        e,
        ground (
          arith,
          l.member,
          l.has_write,
          l.has_tentative,
          l.has_buffer,
          insert_self r l.read q.read_pos l.has_read,
        ),
      )

  pub peek_empty : l.tentative ≡ l.write → peek r q ≡ raised (queue_empty r) q
  unfolding peek tokens_available
  peek_empty h = ground (arith, l.member, l.has_write, l.has_tentative)

  pub commit_lem : commit r q ≡ done false (moved q r l.tentative l.tentative)
  unfolding commit
  commit_lem =
      ground
        (arith, l.has_tentative, insert_self r l.tentative q.tentative_read_pos l.has_tentative)

  pub cancel_lem : cancel r q ≡ done tt (moved q r l.read l.read)
  unfolding cancel
  cancel_lem = ground (arith, l.has_read, insert_self r l.read q.read_pos l.has_read)
