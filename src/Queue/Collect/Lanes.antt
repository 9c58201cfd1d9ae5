-- ===== src/Queue/Collect/Lanes.antt =====
-- CollectBase against what it promises: each writer has a lane, which holds the end of the sequence
-- of all tokens that it wrote.
use calvin_base.Base.{
  ℕ, ◌+◌, ◌%◌, ◌≤◌, ◌<◌, ◌≡◌, ◌≢◌, ◌⊎◌, inl, inr, true, false, some, List, [], ◌∷◌, ◌++◌, set,
  contains, ltb, Bool-cases, lookup, insert, queue_full, done, raised, arith,
}
use calvin_base.Base.{lookup-insert, Stores, set-Stores, slot-some, order_cases}
use calvin_base.Token.{Token}
use calvin_base.Queue.Common.{handled, unhandled, invalid}
use calvin_base.Queue.Collect.{CollectBase, slots_available, write, com_write, write_next}

pub record Lane (log : List Token) (q : CollectBase) (r : ℕ) : Type 0 where
  pub buffer : List Token
  pub write : ℕ
  pub read : ℕ
  pub tentative : ℕ
  pub member : contains q.writers r ≡ true
  pub has_buffer : lookup r q.fifo ≡ some buffer
  pub has_write : lookup r q.write_pos ≡ some write
  pub has_read : lookup r q.read_pos ≡ some read
  pub has_tentative : lookup r q.tentative_read_pos ≡ some tentative
  pub stores : Stores log buffer write q.size
  pub read_le : read ≤ tentative
  pub tentative_le : tentative ≤ write
  pub near : write < read + q.size
  pub some_slot : 1 < q.size

-- The queue with a token more in a lane.
pub grown : CollectBase → ℕ → List Token → ℕ → Token → CollectBase
grown q r buffer w token = record q {
  fifo = insert r (set buffer (w % q.size) token) q.fifo;
  write_pos = insert r (w + 1) q.write_pos;
}

slots_available_lem :
    (log : List Token) (q : CollectBase) (r : ℕ) (l : Lane log q r)
    → slots_available 1 r q ≡ done (ltb (l.write + 1) (q.size + l.read)) q
unfolding slots_available
slots_available_lem log q r l = ground (arith, l.member, l.has_write, l.has_read, l.some_slot)

grown-Lane :
    (log : List Token) (q : CollectBase) (r : ℕ) (token : Token) (l : Lane log q r)
    → l.write + 1 < q.size + l.read
    → Lane (log ++ token ∷ []) (grown q r l.buffer l.write token) r
unfolding grown
grown-Lane log q r token l h = record {
  buffer = set l.buffer (l.write % q.size) token;
  write = l.write + 1;
  read = l.read;
  tentative = l.tentative;
  member = l.member;
  has_buffer = ground (arith, lookup-insert r r (set l.buffer (l.write % q.size) token) q.fifo);
  has_write = ground (arith, lookup-insert r r (l.write + 1) q.write_pos);
  has_read = l.has_read;
  has_tentative = l.has_tentative;
  stores = set-Stores log l.buffer l.write q.size token l.stores;
  read_le = l.read_le;
  tentative_le = omega (arith, l.tentative_le);
  near = omega arith;
  some_slot = l.some_slot;
}

grown-Lane_other :
    (log : List Token) (q : CollectBase) (r p w : ℕ) (buffer : List Token) (token : Token)
    → r ≢ p
    → Lane log q p
    → Lane log (grown q r buffer w token) p
unfolding grown
grown-Lane_other log q r p w buffer token n l = record {
  buffer = l.buffer;
  write = l.write;
  read = l.read;
  tentative = l.tentative;
  member = l.member;
  has_buffer =
      ground (arith, l.has_buffer, lookup-insert p r (set buffer (w % q.size) token) q.fifo);
  has_write = ground (arith, l.has_write, lookup-insert p r (w + 1) q.write_pos);
  has_read = l.has_read;
  has_tentative = l.has_tentative;
  stores = l.stores;
  read_le = l.read_le;
  tentative_le = l.tentative_le;
  near = l.near;
  some_slot = l.some_slot;
}

write_room :
    (log : List Token) (q : CollectBase) (r : ℕ) (token : Token) (l : Lane log q r)
    → ltb (l.write + 1) (q.size + l.read) ≡ true
    → write token r q ≡ done true (grown q r l.buffer l.write token)
unfolding write grown
write_room log q r token l h =
    let (old, e) = slot-some log l.buffer l.write q.size l.write l.stores in
    ground (arith, slots_available_lem log q r l, l.has_write, l.has_buffer)

write_full :
    (log : List Token) (q : CollectBase) (r : ℕ) (token : Token) (l : Lane log q r)
    → ltb (l.write + 1) (q.size + l.read) ≡ false
    → write token r q ≡ raised queue_full q
unfolding write
write_full log q r token l h = ground (arith, slots_available_lem log q r l)

com_write_next :
    (log : List Token) (q : CollectBase) (r : ℕ) (token : Token) (l : Lane log q r)
    → com_write token r l.write q ≡ write_next token r q
unfolding com_write
com_write_next log q r token l = ground (arith, l.has_write)

-- A numbered write to the lane of a writer: the token with the next number is added to the log of
-- the writer if its lane has a free slot, and raises `QueueFull` if not; a number that was
-- written before is passed over and a later one is invalid, and neither changes anything. The lane of
-- another writer stays as it was.
pub com_write_lanes :
    (log other : List Token) (q : CollectBase) (r p nbr : ℕ) (token : Token) (l : Lane log q r)
    → r ≢ p
    → Lane other q p
    → ((s : CollectBase) × (nbr ≡ l.write)
        × (l.write + 1 < l.read + q.size)
        × (com_write token r nbr q ≡ done handled s)
        × Lane (log ++ token ∷ []) s r
        × Lane other s p)
      ⊎ ((nbr ≡ l.write)
          × (l.read + q.size ≤ l.write + 1)
          × (com_write token r nbr q ≡ raised queue_full q))
      ⊎ ((nbr < l.write) × (com_write token r nbr q ≡ done unhandled q))
      ⊎ ((l.write < nbr) × (com_write token r nbr q ≡ done invalid q))
unfolding com_write write_next
com_write_lanes log other q r p nbr token l n m = elim (order_cases nbr l.write) [
  | inl h ↦ inr (inr (inl (h, ground (arith, l.has_write))))
  | inr (inr h) ↦ inr (inr (inr (h, ground (arith, l.has_write))))
  | inr (inl e) ↦ elim (Bool-cases (ltb (l.write + 1) (q.size + l.read))) [
    | inl room ↦ inl (
      grown q r l.buffer l.write token,
      e,
      ground arith,
      ground (arith, l.has_write, write_room log q r token l room),
      grown-Lane log q r token l (ground arith),
      grown-Lane_other other q r p l.write l.buffer token n m,
    )
    | inr full ↦
        inr (inl (e, ground arith, ground (arith, l.has_write, write_full log q r token l full)))
  ]
]
