-- ===== src/Queue/Routed/Readers.antt =====
-- FanoutBase: readers that come and go, and what is left of a reader that goes.
use calvin_base.Base.{
  ℕ, zero, suc, ◌+◌, ◌-◌, ◌%◌, ◌≤◌, ◌<◌, ◌≡◌, refl, ◌∙◌, ◌≢◌, true, false, none, some, List, [],
  ◌∷◌, length, get_elem?, replicate, drop, contains, remove, Distinct, subst, lookup, erase, done,
  after, arith,
}
use native.Mathlib.Numerals.{add-one}
use calvin_base.Base.{
  length-drop, lookup-insert, lookup-erase, Stores, replicate-Stores, contains-append,
  contains-remove, drop-cons,
}
use calvin_base.Token.{Token, plain, num}
use calvin_base.Queue.Common.{Disconnect, is_sending}
use calvin_base.Queue.Routed.{FanoutBase, add_reader, open_lane, remove_reader, exhaust, unread}
use calvin_base.Queue.Routed.Lanes.{Lane}

abbrev pub removed : FanoutBase → ℕ → FanoutBase
removed q r = record q {
  read_pos = erase r q.read_pos;
  tentative_read_pos = erase r q.tentative_read_pos;
  write_pos = erase r q.write_pos;
  fifo = erase r q.fifo;
  readers = remove r q.readers;
  nbr_peers = q.nbr_peers - 1;
}

removed-Lane :
    (log : List Token) (q : FanoutBase) (r p : ℕ)
    → Distinct q.readers
    → r ≢ p
    → Lane log q p
    → Lane log (removed q r) p
removed-Lane log q r p d n l = record {
  buffer = l.buffer;
  write = l.write;
  read = l.read;
  tentative = l.tentative;
  member = ground (arith, contains-remove r q.readers p d, l.member);
  has_buffer = ground (arith, l.has_buffer, lookup-erase p r q.fifo);
  has_write = ground (arith, l.has_write, lookup-erase p r q.write_pos);
  has_read = ground (arith, l.has_read, lookup-erase p r q.read_pos);
  has_tentative = ground (arith, l.has_tentative, lookup-erase p r q.tentative_read_pos);
  stores = l.stores;
  read_le = l.read_le;
  tentative_le = l.tentative_le;
  near = l.near;
}

pub remove_reader_lem :
    (log : List Token) (q : FanoutBase) (r : ℕ)
    → Lane log q r
    → remove_reader r q ≡ done true (removed q r)
unfolding remove_reader
remove_reader_lem log q r l =
    ground (arith, l.member, l.has_read, l.has_tentative, l.has_write, l.has_buffer)

-- A reader is removed with its lane, and every other lane stays as it was.
pub remove_reader-Lane :
    (log : List Token) (q : FanoutBase) (r : ℕ)
    → Lane log q r
    → Distinct q.readers
    → (remove_reader r q ≡ done true (removed q r))
      × (contains (removed q r).readers r ≡ false)
      × ((p : ℕ) (other : List Token) → r ≢ p → Lane other q p → Lane other (removed q r) p)
remove_reader-Lane log q r l d = (
  remove_reader_lem log q r l,
  ground (arith, contains-remove r q.readers r d),
  λ p other. removed-Lane other q r p d,
)

opened-Lane :
    (q : FanoutBase) (r : ℕ) → 0 < q.size → lookup r q.fifo ≡ none → Lane [] (open_lane r q) r
unfolding open_lane
opened-Lane q r h n = record {
  buffer = replicate q.size (plain (num 0));
  write = 0;
  read = 0;
  tentative = 0;
  member = ground (arith, contains-append q.readers (r ∷ []) r);
  has_buffer = ground (arith, lookup-insert r r (replicate q.size (plain (num 0))) q.fifo);
  has_write = ground (arith, lookup-insert r r 0 q.write_pos);
  has_read = ground (arith, lookup-insert r r 0 q.read_pos);
  has_tentative = ground (arith, lookup-insert r r 0 q.tentative_read_pos);
  stores = blank q.size h;
  read_le = omega arith;
  tentative_le = omega arith;
  near = omega arith;
}
  where
    blank : (n : ℕ) → 0 < n → Stores [] (replicate n (plain (num 0))) 0 n
    blank zero h = elim h [ ]
    blank (suc n) h =
        subst (λ k. Stores [] (replicate k (plain (num 0))) 0 k) (add-one n)
          (replicate-Stores n (plain (num 0)))

opened-Lane_other :
    (log : List Token) (q : FanoutBase) (r p : ℕ)
    → r ≢ p
    → lookup r q.fifo ≡ none
    → Lane log q p
    → Lane log (open_lane r q) p
unfolding open_lane
opened-Lane_other log q r p n e l = record {
  buffer = l.buffer;
  write = l.write;
  read = l.read;
  tentative = l.tentative;
  member = ground (arith, l.member, contains-append q.readers (r ∷ []) p);
  has_buffer =
      ground (arith, l.has_buffer, lookup-insert p r (replicate q.size (plain (num 0))) q.fifo);
  has_write = ground (arith, l.has_write, lookup-insert p r 0 q.write_pos);
  has_read = ground (arith, l.has_read, lookup-insert p r 0 q.read_pos);
  has_tentative = ground (arith, l.has_tentative, lookup-insert p r 0 q.tentative_read_pos);
  stores = l.stores;
  read_le = l.read_le;
  tentative_le = l.tentative_le;
  near = l.near;
}

counted-Lane :
    (log : List Token) (q : FanoutBase) (p n : ℕ)
    → Lane log q p
    → Lane log (record q { nbr_peers = n }) p
counted-Lane log q p n l = record {
  buffer = l.buffer;
  write = l.write;
  read = l.read;
  tentative = l.tentative;
  member = l.member;
  has_buffer = l.has_buffer;
  has_write = l.has_write;
  has_read = l.has_read;
  has_tentative = l.has_tentative;
  stores = l.stores;
  read_le = l.read_le;
  tentative_le = l.tentative_le;
  near = l.near;
}

-- A new reader has an empty lane, and every other lane stays as it was.
pub add_reader-Lane :
    (q : FanoutBase) (r : ℕ)
    → 0 < q.size
    → contains q.readers r ≡ false
    → lookup r q.fifo ≡ none
    → Lane [] (add_reader r q) r
      × ((p : ℕ) (log : List Token) → r ≢ p → Lane log q p → Lane log (add_reader r q) p)
unfolding add_reader
add_reader-Lane q r h m n = (
  rw m (counted-Lane [] (open_lane r q) r _ (opened-Lane q r h n)),
  λ p log d l. rw m (counted-Lane log (open_lane r q) p _ (opened-Lane_other log q r p d n l)),
)

-- Tokens with the numbers from `n` on.
abbrev pub numbered : ℕ → List Token → List (ℕ × Token)
numbered n [] = []
numbered n (t ∷ ts) = (n, t) ∷ numbered (n + 1) ts

unread_lem :
    (log buffer : List Token) (w size : ℕ) (rest : List Token) (pos n : ℕ)
    → Stores log buffer w size
    → drop pos log ≡ rest
    → n ≡ length rest
    → w ≤ pos + size
    → unread buffer size n pos ≡ some (numbered pos rest)
unfolding unread
unread_lem log buffer w size [] pos zero s d e h = refl
unread_lem log buffer w size [] pos (suc n) s d e h = absurd (omega arith)
unread_lem log buffer w size (t ∷ rest) pos zero s d e h = absurd (omega arith)
unread_lem log buffer w size (t ∷ rest) pos (suc n) s d e h =
    let (at, after, lt) = drop-cons log pos t rest d in
    let held : get_elem? buffer (pos % size) ≡ some t =
      s.stored pos (omega (arith, s.written)) h ∙ at in
    let ih =
      unread_lem log buffer w size rest (pos + 1) n s (rw add-one after) (omega arith)
        (omega arith) in
    ground (arith, held, ih)

-- A reader that sends its exhausted tokens away is removed, and the answer is what it has not
-- committed: the rest of its log, each token once, in order and with its number.
pub exhaust-unread :
    (log : List Token) (q : FanoutBase) (r : ℕ) (mode : Disconnect) (l : Lane log q r)
    → is_sending mode ≡ true
    → exhaust (λ s. s) remove_reader r mode q
      ≡ done (numbered l.read (drop l.read log)) (removed q r)
unfolding exhaust
exhaust-unread log q r mode l send =
    let tokens =
      unread_lem log l.buffer l.write q.size (drop l.read log) l.read (l.write - l.read) l.stores
        refl (omega (arith, length-drop l.read log, l.stores.written)) (omega (arith, l.near)) in
    ground (
      arith,
      l.member,
      l.has_read,
      l.has_write,
      l.has_buffer,
      send,
      tokens,
      remove_reader_lem log q r l,
    )
