-- ===== src/Queue/Fanout/Promises.antt =====
-- FanoutFIFO: what its operations answer, on every branch.
use calvin_base.Base.{
  ℕ, ◌+◌, ◌-◌, ◌≤◌, ◌<◌, ◌≡◌, refl, ap, ◌∙◌, ◌≢◌, ◌⊎◌, inl, inr, true, false, none, some, List, [],
  ◌∷◌, ◌++◌, length, get_elem?, contains, ltb, Bool-cases, insert, queue_full, queue_empty,
  attribute_error, done, raised, arith, ℕ_discrete,
}
use calvin_base.Base.{ltb→lt, lt_cases, order_cases, contains-remove}
use calvin_base.Token.{Token}
use calvin_base.Queue.Common.{handled, unhandled, invalid}
use calvin_base.Queue.Fanout.{
  FanoutFifo, state, set_state, write, peek, slots_available, remove_reader,
}
use calvin_base.Queue.Fanout.Com.{com_write, com_peek, com_commit, com_cancel}
use calvin_base.Queue.Fanout.Log.{Represents, written}
use calvin_base.Queue.Fanout.Invariant.{IsValid, Follows}
use calvin_base.Queue.Fanout.Run.{Holds, write-Holds, com_write-Holds}
use calvin_base.Queue.Fanout.Reads.{tentatively, peek-log, com_commit_cases, com_cancel_cases}
use calvin_base.Queue.Fanout.Readers.{removed, removed-IsValid, remove_reader_cases}
use calvin_base.Token.Laws.{map-from_repr}

-- A write on a queue that holds the end of the log: with a free slot it adds its token to the log,
-- and the queue goes on holding every token that some reader has not committed; with none it
-- raises `QueueFull` and changes nothing.
pub write_lem :
    (log : List Token) (q : FanoutFifo) (token : Token)
    → Holds log q
    → ((slots_available 1 q ≡ true)
        × (write token q ≡ done true (written q token))
        × Holds (log ++ token ∷ []) (written q token))
      ⊎ ((slots_available 1 q ≡ false) × (write token q ≡ raised queue_full q))
write_lem log q token h =
    let (room, full) = write-Holds log q token h in
    elim (Bool-cases (slots_available 1 q)) [
      | inl s ↦ inl (s, (room s).0, (room s).1)
      | inr s ↦ inr (s, full s)
    ]

-- A numbered write: the token with the next number is written if there is a free slot, and raises
-- `QueueFull` if not; a number that was written before is passed over, and a later one is invalid.
-- Only the first changes the queue.
pub com_write_lem :
    (log : List Token) (q : FanoutFifo) (token : Token) (nbr : ℕ)
    → Holds log q
    → ((nbr ≡ length log)
        × (slots_available 1 q ≡ true)
        × (com_write token nbr q ≡ done handled (written q token))
        × Holds (log ++ token ∷ []) (written q token))
      ⊎ ((nbr ≡ length log)
          × (slots_available 1 q ≡ false)
          × (com_write token nbr q ≡ raised queue_full q))
      ⊎ ((nbr < length log) × (com_write token nbr q ≡ done unhandled q))
      ⊎ ((length log < nbr) × (com_write token nbr q ≡ done invalid q))
com_write_lem log q token nbr h =
    let (room, full, old, ahead) = com_write-Holds log q token nbr h in
    elim (order_cases nbr (length log)) [
      | inl h ↦ inr (inr (inl (h, old h)))
      | inr (inl e) ↦ elim (Bool-cases (slots_available 1 q)) [
        | inl s ↦ inl (e, s, (room e s).0, (room e s).1)
        | inr s ↦ inr (inl (e, s, full e s))
      ]
      | inr (inr h) ↦ inr (inr (inr (h, ahead h)))
    ]

-- A read: a reader is given the token of the log at its tentative position, numbered from where
-- the reader started, and that position moves on; at the end of the log `QueueEmpty` is
-- raised and nothing changes.
pub com_peek_lem :
    (log : List Token) (q : FanoutFifo) (r : ℕ) (v : IsValid q) (f : Follows q r)
    → Represents log q
    → contains q.readers r ≡ true
    → ((token : Token) × (f.tentative < q.write_pos)
        × (get_elem? log f.tentative ≡ some token)
        × (peek r q ≡ done token (tentatively q r (f.tentative + 1)))
        × (com_peek r q ≡ done (f.tentative - f.offset, token) (tentatively q r (f.tentative + 1))))
      ⊎ ((f.tentative ≡ q.write_pos)
          × (peek r q ≡ raised (queue_empty r) q)
          × (com_peek r q ≡ raised (queue_empty r) q))
com_peek_lem log q r v f rep m =
    let (more, ends) = peek-log log q r v f rep m in
    elim (Bool-cases (ltb f.tentative q.write_pos)) [
      | inl e ↦
          let (token, at, p, c) = more (ltb→lt f.tentative q.write_pos e) in
          inl (token, ltb→lt f.tentative q.write_pos e, at, p, c)
      | inr e ↦
          let equal : f.tentative ≡ q.write_pos = ground (arith, e, f.tentative_le) in
          inr (equal, (ends equal).0, (ends equal).1)
    ]

-- The answers to the commit of a number, counted from where the reader started: a number that was
-- not read is invalid; the oldest that is not committed is committed; any other is
-- passed over, without an answer where no read is uncommitted.
pub com_commit_lem :
    (q : FanoutFifo) (r nbr : ℕ) (f : Follows q r)
    → ((f.tentative ≤ nbr + f.offset) × (com_commit r nbr q ≡ done (some invalid) q))
      ⊎ ((nbr + f.offset ≡ f.read)
          × (f.read < f.tentative)
          × (com_commit r nbr q
              ≡ done (some handled) (record q { read_pos = insert r (f.read + 1) q.read_pos })))
      ⊎ ((nbr + f.offset ≢ f.read)
          × (nbr + f.offset < f.tentative)
          × (f.read < f.tentative)
          × (com_commit r nbr q ≡ done (some unhandled) q))
      ⊎ ((nbr + f.offset < f.tentative)
          × (f.read ≡ f.tentative)
          × (com_commit r nbr q ≡ done none q))
unfolding com_commit
com_commit_lem q r nbr f =
    let (ahead, oldest, other) = com_commit_cases q r nbr f in
    elim (lt_cases (nbr + f.offset) f.tentative) [
      | inr h ↦ inl (h, ahead h)
      | inl h ↦ elim (lt_cases f.read f.tentative) [
        | inr k ↦ inr (
            inr (
              inr (
                h,
                omega (arith, f.read_le),
                ground (arith, f.has_offset, f.has_read, f.has_tentative),
              )))
        | inl k ↦ elim (ℕ_discrete (nbr + f.offset) f.read) [
          | yes e ↦ inr (inl (e, k, oldest e k))
          | no n ↦ inr (inr (inl (n, h, k, other n h k)))
        ]
      ]
    ]

-- The answers to the cancellation of a number: a number that was read is taken back with all that
-- were read after it. A number that was not read is not answered by `invalid`: the call raises
-- `AttributeError`.
pub com_cancel_lem :
    (q : FanoutFifo) (r nbr : ℕ) (f : Follows q r)
    → ((nbr + f.offset < f.tentative)
        × (com_cancel r nbr q ≡ done handled (tentatively q r (nbr + f.offset))))
      ⊎ ((f.tentative ≤ nbr + f.offset) × (com_cancel r nbr q ≡ raised attribute_error q))
com_cancel_lem q r nbr f =
    let (old, ahead) = com_cancel_cases q r nbr f in
    elim (Bool-cases (ltb (nbr + f.offset) f.tentative)) [
      | inl e ↦ let h = ltb→lt (nbr + f.offset) f.tentative e in inl (h, old h)
      | inr e ↦ let h : f.tentative ≤ nbr + f.offset = ground (arith, e) in inr (h, ahead h)
    ]

-- Removing a reader from a well-formed queue returns and leaves a well-formed queue that does not
-- know the reader.
pub remove_reader-IsValid :
    (q : FanoutFifo) (r : ℕ)
    → IsValid q
    → (s : FanoutFifo) × (remove_reader r q ≡ done tt s)
      × IsValid s
      × (contains s.readers r ≡ false)
remove_reader-IsValid q r v = elim (Bool-cases (contains q.readers r)) [
  | inl m ↦ (
    removed q r,
    remove_reader_cases q r v ∙ rw m refl,
    removed-IsValid q r v,
    ground (arith, contains-remove r q.readers r v.distinct),
  )
  | inr m ↦ (q, remove_reader_cases q r v ∙ rw m refl, v, m)
]

-- The state that is collected for a migration gives the new queue the tokens, the readers and the
-- positions, whatever the new queue held; what is not collected stays as the new queue had it.
pub set_state-state :
    (q p : FanoutFifo)
    → set_state (state q) p ≡ record p {
      queue_type = q.queue_type;
      fifo = q.fifo;
      size = q.size;
      readers = q.readers;
      write_pos = q.write_pos;
      read_pos = q.read_pos;
      tentative_read_pos = q.tentative_read_pos;
      reader_offset = q.reader_offset;
    }
unfolding set_state state
set_state-state q p =
    ap (λ (fifo : List Token). record (set_state (state q) p) { fifo = fifo })
      (map-from_repr q.fifo)
