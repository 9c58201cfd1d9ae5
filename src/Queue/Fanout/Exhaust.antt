-- ===== src/Queue/Fanout/Exhaust.antt =====
-- fanout_fifo.py: taking a peer off while its tokens are kept, and `commit`, which goes on with it.
use calvin_base.Base.{
  ℕ, zero, suc, ◌+◌, ◌-◌, ◌%◌, Bool, true, false, not, ◌&&◌, ◌||◌, Option, none, some, List, [],
  ◌∷◌, contains, ◌==◌, if◌then◌else◌, Dict, lookup, insert, erase, keys, update, value_error,
  type_error, Method, done, ◌>>=◌, ◌>>◌, return, raise, self, put, item, elem, attempt,
}
use calvin_base.Token.{Token}
use calvin_base.Queue.Common.{Disconnect, is_sending, is_receiving, in_port, out_port}
use calvin_base.Queue.Fanout.{FanoutFifo, remove_reader, slots_available, oldest_read}
use calvin_base.Queue.Fanout.Com.{com_write}

-- Tokens with their positions.
abbrev pub Numbered : Type 0
Numbered = List (ℕ × Token)

-- The loop over `range(read_pos, write_pos)`.
unfoldable pub unread : ℕ → ℕ → Method FanoutFifo Numbered
unread zero pos q = done [] q
unread (suc n) pos q =
    (do token ← elem q.fifo (pos % q.size); rest ← unread n (pos + 1); return ((pos, token) ∷ rest))
      q

exhaust_reader : ℕ → Disconnect → Method FanoutFifo Numbered
unfolding unread
exhaust_reader peer mode q =
    if not (contains q.readers peer)
    then done [] q
    else (if is_sending mode
        then (do
          read ← item q.read_pos peer
          tokens ← unread (q.write_pos - read) read
          remove_reader peer
          s ← self
          put (record s { termination = erase peer s.termination })
          return tokens)
            q
        else done [] q)

unfoldable pub exhaust : ℕ → Disconnect → Method FanoutFifo Numbered
unfolding exhaust_reader
exhaust peer mode q =
    exhaust_reader peer mode (record q { termination = insert peer (mode, false) q.termination })

any_missing : Dict (Disconnect × Bool) → Bool
any_missing [] = false
any_missing ((k, (t, received)) ∷ d) = not received || any_missing d

unfoldable pub any_outstanding_exhaustion_tokens : FanoutFifo → Bool
unfolding any_missing
any_outstanding_exhaustion_tokens q = any_missing q.termination

-- Writes numbered tokens while there is room, and returns those that are left.
unfoldable pub transfer_exhaust_tokens : Numbered → Method FanoutFifo Numbered
transfer_exhaust_tokens [] q = done [] q
transfer_exhaust_tokens ((pos, token) ∷ rest) q =
    let more = (com_write token pos >>= λ _. transfer_exhaust_tokens rest) q in
    if slots_available 1 q then more else done ((pos, token) ∷ rest) q

-- The entries of peers whose tokens all went over are deleted.
abbrev pub keep_entry : ℕ → Numbered → Dict Numbered → Dict Numbered
keep_entry peer [] d = d
keep_entry peer (t ∷ ts) d = (peer, t ∷ ts) ∷ d

unfoldable pub transfer_all : Dict Numbered → Method FanoutFifo (Dict Numbered)
transfer_all [] = return []
transfer_all ((peer, tokens) ∷ d) = do
  left ← transfer_exhaust_tokens tokens
  rest ← transfer_all d
  return (keep_entry peer left rest)

unfoldable pub transfer_exhausted : Method FanoutFifo (Unit {0})
unfolding transfer_all
transfer_exhausted q =
    (do
      left ← transfer_all q.exhausted_tokens
      s ← self
      put (record s { exhausted_tokens = left }))
      q

-- `self.termination[peer] = (self.termination[peer][0], True)`, where there is such an entry.
abbrev mark_entry :
    ℕ → Option (Disconnect × Bool) → Dict (Disconnect × Bool) → Dict (Disconnect × Bool)
mark_entry peer none d = d
mark_entry peer (some (t, _)) d = insert peer (t, true) d

abbrev pub mark_received : List ℕ → Dict (Disconnect × Bool) → Dict (Disconnect × Bool)
mark_received [] d = d
mark_received (peer ∷ peers) d = mark_received peers (mark_entry peer (lookup peer d) d)

abbrev pub is_receiving_entry : Option (Disconnect × Bool) → Bool
is_receiving_entry none = false
is_receiving_entry (some (t, _)) = is_receiving t

abbrev pub is_received_entry : Option (Disconnect × Bool) → Bool
is_received_entry none = false
is_received_entry (some (_, received)) = received

-- Acting as inport there is one reader: remove it if it is still around.
remove_only_reader : Method FanoutFifo (Unit {0})
remove_only_reader q =
    attempt
      (elim q.readers [ [] ↦ raise {A = Unit {0}} value_error | reader ∷ _ ↦ remove_reader reader ])
      q

unfoldable pub finish_terminated : List ℕ → Method FanoutFifo (Unit {0})
unfolding remove_only_reader
finish_terminated [] q = done tt q
finish_terminated (peer ∷ peers) q =
    ((λ (s : FanoutFifo).
          if is_receiving_entry (lookup peer s.termination) && oldest_read s == s.write_pos
          then remove_only_reader (record s { termination = erase peer s.termination })
          else done tt s)
        >> finish_terminated peers)
      q

unfoldable pub set_exhausted_tokens : Dict Numbered → Method FanoutFifo ℕ
unfolding transfer_exhausted
set_exhausted_tokens tokens q =
    (do
      put (record q {
        exhausted_tokens = update q.exhausted_tokens tokens;
        termination = mark_received (keys tokens) q.termination;
      })
      transfer_exhausted
      finish_terminated (keys tokens)
      s ← self
      return s.nbr_peers)
      q

-- The removal of the reader fails, since `self.readers` is a set, and the failure is only logged.
remove_first_reader : Method FanoutFifo (Unit {0})
remove_first_reader = attempt (raise {A = Unit {0}} type_error)

unfoldable pub finish_commit : ℕ → Method FanoutFifo Bool
unfolding remove_first_reader
finish_commit reader q =
    if is_receiving_entry (lookup reader q.termination)
      && (oldest_read q == q.write_pos && is_received_entry (lookup reader q.termination))
    then (do
      put (record q { termination = erase reader q.termination })
      remove_first_reader
      return true)
        q
    else done false q

unfoldable pub commit : ℕ → Method FanoutFifo Bool
unfolding transfer_exhausted finish_commit
commit reader q =
    (do
      pos ← item q.tentative_read_pos reader
      put (record q { read_pos = insert reader pos q.read_pos })
      transfer_exhausted
      finish_commit reader)
      q

-- The readers of an outport, the writer of an inport.
unfoldable pub get_peers : FanoutFifo → Option (List ℕ)
get_peers q = elim q.direction [
  | some out_port ↦ some q.readers
  | some in_port ↦ elim q.writer [ none ↦ none | some w ↦ some (w ∷ []) ]
  | none ↦ none
]
