-- ===== src/Queue/Fanout/Com.antt =====
-- fanout_fifo.py: the operations that a connection uses, by sequence numbers.
use calvin_base.Base.{
  ℕ, ◌+◌, ◌-◌, Bool, Option, none, some, leb, ltb, ◌==◌, if◌then◌else◌, insert, attribute_error,
  Method, done, ◌>>=◌, ◌>>◌, return, put, require, item,
}
use calvin_base.Token.{Token}
use calvin_base.Queue.Common.{CommitResponse, handled, unhandled, invalid}
use calvin_base.Queue.Fanout.{FanoutFifo, write, peek}

-- A token with another number than the next one is not written.
unfoldable pub com_write : Token → ℕ → Method FanoutFifo CommitResponse
com_write token nbr q =
    if nbr == q.write_pos
    then (do _ ← write token; return handled) q
    else done (if ltb nbr q.write_pos then unhandled else invalid) q

-- The position is counted from where the reader started.
unfoldable pub com_peek : ℕ → Method FanoutFifo (ℕ × Token)
com_peek reader q =
    (do
      pos ← item q.tentative_read_pos reader
      offset ← item q.reader_offset reader
      token ← peek reader
      return (pos - offset, token))
      q

-- One token is committed where the number is the oldest that was read; `none` is the end of the
-- body without a `return`.
commit_at : ℕ → ℕ → ℕ → ℕ → Method FanoutFifo (Option CommitResponse)
commit_at reader nbr read tentative q =
    if leb tentative nbr
    then done (some invalid) q
    else (if ltb read tentative
        then (if nbr == read
            then done (some handled) (record q { read_pos = insert reader (read + 1) q.read_pos })
            else done (some unhandled) q)
        else done none q)

unfoldable pub com_commit : ℕ → ℕ → Method FanoutFifo (Option CommitResponse)
unfolding commit_at
com_commit reader nbr q =
    (do
      offset ← item q.reader_offset reader
      tentative ← item q.tentative_read_pos reader
      read ← item q.read_pos reader
      commit_at reader (nbr + offset) read tentative)
      q

-- `self.reader_pos` is no attribute of the queue: the second half of the test raises.
unfoldable pub com_cancel : ℕ → ℕ → Method FanoutFifo CommitResponse
com_cancel reader nbr q =
    (do
      offset ← item q.reader_offset reader
      tentative ← item q.tentative_read_pos reader
      require (ltb (nbr + offset) tentative) attribute_error
      put (record q { tentative_read_pos = insert reader (nbr + offset) q.tentative_read_pos })
      return handled)
      q

unfoldable pub com_is_committed : ℕ → Method FanoutFifo Bool
com_is_committed reader q =
    (do
      tentative ← item q.tentative_read_pos reader
      read ← item q.read_pos reader
      return (tentative == read))
      q
