-- ===== src/Queue/Routed/Promises.antt =====
-- FanoutBase: what its operations do to the lane of a reader and to the lane of another.
use calvin_base.Base.{
  ℕ, ◌+◌, ◌<◌, ◌≡◌, ◌≢◌, ◌⊎◌, inl, inr, true, false, none, some, List, [], ◌∷◌, ◌++◌, get_elem?,
  contains, Distinct, lookup, queue_empty, done, raised, arith,
}
use calvin_base.Base.{lt_cases}
use calvin_base.Token.{Token}
use calvin_base.Queue.Routed.{FanoutBase, push, peek, commit, cancel, add_reader, remove_reader}
use calvin_base.Queue.Routed.Lanes.{
  Lane, push-Lane, moved, moved-Lane, peek_lem, peek_empty, commit_lem, cancel_lem,
}
use calvin_base.Queue.Routed.Readers.{removed, remove_reader-Lane, add_reader-Lane}

-- A token that is pushed to a reader with a free slot is added to the log of that reader, and the
-- lane of another stays as it was; the readers and their positions do too.
pub push_lanes :
    (log other : List Token) (q : FanoutBase) (r p : ℕ) (token : Token) (l : Lane log q r)
    → l.write + 1 < l.read + q.size
    → r ≢ p
    → Lane other q p
    → (s : FanoutBase) × (push token r q ≡ done true s)
      × Lane (log ++ token ∷ []) s r
      × Lane other s p
      × (s.read_pos ≡ q.read_pos)
      × (s.readers ≡ q.readers)
push_lanes log other q r p token l room n m =
    let (s, e, grown, others, reads, readers, _, _) = push-Lane log q r token l room in
    (s, e, grown, others p other n m, reads, readers)

-- Reading a lane: `peek` gives the token of the reader's log at its tentative position and moves
-- that on, and raises `QueueEmpty` at the end of the log, changing nothing; `commit` makes the
-- tentative position final and `cancel` goes back to the final one, and the lane stays in order.
pub read_lane :
    (log : List Token) (q : FanoutBase) (r : ℕ) (l : Lane log q r)
    → (((token : Token) × (l.tentative < l.write)
          × (get_elem? log l.tentative ≡ some token)
          × (peek r q ≡ done token (moved q r l.read (l.tentative + 1)))
          × Lane log (moved q r l.read (l.tentative + 1)) r)
        ⊎ ((l.tentative ≡ l.write) × (peek r q ≡ raised (queue_empty r) q)))
      × (commit r q ≡ done false (moved q r l.tentative l.tentative))
      × Lane log (moved q r l.tentative l.tentative) r
      × (cancel r q ≡ done tt (moved q r l.read l.read))
      × Lane log (moved q r l.read l.read) r
read_lane log q r l = (
  elim (lt_cases l.tentative l.write) [
    | inl h ↦
        let (token, at, e) = peek_lem log q r l h in
        inl (
          token,
          h,
          at,
          e,
          moved-Lane log q r l.read (l.tentative + 1) l (omega arith) (omega (arith, l.read_le))
              (omega arith),
        )
    | inr h ↦
        let e : l.tentative ≡ l.write = omega (arith, l.tentative_le) in
        inr (e, peek_empty log q r l e)
  ],
  commit_lem log q r l,
  moved-Lane log q r l.tentative l.tentative l l.read_le (omega arith) l.tentative_le,
  cancel_lem log q r l,
  moved-Lane log q r l.read l.read l (omega arith) (omega arith)
      (omega (arith, l.read_le, l.tentative_le)),
)

-- A reader is removed with its lane, and the lane of another stays as it was.
pub remove_reader_lanes :
    (log other : List Token) (q : FanoutBase) (r p : ℕ)
    → Lane log q r
    → Distinct q.readers
    → r ≢ p
    → Lane other q p
    → (s : FanoutBase) × (remove_reader r q ≡ done true s)
      × (contains s.readers r ≡ false)
      × Lane other s p
remove_reader_lanes log other q r p l d n m =
    let (e, gone, others) = remove_reader-Lane log q r l d in
    (removed q r, e, gone, others p other n m)

-- A new reader gets an empty lane, and the lane of another stays as it was.
pub add_reader_lanes :
    (other : List Token) (q : FanoutBase) (r p : ℕ)
    → 0 < q.size
    → contains q.readers r ≡ false
    → lookup r q.fifo ≡ none
    → r ≢ p
    → Lane other q p
    → Lane [] (add_reader r q) r × Lane other (add_reader r q) p
add_reader_lanes other q r p h m e n l =
    let (empty, others) = add_reader-Lane q r h m e in (empty, others p other n l)
