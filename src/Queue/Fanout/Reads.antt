-- ===== src/Queue/Fanout/Reads.antt =====
-- FanoutFIFO: what `peek`, `cancel` and the operations by sequence number do to a well-formed queue.
use calvin_base.Base.{
  ℕ, ◌+◌, ◌-◌, ◌%◌, ◌≤◌, ◌<◌, ◌≡◌, refl, sym, ap, ◌≢◌, true, some, List, [], ◌∷◌, get_elem?,
  contains, leb, lookup, insert, queue_empty, attribute_error, done, raised, arith,
}
use calvin_base.Base.{insert_self, stored-some, lookup-AllValues}
use calvin_base.Token.{Token}
use calvin_base.Queue.Common.{handled, unhandled, invalid}
use calvin_base.Queue.Fanout.{FanoutFifo, peek, cancel, tokens_available}
use calvin_base.Queue.Fanout.Com.{com_peek, com_commit, com_cancel}
use calvin_base.Queue.Fanout.Log.{Represents}
use calvin_base.Queue.Fanout.Invariant.{IsValid, IsNear, Follows, moved}

pub tokens_available_lem :
    (q : FanoutFifo) (r n t : ℕ) (readers : List ℕ)
    → q.readers ≡ readers
    → contains readers r ≡ true
    → lookup r q.tentative_read_pos ≡ some t
    → tokens_available n r q ≡ done (leb (t + n) q.write_pos) q
unfolding tokens_available
tokens_available_lem q r n t [] e m k = cc
tokens_available_lem q r n t (x ∷ xs) e m k = ground arith

-- The token at the tentative position.
next_token :
    (log : List Token) (q : FanoutFifo) (r : ℕ) (v : IsValid q) (f : Follows q r)
    → Represents log q
    → f.tentative < q.write_pos
    → (token : Token) × (get_elem? log f.tentative ≡ some token)
      × (get_elem? q.fifo (f.tentative % q.size) ≡ some token)
next_token log q r v f rep h =
    let near = lookup-AllValues (IsNear q) r q.read_pos f.read v.near f.has_read in
    stored-some log q.fifo q.write_pos q.size f.tentative rep h (omega (arith, near, f.read_le))

abbrev pub tentatively : FanoutFifo → ℕ → ℕ → FanoutFifo
tentatively q r t = record q { tentative_read_pos = insert r t q.tentative_read_pos }

pub tentatively-moved :
    (q : FanoutFifo) (r a t : ℕ) → lookup r q.read_pos ≡ some a → tentatively q r t ≡ moved q r a t
tentatively-moved q r a t e =
    ap (λ d. record (tentatively q r t) { read_pos = d }) (sym (insert_self r a q.read_pos e))

peek_at :
    (q : FanoutFifo) (r t : ℕ) (token : Token)
    → contains q.readers r ≡ true
    → lookup r q.tentative_read_pos ≡ some t
    → get_elem? q.fifo (t % q.size) ≡ some token
    → t < q.write_pos
    → peek r q ≡ done token (tentatively q r (t + 1))
unfolding peek
peek_at q r t token m e s h = ground (arith, tokens_available_lem q r 1 t q.readers refl)

peek_empty :
    (q : FanoutFifo) (r t : ℕ)
    → contains q.readers r ≡ true
    → lookup r q.tentative_read_pos ≡ some t
    → t ≡ q.write_pos
    → peek r q ≡ raised (queue_empty r) q
unfolding peek
peek_empty q r t m e h = ground (arith, tokens_available_lem q r 1 t q.readers refl)

-- A reader is given the sequence of all written tokens, one after another from its position on,
-- each with its number counted from where it started, and `QueueEmpty` at the end of the sequence.
pub peek-log :
    (log : List Token) (q : FanoutFifo) (r : ℕ) (v : IsValid q) (f : Follows q r)
    → Represents log q
    → contains q.readers r ≡ true
    → (f.tentative < q.write_pos
        → (token : Token) × (get_elem? log f.tentative ≡ some token)
          × (peek r q ≡ done token (tentatively q r (f.tentative + 1)))
          × (com_peek r q
              ≡ done (f.tentative - f.offset, token) (tentatively q r (f.tentative + 1))))
      × (f.tentative ≡ q.write_pos
          → (peek r q ≡ raised (queue_empty r) q) × (com_peek r q ≡ raised (queue_empty r) q))
unfolding com_peek
peek-log log q r v f rep m = (
  λ h.
      let (token, e, s) = next_token log q r v f rep h in
      let p = peek_at q r f.tentative token m f.has_tentative s h in
      (token, e, p, ground (arith, p, f.has_tentative, f.has_offset)),
  λ h.
      let p = peek_empty q r f.tentative m f.has_tentative h in
      (p, ground (arith, p, f.has_tentative, f.has_offset)),
)

-- The answers to a sequence number, counted from where the reader started: one that was not yet
-- read is invalid, the oldest that is not committed is committed, and any other is passed over.
pub com_commit_cases :
    (q : FanoutFifo) (r nbr : ℕ) (f : Follows q r)
    → (f.tentative ≤ nbr + f.offset → com_commit r nbr q ≡ done (some invalid) q)
      × (nbr + f.offset ≡ f.read
          → f.read < f.tentative
          → com_commit r nbr q
            ≡ done (some handled) (record q { read_pos = insert r (f.read + 1) q.read_pos }))
      × (nbr + f.offset ≢ f.read
          → nbr + f.offset < f.tentative
          → f.read < f.tentative
          → com_commit r nbr q ≡ done (some unhandled) q)
unfolding com_commit
com_commit_cases q r nbr f = (
  λ h. ground (arith, f.has_offset, f.has_read, f.has_tentative),
  λ h k. ground (arith, f.has_offset, f.has_read, f.has_tentative),
  λ h k l. ground (arith, f.has_offset, f.has_read, f.has_tentative),
)

-- A number that was read is taken back, with all that were read after it. A later number is not
-- answered by `invalid` but raises, since the test reads an attribute that does not exist.
pub com_cancel_cases :
    (q : FanoutFifo) (r nbr : ℕ) (f : Follows q r)
    → (nbr + f.offset < f.tentative
        → com_cancel r nbr q ≡ done handled (tentatively q r (nbr + f.offset)))
      × (f.tentative ≤ nbr + f.offset → com_cancel r nbr q ≡ raised attribute_error q)
unfolding com_cancel
com_cancel_cases q r nbr f = (
  λ h. ground (arith, f.has_offset, f.has_tentative),
  λ h. ground (arith, f.has_offset, f.has_tentative),
)

pub cancel_lem :
    (q : FanoutFifo) (r : ℕ) (f : Follows q r) → cancel r q ≡ done tt (tentatively q r f.read)
unfolding cancel
cancel_lem q r f = ground (arith, f.has_read)
