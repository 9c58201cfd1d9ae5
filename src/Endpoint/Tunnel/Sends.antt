-- ===== src/Endpoint/Tunnel/Sends.antt =====
-- TunnelOutEndpoint on a FanoutFIFO queue: what is sent, and what is sent again.
use calvin_base.Base.{
  ℕ, zero, suc, ◌+◌, ◌-◌, ◌≤◌, ◌<◌, ◌≡◌, refl, sym, ap, ◌∙◌, Bool, true, false, not, ◌||◌, List, [],
  ◌∷◌, ◌++◌, length, is_empty, drop, contains, leb, if◌then◌else◌, subst, done, ◌>>◌, arith,
}
use native.Mathlib.Numerals.{add-one}
use calvin_base.Base.{
  >>=_done, drop-cons, drop-nil, insert_self, insert-insert, lookup-insert, append_assoc,
  append-nil,
}
use calvin_base.Token.{Token, Repr, repr_for_coder}
use calvin_base.Queue.Fanout.{FanoutFifo}
use calvin_base.Queue.Fanout
use calvin_base.Queue.Fanout.Com
use calvin_base.Queue.Fanout.Invariant.{Follows}
use calvin_base.Queue.Fanout.Run.{Holds, moved-Holds}
use calvin_base.Queue.Fanout.Reads.{tentatively, tentatively-moved, peek-log, tokens_available_lem}
use calvin_base.Endpoint.Tunnel.{
  TunnelQueue, TunnelOut, on_queue, send_one_token, send_all, send_throttled, communicate,
}

abbrev pub fifo_tunnel : ℕ → TunnelQueue FanoutFifo
fifo_tunnel r = record {
  tokens_available = Fanout.tokens_available 1 r;
  com_is_committed = Com.com_is_committed r;
  com_peek = Com.com_peek r;
  com_commit = Com.com_commit r;
  com_cancel = Com.com_cancel r;
}

-- Tokens as messages, numbered from n on.
abbrev pub numbered_messages : ℕ → List Token → List (ℕ × Repr)
numbered_messages n [] = []
numbered_messages n (t ∷ ts) = (n, repr_for_coder t) ∷ numbered_messages (n + 1) ts

-- The queue whose reader has read as far as the position t.
abbrev pub read_to : ℕ → ℕ → TunnelOut FanoutFifo → List (ℕ × Repr) → TunnelOut FanoutFifo
read_to r t o more = record o { queue = tentatively o.queue r t; messages = o.messages ++ more }

send_one_lem :
    (r : ℕ) (log : List Token) (token : Token) (rest : List Token) (o : TunnelOut FanoutFifo)
    (f : Follows o.queue r)
    → Holds log o.queue
    → contains o.queue.readers r ≡ true
    → drop f.tentative log ≡ token ∷ rest
    → send_one_token (fifo_tunnel r) o
      ≡ done tt
          (read_to r (f.tentative + 1) o ((f.tentative - f.offset, repr_for_coder token) ∷ []))
unfolding send_one_token
send_one_lem r log token rest o f h m e =
    let (at, after_it, lt) = drop-cons log f.tentative token rest e in
    let (other, at_other, _, p) =
      (peek-log log o.queue r h.valid f h.represents m).0 (omega (arith, h.represents.written)) in
    let same : other ≡ token = ground (arith, at, at_other) in ground (arith, p, same)

-- The sending goes on with the queue after one token.
read_again :
    (r t u : ℕ) (o : TunnelOut FanoutFifo) (xs ys : List (ℕ × Repr))
    → read_to r u (read_to r t o xs) ys ≡ read_to r u o (xs ++ ys)
read_again r t u o xs ys =
    rw (insert-insert r u t o.queue.tentative_read_pos, append_assoc o.messages xs ys) refl

available_lem :
    (r : ℕ) (o : TunnelOut FanoutFifo) (f : Follows o.queue r)
    → contains o.queue.readers r ≡ true
    → on_queue (Fanout.tokens_available 1 r) o ≡ done (leb (f.tentative + 1) o.queue.write_pos) o
available_lem r o f m =
    ground
      (arith, tokens_available_lem o.queue r 1 f.tentative o.queue.readers refl m f.has_tentative)

-- The reader's positions after one more token was read.
further :
    (q : FanoutFifo) (r : ℕ) (f : Follows q r)
    → f.tentative + 1 ≤ q.write_pos
    → Follows (tentatively q r (f.tentative + 1)) r
further q r f h = record {
  offset = f.offset;
  read = f.read;
  tentative = f.tentative + 1;
  has_offset = f.has_offset;
  has_read = f.has_read;
  has_tentative = ground (arith, lookup-insert r r (f.tentative + 1) q.tentative_read_pos);
  offset_le = f.offset_le;
  read_le = omega (arith, f.read_le);
  tentative_le = h;
}

pub further-Holds :
    (log : List Token) (q : FanoutFifo) (r t : ℕ) (f : Follows q r)
    → Holds log q
    → f.read ≤ t
    → t ≤ q.write_pos
    → Holds log (tentatively q r t)
further-Holds log q r t f h a b =
    subst (Holds log) (sym (tentatively-moved q r f.read t f.has_read))
      (moved-Holds log q r f.read t f h (omega arith) a b)

false_last : (b : Bool) → (b || false) ≡ b
false_last true = refl
false_last false = refl

true_last : (b : Bool) → (b || true) ≡ true
true_last true = refl
true_last false = refl

module _ (r fuel : ℕ) (sent : Bool) (o : TunnelOut FanoutFifo) (f : Follows o.queue r)
    (m : contains o.queue.readers r ≡ true) where
  last_round :
      leb (f.tentative + 1) o.queue.write_pos ≡ false
      → send_all (fifo_tunnel r) (suc fuel) sent o ≡ done sent o
  unfolding send_all
  last_round h =
      let known : on_queue (Fanout.tokens_available 1 r) o ≡ done false o =
        available_lem r o f m ∙ ap (λ b. done b o) h in
      >>=_done (on_queue (Fanout.tokens_available 1 r)) _ o known

  next_round :
      leb (f.tentative + 1) o.queue.write_pos ≡ true
      → send_all (fifo_tunnel r) (suc fuel) sent o
        ≡ (send_one_token (fifo_tunnel r) >> send_all (fifo_tunnel r) fuel true) o
  unfolding send_all
  next_round h =
      let known : on_queue (Fanout.tokens_available 1 r) o ≡ done true o =
        available_lem r o f m ∙ ap (λ b. done b o) h in
      >>=_done (on_queue (Fanout.tokens_available 1 r)) _ o known

send_all_lem :
    (pending : List Token) (r : ℕ) (log : List Token) (fuel : ℕ) (sent : Bool)
    (o : TunnelOut FanoutFifo) (f : Follows o.queue r)
    → Holds log o.queue
    → contains o.queue.readers r ≡ true
    → drop f.tentative log ≡ pending
    → length pending < fuel
    → (send_all (fifo_tunnel r) fuel sent o
        ≡ done
            (sent || not (is_empty pending))
            (read_to r o.queue.write_pos o (numbered_messages (f.tentative - f.offset) pending)))
      × Holds log (tentatively o.queue r o.queue.write_pos)
unfolding send_all further
send_all_lem [] r log (suc fuel) sent o f h m e k =
    let ends = drop-nil log f.tentative e in
    let same : f.tentative ≡ o.queue.write_pos =
      omega (arith, ends, h.represents.written, f.tentative_le) in
    let none_left : leb (f.tentative + 1) o.queue.write_pos ≡ false = ground arith in
    let stays : read_to r o.queue.write_pos o [] ≡ o =
      subst (λ t. read_to r t o [] ≡ o) same
        (rw (insert_self r f.tentative o.queue.tentative_read_pos f.has_tentative, append-nil)
          refl) in
    (
      last_round r fuel sent o f m none_left ∙ rw (false_last sent, stays) refl,
      further-Holds log o.queue r o.queue.write_pos f h (omega (arith, f.read_le)) (omega arith),
    )
send_all_lem (token ∷ rest) r log (suc fuel) sent o f h m e k =
    let (at, after_it, lt) = drop-cons log f.tentative token rest e in
    let room : f.tentative + 1 ≤ o.queue.write_pos = omega (arith, h.represents.written) in
    let one_left : leb (f.tentative + 1) o.queue.write_pos ≡ true = ground arith in
    let message : List (ℕ × Repr) = (f.tentative - f.offset, repr_for_coder token) ∷ [] in
    let number : f.tentative + 1 - f.offset ≡ f.tentative - f.offset + 1 =
      omega (arith, f.offset_le, f.read_le) in
    let next : TunnelOut FanoutFifo = read_to r (f.tentative + 1) o message in
    let (all, holds) =
      send_all_lem rest r log fuel true next (further o.queue r f room)
        (further-Holds log o.queue r (f.tentative + 1) f h (omega (arith, f.read_le)) room) m
        (rw add-one after_it) (omega arith) in
    (
      next_round r fuel sent o f m one_left
          ∙ (>>=_done (send_one_token (fifo_tunnel r)) _ o (send_one_lem r log token rest o f h m e)
              ∙ (all
                  ∙ rw (true_last sent) (
                      ap (done true) (
                        read_again r (f.tentative + 1) o.queue.write_pos o message _
                        ∙ ap
                            (λ k.
                              read_to r o.queue.write_pos o (message ++ numbered_messages k rest))
                            number)))),
      further-Holds log o.queue r o.queue.write_pos f h (omega (arith, f.read_le)) (omega arith),
    )
send_all_lem pending r log zero sent o f h m e k = absurd (omega arith)

-- With no refusal outstanding, `communicate` sends every token of the reader's log that was not
-- sent, each in one message, in order, numbered from where the reader started; it tells whether
-- there was one, and ends within one round more than there are tokens. Nothing is committed: the
-- queue holds the same log, and can send again what is not acknowledged.
pub communicate_bulk :
    (pending : List Token) (r : ℕ) (log : List Token) (fuel : ℕ) (o : TunnelOut FanoutFifo)
    (f : Follows o.queue r)
    → o.bulk ≡ true
    → Holds log o.queue
    → contains o.queue.readers r ≡ true
    → drop f.tentative log ≡ pending
    → length pending < fuel
    → (communicate (fifo_tunnel r) fuel o
        ≡ done
            (not (is_empty pending))
            (read_to r o.queue.write_pos o (numbered_messages (f.tentative - f.offset) pending)))
      × Holds log (tentatively o.queue r o.queue.write_pos)
unfolding communicate
communicate_bulk pending r log fuel o f b h m e k =
    let (all, holds) = send_all_lem pending r log fuel false o f h m e k in
    let choice : communicate (fifo_tunnel r) fuel o ≡ send_all (fifo_tunnel r) fuel false o =
      ap
        (λ c. if c then send_all (fifo_tunnel r) fuel false o else send_throttled (fifo_tunnel r) o)
        b in
    (choice ∙ all, holds)
