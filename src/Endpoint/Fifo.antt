-- ===== src/Endpoint/Fifo.antt =====
-- The default queue, FanoutFIFO, at both ends of a local connection: it keeps the laws of a
-- numbered stream.
use calvin_base.Base.{
  ℕ, ◌+◌, ◌-◌, ◌≤◌, ◌≡◌, ap, ◌∙◌, ◌⊎◌, inl, inr, true, false, some, List, [], ◌∷◌, ◌++◌, length,
  drop, contains, Bool-cases, Dict, lookup, insert, queue_full, queue_empty, done, raised, after,
  arith,
}
use native.Mathlib.Numerals.{add-one}
use calvin_base.Base.{insert-insert, length-append, drop-cons, drop-nil, lookup-insert}
use calvin_base.Token.{Token}
use calvin_base.Queue.Common.{handled}
use calvin_base.Queue.Fanout.{FanoutFifo, slots_available}
use calvin_base.Queue.Fanout.Com
use calvin_base.Queue.Fanout.Invariant.{Follows, moved}
use calvin_base.Queue.Fanout.Log.{written}
use calvin_base.Queue.Fanout.Run.{Holds, com_write-Holds, moved-Holds}
use calvin_base.Queue.Fanout.Reads.{
  tentatively, tentatively-moved, peek-log, com_commit_cases, com_cancel_cases,
}
use calvin_base.Endpoint.{OutQueue, InQueue}
use calvin_base.Endpoint.Stream.{Gives, Takes}

abbrev pub fifo_out : ℕ → OutQueue FanoutFifo
fifo_out r = record {
  com_peek = Com.com_peek r;
  com_commit = Com.com_commit r;
  com_cancel = Com.com_cancel r;
}

abbrev pub fifo_in : InQueue FanoutFifo
fifo_in = record { com_write = Com.com_write }

abbrev pub Accepts : ℕ → List Token → FanoutFifo → Type 0
Accepts n log q = Holds log q × (n ≡ length log)

pub fifo_takes_write :
    (n : ℕ) (log : List Token) (q : FanoutFifo) (t : Token)
    → Accepts n log q
    → ((u : FanoutFifo) × (Com.com_write t n q ≡ done handled u)
        × Accepts (n + 1) (log ++ t ∷ []) u)
      ⊎ ((slots_available 1 q ≡ false) × (Com.com_write t n q ≡ raised queue_full q))
fifo_takes_write n log q t (h, e) = elim (Bool-cases (slots_available 1 q)) [
  | inl s ↦
      let (wrote, holds) = (com_write-Holds log q t n h).0 e s in
      inl (written q t, wrote, (holds, omega (arith, length-append log (t ∷ []))))
  | inr s ↦ inr (s, (com_write-Holds log q t n h).1 e s)
]

abbrev pub fifo_takes : Takes fifo_in
fifo_takes = record {
  Accepts = Accepts;
  IsFull = λ q. slots_available 1 q ≡ false;
  write = fifo_takes_write;
}

-- All reads of the reader are committed, and what is pending is the log from its position on.
pub record Ready (r n : ℕ) (pending : List Token) (q : FanoutFifo) : Type 0 where
  pub log : List Token
  pub holds : Holds log q
  pub member : contains q.readers r ≡ true
  pub follows : Follows q r
  pub committed : follows.read ≡ follows.tentative
  pub numbered : n + follows.offset ≡ follows.tentative
  pub rest : drop follows.tentative log ≡ pending

module _ (r : ℕ) where
  pub empty_raises :
      (n : ℕ) (q : FanoutFifo)
      → Ready r n [] q
      → (p : ℕ) × (Com.com_peek r q ≡ raised (queue_empty p) q)
  empty_raises n q x =
      let f = x.follows in
      let ends = drop-nil x.log f.tentative x.rest in
      (
        r,
        ((peek-log x.log q r x.holds.valid f x.holds.represents x.member).1
            (omega (arith, ends, x.holds.represents.written, f.tentative_le))).1,
      )

  pub read :
      (n : ℕ) (t : Token) (ts : List Token) (q : FanoutFifo) → Ready r n (t ∷ ts) q → FanoutFifo
  read n t ts q x = tentatively q r (x.follows.tentative + 1)

  pub read_gives :
      (n : ℕ) (t : Token) (ts : List Token) (q : FanoutFifo) (x : Ready r n (t ∷ ts) q)
      → Com.com_peek r q ≡ done (n, t) (read n t ts q x)
  unfolding read
  read_gives n t ts q x =
      let f = x.follows in
      let (at, after, lt) = drop-cons x.log f.tentative t ts x.rest in
      let (token, e, _, p) =
        (peek-log x.log q r x.holds.valid f x.holds.represents x.member).0
          (omega (arith, x.holds.represents.written)) in
      let same : token ≡ t = ground (arith, at, e) in
      let number : f.tentative - f.offset ≡ n = omega (arith, x.numbered) in p ∙ rw (same, number)

  pub lookup-insert_self : (v : ℕ) (d : Dict ℕ) → lookup r (insert r v d) ≡ some v
  lookup-insert_self v d = ground (arith, lookup-insert r r v d)

  -- The positions of the reader itself, moved.
  abbrev pub self_moved :
      (q : FanoutFifo) (a t : ℕ) (f : Follows q r)
      → f.offset ≤ a
      → a ≤ t
      → t ≤ q.write_pos
      → Follows (moved q r a t) r
  self_moved q a t f h k l = record {
    offset = f.offset;
    read = a;
    tentative = t;
    has_offset = f.has_offset;
    has_read = lookup-insert_self a q.read_pos;
    has_tentative = lookup-insert_self t q.tentative_read_pos;
    offset_le = h;
    read_le = k;
    tentative_le = l;
  }

  -- The queue with one token read.
  read_once :
      (n : ℕ) (t : Token) (ts : List Token) (q : FanoutFifo) (x : Ready r n (t ∷ ts) q)
      → (read n t ts q x ≡ moved q r x.follows.read (x.follows.tentative + 1))
        × (x.follows.tentative + 1 ≤ q.write_pos)
        × (drop (x.follows.tentative + 1) x.log ≡ ts)
  unfolding read
  read_once n t ts q x =
      let f = x.follows in
      let (at, after, lt) = drop-cons x.log f.tentative t ts x.rest in
      (
        tentatively-moved q r f.read (f.tentative + 1) f.has_read,
        omega (arith, x.holds.represents.written),
        rw add-one after,
      )

  pub commits :
      (n : ℕ) (t : Token) (ts : List Token) (q : FanoutFifo) (x : Ready r n (t ∷ ts) q)
      → (u : FanoutFifo) × (Com.com_commit r n (read n t ts q x) ≡ done (some handled) u)
        × Ready r (n + 1) ts u
  commits n t ts q x =
      let f = x.follows in
      let (e, room, after) = read_once n t ts q x in
      let mid = moved q r f.read (f.tentative + 1) in
      let g : Follows mid r =
        self_moved q f.read (f.tentative + 1) f f.offset_le (omega (arith, f.read_le)) room in
      let u = moved q r (f.read + 1) (f.tentative + 1) in
      let done_commit : Com.com_commit r n mid
          ≡ done (some handled) (record mid { read_pos = insert r (f.read + 1) mid.read_pos }) =
        (com_commit_cases mid r n g).1 (omega (arith, x.numbered, x.committed))
          (omega (arith, x.committed)) in
      (
        u,
        rw e (
            done_commit
            ∙ ap (λ d. done (some handled) (record u { read_pos = d }))
                (insert-insert r (f.read + 1) f.read q.read_pos)),
        record {
          log = x.log;
          holds =
              moved-Holds x.log q r (f.read + 1) (f.tentative + 1) f x.holds (omega arith)
                (omega (arith, x.committed)) room;
          member = x.member;
          follows =
              self_moved q (f.read + 1) (f.tentative + 1) f (omega (arith, f.offset_le))
                (omega (arith, x.committed)) room;
          committed = omega (arith, x.committed);
          numbered = omega (arith, x.numbered);
          rest = after;
        },
      )

  pub rolls_back :
      (n : ℕ) (t : Token) (ts : List Token) (q : FanoutFifo) (x : Ready r n (t ∷ ts) q)
      → (u : FanoutFifo) × (Com.com_cancel r n (read n t ts q x) ≡ done handled u)
        × Ready r n (t ∷ ts) u
  rolls_back n t ts q x =
      let f = x.follows in
      let (e, room, after) = read_once n t ts q x in
      let mid = moved q r f.read (f.tentative + 1) in
      let g : Follows mid r =
        self_moved q f.read (f.tentative + 1) f f.offset_le (omega (arith, f.read_le)) room in
      let u = moved q r f.read f.tentative in
      let cancelled : Com.com_cancel r n mid ≡ done handled (tentatively mid r (n + g.offset)) =
        (com_cancel_cases mid r n g).0 (omega (arith, x.numbered)) in
      let back : tentatively mid r (n + f.offset) ≡ u = rw x.numbered (
        ap (λ d. record u { tentative_read_pos = d })
          (insert-insert r f.tentative (f.tentative + 1) q.tentative_read_pos)) in
      (
        u,
        rw e (cancelled ∙ ap (done handled) back),
        record {
          log = x.log;
          holds =
              moved-Holds x.log q r f.read f.tentative f x.holds (omega arith) f.read_le
                f.tentative_le;
          member = x.member;
          follows = self_moved q f.read f.tentative f f.offset_le f.read_le f.tentative_le;
          committed = x.committed;
          numbered = x.numbered;
          rest = x.rest;
        },
      )

  abbrev pub fifo_gives : Gives (fifo_out r)
  fifo_gives = record {
    Ready = Ready r;
    empty_raises = empty_raises;
    read = read;
    read_gives = read_gives;
    commits = commits;
    rolls_back = rolls_back;
  }
