-- ===== src/Queue/Collect/Turns.antt =====
-- CollectUnordered.peek: the writers take turns.
use calvin_base.Base.{
  ℕ, zero, suc, ◌+◌, ◌-◌, ◌%◌, ◌<◌, ◌≡◌, refl, ap, ◌∙◌, ◌⊎◌, inl, inr, false, none, some, List, [],
  ◌∷◌, length, get_elem?, ltb, subst, get_or_default, lookup, insert, queue_empty, done, raised,
  arith,
}
use native.Mathlib.Nat.{add-zero}
use calvin_base.Base.{>>=_done, lt→ltb, stored-some, mod_lt, get_elem?-lt, lt_cases}
use calvin_base.Token.{Token}
use calvin_base.Queue.Collect.{CollectBase}
use calvin_base.Queue.Collect.Lanes.{Lane}
use calvin_base.Queue.Collect.Unordered.{
  Unordered, Place, minus_one, at, seat, note_start, take_token, find_token, give, peek,
}

abbrev pub Lanes : (ℕ → List Token) → CollectBase → List ℕ → Type 0
Lanes logs b [] = Unit {0}
Lanes logs b (r ∷ rs) = Lane (logs r) b r × Lanes logs b rs

lane_at :
    (logs : ℕ → List Token) (b : CollectBase) (rs : List ℕ) (i r : ℕ)
    → Lanes logs b rs
    → get_elem? rs i ≡ some r
    → Lane (logs r) b r
lane_at logs b [] i r l e = absurd (ground arith)
lane_at logs b (x ∷ rs) zero r l e = subst (λ k. Lane (logs k) b k) (ap (get_or_default r) e) l.0
lane_at logs b (x ∷ rs) (suc i) r l e = lane_at logs b rs i r l.1 e

-- How many tokens of a writer are to be read, and of the writer that is j turns on.
abbrev pub unread : Unordered → ℕ → ℕ
unread u r =
    get_or_default 0 (lookup r u.write_pos) - get_or_default 0 (lookup r u.tentative_read_pos)

abbrev pub waiting : Unordered → ℕ → ℕ
waiting u j = elim (get_elem? u.writers (seat u.turn_pos j (length u.writers))) [
  | none ↦ 0
  | some r ↦ unread u r
]

-- The next n writers from j turns on have nothing to read.
abbrev pub NoneWaiting : Unordered → ℕ → ℕ → Type 0
NoneWaiting u j zero = Unit {0}
NoneWaiting u j (suc n) = (waiting u j ≡ 0) × NoneWaiting u (j + 1) n

seat_lt : (t : Place) (j n : ℕ) → 0 < n → seat t j n < n
seat_lt minus_one j n h = mod_lt (j + n - 1) n h
seat_lt (at t) j n h = mod_lt (t + j) n h

-- The queue after the token of a writer was taken, which had the index i.
abbrev pub taken : Unordered → ℕ → ℕ → ℕ → Unordered
taken u i r t = record u {
  base = record (u.base) { tentative_read_pos = insert r (t + 1) u.tentative_read_pos };
  peek_turn_pos = note_start u.turn_pos u.peek_turn_pos;
  turn_pos = at ((i + 1) % length u.writers);
}

-- What a search from j turns on found: the first writer that has a token to read.
pub record Found (logs : ℕ → List Token) (u : Unordered) (left j : ℕ) : Type 0 where
  pub skipped : ℕ
  pub skipped_lt : skipped < left
  pub none_before : NoneWaiting u j skipped
  pub writer : ℕ
  pub at_seat : get_elem? u.writers (seat u.turn_pos (j + skipped) (length u.writers)) ≡ some writer
  pub position : ℕ
  pub token : Token
  pub has_position : lookup writer u.tentative_read_pos ≡ some position
  pub in_log : get_elem? (logs writer) position ≡ some token
  pub returned :
      find_token left j u
      ≡ done
          (some (token, writer))
          (taken u (seat u.turn_pos (j + skipped) (length u.writers)) writer position)

module _ (logs : ℕ → List Token) (u : Unordered) (ls : Lanes logs u.base u.writers)
    (some_writer : 0 < length u.writers) where
  find_token_cases :
      (left j : ℕ)
      → Found logs u left j ⊎ (NoneWaiting u j left × (find_token left j u ≡ done none u))
  unfolding find_token take_token
  find_token_cases zero j = inr (tt, refl)
  find_token_cases (suc left) j =
      let i = seat u.turn_pos j (length u.writers) in
      let (r, e) = get_elem?-lt u.writers i (seat_lt u.turn_pos j (length u.writers) some_writer) in
      let l = lane_at logs u.base u.writers i r ls e in
      elim (lt_cases l.tentative l.write) [
        | inl h ↦
            let (token, in_log, slot) =
              stored-some (logs r) l.buffer l.write u.size l.tentative l.stores h
                (omega (arith, l.near, l.read_le)) in
            inl (record {
              skipped = 0;
              skipped_lt = omega arith;
              none_before = tt;
              writer = r;
              at_seat = rw add-zero e;
              position = l.tentative;
              token = token;
              has_position = l.has_tentative;
              in_log = in_log;
              returned = rw add-zero (
                  ground (
                    arith,
                    e,
                    l.has_write,
                    l.has_tentative,
                    l.has_buffer,
                    slot,
                    lt→ltb l.tentative l.write h,
                  ));
            })
        | inr h ↦
            let nothing : waiting u j ≡ 0 = ground (arith, e, l.has_write, l.has_tentative) in
            let skips : find_token (suc left) j u ≡ find_token left (j + 1) u =
              let no_token : ltb l.tentative l.write ≡ false = ground arith in
              ground (arith, e, l.has_write, l.has_tentative, no_token) in
            elim (find_token_cases left (j + 1)) [
              | inl f ↦
                  let eq : j + 1 + f.skipped ≡ j + suc f.skipped = omega arith in
                  inl (record {
                    skipped = suc f.skipped;
                    skipped_lt = omega (arith, f.skipped_lt);
                    none_before = (nothing, f.none_before);
                    writer = f.writer;
                    at_seat =
                        subst
                          (λ k.
                            get_elem? u.writers (seat u.turn_pos k (length u.writers))
                            ≡ some f.writer)
                          eq f.at_seat;
                    position = f.position;
                    token = f.token;
                    has_position = f.has_position;
                    in_log = f.in_log;
                    returned =
                        skips
                        ∙ subst
                            (λ k.
                              find_token left (j + 1) u
                              ≡ done (some (f.token, f.writer)) (
                                  taken u (seat u.turn_pos k (length u.writers)) f.writer
                                    f.position))
                            eq f.returned;
                  })
              | inr (n, k) ↦ inr ((nothing, n), skips ∙ k)
            ]
      ]

-- A read of the untagged queue, where every writer has a lane: the writers are looked at once each,
-- from the one whose turn it is, and the first that has a token to read gives the next token of its
-- log, its tentative position moves on, and the turn passes to the writer after it; if
-- none has one, `QueueEmpty` is raised and nothing changes.
pub peek-Found :
    (logs : ℕ → List Token) (u : Unordered) (reader : ℕ)
    → u.tagged ≡ false
    → Lanes logs u.base u.writers
    → 0 < length u.writers
    → ((f : Found logs u (length u.writers) 0) × (peek reader u
          ≡ done f.token
              (taken u (seat u.turn_pos f.skipped (length u.writers)) f.writer f.position)))
      ⊎ (NoneWaiting u 0 (length u.writers) × (peek reader u ≡ raised (queue_empty reader) u))
unfolding peek give
peek-Found logs u reader tag ls some_writer =
    elim (find_token_cases logs u ls some_writer (length u.writers) 0) [
      | inl f ↦
          let eq : 0 + f.skipped ≡ f.skipped = omega arith in
          let end_of =
            λ (k : ℕ). taken u (seat u.turn_pos k (length u.writers)) f.writer f.position in
          let gives : give u.tagged f.token f.writer (end_of (0 + f.skipped))
              ≡ done f.token (end_of (0 + f.skipped)) =
            rw tag refl in
          inl (
            f,
            subst (λ k. peek reader u ≡ done f.token (end_of k)) eq
                (>>=_done (find_token (length u.writers) 0) _ u f.returned ∙ gives),
          )
      | inr (n, e) ↦ inr (n, >>=_done (find_token (length u.writers) 0) _ u e)
    ]
