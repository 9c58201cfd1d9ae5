-- ===== src/Queue/Fanout/Joins.antt =====
-- FanoutFIFO.add_reader: where a new reader starts.
use calvin_base.Base.{
  ℕ, ◌≤◌, ◌<◌, ◌≡◌, refl, sym, ◌∙◌, ◌≢◌, ◌⊎◌, inl, inr, true, false, some, List, [], ◌∷◌, ◌++◌,
  length, contains, ltb, subst, Bool-cases, Dict, lookup, values, AllValues, done, after, arith,
  lookup-insert, min_of, min_of-has, minimum_or-AllValues, ltb→lt,
}
use calvin_base.Queue.Fanout.{FanoutFifo, add_reader}
use calvin_base.Queue.Fanout.Invariant.{IsValid}
use calvin_base.Queue.Fanout.Readers.{added, add_reader_cases, add_reader_known, add_reader-IsValid}

-- The oldest position of the others, for a reader beyond the expected peers, or the first token.
abbrev pub StartsAt : ℕ → ℕ → FanoutFifo → FanoutFifo → Type 0
StartsAt r start q s =
    ((q.nbr_peers < length (q.readers ++ r ∷ []))
      × (s.nbr_peers ≡ length (q.readers ++ r ∷ []))
      × AllValues (λ a. start ≤ a) q.read_pos
      × (contains (values q.read_pos) start ≡ true))
    ⊎ ((length (q.readers ++ r ∷ []) ≤ q.nbr_peers) × (s.nbr_peers ≡ q.nbr_peers) × (start ≡ 0))

-- The queue `s` is `q` with a new reader.
pub record Joined (r : ℕ) (q s : FanoutFifo) : Type 0 where
  pub start : ℕ
  pub listed : s.readers ≡ q.readers ++ r ∷ []
  pub has_offset : lookup r s.reader_offset ≡ some start
  pub has_read : lookup r s.read_pos ≡ some start
  pub has_tentative : lookup r s.tentative_read_pos ≡ some start
  pub starts_at : StartsAt r start q s
  pub others :
      (p : ℕ)
      → r ≢ p
      → (lookup p s.read_pos ≡ lookup p q.read_pos)
        × (lookup p s.tentative_read_pos ≡ lookup p q.tentative_read_pos)
  pub same_tokens : (s.fifo ≡ q.fifo) × (s.write_pos ≡ q.write_pos)

added-Joined :
    (q : FanoutFifo) (r start peers : ℕ)
    → StartsAt r start q (added q r start peers)
    → Joined r q (added q r start peers)
added-Joined q r start peers h = record {
  start = start;
  listed = refl;
  has_offset = ground (arith, lookup-insert r r start q.reader_offset);
  has_read = ground (arith, lookup-insert r r start q.read_pos);
  has_tentative = ground (arith, lookup-insert r r start q.tentative_read_pos);
  starts_at = h;
  others = λ p n. (
    ground (arith, n, lookup-insert p r start q.read_pos),
    ground (arith, n, lookup-insert p r start q.tentative_read_pos),
  );
  same_tokens = (refl, refl);
}

values-within :
    (d : Dict ℕ) (xs : List ℕ)
    → ((b : ℕ) → contains (values d) b ≡ true → contains xs b ≡ true)
    → AllValues (λ a. contains xs a ≡ true) d
values-within [] xs h = tt
values-within ((k, v) ∷ d) xs h =
    (h v (ground arith), values-within d xs (λ b c. h b (ground (arith, c))))

late_joins :
    (q : FanoutFifo) (r : ℕ) (d : Dict ℕ)
    → q.read_pos ≡ d
    → contains q.readers r ≡ false
    → ltb q.nbr_peers (length (q.readers ++ r ∷ [])) ≡ true
    → d ≢ []
    → (s : FanoutFifo) × (add_reader r q ≡ done tt s) × Joined r q s
late_joins q r [] e n l m = absurd (m refl)
late_joins q r ((k, a) ∷ rest) e n l m =
    let d : Dict ℕ = (k, a) ∷ rest in
    let start = min_of a (values rest) in
    let all = values-within d (values d) (λ b h. h) in
    (
      added q r start (length (q.readers ++ r ∷ [])),
      add_reader_cases q r d e n ∙ rw l refl,
      added-Joined q r start (length (q.readers ++ r ∷ [])) (
          inl (
            ltb→lt q.nbr_peers (length (q.readers ++ r ∷ [])) l,
            refl,
            subst (AllValues (λ b. start ≤ b)) (sym e) (minimum_or-AllValues 0 d),
            subst (λ t. contains (values t) start ≡ true) (sym e)
                (min_of-has (λ b. contains (values d) b ≡ true) a rest all.0 all.1),
          )),
    )

joins :
    (q : FanoutFifo) (r : ℕ)
    → contains q.readers r ≡ false
    → (q.nbr_peers < length (q.readers ++ r ∷ []) → q.read_pos ≢ [])
    → (s : FanoutFifo) × (add_reader r q ≡ done tt s) × Joined r q s
joins q r n more = elim (Bool-cases (ltb q.nbr_peers (length (q.readers ++ r ∷ [])))) [
  | inl l ↦
      late_joins q r q.read_pos refl n l
        (more (ltb→lt q.nbr_peers (length (q.readers ++ r ∷ [])) l))
  | inr l ↦ (
    added q r 0 q.nbr_peers,
    add_reader_cases q r q.read_pos refl n ∙ rw l refl,
    added-Joined q r 0 q.nbr_peers (inr (ground (arith, l), refl, refl)),
  )
]

-- A well-formed queue stays well-formed when a reader is added that comes in time: within the
-- expected peers before a whole buffer was written, or beyond them while some other reader is there.
-- A known reader changes nothing. A new one comes last among the readers and starts, in all its
-- positions, at the oldest position of the others if there are more readers than expected, which are
-- then expected, and else at the first token; no token and no other reader's position changes.
pub add_reader-Joined :
    (q : FanoutFifo) (r : ℕ)
    → IsValid q
    → (q.nbr_peers < length (q.readers ++ r ∷ []) → q.read_pos ≢ [])
    → (length (q.readers ++ r ∷ []) ≤ q.nbr_peers → q.write_pos < q.size)
    → (s : FanoutFifo) × (add_reader r q ≡ done tt s)
      × IsValid s
      × (((contains q.readers r ≡ true) × (s ≡ q))
          ⊎ ((contains q.readers r ≡ false) × Joined r q s))
add_reader-Joined q r v more fresh =
    let valid = add_reader-IsValid q r v more fresh in
    elim (Bool-cases (contains q.readers r)) [
      | inl m ↦ (q, add_reader_known q r m, v, inl (m, refl))
      | inr n ↦
          let (s, e, joined) = joins q r n more in
          (s, e, subst (λ o. IsValid (after o)) e valid, inr (n, joined))
    ]
