-- ===== src/Queue/Fanout/Readers.antt =====
-- FanoutFIFO: readers that come and go.
use calvin_base.Base.{
  ℕ, ◌-◌, ◌≤◌, ◌<◌, ◌≡◌, refl, ◌∙◌, ◌≢◌, inl, inr, true, false, none, [], ◌∷◌, ◌++◌, length,
  contains, remove, Distinct, ltb, if◌then◌else◌, tests, subst, Bool-cases, Dict, lookup, insert,
  erase, values, AllValues, value_error, done, raised, after, arith, ℕ_discrete,
}
use calvin_base.Base.{
  lookup-insert, lookup-erase, insert-AllValues, erase-AllValues, min_of-has, min_of,
  contains-append, contains-remove, remove-Distinct, append-Distinct,
}
use calvin_base.Queue.Fanout.{FanoutFifo, add_reader, remove_reader}
use calvin_base.Queue.Fanout.Invariant.{IsValid, IsNear, Follows}

-- The queue with a new reader at a position.
abbrev pub added : FanoutFifo → ℕ → ℕ → ℕ → FanoutFifo
added q r pos peers = record q {
  nbr_peers = peers;
  readers = q.readers ++ r ∷ [];
  reader_offset = insert r pos q.reader_offset;
  read_pos = insert r pos q.read_pos;
  tentative_read_pos = insert r pos q.tentative_read_pos;
}

added-Follows :
    (q : FanoutFifo) (r pos peers : ℕ)
    → pos ≤ q.write_pos
    → (p : ℕ) → (contains q.readers p ≡ true → Follows q p)
    → contains (q.readers ++ r ∷ []) p ≡ true
    → Follows (added q r pos peers) p
added-Follows q r pos peers h p g m = elim (ℕ_discrete r p) [
  | yes e ↦ record {
    offset = pos;
    read = pos;
    tentative = pos;
    has_offset = ground (arith, lookup-insert p r pos q.reader_offset);
    has_read = ground (arith, lookup-insert p r pos q.read_pos);
    has_tentative = ground (arith, lookup-insert p r pos q.tentative_read_pos);
    offset_le = omega arith;
    read_le = omega arith;
    tentative_le = h;
  }
  | no n ↦
      let f = g (ground (arith, contains-append q.readers (r ∷ []) p)) in
      record {
        offset = f.offset;
        read = f.read;
        tentative = f.tentative;
        has_offset = ground (arith, f.has_offset, lookup-insert p r pos q.reader_offset);
        has_read = ground (arith, f.has_read, lookup-insert p r pos q.read_pos);
        has_tentative = ground (arith, f.has_tentative, lookup-insert p r pos q.tentative_read_pos);
        offset_le = f.offset_le;
        read_le = f.read_le;
        tentative_le = f.tentative_le;
      }
]

pub added-IsValid :
    (q : FanoutFifo) (r pos peers : ℕ)
    → IsValid q
    → contains q.readers r ≡ false
    → IsNear q pos
    → IsValid (added q r pos peers)
added-IsValid q r pos peers v m h = record {
  positive = v.positive;
  near = insert-AllValues (IsNear q) r pos q.read_pos h v.near;
  distinct = append-Distinct r q.readers m v.distinct;
  follows = λ p. added-Follows q r pos peers h.0 p (v.follows p);
}

-- The queue without a reader.
abbrev pub removed : FanoutFifo → ℕ → FanoutFifo
removed q r = record q {
  read_pos = erase r q.read_pos;
  tentative_read_pos = erase r q.tentative_read_pos;
  reader_offset = erase r q.reader_offset;
  readers = remove r q.readers;
  nbr_peers = q.nbr_peers - 1;
}

removed-Follows :
    (q : FanoutFifo) (r p : ℕ)
    → Distinct q.readers
    → (contains q.readers p ≡ true → Follows q p)
    → contains (remove r q.readers) p ≡ true
    → Follows (removed q r) p
removed-Follows q r p d g m =
    let both = contains-remove r q.readers p d in
    let f = g (ground (arith, both)) in
    record {
      offset = f.offset;
      read = f.read;
      tentative = f.tentative;
      has_offset = ground (arith, both, f.has_offset, lookup-erase p r q.reader_offset);
      has_read = ground (arith, both, f.has_read, lookup-erase p r q.read_pos);
      has_tentative = ground (arith, both, f.has_tentative, lookup-erase p r q.tentative_read_pos);
      offset_le = f.offset_le;
      read_le = f.read_le;
      tentative_le = f.tentative_le;
    }

pub removed-IsValid : (q : FanoutFifo) (r : ℕ) → IsValid q → IsValid (removed q r)
removed-IsValid q r v = record {
  positive = v.positive;
  near = erase-AllValues (IsNear q) r q.read_pos v.near;
  distinct = remove-Distinct r q.readers v.distinct;
  follows = λ p. removed-Follows q r p v.distinct (v.follows p);
}

-- A known reader goes with all its positions; another is no reader already.
pub remove_reader_cases :
    (q : FanoutFifo) (r : ℕ)
    → IsValid q
    → remove_reader r q ≡ (if contains q.readers r then done tt (removed q r) else done tt q)
unfolding remove_reader
remove_reader_cases q r v = elim (Bool-cases (contains q.readers r)) [
  | inl m ↦ let f = v.follows r m in ground (arith, f.has_offset, f.has_read, f.has_tentative)
  | inr n ↦ rw n
]

-- Where the new reader starts: at the oldest position of the others if it is one more than the
-- expected peers, and else at the first token.
pub add_reader_cases :
    (q : FanoutFifo) (r : ℕ) (d : Dict ℕ)
    → q.read_pos ≡ d
    → contains q.readers r ≡ false
    → add_reader r q ≡ (
        if ltb q.nbr_peers (length (q.readers ++ r ∷ []))
        then elim d [
          | [] ↦
              raised value_error (record q {
                readers = q.readers ++ r ∷ [];
                nbr_peers = length (q.readers ++ r ∷ []);
              })
          | (k, a) ∷ rest ↦
              done tt (added q r (min_of a (values rest)) (length (q.readers ++ r ∷ [])))
        ]
        else done tt (added q r 0 q.nbr_peers))
unfolding add_reader
add_reader_cases q r [] e m = ground arith
add_reader_cases q r ((k, a) ∷ rest) e m = ground arith

pub add_reader_known :
    (q : FanoutFifo) (r : ℕ) → contains q.readers r ≡ true → add_reader r q ≡ done tt q
unfolding add_reader
add_reader_known q r m = rw m

-- The queue after a reader joined one peer too many.
joined-IsValid :
    (q : FanoutFifo) (r : ℕ) (d : Dict ℕ)
    → q.read_pos ≡ d
    → IsValid q
    → contains q.readers r ≡ false
    → ltb q.nbr_peers (length (q.readers ++ r ∷ [])) ≡ true
    → d ≢ []
    → IsValid (after (add_reader r q))
joined-IsValid q r [] e v n l h = absurd (h refl)
joined-IsValid q r ((k, a) ∷ rest) e v n l h =
    let all : AllValues (IsNear q) ((k, a) ∷ rest) = subst (AllValues (IsNear q)) e v.near in
    let oldest = min_of a (values rest) in
    let start : add_reader r q ≡ done tt (added q r oldest (length (q.readers ++ r ∷ []))) =
      add_reader_cases q r ((k, a) ∷ rest) e n ∙ rw l in
    rw start (
      added-IsValid q r oldest (length (q.readers ++ r ∷ [])) v n
        (min_of-has (IsNear q) a rest all.0 all.1))

-- A queue in order stays in order when a reader comes in time.
pub add_reader-IsValid :
    (q : FanoutFifo) (r : ℕ)
    → IsValid q
    → (q.nbr_peers < length (q.readers ++ r ∷ []) → q.read_pos ≢ [])
    → (length (q.readers ++ r ∷ []) ≤ q.nbr_peers → q.write_pos < q.size)
    → IsValid (after (add_reader r q))
add_reader-IsValid q r v more fresh = elim (Bool-cases (contains q.readers r)) [
  | inl m ↦ rw (add_reader_known q r m) v
  | inr n ↦ elim (Bool-cases (ltb q.nbr_peers (length (q.readers ++ r ∷ [])))) [
    | inl l ↦ joined-IsValid q r q.read_pos refl v n l (more (omega tests))
    | inr l ↦
        let start : add_reader r q ≡ done tt (added q r 0 q.nbr_peers) =
          add_reader_cases q r q.read_pos refl n ∙ rw l in
        rw start
          (added-IsValid q r 0 q.nbr_peers v n (omega arith, omega (arith, fresh (ground arith))))
  ]
]

-- Where the readers have all gone and `nbr_peers` with them, a reader that comes back raises
-- `ValueError`, and is left among the readers with no position to read from.
pub add_reader_stranded :
    (q : FanoutFifo) (r : ℕ)
    → contains q.readers r ≡ false
    → q.read_pos ≡ []
    → q.tentative_read_pos ≡ []
    → q.nbr_peers < length (q.readers ++ r ∷ [])
    → let o = add_reader r q in
      (o ≡ raised value_error (after o))
      × (contains (after o).readers r ≡ true)
      × (lookup r (after o).tentative_read_pos ≡ none)
unfolding add_reader
add_reader_stranded q r m e t l =
    (ground arith, ground (arith, contains-append q.readers (r ∷ []) r), ground arith)
