-- ===== src/Queue/Fanout/Invariant.antt =====
-- FanoutFIFO: the well-formedness of the readers' positions, and the operations that keep it.
use calvin_base.Base.{
  ℕ, ◌+◌, ◌-◌, ◌%◌, ◌≤◌, ◌<◌, ◌≡◌, true, some, [], ◌∷◌, contains, Distinct, leb, Dict, lookup,
  insert, values, AllValues, minimum_or, arith, ℕ_discrete,
}
use calvin_base.Base.{
  lookup-insert, insert-AllValues, lookup-AllValues, map-AllValues, minimum_or-AllValues,
  min_of-has, min_of,
}
use native.Mathlib.Nat.{mod-eq_of_lt}
use calvin_base.Queue.Common.{PortProperties}
use calvin_base.Queue.Fanout.{FanoutFifo, init, slots_available, sub_mod}

-- The three positions of a reader are in order.
pub record Follows (q : FanoutFifo) (r : ℕ) : Type 0 where
  pub offset : ℕ
  pub read : ℕ
  pub tentative : ℕ
  pub has_offset : lookup r q.reader_offset ≡ some offset
  pub has_read : lookup r q.read_pos ≡ some read
  pub has_tentative : lookup r q.tentative_read_pos ≡ some tentative
  pub offset_le : offset ≤ read
  pub read_le : read ≤ tentative
  pub tentative_le : tentative ≤ q.write_pos

-- No reader is a whole buffer behind the writer.
abbrev pub IsNear : FanoutFifo → ℕ → Type 0
IsNear q a = (a ≤ q.write_pos) × (q.write_pos < a + q.size)

pub record IsValid (q : FanoutFifo) : Type 0 where
  pub positive : 0 < q.size
  pub near : AllValues (IsNear q) q.read_pos
  pub distinct : Distinct q.readers
  pub follows : (r : ℕ) → contains q.readers r ≡ true → Follows q r

pub init-IsValid : (props : PortProperties) → IsValid (init props)
unfolding init
init-IsValid props = record {
  positive = omega arith;
  near = tt;
  distinct = tt;
  follows = λ r h. absurd (cc);
}

-- With `n` free slots, `n` more tokens overwrite nothing that some reader has not committed.
room :
    (w n size oldest : ℕ)
    → oldest ≤ w
    → w < oldest + size
    → leb (n + sub_mod w oldest size + 1) size ≡ true
    → w + n < oldest + size
room w n size oldest h k s =
    let e : (w - oldest) % size ≡ w - oldest = mod-eq_of_lt (omega arith) in ground arith

both-AllValues {κ μ} :
    (P : ℕ → Type κ) (Q : ℕ → Type μ) (d : Dict ℕ)
    → AllValues P d
    → AllValues Q d
    → AllValues (λ a. P a × Q a) d
both-AllValues P Q [] p q = tt
both-AllValues P Q ((k, v) ∷ d) p q = ((p.0, q.0), both-AllValues P Q d p.1 q.1)

abbrev pub NearTo : ℕ → ℕ → ℕ → Type 0
NearTo w size a = (a ≤ w) × (w < a + size)

near_room :
    (w n size : ℕ) (d : Dict ℕ)
    → AllValues (NearTo w size) d
    → leb (n + sub_mod w (minimum_or 0 (values d)) size + 1) size ≡ true
    → AllValues (NearTo (w + n) size) d
near_room w n size [] a s = tt
near_room w n size ((k, v) ∷ d) a s =
    let oldest = min_of v (values d) in
    let (le, lt) = min_of-has (NearTo w size) v d a.0 a.1 in
    map-AllValues ((k, v) ∷ d)
      (λ b h. (omega (arith, h), omega (arith, h, room w n size oldest le lt s)))
      (both-AllValues (λ b. oldest ≤ b) (NearTo w size) ((k, v) ∷ d)
        (minimum_or-AllValues 0 ((k, v) ∷ d)) a)

pub slots_available-room :
    (q : FanoutFifo) (n : ℕ)
    → IsValid q
    → slots_available n q ≡ true
    → AllValues (NearTo (q.write_pos + n) q.size) q.read_pos
unfolding slots_available
slots_available-room q n v s = near_room q.write_pos n q.size q.read_pos v.near s

-- Moving the three positions of one reader.
abbrev pub moved : FanoutFifo → ℕ → ℕ → ℕ → FanoutFifo
moved q r read tentative = record q {
  read_pos = insert r read q.read_pos;
  tentative_read_pos = insert r tentative q.tentative_read_pos;
}

pub moved-Follows :
    (q : FanoutFifo) (r read tentative : ℕ) (f : Follows q r)
    → f.offset ≤ read
    → read ≤ tentative
    → tentative ≤ q.write_pos
    → (p : ℕ) → Follows q p
    → Follows (moved q r read tentative) p
moved-Follows q r read tentative f h k l p g = elim (ℕ_discrete r p) [
  | yes e ↦ record {
    offset = f.offset;
    read = read;
    tentative = tentative;
    has_offset = rw (← e) f.has_offset;
    has_read = ground (arith, lookup-insert p r read q.read_pos);
    has_tentative = ground (arith, lookup-insert p r tentative q.tentative_read_pos);
    offset_le = h;
    read_le = k;
    tentative_le = l;
  }
  | no n ↦ record {
    offset = g.offset;
    read = g.read;
    tentative = g.tentative;
    has_offset = g.has_offset;
    has_read = ground (arith, lookup-insert p r read q.read_pos);
    has_tentative = ground (arith, lookup-insert p r tentative q.tentative_read_pos);
    offset_le = g.offset_le;
    read_le = g.read_le;
    tentative_le = g.tentative_le;
  }
]

pub moved-IsValid :
    (q : FanoutFifo) (r read tentative : ℕ) (f : Follows q r)
    → IsValid q
    → f.read ≤ read
    → read ≤ tentative
    → tentative ≤ q.write_pos
    → IsValid (moved q r read tentative)
moved-IsValid q r read tentative f v h k l = record {
  positive = v.positive;
  near =
      insert-AllValues (IsNear q) r read q.read_pos
        (let near = lookup-AllValues (IsNear q) r q.read_pos f.read v.near f.has_read in
          (omega arith, omega (arith, near)))
        v.near;
  distinct = v.distinct;
  follows =
      λ p m. moved-Follows q r read tentative f (omega (arith, f.offset_le)) k l p (v.follows p m);
}
