-- ===== src/Queue/Ordered/Removal.antt =====
-- FanoutOrderedFIFO and FanoutRoundRobinFIFO: whose turn it is after a reader was removed.
use calvin_base.Base.{
  ℕ, zero, suc, ◌+◌, ◌-◌, ◌*◌, ◌%◌, ◌≤◌, ◌<◌, ◌≡◌, refl, sym, ap, ◌∙◌, ◌≢◌, inl, inr, Bool, true,
  none, some, List, [], ◌∷◌, length, get_elem?, take, drop, subst, index_error, done, raised, arith,
}
use native.Mathlib.Nat.{add-zero, mod-eq_of_lt}
use calvin_base.Base.{Outcome-cases, mod_lt, length-drop}
use calvin_base.Token.{Token}
use calvin_base.Queue.Ordered.{
  Ordered, Turn, ordered, round_robin, random, update_turn, rotate, remove_reader, reset_turn,
  reset_by, reset_to, rounds, write, slots_available,
}
use calvin_base.Queue.Ordered.Windows.{InTurn}
use calvin_base.Queue.Ordered.Turns.{reset_to-InTurn, update_by_lem, length-rounds}
use calvin_base.Queue.Routed.Lanes.{Lane}
use calvin_base.Queue.Routed.Readers.{removed, remove_reader_lem}

reset_by_lem :
    (t : Turn) (q : Ordered) (draws : List ℕ) (pos : ℕ)
    → t ≢ random
    → get_elem? q.reader_turn (q.turn_pos % q.size) ≡ some pos
    → reset_by t draws q ≡ done tt (reset_to pos q)
unfolding reset_by
reset_by_lem ordered q draws pos h e = ground arith
reset_by_lem round_robin q draws pos h e = ground arith
reset_by_lem random q draws pos h e = absurd (h refl)

-- The queue without the reader, its schedule cut anew from the position whose turn it was.
abbrev pub after_removal : Ordered → ℕ → ℕ → Ordered
after_removal q r pos = reset_to pos (record q { base = removed q.base r })

remove_reader-reset :
    (log : List Token) (q : Ordered) (r pos : ℕ) (draws : List ℕ)
    → q.update ≢ random
    → Lane log q.base r
    → get_elem? q.reader_turn (q.turn_pos % q.size) ≡ some pos
    → remove_reader draws r q ≡ done true (after_removal q r pos)
unfolding remove_reader reset_turn
remove_reader-reset log q r pos draws h l e =
    let gone = remove_reader_lem log q.base r l in
    let reset = reset_by_lem q.update (record q { base = removed q.base r }) draws pos h e in
    ground (arith, gone, reset)

room_left : (size peers pos : ℕ) → 2 ≤ size → 2 ≤ peers → pos ≤ peers → pos + size ≤ size * peers
room_left size peers pos s p h = grind arith

-- Where one of at least three readers is removed from an ordered or a round-robin queue, the others
-- go on taking turns, from the number whose turn it was.
pub remove_reader-InTurn :
    (k : ℕ) (log : List Token) (q : Ordered) (r : ℕ) (draws : List ℕ)
    → q.update ≢ random
    → InTurn k q
    → Lane log q.base r
    → 2 ≤ q.size
    → 3 ≤ q.nbr_peers
    → let pos = k % q.nbr_peers in
      (remove_reader draws r q ≡ done true (after_removal q r pos))
      × InTurn pos (after_removal q r pos)
remove_reader-InTurn k log q r draws h x l s p =
    let now : get_elem? q.reader_turn (q.turn_pos % q.size) ≡ some (k % q.nbr_peers) =
      ap (λ (t : ℕ). get_elem? q.reader_turn (t % q.size)) (sym (add-zero q.turn_pos))
      ∙ x.turns 0 x.positive
      ∙ ap (λ (t : ℕ). some (t % q.nbr_peers)) (add-zero k) in
    let pos = k % q.nbr_peers in
    let below : pos < q.nbr_peers = mod_lt k q.nbr_peers x.some_peer in
    (
      remove_reader-reset log q r pos draws h l now,
      reset_to-InTurn pos (record q { base = removed q.base r }) (omega arith) x.positive
          (room_left q.size (q.nbr_peers - 1) pos s (omega arith) (omega arith)),
    )

get_elem?-none : (xs : List ℕ) (i : ℕ) → length xs ≤ i → get_elem? xs i ≡ none
get_elem?-none [] i h = refl
get_elem?-none (x ∷ xs) zero h = absurd (omega arith)
get_elem?-none (x ∷ xs) (suc i) h = get_elem?-none xs i (omega arith)

length-take-le : (n : ℕ) (xs : List ℕ) → length (take n xs) ≤ length xs
length-take-le zero xs = omega arith
length-take-le (suc n) [] = omega arith
length-take-le (suc n) (x ∷ xs) = omega (arith, length-take-le n xs)

-- With one reader left and the turn at number 1 the slice is one entry short,
short_schedule :
    (q : Ordered)
    → q.nbr_peers ≡ 1
    → 0 < q.size
    → get_elem? (reset_to 1 q).reader_turn ((0 + q.size - 1) % q.size) ≡ none
short_schedule q e h =
    let turns = drop 1 (rounds q.nbr_peers q.size) in
    let whole : length (rounds q.nbr_peers q.size) ≡ q.size * 1 =
      length-rounds q.nbr_peers q.size ∙ ap (λ (p : ℕ). q.size * p) e in
    get_elem?-none (take q.size turns) ((0 + q.size - 1) % q.size) (
      omega (
        arith,
        length-take-le q.size turns,
        length-drop 1 (rounds q.nbr_peers q.size),
        whole,
        last q.size h,
      ))
  where
    last : (n : ℕ) → 0 < n → (0 + n - 1) % n ≡ n - 1
    last n h = ap (λ (t : ℕ). t % n) {x = 0 + n - 1} (omega arith) ∙ mod-eq_of_lt (omega arith)

short_rotate :
    (q : Ordered)
    → q.nbr_peers ≡ 1
    → 0 < q.size
    → rotate (reset_to 1 q) ≡ raised index_error (reset_to 1 q)
unfolding rotate
short_rotate q e h = ground (arith, short_schedule q e h)

slots_available_state : (s u : Ordered) (b : Bool) → slots_available 1 s ≡ done b u → s ≡ u
unfolding slots_available
slots_available_state s u b e = ground arith

write_stuck :
    (number : ℕ) (token : Token) (s u : Ordered)
    → update_turn number s ≡ raised index_error s
    → write number token s ≢ done true u
unfolding write
write_stuck number token s u e w = elim (Outcome-cases (slots_available 1 s)) [
  | inl (b, v, o) ↦
      let same = slots_available_state s v b o in
      let turn : update_turn number v ≡ raised index_error v =
        subst (λ x. update_turn number x ≡ raised index_error x) same e in
      absurd (ground (arith, o, turn, w))
  | inr (x, v, o) ↦ absurd (ground (arith, o, w))
]

-- Where one of two readers is removed while it is the turn of number 1, in the ordered and the
-- round-robin queue, the removal succeeds, the next turn raises `IndexError`, and no write returns.
pub remove_reader_breaks_turns :
    (log : List Token) (q : Ordered) (r number : ℕ) (draws : List ℕ) (token : Token)
    → q.update ≢ random
    → Lane log q.base r
    → get_elem? q.reader_turn (q.turn_pos % q.size) ≡ some 1
    → q.nbr_peers ≡ 2
    → 0 < q.size
    → let s = after_removal q r 1 in
      (remove_reader draws r q ≡ done true s)
      × (update_turn number s ≡ raised index_error s)
      × ((u : Ordered) → write number token s ≢ done true u)
unfolding update_turn
remove_reader_breaks_turns log q r number draws token h l e p z =
    let s = after_removal q r 1 in
    let short =
      update_by_lem q.update s number h
      ∙ short_rotate (record q { base = removed q.base r }) (omega arith) z in
    (remove_reader-reset log q r 1 draws h l e, short, λ u. write_stuck number token s u short)
