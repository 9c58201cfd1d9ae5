-- ===== src/Port/Fifo.antt =====
-- Out-ports over FanoutFIFO with local endpoints keep the laws of `Tracks`.
use calvin_base.Base.{
  ℕ, ◌+◌, ◌≤◌, ◌<◌, ◌≡◌, ◌≢◌, refl, sym, ◌∙◌, inl, inr, Bool, true, false, not, ◌&&◌, ◌||◌, none,
  some, List, [], ◌∷◌, ◌++◌, length, contains, remove, ltb, ◌==◌, if◌then◌else◌, subst, Bool-cases,
  Dict, values, done, ◌>>=◌, return, after, >>=_done, tests, arith,
}
use calvin_base.Base.{contains-append, contains-remove, min_of}
use calvin_base.Queue.Common.{PortProperties, out_port}
use calvin_base.Queue.Fanout
use calvin_base.Queue.Fanout.{FanoutFifo, add_reader, add_writer, remove_reader}
use calvin_base.Queue.Fanout.Exhaust
use calvin_base.Queue.Fanout.Invariant.{IsValid, Follows, moved-IsValid}
use calvin_base.Queue.Fanout.Reads.{tentatively, tentatively-moved, cancel_lem}
use calvin_base.Queue.Fanout.Readers.{
  added, removed, removed-IsValid, remove_reader_cases, add_reader_cases, add_reader_known,
  add_reader-IsValid,
}
use calvin_base.Endpoint.Attach.{fifo_queue, out_attached, out_detached}
use calvin_base.Port.{Endpoint, PortCalls}
use calvin_base.Port.Wired.{contains_cong, mode, Tracks}

-- The calls of an out-port with the id `port`; FanoutFIFO ignores the properties of the peer.
abbrev pub out_calls : ℕ → PortProperties → PortCalls FanoutFifo
out_calls port properties = record {
  attached = λ e. out_attached fifo_queue port properties e.peer_id properties;
  detached = λ m e. out_detached fifo_queue m e.peer_id;
  get_peers = Exhaust.get_peers;
  is_exhausting = Fanout.is_exhausting none;
  set_exhausted_tokens = λ tokens. Exhaust.set_exhausted_tokens tokens >>= λ n. return tt;
}

add_writer-IsValid : (w : ℕ) (q : FanoutFifo) → IsValid q → IsValid (add_writer w q)
unfolding add_writer
add_writer-IsValid w q v = record {
  positive = v.positive;
  near = v.near;
  distinct = v.distinct;
  follows = λ r h.
      let f = v.follows r h in
      record {
        offset = f.offset;
        read = f.read;
        tentative = f.tentative;
        has_offset = f.has_offset;
        has_read = f.has_read;
        has_tentative = f.has_tentative;
        offset_le = f.offset_le;
        read_le = f.read_le;
        tentative_le = f.tentative_le;
      };
}

length-remove : (a : ℕ) (xs : List ℕ) → contains xs a ≡ true → length (remove a xs) + 1 ≡ length xs
length-remove a [] h = cc
length-remove a (x ∷ xs) h = ground (arith, length-remove a xs)

-- The state after a reader was added, where this does not raise.
Enters : ℕ → FanoutFifo → Type 0
Enters r q =
    (s : FanoutFifo) × (add_reader r q ≡ done tt s)
    × (s.direction ≡ q.direction)
    × ((n : ℕ) → contains s.readers n ≡ (r == n || contains q.readers n))

added-Enters :
    (r : ℕ) (q : FanoutFifo) (pos peers : ℕ)
    → add_reader r q ≡ done tt (added q r pos peers)
    → Enters r q
unfolding Enters
added-Enters r q pos peers e =
    (added q r pos peers, e, refl, λ n. ground (arith, contains-append q.readers (r ∷ []) n))

late-Enters :
    (r : ℕ) (q : FanoutFifo) (d : Dict ℕ)
    → q.read_pos ≡ d
    → contains q.readers r ≡ false
    → ltb q.nbr_peers (length (q.readers ++ r ∷ [])) ≡ true
    → q.read_pos ≢ []
    → Enters r q
late-Enters r q [] e n l m = absurd (m e)
late-Enters r q ((k, a) ∷ rest) e n l m =
    added-Enters r q (min_of a (values rest)) (length (q.readers ++ r ∷ []))
      (add_reader_cases q r ((k, a) ∷ rest) e n ∙ rw l refl)

reader-Enters :
    (r : ℕ) (q : FanoutFifo)
    → (q.nbr_peers < length (q.readers ++ r ∷ []) → q.read_pos ≢ [])
    → Enters r q
unfolding Enters
reader-Enters r q more = elim (Bool-cases (contains q.readers r)) [
  | inl m ↦ (q, add_reader_known q r m, refl, λ n. ground (arith, contains_cong q.readers r n))
  | inr n ↦ elim (Bool-cases (ltb q.nbr_peers (length (q.readers ++ r ∷ [])))) [
    | inl l ↦ late-Enters r q q.read_pos refl n l (more (omega tests))
    | inr l ↦ added-Enters r q 0 q.nbr_peers (add_reader_cases q r q.read_pos refl n ∙ rw l refl)
  ]
]

-- A queue in order whose direction is known to be out.
abbrev pub IsSound : FanoutFifo → Type 0
IsSound q = IsValid q × (q.direction ≡ some out_port)

abbrev pub MayAttach : Endpoint → FanoutFifo → Type 0
MayAttach e q =
    (q.nbr_peers < length (q.readers ++ e.peer_id ∷ []) → q.read_pos ≢ [])
    × (length (q.readers ++ e.peer_id ∷ []) ≤ q.nbr_peers → q.write_pos < q.size)

cancelled-IsValid :
    (q : FanoutFifo) (r : ℕ) (f : Follows q r) → IsValid q → IsValid (tentatively q r f.read)
cancelled-IsValid q r f v = subst IsValid (sym (tentatively-moved q r f.read f.read f.has_read)) (
    moved-IsValid q r f.read f.read f v (omega arith) (omega arith)
      (omega (arith, f.read_le, f.tentative_le)))

module _ (port : ℕ) (properties : PortProperties) where
  abbrev pub calls : PortCalls FanoutFifo
  calls = out_calls port properties

  pub get_peers_out : (q : FanoutFifo) → IsSound q → Exhaust.get_peers q ≡ some q.readers
  unfolding Exhaust.get_peers
  get_peers_out q s = rw s.1 refl

  pub fifo_attaches :
      (e : Endpoint) (q : FanoutFifo)
      → IsSound q
      → MayAttach e q
      → (t : FanoutFifo) × (calls.attached e q ≡ done tt t)
        × IsSound t
        × ((n : ℕ) → contains t.readers n ≡ (e.peer_id == n || contains q.readers n))
  unfolding out_attached Enters add_writer
  fifo_attaches e q s m =
      let (t, a, same, has) = reader-Enters e.peer_id q m.0 in
      let valid : IsValid t =
        subst (λ o. IsValid (after o)) a (add_reader-IsValid q e.peer_id s.0 m.0 m.1) in
      (
        add_writer port t,
        >>=_done (add_reader e.peer_id) _ q a,
        (add_writer-IsValid port t valid, same ∙ s.1),
        has,
      )

  pub fifo_detaches :
      (for_good : Bool) (e : Endpoint) (q : FanoutFifo)
      → IsSound q
      → contains q.readers e.peer_id ≡ true
      → (t : FanoutFifo) × (calls.detached (mode for_good) e q ≡ done none t)
        × IsSound t
        × (length t.readers + (if for_good then 1 else 0) ≡ length q.readers)
        × ((n : ℕ)
            → contains t.readers n ≡ (contains q.readers n && not (for_good && e.peer_id == n)))
  unfolding out_detached
  fifo_detaches false e q s h =
      let r = e.peer_id in
      let f = s.0.follows r h in
      (
        tentatively q r f.read,
        >>=_done (Fanout.cancel r) _ q (cancel_lem q r f),
        (cancelled-IsValid q r f s.0, s.1),
        omega arith,
        λ n. ground arith,
      )
  fifo_detaches true e q s h =
      let r = e.peer_id in
      let f = s.0.follows r h in
      let back = tentatively q r f.read in
      let valid : IsValid back = cancelled-IsValid q r f s.0 in
      (
        removed back r,
        >>=_done (Fanout.cancel r) _ q (cancel_lem q r f)
            ∙ >>=_done (remove_reader r) _ back (remove_reader_cases back r valid ∙ rw h refl),
        (removed-IsValid back r valid, s.1),
        length-remove r q.readers h,
        λ n. ground (arith, contains-remove r q.readers n s.0.distinct),
      )

  abbrev pub fifo_tracks : Tracks calls
  fifo_tracks = record {
    IsSound = IsSound;
    MayAttach = MayAttach;
    peers = λ q. q.readers;
    get_peers_lem = get_peers_out;
    attaches = fifo_attaches;
    detaches = fifo_detaches;
  }
