-- ===== src/Port/Wired.antt =====
-- What a port needs of its queue, and how its endpoints and peers stay in order when one is attached.
use calvin_base.Base.{
  ℕ, ◌+◌, ◌≤◌, ◌<◌, ◌≡◌, refl, sym, ap, ◌∙◌, ◌⊎◌, inl, inr, Bool, true, false, not, ◌&&◌, ◌||◌,
  none, some, List, [], ◌∷◌, ◌++◌, length, contains, Distinct, ltb, ◌==◌, if◌then◌else◌, subst,
  Bool-cases, done, arith, ltb→lt, ==_iff,
}
use calvin_base.Queue.Common.{Disconnect, temporary}
use calvin_base.Port.{
  Endpoint, PortCalls, Port, did_connect, ids, peer_ids, find_peer, without, attach_endpoint,
}
use calvin_base.Port.Replaced.{
  without_peer, without-find_peer, replaced, replaced-objects, replaced-peers, contains-replaced,
}

pub contains_cong : (xs : List ℕ) (m n : ℕ) → (m == n) ≡ true → contains xs m ≡ contains xs n
contains_cong xs m n e = ap (contains xs) ((==_iff m n).0 e)

-- The two ways to disconnect without exhausting: for a migration, and for good.
abbrev pub mode : Bool → Disconnect
mode false = temporary
mode true = Disconnect.terminate

-- Laws of a queue with its endpoints: `peers` are the peers that the queue knows.
pub record Tracks {S : Type 0} (calls : PortCalls S) : Type 1 where
  pub IsSound : S → Type 0
  pub MayAttach : Endpoint → S → Type 0
  pub peers : S → List ℕ
  pub get_peers_lem : (s : S) → IsSound s → calls.get_peers s ≡ some (peers s)
  pub attaches :
      (e : Endpoint) (s : S)
      → IsSound s
      → MayAttach e s
      → (t : S) × (calls.attached e s ≡ done tt t)
        × IsSound t
        × ((n : ℕ) → contains (peers t) n ≡ (e.peer_id == n || contains (peers s) n))
  pub detaches :
      (for_good : Bool) (e : Endpoint) (s : S)
      → IsSound s
      → contains (peers s) e.peer_id ≡ true
      → (t : S) × (calls.detached (mode for_good) e s ≡ done none t)
        × IsSound t
        × (length (peers t) + (if for_good then 1 else 0) ≡ length (peers s))
        × ((n : ℕ)
            → contains (peers t) n ≡ (contains (peers s) n && not (for_good && e.peer_id == n)))

-- The endpoints are different objects with different peers, which the queue knows, and the port
-- expects at least as many peers as the queue knows.
pub record IsWired {S : Type 0} {calls : PortCalls S} (k : Tracks calls) (p : Port S) : Type 0 where
  pub sound : k.IsSound p.queue
  pub objects : Distinct (ids p.endpoints)
  pub distinct : Distinct (peer_ids p.endpoints)
  pub known :
      (n : ℕ) → contains (peer_ids p.endpoints) n ≡ true → contains (k.peers p.queue) n ≡ true
  pub expected : length (k.peers p.queue) ≤ p.nbr_peers

module _ {S : Type 0} {calls : PortCalls S} (k : Tracks calls) where
  -- The owner hears of the connection unless there are more peers than were expected; then the port
  -- expects all of them.
  abbrev pub Counted : Port S → Port S → Type 0
  Counted p q =
      ((length (k.peers q.queue) ≤ p.nbr_peers)
        × (q.nbr_peers ≡ p.nbr_peers)
        × (q.notices ≡ p.notices ++ did_connect ∷ []))
      ⊎ ((p.nbr_peers < length (k.peers q.queue))
          × (q.nbr_peers ≡ length (k.peers q.queue))
          × (q.notices ≡ p.notices))

  -- The port after an endpoint was put in and the queue has its peer.
  abbrev joined : Endpoint → Port S → S → Port S
  joined e p t = record p {
    endpoints = without (find_peer e.peer_id p.endpoints) p.endpoints ++ e ∷ [];
    queue = t;
  }

  abbrev counted : Port S → Port S
  counted q =
      if ltb q.nbr_peers (length (k.peers q.queue))
      then record q { nbr_peers = length (k.peers q.queue) }
      else record q { notices = q.notices ++ did_connect ∷ [] }

  attach_endpoint_cases :
      (e : Endpoint) (p : Port S) (t : S)
      → calls.attached e p.queue ≡ done tt t
      → calls.get_peers t ≡ some (k.peers t)
      → attach_endpoint calls e p ≡ done (find_peer e.peer_id p.endpoints) (counted (joined e p t))
  unfolding attach_endpoint
  attach_endpoint_cases e p t a g = ground (arith, a, g)

  counted-IsWired :
      (q : Port S)
      → k.IsSound q.queue
      → Distinct (ids q.endpoints)
      → Distinct (peer_ids q.endpoints)
      → ((n : ℕ) → contains (peer_ids q.endpoints) n ≡ true → contains (k.peers q.queue) n ≡ true)
      → IsWired k (counted q)
  counted-IsWired q s o d h = elim (Bool-cases (ltb q.nbr_peers (length (k.peers q.queue)))) [
    | inl l ↦
        rw l (record { sound = s; objects = o; distinct = d; known = h; expected = omega arith })
    | inr l ↦
        let le : length (k.peers q.queue) ≤ q.nbr_peers = ground (arith, l) in
        rw l (record { sound = s; objects = o; distinct = d; known = h; expected = le })
  ]

  counted-Counted : (e : Endpoint) (p : Port S) (t : S) → Counted p (counted (joined e p t))
  counted-Counted e p t = elim (Bool-cases (ltb p.nbr_peers (length (k.peers t)))) [
    | inl l ↦ rw l (inr (ltb→lt p.nbr_peers (length (k.peers t)) l, refl, refl))
    | inr l ↦
        let le : length (k.peers t) ≤ p.nbr_peers = ground (arith, l) in rw l (inl (le, refl, refl))
  ]

  counted-endpoints : (q : Port S) → (counted q).endpoints ≡ q.endpoints
  counted-endpoints q = elim (Bool-cases (ltb q.nbr_peers (length (k.peers q.queue)))) [
    | inl l ↦ rw l refl
    | inr l ↦ rw l refl
  ]

  -- Attaching an endpoint to a port in order, where the queue may take its peer, leaves the port in
  -- order: the new endpoint is the only one of its peer and the others stay as they were. The answer
  -- is the endpoint of the peer that it replaces, if there was one, and the owner hears of the
  -- connection unless there are more peers than were expected, which the port then expects.
  pub attach_endpoint-IsWired :
      (e : Endpoint) (p : Port S)
      → IsWired k p
      → contains (ids p.endpoints) e.id ≡ false
      → k.MayAttach e p.queue
      → (q : Port S) × (attach_endpoint calls e p ≡ done (find_peer e.peer_id p.endpoints) q)
        × IsWired k q
        × (q.endpoints ≡ without_peer e.peer_id p.endpoints ++ e ∷ [])
        × Counted p q
  attach_endpoint-IsWired e p w n m =
      let (t, a, s, h) = k.attaches e p.queue w.sound m in
      let es = replaced e p.endpoints in
      let same : (joined e p t).endpoints ≡ es =
        ap (λ xs. xs ++ e ∷ []) (without-find_peer e.peer_id p.endpoints w.objects) in
      let known : (n : ℕ) → contains (peer_ids es) n ≡ true → contains (k.peers t) n ≡ true =
        λ n c. ground (arith, h n, w.known n, contains-replaced e p.endpoints n w.distinct) in
      (
        counted (joined e p t),
        attach_endpoint_cases e p t a (k.get_peers_lem t s),
        counted-IsWired (joined e p t) s
            (subst (λ xs. Distinct (ids xs)) (sym same)
              (replaced-objects e p.endpoints n w.objects))
            (subst (λ xs. Distinct (peer_ids xs)) (sym same)
              (replaced-peers e p.endpoints w.distinct))
            (λ n c. known n (subst (λ xs. contains (peer_ids xs) n ≡ true) same c)),
        counted-endpoints (joined e p t) ∙ same,
        counted-Counted e p t,
      )
