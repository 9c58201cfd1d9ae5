-- ===== src/Port/Disconnects.antt =====
-- InPort.disconnect and OutPort.disconnect: which endpoints go, which stay, and what is left.
use calvin_base.Base.{
  is_empty, ℕ, ◌+◌, ◌-◌, ◌≤◌, ◌≡◌, refl, sym, ap, ◌∙◌, inl, inr, Bool, true, false, not, ◌&&◌,
  Option, List, [], ◌∷◌, ◌++◌, length, contains, Distinct, if◌then◌else◌, subst, Bool-cases, done,
  >>=_done, arith,
}
use calvin_base.Port.{
  Endpoint, PortCalls, Port, did_disconnect, ids, peer_ids, chosen, not_in, detach_all,
  is_disconnected, disconnect, tell_disconnected,
}
use calvin_base.Queue.Common.{Disconnect, temporary, Direction, in_port, out_port}
use calvin_base.Port.Wired.{contains_cong, mode, Tracks, IsWired}
use calvin_base.Port.Stays.{
  left, left-objects, peer_ids-left, peer_ids-chosen, left-peers, chosen-peers, not_in-chosen,
}

peers_left :
    (for_good : Bool) (new old expected gone : ℕ)
    → new + (if for_good then gone else 0) ≡ old
    → old ≤ expected
    → (new ≤ (if for_good then expected - gone else expected))
      × ((if for_good then expected - gone else expected) + (if for_good then gone else 0)
          ≡ expected)
peers_left true new old expected gone e l = (omega arith, omega arith)
peers_left false new old expected gone e l = (omega arith, omega arith)

-- Whether a port is left without a peer: with no endpoint, and, for an in-port, no tokens to exhaust.
abbrev pub is_cut_off : Direction → Bool → List Endpoint → Bool
is_cut_off out_port exhausting es = is_empty es
is_cut_off in_port exhausting es = is_empty es && not exhausting

is_disconnected-is_cut_off :
    {S : Type 0} (calls : PortCalls S) (d : Direction) (p : Port S)
    → p.direction ≡ d
    → is_disconnected calls p ≡ is_cut_off d (calls.is_exhausting p.queue) p.endpoints
is_disconnected-is_cut_off calls out_port p e = rw e (ground arith)
is_disconnected-is_cut_off calls in_port p e = rw e refl

module _ {S : Type 0} {calls : PortCalls S} (k : Tracks calls) where
  -- Detaching endpoints of different peers that the queue knows takes these peers, and no others,
  -- from the queue, if it is for good.
  detach_all_lem :
      (for_good : Bool) (es : List Endpoint) (p : Port S)
      → k.IsSound p.queue
      → Distinct (peer_ids es)
      → ((n : ℕ) → contains (peer_ids es) n ≡ true → contains (k.peers p.queue) n ≡ true)
      → (t : S) × (detach_all calls (mode for_good) es p ≡ done es (record p { queue = t }))
        × k.IsSound t
        × (length (k.peers t) + (if for_good then length es else 0) ≡ length (k.peers p.queue))
        × ((n : ℕ)
            → contains (k.peers t) n
              ≡ (contains (k.peers p.queue) n && not (for_good && contains (peer_ids es) n)))
  unfolding detach_all
  detach_all_lem for_good [] p s d h = (p.queue, refl, s, ground arith, λ n. ground arith)
  detach_all_lem for_good (e ∷ es) p s d h =
      let head : contains (peer_ids (e ∷ es)) e.peer_id ≡ true = ground arith in
      let (t, a, sound, fewer, same) = k.detaches for_good e p.queue s (h e.peer_id head) in
      let (u, b, soundly, less, others) =
        detach_all_lem for_good es (record p { queue = t }) sound d.1
          (λ n c. ground (arith, same n, h n, contains_cong (peer_ids es) e.peer_id n)) in
      (
        u,
        ground (arith, a, b),
        soundly,
        ground (arith, fewer, less),
        λ n. ground (arith, same n, others n),
      )

  -- The port after its chosen endpoints were detached from the queue.
  abbrev cut_off : Bool → Option (List ℕ) → Port S → S → Port S
  cut_off for_good c p t = record p {
    queue = t;
    endpoints = not_in (chosen c p.endpoints) p.endpoints;
    nbr_peers = if for_good then p.nbr_peers - length (chosen c p.endpoints) else p.nbr_peers;
  }

  abbrev told_by : Bool → Port S → Port S
  told_by true q = record q { notices = q.notices ++ did_disconnect ∷ [] }
  told_by false q = q

  abbrev told : Port S → Port S
  told q = told_by (is_disconnected calls q) q

  tell_disconnected_lem : (q : Port S) → tell_disconnected calls q ≡ done tt (told q)
  tell_disconnected_lem q = elim (Bool-cases (is_disconnected calls q)) [
    | inl h ↦ rw h refl
    | inr h ↦ rw h refl
  ]

  disconnect_cases :
      (for_good : Bool) (c : Option (List ℕ)) (p : Port S) (t : S)
      → detach_all calls
          (mode for_good)
          (chosen c p.endpoints)
          (record p { endpoints = not_in (chosen c p.endpoints) p.endpoints })
        ≡ done
            (chosen c p.endpoints)
            (record p { endpoints = not_in (chosen c p.endpoints) p.endpoints; queue = t })
      → disconnect calls c (mode for_good) p
        ≡ done (chosen c p.endpoints) (told (cut_off for_good c p t))
  unfolding disconnect
  disconnect_cases false c p t h =
      >>=_done (detach_all calls temporary (chosen c p.endpoints)) _ _ h
      ∙ >>=_done (tell_disconnected calls) _ (cut_off false c p t)
          (tell_disconnected_lem (cut_off false c p t))
  disconnect_cases true c p t h =
      >>=_done (detach_all calls Disconnect.terminate (chosen c p.endpoints)) _ _ h
      ∙ >>=_done (tell_disconnected calls) _ (cut_off true c p t)
          (tell_disconnected_lem (cut_off true c p t))

  told_by-IsWired : (b : Bool) (q : Port S) → IsWired k q → IsWired k (told_by b q)
  told_by-IsWired true q w = record {
    sound = w.sound;
    objects = w.objects;
    distinct = w.distinct;
    known = w.known;
    expected = w.expected;
  }
  told_by-IsWired false q w = w

  told_by-same :
      (b : Bool) (q : Port S)
      → ((told_by b q).endpoints ≡ q.endpoints)
        × ((told_by b q).nbr_peers ≡ q.nbr_peers)
        × ((told_by b q).queue ≡ q.queue)
        × ((told_by b q).notices ≡ (if b then q.notices ++ did_disconnect ∷ [] else q.notices))
  told_by-same true q = (refl, refl, refl, refl)
  told_by-same false q = (refl, refl, refl, refl)

  -- Disconnecting all endpoints, or those of some peers, of a port in order, temporarily or for good,
  -- leaves it in order. The endpoints of the peers go and the others stay; where it is for good the
  -- port expects that many peers fewer, which is never below zero; and the owner hears that the port
  -- is disconnected exactly if no endpoint is left and, for an in-port, its queue is not exhausting
  -- tokens after that.
  pub disconnect-IsWired :
      (for_good : Bool) (c : Option (List ℕ)) (p : Port S)
      → IsWired k p
      → (q : Port S) × (disconnect calls c (mode for_good) p ≡ done (chosen c p.endpoints) q)
        × IsWired k q
        × (q.endpoints ≡ left c p.endpoints)
        × (q.nbr_peers + (if for_good then length (chosen c p.endpoints) else 0) ≡ p.nbr_peers)
        × (q.notices ≡ (
            if is_cut_off p.direction (calls.is_exhausting q.queue) (left c p.endpoints)
            then p.notices ++ did_disconnect ∷ []
            else p.notices))
  disconnect-IsWired for_good c p w =
      let es = chosen c p.endpoints in
      let (t, e, sound, fewer, same) =
        detach_all_lem for_good es (record p { endpoints = not_in es p.endpoints }) w.sound
          (chosen-peers c p.endpoints w.distinct)
          (λ n h. w.known n (ground (arith, peer_ids-chosen c p.endpoints n))) in
      let stay : not_in es p.endpoints ≡ left c p.endpoints =
        not_in-chosen c p.endpoints w.objects in
      let q = cut_off for_good c p t in
      let counts =
        peers_left for_good (length (k.peers t)) (length (k.peers p.queue)) p.nbr_peers (length es)
          fewer w.expected in
      let wired : IsWired k q = record {
        sound = sound;
        objects = subst (λ xs. Distinct (ids xs)) (sym stay) (left-objects c p.endpoints w.objects);
        distinct =
            subst (λ xs. Distinct (peer_ids xs)) (sym stay) (left-peers c p.endpoints w.distinct);
        known = λ n h. ground (
          arith,
          subst (λ xs. contains (peer_ids xs) n ≡ true) stay h,
          w.known n,
          same n,
          peer_ids-left c p.endpoints n,
          peer_ids-chosen c p.endpoints n,
        );
        expected = counts.0;
      } in
      let (es_same, nbr_same, queue_same, notices) = told_by-same (is_disconnected calls q) q in
      (
        told q,
        disconnect_cases for_good c p t e,
        told_by-IsWired (is_disconnected calls q) q wired,
        es_same ∙ stay,
        ap (λ n. n + (if for_good then length es else 0)) nbr_same ∙ counts.1,
        notices
            ∙ ap (λ b. if b then p.notices ++ did_disconnect ∷ [] else p.notices)
                (is_disconnected-is_cut_off calls p.direction q refl
                  ∙ ap (is_cut_off p.direction (calls.is_exhausting t)) stay
                  ∙ ap (λ u. is_cut_off p.direction (calls.is_exhausting u) (left c p.endpoints))
                      (sym queue_same)),
      )
