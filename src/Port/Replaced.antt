-- ===== src/Port/Replaced.antt =====
-- The endpoints of a port when one takes the place of that of its peer.
use calvin_base.Base.{
  ℕ, ◌≡◌, refl, sym, ap, ◌∙◌, inl, inr, true, false, ◌||◌, Option, none, some, List, [], ◌∷◌, ◌++◌,
  contains, remove, Distinct, ◌==◌, if◌then◌else◌, subst, Bool-cases, arith, ==_iff,
}
use calvin_base.Base.{contains-append, contains-remove, remove-Distinct, append-Distinct}
use calvin_base.Port.{Endpoint, ids, peer_ids, find_peer, detach_endpoint, without}

-- The endpoints without the one of a peer.
abbrev pub without_peer : ℕ → List Endpoint → List Endpoint
without_peer peer [] = []
without_peer peer (e ∷ es) = if e.peer_id == peer then es else e ∷ without_peer peer es

find_peer-ids :
    (peer : ℕ) (es : List Endpoint) (old : Endpoint)
    → find_peer peer es ≡ some old
    → contains (ids es) old.id ≡ true
find_peer-ids peer [] old f = cc
find_peer-ids peer (e ∷ es) old f = elim (Bool-cases (e.peer_id == peer)) [
  | inl h ↦
      let same : e.id ≡ old.id =
        ap (λ o. elim o [ none ↦ 0 | some x ↦ x.id ])
          (subst (λ b. (if b then some e else find_peer peer es) ≡ some old) h f) in
      ground (arith, same)
  | inr h ↦
      let rest =
        find_peer-ids peer es old
          (subst (λ b. (if b then some e else find_peer peer es) ≡ some old) h f) in
      ground (arith, rest)
]

detach-skip :
    (e old : Endpoint) (es : List Endpoint)
    → contains (ids es) e.id ≡ false
    → contains (ids es) old.id ≡ true
    → detach_endpoint old (e ∷ es) ≡ e ∷ detach_endpoint old es
detach-skip e old es n m = elim (Bool-cases (e.id == old.id)) [
  | inl h ↦
      absurd (ground (arith, subst (λ i. contains (ids es) i ≡ false) ((==_iff e.id old.id).0 h) n))
  | inr h ↦ rw h refl
]

skip_head :
    (peer : ℕ) (e : Endpoint) (es : List Endpoint) (found : Option Endpoint)
    → find_peer peer es ≡ found
    → contains (ids es) e.id ≡ false
    → without found (e ∷ es) ≡ e ∷ without found es
skip_head peer e es none f n = refl
skip_head peer e es (some old) f n = detach-skip e old es n (find_peer-ids peer es old f)

pub without-find_peer :
    (peer : ℕ) (es : List Endpoint)
    → Distinct (ids es)
    → without (find_peer peer es) es ≡ without_peer peer es
without-find_peer peer [] d = refl
without-find_peer peer (e ∷ es) d = elim (Bool-cases (e.peer_id == peer)) [
  | inl h ↦ rw h (ground arith)
  | inr h ↦ rw h (
      skip_head peer e es (find_peer peer es) refl d.0
      ∙ ap (λ xs. e ∷ xs) (without-find_peer peer es d.1))
]

peer_ids-without_peer :
    (peer : ℕ) (es : List Endpoint) → peer_ids (without_peer peer es) ≡ remove peer (peer_ids es)
peer_ids-without_peer peer [] = refl
peer_ids-without_peer peer (e ∷ es) = elim (Bool-cases (e.peer_id == peer)) [
  | inl h ↦ rw h refl
  | inr h ↦ rw h (ap (λ ps. e.peer_id ∷ ps) (peer_ids-without_peer peer es))
]

ids-without_peer :
    (peer n : ℕ) (es : List Endpoint)
    → contains (ids es) n ≡ false
    → contains (ids (without_peer peer es)) n ≡ false
ids-without_peer peer n [] h = refl
ids-without_peer peer n (e ∷ es) h = ground (arith, ids-without_peer peer n es)

without_peer-Distinct :
    (peer : ℕ) (es : List Endpoint) → Distinct (ids es) → Distinct (ids (without_peer peer es))
without_peer-Distinct peer [] d = tt
without_peer-Distinct peer (e ∷ es) d = elim (Bool-cases (e.peer_id == peer)) [
  | inl h ↦ rw h d.1
  | inr h ↦ rw h (ids-without_peer peer e.id es d.0, without_peer-Distinct peer es d.1)
]

ids-append : (es : List Endpoint) (e : Endpoint) → ids (es ++ e ∷ []) ≡ ids es ++ e.id ∷ []
ids-append [] e = refl
ids-append (x ∷ es) e = ap (λ ns. x.id ∷ ns) (ids-append es e)

peer_ids-append :
    (es : List Endpoint) (e : Endpoint) → peer_ids (es ++ e ∷ []) ≡ peer_ids es ++ e.peer_id ∷ []
peer_ids-append [] e = refl
peer_ids-append (x ∷ es) e = ap (λ ns. x.peer_id ∷ ns) (peer_ids-append es e)

-- The lists of an endpoint that replaces the one of its peer.
module _ (e : Endpoint) (es : List Endpoint) where
  abbrev pub replaced : List Endpoint
  replaced = without_peer e.peer_id es ++ e ∷ []

  pub replaced-objects :
      contains (ids es) e.id ≡ false → Distinct (ids es) → Distinct (ids replaced)
  replaced-objects n d = subst Distinct (sym (ids-append (without_peer e.peer_id es) e)) (
      append-Distinct e.id (ids (without_peer e.peer_id es)) (ids-without_peer e.peer_id e.id es n)
        (without_peer-Distinct e.peer_id es d))

  peer_ids-replaced : peer_ids replaced ≡ remove e.peer_id (peer_ids es) ++ e.peer_id ∷ []
  peer_ids-replaced =
      peer_ids-append (without_peer e.peer_id es) e
      ∙ ap (λ ns. ns ++ e.peer_id ∷ []) (peer_ids-without_peer e.peer_id es)

  pub replaced-peers : Distinct (peer_ids es) → Distinct (peer_ids replaced)
  replaced-peers d =
      let gone : contains (remove e.peer_id (peer_ids es)) e.peer_id ≡ false =
        ground (arith, contains-remove e.peer_id (peer_ids es) e.peer_id d) in
      subst Distinct (sym peer_ids-replaced) (
        append-Distinct e.peer_id (remove e.peer_id (peer_ids es)) gone
          (remove-Distinct e.peer_id (peer_ids es) d))

  pub contains-replaced :
      (n : ℕ)
      → Distinct (peer_ids es)
      → contains (peer_ids replaced) n ≡ (e.peer_id == n || contains (peer_ids es) n)
  contains-replaced n d =
      ap (λ ns. contains ns n) peer_ids-replaced
      ∙ ground (
        arith,
        contains-append (remove e.peer_id (peer_ids es)) (e.peer_id ∷ []) n,
        contains-remove e.peer_id (peer_ids es) n d,
      )
