-- ===== src/Port/Stays.antt =====
-- The endpoints of a port that go, and those that stay.
use calvin_base.Base.{
  ℕ, ◌≡◌, refl, ap, inl, inr, Bool, true, false, not, ◌&&◌, Option, none, some, List, [], ◌∷◌,
  contains, Distinct, ◌==◌, if◌then◌else◌, Bool-cases, arith, ==_iff,
}
use calvin_base.Port.{Endpoint, ids, peer_ids, is_chosen, chosen, not_in}

-- Whether the endpoints of a peer are to go.
abbrev pub goes : Option (List ℕ) → ℕ → Bool
goes none n = true
goes (some peers) n = contains peers n

-- The endpoints that stay.
abbrev pub left : Option (List ℕ) → List Endpoint → List Endpoint
left c [] = []
left c (e ∷ es) = if goes c e.peer_id then left c es else e ∷ left c es

is_chosen-goes : (c : Option (List ℕ)) (e : Endpoint) → is_chosen c e ≡ goes c e.peer_id
is_chosen-goes none e = refl
is_chosen-goes (some peers) e = refl

module _ (c : Option (List ℕ)) where
  ids-chosen :
      (n : ℕ) (es : List Endpoint)
      → contains (ids es) n ≡ false
      → contains (ids (chosen c es)) n ≡ false
  ids-chosen n [] h = refl
  ids-chosen n (e ∷ es) h = ground (arith, ids-chosen n es)

  ids-left :
      (n : ℕ) (es : List Endpoint)
      → contains (ids es) n ≡ false
      → contains (ids (left c es)) n ≡ false
  ids-left n [] h = refl
  ids-left n (e ∷ es) h = ground (arith, ids-left n es)

  pub left-objects : (es : List Endpoint) → Distinct (ids es) → Distinct (ids (left c es))
  left-objects [] d = tt
  left-objects (e ∷ es) d = elim (Bool-cases (goes c e.peer_id)) [
    | inl h ↦ rw h (left-objects es d.1)
    | inr h ↦ rw h (ids-left e.id es d.0, left-objects es d.1)
  ]

  goes_cong : (m n : ℕ) → (m == n) ≡ true → goes c m ≡ goes c n
  goes_cong m n e = ap (goes c) ((==_iff m n).0 e)

  pub peer_ids-left :
      (es : List Endpoint) (n : ℕ)
      → contains (peer_ids (left c es)) n ≡ (contains (peer_ids es) n && not (goes c n))
  peer_ids-left [] n = refl
  peer_ids-left (e ∷ es) n = ground (arith, peer_ids-left es n, goes_cong e.peer_id n)

  pub peer_ids-chosen :
      (es : List Endpoint) (n : ℕ)
      → contains (peer_ids (chosen c es)) n ≡ (contains (peer_ids es) n && goes c n)
  peer_ids-chosen [] n = refl
  peer_ids-chosen (e ∷ es) n =
      ground (arith, is_chosen-goes c e, peer_ids-chosen es n, goes_cong e.peer_id n)

  pub left-peers : (es : List Endpoint) → Distinct (peer_ids es) → Distinct (peer_ids (left c es))
  left-peers [] d = tt
  left-peers (e ∷ es) d = elim (Bool-cases (goes c e.peer_id)) [
    | inl h ↦ rw h (left-peers es d.1)
    | inr h ↦ rw h (ground (arith, d.0, peer_ids-left es e.peer_id), left-peers es d.1)
  ]

  pub chosen-peers :
      (es : List Endpoint) → Distinct (peer_ids es) → Distinct (peer_ids (chosen c es))
  chosen-peers [] d = tt
  chosen-peers (e ∷ es) d = elim (Bool-cases (is_chosen c e)) [
    | inl h ↦ rw h (ground (arith, d.0, peer_ids-chosen es e.peer_id), chosen-peers es d.1)
    | inr h ↦ rw h (chosen-peers es d.1)
  ]

not_in-skip :
    (e : Endpoint) (gone es : List Endpoint)
    → contains (ids es) e.id ≡ false
    → not_in (e ∷ gone) es ≡ not_in gone es
not_in-skip e gone [] n = refl
not_in-skip e gone (x ∷ es) n = ground (arith, not_in-skip e gone es)

pub not_in-chosen :
    (c : Option (List ℕ)) (es : List Endpoint)
    → Distinct (ids es)
    → not_in (chosen c es) es ≡ left c es
not_in-chosen c [] d = refl
not_in-chosen c (e ∷ es) d = ground (
  arith,
  is_chosen-goes c e,
  ids-chosen c e.id es d.0,
  not_in-skip e (chosen c es) es d.0,
  not_in-chosen c es d.1,
)
