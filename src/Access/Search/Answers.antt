-- ===== src/Access/Search/Answers.antt =====
-- What an authorization and a search for a runtime answer.
use calvin_base.Base.{
  ◌&&◌, ◌||◌, is_empty, contains, get_or_default, ℕ, ◌+◌, ◌-◌, ◌%◌, ◌<◌, ◌≡◌, refl, sym, ◌∙◌, inl,
  inr, Bool, true, false, Option, none, some, List, [], ◌∷◌, ltb, Bool-cases, Dict, keys, subst,
  arith,
}
use calvin_base.Access.{
  Atom, Value, Request, TextRules, Decision, permit, deny, indeterminate, not_applicable, Verdict,
}
use calvin_base.Access.Policies.{Combination, Policy}
use calvin_base.Access.Grounds.{Any, IsGranting}
use calvin_base.Access.Search.{
  Response, answer, for_requirement, is_allowed, search_authorize, check_plugins, check_each,
  check_authorization_plugin_list, is_valid_now, in_whitelist, Obligations, of_one, of_each,
  possible_nodes, runtime_search, authorize_node, without_forbidden, authorization_check,
}

-- An obligation on the time of day holds from its start until just before its end, also over
-- midnight: exactly when less time has passed since the start than lies between start and end. At
-- the end itself it does not hold, and never where start and end are the same.
pub authorization_check_lem :
    (start_time end_time time : ℕ)
    → start_time < 1440
    → end_time < 1440
    → time < 1440
    → authorization_check start_time end_time time
      ≡ ltb ((time + 1440 - start_time) % 1440) ((end_time + 1440 - start_time) % 1440)
unfolding authorization_check
authorization_check_lem s e t hs he ht = ground arith

-- Whether some node of a list is one of these; that none is; and that the first is `m`.
abbrev pub any_node : (ℕ → Bool) → List ℕ → Bool
any_node p [] = false
any_node p (n ∷ ns) = p n || any_node p ns

pub data NoneSuits (suits : ℕ → Bool) : List ℕ → Type 0 where
  no_node : NoneSuits suits []
  refused : (n : ℕ) (ns : List ℕ) → suits n ≡ false → NoneSuits suits ns → NoneSuits suits (n ∷ ns)

pub data FirstSuits (suits : ℕ → Bool) (m : ℕ) : List ℕ → Type 0 where
  first : (ns : List ℕ) → suits m ≡ true → FirstSuits suits m (m ∷ ns)
  after :
      (n : ℕ) (ns : List ℕ) → suits n ≡ false → FirstSuits suits m ns → FirstSuits suits m (n ∷ ns)

-- An empty whitelist lists all nodes.
abbrev pub is_listed : List ℕ → ℕ → Bool
is_listed whitelist node = is_empty whitelist || contains whitelist node

-- Obligations hold if no check of them raises an exception and one answers True, for each list of
-- them; a single list may be empty.
module _ (check : ℕ → Option Bool) where
  abbrev pub some_true : List ℕ → Bool
  some_true [] = false
  some_true (o ∷ os) = get_or_default false (check o) || some_true os

  abbrev pub has_answer : Option Bool → Bool
  has_answer none = false
  has_answer (some b) = true

  abbrev pub none_raises : List ℕ → Bool
  none_raises [] = true
  none_raises (o ∷ os) = has_answer (check o) && none_raises os

  abbrev pub each_holds : List (List ℕ) → Bool
  each_holds [] = true
  each_holds (os ∷ rest) = (none_raises os && some_true os) && each_holds rest

  abbrev pub holds : Obligations → Bool
  holds (of_one os) = is_empty os || none_raises os && some_true os
  holds (of_each lists) = each_holds lists

  abbrev pub permits : Response → Bool
  permits r = elim r.decision [
    | permit ↦ holds r.obligations
    | deny ↦ false
    | indeterminate ↦ false
    | not_applicable ↦ false
  ]

  check_plugins_step :
      (b : Bool) (o : ℕ) (os : List ℕ) (answer : Option Bool)
      → check o ≡ answer
      → ((c : Bool) → check_plugins check c os ≡ (none_raises os && (some_true os || c)))
      → check_plugins check b (o ∷ os) ≡ (none_raises (o ∷ os) && (some_true (o ∷ os) || b))
  unfolding check_plugins
  check_plugins_step b o os none e again = ground (arith, e)
  check_plugins_step b o os (some t) e again = ground (arith, e, again (t || b))

  check_plugins_lem :
      (b : Bool) (os : List ℕ) → check_plugins check b os ≡ (none_raises os && (some_true os || b))
  unfolding check_plugins
  check_plugins_lem b [] = refl
  check_plugins_lem b (o ∷ os) =
      check_plugins_step b o os (check o) refl (λ c. check_plugins_lem c os)

  check_each_lem : (lists : List (List ℕ)) → check_each check lists ≡ each_holds lists
  unfolding check_authorization_plugin_list
  check_each_lem [] = refl
  check_each_lem (os ∷ lists) = ground (arith, check_plugins_lem false os, check_each_lem lists)

  is_valid_now-holds : (o : Obligations) → is_valid_now check o ≡ holds o
  unfolding check_authorization_plugin_list
  is_valid_now-holds (of_one []) = refl
  is_valid_now-holds (of_one (o ∷ os)) = ground (arith, check_plugins_lem false (o ∷ os))
  is_valid_now-holds (of_each lists) = check_each_lem lists

  is_allowed-permits : (r : Response) → is_allowed check r ≡ permits r
  is_allowed-permits r = go r.decision r refl
    where
      go : (d : Decision) (r : Response) → r.decision ≡ d → is_allowed check r ≡ permits r
      go permit r e = rw e (is_valid_now-holds r.obligations)
      go deny r e = rw e refl
      go indeterminate r e = rw e refl
      go not_applicable r e = rw e refl

in_whitelist-is_listed : (ns : List ℕ) (n : ℕ) → in_whitelist ns n ≡ is_listed ns n
in_whitelist-is_listed [] n = refl
in_whitelist-is_listed (m ∷ ns) n = refl

module _ (check : ℕ → Option Bool) (authorize : ℕ → Response) (whitelist : List ℕ) where
  abbrev pub suits : ℕ → Bool
  suits n = is_listed whitelist n && permits check (authorize n)

  -- What the search answers over the registered nodes.
  abbrev pub Answer : List ℕ → Option (Option (ℕ × Response)) → Type 0
  Answer ns none = any_node (is_listed whitelist) ns ≡ false
  Answer ns (some none) = (any_node (is_listed whitelist) ns ≡ true) × NoneSuits suits ns
  Answer ns (some (some (m, r))) = FirstSuits suits m ns × (r ≡ authorize m)

  -- A node that is not listed changes nothing.
  Answer-unlisted :
      (n : ℕ) (ns : List ℕ) (a : Option (Option (ℕ × Response)))
      → is_listed whitelist n ≡ false
      → Answer ns a
      → Answer (n ∷ ns) a
  Answer-unlisted n ns none u e = ground (arith, u, e)
  Answer-unlisted n ns (some none) u e =
      (ground (arith, u, e.0), refused n ns (ground (arith, u)) e.1)
  Answer-unlisted n ns (some (some (m, r))) u e = (after n ns (ground (arith, u)) e.0, e.1)

  unlisted-NoneSuits :
      (ns : List ℕ) → any_node (is_listed whitelist) ns ≡ false → NoneSuits suits ns
  unlisted-NoneSuits [] e = no_node
  unlisted-NoneSuits (n ∷ ns) e =
      refused n ns (ground (arith, e)) (unlisted-NoneSuits ns (ground (arith, e)))

  -- A listed node that is refused, before others: `a` is the answer for these, and where there is
  -- none of them the search has failed.
  Answer-refused :
      (n : ℕ) (ns : List ℕ) (a : Option (Option (ℕ × Response)))
      → is_listed whitelist n ≡ true
      → permits check (authorize n) ≡ false
      → Answer ns a
      → Answer (n ∷ ns) (elim a [ none ↦ some none | some b ↦ some b ])
  Answer-refused n ns none l p e =
      (ground (arith, l), refused n ns (ground (arith, l, p)) (unlisted-NoneSuits ns e))
  Answer-refused n ns (some none) l p e =
      (ground (arith, l), refused n ns (ground (arith, l, p)) e.1)
  Answer-refused n ns (some (some (m, r))) l p e = (after n ns (ground (arith, l, p)) e.0, e.1)

  search_found :
      (n : ℕ) (ns : List ℕ)
      → (b : Option (ℕ × Response)) × (search_authorize check authorize (n ∷ ns) ≡ some b)
  unfolding search_authorize
  search_found n [] = elim (Bool-cases (is_allowed check (authorize n))) [
    | inl y ↦ (some (n, authorize n), rw y refl)
    | inr e ↦ (none, rw e refl)
  ]
  search_found n (k ∷ ns) = elim (Bool-cases (is_allowed check (authorize n))) [
    | inl y ↦ (some (n, authorize n), rw y refl)
    | inr e ↦ let (b, f) = search_found k ns in (b, rw e f)
  ]

  search_refused :
      (n : ℕ) (ns : List ℕ)
      → is_allowed check (authorize n) ≡ false
      → search_authorize check authorize (n ∷ ns)
        ≡ elim (search_authorize check authorize ns) [ none ↦ some none | some b ↦ some b ]
  unfolding search_authorize
  search_refused n [] e = rw e refl
  search_refused n (k ∷ ns) e = let (b, f) = search_found k ns in ground (arith, e, f)

  search_allowed :
      (n : ℕ) (ns : List ℕ)
      → is_allowed check (authorize n) ≡ true
      → search_authorize check authorize (n ∷ ns) ≡ some (some (n, authorize n))
  unfolding search_authorize
  search_allowed n ns e = rw e refl

  search-Answer :
      (ns : List ℕ) → Answer ns (search_authorize check authorize (possible_nodes whitelist ns))
  unfolding search_authorize
  search-Answer [] = refl
  search-Answer (n ∷ ns) = elim (Bool-cases (in_whitelist whitelist n)) [
    | inr u ↦
        let unlisted : is_listed whitelist n ≡ false =
          sym (in_whitelist-is_listed whitelist n) ∙ u in
        rw u (
          Answer-unlisted n ns (search_authorize check authorize (possible_nodes whitelist ns))
            unlisted (search-Answer ns))
    | inl l ↦
        let rest = possible_nodes whitelist ns in
        let listed : is_listed whitelist n ≡ true = sym (in_whitelist-is_listed whitelist n) ∙ l in
        rw l (elim (Bool-cases (is_allowed check (authorize n))) [
          | inl y ↦
              let suited : suits n ≡ true =
                ground (arith, listed, is_allowed-permits check (authorize n), y) in
              subst (Answer (n ∷ ns)) (sym (search_allowed n rest y)) (first ns suited, refl)
          | inr e ↦
              let refusal : permits check (authorize n) ≡ false =
                sym (is_allowed-permits check (authorize n)) ∙ e in
              subst (Answer (n ∷ ns)) (sym (search_refused n rest e)) (
                Answer-refused n ns (search_authorize check authorize rest) listed refusal
                  (search-Answer ns))
        ])
  ]

-- A search for a runtime looks at the registered nodes that the whitelist names, all where it is
-- empty. It raises IndexError exactly where there is none; else it answers the first one whose
-- authorization is "permit" with obligations that hold now (no check raises an exception and one
-- answers True, for each list of obligations), together with that authorization, or None where
-- there is no such node.
pub runtime_search_lem :
    (check : ℕ → Option Bool) (information : ℕ → TextRules) (combination : Combination)
    (policies : Option (List Policy)) (registered_nodes : Dict (Dict Value)) (request : Request)
    (whitelist : List ℕ)
    → Answer check
        (authorize_node information combination policies registered_nodes
          (without_forbidden request))
        whitelist
        (keys registered_nodes)
        (runtime_search information combination policies registered_nodes check request whitelist)
unfolding runtime_search
runtime_search_lem check information combination policies nodes request whitelist =
    search-Answer check _ whitelist (keys nodes)

abbrev AllPermit : List Verdict → Type 0
AllPermit [] = Unit {0}
AllPermit (v ∷ vs) = (v.0 ≡ permit) × AllPermit vs

module _ (w : TextRules) (combination : Combination) (ps : List Policy) where
  abbrev pub AllGranted : Request → List Atom → Type 0
  AllGranted request [] = Unit {0}
  AllGranted request (r ∷ rs) =
      Any (IsGranting w (for_requirement request r)) ps × AllGranted request rs

  -- Grounds for a request, or for each of its requirements where it has several.
  abbrev pub Granted : Request → Option (List Atom) → Type 0
  Granted request none = Any (IsGranting w request) ps
  Granted request (some []) = Any (IsGranting w request) ps
  Granted request (some (r ∷ [])) = Any (IsGranting w request) ps
  Granted request (some (r ∷ q ∷ rs)) = AllGranted request (r ∷ q ∷ rs)
