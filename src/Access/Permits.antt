-- ===== src/Access/Permits.antt =====
-- A loop over rules or policies that returns "permit" has met one that permits.
use calvin_base.Base.{
  ℕ, ◌≡◌, refl, sym, ap, ◌∙◌, ◌≢◌, ◌⊎◌, inl, inr, Bool, true, false, Option, none, some, List, [],
  ◌∷◌, ◌++◌, is_empty, if◌then◌else◌, subst, Bool-cases, append-nil, arith,
}
use calvin_base.Access.{Decision, permit, deny, indeterminate, not_applicable, Verdict}
use calvin_base.Access.Combining.{round}
use calvin_base.Access.Policies.{
  Combination, permit_overrides, deny_overrides, is_final, some_indeterminate, all_not_applicable,
  accepted, conclude,
}

-- One of the list applies and is decided with "permit".
pub data Permits {A : Type 0} (applied : A → Option Bool) (decide : A → Option Verdict)
    : List A → Type 0 where
  this :
      (a : A) (xs : List A) (o : List ℕ)
      → applied a ≡ some true
      → decide a ≡ some (permit, o)
      → Permits applied decide (a ∷ xs)
  later : (a : A) (xs : List A) → Permits applied decide xs → Permits applied decide (a ∷ xs)

abbrev pub permits : List Decision → Bool
permits [] = false
permits (permit ∷ ds) = true
permits (deny ∷ ds) = permits ds
permits (indeterminate ∷ ds) = permits ds
permits (not_applicable ∷ ds) = permits ds

abbrev pub denies : List Decision → Bool
denies [] = false
denies (deny ∷ ds) = true
denies (permit ∷ ds) = denies ds
denies (indeterminate ∷ ds) = denies ds
denies (not_applicable ∷ ds) = denies ds

permits-append :
    (ds : List Decision) (d : Decision)
    → permits (ds ++ d ∷ []) ≡ true
    → (permits ds ≡ true) ⊎ (d ≡ permit)
permits-append [] permit e = inr refl
permits-append [] deny e = inl e
permits-append [] indeterminate e = inl e
permits-append [] not_applicable e = inl e
permits-append (permit ∷ ds) d e = inl refl
permits-append (deny ∷ ds) d e = permits-append ds d e
permits-append (indeterminate ∷ ds) d e = permits-append ds d e
permits-append (not_applicable ∷ ds) d e = permits-append ds d e

permits-append_left :
    (ds : List Decision) (d : Decision) → permits ds ≡ true → permits (ds ++ d ∷ []) ≡ true
permits-append_left [] d e = cc
permits-append_left (permit ∷ ds) d e = refl
permits-append_left (deny ∷ ds) d e = permits-append_left ds d e
permits-append_left (indeterminate ∷ ds) d e = permits-append_left ds d e
permits-append_left (not_applicable ∷ ds) d e = permits-append_left ds d e

permits-append_last : (ds : List Decision) → permits (ds ++ permit ∷ []) ≡ true
permits-append_last [] = refl
permits-append_last (permit ∷ ds) = refl
permits-append_last (deny ∷ ds) = permits-append_last ds
permits-append_last (indeterminate ∷ ds) = permits-append_last ds
permits-append_last (not_applicable ∷ ds) = permits-append_last ds

denies-append :
    (ds : List Decision) (d : Decision)
    → denies ds ≡ false
    → d ≢ deny
    → denies (ds ++ d ∷ []) ≡ false
denies-append [] permit e n = refl
denies-append [] deny e n = absurd (n refl)
denies-append [] indeterminate e n = refl
denies-append [] not_applicable e n = refl
denies-append (permit ∷ ds) d e n = denies-append ds d e n
denies-append (deny ∷ ds) d e n = cc
denies-append (indeterminate ∷ ds) d e n = denies-append ds d e n
denies-append (not_applicable ∷ ds) d e n = denies-append ds d e n

-- Of the decisions and obligations so far: a permit stands behind every obligation, and where a
-- deny is final there is none.
pub record IsSound (c : Combination) (ds : List Decision) (os : List ℕ) : Type 0 where
  pub backed : is_empty os ≡ false → permits ds ≡ true
  pub no_deny : c ≡ deny_overrides → denies ds ≡ false

-- Decisions that are clear, not all of them not applicable, and without deny.
clear_permits :
    (ds : List Decision)
    → some_indeterminate ds ≡ false
    → all_not_applicable ds ≡ false
    → denies ds ≡ false
    → permits ds ≡ true
clear_permits [] i n e = cc
clear_permits (permit ∷ ds) i n e = refl
clear_permits (deny ∷ ds) i n e = cc
clear_permits (indeterminate ∷ ds) i n e = cc
clear_permits (not_applicable ∷ ds) i n e = clear_permits ds i n e

pub conclude-permits :
    (c : Combination) (ds : List Decision) (os o : List ℕ)
    → IsSound c ds os
    → conclude c ds os ≡ (permit, o)
    → permits ds ≡ true
unfolding conclude
conclude-permits permit_overrides ds os o s e = ground (arith, s.backed)
conclude-permits deny_overrides ds os o s e = ground (arith, clear_permits ds, s.no_deny refl)

pub push-IsSound :
    (c : Combination) (ds : List Decision) (os : List ℕ) (v : Verdict)
    → IsSound c ds os
    → is_final c v ≡ false
    → IsSound c (ds ++ v.0 ∷ []) (os ++ accepted v)
push-IsSound c ds os (permit, o) s n = record {
  backed = λ _. permits-append_last ds;
  no_deny = λ k. denies-append ds permit (s.no_deny k) (λ e. cc);
}
push-IsSound c ds os (deny, o) s n = record {
  backed = λ b. permits-append_left ds deny (s.backed (sym (ap is_empty (append-nil os)) ∙ b));
  no_deny = λ k. absurd (ground (arith, subst (λ t. is_final t (deny, o) ≡ false) k n));
}
push-IsSound c ds os (indeterminate, o) s n = record {
  backed =
      λ b. permits-append_left ds indeterminate (s.backed (sym (ap is_empty (append-nil os)) ∙ b));
  no_deny = λ k. denies-append ds indeterminate (s.no_deny k) (λ e. cc);
}
push-IsSound c ds os (not_applicable, o) s n = record {
  backed =
      λ b. permits-append_left ds not_applicable (s.backed (sym (ap is_empty (append-nil os)) ∙ b));
  no_deny = λ k. denies-append ds not_applicable (s.no_deny k) (λ e. cc);
}

module _ {A : Type 0} (applied : A → Option Bool) (decide : A → Option Verdict) where
  -- What a loop that returns "permit" shows, with the decisions `ds` behind it.
  abbrev pub Shows : List Decision → List A → Type 0
  Shows ds xs = (permits ds ≡ true) ⊎ Permits applied decide xs

  final_permits :
      (c : Combination) (ds : List Decision) (a : A) (xs : List A) (v : Verdict) (o : List ℕ)
      → applied a ≡ some true
      → decide a ≡ some v
      → ◌≡◌ {A = Option Verdict} (some (v.0, [])) (some (permit, o))
      → Shows ds (a ∷ xs)
  final_permits c ds a xs (permit, q) o b d e = inr (this a xs q b d)
  final_permits c ds a xs (deny, q) o b d e = absurd (ground arith)
  final_permits c ds a xs (indeterminate, q) o b d e = absurd (ground arith)
  final_permits c ds a xs (not_applicable, q) o b d e = absurd (ground arith)

  pushed :
      (ds : List Decision) (a : A) (xs : List A) (v : Verdict)
      → applied a ≡ some true
      → decide a ≡ some v
      → Shows (ds ++ v.0 ∷ []) xs
      → Shows ds (a ∷ xs)
  pushed ds a xs (d, q) b e (inr p) = inr (later a xs p)
  pushed ds a xs (d, q) b e (inl p) = elim (permits-append ds d p) [
    | inl old ↦ inl old
    | inr is ↦ inr (this a xs q b (e ∙ ap (λ t. some (t, q)) is))
  ]

  pub round_permits :
      (c : Combination) (ds : List Decision) (a : A) (xs : List A) (o : List ℕ) (b : Option Bool)
      (verdict skip : Option Verdict) (go_on : Verdict → Option Verdict)
      → applied a ≡ b
      → decide a ≡ verdict
      → (skip ≡ some (permit, o) → Shows ds xs)
      → ((v : Verdict)
          → verdict ≡ some v
          → is_final c v ≡ false
          → go_on v ≡ some (permit, o)
          → Shows (ds ++ v.0 ∷ []) xs)
      → round c b verdict skip go_on ≡ some (permit, o)
      → Shows ds (a ∷ xs)
  round_permits c ds a xs o none verdict skip go_on b d s g e = cc
  round_permits c ds a xs o (some true) none skip go_on b d s g e = cc
  round_permits c ds a xs o (some false) verdict skip go_on b d s g e = elim (s e) [
    | inl old ↦ inl old
    | inr p ↦ inr (later a xs p)
  ]
  round_permits c ds a xs o (some true) (some v) skip go_on b d s g e =
      elim (Bool-cases (is_final c v)) [
        | inl f ↦
            final_permits c ds a xs v o b d
              (subst (λ t. (if t then some (v.0, []) else go_on v) ≡ some (permit, o)) f e)
        | inr n ↦ pushed ds a xs v b d (
            g v refl n
              (subst (λ t. (if t then some (v.0, []) else go_on v) ≡ some (permit, o)) n e))
      ]
