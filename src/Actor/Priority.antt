-- ===== src/Actor/Priority.antt =====
-- The actor's actions: which one fires, and what it reads and writes.
use calvin_base.Base.{
  ◌≡◌, refl, sym, ◌∙◌, inl, inr, Bool, true, false, not, ◌&&◌, List, [], ◌∷◌, ◌++◌, length, ◌==◌,
  if◌then◌else◌, Bool-cases, exception, done, return, require, arith,
}
use calvin_base.Base.{>>=_parts, >>=_done, >>=_raised, Outcome-cases}
use calvin_base.Actor.Firing.{
  Ports, Action, Fired, all_available, read_all, write_all, condition_wrapper, guard_wrapper,
  perform, nothing_yet, fire_from, fire,
}

module _ {W : Type 0} (ports : Ports W) where
  -- Whether an action can fire.
  unfoldable pub can_fire : Action W → W → Bool
  can_fire action w =
      action.guard w
      && (all_available ports ports.tokens_available action.inputs w
          && all_available ports ports.slots_available action.outputs w)

  unfoldable pub none_can_fire : List (Action W) → W → Bool
  none_can_fire [] w = true
  none_can_fire (action ∷ actions) w = not (can_fire action w) && none_can_fire actions w

  ok : Action W → W → Bool
  ok action w =
      all_available ports ports.tokens_available action.inputs w
      && all_available ports ports.slots_available action.outputs w

  -- An action that cannot fire has no effect, and reports no port.
  guard_wrapper_idle :
      (action : Action W) (w : W)
      → can_fire action w ≡ false
      → (f : Fired) × (guard_wrapper ports action w ≡ done f w)
        × (f.did_fire ≡ false)
        × (f.exhausted ≡ [])
  unfolding guard_wrapper condition_wrapper can_fire ok
  guard_wrapper_idle action w h = elim (Bool-cases (action.guard w)) [
    | inl e ↦
        let k : ok action w ≡ false = ground (arith, h, e) in
        (
          record {
            did_fire = false;
            output_ok = all_available ports ports.slots_available action.outputs w;
            exhausted = [];
          },
          rw (e, k) refl,
          refl,
          refl,
        )
    | inr e ↦ (record { did_fire = false; output_ok = true; exhausted = [] }, rw e refl, refl, refl)
  ]

  guard_wrapper_fires :
      (action : Action W) (w : W)
      → can_fire action w ≡ true
      → guard_wrapper ports action w ≡ perform ports action w
  unfolding guard_wrapper condition_wrapper can_fire ok
  guard_wrapper_fires action w h =
      let e : action.guard w ≡ true = ground (arith, h) in
      let k : ok action w ≡ true = ground (arith, h) in rw (e, k) refl

  pub perform_did :
      (action : Action W) (w v : W) (f : Fired)
      → perform ports action w ≡ done f v
      → f.did_fire ≡ true
  unfolding perform
  perform_did action w v f e =
      let (tokens, w1, e1, f1) = >>=_parts (read_all ports action.inputs) _ w e in
      let (production, w2, e2, f2) = >>=_parts (action.method tokens.0) _ w1 f1 in
      let (u, w3, e3, f3) =
        >>=_parts (require (length action.outputs == length production) exception) _ w2 f2 in
      let (x, w4, e4, f4) = >>=_parts (write_all ports action.outputs production) _ w3 f3 in
      ground (arith, f4)

  pub first_step :
      (action : Action W) (actions : List (Action W)) (last : Fired) (w : W)
      → can_fire action w ≡ true
      → fire_from ports last (action ∷ actions) w ≡ perform ports action w
  unfolding fire_from
  first_step action actions last w h =
      let e = guard_wrapper_fires action w h in
      elim (Outcome-cases (perform ports action w)) [
        | inl (f, v, k) ↦
            >>=_done (guard_wrapper ports action)
              (λ (fired : Fired).
                if fired.did_fire then return fired else fire_from ports fired actions)
              w (e ∙ k)
            ∙ (rw (perform_did action w v f k) refl ∙ sym k)
        | inr (x, v, k) ↦
            >>=_raised (guard_wrapper ports action)
              (λ (fired : Fired).
                if fired.did_fire then return fired else fire_from ports fired actions)
              w (e ∙ k)
            ∙ sym k
      ]

  pub idle_step :
      (action : Action W) (actions : List (Action W)) (last : Fired) (w : W)
      → can_fire action w ≡ false
      → (f : Fired) × (fire_from ports last (action ∷ actions) w ≡ fire_from ports f actions w)
        × (f.did_fire ≡ false)
        × (f.exhausted ≡ [])
  unfolding fire_from
  idle_step action actions last w h =
      let (f, e, idle, none_exhausted) = guard_wrapper_idle action w h in
      (
        f,
        >>=_done (guard_wrapper ports action)
              (λ (fired : Fired).
                if fired.did_fire then return fired else fire_from ports fired actions)
              w e
            ∙ rw idle refl,
        idle,
        none_exhausted,
      )

  fire_from-first :
      (front back : List (Action W)) (action : Action W) (last : Fired) (w : W)
      → none_can_fire front w ≡ true
      → can_fire action w ≡ true
      → fire_from ports last (front ++ action ∷ back) w ≡ perform ports action w
  unfolding none_can_fire
  fire_from-first [] back action last w n h = first_step action back last w h
  fire_from-first (x ∷ front) back action last w n h =
      let (f, e, idle, none_exhausted) =
        idle_step x (front ++ action ∷ back) last w (ground arith) in
      e ∙ fire_from-first front back action f w (ground arith) h

  fire_from-idle :
      (actions : List (Action W)) (last : Fired) (w : W)
      → none_can_fire actions w ≡ true
      → last.did_fire ≡ false
      → last.exhausted ≡ []
      → (f : Fired) × (fire_from ports last actions w ≡ done f w)
        × (f.did_fire ≡ false)
        × (f.exhausted ≡ [])
  unfolding none_can_fire fire_from
  fire_from-idle [] last w n idle none_exhausted = (last, refl, idle, none_exhausted)
  fire_from-idle (x ∷ actions) last w n idle none_exhausted =
      let (f, e, f_no, f_none) = idle_step x actions last w (ground arith) in
      let (g, k, g_no, g_none) = fire_from-idle actions f w (ground arith) f_no f_none in
      (g, e ∙ k, g_no, g_none)

  -- `fire` runs the first action that can fire, in the order of priority, and no other; where it
  -- raises, `fire` does.
  pub fire-first :
      (front back : List (Action W)) (action : Action W) (w : W)
      → none_can_fire front w ≡ true
      → can_fire action w ≡ true
      → fire ports (front ++ action ∷ back) w ≡ perform ports action w
  unfolding fire
  fire-first [] back action w n h = fire_from-first [] back action nothing_yet w n h
  fire-first (x ∷ front) back action w n h =
      fire_from-first (x ∷ front) back action nothing_yet w n h

  -- Where no action can fire, `fire` changes nothing, and it reports no exhausted port to the
  -- scheduler, whichever ports earlier rounds exhausted.
  pub fire-idle :
      (action : Action W) (actions : List (Action W)) (w : W)
      → none_can_fire (action ∷ actions) w ≡ true
      → (f : Fired) × (fire ports (action ∷ actions) w ≡ done f w)
        × (f.did_fire ≡ false)
        × (f.exhausted ≡ [])
  unfolding fire
  fire-idle action actions w n = fire_from-idle (action ∷ actions) nothing_yet w n refl refl
