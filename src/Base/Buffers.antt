-- ===== src/Base/Buffers.antt =====
-- A ring buffer that holds the end of the sequence of all values that were ever written to it.
use Prim.Native.Nat.{ℕ, ◌+◌, ◌%◌, ◌≤◌, ◌<◌}
use mathlib.Core.Path.{◌≡◌, refl, sym, ap, ◌∙◌}
use mathlib.Core.List.{List, [], ◌∷◌, ◌++◌}
use mathlib.Core.Option.{some}
use native.Mathlib.Omega.{arith}
use native.Mathlib.Decide.{ℕ_discrete}
use calvin_base.Base.Lists.{
  length, get_elem?, set, replicate, length-append, length-replicate, length-set,
  get_elem?-set_self, get_elem?-set_ne, get_elem?-append_left, get_elem?-append_last, get_elem?-lt,
}
use calvin_base.Base.Rings.{mod_ne, mod_lt}

module _ {ℓ} {A : Type ℓ} where
  pub record Stores (log buffer : List A) (w size : ℕ) : Type ℓ where
    pub positive : 0 < size
    pub sized : length buffer ≡ size
    pub written : length log ≡ w
    pub stored : (i : ℕ) → i < w → w ≤ i + size → get_elem? buffer (i % size) ≡ get_elem? log i

  pub replicate-Stores : (n : ℕ) (a : A) → Stores [] (replicate (n + 1) a) 0 (n + 1)
  replicate-Stores n a = record {
    positive = omega arith;
    sized = length-replicate _ _;
    written = refl;
    stored = λ i h k. absurd (omega arith);
  }

  -- The buffer after a write, whichever position is read.
  stored-set :
      (log buffer : List A) (w size : ℕ) (a : A) (i : ℕ)
      → Stores log buffer w size
      → i < w + 1
      → w + 1 ≤ i + size
      → get_elem? (set buffer (w % size) a) (i % size) ≡ get_elem? (log ++ a ∷ []) i
  stored-set log buffer w size a i r h k = elim (ℕ_discrete i w) [
    | yes e ↦ rw e (
        get_elem?-set_self buffer (w % size) a (omega (arith, r.sized, mod_lt w size r.positive))
        ∙ sym (ap (get_elem? (log ++ a ∷ [])) (sym r.written) ∙ get_elem?-append_last log a))
    | no n ↦
        get_elem?-set_ne buffer (w % size) (i % size) a
          (λ e. mod_ne i w size (omega arith) (omega arith) (sym e))
        ∙ r.stored i (omega arith) (omega arith)
        ∙ sym (get_elem?-append_left log (a ∷ []) i (omega (arith, r.written)))
  ]

  pub set-Stores :
      (log buffer : List A) (w size : ℕ) (a : A)
      → Stores log buffer w size
      → Stores (log ++ a ∷ []) (set buffer (w % size) a) (w + 1) size
  set-Stores log buffer w size a r = record {
    positive = r.positive;
    sized = length-set buffer (w % size) a ∙ r.sized;
    written = omega (arith, length-append log (a ∷ []), r.written);
    stored = λ i h k. stored-set log buffer w size a i r h k;
  }

  -- Every slot exists.
  pub slot-some :
      (log buffer : List A) (w size i : ℕ)
      → Stores log buffer w size
      → (a : A) × (get_elem? buffer (i % size) ≡ some a)
  slot-some log buffer w size i r =
      get_elem?-lt buffer (i % size) (omega (arith, r.sized, mod_lt i size r.positive))

  -- A position that is less than a buffer behind is still there.
  pub stored-some :
      (log buffer : List A) (w size i : ℕ)
      → Stores log buffer w size
      → i < w
      → w ≤ i + size
      → (a : A) × (get_elem? log i ≡ some a) × (get_elem? buffer (i % size) ≡ some a)
  stored-some log buffer w size i r h k =
      let (a, e) = get_elem?-lt log i (omega (arith, r.written)) in (a, e, r.stored i h k ∙ e)
