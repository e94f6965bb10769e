-- ===== src/Evm/Proof/Rules.antt =====
-- Postconditions of the member functions of LegacyVM, which return or throw.
use cpp_aec.Base.{ℕ, ◌≤◌, ◌≡◌, refl, Bool, true, false, Bool-cases, ltb, arith, inl, inr}
use cpp_aec.Evm.Machine.{Vm, Outcome, ok, throw, M, on_ok, ◌>>=◌, branch, Fault, throw_if}
use cpp_aec.Evm.Gas.{int63_max, to_int63}

-- `Q` holds of what is returned, `E` of the state in which an exception leaves the function.
abbrev pub After : {W A : Type 0} → (A → Vm W → Type 0) → (Vm W → Type 0) → Outcome W A → Type 0
After Q E (ok a t) = Q a t
After Q E (throw e t) = E t

pub record Ensures {W A : Type 0} (Q : A → Vm W → Type 0) (E : Vm W → Type 0) (o : Outcome W A)
    : Type 0 where
  pub after : After Q E o

module _ {W A B : Type 0} where
  on_ok-After :
      {Q : B → Vm W → Type 0} {P : A → Vm W → Type 0} {E : Vm W → Type 0} (o : Outcome W A)
      (f : A → M W B)
      → After P E o
      → ((a : A) (t : Vm W) → P a t → Ensures Q E (f a t))
      → Ensures Q E (on_ok o f)
  on_ok-After (ok a t) f h k = k a t h
  on_ok-After (throw e t) f h k = record { after = h }

  -- What follows is proved from what the first call leaves.
  pub Ensures-bind :
      {Q : B → Vm W → Type 0} {P : A → Vm W → Type 0} {E : Vm W → Type 0} (m : M W A)
      (f : A → M W B) (s : Vm W)
      → Ensures P E (m s)
      → ((a : A) (t : Vm W) → P a t → Ensures Q E (f a t))
      → Ensures Q E ((m >>= f) s)
  Ensures-bind m f s h k = on_ok-After (m s) f h.after k

module _ {W A : Type 0} where
  weaken-After :
      {P Q : A → Vm W → Type 0} {F E : Vm W → Type 0} (o : Outcome W A)
      → After P F o
      → ((a : A) (t : Vm W) → P a t → Q a t)
      → ((t : Vm W) → F t → E t)
      → Ensures Q E o
  weaken-After (ok a t) h pq fe = record { after = pq a t h }
  weaken-After (throw e t) h pq fe = record { after = fe t h }

  pub Ensures-mono :
      {P Q : A → Vm W → Type 0} {F E : Vm W → Type 0} (o : Outcome W A)
      → Ensures P F o
      → ((a : A) (t : Vm W) → P a t → Q a t)
      → ((t : Vm W) → F t → E t)
      → Ensures Q E o
  Ensures-mono o h pq fe = weaken-After o h.after pq fe

  pub Ensures-branch :
      {Q : A → Vm W → Type 0} {E : Vm W → Type 0} (b : Bool) (m n : M W A) (s : Vm W)
      → (b ≡ true → Ensures Q E (m s))
      → (b ≡ false → Ensures Q E (n s))
      → Ensures Q E (branch b m n s)
  Ensures-branch true m n s h k = h refl
  Ensures-branch false m n s h k = k refl

module _ {W B : Type 0} where
  pub Ensures-to_int63 :
      {Q : B → Vm W → Type 0} {E : Vm W → Type 0} (v : ℕ) (f : ℕ → M W B) (s : Vm W)
      → E s
      → (v ≤ int63_max → Ensures Q E (f v s))
      → Ensures Q E ((to_int63 v >>= f) s)
  unfolding to_int63
  Ensures-to_int63 v f s e k = elim (Bool-cases (ltb int63_max v)) [
    | inl h ↦ rw h (record { after = e })
    | inr h ↦ rw h (k (ground arith))
  ]

module _ {W A B : Type 0} where
  -- The same where an exception of the first call leaves less than is asked for.
  pub Ensures-follow :
      {Q : B → Vm W → Type 0} {P : A → Vm W → Type 0} {F E : Vm W → Type 0} (m : M W A)
      (f : A → M W B) (s : Vm W)
      → Ensures P F (m s)
      → ((t : Vm W) → F t → E t)
      → ((a : A) (t : Vm W) → P a t → Ensures Q E (f a t))
      → Ensures Q E ((m >>= f) s)
  Ensures-follow m f s h fe k = Ensures-bind m f s (Ensures-mono (m s) h (λ _ _ p. p) fe) k

module _ {W B : Type 0} where
  pub Ensures-throw_if :
      {Q : B → Vm W → Type 0} {E : Vm W → Type 0} (b : Bool) (e : Fault) (f : Unit {0} → M W B)
      (s : Vm W)
      → E s
      → Ensures Q E (f tt s)
      → Ensures Q E ((throw_if b e >>= f) s)
  Ensures-throw_if true e f s h k = record { after = h }
  Ensures-throw_if false e f s h k = k
