-- ===== src/Evm/Proof/Worlds.antt =====
-- Postconditions of the member functions of LegacyVM on the accounts alone.
use cpp_aec.Base.{ℕ, sym, subst, Bool, false, List}
use cpp_aec.Evm.Machine.{
  ExtVmFace, CallParameters, Vm, M, Ctl, next, continue, break, Fault, ◌>>=◌, ◌>>◌, get, modify,
  pure, throw_if, branch,
}
use cpp_aec.Evm.Gas.{set_run_gas, mem_need, to_int63, update_io_gas}
use cpp_aec.Evm.Case.Control.{step_pc}
use cpp_aec.Evm.Interpreter.{after_case}
use cpp_aec.Evm.Proof.Rules.{Ensures, Ensures-bind, Ensures-mono, Ensures-branch, Ensures-throw_if}
use cpp_aec.Evm.Proof.Static.{Keeps, Keeps-to_int63, Keeps-update_io_gas}

-- Every change of the accounts, and every call of another frame, preserves P.
pub record Maintains {W : Type 0} (P : W → Type 0) (ext : ExtVmFace W) : Type 0 where
  pub set_store : (w : W) (n v : ℕ) → P w → P (ext.set_store w n v)
  pub suicide : (w : W) (a : ℕ) → P w → P (ext.suicide w a)
  pub log : (w : W) (topics bytes : List ℕ) → P w → P (ext.log w topics bytes)
  pub create :
      (w : W) (endowment gas : ℕ) (code : List ℕ) (op salt : ℕ)
      → P w
      → P (ext.create w endowment gas code op salt).world
  pub call : (w : W) (p : CallParameters) → P w → P (ext.call w p).world

-- If P holds of the accounts before, it does after, whether the function returns or throws.
pub record Holds {W A : Type 0} (P : W → Type 0) (m : M W A) : Type 0 where
  pub at : (s : Vm W) → P s.world → Ensures (λ _ t. P t.world) (λ t. P t.world) (m s)

module _ {W A B : Type 0} {P : W → Type 0} where
  pub Holds-bind :
      (m : M W A) (f : A → M W B) → Holds P m → ((a : A) → Holds P (f a)) → Holds P (m >>= f)
  Holds-bind m f h k = record { at = λ s p. Ensures-bind m f s (h.at s p) (λ a t q. (k a).at t q) }

module _ {W A : Type 0} {P : W → Type 0} where
  pub Keeps-Holds : {c2 : Bool} (m : M W A) → Keeps c2 m → Holds P m
  Keeps-Holds m h = record {
    at = λ s p.
        Ensures-mono (m s) (h.at s) (λ _ t e. subst P (sym e.world_eq) p)
          (λ t e. subst P (sym e) p);
  }

  pub Holds-get : (f : Vm W → M W A) → ((s : Vm W) → Holds P (f s)) → Holds P (get >>= f)
  Holds-get f h = record { at = λ s p. (h s).at s p }

  pub Holds-throw_if : (b : Bool) (e : Fault) (m : M W A) → Holds P m → Holds P (throw_if b e >> m)
  Holds-throw_if b e m h = record { at = λ s p. Ensures-throw_if b e (λ _. m) s p (h.at s p) }

  pub Holds-branch : (b : Bool) (m n : M W A) → Holds P m → Holds P n → Holds P (branch b m n)
  Holds-branch b m n h k = record {
    at = λ s p. Ensures-branch b m n s (λ _. h.at s p) (λ _. k.at s p);
  }

  pub Holds-pure : (a : A) → Holds P (pure a)
  Holds-pure a = record { at = λ s p. record { after = p } }

module _ {W : Type 0} {P : W → Type 0} where
  pub Holds-modify :
      (f : Vm W → Vm W) → ((s : Vm W) → P s.world → P (f s).world) → Holds P (modify f)
  Holds-modify f h = record { at = λ s p. record { after = h s p } }

  pub Holds-to_int63 : (v : ℕ) → Holds P (to_int63 v)
  Holds-to_int63 v = Keeps-Holds {c2 = false} _ (Keeps-to_int63 v)

  pub Holds-set_run_gas : (g : ℕ) → Holds P (set_run_gas g)
  Holds-set_run_gas g = Holds-modify _ (λ s p. p)

  pub Holds-update_io_gas : Holds P update_io_gas
  Holds-update_io_gas = Keeps-Holds {c2 = false} _ Keeps-update_io_gas

  pub Holds-mem_need : (offset size : ℕ) → Holds P (mem_need offset size)
  unfolding mem_need
  Holds-mem_need offset size = Holds-to_int63 _

  pub Holds-step_pc : Holds P step_pc
  Holds-step_pc = Holds-modify _ (λ s p. p)

  pub Holds-after_case : (c : Ctl) → Holds P (after_case c)
  Holds-after_case next = Holds-step_pc
  Holds-after_case continue = Holds-pure tt
  Holds-after_case break = Holds-pure tt
