-- ===== src/Evm/Proof/Pool.antt =====
-- The constant pool: PUSHC does what the push did that LegacyVM::optimize replaced by it.
use native.Mathlib.Nat.{mod-eq_of_lt}
use cpp_aec.Base.{
  ℕ, ◌+◌, ◌-◌, ◌*◌, ◌/◌, ◌%◌, ◌^◌, ◌<◌, ◌≡◌, refl, ◌∙◌, lt→ltb, List, [], ◌∷◌, ◌++◌, length, get_or,
  set, length-set, get_or-set_self, get_or-set_other, get_or-middle, arith,
}
use cpp_aec.Evm.Machine.{Vm, Ctl, continue}
use cpp_aec.Evm.Gas.{update_io_gas}
use cpp_aec.Evm.Jumps.{Optimized, use_constant_pool}
use cpp_aec.Evm.Case.Control.{case_pushc}
use cpp_aec.Evm.Proof.Rules.{Ensures}

-- The three bytes behind the PUSHC.
pub record Pooled (o p : Optimized) (pc n val : ℕ) : Type 0 where
  pub high : get_or p.code (pc + 1) 0 ≡ length o.pool / 2 ^ 8
  pub low : get_or p.code (pc + 2) 0 ≡ length o.pool % 2 ^ 8
  pub left : get_or p.code (pc + 3) 0 ≡ n - 2
  pub pool_eq : p.pool ≡ o.pool ++ val ∷ []

use_constant_pool-Pooled :
    (o : Optimized) (pc n val : ℕ)
    → 5 < n
    → length o.pool < 2 ^ 16
    → pc + 3 < length o.code
    → Pooled o (use_constant_pool o pc n val) pc n val
unfolding use_constant_pool
use_constant_pool-Pooled o pc n val h small room =
    let off : length o.pool % 2 ^ 16 ≡ length o.pool = mod-eq_of_lt small in
    let c1 = set o.code pc 0xac in
    let c2 = set c1 (pc + 3) (n - 2) in
    let c3 = set c2 (pc + 2) (length o.pool % 2 ^ 8) in
    let l1 = length-set o.code pc 0xac in
    let l2 = length-set c1 (pc + 3) (n - 2) in
    let l3 = length-set c2 (pc + 2) (length o.pool % 2 ^ 8) in
    rw (lt→ltb 5 n h, off)
      (record {
        high = get_or-set_self c3 (pc + 1) (length o.pool / 2 ^ 8) 0 (ground arith);
        low =
            get_or-set_other c3 (pc + 1) (pc + 2) (length o.pool / 2 ^ 8) 0 (ground arith)
            ∙ get_or-set_self c2 (pc + 2) (length o.pool % 2 ^ 8) 0 (ground arith);
        left =
            get_or-set_other c3 (pc + 1) (pc + 3) (length o.pool / 2 ^ 8) 0 (ground arith)
            ∙ get_or-set_other c2 (pc + 2) (pc + 3) (length o.pool % 2 ^ 8) 0 (ground arith)
            ∙ get_or-set_self c1 (pc + 3) (n - 2) 0 (ground arith);
        pool_eq = refl;
      })

-- What PUSHn with the value `val` would leave.
pub record Pushed {W : Type 0} (s : Vm W) (n val : ℕ) (c : Ctl) (t : Vm W) : Type 0 where
  pub word : get_or t.stack s.spp 0 ≡ val
  pub pc : t.pc ≡ s.pc + 1 + n
  pub goes_on : c ≡ continue

module _ {W : Type 0} where
  -- Where optimize has replaced a push of n > 5 bytes, with fewer than 65536 constants in the pool
  -- before it and whatever constants after it, PUSHC either throws for want of gas or leaves the
  -- value of the push in the slot and the program counter behind the bytes of the push.
  pub case_pushc-Pushed :
      (o : Optimized) (n val : ℕ) (later : List ℕ) (s : Vm W)
      → 5 < n
      → length o.pool < 2 ^ 16
      → s.pc + 3 < length o.code
      → s.spp < length s.stack
      → s.code ≡ (use_constant_pool o s.pc n val).code
      → s.pool ≡ (use_constant_pool o s.pc n val).pool ++ later
      → Ensures (λ c t. Pushed s n val c t) (λ t. s.io_gas < s.run_gas) (case_pushc s)
  unfolding case_pushc update_io_gas
  case_pushc-Pushed o n val later s h small room slot code pool =
      let p = use_constant_pool-Pooled o s.pc n val h small room in
      let off : get_or s.code (s.pc + 1) 0 * 2 ^ 8 + get_or s.code (s.pc + 2) 0 ≡ length o.pool =
        rw (code, p.high, p.low) (omega arith) in
      let skip : get_or s.code (s.pc + 3) 0 ≡ n - 2 = rw (code, p.left) refl in
      let word : get_or s.pool (length o.pool) 0 ≡ val =
        rw (pool, p.pool_eq) (get_or-middle o.pool val later 0) in
      let v = get_or s.pool (get_or s.code (s.pc + 1) 0 * 2 ^ 8 + get_or s.code (s.pc + 2) 0) 0 in
      let same : v ≡ val = rw off word in
      let self = get_or-set_self s.stack s.spp v 0 slot in record { after = ground arith }
