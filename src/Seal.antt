-- ===== src/Seal.antt =====
-- The gas limit of blocks in libaecashseal/Ethash.cpp: childGasLimit, and the check of verify.
pub mod Proof
mod Tests
use cpp_aec.Base.{
  ℕ, ◌+◌, ◌-◌, ◌*◌, ◌/◌, ◌%◌, ◌==◌, ◌||◌, Bool, not, ltb, leb, min, max, if◌then◌else◌,
}
use cpp_aec.Evm.Word.{u256_mod}
use cpp_aec.State.Journal.{invalid256}

-- The parameters of the chain that they read (libaeccore/ChainOperationParams.h).
pub record ChainParams : Type 0 where
  pub min_gas_limit : ℕ
  pub max_gas_limit : ℕ
  pub gas_limit_bound_divisor : ℕ

module _ (chain : ChainParams) where
  abbrev pub bound : ℕ → ℕ
  bound limit = limit / chain.gas_limit_bound_divisor

  abbrev pub floor_of : ℕ → ℕ
  floor_of target = if target == invalid256 then 3141562 else target

  -- childGasLimit, of a parent with the gas limit and the gas used, for a target.
  unfoldable pub child_gas_limit : (gas_limit gas_used target : ℕ) → ℕ
  child_gas_limit gas_limit gas_used target =
      let floor = floor_of target in
      let used = gas_used * 6 % u256_mod / 5 / chain.gas_limit_bound_divisor in
      if ltb gas_limit floor
      then min floor ((gas_limit + bound gas_limit + u256_mod - 1) % u256_mod)
      else max floor ((gas_limit + u256_mod - bound gas_limit + 1 + used) % u256_mod)

  -- The condition under which verify throws InvalidGasLimit.
  unfoldable pub is_invalid_gas_limit : (gas_limit parent_gas_limit : ℕ) → Bool
  is_invalid_gas_limit gas_limit parent =
      ltb gas_limit chain.min_gas_limit
      || ltb chain.max_gas_limit gas_limit
      || leb gas_limit ((parent + u256_mod - bound parent) % u256_mod)
      || leb ((parent + bound parent) % u256_mod) gas_limit
