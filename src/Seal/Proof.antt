-- ===== src/Seal/Proof.antt =====
-- childGasLimit of libaecashseal/Ethash.cpp keeps to the limits that verify asks for.
use native.Mathlib.Nat.{mul-le-mul_left, div-le_self}
use cpp_aec.Base.{
  ℕ, ◌+◌, ◌-◌, ◌*◌, ◌/◌, ◌%◌, ◌≤◌, ◌<◌, ◌≡◌, ◌||◌, false, Bool-cases, inl, inr, ltb, leb, min, max,
  if◌then◌else◌, arith,
}
use cpp_aec.Evm.Word.{u256_mod}
use cpp_aec.Seal.{ChainParams, floor_of, child_gas_limit, is_invalid_gas_limit}

-- The share of the gas used, against that of the limit.
used_bound : (p u d : ℕ) → 1 ≤ d → u ≤ p → 5 * (u * 6 / 5 / d) ≤ 6 * (p / d) + 5
used_bound p u d h k =
    let q = p / d in
    let r = u * 6 / 5 / d in
    elim (Bool-cases (ltb (6 * q + 5) (5 * r))) [
      | inl e ↦
          let m = mul-le-mul_left {m = 6 * q + 6} {n = 5 * r} d (ground arith) in
          absurd (grind arith)
      | inr e ↦ ground arith
    ]

-- The limit of the child, of a parent with limit `p`, bound `b` and share `r`, for the floor `f`.
abbrev child_of : (p b r f : ℕ) → ℕ
child_of p b r f =
    if ltb p f
    then min f ((p + b + u256_mod - 1) % u256_mod)
    else max f ((p + u256_mod - b + 1 + r) % u256_mod)

child_bounds :
    (p b r f : ℕ)
    → 3 ≤ b
    → b ≤ p
    → 5 * r ≤ 6 * b + 5
    → p * 8 < u256_mod
    → (p - b < child_of p b r f) × (child_of p b r f < p + b)
child_bounds p b r f h k l m = elim (Bool-cases (ltb p f)) [
  | inl e ↦ rw e (ground arith)
  | inr e ↦ rw e (ground arith)
]

check_lem :
    (p b c lo hi : ℕ)
    → lo ≤ c
    → c ≤ hi
    → b ≤ p
    → p * 8 < u256_mod
    → (p - b < c) × (c < p + b)
    → (ltb c lo || ltb hi c || leb c ((p + u256_mod - b) % u256_mod) || leb ((p + b) % u256_mod) c)
      ≡ false
check_lem p b c lo hi h k l m n = ground arith

module _ (chain : ChainParams) where
  -- For a bound divisor that is not zero and a parent whose gas limit is below 2 ^ 253 and at
  -- least three times the divisor, and that used no more gas than its limit, what childGasLimit
  -- computes for any target is a gas limit that verify accepts after that parent, if it lies
  -- between the least and the greatest gas limit of the chain.
  pub child_gas_limit_valid :
      (parent used target : ℕ)
      → 1 ≤ chain.gas_limit_bound_divisor
      → parent * 8 < u256_mod
      → used ≤ parent
      → 3 ≤ parent / chain.gas_limit_bound_divisor
      → chain.min_gas_limit ≤ child_gas_limit chain parent used target
      → child_gas_limit chain parent used target ≤ chain.max_gas_limit
      → is_invalid_gas_limit chain (child_gas_limit chain parent used target) parent ≡ false
  unfolding child_gas_limit is_invalid_gas_limit
  child_gas_limit_valid parent used target d w u q lo hi =
      let div = chain.gas_limit_bound_divisor in
      let b = parent / div in
      let l : b ≤ parent = div-le_self parent div in
      let small : used * 6 % u256_mod ≡ used * 6 = omega arith in
      let m : 5 * (used * 6 % u256_mod / 5 / div) ≤ 6 * b + 5 =
        rw small (used_bound parent used div d u) in
      check_lem parent b (child_gas_limit chain parent used target) chain.min_gas_limit
        chain.max_gas_limit lo hi l w
        (child_bounds parent b (used * 6 % u256_mod / 5 / div) (floor_of chain target) q l m w)
