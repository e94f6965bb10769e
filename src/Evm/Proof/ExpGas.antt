-- ===== src/Evm/Proof/ExpGas.antt =====
-- The price of EXP, which libevm/LegacyVM.cpp computes from FixedHash::firstBitSet.
use native.Mathlib.Nat.{pow-suc, pow-zero}
use cpp_aec.Base.{
  ℕ, zero, suc, ◌+◌, ◌-◌, ◌*◌, ◌/◌, ◌%◌, ◌^◌, ◌<◌, ◌≤◌, ◌≡◌, refl, ap, inl, inr, Bool-cases, ◌==◌,
  leb, leb→le, List, [], ◌∷◌, ◌++◌, append_assoc, append-nil, arith,
}
use cpp_aec.Bytes.{to_big_endian}
use cpp_aec.Evm.Word.{u256_mod, bit_test}
use cpp_aec.Evm.Machine.{ExtVmFace}
use cpp_aec.Evm.Case.Arithmetic.{leading, first_bit_loop, first_bit_set, exp_gas_of}

-- In a byte that is not zero a bit is found within the byte.
leading-bounds :
    (fuel d ret : ℕ)
    → d < 256
    → 256 ≤ d * 2 ^ fuel
    → (ret ≤ leading fuel d ret) × (leading fuel d ret < ret + fuel)
unfolding leading
leading-bounds zero d ret h l =
    absurd (omega (arith, pow-zero 2, ap (λ (t : ℕ). d * t) (pow-zero 2)))
leading-bounds (suc fuel) d ret h l = elim (Bool-cases (bit_test d 7)) [
  | inl e ↦ rw e (omega arith, omega arith)
  | inr e ↦
      let small : d < 128 = ground arith in
      let double : d * 2 % 256 ≡ d * 2 = omega arith in
      let more : 256 ≤ d * 2 * 2 ^ fuel = omega (arith, ap (λ (t : ℕ). d * t) (pow-suc 2 fuel)) in
      let rest = leading-bounds fuel (d * 2) (ret + 1) (omega arith) more in
      rw (e, double) (omega (arith, rest.0), omega (arith, rest.1))
]

-- What reading the `n` bytes of `v`, and then others, gives: `v` is zero and the others are read,
-- or its first bit is found in the byte that stands before `m` others.
data Scan (n v : ℕ) : Type 0 where
  none_found :
      v ≡ 0
      → ((ys : List ℕ) (r : ℕ)
          → first_bit_loop (to_big_endian n v ++ ys) r ≡ first_bit_loop ys (r + 8 * n))
      → Scan n v
  found :
      (m : ℕ)
      → m < n
      → 256 ^ m ≤ v
      → v < 256 ^ suc m
      → ((ys : List ℕ) (r : ℕ)
          → (r + 8 * n ≤ first_bit_loop (to_big_endian n v ++ ys) r + 8 * m + 8)
            × (first_bit_loop (to_big_endian n v ++ ys) r + 8 * m < r + 8 * n))
      → Scan n v

last-Scan :
    (n v : ℕ)
    → v / 256 ≡ 0
    → ((ys : List ℕ) (r : ℕ)
        → first_bit_loop (to_big_endian n (v / 256) ++ ys) r ≡ first_bit_loop ys (r + 8 * n))
    → Scan (suc n) v
unfolding first_bit_loop to_big_endian
last-Scan n v z f = elim (Bool-cases (v % 256 == 0)) [
  | inl q ↦ none_found (ground arith) (λ ys r.
      let t : r + 8 * n + 8 ≡ r + 8 * suc n = omega arith in
      rw (append_assoc (to_big_endian n (v / 256)) (v % 256 ∷ []) ys, f (v % 256 ∷ ys) r, q, t)
        refl)
  | inr q ↦
      let some_bit : 256 ≤ v % 256 * 2 ^ 8 = ground arith in
      found 0 (omega arith) (ground (arith, pow-zero 256))
        (omega (arith, pow-suc 256 0, pow-zero 256))
        (λ ys r.
          let l = leading-bounds 8 (v % 256) (r + 8 * n) (omega arith) some_bit in
          rw (append_assoc (to_big_endian n (v / 256)) (v % 256 ∷ []) ys, f (v % 256 ∷ ys) r, q)
            (omega (arith, l.0), omega (arith, l.1)))
]

more-Scan : (n v : ℕ) → Scan n (v / 256) → Scan (suc n) v
unfolding to_big_endian
more-Scan n v (none_found e f) = last-Scan n v e f
more-Scan n v (found m l a b f) =
    found (suc m) (omega arith) (omega (arith, pow-suc 256 m)) (omega (arith, pow-suc 256 (suc m)))
      (λ ys r.
        rw (append_assoc (to_big_endian n (v / 256)) (v % 256 ∷ []) ys)
          (let g = f (v % 256 ∷ ys) r in (omega (arith, g.0), omega (arith, g.1))))

bytes-Scan : (n v : ℕ) → v < 256 ^ n → Scan n v
unfolding to_big_endian
bytes-Scan zero v h =
    let z : v ≡ 0 = omega (arith, pow-zero 256) in
    none_found z (λ ys r. let e : r + 8 * 0 ≡ r = omega arith in rw e refl)
bytes-Scan (suc n) v h = more-Scan n v (bytes-Scan n (v / 256) (omega (arith, pow-suc 256 n)))

pow_mono : (m j : ℕ) → m ≤ j → 256 ^ m ≤ 256 ^ j
pow_mono m zero h = let e : m ≡ zero = omega arith in rw e (omega arith)
pow_mono m (suc j) h = elim (Bool-cases (leb m j)) [
  | inl e ↦ let i = pow_mono m j (leb→le _ _ e) in omega (arith, i, pow-suc 256 j)
  | inr e ↦ let s : m ≡ suc j = ground arith in rw s (omega arith)
]

module _ {W : Type 0} (ext : ExtVmFace W) where
  -- The price of EXP counts the least number of bytes into which the exponent fits.
  pub record PerByte (expon : ℕ) : Type 0 where
    pub bytes : ℕ
    pub fits : expon < 256 ^ bytes
    pub least : (j : ℕ) → expon < 256 ^ j → bytes ≤ j
    pub price :
        exp_gas_of ext expon ≡ ext.evm_schedule.exp_gas + ext.evm_schedule.exp_byte_gas * bytes

  Scan-PerByte : (expon : ℕ) → Scan 32 expon → PerByte expon
  unfolding exp_gas_of first_bit_set first_bit_loop
  Scan-PerByte expon (none_found z f) =
      let e = f [] 0 in
      record {
        bytes = 0;
        fits = omega (arith, pow-zero 256);
        least = λ j h. omega arith;
        price = rw⁻¹ (append-nil (to_big_endian 32 expon)) (rw e refl);
      }
  Scan-PerByte expon (found m l a b f) =
      let e = f [] 0 in
      let bytes : 32 - first_bit_loop (to_big_endian 32 expon ++ []) 0 / 8 ≡ suc m =
        omega (arith, e.0, e.1) in
      record {
        bytes = suc m;
        fits = b;
        least = λ j h. elim (Bool-cases (leb (suc m) j)) [
          | inl q ↦ leb→le _ _ q
          | inr q ↦ let r = pow_mono j m (ground arith) in absurd (omega arith)
        ];
        price = rw⁻¹ (append-nil (to_big_endian 32 expon)) (rw bytes refl);
      }

  -- The price of EXP, computed from the first bit that is set in the 32 bytes of the exponent, is
  -- the basic price and the price per byte times the least number of bytes into which the exponent
  -- fits, 0 for 0.
  pub exp_gas_of-PerByte : (expon : ℕ) → expon < u256_mod → PerByte expon
  exp_gas_of-PerByte expon h = Scan-PerByte expon (bytes-Scan 32 expon h)
