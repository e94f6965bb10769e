-- ===== src/Evm/Word/Bits.antt =====
-- Laws of `bit_and` and `bit_or` at the masks that the word operations use.
use Prim.Native.Nat.{digits, bit_and-bitwise, bit_or-bitwise}
use native.Mathlib.Nat.{
  pow-suc, div-div-eq-div-mul, div-add-mod', one-le-pow, mul_comm, mul-one, div-one, mod-one,
}
use cpp_aec.Base.{
  ℕ, zero, suc, ◌+◌, ◌-◌, ◌*◌, ◌/◌, ◌%◌, ◌^◌, ◌<◌, ◌≤◌, min, max, bit_and, bit_or, ◌≡◌, refl, sym,
  ap, arith,
}

module _ (edge : ℕ → ℕ) (digit : ℕ → ℕ → ℕ) where
  -- Any two amounts of fuel that cover the first number read the same digits.
  digits-same : (x y m n : ℕ) → x ≤ m → x ≤ n → digits edge digit m x y ≡ digits edge digit n x y
  digits-same zero y zero zero hm hn = refl
  digits-same zero y zero (suc n) hm hn = refl
  digits-same zero y (suc m) zero hm hn = refl
  digits-same zero y (suc m) (suc n) hm hn = refl
  digits-same (suc x) y zero n hm hn = absurd (omega arith)
  digits-same (suc x) y (suc m) zero hm hn = absurd (omega arith)
  digits-same (suc x) y (suc m) (suc n) hm hn =
      let half = digits-same (suc x / 2) (y / 2) m n (omega arith) (omega arith) in
      ap (λ (t : ℕ). t * 2 + digit (suc x % 2) (y % 2)) half

  -- The digits of a number that is not zero are the last one and those of the half.
  digits-suc :
      (x y : ℕ)
      → digits edge digit (suc x) (suc x) y
        ≡ digits edge digit (suc x / 2) (suc x / 2) (y / 2) * 2 + digit (suc x % 2) (y % 2)
  digits-suc x y =
      ap (λ (t : ℕ). t * 2 + digit (suc x % 2) (y % 2))
        (digits-same (suc x / 2) (y / 2) x (suc x / 2) (omega arith) (omega arith))

bit_and_step : (a b : ℕ) → bit_and a b ≡ bit_and (a / 2) (b / 2) * 2 + min (a % 2) (b % 2)
bit_and_step zero b = rw (bit_and-bitwise, bit_and-bitwise 0 (b / 2)) (omega arith)
bit_and_step (suc x) b =
    rw (bit_and-bitwise (suc x) b, bit_and-bitwise (suc x / 2) (b / 2))
      (digits-suc (λ _. zero) min x b)

bit_or_step : (a b : ℕ) → bit_or a b ≡ bit_or (a / 2) (b / 2) * 2 + max (a % 2) (b % 2)
bit_or_step zero b = rw (bit_or-bitwise 0 b, bit_or-bitwise 0 (b / 2)) (omega arith)
bit_or_step (suc x) b =
    rw (bit_or-bitwise (suc x) b, bit_or-bitwise (suc x / 2) (b / 2)) (digits-suc (λ y. y) max x b)

pub zero-bit_or : (b : ℕ) → bit_or 0 b ≡ b
zero-bit_or b = bit_or-bitwise 0 b

-- Induction by halves, where `n` is at least the number.
halving : (P : ℕ → Type 0) → P 0 → ((x : ℕ) → P (suc x / 2) → P (suc x)) → (n x : ℕ) → x ≤ n → P x
halving P base step n zero h = base
halving P base step zero (suc x) h = absurd (omega arith)
halving P base step (suc n) (suc x) h = step x (halving P base step n (suc x / 2) (omega arith))

bit_and-zero : (x : ℕ) → bit_and x 0 ≡ 0
bit_and-zero x =
    halving (λ t. bit_and t 0 ≡ 0) (bit_and-bitwise 0 0)
      (λ t half. omega (arith, bit_and_step (suc t) 0)) x x (omega arith)

bit_or-zero : (x : ℕ) → bit_or x 0 ≡ x
bit_or-zero x =
    halving (λ t. bit_or t 0 ≡ t) (bit_or-bitwise 0 0)
      (λ t half. omega (arith, bit_or_step (suc t) 0)) x x (omega arith)

pub pow_pos : (k : ℕ) → 1 ≤ 2 ^ k
pow_pos k = one-le-pow k 2 (omega arith)

ones_odd : (k : ℕ) → 2 ^ suc k - 1 ≡ (2 ^ k - 1) * 2 + 1
ones_odd k = omega (arith, pow-suc 2 k, pow_pos k)

shifted_even : (q k : ℕ) → q * 2 ^ suc k ≡ q * 2 ^ k * 2
shifted_even q k = omega (arith, ap (λ (t : ℕ). q * t) (pow-suc 2 k))

pub div_split : (x k : ℕ) → x / 2 ^ suc k ≡ x / 2 / 2 ^ k
div_split x k = rw (pow-suc, mul_comm, div-div-eq-div-mul)

-- The low `k + 1` bits are those of the half and the last one.
mod_split : (x k : ℕ) → x % 2 ^ suc k ≡ x / 2 % 2 ^ k * 2 + x % 2
mod_split x k = rw pow-suc (
    omega (
      arith,
      div-add-mod' x 2,
      div-add-mod' x (2 ^ k * 2),
      div-add-mod' (x / 2) (2 ^ k),
      div_split x k,
      pow-suc 2 k,
      ap (λ (t : ℕ). x / 2 ^ suc k * t) (pow-suc 2 k),
      ap (λ (t : ℕ). x / t * (2 ^ k * 2)) (pow-suc 2 k),
      ap (λ (t : ℕ). t * (2 ^ k * 2)) (div_split x k),
    ))

halve : (t : ℕ) → t * 2 / 2 ≡ t
halve t = omega arith

halve_odd : (t : ℕ) → (t * 2 + 1) / 2 ≡ t
halve_odd t = omega arith

bit_or_even : (x t : ℕ) → bit_or x (t * 2) ≡ bit_or (x / 2) t * 2 + x % 2
bit_or_even x t = omega (arith, bit_or_step x (t * 2), ap (bit_or (x / 2)) (halve t))

bit_or_odd : (x t : ℕ) → bit_or x (t * 2 + 1) ≡ bit_or (x / 2) t * 2 + 1
bit_or_odd x t = omega (arith, bit_or_step x (t * 2 + 1), ap (bit_or (x / 2)) (halve_odd t))

bit_and_odd : (x t : ℕ) → bit_and x (t * 2 + 1) ≡ bit_and (x / 2) t * 2 + x % 2
bit_and_odd x t = omega (arith, bit_and_step x (t * 2 + 1), ap (bit_and (x / 2)) (halve_odd t))

pub bit_or-shifted : (k x q : ℕ) → bit_or x (q * 2 ^ k) ≡ bit_or (x / 2 ^ k) q * 2 ^ k + x % 2 ^ k
bit_or-shifted zero x q =
    omega (arith, ap (bit_or x) (mul-one q), ap (λ (t : ℕ). bit_or t q) (div-one x), mod-one x)
bit_or-shifted (suc k) x q =
    rw (shifted_even q k, bit_or_even, bit_or-shifted k (x / 2) q, mod_split x k, div_split x k)
      (omega (arith, pow-suc 2 k, ap (λ (t : ℕ). bit_or (x / 2 / 2 ^ k) q * t) (pow-suc 2 k)))

-- A mask of ones keeps the low bits.
pub bit_and_mask : (k x : ℕ) → bit_and x (2 ^ k - 1) ≡ x % 2 ^ k
bit_and_mask zero x = omega (arith, bit_and-zero x)
bit_and_mask (suc k) x = rw (ones_odd k, bit_and_odd, bit_and_mask k (x / 2)) (sym (mod_split x k))

-- Ones absorb whatever lies under them.
pub bit_or_ones : (n y : ℕ) → y < 2 ^ n → bit_or y (2 ^ n - 1) ≡ 2 ^ n - 1
bit_or_ones zero y h = omega (arith, bit_or-zero y)
bit_or_ones (suc n) y h =
    rw (ones_odd n, bit_or_odd, bit_or_ones n (y / 2) (omega (arith, pow-suc 2 n)))
