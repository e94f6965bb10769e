-- ===== src/Evm/Word/Power.antt =====
-- LegacyVM::exp256 of libevm/LegacyVMOpt.cpp: square and multiply against the power itself.
use mathlib.Core.Logic.{dif_pos, dif_neg}
use mathlib.Core.WellFounded.{Acc}
use native.Mathlib.Bridge.{le_prop}
use native.Mathlib.Nat.{
  pow-suc, pow-zero, add-mul-mod_self_right, div-add-mod', mod-eq_of_lt, mul_assoc, mul_comm,
  mul-one, one-mul, zero-mul, mod-lt,
}
use cpp_aec.Base.{
  ℕ, zero, suc, ◌*◌, ◌/◌, ◌%◌, ◌^◌, ◌<◌, bit_and, ◌≡◌, sym, ap, ◌∙◌, inl, inr, arith, ◌==◌, dec_lt,
  Bool-cases, ==_iff,
}
use cpp_aec.Base.Order.{lt_wf}
use cpp_aec.Evm.Word.{u256_mod, u64_mod, exp_loop, exp256}
use cpp_aec.Evm.Word.Bits.{bit_and_mask}

mod-mul_left : (a c m : ℕ) → a % m * c % m ≡ a * c % m
mod-mul_left a c m =
    sym (add-mul-mod_self_right (a % m * c) (a / m * c) m)
    ∙ ap (λ (t : ℕ). t % m) (omega (arith, ap (λ (t : ℕ). t * c) (div-add-mod' a m)))

mod-mul_right : (a c m : ℕ) → a * (c % m) % m ≡ a * c % m
mod-mul_right a c m = rw (mul_comm a (c % m), mul_comm a c) (mod-mul_left c a m)

mod-pow : (a k m : ℕ) → (a % m) ^ k % m ≡ a ^ k % m
mod-pow a zero m = rw (pow-zero, pow-zero)
mod-pow a (suc k) m =
    rw (pow-suc, pow-suc)
      (mod-mul_right ((a % m) ^ k) a m
        ∙ sym (mod-mul_left ((a % m) ^ k) a m)
        ∙ ap (λ (t : ℕ). t * a % m) (mod-pow a k m)
        ∙ mod-mul_left (a ^ k) a m)

square-pow : (b k : ℕ) → (b * b) ^ k ≡ b ^ (k * 2)
square-pow b zero = rw (pow-zero, zero-mul, pow-zero)
square-pow b (suc k) =
    pow-suc (b * b) k
    ∙ ap (λ (t : ℕ). t * (b * b)) (square-pow b k)
    ∙ sym (mul_assoc (b ^ (k * 2)) b b)
    ∙ ap (λ (t : ℕ). t * b) (sym (pow-suc b (k * 2)))
    ∙ sym (pow-suc b (suc (k * 2)))
    ∙ ap (λ (t : ℕ). b ^ t) (omega arith)

reduce_square : (r b k m : ℕ) → r * (b * b % m) ^ k % m ≡ r * b ^ (k * 2) % m
reduce_square r b k m =
    sym (mod-mul_right r ((b * b % m) ^ k) m)
    ∙ ap (λ (t : ℕ). r * t % m) (mod-pow (b * b) k m)
    ∙ mod-mul_right r ((b * b) ^ k) m
    ∙ ap (λ (t : ℕ). r * t % m) (square-pow b k)

-- One round keeps the product of the result and the power that is left.
round_even : (r b e m : ℕ) → e % 2 ≡ 0 → r * (b * b % m) ^ (e / 2) % m ≡ r * b ^ e % m
round_even r b e m h = reduce_square r b (e / 2) m ∙ ap (λ (t : ℕ). r * b ^ t % m) (omega arith)

odd_power : (b e : ℕ) → e % 2 ≡ 1 → b * b ^ (e / 2 * 2) ≡ b ^ e
odd_power b e h =
    mul_comm b (b ^ (e / 2 * 2)) ∙ sym (pow-suc b (e / 2 * 2)) ∙ ap (λ (t : ℕ). b ^ t) (omega arith)

round_odd : (r b e m : ℕ) → e % 2 ≡ 1 → r * b % m * (b * b % m) ^ (e / 2) % m ≡ r * b ^ e % m
round_odd r b e m h =
    reduce_square (r * b % m) b (e / 2) m
    ∙ mod-mul_left (r * b) (b ^ (e / 2 * 2)) m
    ∙ ap (λ (t : ℕ). t % m) (omega (arith, ap (λ (t : ℕ). r * t) (odd_power b e h)))

no_power : (r b e : ℕ) → ¬ (0 < e) → r * b ^ e ≡ r
no_power r b zero h = rw (pow-zero, mul-one)
no_power r b (suc e) h = absurd (h (omega arith))

low_bit : (e : ℕ) → bit_and (e % u64_mod) 1 ≡ e % 2
low_bit e = bit_and_mask 1 (e % u64_mod) ∙ omega arith

exp_loop-pow : (r b e : ℕ) (w : Acc ◌<◌ e) → r < u256_mod → exp_loop r b e w ≡ r * b ^ e % u256_mod
unfolding exp_loop
exp_loop-pow r b e (Acc.intro _ smaller) h =
    let rest = λ (s : ℕ) (fits : s < u256_mod) (q : e / 2 < e).
      exp_loop-pow s (b * b % u256_mod) (e / 2) (smaller (e / 2) q) fits in
    elim (dec_lt 0 e) [
      | yes p ↦ rw (dif_pos _ le_prop p) (elim (Bool-cases (bit_and (e % u64_mod) 1 == 1)) [
        | inl odd ↦ rw odd (
            rest (r * b % u256_mod) (mod-lt (r * b) (omega arith)) _
            ∙ round_odd r b e u256_mod
                (sym (low_bit e) ∙ (==_iff (bit_and (e % u64_mod) 1) 1).0 odd))
        | inr even ↦ rw even (rest r h _ ∙ round_even r b e u256_mod (ground (arith, low_bit e)))
      ])
      | no p ↦
          rw (dif_neg _ p)
            (sym (mod-eq_of_lt h) ∙ ap (λ (t : ℕ). t % u256_mod) (sym (no_power r b e p)))
    ]

-- The squaring loop of exp256 computes the power modulo 2 ^ 256, for every base and exponent.
pub exp256-pow : (base exponent : ℕ) → exp256 base exponent ≡ base ^ exponent % u256_mod
unfolding exp256
exp256-pow base exponent =
    exp_loop-pow 1 base exponent (lt_wf.apply exponent) (omega arith)
    ∙ ap (λ (t : ℕ). t % u256_mod) (one-mul (base ^ exponent))
