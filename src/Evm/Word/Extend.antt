-- ===== src/Evm/Word/Extend.antt =====
-- The operation SIGNEXTEND of libevm/LegacyVM.cpp against the two's complement reading of the low
-- bytes, and the round trip of u2s and s2u of libdevcore/Common.h.
use native.Mathlib.Nat.{mod-lt}
use cpp_aec.Base.{
  ℕ, ◌+◌, ◌-◌, ◌*◌, ◌/◌, ◌%◌, ◌^◌, ◌<◌, ◌≤◌, bit_and, bit_or, ◌≡◌, ◌∙◌, ap, arith, ltb,
  if◌then◌else◌, inl, inr, Bool-cases,
}
use cpp_aec.Base.Int.{ℤ, pos, negsuc, neg}
use cpp_aec.Evm.Word.{u256_mod, IsU256, allbits, bit_test, u2s, s2u, signextend}
use cpp_aec.Evm.Word.Bits.{bit_and_mask, bit_or-shifted, bit_or_ones, pow_pos}
use cpp_aec.Evm.Word.Shift.{
  pow_split, neg_pos, u2s_high, u2s_low, pred-mul, quotient_fits, pow_mono,
}

-- The low n + 1 bits of `x`, read as a signed number.
abbrev pub signed_low : ℕ → ℕ → ℤ
signed_low n x = if bit_test x n then neg (2 ^ n - x % 2 ^ n) else pos (x % 2 ^ n)

module _ (n x : ℕ) (small : n < 255) (u : IsU256 x) where
  ones_above : allbits - (2 ^ n - 1) ≡ (2 ^ (256 - n) - 1) * 2 ^ n
  ones_above = omega (
    arith,
    pred-mul (2 ^ (256 - n)) (2 ^ n) (pow_pos (256 - n)),
    pow_split n (omega arith),
    pow_pos n,
  )

  extended : bit_or x (allbits - (2 ^ n - 1)) ≡ (2 ^ (256 - n) - 1) * 2 ^ n + x % 2 ^ n
  extended = rw (
    ones_above,
    bit_or-shifted,
    bit_or_ones (256 - n) (x / 2 ^ n) (quotient_fits n x (omega arith) u),
  )

  above_half : 2 ^ 255 ≤ (2 ^ (256 - n) - 1) * 2 ^ n + x % 2 ^ n
  above_half = omega (
    arith,
    pred-mul (2 ^ (256 - n)) (2 ^ n) (pow_pos (256 - n)),
    pow_split n (omega arith),
    pow_mono n 255 (omega arith),
  )

  word_size : (2 ^ (256 - n) - 1) * 2 ^ n + 2 ^ n ≡ u256_mod
  word_size =
      omega (arith, pred-mul (2 ^ (256 - n)) (2 ^ n) (pow_pos (256 - n)), pow_split n (omega arith))

  fits : IsU256 ((2 ^ (256 - n) - 1) * 2 ^ n + x % 2 ^ n)
  fits = omega (arith, word_size, mod-lt x (pow_pos n))

  u2s_extended : u2s (bit_or x (allbits - (2 ^ n - 1))) ≡ neg (2 ^ n - x % 2 ^ n)
  u2s_extended =
      rw (extended, neg_pos (2 ^ n - x % 2 ^ n) (omega (arith, mod-lt x (pow_pos n))))
        (u2s_high ((2 ^ (256 - n) - 1) * 2 ^ n + x % 2 ^ n) fits above_half
          ∙ ap negsuc (omega (arith, word_size, mod-lt x (pow_pos n))))

  u2s_cut : u2s (bit_and x (2 ^ n - 1)) ≡ pos (x % 2 ^ n)
  u2s_cut =
      rw (bit_and_mask n x)
        (u2s_low (x % 2 ^ n) (omega (arith, mod-lt x (pow_pos n), pow_mono n 255 (omega arith))))

-- On a 256-bit word SIGNEXTEND gives the word that stands for the low k + 1 bytes as a signed
-- number, and from k = 31 on leaves the number as it is.
pub u2s-signextend :
    (k x : ℕ)
    → IsU256 x
    → u2s (signextend k x) ≡ (if ltb k 31 then signed_low (k * 8 + 7) x else u2s x)
unfolding signextend
u2s-signextend k x u = elim (Bool-cases (ltb k 31)) [
  | inl small ↦ rw small (elim (Bool-cases (bit_test x (k * 8 + 7))) [
    | inl top ↦ rw top (u2s_extended (k * 8 + 7) x (ground arith) u)
    | inr clear ↦ rw clear (u2s_cut (k * 8 + 7) x (ground arith) u)
  ])
  | inr large ↦ rw large
]

-- s2u takes the signed reading of a 256-bit word back to the word.
pub s2u-u2s : (x : ℕ) → IsU256 x → s2u (u2s x) ≡ x
unfolding s2u
s2u-u2s x u = elim (Bool-cases (bit_test x 255)) [
  | inl top ↦ rw (u2s_high x u (ground arith)) (omega arith)
  | inr clear ↦ rw (u2s_low x (ground arith)) (omega arith)
]
