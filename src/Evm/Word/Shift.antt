-- ===== src/Evm/Word/Shift.antt =====
-- The operations BYTE and SAR of libevm/LegacyVM.cpp against arithmetic on the number
-- that a word stands for.
use native.Mathlib.Nat.{
  div-eq_of_lt, mod-eq_of_lt, pow-suc, pow-zero, mul_assoc, mul-one, add-mul-mod_self_right,
  div-add-mod', mod-lt, div-lt_iff_lt-mul, div-eq_of_lt-le, mul_comm, pow-le-pow_right, div-one,
  div-le_self,
}
use cpp_aec.Base.{
  ℕ, zero, suc, ◌+◌, ◌-◌, ◌*◌, ◌/◌, ◌%◌, ◌^◌, ◌<◌, ◌≤◌, bit_or, ◌≡◌, sym, ap, ◌∙◌, arith, ltb,
  if◌then◌else◌, true, false, inl, inr, Bool-cases, dec_lt,
}
use cpp_aec.Base.Int.{ℤ, pos, negsuc, neg}
use cpp_aec.Evm.Word.{u256_mod, IsU256, allbits, bit_test, u2s, byte, sar}
use cpp_aec.Evm.Word.Bits.{bit_and_mask, bit_or-shifted, pow_pos, zero-bit_or}

-- BYTE reads byte `i`, most significant first, and 0 from index 32 on.
pub byte_lem : (i x : ℕ) → byte i x ≡ (if ltb i 32 then x / 2 ^ (8 * (31 - i)) % 256 else 0)
unfolding byte
byte_lem i x = rw (bit_and_mask 8 (x / 2 ^ (8 * (31 - i))))

pow-add : (n m : ℕ) → 2 ^ n * 2 ^ m ≡ 2 ^ (n + m)
pow-add n zero = rw (pow-zero, mul-one) (ap (λ (t : ℕ). 2 ^ t) (omega arith))
pow-add n (suc m) =
    ap (λ (t : ℕ). 2 ^ n * t) (pow-suc 2 m)
    ∙ sym (mul_assoc (2 ^ n) (2 ^ m) 2)
    ∙ ap (λ (t : ℕ). t * 2) (pow-add n m)
    ∙ sym (pow-suc 2 (n + m))
    ∙ ap (λ (t : ℕ). 2 ^ t) (omega arith)

exponent : (k : ℕ) → k ≡ 256 → 2 ^ k ≡ u256_mod
exponent k h = ap (λ (t : ℕ). 2 ^ t) h

-- The two factors of the word size at a position `n`.
pub pow_split : (n : ℕ) → n ≤ 256 → 2 ^ n * 2 ^ (256 - n) ≡ u256_mod
pow_split n h = pow-add n (256 - n) ∙ exponent (n + (256 - n)) (omega arith)

top_bit : (x : ℕ) → IsU256 x → bit_test x 255 ≡ true → 2 ^ 255 ≤ x
top_bit x u h = ground arith

no_top_bit : (x : ℕ) → IsU256 x → bit_test x 255 ≡ false → x < 2 ^ 255
no_top_bit x u h = ground arith

pub neg_pos : (n : ℕ) → 1 ≤ n → neg n ≡ negsuc (n - 1)
neg_pos zero h = absurd (omega arith)
neg_pos (suc n) h = ap negsuc (omega arith)

pub u2s_high : (x : ℕ) → IsU256 x → 2 ^ 255 ≤ x → u2s x ≡ negsuc (u256_mod - x - 1)
unfolding u2s
u2s_high x u h = ground (arith, neg_pos (u256_mod - x))

pub u2s_low : (x : ℕ) → x < 2 ^ 255 → u2s x ≡ pos x
unfolding u2s
u2s_low x h = ground arith

pred_suc : (d : ℕ) → suc d - 1 ≡ d
pred_suc d = omega arith

pub pred-mul : (d e : ℕ) → 1 ≤ d → (d - 1) * e + e ≡ d * e
pred-mul zero e h = absurd (omega arith)
pred-mul (suc d) e h = omega (arith, ap (λ (t : ℕ). t * e) (pred_suc d))

-- The ones that SAR shifts in, with `d` and `e` the factors of the word size.
fill_ones : (d e : ℕ) → d * e ≡ u256_mod → 1 ≤ e → 1 ≤ d → allbits * e % u256_mod ≡ (d - 1) * e
fill_ones d e h p q =
    ap (λ (t : ℕ). t % u256_mod) (omega (arith, pred-mul d e q, pred-mul e u256_mod p))
    ∙ add-mul-mod_self_right ((d - 1) * e) (e - 1) u256_mod
    ∙ mod-eq_of_lt (omega (arith, pred-mul d e q))

or_above : (k y q : ℕ) → y < 2 ^ k → bit_or y (q * 2 ^ k) ≡ y + q * 2 ^ k
or_above k y q h = rw (bit_or-shifted, div-eq_of_lt h, zero-bit_or, mod-eq_of_lt h) (omega arith)

split_pred : (e q : ℕ) → q < e → e ≡ e - 1 - q + 1 + q
split_pred e q h = omega arith

complement_parts :
    (d e x : ℕ)
    → d * e ≡ u256_mod
    → 1 ≤ d
    → x / d < e
    → IsU256 x
    → (u256_mod - x - 1) / d ≡ e - 1 - x / d
complement_parts d e x h p q u =
    div-eq_of_lt-le d (omega (arith, whole, div-add-mod' x d, mod-lt x p))
      (omega (arith, whole, div-add-mod' x d, mod-lt x p))
  where
    whole : (e - 1 - x / d) * d + d + x / d * d ≡ u256_mod
    whole = omega (arith, mul_comm d e, h, ap (λ (t : ℕ). t * d) (split_pred e (x / d) q))

module _ (n x : ℕ) (small : n < 256) (u : IsU256 x) where
  pub quotient_fits : x / 2 ^ n < 2 ^ (256 - n)
  quotient_fits =
      (div-lt_iff_lt-mul (pow_pos n)).1
        (omega (arith, pow_split n (omega arith), mul_comm (2 ^ n) (2 ^ (256 - n))))

  -- The word that SAR makes of a negative number.
  sar_ones : 2 ^ 255 ≤ x → sar n x ≡ x / 2 ^ n + (u256_mod - 2 ^ (256 - n))
  unfolding sar
  sar_ones h = ground (
    arith,
    fill_ones (2 ^ n) (2 ^ (256 - n)) (pow_split n (omega arith)) (pow_pos (256 - n)) (pow_pos n),
    shifted_in,
  )
    where
      shifted_in :
          bit_or (x / 2 ^ n) ((2 ^ n - 1) * 2 ^ (256 - n)) ≡ x / 2 ^ n + (u256_mod - 2 ^ (256 - n))
      shifted_in =
          or_above (256 - n) (x / 2 ^ n) (2 ^ n - 1) quotient_fits
          ∙ omega (arith, pred-mul (2 ^ n) (2 ^ (256 - n)) (pow_pos n), pow_split n (omega arith))

  -- The quotient of the complement is the complement of the quotient.
  complement : (u256_mod - x - 1) / 2 ^ n ≡ 2 ^ (256 - n) - 1 - x / 2 ^ n
  complement =
      complement_parts (2 ^ n) (2 ^ (256 - n)) x (pow_split n (omega arith)) (pow_pos n)
        quotient_fits u

-- The quotient by 2 ^ n that rounds down.
abbrev pub floor_shift : ℤ → ℕ → ℤ
floor_shift (pos a) n = pos (a / 2 ^ n)
floor_shift (negsuc a) n = negsuc (a / 2 ^ n)

pub pow_mono : (i j : ℕ) → i ≤ j → 2 ^ i ≤ 2 ^ j
pow_mono i j h = pow-le-pow_right (omega arith) h

-- A shift by the word size or more leaves nothing of a number of 255 bits.
all_gone : (n a : ℕ) → 256 ≤ n → a < 2 ^ 255 → a / 2 ^ n ≡ 0
all_gone n a h fits = div-eq_of_lt (omega (arith, fits, pow_mono 255 n (omega arith)))

not_pos : (n : ℕ) → ¬ (0 < n) → n ≡ 0
not_pos n h = omega arith

whole_word : (n : ℕ) → ¬ (0 < n) → 2 ^ (256 - n) ≡ u256_mod
whole_word n h = exponent (256 - n) (omega arith)

half_word : (n : ℕ) → 0 < n → 2 ^ (256 - n) ≤ 2 ^ 255
half_word n h = pow_mono (256 - n) 255 (omega arith)

half_or_whole : (n : ℕ) → 2 ^ (256 - n) ≤ u256_mod
half_or_whole n = pow_mono (256 - n) 256 (omega arith)

sar_all_ones : (n x : ℕ) → 2 ^ 255 ≤ x → 256 ≤ n → IsU256 x → sar n x ≡ allbits
unfolding sar
sar_all_ones n x h large u = ground arith

module _ (n x : ℕ) (u : IsU256 x) (h : 2 ^ 255 ≤ x) where
  abbrev shifted : ℕ
  shifted = x / 2 ^ n + (u256_mod - 2 ^ (256 - n))

  ones_top : n < 256 → 2 ^ 255 ≤ shifted
  ones_top small = elim (dec_lt 0 n) [
    | yes p ↦ omega (arith, half_word n p)
    | no p ↦ omega (arith, whole_word n p, ap (λ (t : ℕ). x / 2 ^ t) (not_pos n p), div-one x)
  ]

  ones_fit : n < 256 → IsU256 shifted
  ones_fit small = omega (arith, quotient_fits n x small u, half_or_whole n)

  sar_negative : u2s (sar n x) ≡ negsuc ((u256_mod - x - 1) / 2 ^ n)
  sar_negative = elim (dec_lt n 256) [
    | yes small ↦
        rw (sar_ones n x small u h, complement n x small u)
          (u2s_high shifted (ones_fit small) (ones_top small)
            ∙ ap negsuc (omega (arith, half_or_whole n, quotient_fits n x small u)))
    | no large ↦
        rw
          (
            sar_all_ones n x h (omega arith) u,
            all_gone n (u256_mod - x - 1) (omega arith) (omega arith),
          )
          (u2s_high allbits (omega arith) (omega arith))
  ]

sar_positive : (n x : ℕ) → x < 2 ^ 255 → u2s (sar n x) ≡ pos (x / 2 ^ n)
unfolding sar
sar_positive n x h = ground (
  arith,
  all_gone n x,
  u2s_low (x / 2 ^ n) (omega (arith, div-le_self x (2 ^ n))),
  u2s_low 0 (omega arith),
)

-- On a 256-bit word SAR divides the signed number that the word stands for by 2 ^ n, rounding
-- down, for every shift n.
pub u2s-sar : (n x : ℕ) → IsU256 x → u2s (sar n x) ≡ floor_shift (u2s x) n
u2s-sar n x u = elim (Bool-cases (bit_test x 255)) [
  | inl e ↦ rw (u2s_high x u (top_bit x u e)) (sar_negative n x u (top_bit x u e))
  | inr e ↦ rw (u2s_low x (no_top_bit x u e)) (sar_positive n x (no_top_bit x u e))
]
