-- ===== src/Evm/Proof/Reading.antt =====
-- The words that CALLDATALOAD and PUSH read from the input and the code.
use native.Mathlib.Nat.{mod-eq_of_lt}
use cpp_aec.Base.{
  ℕ, zero, suc, ◌+◌, ◌-◌, ◌*◌, ◌%◌, ◌^◌, ◌≤◌, ◌<◌, ◌≡◌, refl, sym, ap, ◌∙◌, inl, inr, Bool-cases,
  ltb, leb, ltb→lt, leb→le, List, [], ◌∷◌, length, get_or, set, length-set, get_or-set_self,
  replicate, drop-get_or, get_or-past, arith,
}
use cpp_aec.Bytes.{from_loop, from_big_endian, slice}
use cpp_aec.Evm.Word.{u64_mod, u256_mod}
use cpp_aec.Evm.Machine.{Vm, Ctl, continue}
use cpp_aec.Evm.Gas.{update_io_gas, set_spp}
use cpp_aec.Evm.Case.Environment.{padded, calldataload}
use cpp_aec.Evm.Case.Control.{push_loop, case_push}
use cpp_aec.Evm.Proof.Rules.{Ensures}

pub slice-padded : (xs : List ℕ) (i n : ℕ) → i + n ≤ length xs → slice xs i n ≡ padded xs i n
unfolding padded
slice-padded xs i zero h = refl
slice-padded xs i (suc n) h =
    let rest = slice-padded xs (suc i) n (omega arith) in
    let e : i + 1 ≡ suc i = omega arith in
    rw (drop-get_or xs i 0 (omega arith), e) (ap (λ ys. get_or xs i 0 ∷ ys) rest)

padded-past : (xs : List ℕ) (i n : ℕ) → length xs ≤ i → padded xs i n ≡ replicate n 0
unfolding padded
padded-past xs i zero h = refl
padded-past xs i (suc n) h =
    rw (get_or-past xs i 0 h) (ap (λ ys. 0 ∷ ys) (padded-past xs (i + 1) n (omega arith)))

zeros : 0 ≡ from_big_endian (replicate 32 0)
unfolding from_big_endian from_loop
zeros = refl

-- For input below 2 ^ 64 bytes the three branches of CALLDATALOAD give the big-endian number of
-- the 32 bytes from the index on, with zeros past the end.
pub calldataload-padded :
    (input : List ℕ) (i : ℕ)
    → length input < u64_mod
    → calldataload input i ≡ from_big_endian (padded input i 32)
unfolding calldataload
calldataload-padded input i h = elim (Bool-cases (ltb (i + 31) (length input))) [
  | inl e ↦
      let lt = ltb→lt _ _ e in
      let m : i % u64_mod ≡ i = mod-eq_of_lt (omega arith) in
      rw (e, m) (ap from_big_endian (slice-padded input i 32 (omega arith)))
  | inr e ↦ elim (Bool-cases (leb (length input) i)) [
    | inl p ↦ rw (e, p, padded-past input i 32 (leb→le _ _ p)) zeros
    | inr p ↦ let m : i % u64_mod ≡ i = mod-eq_of_lt (ground arith) in rw (e, p, m) refl
  ]
]

-- Reducing on the way does not change the remainder.
from_loop-mod :
    (r : ℕ) (bs : List ℕ) → from_loop (r % u256_mod) bs % u256_mod ≡ from_loop r bs % u256_mod
unfolding from_loop
from_loop-mod r [] = omega arith
from_loop-mod r (b ∷ bs) =
    sym (from_loop-mod (r % u256_mod * 256 + b) bs)
    ∙ ap (λ (t : ℕ). from_loop t bs % u256_mod) same
    ∙ from_loop-mod (r * 256 + b) bs
  where
    same : (r % u256_mod * 256 + b) % u256_mod ≡ (r * 256 + b) % u256_mod
    same = omega arith

module _ {W : Type 0} where
  -- The loop of PUSH continues the number in the slot by the bytes at the program counter.
  push_loop-value :
      (n : ℕ) (s : Vm W)
      → s.spp < length s.stack
      → get_or s.stack s.spp 0 < u256_mod
      → get_or (push_loop n s).stack s.spp 0
        ≡ from_loop (get_or s.stack s.spp 0) (padded s.code s.pc n) % u256_mod
  unfolding push_loop padded from_loop
  push_loop-value zero s h v = sym (mod-eq_of_lt v)
  push_loop-value (suc n) s h v =
      let x = (get_or s.stack s.spp 0 * 2 ^ 8 + get_or s.code s.pc 0) % u256_mod in
      let g = get_or-set_self s.stack s.spp x 0 h in
      let l = length-set s.stack s.spp x in
      let rest =
        push_loop-value n (record (set_spp s x) { pc = s.pc + 1 }) (ground arith) (ground arith) in
      rest
      ∙ rw g (
          from_loop-mod (get_or s.stack s.spp 0 * 256 + get_or s.code s.pc 0)
            (padded s.code (s.pc + 1) n))

  push_loop-pc : (n : ℕ) (s : Vm W) → (push_loop n s).pc ≡ s.pc + n
  unfolding push_loop
  push_loop-pc zero s = omega arith
  push_loop-pc (suc n) s = omega (
    arith,
    push_loop-pc n
        (record (set_spp s ((get_or s.stack s.spp 0 * 2 ^ 8 + get_or s.code s.pc 0) % u256_mod)) {
          pc = s.pc + 1;
        }),
  )

  -- What PUSH leaves: the word, and the program counter behind its bytes.
  pub record Pushes (s : Vm W) (n : ℕ) (c : Ctl) (t : Vm W) : Type 0 where
    pub word : get_or t.stack s.spp 0 ≡ from_big_endian (padded s.code (s.pc + 1) n) % u256_mod
    pub pc : t.pc ≡ s.pc + 1 + n
    pub goes_on : c ≡ continue

  -- PUSHn, with its slot within the stack, either throws for want of gas or leaves in the slot the
  -- big-endian number of the n bytes behind the opcode, modulo 2 ^ 256 and with zeros past the end
  -- of the code, and the program counter behind them.
  pub case_push-Pushes :
      (s : Vm W)
      → s.spp < length s.stack
      → Ensures (λ c t. Pushes s (s.op - 0x60 + 1) c t) (λ t. s.io_gas < s.run_gas) (case_push s)
  unfolding case_push from_big_endian update_io_gas
  case_push-Pushes s h =
      let s' = record s {
        io_gas = s.io_gas - s.run_gas;
        stack = set s.stack s.spp 0;
        pc = s.pc + 1;
      } in
      let g = get_or-set_self s.stack s.spp 0 0 h in
      let l = length-set s.stack s.spp 0 in
      let p = push_loop-pc (s.op - 0x60 + 1) s' in
      let w = push_loop-value (s.op - 0x60 + 1) s' (ground arith) (ground arith) in
      record { after = ground arith }
