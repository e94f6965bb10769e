-- ===== src/Evm/Proof/Loading.antt =====
-- What MSTORE of libevm/LegacyVM.cpp leaves in memory, as MLOAD reads it.
use native.Mathlib.Nat.{mod-eq_of_lt}
use cpp_aec.Base.{
  ℕ, suc, ◌+◌, ◌%◌, ◌^◌, ◌<◌, ◌≤◌, ◌≡◌, refl, sym, ap, ◌∙◌, List, [], ◌∷◌, length, get_or, arith,
}
use cpp_aec.Bytes.{
  from_big_endian, to_big_endian, length-to_big_endian, from-to_big_endian, slice, write_at,
  length-write_at, write_at-in,
}
use cpp_aec.Evm.Word.{u256_mod}
use cpp_aec.Evm.Machine.{ExtVmFace, Vm}
use cpp_aec.Evm.Gas.{sp_at}
use cpp_aec.Evm.Case.Environment.{padded}
use cpp_aec.Evm.Case.Memory.{u32, pay_word, case_mstore}
use cpp_aec.Evm.Proof.Rules.{Ensures, Ensures-bind}
use cpp_aec.Evm.Proof.Memory.{Payable, SameGas}
use cpp_aec.Evm.Proof.Storing.{pay_word-Ensures}
use cpp_aec.Evm.Proof.Reading.{slice-padded}

padded-same :
    (xs bs : List ℕ) (o : ℕ)
    → ((i : ℕ) → i < length bs → get_or xs (o + i) 0 ≡ get_or bs i 0)
    → padded xs o (length bs) ≡ bs
unfolding padded
padded-same xs [] o h = refl
padded-same xs (b ∷ bs) o h =
    let z : o + 0 ≡ o = omega arith in
    let first : get_or xs o 0 ≡ b = rw⁻¹ z (h 0 (omega arith)) in
    let rest =
      padded-same xs bs (o + 1)
        (λ i l. let e : o + 1 + i ≡ o + suc i = omega arith in rw e (h (suc i) (omega arith))) in
    rw (first, rest) refl

slice-write_at :
    (mem bs : List ℕ) (o : ℕ)
    → o + length bs ≤ length mem
    → slice (write_at mem o bs) o (length bs) ≡ bs
slice-write_at mem bs o h =
    let l = length-write_at mem o bs in
    slice-padded (write_at mem o bs) o (length bs) (omega arith)
    ∙ padded-same (write_at mem o bs) bs o (λ i j. write_at-in mem o bs i j h)

load-store :
    (mem : List ℕ) (o v : ℕ)
    → o + 32 ≤ length mem
    → from_big_endian (slice (write_at mem o (to_big_endian 32 v)) o 32) ≡ v % u256_mod
load-store mem o v h =
    let bs = to_big_endian 32 v in
    let l = length-to_big_endian 32 v in
    ap (λ (n : ℕ). from_big_endian (slice (write_at mem o bs) o n)) (sym l)
    ∙ ap from_big_endian (slice-write_at mem bs o (omega arith))
    ∙ from-to_big_endian 32 v

module _ {W : Type 0} (ext : ExtVmFace W) where
  -- The range lies in memory, MLOAD reads there the word that was on the stack, and the stack is
  -- as it was.
  pub record Stored (s t : Vm W) : Type 0 where
    pub covers : sp_at s 0 + 32 ≤ length t.mem
    pub loads : from_big_endian (slice t.mem (u32 (sp_at s 0)) 32) ≡ sp_at s 1 % u256_mod
    pub stack_eq : t.stack ≡ s.stack

  -- When memory is whole words, the price is payable, the copying price is at most 15 and the
  -- offset is below 2 ^ 32, MSTORE either throws with the gas unchanged, or leaves the stack as it
  -- was and memory that has the range, in which the read of MLOAD gives back the word stored,
  -- modulo 2 ^ 256.
  pub case_mstore-Stored :
      (s : Vm W)
      → length s.mem % 32 ≡ 0
      → Payable s
      → ext.evm_schedule.copy_gas ≤ 15
      → sp_at s 0 < 2 ^ 32
      → Ensures (λ _ t. Stored s t) (SameGas s) (case_mstore ext s)
  unfolding case_mstore
  case_mstore-Stored s hm h c b =
      Ensures-bind (pay_word ext 32) _ s (pay_word-Ensures ext 32 s (omega arith) hm h c) (λ _ t j.
        let o = sp_at s 0 in
        let m : u32 o ≡ o = mod-eq_of_lt b in
        let same : u32 (sp_at t 0) ≡ o = rw (j.stack_eq, j.sp_eq) m in
        let word : sp_at t 1 ≡ sp_at s 1 = rw (j.stack_eq, j.sp_eq) refl in
        let l = length-write_at t.mem o (to_big_endian 32 (sp_at s 1)) in
        rw (same, word)
          (record {
            after = record {
              covers = ground arith;
              loads = rw m (load-store t.mem o (sp_at s 1) (ground arith));
              stack_eq = j.stack_eq;
            };
          }))
