-- ===== src/Evm/Proof/Static.antt =====
-- In a frame that must not change state (ExtVMFace::staticCall), the cases of interpretCases leave the
-- accounts alone.
pub mod Cases
pub mod Switch
pub mod Frames
pub mod Run
use cpp_aec.Base.{
  Bool, true, ◌⊎◌, ℕ, ◌+◌, ◌*◌, ◌/◌, ◌%◌, ◌^◌, ◌≡◌, ◌∙◌, refl, List, ◌==◌, ltb, not, if◌then◌else◌,
  arith, length,
}
use cpp_aec.Evm.Word.{u64_mod}
use cpp_aec.Evm.Machine
use cpp_aec.Evm.Machine.{
  stopped, ExtVmFace, Vm, M, ◌>>=◌, get, skip, branch, bad_instruction, buffer_overrun,
}
use cpp_aec.Evm.Gas.{
  to_int63, mem_need, update_io_gas, charge_mem, is_growing, update_gas, update_mem, sp_at,
}
use cpp_aec.Evm.Proof.Rules.{Ensures, Ensures-bind, Ensures-mono, Ensures-branch, Ensures-throw_if}
use cpp_aec.Evm.Case.{pay_mem}
use cpp_aec.Evm.Case.Memory.{
  pay_word, case_return, case_revert, case_mload, case_mstore, case_mstore8, case_sha3, copy_to_mem,
  case_returndatacopy, case_extcodecopy,
}

-- The accounts are as they were, and the trampoline is not sent to caseCreate, unless `c2` says that
-- CREATE2 is there.
pub record Same {W : Type 0} (c2 : Bool) (s t : Vm W) : Type 0 where
  pub world_eq : t.world ≡ s.world
  pub bounces :
      (t.bounce ≡ s.bounce)
      ⊎ (t.bounce ≡ stopped)
      ⊎ (t.bounce ≡ Machine.case_call)
      ⊎ ((t.bounce ≡ Machine.case_create) × (c2 ≡ true))

-- So it is if the function returns; if it throws, the accounts are as they were.
pub record Keeps {W A : Type 0} (c2 : Bool) (m : M W A) : Type 0 where
  pub at : (s : Vm W) → Ensures (λ _ t. Same c2 s t) (λ t. t.world ≡ s.world) (m s)

pub Same-trans : {W : Type 0} {c2 : Bool} (s t u : Vm W) → Same c2 s t → Same c2 t u → Same c2 s u
Same-trans s t u a b = ground arith

module _ {W A B : Type 0} {c2 : Bool} where
  pub Keeps-bind :
      (m : M W A) (f : A → M W B) → Keeps c2 m → ((a : A) → Keeps c2 (f a)) → Keeps c2 (m >>= f)
  Keeps-bind m f h k = record {
    at = λ s. Ensures-bind m f s (h.at s) (λ a t e.
        Ensures-mono _ ((k a).at t) (λ _ u e'. Same-trans s t u e e') (λ u e'. e' ∙ e.world_eq));
  }

module _ {W : Type 0} {c2 : Bool} where
  -- Statements one after the other, the second of which reads the state.
  pub Keeps-get :
      {A : Type 0} (f : Vm W → M W A) → ((s : Vm W) → Keeps c2 (f s)) → Keeps c2 (get >>= f)
  Keeps-get f h = record { at = λ s. (h s).at s }

  pub Keeps-to_int63 : (v : ℕ) → Keeps {W = W} c2 (to_int63 v)
  unfolding to_int63
  Keeps-to_int63 v = record { at = λ s. record { after = ground arith } }

  pub Keeps-update_io_gas : Keeps {W = W} c2 update_io_gas
  unfolding update_io_gas
  Keeps-update_io_gas = record { at = λ s. record { after = ground arith } }

module _ {W : Type 0} (ext : ExtVmFace W) where
  abbrev sha3_price : Vm W → ℕ
  sha3_price s = ext.evm_schedule.sha3_gas + (sp_at s 1 + 31) / 32 * ext.evm_schedule.sha3_word_gas

module _ {W : Type 0} {c2 : Bool} (ext : ExtVmFace W) where
  Keeps-charge_mem : Keeps c2 (charge_mem ext)
  unfolding charge_mem
  Keeps-charge_mem = record { at = λ s. record { after = ground arith } }

  Keeps-update_gas : Keeps c2 (update_gas ext)
  unfolding update_gas
  Keeps-update_gas = Keeps-get _ (λ s.
      Keeps-bind (branch (is_growing s) (charge_mem ext) skip) _
        (record {
          at = λ t.
              Ensures-branch _ (charge_mem ext) skip t (λ _. Keeps-charge_mem.at t)
                (λ _. record { after = ground arith });
        })
        (λ _. record { at = λ t. record { after = ground arith } }))

  pub Keeps-update_mem : (need : ℕ) → Keeps c2 (update_mem ext need)
  unfolding update_mem
  Keeps-update_mem need = record {
    at = λ s.
        let s' = record s { new_mem_size = (need + 31) % u64_mod / 32 * 32 } in
        Ensures-bind (update_gas ext) _ s' (Keeps-update_gas.at s')
          (λ _ t e. record { after = ground arith });
  }

  pub Keeps-pay_mem : (offset size : ℕ) → Keeps c2 (pay_mem ext offset size)
  unfolding pay_mem mem_need
  Keeps-pay_mem offset size =
      Keeps-bind (to_int63 (if size == 0 then 0 else offset + size)) _ (Keeps-to_int63 _) (λ need.
        Keeps-bind (update_mem ext need) _ (Keeps-update_mem need) (λ _. Keeps-update_io_gas))

  Keeps-pay_word : (size : ℕ) → Keeps c2 (pay_word ext size)
  unfolding pay_word
  Keeps-pay_word size = Keeps-get _ (λ s.
      Keeps-bind (to_int63 (sp_at s 0)) _ (Keeps-to_int63 _) (λ offset.
        Keeps-bind (update_mem ext (offset + size)) _ (Keeps-update_mem _)
          (λ _. Keeps-update_io_gas)))

  -- What follows the payment sees the accounts as they were.
  after_pay :
      {A : Type 0} (offset size : ℕ) (f : Unit {0} → M W A) (r s : Vm W)
      → Same c2 r s
      → ((t : Vm W) → Same c2 r t → Ensures (λ _ u. Same c2 r u) (λ u. u.world ≡ r.world) (f tt t))
      → Ensures (λ _ u. Same c2 r u) (λ u. u.world ≡ r.world) ((pay_mem ext offset size >>= f) s)
  after_pay offset size f r s e k =
      Ensures-bind (pay_mem ext offset size) f s
        (Ensures-mono _ ((Keeps-pay_mem offset size).at s) (λ _ t e'. Same-trans r s t e e')
          (λ t e'. e' ∙ e.world_eq))
        (λ _ t e'. k t e')

  pub Keeps-case_return : Keeps c2 (case_return ext)
  unfolding case_return
  Keeps-case_return = record {
    at = λ s.
        after_pay (sp_at s 0) (sp_at s 1) _ s _ (ground arith)
          (λ t e. record { after = ground arith });
  }

  pub Keeps-case_revert : Keeps c2 (case_revert ext)
  unfolding case_revert
  Keeps-case_revert = record {
    at = λ s. Ensures-throw_if (not ext.evm_schedule.have_revert) bad_instruction _ s refl (
        after_pay (sp_at s 0) (sp_at s 1) _ s _ (ground arith)
          (λ t e. record { after = ground arith }));
  }

  pub Keeps-case_mload : Keeps c2 (case_mload ext)
  unfolding case_mload
  Keeps-case_mload =
      Keeps-bind (pay_word ext 32) _ (Keeps-pay_word 32)
        (λ _. record { at = λ t. record { after = ground arith } })

  pub Keeps-case_mstore : Keeps c2 (case_mstore ext)
  unfolding case_mstore
  Keeps-case_mstore =
      Keeps-bind (pay_word ext 32) _ (Keeps-pay_word 32)
        (λ _. record { at = λ t. record { after = ground arith } })

  pub Keeps-case_mstore8 : Keeps c2 (case_mstore8 ext)
  unfolding case_mstore8
  Keeps-case_mstore8 =
      Keeps-bind (pay_word ext 1) _ (Keeps-pay_word 1)
        (λ _. record { at = λ t. record { after = ground arith } })

  pub Keeps-case_sha3 : Keeps c2 (case_sha3 ext)
  unfolding case_sha3
  Keeps-case_sha3 = Keeps-get _ (λ s.
      Keeps-bind (to_int63 (sha3_price ext s)) _ (Keeps-to_int63 _) (λ g. record {
        at = λ t.
            after_pay (sp_at s 0) (sp_at s 1) _ t _ (ground arith)
              (λ u e. record { after = ground arith });
      }))

  pub Keeps-copy_to_mem : (input : Vm W → List ℕ) (i : ℕ) → Keeps c2 (copy_to_mem ext input i)
  unfolding copy_to_mem
  Keeps-copy_to_mem input i = Keeps-get _ (λ s.
      Keeps-bind (to_int63 (sp_at s (i + 2))) _ (Keeps-to_int63 _) (λ n. record {
        at = λ t.
            after_pay (sp_at s i) (sp_at s (i + 2)) _ t _ (ground arith)
              (λ u e. record { after = ground arith });
      }))

  pub Keeps-case_returndatacopy : Keeps c2 (case_returndatacopy ext)
  unfolding case_returndatacopy
  Keeps-case_returndatacopy = record {
    at = λ s. Ensures-throw_if (not ext.evm_schedule.have_return_data) bad_instruction _ s refl (
        Ensures-throw_if (ltb (length s.return_data) (sp_at s 1 + sp_at s 2)) buffer_overrun _ s
          refl ((Keeps-copy_to_mem (λ s. s.return_data) 0).at s));
  }

  pub Keeps-case_extcodecopy : Keeps c2 (case_extcodecopy ext)
  unfolding case_extcodecopy
  Keeps-case_extcodecopy =
      Keeps-bind (to_int63 ext.evm_schedule.extcodecopy_gas) _ (Keeps-to_int63 _) (λ g. record {
        at = λ t.
            let t' = record t { run_gas = g } in
            let copy = Keeps-copy_to_mem (λ s. ext.code_at s.world (sp_at s 0 % 2 ^ 160)) 1 in
            Ensures-mono _ (copy.at t') (λ _ u e. Same-trans t t' u (ground arith) e) (λ u e. e);
      })
