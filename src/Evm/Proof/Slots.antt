-- ===== src/Evm/Proof/Slots.antt =====
-- What the cases DUP and SWAP of libevm/LegacyVM.cpp do to the slots of the stack.
use cpp_aec.Base.{
  ℕ, List, ◌+◌, ◌-◌, ◌<◌, ◌≡◌, ◌≢◌, length, get_or, set, length-set, get_or-set_self,
  get_or-set_other, refl, sym, ap, ◌∙◌, inl, inr, Bool-cases, ltb, ltb→lt, arith,
}
use cpp_aec.Evm.Machine.{Vm, Ctl, next}
use cpp_aec.Evm.Gas.{update_io_gas}
use cpp_aec.Evm.Case.{simple}
use cpp_aec.Evm.Case.Control.{case_dup, case_swap}
use cpp_aec.Evm.Proof.Rules.{Ensures}

module _ {W : Type 0} where
  -- The slots with index `i` and `k` have traded their words, and nothing else but the gas has
  -- changed: no other slot, no pointer, no counter and no byte of memory.
  pub record Swaps (i k : ℕ) (s : Vm W) (c : Ctl) (t : Vm W) : Type 0 where
    pub first : get_or t.stack i 0 ≡ get_or s.stack k 0
    pub second : get_or t.stack k 0 ≡ get_or s.stack i 0
    pub others : (j : ℕ) → j ≢ i → j ≢ k → get_or t.stack j 0 ≡ get_or s.stack j 0
    pub rest : t ≡ record s { stack = t.stack; io_gas = s.io_gas - s.run_gas }
    pub goes_on : c ≡ next

  Swaps-set :
      (s t : Vm W) (i k : ℕ)
      → i < k
      → k < length s.stack
      → t ≡ record s {
        stack = set (set s.stack i (get_or s.stack k 0)) k (get_or s.stack i 0);
        io_gas = s.io_gas - s.run_gas;
      }
      → Swaps i k s next t
  Swaps-set s t i k l h e =
      let x = get_or s.stack k 0 in
      let y = get_or s.stack i 0 in
      let ys = set s.stack i x in
      let n = length-set s.stack i x in
      let stack = ap (λ v. v.stack) e in
      record {
        first =
            rw (stack, get_or-set_other ys k i y 0 (λ e. omega arith))
              (get_or-set_self s.stack i x 0 (omega arith));
        second = rw (stack) (get_or-set_self ys k y 0 (omega arith));
        others = λ j p q.
            rw
              (
                stack,
                get_or-set_other ys k j y 0 (λ e. q (sym e)),
                get_or-set_other s.stack i j x 0 (λ e. p (sym e)),
              )
              refl;
        rest =
            e
            ∙ ap (λ (zs : List ℕ). record s { stack = zs; io_gas = s.io_gas - s.run_gas })
                (sym stack);
        goes_on = refl;
      }

  -- SWAPn, with both slots within the stack, either throws for want of gas or trades the words of
  -- the top slot and the slot n below it, pays its gas and changes nothing else.
  pub case_swap-Swaps :
      (s : Vm W)
      → s.sp + (s.op - 0x90 + 1) < length s.stack
      → Ensures
          (λ c t. Swaps s.sp (s.sp + (s.op - 0x90 + 1)) s c t)
          (λ t. s.io_gas < s.run_gas)
          (case_swap s)
  unfolding case_swap update_io_gas
  case_swap-Swaps s h =
      let k = s.sp + (s.op - 0x90 + 1) in
      let z : s.sp + 0 ≡ s.sp = omega arith in
      elim (Bool-cases (ltb s.io_gas s.run_gas)) [
        | inl e ↦ rw e (record { after = ltb→lt _ _ e })
        | inr e ↦ rw (e, z) (record { after = Swaps-set s _ s.sp k (omega arith) h refl })
      ]

  -- The slot `i` holds `x`, and nothing else but the gas has changed.
  pub record Puts (i x : ℕ) (s : Vm W) (c : Ctl) (t : Vm W) : Type 0 where
    pub slot : get_or t.stack i 0 ≡ x
    pub others : (j : ℕ) → j ≢ i → get_or t.stack j 0 ≡ get_or s.stack j 0
    pub rest : t ≡ record s { stack = t.stack; io_gas = s.io_gas - s.run_gas }
    pub goes_on : c ≡ next

  -- DUPn, with its slot within the stack, either throws for want of gas or leaves in the slot the
  -- word n - 1 below the top, pays its gas and changes nothing else.
  pub case_dup-Puts :
      (s : Vm W)
      → s.spp < length s.stack
      → Ensures
          (λ c t. Puts s.spp (get_or s.stack (s.sp + (s.op - 0x80)) 0) s c t)
          (λ t. s.io_gas < s.run_gas)
          (case_dup s)
  unfolding case_dup simple update_io_gas
  case_dup-Puts s h =
      let x = get_or s.stack (s.sp + (s.op - 0x80)) 0 in
      elim (Bool-cases (ltb s.io_gas s.run_gas)) [
        | inl e ↦ rw e (record { after = ltb→lt _ _ e })
        | inr e ↦ rw e (record {
          after = record {
            slot = get_or-set_self s.stack s.spp x 0 h;
            others = λ j p. get_or-set_other s.stack s.spp j x 0 (λ q. p (sym q));
            rest = refl;
            goes_on = refl;
          };
        })
      ]
