-- ===== src/Executive/Proof/Spending.antt =====
-- Frames within frames, of libaecereum/Executive.cpp and ExtVM.cpp: each run of the interpreter comes
-- to an end, and no frame gives back more gas than it was given.
use cpp_aec.Base.{
  ℕ, zero, suc, ◌+◌, ◌-◌, ◌≤◌, ◌==◌, ◌≡◌, refl, sym, ap, false, ltb, leb, List, Option, none, some,
  inl, inr, Bool-cases, Option-cases, if◌then◌else◌, length, subst, arith,
}
use cpp_aec.Evm.Machine.{
  ExtVmFace, CallParameters, Fault, Outcome, ok, throw, out_of_gas, revert_instruction,
  bad_instruction, bad_jump_destination, out_of_stack, stack_underflow, disallowed_state_change,
  buffer_overrun,
}
use cpp_aec.Evm.Interpreter.{entered}
use cpp_aec.Evm.Proof.Rules.{After}
use cpp_aec.Evm.Proof.Sound.{IsSane, IsFrugal, NoMoreGas}
use cpp_aec.Evm.Proof.Ending.{Finished, exec-Ends}
use cpp_aec.State.Account.{Db}
use cpp_aec.State.Changes.{clear_store, change_code}
use cpp_aec.Executive.Frame.{Env, Params, Context, Stop, no_sub, after}
use cpp_aec.Executive.Starting.{
  Executive, revert, call, create_opcode, create2_opcode, fresh_executive,
}
use cpp_aec.Executive.Running.{
  leave, deposit_cost, fail, caught, deposit, returned, finished, fuel_for, run, go_from, go,
}
use cpp_aec.Evm.Case.Calls.{op_create}
use cpp_aec.Executive.Frames.{ext_call, ext_create, ext_vm}
use cpp_aec.Executive.Proof.Granting.{just-gas, call-gas, create_opcode-gas, create2_opcode-gas}

module _ (db : Db) (env : Env) where
  revert-gas : (e : Executive) → (revert db e).gas ≡ e.gas
  unfolding revert
  revert-gas e = refl

  caught-gas : (f : Fault) (e : Executive) → (caught db env f e).gas ≤ e.gas
  unfolding caught fail revert
  caught-gas (revert_instruction out) e = omega arith
  caught-gas bad_instruction e = omega arith
  caught-gas bad_jump_destination e = omega arith
  caught-gas out_of_gas e = omega arith
  caught-gas out_of_stack e = omega arith
  caught-gas stack_underflow e = omega arith
  caught-gas disallowed_state_change e = omega arith
  caught-gas buffer_overrun e = omega arith

  deposit-gas : (a : ℕ) (out : List ℕ) (e : Executive) → (deposit db env a out e).gas ≤ e.gas
  unfolding deposit fail revert
  deposit-gas a out e = elim (Bool-cases (ltb env.evm_schedule.max_code_size (length out))) [
    | inl p ↦ rw p (omega arith)
    | inr p ↦ elim (Bool-cases (leb (deposit_cost db env out) e.gas)) [
      | inl q ↦
          rw (p, q)
            (just-gas (change_code db a out e.state)
              (record e { gas = e.gas - deposit_cost db env out }) e.gas (omega arith))
      | inr q ↦ elim (Bool-cases env.evm_schedule.exceptional_failed_code_deposit) [
        | inl r ↦ rw (p, q, r) (omega arith)
        | inr r ↦ rw (p, q, r) (just-gas _ e e.gas (omega arith))
      ]
    ]
  ]

  returned-gas :
      (ps : Params) (w : Context) (g : ℕ) (o : Outcome Context (Unit {0})) (e : Executive)
      → After (λ _ t. Finished (entered g w) t) (NoMoreGas (entered g w)) o
      → (returned db env ps o e).gas ≤ g
  unfolding returned
  returned-gas ps w g (ok _ t) e a =
      let h : t.io_gas ≤ g = ground arith in
      elim (Option-cases t.world.stop) [
        | inr (x, p) ↦ rw (p, returned) h
        | inl p ↦ elim (Bool-cases ps.is_create) [
          | inl q ↦
              let d = deposit-gas ps.my_address t.output (leave t e) in
              rw (p, returned, q) (ground arith)
          | inr q ↦ rw (p, returned, q) h
        ]
      ]
  returned-gas ps w g (throw f t) e a =
      let h : t.io_gas ≤ g = ground arith in
      elim (Option-cases t.world.stop) [
        | inr (x, p) ↦ rw (p, returned) h
        | inl p ↦ let c = caught-gas f (leave t e) in rw (p, returned) (ground arith)
      ]

  -- A view of the frames with the prices of the block, through which no gas is made.
  pub record IsFair (ext : Params → ExtVmFace Context) : Type 0 where
    pub prices : (ps : Params) → (ext ps).evm_schedule ≡ env.evm_schedule
    pub frugal : (ps : Params) → IsFrugal (ext ps)

  -- The interpreter comes to an end, and what the frame does then leaves no more gas than it had.
  pub record Runs (ext : Params → ExtVmFace Context) (ps : Params) (e : Executive) : Type 0 where
    pub outcome : Outcome Context (Unit {0})
    pub ends : run db env ext ps e ≡ returned db env ps outcome e
    pub gas : (run db env ext ps e).gas ≤ e.gas

  pub run-Runs :
      (ext : Params → ExtVmFace Context) (ps : Params) (e : Executive)
      → IsSane env.evm_schedule
      → IsFair ext
      → Runs ext ps e
  unfolding run
  run-Runs ext ps e k f =
      let w : Context = record { state = e.state; sub = no_sub; stop = e.stop } in
      let begun = if ps.is_create then after (clear_store db ps.my_address e.state) w else w in
      let sane = subst IsSane (sym (f.prices ps)) k in
      let r =
        exec-Ends (ext ps) (fuel_for db env e.gas) e.gas begun sane (f.frugal ps) (omega arith) in
      let q : run db env ext ps e ≡ returned db env ps r.outcome e =
        ap (λ (o : Option (Outcome Context (Unit {0}))). finished db env ps o e) r.eq in
      record {
        outcome = r.outcome;
        ends = q;
        gas = rw q (returned-gas ps begun e.gas r.outcome e r.after);
      }

  go_from-gas :
      (ext : Params → ExtVmFace Context) (x : Option Stop) (ps : Option Params) (e : Executive)
      → IsSane env.evm_schedule
      → IsFair ext
      → (go_from db env ext x ps e).gas ≤ e.gas
  unfolding go_from
  go_from-gas ext (some x) ps e k f = omega arith
  go_from-gas ext none none e k f = omega arith
  go_from-gas ext none (some ps) e k f = (run-Runs ext ps e k f).gas

  pub go-gas :
      (ext : Params → ExtVmFace Context) (e : Executive)
      → IsSane env.evm_schedule
      → IsFair ext
      → (go db env ext e).gas ≤ e.gas
  unfolding go
  go-gas ext e k f = go_from-gas ext e.stop e.ext e k f

  ext_call-gas :
      (ext : Params → ExtVmFace Context) (ps : Params) (w : Context) (p : CallParameters)
      → IsSane env.evm_schedule
      → IsFair ext
      → (ext_call db env ext ps w p).gas ≤ p.gas
  unfolding ext_call
  ext_call-gas ext ps w p k f =
      let e =
        call db env false ps.gas_price ps.origin (ps.depth + 1) p
          (fresh_executive w.state w.stop) in
      let a =
        call-gas db env false ps.gas_price ps.origin (ps.depth + 1) p
          (fresh_executive w.state w.stop) (omega arith) in
      let b = go-gas ext e k f in omega arith

  ext_create-gas :
      (ext : Params → ExtVmFace Context) (ps : Params) (w : Context) (endowment gas : ℕ)
      (init : List ℕ) (op salt : ℕ)
      → IsSane env.evm_schedule
      → IsFair ext
      → (ext_create db env ext ps w endowment gas init op salt).gas ≤ gas
  unfolding ext_create
  ext_create-gas ext ps w endowment gas init op salt k f =
      let begun = fresh_executive w.state w.stop in
      elim (Bool-cases (op == op_create)) [
        | inl q ↦
            let e =
              create_opcode db env ps.my_address endowment ps.gas_price gas ps.origin (ps.depth + 1)
                init begun in
            let a =
              create_opcode-gas db env ps.my_address endowment ps.gas_price gas ps.origin
                (ps.depth + 1) init begun (omega arith) in
            let b = go-gas ext e k f in rw q (omega arith)
        | inr q ↦
            let e =
              create2_opcode db env ps.my_address endowment ps.gas_price gas ps.origin
                (ps.depth + 1) init salt begun in
            let a =
              create2_opcode-gas db env ps.my_address endowment ps.gas_price gas ps.origin
                (ps.depth + 1) init salt begun (omega arith) in
            let b = go-gas ext e k f in rw q (omega arith)
      ]

  -- Under sane prices, however many frames can be nested, the interpreter sees the prices of the
  -- block in every frame, and a call or a creation of another frame, with precompiled contracts,
  -- transfers that throw and failures of inner frames among them, gives back at most the gas that
  -- it is given.
  pub ext_vm-IsFair : (levels : ℕ) → IsSane env.evm_schedule → IsFair (ext_vm db env levels)
  unfolding ext_vm
  ext_vm-IsFair zero k = record {
    prices = λ ps. refl;
    frugal =
        λ ps. record { create_gas = λ w v g c op salt. omega arith; call_gas = λ w p. omega arith };
  }
  ext_vm-IsFair (suc n) k =
      let f = ext_vm-IsFair n k in
      record {
        prices = λ ps. refl;
        frugal = λ ps. record {
          create_gas = λ w v g c op salt. ext_create-gas (ext_vm db env n) ps w v g c op salt k f;
          call_gas = λ w p. ext_call-gas (ext_vm db env n) ps w p k f;
        };
      }

  -- So it is with every number of levels.
  pub ext_vm-Runs :
      (levels : ℕ) (ps : Params) (e : Executive)
      → IsSane env.evm_schedule
      → Runs (ext_vm db env levels) ps e
  ext_vm-Runs levels ps e k = run-Runs (ext_vm db env levels) ps e k (ext_vm-IsFair levels k)
