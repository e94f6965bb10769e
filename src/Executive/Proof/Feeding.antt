-- ===== src/Executive/Proof/Feeding.antt =====
-- Frames within frames, of libaecereum/Executive.cpp and ExtVM.cpp: no run of the interpreter in any
-- of them lacks fuel.
use cpp_aec.Base.{
  ℕ, zero, suc, ◌+◌, ◌-◌, ◌==◌, sym, subst, false, ltb, leb, List, Option, none, some, inl, inr,
  Bool-cases, Option-cases, if◌then◌else◌, length, arith,
}
use cpp_aec.Evm.Machine.{
  ExtVmFace, CallParameters, CallResult, CreateResult, Fault, Outcome, ok, throw, out_of_gas,
  revert_instruction, bad_instruction, bad_jump_destination, out_of_stack, stack_underflow,
  disallowed_state_change, buffer_overrun,
}
use cpp_aec.Evm.Case.Calls.{op_create}
use cpp_aec.Evm.Proof.Rules.{After}
use cpp_aec.Evm.Proof.Sound.{IsSane}
use cpp_aec.Evm.Proof.Ending.{exec-Ends}
use cpp_aec.Evm.Proof.Holding.{exec-Leaves}
use cpp_aec.Evm.Proof.Worlds.{Maintains}
use cpp_aec.State.Account.{Db}
use cpp_aec.State.Journal
use cpp_aec.State.Journal.{with_start_nonce, ◌>>>◌, done}
use cpp_aec.State.Cache
use cpp_aec.State.Cache.{address_has_code, get_nonce}
use cpp_aec.State.Changes.{change_code, credit, clear_store, set_store, set_balance}
use cpp_aec.Executive.Frame.{
  Env, Params, Context, Stop, exits, no_fuel, no_sub, after, suicide, make_ext,
}
use cpp_aec.Executive.Starting.{Executive, and_then, revert, call, fresh_executive}
use cpp_aec.Executive.Running.{
  leave, deposit_cost, fail, caught, deposit, returned, fuel_for, run, go_from, go,
}
use cpp_aec.Executive.Frames.{no_call, no_create, ext_call, ext_create, ext_vm}
use cpp_aec.Executive.Proof.Beginning.{
  Carries, call-Carries, create_opcode-Carries, create2_opcode-Carries,
}
use cpp_aec.Executive.Proof.Spending.{IsFair, ext_vm-IsFair}

-- Fuel has not run out.
abbrev pub IsFed : Option Stop → Type 0
IsFed none = Unit {0}
IsFed (some (exits x)) = Unit {0}
IsFed (some no_fuel) = ⊥

after-IsFed : (o : Journal.Outcome) (w : Context) → IsFed w.stop → IsFed (after o w).stop
after-IsFed (Journal.done s) w h = h
after-IsFed (Journal.throw x s) w h = tt

just-IsFed :
    (o : Journal.Outcome) (e : Executive) → IsFed e.stop → IsFed (and_then o e (λ x. x)).stop
just-IsFed (Journal.done s) e h = h
just-IsFed (Journal.throw x s) e h = tt

-- Whatever frame is to be run.
abbrev FrameIsFed : Option Params → Option Stop → Type 0
FrameIsFed ps s = IsFed s

IsFed-Carries : (d : ℕ) → Carries d FrameIsFed
IsFed-Carries d = record { throws = λ f s x h. tt; frame = λ f s ps e h. h; bare = λ f s h. h }

module _ (db : Db) (env : Env) where
  caught-IsFed : (f : Fault) (e : Executive) → IsFed e.stop → IsFed (caught db env f e).stop
  unfolding caught fail revert
  caught-IsFed (revert_instruction out) e h = h
  caught-IsFed bad_instruction e h = h
  caught-IsFed bad_jump_destination e h = h
  caught-IsFed out_of_gas e h = h
  caught-IsFed out_of_stack e h = h
  caught-IsFed stack_underflow e h = h
  caught-IsFed disallowed_state_change e h = h
  caught-IsFed buffer_overrun e h = h

  deposit-IsFed :
      (a : ℕ) (out : List ℕ) (e : Executive) → IsFed e.stop → IsFed (deposit db env a out e).stop
  unfolding deposit fail revert
  deposit-IsFed a out e h =
      let paid = record e { gas = e.gas - deposit_cost db env out } in
      elim (Bool-cases (ltb env.evm_schedule.max_code_size (length out))) [
        | inl p ↦ rw p h
        | inr p ↦ elim (Bool-cases (leb (deposit_cost db env out) e.gas)) [
          | inl q ↦ rw (p, q) (just-IsFed (change_code db a out e.state) paid h)
          | inr q ↦ elim (Bool-cases env.evm_schedule.exceptional_failed_code_deposit) [
            | inl r ↦ rw (p, q, r) h
            | inr r ↦ rw (p, q, r) (just-IsFed _ e h)
          ]
        ]
      ]

  returned-IsFed :
      (ps : Params) (o : Outcome Context (Unit {0})) (e : Executive)
      → After (λ _ t. IsFed t.world.stop) (λ t. IsFed t.world.stop) o
      → IsFed (returned db env ps o e).stop
  unfolding returned
  returned-IsFed ps (ok _ t) e h = elim (Option-cases t.world.stop) [
    | inr (x, p) ↦ rw (p, returned) h
    | inl p ↦ elim (Bool-cases ps.is_create) [
      | inl q ↦ rw (p, returned, q) (deposit-IsFed ps.my_address t.output (leave t e) h)
      | inr q ↦ rw (p, returned, q) h
    ]
  ]
  returned-IsFed ps (throw f t) e h = elim (Option-cases t.world.stop) [
    | inr (x, p) ↦ rw (p, returned) h
    | inl p ↦ rw (p, returned) (caught-IsFed f (leave t e) h)
  ]

  -- Every frame that a view runs leaves fuel.
  abbrev Feeds : (Params → ExtVmFace Context) → Type 0
  Feeds ext = (ps : Params) → Maintains (λ w. IsFed w.stop) (ext ps)

  run-IsFed :
      (ext : Params → ExtVmFace Context) (ps : Params) (e : Executive)
      → IsSane env.evm_schedule
      → IsFair db env ext
      → Feeds ext
      → IsFed e.stop
      → IsFed (run db env ext ps e).stop
  unfolding run
  run-IsFed ext ps e k f m h =
      let w : Context = record { state = e.state; sub = no_sub; stop = e.stop } in
      let begun = if ps.is_create then after (clear_store db ps.my_address e.state) w else w in
      let h' : IsFed begun.stop = elim (Bool-cases ps.is_create) [
        | inl q ↦ rw q (after-IsFed (clear_store db ps.my_address e.state) w h)
        | inr q ↦ rw q h
      ] in
      let sane = subst IsSane (sym (f.prices ps)) k in
      let r =
        exec-Ends (ext ps) (fuel_for db env e.gas) e.gas begun sane (f.frugal ps) (omega arith) in
      let l =
        exec-Leaves (λ w. IsFed w.stop) (ext ps) (fuel_for db env e.gas) e.gas begun (m ps) h'
          r.outcome r.eq in
      rw r.eq (returned-IsFed ps r.outcome e l)

  go_from-IsFed :
      (ext : Params → ExtVmFace Context) (x : Option Stop) (ps : Option Params) (e : Executive)
      → IsSane env.evm_schedule
      → IsFair db env ext
      → Feeds ext
      → IsFed e.stop
      → IsFed (go_from db env ext x ps e).stop
  unfolding go_from
  go_from-IsFed ext (some x) ps e k f m h = h
  go_from-IsFed ext none none e k f m h = h
  go_from-IsFed ext none (some ps) e k f m h = run-IsFed ext ps e k f m h

  go-IsFed :
      (ext : Params → ExtVmFace Context) (e : Executive)
      → IsSane env.evm_schedule
      → IsFair db env ext
      → Feeds ext
      → IsFed e.stop
      → IsFed (go db env ext e).stop
  unfolding go
  go-IsFed ext e k f m h = go_from-IsFed ext e.stop e.ext e k f m h

  ext_call-IsFed :
      (ext : Params → ExtVmFace Context) (ps : Params) (w : Context) (p : CallParameters)
      → IsSane env.evm_schedule
      → IsFair db env ext
      → Feeds ext
      → IsFed w.stop
      → IsFed (ext_call db env ext ps w p).world.stop
  unfolding ext_call
  ext_call-IsFed ext ps w p k f m h =
      let d = ps.depth + 1 in
      go-IsFed ext _ k f m (
        call-Carries db env d FrameIsFed (IsFed-Carries d) false ps.gas_price ps.origin p
          (fresh_executive w.state w.stop) h)

  ext_create-IsFed :
      (ext : Params → ExtVmFace Context) (ps : Params) (w : Context) (endowment gas : ℕ)
      (init : List ℕ) (op salt : ℕ)
      → IsSane env.evm_schedule
      → IsFair db env ext
      → Feeds ext
      → IsFed w.stop
      → IsFed (ext_create db env ext ps w endowment gas init op salt).world.stop
  unfolding ext_create
  ext_create-IsFed ext ps w endowment gas init op salt k f m h =
      let begun = fresh_executive w.state w.stop in
      let d = ps.depth + 1 in
      let a =
        create_opcode-Carries db env d FrameIsFed (IsFed-Carries d) ps.my_address endowment
          ps.gas_price gas ps.origin init begun h in
      let b =
        create2_opcode-Carries db env d FrameIsFed (IsFed-Carries d) ps.my_address endowment
          ps.gas_price gas ps.origin init salt begun h in
      elim (Bool-cases (op == op_create)) [
        | inl q ↦ rw q (go-IsFed ext _ k f m a)
        | inr q ↦ rw q (go-IsFed ext _ k f m b)
      ]

  -- What a frame does itself leaves fuel, so it is enough that the frames below do.
  Feeds-make_ext :
      (call : Context → CallParameters → CallResult Context)
      (create : Context → (endowment gas : ℕ) → List ℕ → (op salt : ℕ) → CreateResult Context)
      (ps : Params)
      → ((w : Context) (p : CallParameters) → IsFed w.stop → IsFed (call w p).world.stop)
      → ((w : Context) (v g : ℕ) (c : List ℕ) (op salt : ℕ)
          → IsFed w.stop
          → IsFed (create w v g c op salt).world.stop)
      → Maintains (λ w. IsFed w.stop) (make_ext db env call create ps)
  unfolding make_ext suicide
  Feeds-make_ext call create ps h k = record {
    set_store = λ w n v p. after-IsFed (set_store db ps.my_address n v w.state) w p;
    suicide = λ w a p.
        after-IsFed
          (credit db a (Cache.balance db ps.my_address w.state) w.state >>> λ s.
            set_balance db ps.my_address 0 s)
          w p;
    log = λ w topics bytes p. p;
    create = k;
    call = h;
  }

  ext_vm-Feeds : (levels : ℕ) → IsSane env.evm_schedule → Feeds (ext_vm db env levels)
  unfolding ext_vm
  ext_vm-Feeds zero k =
      λ ps. Feeds-make_ext no_call no_create ps (λ w p h. h) (λ w v g c op salt h. h)
  ext_vm-Feeds (suc n) k = λ ps.
      let below = ext_vm db env n in
      let f = ext_vm-IsFair db env n k in
      let m = ext_vm-Feeds n k in
      Feeds-make_ext (ext_call db env below ps) (ext_create db env below ps) ps
        (λ w p h. ext_call-IsFed below ps w p k f m h)
        (λ w v g c op salt h. ext_create-IsFed below ps w v g c op salt k f m h)

  -- Under sane prices, however many frames can be nested, go ends with no run of the interpreter
  -- out of fuel, neither in the frame itself nor in any frame that it calls or creates.
  pub go-IsFed_levels :
      (levels : ℕ) (e : Executive)
      → IsSane env.evm_schedule
      → IsFed e.stop
      → IsFed (go db env (ext_vm db env levels) e).stop
  go-IsFed_levels levels e k h =
      go-IsFed (ext_vm db env levels) e k (ext_vm-IsFair db env levels k) (ext_vm-Feeds levels k) h
