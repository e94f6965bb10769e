-- ===== src/Executive/Proof/Depth.antt =====
-- Frames within frames, of libaecereum/ExtVM.cpp: how many can be nested.
use cpp_aec.Base.{
  ℕ, zero, suc, ◌+◌, ◌≤◌, ◌==◌, ◌≡◌, refl, ap, ◌∙◌, false, ltb, List, Option, none, some, inl, inr,
  Bool-cases, if◌then◌else◌, arith,
}
use cpp_aec.Evm.Machine.{ExtVmFace, CallParameters, CallResult, CreateResult, Outcome}
use cpp_aec.Evm.Interpreter.{exec}
use cpp_aec.Evm.Proof.Deep.{exec-with_frames}
use cpp_aec.Evm.Case.Calls.{op_create}
use cpp_aec.State.Account.{Db}
use cpp_aec.State.Changes.{clear_store}
use cpp_aec.Executive.Frame.{Env, Params, Context, Stop, no_sub, after, make_ext}
use cpp_aec.Executive.Starting.{Executive, call, create_opcode, create2_opcode, fresh_executive}
use cpp_aec.Executive.Running.{finished, fuel_for, run, go_from, go}
use cpp_aec.Executive.Frames.{
  no_call, no_create, is_success, leave_frame, ext_call, ext_create, ext_vm,
}
use cpp_aec.Executive.Proof.Beginning.{
  Carries, call-Carries, create_opcode-Carries, create2_opcode-Carries,
}

-- The frame that is to be run, if there is one, has the depth.
abbrev AtDepth : ℕ → Option Params → Type 0
AtDepth d none = Unit {0}
AtDepth d (some ps) = ps.depth ≡ d

-- No end of the process changes that.
abbrev FrameAtDepth : ℕ → Option Params → Option Stop → Type 0
FrameAtDepth d ps s = AtDepth d ps

AtDepth-Carries : (d : ℕ) → Carries d (FrameAtDepth d)
AtDepth-Carries d = record { throws = λ f s x h. h; frame = λ f s ps e h. e; bare = λ f s h. tt }

module _ (db : Db) (env : Env) where
  -- Two views of the frames below with the same runs at a depth.
  abbrev Agree : ℕ → (ext ext' : Params → ExtVmFace Context) → Type 0
  Agree d ext ext' = (ps : Params) → ps.depth ≡ d → exec (ext ps) ≡ exec (ext' ps)

  run-Agree :
      (ext ext' : Params → ExtVmFace Context) (ps : Params) (e : Executive)
      → exec (ext ps) ≡ exec (ext' ps)
      → run db env ext ps e ≡ run db env ext' ps e
  unfolding run
  run-Agree ext ext' ps e h =
      let w : Context = record { state = e.state; sub = no_sub; stop = e.stop } in
      let begun = if ps.is_create then after (clear_store db ps.my_address e.state) w else w in
      ap
        (λ (f : (fuel gas : ℕ) → Context → Option (Outcome Context (Unit {0}))).
          finished db env ps (f (fuel_for db env e.gas) e.gas begun) e)
        h

  go_from-Agree :
      (d : ℕ) (ext ext' : Params → ExtVmFace Context) (x : Option Stop) (ps : Option Params)
      (e : Executive)
      → Agree d ext ext'
      → AtDepth d ps
      → go_from db env ext x ps e ≡ go_from db env ext' x ps e
  unfolding go_from
  go_from-Agree d ext ext' (some x) ps e a h = refl
  go_from-Agree d ext ext' none none e a h = refl
  go_from-Agree d ext ext' none (some ps) e a h = run-Agree ext ext' ps e (a ps h)

  go-Agree :
      (d : ℕ) (ext ext' : Params → ExtVmFace Context) (e : Executive)
      → Agree d ext ext'
      → AtDepth d e.ext
      → go db env ext e ≡ go db env ext' e
  unfolding go
  go-Agree d ext ext' e a h = go_from-Agree d ext ext' e.stop e.ext e a h

  -- What `ext_call` and `ext_create` make of the frame that has begun.
  abbrev called : Context → Executive → CallResult Context
  called w e = record {
    success = is_success e.excepted;
    output = e.output;
    gas = e.gas;
    world = leave_frame e w;
  }

  abbrev created : Context → Executive → CreateResult Context
  created w e = record {
    address = e.new_address;
    output = e.output;
    gas = e.gas;
    world = leave_frame e w;
  }

  ext_call-Agree :
      (ext ext' : Params → ExtVmFace Context) (ps : Params) (w : Context) (p : CallParameters)
      → Agree (ps.depth + 1) ext ext'
      → ext_call db env ext ps w p ≡ ext_call db env ext' ps w p
  unfolding ext_call
  ext_call-Agree ext ext' ps w p a =
      let begun = fresh_executive w.state w.stop in
      let e = call db env false ps.gas_price ps.origin (ps.depth + 1) p begun in
      ap (called w) (
        go-Agree (ps.depth + 1) ext ext' e a (
          call-Carries db env (ps.depth + 1) (FrameAtDepth (ps.depth + 1))
            (AtDepth-Carries (ps.depth + 1)) false ps.gas_price ps.origin p begun tt))

  ext_create-Agree :
      (ext ext' : Params → ExtVmFace Context) (ps : Params) (w : Context) (endowment gas : ℕ)
      (init : List ℕ) (op salt : ℕ)
      → Agree (ps.depth + 1) ext ext'
      → ext_create db env ext ps w endowment gas init op salt
        ≡ ext_create db env ext' ps w endowment gas init op salt
  unfolding ext_create
  ext_create-Agree ext ext' ps w endowment gas init op salt a =
      let begun = fresh_executive w.state w.stop in
      let me = ps.my_address in
      let d = ps.depth + 1 in
      let e = create_opcode db env me endowment ps.gas_price gas ps.origin d init begun in
      let e2 = create2_opcode db env me endowment ps.gas_price gas ps.origin d init salt begun in
      let h =
        create_opcode-Carries db env d (FrameAtDepth d) (AtDepth-Carries d) me endowment
          ps.gas_price gas ps.origin init begun tt in
      let h2 =
        create2_opcode-Carries db env d (FrameAtDepth d) (AtDepth-Carries d) me endowment
          ps.gas_price gas ps.origin init salt begun tt in
      let same = ap (created w) (go-Agree d ext ext' e a h) in
      let same2 = ap (created w) (go-Agree d ext ext' e2 a h2) in
      elim (Bool-cases (op == op_create)) [ inl q ↦ rw q same | inr q ↦ rw q same2 ]

  -- A frame at depth d under which at least 1024 - d more can be nested runs as it does with any
  -- larger number: exec returns or throws the same, with the same accounts, so the number of
  -- levels that the model gives is no bound of its own.
  pub ext_vm-enough :
      (levels more : ℕ) (ps : Params)
      → levels ≤ more
      → 1024 ≤ ps.depth + levels
      → exec (ext_vm db env levels ps) ≡ exec (ext_vm db env more ps)
  unfolding ext_vm make_ext
  ext_vm-enough zero zero ps l h = refl
  ext_vm-enough zero (suc m) ps l h =
      let deep : ltb ps.depth 1024 ≡ false = ground arith in
      let below = ext_vm db env m in
      λ i fuel gas w.
        exec-with_frames (make_ext db env no_call no_create ps) (ext_call db env below ps)
          (ext_create db env below ps) deep fuel gas w i
  ext_vm-enough (suc n) zero ps l h = absurd (omega arith)
  ext_vm-enough (suc n) (suc m) ps l h =
      let few = ext_vm db env n in
      let many = ext_vm db env m in
      let a : Agree (ps.depth + 1) few many =
        λ q e. ext_vm-enough n m q (omega arith) (rw e (omega arith)) in
      ap
        (λ (f : Context → CallParameters → CallResult Context).
          exec (make_ext db env f (ext_create db env few ps) ps))
        (λ i w p. ext_call-Agree few many ps w p a i)
      ∙ ap
          (λ (f : Context → (endowment gas : ℕ) → List ℕ → (op salt : ℕ) → CreateResult Context).
            exec (make_ext db env (ext_call db env many ps) f ps))
          (λ i w v g c op salt. ext_create-Agree few many ps w v g c op salt a i)
