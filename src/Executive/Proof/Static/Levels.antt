-- ===== src/Executive/Proof/Static/Levels.antt =====
-- Executive::go and ExtVM::call of libaecereum/Executive.cpp and ExtVM.cpp in a frame that must not
-- change state, and the run of the interpreter there, with all the frames that it calls.
use cpp_aec.Base.{
  ℕ, zero, suc, ◌+◌, ◌*◌, ◌%◌, ◌≤◌, ◌<◌, ◌≡◌, refl, ap, sym, ◌∙◌, subst, true, false, Option, none,
  some, if◌then◌else◌, append-nil, arith,
}
use cpp_aec.Evm.Word.{u64_mod, u256_mod}
use cpp_aec.Evm.Schedule.{EvmSchedule}
use cpp_aec.Evm.Machine.{ExtVmFace, CallParameters, Outcome}
use cpp_aec.Evm.Interpreter.{exec}
use cpp_aec.Evm.Proof.Rules.{After}
use cpp_aec.Evm.Proof.Sound.{IsSane}
use cpp_aec.Evm.Proof.Ending.{exec-Ends}
use cpp_aec.Evm.Proof.Static.Frames.{IsQuiet}
use cpp_aec.Evm.Proof.Static.Run.{exec-Quiet}
use cpp_aec.State.Account.{Db}
use cpp_aec.State.Journal.{State}
use cpp_aec.State.Cache
use cpp_aec.State.Changes.{savepoint, clear_store}
use cpp_aec.State.Proof.Coherent.{IsLawful}
use cpp_aec.State.Proof.Undoing.{Journaled}
use cpp_aec.State.Proof.Moving.{balance-bound}
use cpp_aec.State.Proof.Querying.{Reads-World}
use cpp_aec.State.Proof.Quiet.{Quiet}
use cpp_aec.Executive.Frame.{after, Env, Params, Context, Stop, make_ext}
use cpp_aec.Executive.Starting.{Executive}
use cpp_aec.Executive.Running.{run, go_from, go, fuel_for, finished}
use cpp_aec.Executive.Frames.{leave_frame, ext_call, ext_vm}
use cpp_aec.Executive.Proof.Spending.{IsFair, ext_vm-IsFair}
use cpp_aec.Executive.Proof.Static.{IsStatic, Begun, call-Begun}
use cpp_aec.Executive.Proof.Static.Returning.{
  Calm, Calm-refl, Calm-trans, Ended, entry, returned-Ended,
}

module _ (db : Db) where
  -- A run has ended, and was calm.
  pub record CalmEnd (w : Context) (o : Option (Outcome Context (Unit {0}))) : Type 0 where
    pub outcome : Outcome Context (Unit {0})
    pub eq : o ≡ some outcome
    pub after : After (λ _ t. Calm db w t.world) (λ t. Calm db w t.world) outcome

module _ (db : Db) (law : IsLawful db) (env : Env) where
  -- In each static frame that a view gives, calls of static frames are calm.
  record Calms (ext : Params → ExtVmFace Context) : Type 0 where
    pub static : (ps : Params) → (ext ps).static_call ≡ ps.static_call
    pub quiet : (ps : Params) (w : Context) → ps.static_call ≡ true → IsQuiet (Calm db w) (ext ps)

  run-Ended :
      (ext : Params → ExtVmFace Context) (ps : Params) (s : State) (e : Executive)
      → IsSane env.evm_schedule
      → env.evm_schedule.have_create2 ≡ false
      → IsFair db env ext
      → Calms ext
      → IsStatic (some ps)
      → Quiet db s e.state
      → e.savepoint ≡ savepoint s
      → Ended db s (run db env ext ps e)
  unfolding run
  run-Ended ext ps s e k n f m h q p =
      let sane = subst IsSane (sym (f.prices ps)) k in
      let no_create2 = ap (λ (g : EvmSchedule). g.have_create2) (f.prices ps) ∙ n in
      let fuel = fuel_for db env e.gas in
      let r = exec-Ends (ext ps) fuel e.gas (entry e) sane (f.frugal ps) (omega arith) in
      let l =
        exec-Quiet (Calm db (entry e)) (ext ps) fuel e.gas (entry e) (m.quiet ps (entry e) h.0)
          (m.static ps ∙ h.0) no_create2 (Calm-refl db law env (entry e) q.undoable.journaled)
          r.outcome r.eq in
      let ran : Ended db s (finished db env ps (exec (ext ps) fuel e.gas (entry e)) e) =
        rw r.eq (returned-Ended db law env ps s r.outcome e h.1 q p l) in
      let cleared = after (clear_store db ps.my_address e.state) (entry e) in
      subst
        (λ b.
          Ended db s
            (finished db env ps (exec (ext ps) fuel e.gas (if b then cleared else entry e)) e))
        (sym h.1) ran

  go_from-Ended :
      (ext : Params → ExtVmFace Context) (x : Option Stop) (ps : Option Params) (s : State)
      (e : Executive)
      → IsSane env.evm_schedule
      → env.evm_schedule.have_create2 ≡ false
      → IsFair db env ext
      → Calms ext
      → IsStatic ps
      → Begun db law env s e
      → Ended db s (go_from db env ext x ps e)
  unfolding go_from
  go_from-Ended ext (some x) ps s e k n f m h b = record { quiet = b.quiet; bare = b.bare }
  go_from-Ended ext none none s e k n f m h b = record { quiet = b.quiet; bare = b.bare }
  go_from-Ended ext none (some ps) s e k n f m h b =
      run-Ended ext ps s e k n f m h b.quiet b.savepoint_eq

  go-Ended :
      (ext : Params → ExtVmFace Context) (s : State) (e : Executive)
      → IsSane env.evm_schedule
      → env.evm_schedule.have_create2 ≡ false
      → IsFair db env ext
      → Calms ext
      → Begun db law env s e
      → Ended db s (go db env ext e)
  unfolding go
  go-Ended ext s e k n f m b = go_from-Ended ext e.stop e.ext s e k n f m b.static b

  leave_frame-Calm :
      (e : Executive) (w : Context) → Ended db w.state e → Calm db w (leave_frame e w)
  leave_frame-Calm e w d = record {
    quiet = d.quiet;
    suicides_eq = rw d.bare.suicides_eq refl;
    logs_eq = rw d.bare.logs_eq (append-nil w.sub.logs);
  }

  ext_call-Calm :
      (ext : Params → ExtVmFace Context) (ps : Params) (w : Context) (p : CallParameters)
      → IsSane env.evm_schedule
      → env.evm_schedule.have_create2 ≡ false
      → IsFair db env ext
      → Calms ext
      → Journaled db w.state
      → p.value_transfer < u256_mod
      → p.static_call ≡ true
      → Calm db w (ext_call db env ext ps w p).world
  unfolding ext_call
  ext_call-Calm ext ps w p k n f m j v h = leave_frame-Calm _ w (
      go-Ended ext w.state _ k n f m
        (call-Begun db law env ps.gas_price ps.origin (ps.depth + 1) p w.state w.stop j v h))

  -- What is sent is within the balance, so it is a word.
  sent-bound :
      (ps : Params) (w : Context) (v : ℕ)
      → Journaled db w.state
      → v ≤ Cache.balance db ps.my_address w.state
      → v < u256_mod
  sent-bound ps w v j h =
      let e = (Reads-World db law w.state j.coherent ps.my_address).balance in
      let b = balance-bound db law w.state ps.my_address j.coherent in omega arith

  ext_vm-Calms :
      (levels : ℕ)
      → IsSane env.evm_schedule
      → env.evm_schedule.have_create2 ≡ false
      → Calms (ext_vm db env levels)
  unfolding ext_vm make_ext
  ext_vm-Calms zero k n = record {
    static = λ ps. refl;
    quiet = λ ps w0 h. record { call = λ w p q v c. c };
  }
  ext_vm-Calms (suc levels) k n = record {
    static = λ ps. refl;
    quiet = λ ps w0 h. record {
      call = λ w p q v c.
          let j = c.quiet.undoable.journaled in
          let below = ext_vm db env levels in
          Calm-trans db w0 w _ c (
            ext_call-Calm below ps w p k n (ext_vm-IsFair db env levels k) (ext_vm-Calms levels k n)
              j (sent-bound ps w p.value_transfer j v) q);
    };
  }

  -- Under a schedule without CREATE2 and with sane prices, from a state that satisfies the
  -- invariant, a run of exec in a frame of ext_vm that must not change state, with fuel 2 g + 3
  -- for the gas g modulo 2 ^ 64, returns or throws, and after it and all the frames that it has
  -- called, whether these returned, reverted or failed, every account that there was is as it was
  -- but for its balance, an account that there was not is missing or new, without code and with
  -- nothing stored, what was logged in the journal undoes all that, and no suicide and no log has
  -- been added.
  pub ext_vm-CalmEnd :
      (levels fuel gas : ℕ) (ps : Params) (w : Context)
      → IsSane env.evm_schedule
      → env.evm_schedule.have_create2 ≡ false
      → ps.static_call ≡ true
      → Journaled db w.state
      → 2 * (gas % u64_mod) + 3 ≤ fuel
      → CalmEnd db w (exec (ext_vm db env levels ps) fuel gas w)
  ext_vm-CalmEnd levels fuel gas ps w k n h j g =
      let ext = ext_vm db env levels in
      let f = ext_vm-IsFair db env levels k in
      let m = ext_vm-Calms levels k n in
      let sane = subst IsSane (sym (f.prices ps)) k in
      let no_create2 = ap (λ (x : EvmSchedule). x.have_create2) (f.prices ps) ∙ n in
      let r = exec-Ends (ext ps) fuel gas w sane (f.frugal ps) g in
      record {
        outcome = r.outcome;
        eq = r.eq;
        after =
            exec-Quiet (Calm db w) (ext ps) fuel gas w (m.quiet ps w h) (m.static ps ∙ h) no_create2
              (Calm-refl db law env w j) r.outcome r.eq;
      }
