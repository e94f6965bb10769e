-- ===== src/Executive/Proof/Static/Returning.antt =====
-- The end of Executive::go of libaecereum/Executive.cpp in a frame that must not change state.
use cpp_aec.Base.{◌≡◌, refl, ◌∙◌, false, inl, inr, Option-cases}
use cpp_aec.Evm.Machine.{
  Fault, Outcome, ok, throw, revert_instruction, bad_instruction, bad_jump_destination, out_of_gas,
  out_of_stack, stack_underflow, disallowed_state_change, buffer_overrun,
}
use cpp_aec.Evm.Proof.Rules.{After}
use cpp_aec.State.Account.{Db}
use cpp_aec.State.Journal.{State}
use cpp_aec.State.Changes.{rollback, savepoint}
use cpp_aec.State.Proof.Coherent.{IsLawful}
use cpp_aec.State.Proof.Undoing.{Journaled}
use cpp_aec.State.Proof.Quiet.{Quiet, Quiet-trans, nothing-Quiet, rollback-Quiet}
use cpp_aec.Executive.Frame.{Env, Params, Context, no_sub}
use cpp_aec.Executive.Starting.{Executive, revert}
use cpp_aec.Executive.Running.{leave, fail, caught, returned}
use cpp_aec.Executive.Proof.Static.{IsBare}

-- What go runs, from the context it begins with.
abbrev pub entry : Executive → Context
entry e = record { state = e.state; sub = no_sub; stop = e.stop }

module _ (db : Db) where
  -- No account is changed but for its balance, what is logged in the journal undoes that, and
  -- neither a suicide nor a log is added.
  pub record Calm (w w' : Context) : Type 0 where
    pub quiet : Quiet db w.state w'.state
    pub suicides_eq : w'.sub.suicides ≡ w.sub.suicides
    pub logs_eq : w'.sub.logs ≡ w.sub.logs

  pub Calm-trans : (u v w : Context) → Calm u v → Calm v w → Calm u w
  Calm-trans u v w p q = record {
    quiet = Quiet-trans db u.state v.state w.state p.quiet q.quiet;
    suicides_eq = q.suicides_eq ∙ p.suicides_eq;
    logs_eq = q.logs_eq ∙ p.logs_eq;
  }

  -- The same of a frame that has ended.
  pub record Ended (s : State) (e : Executive) : Type 0 where
    pub quiet : Quiet db s e.state
    pub bare : IsBare e.sub

module _ (db : Db) (law : IsLawful db) (env : Env) where
  pub Calm-refl : (w : Context) → Journaled db w.state → Calm db w w
  Calm-refl w j = record {
    quiet = nothing-Quiet db law w.state j;
    suicides_eq = refl;
    logs_eq = refl;
  }

  rolled_back :
      (s : State) (e : Executive)
      → Quiet db s e.state
      → e.savepoint ≡ savepoint s
      → Quiet db s (rollback db e.savepoint e.state)
  rolled_back s e q p = rw p (rollback-Quiet db law s e.state q.undoable)

  fail-Ended :
      (s : State) (f : Fault) (e : Executive)
      → Quiet db s (rollback db e.savepoint e.state)
      → Ended db s (fail db env f e)
  unfolding fail revert
  fail-Ended s f e q = record { quiet = q; bare = record { suicides_eq = refl; logs_eq = refl } }

  caught-Ended :
      (s : State) (f : Fault) (e : Executive)
      → Quiet db s (rollback db e.savepoint e.state)
      → Ended db s (caught db env f e)
  unfolding caught revert
  caught-Ended s (revert_instruction out) e q = record {
    quiet = q;
    bare = record { suicides_eq = refl; logs_eq = refl };
  }
  caught-Ended s bad_instruction e q = fail-Ended s bad_instruction e q
  caught-Ended s bad_jump_destination e q = fail-Ended s bad_jump_destination e q
  caught-Ended s out_of_gas e q = fail-Ended s out_of_gas e q
  caught-Ended s out_of_stack e q = fail-Ended s out_of_stack e q
  caught-Ended s stack_underflow e q = fail-Ended s stack_underflow e q
  caught-Ended s disallowed_state_change e q = fail-Ended s disallowed_state_change e q
  caught-Ended s buffer_overrun e q = fail-Ended s buffer_overrun e q

  pub returned-Ended :
      (ps : Params) (s : State) (o : Outcome Context (Unit {0})) (e : Executive)
      → ps.is_create ≡ false
      → Quiet db s e.state
      → e.savepoint ≡ savepoint s
      → After (λ _ t. Calm db (entry e) t.world) (λ t. Calm db (entry e) t.world) o
      → Ended db s (returned db env ps o e)
  unfolding returned
  returned-Ended ps s (ok _ t) e n q p c =
      let q' = Quiet-trans db s e.state t.world.state q c.quiet in
      let b : IsBare t.world.sub = record { suicides_eq = c.suicides_eq; logs_eq = c.logs_eq } in
      let bare : IsBare (leave t e).sub = record {
        suicides_eq = b.suicides_eq;
        logs_eq = b.logs_eq;
      } in
      elim (Option-cases t.world.stop) [
        | inr (x, r) ↦ rw (r, returned) (record { quiet = q'; bare = bare })
        | inl r ↦ rw (r, returned, n) (record { quiet = q'; bare = bare })
      ]
  returned-Ended ps s (throw f t) e n q p c =
      let q' = Quiet-trans db s e.state t.world.state q c.quiet in
      let bare : IsBare (leave t e).sub = record {
        suicides_eq = c.suicides_eq;
        logs_eq = c.logs_eq;
      } in
      elim (Option-cases t.world.stop) [
        | inr (x, r) ↦ rw (r, returned) (record { quiet = q'; bare = bare })
        | inl r ↦ rw (r, returned) (caught-Ended s f (leave t e) (rolled_back s (leave t e) q' p))
      ]
