-- ===== src/Executive/Proof/Beginning.antt =====
-- class Executive of libaecereum/Executive.cpp: what a call or a creation carries through from its
-- start to the run of the interpreter.
use cpp_aec.Base.{
  ℕ, ◌-◌, ◌||◌, ◌≡◌, refl, Bool, ltb, leb, List, [], ◌∷◌, Option, none, some, inl, inr, Bool-cases,
}
use cpp_aec.Evm.Machine.{CallParameters}
use cpp_aec.State.Account.{Db}
use cpp_aec.State.Journal
use cpp_aec.State.Journal.{State, StateFault, with_start_nonce, ◌>>>◌, done}
use cpp_aec.State.Cache.{address_has_code, get_nonce}
use cpp_aec.State.Changes.{transfer_balance, change_nonce, credit, savepoint}
use cpp_aec.Executive.Frame.{Env, Params, Stop, exits}
use cpp_aec.Executive.Starting.{
  Executive, and_then, revert, transfer, call_precompiled, call_code, call_from_savepoint, call,
  create_account_at, schedule_init, init_params, new_nonce, execute_create, create_opcode,
  create2_opcode, bump_nonce, out_of_gas_base,
}

-- What is true of the frame to be run and of the end of the process, and stays true when an exception
-- ends it, when a frame at the depth is set up and when none is.
pub record Carries (d : ℕ) (Q : Option Params → Option Stop → Type 0) : Type 0 where
  pub throws : (f : Option Params) (s : Option Stop) (x : StateFault) → Q f s → Q f (some (exits x))
  pub frame :
      (f : Option Params) (s : Option Stop) (ps : Params) → ps.depth ≡ d → Q f s → Q (some ps) s
  pub bare : (f : Option Params) (s : Option Stop) → Q f s → Q none s

module _ (db : Db) (env : Env) (d : ℕ) (Q : Option Params → Option Stop → Type 0)
    (c : Carries d Q) where
  abbrev Held : Executive → Type 0
  Held e = Q e.ext e.stop

  and_then-Carries :
      (o : Journal.Outcome) (e : Executive) (f : Executive → Executive)
      → Held e
      → ((x : Executive) → Held x → Held (f x))
      → Held (and_then o e f)
  and_then-Carries (Journal.done s) e f h k = k (record e { state = s }) h
  and_then-Carries (Journal.throw x s) e f h k = c.throws e.ext e.stop x h

  just-Carries : (o : Journal.Outcome) (e : Executive) → Held e → Held (and_then o e (λ x. x))
  just-Carries o e h = and_then-Carries o e (λ x. x) h (λ x q. q)

  transfer-Carries : (p : CallParameters) (e : Executive) → Held e → Held (transfer db env p e)
  unfolding transfer
  transfer-Carries p e h = just-Carries _ e h

  call_precompiled-Carries :
      (p : CallParameters) (e : Executive) → Held e → Held (call_precompiled db env p e)
  unfolding call_precompiled
  call_precompiled-Carries p e h =
      let g = env.cost_of_precompiled p.code_address p.input_data in
      let result = env.execute_precompiled p.code_address p.input_data in
      elim (Bool-cases (ltb p.gas g)) [
        | inl q ↦ elim (Bool-cases (leb env.eip158_fork_block env.number)) [
          | inl r ↦
              rw (q, r)
                (just-Carries (credit db p.code_address 0 e.state)
                  (record e { excepted = some out_of_gas_base }) h)
          | inr r ↦ rw (q, r) h
        ]
        | inr q ↦ elim (Bool-cases result.0) [
          | inl r ↦
              rw (q, r) (transfer-Carries p (record e { gas = p.gas - g; output = result.1 }) h)
          | inr r ↦ rw (q, r) h
        ]
      ]

  call_code-Carries :
      (gas_price origin : ℕ) (p : CallParameters) (e : Executive)
      → Held e
      → Held (call_code db env gas_price origin d p e)
  unfolding call_code
  call_code-Carries gas_price origin p e h =
      elim (Bool-cases (address_has_code db p.code_address e.state)) [
        | inl q ↦ rw q (transfer-Carries p _ (c.frame e.ext e.stop _ refl h))
        | inr q ↦ rw q (transfer-Carries p _ h)
      ]

  pub call-Carries :
      (b : Bool) (gas_price origin : ℕ) (p : CallParameters) (e : Executive)
      → Held e
      → Held (call db env b gas_price origin d p e)
  unfolding call call_from_savepoint
  call-Carries b gas_price origin p e h =
      and_then-Carries _ e (call_from_savepoint db env gas_price origin d p) h (λ x q.
        let e' = record x { savepoint = savepoint x.state } in
        elim (Bool-cases (env.is_precompiled p.code_address)) [
          | inl r ↦ rw r (call_precompiled-Carries p e' q)
          | inr r ↦ rw r (call_code-Carries gas_price origin p e' q)
        ])

  schedule_init-Carries :
      (ps : Params) (init : List ℕ) (x : Executive)
      → ps.depth ≡ d
      → Held x
      → Held (schedule_init db env ps init x)
  schedule_init-Carries ps [] x p h = h
  schedule_init-Carries ps (i ∷ is) x p h = c.frame x.ext x.stop _ p h

  create_account_at-Carries :
      (sender endowment gas_price gas origin : ℕ) (init : List ℕ) (e : Executive)
      → Held e
      → Held (create_account_at db env sender endowment gas_price gas origin d init e)
  unfolding create_account_at new_nonce
  create_account_at-Carries sender endowment gas_price gas origin init e h =
      let a = e.new_address in
      let ps = init_params db env a sender origin endowment gas_price d in
      and_then-Carries
        (transfer_balance db sender a endowment e.state >>> λ s.
          with_start_nonce s (λ n. change_nonce db a (new_nonce db env n) s))
        e (schedule_init db env ps init) h (λ y q. schedule_init-Carries ps init y refl q)

  execute_create-Carries :
      (sender endowment gas_price gas origin : ℕ) (init : List ℕ) (e : Executive)
      → Held e
      → Held (execute_create db env sender endowment gas_price gas origin d init e)
  unfolding execute_create revert
  execute_create-Carries sender endowment gas_price gas origin init e h =
      and_then-Carries (bump_nonce db env sender e.state) e _ h (λ x q.
        elim (Bool-cases (
          address_has_code db x.new_address x.state
          || ltb 0 (get_nonce db x.new_address x.state))) [
            | inl r ↦ rw r (c.bare x.ext x.stop q)
            | inr r ↦
                rw r (create_account_at-Carries sender endowment gas_price gas origin init _ q)
          ])

  pub create_opcode-Carries :
      (sender endowment gas_price gas origin : ℕ) (init : List ℕ) (e : Executive)
      → Held e
      → Held (create_opcode db env sender endowment gas_price gas origin d init e)
  unfolding create_opcode
  create_opcode-Carries sender endowment gas_price gas origin init e h =
      execute_create-Carries sender endowment gas_price gas origin init _ h

  pub create2_opcode-Carries :
      (sender endowment gas_price gas origin : ℕ) (init : List ℕ) (salt : ℕ) (e : Executive)
      → Held e
      → Held (create2_opcode db env sender endowment gas_price gas origin d init salt e)
  unfolding create2_opcode
  create2_opcode-Carries sender endowment gas_price gas origin init salt e h =
      execute_create-Carries sender endowment gas_price gas origin init _ h
