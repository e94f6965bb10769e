-- ===== src/Executive/Proof/Granting.antt =====
-- class Executive of libaecereum/Executive.cpp: a call or a creation begins with no more gas than it
-- is given.
use cpp_aec.Base.{
  ℕ, ◌-◌, ◌≤◌, ◌||◌, ◌≡◌, refl, Bool, ltb, leb, List, [], ◌∷◌, some, inl, inr, Bool-cases, arith,
}
use cpp_aec.Evm.Machine.{CallParameters}
use cpp_aec.State.Account.{Db}
use cpp_aec.State.Journal
use cpp_aec.State.Journal.{State, StateFault, done, with_start_nonce, ◌>>>◌}
use cpp_aec.State.Cache.{address_has_code, get_nonce}
use cpp_aec.State.Changes.{change_nonce, transfer_balance, credit, savepoint}
use cpp_aec.Executive.Frame.{Env, Params}
use cpp_aec.Executive.Starting.{
  Executive, out_of_gas_base, and_then, revert, transfer, call_precompiled, call_code,
  call_from_savepoint, call, create_account_at, schedule_init, init_params, new_nonce,
  execute_create, create_opcode, create2_opcode, bump_nonce,
}

pub and_then-gas :
    (o : Journal.Outcome) (e : Executive) (f : Executive → Executive) (g : ℕ)
    → e.gas ≤ g
    → ((x : Executive) → x.gas ≡ e.gas → (f x).gas ≤ g)
    → (and_then o e f).gas ≤ g
and_then-gas (Journal.done s) e f g h k = k (record e { state = s }) refl
and_then-gas (Journal.throw x s) e f g h k = h

pub just-gas :
    (o : Journal.Outcome) (e : Executive) (g : ℕ) → e.gas ≤ g → (and_then o e (λ x. x)).gas ≤ g
just-gas o e g h = and_then-gas o e (λ x. x) g h (λ x q. rw q h)

module _ (db : Db) (env : Env) where
  transfer-gas : (p : CallParameters) (e : Executive) → (transfer db env p e).gas ≤ e.gas
  unfolding transfer
  transfer-gas p e = just-gas _ e e.gas (omega arith)

  call_precompiled-gas :
      (p : CallParameters) (e : Executive)
      → e.gas ≤ p.gas
      → (call_precompiled db env p e).gas ≤ p.gas
  unfolding call_precompiled
  call_precompiled-gas p e h =
      let g = env.cost_of_precompiled p.code_address p.input_data in
      let result = env.execute_precompiled p.code_address p.input_data in
      elim (Bool-cases (ltb p.gas g)) [
        | inl q ↦ elim (Bool-cases (leb env.eip158_fork_block env.number)) [
          | inl r ↦
              rw (q, r)
                (just-gas (credit db p.code_address 0 e.state)
                  (record e { excepted = some out_of_gas_base }) p.gas h)
          | inr r ↦ rw (q, r) h
        ]
        | inr q ↦ elim (Bool-cases result.0) [
          | inl r ↦
              let t = transfer-gas p (record e { gas = p.gas - g; output = result.1 }) in
              rw (q, r) (ground arith)
          | inr r ↦ rw (q, r) (omega arith)
        ]
      ]

  call_code-gas :
      (gas_price origin depth : ℕ) (p : CallParameters) (e : Executive)
      → (call_code db env gas_price origin depth p e).gas ≤ p.gas
  unfolding call_code
  call_code-gas gas_price origin depth p e =
      elim (Bool-cases (address_has_code db p.code_address e.state)) [
        | inl q ↦ rw q (transfer-gas p _)
        | inr q ↦ rw q (transfer-gas p _)
      ]

  pub call-gas :
      (b : Bool) (gas_price origin depth : ℕ) (p : CallParameters) (e : Executive)
      → e.gas ≤ p.gas
      → (call db env b gas_price origin depth p e).gas ≤ p.gas
  unfolding call call_from_savepoint
  call-gas b gas_price origin depth p e h =
      and_then-gas _ e (call_from_savepoint db env gas_price origin depth p) p.gas h (λ x q.
        elim (Bool-cases (env.is_precompiled p.code_address)) [
          | inl r ↦
              rw r
                (call_precompiled-gas p (record x { savepoint = savepoint x.state }) (omega arith))
          | inr r ↦
              rw r (
                call_code-gas gas_price origin depth p (record x { savepoint = savepoint x.state }))
        ])

  schedule_init-gas :
      (ps : Params) (init : List ℕ) (x : Executive) → (schedule_init db env ps init x).gas ≡ x.gas
  schedule_init-gas ps [] x = refl
  schedule_init-gas ps (c ∷ cs) x = refl

  create_account_at-gas :
      (sender endowment gas_price gas origin depth : ℕ) (init : List ℕ) (e : Executive)
      → e.gas ≤ gas
      → (create_account_at db env sender endowment gas_price gas origin depth init e).gas ≤ gas
  unfolding create_account_at new_nonce
  create_account_at-gas sender endowment gas_price gas origin depth init e h =
      let a = e.new_address in
      let ps = init_params db env a sender origin endowment gas_price depth in
      and_then-gas
        (transfer_balance db sender a endowment e.state >>> λ s.
          with_start_nonce s (λ n. change_nonce db a (new_nonce db env n) s))
        e (schedule_init db env ps init) gas h
        (λ y s. let q = schedule_init-gas ps init y in omega arith)

  execute_create-gas :
      (sender endowment gas_price gas origin depth : ℕ) (init : List ℕ) (e : Executive)
      → e.gas ≤ gas
      → (execute_create db env sender endowment gas_price gas origin depth init e).gas ≤ gas
  unfolding execute_create revert
  execute_create-gas sender endowment gas_price gas origin depth init e h =
      and_then-gas (bump_nonce db env sender e.state) e _ gas h (λ x q.
        elim (Bool-cases (
          address_has_code db x.new_address x.state
          || ltb 0 (get_nonce db x.new_address x.state))) [
            | inl r ↦ rw r (omega arith)
            | inr r ↦ rw r (
                create_account_at-gas sender endowment gas_price gas origin depth init _
                  (omega arith))
          ])

  pub create_opcode-gas :
      (sender endowment gas_price gas origin depth : ℕ) (init : List ℕ) (e : Executive)
      → e.gas ≤ gas
      → (create_opcode db env sender endowment gas_price gas origin depth init e).gas ≤ gas
  unfolding create_opcode
  create_opcode-gas sender endowment gas_price gas origin depth init e h =
      execute_create-gas sender endowment gas_price gas origin depth init _ h

  pub create2_opcode-gas :
      (sender endowment gas_price gas origin depth : ℕ) (init : List ℕ) (salt : ℕ) (e : Executive)
      → e.gas ≤ gas
      → (create2_opcode db env sender endowment gas_price gas origin depth init salt e).gas ≤ gas
  unfolding create2_opcode
  create2_opcode-gas sender endowment gas_price gas origin depth init salt e h =
      execute_create-gas sender endowment gas_price gas origin depth init _ h
