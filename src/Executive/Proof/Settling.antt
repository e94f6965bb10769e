-- ===== src/Executive/Proof/Settling.antt =====
-- The end of a transaction, Executive::finalize of libaecereum/Executive.cpp: refunds and fees.
use cpp_aec.Base.{
  not, ◌≢◌, ℕ, ◌+◌, ◌-◌, ◌*◌, ◌/◌, ◌%◌, ◌≤◌, ◌<◌, ◌≡◌, refl, Bool, false, ltb, min, none, inl, inr,
  Bool-cases, arith,
}
use cpp_aec.Evm.Word.{u256_mod}
use cpp_aec.Evm.Proof.Sound.{IsSane}
use cpp_aec.State.Account.{Db}
use cpp_aec.State.Journal.{State, done, ◌>>>◌}
use cpp_aec.State.Cache
use cpp_aec.State.Cache.{get_nonce}
use cpp_aec.State.Changes.{credit, debit}
use cpp_aec.Executive.Frame.{Env}
use cpp_aec.Executive.Running.{go}
use cpp_aec.Executive.Starting.{and_then, Executive, fresh_executive}
use cpp_aec.Executive.Frames.{ext_vm}
use cpp_aec.State.Spec
use cpp_aec.State.World.{world}
use cpp_aec.State.Proof.Coherent.{IsLawful}
use cpp_aec.State.Proof.Undoing.{Journaled}
use cpp_aec.State.Proof.Moving.{debit-Pays, balance-bound}
use cpp_aec.State.Proof.Querying.{Reads-World}
use cpp_aec.Executive.Transaction.{
  is_null, pay_out, kill_suicides, finalize, Transaction, is_creation, base_gas_required,
  initialize, begin, execute, refunds, refunded, gas_left, gas_used, given_back, fees_earned,
  run_transaction,
}
use cpp_aec.Executive.Proof.Granting.{and_then-gas, call-gas, create_opcode-gas}
use cpp_aec.Executive.Proof.Spending.{go-gas, ext_vm-IsFair}

sub-mod : (a b : ℕ) → b ≤ a → a < u256_mod → (a + u256_mod - b) % u256_mod ≡ a - b
sub-mod a b h k = omega arith

split-mul : (l g p : ℕ) → l ≤ g → g * p ≡ l * p + (g - l) * p
split-mul l g p h = let d = g - l in let q : g ≡ l + d = omega arith in grind arith

shares-mod :
    (l g p : ℕ) → l ≤ g → g * p < u256_mod → l * p % u256_mod + (g - l) * p % u256_mod ≡ g * p
shares-mod l g p h k = let q = split-mul l g p h in omega arith

module _ (db : Db) (env : Env) where
  -- The shares of the sender and of the author in what was paid for `spent` gas less what is left.
  pub record Settled (t : Transaction) (e : Executive) : Type 0 where
    pub least : e.gas ≤ gas_left db env t e
    pub most : gas_left db env t e ≤ t.gas
    pub half : 2 * (gas_left db env t e - e.gas) ≤ t.gas - e.gas
    pub used : gas_used db env t e ≡ t.gas - gas_left db env t e
    pub shares : given_back db env t e + fees_earned db env t e ≡ t.gas * t.gas_price

  begin-gas :
      (t : Transaction) (e : Executive)
      → e.gas ≤ 0
      → (begin db env t e).gas ≤ t.gas - base_gas_required env t
  unfolding begin
  begin-gas t e h = elim (Bool-cases (is_creation t.type)) [
    | inl q ↦ rw q (
        create_opcode-gas db env t.sender t.value t.gas_price _ t.sender 0 t.data_bytes e
          (omega arith))
    | inr q ↦ rw q (call-gas db env (not (is_null t.type)) t.gas_price t.sender 0 _ e (omega arith))
  ]

  run_transaction-gas :
      (levels cost : ℕ) (t : Transaction) (s : State)
      → IsSane env.evm_schedule
      → (run_transaction db env levels cost t s).gas ≤ t.gas - base_gas_required env t
  unfolding run_transaction execute
  run_transaction-gas levels cost t s k =
      let e0 = fresh_executive s none in
      let a =
        and_then-gas (debit db t.sender cost s) e0 (begin db env t)
          (t.gas - base_gas_required env t) (omega arith) (λ x q. begin-gas t x (omega arith)) in
      let b =
        go-gas db env (ext_vm db env levels) (execute db env t cost e0) k
          (ext_vm-IsFair db env levels k) in
      omega arith

  settle :
      (t : Transaction) (e : Executive)
      → e.gas ≤ t.gas
      → t.gas < u256_mod
      → t.gas * t.gas_price < u256_mod
      → Settled t e
  unfolding given_back fees_earned gas_used gas_left refunded
  settle t e h g c =
      let r = min ((t.gas + u256_mod - e.gas) % u256_mod / 2) (refunds db env e) in
      let q = sub-mod t.gas e.gas h g in
      let small : r ≤ (t.gas - e.gas) / 2 = ground arith in
      let l : (e.gas + r) % u256_mod ≡ e.gas + r = omega arith in
      let u = sub-mod t.gas (e.gas + r) (omega arith) g in
      let s = shares-mod (e.gas + r) t.gas t.gas_price (omega arith) c in
      record {
        least = rw l (omega arith);
        most = rw l (omega arith);
        half = rw l (omega arith);
        used = rw (l, u) refl;
        shares = rw (l, u) s;
      }

  -- What initialize has seen to.
  record Accepted (t : Transaction) (s : State) (cost : ℕ) : Type 0 where
    pub base : base_gas_required env t ≤ t.gas
    pub affordable : t.value + t.gas * t.gas_price ≤ Cache.balance db t.sender s
    pub cost_eq : cost ≡ t.gas * t.gas_price % u256_mod

  initialize-Accepted :
      (is_signed : Transaction → Bool) (used : ℕ) (t : Transaction) (s : State) (cost : ℕ)
      → initialize db env is_signed used t s ≡ inr cost
      → t.has_zero_signature ≡ false
      → Accepted t s cost
  unfolding initialize
  initialize-Accepted is_signed used t s cost h z = elim (Bool-cases (is_signed t)) [
    | inr a ↦ absurd (ground arith)
    | inl a ↦ elim (Bool-cases (ltb t.gas (base_gas_required env t))) [
      | inl b ↦ absurd (ground arith)
      | inr b ↦ record { base = ground arith; affordable = ground arith; cost_eq = ground arith }
    ]
  ]

-- What becomes of an accepted transaction: its cost is taken from the sender before the frames run,
-- and after them finalize pays the shares out.
module _ (db : Db) (law : IsLawful db) (env : Env) where
  pub record Paid (levels cost : ℕ) (t : Transaction) (s : State) : Type 0 where
    pub prepaid : cost ≡ t.gas * t.gas_price
    pub advanced : State
    pub debited :
        Spec.balance (world db advanced t.sender) + cost ≡ Spec.balance (world db s t.sender)
    pub others : (a : ℕ) → a ≢ t.sender → world db advanced a ≡ world db s a
    pub runs :
        run_transaction db env levels cost t s
        ≡ go db env
            (ext_vm db env levels)
            (begin db env t (record (fresh_executive s none) { state = advanced }))
    pub settled : Settled db env t (run_transaction db env levels cost t s)
    pub minimum :
        base_gas_required env t ≤ 2 * gas_used db env t (run_transaction db env levels cost t s)
    pub closes :
        let e = run_transaction db env levels cost t s in
        finalize db env t e
        ≡ and_then
            (credit db t.sender (given_back db env t e) e.state
              >>> credit db env.author (fees_earned db env t e))
            (record e { gas = gas_left db env t e })
            (kill_suicides db env e.ext)

  finalize-closes :
      (t : Transaction) (e : Executive)
      → is_null t.type ≡ false
      → finalize db env t e
        ≡ and_then
            (credit db t.sender (given_back db env t e) e.state
              >>> credit db env.author (fees_earned db env t e))
            (record e { gas = gas_left db env t e })
            (kill_suicides db env e.ext)
  unfolding finalize pay_out
  finalize-closes t e n = rw n refl

  run_transaction-runs :
      (levels cost : ℕ) (t : Transaction) (s u : State)
      → debit db t.sender cost s ≡ done u
      → run_transaction db env levels cost t s
        ≡ go db env
            (ext_vm db env levels)
            (begin db env t (record (fresh_executive s none) { state = u }))
  unfolding run_transaction execute
  run_transaction-runs levels cost t s u r = rw r refl

  -- For a transaction that initialize accepts, neither the null transaction nor one with the zero
  -- signature, with gas below 2 ^ 256, under sane prices and from a state that satisfies the
  -- invariant, with the hash and the trie as for the rollback: execute takes gas times price from
  -- the sender and nothing from any other account, and the frames run from there; after them the
  -- gas that is refunded is at most half of the gas used, no more is left than was given and at
  -- least half of the basic gas has been used; and finalize credits the sender and then the author
  -- with shares that make up what was paid, without wrapping around, before it kills the suicides.
  pub run_transaction-Paid :
      (is_signed : Transaction → Bool) (used levels cost : ℕ) (t : Transaction) (s : State)
      → IsSane env.evm_schedule
      → Journaled db s
      → t.gas < u256_mod
      → is_null t.type ≡ false
      → t.has_zero_signature ≡ false
      → initialize db env is_signed used t s ≡ inr cost
      → Paid levels cost t s
  run_transaction-Paid is_signed used levels cost t s k j g n z h =
      let a = initialize-Accepted db env is_signed used t s cost h z in
      let e = run_transaction db env levels cost t s in
      let l = run_transaction-gas db env levels cost t s k in
      let b = (Reads-World db law s j.coherent t.sender).balance in
      let bound = balance-bound db law s t.sender j.coherent in
      let c = a.cost_eq in
      let (u, r, paid, others) = debit-Pays db law t.sender cost s j (omega arith) in
      let d = settle db env t e (omega arith) g (omega arith) in
      record {
        prepaid = omega arith;
        advanced = u;
        debited = paid;
        others = others;
        runs = run_transaction-runs levels cost t s u r;
        settled = d;
        minimum = let q = d.used in omega arith;
        closes = finalize-closes t e n;
      }
