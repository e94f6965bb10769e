-- ===== src/State/Proof/Moving.antt =====
-- State::transferBalance of libaecereum/State.h: money is neither made nor lost.
use cpp_aec.Base.{
  ℕ, ◌+◌, ◌%◌, ◌<◌, ◌≤◌, ◌==◌, ◌≡◌, ◌≢◌, refl, sym, ap, ◌∙◌, true, false, ltb, none, some, inl, inr,
  Bool-cases, Option-cases, arith,
}
use cpp_aec.Base.Dict.{lookup}
use cpp_aec.Evm.Word.{u256_mod}
use cpp_aec.State.Account.{Db}
use cpp_aec.State.Journal.{State, StateFault, Outcome, done, throw, not_enough_cash, invalid256}
use cpp_aec.State.Changes.{neg256, debit, transfer_balance}
use cpp_aec.State.World.{World, world, update}
use cpp_aec.State.Spec
use cpp_aec.State.Spec.{Answer}
use cpp_aec.State.Proof.Coherent.{IsLawful, Coherent}
use cpp_aec.State.Proof.Loading.{view_at-none, view_at-some}
use cpp_aec.State.Proof.Undoing.{Journaled}
use cpp_aec.State.Proof.Refining.{answer, debit-answer, transfer_balance-answer}

-- `v` has moved, and no other account has changed.
pub record Moves (from to v : ℕ) (w w' : World) : Type 0 where
  pub paid : Spec.balance (w' from) + v ≡ Spec.balance (w from)
  pub received : Spec.balance (w' to) ≡ Spec.balance (w to) + v
  pub others : (a : ℕ) → a ≢ from → a ≢ to → w' a ≡ w a

module _ (db : Db) where
  debit-Moves :
      (from v : ℕ) (w : World) (n : ℕ)
      → Spec.balance (w from) < u256_mod
      → v ≤ Spec.balance (w from)
      → (w' : World) × (Spec.debit db from v w n ≡ (none, w', n))
        × (Spec.balance (w' from) + v ≡ Spec.balance (w from))
        × ((a : ℕ) → a ≢ from → w' a ≡ w a)
  debit-Moves from v w n h k = elim (Bool-cases (v == 0)) [
    | inl e ↦ (w, rw e refl, ground arith, λ a q. refl)
    | inr e ↦ elim (Option-cases (w from)) [
      | inl q ↦ absurd (ground arith)
      | inr (x, q) ↦ (
        update w from (some (record x { balance = (x.balance + neg256 v) % u256_mod })),
        (let f : ltb x.balance v ≡ false = ground arith in rw (e, q, f) (rw (q, Spec.credit) refl)),
        ground arith,
        λ a r. ground arith,
      )
    ]
  ]

  credit-Moves :
      (to v : ℕ) (w : World) (n : ℕ)
      → Spec.balance (w to) + v < u256_mod
      → n ≢ invalid256
      → (w' : World) × (Spec.credit db to v w n ≡ (none, w', n))
        × (Spec.balance (w' to) ≡ Spec.balance (w to) + v)
        × ((a : ℕ) → a ≢ to → w' a ≡ w a)
  credit-Moves to v w n h k = elim (Option-cases (w to)) [
    | inl q ↦
        let f : (n == invalid256) ≡ false = ground arith in
        (
          update w to (some (Spec.fresh db n v)),
          rw (q, Spec.credit, f) refl,
          ground arith,
          λ a r. ground arith,
        )
    | inr (x, q) ↦ (
      update w to (some (record x { balance = (x.balance + v) % u256_mod })),
      rw (q, Spec.credit) refl,
      ground arith,
      λ a r. ground arith,
    )
  ]

  returns :
      (o : Outcome) (w : World) (n : ℕ)
      → answer db o ≡ (none, w, n)
      → (t : State) × (o ≡ done t) × (world db t ≡ w)
  returns (done t) w n e = (t, refl, ap (λ (x : Answer). x.1) e)
  returns (throw f t) w n e = cc (ap (λ (x : Answer). x.0) e)

  throws :
      (o : Outcome) (f : StateFault) (w : World) (n : ℕ)
      → answer db o ≡ (some f, w, n)
      → (t : State) × (o ≡ throw f t) × (world db t ≡ w)
  throws (done t) f w n e = cc (ap (λ (x : Answer). x.0) e)
  throws (throw g t) f w n e =
      let same : g ≡ f = cc (ap (λ (x : Answer). x.0) e) in
      (t, ap (λ (h : StateFault). throw h t) same, ap (λ (x : Answer). x.1) e)

  module _ (law : IsLawful db) where
    pub balance-bound : (s : State) (a : ℕ) → Coherent db s → Spec.balance (world db s a) < u256_mod
    balance-bound s a h = elim (Option-cases (lookup a s.cache)) [
      | inr (acc, e) ↦ rw e (h.fits a acc e).in_range
      | inl e ↦ elim (Option-cases (db.at a)) [
        | inl f ↦ rw (e, view_at-none db a f) (omega arith)
        | inr (st, f) ↦ rw (e, view_at-some db a st f) (law.in_range a st f)
      ]
    ]

    -- subBalance of what there is returns, and takes it from the one account.
    pub debit-Pays :
        (from v : ℕ) (s : State)
        → Journaled db s
        → v ≤ Spec.balance (world db s from)
        → (t : State) × (debit db from v s ≡ done t)
          × (Spec.balance (world db t from) + v ≡ Spec.balance (world db s from))
          × ((a : ℕ) → a ≢ from → world db t a ≡ world db s a)
    debit-Pays from v s j k =
        let (w, e, paid, others) =
          debit-Moves from v (world db s) s.start_nonce (balance-bound s from j.coherent) k in
        let (t, r, q) =
          returns (debit db from v s) w s.start_nonce
            (debit-answer db law from v s j.coherent ∙ e) in
        (
          t,
          r,
          ap (λ (z : World). Spec.balance (z from) + v) q ∙ paid,
          λ a d. ap (λ (z : World). z a) q ∙ others a d,
        )

    -- From a state that satisfies the invariant, with a starting nonce, between different
    -- accounts, where the payer has the amount and the receiver would not pass 2 ^ 256,
    -- transferBalance returns, the payer has the amount less, the receiver has it more, and no
    -- other account has changed.
    pub transfer_balance-Moves :
        (from to v : ℕ) (s : State)
        → Journaled db s
        → from ≢ to
        → v ≤ Spec.balance (world db s from)
        → Spec.balance (world db s to) + v < u256_mod
        → s.start_nonce ≢ invalid256
        → (t : State) × (transfer_balance db from to v s ≡ done t)
          × Moves from to v (world db s) (world db t)
    transfer_balance-Moves from to v s j d k h n =
        let w = world db s in
        let (w1, e1, paid, o1) =
          debit-Moves from v w s.start_nonce (balance-bound s from j.coherent) k in
        let same = o1 to (λ e. d (sym e)) in
        let (w2, e2, got, o2) = credit-Moves to v w1 s.start_nonce (rw same h) n in
        let a : answer db (transfer_balance db from to v s) ≡ (none, w2, s.start_nonce) =
          transfer_balance-answer db law from to v s j ∙ rw (e1, e2) refl in
        let (t, r, e) = returns (transfer_balance db from to v s) w2 s.start_nonce a in
        (
          t,
          r,
          rw e (record {
            paid = rw (o2 from d) paid;
            received = rw⁻¹ same got;
            others = λ x p q. o2 x q ∙ o1 x p;
          }),
        )

    -- From a state that satisfies the invariant, where the payer has less than the amount,
    -- transferBalance throws NotEnoughCash, and every account is seen as it was.
    pub transfer_balance-throws :
        (from to v : ℕ) (s : State)
        → Journaled db s
        → Spec.balance (world db s from) < v
        → (t : State) × (transfer_balance db from to v s ≡ throw not_enough_cash t)
          × (world db t ≡ world db s)
    transfer_balance-throws from to v s j h =
        let w = world db s in
        let z : (v == 0) ≡ false = ground arith in
        let e : Spec.debit db from v w s.start_nonce ≡ (some not_enough_cash, w, s.start_nonce) =
          elim (Option-cases (w from)) [
            | inl q ↦ rw (z, q) refl
            | inr (x, q) ↦ let f : ltb x.balance v ≡ true = ground arith in rw (z, q, f) refl
          ] in
        throws (transfer_balance db from to v s) not_enough_cash w s.start_nonce
          (transfer_balance-answer db law from to v s j ∙ rw e refl)
