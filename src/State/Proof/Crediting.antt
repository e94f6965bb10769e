-- ===== src/State/Proof/Crediting.antt =====
-- The changes of nonces and balances in libaecereum/State.cpp can be undone.
use cpp_aec.Base.{
  ℕ, ◌+◌, ◌%◌, ◌<◌, ◌==◌, ◌&&◌, ◌≡◌, refl, sym, ap, subst, true, false, ltb, none, some, inl, inr,
  Bool-cases, Option-cases, arith,
}
use cpp_aec.Base.Dict.{lookup, lookup-insert, insert-insert}
use cpp_aec.Evm.Word.{u256_mod}
use cpp_aec.State.Account.{Db, Account, is_empty, set_nonce, add_balance, new_account}
use cpp_aec.State.Journal.{
  Kind, State, Outcome, done, throw, put_account, log_change, change_of, state_of, invalid256,
  ◌>>>◌, with_start_nonce,
}
use cpp_aec.State.Cache.{load, account_code, cached_storage}
use cpp_aec.State.Changes.{
  neg256, create_account, increment_nonce, change_nonce, credit, debit, transfer_balance,
  set_balance, create_contract, log_touch, log_balance,
}
use cpp_aec.State.World.{view, view_at, world}
use cpp_aec.State.Proof.Coherent.{IsLawful, Fits, Absent-clean, dirty_in}
use cpp_aec.State.Proof.Loading.{load-Loaded, view_at-some}
use cpp_aec.State.Proof.Undoing.{Journaled}
use cpp_aec.State.Proof.Changing.{
  Undoable, Undoable-trans, Unseen-Undoable, mark-Undoable, change-Undoable,
  create_account-Undoable, new_account-Fits,
}

undo_credit :
    (b v : ℕ) → b < u256_mod → v < u256_mod → ((b + v) % u256_mod + neg256 v) % u256_mod ≡ b
undo_credit b v h k = omega arith

module _ (db : Db) (law : IsLawful db) where
  pub load-Undoable : (a : ℕ) (s : State) → Journaled db s → Undoable db s (load db a s)
  load-Undoable a s j = Unseen-Undoable db s _ j (load-Loaded db law a s j.coherent).unseen

  -- After the account is looked up, either branch can be undone.
  with_account :
      (a : ℕ) (s : State) (hit : Account → Outcome) (miss : Outcome)
      → Journaled db s
      → ((acc : Account)
          → Journaled db (load db a s)
          → lookup a (load db a s).cache ≡ some acc
          → Undoable db (load db a s) (state_of (hit acc)))
      → (Journaled db (load db a s)
          → lookup a (load db a s).cache ≡ none
          → db.at a ≡ none
          → Undoable db (load db a s) (state_of miss))
      → Undoable db s (
          state_of (elim (lookup a (load db a s).cache) as (λ o. Outcome) [
            | some acc ↦ hit acc
            | none ↦ miss
          ]))
  with_account a s hit miss j f g =
      let p = load-Undoable a s j in
      elim (Option-cases (lookup a (load db a s).cache)) [
        | inl e ↦ rw e (
            Undoable-trans db s (load db a s) _ p
              (g p.journaled e ((load-Loaded db law a s j.coherent).not_found e).1))
        | inr e ↦ rw e.1 (Undoable-trans db s (load db a s) _ p (f e.0 p.journaled e.1))
      ]

  create-Undoable :
      (a n v : ℕ) (s : State)
      → Journaled db s
      → lookup a s.cache ≡ none
      → db.at a ≡ none
      → v < u256_mod
      → Undoable db s (create_account a (new_account db n v) s)
  create-Undoable a n v s j l e h =
      create_account-Undoable db s a (new_account db n v) j refl (new_account-Fits db n v h) l e

  nonce-Undoable :
      (a n : ℕ) (s : State) (acc : Account)
      → Journaled db s
      → lookup a s.cache ≡ some acc
      → Undoable db s
          (log_change (change_of Kind.nonce a acc.nonce) (put_account a (set_nonce n acc) s))
  unfolding account_code cached_storage
  nonce-Undoable a n s acc j l =
      let k = j.coherent.fits a acc l in
      change-Undoable db s (change_of Kind.nonce a acc.nonce) (set_nonce n acc) j refl
        (record { in_range = k.in_range; hashed = k.hashed }) (rw l refl) (λ q. cc q)

  pub nothing-Undoable : (s : State) → Journaled db s → Undoable db s s
  nothing-Undoable s j =
      Unseen-Undoable db s s j
        (record { coherent = j.coherent; world_eq = refl; log_eq = refl; nonce_eq = refl })

  start_nonce-Undoable :
      (s : State) (f : ℕ → State)
      → Journaled db s
      → ((n : ℕ) → Undoable db s (f n))
      → Undoable db s (state_of (with_start_nonce s (λ n. done (f n))))
  start_nonce-Undoable s f j k = elim (Bool-cases (s.start_nonce == invalid256)) [
    | inl e ↦ rw e (nothing-Undoable s j)
    | inr e ↦ rw e (k s.start_nonce)
  ]

  pub change_nonce-Undoable :
      (a n : ℕ) (s : State) → Journaled db s → Undoable db s (state_of (change_nonce db a n s))
  unfolding change_nonce
  change_nonce-Undoable a n s j =
      with_account a s _ _ j (λ acc k l. nonce-Undoable a n _ acc k l)
        (λ k l e. create-Undoable a n 0 _ k l e (omega arith))

  pub increment_nonce-Undoable :
      (a : ℕ) (s : State) → Journaled db s → Undoable db s (state_of (increment_nonce db a s))
  unfolding increment_nonce
  increment_nonce-Undoable a s j =
      with_account a s _ _ j (λ acc k l. nonce-Undoable a ((acc.nonce + 1) % u256_mod) _ acc k l)
        (λ k l e.
          start_nonce-Undoable _ (λ n. create_account a (new_account db ((n + 1) % u256_mod) 0) _) k
            (λ n. create-Undoable a ((n + 1) % u256_mod) 0 _ k l e (omega arith)))

  -- The write of a balance with its own change, if the amount is not zero.
  balance-Undoable :
      (a v : ℕ) (s : State) (acc : Account)
      → Journaled db s
      → lookup a s.cache ≡ some acc
      → v < u256_mod
      → Undoable db s (log_balance a v (put_account a (add_balance v acc) s))
  unfolding account_code cached_storage
  balance-Undoable a v s acc j l h =
      let k = j.coherent.fits a acc l in
      let f : Fits db (add_balance v acc) = record { in_range = omega arith; hashed = k.hashed } in
      elim (Bool-cases (v == 0)) [
        | inl e ↦
            let z : (acc.balance + v) % u256_mod ≡ acc.balance = ground arith in
            rw e (
              mark-Undoable db s a (add_balance v acc) j refl f
                (rw l (ap (λ (b : ℕ). some (record (view db acc) { balance = b })) (sym z))))
        | inr e ↦ rw e (
            change-Undoable db s (change_of Kind.balance a v) (add_balance v acc) j refl f
              (rw l (
                ap (λ (b : ℕ). some (record (view db acc) { balance = b }))
                  (undo_credit acc.balance v k.in_range h)))
              (λ q. cc q))
      ]

  abbrev marked : Account → Account
  marked acc = record acc { is_unchanged = false }

  touch-Undoable :
      (a : ℕ) (s : State) (acc : Account)
      → Journaled db s
      → lookup a s.cache ≡ some acc
      → acc.is_unchanged ≡ true
      → Undoable db s (log_change (change_of Kind.touch a 0) (put_account a (marked acc) s))
  unfolding account_code cached_storage
  touch-Undoable a s acc j l u =
      let h = j.coherent in
      let k = h.fits a acc l in
      change-Undoable db s (change_of Kind.touch a 0) (marked acc) j refl
        (record { in_range = k.in_range; hashed = k.hashed }) (rw l refl)
        (λ q. (
          Absent-clean s.cache a s.change_log (rw (l, dirty_in, u) refl) h.logged,
          sym (h.clean a acc l u),
        ))

  credit_found-Undoable :
      (a v : ℕ) (s : State) (acc : Account)
      → Journaled db s
      → lookup a s.cache ≡ some acc
      → v < u256_mod
      → Undoable db s (log_balance a v (put_account a (add_balance v acc) (log_touch db a acc s)))
  credit_found-Undoable a v s acc j l h = elim (Bool-cases (acc.is_unchanged && is_empty db acc)) [
    | inr e ↦ rw e (balance-Undoable a v s acc j l h)
    | inl e ↦
        let p = touch-Undoable a s acc j l (ground arith) in
        let t = log_change (change_of Kind.touch a 0) (put_account a (marked acc) s) in
        let q =
          balance-Undoable a v t (marked acc) p.journaled
            (ground (arith, lookup-insert a a (marked acc) s.cache)) h in
        rw e (
          Undoable-trans db s t _ p (
            subst (λ d. Undoable db t (log_balance a v (record t { cache = d })))
              (insert-insert a (add_balance v acc) (marked acc) s.cache) q))
  ]

  endowed-Undoable :
      (a n v : ℕ) (s : State)
      → Journaled db s
      → lookup a s.cache ≡ none
      → db.at a ≡ none
      → v < u256_mod
      → Undoable db s (log_balance a v (create_account a (new_account db n v) s))
  unfolding account_code cached_storage
  endowed-Undoable a n v s j l e h = elim (Bool-cases (v == 0)) [
    | inl q ↦ rw q (create-Undoable a n v s j l e h)
    | inr q ↦
        let p = create-Undoable a n 0 s j l e (omega arith) in
        let t = create_account a (new_account db n 0) s in
        let here : lookup a t.cache ≡ some (new_account db n 0) =
          ground (arith, lookup-insert a a (new_account db n 0) s.cache) in
        let zero_left : (v + neg256 v) % u256_mod ≡ 0 = omega arith in
        let c =
          change-Undoable db t (change_of Kind.balance a v) (new_account db n v) p.journaled refl
            (new_account-Fits db n v h)
            (rw here (
              ap (λ (b : ℕ). some (record (view db (new_account db n 0)) { balance = b }))
                zero_left))
            (λ q. cc q) in
        rw q (
          Undoable-trans db s t _ p (
            subst
              (λ d.
                Undoable db t (log_change (change_of Kind.balance a v) (record t { cache = d })))
              (insert-insert a (new_account db n v) (new_account db n 0) s.cache) c))
  ]

  pub credit-Undoable :
      (a v : ℕ) (s : State)
      → Journaled db s
      → v < u256_mod
      → Undoable db s (state_of (credit db a v s))
  unfolding credit
  credit-Undoable a v s j h =
      with_account a s _ _ j (λ acc k l. credit_found-Undoable a v _ acc k l h)
        (λ k l e.
          start_nonce-Undoable _ (λ n. log_balance a v (create_account a (new_account db n v) _)) k
            (λ n. endowed-Undoable a n v _ k l e h))

  pub debit-Undoable :
      (a v : ℕ) (s : State) → Journaled db s → Undoable db s (state_of (debit db a v s))
  unfolding debit
  debit-Undoable a v s j = elim (Bool-cases (v == 0)) [
    | inl e ↦ rw e (nothing-Undoable s j)
    | inr e ↦ rw e (
        with_account a s _ _ j
          (λ acc k l. elim (Bool-cases (ltb acc.balance v)) [
            | inl q ↦ rw q (nothing-Undoable _ k)
            | inr q ↦ rw q (credit-Undoable a (neg256 v) _ k (omega arith))
          ])
          (λ k l q. nothing-Undoable _ k))
  ]

  then-Undoable :
      (s : State) (o : Outcome) (f : State → Outcome)
      → Undoable db s (state_of o)
      → ((t : State) → Journaled db t → Undoable db t (state_of (f t)))
      → Undoable db s (state_of (o >>> f))
  then-Undoable s (done t) f p k = Undoable-trans db s t _ p (k t p.journaled)
  then-Undoable s (throw e t) f p k = p

  pub transfer_balance-Undoable :
      (from to v : ℕ) (s : State)
      → Journaled db s
      → v < u256_mod
      → Undoable db s (state_of (transfer_balance db from to v s))
  unfolding transfer_balance
  transfer_balance-Undoable from to v s j h =
      then-Undoable s (debit db from v s) (credit db to v) (debit-Undoable from v s j)
        (λ t k. credit-Undoable to v t k h)

  pub set_balance-Undoable :
      (a v : ℕ) (s : State) → Journaled db s → Undoable db s (state_of (set_balance db a v s))
  unfolding set_balance
  set_balance-Undoable a v s j =
      let p = load-Undoable a s j in
      Undoable-trans db s (load db a s) _ p (credit-Undoable a _ _ p.journaled (omega arith))

  view_at-back : (a : ℕ) → view_at db a ≡ none → db.at a ≡ none
  view_at-back a h = elim (Option-cases (db.at a)) [
    | inl e ↦ e
    | inr e ↦ cc (h, view_at-some db a e.0 e.1)
  ]

  -- createContract asks that there is no account.
  pub create_contract-Undoable :
      (a : ℕ) (s : State)
      → Journaled db s
      → world db s a ≡ none
      → Undoable db s (state_of (create_contract db a s))
  unfolding create_contract
  create_contract-Undoable a s j h = elim (Option-cases (lookup a s.cache)) [
    | inl e ↦
        let base : view_at db a ≡ none = rw⁻¹ h (rw e refl) in
        start_nonce-Undoable s (λ n. create_account a (new_account db n 0) s) j
          (λ n. create-Undoable a n 0 s j e (view_at-back a base) (omega arith))
    | inr e ↦ ground arith
  ]
