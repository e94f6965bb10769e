-- ===== src/State/Proof/Refining.antt =====
-- The functions of class State of libaecereum/State.cpp answer as the specification does.
use cpp_aec.Base.{
  ℕ, ◌+◌, ◌%◌, ◌==◌, ◌&&◌, ◌≡◌, refl, ap, ◌∙◌, ltb, List, none, some, inl, inr, Bool-cases,
  Option-cases, if◌then◌else◌, arith,
}
use cpp_aec.Base.Dict.{lookup}
use cpp_aec.Evm.Word.{u256_mod}
use cpp_aec.State.Account.{Db, Account, is_empty, new_account, add_balance, inc_nonce, set_nonce}
use cpp_aec.State.Journal.{
  State, StateFault, not_enough_cash, Outcome, done, throw, put_account, state_of, invalid256,
  ◌>>>◌, with_start_nonce,
}
use cpp_aec.State.Cache.{load, account_code, cached_storage}
use cpp_aec.State.Changes.{
  neg256, create_account, increment_nonce, change_nonce, credit, debit, transfer_balance, log_touch,
  log_balance,
}
use cpp_aec.State.World.{View, World, view, world, update}
use cpp_aec.State.Spec
use cpp_aec.State.Spec.{Answer, fresh, and_then}
use cpp_aec.State.Proof.Coherent.{IsLawful, Coherent, world-put}
use cpp_aec.State.Proof.Loading.{Unseen, load-Loaded}
use cpp_aec.State.Proof.Undoing.{Journaled, view-add_balance, view-set_nonce}
use cpp_aec.State.Proof.Crediting.{debit-Undoable}

module _ (db : Db) where
  abbrev pub answer : Outcome → Answer
  answer (done s) = (none, world db s, s.start_nonce)
  answer (throw e s) = (some e, world db s, s.start_nonce)

  view-new_account : (n v : ℕ) → view db (new_account db n v) ≡ fresh db n v
  unfolding account_code cached_storage
  view-new_account n v = ap (λ (cs : List ℕ). record (fresh db n v) { code = cs }) (ground arith)

  world-log_balance : (a v : ℕ) (s : State) → world db (log_balance a v s) ≡ world db s
  world-log_balance a v s = elim (Bool-cases (v == 0)) [ inl e ↦ rw e refl | inr e ↦ rw e refl ]

  log_balance-nonce : (a v : ℕ) (s : State) → (log_balance a v s).start_nonce ≡ s.start_nonce
  log_balance-nonce a v s = elim (Bool-cases (v == 0)) [ inl e ↦ rw e refl | inr e ↦ rw e refl ]

  log_touch-same :
      (a : ℕ) (acc : Account) (s : State)
      → ((log_touch db a acc s).cache ≡ s.cache)
        × ((log_touch db a acc s).start_nonce ≡ s.start_nonce)
  log_touch-same a acc s = elim (Bool-cases (acc.is_unchanged && is_empty db acc)) [
    | inl e ↦ rw e (refl, refl)
    | inr e ↦ rw e (refl, refl)
  ]

  create-answer :
      (s : State) (a : ℕ) (acc : ℕ → Account) (v : ℕ → View)
      → ((n : ℕ) → view db (acc n) ≡ v n)
      → (f : ℕ → State → State) → ((n : ℕ) (t : State) → world db (f n t) ≡ world db t)
      → ((n : ℕ) (t : State) → (f n t).start_nonce ≡ t.start_nonce)
      → answer (with_start_nonce s (λ n. done (f n (create_account a (acc n) s))))
        ≡ Spec.create db a v (world db s) s.start_nonce
  create-answer s a acc v e f fw fn = elim (Bool-cases (s.start_nonce == invalid256)) [
    | inl q ↦ rw q refl
    | inr q ↦
        let n = s.start_nonce in
        let t = create_account a (acc n) s in
        rw (q, fw n t, fn n t)
          (ap (λ (w : World). (none, w, n))
            (world-put db s a (acc n) ∙ ap (λ (z : View). update (world db s) a (some z)) (e n)))
  ]

  module _ (law : IsLawful db) where
    answer_account :
        (a : ℕ) (s : State) (hit : Account → Outcome) (miss : Outcome) (yea : View → Answer)
        (nay : Answer)
        → Coherent db s
        → ((acc : Account)
            → Coherent db (load db a s)
            → lookup a (load db a s).cache ≡ some acc
            → answer (hit acc) ≡ yea (view db acc))
        → (Coherent db (load db a s) → answer miss ≡ nay)
        → answer (elim (lookup a (load db a s).cache) as (λ o. Outcome) [
          | some acc ↦ hit acc
          | none ↦ miss
        ])
          ≡ elim (world db s a) as (λ o. Answer) [ none ↦ nay | some v ↦ yea v ]
    answer_account a s hit miss yea nay h f g =
        let p = load-Loaded db law a s h in
        elim (Option-cases (lookup a (load db a s).cache)) [
          | inl e ↦ rw (e, (p.not_found e).0) (g p.unseen.coherent)
          | inr (acc, e) ↦ rw (e, p.found acc e) (f acc p.unseen.coherent e)
        ]

    hit_answer :
        (a : ℕ) (s : State) (acc : Account) (v : View)
        → Coherent db s
        → view db acc ≡ v
        → answer (done (put_account a acc (load db a s)))
          ≡ (none, update (world db s) a (some v), s.start_nonce)
    hit_answer a s acc v h e =
        let u = (load-Loaded db law a s h).unseen in
        rw (world-put db (load db a s) a acc, e, u.world_eq, u.nonce_eq) refl

    pub credit-answer :
        (a v : ℕ) (s : State)
        → Coherent db s
        → answer (credit db a v s) ≡ Spec.credit db a v (world db s) s.start_nonce
    unfolding credit
    credit-answer a v s h =
        let u = (load-Loaded db law a s h).unseen in
        answer_account a s _ _ _ _ h
          (λ acc k l.
            let t = load db a s in
            let same = log_touch-same a acc t in
            let x = put_account a (add_balance v acc) (log_touch db a acc t) in
            rw (world-log_balance a v x, log_balance-nonce a v x, same.0, same.1)
              (hit_answer a s (add_balance v acc) _ h (view-add_balance db acc v)))
          (λ k.
            create-answer (load db a s) a (λ n. new_account db n v) (λ n. fresh db n v)
              (λ n. view-new_account n v) (λ n t. log_balance a v t)
              (λ n t. world-log_balance a v t) (λ n t. log_balance-nonce a v t)
            ∙ rw (u.world_eq, u.nonce_eq) refl)

    Unseen-answer :
        (s t : State) (a v : ℕ)
        → Unseen db s t
        → Spec.credit db a v (world db t) t.start_nonce
          ≡ Spec.credit db a v (world db s) s.start_nonce
    Unseen-answer s t a v u = rw (u.world_eq, u.nonce_eq) refl

    thrown_answer :
        (s t : State) (e : StateFault)
        → Unseen db s t
        → answer (throw e t) ≡ (some e, world db s, s.start_nonce)
    thrown_answer s t e u = rw (u.world_eq, u.nonce_eq) refl

    pub debit-answer :
        (a v : ℕ) (s : State)
        → Coherent db s
        → answer (debit db a v s) ≡ Spec.debit db a v (world db s) s.start_nonce
    unfolding debit
    debit-answer a v s h =
        let u = (load-Loaded db law a s h).unseen in
        let t = load db a s in
        let nothing = thrown_answer s t not_enough_cash u in
        elim (Bool-cases (v == 0)) [
          | inl e ↦ rw e refl
          | inr e ↦ rw e (
              answer_account a s _ _
                (λ x.
                  if ltb x.balance v
                  then (some not_enough_cash, world db s, s.start_nonce)
                  else Spec.credit db a (neg256 v) (world db s) s.start_nonce)
                _ h
                (λ acc k l. elim (Bool-cases (ltb acc.balance v)) [
                  | inl q ↦ rw q nothing
                  | inr q ↦ rw q (credit-answer a (neg256 v) t k ∙ Unseen-answer s t a (neg256 v) u)
                ])
                (λ k. nothing))
        ]

    pub then_answer :
        (o : Outcome) (f : State → Outcome) (g : World → ℕ → Answer)
        → Journaled db (state_of o)
        → ((t : State) → Journaled db t → answer (f t) ≡ g (world db t) t.start_nonce)
        → answer (o >>> f) ≡ and_then db (answer o) g
    then_answer (done t) f g j k = k t j
    then_answer (throw e t) f g j k = refl

    -- From a state that satisfies the invariant, transferBalance throws what the specification
    -- throws, and leaves the accounts and the starting nonce that it leaves, whatever the cache
    -- holds.
    pub transfer_balance-answer :
        (from to v : ℕ) (s : State)
        → Journaled db s
        → answer (transfer_balance db from to v s)
          ≡ Spec.transfer db from to v (world db s) s.start_nonce
    unfolding transfer_balance
    transfer_balance-answer from to v s j =
        then_answer (debit db from v s) (credit db to v) (Spec.credit db to v)
          (debit-Undoable db law from v s j).journaled (λ t k. credit-answer to v t k.coherent)
        ∙ ap (λ (x : Answer). and_then db x (Spec.credit db to v))
            (debit-answer from v s j.coherent)

    pub change_nonce-answer :
        (a n : ℕ) (s : State)
        → Coherent db s
        → answer (change_nonce db a n s) ≡ Spec.set_nonce db a n (world db s) s.start_nonce
    unfolding change_nonce
    change_nonce-answer a n s h =
        let u = (load-Loaded db law a s h).unseen in
        answer_account a s _ _ _ _ h
          (λ acc k l. hit_answer a s (set_nonce n acc) _ h (view-set_nonce db acc n))
          (λ k. hit_answer a s (new_account db n 0) _ h (view-new_account n 0))

    pub increment_nonce-answer :
        (a : ℕ) (s : State)
        → Coherent db s
        → answer (increment_nonce db a s) ≡ Spec.increment_nonce db a (world db s) s.start_nonce
    unfolding increment_nonce
    increment_nonce-answer a s h =
        let u = (load-Loaded db law a s h).unseen in
        answer_account a s _ _ _ _ h
          (λ acc k l. hit_answer a s (inc_nonce acc) _ h (view-set_nonce db acc _))
          (λ k.
            create-answer (load db a s) a (λ n. new_account db ((n + 1) % u256_mod) 0)
              (λ n. fresh db ((n + 1) % u256_mod) 0) (λ n. view-new_account _ 0) (λ n t. t)
              (λ n t. refl) (λ n t. refl)
            ∙ rw (u.world_eq, u.nonce_eq) refl)
