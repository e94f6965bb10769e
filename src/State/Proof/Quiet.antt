-- ===== src/State/Proof/Quiet.antt =====
-- Calls of class State of libaecereum/State.cpp that change no account but for its balance: loads,
-- transfers, and rollbacks over them.
use cpp_aec.Base.{
  ℕ, ◌+◌, ◌%◌, ◌<◌, ◌==◌, ◌≡◌, ◌⊎◌, refl, ap, sym, subst, ltb, Option, none, some, inl, inr,
  Bool-cases, Option-cases, arith,
}
use cpp_aec.Evm.Word.{u256_mod}
use cpp_aec.State.Account.{Db}
use cpp_aec.State.Journal.{
  State, Outcome, done, throw, state_of, invalid256, not_enough_cash, invalid_start_nonce, ◌>>>◌,
}
use cpp_aec.State.Cache.{load, code}
use cpp_aec.State.Changes.{neg256, credit, debit, transfer_balance, rollback, savepoint}
use cpp_aec.State.World.{View, World, world, update}
use cpp_aec.State.Spec
use cpp_aec.State.Spec.{Answer, fresh}
use cpp_aec.State.Proof.Coherent.{IsLawful}
use cpp_aec.State.Proof.Loading.{Unseen, load-Loaded}
use cpp_aec.State.Proof.Undoing.{Journaled}
use cpp_aec.State.Proof.Changing.{Undoable, Undoable-trans, Unseen-Undoable}
use cpp_aec.State.Proof.Crediting.{credit-Undoable, debit-Undoable, nothing-Undoable}
use cpp_aec.State.Proof.Writing.{code-Unseen}
use cpp_aec.State.Proof.Refining.{answer, credit-answer, debit-answer}
use cpp_aec.State.Proof.History.{Undoable-Restored, Restored-Undoable}

module _ (db : Db) where
  -- An account keeps all but its balance; a missing one may be a new one without code and storage.
  abbrev pub Alike : Option View → Option View → Type 0
  Alike (some v) x = (b : ℕ) × (x ≡ some (record v { balance = b }))
  Alike none x = (x ≡ none) ⊎ ((n : ℕ) × (b : ℕ) × (x ≡ some (fresh db n b)))

  abbrev pub AlikeWorlds : World → World → Type 0
  AlikeWorlds w w' = (a : ℕ) → Alike (w a) (w' a)

  Alike-refl : (x : Option View) → Alike x x
  Alike-refl none = inl refl
  Alike-refl (some v) = (v.balance, refl)

  Alike-trans : (x y z : Option View) → Alike x y → Alike y z → Alike x z
  Alike-trans (some v) y z (b, e) q = let (c, f) = subst (λ y. Alike y z) e q in (c, f)
  Alike-trans none y z (inl e) q = subst (λ y. Alike y z) e q
  Alike-trans none y z (inr (n, b, e)) q = let (c, f) = subst (λ y. Alike y z) e q in inr (n, c, f)

  Alike-update :
      (w : World) (a : ℕ) (x : Option View) → Alike (w a) x → AlikeWorlds w (update w a x)
  Alike-update w a x h b = elim (Bool-cases (b == a)) [
    | inl e ↦ let q : b ≡ a = ground arith in rw e (rw q h)
    | inr e ↦ rw e (Alike-refl (w b))
  ]

  same_answer : (w : World) (x y : Answer) → x ≡ y → AlikeWorlds w y.1 → AlikeWorlds w x.1
  same_answer w x y e h = subst (λ (z : Answer). AlikeWorlds w z.1) (sym e) h

  credit-Alike : (a v : ℕ) (w : World) (n : ℕ) → AlikeWorlds w (Spec.credit db a v w n).1
  credit-Alike a v w n = elim (Option-cases (w a)) [
    | inl q ↦ elim (Bool-cases (n == invalid256)) [
      | inl f ↦
          same_answer w (Spec.credit db a v w n) (some invalid_start_nonce, w, n)
            (rw (q, Spec.credit, f) refl) (λ b. Alike-refl (w b))
      | inr f ↦
          same_answer w (Spec.credit db a v w n) (none, update w a (some (fresh db n v)), n)
            (rw (q, Spec.credit, f) refl)
            (Alike-update w a (some (fresh db n v)) (rw q (inr (n, v, refl))))
    ]
    | inr (x, q) ↦
        let y = some (record x { balance = (x.balance + v) % u256_mod }) in
        same_answer w (Spec.credit db a v w n) (none, update w a y, n) (rw (q, Spec.credit) refl)
          (Alike-update w a y (rw q ((x.balance + v) % u256_mod, refl)))
  ]

  debit-Alike : (a v : ℕ) (w : World) (n : ℕ) → AlikeWorlds w (Spec.debit db a v w n).1
  debit-Alike a v w n = elim (Bool-cases (v == 0)) [
    | inl e ↦ rw e (λ b. Alike-refl (w b))
    | inr e ↦ elim (Option-cases (w a)) [
      | inl q ↦
          same_answer w (Spec.debit db a v w n) (some not_enough_cash, w, n)
            (rw (e, q, Spec.debit) refl) (λ b. Alike-refl (w b))
      | inr (x, q) ↦ elim (Bool-cases (ltb x.balance v)) [
        | inl f ↦
            same_answer w (Spec.debit db a v w n) (some not_enough_cash, w, n)
              (rw (e, q, Spec.debit, f) refl) (λ b. Alike-refl (w b))
        | inr f ↦
            same_answer w (Spec.debit db a v w n) (Spec.credit db a (neg256 v) w n)
              (rw (e, q, Spec.debit, f) refl) (credit-Alike a (neg256 v) w n)
      ]
    ]
  ]

  -- What is logged undoes what is done, and that is quiet.
  pub record Quiet (s t : State) : Type 0 where
    pub undoable : Undoable db s t
    pub alike : AlikeWorlds (world db s) (world db t)

  pub Quiet-trans : (s t u : State) → Quiet s t → Quiet t u → Quiet s u
  Quiet-trans s t u p q = record {
    undoable = Undoable-trans db s t u p.undoable q.undoable;
    alike = λ a. Alike-trans (world db s a) (world db t a) (world db u a) (p.alike a) (q.alike a);
  }

  same_world-Quiet : (s t : State) → Undoable db s t → world db t ≡ world db s → Quiet s t
  same_world-Quiet s t u e = record {
    undoable = u;
    alike =
        λ a. subst (λ (w : World). Alike (world db s a) (w a)) (sym e) (Alike-refl (world db s a));
  }

  Unseen-Quiet : (s t : State) → Journaled db s → Unseen db s t → Quiet s t
  Unseen-Quiet s t j u = same_world-Quiet s t (Unseen-Undoable db s t j u) u.world_eq

  answer-world : (o : Outcome) (x : Answer) → answer db o ≡ x → world db (state_of o) ≡ x.1
  answer-world (done t) x e = ap (λ (y : Answer). y.1) e
  answer-world (throw f t) x e = ap (λ (y : Answer). y.1) e

  answer-Quiet :
      (s : State) (o : Outcome) (x : Answer)
      → Undoable db s (state_of o)
      → answer db o ≡ x
      → AlikeWorlds (world db s) x.1
      → Quiet s (state_of o)
  answer-Quiet s o x u e h = record {
    undoable = u;
    alike = λ a. subst (λ (w : World). Alike (world db s a) (w a)) (sym (answer-world o x e)) (h a);
  }

  then_Quiet :
      (s : State) (o : Outcome) (f : State → Outcome)
      → Quiet s (state_of o)
      → ((t : State) → Journaled db t → Quiet t (state_of (f t)))
      → Quiet s (state_of (o >>> f))
  then_Quiet s (done t) f p k = Quiet-trans s t _ p (k t p.undoable.journaled)
  then_Quiet s (throw e t) f p k = p

  module _ (law : IsLawful db) where
    pub nothing-Quiet : (s : State) → Journaled db s → Quiet s s
    nothing-Quiet s j = same_world-Quiet s s (nothing-Undoable db law s j) refl

    pub load-Quiet : (a : ℕ) (s : State) → Journaled db s → Quiet s (load db a s)
    load-Quiet a s j = Unseen-Quiet s _ j (load-Loaded db law a s j.coherent).unseen

    pub code-Quiet : (a : ℕ) (s : State) → Journaled db s → Quiet s (code db a s).0
    code-Quiet a s j = Unseen-Quiet s _ j (code-Unseen db law a s j.coherent)

    pub credit-Quiet :
        (a v : ℕ) (s : State) → v < u256_mod → Journaled db s → Quiet s (state_of (credit db a v s))
    credit-Quiet a v s h j =
        answer-Quiet s (credit db a v s) _ (credit-Undoable db law a v s j h)
          (credit-answer db law a v s j.coherent) (credit-Alike a v (world db s) s.start_nonce)

    pub transfer_balance-Quiet :
        (from to v : ℕ) (s : State)
        → v < u256_mod
        → Journaled db s
        → Quiet s (state_of (transfer_balance db from to v s))
    unfolding transfer_balance
    transfer_balance-Quiet from to v s h j =
        then_Quiet s (debit db from v s) (credit db to v)
          (answer-Quiet s (debit db from v s) _ (debit-Undoable db law from v s j)
            (debit-answer db law from v s j.coherent)
            (debit-Alike from v (world db s) s.start_nonce))
          (λ t k. credit-Quiet to v t h k)

    -- A rollback over what can be undone.
    pub rollback-Quiet : (s t : State) → Undoable db s t → Quiet s (rollback db (savepoint s) t)
    rollback-Quiet s t u =
        let r = Undoable-Restored db law s t u in
        same_world-Quiet s _ (Restored-Undoable db law s _ r) r.world_eq
