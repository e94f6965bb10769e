-- ===== src/State/Proof/Rollback.antt =====
-- State::rollback of libaecereum/State.cpp as a whole.
use cpp_aec.Base.{
  ℕ, suc, ◌==◌, ◌≡◌, refl, sym, ap, ◌∙◌, subst, true, false, List, [], ◌∷◌, ◌++◌, Option, some, inl,
  inr, Option-cases, length, length-append, arith,
}
use cpp_aec.Base.Dict.{Dict, lookup, lookup-insert}
use cpp_aec.State.Account.{Db, Account}
use cpp_aec.State.Journal.{Kind, Change, State, put_account}
use cpp_aec.State.Changes.{entry, undo_kind, undo, rollback_loop, rollback}
use cpp_aec.State.World.{
  View, World, view, world, update, undo_view, undo_option, undo_world, undo_all,
}
use cpp_aec.State.Proof.Coherent.{
  IsLawful, Coherent, Logged, is_first, dirty_in, world-put, put-Coherent,
}
use cpp_aec.State.Proof.Undoing.{Journaled, Restores, undo_kind-Undone, update-same}

abbrev popped : State → List Change → State
popped s cs = record s { change_log = cs }

module _ (db : Db) where
  undo_kind-popped :
      (k : Kind) (c : Change) (acc : Account) (s : State) (cs : List Change)
      → popped (undo_kind db k c acc s) cs ≡ undo_kind db k c acc (popped s cs)
  unfolding undo_kind
  undo_kind-popped Kind.storage c acc s cs = refl
  undo_kind-popped Kind.storage_root c acc s cs = refl
  undo_kind-popped Kind.balance c acc s cs = refl
  undo_kind-popped Kind.nonce c acc s cs = refl
  undo_kind-popped Kind.create c acc s cs = refl
  undo_kind-popped Kind.code c acc s cs = refl
  undo_kind-popped Kind.touch c acc s cs = refl

  undo_kind-log :
      (k : Kind) (c : Change) (acc : Account) (s : State)
      → (undo_kind db k c acc s).change_log ≡ s.change_log
  unfolding undo_kind
  undo_kind-log Kind.storage c acc s = refl
  undo_kind-log Kind.storage_root c acc s = refl
  undo_kind-log Kind.balance c acc s = refl
  undo_kind-log Kind.nonce c acc s = refl
  undo_kind-log Kind.create c acc s = refl
  undo_kind-log Kind.code c acc s = refl
  undo_kind-log Kind.touch c acc s = refl

  dirty_in-found :
      (d : Dict Account) (a : ℕ)
      → dirty_in d a ≡ true
      → (acc : Account) × (lookup a d ≡ some acc) × (acc.is_unchanged ≡ false)
  dirty_in-found d a h = elim (Option-cases (lookup a d)) [
    | inl e ↦ ground arith
    | inr e ↦ (e.0, e.1, ground arith)
  ]

  -- A round of rollback, with the change taken off the log.
  pub record Popped (s : State) (c : Change) (cs : List Change) (t : State) : Type 0 where
    pub journaled : Journaled db t
    pub world_eq : world db t ≡ undo_world db c (world db s)
    pub log_eq : t.change_log ≡ cs

  undo-Popped :
      IsLawful db
      → (s : State) (c : Change) (cs : List Change) → Journaled db s
      → s.change_log ≡ c ∷ cs
      → Popped s c cs (popped (undo db c s) cs)
  unfolding undo
  undo-Popped law s c cs j e =
      let h = j.coherent in
      let l = subst (Logged s.cache) e h.logged in
      let r = subst (Restores db (world db s)) e j.restores in
      let (acc, found, dirty) = dirty_in-found s.cache c.address l.0 in
      let u = put_account c.address acc (popped s cs) in
      let base : Coherent db (popped s cs) = record {
        missing = h.missing;
        clean = h.clean;
        fits = h.fits;
        logged = l.2;
      } in
      let k = put-Coherent db (popped s cs) c.address acc base dirty (h.fits c.address acc found) in
      let here : world db s c.address ≡ some (view db acc) = rw found refl in
      let same : world db u ≡ world db s =
        world-put db (popped s cs) c.address acc ∙ update-same (world db s) c.address _ here in
      let first = λ (q : is_first c.kind ≡ true). ap (undo_option db c) (sym here) ∙ r.0 q in
      let d =
        undo_kind-Undone db law c.kind c acc u k
          (ground (arith, lookup-insert c.address c.address acc s.cache)) dirty l.1 first in
      let w : world db (undo_kind db c.kind c acc u) ≡ undo_world db c (world db s) =
        d.world_eq
        ∙ ap (λ (z : World). update z c.address (undo_view db c.kind c (view db acc))) same
        ∙ ap (λ (z : Option View). update (world db s) c.address (undo_option db c z)) (sym here) in
      let eq = undo_kind-popped c.kind c acc (put_account c.address acc s) cs in
      let log = undo_kind-log c.kind c acc u in
      rw (found, entry)
        (rw eq (record {
          journaled = record { coherent = d.coherent; restores = rw (log, w) r.1 };
          world_eq = w;
          log_eq = log;
        }))

  -- The log is back, and every change since is undone, the newest first.
  pub record RolledBack (s : State) (es old : List Change) (t : State) : Type 0 where
    pub journaled : Journaled db t
    pub world_eq : world db t ≡ undo_all db es (world db s)
    pub log_eq : t.change_log ≡ old

  stop : (old : List Change) (s : State) → rollback_loop db (length old) old s ≡ s
  unfolding rollback_loop
  stop [] s = refl
  stop (c ∷ cs) s = ground arith

  rollback_loop-RolledBack :
      IsLawful db
      → (es old : List Change) (s : State) → Journaled db s
      → s.change_log ≡ es ++ old
      → RolledBack s es old (rollback_loop db (length old) (es ++ old) s)
  unfolding rollback_loop
  rollback_loop-RolledBack law [] old s j e =
      rw (stop old s) (record { journaled = j; world_eq = refl; log_eq = e })
  rollback_loop-RolledBack law (c ∷ es) old s j e =
      let p = undo-Popped law s c (es ++ old) j e in
      let r =
        rollback_loop-RolledBack law es old (popped (undo db c s) (es ++ old)) p.journaled
          p.log_eq in
      let longer : (length old == suc (length (es ++ old))) ≡ false =
        ground (arith, length-append es old) in
      rw longer (record {
        journaled = r.journaled;
        world_eq = r.world_eq ∙ ap (undo_all db es) p.world_eq;
        log_eq = r.log_eq;
      })

  pub rollback-RolledBack :
      IsLawful db
      → (es old : List Change) (s : State) → Journaled db s
      → s.change_log ≡ es ++ old
      → RolledBack s es old (rollback db (length old) s)
  unfolding rollback
  rollback-RolledBack law es old s j e =
      subst (λ cs. RolledBack s es old (rollback_loop db (length old) cs s)) (sym e)
        (rollback_loop-RolledBack law es old s j e)
