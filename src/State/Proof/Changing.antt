-- ===== src/State/Proof/Changing.antt =====
-- The functions of class State, libaecereum/State.cpp, that change accounts: what they log undoes
-- what they do.
use cpp_aec.Base.{
  ℕ, ◌<◌, ◌≡◌, refl, sym, ap, ◌∙◌, true, false, List, [], ◌∷◌, ◌++◌, none, some, append_assoc,
  arith,
}
use cpp_aec.Base.Dict.{contains, lookup, lookup-insert}
use cpp_aec.Evm.Word.{u256_mod}
use cpp_aec.State.Account.{Db, Account, new_account}
use cpp_aec.State.Journal.{Kind, Change, State, put_account, log_change, change_of}
use cpp_aec.State.Cache.{account_code}
use cpp_aec.State.Changes.{remove, create_account}
use cpp_aec.State.World.{World, view, view_at, world, undo_view, undo_option, undo_world, undo_all}
use cpp_aec.State.Proof.Coherent.{
  Fits, Absent, Absent-clean, is_first, dirty_in, dirty_in-insert, world-put, put-Coherent,
  log-Coherent,
}
use cpp_aec.State.Proof.Loading.{Unseen, view_at-none}
use cpp_aec.State.Proof.Undoing.{Journaled, update-same, undo-update}

module _ (db : Db) where
  -- What was logged in between leads back to what was seen.
  pub record Undoable (s t : State) : Type 0 where
    pub journaled : Journaled db t
    pub entries : List Change
    pub log_eq : t.change_log ≡ entries ++ s.change_log
    pub goes_back : undo_all db entries (world db t) ≡ world db s

  undo_all-append :
      (xs ys : List Change) (w : World)
      → undo_all db (xs ++ ys) w ≡ undo_all db ys (undo_all db xs w)
  undo_all-append [] ys w = refl
  undo_all-append (x ∷ xs) ys w = undo_all-append xs ys (undo_world db x w)

  pub Undoable-trans : (s t u : State) → Undoable s t → Undoable t u → Undoable s u
  Undoable-trans s t u p q = record {
    journaled = q.journaled;
    entries = q.entries ++ p.entries;
    log_eq =
        q.log_eq
        ∙ ap (λ cs. q.entries ++ cs) p.log_eq
        ∙ sym (append_assoc q.entries p.entries s.change_log);
    goes_back =
        undo_all-append q.entries p.entries (world db u)
        ∙ ap (undo_all db p.entries) q.goes_back
        ∙ p.goes_back;
  }

  pub Unseen-Undoable : (s t : State) → Journaled db s → Unseen db s t → Undoable s t
  Unseen-Undoable s t j u = record {
    journaled = record { coherent = u.coherent; restores = rw (u.world_eq, u.log_eq) j.restores };
    entries = [];
    log_eq = u.log_eq;
    goes_back = u.world_eq;
  }

  -- A write that marks an account and changes nothing else.
  pub mark-Undoable :
      (s : State) (a : ℕ) (acc : Account)
      → Journaled db s
      → acc.is_unchanged ≡ false
      → Fits db acc
      → world db s a ≡ some (view db acc)
      → Undoable s (put_account a acc s)
  mark-Undoable s a acc j u f e =
      let same = world-put db s a acc ∙ update-same (world db s) a _ e in
      record {
        journaled = record {
          coherent = put-Coherent db s a acc j.coherent u f;
          restores = rw same j.restores;
        };
        entries = [];
        log_eq = refl;
        goes_back = same;
      }

  -- A write of one account with the change that undoes it.
  pub change-Undoable :
      (s : State) (c : Change) (acc : Account)
      → Journaled db s
      → acc.is_unchanged ≡ false
      → Fits db acc
      → undo_view db c.kind c (view db acc) ≡ world db s c.address
      → (is_first c.kind ≡ true
          → Absent c.address s.change_log
            × (undo_view db c.kind c (view db acc) ≡ view_at db c.address))
      → Undoable s (log_change c (put_account c.address acc s))
  change-Undoable s c acc j u f e first =
      let a = c.address in
      let t = put_account a acc s in
      let seen = world-put db s a acc in
      let h = put-Coherent db s a acc j.coherent u f in
      let marked : dirty_in t.cache a ≡ true = ground (arith, dirty_in-insert s.cache a acc a) in
      let back = ap (undo_world db c) seen ∙ undo-update db (world db s) c (some (view db acc)) e in
      let at : world db t a ≡ some (view db acc) = ground (arith, lookup-insert a a acc s.cache) in
      record {
        journaled = record {
          coherent = log-Coherent db t c h marked (λ q. (first q).0);
          restores = (λ q. ap (undo_option db c) at ∙ (first q).1, rw back j.restores);
        };
        entries = c ∷ [];
        log_eq = refl;
        goes_back = back;
      }

  remove_sound : (a x : ℕ) (xs : List ℕ) → contains x (remove a xs) ≡ true → contains x xs ≡ true
  remove_sound a x [] h = h
  remove_sound a x (y ∷ ys) h = ground (arith, remove_sound a x ys)

  pub create_account-Undoable :
      (s : State) (a : ℕ) (acc : Account)
      → Journaled db s
      → acc.is_unchanged ≡ false
      → Fits db acc
      → lookup a s.cache ≡ none
      → db.at a ≡ none
      → Undoable s (create_account a acc s)
  create_account-Undoable s a acc j u f l e =
      let h = j.coherent in
      let t = record s { non_existing = remove a s.non_existing } in
      let k : Unseen db s t = record {
        coherent = record {
          missing = λ x q. h.missing x (remove_sound a x s.non_existing q);
          clean = h.clean;
          fits = h.fits;
          logged = h.logged;
        };
        world_eq = refl;
        log_eq = refl;
        nonce_eq = refl;
      } in
      let p = Unseen-Undoable s t j k in
      let n = view_at-none db a e in
      let away = Absent-clean s.cache a s.change_log (rw (l, dirty_in) refl) h.logged in
      Undoable-trans s t _ p (
        change-Undoable t (change_of Kind.create a 0) acc p.journaled u f (sym (rw l n))
          (λ q. (away, sym n)))

  pub new_account-Fits : (n v : ℕ) → v < u256_mod → Fits db (new_account db n v)
  unfolding account_code
  new_account-Fits n v h = record { in_range = h; hashed = ground arith }
