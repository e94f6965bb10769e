-- ===== src/State/Proof/Coherent.antt =====
-- The invariant of class State of libaecereum/State.cpp between its cache, its journal and the
-- trie, and what a write to one cached account does to it.
use mathlib.Core.Path.{fun_ext}
use cpp_aec.Base.{
  ℕ, ◌<◌, ◌==◌, ◌≡◌, ◌≢◌, sym, ap, ◌∙◌, subst, Bool, true, false, List, [], ◌∷◌, none, some, inl,
  inr, if◌then◌else◌, arith,
}
use cpp_aec.Base.Dict.{
  Dict, contains, lookup, insert, erase, lookup-insert, lookup-erase, found-insert, found-erase,
}
use cpp_aec.Evm.Word.{u256_mod}
use cpp_aec.State.Account.{Db, Stored, Account, is_dirty, stored_account}
use cpp_aec.State.Journal.{Kind, Change, State, put_account, log_change}
use cpp_aec.State.Cache.{account_code}
use cpp_aec.State.World.{view, view_at, world, update}

-- What the database and the hash promise.
pub record IsLawful (db : Db) : Type 0 where
  pub no_collision : (bs : List ℕ) → db.sha3 bs ≡ db.sha3 [] → bs ≡ []
  pub code_known :
      (a : ℕ) (st : Stored)
      → db.at a ≡ some st
      → db.sha3 (account_code db (stored_account db st)) ≡ st.code_hash
  pub in_range : (a : ℕ) (st : Stored) → db.at a ≡ some st → st.balance < u256_mod

abbrev pub dirty_in : Dict Account → ℕ → Bool
dirty_in d a = elim (lookup a d) [ none ↦ false | some acc ↦ is_dirty acc ]

abbrev pub Absent : ℕ → List Change → Type 0
Absent a [] = Unit
Absent a (c ∷ cs) = (c.address ≢ a) × Absent a cs

-- A change of these kinds is the first that is logged for its account.
abbrev pub is_first : Kind → Bool
is_first Kind.create = true
is_first Kind.touch = true
is_first _ = false

-- The accounts that were changed are in the cache and marked.
abbrev pub Logged : Dict Account → List Change → Type 0
Logged d [] = Unit
Logged d (c ∷ cs) =
    (dirty_in d c.address ≡ true) × (is_first c.kind ≡ true → Absent c.address cs) × Logged d cs

pub record Fits (db : Db) (acc : Account) : Type 0 where
  pub in_range : acc.balance < u256_mod
  pub hashed : db.sha3 (account_code db acc) ≡ acc.code_hash

pub record Coherent (db : Db) (s : State) : Type 0 where
  pub missing : (a : ℕ) → contains a s.non_existing ≡ true → db.at a ≡ none
  pub clean :
      (a : ℕ) (acc : Account)
      → lookup a s.cache ≡ some acc
      → acc.is_unchanged ≡ true
      → view_at db a ≡ some (view db acc)
  pub fits : (a : ℕ) (acc : Account) → lookup a s.cache ≡ some acc → Fits db acc
  pub logged : Logged s.cache s.change_log

pub Logged-but :
    (d d' : Dict Account) (b : ℕ) (cs : List Change)
    → ((a : ℕ) → a ≢ b → dirty_in d a ≡ true → dirty_in d' a ≡ true)
    → Absent b cs
    → Logged d cs
    → Logged d' cs
Logged-but d d' b [] keep away h = tt
Logged-but d d' b (c ∷ cs) keep away h =
    (keep c.address away.0 h.0, h.1, Logged-but d d' b cs keep away.1 h.2)

pub Logged-mono :
    (d d' : Dict Account) (cs : List Change)
    → ((a : ℕ) → dirty_in d a ≡ true → dirty_in d' a ≡ true)
    → Logged d cs
    → Logged d' cs
Logged-mono d d' [] keep h = tt
Logged-mono d d' (c ∷ cs) keep h = (keep c.address h.0, h.1, Logged-mono d d' cs keep h.2)

pub Absent-clean :
    (d : Dict Account) (a : ℕ) (cs : List Change) → dirty_in d a ≡ false → Logged d cs → Absent a cs
Absent-clean d a [] n h = tt
Absent-clean d a (c ∷ cs) n h = (λ e. cc (h.0, n, ap (dirty_in d) e), Absent-clean d a cs n h.2)

pub dirty_in-insert :
    (d : Dict Account) (a : ℕ) (acc : Account) (x : ℕ)
    → dirty_in (insert a acc d) x ≡ (if x == a then is_dirty acc else dirty_in d x)
dirty_in-insert d a acc x = ground (arith, lookup-insert x a acc d)

module _ (db : Db) where
  pub world-put :
      (s : State) (a : ℕ) (acc : Account)
      → world db (put_account a acc s) ≡ update (world db s) a (some (view db acc))
  world-put s a acc = fun_ext (λ x. ground (arith, lookup-insert x a acc s.cache))

  pub log-Coherent :
      (s : State) (c : Change)
      → Coherent db s
      → dirty_in s.cache c.address ≡ true
      → (is_first c.kind ≡ true → Absent c.address s.change_log)
      → Coherent db (log_change c s)
  log-Coherent s c h d f = record {
    missing = h.missing;
    clean = h.clean;
    fits = h.fits;
    logged = (d, f, h.logged);
  }

  -- A write that marks the account.
  pub put-Coherent :
      (s : State) (a : ℕ) (acc : Account)
      → Coherent db s
      → acc.is_unchanged ≡ false
      → Fits db acc
      → Coherent db (put_account a acc s)
  put-Coherent s a acc h u f = record {
    missing = h.missing;
    clean = λ x acc' p q. elim (found-insert x a acc s.cache acc' p) [
      | inl e ↦ cc (u, q, ap (λ z. z.is_unchanged) e.1)
      | inr e ↦ h.clean x acc' e.1 q
    ];
    fits = λ x acc' p. elim (found-insert x a acc s.cache acc' p) [
      | inl e ↦ subst (Fits db) e.1 f
      | inr e ↦ h.fits x acc' e.1
    ];
    logged =
        Logged-mono s.cache (insert a acc s.cache) s.change_log
          (λ x k. ground (arith, dirty_in-insert s.cache a acc x)) h.logged;
  }

  -- A write that neither changes what is seen nor marks the account.
  pub refresh-Coherent :
      (s : State) (a : ℕ) (old new : Account)
      → Coherent db s
      → lookup a s.cache ≡ some old
      → view db new ≡ view db old
      → new.is_unchanged ≡ old.is_unchanged
      → Coherent db (put_account a new s)
  refresh-Coherent s a old new h l v u = record {
    missing = h.missing;
    clean = λ x acc' p q. elim (found-insert x a new s.cache acc' p) [
      | inl e ↦ rw⁻¹ e.1 (rw (e.0, v) (h.clean a old l (sym u ∙ ap (λ z. z.is_unchanged) e.1 ∙ q)))
      | inr e ↦ h.clean x acc' e.1 q
    ];
    fits = λ x acc' p. elim (found-insert x a new s.cache acc' p) [
      | inl e ↦ subst (Fits db) e.1 (record {
        in_range = subst (λ z. z.balance < u256_mod) (sym v) (h.fits a old l).in_range;
        hashed = subst (λ z. db.sha3 z.code ≡ z.code_hash) (sym v) (h.fits a old l).hashed;
      })
      | inr e ↦ h.fits x acc' e.1
    ];
    logged =
        Logged-mono s.cache (insert a new s.cache) s.change_log
          (λ x k. ground (arith, dirty_in-insert s.cache a new x)) h.logged;
  }

  pub world-refresh :
      (s : State) (a : ℕ) (old new : Account)
      → lookup a s.cache ≡ some old
      → view db new ≡ view db old
      → world db (put_account a new s) ≡ world db s
  world-refresh s a old new l v = fun_ext (λ x. ground (arith, lookup-insert x a new s.cache))

  -- An entry that is not marked can go.
  pub erase-Coherent :
      (s : State) (a : ℕ) (acc : Account)
      → Coherent db s
      → lookup a s.cache ≡ some acc
      → acc.is_unchanged ≡ true
      → Coherent db (record s { cache = erase a s.cache })
  erase-Coherent s a acc h l u = record {
    missing = h.missing;
    clean = λ x acc' p q. h.clean x acc' (found-erase x a s.cache acc' p).1 q;
    fits = λ x acc' p. h.fits x acc' (found-erase x a s.cache acc' p).1;
    logged =
        Logged-mono s.cache (erase a s.cache) s.change_log
          (λ x k. ground (arith, lookup-erase x a s.cache)) h.logged;
  }

  pub world-erase :
      (s : State) (a : ℕ) (acc : Account)
      → Coherent db s
      → lookup a s.cache ≡ some acc
      → acc.is_unchanged ≡ true
      → world db (record s { cache = erase a s.cache }) ≡ world db s
  world-erase s a acc h l u =
      let c = h.clean a acc l u in fun_ext (λ x. ground (arith, lookup-erase x a s.cache))
