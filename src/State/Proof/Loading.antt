-- ===== src/State/Proof/Loading.antt =====
-- State::account of libaecereum/State.cpp: the cache that it fills and clears is not seen.
use mathlib.Core.Path.{fun_ext}
use cpp_aec.Base.{
  ℕ, zero, suc, ◌==◌, ◌≡◌, refl, sym, ap, ◌∙◌, subst, List, [], ◌∷◌, ◌++◌, none, some, inl, inr,
  Bool-cases, Option-cases, ltb, length, get_or, arith,
}
use cpp_aec.Base.Dict.{contains, lookup, insert, lookup-insert, lookup-erase, found-insert}
use cpp_aec.State.Account.{Db, Stored, Account, stored_account}
use cpp_aec.State.Journal.{State, put_account}
use cpp_aec.State.Cache.{erase_clean, drop_one, clear_loop, clear_cache_if_too_large, load}
use cpp_aec.State.World.{view, view_at, world}
use cpp_aec.State.Proof.Coherent.{
  IsLawful, Fits, Coherent, Logged-mono, dirty_in-insert, erase-Coherent, world-erase,
}

module _ (db : Db) where
  -- Nothing that a client sees has changed.
  pub record Unseen (s t : State) : Type 0 where
    pub coherent : Coherent db t
    pub world_eq : world db t ≡ world db s
    pub log_eq : t.change_log ≡ s.change_log
    pub nonce_eq : t.start_nonce ≡ s.start_nonce

  pub Unseen-refl : (s : State) → Coherent db s → Unseen s s
  Unseen-refl s h = record { coherent = h; world_eq = refl; log_eq = refl; nonce_eq = refl }

  pub Unseen-trans : (s t u : State) → Unseen s t → Unseen t u → Unseen s u
  Unseen-trans s t u p q = record {
    coherent = q.coherent;
    world_eq = q.world_eq ∙ p.world_eq;
    log_eq = q.log_eq ∙ p.log_eq;
    nonce_eq = q.nonce_eq ∙ p.nonce_eq;
  }

  -- A state that differs in what only the cache's upkeep reads.
  upkeep-Coherent :
      (s : State) (es : List ℕ) (n : ℕ)
      → Coherent db s
      → Coherent db (record s { unchanged_entries = es; draws = n })
  upkeep-Coherent s es n h = record {
    missing = h.missing;
    clean = h.clean;
    fits = h.fits;
    logged = h.logged;
  }

  upkeep-Unseen :
      (s t : State) (es : List ℕ) (n : ℕ)
      → Unseen s t
      → Unseen s (record t { unchanged_entries = es; draws = n })
  upkeep-Unseen s t es n u = record {
    coherent = upkeep-Coherent t es n u.coherent;
    world_eq = u.world_eq;
    log_eq = u.log_eq;
    nonce_eq = u.nonce_eq;
  }

  erase_clean-Unseen :
      (s : State) (a : ℕ)
      → Coherent db s
      → Unseen s (record s { cache = erase_clean a (lookup a s.cache) s.cache })
  erase_clean-Unseen s a h = elim (Option-cases (lookup a s.cache)) [
    | inl e ↦ rw e (Unseen-refl s h)
    | inr e ↦ elim (Bool-cases e.0.is_unchanged) [
      | inl u ↦
          rw (e.1, u)
            (record {
              coherent = erase-Coherent db s a e.0 h e.1 u;
              world_eq = world-erase db s a e.0 h e.1 u;
              log_eq = refl;
              nonce_eq = refl;
            })
      | inr u ↦ rw (e.1, u) (Unseen-refl s h)
    ]
  ]

  drop_one-Unseen : (s : State) → Coherent db s → Unseen s (drop_one db s)
  unfolding drop_one
  drop_one-Unseen s h =
      let a = get_or s.unchanged_entries (db.random s.draws (length s.unchanged_entries)) 0 in
      let e = erase_clean-Unseen s a h in
      record {
        coherent = upkeep-Coherent _ _ _ e.coherent;
        world_eq = e.world_eq;
        log_eq = refl;
        nonce_eq = refl;
      }

  clear_loop-Unseen : (n : ℕ) (s : State) → Coherent db s → Unseen s (clear_loop db n s)
  unfolding clear_loop
  clear_loop-Unseen zero s h = Unseen-refl s h
  clear_loop-Unseen (suc n) s h = elim (Bool-cases (ltb 1000 (length s.unchanged_entries))) [
    | inl e ↦
        let one = drop_one-Unseen s h in
        rw e
          (Unseen-trans s (drop_one db s) _ one (clear_loop-Unseen n (drop_one db s) one.coherent))
    | inr e ↦ rw e (Unseen-refl s h)
  ]

  -- What is not in the cache is not put there.
  drop_one-none :
      (s : State) (a : ℕ) → lookup a s.cache ≡ none → lookup a (drop_one db s).cache ≡ none
  unfolding drop_one
  drop_one-none s a h =
      let b = get_or s.unchanged_entries (db.random s.draws (length s.unchanged_entries)) 0 in
      elim (Option-cases (lookup b s.cache)) [
        | inl e ↦ rw e h
        | inr e ↦ rw e.1 (ground (arith, lookup-erase a b s.cache))
      ]

  clear_loop-none :
      (n : ℕ) (s : State) (a : ℕ)
      → lookup a s.cache ≡ none
      → lookup a (clear_loop db n s).cache ≡ none
  unfolding clear_loop
  clear_loop-none zero s a h = h
  clear_loop-none (suc n) s a h =
      ground (arith, clear_loop-none n (drop_one db s) a (drop_one-none s a h))

  pub view_at-some :
      (a : ℕ) (st : Stored)
      → db.at a ≡ some st
      → view_at db a ≡ some (view db (stored_account db st))
  unfolding view_at
  view_at-some a st e = rw e

  pub view_at-none : (a : ℕ) → db.at a ≡ none → view_at db a ≡ none
  unfolding view_at
  view_at-none a e = rw e

  -- The entry that is put into the cache is what the trie holds.
  put_stored-Unseen :
      IsLawful db
      → (s : State) (a : ℕ) (st : Stored) → Coherent db s
      → lookup a s.cache ≡ none
      → db.at a ≡ some st
      → Unseen s (put_account a (stored_account db st) s)
  put_stored-Unseen law s a st h l e = record {
    coherent = record {
      missing = h.missing;
      clean = λ x acc p q. elim (found-insert x a (stored_account db st) s.cache acc p) [
        | inl f ↦ rw f.0 (rw⁻¹ f.1 stored)
        | inr f ↦ h.clean x acc f.1 q
      ];
      fits = λ x acc p. elim (found-insert x a (stored_account db st) s.cache acc p) [
        | inl f ↦
            subst (Fits db) f.1
              (record { in_range = law.in_range a st e; hashed = law.code_known a st e })
        | inr f ↦ h.fits x acc f.1
      ];
      logged =
          Logged-mono s.cache (insert a (stored_account db st) s.cache) s.change_log
            (λ x k. ground (arith, dirty_in-insert s.cache a (stored_account db st) x)) h.logged;
    };
    world_eq =
        fun_ext (λ x. ground (arith, lookup-insert x a (stored_account db st) s.cache, stored));
    log_eq = refl;
    nonce_eq = refl;
  }
    where
      stored : view_at db a ≡ some (view db (stored_account db st))
      stored = view_at-some a st e

  noted :
      (s : State) (a : ℕ)
      → Coherent db s
      → db.at a ≡ none
      → Unseen s (record s { non_existing = a ∷ s.non_existing })
  noted s a h e = record {
    coherent = record {
      missing = λ x k. elim (Bool-cases (x == a)) [
        | inl q ↦ let r : x ≡ a = ground arith in rw r e
        | inr q ↦ h.missing x (ground arith)
      ];
      clean = h.clean;
      fits = h.fits;
      logged = h.logged;
    };
    world_eq = refl;
    log_eq = refl;
    nonce_eq = refl;
  }

  -- What State::account gives back is what is seen at the address, and nothing seen has changed.
  pub record Loaded (a : ℕ) (s t : State) : Type 0 where
    pub unseen : Unseen s t
    pub found : (acc : Account) → lookup a t.cache ≡ some acc → world db s a ≡ some (view db acc)
    pub not_found : lookup a t.cache ≡ none → (world db s a ≡ none) × (db.at a ≡ none)

  found_here :
      (s t : State) (a : ℕ) (acc : Account)
      → Unseen s t
      → lookup a t.cache ≡ some acc
      → Loaded a s t
  found_here s t a acc u l = record {
    unseen = u;
    found = λ acc' k. sym (ap (λ w. w a) u.world_eq) ∙ rw k refl;
    not_found = λ k. cc (k, l);
  }

  found_nowhere :
      (s t : State) (a : ℕ) → Unseen s t → lookup a t.cache ≡ none → db.at a ≡ none → Loaded a s t
  found_nowhere s t a u l e = record {
    unseen = u;
    found = λ acc' k. cc (k, l);
    not_found = λ k. (sym (ap (λ w. w a) u.world_eq) ∙ rw (k, view_at-none a e) refl, e);
  }

  pub load-Loaded : IsLawful db → (a : ℕ) (s : State) → Coherent db s → Loaded a s (load db a s)
  unfolding load clear_cache_if_too_large
  load-Loaded law a s h = elim (Option-cases (lookup a s.cache)) [
    | inr e ↦ rw (e.1, load) (found_here s s a e.0 (Unseen-refl s h) e.1)
    | inl l ↦ elim (Bool-cases (contains a s.non_existing)) [
      | inl c ↦ rw (l, load, c) (found_nowhere s s a (Unseen-refl s h) l (h.missing a c))
      | inr c ↦ elim (Option-cases (db.at a)) [
        | inl e ↦ rw (l, load, c, e) (found_nowhere s _ a (noted s a h e) l e)
        | inr e ↦
            let n = length s.unchanged_entries in
            let u = clear_loop-Unseen n s h in
            let t = clear_loop db n s in
            let v = put_stored-Unseen law t a e.0 u.coherent (clear_loop-none n s a l) e.1 in
            rw (l, load, c, e.1)
              (found_here s _ a (stored_account db e.0)
                (upkeep-Unseen s (put_account a (stored_account db e.0) t)
                  (t.unchanged_entries ++ a ∷ []) t.draws (Unseen-trans s t _ u v))
                (ground (arith, lookup-insert a a (stored_account db e.0) t.cache)))
      ]
    ]
  ]
