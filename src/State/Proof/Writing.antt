-- ===== src/State/Proof/Writing.antt =====
-- The changes of storage and code in libaecereum/State.cpp can be undone.
use mathlib.Core.Path.{fun_ext}
use cpp_aec.Base.{
  ℕ, ◌==◌, ◌≡◌, refl, sym, ap, ◌∙◌, false, List, [], ◌∷◌, none, some, inl, inr, Bool-cases,
  Option-cases, arith,
}
use cpp_aec.Base.Dict.{lookup, lookup-insert}
use cpp_aec.State.Account.{
  Db, Account, empty_sha3, set_storage, set_storage_cache, clear_storage, set_code, note_code,
}
use cpp_aec.State.Journal.{
  Kind, State, put_account, log_change, change_of, storage_change, code_change, state_of,
}
use cpp_aec.State.Cache.{load, storage, code, with_code, known_code, account_code, cached_storage}
use cpp_aec.State.Changes.{entry, set_store, clear_store, change_code}
use cpp_aec.State.World.{View, view, world, update}
use cpp_aec.State.Proof.Coherent.{IsLawful, Coherent, refresh-Coherent, world-refresh}
use cpp_aec.State.Proof.Loading.{Unseen, Unseen-trans, load-Loaded}
use cpp_aec.State.Proof.Undoing.{
  Journaled, update-same, update-update, view-set_storage, view-set_code, new_code,
}
use cpp_aec.State.Proof.Changing.{Undoable, Undoable-trans, Unseen-Undoable, change-Undoable}

module _ (db : Db) where
  -- A write that a client cannot see.
  pub refresh-Unseen :
      (s : State) (a : ℕ) (old new : Account)
      → Coherent db s
      → lookup a s.cache ≡ some old
      → view db new ≡ view db old
      → new.is_unchanged ≡ old.is_unchanged
      → Unseen db s (put_account a new s)
  refresh-Unseen s a old new h l v u = record {
    coherent = refresh-Coherent db s a old new h l v u;
    world_eq = world-refresh db s a old new l v;
    log_eq = refl;
    nonce_eq = refl;
  }

  view-set_storage_cache :
      (acc : Account) (key : ℕ)
      → view db (set_storage_cache key (cached_storage db key acc) acc) ≡ view db acc
  unfolding account_code cached_storage
  view-set_storage_cache acc key =
      view-set_storage db (record acc { is_unchanged = acc.is_unchanged }) key _
      ∙ ap (λ (f : ℕ → ℕ). record (view db acc) { storage = f })
          (update-same (view db acc).storage key _ refl)

  known_code-same : (h : ℕ) (cs : List ℕ) → db.code_of h ≡ cs → known_code db h cs ≡ cs
  unfolding known_code
  known_code-same h [] e = e
  known_code-same h (x ∷ xs) e = refl

  known_code-known_code :
      (h : ℕ) (cs : List ℕ) → known_code db h (known_code db h cs) ≡ known_code db h cs
  unfolding known_code
  known_code-known_code h [] = known_code-same h (db.code_of h) refl
  known_code-known_code h (x ∷ xs) = refl

  noted :
      (acc : Account)
      → (acc.code_hash == empty_sha3 db) ≡ false
      → account_code db (note_code (account_code db acc) acc) ≡ account_code db acc
  unfolding account_code
  noted acc e = rw e (known_code-known_code acc.code_hash acc.code_cache)

  view-with_code :
      (acc : Account)
      → (view db (with_code db acc) ≡ view db acc)
        × ((with_code db acc).is_unchanged ≡ acc.is_unchanged)
  unfolding with_code cached_storage
  view-with_code acc = elim (Bool-cases (acc.code_hash == empty_sha3 db)) [
    | inl e ↦
        let same : with_code db acc ≡ acc = rw e refl in
        (ap (view db) same, ap (λ (z : Account). z.is_unchanged) same)
    | inr e ↦
        let same : with_code db acc ≡ note_code (account_code db acc) acc = rw e refl in
        (
          ap (view db) same
              ∙ ap (λ (cs : List ℕ). record (view db acc) { code = cs }) (noted acc e),
          ap (λ (z : Account). z.is_unchanged) same,
        )
  ]

  -- setStorage asks that the account is there: it would put a dead one into the cache otherwise.
  set_found-Undoable :
      (s : State) (a key value old : ℕ) (acc : Account)
      → Journaled db s
      → lookup a s.cache ≡ some acc
      → cached_storage db key acc ≡ old
      → Undoable db s
          (log_change (storage_change a key old) (put_account a (set_storage key value acc) s))
  unfolding account_code
  set_found-Undoable s a key value old acc j l o =
      let k = j.coherent.fits a acc l in
      let v = view db acc in
      let back : update (update v.storage key value) key old ≡ v.storage =
        update-update v.storage key value old ∙ update-same v.storage key old o in
      change-Undoable db s (storage_change a key old) (set_storage key value acc) j refl
        (record { in_range = k.in_range; hashed = k.hashed })
        (ap (λ (z : View). some (record z { storage = update z.storage key old }))
            (view-set_storage db acc key value)
          ∙ rw l (ap (λ (f : ℕ → ℕ). some (record v { storage = f })) back))
        (λ q. cc q)

  pub storage_found :
      (s : State) (a key : ℕ) (acc : Account)
      → lookup a (load db a s).cache ≡ some acc
      → storage db a key s ≡ (
        put_account a (set_storage_cache key (cached_storage db key acc) acc) (load db a s),
        cached_storage db key acc,
      )
  unfolding storage
  storage_found s a key acc e = rw (e, storage) refl

  pub code_found :
      (s : State) (a : ℕ) (acc : Account)
      → lookup a (load db a s).cache ≡ some acc
      → code db a s ≡ (put_account a (with_code db acc) (load db a s), account_code db acc)
  unfolding code
  code_found s a acc e = rw (e, code) refl

  pub storage_missing :
      (s : State) (a key : ℕ)
      → lookup a (load db a s).cache ≡ none
      → storage db a key s ≡ (load db a s, 0)
  unfolding storage
  storage_missing s a key e = rw (e, storage) refl

  pub code_missing :
      (s : State) (a : ℕ) → lookup a (load db a s).cache ≡ none → code db a s ≡ (load db a s, [])
  unfolding code
  code_missing s a e = rw (e, code) refl

  load_cached : (s : State) (a : ℕ) (acc : Account) → lookup a s.cache ≡ some acc → load db a s ≡ s
  unfolding load
  load_cached s a acc e = rw (e, load) refl

  pub set_store-Undoable :
      IsLawful db
      → (a key value : ℕ) (s : State) (v : View) → Journaled db s
      → world db s a ≡ some v
      → Undoable db s (state_of (set_store db a key value s))
  unfolding set_store
  set_store-Undoable law a key value s v j w =
      let p = load-Loaded db law a s j.coherent in
      let u = load db a s in
      elim (Option-cases (lookup a u.cache)) [
        | inl e ↦ cc (w, (p.not_found e).0)
        | inr (acc, e) ↦
            let acc' = set_storage_cache key (cached_storage db key acc) acc in
            let r =
              refresh-Unseen u a acc acc' p.unseen.coherent e (view-set_storage_cache acc key)
                refl in
            let t = put_account a acc' u in
            let here : lookup a t.cache ≡ some acc' =
              ground (arith, lookup-insert a a acc' u.cache) in
            let jt = (Unseen-Undoable db u t (Unseen-Undoable db s u j p.unseen).journaled r) in
            let q =
              set_found-Undoable t a key value (cached_storage db key acc) acc' jt.journaled here
                (ap (λ (z : View). z.storage key) (view-set_storage_cache acc key)) in
            rw (storage_found s a key acc e, here, entry)
              (Undoable-trans db s u _ (Unseen-Undoable db s u j p.unseen)
                (Undoable-trans db u t _ jt q))
      ]

  -- clearStorage asks that the account is cached, and that nothing is pending in its overlay, which
  -- undoing the change would lose.
  pub clear_store-Undoable :
      (a : ℕ) (s : State) (acc : Account)
      → Journaled db s
      → lookup a s.cache ≡ some acc
      → ((k : ℕ) → cached_storage db k acc ≡ db.storage_at acc.storage_root k)
      → Undoable db s (state_of (clear_store db a s))
  unfolding clear_store account_code
  clear_store-Undoable a s acc j l pending =
      let k = j.coherent.fits a acc l in
      let t = put_account a acc s in
      let p = Unseen-Undoable db s t j (refresh-Unseen s a acc acc j.coherent l refl refl) in
      let here : world db t a ≡ some (view db acc) =
        ground (arith, lookup-insert a a acc s.cache) in
      elim (Bool-cases (acc.storage_root == db.empty_trie)) [
        | inl e ↦ rw (l, entry, e) p
        | inr e ↦
            rw (l, entry, e)
              (Undoable-trans db s t _ p (
                change-Undoable db t (change_of Kind.storage_root a acc.storage_root)
                  (clear_storage db acc) p.journaled refl
                  (record { in_range = k.in_range; hashed = k.hashed })
                  (ap (λ (f : ℕ → ℕ). some (record (view db acc) { storage = f }))
                      (sym (fun_ext pending))
                    ∙ sym here)
                  (λ q. cc q)))
      ]

  -- setCode asks that the account is cached and marked, as it does not mark it.
  pub change_code-Undoable :
      IsLawful db
      → (a : ℕ) (new : List ℕ) (s : State) (acc : Account) → Journaled db s
      → lookup a s.cache ≡ some acc
      → acc.is_unchanged ≡ false
      → Undoable db s (state_of (change_code db a new s))
  unfolding change_code
  change_code-Undoable law a new s acc j l u =
      let acc' = with_code db acc in
      let (same, mark) = view-with_code acc in
      let r = refresh-Unseen s a acc acc' j.coherent l same mark in
      let t = put_account a acc' s in
      let p = Unseen-Undoable db s t j r in
      let here : lookup a t.cache ≡ some acc' = ground (arith, lookup-insert a a acc' s.cache) in
      let seen : world db t a ≡ some (view db acc') =
        ground (arith, lookup-insert a a acc' s.cache) in
      let old = account_code db acc in
      let k = j.coherent.fits a acc l in
      let k' = p.journaled.coherent.fits a acc' here in
      let c = code_change a old in
      let back =
        ap (λ (z : View). some (record z { code_hash = db.sha3 old; code = old }))
          (view-set_code db law acc' new
            ∙ ap (λ (z : View). record z { code_hash = db.sha3 new; code = new }) same)
        ∙ ap (λ (n : ℕ). some (record (view db acc) { code_hash = n })) k.hashed
        ∙ sym (ap (λ (z : View). some z) same)
        ∙ sym seen in
      let found : code db a s ≡ (t, old) =
        code_found s a acc (ap (λ (z : State). lookup a z.cache) (load_cached s a acc l) ∙ l)
        ∙ ap (λ (z : State). (put_account a acc' z, old)) (load_cached s a acc l) in
      rw (found, here, entry)
        (Undoable-trans db s t _ p (
          change-Undoable db t c (set_code db new acc') p.journaled (mark ∙ u)
            (record { in_range = k'.in_range; hashed = ap db.sha3 (new_code db law acc' new) }) back
            (λ q. cc q)))

  -- The reads leave nothing that is seen.
  pub storage-Undoable :
      IsLawful db → (a key : ℕ) (s : State) → Journaled db s → Undoable db s (storage db a key s).0
  storage-Undoable law a key s j =
      let p = load-Loaded db law a s j.coherent in
      let u = load db a s in
      elim (Option-cases (lookup a u.cache)) [
        | inl e ↦ rw (storage_missing s a key e) (Unseen-Undoable db s u j p.unseen)
        | inr (acc, e) ↦
            let acc' = set_storage_cache key (cached_storage db key acc) acc in
            let r =
              refresh-Unseen u a acc acc' p.unseen.coherent e (view-set_storage_cache acc key)
                refl in
            rw (storage_found s a key acc e)
              (Unseen-Undoable db s _ j (Unseen-trans db s u _ p.unseen r))
      ]

  pub code-Unseen : IsLawful db → (a : ℕ) (s : State) → Coherent db s → Unseen db s (code db a s).0
  code-Unseen law a s h =
      let p = load-Loaded db law a s h in
      let u = load db a s in
      elim (Option-cases (lookup a u.cache)) [
        | inl e ↦ rw (code_missing s a e) p.unseen
        | inr (acc, e) ↦
            let (same, mark) = view-with_code acc in
            let r = refresh-Unseen u a acc (with_code db acc) p.unseen.coherent e same mark in
            rw (code_found s a acc e) (Unseen-trans db s u _ p.unseen r)
      ]

  pub code-Undoable :
      IsLawful db → (a : ℕ) (s : State) → Journaled db s → Undoable db s (code db a s).0
  code-Undoable law a s j = Unseen-Undoable db s _ j (code-Unseen law a s j.coherent)
