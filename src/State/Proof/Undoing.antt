-- ===== src/State/Proof/Undoing.antt =====
-- State::rollback of libaecereum/State.cpp: each round undoes one change to what is seen.
use mathlib.Core.Path.{fun_ext}
use cpp_aec.Base.{
  ℕ, ◌+◌, ◌%◌, ◌==◌, ◌≡◌, refl, sym, ap, ◌∙◌, subst, true, false, ==_iff, List, [], ◌∷◌, ◌++◌,
  Option, none, some, inl, inr, Bool-cases, arith,
}
use cpp_aec.Base.Dict.{
  lookup, insert, erase, lookup-insert, lookup-erase, found-insert, found-erase,
}
use cpp_aec.Evm.Word.{u256_mod}
use cpp_aec.State.Account.{
  Db, Account, empty_sha3, set_storage, set_storage_root, set_nonce, set_code, add_balance, untouch,
}
use cpp_aec.State.Journal.{Kind, Change, State, put_account}
use cpp_aec.State.Cache.{account_code, cached_storage}
use cpp_aec.State.Changes.{neg256, undo_kind}
use cpp_aec.State.World.{
  View, World, view, view_at, world, update, undo_view, undo_option, undo_world,
}
use cpp_aec.State.Proof.Coherent.{
  IsLawful, Fits, Coherent, Absent, Logged-but, is_first, dirty_in-insert, world-put, put-Coherent,
}

pub update-same {ℓ} : {A : Type ℓ} (f : ℕ → A) (a : ℕ) (v : A) → f a ≡ v → update f a v ≡ f
update-same f a v h = fun_ext (λ x. elim (Bool-cases (x == a)) [
  | inl e ↦ let q : x ≡ a = ground arith in rw e (sym h ∙ ap f (sym q))
  | inr e ↦ rw e refl
])

pub update-update {ℓ} :
    {A : Type ℓ} (f : ℕ → A) (a : ℕ) (v w : A) → update (update f a v) a w ≡ update f a w
update-update f a v w = fun_ext (λ x. ground arith)

module _ (db : Db) where
  -- Where the first change to an account is undone, it is as in the trie.
  abbrev pub Restores : World → List Change → Type 0
  Restores w [] = Unit
  Restores w (c ∷ cs) =
      (is_first c.kind ≡ true → undo_option db c (w c.address) ≡ view_at db c.address)
      × Restores (undo_world db c w) cs

  pub record Journaled (s : State) : Type 0 where
    pub coherent : Coherent db s
    pub restores : Restores (world db s) s.change_log

  -- An account that was written is undone to what was seen before.
  pub undo-update :
      (w : World) (c : Change) (v : Option View)
      → undo_option db c v ≡ w c.address
      → undo_world db c (update w c.address v) ≡ w
  undo-update w c v h =
      let q : update w c.address v c.address ≡ v = ground arith in
      rw (update-update w c.address v (undo_option db c (update w c.address v c.address)), q)
        (update-same w c.address _ (sym h))

  pub new_code :
      IsLawful db → (acc : Account) (code : List ℕ) → account_code db (set_code db code acc) ≡ code
  unfolding account_code
  new_code law acc [] = ground arith
  new_code law acc (x ∷ xs) = elim (Bool-cases (db.sha3 (x ∷ xs) == empty_sha3 db)) [
    | inl e ↦ cc (law.no_collision (x ∷ xs) ((==_iff _ _).0 e))
    | inr e ↦ rw e refl
  ]

  pub view-set_code :
      IsLawful db
      → (acc : Account) (code : List ℕ)
      → view db (set_code db code acc)
        ≡ record (view db acc) { code_hash = db.sha3 code; code = code }
  unfolding cached_storage
  view-set_code law acc code =
      ap (λ (cs : List ℕ). record (view db acc) { code_hash = db.sha3 code; code = cs })
        (new_code law acc code)

  pub view-set_storage :
      (acc : Account) (k v : ℕ)
      → view db (set_storage k v acc)
        ≡ record (view db acc) { storage = update (view db acc).storage k v }
  unfolding account_code cached_storage
  view-set_storage acc k v =
      ap (λ (f : ℕ → ℕ). record (view db acc) { storage = f })
        (fun_ext (λ j. ground (arith, lookup-insert j k v acc.storage_overlay)))

  view-set_storage_root :
      (acc : Account) (r : ℕ)
      → view db (set_storage_root r acc)
        ≡ record (view db acc) { storage_root = r; storage = db.storage_at r }
  unfolding account_code cached_storage
  view-set_storage_root acc r = refl

  pub view-add_balance :
      (acc : Account) (v : ℕ)
      → view db (add_balance v acc)
        ≡ record (view db acc) { balance = (acc.balance + v) % u256_mod }
  unfolding account_code cached_storage
  view-add_balance acc v = refl

  pub view-set_nonce :
      (acc : Account) (n : ℕ) → view db (set_nonce n acc) ≡ record (view db acc) { nonce = n }
  unfolding account_code cached_storage
  view-set_nonce acc n = refl

  -- What the switch of rollback does, at an account that is in the cache and marked.
  pub record Undone (s : State) (a : ℕ) (v : Option View) (t : State) : Type 0 where
    pub coherent : Coherent db t
    pub world_eq : world db t ≡ update (world db s) a v

  pub put-Undone :
      (s : State) (a : ℕ) (acc : Account) (v : View)
      → Coherent db s
      → acc.is_unchanged ≡ false
      → Fits db acc
      → view db acc ≡ v
      → Undone s a (some v) (put_account a acc s)
  put-Undone s a acc v h u f e = record {
    coherent = put-Coherent db s a acc h u f;
    world_eq = world-put db s a acc ∙ ap (λ z. update (world db s) a (some z)) e;
  }

  untouch-Undone :
      (s : State) (a : ℕ) (acc : Account) (es : List ℕ)
      → Coherent db s
      → lookup a s.cache ≡ some acc
      → Absent a s.change_log
      → some (view db acc) ≡ view_at db a
      → Undone s a
          (some (view db acc))
          (record (put_account a (untouch acc) s) { unchanged_entries = es })
  unfolding account_code cached_storage
  untouch-Undone s a acc es h l f e = record {
    coherent = record {
      missing = h.missing;
      clean = λ x acc' p q. elim (found-insert x a (untouch acc) s.cache acc' p) [
        | inl g ↦ subst (λ z. view_at db x ≡ some (view db z)) g.1 (ap (view_at db) g.0 ∙ sym e)
        | inr g ↦ h.clean x acc' g.1 q
      ];
      fits = λ x acc' p. elim (found-insert x a (untouch acc) s.cache acc' p) [
        | inl g ↦
            let k = h.fits a acc l in
            subst (Fits db) g.1 (record { in_range = k.in_range; hashed = k.hashed })
        | inr g ↦ h.fits x acc' g.1
      ];
      logged =
          Logged-but s.cache (insert a (untouch acc) s.cache) a s.change_log
            (λ x n k. ground (arith, dirty_in-insert s.cache a (untouch acc) x)) f h.logged;
    };
    world_eq = world-put db s a (untouch acc);
  }

  erase-Undone :
      (s : State) (a : ℕ)
      → Coherent db s
      → Absent a s.change_log
      → none ≡ view_at db a
      → Undone s a none (record s { cache = erase a s.cache })
  erase-Undone s a h f e = record {
    coherent = record {
      missing = h.missing;
      clean = λ x acc' p q. h.clean x acc' (found-erase x a s.cache acc' p).1 q;
      fits = λ x acc' p. h.fits x acc' (found-erase x a s.cache acc' p).1;
      logged =
          Logged-but s.cache (erase a s.cache) a s.change_log
            (λ x n k. ground (arith, lookup-erase x a s.cache)) f h.logged;
    };
    world_eq = fun_ext (λ x. elim (Bool-cases (x == a)) [
      | inl q ↦ let r : x ≡ a = ground arith in rw (lookup-erase x a s.cache, q, r) (sym e)
      | inr q ↦ rw (lookup-erase x a s.cache, q) refl
    ]);
  }

  pub undo_kind-Undone :
      IsLawful db
      → (k : Kind) (c : Change) (acc : Account) (s : State) → Coherent db s
      → lookup c.address s.cache ≡ some acc
      → acc.is_unchanged ≡ false
      → (is_first k ≡ true → Absent c.address s.change_log)
      → (is_first k ≡ true → undo_view db k c (view db acc) ≡ view_at db c.address)
      → Undone s c.address (undo_view db k c (view db acc)) (undo_kind db k c acc s)
  unfolding undo_kind account_code
  undo_kind-Undone law Kind.storage c acc s h l u f r =
      let k = h.fits c.address acc l in
      put-Undone s c.address (set_storage c.key c.value acc) _ h refl
        (record { in_range = k.in_range; hashed = k.hashed }) (view-set_storage acc c.key c.value)
  undo_kind-Undone law Kind.storage_root c acc s h l u f r =
      let k = h.fits c.address acc l in
      put-Undone s c.address (set_storage_root c.value acc) _ h refl
        (record { in_range = k.in_range; hashed = k.hashed }) (view-set_storage_root acc c.value)
  undo_kind-Undone law Kind.balance c acc s h l u f r =
      let k = h.fits c.address acc l in
      put-Undone s c.address (add_balance (neg256 c.value) acc) _ h refl
        (record { in_range = omega arith; hashed = k.hashed })
        (view-add_balance acc (neg256 c.value))
  undo_kind-Undone law Kind.nonce c acc s h l u f r =
      let k = h.fits c.address acc l in
      put-Undone s c.address (set_nonce c.value acc) _ h refl
        (record { in_range = k.in_range; hashed = k.hashed }) (view-set_nonce acc c.value)
  undo_kind-Undone law Kind.code c acc s h l u f r =
      let k = h.fits c.address acc l in
      put-Undone s c.address (set_code db c.old_code acc) _ h u
        (record { in_range = k.in_range; hashed = ap db.sha3 (new_code law acc c.old_code) })
        (view-set_code law acc c.old_code)
  undo_kind-Undone law Kind.create c acc s h l u f r = erase-Undone s c.address h (f refl) (r refl)
  undo_kind-Undone law Kind.touch c acc s h l u f r =
      untouch-Undone s c.address acc (s.unchanged_entries ++ c.address ∷ []) h l (f refl) (r refl)
