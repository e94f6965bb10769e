-- ===== src/State/Proof/Querying.antt =====
-- The reads of class State of libaecereum/State.cpp answer as the specification does.
use cpp_aec.Base.{ℕ, ◌==◌, ◌≡◌, refl, ap, not, List, Option, inl, inr, Option-cases, arith}
use cpp_aec.Base.Dict.{lookup}
use cpp_aec.State.Account.{Db, empty_sha3}
use cpp_aec.State.Journal.{State}
use cpp_aec.State.Cache
use cpp_aec.State.Cache.{load, address_in_use, address_has_code, get_nonce}
use cpp_aec.State.World.{View, world}
use cpp_aec.State.Spec
use cpp_aec.State.Proof.Coherent.{IsLawful, Coherent}
use cpp_aec.State.Proof.Loading.{load-Loaded}
use cpp_aec.State.Proof.Writing.{storage_found, storage_missing, code_found, code_missing}

module _ (db : Db) (law : IsLawful db) (s : State) (h : Coherent db s) (a : ℕ) where
  -- Each read, at the account that is seen there.
  pub record Reads (v : Option View) : Type 0 where
    pub in_use : address_in_use db a s ≡ Spec.is_there v
    pub balance : Cache.balance db a s ≡ Spec.balance v
    pub nonce : get_nonce db a s ≡ Spec.nonce s.start_nonce v
    pub code_hash : Cache.code_hash db a s ≡ Spec.code_hash db v
    pub has_code : address_has_code db a s ≡ not (Spec.code_hash db v == empty_sha3 db)
    pub code : (Cache.code db a s).1 ≡ Spec.code v
    pub storage : (key : ℕ) → (Cache.storage db a key s).1 ≡ Spec.storage v key

  -- From a state whose cache agrees with the trie, addressInUse, balance, getNonce, codeHash,
  -- addressHasCode, code and storage answer what the account that is seen at the address has, or
  -- the values of a missing account: no balance, no code, no storage, and for getNonce the nonce
  -- that new accounts start with.
  pub Reads-World : Reads (world db s a)
  unfolding address_in_use Cache.balance get_nonce Cache.code_hash address_has_code
  Reads-World =
      let p = load-Loaded db law a s h in
      elim (Option-cases (lookup a (load db a s).cache)) [
        | inl e ↦ rw (p.not_found e).0 (record {
          in_use = rw (e, address_in_use) refl;
          balance = rw (e, Cache.balance) refl;
          nonce = rw (e, get_nonce) refl;
          code_hash = rw (e, Cache.code_hash) refl;
          has_code = rw (e, address_has_code) (ground arith);
          code = ap (λ (x : State × List ℕ). x.1) (code_missing db s a e);
          storage = λ key. ap (λ (x : State × ℕ). x.1) (storage_missing db s a key e);
        })
        | inr (acc, e) ↦ rw (p.found acc e) (record {
          in_use = rw (e, address_in_use) refl;
          balance = rw (e, Cache.balance) refl;
          nonce = rw (e, get_nonce) refl;
          code_hash = rw (e, Cache.code_hash) refl;
          has_code = rw (e, address_has_code) refl;
          code = ap (λ (x : State × List ℕ). x.1) (code_found db s a acc e);
          storage = λ key. ap (λ (x : State × ℕ). x.1) (storage_found db s a key acc e);
        })
      ]
