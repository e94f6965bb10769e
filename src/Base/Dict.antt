-- ===== src/Base/Dict.antt =====
-- std::unordered_map and std::map as association lists, with the laws of their lookups.
use Prim.Native.Nat.{ℕ}
use mathlib.Core.Path.{◌≡◌}
use mathlib.Core.Logic.{◌⊎◌, inl, inr, ◌≢◌}
use mathlib.Core.Bool.{Bool, true, false}
use mathlib.Core.Option.{Option, none, some}
use mathlib.Core.List.{List, [], ◌∷◌}
use native.Mathlib.Omega.{arith}
use cpp_aec.Base.Tests.{Bool-cases, ◌==◌, if◌then◌else◌}

abbrev pub Dict {ℓ} : Type ℓ → Type ℓ
Dict V = List (ℕ × V)

-- `s.count(a)`
abbrev pub contains : ℕ → List ℕ → Bool
contains a [] = false
contains a (x ∷ xs) = if a == x then true else contains a xs

module _ {ℓ} {V : Type ℓ} where
  -- `d.erase(key)`
  abbrev pub erase : ℕ → Dict V → Dict V
  erase key [] = []
  erase key (entry ∷ rest) =
      let kept = erase key rest in if key == entry.0 then kept else entry ∷ kept

  abbrev pub lookup : ℕ → Dict V → Option V
  lookup key [] = none
  lookup key (entry ∷ rest) = if key == entry.0 then some entry.1 else lookup key rest

  -- `d[key] = value;`
  abbrev pub insert : ℕ → V → Dict V → Dict V
  insert key value [] = (key, value) ∷ []
  insert key value (entry ∷ rest) =
      if key == entry.0 then (key, value) ∷ rest else entry ∷ insert key value rest

  pub lookup-insert :
      (j k : ℕ) (v : V) (d : Dict V)
      → lookup j (insert k v d) ≡ (if j == k then some v else lookup j d)
  lookup-insert j k v [] = ground arith
  lookup-insert j k v (e ∷ d) = ground (arith, lookup-insert j k v d)

  pub lookup-erase :
      (j k : ℕ) (d : Dict V) → lookup j (erase k d) ≡ (if j == k then none else lookup j d)
  lookup-erase j k [] = ground arith
  lookup-erase j k (e ∷ d) = ground (arith, lookup-erase j k d)

  -- Where an entry that is found came from.
  pub found-insert :
      (j k : ℕ) (v : V) (d : Dict V) (w : V)
      → lookup j (insert k v d) ≡ some w
      → ((j ≡ k) × (v ≡ w)) ⊎ ((j ≢ k) × (lookup j d ≡ some w))
  found-insert j k v d w h = elim (Bool-cases (j == k)) [
    | inl e ↦ inl (ground (arith, lookup-insert j k v d))
    | inr e ↦ inr (ground arith, ground (arith, lookup-insert j k v d))
  ]

  pub found-erase :
      (j k : ℕ) (d : Dict V) (w : V)
      → lookup j (erase k d) ≡ some w
      → (j ≢ k) × (lookup j d ≡ some w)
  found-erase j k d w h = elim (Bool-cases (j == k)) [
    | inl e ↦ ground (arith, lookup-erase j k d)
    | inr e ↦ (ground arith, ground (arith, lookup-erase j k d))
  ]

  pub insert-insert : (k : ℕ) (v w : V) (d : Dict V) → insert k v (insert k w d) ≡ insert k v d
  insert-insert k v w [] = ground arith
  insert-insert k v w (e ∷ d) = ground (arith, insert-insert k v w d)
