-- ===== src/Evm/Proof/Content.antt =====
-- What LegacyVM::copyDataToMemory puts into memory.
use native.Mathlib.Nat.{mod-eq_of_lt}
use cpp_aec.Base.{
  ℕ, ◌+◌, ◌-◌, ◌%◌, ◌≤◌, ◌<◌, ◌≡◌, refl, sym, ap, ◌∙◌, ◌⊎◌, inl, inr, Bool-cases, ltb, ltb→lt, List,
  length, get_or, replicate, drop, length-take, length-drop, length-replicate, get_or-take,
  get_or-drop, get_or-past, get_or-replicate, arith,
}
use cpp_aec.Bytes.{slice, write_at, length-write_at, write_at-before, write_at-after, write_at-in}
use cpp_aec.Evm.Word.{u64_mod}
use cpp_aec.Evm.Case.Memory.{size_to_be_copied, copy_data_to_memory}

-- The bytes that there are are copied, and they are no more than were asked for.
record Sized (n_data index size n : ℕ) : Type 0 where
  pub le : n ≤ size
  pub there : (n ≡ 0) ⊎ (index + n ≤ n_data)
  pub rest : (n ≡ size) ⊎ (n_data ≤ index + n)

sized :
    (n_data index size : ℕ)
    → n_data < u64_mod
    → Sized n_data index size (size_to_be_copied n_data index size)
unfolding size_to_be_copied
sized n_data index size h = ground arith

module _ (input : List ℕ) (o index size n : ℕ) (h : length input < u64_mod)
    (s : Sized (length input) index size n) where
  index-fits : (i : ℕ) → i < n → index % u64_mod ≡ index
  index-fits i l = mod-eq_of_lt (ground arith)

  length-source : length (slice input (index % u64_mod) n) ≡ n
  length-source = elim (Bool-cases (ltb 0 n)) [
    | inl e ↦
        let l = length-drop input index in
        rw (index-fits 0 (ltb→lt 0 n e)) (length-take (drop index input) n (ground arith))
    | inr e ↦ let z : n ≡ 0 = ground arith in rw z refl
  ]

  -- The bytes up to the end of the input, and zeros behind it.
  placed :
      (mem : List ℕ) (i : ℕ)
      → i < size
      → o + size ≤ length mem
      → get_or
          (write_at
            (write_at mem o (slice input (index % u64_mod) n))
            (o + n)
            (replicate (size - n) 0))
          (o + i)
          0
        ≡ get_or input (index + i) 0
  placed mem i l m = elim (Bool-cases (ltb i n)) [
    | inl e ↦
        let lt = ltb→lt i n e in
        let source = slice input (index % u64_mod) n in
        let len = length-source in
        write_at-before (write_at mem o source) (o + n) (replicate (size - n) 0) (o + i)
          (omega arith)
        ∙ write_at-in mem o source i (ground arith) (ground arith)
        ∙ get_or-take (drop (index % u64_mod) input) n i 0 lt
        ∙ get_or-drop input (index % u64_mod) i 0
        ∙ ap (λ (t : ℕ). get_or input (t + i) 0) (index-fits i lt)
    | inr e ↦
        let source = slice input (index % u64_mod) n in
        let len = length-write_at mem o source in
        let rep = length-replicate {A = ℕ} (size - n) 0 in
        let eq : o + i ≡ o + n + (i - n) = ground arith in
        rw eq (
          write_at-in (write_at mem o source) (o + n) (replicate (size - n) 0) (i - n)
            (ground arith) (ground arith)
          ∙ get_or-replicate (size - n) (i - n) 0
          ∙ sym (get_or-past input (index + i) 0 (ground arith)))
  ]

  untouched :
      (mem : List ℕ) (p : ℕ)
      → (p < o) ⊎ (o + size ≤ p)
      → get_or
          (write_at
            (write_at mem o (slice input (index % u64_mod) n))
            (o + n)
            (replicate (size - n) 0))
          p
          0
        ≡ get_or mem p 0
  untouched mem p (inl l) =
      write_at-before _ (o + n) (replicate (size - n) 0) p (omega arith)
      ∙ write_at-before mem o (slice input (index % u64_mod) n) p l
  untouched mem p (inr l) =
      let rep = length-replicate {A = ℕ} (size - n) 0 in
      let len = length-source in
      let le = s.le in
      write_at-after _ (o + n) (replicate (size - n) 0) p (ground arith)
      ∙ write_at-after mem o (slice input (index % u64_mod) n) p (ground arith)

-- For input and memory below 2 ^ 64 bytes and a range that lies in memory, copyDataToMemory puts
-- the byte index + i of the input at offset + i, for every i below the size, and 0 past the end of
-- the input, whatever the index.
pub copy_data_to_memory-in :
    (input : List ℕ) (offset index size : ℕ) (mem : List ℕ) (i : ℕ)
    → length input < u64_mod
    → length mem < u64_mod
    → offset + size ≤ length mem
    → i < size
    → get_or (copy_data_to_memory input offset index size mem) (offset + i) 0
      ≡ get_or input (index + i) 0
unfolding copy_data_to_memory
copy_data_to_memory-in input offset index size mem i hi hm fits l =
    let o : offset % u64_mod ≡ offset = mod-eq_of_lt (omega arith) in
    let z : size % u64_mod ≡ size = mod-eq_of_lt (omega arith) in
    rw (o, z)
      (placed input offset index size _ hi (sized (length input) index size hi) mem i l fits)

-- For input and memory below 2 ^ 64 bytes and a range that lies in memory, copyDataToMemory
-- changes no byte outside the range.
pub copy_data_to_memory-outside :
    (input : List ℕ) (offset index size : ℕ) (mem : List ℕ) (p : ℕ)
    → length input < u64_mod
    → length mem < u64_mod
    → offset + size ≤ length mem
    → (p < offset) ⊎ (offset + size ≤ p)
    → get_or (copy_data_to_memory input offset index size mem) p 0 ≡ get_or mem p 0
unfolding copy_data_to_memory
copy_data_to_memory-outside input offset index size mem p hi hm fits l =
    let o : offset % u64_mod ≡ offset = mod-eq_of_lt (omega arith) in
    let z : size % u64_mod ≡ size = mod-eq_of_lt (omega arith) in
    rw (o, z) (untouched input offset index size _ hi (sized (length input) index size hi) mem p l)
