-- ===== src/Evm/Proof/JumpTable.antt =====
-- The table of jump destinations that LegacyVM::optimize builds, and its search by verifyJumpDest,
-- against a reading of the code byte by byte.
use cpp_aec.Base.{
  ◌-◌, ℕ, zero, suc, ◌+◌, ◌≤◌, ◌<◌, ◌≡◌, refl, sym, ap, ◌∙◌, inl, inr, Bool, true, false,
  Bool-cases, ◌&&◌, ltb, leb, ◌==◌, ltb→lt, lt→ltb, if◌then◌else◌, none, some, List, [], ◌∷◌, ◌++◌,
  length, get_or, drop, replicate, arith, get_or-set_other, get_or-append_left, drop-get_or,
  drop-drop, drop-all, append-nil, append_assoc,
}
use cpp_aec.Evm.Gas.{int63_max}
use cpp_aec.Evm.Jumps.{
  push_size, is_synthetic, copy_code, JumpTable, table_step, table_loop, jump_table, binary_search,
  verify_jump_dest,
}

-- The positions of the JUMPDEST bytes that are not data of a push: `skip` bytes of data are to come.
valid_dests : List ℕ → (pos skip : ℕ) → List ℕ
valid_dests [] pos skip = []
valid_dests (b ∷ bs) pos (suc k) = valid_dests bs (pos + 1) k
valid_dests (b ∷ bs) pos zero =
    let rest = valid_dests bs (pos + 1) (push_size b) in if b == 0x5b then pos ∷ rest else rest

-- The number of data bytes that follow an instruction: PUSH1 to PUSH32 have 1 to 32 of them.
unfoldable pub data_bytes : ℕ → ℕ
data_bytes b = if ltb b 0x60 then 0 else if ltb 0x7f b then 0 else b - 0x5f

data_bytes-push_size : (b : ℕ) → data_bytes b ≡ push_size b
unfolding data_bytes
data_bytes-push_size b = ground arith

-- The byte `d` further on is a JUMPDEST, and no data of a push.
unfoldable pub is_dest : List ℕ → (skip d : ℕ) → Bool
is_dest [] skip d = false
is_dest (b ∷ bs) (suc k) zero = false
is_dest (b ∷ bs) zero zero = b == 0x5b
is_dest (b ∷ bs) (suc k) (suc d) = is_dest bs k d
is_dest (b ∷ bs) zero (suc d) = is_dest bs (data_bytes b) d

search-below :
    (bs : List ℕ) (pos skip v : ℕ) → v < pos → binary_search (valid_dests bs pos skip) v ≡ false
unfolding valid_dests binary_search
search-below [] pos skip v h = refl
search-below (b ∷ bs) pos (suc k) v h = search-below bs (pos + 1) k v (ground arith)
search-below (b ∷ bs) pos zero v h =
    let rest = search-below bs (pos + 1) (push_size b) v (ground arith) in
    let e = lt→ltb v pos h in ground arith

shifted :
    (bs : List ℕ) (pos skip d : ℕ) (r : Bool)
    → binary_search (valid_dests bs (pos + 1) skip) (pos + 1 + d) ≡ r
    → binary_search (valid_dests bs (pos + 1) skip) (pos + suc d) ≡ r
shifted bs pos skip d r h = let e : pos + suc d ≡ pos + 1 + d = omega arith in rw e h

search-valid :
    (bs : List ℕ) (pos skip d : ℕ)
    → binary_search (valid_dests bs pos skip) (pos + d) ≡ is_dest bs skip d
unfolding valid_dests is_dest binary_search
search-valid [] pos skip d = refl
search-valid (b ∷ bs) pos (suc k) zero = search-below bs (pos + 1) k (pos + 0) (ground arith)
search-valid (b ∷ bs) pos (suc k) (suc d) = shifted bs pos k d _ (search-valid bs (pos + 1) k d)
search-valid (b ∷ bs) pos zero zero =
    let rest = search-below bs (pos + 1) (push_size b) (pos + 0) (ground arith) in ground arith
search-valid (b ∷ bs) pos zero (suc d) =
    let rest = shifted bs pos (push_size b) d _ (search-valid bs (pos + 1) (push_size b) d) in
    rw (data_bytes-push_size b) (ground arith)

-- From `skip` bytes further on, nothing is skipped.
valid_dests-skip :
    (bs : List ℕ) (pos skip : ℕ)
    → valid_dests bs pos skip ≡ valid_dests (drop skip bs) (pos + skip) 0
unfolding valid_dests
valid_dests-skip bs pos zero = let e : pos + 0 ≡ pos = omega arith in rw e refl
valid_dests-skip [] pos (suc k) = refl
valid_dests-skip (b ∷ bs) pos (suc k) =
    let e : pos + suc k ≡ pos + 1 + k = omega arith in rw e (valid_dests-skip bs (pos + 1) k)

-- The code of the table from `pos` on is as it was.
record Agrees (code0 : List ℕ) (t : JumpTable) (pos : ℕ) : Type 0 where
  pub same : (i : ℕ) → pos ≤ i → get_or t.code i 0 ≡ get_or code0 i 0

table_step-Agrees :
    (code0 : List ℕ) (t : JumpTable) (pos next : ℕ)
    → pos < next
    → Agrees code0 t pos
    → Agrees code0 (table_step t pos) next
unfolding table_step
table_step-Agrees code0 t pos next h a = record {
  same = λ i le. elim (Bool-cases (is_synthetic (get_or t.code pos 0))) [
    | inl e ↦ rw e (get_or-set_other t.code pos i 0xfe 0 (ground arith) ∙ a.same i (ground arith))
    | inr e ↦ rw e (a.same i (ground arith))
  ];
}

-- What the bytes from `pos` on give, when the byte at `pos` is no data.
valid_dests-at :
    (code : List ℕ) (pos : ℕ)
    → pos < length code
    → let b = get_or code pos 0 in
      let rest = valid_dests (drop (pos + push_size b + 1) code) (pos + push_size b + 1) 0 in
      valid_dests (drop pos code) pos 0 ≡ (if b == 0x5b then pos ∷ rest else rest)
unfolding valid_dests
valid_dests-at code pos h =
    let b = get_or code pos 0 in
    let k = push_size b in
    let e : pos + k + 1 ≡ pos + 1 + k = omega arith in
    let e' : suc pos + k ≡ pos + k + 1 = omega arith in
    let s = valid_dests-skip (drop (suc pos) code) (pos + 1) k in
    let d = drop-drop code (suc pos) k in
    let r : valid_dests (drop (suc pos) code) (pos + 1) k
        ≡ valid_dests (drop (pos + k + 1) code) (pos + k + 1) 0 =
      s ∙ rw d (rw e' (rw e refl)) in
    rw (drop-get_or code pos 0 h) (ap (λ r. if b == 0x5b then pos ∷ r else r) r)

append-if :
    (c : Bool) (ds rest : List ℕ) (pos : ℕ)
    → (if c then ds ++ pos ∷ [] else ds) ++ rest ≡ ds ++ (if c then pos ∷ rest else rest)
append-if true ds rest pos = append_assoc ds (pos ∷ []) rest
append-if false ds rest pos = refl

table_round :
    (fuel pos : ℕ) (code : List ℕ) (t : JumpTable)
    → pos < length code
    → Agrees (copy_code code 33) t pos
    → let pos' = pos + push_size (get_or t.code pos 0) + 1 in
      (table_loop fuel (length code) pos' (table_step t pos)).jump_dests
        ≡ (table_step t pos).jump_dests ++ valid_dests (drop pos' code) pos' 0
      → (table_loop fuel (length code) pos' (table_step t pos)).jump_dests
        ≡ t.jump_dests ++ valid_dests (drop pos code) pos 0
unfolding table_step copy_code
table_round fuel pos code t h a rest =
    let same = a.same pos (ground arith) ∙ get_or-append_left code (replicate 33 0) pos 0 h in
    rest
    ∙ rw same (
        append-if (get_or code pos 0 == 0x5b) t.jump_dests _ pos
        ∙ ap (λ ds. t.jump_dests ++ ds) (sym (valid_dests-at code pos h)))

-- The loop has found the positions of the bytes that it has passed.
table_loop-valid :
    (fuel pos : ℕ) (code : List ℕ) (t : JumpTable)
    → length code ≤ fuel + pos
    → Agrees (copy_code code 33) t pos
    → (table_loop fuel (length code) pos t).jump_dests
      ≡ t.jump_dests ++ valid_dests (drop pos code) pos 0
unfolding table_loop valid_dests
table_loop-valid zero pos code t h a =
    rw (drop-all code pos (ground arith)) (sym (append-nil t.jump_dests))
table_loop-valid (suc fuel) pos code t h a = elim (Bool-cases (ltb pos (length code))) [
  | inl e ↦ rw e (
      table_round fuel pos code t (ltb→lt _ _ e) a (
        table_loop-valid fuel (pos + push_size (get_or t.code pos 0) + 1) code (table_step t pos)
          (ground arith) (table_step-Agrees _ t pos _ (ground arith) a)))
  | inr e ↦ rw e (rw (drop-all code pos (ground arith)) (sym (append-nil t.jump_dests)))
]

jump_table-valid : (code : List ℕ) → (jump_table code).jump_dests ≡ valid_dests code 0 0
unfolding jump_table
jump_table-valid code =
    table_loop-valid (length code) 0 code _ (ground arith) (record { same = λ i le. refl })

-- verifyJumpDest on the table of optimize accepts exactly the positions below 2 ^ 63 that hold a
-- JUMPDEST byte and are no data of a push, as read from the code byte by byte, for every code and
-- destination.
pub verify_jump_dest-is_dest :
    (code : List ℕ) (dest : ℕ)
    → verify_jump_dest (jump_table code).jump_dests dest
      ≡ (if leb dest int63_max && is_dest code 0 dest then some dest else none)
unfolding verify_jump_dest
verify_jump_dest-is_dest code dest =
    let e : 0 + dest ≡ dest = omega arith in
    let s : binary_search (valid_dests code 0 0) dest ≡ is_dest code 0 dest =
      ap (binary_search (valid_dests code 0 0)) (sym e) ∙ search-valid code 0 0 dest in
    rw (jump_table-valid code) (rw s refl)
