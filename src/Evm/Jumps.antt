-- ===== src/Evm/Jumps.antt =====
-- libevm/LegacyVMOpt.cpp (copyCode, optimize) and LegacyVM::verifyJumpDest: the copy of the code that
-- runs, the table of jump destinations, and the first-pass optimizations, which are on in the default
-- build (EVM_OPTIMIZE).
use cpp_aec.Base.{
  ℕ, zero, suc, ◌+◌, ◌-◌, ◌/◌, ◌%◌, ◌^◌, Bool, false, ◌&&◌, ◌||◌, not, Option, none, some, List, [],
  ◌∷◌, ◌++◌, ltb, leb, ◌==◌, if◌then◌else◌, length, get_or, set, replicate,
}
use cpp_aec.Bytes.{from_big_endian, slice}
use cpp_aec.Evm.Instruction.{is_push}
use cpp_aec.Evm.Gas.{int63_max}

-- The operand bytes that follow an opcode.
abbrev pub push_size : ℕ → ℕ
push_size op = if is_push op then op - 0x60 + 1 else 0

-- PUSHC, JUMPC and JUMPCI, which only the optimizer may write.
abbrev pub is_synthetic : ℕ → Bool
is_synthetic op = op == 0xac || op == 0xad || op == 0xae

-- copyCode
unfoldable pub copy_code : List ℕ → ℕ → List ℕ
copy_code code extra_bytes = code ++ replicate extra_bytes 0

-- The code with its user-written synthetic ops made invalid, and m_jumpDests.
pub record JumpTable : Type 0 where
  pub code : List ℕ
  pub jump_dests : List ℕ

-- The body of the first loop of `optimize` at `pc`, but for the step of the loop.
unfoldable pub table_step : JumpTable → ℕ → JumpTable
table_step t pc =
    let op = get_or t.code pc 0 in
    record t {
      code = if is_synthetic op then set t.code pc 0xfe else t.code;
      jump_dests = if op == 0x5b then t.jump_dests ++ pc ∷ [] else t.jump_dests;
    }

-- The first loop of `optimize`. Every round moves `pc` on, so `n_bytes` rounds are enough.
unfoldable pub table_loop : (fuel n_bytes pc : ℕ) → JumpTable → JumpTable
unfolding table_step
table_loop zero n_bytes pc t = t
table_loop (suc fuel) n_bytes pc t =
    let rest =
      table_loop fuel n_bytes (pc + push_size (get_or t.code pc 0) + 1) (table_step t pc) in
    if ltb pc n_bytes then rest else t

unfoldable pub jump_table : List ℕ → JumpTable
unfolding table_loop copy_code
jump_table code =
    table_loop (length code) (length code) 0 (record { code = copy_code code 33; jump_dests = [] })

-- std::binary_search on a sorted range: the first element that is not less, and its test.
unfoldable pub binary_search : List ℕ → ℕ → Bool
binary_search [] v = false
binary_search (x ∷ xs) v = if ltb x v then binary_search xs v else not (ltb v x)

-- verifyJumpDest, with `none` for -1.
unfoldable pub verify_jump_dest : List ℕ → ℕ → Option ℕ
unfolding binary_search
verify_jump_dest jump_dests dest =
    if leb dest int63_max && binary_search jump_dests dest then some dest else none

-- What the second loop of `optimize` changes.
pub record Optimized : Type 0 where
  pub code : List ℕ
  pub pool : List ℕ

-- EVM_USE_CONSTANT_POOL: a push of more than five bytes becomes PUSHC, the 16-bit offset of its
-- value in the pool, and the number of bytes that are left to skip.
unfoldable pub use_constant_pool : Optimized → (pc n_push val : ℕ) → Optimized
use_constant_pool o pc n_push val =
    let pool_off = length o.pool % 2 ^ 16 in
    if ltb 5 n_push
    then record {
      code =
          set (set (set (set o.code pc 0xac) (pc + 3) (n_push - 2)) (pc + 2) (pool_off % 2 ^ 8))
            (pc + 1) (pool_off / 2 ^ 8);
      pool = o.pool ++ val ∷ [];
    }
    else o

-- EVM_REPLACE_CONST_JUMP: JUMP becomes JUMPC and JUMPI becomes JUMPCI after the push of a valid
-- destination.
unfoldable pub replace_const_jump : List ℕ → List ℕ → (i val : ℕ) → List ℕ
unfolding verify_jump_dest
replace_const_jump jump_dests code i val =
    let op = get_or code i 0 in
    if op == 0x56 || op == 0x57
    then elim (verify_jump_dest jump_dests val) [ none ↦ code | some _ ↦ set code i (op + 0x57) ]
    else code

unfoldable pub optimize_step : List ℕ → Optimized → ℕ → Optimized
unfolding use_constant_pool replace_const_jump
optimize_step jump_dests o pc =
    let op = get_or o.code pc 0 in
    let n_push = push_size op in
    let val = from_big_endian (slice o.code (pc + 1) n_push) in
    let o' = use_constant_pool o pc n_push val in
    if is_push op
    then record o' { code = replace_const_jump jump_dests o'.code (pc + n_push + 1) val }
    else o

-- The second loop of `optimize`; the size of the push is read before the push is replaced.
unfoldable pub optimize_loop : List ℕ → (fuel n_bytes pc : ℕ) → Optimized → Optimized
unfolding optimize_step
optimize_loop jump_dests zero n_bytes pc o = o
optimize_loop jump_dests (suc fuel) n_bytes pc o =
    let rest =
      optimize_loop jump_dests fuel n_bytes (pc + push_size (get_or o.code pc 0) + 1)
        (optimize_step jump_dests o pc) in
    if ltb pc n_bytes then rest else o
