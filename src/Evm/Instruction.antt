-- ===== src/Evm/Instruction.antt =====
-- libevm/Instruction.h and libevm/Instruction.cpp: the opcodes, and what each takes from the stack,
-- puts back and costs. An opcode is its byte, as in the enum.
use Prim.Native.String.{String}
use cpp_aec.Base.{ℕ, ◌-◌, ◌+◌, List, [], ◌∷◌, Bool, leb, ◌==◌, if◌then◌else◌, ◌&&◌}

pub data Tier : Type 0 where
  tier_zero tier_base tier_very_low tier_low tier_mid tier_high tier_ext tier_special : Tier
  tier_invalid : Tier

pub record InstructionInfo : Type 0 where
  pub name : String
  pub args : ℕ
  pub ret : ℕ
  pub gas_price_tier : Tier

abbrev pub info : String → ℕ → ℕ → Tier → InstructionInfo
info n a r t = record { name = n; args = a; ret = r; gas_price_tier = t }

abbrev row : ℕ → String → ℕ → ℕ → Tier → ℕ × InstructionInfo
row op n a r t = (op, info n a r t)

-- The entries of c_instructionInfo but for the runs PUSH, DUP and SWAP, in the order of the source.
-- The row that stands twice under XOR (the second is meant for XOOR) stands so in the source.
abbrev pub c_instruction_info : List (ℕ × InstructionInfo)
c_instruction_info =
    row 0x00 "STOP" 0 0 tier_zero
    ∷ row 0x01 "ADD" 2 1 tier_very_low
    ∷ row 0x03 "SUB" 2 1 tier_very_low
    ∷ row 0x02 "MUL" 2 1 tier_low
    ∷ row 0x04 "DIV" 2 1 tier_low
    ∷ row 0x05 "SDIV" 2 1 tier_low
    ∷ row 0x06 "MOD" 2 1 tier_low
    ∷ row 0x07 "SMOD" 2 1 tier_low
    ∷ row 0x0a "EXP" 2 1 tier_special
    ∷ row 0x19 "NOT" 1 1 tier_very_low
    ∷ row 0x10 "LT" 2 1 tier_very_low
    ∷ row 0x11 "GT" 2 1 tier_very_low
    ∷ row 0x12 "SLT" 2 1 tier_very_low
    ∷ row 0x13 "SGT" 2 1 tier_very_low
    ∷ row 0x14 "EQ" 2 1 tier_very_low
    ∷ row 0x15 "ISZERO" 1 1 tier_very_low
    ∷ row 0x16 "AND" 2 1 tier_very_low
    ∷ row 0x17 "OR" 2 1 tier_very_low
    ∷ row 0x18 "XOR" 2 1 tier_very_low
    ∷ row 0x1a "BYTE" 2 1 tier_very_low
    ∷ row 0x1b "SHL" 2 1 tier_very_low
    ∷ row 0x1c "SHR" 2 1 tier_very_low
    ∷ row 0x1d "SAR" 2 1 tier_very_low
    ∷ row 0x08 "ADDMOD" 3 1 tier_mid
    ∷ row 0x09 "MULMOD" 3 1 tier_mid
    ∷ row 0x0b "SIGNEXTEND" 2 1 tier_low
    ∷ row 0x20 "SHA3" 2 1 tier_special
    ∷ row 0x30 "ADDRESS" 0 1 tier_base
    ∷ row 0x31 "BALANCE" 1 1 tier_special
    ∷ row 0x32 "ORIGIN" 0 1 tier_base
    ∷ row 0x33 "CALLER" 0 1 tier_base
    ∷ row 0x34 "CALLVALUE" 0 1 tier_base
    ∷ row 0x35 "CALLDATALOAD" 1 1 tier_very_low
    ∷ row 0x36 "CALLDATASIZE" 0 1 tier_base
    ∷ row 0x37 "CALLDATACOPY" 3 0 tier_very_low
    ∷ row 0x38 "CODESIZE" 0 1 tier_base
    ∷ row 0x39 "CODECOPY" 3 0 tier_very_low
    ∷ row 0x3a "GASPRICE" 0 1 tier_base
    ∷ row 0x3b "EXTCODESIZE" 1 1 tier_special
    ∷ row 0x3c "EXTCODECOPY" 4 0 tier_special
    ∷ row 0x3d "RETURNDATASIZE" 0 1 tier_base
    ∷ row 0x3e "RETURNDATACOPY" 3 0 tier_very_low
    ∷ row 0x40 "BLOCKHASH" 1 1 tier_special
    ∷ row 0x41 "COINBASE" 0 1 tier_base
    ∷ row 0x42 "TIMESTAMP" 0 1 tier_base
    ∷ row 0x43 "NUMBER" 0 1 tier_base
    ∷ row 0x44 "DIFFICULTY" 0 1 tier_base
    ∷ row 0x45 "GASLIMIT" 0 1 tier_base
    ∷ row 0x50 "POP" 1 0 tier_base
    ∷ row 0x51 "MLOAD" 1 1 tier_very_low
    ∷ row 0x52 "MSTORE" 2 0 tier_very_low
    ∷ row 0x53 "MSTORE8" 2 0 tier_very_low
    ∷ row 0x54 "SLOAD" 1 1 tier_special
    ∷ row 0x55 "SSTORE" 2 0 tier_special
    ∷ row 0x56 "JUMP" 1 0 tier_mid
    ∷ row 0x57 "JUMPI" 2 0 tier_high
    ∷ row 0x58 "PC" 0 1 tier_base
    ∷ row 0x59 "MSIZE" 0 1 tier_base
    ∷ row 0x5a "GAS" 0 1 tier_base
    ∷ row 0x5b "JUMPDEST" 0 0 tier_special
    ∷ row 0xa0 "LOG0" 2 0 tier_special
    ∷ row 0xa1 "LOG1" 3 0 tier_special
    ∷ row 0xa2 "LOG2" 4 0 tier_special
    ∷ row 0xa3 "LOG3" 5 0 tier_special
    ∷ row 0xa4 "LOG4" 6 0 tier_special
    ∷ row 0xb0 "JUMPTO" 1 0 tier_very_low
    ∷ row 0xb1 "JUMPIF" 2 0 tier_low
    ∷ row 0xb3 "JUMPV" 1 0 tier_mid
    ∷ row 0xb2 "JUMPSUB" 1 0 tier_low
    ∷ row 0xb4 "JUMPSUBV" 1 0 tier_mid
    ∷ row 0xb5 "BEGINSUB" 0 0 tier_special
    ∷ row 0xb6 "BEGINDATA" 0 0 tier_special
    ∷ row 0xb7 "RETURNSUB" 1 0 tier_mid
    ∷ row 0xb8 "PUTLOCAL" 1 0 tier_very_low
    ∷ row 0xb9 "GETLOCAL" 0 1 tier_very_low
    ∷ row 0xc1 "XADD" 0 0 tier_special
    ∷ row 0xc2 "XMUL" 2 1 tier_special
    ∷ row 0xc3 "XSUB" 2 1 tier_special
    ∷ row 0xc4 "XDIV" 2 1 tier_special
    ∷ row 0xc5 "XSDIV" 2 1 tier_special
    ∷ row 0xc6 "XMOD" 2 1 tier_special
    ∷ row 0xc7 "XSMOD" 2 1 tier_special
    ∷ row 0xd0 "XLT" 2 1 tier_special
    ∷ row 0xd1 "XGT" 2 1 tier_special
    ∷ row 0xd2 "XSLT" 2 1 tier_special
    ∷ row 0xd3 "XSGT" 2 1 tier_special
    ∷ row 0xd4 "XEQ" 2 1 tier_special
    ∷ row 0xd5 "XISZERO" 2 1 tier_special
    ∷ row 0xd6 "XAND" 1 1 tier_special
    ∷ row 0x18 "XOR" 2 1 tier_special
    ∷ row 0xd8 "XXOR" 2 1 tier_special
    ∷ row 0xd9 "XNOT" 2 1 tier_special
    ∷ row 0xdb "XSHL" 2 1 tier_special
    ∷ row 0xdc "XSHR" 2 1 tier_special
    ∷ row 0xdd "XSAR" 2 1 tier_special
    ∷ row 0xde "XROL" 2 1 tier_special
    ∷ row 0xdf "XROR" 2 1 tier_special
    ∷ row 0xe0 "XPUSH" 1 1 tier_very_low
    ∷ row 0xe1 "XMLOAD" 1 1 tier_very_low
    ∷ row 0xe2 "XMSTORE" 2 0 tier_very_low
    ∷ row 0xe4 "XSLOAD" 1 1 tier_special
    ∷ row 0xe5 "XSSTORE" 2 0 tier_special
    ∷ row 0xe6 "XVTOWIDE" 1 1 tier_very_low
    ∷ row 0xe7 "XWIDETOV" 1 1 tier_very_low
    ∷ row 0xe9 "XPUT" 3 1 tier_special
    ∷ row 0xe8 "XGET" 2 1 tier_special
    ∷ row 0xea "XSWIZZLE" 2 1 tier_special
    ∷ row 0xeb "XSHUFFLE" 3 1 tier_special
    ∷ row 0xf0 "CREATE" 3 1 tier_special
    ∷ row 0xfb "CREATE2" 4 1 tier_special
    ∷ row 0xf1 "CALL" 7 1 tier_special
    ∷ row 0xf2 "CALLCODE" 7 1 tier_special
    ∷ row 0xf3 "RETURN" 2 0 tier_zero
    ∷ row 0xfa "STATICCALL" 6 1 tier_special
    ∷ row 0xf4 "DELEGATECALL" 6 1 tier_special
    ∷ row 0xfd "REVERT" 2 0 tier_special
    ∷ row 0xfe "INVALID" 0 0 tier_zero
    ∷ row 0xff "SUICIDE" 1 0 tier_special
    ∷ row 0xac "PUSHC" 0 1 tier_very_low
    ∷ row 0xad "JUMPC" 1 0 tier_mid
    ∷ row 0xae "JUMPCI" 2 0 tier_high
    ∷ []

lookup_info : List (ℕ × InstructionInfo) → ℕ → InstructionInfo
lookup_info [] op = info "" 0 0 tier_invalid
lookup_info ((k, i) ∷ rest) op = if k == op then i else lookup_info rest op

abbrev pub is_push : ℕ → Bool
is_push op = leb 0x60 op && leb op 0x7f

abbrev pub is_dup : ℕ → Bool
is_dup op = leb 0x80 op && leb op 0x8f

abbrev pub is_swap : ℕ → Bool
is_swap op = leb 0x90 op && leb op 0x9f

-- instructionInfo. The 32 rows PUSH1 to PUSH32 are alike; DUPn takes n and returns n + 1, and SWAPn
-- takes and returns n + 1. Their names lose the number, which only traces print.
-- An opcode without a row is of the tier Invalid.
unfoldable pub instruction_info : ℕ → InstructionInfo
unfolding lookup_info
instruction_info op =
    if is_push op
    then info "PUSH" 0 1 tier_very_low
    else if is_dup op
    then info "DUP" (op - 0x80 + 1) (op - 0x80 + 2) tier_very_low
    else if is_swap op
    then info "SWAP" (op - 0x90 + 2) (op - 0x90 + 2) tier_very_low
    else lookup_info c_instruction_info op
