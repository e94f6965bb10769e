-- ===== src/Evm/Tests/Content.antt =====
-- The theorems about what is copied, read and pushed at concrete machines.
use cpp_aec.Base.{
  ℕ, ◌*◌, ◌/◌, ◌+◌, ◌≡◌, ◌<◌, max, refl, [], ◌∷◌, replicate, arith, length, get_or, inr, ◌++◌,
}
use cpp_aec.Bytes.{from_big_endian}
use cpp_aec.Evm.Machine.{Vm}
use cpp_aec.Evm.Proof.Rules.{Ensures}
use cpp_aec.Evm.Proof.Memory.{SameGas}
use cpp_aec.Evm.Gas.{update_gas}
use cpp_aec.Evm.Jumps.{Optimized, use_constant_pool}
use cpp_aec.Evm.Case.Memory.{copy_data_to_memory}
use cpp_aec.Evm.Case.Environment.{padded, calldataload}
use cpp_aec.Evm.Case.Control.{case_push, case_pushc, case_swap}
use cpp_aec.Evm.Proof.ExpGas.{PerByte, exp_gas_of-PerByte}
use cpp_aec.Evm.Proof.Loading.{Stored, case_mstore-Stored}
use cpp_aec.Evm.Case.Memory.{case_mstore}
use cpp_aec.Evm.Proof.Slots.{Swaps, case_swap-Swaps}
use cpp_aec.Evm.Proof.Metering.{mem_cost, update_gas-price}
use cpp_aec.Evm.Proof.Content.{copy_data_to_memory-in, copy_data_to_memory-outside}
use cpp_aec.Evm.Proof.Reading.{calldataload-padded, Pushes, case_push-Pushes}
use cpp_aec.Evm.Proof.Pool.{Pushed, case_pushc-Pushed}
use cpp_aec.Evm.Tests.{world, started}

-- A copy of 40 bytes into 64 bytes of new memory.
abbrev copying : Vm ℕ
copying = record started { run_gas = 3; new_mem_size = 64; copy_mem_size = 40 }

update_gas-price_example :
    Ensures
      (λ _ t.
        t.run_gas + mem_cost world (length copying.mem)
        ≡ copying.run_gas
          + mem_cost world (max (length copying.mem) copying.new_mem_size)
          + world.evm_schedule.copy_gas * ((copying.copy_mem_size + 31) / 32))
      (SameGas copying)
      (update_gas world copying)
update_gas-price_example = update_gas-price world copying (ground arith) (omega arith)

-- Four bytes from the second byte of a string of three bytes on.
copy_data_to_memory-in_example :
    get_or (copy_data_to_memory (7 ∷ 8 ∷ 9 ∷ []) 2 1 4 (replicate 32 5)) (2 + 1) 0 ≡ 9
copy_data_to_memory-in_example =
    copy_data_to_memory-in (7 ∷ 8 ∷ 9 ∷ []) 2 1 4 (replicate 32 5) 1 (omega arith) (omega arith)
      (omega arith) (omega arith)

copy_data_to_memory-outside_example :
    get_or (copy_data_to_memory (7 ∷ 8 ∷ 9 ∷ []) 2 1 4 (replicate 32 5)) 6 0 ≡ 5
copy_data_to_memory-outside_example =
    copy_data_to_memory-outside (7 ∷ 8 ∷ 9 ∷ []) 2 1 4 (replicate 32 5) 6 (omega arith)
      (omega arith) (omega arith) (inr (omega arith))

calldataload-padded_example :
    calldataload (7 ∷ 8 ∷ 9 ∷ []) 1 ≡ from_big_endian (padded (7 ∷ 8 ∷ 9 ∷ []) 1 32)
calldataload-padded_example = calldataload-padded (7 ∷ 8 ∷ 9 ∷ []) 1 (omega arith)

-- PUSH2 0x0102
abbrev pushing : Vm ℕ
pushing = record started {
  code = 0x61 ∷ 1 ∷ 2 ∷ replicate 33 0;
  op = 0x61;
  sp = 1024;
  spp = 1023;
  run_gas = 3;
}

case_push-Pushes_example :
    Ensures
      (λ c t. Pushes pushing 2 c t)
      (λ t. pushing.io_gas < pushing.run_gas)
      (case_push pushing)
case_push-Pushes_example = case_push-Pushes pushing (omega arith)

-- PUSH6 0x010203040506, put into the pool.
abbrev long_push : Optimized
long_push = record { code = 0x65 ∷ 1 ∷ 2 ∷ 3 ∷ 4 ∷ 5 ∷ 6 ∷ replicate 33 0; pool = [] }

abbrev pooled : Vm ℕ
pooled = record started {
  code = 0xac ∷ 0 ∷ 0 ∷ 4 ∷ 4 ∷ 5 ∷ 6 ∷ replicate 33 0;
  pool = 0x010203040506 ∷ [];
  op = 0xac;
  sp = 1024;
  spp = 1023;
  run_gas = 3;
}

case_pushc-Pushed_example :
    Ensures
      (λ c t. Pushed pooled 6 0x010203040506 c t)
      (λ t. pooled.io_gas < pooled.run_gas)
      (case_pushc pooled)
unfolding use_constant_pool
case_pushc-Pushed_example =
    case_pushc-Pushed long_push 6 0x010203040506 [] pooled (omega arith) (omega arith) (omega arith)
      (omega arith) refl refl

-- DUP2 and SWAP2 on three words.
abbrev three_words : Vm ℕ
three_words = record started {
  stack = replicate 1021 0 ++ (7 ∷ 8 ∷ 9 ∷ []);
  op = 0x81;
  sp = 1021;
  spp = 1020;
  run_gas = 3;
}

abbrev swapping : Vm ℕ
swapping = record three_words { op = 0x91; spp = 1021 }

case_swap-Swaps_example :
    Ensures
      (λ c t. Swaps 1021 1023 swapping c t)
      (λ t. swapping.io_gas < swapping.run_gas)
      (case_swap swapping)
case_swap-Swaps_example = case_swap-Swaps swapping (omega arith)

exp_gas_of-PerByte_example : PerByte world 256
exp_gas_of-PerByte_example = exp_gas_of-PerByte world 256 (omega arith)

-- The word 8 at byte 7.
case_mstore-Stored_example :
    Ensures
      (λ _ t. Stored world three_words t)
      (SameGas three_words)
      (case_mstore world three_words)
case_mstore-Stored_example =
    case_mstore-Stored world three_words (omega arith) (ground arith) (omega arith) (omega arith)
