-- ===== src/Lib.antt =====
-- Verification library of cpp-AEC.
--
-- This part covers the interpreter of the Ethereum virtual machine, libevm/LegacyVM.cpp with
-- LegacyVMCalls.cpp, LegacyVMOpt.cpp and LegacyVM.h, the prices of libaeccore/EVMSchedule.h, the
-- table of instructions of libevm/Instruction.cpp, and the big-endian codecs of
-- libdevcore/CommonData.h; the accounts that it works on, libaecereum/State.cpp with State.h,
-- Account.cpp and Account.h; and what joins them, libaecereum/Executive.cpp and ExtVM.cpp: the
-- interpreter reads and writes accounts, and calls other frames, through ExtVM, which starts an
-- Executive for each of them, and Executive runs the interpreter again. It takes the default
-- build: EVM_OPTIMIZE on, so that the first pass of `optimize` puts long pushes into the constant
-- pool and marks constant jumps, and EIP_615 and EIP_616 off, whose opcodes are invalid
-- instructions.
--
-- Files:
--   Base, Base/*           shared names, tests into Bool, lists over native numbers, integers
--   Bytes                  libdevcore/CommonData.h (toBigEndian, fromBigEndian) and copies of bytes
--   Evm/Word               words of 256 bits: u2s, s2u and the operators of the switch; its children
--                          prove facts on bits, powers, shifts and sign extension
--   Evm/Schedule           libaeccore/EVMSchedule.h, every schedule, and scheduleForBlockNumber
--   Evm/Instruction        libevm/Instruction.h and Instruction.cpp: tiers, the table, instructionInfo
--   Evm/Machine            the members of LegacyVM (`Vm`), the exceptions of libevm/VMFace.h, the
--                          interface of libevm/ExtVMFace.h (`ExtVmFace`), and the sequencing of calls
--   Evm/Gas                memNeed, adjustStack, gasForMem, updateIOGas, updateGas, updateMem, logGasMem
--                          and fetchInstruction
--   Evm/Jumps              copyCode, optimize, verifyJumpDest
--   Evm/Case, Evm/Case/*   the cases of interpretCases, and caseCreate, caseCall, caseCallSetup
--   Evm/Interpreter        the switch, initEntry and the trampoline of exec
--   Evm/Proof/*            the theorems about the machine: Rules (postconditions), Memory (metering),
--                          Sound (invariants), Computing, Storing and Calling (the cases), Dispatch
--                          (the switch), Fetching, Running (each call of the trampoline), Ending
--                          (exec), JumpTable, Pool, Content (what copies put into memory), Reading
--                          (words of input and code), Loading (MSTORE and MLOAD), Slots (DUP and
--                          SWAP), Metering and ExpGas (prices), Static/* (frames that must not change
--                          state), Schedules, Deep (the limit of the depth), Stepping, Worlds and
--                          Holding (what a run preserves of the accounts)
--   Evm/Tests, Evm/Tests/* runs at concrete machines
--   State/Account          class Account, and `Db`: the tries, the store of codes, SHA3 and the random
--                          engine, which are parameters
--   State/Journal          struct Change and the members of class State
--   State/Cache            the cache of accounts, and the functions of State that read
--   State/Changes          the functions of State that change accounts, savepoint and rollback
--   State/World, State/Spec  the accounts as they are seen through cache and trie, and what each
--                          function does on them
--   State/Proof/*          the theorems about State: Coherent (cache and trie agree), Loading, Undoing
--                          and Rollback (the journal), Changing, Crediting, Writing (each function can
--                          be undone), History (sequences of calls), Refining, Moving, Quiet, Querying
--   State/Tests            the theorems at a small database
--   Executive/Frame        class ExtVM of libaecereum/ExtVM.h, over the accounts and the sub-state
--   Executive/Starting     Executive::call, createOpcode, create2Opcode, executeCreate and revert
--   Executive/Running      Executive::go
--   Executive/Frames       ExtVM::call and ExtVM::create: frames within frames
--   Executive/Transaction  a transaction: initialize, execute, finalize, and executeTransaction of
--                          libaecereum/State.cpp
--   Executive/Proof/*      the theorems about frames within frames: Granting and Spending (gas), Depth
--                          (the limit of 1024), Feeding (fuel) with Beginning, Failing (exceptions),
--                          Settling and Paying (the end of a transaction), Static/* (frames that
--                          must not change state, with the frames below them)
--   Executive/Tests        the theorems at a small block
--   Seal, Seal/*           libaecashseal/Ethash.cpp: childGasLimit and the check of gas limits
--
-- How the state corresponds: a member function is a function from `Vm` to what it returns or
-- throws, with the members as it leaves them in either case. m_stack is a list of 1024 words, of
-- which m_SP and m_SPP are indices, and m_stackEnd is 1024. m_bounce is one of the functions it
-- can point to. m_io_gas_p is the field io_gas at the end of exec. Numbers are natural numbers
-- with the wrap-around of uint64_t and u256 written out. A subtraction that the code guards is one
-- of natural numbers.
--
-- The members of State are a record that each function passes on; an exception (NotEnoughCash,
-- InvalidAccountStartNonceInState) is an outcome that carries the state at the throw. The cache is
-- a list of addresses with accounts, the journal a list with the newest change in front, and the
-- size of the journal is the savepoint. The members of Executive are a record too, with the
-- arguments of the ExtVM that it sets up in place of m_ext. An exception of State that reaches
-- `go` ends the process by exit(1): the model keeps it in `stop`, and what comes after it is of no
-- account.
--
-- What is outside: for the interpreter, the accounts, calls and creations of other frames, block
-- hashes and SHA3 are the fields of `ExtVmFace`, over a type of worlds that its theorems leave
-- open; `make_ext` fills them with State and Executive, hashes of blocks, precompiled contracts
-- and addresses of new contracts being parameters (`Env`), as is what the contract of block hashes
-- answers, without its effect on the cache. Its reads go to State without what they leave in the
-- cache. Where a theorem needs that another frame gives back no more gas than it was given, it
-- says so (`IsFrugal`). The tracing callback ON_OP is left out, as it changes no member that the
-- interpreter reads. The read of tierStepGas past its end, for opcodes without a row, is 0 in the
-- model.
--
-- Fuel: the trampoline takes one unit of fuel for a call of a member function, and for
-- interpretCases one for each instruction. `exec-Ends` shows that twice the gas and three is
-- enough. A frame takes as fuel for its interpreter what its gas asks for (`fuel_for`). `ext_vm
-- levels` is the ExtVM of a frame under which `levels` more frames can be nested; a frame at depth
-- 1024 calls none.
--
-- Not modelled: of State, commit, setRoot, the lists of addresses and the cache of code sizes,
-- which work on the tries; of Ethash, difficulty and proof of work; of Executive, the checks of
-- signatures in verifyTransaction, which are a parameter, the traces and the ExecutionResult; RLP,
-- RangeMask, the transaction queue, tries, blocks, the network and the interfaces to users.
pub mod Base
pub mod Bytes
pub mod Evm
pub mod Executive
pub mod Seal
pub mod State
