-- ===== src/Evm/Proof/Sound.antt =====
-- What holds of a LegacyVM between two instructions, and what each case of interpretCases does to it
-- and to the gas.
use cpp_aec.Base.{ℕ, ◌%◌, ◌^◌, ◌≤◌, ◌<◌, ◌≡◌, ◌⊎◌, Bool, true, false, List, [], ◌∷◌, length}
use cpp_aec.Evm.Word.{u64_mod}
use cpp_aec.Evm.Schedule.{EvmSchedule}
use cpp_aec.Evm.Machine.{
  ExtVmFace, CallParameters, Vm, M, Ctl, next, continue, break, Bounce, init_entry, interpret_cases,
  stopped,
}
use cpp_aec.Evm.Machine
use cpp_aec.Evm.Gas.{stack_limit}
use cpp_aec.Evm.Proof.Rules.{Ensures}

-- What the proofs use of a protocol version's prices.
pub record IsSane (g : EvmSchedule) : Type 0 where
  pub tiers : g.tier_step_gas ≡ 0 ∷ 2 ∷ 3 ∷ 5 ∷ 8 ∷ 10 ∷ 20 ∷ 0 ∷ []
  pub copy : g.copy_gas ≤ 15
  pub exp : 1 ≤ g.exp_gas
  pub sha3 : 1 ≤ g.sha3_gas
  pub sload : 1 ≤ g.sload_gas
  pub sstore_set : 1 ≤ g.sstore_set_gas
  pub sstore_reset : 1 ≤ g.sstore_reset_gas
  pub log : 1 ≤ g.log_gas
  pub balance : 1 ≤ g.balance_gas
  pub extcodesize : 1 ≤ g.extcodesize_gas
  pub extcodecopy : 1 ≤ g.extcodecopy_gas
  pub extcodecopy_max : g.extcodecopy_gas < 2 ^ 32
  pub blockhash : 1 ≤ g.blockhash_gas
  pub create : 1 ≤ g.create_gas
  pub call : 1 ≤ g.call_gas
  pub call_max : g.call_gas < 2 ^ 60
  pub new_account_max : g.call_new_account_gas < 2 ^ 60
  pub transfer_max : g.call_value_transfer_gas < 2 ^ 60
  pub stipend : g.call_stipend ≤ g.call_value_transfer_gas

-- The frames that a message calls give back at most the gas that they are given.
pub record IsFrugal {W : Type 0} (ext : ExtVmFace W) : Type 0 where
  pub create_gas :
      (w : W) (endowment gas : ℕ) (code : List ℕ) (op salt : ℕ)
      → (ext.create w endowment gas code op salt).gas ≤ gas
  pub call_gas : (w : W) (p : CallParameters) → (ext.call w p).gas ≤ p.gas

-- The stack pointer stays within the 1024 slots, the gas within 64 bits, and memory is whole words.
pub record Sound {W : Type 0} (s : Vm W) : Type 0 where
  pub slots : length s.stack ≡ stack_limit
  pub spp_bound : s.spp ≤ stack_limit
  pub gas_bound : s.io_gas < u64_mod
  pub whole : length s.mem % 32 ≡ 0

-- A state that fetchInstruction leaves to a case.
pub record Ready {W : Type 0} (s : Vm W) : Type 0 where
  pub sound : Sound s
  pub cheap : s.run_gas ≤ 20
  pub no_copy : s.copy_mem_size ≡ 0
  pub running : s.bounce ≡ interpret_cases

-- The trampoline has something else to call than interpretCases.
abbrev pub is_leaving : Bounce → Bool
is_leaving init_entry = false
is_leaving interpret_cases = false
is_leaving Machine.case_create = true
is_leaving Machine.case_call = true
is_leaving stopped = true

-- What a call finds: the end of the program, or no bytes to be copied.
abbrev pub Waits : {W : Type 0} → Vm W → Type 0
Waits t = (t.bounce ≡ stopped) ⊎ (t.copy_mem_size ≡ 0)

-- A case that goes on has spent gas; one that leaves the loop has set m_bounce.
abbrev pub Spends : {W : Type 0} → Ctl → Vm W → Vm W → Type 0
Spends next s t = (t.io_gas < s.io_gas) × (t.bounce ≡ interpret_cases)
Spends continue s t = (t.io_gas < s.io_gas) × (t.bounce ≡ interpret_cases)
Spends break s t = (t.io_gas ≤ s.io_gas) × (is_leaving t.bounce ≡ true) × Waits t

abbrev pub NoMoreGas : {W : Type 0} → Vm W → Vm W → Type 0
NoMoreGas s t = t.io_gas ≤ s.io_gas

pub record CaseDone {W : Type 0} (s : Vm W) (c : Ctl) (t : Vm W) : Type 0 where
  pub sound : Sound t
  pub spends : Spends c s t

-- The case is right from every state that fetchInstruction leaves with a price that is not zero
-- (`paid`) or with any price.
abbrev pub CaseEnsures : {W : Type 0} → ℕ → M W Ctl → Type 0
CaseEnsures price m =
    (s : Vm _) → Ready s → price ≤ s.run_gas → Ensures (CaseDone s) (NoMoreGas s) (m s)

-- caseCreate and caseCall go back to interpretCases, with less gas.
pub record CallDone {W : Type 0} (s t : Vm W) : Type 0 where
  pub sound : Sound t
  pub spent : t.io_gas < s.io_gas
  pub running : t.bounce ≡ interpret_cases
