-- ===== src/Evm/Proof/Schedules.antt =====
-- The schedules of libaeccore/EVMSchedule.h have the prices that the proofs about the interpreter ask
-- for.
use cpp_aec.Base.{ℕ, Bool, true, false, if◌then◌else◌, [], ◌∷◌, All, arith}
use cpp_aec.Evm.Schedule.{
  EvmSchedule, Forks, schedule_for_block_number, default_schedule, frontier_schedule,
  homestead_schedule, eip150_schedule, eip158_schedule, byzantium_schedule, ewasm_schedule,
  constantinople_schedule,
}
use cpp_aec.Evm.Proof.Sound.{IsSane}

frontier-IsSane : IsSane frontier_schedule
frontier-IsSane = ground arith

-- So are the prices of every schedule.
pub schedules-IsSane : All IsSane (
    default_schedule ∷ frontier_schedule ∷ homestead_schedule ∷ eip150_schedule ∷ eip158_schedule
    ∷ byzantium_schedule ∷ ewasm_schedule ∷ constantinople_schedule ∷ [])
schedules-IsSane = (
  ground arith,
  (
    ground arith,
    (
      ground arith,
      (ground arith, (ground arith, (ground arith, (ground arith, (ground arith, tt))))),
    ),
  ),
)

-- A conditional has what both of its branches have.
choice-IsSane : (b : Bool) (s t : EvmSchedule) → IsSane s → IsSane t → IsSane (if b then s else t)
choice-IsSane true s t h k = h
choice-IsSane false s t h k = k

-- The schedule of every block is one of those.
pub schedule_for_block_number-IsSane : (f : Forks) (n : ℕ) → IsSane (schedule_for_block_number f n)
unfolding schedule_for_block_number
schedule_for_block_number-IsSane f n = choice-IsSane _ constantinople_schedule _ (ground arith) (
    choice-IsSane _ ewasm_schedule _ (ground arith) (
      choice-IsSane _ byzantium_schedule _ (ground arith) (
        choice-IsSane _ eip158_schedule _ (ground arith) (
          choice-IsSane _ eip150_schedule _ (ground arith)
            (choice-IsSane _ homestead_schedule _ (ground arith) frontier-IsSane)))))
