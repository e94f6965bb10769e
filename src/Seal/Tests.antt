-- ===== src/Seal/Tests.antt =====
-- childGasLimit at the parameters of the main network.
use cpp_aec.Base.{◌≡◌, false, arith}
use cpp_aec.Seal.{ChainParams, child_gas_limit, is_invalid_gas_limit}
use cpp_aec.Seal.Proof.{child_gas_limit_valid}

abbrev main_network : ChainParams
main_network = record {
  min_gas_limit = 5000;
  max_gas_limit = 9223372036854775807;
  gas_limit_bound_divisor = 1024;
}

child_gas_limit_valid_example :
    is_invalid_gas_limit main_network (child_gas_limit main_network 8000000 7000000 4700000) 8000000
    ≡ false
unfolding child_gas_limit
child_gas_limit_valid_example =
    child_gas_limit_valid main_network 8000000 7000000 4700000 (omega arith) (omega arith)
      (omega arith) (omega arith) (omega arith) (omega arith)
