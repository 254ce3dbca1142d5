-- ===== src/Tests/Data.antt =====
-- Inputs for the witnesses: services that answer yes, and a transfer of nothing.
use zeropool_relayer.Base.{
  pos, ℕ, true, false, Text, codes, [], ◌∷◌, ◌++◌, drop, replicate, none, some, ok,
}
use zeropool_relayer.Helpers.Hex.{SnarkProof}
use zeropool_relayer.Helpers.TxTypes.{transfer}
use zeropool_relayer.Numerals.Value.{value}
use zeropool_relayer.Pool.Amounts.{PoolConfig}
use zeropool_relayer.Pool.Relay.{Indexer}
use zeropool_relayer.Pool.Types.{Proof, PoolTx, Delta, Services, OptionalChecks, ProcessResult}
use zeropool_relayer.State.Services.{simple_storage, function_set}
use zeropool_relayer.State.PoolState.{PoolState}
use zeropool_relayer.Validation.Caps.{Limits}

abbrev pub one : Text
one = codes "1"

abbrev pub limits : Limits
limits = record {
  tvl_cap = pos 1000;
  tvl = pos 0;
  daily_deposit_cap = pos 100;
  daily_deposit_cap_usage = pos 0;
  daily_withdrawal_cap = pos 100;
  daily_withdrawal_cap_usage = pos 0;
  daily_user_deposit_cap = pos 50;
  daily_user_deposit_cap_usage = pos 0;
  deposit_cap = pos 40;
  tier = pos 0;
  daily_user_direct_deposit_cap = pos 10;
  daily_user_direct_deposit_cap_usage = pos 0;
  direct_deposit_cap = pos 5;
}

abbrev pub no_delta : Delta
no_delta = record {
  transfer_index = pos 0;
  energy_amount = pos 0;
  token_amount = pos 0;
  pool_id = pos 0;
}

abbrev pub services : Services
services = record {
  parse_delta = λ s. no_delta;
  verify_proof = λ p inputs. true;
  to_bn = λ s. value 16 (drop 2 s);
  buffer_from_hex = λ s. replicate 60 0;
  bytes_to_hex = λ b. codes "0xaa";
  to_checksum_address = λ s. s;
  recover = λ m s. ok (codes "0xaa");
  contract_nullifier = λ s. ok (pos 0);
  balance_of = λ s. ok (pos 1000);
  get_limits_for = λ s. ok limits;
  screener = λ s. some false;
  pool_address = codes "0xbb";
  now_ms = 1000;
  permit_recover = none;
}

abbrev pub indexer : Indexer
indexer = record { info = ok (pos 0); root = λ i. ok (0 ∷ []) }

abbrev pub checks : OptionalChecks
checks = record { fee = none; screener = false }

abbrev pub config : PoolConfig
config = record {
  denominator = 1;
  pool_id = pos 0;
  own_address = codes "0xAA";
  max_native_amount = pos 0;
  deadline_threshold = 0;
}

abbrev pub snark_proof : SnarkProof
snark_proof = record {
  a0 = one;
  a1 = one;
  b00 = one;
  b01 = one;
  b10 = one;
  b11 = one;
  c0 = one;
  c1 = one;
}

abbrev pub proof : Proof
proof = record { proof = snark_proof; inputs = (0 ∷ []) ∷ one ∷ one ∷ one ∷ one ∷ [] }

abbrev pub tx : PoolTx
tx = record {
  proof = proof;
  memo = replicate 30 b'0';
  tx_type = transfer;
  deposit_signature = none;
}

abbrev pub tx_v2 : PoolTx
tx_v2 = record tx { memo = replicate 120 b'0' ++ codes "0002" }

abbrev pub sent_result : ProcessResult
sent_result = record {
  calldata = codes "0x";
  func = "transact()";
  nullifier = some one;
  out_commit = one;
  memo = codes "ab";
  commit_index = 0;
}

-- A tree of `n` leaves, no transaction and no nullifier.
abbrev pub state : ℕ → PoolState simple_storage function_set
state n = record { tree = (n, λ i. []); txs = λ i. none; nullifiers = λ s. false }
