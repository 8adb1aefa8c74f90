-- ===== src/Sdk/Contract/Tests.antt =====
-- The conversions on one message and one checkpoint.
use ipc_client.Base.{ℕ, ◌^◌, ◌≡◌, refl, arith, true, List, [], ◌∷◌, ok, err}
use ipc_client.Base.Text.{codes}
use ipc_client.Base.Int.{pos, negsuc}
use ipc_client.Sdk.SubnetId.{SubnetId}
use ipc_client.Sdk.Cross.{CrossMsg}
use ipc_client.Sdk.Contract.{
  BottomUpCheckpoint, ContractCrossMsg, ContractCheckpoint, as_u64, vec_to_bytes32, to_be_bytes,
  to_contract_cross_msg, of_contract_cross_msg, to_contract_checkpoint, of_contract_checkpoint,
}
use ipc_client.Sdk.Contract.Fixtures.{bytes, bytes-IsLawful, repeat}
use ipc_client.Sdk.Contract.RoundTrip.{
  IsEvm, of_contract_cross_msg-to_contract_cross_msg, of_contract_checkpoint-to_contract_checkpoint,
}

repeat-IsEvm : (k : ℕ) → IsEvm bytes (repeat 20 k)
repeat-IsEvm k = (repeat 20 k, refl, refl, refl)

abbrev subnet : SubnetId (List ℕ)
subnet = record { root = 314; children = repeat 20 1 ∷ repeat 20 2 ∷ [] }

abbrev message : CrossMsg (List ℕ)
message = record {
  msg = record {
    from = record { subnet_id = subnet; raw_address = codes "f01" };
    to = record {
      subnet_id = record { root = 314; children = repeat 20 1 ∷ [] };
      raw_address = codes "f02";
    };
    method = 3844450837;
    params = 7 ∷ 8 ∷ [];
    value = pos (10 ^ 18);
    nonce = 4;
    fee = pos 0;
  };
  wrapped = true;
}

abbrev checkpoint : BottomUpCheckpoint (List ℕ)
checkpoint = record {
  subnet_id = subnet;
  block_height = pos 100;
  block_hash = repeat 32 5;
  next_configuration_number = 2;
  cross_messages_hash = repeat 32 6;
}

of_contract_cross_msg-to_contract_cross_msg_example :
    (c : ContractCrossMsg (List ℕ)) × (to_contract_cross_msg bytes message ≡ ok c)
    × (of_contract_cross_msg bytes c ≡ ok message)
of_contract_cross_msg-to_contract_cross_msg_example =
    of_contract_cross_msg-to_contract_cross_msg bytes-IsLawful message (
      (repeat-IsEvm 1, (repeat-IsEvm 2, tt)),
      (repeat-IsEvm 1, tt),
      (codes "f01", refl, refl),
      (codes "f02", refl, refl),
      (10 ^ 18, refl, omega arith),
      (0, refl, omega arith),
      omega arith,
    )

of_contract_checkpoint-to_contract_checkpoint_example :
    (c : ContractCheckpoint) × (to_contract_checkpoint bytes checkpoint ≡ ok c)
    × (of_contract_checkpoint bytes c ≡ ok checkpoint)
of_contract_checkpoint-to_contract_checkpoint_example =
    of_contract_checkpoint-to_contract_checkpoint bytes-IsLawful checkpoint
      (repeat-IsEvm 1, (repeat-IsEvm 2, tt)) (omega arith, omega arith) refl refl

-- A negative height is written in two's complement; a hash of another length is refused.
negative_height : as_u64 (negsuc 0) ≡ 18446744073709551615
unfolding as_u64
negative_height = refl

short_hash : vec_to_bytes32 (repeat 31 0) ≡ err (codes "invalid length")
unfolding vec_to_bytes32
short_hash = refl

method_bytes : to_be_bytes 3844450837 ≡ 229 ∷ 37 ∷ 170 ∷ 21 ∷ []
unfolding to_be_bytes
method_bytes = refl
