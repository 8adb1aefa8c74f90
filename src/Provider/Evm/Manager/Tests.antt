-- ===== src/Provider/Evm/Manager/Tests.antt =====
-- Transactions of concrete methods.
use ipc_client.Base.{ℕ, ◌≡◌, refl, false, none, List, [], ◌∷◌, ok, err}
use ipc_client.Base.Exec.{◌>>=◌}
use ipc_client.Base.Int.{pos, negsuc, wrap_i64}
use ipc_client.Base.Text.{codes}
use ipc_client.Base.Sorting.{sort}
use ipc_client.Sdk.Cross.{CrossMsg}
use ipc_client.Sdk.Contract.{as_i64, collect, payload_to_evm_address, to_contract_subnet}
use ipc_client.Sdk.Contract.Fixtures.{bytes, repeat}
use ipc_client.Provider.Evm.{block_number_from_receipt}
use ipc_client.Provider.Evm.Fees.{positive}
use ipc_client.Provider.Evm.Fixtures.{
  byte_addresses, subnet, Sent, node, node-IsHonest, manager, manager-ReadsQuietly,
}
use ipc_client.Provider.Evm.Manager.{
  Transaction, gas_price, to_u128, ensure_same_gateway, get_signer, call_with_premium_estimation,
}
use ipc_client.Provider.Evm.Manager as Manager
use ipc_client.Provider.Evm.Manager.Transactions.{stake, fund, send_for_block}
use ipc_client.Provider.Evm.Manager.SubnetMethods.{SubnetMethodsSend, subnet_methods-Sends}
use ipc_client.Provider.Evm.Manager.Gateway.{GatewayMethodsSend, gateway_methods-Sends}

abbrev account : List ℕ
account = repeat 20 5

abbrev sent : Sent → Sent
sent w = w

-- The gas price is the higher of the two rewards.
fund_sends_one : fund bytes node manager subnet (repeat 20 7) account (repeat 20 6) (pos 50) [] ≡ (
  ok (pos 7),
  record {
    signer = record { private_key = 1 ∷ 2 ∷ []; chain_id = 314 };
    request = record {
      to = repeat 20 7;
      call =
          Manager.fund
            (record { root = 314; route = repeat 20 1 ∷ repeat 20 2 ∷ [] })
            (repeat 20 6);
      value = 50;
    };
    fees = gas_price 5;
  }
      ∷ [],
)
unfolding ◌>>=◌ fund ensure_same_gateway payload_to_evm_address to_contract_subnet collect
    get_signer send_for_block call_with_premium_estimation positive sort block_number_from_receipt
    as_i64 wrap_i64
fund_sends_one = refl

other_gateway :
    fund bytes node manager subnet (repeat 20 8) account account (pos 50) []
    ≡ (err (codes "Gateway address not matching with config"), [])
unfolding ◌>>=◌ fund ensure_same_gateway payload_to_evm_address
other_gateway = refl

negative_amount :
    stake bytes node manager subnet account (negsuc 3) []
    ≡ (err (codes "invalid collateral amount"), [])
unfolding ◌>>=◌ stake
negative_amount = refl

abbrev cross_msg : CrossMsg (List ℕ)
cross_msg = record {
  msg = record {
    from = record { subnet_id = subnet; raw_address = account };
    to = record { subnet_id = subnet; raw_address = account };
    method = 0;
    params = [];
    value = pos 5;
    nonce = 0;
    fee = pos 0;
  };
  wrapped = false;
}

subnet_methods-Sends_example :
    SubnetMethodsSend bytes manager node-IsHonest manager-ReadsQuietly subnet account
      (pos 50)
      (4 ∷ [])
      (codes "k@h")
subnet_methods-Sends_example =
    subnet_methods-Sends bytes manager node-IsHonest manager-ReadsQuietly subnet account (pos 50)
      (4 ∷ []) (codes "k@h")

gateway_methods-Sends_example :
    GatewayMethodsSend bytes manager node-IsHonest manager-ReadsQuietly subnet
      (repeat 20 7)
      account
      account
      (pos 50)
      none
      (repeat 32 0)
      cross_msg
gateway_methods-Sends_example =
    gateway_methods-Sends bytes manager node-IsHonest manager-ReadsQuietly subnet (repeat 20 7)
      account account (pos 50) none (repeat 32 0) cross_msg
