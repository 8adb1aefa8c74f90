-- ===== src/Provider/Evm/Relay/Tests.antt =====
-- A checkpoint of the fixtures' subnet, relayed.
use ipc_client.Base.{ℕ, ◌≡◌, refl, arith, none, some, List, [], ◌∷◌, ok}
use ipc_client.Base.Int.{pos}
use ipc_client.Sdk.Contract.{ContractCrossMsg, ContractCheckpoint}
use ipc_client.Sdk.Contract.Fixtures.{bytes, bytes-IsLawful, repeat}
use ipc_client.Provider.Evm.Views.{Getters, checkpoint_bundle_at}
use ipc_client.Provider.Evm.Manager.{EthSubnetManager}
use ipc_client.Provider.Evm.Manager.Transactions.{Bundle, submit_checkpoint}
use ipc_client.Provider.Evm.Manager.Sends.{Sends}
use ipc_client.Provider.Evm.Manager.Deliveries.{Delivers}
use ipc_client.Provider.Evm.Fixtures.{
  getters_of, byte_addresses, Sent, node, node-IsHonest, manager, manager-ReadsQuietly,
}
use ipc_client.Provider.Evm.Relay.{SubmitsAsIs, relayed_as_is}

abbrev submitter : List ℕ
submitter = repeat 20 5

abbrev checkpoint : ContractCheckpoint
checkpoint = record {
  subnet_id = record { root = 314; route = repeat 20 1 ∷ repeat 20 2 ∷ [] };
  block_height = 30;
  block_hash = repeat 32 4;
  next_configuration_number = 2;
  cross_messages_hash = repeat 32 6;
}

abbrev signatories : List (List ℕ)
signatories = repeat 20 5 ∷ repeat 20 6 ∷ []

abbrev signatures : List (List ℕ)
signatures = repeat 65 1 ∷ repeat 65 2 ∷ []

abbrev no_messages : List (ContractCrossMsg (List ℕ))
no_messages = []

abbrev getters : Getters (List ℕ) (List ℕ) (Unit {0})
getters = getters_of checkpoint signatories signatures

abbrev child : EthSubnetManager (Unit {0})
child = record {
  keystore = none;
  gateway_addr = repeat 20 3;
  registry_addr = repeat 20 4;
  chain_id = 31415;
}

relayed_as_is_example :
    (b : Bundle (List ℕ)) × ((checkpoint_bundle_at bytes getters child (pos 30) tt).0 ≡ ok b)
    × Sends
        (λ (w : Sent). w)
        (Delivers bytes node manager submitter
          (ok (repeat 20 2))
          (SubmitsAsIs bytes-IsLawful manager node-IsHonest manager-ReadsQuietly getters child
            checkpoint no_messages signatories signatures)
          (some 0))
        (submit_checkpoint bytes node manager submitter b)
relayed_as_is_example =
    relayed_as_is bytes-IsLawful manager node-IsHonest manager-ReadsQuietly getters child (pos 30)
      tt submitter (repeat 20 2) checkpoint no_messages signatories signatures tt refl refl
      (record {
        route = ((refl, refl), ((refl, refl), tt));
        block_height = omega arith;
        block_hash = refl;
        cross_messages_hash = refl;
      })
      tt ((refl, refl), ((refl, refl), tt)) refl
