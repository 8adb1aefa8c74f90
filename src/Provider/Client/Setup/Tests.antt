-- ===== src/Provider/Client/Setup/Tests.antt =====
-- A provider for one subnet, with stores that remember where they were opened.
use ipc_client.Base.{
  ℕ, ◌≡◌, ◌≢◌, ◌⊎◌, refl, true, false, none, some, List, [], ◌∷◌, ◌++◌, ok, err, nat_eq, list_eq,
}
use ipc_client.Base.Exec.{◌>>=◌}
use ipc_client.Base.Text.{Text, codes, split}
use ipc_client.Sdk.SubnetId.{subnet_id_eq}
use ipc_client.Provider.Config.{Subnet, fevm}
use ipc_client.Provider.SubnetManager.{Payloads}
use ipc_client.Provider.Client.{IpcProvider, Connector}
use ipc_client.Provider.Client.Setup.{
  PathBuf, path_of, push, expand_tilde, Stores, new_with_subnet, new_fvm_keystore_from_path,
  new_evm_keystore_from_path,
}
use ipc_client.Provider.Client.Setup.Places.{under_tilde, expand_tilde_lem}

abbrev Opened : Type 0
Opened = List PathBuf

abbrev P : Payloads
P = record {
  SubnetInfo = Unit {0};
  SubnetGenesisInfo = Unit {0};
  ValidatorInfo = Unit {0};
  StakingChangeRequest = Unit {0};
  Bundle = Unit {0};
}

abbrev home : PathBuf
home = record { rooted = true; names = codes "home" ∷ codes "a" ∷ [] }

abbrev stores : Stores ℕ ℕ Opened
stores = record {
  open_fvm = λ p w. (
    ok (record { generate_addr = λ t w. (ok 1, w); import_key = λ k w. (ok 2, w) }),
    w ++ p ∷ [],
  );
  open_evm =
      λ p w. (ok (record { get_default = λ w. (ok none, w); put = λ k w. (ok 3, w) }), w ++ p ∷ []);
  home_dir = some home;
  home_var = some (codes "/home/a");
}

-- No subnet is reached.
abbrev connector : Connector ℕ ℕ Opened P
connector = record {
  from_subnet_with_wallet_store = λ s k. err (codes "unreachable");
  to_address = ok;
}

abbrev subnet : Subnet ℕ
subnet = record {
  id = record { root = 314; children = 1 ∷ [] };
  config =
      fevm (record { provider_http = []; auth_token = none; registry_addr = 1; gateway_addr = 2 });
}

abbrev made : IpcProvider ℕ ℕ Opened
made = record {
  sender = none;
  config = record { keystore_path = none; subnets = (subnet.id, subnet) ∷ [] };
  fvm_wallet = none;
  evm_keystore = none;
}

paths :
    (path_of (codes "/a//b/./c/")
      ≡ record { rooted = true; names = codes "a" ∷ codes "b" ∷ codes "c" ∷ [] })
    × (path_of (codes "~/.ipc") ≡ under_tilde (codes ".ipc" ∷ []))
    × (expand_tilde (some home) (path_of (codes "~a")) ≡ path_of (codes "~a"))
unfolding path_of split expand_tilde
paths = (refl, refl, refl)

opened_below_home :
    (new_with_subnet stores (some (codes "~/.ipc")) subnet []).1
    ≡ record { rooted = true; names = codes "home" ∷ codes "a" ∷ codes ".ipc" ∷ [] }
      ∷ record {
        rooted = true;
        names = codes "home" ∷ codes "a" ∷ codes ".ipc" ∷ codes "evm_keystore.json" ∷ [];
      }
      ∷ []
unfolding new_with_subnet ◌>>=◌ new_fvm_keystore_from_path new_evm_keystore_from_path path_of split
    expand_tilde push
opened_below_home = refl

expand_tilde_lem_example :
    (expand_tilde (some (record { rooted = true; names = [] })) (under_tilde (codes "a" ∷ []))
      ≡ record { rooted = true; names = codes "a" ∷ [] })
    ⊎ ((◌≡◌ {A = List Text} [] [])
        × ((codes "a" ∷ []) ≢ [])
        × (expand_tilde (some (record { rooted = true; names = [] })) (under_tilde (codes "a" ∷ []))
            ≡ record { rooted = false; names = codes "a" ∷ [] }))
expand_tilde_lem_example = expand_tilde_lem [] (codes "a" ∷ [])
