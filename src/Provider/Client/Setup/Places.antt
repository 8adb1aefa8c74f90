-- ===== src/Provider/Client/Setup/Places.antt =====
-- Where the stores of a new provider lie, and what it is connected with.
use mathlib.Core.List.{append-nil}
use ipc_client.Base.{
  true, false, Option, none, some, List, [], ◌∷◌, ◌++◌, ok, ◌==◌, Eq, nat_eq, list_eq,
  if◌then◌else◌, ◌≡◌, ◌≢◌, ◌⊎◌, inl, inr, refl, sym, ap, ◌∙◌,
}
use ipc_client.Base.Exec.{◌>>=◌, bind-ok}
use ipc_client.Base.Map.{lookup}
use ipc_client.Base.Text.{Text, codes}
use ipc_client.Sdk.SubnetId.{SubnetId, subnet_id_eq}
use ipc_client.Provider.Config
use ipc_client.Provider.Config.{Subnet, Config, add_subnet}
use ipc_client.Provider.SubnetManager.{Payloads}
use ipc_client.Provider.Client.{IpcProvider, Connector, connection, connect}
use ipc_client.Provider.Client.Routing.{connection-add_subnet}
use ipc_client.Provider.Client.Setup.{
  PathBuf, push, expand_tilde, Stores, new_with_subnet, new_fvm_keystore_from_path,
  new_evm_keystore_from_path,
}

abbrev pub under_tilde : List Text → PathBuf
under_tilde names = record { rooted = false; names = codes "~" ∷ names }

-- A path below the tilde lies below the directory of the user, unless that is the root: then a path
-- with a name after the tilde is relative.
pub expand_tilde_lem :
    (home names : List Text)
    → (expand_tilde (some (record { rooted = true; names = home })) (under_tilde names)
        ≡ record { rooted = true; names = home ++ names })
      ⊎ ((home ≡ [])
          × (names ≢ [])
          × (expand_tilde (some (record { rooted = true; names = home })) (under_tilde names)
              ≡ record { rooted = false; names = names }))
unfolding expand_tilde push
expand_tilde_lem home [] =
    inl (ap (λ (l : List Text). record { rooted = true; names = l }) (sym (append-nil home)))
expand_tilde_lem [] (n ∷ names) = inr (refl, (λ q. cc), refl)
expand_tilde_lem (h ∷ home) (n ∷ names) = inl refl

module _ {Address Eth World : Type 0} {P : Payloads} ⦃e : Eq Address⦄
    (connector : Connector Address Eth World P) (stores : Stores Address Eth World) where
  made :
      (path : Option Text) (subnet : Subnet Address) (w : World) (p : IpcProvider Address Eth World)
      → (new_with_subnet stores path subnet w).0 ≡ ok p
      → (p.config ≡ add_subnet subnet Config.new) × (p.sender ≡ none)
  unfolding new_with_subnet ◌>>=◌
  made none subnet w p h = (cc, cc)
  made (some repo) subnet w p h =
      let (f, a, h1, _) = bind-ok (new_fvm_keystore_from_path stores repo) _ w p h in
      let (k, b, h2, _) = bind-ok (new_evm_keystore_from_path stores repo) _ _ p h1 in (cc, cc)

  -- A provider that is made for one subnet has no sender, connects that subnet with its store of EVM
  -- keys, and connects no other.
  pub new_with_subnet-connection :
      (path : Option Text) (subnet : Subnet Address) (w : World) (p : IpcProvider Address Eth World)
      (id : SubnetId Address)
      → (new_with_subnet stores path subnet w).0 ≡ ok p
      → (p.sender ≡ none)
        × (connection connector p id
            ≡ (if subnet.id == id then connect connector subnet p.evm_keystore else none))
  unfolding connection lookup
  new_with_subnet-connection path subnet w p id h =
      let (c, s) = made path subnet w p h in
      (
        s,
        ap (λ x. connection connector (record p { config = x }) id) c
            ∙ connection-add_subnet connector (record p { config = Config.new }) subnet id,
      )
