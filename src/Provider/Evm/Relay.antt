-- ===== src/Provider/Evm/Relay.antt =====
-- A checkpoint on its way: read from the child's gateway, submitted to the parent.
mod Tests
use ipc_client.Base.{
  ℕ, ◌^◌, ◌≡◌, refl, ap, sym, ◌∙◌, arith, Option, none, some, List, [], ◌∷◌, Result, ok, ok_or, ◌⊎◌,
  All, length, last, map,
}
use ipc_client.Base.Exec.{Exec, ◌>>=◌, lift, pure}
use ipc_client.Base.Int.{ℤ}
use ipc_client.Base.Text.{Text}
use ipc_client.Sdk.Fvm.{AddressLib}
use ipc_client.Sdk.SubnetId.{SubnetId}
use ipc_client.Sdk.Contract.{
  ContractLib, ContractCrossMsg, ContractCheckpoint, collect, as_u64, payload_to_evm_address,
  to_contract_cross_msg, to_contract_checkpoint,
}
use ipc_client.Sdk.Contract.RoundTrip.{IsLawful, payload_to_evm_address_lem}
use ipc_client.Sdk.Contract.Back.{
  IsPlain, IsPlainMsg, IsPlainCheckpoint, route_back, checkpoint_back, cross_msgs_back,
}
use ipc_client.Provider.Evm.{contract_address_from_subnet}
use ipc_client.Provider.Evm.Views.{Getters, checkpoint_bundle_at}
use ipc_client.Provider.Evm.Manager as Manager
use ipc_client.Provider.Evm.Manager.{ContractCall, Signer, Transaction, Node, EthSubnetManager}
use ipc_client.Provider.Evm.Manager.Transactions.{
  Bundle, submit_checkpoint, send_for_block, signer_of, contract_of,
}
use ipc_client.Provider.Evm.Manager.Sends.{Sends, lift-Sends, weaken-Sends}
use ipc_client.Provider.Evm.Manager.Calls.{IsHonest, ReadsQuietly, send_for_block-Sends}
use ipc_client.Provider.Evm.Manager.Deliveries.{Delivers, ToContract, to_contract}

module _ {Address FvmAddress Raw Pending World : Type 0} ⦃fvm : AddressLib Address⦄
    (lib : ContractLib Address FvmAddress) {node : Node FvmAddress Raw Pending World}
    (self : EthSubnetManager World) {sent : World → List (Transaction FvmAddress)}
    (honest : IsHonest node sent) (reads : ReadsQuietly sent self) where
  -- A submission with what the parts of a bundle are converted to.
  abbrev pub Submits : Bundle Address → ContractCall FvmAddress → Type 0
  Submits bundle c =
      (signatories : List (List ℕ)) × (cross_msgs : List (ContractCrossMsg FvmAddress))
      × (checkpoint : ContractCheckpoint) × (collect (payload_to_evm_address lib) bundle.signatories
          ≡ ok signatories)
      × (collect (to_contract_cross_msg lib) bundle.cross_msgs ≡ ok cross_msgs)
      × (to_contract_checkpoint lib bundle.checkpoint ≡ ok checkpoint)
      × (c ≡ Manager.submit_checkpoint checkpoint cross_msgs signatories bundle.signatures)

  pub submit_checkpoint-Sends :
      (submitter : Address) (bundle : Bundle Address)
      → Sends sent
          (ToContract lib self honest reads bundle.checkpoint.subnet_id submitter
            (Submits bundle)
            (some 0))
          (submit_checkpoint lib node self submitter bundle)
  unfolding submit_checkpoint
  submit_checkpoint-Sends submitter bundle =
      let P : Transaction FvmAddress → Type 0 =
        ToContract lib self honest reads bundle.checkpoint.subnet_id submitter (Submits bundle)
          (some 0) in
      lift-Sends sent P _ _ (λ address e. lift-Sends sent P _ _ (λ signatories p.
        lift-Sends sent P _ _ (λ cross_msgs q. lift-Sends sent P _ _ (λ checkpoint r.
          to_contract lib self honest reads bundle.checkpoint.subnet_id submitter (Submits bundle)
            (some 0) _ (send_for_block lib node self) e
            (signatories, cross_msgs, checkpoint, p, q, r, refl) refl
            (λ signer. send_for_block-Sends honest lib self signer _)))))

-- The last address of a route, and the last of the addresses made of it.
last-IsPlain :
    {Address FvmAddress : Type 0} (lib : ContractLib Address FvmAddress) (l : List (List ℕ))
    (a : List ℕ)
    → All (IsPlain lib) l
    → last l ≡ some a
    → IsPlain lib a × (last (map lib.from_eth l) ≡ some (lib.from_eth a))
last-IsPlain lib [] a h e = absurd cc
last-IsPlain lib (b ∷ []) a h e =
    let q : b ≡ a = cc in (rw (← q) h.0, ap (λ x. some (lib.from_eth x)) q)
last-IsPlain lib (b ∷ c ∷ l) a h e = last-IsPlain lib (c ∷ l) a h.1 e

contract_of_route :
    {Address FvmAddress : Type 0} ⦃fvm : AddressLib Address⦄ {lib : ContractLib Address FvmAddress}
    (laws : IsLawful lib) (s : SubnetId Address) (l : List (List ℕ)) (a : List ℕ)
    → s.children ≡ map lib.from_eth l
    → All (IsPlain lib) l
    → last l ≡ some a
    → contract_address_from_subnet lib s ≡ ok a
unfolding contract_address_from_subnet
contract_of_route {lib} laws s l a m h e =
    let ((n, d), q) = last-IsPlain lib l a h e in
    rw (ap last m ∙ q) (payload_to_evm_address_lem laws (lib.from_eth a) a n d)

module _ {Address FvmAddress Raw ChildRaw Pending World ChildWorld : Type 0}
    ⦃fvm : AddressLib Address⦄ {lib : ContractLib Address FvmAddress} (laws : IsLawful lib)
    {node : Node FvmAddress Raw Pending World} (parent : EthSubnetManager World)
    {sent : World → List (Transaction FvmAddress)} (honest : IsHonest node sent)
    (reads : ReadsQuietly sent parent) (getters : Getters FvmAddress ChildRaw ChildWorld)
    (child : EthSubnetManager ChildWorld) where
  -- The submission of what a gateway has.
  abbrev pub SubmitsAsIs :
      ContractCheckpoint
      → List (ContractCrossMsg FvmAddress)
      → List (List ℕ)
      → List (List ℕ)
      → ContractCall FvmAddress
      → Type 0
  SubmitsAsIs checkpoint cross_msgs signatories signatures c =
      c ≡ Manager.submit_checkpoint checkpoint cross_msgs signatories signatures

  -- With lawful texts, where only `send` of the parent's node sends and a key store is only read: a
  -- checkpoint, the signatures and the messages that the child's gateway answers with, their
  -- addresses those of EVM accounts and their numbers within the contracts' types, make a bundle. Its
  -- submission sends one transaction to the parent or fails and sends none. The transaction goes to
  -- the contract of the checkpoint's subnet and carries what the gateway answered, unchanged.
  pub relayed_as_is :
      (height : ℤ) (w : ChildWorld) (submitter : Address) (address : List ℕ)
      (checkpoint : ContractCheckpoint) (cross_msgs : List (ContractCrossMsg FvmAddress))
      (signatories signatures : List (List ℕ)) (w' : ChildWorld)
      → getters.signature_bundle child.gateway_addr (as_u64 height) w
        ≡ (ok (checkpoint, signatories, signatures), w')
      → (getters.bottom_up_messages child.gateway_addr (as_u64 height) w').0 ≡ ok cross_msgs
      → IsPlainCheckpoint lib checkpoint
      → All (IsPlainMsg lib) cross_msgs
      → All (IsPlain lib) signatories
      → last checkpoint.subnet_id.route ≡ some address
      → (b : Bundle Address) × ((checkpoint_bundle_at lib getters child height w).0 ≡ ok b)
        × Sends sent
            (Delivers lib node parent submitter
              (ok address)
              (SubmitsAsIs checkpoint cross_msgs signatories signatures)
              (some 0))
            (submit_checkpoint lib node parent submitter b)
  unfolding checkpoint_bundle_at ◌>>=◌
  relayed_as_is height w submitter address checkpoint cross_msgs signatories signatures w' e f hc hm
        hs l =
      let (c, p, q, m) = checkpoint_back laws checkpoint hc in
      let (ss, r, s, _) = route_back laws signatories hs in
      let (ms, t, u) = cross_msgs_back laws cross_msgs hm in
      let b : Bundle Address = record {
        checkpoint = c;
        signatures = signatures;
        signatories = ss;
        cross_msgs = ms;
      } in
      let a : contract_address_from_subnet lib c.subnet_id ≡ ok address =
        contract_of_route laws c.subnet_id checkpoint.subnet_id.route address m hc.route l in
      (
        b,
        rw (e) (rw (f) (rw (p, r, t) refl)),
        weaken-Sends sent (submit_checkpoint lib node parent submitter b)
            (λ x h. let (sig, msgs, cp, p', q', r', k) = h.1.1 in (h.0, (sym a ∙ h.1.0, cc, h.1.2)))
            (submit_checkpoint-Sends lib parent honest reads submitter b),
      )
