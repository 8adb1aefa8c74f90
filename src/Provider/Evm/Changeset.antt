-- ===== src/Provider/Evm/Changeset.antt =====
-- The changes of the validators at one epoch.
use mathlib.Core.List.{append-nil, append_assoc}
use ipc_client.Base.{
  ℕ, ◌≡◌, refl, ap, ◌∙◌, sym, some, List, [], ◌∷◌, ◌++◌, ok, err, nat_eq, list_eq, All, length, map,
  Bool-cases, ◌≢◌, inl, inr, list_beq, list_beq_iff,
}
use ipc_client.Base.Text.{codes}
use ipc_client.Sdk.Fvm.{AddressLib}
use ipc_client.Sdk.SubnetId.{SubnetId}
use ipc_client.Base.Int.{ℤ}
use ipc_client.Sdk.Contract.{ContractLib, as_u64}
use ipc_client.Sdk.Contract.RoundTrip.{IsLawful, ethers_address_to_fil_address_lem}
use ipc_client.Sdk.Staking.{StakingChangeRequest, LogRequest, of_log, from_u8}
use ipc_client.Provider.Evm.{
  Chain, same_block, read_changes, contract_address_from_subnet, query_with_meta, hash_or_query,
  get_validator_changeset,
}

module _ {Address FvmAddress : Type 0} (lib : ContractLib Address FvmAddress) where
  -- The change that an event stands for.
  abbrev pub change_of : LogRequest → StakingChangeRequest Address
  change_of l = record {
    configuration_number = l.configuration_number;
    change = record {
      op = from_u8 l.op;
      payload = l.payload;
      validator = lib.from_eth l.validator;
    };
  }

-- An event of the block `h`, of a validator of 20 bytes.
abbrev pub IsOf : List ℕ → LogRequest × List ℕ → Type 0
IsOf h e = (e.1 ≡ h) × (length e.0.validator ≡ 20)

module _ {Address FvmAddress Raw : Type 0} {lib : ContractLib Address FvmAddress}
    (chain : Chain Raw FvmAddress) (laws : IsLawful lib) where
  of_log_lem : (l : LogRequest) → length l.validator ≡ 20 → of_log lib l ≡ ok (change_of lib l)
  unfolding of_log
  of_log_lem l n = rw (ethers_address_to_fil_address_lem laws l.validator n) refl

  same_block_lem : (h : List ℕ) → same_block (some h) h ≡ ok h
  unfolding same_block
  same_block_lem h = rw ((list_beq_iff h h).1 refl) refl

  read_changes_lem :
      (h : List ℕ) (events : List (LogRequest × List ℕ)) (cs : List (StakingChangeRequest Address))
      → All (IsOf h) events
      → read_changes lib chain events (some h) cs
        ≡ ok (cs ++ map (λ e. change_of lib e.0) events, some h)
  unfolding read_changes
  read_changes_lem h [] cs all = ap (λ l. ok (l, some h)) (sym (append-nil cs))
  read_changes_lem h ((l, f) ∷ events) cs ((e, n), all) =
      rw (e, same_block_lem h, of_log_lem l n)
        (read_changes_lem h events (cs ++ change_of lib l ∷ []) all
          ∙ ap (λ c. ok (c, some h))
              (append_assoc cs (change_of lib l ∷ []) (map (λ e. change_of lib e.0) events)))

  -- With lawful texts, for a subnet with an EVM address: where the events of its contract at an epoch,
  -- those of removed logs left out, are all of one block and of validators of 20 bytes, and there is
  -- one at least, the changeset is their changes in their order, with that block's hash.
  pub get_validator_changeset_lem :
      ⦃fvm : AddressLib Address⦄
      → (subnet : SubnetId Address) (epoch : ℤ) (address h : List ℕ) (first : LogRequest × List ℕ)
        (rest : List (LogRequest × List ℕ))
      → contract_address_from_subnet lib subnet ≡ ok address
      → query_with_meta lib chain address (as_u64 epoch) (as_u64 epoch) ≡ ok (first ∷ rest)
      → All (IsOf h) (first ∷ rest)
      → get_validator_changeset lib chain subnet epoch
        ≡ ok (record { value = map (λ e. change_of lib e.0) (first ∷ rest); block_hash = h })
  unfolding get_validator_changeset read_changes hash_or_query
  get_validator_changeset_lem subnet epoch address h (l, f) rest a q ((e, n), all) =
      rw (a, q, of_log_lem l n) (rw (e, read_changes_lem h rest (change_of lib l ∷ []) all) refl)

  another_block :
      (h f : List ℕ) → f ≢ h → same_block (some h) f ≡ err (codes "block hash not equal")
  unfolding same_block
  another_block h f d = elim (Bool-cases (list_beq h f)) [
    | inl t ↦ absurd (d (sym ((list_beq_iff h f).0 t)))
    | inr t ↦ rw t refl
  ]

  read_changes-mixed :
      (h : List ℕ) (events rest : List (LogRequest × List ℕ)) (other : LogRequest × List ℕ)
      (cs : List (StakingChangeRequest Address))
      → All (IsOf h) events
      → other.1 ≢ h
      → read_changes lib chain (events ++ other ∷ rest) (some h) cs
        ≡ err (codes "block hash not equal")
  unfolding read_changes
  read_changes-mixed h [] rest (k, g) cs all d = rw (another_block h g d) refl
  read_changes-mixed h ((l, f) ∷ events) rest other cs ((e, n), all) d =
      rw (e, same_block_lem h, of_log_lem l n)
        (read_changes-mixed h events rest other (cs ++ change_of lib l ∷ []) all d)

  -- With lawful texts, for a subnet with an EVM address: where the events of its contract at an epoch,
  -- those of removed logs left out, begin with some of one block and of validators of 20 bytes, and
  -- one of another block follows, the query is the error that the block's hash is not equal.
  pub get_validator_changeset-mixed :
      ⦃fvm : AddressLib Address⦄
      → (subnet : SubnetId Address) (epoch : ℤ) (address h : List ℕ)
        (first other : LogRequest × List ℕ) (events rest : List (LogRequest × List ℕ))
      → contract_address_from_subnet lib subnet ≡ ok address
      → query_with_meta lib chain address (as_u64 epoch) (as_u64 epoch)
        ≡ ok (first ∷ events ++ other ∷ rest)
      → All (IsOf h) (first ∷ events)
      → other.1 ≢ h
      → get_validator_changeset lib chain subnet epoch ≡ err (codes "block hash not equal")
  unfolding get_validator_changeset read_changes
  get_validator_changeset-mixed subnet epoch address h (l, f) other events rest a q ((e, n), all)
        d =
      rw (a, q, of_log_lem l n)
        (rw (e, read_changes-mixed h events rest other (change_of lib l ∷ []) all d) refl)
