-- ===== src/Sdk/IpcAddress/Print.antt =====
-- The text of a cross-net address is read back; texts that are refused; the kinds of addresses.
use ipc_client.Base.{
  ◌<◌, ◌≡◌, ◌≢◌, ◌⊎◌, ◌↔◌, refl, ap, ◌∙◌, true, ◌&&◌, List, [], ◌∷◌, ok, err, arith, length,
}
use ipc_client.Base.Text.{Text, IsFree, IsFree-append, split, split-free, split-append}
use ipc_client.Base.Decimal.{u64_mod, print_u64, print_u64-AllDigits, AllDigits-IsFree}
use ipc_client.Sdk.Fvm.{AddressLib, IsLawful, delegated}
use ipc_client.Sdk.SubnetId
use ipc_client.Sdk.SubnetId.{SubnetId, invalid_ipc_addr, children_str}
use ipc_client.Sdk.SubnetId.Print
use ipc_client.Sdk.IpcAddress.{
  IpcAddress, to_string, from_parts, from_str, is_valid_account_address, is_valid_contract_address,
}

module _ {Address : Type 0} ⦃fvm : AddressLib Address⦄ where
  -- Every address is valid for an account or for a contract, and delegated ones for both alone.
  pub valid_addresses :
      (a : Address)
      → ((is_valid_account_address a ≡ true) ⊎ (is_valid_contract_address a ≡ true))
        × ((is_valid_account_address a && is_valid_contract_address a ≡ true)
            ↔ (fvm.protocol a ≡ delegated))
  unfolding is_valid_account_address is_valid_contract_address
  valid_addresses a = ground arith

module _ {Address : Type 0} ⦃fvm : AddressLib Address⦄ (lawful : IsLawful fvm) where
  children_str-IsFree : (l : List Address) → IsFree b':' (children_str l)
  unfolding children_str
  children_str-IsFree [] = tt
  children_str-IsFree (a ∷ l) =
      (refl, IsFree-append b':' _ _ (lawful.colon_free a) (children_str-IsFree l))

  subnet-IsFree : (s : SubnetId Address) → IsFree b':' (SubnetId.to_string s)
  unfolding SubnetId.to_string
  subnet-IsFree s =
      let digits = AllDigits-IsFree b':' (print_u64 s.root) refl (print_u64-AllDigits s.root) in
      (refl, (refl, IsFree-append b':' _ _ digits (children_str-IsFree s.children)))

  parts-to_string :
      (a : IpcAddress Address)
      → split b':' (to_string a) ≡ SubnetId.to_string a.subnet_id ∷ fvm.to_string a.raw_address ∷ []
  unfolding to_string
  parts-to_string a =
      split-append b':' (SubnetId.to_string a.subnet_id) (fvm.to_string a.raw_address)
        (subnet-IsFree a.subnet_id)
      ∙ ap (λ r. SubnetId.to_string a.subnet_id ∷ r)
          (split-free b':' (fvm.to_string a.raw_address) (lawful.colon_free a.raw_address))

  -- For addresses with a lawful text form and every 64-bit root: reading the text of a cross-net
  -- address gives the address.
  address_from_str-to_string :
      (a : IpcAddress Address) → a.subnet_id.root < u64_mod → from_str (to_string a) ≡ ok a
  unfolding from_str
  address_from_str-to_string a h = rw (parts-to_string a) (
      ground (
        arith,
        lawful.from_str-to_string a.raw_address,
        Print.from_str-to_string lawful a.subnet_id h,
      ))

module _ {Address : Type 0} ⦃fvm : AddressLib Address⦄ where
  from_parts-count :
      (l : List Text) → length l ≢ 2 → from_parts {Address = Address} l ≡ err invalid_ipc_addr
  unfolding from_parts
  from_parts-count [] h = refl
  from_parts-count (a ∷ []) h = refl
  from_parts-count (a ∷ b ∷ []) h = absurd (h refl)
  from_parts-count (a ∷ b ∷ c ∷ l) h = refl

  -- A text without exactly one colon is refused, whatever else it holds.
  pub from_str-invalid :
      (s : Text) → length (split b':' s) ≢ 2 → from_str {Address = Address} s ≡ err invalid_ipc_addr
  unfolding from_str
  from_str-invalid s h = from_parts-count (split b':' s) h
