-- ===== src/Cli/Tests.antt =====
-- Commands at a network with a root and one child, of a provider that counts the calls it makes.
use ipc_client.Base.{ℕ, ◌*◌, ◌≡◌, refl, none, some, [], ok, err, inl, nat_eq}
use ipc_client.Base.Exec.{Exec, ◌>>=◌}
use ipc_client.Base.Int.{pos}
use ipc_client.Base.Decimal.{parse_u64}
use ipc_client.Base.Map.{lookup}
use ipc_client.Base.Text.{Text, codes, split}
use ipc_client.Sdk.Fixtures.{numbers}
use ipc_client.Sdk.SubnetId.{from_str, from_pieces, parent}
use ipc_client.Provider.Client.{
  IpcProvider, connection, connection_or, parent_connection, check_sender,
}
use ipc_client.Provider.Client.Fixtures.{provider, connector}
use ipc_client.Provider.Client.Transactions.{join_subnet, pre_fund}
use ipc_client.Cli.{
  ArgumentLib, subnet_named, optional_addr, require_fil_addr_from_str, f64_to_token_amount,
}
use ipc_client.Cli.Subnets.{join, kill_subnet}
use ipc_client.Cli.Unread.{handle, subnet_reads, unread_stops}

-- Whole numbers for floats.
abbrev args : ArgumentLib ℕ
args = record {
  Float = ℕ;
  times = λ m n. m * n;
  trunc = λ n. n;
  float_of = λ n. n;
  as_u128 = λ n. n;
  Raw = Unit {0};
  raw_from_str = λ s. err (codes "not an address");
  ethers_address_to_fil_address = λ r. ok 0;
  hex_decode = ok;
  error_text = λ e. codes "empty";
}

abbrev opening : Exec Text ℕ (IpcProvider ℕ ℕ ℕ)
opening w = (ok provider, w)

join_after_funding :
    join args connector opening
      (record {
        from = some (codes "fx");
        subnet = codes "/r314/fx";
        collateral = 3;
        public_key = [];
        initial_balance = some 2;
      })
      0
    ≡ (ok (pos 1), 2)
unfolding join ◌>>=◌ subnet_named from_str split parse_u64 optional_addr require_fil_addr_from_str
    f64_to_token_amount pre_fund parent_connection parent connection_or connection lookup
    check_sender join_subnet
join_after_funding = refl

unread_stops_example :
    handle args connector opening
      (inl (kill_subnet (record { from = none; subnet = codes "abc" })))
      5
    ≡ (err (codes "invalid subnet id"), 5)
unfolding subnet_reads subnet_named from_str from_pieces split parse_u64
unread_stops_example =
    unread_stops args connector opening
      (inl (kill_subnet (record { from = none; subnet = codes "abc" }))) 5 provider
      (codes "invalid subnet id") refl refl
