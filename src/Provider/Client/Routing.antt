-- ===== src/Provider/Client/Routing.antt =====
-- Which manager a method of the provider reaches, and with which defaults.
use ipc_client.Base.{
  ℕ, List, ◌≡◌, refl, arith, Option, none, some, ok, err, Eq, if◌then◌else◌, ◌==◌,
}
use ipc_client.Base.Exec.{Exec, ◌>>=◌}
use ipc_client.Base.Int.{ℤ}
use ipc_client.Base.Map.{lookup-insert, lookup-remove}
use ipc_client.Base.Text.{Text, codes}
use ipc_client.Sdk.SubnetId.{SubnetId, subnet_id_eq, parent, new_root, new_from_parent}
use ipc_client.Sdk.SubnetId.Hierarchy.{parent_of_child}
use ipc_client.Provider.Config.{Subnet, add_subnet, remove_subnet, gateway_addr}
use ipc_client.Provider.SubnetManager.{Payloads}
use ipc_client.Provider.Client.{
  Connection, IpcProvider, Connector, State, on_world, connect, connection, connection_or,
  parent_connection, check_sender, unwrap_or,
}
use ipc_client.Provider.Client.Transactions.{
  join_subnet, pre_fund, pre_release, stake, unstake, leave_subnet, claim_collateral,
  claim_relayer_reward, kill_subnet, fund, release, add_bootstrap,
}
use ipc_client.Provider.Client.Queries.{
  genesis_epoch, get_genesis_info, list_bootstrap_nodes, get_validator_info,
  get_validator_changeset, get_top_down_msgs, has_submitted_in_last_checkpoint_height,
  last_bottom_up_checkpoint_height,
}

module _ {Address Eth World : Type 0} {P : Payloads} ⦃e : Eq Address⦄
    (connector : Connector Address Eth World P) where
  -- After a subnet is added, its identifier is connected with the new configuration, and every
  -- other identifier as before.
  pub connection-add_subnet :
      (self : IpcProvider Address Eth World) (s : Subnet Address) (id : SubnetId Address)
      → connection connector (record self { config = add_subnet s self.config }) id ≡ (
          if s.id == id
          then connect connector s self.evm_keystore
          else connection connector self id)
  unfolding connection add_subnet
  connection-add_subnet self s id =
      rw (lookup-insert s.id id s self.config.subnets, connection) (ground arith)

  -- After a subnet is removed, its identifier has no connection, and every other identifier the
  -- one it had.
  pub connection-remove_subnet :
      (self : IpcProvider Address Eth World) (removed id : SubnetId Address)
      → connection connector (record self { config = remove_subnet removed self.config }) id
        ≡ (if removed == id then none else connection connector self id)
  unfolding connection remove_subnet
  connection-remove_subnet self removed id =
      rw (lookup-remove removed id self.config.subnets, connection) (ground arith)

  -- The method ends with the error `message` and does nothing.
  abbrev pub Rejects :
      {A : Type 0} → Text → Exec Text (State connector) A → State connector → Type 0
  Rejects message m s = m s ≡ (err message, s)

  -- Every method that goes through the parent, of those that send a message and of those that
  -- ask, is refused for a root, and nothing is done: neither is a sender chosen nor a manager
  -- asked.
  pub root-Rejects :
      (root : ℕ) (from to gateway : Option Address) (amount : ℤ) (key : List ℕ) (endpoint : Text)
      (validator : Address) (epoch : ℤ) (block_hash : List ℕ) (s : State connector)
      → let id : SubnetId Address = new_root root in
        let no_parent = codes "no parent found" in
        Rejects no_parent (join_subnet connector id from amount key) s
        × Rejects no_parent (pre_fund connector id from amount) s
        × Rejects no_parent (pre_release connector id from amount) s
        × Rejects no_parent (stake connector id from amount) s
        × Rejects no_parent (unstake connector id from amount) s
        × Rejects no_parent (leave_subnet connector id from) s
        × Rejects no_parent (claim_collateral connector id from) s
        × Rejects no_parent (claim_relayer_reward connector id from) s
        × Rejects no_parent (kill_subnet connector id from) s
        × Rejects no_parent (fund connector id gateway from to amount) s
        × Rejects no_parent (add_bootstrap connector id from endpoint) s
        × Rejects no_parent (genesis_epoch connector id) s
        × Rejects no_parent (get_genesis_info connector id) s
        × Rejects no_parent (list_bootstrap_nodes connector id) s
        × Rejects no_parent (get_validator_info connector id validator) s
        × Rejects no_parent (get_validator_changeset connector id epoch) s
        × Rejects no_parent (get_top_down_msgs connector id epoch block_hash) s
        × Rejects no_parent (has_submitted_in_last_checkpoint_height connector id validator) s
        × Rejects no_parent (last_bottom_up_checkpoint_height connector id) s
  unfolding parent_connection parent ◌>>=◌ join_subnet pre_fund pre_release stake unstake
      leave_subnet claim_collateral claim_relayer_reward kill_subnet fund add_bootstrap
      genesis_epoch get_genesis_info list_bootstrap_nodes get_validator_info get_validator_changeset
      get_top_down_msgs has_submitted_in_last_checkpoint_height last_bottom_up_checkpoint_height
  root-Rejects root from to gateway amount key endpoint validator epoch block_hash s = (
    refl, refl, refl, refl, refl, refl, refl, refl, refl, refl, refl, refl, refl, refl, refl, refl,
    refl, refl, refl,
  )

  parent_connection-new_from_parent :
      (message : Text) (p : SubnetId Address) (actor : Address) (s : State connector)
      → parent_connection connector message (new_from_parent p actor) s
        ≡ connection_or connector message p s
  unfolding parent_connection
  parent_connection-new_from_parent message p actor s =
      rw (parent_of_child p actor, parent_connection) refl

  connection_or-some :
      (message : Text) (id : SubnetId Address) (conn : Connection Address World P)
      (s : State connector)
      → connection connector s.0 id ≡ some conn
      → connection_or connector message id s ≡ (ok conn, s)
  unfolding connection_or
  connection_or-some message id conn s h = rw (h, connection_or) refl

  -- When the parent is connected and the account `a` is chosen: funds for a child are sent by the
  -- manager of its parent, from `a`, to `a` itself when no receiver is given, and through the
  -- gateway of the parent's configuration when none is given.
  pub fund_at_parent :
      (p : SubnetId Address) (actor : Address) (gateway from to : Option Address) (amount : ℤ)
      (conn : Connection Address World P) (a : Address) (s t : State connector)
      → connection connector s.0 p ≡ some conn
      → check_sender connector conn.subnet from s ≡ (ok a, t)
      → fund connector (new_from_parent p actor) gateway from to amount s
        ≡ on_world connector
            (conn.manager.fund
              (new_from_parent p actor)
              (unwrap_or gateway (gateway_addr conn.subnet))
              a
              (unwrap_or to a)
              amount)
            t
  unfolding fund ◌>>=◌
  fund_at_parent p actor gateway from to amount conn a s t h c =
      rw
        (parent_connection-new_from_parent (codes "target parent subnet not found") p actor s, fund)
        (rw (connection_or-some (codes "target parent subnet not found") p conn s h) (rw c refl))

  -- When a subnet is connected and the account `a` is chosen: what it releases is sent by its own
  -- manager, from `a`, to `a` itself when no receiver is given, and through the gateway of its
  -- own configuration when none is given.
  pub release_at_subnet :
      (id : SubnetId Address) (gateway from to : Option Address) (amount : ℤ) (fee : Option ℤ)
      (conn : Connection Address World P) (a : Address) (s t : State connector)
      → connection connector s.0 id ≡ some conn
      → check_sender connector conn.subnet from s ≡ (ok a, t)
      → release connector id gateway from to amount fee s
        ≡ on_world connector
            (conn.manager.release
              (unwrap_or gateway (gateway_addr conn.subnet))
              a
              (unwrap_or to a)
              amount
              fee)
            t
  unfolding release ◌>>=◌
  release_at_subnet id gateway from to amount fee conn a s t h c =
      rw (connection_or-some (codes "target subnet not found") id conn s h, release) (rw c refl)
