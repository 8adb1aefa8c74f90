-- ===== src/Cli/Unread.antt =====
-- Commands whose subnet or account cannot be read.
use ipc_client.Base.{◌≡◌, Option, none, ◌⊎◌, inl, inr, Result, ok, err, panic, Eq, ap}
use ipc_client.Base.Exec.{Exec, ◌>>=◌, continue, lift, pure}
use ipc_client.Base.Text.{Text}
use ipc_client.Sdk.Fvm.{AddressLib}
use ipc_client.Sdk.SubnetId.{SubnetId}
use ipc_client.Provider.SubnetManager.{Payloads}
use ipc_client.Provider.Client.{IpcProvider, Connector, State}
use ipc_client.Cli.{ArgumentLib, optional_addr, subnet_named, with_provider, printed}
use ipc_client.Cli.Subnets as Subnets
use ipc_client.Cli.Subnets.{
  SubnetCommand, create_subnet, list, join_subnet, rpc_subnet, chain_id_subnet, leave_subnet,
  kill_subnet, send, stake_subnet, unstake_subnet, claim_subnet, add, list_bootstrap, epoch,
  get_validator, create, list_subnets, join, rpc, chain_id, leave, kill, send_value, stake, unstake,
  claim, add_bootstrap, list_bootstraps, genesis_epoch, validator_info,
}
use ipc_client.Cli.CrossMsgs as CrossMsgs
use ipc_client.Cli.CrossMsgs.{
  CrossMsgCommand, fund, pre_fund, release, pre_release, propagate, list_topdown_msgs,
  parent_finality, handle_fund, handle_pre_fund, handle_release, handle_pre_release,
  handle_list_topdown_msgs, handle_parent_finality,
}

-- Whether a subnet and an account are read, in this order.
abbrev pub both : {A B : Type 0} → Result Text A → Result Text B → Result Text (Unit {0})
both (ok a) (ok b) = ok tt
both (ok a) (err m) = err m
both (ok a) panic = panic
both (err m) r = err m
both panic r = panic

module _ {Address Eth World : Type 0} {P : Payloads} ⦃e : Eq Address⦄ ⦃fvm : AddressLib Address⦄
    (args : ArgumentLib Address) (connector : Connector Address Eth World P)
    (opening : Exec Text World (IpcProvider Address Eth World)) where
  -- What a command reads first: a subnet, and the account it is sent from, where it names one.
  unfoldable pub reads : Text → Option Text → Result Text (Unit {0})
  reads subnet account = both (subnet_named args subnet) (optional_addr args account)

  unfoldable pub subnet_reads : SubnetCommand args.Float → Result Text (Unit {0})
  unfolding reads
  subnet_reads (create_subnet a) = reads a.parent a.from
  subnet_reads (list a) = reads a.subnet a.gateway_address
  subnet_reads (join_subnet a) = reads a.subnet a.from
  subnet_reads (rpc_subnet a) = reads a none
  subnet_reads (chain_id_subnet a) = reads a none
  subnet_reads (leave_subnet a) = reads a.subnet a.from
  subnet_reads (kill_subnet a) = reads a.subnet a.from
  subnet_reads (send a) = reads a.subnet a.from
  subnet_reads (stake_subnet a) = reads a.subnet a.from
  subnet_reads (unstake_subnet a) = reads a.subnet a.from
  subnet_reads (claim_subnet a) = reads a.subnet a.from
  subnet_reads (add a) = reads a.subnet a.from
  subnet_reads (list_bootstrap a) = reads a none
  subnet_reads (epoch a) = reads a none
  subnet_reads (get_validator a) = reads a.subnet none

  unfoldable pub cross_msg_reads : CrossMsgCommand args.Float → Result Text (Unit {0})
  unfolding reads
  cross_msg_reads (fund a) = reads a.subnet a.from
  cross_msg_reads (pre_fund a) = reads a.subnet a.from
  cross_msg_reads (release a) = reads a.subnet a.from
  cross_msg_reads (pre_release a) = reads a.subnet a.from
  cross_msg_reads propagate = ok tt
  cross_msg_reads (list_topdown_msgs a) = reads a.subnet none
  cross_msg_reads (parent_finality a) = reads a none

  two_stop :
      {A : Type 0} (s : Result Text (SubnetId Address)) (a : Result Text (Option Address))
      (k : SubnetId Address → Option Address → Exec Text (State connector) A) (st : State connector)
      (m : Text)
      → both s a ≡ err m
      → (lift s >>= λ subnet. lift a >>= k subnet) st ≡ (err m, st)
  unfolding ◌>>=◌
  two_stop (ok s) (ok a) k st m h = absurd cc
  two_stop (ok s) (err x) k st m h = cc
  two_stop (ok s) panic k st m h = absurd cc
  two_stop (err x) a k st m h = cc
  two_stop panic a k st m h = absurd cc

  one_stop :
      {A : Type 0} (s : Result Text (SubnetId Address))
      (k : SubnetId Address → Exec Text (State connector) A) (st : State connector) (m : Text)
      → both {B = Option Address} s (ok none) ≡ err m
      → (lift s >>= k) st ≡ (err m, st)
  unfolding ◌>>=◌
  one_stop (ok s) k st m h = absurd cc
  one_stop (err x) k st m h = cc
  one_stop panic k st m h = absurd cc

  -- A provider is there, and then the command stops.
  opened :
      {A : Type 0} (o : Result Text (IpcProvider Address Eth World)) (t w : World)
      (p : IpcProvider Address Eth World) (n : Exec Text (State connector) A) (m : Text)
      → o ≡ ok p
      → ((st : State connector) → n st ≡ (err m, st))
      → with_provider connector (λ v. (o, t)) n w ≡ (err m, t)
  unfolding with_provider ◌>>=◌
  opened (ok q) t w p n m o h =
      ap (λ (x : Result Text _ × State connector). (x.0, x.1.1)) (h (q, t))
  opened (err x) t w p n m o h = absurd cc
  opened panic t w p n m o h = absurd cc

  module _ (w : World) (p : IpcProvider Address Eth World) (m : Text)
      (o : (opening w).0 ≡ ok p) where
    abbrev Stopped : {A : Type 0} → Exec Text World A → Type 0
    Stopped c = c w ≡ (err m, (opening w).1)

    sent :
        {A : Type 0} (subnet : Text) (account : Option Text)
        (k : SubnetId Address → Option Address → Exec Text (State connector) A)
        → reads subnet account ≡ err m
        → Stopped (
            with_provider connector opening
              (lift (subnet_named args subnet) >>= λ s. lift (optional_addr args account) >>= k s))
    unfolding reads with_provider ◌>>=◌
    sent subnet account k h =
        opened (opening w).0 (opening w).1 w p _ m o
          (λ st. two_stop (subnet_named args subnet) (optional_addr args account) k st m h)

    asked :
        {A : Type 0} (subnet : Text) (k : SubnetId Address → Exec Text (State connector) A)
        → reads subnet none ≡ err m
        → Stopped (with_provider connector opening (lift (subnet_named args subnet) >>= k))
    unfolding reads with_provider ◌>>=◌ optional_addr
    asked subnet k h =
        opened (opening w).0 (opening w).1 w p _ m o
          (λ st. one_stop (subnet_named args subnet) k st m h)

    printed_lem : {A : Type 0} (c : Exec Text World A) → Stopped c → Stopped (printed c)
    unfolding printed ◌>>=◌
    printed_lem c h = ap (λ r. continue r.0 (λ a. pure tt) r.1) h

    subnet_stops :
        (c : SubnetCommand args.Float)
        → subnet_reads c ≡ err m
        → Stopped (Subnets.handle args connector opening c)
    unfolding Subnets.handle subnet_reads create list_subnets join rpc chain_id leave kill
        send_value stake unstake claim add_bootstrap list_bootstraps genesis_epoch validator_info
    subnet_stops (create_subnet a) h = printed_lem _ (sent a.parent a.from _ h)
    subnet_stops (list a) h = printed_lem _ (sent a.subnet a.gateway_address _ h)
    subnet_stops (join_subnet a) h = printed_lem _ (sent a.subnet a.from _ h)
    subnet_stops (rpc_subnet a) h = printed_lem _ (asked a _ h)
    subnet_stops (chain_id_subnet a) h = printed_lem _ (asked a _ h)
    subnet_stops (leave_subnet a) h = sent a.subnet a.from _ h
    subnet_stops (kill_subnet a) h = sent a.subnet a.from _ h
    subnet_stops (send a) h = sent a.subnet a.from _ h
    subnet_stops (stake_subnet a) h = sent a.subnet a.from _ h
    subnet_stops (unstake_subnet a) h = sent a.subnet a.from _ h
    subnet_stops (claim_subnet a) h = sent a.subnet a.from _ h
    subnet_stops (add a) h = sent a.subnet a.from _ h
    subnet_stops (list_bootstrap a) h = printed_lem _ (asked a _ h)
    subnet_stops (epoch a) h = printed_lem _ (asked a _ h)
    subnet_stops (get_validator a) h = printed_lem _ (asked a.subnet _ h)

    cross_msg_stops :
        (c : CrossMsgCommand args.Float)
        → cross_msg_reads c ≡ err m
        → Stopped (CrossMsgs.handle args connector opening c)
    unfolding CrossMsgs.handle cross_msg_reads handle_fund handle_pre_fund handle_release
        handle_pre_release handle_list_topdown_msgs handle_parent_finality
    cross_msg_stops (fund a) h = printed_lem _ (sent a.subnet a.from _ h)
    cross_msg_stops (pre_fund a) h = sent a.subnet a.from _ h
    cross_msg_stops (release a) h = printed_lem _ (sent a.subnet a.from _ h)
    cross_msg_stops (pre_release a) h = sent a.subnet a.from _ h
    cross_msg_stops propagate h = absurd cc
    cross_msg_stops (list_topdown_msgs a) h = printed_lem _ (asked a.subnet _ h)
    cross_msg_stops (parent_finality a) h = printed_lem _ (asked a _ h)

  -- A command about a subnet, or about messages between subnets.
  abbrev pub Command : Type 0
  Command = SubnetCommand args.Float ⊎ CrossMsgCommand args.Float

  abbrev pub command_reads : Command → Result Text (Unit {0})
  command_reads (inl c) = subnet_reads c
  command_reads (inr c) = cross_msg_reads c

  abbrev pub handle : Command → Exec Text World (Unit {0})
  handle (inl c) = Subnets.handle args connector opening c
  handle (inr c) = CrossMsgs.handle args connector opening c

  -- When the provider opens and a command's subnet, or after it the account that the command names,
  -- is not read: the command fails with that error, and the world is as the opening left it.
  pub unread_stops :
      (c : Command) (w : World) (p : IpcProvider Address Eth World) (m : Text)
      → (opening w).0 ≡ ok p
      → command_reads c ≡ err m
      → handle c w ≡ (err m, (opening w).1)
  unread_stops (inl c) w p m o h = subnet_stops w p m o c h
  unread_stops (inr c) w p m o h = cross_msg_stops w p m o c h
