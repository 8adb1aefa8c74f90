-- ===== src/Provider/Relayer.antt =====
-- ipc/provider/src/checkpoint.rs: the relayer of bottom-up checkpoints, and the trait
-- `BottomUpCheckpointRelayer` of manager/subnet.rs through which it sees the two chains.
--
-- A chain answers each call from all the calls made before, the two chains' calls in one trace, so
-- that submissions and the passing of time may change any answer.
pub mod Submissions
pub mod Finality
use ipc_client.Base.{
  ℕ, zero, suc, Bool, true, false, List, [], ◌∷◌, ◌++◌, Result, panic, if◌then◌else◌,
}
use ipc_client.Base.Exec.{Exec, ◌>>=◌, ◌>>◌, pure, context}
use ipc_client.Base.Int.{ℤ, pos, negsuc, pos_part, ◌+ℤ◌, ◌-ℤ◌, ltb_ℤ, max_ℤ, wrap_i64}
use ipc_client.Base.Text.{Text, codes}
use ipc_client.Sdk.SubnetId.{SubnetId}

pub record QuorumReachedEvent : Type 0 where
  pub height : ℤ
  pub checkpoint : List ℕ
  pub quorum_weight : ℤ

-- `height == 0`
abbrev pub is_zero : ℤ → Bool
is_zero (pos zero) = true
is_zero h = false

-- A call of a handler. `Bundle` is the type `BottomUpCheckpointBundle`.
pub data Call (Address Bundle : Type 0) : Type 0 where
  submit_checkpoint : Address → Bundle → Call Address Bundle
  last_bottom_up_checkpoint_height : SubnetId Address → Call Address Bundle
  has_submitted_in_last_checkpoint_height : SubnetId Address → Address → Call Address Bundle
  checkpoint_period : SubnetId Address → Call Address Bundle
  checkpoint_bundle_at : ℤ → Call Address Bundle
  quorum_reached_events : ℤ → Call Address Bundle
  current_epoch : Call Address Bundle

abbrev pub Trace : Type 0 → Type 0 → Type 0
Trace Address Bundle = List (Call Address Bundle)

-- The trait, an answer for each call. The error of `anyhow` is its message.
pub record Handler (Address Bundle : Type 0) : Type 0 where
  pub submit : Trace Address Bundle → Address → Bundle → Result Text ℤ
  pub last_height : Trace Address Bundle → SubnetId Address → Result Text ℤ
  pub has_submitted : Trace Address Bundle → SubnetId Address → Address → Result Text Bool
  pub period : Trace Address Bundle → SubnetId Address → Result Text ℤ
  pub bundle_at : Trace Address Bundle → ℤ → Result Text Bundle
  pub events : Trace Address Bundle → ℤ → Result Text (List QuorumReachedEvent)
  pub epoch : Trace Address Bundle → Result Text ℤ

-- `BottomUpCheckpointManager` with its `CheckpointConfig`; of the subnets' configurations the
-- relayer uses the identifiers.
pub record Manager (Address Bundle : Type 0) : Type 0 where
  pub parent : SubnetId Address
  pub child : SubnetId Address
  pub period : ℤ
  pub parent_handler : Handler Address Bundle
  pub child_handler : Handler Address Bundle
  pub finalization_blocks : ℤ

module _ {Address Bundle : Type 0} where
  -- One call: the answer, and the trace with the call.
  unfoldable pub call :
      {A : Type 0}
      → Call Address Bundle
      → (Trace Address Bundle → Result Text A)
      → Exec Text (Trace Address Bundle) A
  call c answer t = (answer t, t ++ c ∷ [])

  -- `BottomUpCheckpointManager::new`
  unfoldable pub new :
      SubnetId Address
      → SubnetId Address
      → Handler Address Bundle
      → Handler Address Bundle
      → Exec Text (Trace Address Bundle) (Manager Address Bundle)
  new parent child parent_handler child_handler = do
    period ←
        context (codes "cannot get bottom up checkpoint period: ")
          (call (checkpoint_period child) (λ t. parent_handler.period t child))
    pure (record {
      parent = parent;
      child = child;
      period = period;
      parent_handler = parent_handler;
      child_handler = child_handler;
      finalization_blocks = pos 0;
    })

  unfoldable pub with_finalization_blocks : Manager Address Bundle → ℤ → Manager Address Bundle
  with_finalization_blocks self blocks = record self { finalization_blocks = blocks }

module _ {Address Bundle : Type 0} (self : Manager Address Bundle) where
  unfoldable pub next_submission_height : Exec Text (Trace Address Bundle) ℤ
  next_submission_height = do
    last ← context (codes "cannot obtain the last bottom up checkpoint height due to: ") (
        call (last_bottom_up_checkpoint_height self.child)
          (λ t. self.parent_handler.last_height t self.child))
    pure (wrap_i64 (last +ℤ self.period))

  -- Fetch the bundle of a height from the child and submit it to the parent.
  unfoldable pub relay : Address → ℤ → Exec Text (Trace Address Bundle) (Unit {0})
  relay submitter height = do
    bundle ← call (checkpoint_bundle_at height) (λ t. self.child_handler.bundle_at t height)
    context (codes "cannot submit bottom up checkpoint due to: ") (
        call (submit_checkpoint submitter bundle)
          (λ t. self.parent_handler.submit t submitter bundle))
    pure tt

  unfoldable pub submit_last_epoch : Address → Exec Text (Trace Address Bundle) (Unit {0})
  unfolding relay
  submit_last_epoch submitter = do
    submitted ←
        call (has_submitted_in_last_checkpoint_height self.child submitter)
          (λ t. self.parent_handler.has_submitted t self.child submitter)
    if submitted then pure tt else do
      height ←
          call (last_bottom_up_checkpoint_height self.child)
            (λ t. self.parent_handler.last_height t self.child)
      if is_zero height then pure tt else relay submitter height

  -- `for event in events`
  unfoldable pub submit_events :
      Address → List QuorumReachedEvent → Exec Text (Trace Address Bundle) (Unit {0})
  submit_events submitter [] = pure tt
  submit_events submitter (event ∷ events) = do
    relay submitter event.height
    submit_events submitter events

  -- `for h in first..`, as many heights as are left. An empty list of events is skipped.
  unfoldable pub submit_heights : Address → ℕ → ℤ → Exec Text (Trace Address Bundle) (Unit {0})
  submit_heights submitter zero h = pure tt
  submit_heights submitter (suc left) h = do
    events ← call (quorum_reached_events h) (λ t. self.child_handler.events t h)
    submit_events submitter events
    submit_heights submitter left (h +ℤ pos 1)

  -- The heights of `(prev_h + 1)..=finalized_height` are `finalized_height - prev_h` many.
  unfoldable pub submit_next_epoch : Address → Exec Text (Trace Address Bundle) (Unit {0})
  unfolding next_submission_height
  submit_next_epoch submitter = do
    next ← next_submission_height
    current ← call current_epoch self.child_handler.epoch
    let finalized = max_ℤ (pos 1) (wrap_i64 (current -ℤ self.finalization_blocks))
    if ltb_ℤ finalized next
        then pure tt
        else (let prev = wrap_i64 (next -ℤ self.period) in
            submit_heights submitter (pos_part (finalized -ℤ prev)) (wrap_i64 (prev +ℤ pos 1)))

  unfoldable pub submit_checkpoint_pass : Address → Exec Text (Trace Address Bundle) (Unit {0})
  submit_checkpoint_pass submitter = do submit_last_epoch submitter; submit_next_epoch submitter

  -- The daemon after a number of rounds: an error is logged and the next round starts, a panic ends it.
  unfoldable pub run : Address → ℕ → Trace Address Bundle → Trace Address Bundle
  run submitter zero t = t
  run submitter (suc rounds) t =
      let next = run submitter rounds (submit_checkpoint_pass submitter t).1 in
      elim (submit_checkpoint_pass submitter t).0 [
        | panic ↦ (submit_checkpoint_pass submitter t).1
        | _ ↦ next
      ]
