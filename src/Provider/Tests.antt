-- ===== src/Provider/Tests.antt =====
-- The theorems on the relayer, at a network with a root and one child.
use ipc_client.Base.{ℕ, ◌≡◌, refl, arith, false, List, [], ◌∷◌, ◌++◌, ok, nat_eq}
use ipc_client.Base.Int.{ℤ, pos, pos_part, ◌+ℤ◌, ◌-ℤ◌}
use ipc_client.Sdk.SubnetId.{SubnetId, subnet_id_eq}
use ipc_client.Provider.Relayer.{
  QuorumReachedEvent, Handler, Manager, submit_next_epoch, submit_last_epoch, run,
}
use ipc_client.Provider.Relayer.Submissions.{submissions, Adds, run-Adds}
use ipc_client.Provider.Relayer.Finality.{
  IsSteady, Answers, of_heights, finalized_height, submit_next_epoch-due, submit_last_epoch-due,
}

abbrev root_id : SubnetId ℕ
root_id = record { root = 314; children = [] }

abbrev child_id : SubnetId ℕ
child_id = record { root = 314; children = 1 ∷ [] }

-- One event at every height.
abbrev events_at : ℤ → List QuorumReachedEvent
events_at h = record { height = h; checkpoint = []; quorum_weight = pos 1 } ∷ []

-- The bundle of a height is the height.
abbrev bundle_of : ℤ → ℤ
bundle_of h = h

abbrev chain : ℤ → Handler ℕ ℤ
chain epoch = record {
  submit = λ t a b. ok (pos 0);
  last_height = λ t s. ok (pos 10);
  has_submitted = λ t s a. ok false;
  period = λ t s. ok (pos 10);
  bundle_at = λ t h. ok h;
  events = λ t h. ok (events_at h);
  epoch = λ t. ok epoch;
}

abbrev relayer : ℤ → Manager ℕ ℤ
relayer epoch = record {
  parent = root_id;
  child = child_id;
  period = pos 10;
  parent_handler = chain epoch;
  child_handler = chain epoch;
  finalization_blocks = pos 5;
}

steady : (epoch : ℤ) → IsSteady (relayer epoch) events_at bundle_of
steady epoch = record {
  events_at = λ t h. refl;
  bundle_at = λ t h. refl;
  accepts = λ t a b. (pos 0, refl);
}

Answers-at_30 : Answers (relayer (pos 30)) (pos 10) (pos 30) []
unfolding ◌+ℤ◌ ◌-ℤ◌
Answers-at_30 = record {
  last_height = refl;
  epoch = refl;
  last_fits = ground arith;
  first_fits = ground arith;
  next_fits = ground arith;
  finalized_fits = ground arith;
}

Answers-at_18 : Answers (relayer (pos 18)) (pos 10) (pos 18) []
unfolding ◌+ℤ◌ ◌-ℤ◌
Answers-at_18 = record {
  last_height = refl;
  epoch = refl;
  last_fits = ground arith;
  first_fits = ground arith;
  next_fits = ground arith;
  finalized_fits = ground arith;
}

submit_next_epoch-due_example :
    ((submit_next_epoch (relayer (pos 30)) 9 []).0 ≡ ok tt)
    × (submissions (submit_next_epoch (relayer (pos 30)) 9 []).1
        ≡ submissions []
          ++ of_heights 9 events_at bundle_of
              (pos_part (finalized_height (relayer (pos 30)) (pos 30) -ℤ pos 10))
              (pos 10 +ℤ pos 1))
unfolding ◌+ℤ◌ ◌-ℤ◌
submit_next_epoch-due_example =
    submit_next_epoch-due (relayer (pos 30)) 9 Answers-at_30 events_at bundle_of (steady (pos 30))
      refl

submit_last_epoch-due_example :
    ((submit_last_epoch (relayer (pos 30)) 9 []).0 ≡ ok tt)
    × (submissions (submit_last_epoch (relayer (pos 30)) 9 []).1
        ≡ submissions [] ++ (9, bundle_of (pos 10)) ∷ [])
submit_last_epoch-due_example =
    submit_last_epoch-due (relayer (pos 30)) 9 [] events_at bundle_of (pos 10) (steady (pos 30))
      refl refl refl

run-Adds_example : Adds 9 [] (run (relayer (pos 30)) 9 3 [])
run-Adds_example = run-Adds (relayer (pos 30)) 9 3 []
