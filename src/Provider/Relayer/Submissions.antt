-- ===== src/Provider/Relayer/Submissions.antt =====
-- What the relayer submits, and by whom, read off the trace of its calls.
use mathlib.Core.List.{append_assoc, append-nil}
use ipc_client.Base.{
  ℕ, zero, suc, ◌≡◌, refl, sym, ap, ◌∙◌, Bool, true, false, if◌then◌else◌, List, [], ◌∷◌, ◌++◌,
  Result, ok, err, panic, All,
}
use ipc_client.Base.Int.{ℤ, pos, ◌+ℤ◌}
use ipc_client.Base.Exec.{Exec, ◌>>=◌, continue, pure, context}
use ipc_client.Base.Text.{Text}
use ipc_client.Provider.Relayer.{
  QuorumReachedEvent, Call, submit_checkpoint, last_bottom_up_checkpoint_height,
  has_submitted_in_last_checkpoint_height, checkpoint_period, checkpoint_bundle_at,
  quorum_reached_events, current_epoch, Trace, call, Manager, relay, submit_last_epoch,
  submit_events, submit_heights, submit_next_epoch, submit_checkpoint_pass, run,
}

module _ {Address Bundle : Type 0} where
  -- The submissions among the calls, in order, with who made them.
  abbrev pub submissions : Trace Address Bundle → List (Address × Bundle)
  submissions [] = []
  submissions (submit_checkpoint a b ∷ t) = (a, b) ∷ submissions t
  submissions (last_bottom_up_checkpoint_height s ∷ t) = submissions t
  submissions (has_submitted_in_last_checkpoint_height s a ∷ t) = submissions t
  submissions (checkpoint_period s ∷ t) = submissions t
  submissions (checkpoint_bundle_at h ∷ t) = submissions t
  submissions (quorum_reached_events h ∷ t) = submissions t
  submissions (current_epoch ∷ t) = submissions t

  pub submissions-append :
      (t u : Trace Address Bundle) → submissions (t ++ u) ≡ submissions t ++ submissions u
  submissions-append [] u = refl
  submissions-append (submit_checkpoint a b ∷ t) u = ap (λ l. (a, b) ∷ l) (submissions-append t u)
  submissions-append (last_bottom_up_checkpoint_height s ∷ t) u = submissions-append t u
  submissions-append (has_submitted_in_last_checkpoint_height s a ∷ t) u = submissions-append t u
  submissions-append (checkpoint_period s ∷ t) u = submissions-append t u
  submissions-append (checkpoint_bundle_at h ∷ t) u = submissions-append t u
  submissions-append (quorum_reached_events h ∷ t) u = submissions-append t u
  submissions-append (current_epoch ∷ t) u = submissions-append t u

  -- From one trace to a later one, calls were added, and all submissions among them are `who`'s.
  pub record Adds (who : Address) (t u : Trace Address Bundle) : Type 0 where
    pub calls : Trace Address Bundle
    pub extends : u ≡ t ++ calls
    pub by_who : All (λ (p : Address × Bundle). p.0 ≡ who) (submissions calls)

  All-append :
      (who : Address) (l k : List (Address × Bundle))
      → All (λ p. p.0 ≡ who) l
      → All (λ p. p.0 ≡ who) k
      → All (λ p. p.0 ≡ who) (l ++ k)
  All-append who [] k h g = g
  All-append who (x ∷ l) k h g = (h.0, All-append who l k h.1 g)

  Adds-refl : (who : Address) (t : Trace Address Bundle) → Adds who t t
  Adds-refl who t = record { calls = []; extends = sym (append-nil t); by_who = tt }

  Adds-trans :
      {who : Address} {t u v : Trace Address Bundle} → Adds who t u → Adds who u v → Adds who t v
  Adds-trans {who} {t} a b = record {
    calls = a.calls ++ b.calls;
    extends = b.extends ∙ ap (λ l. l ++ b.calls) a.extends ∙ append_assoc t a.calls b.calls;
    by_who =
        rw (submissions-append a.calls b.calls)
          (All-append who (submissions a.calls) (submissions b.calls) a.by_who b.by_who);
  }

  -- An action whose submissions are all `who`'s, whatever the chains answer.
  pub record SubmitsAs {A : Type 0} (who : Address) (m : Exec Text (Trace Address Bundle) A)
      : Type 0 where
    pub at : (t : Trace Address Bundle) → Adds who t (m t).1

  SubmitsAs-continue :
      {A B : Type 0} (who : Address) (r : Result Text A)
      (f : A → Exec Text (Trace Address Bundle) B)
      → ((a : A) → SubmitsAs who (f a))
      → (t : Trace Address Bundle) → Adds who t (continue r f t).1
  SubmitsAs-continue who (ok a) f h t = (h a).at t
  SubmitsAs-continue who (err e) f h t = Adds-refl who t
  SubmitsAs-continue who panic f h t = Adds-refl who t

  SubmitsAs-bind :
      {A B : Type 0} {who : Address} (m : Exec Text (Trace Address Bundle) A)
      (f : A → Exec Text (Trace Address Bundle) B)
      → SubmitsAs who m
      → ((a : A) → SubmitsAs who (f a))
      → SubmitsAs who (m >>= f)
  unfolding ◌>>=◌
  SubmitsAs-bind {who} m f h k = record {
    at = λ t. Adds-trans (h.at t) (SubmitsAs-continue who (m t).0 f k (m t).1);
  }

  SubmitsAs-pure : {A : Type 0} {who : Address} (a : A) → SubmitsAs who (pure a)
  unfolding ◌>>=◌
  SubmitsAs-pure {who} a = record { at = Adds-refl who }

  SubmitsAs-context :
      {A : Type 0} {who : Address} (e : Text) (m : Exec Text (Trace Address Bundle) A)
      → SubmitsAs who m
      → SubmitsAs who (context e m)
  unfolding ◌>>=◌
  SubmitsAs-context e m h = record { at = h.at }

  SubmitsAs-if :
      {A : Type 0} {who : Address} (b : Bool) (m n : Exec Text (Trace Address Bundle) A)
      → SubmitsAs who m
      → SubmitsAs who n
      → SubmitsAs who (if b then m else n)
  SubmitsAs-if true m n h k = h
  SubmitsAs-if false m n h k = k

  abbrev AllowedTo : Address → Call Address Bundle → Type 0
  AllowedTo who c = All (λ (p : Address × Bundle). p.0 ≡ who) (submissions (c ∷ []))

  SubmitsAs-call :
      {A : Type 0} {who : Address} (c : Call Address Bundle)
      (answer : Trace Address Bundle → Result Text A)
      → AllowedTo who c
      → SubmitsAs who (call c answer)
  unfolding call
  SubmitsAs-call c answer h = record {
    at = λ t. record { calls = c ∷ []; extends = refl; by_who = h };
  }

  own_submission : (who : Address) (b : Bundle) → AllowedTo who (submit_checkpoint who b)
  own_submission who b = (refl, tt)

  run_step :
      {A : Type 0} {who : Address} (r : Result Text A) (u v t : Trace Address Bundle)
      → Adds who t u
      → Adds who u v
      → Adds who t (elim r [ panic ↦ u | _ ↦ v ])
  run_step (ok a) u v t h k = Adds-trans h k
  run_step (err e) u v t h k = Adds-trans h k
  run_step panic u v t h k = h

ruleset submits_rules = (
  SubmitsAs-bind, SubmitsAs-pure, SubmitsAs-context, SubmitsAs-if, SubmitsAs-call, own_submission,
  tt,
)

module _ {Address Bundle : Type 0} (self : Manager Address Bundle) (who : Address) where
  relay-SubmitsAs : (h : ℤ) → SubmitsAs who (relay self who h)
  unfolding relay
  relay-SubmitsAs h = search submits_rules

  submit_events-SubmitsAs :
      (events : List QuorumReachedEvent) → SubmitsAs who (submit_events self who events)
  unfolding submit_events
  submit_events-SubmitsAs [] = search submits_rules
  submit_events-SubmitsAs (event ∷ events) =
      SubmitsAs-bind _ _ (relay-SubmitsAs event.height) (λ _. submit_events-SubmitsAs events)

  submit_heights-SubmitsAs : (left : ℕ) (h : ℤ) → SubmitsAs who (submit_heights self who left h)
  unfolding submit_heights
  submit_heights-SubmitsAs zero h = search submits_rules
  submit_heights-SubmitsAs (suc left) h = SubmitsAs-bind _ _ (search submits_rules) λ events.
      SubmitsAs-bind _ _ (submit_events-SubmitsAs events)
        λ _. submit_heights-SubmitsAs left (h +ℤ pos 1)

  submit_last_epoch-SubmitsAs : SubmitsAs who (submit_last_epoch self who)
  unfolding submit_last_epoch
  submit_last_epoch-SubmitsAs = search (submits_rules, relay-SubmitsAs)

  submit_next_epoch-SubmitsAs : SubmitsAs who (submit_next_epoch self who)
  unfolding submit_next_epoch
  submit_next_epoch-SubmitsAs = search (submits_rules, submit_heights-SubmitsAs)

  submit_checkpoint_pass-SubmitsAs : SubmitsAs who (submit_checkpoint_pass self who)
  unfolding submit_checkpoint_pass
  submit_checkpoint_pass-SubmitsAs =
      search (submits_rules, submit_last_epoch-SubmitsAs, submit_next_epoch-SubmitsAs)

  -- However long the daemon runs and whatever the chains answer, no call is undone and every
  -- submission that it adds is made by its submitter.
  pub run-Adds : (rounds : ℕ) (t : Trace Address Bundle) → Adds who t (run self who rounds t)
  unfolding run
  run-Adds zero t = Adds-refl who t
  run-Adds (suc rounds) t =
      run_step (submit_checkpoint_pass self who t).0 _ _ t (submit_checkpoint_pass-SubmitsAs.at t)
        (run-Adds rounds (submit_checkpoint_pass self who t).1)
