-- ===== src/Provider/Relayer/Finality.antt =====
-- Which checkpoints a pass of the relayer submits.
use mathlib.Core.List.{append_assoc, append-nil}
use ipc_client.Base.{
  ℕ, zero, suc, ◌≡◌, refl, sym, ap, ◌∙◌, true, false, if◌then◌else◌, if_apply, ◌⊎◌, inl, inr, List,
  [], ◌∷◌, ◌++◌, ok, arith,
}
use ipc_client.Base.Int.{
  ℤ, pos, pos_part, ◌+ℤ◌, ◌-ℤ◌, ltb_ℤ, max_ℤ, InI64, wrap_i64-id, +ℤ_parts, -ℤ_parts, eq_of_parts,
}
use ipc_client.Base.Exec.{◌>>=◌, pure}
use ipc_client.Provider.Relayer.{
  QuorumReachedEvent, submit_checkpoint, last_bottom_up_checkpoint_height,
  has_submitted_in_last_checkpoint_height, checkpoint_bundle_at, quorum_reached_events,
  current_epoch, Trace, Manager, call, is_zero, relay, submit_last_epoch, submit_events,
  submit_heights, submit_next_epoch,
}
use ipc_client.Provider.Relayer.Submissions.{submissions, submissions-append}

-- While the pass runs the child's past does not change, and the parent accepts what is submitted.
pub record IsSteady {Address Bundle : Type 0} (self : Manager Address Bundle)
    (events : ℤ → List QuorumReachedEvent) (bundle : ℤ → Bundle) : Type 0 where
  pub events_at : (t : Trace Address Bundle) (h : ℤ) → self.child_handler.events t h ≡ ok (events h)
  pub bundle_at :
      (t : Trace Address Bundle) (h : ℤ) → self.child_handler.bundle_at t h ≡ ok (bundle h)
  pub accepts :
      (t : Trace Address Bundle) (a : Address) (b : Bundle)
      → (epoch : ℤ) × (self.parent_handler.submit t a b ≡ ok epoch)

module _ {Address Bundle : Type 0} (who : Address) (events : ℤ → List QuorumReachedEvent)
    (bundle : ℤ → Bundle) where
  -- The checkpoints of some events, in order.
  abbrev pub of_events : List QuorumReachedEvent → List (Address × Bundle)
  of_events [] = []
  of_events (event ∷ l) = (who, bundle event.height) ∷ of_events l

  -- The checkpoints of the events of `left` heights from `h` on.
  abbrev pub of_heights : ℕ → ℤ → List (Address × Bundle)
  of_heights zero h = []
  of_heights (suc left) h = of_events (events h) ++ of_heights left (h +ℤ pos 1)

module _ {Address Bundle : Type 0} (self : Manager Address Bundle) (who : Address)
    (events : ℤ → List QuorumReachedEvent) (bundle : ℤ → Bundle)
    (steady : IsSteady self events bundle) where
  relay_steady :
      (h : ℤ) (t : Trace Address Bundle)
      → ((relay self who h t).0 ≡ ok tt)
        × (submissions (relay self who h t).1 ≡ submissions t ++ (who, bundle h) ∷ [])
  unfolding relay call ◌>>=◌
  relay_steady h t =
      let u = t ++ checkpoint_bundle_at h ∷ [] in
      let (epoch, accepted) = steady.accepts u who (bundle h) in
      rw (steady.bundle_at t h) (
        rw accepted (
          refl,
          submissions-append u (submit_checkpoint who (bundle h) ∷ [])
              ∙ ap (λ l. l ++ (who, bundle h) ∷ [])
                  (submissions-append t (checkpoint_bundle_at h ∷ []) ∙ append-nil (submissions t)),
        ))

  submit_events_steady :
      (l : List QuorumReachedEvent) (t : Trace Address Bundle)
      → ((submit_events self who l t).0 ≡ ok tt)
        × (submissions (submit_events self who l t).1
            ≡ submissions t ++ of_events who events bundle l)
  unfolding submit_events ◌>>=◌
  submit_events_steady [] t = (refl, sym (append-nil (submissions t)))
  submit_events_steady (event ∷ l) t =
      let (done, sent) = relay_steady event.height t in
      let (done', sent') = submit_events_steady l (relay self who event.height t).1 in
      rw done (
        done',
        sent'
            ∙ ap (λ k. k ++ of_events who events bundle l) sent
            ∙ append_assoc (submissions t) _ _,
      )

  submit_heights_steady :
      (left : ℕ) (h : ℤ) (t : Trace Address Bundle)
      → ((submit_heights self who left h t).0 ≡ ok tt)
        × (submissions (submit_heights self who left h t).1
            ≡ submissions t ++ of_heights who events bundle left h)
  unfolding submit_heights call ◌>>=◌
  submit_heights_steady zero h t = (refl, sym (append-nil (submissions t)))
  submit_heights_steady (suc left) h t =
      let u = t ++ quorum_reached_events h ∷ [] in
      let (done, sent) = submit_events_steady (events h) u in
      let (done', sent') =
        submit_heights_steady left (h +ℤ pos 1) (submit_events self who (events h) u).1 in
      rw (steady.events_at t h) (
        rw done (
          done',
          sent'
              ∙ ap (λ k. k ++ of_heights who events bundle left (h +ℤ pos 1))
                  (sent
                    ∙ ap (λ k. k ++ of_events who events bundle (events h))
                        (submissions-append t (quorum_reached_events h ∷ [])
                          ∙ append-nil (submissions t)))
              ∙ append_assoc (submissions t) _ _,
        ))

abbrev pub finalized_height : {Address Bundle : Type 0} → Manager Address Bundle → ℤ → ℤ
finalized_height self current = max_ℤ (pos 1) (current -ℤ self.finalization_blocks)

-- The chains answer with these heights, and the sums of the pass stay within 64 bits.
pub record Answers {Address Bundle : Type 0} (self : Manager Address Bundle) (last current : ℤ)
    (t : Trace Address Bundle) : Type 0 where
  pub last_height : self.parent_handler.last_height t self.child ≡ ok last
  pub epoch :
      self.child_handler.epoch (t ++ last_bottom_up_checkpoint_height self.child ∷ []) ≡ ok current
  pub last_fits : InI64 last
  pub first_fits : InI64 (last +ℤ pos 1)
  pub next_fits : InI64 (last +ℤ self.period)
  pub finalized_fits : InI64 (current -ℤ self.finalization_blocks)

add_sub : (a b : ℤ) → a +ℤ b -ℤ b ≡ a
add_sub a b = eq_of_parts (a +ℤ b -ℤ b) a (omega (arith, +ℤ_parts a b, -ℤ_parts (a +ℤ b) b))

module _ {Address Bundle : Type 0} (self : Manager Address Bundle) (who : Address)
    {last current : ℤ} {t : Trace Address Bundle} (answers : Answers self last current t) where
  abbrev asked : Trace Address Bundle
  asked = (t ++ last_bottom_up_checkpoint_height self.child ∷ []) ++ current_epoch ∷ []

  submissions-asked : submissions asked ≡ submissions t
  submissions-asked =
      submissions-append (t ++ last_bottom_up_checkpoint_height self.child ∷ [])
        (current_epoch ∷ [])
      ∙ append-nil _
      ∙ submissions-append t (last_bottom_up_checkpoint_height self.child ∷ [])
      ∙ append-nil _

  submit_next_epoch-asked : submit_next_epoch self who t ≡ (
      if ltb_ℤ (finalized_height self current) (last +ℤ self.period)
      then (ok tt, asked)
      else submit_heights self who
          (pos_part (finalized_height self current -ℤ last))
          (last +ℤ pos 1)
          asked)
  unfolding submit_next_epoch call ◌>>=◌
  submit_next_epoch-asked =
      simp
        (
          answers.last_height,
          answers.epoch,
          wrap_i64-id (last +ℤ self.period) answers.next_fits,
          wrap_i64-id (current -ℤ self.finalization_blocks) answers.finalized_fits,
          add_sub last self.period,
          wrap_i64-id last answers.last_fits,
          wrap_i64-id (last +ℤ pos 1) answers.first_fits,
        )
        (if_apply (ltb_ℤ (finalized_height self current) (last +ℤ self.period)) (pure tt)
          (submit_heights self who (pos_part (finalized_height self current -ℤ last))
            (last +ℤ pos 1))
          asked)

  -- When the chains answer with the last submitted height and the current epoch and the sums fit
  -- an `i64`: a pass that finds the next checkpoint height not yet final submits nothing and
  -- succeeds.
  submit_next_epoch-early :
      ltb_ℤ (finalized_height self current) (last +ℤ self.period) ≡ true
      → ((submit_next_epoch self who t).0 ≡ ok tt)
        × (submissions (submit_next_epoch self who t).1 ≡ submissions t)
  submit_next_epoch-early h = rw (submit_next_epoch-asked, h) (refl, submissions-asked)

  -- When the chains answer with the last submitted height and the current epoch, the sums fit an
  -- `i64`, the child's past stands still, the parent accepts what it is sent, and the next
  -- checkpoint height is final: a pass succeeds and submits the checkpoints of all the quorum
  -- events above the last submitted height, up to the finalized one, height by height in order,
  -- and nothing else.
  pub submit_next_epoch-due :
      (events : ℤ → List QuorumReachedEvent) (bundle : ℤ → Bundle)
      → IsSteady self events bundle
      → ltb_ℤ (finalized_height self current) (last +ℤ self.period) ≡ false
      → ((submit_next_epoch self who t).0 ≡ ok tt)
        × (submissions (submit_next_epoch self who t).1
            ≡ submissions t
              ++ of_heights who events bundle
                  (pos_part (finalized_height self current -ℤ last))
                  (last +ℤ pos 1))
  submit_next_epoch-due events bundle steady h =
      let (done, sent) =
        submit_heights_steady self who events bundle steady
          (pos_part (finalized_height self current -ℤ last)) (last +ℤ pos 1) asked in
      rw (submit_next_epoch-asked, h)
        (
          done,
          sent
              ∙ ap
                  (λ l.
                    l
                    ++ of_heights who events bundle
                        (pos_part (finalized_height self current -ℤ last)) (last +ℤ pos 1))
                  submissions-asked,
        )

module _ {Address Bundle : Type 0} (self : Manager Address Bundle) (who : Address)
    (t : Trace Address Bundle) where
  abbrev after_check : Trace Address Bundle
  after_check = t ++ has_submitted_in_last_checkpoint_height self.child who ∷ []

  submissions-after_check : submissions after_check ≡ submissions t
  submissions-after_check =
      submissions-append t (has_submitted_in_last_checkpoint_height self.child who ∷ [])
      ∙ append-nil _

  abbrev after_height : Trace Address Bundle
  after_height = after_check ++ last_bottom_up_checkpoint_height self.child ∷ []

  submissions-after_height : submissions after_height ≡ submissions t
  submissions-after_height =
      submissions-append after_check (last_bottom_up_checkpoint_height self.child ∷ [])
      ∙ append-nil _
      ∙ submissions-after_check

  -- A relayer that has submitted at the last height, or finds no checkpoint yet, submits nothing.
  pub submit_last_epoch-idle :
      (self.parent_handler.has_submitted t self.child who ≡ ok true)
        ⊎ ((self.parent_handler.has_submitted t self.child who ≡ ok false)
            × (self.parent_handler.last_height after_check self.child ≡ ok (pos 0)))
      → ((submit_last_epoch self who t).0 ≡ ok tt)
        × (submissions (submit_last_epoch self who t).1 ≡ submissions t)
  unfolding submit_last_epoch call ◌>>=◌
  submit_last_epoch-idle (inl had) = rw had (refl, submissions-after_check)
  submit_last_epoch-idle (inr (had, none_yet)) =
      rw had (rw none_yet (refl, submissions-after_height))

  -- When the relayer has not submitted at the last checkpoint height, which is not 0, and the
  -- chains answer and accept: it submits the checkpoint of that height, and nothing else.
  pub submit_last_epoch-due :
      (events : ℤ → List QuorumReachedEvent) (bundle : ℤ → Bundle) (last : ℤ)
      → IsSteady self events bundle
      → self.parent_handler.has_submitted t self.child who ≡ ok false
      → self.parent_handler.last_height after_check self.child ≡ ok last
      → is_zero last ≡ false
      → ((submit_last_epoch self who t).0 ≡ ok tt)
        × (submissions (submit_last_epoch self who t).1 ≡ submissions t ++ (who, bundle last) ∷ [])
  unfolding submit_last_epoch call ◌>>=◌
  submit_last_epoch-due events bundle last steady had at_last positive =
      let (done, sent) = relay_steady self who events bundle steady last after_height in
      rw had (
        rw at_last (
          rw positive
            (done, sent ∙ ap (λ l. l ++ (who, bundle last) ∷ []) submissions-after_height)))
