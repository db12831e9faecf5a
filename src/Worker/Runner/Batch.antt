-- ===== src/Worker/Runner/Batch.antt =====
-- runner.go: the jobs of a batch after their dispatch.
use ottodot_trial_booking_se.Worker.Runner.{
  Handler, Settings, dispatch, dispatch_batch, fault_fires, hand_back, job_error_point,
}
use ottodot_trial_booking_se.Queue.Model.{Kind, Job, ReleaseRequest, validate_release}
use ottodot_trial_booking_se.Queue.Memory.Schedule.{
  step, completes, named-row, releases, step-IsKeyed, complete-outcome, lookup-delete_self,
  on_release,
}
use ottodot_trial_booking_se.Queue.Memory.Leases.{IsKeyed}
use ottodot_trial_booking_se.Queue.Memory.{Queue, complete, release, released_of}
use ottodot_trial_booking_se.Prelude.{
  All, Bool-cases, List, Option, Time, [], add_time, insert, is_zero, lookup-insert_self, true, ◌∷◌,
  Option-cases, Text, ap, false, inl, inr, is_empty, lookup, lookup-insert, lookup-insert_ne, none,
  refl, some, some-injective, sym, text_cases, ◌∙◌, ◌≡◌,
}

-- The job with the identifier is gone, or nobody holds it.
abbrev pub IsFree : Queue → Text → Type 0
IsFree queue id = (held : Job) → lookup id queue ≡ some held → held.locked_until ≡ 0

release-IsFree :
    (queue : Queue) (request : ReleaseRequest) (id : Text)
    → IsKeyed queue
    → IsFree queue id
    → IsFree (release queue request).0 id
unfolding released_of
release-IsFree queue request id v f =
    on_release (λ q. IsFree q id) queue f request
      (λ held e row o. elim (text_cases held.id id) [
        | inl (t, same) ↦
            let found = lookup-insert held.id id (released_of held request) queue in
            let one : some (released_of held request) ≡ some row = sym (found ∙ rw t refl) ∙ o in
            ap (λ j. j.locked_until) (sym (some-injective _ _ one))
        | inr (t, away) ↦
            f row (sym (lookup-insert_ne held.id id (released_of held request) queue away) ∙ o)
      ])

complete-IsFree :
    (queue : Queue) (done id : Text)
    → IsKeyed queue
    → IsFree queue id
    → IsFree (complete queue done).0 id
complete-IsFree queue done id v f row o = elim (complete-outcome queue done id v) [
  | inl gone ↦ absurd cc
  | inr same ↦ f row (sym same ∙ o)
]

-- The two ends of a dispatch free the job itself.
release-frees :
    (queue : Queue) (request : ReleaseRequest)
    → IsKeyed queue
    → validate_release request ≡ none
    → IsFree (release queue request).0 request.job_id
unfolding release released_of
release-frees queue request v k = elim (Option-cases (lookup request.job_id queue)) [
  | inl e ↦ rw (k, e, release) (λ row o. absurd cc)
  | inr (held, e) ↦
      rw (k, e, release)
        (λ row o.
          let named = named-row queue request.job_id held v e in
          let stored : lookup request.job_id (insert held.id (released_of held request) queue)
              ≡ some (released_of held request) =
            rw⁻¹ named (lookup-insert_self held.id (released_of held request) queue) in
          let one : some (released_of held request) ≡ some row = sym stored ∙ o in
          ap (λ j. j.locked_until) (sym (some-injective _ _ one)))
]

complete-frees :
    (queue : Queue) (id : Text)
    → IsKeyed queue
    → is_empty id ≡ false
    → IsFree (complete queue id).0 id
unfolding complete
complete-frees queue id v n = elim (Option-cases (lookup id queue)) [
  | inl e ↦ rw (n, e, complete) (λ row o. absurd cc)
  | inr (held, e) ↦
      rw (n, e, complete) (λ row o. absurd (let gone = lookup-delete_self queue id v in cc))
]

-- A job whose end can be written: it has an identifier, and its retry an instant.
abbrev pub IsEndable : Settings → (Job → Time) → Job → Type 0
IsEndable settings clock job =
    (is_empty job.id ≡ false) × (is_zero (add_time (clock job) settings.retry_backoff) ≡ false)

module _ {S : Type 0} (settings : Settings) (handlers : Kind → Option (Handler S))
    (clock : Job → Time) where
  -- A predicate of both ends of a dispatch is one of every dispatch.
  on_dispatch :
      (P : Queue → Type 0) (queue : Queue) (state : S) (job : Job)
      → P (hand_back settings queue job (clock job))
      → P (complete queue job.id).0
      → P (dispatch settings handlers clock queue state job).0
  unfolding dispatch
  on_dispatch P queue state job back done = elim (Option-cases (handlers job.kind)) [
    | inl e ↦ rw (e, dispatch) back
    | inr (handler, e) ↦
        rw (e, dispatch)
          (elim (Bool-cases (fault_fires settings.fault job_error_point)) [
            | inl t ↦ rw (t, dispatch) back
            | inr t ↦
                rw (t, dispatch)
                  (elim (Option-cases (handler state job).1) [
                    | inr (cause, r) ↦ rw (r, dispatch) back
                    | inl r ↦ rw (r, dispatch) done
                  ])
          ])
  ]

  dispatch-IsKeyed :
      (queue : Queue) (state : S) (job : Job)
      → IsKeyed queue
      → IsKeyed (dispatch settings handlers clock queue state job).0
  unfolding hand_back step
  dispatch-IsKeyed queue state job v =
      on_dispatch IsKeyed queue state job (step-IsKeyed (λ p. true) queue (releases _) v)
        (step-IsKeyed (λ p. true) queue (completes job.id) v)

  dispatch-frees :
      (queue : Queue) (state : S) (job : Job)
      → IsKeyed queue
      → IsEndable settings clock job
      → IsFree (dispatch settings handlers clock queue state job).0 job.id
  unfolding hand_back validate_release
  dispatch-frees queue state job v end =
      on_dispatch (λ q. IsFree q job.id) queue state job
        (release-frees queue
          (record { job_id = job.id; run_after = add_time (clock job) settings.retry_backoff }) v
          (simp (end.0, end.1)))
        (complete-frees queue job.id v end.0)

  dispatch-IsFree :
      (queue : Queue) (state : S) (job : Job) (id : Text)
      → IsKeyed queue
      → IsFree queue id
      → IsFree (dispatch settings handlers clock queue state job).0 id
  unfolding hand_back
  dispatch-IsFree queue state job id v f =
      on_dispatch (λ q. IsFree q id) queue state job (release-IsFree queue _ id v f)
        (complete-IsFree queue job.id id v f)

  batch-IsFree :
      (queue : Queue) (state : S) (jobs : List Job) (id : Text)
      → IsKeyed queue
      → IsFree queue id
      → IsFree (dispatch_batch settings handlers clock queue state jobs).0 id
  unfolding dispatch_batch
  batch-IsFree queue state [] id v f = f
  batch-IsFree queue state (job ∷ jobs) id v f =
      batch-IsFree (dispatch settings handlers clock queue state job).0
        (dispatch settings handlers clock queue state job).1 jobs id
        (dispatch-IsKeyed queue state job v) (dispatch-IsFree queue state job id v f)

  -- After a batch was dispatched in order, each of its jobs is gone from the queue or held by
  -- nobody, whatever the handlers do and answer, and with or without the injected fault. The
  -- conditions: each job of the queue stands under its identifier, once, and each job of the batch
  -- has an identifier and an instant for its retry that is not the zero value.
  pub dispatch_batch_frees :
      (queue : Queue) (state : S) (jobs : List Job)
      → IsKeyed queue
      → All (IsEndable settings clock) jobs
      → All (λ job. IsFree (dispatch_batch settings handlers clock queue state jobs).0 job.id) jobs
  unfolding dispatch_batch
  dispatch_batch_frees queue state [] v h = tt
  dispatch_batch_frees queue state (job ∷ jobs) v h = (
    batch-IsFree (dispatch settings handlers clock queue state job).0
        (dispatch settings handlers clock queue state job).1 jobs job.id
        (dispatch-IsKeyed queue state job v) (dispatch-frees queue state job v h.0),
    dispatch_batch_frees (dispatch settings handlers clock queue state job).0
        (dispatch settings handlers clock queue state job).1 jobs
        (dispatch-IsKeyed queue state job v) h.1,
  )
