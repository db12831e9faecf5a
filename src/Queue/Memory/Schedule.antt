-- ===== src/Queue/Memory/Schedule.antt =====
-- Calls of the queue by any producers and workers, in the order of the mutex.
use ottodot_trial_booking_se.Queue.Model.{
  validate_enqueue, validate_release, ClaimRequest, EnqueueRequest, Job, ReleaseRequest,
}
use ottodot_trial_booking_se.Queue.Memory.Leases.{insert-IsKeyed, IsKeyed, claim-IsKeyed}
use ottodot_trial_booking_se.Queue.Memory.{
  written_of, Queue, claim, complete, enqueue, release, released_of,
}
use ottodot_trial_booking_se.Prelude.{
  All, ap, lookup-insert, subst, text_cases, ◌⊎◌, Bool-cases, Option-cases, delete-All,
  delete-Pairwise, inl, inr, insert, is_empty, lookup-All, lookup-insert_ne, none, sym, ◌∙◌, Bool,
  List, Text, [], arith, delete, lookup, refl, some, ◌∷◌, ◌≡◌, ◌≢◌,
}

pub data Call : Type 0 where
  enqueues : EnqueueRequest → Call
  claims : ClaimRequest → Call
  completes : Text → Call
  releases : ReleaseRequest → Call

module _ (is_object : Text → Bool) where
  unfoldable pub step : Queue → Call → Queue
  step queue (enqueues request) = (enqueue is_object queue request).0
  step queue (claims request) = (claim queue request).0
  step queue (completes id) = (complete queue id).0
  step queue (releases request) = (release queue request).0

  unfoldable pub run : Queue → List Call → Queue
  unfolding step
  run queue [] = queue
  run queue (call ∷ calls) = run (step queue call) calls

  -- The batches that the claims of a schedule hand out.
  unfoldable pub batches : Queue → List Call → List (List Job)
  unfolding step
  batches queue [] = []
  batches queue (claims request ∷ calls) =
      (claim queue request).1 ∷ batches (claim queue request).0 calls
  batches queue (call ∷ calls) = batches (step queue call) calls

-- The ways in which the writes of the map end.
module _ (P : Queue → Type 0) (queue : Queue) (kept : P queue) where
  on_enqueue :
      (is_object : Text → Bool) (request : EnqueueRequest)
      → (lookup request.job_id queue ≡ none → P (insert request.job_id (written_of request) queue))
      → P (enqueue is_object queue request).0
  unfolding enqueue
  on_enqueue is_object request writes = elim (Option-cases (validate_enqueue is_object request)) [
    | inr (err, k) ↦ rw (k, enqueue) kept
    | inl k ↦
        rw (k, enqueue)
          (elim (Option-cases (lookup request.job_id queue)) [
            | inr (found, e) ↦ rw (e, enqueue) kept
            | inl e ↦ rw (e, enqueue) (writes e)
          ])
  ]

  on_complete : (id : Text) → P (delete id queue) → P (complete queue id).0
  unfolding complete
  on_complete id removes = elim (Bool-cases (is_empty id)) [
    | inl t ↦ rw (t, complete) kept
    | inr t ↦
        rw (t, complete)
          (elim (Option-cases (lookup id queue)) [
            | inl e ↦ rw (e, complete) kept
            | inr (held, e) ↦ rw (e, complete) removes
          ])
  ]

  pub on_release :
      (request : ReleaseRequest)
      → ((held : Job)
          → lookup request.job_id queue ≡ some held
          → P (insert held.id (released_of held request) queue))
      → P (release queue request).0
  unfolding release
  on_release request writes = elim (Option-cases (validate_release request)) [
    | inr (err, k) ↦ rw (k, release) kept
    | inl k ↦
        rw (k, release)
          (elim (Option-cases (lookup request.job_id queue)) [
            | inl e ↦ rw (e, release) kept
            | inr (held, e) ↦ rw (e, release) (writes held e)
          ])
  ]

lookup-delete_ne : (k j : Text) (queue : Queue) → k ≢ j → lookup j (delete k queue) ≡ lookup j queue
unfolding lookup delete
lookup-delete_ne k j [] n = refl
lookup-delete_ne k j ((i, w) ∷ queue) n = ground (arith, lookup-delete_ne k j queue n)

-- A producer cannot replace a job.
pub enqueue-keeps :
    (is_object : Text → Bool) (queue : Queue) (request : EnqueueRequest) (id : Text) (job : Job)
    → lookup id queue ≡ some job
    → lookup id (enqueue is_object queue request).0 ≡ some job
enqueue-keeps is_object queue request id job e =
    on_enqueue (λ q. lookup id q ≡ some job) queue e is_object request
      (λ free.
        lookup-insert_ne request.job_id id (written_of request) queue
          (λ same. absurd (let at : lookup id queue ≡ none = rw⁻¹ same free in cc))
        ∙ e)

pub enqueue-other :
    (is_object : Text → Bool) (queue : Queue) (request : EnqueueRequest) (id : Text)
    → request.job_id ≢ id
    → lookup id (enqueue is_object queue request).0 ≡ lookup id queue
enqueue-other is_object queue request id n =
    on_enqueue (λ q. lookup id q ≡ lookup id queue) queue refl is_object request
      (λ free. lookup-insert_ne request.job_id id (written_of request) queue n)

pub complete-other :
    (queue : Queue) (done id : Text)
    → done ≢ id
    → lookup id (complete queue done).0 ≡ lookup id queue
complete-other queue done id n =
    on_complete (λ q. lookup id q ≡ lookup id queue) queue refl done
      (lookup-delete_ne done id queue n)

pub named-row :
    (queue : Queue) (id : Text) (job : Job)
    → IsKeyed queue
    → lookup id queue ≡ some job
    → job.id ≡ id
named-row queue id job v e = lookup-All (λ row. row.1.id ≡ row.0) id job queue v.named e

pub release-other :
    (queue : Queue) (request : ReleaseRequest) (id : Text)
    → IsKeyed queue
    → request.job_id ≢ id
    → lookup id (release queue request).0 ≡ lookup id queue
release-other queue request id v n =
    on_release (λ q. lookup id q ≡ lookup id queue) queue refl request
      (λ held e.
        lookup-insert_ne held.id id (released_of held request) queue
          (λ same. n (sym (named-row queue request.job_id held v e) ∙ same)))

delete-IsKeyed : (queue : Queue) (id : Text) → IsKeyed queue → IsKeyed (delete id queue)
delete-IsKeyed queue id v = record {
  named = delete-All (λ row. row.1.id ≡ row.0) id queue v.named;
  apart = delete-Pairwise (λ a b. a.0 ≢ b.0) id queue v.apart;
}

pub step-IsKeyed :
    (is_object : Text → Bool) (queue : Queue) (call : Call)
    → IsKeyed queue
    → IsKeyed (step is_object queue call)
unfolding step written_of released_of
step-IsKeyed is_object queue (enqueues request) v =
    on_enqueue IsKeyed queue v is_object request
      (λ free. insert-IsKeyed queue (written_of request) v)
step-IsKeyed is_object queue (claims request) v = claim-IsKeyed queue request v
step-IsKeyed is_object queue (completes id) v =
    on_complete IsKeyed queue v id (delete-IsKeyed queue id v)
step-IsKeyed is_object queue (releases request) v =
    on_release IsKeyed queue v request (λ held e. insert-IsKeyed queue (released_of held request) v)

unlisted : (queue : Queue) (id : Text) → All (λ row. id ≢ row.0) queue → lookup id queue ≡ none
unfolding lookup
unlisted [] id h = refl
unlisted ((key, entry) ∷ queue) id h = elim (text_cases key id) [
  | inl (t, same) ↦ absurd (h.0 (sym same))
  | inr (t, away) ↦ rw t (unlisted queue id h.1)
]

pub lookup-delete_self :
    (queue : Queue) (id : Text) → IsKeyed queue → lookup id (delete id queue) ≡ none
unfolding lookup delete
lookup-delete_self [] id v = refl
lookup-delete_self ((key, entry) ∷ queue) id v = elim (text_cases key id) [
  | inl (t, same) ↦
      rw t (unlisted queue id (subst (λ k. All (λ row. k ≢ row.0) queue) same v.apart.0))
  | inr (t, away) ↦
      rw (t, lookup-delete_self queue id (record { named = v.named.1; apart = v.apart.1 }))
        (rw t refl)
]

-- Completing a job removes it, and leaves the others.
pub complete-outcome :
    (queue : Queue) (done id : Text)
    → IsKeyed queue
    → (lookup id (complete queue done).0 ≡ none)
      ⊎ (lookup id (complete queue done).0 ≡ lookup id queue)
complete-outcome queue done id v =
    on_complete (λ q. (lookup id q ≡ none) ⊎ (lookup id q ≡ lookup id queue)) queue (inr refl) done
      (elim (text_cases done id) [
        | inl (t, same) ↦ inl (rw⁻¹ same (lookup-delete_self queue done v))
        | inr (t, away) ↦ inr (lookup-delete_ne done id queue away)
      ])

-- Releasing a job keeps the attempts that it spent.
pub release-attempts :
    (queue : Queue) (request : ReleaseRequest) (id : Text) (job : Job)
    → IsKeyed queue
    → lookup id queue ≡ some job
    → (after : Job) × (lookup id (release queue request).0 ≡ some after)
      × (after.attempts ≡ job.attempts)
unfolding released_of
release-attempts queue request id job v e =
    on_release (λ q. (after : Job) × (lookup id q ≡ some after) × (after.attempts ≡ job.attempts))
      queue (job, e, refl) request
      (λ held f. elim (text_cases held.id id) [
        | inl (t, same) ↦
            let named = named-row queue request.job_id held v f in
            let there : lookup id queue ≡ some held = rw⁻¹ (sym named ∙ same) f in
            let one : held ≡ job = cc in
            (
              released_of held request,
              lookup-insert held.id id (released_of held request) queue ∙ rw t refl,
              ap (λ j. j.attempts) one,
            )
        | inr (t, away) ↦
            (job, lookup-insert_ne held.id id (released_of held request) queue away ∙ e, refl)
      ])

pub release-absent :
    (queue : Queue) (request : ReleaseRequest) (id : Text)
    → IsKeyed queue
    → lookup id queue ≡ none
    → lookup id (release queue request).0 ≡ none
release-absent queue request id v e =
    on_release (λ q. lookup id q ≡ none) queue e request
      (λ held f.
        lookup-insert_ne held.id id (released_of held request) queue (λ same. absurd (
          let named = named-row queue request.job_id held v f in
          let there : lookup id queue ≡ some held = rw⁻¹ (sym named ∙ same) f in cc))
        ∙ e)
