-- ===== src/Builder/WorkerBuildQueue/Progress.antt =====
-- Any sequence of the steps of clients and workers.
use bazel_buildbarn.Prelude.{
  ℕ, ◌<◌, ◌≤◌, ◌≡◌, refl, inl, inr, List, Option, none, some, leb, length, arith, Bool-cases,
  Option-cases,
}
use bazel_buildbarn.Util.Status.{Result, ok, err, Error, Result-cases, status, unavailable, text}
use bazel_buildbarn.Util.Digest.{KeyFormat, new_digest, get_key}
use bazel_buildbarn.Builder.WorkerBuildQueue.{
  ExecuteRequest, executing, Job, enqueued, running, finished, WorkerBuildQueue,
  new_worker_build_queue, pop, less_in, enqueue, execute, started, get_work, complete,
}
use bazel_buildbarn.Builder.WorkerBuildQueue.Heap.{pop-Popped, less_in-IsOrder}
use bazel_buildbarn.Builder.WorkerBuildQueue.Invariant.{
  At, IsConsistent, enqueued-IsConsistent, taken-IsConsistent, finished-IsConsistent,
}

module _ {R : Type 0} where
  -- What Execute of a request with a valid digest comes to: it joins the job that is not completed and
  -- has the same key, it is refused because too many jobs are pending, or it makes a new job.
  pub data Executed (bq : WorkerBuildQueue R) (request : ExecuteRequest) (name key : List ℕ)
      : Result ℕ × WorkerBuildQueue R → Type 0 where
    joined : (id : ℕ) → bq.by_key key ≡ some id → Executed bq request name key (ok id, bq)
    refused :
        bq.by_key key ≡ none
        → bq.jobs_pending_max ≤ length bq.pending
        → Executed bq request name key (err (status unavailable (text "Too many jobs pending")), bq)
    made :
        bq.by_key key ≡ none
        → length bq.pending < bq.jobs_pending_max
        → Executed bq request name key (ok (length bq.jobs), enqueued bq request name key)

  pub enqueue-Executed :
      (bq : WorkerBuildQueue R) (request : ExecuteRequest) (name key : List ℕ)
      → Executed bq request name key (enqueue bq request name key (bq.by_key key))
  unfolding enqueue
  enqueue-Executed bq request name key = elim (Option-cases (bq.by_key key)) [
    | inr (id, e) ↦ rw e (joined id e)
    | inl e ↦ elim (Bool-cases (leb bq.jobs_pending_max (length bq.pending))) [
      | inl full ↦ rw (e, full) (refused e (ground arith))
      | inr room ↦ rw (e, room) (made e (ground arith))
    ]
  ]

  pub execute-IsConsistent :
      (bq : WorkerBuildQueue R) (request : ExecuteRequest) (name : List ℕ)
      → IsConsistent bq
      → bq.by_name name ≡ none
      → IsConsistent (execute bq request name).1
  unfolding execute
  execute-IsConsistent bq request name c fresh =
      elim (Result-cases (new_digest request.instance_name request.action_digest)) [
        | inl (digest, e) ↦ rw e (
            outcome (get_key digest bq.key_format)
              (enqueue-Executed bq request name (get_key digest bq.key_format)))
        | inr (inl (x, e)) ↦ rw e c
        | inr (inr e) ↦ rw e c
      ]
    where
      outcome :
          (key : List ℕ) {p : Result ℕ × WorkerBuildQueue R}
          → Executed bq request name key p
          → IsConsistent p.1
      outcome key (joined id e) = c
      outcome key (refused e full) = c
      outcome key (made e room) = enqueued-IsConsistent bq c request name key fresh e room

  pub get_work-IsConsistent :
      (bq : WorkerBuildQueue R) (ended : Option Error)
      → IsConsistent bq
      → IsConsistent (get_work bq ended).1
  unfolding get_work started running
  get_work-IsConsistent bq ended c = go ended (pop (less_in bq.jobs) bq.pending) refl
    where
      go :
          (ended : Option Error) (first : Option (ℕ × List ℕ))
          → pop (less_in bq.jobs) bq.pending ≡ first
          → IsConsistent (started bq ended first).1
      go ended none e = c
      go (some x) (some first) e = c
      go none (some (id, rest)) e =
          let p = pop-Popped (less_in bq.jobs) (less_in-IsOrder bq.jobs) bq.pending id rest e in
          let (job, at, s) = c.pending_queued id p.taken in
          rw at (taken-IsConsistent bq c id job at rest s p)

  pub complete-IsConsistent :
      (bq : WorkerBuildQueue R) (id : ℕ) (job : Job R) (response : R)
      → IsConsistent bq
      → At bq id job
      → job.stage ≡ executing
      → IsConsistent (complete bq id response)
  unfolding complete finished
  complete-IsConsistent bq id job response c at s =
      rw at (finished-IsConsistent bq c id job at response s)

  -- One step: of Execute, with a name that no job has, which is what a random UUID is relied on for; of
  -- GetWork before a worker executes a job; or of GetWork after the job that it took has been executed.
  pub data Step (bq : WorkerBuildQueue R) : WorkerBuildQueue R → Type 0 where
    executes :
        (request : ExecuteRequest) (name : List ℕ)
        → bq.by_name name ≡ none
        → Step bq (execute bq request name).1
    works : (ended : Option Error) → Step bq (get_work bq ended).1
    completes :
        (id : ℕ) (job : Job R) (response : R)
        → At bq id job
        → job.stage ≡ executing
        → Step bq (complete bq id response)

  pub data Reach (start : WorkerBuildQueue R) : WorkerBuildQueue R → Type 0 where
    here : Reach start start
    next : {bq bq' : WorkerBuildQueue R} → Reach start bq → Step bq bq' → Reach start bq'

  pub Step-IsConsistent :
      {bq bq' : WorkerBuildQueue R} → Step bq bq' → IsConsistent bq → IsConsistent bq'
  Step-IsConsistent (executes request name fresh) c = execute-IsConsistent _ request name c fresh
  Step-IsConsistent (works ended) c = get_work-IsConsistent _ ended c
  Step-IsConsistent (completes id job response at s) c =
      complete-IsConsistent _ id job response c at s

  pub Reach-IsConsistent :
      {start bq : WorkerBuildQueue R} → Reach start bq → IsConsistent start → IsConsistent bq
  Reach-IsConsistent here c = c
  Reach-IsConsistent (next r s) c = Step-IsConsistent s (Reach-IsConsistent r c)

  pub new_worker_build_queue-IsConsistent :
      (key_format : KeyFormat) (jobs_pending_max : ℕ)
      → IsConsistent {R = R} (new_worker_build_queue key_format jobs_pending_max)
  new_worker_build_queue-IsConsistent key_format jobs_pending_max = record {
    pending_queued = λ id m. absurd m;
    queued_pending = λ id job at. absurd (cc);
    distinct = tt;
    bounded = omega arith;
    active_keyed = λ id job at. absurd (cc);
    keyed_active = λ key id h. absurd (cc);
    named = λ id job at. absurd (cc);
    responded = λ id job at. absurd (cc);
    ordered = λ id job at. absurd (cc);
    counted = refl;
  }

  -- After any steps of clients and workers from a new queue, in any order: the pending jobs are exactly
  -- the queued ones, once each and no more than the maximum; the deduplication map has for a key exactly
  -- the job with that key that is not completed; every job is found by its name; a job has a response
  -- exactly when it is completed; and insertion orders count the jobs, modulo 2 ^ 64.
  pub queue_stays-IsConsistent :
      (key_format : KeyFormat) (jobs_pending_max : ℕ) (bq : WorkerBuildQueue R)
      → Reach (new_worker_build_queue key_format jobs_pending_max) bq
      → IsConsistent bq
  queue_stays-IsConsistent key_format jobs_pending_max bq r =
      Reach-IsConsistent r (new_worker_build_queue-IsConsistent key_format jobs_pending_max)
