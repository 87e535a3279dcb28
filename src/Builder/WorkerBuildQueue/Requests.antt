-- ===== src/Builder/WorkerBuildQueue/Requests.antt =====
-- What becomes of a request: the job that it joins or makes, and what the client hears of it.
use bazel_buildbarn.Prelude.{
  ℕ, ◌+◌, ◌<◌, ◌≤◌, ◌≡◌, ◌≢◌, refl, ap, sym, ◌∙◌, ◌⊎◌, inl, inr, List, [], ◌∷◌, ◌++◌, Option, none,
  some, length, length-append,
}
use bazel_buildbarn.Util.Status.{Result, ok, err, Error, status, unavailable, text}
use bazel_buildbarn.Util.Digest.{Digest, new_digest, get_key}
use bazel_buildbarn.Builder.WorkerBuildQueue.{
  ExecuteRequest, Stage, queued, executing, completed, Job, new_job, enqueued, WorkerBuildQueue,
  execute, finished, complete, Operation, report, watch,
}
use bazel_buildbarn.Builder.WorkerBuildQueue.Heap.{In}
use bazel_buildbarn.Builder.WorkerBuildQueue.Jobs.{
  found-append, found_last, found-set_self, insert_same,
}
use bazel_buildbarn.Builder.WorkerBuildQueue.Invariant.{At, IsConsistent}
use bazel_buildbarn.Builder.WorkerBuildQueue.Progress.{
  Executed, joined, refused, made, enqueue-Executed,
}

completed-cases : {R : Type 0} (job : Job R) → (job.stage ≡ completed) ⊎ (job.stage ≢ completed)
completed-cases job = stages job.stage
  where
    stages : (s : Stage) → (s ≡ completed) ⊎ (s ≢ completed)
    stages queued = inr (λ h. cc)
    stages executing = inr (λ h. cc)
    stages completed = inl refl

module _ {R : Type 0} where
  -- The second queue is the first with one more job, which waits for a worker.
  pub record Added (bq bq' : WorkerBuildQueue R) (request : ExecuteRequest) (name key : List ℕ)
      : Type 0 where
    pub job : Job R
    pub at : At bq' (length bq.jobs) job
    pub its_name : job.name ≡ name
    pub its_key : job.deduplication_key ≡ key
    pub its_request : job.request ≡ request
    pub its_order : job.insertion_order ≡ bq.next_insertion_order
    pub is_queued : job.stage ≡ queued
    pub unanswered : job.response ≡ none
    pub one_more : length bq'.jobs ≡ length bq.jobs + 1
    pub others : (id : ℕ) (other : Job R) → At bq id other → At bq' id other
    pub waits : In (length bq.jobs) bq'.pending
    pub still_wait : (id : ℕ) → In id bq.pending → In id bq'.pending
    pub only_waits : (id : ℕ) → In id bq'.pending → (id ≡ length bq.jobs) ⊎ In id bq.pending
    pub found : bq'.by_name name ≡ some (length bq.jobs)
    pub deduplicated : bq'.by_key key ≡ some (length bq.jobs)

  -- Every job with the key is completed.
  abbrev pub NoneActive : WorkerBuildQueue R → List ℕ → Type 0
  NoneActive bq key =
      (id : ℕ) (job : Job R) → At bq id job → job.deduplication_key ≡ key → job.stage ≡ completed

  -- What Execute of a request with the key comes to.
  pub data Served (bq : WorkerBuildQueue R) (request : ExecuteRequest) (name key : List ℕ)
      : Result ℕ × WorkerBuildQueue R → Type 0 where
    joins :
        (id : ℕ) (job : Job R)
        → At bq id job
        → job.deduplication_key ≡ key
        → job.stage ≢ completed
        → Served bq request name key (ok id, bq)
    rejects :
        NoneActive bq key
        → bq.jobs_pending_max ≤ length bq.pending
        → Served bq request name key (err (status unavailable (text "Too many jobs pending")), bq)
    makes :
        (bq' : WorkerBuildQueue R)
        → NoneActive bq key
        → length bq.pending < bq.jobs_pending_max
        → Added bq bq' request name key
        → Served bq request name key (ok (length bq.jobs), bq')

  enqueued-Added :
      (bq : WorkerBuildQueue R) (request : ExecuteRequest) (name key : List ℕ)
      → Added bq (enqueued bq request name key) request name key
  enqueued-Added bq request name key =
      let new = new_job bq request name key in
      record {
        job = new;
        at = found_last bq.jobs new;
        its_name = refl;
        its_key = refl;
        its_request = refl;
        its_order = refl;
        is_queued = refl;
        unanswered = refl;
        one_more = length-append bq.jobs (new ∷ []);
        others = λ id other at. found-append bq.jobs id other new at;
        waits = inl refl;
        still_wait = λ id m. inr m;
        only_waits = λ id m. m;
        found = insert_same name (length bq.jobs) bq.by_name;
        deduplicated = insert_same key (length bq.jobs) bq.by_key;
      }

  free-NoneActive :
      (bq : WorkerBuildQueue R) (key : List ℕ)
      → IsConsistent bq
      → bq.by_key key ≡ none
      → NoneActive bq key
  free-NoneActive bq key c free id job at same = elim (completed-cases job) [
    | inl done ↦ done
    | inr n ↦ absurd (let active = rw same at (c.active_keyed id job at n) in cc)
  ]

  served :
      (bq : WorkerBuildQueue R) (request : ExecuteRequest) (name key : List ℕ)
      {p : Result ℕ × WorkerBuildQueue R}
      → IsConsistent bq
      → Executed bq request name key p
      → Served bq request name key p
  served bq request name key c (joined id e) =
      let (job, at, same, active) = c.keyed_active key id e in joins id job at same active
  served bq request name key c (refused e full) = rejects (free-NoneActive bq key c e) full
  served bq request name key c (made e room) =
      makes (enqueued bq request name key) (free-NoneActive bq key c e) room
        (enqueued-Added bq request name key)

  -- Execute of a request with a valid digest, in a consistent queue. If a job with the same
  -- deduplication key is not completed, Execute returns it, and changes nothing. Otherwise, if as many
  -- jobs are pending as may be, it is refused with UNAVAILABLE, and changes nothing. Otherwise it makes a
  -- job with the request, its key, the new name and the next insertion order, which is queued, has no
  -- response, and is pending besides those that were; all other jobs are kept, and the new one is found
  -- by its name and by its key.
  pub execute-Served :
      (bq : WorkerBuildQueue R) (request : ExecuteRequest) (name : List ℕ) (digest : Digest)
      → IsConsistent bq
      → new_digest request.instance_name request.action_digest ≡ ok digest
      → Served bq request name (get_key digest bq.key_format) (execute bq request name)
  unfolding execute
  execute-Served bq request name digest c e =
      let key = get_key digest bq.key_format in
      rw e (served bq request name key c (enqueue-Executed bq request name key))

  -- The operation tells the state of the job.
  pub record Tells (job : Job R) (operation : Operation R) : Type 0 where
    pub name : operation.name ≡ job.name
    pub stage : operation.stage ≡ job.stage
    pub action : operation.action_digest ≡ job.request.action_digest
    pub response : operation.response ≡ job.response

  -- The operations tell the states one by one.
  abbrev pub AllTell : List (Job R) → List (Operation R) → Type 0
  AllTell [] [] = Unit
  AllTell (job ∷ jobs) (operation ∷ operations) = Tells job operation × AllTell jobs operations
  AllTell _ _ = ⊥

  -- No job of the list has a response yet.
  abbrev pub AllOpen : List (Job R) → Type 0
  AllOpen [] = Unit
  AllOpen (job ∷ jobs) = (job.response ≡ none) × AllOpen jobs

  report-Tells : (job : Job R) → Tells job (report job)
  report-Tells job = record { name = refl; stage = refl; action = refl; response = refl }

  watch_lem :
      (send : Operation R → Option Error) (before woken : List (Job R)) (job : Job R) (response : R)
      → ((operation : Operation R) → send operation ≡ none)
      → AllOpen before
      → job.response ≡ some response
      → (operations : List (Operation R)) × AllTell before operations
        × (watch send (before ++ job ∷ woken) ≡ (operations ++ report job ∷ [], some none))
  unfolding watch
  watch_lem send [] woken job response sends open_ done =
      ([], tt, rw (sends (report job), done) refl)
  watch_lem send (first ∷ before) woken job response sends open_ done =
      let (operations, tell, rest) = watch_lem send before woken job response sends open_.1 done in
      (
        report first ∷ operations,
        (report-Tells first, tell),
        rw (sends (report first), open_.0, rest) refl,
      )

  completed_at :
      (bq : WorkerBuildQueue R) (id : ℕ) (job last : Job R) (response : R)
      → At bq id job
      → At (complete bq id response) id last
      → last ≡ record job { stage = completed; response = some response }
  unfolding complete finished
  completed_at bq id job last response at after =
      let now = rw at at after in
      let set_ =
        found-set_self bq.jobs id job (record job { stage = completed; response = some response })
          at in
      let same : some last ≡ some (record job { stage = completed; response = some response }) =
        sym now ∙ set_ in
      cc

  -- A client that can be sent to hears of every state of its job, and of its end. While the job has no
  -- response, each state that the call sees, when it starts or wakes up, is sent as an operation with the
  -- name, the stage and the action of the job; once the worker has completed the job, the call sends an
  -- operation with the stage COMPLETED and the response that the worker gave, and returns without an
  -- error, whatever happens later.
  pub watch_until_response :
      (send : Operation R → Option Error) (bq : WorkerBuildQueue R) (id : ℕ) (job last : Job R)
      (response : R) (before woken : List (Job R))
      → ((operation : Operation R) → send operation ≡ none)
      → At bq id job
      → AllOpen before
      → At (complete bq id response) id last
      → (operations : List (Operation R)) × (final : Operation R) × (watch send
            (before ++ last ∷ woken)
          ≡ (operations ++ final ∷ [], some none))
        × AllTell before operations
        × (final.name ≡ job.name)
        × (final.stage ≡ completed)
        × (final.action_digest ≡ job.request.action_digest)
        × (final.response ≡ some response)
  watch_until_response send bq id job last response before woken sends at open_ after =
      let same = completed_at bq id job last response at after in
      let (operations, tell, sent) =
        watch_lem send before woken last response sends open_ (ap (λ j. j.response) same) in
      (
        operations,
        report last,
        sent,
        tell,
        ap (λ j. j.name) same,
        ap (λ j. j.stage) same,
        ap (λ j. j.request.action_digest) same,
        ap (λ j. j.response) same,
      )
