-- ===== src/Builder/WorkerBuildQueue.antt =====
-- The scheduler's queue: pkg/builder/worker_build_queue.go. Its operations hold one lock but for the two
-- places where they wait, so that each part in between is one step. Jobs are shared by pointers: they
-- stand in a list, and a pointer is an index into it. The maps are functions.
pub mod Heap
pub mod Jobs
pub mod Invariant
pub mod Progress
pub mod Lifecycle
pub mod Service
pub mod Requests
use bazel_buildbarn.Prelude.{
  ℕ, zero, suc, ◌+◌, ◌%◌, ◌^◌, List, [], ◌∷◌, ◌++◌, Option, none, some, Bool, true, false, ◌&&◌,
  ◌||◌, leb, ltb, ◌==◌, if◌then◌else◌, length, get_elem?, set,
}
use bazel_buildbarn.Util.Status.{
  Result, ok, err, fatal, Error, status, unavailable, not_found, text, format, bytes, ◌>>=◌,
}
use bazel_buildbarn.Util.Digest.{Digest, PartialDigest, KeyFormat, new_digest, get_key}
use bazel_buildbarn.Circular.Record.{bytes_equal}

-- remoteexecution.ExecuteRequest; the priority is that of the execution policy, if it has one.
pub record ExecuteRequest : Type 0 where
  pub instance_name : List ℕ
  pub action_digest : Option PartialDigest
  pub policy_priority : Option ℕ

-- The stages of ExecuteOperationMetadata that the queue uses.
pub data Stage : Type 0 where
  queued executing completed : Stage

-- workerBuildJob; `R` is remoteexecution.ExecuteResponse
pub record Job (R : Type 0) : Type 0 where
  pub name : List ℕ
  pub deduplication_key : List ℕ
  pub request : ExecuteRequest
  pub insertion_order : ℕ
  pub stage : Stage
  pub response : Option R

pub record WorkerBuildQueue (R : Type 0) : Type 0 where
  pub key_format : KeyFormat
  pub jobs_pending_max : ℕ
  pub next_insertion_order : ℕ
  pub jobs : List (Job R)
  pub by_name : List ℕ → Option ℕ
  pub by_key : List ℕ → Option ℕ
  pub pending : List ℕ

abbrev pub new_worker_build_queue : {R : Type 0} → KeyFormat → ℕ → WorkerBuildQueue R
new_worker_build_queue key_format jobs_pending_max = record {
  key_format = key_format;
  jobs_pending_max = jobs_pending_max;
  next_insertion_order = 0;
  jobs = [];
  by_name = λ name. none;
  by_key = λ key. none;
  pending = [];
}

abbrev pub insert : List ℕ → ℕ → (List ℕ → Option ℕ) → List ℕ → Option ℕ
insert key id m k = if bytes_equal k key then some id else m k

abbrev pub remove : List ℕ → (List ℕ → Option ℕ) → List ℕ → Option ℕ
remove key m k = if bytes_equal k key then none else m k

-- `int32` values as 32-bit patterns, in their order
unfoldable pub priority_below : ℕ → ℕ → Bool
priority_below a b = ltb ((a + 2 ^ 31) % 2 ^ 32) ((b + 2 ^ 31) % 2 ^ 32)

abbrev pub priority : {R : Type 0} → Job R → ℕ
priority job = elim job.request.policy_priority [ none ↦ 0 | some p ↦ p % 2 ^ 32 ]

-- Less
unfoldable pub less : {R : Type 0} → Job R → Job R → Bool
less i j =
    priority_below (priority i) (priority j)
    || priority i == priority j && ltb i.insertion_order j.insertion_order

-- A missing job comes last; there is none.
less_at : {R : Type 0} → Option (Job R) → Option (Job R) → Bool
less_at (some i) (some j) = less i j
less_at (some i) none = true
less_at none j = false

unfoldable pub less_in : {R : Type 0} → List (Job R) → ℕ → ℕ → Bool
unfolding less_at
less_in jobs i j = less_at (get_elem? jobs i) (get_elem? jobs j)

-- The pending jobs, of which container/heap documents that Pop removes the least by Less. The order of
-- its array shows in nothing else.
keep_least : (ℕ → ℕ → Bool) → ℕ → Option (ℕ × List ℕ) → Option (ℕ × List ℕ)
keep_least less x none = some (x, [])
keep_least less x (some (y, rest)) = if less y x then some (y, x ∷ rest) else some (x, y ∷ rest)

unfoldable pub pop : (ℕ → ℕ → Bool) → List ℕ → Option (ℕ × List ℕ)
unfolding keep_least
pop less [] = none
pop less (x ∷ xs) = keep_least less x (pop less xs)

named : List ℕ → Option ℕ → Result ℕ
named name none =
    err (status not_found (format "Build job with name %s not found" (bytes name ∷ [])))
named name (some id) = ok id

-- What GetWork comes to when it wakes up: nothing is pending, the worker's stream has ended with an
-- error, or there is a job to execute.
pub data Work : Type 0 where
  waiting : Work
  closed : Error → Work
  working : ℕ → Work

module _ {R : Type 0} (bq : WorkerBuildQueue R) (request : ExecuteRequest) (name key : List ℕ) where
  -- The job that Execute makes.
  abbrev pub new_job : Job R
  new_job = record {
    name = name;
    deduplication_key = key;
    request = request;
    insertion_order = bq.next_insertion_order;
    stage = queued;
    response = none;
  }

  -- The queue with the new job.
  abbrev pub enqueued : WorkerBuildQueue R
  enqueued = record bq {
    next_insertion_order = (bq.next_insertion_order + 1) % 2 ^ 64;
    jobs = bq.jobs ++ new_job ∷ [];
    by_name = insert name (length bq.jobs) bq.by_name;
    by_key = insert key (length bq.jobs) bq.by_key;
    pending = length bq.jobs ∷ bq.pending;
  }

module _ {R : Type 0} where
  pub enqueue :
      WorkerBuildQueue R
      → ExecuteRequest
      → List ℕ
      → List ℕ
      → Option ℕ
      → Result ℕ × WorkerBuildQueue R
  enqueue bq request name key (some id) = (ok id, bq)
  enqueue bq request name key none =
      if leb bq.jobs_pending_max (length bq.pending)
      then (err (status unavailable (text "Too many jobs pending")), bq)
      else (ok (length bq.jobs), enqueued bq request name key)

  execute_digest :
      WorkerBuildQueue R → ExecuteRequest → List ℕ → Result Digest → Result ℕ × WorkerBuildQueue R
  unfolding enqueue
  execute_digest bq request name (ok digest) =
      let key = get_key digest bq.key_format in enqueue bq request name key (bq.by_key key)
  execute_digest bq request name (err e) = (err e, bq)
  execute_digest bq request name fatal = (fatal, bq)

  -- Execute, up to the call of waitExecution: the job that it waits for. `name` is the new UUID.
  unfoldable pub execute :
      WorkerBuildQueue R → ExecuteRequest → List ℕ → Result ℕ × WorkerBuildQueue R
  unfolding execute_digest
  execute bq request name =
      execute_digest bq request name (new_digest request.instance_name request.action_digest)

  -- WaitExecution, up to the call of waitExecution
  unfoldable pub wait_execution : WorkerBuildQueue R → List ℕ → Result ℕ
  unfolding named
  wait_execution bq name = named name (bq.by_name name)

  running : WorkerBuildQueue R → ℕ → List ℕ → Option (Job R) → WorkerBuildQueue R
  running bq id rest none = record bq { pending = rest }
  running bq id rest (some job) = record bq {
    pending = rest;
    jobs = set bq.jobs id (record job { stage = executing });
  }

  started : WorkerBuildQueue R → Option Error → Option (ℕ × List ℕ) → Work × WorkerBuildQueue R
  unfolding running
  started bq ended none = (waiting, bq)
  started bq (some e) (some _) = (closed e, bq)
  started bq none (some (id, rest)) = (working id, running bq id rest (get_elem? bq.jobs id))

  -- GetWork, from a wakeup to the call of executeOnWorker; `ended` is the error of the stream's context.
  unfoldable pub get_work : WorkerBuildQueue R → Option Error → Work × WorkerBuildQueue R
  unfolding started
  get_work bq ended = started bq ended (pop (less_in bq.jobs) bq.pending)

  finished : WorkerBuildQueue R → ℕ → R → Option (Job R) → WorkerBuildQueue R
  finished bq id response none = bq
  finished bq id response (some job) = record bq {
    jobs = set bq.jobs id (record job { stage = completed; response = some response });
    by_key = remove job.deduplication_key bq.by_key;
  }

  -- GetWork, after executeOnWorker has returned.
  unfoldable pub complete : WorkerBuildQueue R → ℕ → R → WorkerBuildQueue R
  unfolding finished
  complete bq id response = finished bq id response (get_elem? bq.jobs id)

-- longrunning.Operation with its ExecuteOperationMetadata; it is done when it has a response.
pub record Operation (R : Type 0) : Type 0 where
  pub name : List ℕ
  pub stage : Stage
  pub action_digest : Option PartialDigest
  pub response : Option R

abbrev pub report : {R : Type 0} → Job R → Operation R
report job = record {
  name = job.name;
  stage = job.stage;
  action_digest = job.request.action_digest;
  response = job.response;
}

module _ {R : Type 0} (send : Operation R → Option Error) where
  sent :
      Operation R
      → Option Error
      → Option R
      → List (Operation R) × Option (Option Error)
      → List (Operation R) × Option (Option Error)
  sent operation (some e) response later = (operation ∷ [], some (some e))
  sent operation none (some response) later = (operation ∷ [], some none)
  sent operation none none (operations, returned) = (operation ∷ operations, returned)

  -- waitExecution, over the states of its job when it starts and at each wakeup: what it sends, and the
  -- error, if any, that it returns, unless it waits again.
  unfoldable pub watch : List (Job R) → List (Operation R) × Option (Option Error)
  unfolding sent
  watch [] = ([], none)
  watch (job ∷ woken) = sent (report job) (send (report job)) job.response (watch woken)
