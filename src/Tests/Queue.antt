-- ===== src/Tests/Queue.antt =====
-- pkg/builder/worker_build_queue.go
use bazel_buildbarn.Prelude.{ℕ, ◌≡◌, ◌≢◌, refl, ap, List, [], ◌∷◌, ◌++◌, none, some}
use bazel_buildbarn.Util.Status.{Result, ok}
use bazel_buildbarn.Util.Digest.{without_instance, new_digest, find_non_hex, get_key}
use bazel_buildbarn.Builder.WorkerBuildQueue.{
  ExecuteRequest, executing, completed, complete, Operation, Job, new_job, enqueued,
  WorkerBuildQueue, new_worker_build_queue, working, pop, execute, get_work, watch,
}
use bazel_buildbarn.Builder.WorkerBuildQueue.Invariant.{At, IsConsistent}
use bazel_buildbarn.Builder.WorkerBuildQueue.Progress.{Step, Reach, queue_stays-IsConsistent}
use bazel_buildbarn.Builder.WorkerBuildQueue.Service.{Took, get_work-Took}
use bazel_buildbarn.Builder.WorkerBuildQueue.Requests.{
  Served, execute-Served, AllTell, watch_until_response,
}
use bazel_buildbarn.Builder.WorkerBuildQueue.Lifecycle.{Follows, jobs_move_on}
use bazel_buildbarn.Builder.DemultiplexingBuildQueue as Demultiplexing
use bazel_buildbarn.Builder.DemultiplexingBuildQueue.{
  contains_pipe, prepend, wait_execution, wait_execution_keeps_prefix,
}
use bazel_buildbarn.Tests.Data.{hello, convert}

abbrev request : ExecuteRequest
request = record {
  instance_name = b'x' ∷ [];
  action_digest = some hello.partial_digest;
  policy_priority = none;
}

abbrev empty : WorkerBuildQueue ℕ
empty = new_worker_build_queue without_instance 1

abbrev name : List ℕ
name = b'n' ∷ []

abbrev key : List ℕ
key = get_key hello without_instance

-- The queue with one job.
abbrev one : WorkerBuildQueue ℕ
one = enqueued empty request name key

abbrev job : Job ℕ
job = new_job empty request name key

accepted : new_digest (b'x' ∷ []) (some hello.partial_digest) ≡ ok hello
unfolding new_digest find_non_hex
accepted = refl

execute_first : execute empty request name ≡ (ok 0, one)
unfolding execute
execute_first = rw accepted refl

one_reached : Reach empty one
one_reached =
    rw (← ap (λ (p : Result ℕ × WorkerBuildQueue ℕ). p.1) execute_first)
      (Reach.next Reach.here (Step.executes request name refl))

queue_stays-IsConsistent_example : IsConsistent one
queue_stays-IsConsistent_example = queue_stays-IsConsistent without_instance 1 one one_reached

execute-Served_example : Served empty request name key (execute empty request name)
execute-Served_example =
    execute-Served empty request name hello
      (queue_stays-IsConsistent without_instance 1 empty Reach.here) accepted

abbrev busy : WorkerBuildQueue ℕ
busy = (get_work one none).1

took_first : get_work one none ≡ (working 0, busy)
unfolding get_work pop
took_first = refl

get_work-Took_example : Took one busy 0
get_work-Took_example = get_work-Took one busy 0 none queue_stays-IsConsistent_example took_first

jobs_move_on_example : (job' : Job ℕ) × At busy 0 job' × Follows job job'
jobs_move_on_example =
    jobs_move_on 0 job queue_stays-IsConsistent_example refl
      (Reach.next Reach.here (Step.works none))

abbrev answered : Job ℕ
answered = record job { stage = completed; response = some 7 }

-- The worker completes the job that it has taken.
answered_at : At (complete busy 0 7) 0 answered
unfolding complete get_work pop
answered_at = refl

watch_until_response_example :
    (operations : List (Operation ℕ)) × (final : Operation ℕ) × (watch
        (λ operation. none)
        (job ∷ answered ∷ [])
      ≡ (operations ++ final ∷ [], some none))
    × AllTell (job ∷ []) operations
    × (final.name ≡ name)
    × (final.stage ≡ completed)
    × (final.action_digest ≡ some hello.partial_digest)
    × (final.response ≡ some 7)
unfolding get_work pop
watch_until_response_example =
    watch_until_response (λ operation. none) busy 0 (record job { stage = executing }) answered 7
      (job ∷ []) [] (λ operation. refl) refl (refl, tt) answered_at

-- One backend, for every instance.
abbrev only : List ℕ → Result ℕ
only instance_name = ok 3

dispatched : Demultiplexing.execute convert only request ≡ ok (3, request, b'x' ∷ [])
unfolding Demultiplexing.execute contains_pipe
dispatched = refl

wait_execution_keeps_prefix_example :
    (wait_execution convert only (prepend (b'x' ∷ []) name)
      ≡ ok (3, prepend (b'x' ∷ []) name, name))
    × (prepend (b'x' ∷ []) name ≢ name)
wait_execution_keeps_prefix_example =
    wait_execution_keeps_prefix convert only request 3 name dispatched
