-- ===== src/Builder/WorkerBuildQueue/Lifecycle.antt =====
-- What becomes of a job.
use bazel_buildbarn.Prelude.{
  ℕ, ◌≤◌, ◌≡◌, refl, ap, ◌∙◌, inl, inr, List, Option, none, some, arith, get_elem?,
}
use bazel_buildbarn.Util.Status.{Result, Error, Result-cases}
use bazel_buildbarn.Util.Digest.{new_digest, get_key}
use bazel_buildbarn.Builder.WorkerBuildQueue.{
  ExecuteRequest, Stage, queued, executing, completed, Job, new_job, running, finished,
  WorkerBuildQueue, pop, less_in, execute, started, get_work, complete,
}
use bazel_buildbarn.Builder.WorkerBuildQueue.Heap.{pop-Popped, less_in-IsOrder}
use bazel_buildbarn.Builder.WorkerBuildQueue.Jobs.{found-append, found-set_self}
use bazel_buildbarn.Builder.WorkerBuildQueue.Invariant.{At, IsConsistent, after}
use bazel_buildbarn.Builder.WorkerBuildQueue.Progress.{
  Executed, enqueue-Executed, joined, refused, made, Step, executes, works, completes, Reach, here,
  next, Reach-IsConsistent,
}

abbrev pub rank : Stage → ℕ
rank queued = 0
rank executing = 1
rank completed = 2

-- What becomes of a job.
pub record Follows {R : Type 0} (job job' : Job R) : Type 0 where
  pub same_name : job'.name ≡ job.name
  pub same_key : job'.deduplication_key ≡ job.deduplication_key
  pub same_request : job'.request ≡ job.request
  pub same_order : job'.insertion_order ≡ job.insertion_order
  pub later : rank job.stage ≤ rank job'.stage
  pub settled : job.stage ≡ completed → job' ≡ job

module _ {R : Type 0} where
  unchanged : (job : Job R) → Follows job job
  unchanged job = record {
    same_name = refl;
    same_key = refl;
    same_request = refl;
    same_order = refl;
    later = omega arith;
    settled = λ s. refl;
  }

  Follows-Follows : (a b d : Job R) → Follows a b → Follows b d → Follows a d
  Follows-Follows a b d f g = record {
    same_name = g.same_name ∙ f.same_name;
    same_key = g.same_key ∙ f.same_key;
    same_request = g.same_request ∙ f.same_request;
    same_order = g.same_order ∙ f.same_order;
    later = let x = f.later in let y = g.later in omega arith;
    settled = λ s. let e = f.settled s in g.settled (ap (λ (x : Job R). x.stage) e ∙ s) ∙ e;
  }

  module _ (bq : WorkerBuildQueue R) (c : IsConsistent bq) (id : ℕ) (job : Job R)
      (at : At bq id job) where
    abbrev Becomes : WorkerBuildQueue R → Type 0
    Becomes bq' = (job' : Job R) × At bq' id job' × Follows job job'

    Executed-Becomes :
        (request : ExecuteRequest) (name key : List ℕ) {p : Result ℕ × WorkerBuildQueue R}
        → Executed bq request name key p
        → Becomes p.1
    Executed-Becomes request name key (joined i e) = (job, at, unchanged job)
    Executed-Becomes request name key (refused e full) = (job, at, unchanged job)
    Executed-Becomes request name key (made e room) =
        (job, found-append bq.jobs id job (new_job bq request name key) at, unchanged job)

    execute-Becomes :
        (request : ExecuteRequest) (name : List ℕ) → Becomes (execute bq request name).1
    unfolding execute
    execute-Becomes request name =
        elim (Result-cases (new_digest request.instance_name request.action_digest)) [
          | inl (digest, e) ↦ rw e (
              Executed-Becomes request name _
                (enqueue-Executed bq request name (get_key digest bq.key_format)))
          | inr (inl (x, e)) ↦ rw e (job, at, unchanged job)
          | inr (inr e) ↦ rw e (job, at, unchanged job)
        ]

    running-Becomes :
        (i : ℕ) (rest : List ℕ) (j : Job R)
        → At bq i j
        → j.stage ≡ queued
        → Becomes (running bq i rest (get_elem? bq.jobs i))
    unfolding running
    running-Becomes i rest j there q =
        let v : Job R = record j { stage = executing } in
        rw there (elim (after bq c i j there v id job at) [
          | inl (e, same) ↦ (
            v,
            rw e (found-set_self bq.jobs i j v there),
            record {
              same_name = rw same;
              same_key = rw same;
              same_request = rw same;
              same_order = rw same;
              later = rw (same, q) (omega arith);
              settled = λ s. absurd (let s' = rw same at s in cc);
            },
          )
          | inr a ↦ (job, a, unchanged job)
        ])

    finished-Becomes :
        (i : ℕ) (j : Job R) (response : R)
        → At bq i j
        → j.stage ≡ executing
        → Becomes (complete bq i response)
    unfolding complete finished
    finished-Becomes i j response there q =
        let v : Job R = record j { stage = completed; response = some response } in
        rw there (elim (after bq c i j there v id job at) [
          | inl (e, same) ↦ (
            v,
            rw e (found-set_self bq.jobs i j v there),
            record {
              same_name = rw same;
              same_key = rw same;
              same_request = rw same;
              same_order = rw same;
              later = rw (same, q) (omega arith);
              settled = λ s. absurd (let s' = rw same at s in cc);
            },
          )
          | inr a ↦ (job, a, unchanged job)
        ])

    get_work-Becomes : (ended : Option Error) → Becomes (get_work bq ended).1
    unfolding get_work started
    get_work-Becomes ended = go ended (pop (less_in bq.jobs) bq.pending) refl
      where
        go :
            (ended : Option Error) (first : Option (ℕ × List ℕ))
            → pop (less_in bq.jobs) bq.pending ≡ first
            → Becomes (started bq ended first).1
        go ended none e = (job, at, unchanged job)
        go (some x) (some first) e = (job, at, unchanged job)
        go none (some (i, rest)) e =
            let p = pop-Popped (less_in bq.jobs) (less_in-IsOrder bq.jobs) bq.pending i rest e in
            let (j, there, q) = c.pending_queued i p.taken in running-Becomes i rest j there q

  step-Becomes :
      {bq bq' : WorkerBuildQueue R} (c : IsConsistent bq) (id : ℕ) (job : Job R) (at : At bq id job)
      → Step bq bq'
      → Becomes bq c id job at bq'
  step-Becomes c id job at (executes request name fresh) =
      execute-Becomes _ c id job at request name
  step-Becomes c id job at (works ended) = get_work-Becomes _ c id job at ended
  step-Becomes c id job at (completes i j response there q) =
      finished-Becomes _ c id job at i j response there q

  -- A job is never lost: after any steps from a consistent queue it still has its name, its key, its
  -- request and its insertion order, its stage has only moved on, from queued to executing to completed,
  -- and a completed job is what it was, its response included.
  pub jobs_move_on :
      {start bq : WorkerBuildQueue R} (id : ℕ) (job : Job R)
      → IsConsistent start
      → At start id job
      → Reach start bq
      → (job' : Job R) × At bq id job' × Follows job job'
  jobs_move_on id job c at here = (job, at, unchanged job)
  jobs_move_on id job c at (next r s) =
      let (j, there, f) = jobs_move_on id job c at r in
      let (k, last, g) = step-Becomes (Reach-IsConsistent r c) id j there s in
      (k, last, Follows-Follows job j k f g)
