-- ===== src/Builder/WorkerBuildQueue/Service.antt =====
-- What clients and workers are promised.
use bazel_buildbarn.Prelude.{
  ℕ, ◌≡◌, ◌≢◌, refl, sym, ◌∙◌, inl, inr, List, Option, none, some, false, Bool-cases, get_elem?,
}
use bazel_buildbarn.Util.Status.{Error}
use bazel_buildbarn.Util.Digest.{KeyFormat}
use bazel_buildbarn.Builder.WorkerBuildQueue.{
  queued, executing, completed, Job, running, WorkerBuildQueue, new_worker_build_queue, working,
  pop, less_in, less_at, less, started, get_work,
}
use bazel_buildbarn.Builder.WorkerBuildQueue.Heap.{
  In, Popped, pop-Popped, less_in-IsOrder, less-asymmetric,
}
use bazel_buildbarn.Builder.WorkerBuildQueue.Jobs.{found-set_self}
use bazel_buildbarn.Builder.WorkerBuildQueue.Invariant.{At, IsConsistent}
use bazel_buildbarn.Builder.WorkerBuildQueue.Progress.{Reach, queue_stays-IsConsistent}

module _ {R : Type 0} where
  -- At any time at most one job with a given deduplication key is not completed.
  pub active_jobs_differ :
      (key_format : KeyFormat) (jobs_pending_max : ℕ) (bq : WorkerBuildQueue R) (a b : ℕ)
      (job other : Job R)
      → Reach (new_worker_build_queue key_format jobs_pending_max) bq
      → At bq a job
      → At bq b other
      → job.stage ≢ completed
      → other.stage ≢ completed
      → job.deduplication_key ≡ other.deduplication_key
      → a ≡ b
  active_jobs_differ key_format jobs_pending_max bq a b job other r ja ob sj so same =
      let c = queue_stays-IsConsistent key_format jobs_pending_max bq r in
      let mine = c.active_keyed a job ja sj in
      let theirs = c.active_keyed b other ob so in let both = rw same at mine in cc

  -- What holds when GetWork has taken a job.
  pub record Took (bq bq' : WorkerBuildQueue R) (id : ℕ) : Type 0 where
    pub job : Job R
    pub was_queued : At bq id job × (job.stage ≡ queued)
    pub now_executing : At bq' id (record job { stage = executing })
    pub no_longer_pending : In id bq'.pending → ⊥
    pub first :
        (other : ℕ) (its : Job R) → At bq other its → its.stage ≡ queued → less its job ≡ false

  less_found :
      (bq : WorkerBuildQueue R) (a b : ℕ) (job other : Job R)
      → At bq a job
      → At bq b other
      → less_in bq.jobs b a ≡ less other job
  unfolding less_in less_at
  less_found bq a b job other ja ob = rw (ja, ob)

  less-irreflexive : (job : Job R) → less job job ≡ false
  less-irreflexive job = elim (Bool-cases (less job job)) [
    | inl e ↦ less-asymmetric job job e
    | inr e ↦ e
  ]

  took :
      (bq : WorkerBuildQueue R) (id : ℕ) (rest : List ℕ)
      → IsConsistent bq
      → Popped (less_in bq.jobs) bq.pending id rest
      → Took bq (running bq id rest (get_elem? bq.jobs id)) id
  unfolding running
  took bq id rest c p =
      let (job, at, s) = c.pending_queued id p.taken in
      rw at (record {
        job = job;
        was_queued = (at, s);
        now_executing = found-set_self bq.jobs id job _ at;
        no_longer_pending = (p.distinct c.distinct).1;
        first = λ other its ob q. elim (p.nothing_lost other (c.queued_pending other its ob q)) [
          | inl e ↦
              let ob' = rw e at ob in let same : its ≡ job = cc in rw same (less-irreflexive job)
          | inr m ↦ sym (less_found bq id other job its at ob) ∙ p.least other m
        ];
      })

  -- In a consistent queue, a job that GetWork hands to a worker was queued, is now executing, and is no
  -- longer pending; and no queued job comes before it, by priority and then by insertion.
  pub get_work-Took :
      (bq bq' : WorkerBuildQueue R) (id : ℕ) (ended : Option Error)
      → IsConsistent bq
      → get_work bq ended ≡ (working id, bq')
      → Took bq bq' id
  unfolding get_work started
  get_work-Took bq bq' id ended c h = go ended (pop (less_in bq.jobs) bq.pending) refl h
    where
      go :
          (ended : Option Error) (first : Option (ℕ × List ℕ))
          → pop (less_in bq.jobs) bq.pending ≡ first
          → started bq ended first ≡ (working id, bq')
          → Took bq bq' id
      go ended none e h = absurd (cc)
      go (some x) (some first) e h = absurd (cc)
      go none (some (i, rest)) e h =
          let p = pop-Popped (less_in bq.jobs) (less_in-IsOrder bq.jobs) bq.pending i rest e in
          let at : id ≡ i = cc in
          let left : bq' ≡ running bq i rest (get_elem? bq.jobs i) = cc in
          rw (at, left) (took bq i rest c p)
