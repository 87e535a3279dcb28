-- ===== src/Builder/WorkerBuildQueue/Invariant.antt =====
-- The queue stays consistent, whatever requests and workers do, and in whatever order.
use bazel_buildbarn.Prelude.{
  ℕ, ◌%◌, ◌^◌, ◌<◌, ◌≤◌, ◌≡◌, ◌≢◌, refl, sym, ap, ◌∙◌, ◌⊎◌, inl, inr, List, [], ◌∷◌, none, some,
  length, length-append, length-set, arith, Bool-cases, get_elem?, set, get_elem?-set_ne, ◌==◌,
}
use bazel_buildbarn.Builder.WorkerBuildQueue.{
  ExecuteRequest, queued, executing, completed, Job, new_job, enqueued, WorkerBuildQueue, less_in,
  remove,
}
use bazel_buildbarn.Builder.WorkerBuildQueue.Heap.{In, Distinct, In_eq, Popped}
use bazel_buildbarn.Builder.WorkerBuildQueue.Jobs.{
  found_below, found-append, found_last, append_inv, found-set_self, set_inv, insert_same,
  insert_inv, insert_keeps, remove_inv, remove_keeps,
}

abbrev pub At : {R : Type 0} → WorkerBuildQueue R → ℕ → Job R → Type 0
At bq id job = get_elem? bq.jobs id ≡ some job

-- A job has a response exactly when it is completed.
pub data IsAnswered {R : Type 0} (job : Job R) : Type 0 where
  open_ : job.stage ≢ completed → job.response ≡ none → IsAnswered job
  answered : (response : R) → job.stage ≡ completed → job.response ≡ some response → IsAnswered job

-- The pending jobs are exactly the queued ones, once each and no more than the maximum; every job that
-- is not completed is the one that the deduplication map has for its key, and that map has no others;
-- every job is found by its name; and a job's insertion order is its place in the list of all jobs.
pub record IsConsistent {R : Type 0} (bq : WorkerBuildQueue R) : Type 0 where
  pub pending_queued :
      (id : ℕ) → In id bq.pending → (job : Job R) × At bq id job × (job.stage ≡ queued)
  pub queued_pending : (id : ℕ) (job : Job R) → At bq id job → job.stage ≡ queued → In id bq.pending
  pub distinct : Distinct bq.pending
  pub bounded : length bq.pending ≤ bq.jobs_pending_max
  pub active_keyed :
      (id : ℕ) (job : Job R)
      → At bq id job
      → job.stage ≢ completed
      → bq.by_key job.deduplication_key ≡ some id
  pub keyed_active :
      (key : List ℕ) (id : ℕ)
      → bq.by_key key ≡ some id
      → (job : Job R) × At bq id job × (job.deduplication_key ≡ key) × (job.stage ≢ completed)
  pub named : (id : ℕ) (job : Job R) → At bq id job → bq.by_name job.name ≡ some id
  pub responded : (id : ℕ) (job : Job R) → At bq id job → IsAnswered job
  pub ordered : (id : ℕ) (job : Job R) → At bq id job → job.insertion_order ≡ id % 2 ^ 64
  pub counted : bq.next_insertion_order ≡ length bq.jobs % 2 ^ 64

unanswered :
    {R : Type 0} (job : Job R) → IsAnswered job → job.stage ≢ completed → job.response ≡ none
unanswered job (open_ q r) n = r
unanswered job (answered response q r) n = absurd (n q)

module _ {R : Type 0} (bq : WorkerBuildQueue R) (c : IsConsistent bq) where
  fresh_id : In (length bq.jobs) bq.pending → ⊥
  fresh_id m =
      let (job, at, s) = c.pending_queued (length bq.jobs) m in
      let low = found_below bq.jobs (length bq.jobs) job at in absurd (omega arith)

  pub enqueued-IsConsistent :
      (request : ExecuteRequest) (name key : List ℕ)
      → bq.by_name name ≡ none
      → bq.by_key key ≡ none
      → length bq.pending < bq.jobs_pending_max
      → IsConsistent (enqueued bq request name key)
  enqueued-IsConsistent request name key fresh_name fresh_key room =
      let new = new_job bq request name key in
      record {
        pending_queued = λ id m. elim m [
          | inl e ↦ (new, rw e (found_last bq.jobs new), refl)
          | inr m' ↦
              let (job, at, s) = c.pending_queued id m' in
              (job, found-append bq.jobs id job new at, s)
        ];
        queued_pending = λ id job at s. elim (append_inv bq.jobs id job new at) [
          | inl old ↦ inr (c.queued_pending id job old s)
          | inr (e, f) ↦ inl e
        ];
        distinct = (fresh_id, c.distinct);
        bounded = room;
        active_keyed = λ id job at s. elim (append_inv bq.jobs id job new at) [
          | inl old ↦
              insert_keeps key job.deduplication_key (length bq.jobs) id bq.by_key fresh_key
                (c.active_keyed id job old s)
          | inr (e, f) ↦ rw (f, e) (insert_same key (length bq.jobs) bq.by_key)
        ];
        keyed_active = λ k id h. elim (insert_inv key k (length bq.jobs) id bq.by_key h) [
          | inl (e, f) ↦ (new, rw f (found_last bq.jobs new), sym e, λ s. cc)
          | inr old ↦
              let (job, at, same, s) = c.keyed_active k id old in
              (job, found-append bq.jobs id job new at, same, s)
        ];
        named = λ id job at. elim (append_inv bq.jobs id job new at) [
          | inl old ↦
              insert_keeps name job.name (length bq.jobs) id bq.by_name fresh_name
                (c.named id job old)
          | inr (e, f) ↦ rw (f, e) (insert_same name (length bq.jobs) bq.by_name)
        ];
        responded = λ id job at. elim (append_inv bq.jobs id job new at) [
          | inl old ↦ c.responded id job old
          | inr (e, f) ↦ rw f (open_ (λ s. cc) refl)
        ];
        ordered = λ id job at. elim (append_inv bq.jobs id job new at) [
          | inl old ↦ c.ordered id job old
          | inr (e, f) ↦ rw (f, e) c.counted
        ];
        counted = let more = length-append bq.jobs (new ∷ []) in let n = c.counted in omega arith;
      }

  module _ (id : ℕ) (job : Job R) (at : At bq id job) where
    -- Another job stays what it is when this one changes.
    pub after :
        (v : Job R) (i : ℕ) (j : Job R)
        → At bq i j
        → ((i ≡ id) × (j ≡ job)) ⊎ (get_elem? (set bq.jobs id v) i ≡ some j)
    after v i j a = elim (Bool-cases (id == i)) [
      | inl e ↦ let same : i ≡ id = ground arith in let a' = rw same at a in inl (same, cc)
      | inr e ↦ let other : id ≢ i = ground arith in inr (get_elem?-set_ne bq.jobs v other ∙ a)
    ]

    abbrev pub running : Job R
    running = record job { stage = executing }

    abbrev pub taken : List ℕ → WorkerBuildQueue R
    taken rest = record bq { jobs = set bq.jobs id running; pending = rest }

    pub taken-IsConsistent :
        (rest : List ℕ)
        → job.stage ≡ queued
        → Popped (less_in bq.jobs) bq.pending id rest
        → IsConsistent (taken rest)
    taken-IsConsistent rest s p = record {
      pending_queued = λ i m.
          let (j, a, q) = c.pending_queued i (p.kept i m) in
          elim (after running i j a) [
            | inl (e, f) ↦ absurd ((p.distinct c.distinct).1 (In_eq rest (sym e) m))
            | inr a' ↦ (j, a', q)
          ];
      queued_pending = λ i j a q. elim (set_inv bq.jobs id i j running a) [
        | inl (e, f) ↦
            absurd (let wrong : executing ≡ queued = sym (ap (λ (x : Job R). x.stage) f) ∙ q in cc)
        | inr (ne, old) ↦ elim (p.nothing_lost i (c.queued_pending i j old q)) [
          | inl e ↦ absurd (ne e)
          | inr m ↦ m
        ]
      ];
      distinct = (p.distinct c.distinct).0;
      bounded = let b = c.bounded in let n = p.shorter in omega arith;
      active_keyed = λ i j a q. elim (set_inv bq.jobs id i j running a) [
        | inl (e, f) ↦ rw (f, e) (c.active_keyed id job at (λ q'. cc))
        | inr (ne, old) ↦ c.active_keyed i j old q
      ];
      keyed_active = λ k i h.
          let (j, a, same, q) = c.keyed_active k i h in
          elim (after running i j a) [
            | inl (e, f) ↦
                (running, rw e (found-set_self bq.jobs id job running at), rw f at same, λ q'. cc)
            | inr a' ↦ (j, a', same, q)
          ];
      named = λ i j a. elim (set_inv bq.jobs id i j running a) [
        | inl (e, f) ↦ rw (f, e) (c.named id job at)
        | inr (ne, old) ↦ c.named i j old
      ];
      responded = λ i j a. elim (set_inv bq.jobs id i j running a) [
        | inl (e, f) ↦ rw f (open_ (λ q. cc) (unanswered job (c.responded id job at) (λ q. cc)))
        | inr (ne, old) ↦ c.responded i j old
      ];
      ordered = λ i j a. elim (set_inv bq.jobs id i j running a) [
        | inl (e, f) ↦ rw (f, e) (c.ordered id job at)
        | inr (ne, old) ↦ c.ordered i j old
      ];
      counted = c.counted ∙ ap (λ n. n % 2 ^ 64) (sym (length-set bq.jobs id running));
    }

    abbrev pub finished : R → WorkerBuildQueue R
    finished response = record bq {
      jobs = set bq.jobs id (record job { stage = completed; response = some response });
      by_key = remove job.deduplication_key bq.by_key;
    }

    pub finished-IsConsistent :
        (response : R) → job.stage ≡ executing → IsConsistent (finished response)
    finished-IsConsistent response s =
        let v : Job R = record job { stage = completed; response = some response } in
        record {
          pending_queued = λ i m.
              let (j, a, q) = c.pending_queued i m in
              elim (after v i j a) [
                | inl (e, f) ↦ absurd (let same = ap (λ (x : Job R). x.stage) f in cc)
                | inr a' ↦ (j, a', q)
              ];
          queued_pending = λ i j a q. elim (set_inv bq.jobs id i j v a) [
            | inl (e, f) ↦
                absurd
                  (let wrong : completed ≡ queued = sym (ap (λ (x : Job R). x.stage) f) ∙ q in cc)
            | inr (ne, old) ↦ c.queued_pending i j old q
          ];
          distinct = c.distinct;
          bounded = c.bounded;
          active_keyed = λ i j a q. elim (set_inv bq.jobs id i j v a) [
            | inl (e, f) ↦ absurd (q (ap (λ (x : Job R). x.stage) f))
            | inr (ne, old) ↦
                remove_keeps job.deduplication_key j.deduplication_key i bq.by_key
                  (λ same. ne (only i j old q same)) (c.active_keyed i j old q)
          ];
          keyed_active = λ k i h.
              let (other, kept) = remove_inv job.deduplication_key k i bq.by_key h in
              let (j, a, same, q) = c.keyed_active k i kept in
              elim (after v i j a) [
                | inl (e, f) ↦ absurd (other (sym same ∙ ap (λ (x : Job R). x.deduplication_key) f))
                | inr a' ↦ (j, a', same, q)
              ];
          named = λ i j a. elim (set_inv bq.jobs id i j v a) [
            | inl (e, f) ↦ rw (f, e) (c.named id job at)
            | inr (ne, old) ↦ c.named i j old
          ];
          responded = λ i j a. elim (set_inv bq.jobs id i j v a) [
            | inl (e, f) ↦ rw f (answered response refl refl)
            | inr (ne, old) ↦ c.responded i j old
          ];
          ordered = λ i j a. elim (set_inv bq.jobs id i j v a) [
            | inl (e, f) ↦ rw (f, e) (c.ordered id job at)
            | inr (ne, old) ↦ c.ordered i j old
          ];
          counted = c.counted ∙ ap (λ n. n % 2 ^ 64) (sym (length-set bq.jobs id v));
        }
      where
        only :
            (i : ℕ) (j : Job R)
            → At bq i j
            → j.stage ≢ completed
            → j.deduplication_key ≡ job.deduplication_key
            → i ≡ id
        only i j a q same =
            let mine = c.active_keyed id job at (λ q'. cc) in
            let theirs = c.active_keyed i j a q in let both = rw same at theirs in cc
