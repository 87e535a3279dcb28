-- ===== src/Builder/DemultiplexingBuildQueue.antt =====
-- The dispatch of requests to build queues by instance name: pkg/builder/demultiplexing_build_queue.go.
-- A result is the backend, what it is called with, and the prefix that the operations that it sends get.
use bazel_buildbarn.Prelude.{
  ℕ, ◌≡◌, ◌≢◌, refl, ap, List, [], ◌∷◌, ◌++◌, Option, none, some, Bool, false, ◌||◌, ◌==◌,
  if◌then◌else◌, arith, Bool-cases, inl, inr, length, length-append, ◌∙◌,
}
use bazel_buildbarn.Util.Status.{
  Result, ok, err, fatal, Converter, status, invalid_argument, text, format, bytes, status_wrap,
  Result-cases,
}
use bazel_buildbarn.Builder.WorkerBuildQueue.{ExecuteRequest}

-- strings.ContainsRune of the pipe character
unfoldable pub contains_pipe : List ℕ → Bool
contains_pipe [] = false
contains_pipe (c ∷ cs) = c == b'|' || contains_pipe cs

-- strings.SplitN at the first pipe character, if there are two parts
unfoldable pub split_pipe : List ℕ → Option (List ℕ × List ℕ)
split_pipe [] = none
split_pipe (c ∷ cs) =
    let rest = split_pipe cs in
    if c == b'|'
    then some ([], cs)
    else elim rest [ none ↦ none | some (before, after) ↦ some (c ∷ before, after) ]

-- The name that operationNamePrepender sends.
abbrev pub prepend : List ℕ → List ℕ → List ℕ
prepend prefix name = prefix ++ b'|' ∷ name

module _ {B : Type 0} (convert : Converter) (build_queue_getter : List ℕ → Result B) where
  obtained {ℓ} : {A : Type ℓ} → List ℕ → (B → A) → Result B → Result A
  obtained instance_name call (ok backend) = ok (call backend)
  obtained instance_name call (err e) = err (
      status_wrap convert e
        (format "Failed to obtain backend for instance %#v" (bytes instance_name ∷ [])))
  obtained instance_name call fatal = fatal

  -- GetCapabilities, and Execute, which passes on the request and the instance name as the prefix
  unfoldable pub get_backend_of : List ℕ → Result B
  unfolding obtained
  get_backend_of instance_name =
      if contains_pipe instance_name
      then err (status invalid_argument (text "Instance name cannot contain a pipe character"))
      else obtained instance_name (λ backend. backend) (build_queue_getter instance_name)

  unfoldable pub execute : ExecuteRequest → Result (B × ExecuteRequest × List ℕ)
  unfolding obtained
  execute request =
      if contains_pipe request.instance_name
      then err (status invalid_argument (text "Instance name cannot contain a pipe character"))
      else obtained request.instance_name (λ backend. (backend, request, request.instance_name))
          (build_queue_getter request.instance_name)

  wait_target : List ℕ → Option (List ℕ × List ℕ) → Result (B × List ℕ × List ℕ)
  unfolding obtained
  wait_target name none =
      err (status invalid_argument (text "Unable to extract instance from operation name"))
  wait_target name (some (instance_name, rest)) =
      obtained instance_name (λ backend. (backend, name, rest)) (build_queue_getter instance_name)

  -- WaitExecution. The backend is called with the request as it came, not with the copy whose name has
  -- lost its prefix, and the prefix of its operations is that name.
  unfoldable pub wait_execution : List ℕ → Result (B × List ℕ × List ℕ)
  unfolding wait_target
  wait_execution name = wait_target name (split_pipe name)

  split_pipe-prepend :
      (instance_name name : List ℕ)
      → contains_pipe instance_name ≡ false
      → split_pipe (prepend instance_name name) ≡ some (instance_name, name)
  unfolding split_pipe contains_pipe
  split_pipe-prepend [] name h = refl
  split_pipe-prepend (c ∷ cs) name h =
      let head : (c == b'|') ≡ false = ground arith in
      let tail : contains_pipe cs ≡ false = ground arith in
      rw (head, split_pipe-prepend cs name tail)

  dispatched :
      (request : ExecuteRequest) (backend : B)
      → execute request ≡ ok (backend, request, request.instance_name)
      → (contains_pipe request.instance_name ≡ false)
        × (build_queue_getter request.instance_name ≡ ok backend)
  unfolding execute
  dispatched request backend h = elim (Bool-cases (contains_pipe request.instance_name)) [
    | inl e ↦ absurd (let h' = rw e at h in cc)
    | inr e ↦ elim (Result-cases (build_queue_getter request.instance_name)) [
      | inl (b, f) ↦ let h' = rw (e, f) at h in let same : b ≡ backend = cc in (e, f ∙ ap ok same)
      | inr (inl (x, f)) ↦ absurd (let h' = rw (e, f) at h in cc)
      | inr (inr f) ↦ absurd (let h' = rw (e, f) at h in cc)
    ]
  ]

  prepend_ne : (prefix name : List ℕ) → prepend prefix name ≢ name
  prepend_ne prefix name e =
      let longer = length-append prefix (b'|' ∷ name) in
      let same : length (prepend prefix name) ≡ length name = ap length e in absurd (omega arith)

  -- A client of which Execute has reached a backend, and which waits for an operation by the name that
  -- it was sent, reaches the same backend; but that is asked for the name with the prefix, which is not
  -- the one that it had sent, and the operations that it sends then get that name as their prefix.
  pub wait_execution_keeps_prefix :
      (request : ExecuteRequest) (backend : B) (name : List ℕ)
      → execute request ≡ ok (backend, request, request.instance_name)
      → (wait_execution (prepend request.instance_name name)
          ≡ ok (backend, prepend request.instance_name name, name))
        × (prepend request.instance_name name ≢ name)
  unfolding wait_execution
  wait_execution_keeps_prefix request backend name h =
      let (clean, found) = dispatched request backend h in
      (
        rw (split_pipe-prepend request.instance_name name clean, found),
        prepend_ne request.instance_name name,
      )
