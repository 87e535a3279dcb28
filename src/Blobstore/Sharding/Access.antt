-- ===== src/Blobstore/Sharding/Access.antt =====
-- The operations of pkg/blobstore/sharding/sharding_blob_access.go on the backends, each of which is
-- known by its index. `backend_of` is getBackend, and `states` are the states of the backends.
use bazel_buildbarn.Prelude.{
  ℕ, List, [], ◌∷◌, ◌++◌, Option, none, some, Bool, true, false, ◌==◌, if◌then◌else◌, filter,
}
use bazel_buildbarn.Util.Status.{Result, ok, err, fatal, Error, ◌>>=◌}
use bazel_buildbarn.Util.Digest.{Digest}
use bazel_buildbarn.Util.Reader.{Reader}
use bazel_buildbarn.Blobstore.BlobAccess.{BlobAccess}

abbrev pub with_state : {S : Type 0} → ℕ → S → (ℕ → S) → ℕ → S
with_state i s states j = if j == i then s else states j

-- What a call of one backend leaves.
abbrev pub at_backend : {A S : Type 0} → (ℕ → S) → ℕ → A × S → A × (ℕ → S)
at_backend states i (a, s) = (a, with_state i s states)

abbrev pub is_empty : List Digest → Bool
is_empty [] = true
is_empty (digest ∷ digests) = false

-- The missing digests and the error of FindMissing, from one result and those that come after it.
unfoldable pub combine :
    Result (List Digest) → Result (List Digest × Option Error) → Result (List Digest × Option Error)
combine (ok missing) rest = rest >>= λ (others, e). ok (missing ++ others, e)
combine (err e) (ok (others, none)) = ok (others, some e)
combine (err e) rest = rest
combine fatal rest = fatal

-- With an error, callers do not look at the digests.
unfoldable pub concluded : Result (List Digest × Option Error) → Result (List Digest)
concluded (ok (missing, none)) = ok missing
concluded (ok (missing, some e)) = err e
concluded (err e) = err e
concluded fatal = fatal

module _ {S R : Type 0} (backends : ℕ → BlobAccess S R) (backend_of : Digest → ℕ)
    (arrival : List Digest → List ℕ) where
  abbrev pub get : (ℕ → S) → Digest → Result (ℕ × (ℕ × R)) × (ℕ → S)
  get states digest =
      let i = backend_of digest in
      let (r, s) = (backends i).get (states i) digest in
      (r >>= λ (size_bytes, reader). ok (size_bytes, (i, reader)), with_state i s states)

  abbrev pub put : (ℕ → S) → Digest → ℕ → Reader → Result (Unit {0}) × (ℕ → S)
  put states digest size_bytes r =
      let i = backend_of digest in
      at_backend states i ((backends i).put (states i) digest size_bytes r)

  abbrev pub delete : (ℕ → S) → Digest → Result (Unit {0}) × (ℕ → S)
  delete states digest =
      let i = backend_of digest in at_backend states i ((backends i).delete (states i) digest)

  -- digestsPerBackend
  abbrev pub digests_for : List Digest → ℕ → List Digest
  digests_for digests i = filter (λ digest. backend_of digest == i) digests

  abbrev pub call_find_missing : (ℕ → S) → List Digest → ℕ → Result (List Digest) × S
  call_find_missing states digests i = (backends i).find_missing (states i) (digests_for digests i)

  -- The results, in the order in which they arrive.
  unfoldable pub collect : (ℕ → S) → List Digest → List ℕ → Result (List Digest × Option Error)
  collect states digests [] = ok ([], none)
  collect states digests (i ∷ is) =
      combine (call_find_missing states digests i).0 (collect states digests is)

  -- Each backend that has some of the digests is called once, on a state of its own.
  unfoldable pub states_after : (ℕ → S) → List Digest → ℕ → S
  states_after states digests i =
      if is_empty (digests_for digests i) then states i else (call_find_missing states digests i).1

  abbrev pub find_missing : (ℕ → S) → List Digest → Result (List Digest) × (ℕ → S)
  find_missing states digests =
      (concluded (collect states digests (arrival digests)), states_after states digests)

  -- The reader is that of one of the backends.
  abbrev pub reading : ℕ × R → (ℕ → S) → Reader × (ℕ → S)
  reading (i, r) states = at_backend states i ((backends i).reading r (states i))

  unfoldable pub sharding_blob_access : BlobAccess (ℕ → S) (ℕ × R)
  sharding_blob_access = record {
    get = get;
    put = put;
    delete = delete;
    find_missing = find_missing;
    reading = reading;
  }
