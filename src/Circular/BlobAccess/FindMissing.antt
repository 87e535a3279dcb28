-- ===== src/Circular/BlobAccess/FindMissing.antt =====
-- What FindMissing reports.
use bazel_buildbarn.Prelude.{ℕ, ◌≡◌, refl, ◌⊎◌, inl, inr, List, [], ◌∷◌, none, some}
use bazel_buildbarn.Util.Status.{Result, Error, ok, err, fatal, ◌>>=◌, Result-cases}
use bazel_buildbarn.Util.Digest.{Digest}
use bazel_buildbarn.Circular.StateStore.{StateStore}
use bazel_buildbarn.Circular.OffsetStore.{OffsetStore}
use bazel_buildbarn.Circular.BlobAccess.{
  DataStore, CircularBlobAccess, blob_not_found, get, find_missing, look_up, pair_eq,
}

-- The second list is what remains of the first when the elements of `N` are left out; all the other
-- elements are of `P`.
pub data Sieved {A : Type 0} (P N : A → Type 0) : List A → List A → Type 0 where
  done : Sieved P N [] []
  kept : {a : A} {all some : List A} → P a → Sieved P N all some → Sieved P N (a ∷ all) (a ∷ some)
  left_out : {a : A} {all some : List A} → N a → Sieved P N all some → Sieved P N (a ∷ all) some

module _ {O D R S : Type 0} (offset_store : OffsetStore O) (data_store : DataStore D R)
    (state_store : StateStore S) where
  -- Get says that the blob does not exist.
  abbrev pub Absent : CircularBlobAccess O D S → Digest → Type 0
  Absent ba digest = (get offset_store data_store state_store ba digest).0 ≡ err blob_not_found

  -- Get returns the blob.
  abbrev pub Present : CircularBlobAccess O D S → Digest → Type 0
  Present ba digest =
      (size_bytes : ℕ) × (r : R) × ((get offset_store data_store state_store ba digest).0
        ≡ ok (size_bytes, r))

  get-Absent :
      (ba : CircularBlobAccess O D S) (digest : Digest)
      → (look_up offset_store data_store state_store ba digest).0 ≡ ok none
      → Absent ba digest
  unfolding get
  get-Absent ba digest e = rw e refl

  get-Present :
      (ba : CircularBlobAccess O D S) (digest : Digest) (offset length : ℕ)
      → (look_up offset_store data_store state_store ba digest).0 ≡ ok (some (offset, length))
      → Present ba digest
  unfolding get
  get-Present ba digest offset length e = (length, data_store.get offset length, rw e refl)

  more :
      (digest : Digest) (r : Result (List Digest)) (missing : List Digest)
      → (r >>= λ rest. ok (digest ∷ rest)) ≡ ok missing
      → (rest : List Digest) × (r ≡ ok rest) × (missing ≡ digest ∷ rest)
  more digest (ok rest) missing h = (rest, refl, cc)
  more digest (err e) missing h = cc
  more digest fatal missing h = cc

  stopped :
      (ba : CircularBlobAccess O D S) (digest : Digest) (digests missing : List Digest)
      → ((e : Error) × ((look_up offset_store data_store state_store ba digest).0 ≡ err e))
        ⊎ ((look_up offset_store data_store state_store ba digest).0 ≡ fatal)
      → (find_missing offset_store data_store state_store ba (digest ∷ digests)).0 ≡ ok missing
      → ⊥
  unfolding find_missing
  stopped ba digest digests missing (inl (x, e)) h =
      let step : look_up offset_store data_store state_store ba digest ≡ (err x, _) =
        pair_eq e refl in
      let h' = rw step at h in cc
  stopped ba digest digests missing (inr e) h =
      let step : look_up offset_store data_store state_store ba digest ≡ (fatal, _) =
        pair_eq e refl in
      let h' = rw step at h in cc

  -- If lookups leave the offset store as it is, a FindMissing that succeeds reports, in their order,
  -- exactly those of the digests for which Get says that the blob does not exist; for every other one
  -- Get returns the blob.
  pub find_missing_exact :
      (ba : CircularBlobAccess O D S) (digests missing : List Digest)
      → ((digest : Digest) → (look_up offset_store data_store state_store ba digest).1 ≡ ba)
      → (find_missing offset_store data_store state_store ba digests).0 ≡ ok missing
      → Sieved (Absent ba) (Present ba) digests missing
  unfolding find_missing
  find_missing_exact ba [] missing pure h = let e : [] ≡ missing = cc in rw (← e) done
  find_missing_exact ba (digest ∷ digests) missing pure h =
      elim (Result-cases (look_up offset_store data_store state_store ba digest).0) [
        | inl (none, e) ↦
            let step : look_up offset_store data_store state_store ba digest ≡ (ok none, ba) =
              pair_eq e (pure digest) in
            let (rest, same, shape) =
              more digest (find_missing offset_store data_store state_store ba digests).0 missing
                (rw (step, pure digest) at h) in
            rw shape (kept (get-Absent ba digest e) (find_missing_exact ba digests rest pure same))
        | inl (some (offset, length), e) ↦
            let step : look_up offset_store data_store state_store ba digest
                ≡ (ok (some (offset, length)), ba) =
              pair_eq e (pure digest) in
            left_out (get-Present ba digest offset length e)
              (find_missing_exact ba digests missing pure (rw (step, pure digest) at h))
        | inr (inl (x, e)) ↦ absurd (stopped ba digest digests missing (inl (x, e)) h)
        | inr (inr e) ↦ absurd (stopped ba digest digests missing (inr e) h)
      ]
