-- ===== src/Circular/BlobAccess.antt =====
-- The circular storage backend: pkg/blobstore/circular/circular_blob_access.go. The mutex makes each
-- locked section one step; Put has two of them, with the data written in between.
pub mod FindMissing
pub mod RoundTrip
pub mod Stale
use mathlib.Core.Path.{ap₂}
use bazel_buildbarn.Prelude.{
  ◌≡◌, refl, ap, ◌∙◌, ℕ, List, [], ◌∷◌, Option, none, some, if◌then◌else◌,
}
use bazel_buildbarn.Util.Status.{
  Result, ok, err, fatal, Error, Message, text, not_found, status, other, ◌>>=◌,
}
use bazel_buildbarn.Util.Digest.{Digest}
use bazel_buildbarn.Util.Reader.{Reader}
use bazel_buildbarn.Circular.Cursors.{contains}
use bazel_buildbarn.Circular.StateStore.{StateStore}
use bazel_buildbarn.Circular.OffsetStore.{OffsetStore}

-- Get returns a reader of the range, which reads the store as it is when it is read.
pub record DataStore (D R : Type 0) : Type 0 where
  pub put : D → Reader → ℕ → Result (Unit {0}) × D
  pub get : ℕ → ℕ → R

pub record CircularBlobAccess (O D S : Type 0) : Type 0 where
  pub offsets : O
  pub contents : D
  pub state : S

abbrev pub blob_not_found : Error
blob_not_found = status not_found (text "Blob not found")

abbrev pub stale : Error
stale = other (text "Data became stale before write completed")

pub pair_eq : {A B : Type 0} {p : A × B} {a : A} {b : B} → p.0 ≡ a → p.1 ≡ b → p ≡ (a, b)
pair_eq e f = ap₂ (λ a b. (a, b)) e f

module _ {O D R S : Type 0} (offset_store : OffsetStore O) (data_store : DataStore D R)
    (state_store : StateStore S) where
  -- The lookup that Get, Delete and FindMissing make.
  abbrev pub look_up :
      CircularBlobAccess O D S → Digest → Result (Option (ℕ × ℕ)) × CircularBlobAccess O D S
  look_up ba digest =
      let (r, offsets) = offset_store.get ba.offsets digest (state_store.get_cursors ba.state) in
      (r, record ba { offsets = offsets })

  found : Option (ℕ × ℕ) → Result (ℕ × R)
  found none = err blob_not_found
  found (some (offset, length)) = ok (length, data_store.get offset length)

  unfoldable pub get : CircularBlobAccess O D S → Digest → Result (ℕ × R) × CircularBlobAccess O D S
  unfolding found
  get ba digest = let (r, ba') = look_up ba digest in (r >>= found, ba')

  -- Put, the first section
  abbrev pub allocate : CircularBlobAccess O D S → ℕ → Result ℕ × CircularBlobAccess O D S
  allocate ba size_bytes =
      let (r, state) = state_store.allocate ba.state size_bytes in (r, record ba { state = state })

  -- Put, the write outside the lock
  abbrev pub write :
      CircularBlobAccess O D S → Reader → ℕ → Result (Unit {0}) × CircularBlobAccess O D S
  write ba r offset =
      let (result, contents) = data_store.put ba.contents r offset in
      (result, record ba { contents = contents })

  -- Put, the last section
  unfoldable pub finish :
      CircularBlobAccess O D S → Digest → ℕ → ℕ → Result (Unit {0}) × CircularBlobAccess O D S
  finish ba digest offset size_bytes =
      let cursors = state_store.get_cursors ba.state in
      if contains cursors offset size_bytes
      then (let (r, offsets) = offset_store.put ba.offsets digest offset size_bytes cursors in
          (r, record ba { offsets = offsets }))
      else (err stale, ba)

  written :
      Digest
      → ℕ
      → ℕ
      → Result (Unit {0}) × CircularBlobAccess O D S
      → Result (Unit {0}) × CircularBlobAccess O D S
  written digest offset size_bytes (ok _, ba) = finish ba digest offset size_bytes
  written digest offset size_bytes (err e, ba) = (err e, ba)
  written digest offset size_bytes (fatal, ba) = (fatal, ba)

  allocated :
      Digest
      → ℕ
      → Reader
      → Result ℕ × CircularBlobAccess O D S
      → Result (Unit {0}) × CircularBlobAccess O D S
  unfolding written
  allocated digest size_bytes r (ok offset, ba) =
      written digest offset size_bytes (write ba r offset)
  allocated digest size_bytes r (err e, ba) = (err e, ba)
  allocated digest size_bytes r (fatal, ba) = (fatal, ba)

  unfoldable pub put :
      CircularBlobAccess O D S → Digest → ℕ → Reader → Result (Unit {0}) × CircularBlobAccess O D S
  unfolding allocated
  put ba digest size_bytes r = allocated digest size_bytes r (allocate ba size_bytes)

  -- A Put whose first two steps succeed ends as its last section does.
  pub put-finish :
      (ba : CircularBlobAccess O D S) (digest : Digest) (size_bytes offset : ℕ) (r : Reader)
      → (allocate ba size_bytes).0 ≡ ok offset
      → (write (allocate ba size_bytes).1 r offset).0 ≡ ok tt
      → put ba digest size_bytes r
        ≡ finish (write (allocate ba size_bytes).1 r offset).1 digest offset size_bytes
  unfolding put
  put-finish ba digest size_bytes offset r e f =
      let first : allocate ba size_bytes ≡ (ok offset, (allocate ba size_bytes).1) =
        pair_eq e refl in
      let second : write (allocate ba size_bytes).1 r offset
          ≡ (ok tt, (write (allocate ba size_bytes).1 r offset).1) =
        pair_eq f refl in
      ap (allocated digest size_bytes r) first ∙ ap (written digest offset size_bytes) second

  unfoldable pub delete :
      CircularBlobAccess O D S → Digest → Result (Unit {0}) × CircularBlobAccess O D S
  delete ba digest =
      let (r, ba') = look_up ba digest in
      elim r [
        | err e ↦ (err e, ba')
        | fatal ↦ (fatal, ba')
        | ok none ↦ (ok tt, ba')
        | ok (some (offset, length)) ↦
            let (result, state) = state_store.invalidate ba'.state offset length in
            (result, record ba' { state = state })
      ]

  add_missing :
      Digest
      → Result (Option (ℕ × ℕ)) × CircularBlobAccess O D S
      → Result (List Digest) × CircularBlobAccess O D S
      → Result (List Digest) × CircularBlobAccess O D S
  add_missing digest (ok none, ba) (rest, ba') = (rest >>= λ missing. ok (digest ∷ missing), ba')
  add_missing digest (ok (some _), ba) rest = rest
  add_missing digest (err e, ba) rest = (err e, ba)
  add_missing digest (fatal, ba) rest = (fatal, ba)

  -- The cursors are read once; nothing in the loop changes them.
  unfoldable pub find_missing :
      CircularBlobAccess O D S → List Digest → Result (List Digest) × CircularBlobAccess O D S
  unfolding add_missing
  find_missing ba [] = (ok [], ba)
  find_missing ba (digest ∷ digests) =
      let step = look_up ba digest in add_missing digest step (find_missing step.1 digests)
