-- ===== src/Cas/Storage.antt =====
-- Typed access to a storage backend: pkg/cas/blob_access_content_addressable_storage.go. GetAction,
-- GetCommand, GetDirectory, GetTree and GetActionFailure are `get_message` for the codec of their
-- message; PutTree and PutActionFailure are `put_message`, and PutLog is `put_blob`.
pub mod RoundTrip
pub mod Files
use bazel_buildbarn.Prelude.{
  ℕ, zero, suc, ◌+◌, ◌≡◌, ◌⊎◌, inl, inr, List, [], ◌∷◌, Option, none, some, Bool, true, false, ◌==◌,
  if◌then◌else◌, length,
}
use bazel_buildbarn.Util.Status.{Result, ok, err, fatal, Error, eof}
use bazel_buildbarn.Util.Digest.{Digest}
use bazel_buildbarn.Util.Digest.Generator.{
  Hashes, DigestGenerator, new_digest_generator, write, write_all, sum,
}
use bazel_buildbarn.Util.Reader.{Reader, drain, chunks}
use bazel_buildbarn.Util.Codec.{Codec}
use bazel_buildbarn.Blobstore.BlobAccess.{BlobAccess}

unmarshalled : {A : Type 0} → Error ⊎ A → Result A
unmarshalled (inr message) = ok message
unmarshalled (inl e) = err e

-- A file opened for reading: what it reads as, the outcome of seeking to its start, and what it reads as
-- after that.
pub record OpenedFile : Type 0 where
  pub first : Reader
  pub seek : Option Error
  pub second : Reader

module _ {S R : Type 0} (hashes : Hashes) (ba : BlobAccess S R) where
  read_all : {A : Type 0} → Codec A → S → List ℕ × Error → Result A × S
  unfolding unmarshalled
  read_all codec s (data_read, eof) = (unmarshalled (codec.unmarshal data_read), s)
  read_all codec s (data_read, e) = (err e, s)

  fetched : {A : Type 0} → Codec A → Result (ℕ × R) × S → Result A × S
  unfolding read_all
  fetched codec (ok (size_bytes, r), s) =
      let (events, s') = ba.reading r s in read_all codec s' (drain events)
  fetched codec (err e, s) = (err e, s)
  fetched codec (fatal, s) = (fatal, s)

  -- getMessage
  unfoldable pub get_message : {A : Type 0} → Codec A → S → Digest → Result A × S
  unfolding fetched
  get_message codec s digest = fetched codec (ba.get s digest)

  with_digest : Digest → Result (Unit {0}) × S → Result Digest × S
  with_digest digest (ok _, s) = (ok digest, s)
  with_digest digest (err e, s) = (err e, s)
  with_digest digest (fatal, s) = (fatal, s)

  -- Put under the digest that has been generated.
  stored : S → Digest → Reader → Result Digest × S
  unfolding with_digest
  stored s digest r = with_digest digest (ba.put s digest digest.partial_digest.size_bytes r)

  generated : S → List ℕ → Option DigestGenerator → Result Digest × S
  unfolding stored
  generated s blob none = (fatal, s)
  generated s blob (some g) = stored s (sum hashes (write g blob)) (chunks (blob ∷ []))

  -- putBlob
  unfoldable pub put_blob : S → List ℕ → Digest → Result Digest × S
  unfolding generated
  put_blob s blob parent_digest = generated s blob (new_digest_generator parent_digest)

  marshalled : S → Digest → Error ⊎ List ℕ → Result Digest × S
  marshalled s parent_digest (inr blob) = put_blob s blob parent_digest
  marshalled s parent_digest (inl e) = (err e, s)

  -- putMessage
  unfoldable pub put_message : {A : Type 0} → Codec A → S → A → Digest → Result Digest × S
  unfolding marshalled
  put_message codec s message parent_digest = marshalled s parent_digest (codec.marshal message)

  -- The bytes that io.Copy writes, of what it reads.
  abbrev pub pieces : Reader → List (List ℕ)
  pieces [] = []
  pieces ((b, none) ∷ events) = b ∷ pieces events
  pieces ((b, some e) ∷ events) = b ∷ []

  -- Storing what the second reading of a file finds.
  rewound : S → Digest → Reader → Option Error → Result Digest × S
  unfolding stored
  rewound s digest r none = stored s digest r
  rewound s digest r (some e) = (err e, s)

  hashed : S → OpenedFile → Digest → Error → Result Digest × S
  unfolding rewound
  hashed s file digest eof = rewound s digest file.second file.seek
  hashed s file digest e = (err e, s)

  put_opened : S → OpenedFile → Option DigestGenerator → Result Digest × S
  unfolding hashed
  put_opened s file none = (fatal, s)
  put_opened s file (some g) =
      hashed s file (sum hashes (write_all g (pieces file.first))) (drain file.first).1

  -- PutFile, of what OpenFile has returned
  unfoldable pub put_file : S → Result OpenedFile → Digest → Result Digest × S
  unfolding put_opened
  put_file s (ok file) parent_digest = put_opened s file (new_digest_generator parent_digest)
  put_file s (err e) parent_digest = (err e, s)
  put_file s fatal parent_digest = (fatal, s)

-- A directory, with files of type `F`: what GetFile calls.
pub record Directory (W F : Type 0) : Type 0 where
  -- OpenFile, with the flags O_WRONLY, O_CREATE and O_EXCL, and the mode
  pub create : W → List ℕ → ℕ → Result F × W
  -- Write of a file, which fails if it does not write all
  pub write_file : W → F → List ℕ → Option Error × W
  pub remove : W → List ℕ → Option Error × W

-- The error, the state, and after how many calls of Read copying has stopped, if it has.
abbrev pub Copied : Type 0 → Type 0
Copied W = (Option Error × W) × Option ℕ

one_more : {W : Type 0} → Copied W → Copied W
one_more (r, none) = (r, none)
one_more (r, some n) = (r, some (n + 1))

module _ {S R W F : Type 0} (ba : BlobAccess S R) (directory : Directory W F)
    (abandon : R → ℕ → S → S) where
  copied : Option Error × W → Option Error → (W → Copied W) → Copied W
  unfolding one_more
  copied (some x, w) e rest = ((some x, w), some 1)
  copied (none, w) none rest = one_more (rest w)
  copied (none, w) (some eof) rest = ((none, w), none)
  copied (none, w) (some e) rest = ((some e, w), none)

  abbrev pub write_some : W → F → List ℕ → Option Error × W
  write_some w f b = if length b == 0 then (none, w) else directory.write_file w f b

  -- io.Copy, from a reader to a file.
  unfoldable pub copy : F → Reader → W → Copied W
  unfolding copied
  copy f [] w = ((none, w), none)
  copy f ((b, e) ∷ events) w = copied (write_some w f b) e (copy f events)

  -- What reading leaves of the backend: `abandon` is for a reader that is closed after some calls.
  left : R → S → S → Option ℕ → S
  left r s s' none = s'
  left r s s' (some n) = abandon r n s

  tidied : List ℕ → S → Option Error × W → Result (Unit {0}) × (S × W)
  tidied name s (none, w) = (ok tt, (s, w))
  tidied name s (some e, w) = (err e, (s, (directory.remove w name).1))

  downloaded : List ℕ → F → W → Result (ℕ × R) × S → Result (Unit {0}) × (S × W)
  unfolding left tidied
  downloaded name f w (ok (size_bytes, r), s) =
      let (events, s') = ba.reading r s in
      let (outcome, stopped) = copy f events w in tidied name (left r s s' stopped) outcome
  downloaded name f w (err e, s) = (err e, (s, w))
  downloaded name f w (fatal, s) = (fatal, (s, w))

  created : S → Digest → List ℕ → Result F × W → Result (Unit {0}) × (S × W)
  unfolding downloaded
  created s digest name (ok f, w) = downloaded name f w (ba.get s digest)
  created s digest name (err e, w) = (err e, (s, w))
  created s digest name (fatal, w) = (fatal, (s, w))

  -- The modes 0444 and 0555
  abbrev pub mode : Bool → ℕ
  mode is_executable = if is_executable then 365 else 292

  unfoldable pub get_file : S × W → Digest → List ℕ → Bool → Result (Unit {0}) × (S × W)
  unfolding created
  get_file (s, w) digest name is_executable =
      created s digest name (directory.create w name (mode is_executable))
