-- ===== src/Cas/Storage/Files.antt =====
-- What GetFile leaves in the directory.
use bazel_buildbarn.Prelude.{
  ℕ, ◌≡◌, refl, ap, sym, ◌∙◌, List, [], ◌∷◌, ◌++◌, Option, none, some, Bool, length, arith, ◌==◌,
  false,
}
use mathlib.Core.List.{append-nil, append_assoc}
use bazel_buildbarn.Util.Status.{ok, err, Error, eof}
use bazel_buildbarn.Util.Digest.{Digest}
use bazel_buildbarn.Util.Reader.{Reader, drain}
use bazel_buildbarn.Circular.BlobAccess.{pair_eq}
use bazel_buildbarn.Blobstore.BlobAccess.{BlobAccess}
use bazel_buildbarn.Blobstore.BlobAccess.Laws.{View, Got, IsStore}
use bazel_buildbarn.Cas.Storage.{
  Directory, one_more, copied, write_some, copy, tidied, downloaded, created, mode, get_file,
}

-- A directory that works: `content` says which files it has, and `name_of` which one a file is.
pub record IsDirectory {W F : Type 0} (directory : Directory W F) (name_of : F → List ℕ)
    (content : W → List ℕ → Option (List ℕ)) : Type 0 where
  pub create :
      (w : W) (name : List ℕ) (m : ℕ)
      → content w name ≡ none
      → (f : F) × ((directory.create w name m).0 ≡ ok f)
        × (name_of f ≡ name)
        × (content (directory.create w name m).1 name ≡ some [])
  pub write_file :
      (w : W) (f : F) (b old : List ℕ)
      → content w (name_of f) ≡ some old
      → ((directory.write_file w f b).0 ≡ none)
        × (content (directory.write_file w f b).1 (name_of f) ≡ some (old ++ b))

module _ {S R W F : Type 0} (ba : BlobAccess S R) (directory : Directory W F)
    (abandon : R → ℕ → S → S) (name_of : F → List ℕ) (content : W → List ℕ → Option (List ℕ))
    (law : IsDirectory directory name_of content) where
  write_some_lem :
      (w : W) (f : F) (b old : List ℕ)
      → content w (name_of f) ≡ some old
      → (w' : W) × (write_some ba directory abandon w f b ≡ (none, w'))
        × (content w' (name_of f) ≡ some (old ++ b))
  write_some_lem w f [] old has = (w, refl, has ∙ ap some (sym (append-nil old)))
  write_some_lem w f (x ∷ b) old has =
      let (done, now) = law.write_file w f (x ∷ b) old has in
      let nonzero : (length (x ∷ b) == 0) ≡ false = ground arith in
      (_, rw nonzero (pair_eq done refl), now)

  copy_lem :
      (f : F) (events : Reader) (w : W) (old : List ℕ)
      → content w (name_of f) ≡ some old
      → (drain events).1 ≡ eof
      → (w' : W) × (copy ba directory abandon f events w ≡ ((none, w'), none))
        × (content w' (name_of f) ≡ some (old ++ (drain events).0))
  unfolding copy copied one_more drain
  copy_lem f [] w old has end = (w, refl, has ∙ ap some (sym (append-nil old)))
  copy_lem f ((b, none) ∷ events) w old has end =
      let (w1, step, now) = write_some_lem w f b old has in
      let (w2, rest, done) = copy_lem f events w1 (old ++ b) now end in
      (w2, rw (step, rest) refl, done ∙ ap some (append_assoc old b (drain events).0))
  copy_lem f ((b, some e) ∷ events) w old has end =
      let (w1, step, now) = write_some_lem w f b old has in (w1, rw (step, end) refl, now)

-- GetFile writes what the backend has: in front of a backend that behaves as a map from digests to
-- blobs and has one for the digest, and in a directory that works and has no file of the name, it
-- succeeds, and the file then has exactly the bytes of the blob.
pub get_file_lem :
    {S R W F : Type 0} (ba : BlobAccess S R) (directory : Directory W F) (abandon : R → ℕ → S → S)
    (view : S → View) (Missing : Error → Type 0) (name_of : F → List ℕ)
    (content : W → List ℕ → Option (List ℕ)) (s : S) (w : W) (digest : Digest) (name blob : List ℕ)
    (is_executable : Bool)
    → IsStore ba view Missing
    → IsDirectory directory name_of content
    → view s digest ≡ some blob
    → content w name ≡ none
    → (let (r, (s', w')) = get_file ba directory abandon (s, w) digest name is_executable in
        (r ≡ ok tt) × (content w' name ≡ some blob))
unfolding get_file created downloaded tidied
get_file_lem ba directory abandon view Missing name_of content s w digest name blob is_executable
      store law has absent =
    let (f, opened, same, empty) =
      law.create w name (mode ba directory abandon is_executable) absent in
    let creation : directory.create w name (mode ba directory abandon is_executable)
        ≡ (ok f, (directory.create w name (mode ba directory abandon is_executable)).1) =
      pair_eq opened refl in
    let there : Got ba view Missing s digest (some blob) = rw has at (store.get s digest) in
    let (r, read, bytes_read, unchanged) = there in
    let step : ba.get s digest ≡ (ok (length blob, r), (ba.get s digest).1) = pair_eq read refl in
    let (w', copying, now) =
      copy_lem ba directory abandon name_of content law f (ba.reading r (ba.get s digest).1).0
        (directory.create w name (mode ba directory abandon is_executable)).1 [] (rw same empty)
        (ap (λ p. p.1) bytes_read) in
    let all : content w' name ≡ some blob =
      sym (ap (content w') same) ∙ now ∙ ap (λ p. some p.0) bytes_read in
    rw (creation, step, copying) (refl, all)

-- Creating a file that is there fails, as O_EXCL asks.
abbrev pub IsExclusive : {W F : Type 0} → Directory W F → (W → List ℕ → Option (List ℕ)) → Type 0
IsExclusive {W} directory content =
    (w : W) (name old : List ℕ) (m : ℕ)
    → content w name ≡ some old
    → (x : Error) × ((directory.create w name m).0 ≡ err x)

-- GetFile leaves a file behind when the backend has no blob for the digest, and the name cannot be used
-- again. The backend behaves as a map from digests to blobs, and the directory works, has no file of the
-- name, and does not create a file that is there. Then GetFile fails with an error that tells that the
-- blob is missing; but the directory has an empty file of the name afterwards, and every later GetFile of
-- the name into it fails, for every digest and whatever the backend has got by then.
pub get_file_leaves_file :
    {S R W F : Type 0} (ba : BlobAccess S R) (directory : Directory W F) (abandon : R → ℕ → S → S)
    (view : S → View) (Missing : Error → Type 0) (name_of : F → List ℕ)
    (content : W → List ℕ → Option (List ℕ)) (s : S) (w : W) (digest : Digest) (name : List ℕ)
    (is_executable : Bool)
    → IsStore ba view Missing
    → IsDirectory directory name_of content
    → IsExclusive directory content
    → view s digest ≡ none
    → content w name ≡ none
    → (let (r, (s', w')) = get_file ba directory abandon (s, w) digest name is_executable in
        (e : Error) × (r ≡ err e)
        × Missing e
        × (content w' name ≡ some [])
        × ((later : S) (other : Digest) (x : Bool)
            → (refusal : Error) × ((get_file ba directory abandon (later, w') other name x).0
                ≡ err refusal)))
unfolding get_file created downloaded
get_file_leaves_file ba directory abandon view Missing name_of content s w digest name is_executable
      store law exclusive none' absent =
    let m = mode ba directory abandon is_executable in
    let (f, opened, same, empty) = law.create w name m absent in
    let creation : directory.create w name m ≡ (ok f, (directory.create w name m).1) =
      pair_eq opened refl in
    let there : Got ba view Missing s digest none = rw none' at (store.get s digest) in
    let (e, failing, missing) = there in
    let step : ba.get s digest ≡ (err e, (ba.get s digest).1) = pair_eq failing refl in
    rw (creation, step)
      (
        e,
        refl,
        missing,
        empty,
        λ later other x.
            let w' = (directory.create w name m).1 in
            let n = mode ba directory abandon x in
            let (refusal, fails) = exclusive w' name [] n empty in
            let again : directory.create w' name n ≡ (err refusal, (directory.create w' name n).1) =
              pair_eq fails refl in
            (refusal, rw again refl),
      )
