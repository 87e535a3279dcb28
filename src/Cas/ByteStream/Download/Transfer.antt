-- ===== src/Cas/ByteStream/Download/Transfer.antt =====
-- A blob that is read over the byte stream protocol arrives.
use mathlib.Core.List.{append-nil}
use bazel_buildbarn.Prelude.{
  ℕ, zero, suc, ◌+◌, ◌≤◌, ◌<◌, ◌≡◌, ◌≢◌, refl, ap, ◌∙◌, List, [], ◌∷◌, ◌++◌, Option, none, some,
  false, ◌==◌, length, drop, length-drop, arith,
}
use bazel_buildbarn.Prelude.Decimal.{Lacks}
use bazel_buildbarn.Util.Status.{Result, ok, err, Error, eof, status, violation, other}
use bazel_buildbarn.Util.Digest.{Digest, IsDigest}
use bazel_buildbarn.Util.Digest.Generator.{flatten}
use bazel_buildbarn.Util.Reader.{Reader, drain, prepend}
use bazel_buildbarn.Circular.BlobAccess.{pair_eq}
use bazel_buildbarn.Blobstore.BlobAccess.{BlobAccess}
use bazel_buildbarn.Blobstore.BlobAccess.Laws.{View, Same, Got, IsStore}
use bazel_buildbarn.Cas.ResourceName.RoundTrip.{parse_resource_name_read-read_resource_name}
use bazel_buildbarn.Cas.ByteStream.Requests.{drain-copied}
use bazel_buildbarn.Cas.ByteStream.Download.{
  Stream, ByteStreamBlobReader, read_loop, send_last, send_chunk, read, opened, parsed, read_blob,
  read_blobs, receive, next, enough_for, first_chunk, get, get_request,
}

sent_chunk :
    (b : List ℕ) (rest : Stream)
    → (flatten (send_chunk b rest).0 ≡ b ++ flatten rest.0) × ((send_chunk b rest).1 ≡ rest.1)
unfolding send_chunk
sent_chunk [] rest = (refl, refl)
sent_chunk (c ∷ cs) rest = (refl, refl)

sent_last : (b : List ℕ) → (flatten (send_last b).0 ≡ b) × ((send_last b).1 ≡ eof)
unfolding send_last
sent_last [] = (refl, refl)
sent_last (c ∷ cs) = (append-nil (c ∷ cs), refl)

-- The server sends all the bytes of a reader that can be read to its end.
read_loop_lem :
    (r : Reader)
    → (drain r).1 ≡ eof
    → (flatten (read_loop r).0 ≡ (drain r).0) × ((read_loop r).1 ≡ eof)
unfolding read_loop drain
read_loop_lem [] end = (refl, refl)
read_loop_lem ((b, some eof) ∷ r) end = sent_last b
read_loop_lem ((b, some (status c m)) ∷ r) end = absurd (cc)
read_loop_lem ((b, some (violation c m t u)) ∷ r) end = absurd (cc)
read_loop_lem ((b, some (other m)) ∷ r) end = absurd (cc)
read_loop_lem ((b, none) ∷ r) end =
    let (content, ends) = read_loop_lem r end in
    let (sent, same) = sent_chunk b (read_loop r) in (sent ∙ ap (λ l. b ++ l) content, same ∙ ends)

module _ (buffer : ℕ) (room : 0 < buffer) where
  abbrev state : List (List ℕ) → Error → List ℕ → ByteStreamBlobReader
  state chunks ending partial = record { chunks = chunks; ending = ending; partial = partial }

  drain-read_blobs :
      (fuel : ℕ) (chunks : List (List ℕ)) (ending : Error) (partial : List ℕ)
      → length partial + enough_for chunks ≤ fuel
      → drain (read_blobs fuel buffer (state chunks ending partial))
        ≡ prepend partial (flatten chunks, ending)
  unfolding read_blobs read_blob receive next drain
  drain-read_blobs zero [] ending partial up = absurd (omega arith)
  drain-read_blobs zero (chunk ∷ chunks) ending partial up = absurd (omega arith)
  drain-read_blobs (suc fuel) chunks ending (c ∷ cs) up =
      let dropped = length-drop buffer (c ∷ cs) in
      let filled : (suc (length cs) == 0) ≡ false = ground arith in
      rw filled (
        drain-copied buffer room (c ∷ cs) _
          (read_blobs fuel buffer (state chunks ending (drop buffer (c ∷ cs))))
          (drain-read_blobs fuel chunks ending (drop buffer (c ∷ cs))
            (omega (arith, room, dropped))))
  drain-read_blobs (suc fuel) [] ending [] up = refl
  drain-read_blobs (suc fuel) (chunk ∷ chunks) ending [] up =
      let dropped = length-drop buffer chunk in
      drain-copied buffer room chunk _
        (read_blobs fuel buffer (state chunks ending (drop buffer chunk)))
        (drain-read_blobs fuel chunks ending (drop buffer chunk) (omega (arith, dropped)))

-- What the client reads of a stream.
pub record Fetched (buffer : ℕ) (digest : Digest) (stream : Stream) (blob : List ℕ) : Type 0 where
  pub reader : ByteStreamBlobReader
  pub found : get digest stream ≡ ok (digest.partial_digest.size_bytes, reader)
  pub content :
      drain (read_blobs (length reader.partial + enough_for reader.chunks) buffer reader)
      ≡ (blob, eof)

fetched :
    (buffer : ℕ) (digest : Digest) (chunks : List (List ℕ))
    → 0 < buffer
    → Fetched buffer digest (chunks, eof) (flatten chunks)
unfolding get first_chunk
fetched buffer digest [] room = record {
  reader = record { chunks = []; ending = eof; partial = [] };
  found = refl;
  content = drain-read_blobs buffer room 1 [] eof [] (omega arith);
}
fetched buffer digest (chunk ∷ chunks) room = record {
  reader = record { chunks = chunks; ending = eof; partial = chunk };
  found = refl;
  content = drain-read_blobs buffer room _ chunks eof chunk (omega arith);
}

get_failed : (digest : Digest) (e : Error) → e ≢ eof → get digest ([], e) ≡ err e
unfolding get first_chunk
get_failed digest eof bad = absurd (bad refl)
get_failed digest (status c m) bad = refl
get_failed digest (violation c m t u) bad = refl
get_failed digest (other m) bad = refl

module _ {S R : Type 0} (ba : BlobAccess S R) (view : S → View) (Missing : Error → Type 0)
    (buffer : ℕ) (s : S) (digest : Digest) where
  -- The outcome of a transfer of what the backend has for the digest.
  abbrev pub Transferred : Option (List ℕ) → Result Stream × S → Type 0
  Transferred none (result, s') =
      (e : Error) × (result ≡ ok ([], e))
      × Missing e
      × (get digest ([], e) ≡ err e)
      × Same (view s) (view s')
  Transferred (some blob) (result, s') =
      (stream : Stream) × (result ≡ ok stream)
      × Fetched buffer digest stream blob
      × Same (view s) (view s')

  module _ (law : IsStore ba view Missing) (room : 0 < buffer)
      (failing : (e : Error) → Missing e → e ≢ eof) where
    transferred :
        (v : Option (List ℕ))
        → Got ba view Missing s digest v
        → Transferred v (opened ba (ba.get s digest))
    unfolding opened
    transferred none (e, failed, kind) =
        let step : ba.get s digest ≡ (err e, _) = pair_eq failed refl in
        rw step (e, refl, kind, get_failed digest e (failing e kind), law.get_same s digest)
    transferred (some blob) (r, found, content, same) =
        let step : ba.get s digest ≡ (ok (length blob, r), _) = pair_eq found refl in
        let events = (ba.reading r (ba.get s digest).1).0 in
        let (sent, ends) = read_loop_lem events (ap (λ p. p.1) content) in
        let bytes : flatten (read_loop events).0 ≡ blob = sent ∙ ap (λ p. p.0) content in
        let stream : read_loop events ≡ ((read_loop events).0, eof) = pair_eq refl ends in
        rw step (
          ((read_loop events).0, eof),
          ap ok stream,
          rw (← bytes) (fetched buffer digest (read_loop events).0 room),
          same,
        )

-- Reading over the byte stream protocol from a server in front of a backend that behaves as a map from
-- digests to blobs changes no blob. The digest is as NewDigest makes them, its instance name has no
-- slash, and io.EOF is not what tells that a blob is missing. If the backend has a blob, then Get of
-- the client succeeds on what Read of the server sends, and reading what Get has returned to its end,
-- with any buffer, gives the blob. If it has none, then Get fails with an error that tells so.
pub get-read :
    {S R : Type 0} (ba : BlobAccess S R) (view : S → View) (Missing : Error → Type 0) (buffer : ℕ)
    (s : S) (digest : Digest)
    → IsStore ba view Missing
    → 0 < buffer
    → ((e : Error) → Missing e → e ≢ eof)
    → IsDigest digest
    → Lacks b'/' digest.instance_name
    → Transferred ba view Missing buffer s digest (view s digest) (read ba s (get_request digest))
unfolding read parsed
get-read ba view Missing buffer s digest law room failing valid plain =
    let name = parse_resource_name_read-read_resource_name digest valid plain in
    rw name (
      transferred ba view Missing buffer s digest law room failing (view s digest)
        (law.get s digest))
