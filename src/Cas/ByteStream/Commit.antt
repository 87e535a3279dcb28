-- ===== src/Cas/ByteStream/Commit.antt =====
-- What the server stores of a blob that a client writes.
use bazel_buildbarn.Prelude.{
  ◌⊎◌, inl, inr, ℕ, ◌<◌, ◌≡◌, ◌≢◌, refl, ap, ◌∙◌, sym, inl, inr, List, [], ◌∷◌, ◌++◌, some, true,
  false, ◌==◌, length, arith, Bool-cases,
}
use bazel_buildbarn.Prelude.Word.{add64}
use bazel_buildbarn.Prelude.Decimal.{Lacks}
use bazel_buildbarn.Util.Status.{ok, err, Error, eof, eof-cases}
use bazel_buildbarn.Util.Digest.{Digest, IsDigest}
use bazel_buildbarn.Util.Reader.{Reader, drain}
use bazel_buildbarn.Circular.BlobAccess.{pair_eq}
use bazel_buildbarn.Blobstore.BlobAccess.{BlobAccess}
use bazel_buildbarn.Blobstore.BlobAccess.Laws.{View, Same, Updated, IsStore, put_sized}
use bazel_buildbarn.Cas.ResourceName.{write_resource_name, parse_resource_name_write}
use bazel_buildbarn.Cas.ResourceName.RoundTrip.{
  IsField, parse_resource_name_write-write_resource_name,
}
use bazel_buildbarn.Cas.ByteStream.{
  WriteRequest, WriteClient, WriteServerReader, put, set_request, reads, enough, write, named,
  put_requests, responded, wrong_offset,
}
use bazel_buildbarn.Cas.ByteStream.Requests.{in_sequence, drain-reads}
use bazel_buildbarn.Cas.ByteStream.Upload.{Delivers, Named, put_lem}

module _ {S R : Type 0} (ba : BlobAccess S R) (view : S → View) (Missing : Error → Type 0)
    (law : IsStore ba view Missing) (buffer : ℕ) (room : 0 < buffer) (s : S) (digest : Digest) where
  abbrev size_of : ℕ
  size_of = digest.partial_digest.size_bytes

  abbrev first : WriteRequest → List WriteRequest → Error → WriteServerReader
  first q qs ending = record {
    requests = qs;
    ending = ending;
    write_offset = add64 0 (length q.contents);
    contents = q.contents;
    finished_write = q.finish_write;
  }

  abbrev stream : WriteRequest → List WriteRequest → Error → Reader
  stream q qs ending = reads (enough (q ∷ qs)) buffer (first q qs ending)

  -- The handler, when the first request is in sequence.
  write_first :
      (q : WriteRequest) (qs : List WriteRequest) (ending : Error)
      → parse_resource_name_write q.resource_name ≡ ok digest
      → (q.write_offset == 0) ≡ true
      → write ba buffer s (q ∷ qs) ending
        ≡ responded ba buffer size_of (ba.put s digest size_of (stream q qs ending))
  unfolding write named put_requests set_request
  write_first q qs ending e start = rw (e, start) refl

  stream_lem :
      (q : WriteRequest) (qs : List WriteRequest) (ending : Error)
      → (q.write_offset == 0) ≡ true
      → drain (stream q qs ending) ≡ in_sequence 0 false ending (q ∷ qs)
  unfolding in_sequence
  stream_lem q qs ending start =
      rw start (drain-reads buffer room (enough (q ∷ qs)) (first q qs ending) (omega arith))

  late_error :
      (q : WriteRequest) (qs : List WriteRequest) (ending : Error)
      → (q.write_offset == 0) ≡ false
      → (in_sequence 0 false ending (q ∷ qs)).1 ≡ wrong_offset q.write_offset 0
  unfolding in_sequence
  late_error q qs ending late = rw late refl

  write_good :
      (q : WriteRequest) (qs : List WriteRequest) (ending : Error) (blob : List ℕ)
      → parse_resource_name_write q.resource_name ≡ ok digest
      → in_sequence 0 false ending (q ∷ qs) ≡ (blob, eof)
      → length blob ≡ size_of
      → ((write ba buffer s (q ∷ qs) ending).0 ≡ ok size_of)
        × Updated (view s) digest (some blob) (view (write ba buffer s (q ∷ qs) ending).1)
  unfolding responded
  write_good q qs ending blob e content size = elim (Bool-cases (q.write_offset == 0)) [
    | inr late ↦ absurd (let x = late_error q qs ending late in let y = ap (λ p. p.1) content in cc)
    | inl start ↦
        let read = stream_lem q qs ending start ∙ content in
        let sized : size_of ≡ length (drain (stream q qs ending)).0 =
          sym size ∙ ap (λ p. length p.0) (sym read) in
        let (stored, updated) =
          put_sized ba view Missing law s digest size_of (stream q qs ending) (ap (λ p. p.1) read)
            sized in
        let step : ba.put s digest size_of (stream q qs ending) ≡ (ok tt, _) =
          pair_eq stored refl in
        rw (write_first q qs ending e start, step) (refl, rw (← ap (λ p. p.0) read) updated)
  ]

  write_bad :
      (q : WriteRequest) (qs : List WriteRequest) (ending : Error)
      → parse_resource_name_write q.resource_name ≡ ok digest
      → (in_sequence 0 false ending (q ∷ qs)).1 ≢ eof
      → ((e : Error) × ((write ba buffer s (q ∷ qs) ending).0 ≡ err e))
        × Same (view s) (view (write ba buffer s (q ∷ qs) ending).1)
  unfolding responded write named put_requests set_request
  write_bad q qs ending e content = elim (Bool-cases (q.write_offset == 0)) [
    | inr late ↦ rw (e, late) ((_, refl), λ other. refl)
    | inl start ↦
        let ((x, failed), same) =
          law.put_failed s digest size_of (stream q qs ending)
            (λ end. content (sym (ap (λ p. p.1) (stream_lem q qs ending start)) ∙ end)) in
        let step : ba.put s digest size_of (stream q qs ending) ≡ (err x, _) =
          pair_eq failed refl in
        rw (e, start, step) ((x, refl), same)
  ]

  module _ (name : List ℕ) (parsed : parse_resource_name_write name ≡ ok digest) where
    write_good_all :
        (requests : List WriteRequest) (ending : Error) (blob : List ℕ)
        → Named name requests
        → requests ≢ []
        → in_sequence 0 false ending requests ≡ (blob, eof)
        → length blob ≡ size_of
        → ((write ba buffer s requests ending).0 ≡ ok size_of)
          × Updated (view s) digest (some blob) (view (write ba buffer s requests ending).1)
    write_good_all [] ending blob named some_sent content size = absurd (some_sent refl)
    write_good_all (q ∷ qs) ending blob named some_sent content size =
        write_good q qs ending blob (ap parse_resource_name_write named ∙ parsed) content size

    write_bad_all :
        (requests : List WriteRequest) (ending : Error)
        → Named name requests
        → (in_sequence 0 false ending requests).1 ≢ eof
        → ((e : Error) × ((write ba buffer s requests ending).0 ≡ err e))
          × Same (view s) (view (write ba buffer s requests ending).1)
    unfolding write
    write_bad_all [] ending named content = ((ending, refl), λ other. refl)
    write_bad_all (q ∷ qs) ending named content =
        write_bad q qs ending (ap parse_resource_name_write named ∙ parsed) content

-- A client that writes a blob over the byte stream protocol, to a server in front of a backend that
-- behaves as a map from digests to blobs, writes all or nothing. GRPC delivers the requests, the
-- digest is as NewDigest makes them, its instance name and the UUID have no slash, the UUID is not
-- empty, and the client's reader, if it can be read to its end, has as many bytes as the digest says.
-- Either it can, and Put succeeds, Write of what the client has sent responds with that size, and only
-- the blob of that digest changes, to those bytes. Or reading fails, and Put fails with the same error,
-- and Write, for whatever end of the stream it sees, fails and changes no blob.
pub write-put :
    {S R W : Type 0} (ba : BlobAccess S R) (view : S → View) (Missing : Error → Type 0)
    (client : WriteClient W) (sent : W → List WriteRequest) (buffer : ℕ) (s : S) (w : W)
    (digest : Digest) (id : List ℕ) (r : Reader)
    → IsStore ba view Missing
    → Delivers client sent
    → 0 < buffer
    → sent w ≡ []
    → IsDigest digest
    → Lacks b'/' digest.instance_name
    → IsField id
    → ((drain r).1 ≡ eof → length (drain r).0 ≡ digest.partial_digest.size_bytes)
    → (let (result, w') = put client w id digest r in
        (((drain r).1 ≡ eof)
          × (result ≡ ok tt)
          × ((write ba buffer s (sent w') eof).0 ≡ ok digest.partial_digest.size_bytes)
          × Updated (view s) digest (some (drain r).0) (view (write ba buffer s (sent w') eof).1))
        ⊎ (((drain r).1 ≢ eof)
            × (result ≡ err (drain r).1)
            × ((ending : Error)
                → ((e : Error) × ((write ba buffer s (sent w') ending).0 ≡ err e))
                  × Same (view s) (view (write ba buffer s (sent w') ending).1))))
write-put ba view Missing client sent buffer s w digest id r law delivers room fresh valid plain
      field sized =
    let (h, empty) = put_lem client sent delivers r digest id w fresh in
    let all : sent (put client w id digest r).1 ≡ h.requests =
      h.adds ∙ ap (λ l. l ++ h.requests) empty in
    let name = parse_resource_name_write-write_resource_name digest id valid plain field in
    rw all (elim (eof-cases (drain r).1) [
      | inl end ↦
          let (done, same, some_sent) = h.succeeds end in
          let (responds, changed) =
            write_good_all ba view Missing law buffer room s digest (write_resource_name digest id)
              name h.requests eof (drain r).0 h.names some_sent (same ∙ pair_eq refl end)
              (sized end) in
          inl (end, done, responds, changed)
      | inr bad ↦
          let (failed, stops) = h.fails bad in
          inr (
            bad,
            failed,
            λ ending.
                write_bad_all ba view Missing law buffer room s digest
                  (write_resource_name digest id) name h.requests ending h.names (stops ending),
          )
    ])
