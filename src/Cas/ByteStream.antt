-- ===== src/Cas/ByteStream.antt =====
-- Writing a blob over the byte stream protocol: Put of the client in
-- pkg/blobstore/content_addressable_storage_blob_access.go, and Write of the server in
-- pkg/cas/byte_stream_server.go. GRPC is a parameter of the client; the server gets the requests that
-- Recv is to return, and the error that it returns after them.
pub mod Requests
pub mod Upload
pub mod Commit
pub mod Download
use bazel_buildbarn.Prelude.{
  ℕ, zero, suc, ◌+◌, ◌⊎◌, inl, inr, List, [], ◌∷◌, ◌++◌, Option, none, some, Bool, true, false,
  ◌==◌, if◌then◌else◌, length, take, drop,
}
use bazel_buildbarn.Prelude.Word.{add64}
use bazel_buildbarn.Util.Status.{
  Result, ok, err, fatal, Error, eof, status, violation, other, text, format, number,
  invalid_argument, unimplemented,
}
use bazel_buildbarn.Util.Digest.{Digest}
use bazel_buildbarn.Util.Reader.{Reader}
use bazel_buildbarn.Blobstore.BlobAccess.{BlobAccess}
use bazel_buildbarn.Cas.ResourceName.{write_resource_name, parse_resource_name_write}

pub record WriteRequest : Type 0 where
  pub resource_name : List ℕ
  pub write_offset : ℕ
  pub finish_write : Bool
  pub contents : List ℕ

-- bytestream.ByteStreamClient, and the stream that its Write returns
pub record WriteClient (W : Type 0) : Type 0 where
  pub open_write : W → Option Error × W
  pub send : W → WriteRequest → Option Error × W
  pub close_and_recv : W → Option Error × W

module _ {W : Type 0} (client : WriteClient W) where
  abbrev closed : Option Error × W → Result (Unit {0}) × W
  closed (none, w) = (ok tt, w)
  closed (some e, w) = (err e, w)

  sent_last : Option Error × W → Result (Unit {0}) × W
  sent_last (none, w) = closed (client.close_and_recv w)
  sent_last (some e, w) = (err e, w)

  sent_chunk : Option Error × W → (W → Result (Unit {0}) × W) → Result (Unit {0}) × W
  sent_chunk (none, w) rest = rest w
  sent_chunk (some e, w) rest = (err e, w)

  -- The loop of Put. Only the first request has the resource name.
  unfoldable pub put_loop : Reader → List ℕ → ℕ → W → Result (Unit {0}) × W
  unfolding sent_last sent_chunk
  put_loop [] resource_name write_offset w = sent_last (
      client.send w record {
        resource_name = resource_name;
        write_offset = write_offset;
        finish_write = true;
        contents = [];
      })
  put_loop ((b, some eof) ∷ r) resource_name write_offset w = sent_last (
      client.send w record {
        resource_name = resource_name;
        write_offset = write_offset;
        finish_write = true;
        contents = b;
      })
  put_loop ((b, some e) ∷ r) resource_name write_offset w = (err e, w)
  put_loop ((b, none) ∷ r) resource_name write_offset w =
      sent_chunk
        (client.send w record {
          resource_name = resource_name;
          write_offset = write_offset;
          finish_write = false;
          contents = b;
        })
        (put_loop r [] (add64 write_offset (length b)))

  -- `id` is the new UUID.
  unfoldable pub put : W → List ℕ → Digest → Reader → Result (Unit {0}) × W
  unfolding sent_chunk
  put w id digest r =
      sent_chunk (client.open_write w) (put_loop r (write_resource_name digest id) 0)

-- byteStreamWriteServerReader. `ending` is what Recv returns after the requests.
pub record WriteServerReader : Type 0 where
  pub requests : List WriteRequest
  pub ending : Error
  pub write_offset : ℕ
  pub contents : List ℕ
  pub finished_write : Bool

abbrev pub closed_twice : Error
closed_twice = status invalid_argument (text "Client closed stream twice")

abbrev pub unfinished : Error
unfinished = status invalid_argument (text "Client closed stream without finishing write")

abbrev pub wrong_offset : ℕ → ℕ → Error
wrong_offset got expected = status invalid_argument (
    format "Attempted to write at offset %d, while %d was expected"
      (number got ∷ number expected ∷ []))

unfoldable pub set_request : WriteServerReader → WriteRequest → Error ⊎ WriteServerReader
set_request r request =
    if r.finished_write
    then inl closed_twice
    else if request.write_offset == r.write_offset
    then inr (record r {
      write_offset = add64 r.write_offset (length request.contents);
      contents = request.contents;
      finished_write = request.finish_write;
    })
    else inl (wrong_offset request.write_offset r.write_offset)

-- The error that Recv has returned.
unfoldable pub end_of : Error → Bool → Error
end_of eof false = unfinished
end_of e finished = e

abbrev copied : ℕ → WriteServerReader → (List ℕ × Option Error) × WriteServerReader
copied buffer r = ((take buffer r.contents, none), record r { contents = drop buffer r.contents })

set :
    ℕ → WriteServerReader → Error ⊎ WriteServerReader → (List ℕ × Option Error) × WriteServerReader
set buffer r (inr r') = copied buffer r'
set buffer r (inl e) = (([], some e), r)

received : ℕ → WriteServerReader → List WriteRequest → (List ℕ × Option Error) × WriteServerReader
unfolding set
received buffer r [] = (([], some (end_of r.ending r.finished_write)), r)
received buffer r (request ∷ requests) =
    let r' = record r { requests = requests } in set buffer r' (set_request r' request)

-- Read, into a buffer of the given length.
unfoldable pub read : ℕ → WriteServerReader → (List ℕ × Option Error) × WriteServerReader
unfolding received
read buffer r = if length r.contents == 0 then received buffer r r.requests else copied buffer r

next : List ℕ × Option Error → Reader → Reader
next (b, none) rest = (b, none) ∷ rest
next (b, some e) rest = (b, some e) ∷ []

-- The calls of Read up to the first error, with fuel.
unfoldable pub reads : ℕ → ℕ → WriteServerReader → Reader
unfolding next
reads zero buffer r = []
reads (suc fuel) buffer r = let (event, r') = read buffer r in next event (reads fuel buffer r')

-- More calls of Read than there are bytes and requests.
abbrev pub enough : List WriteRequest → ℕ
enough [] = 1
enough (request ∷ requests) = suc (length request.contents + enough requests)

module _ {S R : Type 0} (ba : BlobAccess S R) (buffer : ℕ) where
  responded : ℕ → Result (Unit {0}) × S → Result ℕ × S
  responded size_bytes (ok _, s) = (ok size_bytes, s)
  responded size_bytes (err e, s) = (err e, s)
  responded size_bytes (fatal, s) = (fatal, s)

  put_requests : S → Digest → ℕ → Error ⊎ WriteServerReader → Result ℕ × S
  unfolding responded
  put_requests s digest fuel (inr r) =
      let size_bytes = digest.partial_digest.size_bytes in
      responded size_bytes (ba.put s digest size_bytes (reads fuel buffer r))
  put_requests s digest fuel (inl e) = (err e, s)

  named : S → WriteRequest → List WriteRequest → Error → Result Digest → Result ℕ × S
  unfolding put_requests
  named s request requests ending (ok digest) =
      put_requests s digest (enough (request ∷ requests)) (
        set_request
          (record {
            requests = requests;
            ending = ending;
            write_offset = 0;
            contents = [];
            finished_write = false;
          })
          request)
  named s request requests ending (err e) = (err e, s)
  named s request requests ending fatal = (fatal, s)

  -- Write: the size that the response has. The storage reads into a buffer of the given length.
  unfoldable pub write : S → List WriteRequest → Error → Result ℕ × S
  unfolding named
  write s [] ending = (err ending, s)
  write s (request ∷ requests) ending =
      named s request requests ending (parse_resource_name_write request.resource_name)

-- QueryWriteStatus
abbrev pub query_write_status : List ℕ → Error
query_write_status resource_name =
    status unimplemented (text "This service does not support querying write status")
