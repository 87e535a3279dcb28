-- ===== src/Cas/ByteStream/Download.antt =====
-- Reading a blob over the byte stream protocol: Read of the server in pkg/cas/byte_stream_server.go, and
-- Get of the client in pkg/blobstore/content_addressable_storage_blob_access.go. The client gets the
-- chunks that the server has sent, and then the error with which it has ended: io.EOF for none.
pub mod Transfer
use bazel_buildbarn.Prelude.{
  ℕ, zero, suc, ◌+◌, List, [], ◌∷◌, ◌++◌, Option, none, some, Bool, true, false, not, ◌&&◌, ◌||◌,
  ◌==◌, if◌then◌else◌, length, take, drop,
}
use bazel_buildbarn.Util.Status.{Result, ok, err, fatal, Error, eof, status, text, unimplemented}
use bazel_buildbarn.Util.Digest.{Digest}
use bazel_buildbarn.Util.Reader.{Reader}
use bazel_buildbarn.Blobstore.BlobAccess.{BlobAccess}
use bazel_buildbarn.Cas.ResourceName.{read_resource_name, parse_resource_name_read}

pub record ReadRequest : Type 0 where
  pub resource_name : List ℕ
  pub read_offset : ℕ
  pub read_limit : ℕ

-- The chunks of a stream, and the error after them.
abbrev pub Stream : Type 0
Stream = List (List ℕ) × Error

abbrev pub partial_download : Error
partial_download =
    status unimplemented (text "This service does not support downloading partial files")

send_last : List ℕ → Stream
send_last [] = ([], eof)
send_last (b ∷ bs) = ((b ∷ bs) ∷ [], eof)

send_chunk : List ℕ → Stream → Stream
send_chunk [] rest = rest
send_chunk (b ∷ bs) (chunks, e) = ((b ∷ bs) ∷ chunks, e)

-- The loop of Read, of what the reader returns: only chunks with bytes are sent, and the bytes that
-- come with an error are not.
unfoldable pub read_loop : Reader → Stream
unfolding send_last send_chunk
read_loop [] = ([], eof)
read_loop ((b, some eof) ∷ r) = send_last b
read_loop ((b, some e) ∷ r) = ([], e)
read_loop ((b, none) ∷ r) = send_chunk b (read_loop r)

module _ {S R : Type 0} (ba : BlobAccess S R) where
  opened : Result (ℕ × R) × S → Result Stream × S
  opened (ok (_, r), s) = let (events, s') = ba.reading r s in (ok (read_loop events), s')
  opened (err e, s) = (ok ([], e), s)
  opened (fatal, s) = (fatal, s)

  parsed : S → Result Digest → Result Stream × S
  unfolding opened
  parsed s (ok digest) = opened (ba.get s digest)
  parsed s (err e) = (ok ([], e), s)
  parsed s fatal = (fatal, s)

  -- Read: what the client is sent, and the error that it ends with.
  unfoldable pub read : S → ReadRequest → Result Stream × S
  unfolding parsed
  read s request =
      if not (request.read_offset == 0) || not (request.read_limit == 0)
      then (ok ([], partial_download), s)
      else parsed s (parse_resource_name_read request.resource_name)

-- byteStreamBlobReader. `chunks` are what Recv is still to return, and `ending` what it returns then.
pub record ByteStreamBlobReader : Type 0 where
  pub chunks : List (List ℕ)
  pub ending : Error
  pub partial : List ℕ

abbrev copied : ℕ → List ℕ → ByteStreamBlobReader → (List ℕ × Option Error) × ByteStreamBlobReader
copied buffer b r = ((take buffer b, none), record r { partial = drop buffer b })

receive : ℕ → ByteStreamBlobReader → List (List ℕ) → (List ℕ × Option Error) × ByteStreamBlobReader
receive buffer r [] = (([], some r.ending), r)
receive buffer r (chunk ∷ chunks) = copied buffer chunk (record r { chunks = chunks })

-- Read of that reader, into a buffer of the given length.
unfoldable pub read_blob : ℕ → ByteStreamBlobReader → (List ℕ × Option Error) × ByteStreamBlobReader
unfolding receive
read_blob buffer r =
    if length r.partial == 0 then receive buffer r r.chunks else copied buffer r.partial r

next : List ℕ × Option Error → Reader → Reader
next (b, none) rest = (b, none) ∷ rest
next (b, some e) rest = (b, some e) ∷ []

-- More calls of Read than there are bytes and chunks.
abbrev pub enough_for : List (List ℕ) → ℕ
enough_for [] = 1
enough_for (chunk ∷ chunks) = suc (length chunk + enough_for chunks)

-- The calls of Read up to the first error, with fuel.
unfoldable pub read_blobs : ℕ → ℕ → ByteStreamBlobReader → Reader
unfolding next
read_blobs zero buffer r = []
read_blobs (suc fuel) buffer r =
    let (event, r') = read_blob buffer r in next event (read_blobs fuel buffer r')

first_chunk : ℕ → Stream → Result (ℕ × ByteStreamBlobReader)
first_chunk size_bytes (chunk ∷ chunks, ending) =
    ok (size_bytes, record { chunks = chunks; ending = ending; partial = chunk })
-- In the source, this is a buffer without bytes.
first_chunk size_bytes ([], eof) =
    ok (size_bytes, record { chunks = []; ending = eof; partial = [] })
first_chunk size_bytes ([], e) = err e

-- The request of Get, and what Get makes of the stream that it gets: the first chunk is read at once.
abbrev pub get_request : Digest → ReadRequest
get_request digest = record {
  resource_name = read_resource_name digest;
  read_offset = 0;
  read_limit = 0;
}

unfoldable pub get : Digest → Stream → Result (ℕ × ByteStreamBlobReader)
unfolding first_chunk
get digest stream = first_chunk digest.partial_digest.size_bytes stream
