-- ===== src/Tests/Streams.antt =====
-- The byte streams of pkg/cas, in front of a backend in memory.
use bazel_buildbarn.Prelude.{◌⊎◌, ℕ, ◌≡◌, ◌≢◌, refl, List, [], ◌∷◌, ◌++◌, none, some, arith}
use bazel_buildbarn.Util.Status.{ok, err, Error, eof}
use bazel_buildbarn.Util.Reader.{Reader, drain, chunks}
use bazel_buildbarn.Blobstore.BlobAccess.Laws.{View, Same, Updated}
use bazel_buildbarn.Cas.ByteStream.{WriteRequest, WriteClient, put, write}
use bazel_buildbarn.Cas.ByteStream.Upload.{Delivers}
use bazel_buildbarn.Cas.ByteStream.Commit.{write-put}
use bazel_buildbarn.Cas.ByteStream.Download.{read, get_request}
use bazel_buildbarn.Cas.ByteStream.Download.Transfer.{Transferred, get-read}
use bazel_buildbarn.Cas.ResourceName.RoundTrip.{IsField}
use bazel_buildbarn.Tests.Data.{zeros, zeros-IsDigest}
use bazel_buildbarn.Tests.Memory.{memory, update, view, NotFound, memory-IsStore}

-- A client whose requests are collected.
abbrev collector : WriteClient (List WriteRequest)
collector = record {
  open_write = λ w. (none, w);
  send = λ w request. (none, w ++ request ∷ []);
  close_and_recv = λ w. (none, w);
}

abbrev sent : List WriteRequest → List WriteRequest
sent w = w

collector-Delivers : Delivers collector sent
collector-Delivers = record {
  opens = λ w. refl;
  open_sent = λ w. refl;
  sends = λ w request. refl;
  send_sent = λ w request. refl;
  closes = λ w. refl;
  close_sent = λ w. refl;
}

abbrev empty : View
empty digest = none

abbrev id : List ℕ
id = b'u' ∷ []

id-IsField : IsField id
id-IsField = record { filled = λ e. cc; plain = (omega arith, tt) }

abbrev pieces : Reader
pieces = chunks ((1 ∷ 2 ∷ []) ∷ (3 ∷ []) ∷ [])

write-put_example :
    (let (result, w') = put collector [] id zeros pieces in
      (((drain pieces).1 ≡ eof)
        × (result ≡ ok tt)
        × ((write memory 2 empty (sent w') eof).0 ≡ ok 3)
        × Updated empty zeros (some (drain pieces).0) (view (write memory 2 empty (sent w') eof).1))
      ⊎ (((drain pieces).1 ≢ eof)
          × (result ≡ err (drain pieces).1)
          × ((ending : Error)
              → ((e : Error) × ((write memory 2 empty (sent w') ending).0 ≡ err e))
                × Same empty (view (write memory 2 empty (sent w') ending).1))))
unfolding drain
write-put_example =
    write-put memory view NotFound collector sent 2 empty [] zeros id pieces memory-IsStore
      collector-Delivers (omega arith) refl zeros-IsDigest (omega arith, tt) id-IsField
      (λ end. refl)

abbrev one_blob : View
one_blob = update empty zeros (some (1 ∷ 2 ∷ 3 ∷ []))

get-read_example :
    Transferred memory view NotFound 2 one_blob zeros
      (one_blob zeros)
      (read memory one_blob (get_request zeros))
get-read_example =
    get-read memory view NotFound 2 one_blob zeros memory-IsStore (omega arith) (λ e same h. cc)
      zeros-IsDigest (omega arith, tt)
