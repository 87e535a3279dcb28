-- ===== src/Tests/Adapters.antt =====
-- The adapters of pkg/blobstore, in front of a backend in memory.
use bazel_buildbarn.Prelude.{
  ℕ, ◌<◌, ◌≤◌, ◌≡◌, ◌≢◌, ◌↔◌, refl, ◌⊎◌, List, [], ◌∷◌, none, some, length, arith, true,
}
use bazel_buildbarn.Prelude.Hex.{decode_string}
use bazel_buildbarn.Util.Status.{Result, ok, err, Error, eof, internal, invalid_argument}
use bazel_buildbarn.Util.Digest.{without_instance, get_key, new_hasher, get_hash_bytes, md5}
use bazel_buildbarn.Util.Reader.{Reader, drain, chunks}
use bazel_buildbarn.Blobstore.BlobAccess.Laws.{View, Same, Updated, Got, IsStore}
use bazel_buildbarn.Blobstore.SizeDistinguishing.{size_distinguishing_blob_access}
use bazel_buildbarn.Blobstore.SizeDistinguishing.Refinement.{
  either_view, size_distinguishing-IsStore,
}
use bazel_buildbarn.Blobstore.Merkle.{
  Checker, CheckedReader, new_checker, longer, validated, read, put, get, reading,
  merkle_blob_access,
}
use bazel_buildbarn.Blobstore.Merkle.Matching.{Matches, validated-Matches}
use bazel_buildbarn.Blobstore.Merkle.Storage.{IsWhole, put_exact, get_exact}
use bazel_buildbarn.Blobstore.BatchedStore
use bazel_buildbarn.Circular.Record.{bytes_equal}
use bazel_buildbarn.Blobstore.BatchedStore.{PendingPutOperation, Pending, lookup, flush}
use bazel_buildbarn.Blobstore.BatchedStore.Pending.{IsPending, none-IsPending, append-IsPending}
use bazel_buildbarn.Blobstore.BatchedStore.Flush.{flush-put}
use bazel_buildbarn.Tests.Data.{zero_hashes, zeros, zeros-IsDigest}
use bazel_buildbarn.Tests.Memory.{memory, update, view, NotFound, memory-IsStore}

size_distinguishing-IsStore_example :
    IsStore
      (size_distinguishing_blob_access memory memory 1000)
      (either_view 1000 view view)
      NotFound
size_distinguishing-IsStore_example =
    size_distinguishing-IsStore memory memory 1000 view view NotFound memory-IsStore memory-IsStore

abbrev three : List ℕ
three = 1 ∷ 2 ∷ 3 ∷ []

abbrev pieces : Reader
pieces = chunks ((1 ∷ 2 ∷ []) ∷ (3 ∷ []) ∷ [])

three-Matches : Matches zero_hashes zeros three
unfolding new_hasher get_hash_bytes decode_string
three-Matches = record { algorithm = md5; size = refl; hasher = refl; checksum = refl }

validated-Matches_example :
    (v : Checker) × (new_checker zeros internal ≡ ok v)
    × (((drain (validated zero_hashes v pieces).0).1 ≡ eof)
        ↔ (((drain pieces).1 ≡ eof) × Matches zero_hashes zeros (drain pieces).0))
    × ((drain (validated zero_hashes v pieces).0).1 ≡ eof
        → (drain (validated zero_hashes v pieces).0).0 ≡ (drain pieces).0)
    × (((validated zero_hashes v pieces).1 ≡ true) ↔ (
        (3 < length (drain pieces).0)
        ⊎ (((drain pieces).1 ≡ eof) × (Matches zero_hashes zeros (drain pieces).0 → ⊥))))
validated-Matches_example = validated-Matches zero_hashes zeros internal pieces zeros-IsDigest

abbrev empty : View
empty digest = none

put_exact_example :
    (let (result, s') = put zero_hashes memory empty zeros 3 pieces in
      (IsWhole zero_hashes zeros 3 pieces
        × (result ≡ ok tt)
        × Updated empty zeros (some (drain pieces).0) (view s'))
      ⊎ ((IsWhole zero_hashes zeros 3 pieces → ⊥)
          × ((e : Error) × (result ≡ err e))
          × Same empty (view s')))
put_exact_example =
    put_exact zero_hashes memory view NotFound empty zeros 3 pieces memory-IsStore zeros-IsDigest

-- A run that stores, and one of a blob that is too long.
put-pieces : ((put zero_hashes memory empty zeros 3 pieces).1 zeros) ≡ some three
unfolding put validated read new_checker get_hash_bytes decode_string new_hasher drain bytes_equal
put-pieces = refl

put-longer :
    (put zero_hashes memory empty zeros 3 ((9 ∷ [], none) ∷ pieces)).0
    ≡ err (longer invalid_argument)
unfolding put validated read new_checker get_hash_bytes decode_string new_hasher drain bytes_equal
put-longer = refl

abbrev one_blob : View
one_blob = update empty zeros (some three)

get_exact_example :
    (let (result, s') = get zero_hashes memory one_blob zeros in
      (Matches zero_hashes zeros three
        × Got (merkle_blob_access zero_hashes memory) view NotFound one_blob zeros (some three))
      ⊎ ((Matches zero_hashes zeros three → ⊥)
          × (((e : Error) × (result ≡ err e) × Updated one_blob zeros none (view s'))
              ⊎ ((size_bytes : ℕ) × (r : CheckedReader Reader) × (result ≡ ok (size_bytes, r))
                  × ((drain (reading zero_hashes memory r s').0).1 ≢ eof)
                  × Updated one_blob zeros none (view (reading zero_hashes memory r s').1)))))
unfolding bytes_equal
get_exact_example =
    get_exact zero_hashes memory view NotFound one_blob zeros three memory-IsStore zeros-IsDigest
      refl

abbrev range : Pending → Pending
range pending = pending

abbrev close : Reader → Result (Unit {0})
close r = ok tt

abbrev operation : PendingPutOperation
operation = record { digest = zeros; size_bytes = 3; r = pieces }

operation-IsPending : IsPending without_instance (operation ∷ [])
unfolding lookup drain
operation-IsPending =
    append-IsPending without_instance [] operation (none-IsPending without_instance) refl refl refl

flush-put_example :
    (let st =
        (BatchedStore.put memory without_instance 2 range close (empty, []) zeros 3 pieces).1 in
      let result = flush memory without_instance 2 range close st in
      IsPending without_instance st.1
      × (length st.1 ≤ 2)
      × (result.0 ≡ ok tt)
      × ((op : PendingPutOperation) × ((op ≡ operation)
            ⊎ (lookup without_instance (get_key zeros without_instance) [] ≡ some op))
          × (get_key op.digest without_instance ≡ get_key zeros without_instance)
          × (((view st.0 op.digest ≡ none) × (view result.1.0 op.digest ≡ some (drain op.r).0))
              ⊎ ((blob : List ℕ) × (view st.0 op.digest ≡ some blob)
                  × (view result.1.0 op.digest ≡ some blob)))))
unfolding drain
flush-put_example =
    flush-put memory view NotFound without_instance 2 range close empty [] zeros 3 pieces
      memory-IsStore (λ p op. (λ m. m, λ m. m)) (omega arith) (omega arith)
      (none-IsPending without_instance) (omega arith) refl refl
