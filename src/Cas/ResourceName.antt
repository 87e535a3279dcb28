-- ===== src/Cas/ResourceName.antt =====
-- The resource names of the byte stream protocol: as a client prints them, in
-- pkg/blobstore/content_addressable_storage_blob_access.go, and as the server reads them, in
-- pkg/cas/byte_stream_server.go.
pub mod RoundTrip
use bazel_buildbarn.Prelude.{
  ℕ, zero, suc, ◌<◌, ◌^◌, ◌≡◌, ◌≢◌, refl, sym, ap, ◌∙◌, List, [], ◌∷◌, ◌++◌, Option, none, some,
  Bool, true, false, not, ◌&&◌, ◌==◌, if◌then◌else◌, length, arith, Bool-cases, inl, inr,
}
use bazel_buildbarn.Prelude.Decimal.{
  format_int, parse_int, Lacks, format_int-Lacks, parse_int-format_int,
}
use bazel_buildbarn.Prelude.Hex.{AllHex}
use bazel_buildbarn.Util.Status.{Result, ok, err, Error, status, invalid_argument, text}
use bazel_buildbarn.Util.Digest.{Digest, PartialDigest, IsDigest, new_digest, is_known_length}
use bazel_buildbarn.Util.Digest.Validation.{new_digest_iff}
use bazel_buildbarn.Circular.Record.{bytes_equal}
use bazel_buildbarn.Circular.Record.Fields.{bytes_equal_refl}

abbrev pub blobs : List ℕ
blobs = b'b' ∷ b'l' ∷ b'o' ∷ b'b' ∷ b's' ∷ []

abbrev pub uploads : List ℕ
uploads = b'u' ∷ b'p' ∷ b'l' ∷ b'o' ∷ b'a' ∷ b'd' ∷ b's' ∷ []

-- Behind the instance name, if there is one
abbrev pub in_instance : List ℕ → List ℕ → List ℕ
in_instance [] name = name
in_instance (c ∷ cs) name = (c ∷ cs) ++ b'/' ∷ name

abbrev pub blob_name : Digest → List ℕ
blob_name d =
    blobs ++ b'/' ∷ (d.partial_digest.hash ++ b'/' ∷ format_int d.partial_digest.size_bytes)

-- The name of a client's read request
unfoldable pub read_resource_name : Digest → List ℕ
read_resource_name d = in_instance d.instance_name (blob_name d)

-- The name of a client's write request; `id` is the new UUID.
unfoldable pub write_resource_name : Digest → List ℕ → List ℕ
write_resource_name d id =
    in_instance d.instance_name (uploads ++ b'/' ∷ (id ++ b'/' ∷ blob_name d))

starts_field : List ℕ → Bool
starts_field [] = false
starts_field (c ∷ cs) = not (c == b'/')

attach : ℕ → Bool → List (List ℕ) → List (List ℕ)
attach c true (f ∷ fs) = (c ∷ f) ∷ fs
attach c _ fs = (c ∷ []) ∷ fs

-- strings.FieldsFunc at slashes: empty fields are left out.
unfoldable pub fields : List ℕ → List (List ℕ)
unfolding starts_field attach
fields [] = []
fields (c ∷ cs) =
    let rest = fields cs in if c == b'/' then rest else attach c (starts_field cs) rest

abbrev invalid_name : Error
invalid_name = status invalid_argument (text "Invalid resource naming scheme")

with_size : List ℕ → List ℕ → Option ℕ → Result Digest
with_size instance_name hash none = err invalid_name
with_size instance_name hash (some size_bytes) =
    new_digest instance_name (some (record { hash = hash; size_bytes = size_bytes }))

parse_read_fields : List (List ℕ) → Result Digest
unfolding with_size
parse_read_fields (b ∷ hash ∷ size ∷ []) =
    if bytes_equal b blobs then with_size [] hash (parse_int size) else err invalid_name
parse_read_fields (i ∷ b ∷ hash ∷ size ∷ []) =
    if bytes_equal b blobs then with_size i hash (parse_int size) else err invalid_name
parse_read_fields _ = err invalid_name

unfoldable pub parse_resource_name_read : List ℕ → Result Digest
unfolding parse_read_fields
parse_resource_name_read name = parse_read_fields (fields name)

parse_write_fields : List (List ℕ) → Result Digest
unfolding with_size
parse_write_fields (u ∷ id ∷ b ∷ hash ∷ size ∷ []) =
    if bytes_equal u uploads && bytes_equal b blobs
    then with_size [] hash (parse_int size)
    else err invalid_name
parse_write_fields (i ∷ u ∷ id ∷ b ∷ hash ∷ size ∷ []) =
    if bytes_equal u uploads && bytes_equal b blobs
    then with_size i hash (parse_int size)
    else err invalid_name
parse_write_fields _ = err invalid_name

unfoldable pub parse_resource_name_write : List ℕ → Result Digest
unfolding parse_write_fields
parse_resource_name_write name = parse_write_fields (fields name)
