-- ===== src/Cas/ResourceName/RoundTrip.antt =====
-- The server reads the names that a client prints.
use bazel_buildbarn.Prelude.{
  ℕ, ◌<◌, ◌^◌, ◌≡◌, ◌≢◌, refl, ap, ◌∙◌, List, [], ◌∷◌, ◌++◌, false, ◌==◌, length, arith,
}
use bazel_buildbarn.Prelude.Decimal.{
  format_int, parse_int, Lacks, format_int-Lacks, parse_int-format_int,
}
use bazel_buildbarn.Prelude.Hex.{AllHex}
use bazel_buildbarn.Util.Status.{ok}
use bazel_buildbarn.Util.Digest.{Digest, PartialDigest, IsDigest, is_known_length}
use bazel_buildbarn.Util.Digest.Validation.{new_digest_iff}
use bazel_buildbarn.Circular.Record.Fields.{bytes_equal_refl}
use bazel_buildbarn.Cas.ResourceName.{
  blobs, uploads, blob_name, read_resource_name, write_resource_name, fields, with_size,
  parse_read_fields, parse_write_fields, parse_resource_name_read, parse_resource_name_write,
}

-- A field: some characters, none of them a slash.
pub record IsField (s : List ℕ) : Type 0 where
  pub filled : s ≢ []
  pub plain : Lacks b'/' s

fields-append :
    (c : ℕ) (s rest : List ℕ)
    → Lacks b'/' (c ∷ s)
    → fields ((c ∷ s) ++ b'/' ∷ rest) ≡ (c ∷ s) ∷ fields rest
unfolding fields
fields-append c [] rest plain =
    let other : (c == b'/') ≡ false = (let ne = plain.0 in ground arith) in rw other refl
fields-append c (d ∷ s) rest plain =
    let other : (c == b'/') ≡ false = (let ne = plain.0 in ground arith) in
    let next : (d == b'/') ≡ false = (let ne = plain.1.0 in ground arith) in
    let more = fields-append d s rest plain.1 in rw (other, more) (rw next refl)

fields_last : (c : ℕ) (s : List ℕ) → Lacks b'/' (c ∷ s) → fields (c ∷ s) ≡ (c ∷ s) ∷ []
unfolding fields
fields_last c [] plain =
    let other : (c == b'/') ≡ false = (let ne = plain.0 in ground arith) in rw other refl
fields_last c (d ∷ s) plain =
    let other : (c == b'/') ≡ false = (let ne = plain.0 in ground arith) in
    let next : (d == b'/') ≡ false = (let ne = plain.1.0 in ground arith) in
    let more = fields_last d s plain.1 in rw (other, more) (rw next refl)

field-append : (s rest : List ℕ) → IsField s → fields (s ++ b'/' ∷ rest) ≡ s ∷ fields rest
field-append [] rest f = absurd (f.filled refl)
field-append (c ∷ s) rest f = fields-append c s rest f.plain

field_last : (s : List ℕ) → IsField s → fields s ≡ s ∷ []
field_last [] f = absurd (f.filled refl)
field_last (c ∷ s) f = fields_last c s f.plain

AllHex-Lacks_slash : (s : List ℕ) → AllHex s → Lacks b'/' s
AllHex-Lacks_slash [] h = tt
AllHex-Lacks_slash (c ∷ s) h = (omega arith, AllHex-Lacks_slash s h.1)

hash-IsField : (d : Digest) → IsDigest d → IsField d.partial_digest.hash
unfolding is_known_length
hash-IsField d v = record {
  filled = λ e.
      (let known = v.known in
        let empty : length d.partial_digest.hash ≡ 0 = ap length e in ground (arith, known, empty));
  plain = AllHex-Lacks_slash d.partial_digest.hash v.hex;
}

size-IsField : (n : ℕ) → n < 2 ^ 63 → IsField (format_int n)
unfolding parse_int
size-IsField n small = record {
  filled = λ e. (let read = parse_int-format_int n small in let read' = rw e at read in cc);
  plain = format_int-Lacks b'/' n (omega arith) small;
}

blobs-IsField : IsField blobs
blobs-IsField = record {
  filled = λ e. cc;
  plain = (omega arith, (omega arith, (omega arith, (omega arith, (omega arith, tt)))));
}

uploads-IsField : IsField uploads
uploads-IsField = record {
  filled = λ e. cc;
  plain = (
    omega arith,
    (omega arith, (omega arith, (omega arith, (omega arith, (omega arith, (omega arith, tt)))))),
  );
}

fields-blob_name :
    (d : Digest)
    → IsDigest d
    → fields (blob_name d)
      ≡ blobs ∷ d.partial_digest.hash ∷ format_int d.partial_digest.size_bytes ∷ []
fields-blob_name d v =
    field-append blobs _ blobs-IsField
    ∙ ap (λ x. blobs ∷ x)
        (field-append d.partial_digest.hash _ (hash-IsField d v)
          ∙ ap (λ x. d.partial_digest.hash ∷ x)
              (field_last (format_int d.partial_digest.size_bytes)
                (size-IsField d.partial_digest.size_bytes v.size)))

with_size-format_int :
    (d : Digest)
    → IsDigest d
    → with_size d.instance_name d.partial_digest.hash
        (parse_int (format_int d.partial_digest.size_bytes))
      ≡ ok d
unfolding with_size
with_size-format_int d v =
    rw (parse_int-format_int d.partial_digest.size_bytes v.size)
      ((new_digest_iff d.instance_name d.partial_digest d).1 (refl, v))

parse_read :
    (i : List ℕ) (p : PartialDigest)
    → IsDigest (record { instance_name = i; partial_digest = p })
    → Lacks b'/' i
    → parse_resource_name_read
        (read_resource_name (record { instance_name = i; partial_digest = p }))
      ≡ ok (record { instance_name = i; partial_digest = p })
unfolding parse_resource_name_read read_resource_name parse_read_fields
parse_read [] p v plain =
    let d : Digest = record { instance_name = []; partial_digest = p } in
    rw (fields-blob_name d v, bytes_equal_refl blobs) (with_size-format_int d v)
parse_read (c ∷ cs) p v plain =
    let d : Digest = record { instance_name = c ∷ cs; partial_digest = p } in
    rw (fields-append c cs (blob_name d) plain, fields-blob_name d v, bytes_equal_refl blobs)
      (with_size-format_int d v)

-- The server reads the resource name of a read request that a client prints for a valid digest, whose
-- instance name has no slash, as that digest.
pub parse_resource_name_read-read_resource_name :
    (d : Digest)
    → IsDigest d
    → Lacks b'/' d.instance_name
    → parse_resource_name_read (read_resource_name d) ≡ ok d
parse_resource_name_read-read_resource_name d v plain =
    parse_read d.instance_name d.partial_digest v plain

parse_write :
    (i id : List ℕ) (p : PartialDigest)
    → IsDigest (record { instance_name = i; partial_digest = p })
    → Lacks b'/' i
    → IsField id
    → parse_resource_name_write
        (write_resource_name (record { instance_name = i; partial_digest = p }) id)
      ≡ ok (record { instance_name = i; partial_digest = p })
unfolding parse_resource_name_write write_resource_name parse_write_fields
parse_write [] id p v plain f =
    let d : Digest = record { instance_name = []; partial_digest = p } in
    rw
      (
        field-append uploads (id ++ b'/' ∷ blob_name d) uploads-IsField,
        field-append id (blob_name d) f,
        fields-blob_name d v,
        bytes_equal_refl uploads,
        bytes_equal_refl blobs,
      )
      (with_size-format_int d v)
parse_write (c ∷ cs) id p v plain f =
    let d : Digest = record { instance_name = c ∷ cs; partial_digest = p } in
    rw
      (
        fields-append c cs (uploads ++ b'/' ∷ (id ++ b'/' ∷ blob_name d)) plain,
        field-append uploads (id ++ b'/' ∷ blob_name d) uploads-IsField,
        field-append id (blob_name d) f,
        fields-blob_name d v,
        bytes_equal_refl uploads,
        bytes_equal_refl blobs,
      )
      (with_size-format_int d v)

-- The server reads the resource name of a write request that a client prints for a valid digest, whose
-- instance name has no slash, and for a UUID, which has none either and is not empty, as that digest.
pub parse_resource_name_write-write_resource_name :
    (d : Digest) (id : List ℕ)
    → IsDigest d
    → Lacks b'/' d.instance_name
    → IsField id
    → parse_resource_name_write (write_resource_name d id) ≡ ok d
parse_resource_name_write-write_resource_name d id v plain f =
    parse_write d.instance_name id d.partial_digest v plain f
