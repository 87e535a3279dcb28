-- ===== src/Tests/Data.antt =====
-- Digests, files and stores for the tests.
use bazel_buildbarn.Prelude.{
  ℕ, zero, suc, ◌*◌, ◌≡◌, refl, List, [], ◌∷◌, none, some, true, arith, length, replicate, inl, inr,
}
use bazel_buildbarn.Prelude.Hex.{AllHex, AllBytes}
use bazel_buildbarn.Util.Status.{
  Error, Code, Message, Details, error_proto, Converter, eof, status, violation, other, unknown,
  text,
}
use bazel_buildbarn.Util.Digest.{Digest, IsDigest, is_known_length}
use bazel_buildbarn.Util.Digest.{Algorithm, md5, sha1, sha256}
use bazel_buildbarn.Util.Digest.Generator.{Hashes, IsHashes}
use bazel_buildbarn.Circular.File.{Memory}
use bazel_buildbarn.Circular.StateStore.{FileStateStore}
use bazel_buildbarn.Circular.StateStore.Invariant.{IsWindow}

-- An MD5 digest of a blob of five bytes.
abbrev pub hello : Digest
hello = record {
  instance_name = b'x' ∷ [];
  partial_digest = record { hash = replicate 32 b'a'; size_bytes = 5 };
}

AllHex-replicate : (n : ℕ) → AllHex (replicate n b'a')
AllHex-replicate zero = tt
AllHex-replicate (suc n) = (inr (omega arith, omega arith), AllHex-replicate n)

pub hello-IsDigest : IsDigest hello
unfolding is_known_length
hello-IsDigest = record { hex = AllHex-replicate 32; known = refl; size = omega arith }

-- Hash functions whose sums are all zeros.
abbrev pub zero_sum : Algorithm → List ℕ
zero_sum md5 = replicate 16 0
zero_sum sha1 = replicate 20 0
zero_sum sha256 = replicate 32 0

abbrev pub zero_hashes : Hashes
zero_hashes = record { sum = λ a b. zero_sum a }

AllBytes-replicate : (n : ℕ) → AllBytes (replicate n 0)
AllBytes-replicate zero = tt
AllBytes-replicate (suc n) = (omega arith, AllBytes-replicate n)

zero_sum-known : (a : Algorithm) → is_known_length (2 * length (zero_sum a)) ≡ true
unfolding is_known_length
zero_sum-known md5 = refl
zero_sum-known sha1 = refl
zero_sum-known sha256 = refl

zero_sum-AllBytes : (a : Algorithm) → AllBytes (zero_sum a)
zero_sum-AllBytes md5 = AllBytes-replicate 16
zero_sum-AllBytes sha1 = AllBytes-replicate 20
zero_sum-AllBytes sha256 = AllBytes-replicate 32

pub zero_hashes-IsHashes : IsHashes zero_hashes
zero_hashes-IsHashes = record { size = λ a b. zero_sum-known a; bytes = λ a b. zero_sum-AllBytes a }

-- status.Convert: the status of a status, and Unknown with the text of any other error.
abbrev pub code_of : Error → Code
code_of eof = unknown
code_of (status c m) = c
code_of (violation c m _ _) = c
code_of (other m) = unknown

abbrev pub message_of : Error → Message
message_of eof = text "EOF"
message_of (status c m) = m
message_of (violation c m _ _) = m
message_of (other m) = m

abbrev pub details_of : Error → Details
details_of (violation c m kind subject) = some (kind, subject)
details_of _ = none

pub code_of-error_proto : (c : Code) (m : Message) (d : Details) → code_of (error_proto c m d) ≡ c
code_of-error_proto c m none = refl
code_of-error_proto c m (some (kind, subject)) = refl

pub message_of-error_proto :
    (c : Code) (m : Message) (d : Details) → message_of (error_proto c m d) ≡ m
message_of-error_proto c m none = refl
message_of-error_proto c m (some (kind, subject)) = refl

pub details_of-error_proto :
    (c : Code) (m : Message) (d : Details) → details_of (error_proto c m d) ≡ d
details_of-error_proto c m none = refl
details_of-error_proto c m (some (kind, subject)) = refl

abbrev pub convert : Converter
convert = record {
  code_of = code_of;
  message_of = message_of;
  details_of = details_of;
  code_of-error_proto = code_of-error_proto;
  message_of-error_proto = message_of-error_proto;
  details_of-error_proto = details_of-error_proto;
}

-- A file of 600 zeros.
abbrev pub blank : Memory
blank = record { byte = λ i. 0; size = 600 }

-- A state store over a data file of 100 bytes, whose cursors are 5 and 90.
abbrev pub half_full : FileStateStore Memory
half_full = record { file = blank; data_size = 100; cursors = record { read = 5; write = 90 } }

pub half_full-IsWindow : IsWindow 100 (record { read = 5; write = 90 })
half_full-IsWindow = record { ordered = omega arith; bounded = omega arith; word = omega arith }

-- The digest, by hash functions whose sums are zeros, of any three bytes.
abbrev pub zeros : Digest
zeros = record {
  instance_name = b'x' ∷ [];
  partial_digest = record { hash = replicate 32 b'0'; size_bytes = 3 };
}

hex_zeros : (n : ℕ) → AllHex (replicate n b'0')
hex_zeros zero = tt
hex_zeros (suc n) = (inl (omega arith, omega arith), hex_zeros n)

pub zeros-IsDigest : IsDigest zeros
unfolding is_known_length
zeros-IsDigest = record { hex = hex_zeros 32; known = refl; size = omega arith }
