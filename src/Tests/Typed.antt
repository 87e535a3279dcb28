-- ===== src/Tests/Typed.antt =====
-- Typed access to a backend in memory, and its service.
use bazel_buildbarn.Prelude.{
  ℕ, Bool, ◌≡◌, ◌↔◌, refl, ◌⊎◌, inl, inr, List, [], ◌∷◌, ◌++◌, Option, none, some, true, Member,
  arith,
}
use bazel_buildbarn.Util.Status.{Result, ok, err, Error, other, text}
use bazel_buildbarn.Util.Digest.{Digest}
use bazel_buildbarn.Util.Codec.{Codec}
use bazel_buildbarn.Util.Reader.{Reader}
use bazel_buildbarn.Util.KeyMap.{KeyMap, no_keys, with_key, without_key}
use bazel_buildbarn.Circular.Record.Fields.{bytes_equal_refl}
use bazel_buildbarn.Circular.Record.{bytes_equal}
use bazel_buildbarn.Blobstore.BlobAccess.Laws.{View, Same, Updated}
use bazel_buildbarn.Cas.Storage.{get_message, put_message, Directory, get_file}
use bazel_buildbarn.Cas.Storage.RoundTrip.{Names, get_message-put_message}
use bazel_buildbarn.Cas.Storage.Files.{IsDirectory, IsExclusive, get_file_lem, get_file_leaves_file}
use bazel_buildbarn.Cas.MissingBlobs.{serve_find_missing, request_find_missing}
use bazel_buildbarn.Cas.MissingBlobs.Agreement.{InInstance, request_find_missing-serve_find_missing}
use bazel_buildbarn.Tests.Data.{
  hello, hello-IsDigest, zeros, zeros-IsDigest, zero_hashes, zero_hashes-IsHashes,
}
use bazel_buildbarn.Tests.Memory.{memory, update, view, NotFound, memory-IsStore}

abbrev nothing : View
nothing digest = none

-- Numbers, as one byte.
abbrev decode_byte : List ℕ → Error ⊎ ℕ
decode_byte (b ∷ []) = inr b
decode_byte _ = inl (other (text "malformed"))

abbrev byte_codec : Codec ℕ
byte_codec = record { marshal = λ n. inr (n ∷ []); unmarshal = decode_byte }

get_message-put_message_example :
    (let (r, s') = put_message zero_hashes memory byte_codec nothing 7 hello in
      (digest : Digest) × (r ≡ ok digest)
      × Names zero_hashes hello (7 ∷ []) digest
      × Updated (view nothing) digest (some (7 ∷ [])) (view s')
      × ((get_message zero_hashes memory byte_codec s' digest).0 ≡ ok 7))
get_message-put_message_example =
    get_message-put_message zero_hashes byte_codec memory view NotFound nothing hello 7 (7 ∷ [])
      zero_hashes-IsHashes memory-IsStore hello-IsDigest refl refl (omega arith)

-- A directory in memory, whose files are known by their names.
abbrev created : KeyMap (List ℕ) → List ℕ → Option (List ℕ) → Result (List ℕ) × KeyMap (List ℕ)
created w name none = (ok name, with_key name [] w)
created w name (some bs) = (err (other (text "file exists")), w)

abbrev written :
    KeyMap (List ℕ) → List ℕ → List ℕ → Option (List ℕ) → Option Error × KeyMap (List ℕ)
written w name b none = (some (other (text "no such file")), w)
written w name b (some bs) = (none, with_key name (bs ++ b) w)

abbrev folder : Directory (KeyMap (List ℕ)) (List ℕ)
folder = record {
  create = λ w name m. created w name (w name);
  write_file = λ w f b. written w f b (w f);
  remove = λ w name. (none, without_key name w);
}

abbrev content : KeyMap (List ℕ) → List ℕ → Option (List ℕ)
content w name = w name

folder-IsDirectory : IsDirectory folder (λ f. f) content
folder-IsDirectory = record {
  create =
      λ w name m absent. (name, rw absent refl, refl, rw absent (rw (bytes_equal_refl name) refl));
  write_file = λ w f b old has. (rw has refl, rw has (rw (bytes_equal_refl f) refl));
}

abbrev greeting : View
greeting = update nothing hello (some (1 ∷ 2 ∷ []))

-- Closing a reader leaves the backend as it is.
abbrev abandon : Reader → ℕ → View → View
abandon r n s = s

get_file_lem_example :
    (let (r, (s', w')) =
        get_file memory folder abandon (greeting, no_keys) hello (b'f' ∷ []) true in
      (r ≡ ok tt) × (content w' (b'f' ∷ []) ≡ some (1 ∷ 2 ∷ [])))
unfolding bytes_equal
get_file_lem_example =
    get_file_lem memory folder abandon view NotFound (λ f. f) content greeting no_keys hello
      (b'f' ∷ []) (1 ∷ 2 ∷ []) true memory-IsStore folder-IsDirectory refl refl

folder-IsExclusive : IsExclusive folder content
folder-IsExclusive w name old m has = (other (text "file exists"), rw has refl)

get_file_leaves_file_example :
    (let (r, (s', w')) = get_file memory folder abandon (nothing, no_keys) hello (b'f' ∷ []) true in
      (e : Error) × (r ≡ err e)
      × NotFound e
      × (content w' (b'f' ∷ []) ≡ some [])
      × ((later : View) (d : Digest) (x : Bool)
          → (refusal : Error) × ((get_file memory folder abandon (later, w') d (b'f' ∷ []) x).0
              ≡ err refusal)))
get_file_leaves_file_example =
    get_file_leaves_file memory folder abandon view NotFound (λ f. f) content nothing no_keys hello
      (b'f' ∷ []) true memory-IsStore folder-IsDirectory folder-IsExclusive refl refl

abbrev greetings : List Digest
greetings = hello ∷ zeros ∷ []

greetings-InInstance : InInstance (b'x' ∷ []) greetings
greetings-InInstance d (inl e) = rw e (hello-IsDigest, refl)
greetings-InInstance d (inr (inl e)) = rw e (zeros-IsDigest, refl)
greetings-InInstance d (inr (inr m)) = absurd m

request_find_missing-serve_find_missing_example :
    (let (r, s') = request_find_missing (serve_find_missing memory) greeting greetings in
      (missing : List Digest) × (r ≡ ok missing)
      × ((digest : Digest)
          → Member digest missing ↔ (Member digest greetings × (view greeting digest ≡ none)))
      × Same (view greeting) (view s'))
request_find_missing-serve_find_missing_example =
    request_find_missing-serve_find_missing memory view NotFound greeting (b'x' ∷ []) greetings
      memory-IsStore greetings-InInstance
