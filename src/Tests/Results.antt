-- ===== src/Tests/Results.antt =====
-- The Action Cache, and the executors of build actions.
use bazel_buildbarn.Prelude.{
  ℕ, ap, ◌∙◌, zero, suc, ◌+◌, ◌≡◌, refl, ◌⊎◌, inl, inr, List, [], ◌∷◌, Option, none, some, Bool,
  true, false,
}
use bazel_buildbarn.Util.Status.{Result, ok, err, fatal, Error, other, text, format, bytes}
use bazel_buildbarn.Blobstore.BlobAccess.Laws.{View}
use bazel_buildbarn.Util.Codec.{Codec}
use bazel_buildbarn.Ac.{
  ActionCache, put_action_result, ActionResultRequest, blob_access_action_cache, serve_get,
  serve_update,
}
use bazel_buildbarn.Ac.RoundTrip.{get_action_result-put_action_result, serve_get-serve_update}
use bazel_buildbarn.Builder.Executors.{
  ActionRequest, ActionResponse, Executed, Services, convert_error_to_execute_response,
  execute_caching, execute_flushing, execute_worker,
}
use bazel_buildbarn.Builder.Executors.Durability.{
  IsActionCache, request_for, Answered, execute_worker-Answered, cached_before_flush,
}
use bazel_buildbarn.Util.Digest.{Digest, new_digest, find_non_hex}
use bazel_buildbarn.Tests.Data.{hello, hello-IsDigest, convert}
use bazel_buildbarn.Tests.Memory.{memory, view, NotFound, memory-IsStore}

abbrev malformed : Error
malformed = other (text "malformed")

-- Exit codes, as one byte.
abbrev decode_one : List ℕ → Error ⊎ ℕ
decode_one (b ∷ []) = inr b
decode_one _ = inl malformed

abbrev one_byte : Codec ℕ
one_byte = record { marshal = λ n. inr (n ∷ []); unmarshal = decode_one }

abbrev empty : View
empty digest = none

serve_get-serve_update_example :
    (let request : ActionResultRequest = record {
      instance_name = b'x' ∷ [];
      action_digest = some hello.partial_digest;
    } in
      let cache = blob_access_action_cache convert one_byte memory in
      let (r, s') = serve_update cache true empty request 7 in
      (r ≡ ok (7, none)) × ((serve_get cache s' request).0 ≡ ok 7))
serve_get-serve_update_example =
    serve_get-serve_update convert one_byte memory view NotFound empty (b'x' ∷ [])
      hello.partial_digest 7 (7 ∷ []) memory-IsStore hello-IsDigest refl refl

-- The state counts the calls; flushing fails when there have been two.
abbrev flush_two : ℕ → Option Error × ℕ
flush_two (suc (suc zero)) = (some malformed, 2)
flush_two n = (none, n)

abbrev services : Services ℕ ℕ
services = record {
  put_action_result = λ w digest result. (none, w + 1);
  put_action_failure = λ w failure digest. (ok digest, w);
  parse = λ path. some (b'u' ∷ []);
  flush = flush_two;
}

abbrev response : ActionResponse ℕ
response = record { status_of = none; result = some 0; message = none }

abbrev base : ℕ → ActionRequest → Executed ℕ ℕ
base w request = (ok (response, true), w + 1)

abbrev request : ActionRequest
request = record { instance_name = b'x' ∷ []; action_digest = some hello.partial_digest }

-- An Action Cache in memory, and flushing that fails.
abbrev cache : ActionCache View ℕ
cache = blob_access_action_cache convert one_byte memory

abbrev error_of : Result (Unit {0}) × View → Option Error × View
error_of (ok _, w) = (none, w)
error_of (err e, w) = (some e, w)
error_of (fatal, w) = (some malformed, w)

abbrev caching : Services View ℕ
caching = record {
  put_action_result = λ w digest result. error_of (cache.put_action_result w digest result);
  put_action_failure = λ w failure digest. (ok digest, w);
  parse = λ path. some (b'u' ∷ []);
  flush = λ w. (some malformed, w);
}

abbrev lookup : View → Digest → Result ℕ
lookup w digest = (cache.get_action_result w digest).0

error_of_ok :
    (p : Result (Unit {0}) × View) → p.0 ≡ ok tt → ((error_of p).0 ≡ none) × ((error_of p).1 ≡ p.1)
error_of_ok (ok _, w) e = (refl, refl)
error_of_ok (err x, w) e = absurd (cc)
error_of_ok (fatal, w) e = absurd (cc)

caching-IsActionCache : IsActionCache caching lookup
unfolding blob_access_action_cache
caching-IsActionCache = record {
  put = λ w digest result.
      let (stored, there) =
        get_action_result-put_action_result convert one_byte memory view NotFound memory-IsStore w
          digest result (result ∷ []) refl refl in
      let (fine, same) =
        error_of_ok (put_action_result convert one_byte memory w digest result) stored in
      (fine, ap (λ v. lookup v digest) same ∙ there);
  flush = λ w digest. refl;
}

abbrev running : View → ActionRequest → Executed ℕ View
running w action = (ok (response, true), w)

cached_before_flush_example :
    (let (r, w) = execute_worker convert caching running empty (request_for hello) in
      (r ≡ ok (convert_error_to_execute_response convert malformed, false))
      × (lookup w hello ≡ ok 0))
cached_before_flush_example =
    cached_before_flush convert caching running lookup hello 0 response (b'u' ∷ []) empty empty
      caching-IsActionCache hello-IsDigest refl refl refl

abbrev answer : ActionResponse ℕ × Bool
answer = (
  record response {
    message = some (format "Action details (cached result): %s" (bytes (b'u' ∷ []) ∷ []));
  },
  true,
)

runs : execute_worker convert services base 5 request ≡ (ok answer, 7)
unfolding execute_flushing execute_caching new_digest find_non_hex
runs = refl

execute_worker-Answered_example :
    Answered convert services (execute_caching convert services base 5 request) answer 7
execute_worker-Answered_example =
    execute_worker-Answered convert services base request 5 7 answer runs (inr refl)
