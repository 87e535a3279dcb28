-- ===== src/Ac.antt =====
-- pkg/ac: the Action Cache. action_cache.go is the interface, blob_access_action_cache.go keeps it in a
-- storage backend, and action_cache_server.go is the service. `A` are the action results, and a codec
-- is what protocol buffers make of them.
pub mod RoundTrip
use bazel_buildbarn.Prelude.{
  ℕ, ◌≡◌, ◌⊎◌, inl, inr, List, [], ◌∷◌, Option, none, some, Bool, true, false, not, if◌then◌else◌,
  length,
}
use bazel_buildbarn.Util.Status.{
  Result, ok, err, fatal, Error, eof, status, Converter, status_wrap_with_code, text, not_found,
  invalid_argument, unimplemented,
}
use bazel_buildbarn.Util.Digest.{Digest, PartialDigest, new_digest}
use bazel_buildbarn.Util.Reader.{Reader, drain, chunks}
use bazel_buildbarn.Util.Codec.{Codec}
use bazel_buildbarn.Blobstore.BlobAccess.{BlobAccess}

pub record ActionCache (S A : Type 0) : Type 0 where
  pub get_action_result : S → Digest → Result A × S
  pub put_action_result : S → Digest → A → Result (Unit {0}) × S

module _ {S R A : Type 0} (convert : Converter) (codec : Codec A) (ba : BlobAccess S R) where
  -- What Unmarshal has returned.
  unmarshalled : S → Digest → Error ⊎ A → Result A × S
  unmarshalled s digest (inr result) = (ok result, s)
  unmarshalled s digest (inl e) = (
    err (status_wrap_with_code convert e not_found (text "Failed to unmarshal message")),
    (ba.delete s digest).1,
  )

  read_all : S → Digest → List ℕ × Error → Result A × S
  unfolding unmarshalled
  read_all s digest (data_read, eof) = unmarshalled s digest (codec.unmarshal data_read)
  read_all s digest (data_read, e) = (err e, s)

  found : Digest → Result (ℕ × R) × S → Result A × S
  unfolding read_all
  found digest (ok (size_bytes, r), s) =
      let (events, s') = ba.reading r s in read_all s' digest (drain events)
  found digest (err e, s) = (err e, s)
  found digest (fatal, s) = (fatal, s)

  unfoldable pub get_action_result : S → Digest → Result A × S
  unfolding found
  get_action_result s digest = found digest (ba.get s digest)

  marshalled : S → Digest → Error ⊎ List ℕ → Result (Unit {0}) × S
  marshalled s digest (inr b) = ba.put s digest (length b) (chunks (b ∷ []))
  marshalled s digest (inl e) =
      (err (status_wrap_with_code convert e invalid_argument (text "Failed to marshal message")), s)

  unfoldable pub put_action_result : S → Digest → A → Result (Unit {0}) × S
  unfolding marshalled
  put_action_result s digest result = marshalled s digest (codec.marshal result)

  unfoldable pub blob_access_action_cache : ActionCache S A
  blob_access_action_cache = record {
    get_action_result = get_action_result;
    put_action_result = put_action_result;
  }

-- GetActionResultRequest, and UpdateActionResultRequest with its result
pub record ActionResultRequest : Type 0 where
  pub instance_name : List ℕ
  pub action_digest : Option PartialDigest

module _ {S A : Type 0} (cache : ActionCache S A) where
  got : S → Result Digest → Result A × S
  got s (ok digest) = cache.get_action_result s digest
  got s (err e) = (err e, s)
  got s fatal = (fatal, s)

  -- GetActionResult of the server
  unfoldable pub serve_get : S → ActionResultRequest → Result A × S
  unfolding got
  serve_get s request = got s (new_digest request.instance_name request.action_digest)

  -- The result comes back with the error, if there is one.
  answered : A → Result (Unit {0}) → Result (A × Option Error)
  answered result (ok _) = ok (result, none)
  answered result (err e) = ok (result, some e)
  answered result fatal = fatal

  updated : S → A → Result Digest → Result (A × Option Error) × S
  unfolding answered
  updated s result (err e) = (err e, s)
  updated s result fatal = (fatal, s)
  updated s result (ok digest) =
      let (r, s') = cache.put_action_result s digest result in (answered result r, s')

  abbrev pub read_only : Error
  read_only = status unimplemented (text "This service can only be used to get action results")

  -- UpdateActionResult of the server
  unfoldable pub serve_update : Bool → S → ActionResultRequest → A → Result (A × Option Error) × S
  unfolding updated
  serve_update allow_updates s request result =
      if not allow_updates
      then (err read_only, s)
      else updated s result (new_digest request.instance_name request.action_digest)
