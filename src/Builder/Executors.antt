-- ===== src/Builder/Executors.antt =====
-- The executors of build actions around the one that runs them: pkg/builder/build_executor.go,
-- caching_build_executor.go and storage_flushing_build_executor.go. `A` are the action results, and `W`
-- is the state of all that the executors act on.
pub mod Durability
use bazel_buildbarn.Prelude.{ℕ, String, List, [], ◌∷◌, Option, none, some, Bool, true, false}
use bazel_buildbarn.Util.Status.{
  Result, ok, err, fatal, Error, Code, Message, Details, Arg, Converter, status_wrap, text, format,
  bytes, number,
}
use bazel_buildbarn.Util.Digest.{Digest, PartialDigest, new_digest}

pub record ActionRequest : Type 0 where
  pub instance_name : List ℕ
  pub action_digest : Option PartialDigest

-- remoteexecution.ExecuteResponse
pub record ActionResponse (A : Type 0) : Type 0 where
  pub status_of : Option (Code × (Message × Details))
  pub result : Option A
  pub message : Option Message

-- The response, and whether it may be cached; or the end of the process by log.Fatal
abbrev pub Executed : Type 0 → Type 0 → Type 0
Executed A W = Result (ActionResponse A × Bool) × W

-- What the executors call.
pub record Services (W A : Type 0) : Type 0 where
  -- PutActionResult of the Action Cache
  pub put_action_result : W → Digest → A → Option Error × W
  -- PutActionFailure of the Content Addressable Storage
  pub put_action_failure : W → Option PartialDigest × A → Digest → Result Digest × W
  -- Parse of the browser's URL
  pub parse : Message → Option (List ℕ)
  -- Flushing of pending writes
  pub flush : W → Option Error × W

module _ (convert : Converter) where
  open convert use {code_of, message_of, details_of}

  unfoldable pub convert_error_to_execute_response : {A : Type 0} → Error → ActionResponse A
  convert_error_to_execute_response e = record {
    status_of = some (code_of e, (message_of e, details_of e));
    result = none;
    message = none;
  }

abbrev pub action_path : String → Digest → Message
action_path path digest = format path (
    bytes digest.instance_name
    ∷ bytes digest.partial_digest.hash
    ∷ number digest.partial_digest.size_bytes
    ∷ [])

module _ {W A : Type 0} (convert : Converter) (services : Services W A)
    (base : W → ActionRequest → Executed A W) where
  failed : Error → String → W → Executed A W
  failed e what w =
      (ok (convert_error_to_execute_response convert (status_wrap convert e (text what)), false), w)

  -- The message with a link to the browser
  linked : ActionResponse A → Bool → String → Option (List ℕ) → W → Executed A W
  linked response may_be_cached what none w = (fatal, w)
  linked response may_be_cached what (some url) w =
      (ok (record response { message = some (format what (bytes url ∷ [])) }, may_be_cached), w)

  cached : ActionResponse A → Digest → Option Error × W → Executed A W
  unfolding failed linked
  cached response digest (some e, w) = failed e "Failed to store cached action result" w
  cached response digest (none, w) =
      linked response true "Action details (cached result): %s"
        (services.parse (action_path "/action/%s/%s/%d/" digest)) w

  uncached : ActionResponse A → Result Digest × W → Executed A W
  unfolding failed linked
  uncached response (err e, w) = failed e "Failed to store uncached action result" w
  uncached response (fatal, w) = (fatal, w)
  uncached response (ok failure_digest, w) =
      linked response false "Action details (uncached result): %s"
        (services.parse (action_path "/actionfailure/%s/%s/%d/" failure_digest)) w

  -- A response that has a result.
  with_result : ActionRequest → Digest → ActionResponse A → A → Bool → W → Executed A W
  unfolding cached uncached
  with_result request digest response result true w =
      cached response digest (services.put_action_result w digest result)
  with_result request digest response result false w =
      uncached response (services.put_action_failure w (request.action_digest, result) digest)

  ran : ActionRequest → Digest → Executed A W → Executed A W
  unfolding linked with_result
  ran request digest (err e, w) = (err e, w)
  ran request digest (fatal, w) = (fatal, w)
  ran request digest (ok (response, may_be_cached), w) = elim response.result [
    | none ↦
        linked response may_be_cached "Action details (no result): %s"
          (services.parse (action_path "/action/%s/%s/%d/" digest)) w
    | some result ↦ with_result request digest response result may_be_cached w
  ]

  with_digest : W → ActionRequest → Result Digest → Executed A W
  unfolding failed ran
  with_digest w request (ok digest) = ran request digest (base w request)
  with_digest w request (err e) = failed e "Failed to extract digest for action" w
  with_digest w request fatal = (fatal, w)

  -- Execute of the caching executor
  unfoldable pub execute_caching : W → ActionRequest → Executed A W
  unfolding with_digest
  execute_caching w request =
      with_digest w request (new_digest request.instance_name request.action_digest)

  after_flush : ActionResponse A × Bool → Option Error × W → Executed A W
  after_flush response (none, w) = (ok response, w)
  after_flush response (some e, w) = (ok (convert_error_to_execute_response convert e, false), w)

  flushed : Executed A W → Executed A W
  unfolding after_flush
  flushed (ok response, w) = after_flush response (services.flush w)
  flushed (err e, w) = (err e, w)
  flushed (fatal, w) = (fatal, w)

  -- Execute of the executor that flushes storage
  unfoldable pub execute_flushing : W → ActionRequest → Executed A W
  unfolding flushed
  execute_flushing w request = flushed (base w request)

-- The executor of bbb_worker, around the one that runs actions.
abbrev pub execute_worker :
    {W A : Type 0}
    → Converter
    → Services W A
    → (W → ActionRequest → Executed A W)
    → W
    → ActionRequest
    → Executed A W
execute_worker convert services base =
    execute_flushing convert services (execute_caching convert services base)
