-- ===== src/Builder/Executors/Durability.antt =====
-- When the outputs of an action are in storage.
use bazel_buildbarn.Prelude.{
  ◌∙◌, [], ◌∷◌, ℕ, ◌≡◌, ◌≢◌, refl, ap, sym, ◌⊎◌, inl, inr, List, Option, none, some, Bool, true,
  false,
}
use bazel_buildbarn.Util.Status.{format, bytes, Result, ok, err, fatal, Error, Converter}
use bazel_buildbarn.Util.Digest.{Digest, IsDigest}
use bazel_buildbarn.Util.Digest.Validation.{new_digest_iff}
use bazel_buildbarn.Circular.BlobAccess.{pair_eq}
use bazel_buildbarn.Builder.Executors.{
  ActionRequest, ActionResponse, Executed, Services, convert_error_to_execute_response, action_path,
  linked, cached, with_result, ran, with_digest, execute_caching, after_flush, flushed,
  execute_flushing, execute_worker,
}

module _ {W A : Type 0} (convert : Converter) (services : Services W A) where
  -- The response is not the one for an error of flushing; then pending writes have been flushed, and
  -- nothing has been done since.
  pub record Answered (r : Executed A W) (response : ActionResponse A × Bool) (w : W) : Type 0 where
    pub before : W
    pub executed : r ≡ (ok response, before)
    pub flush : services.flush before ≡ (none, w)

  after_flush_lem :
      (base : W → ActionRequest → Executed A W) (first response : ActionResponse A × Bool)
      (outcome : Option Error × W) (w : W)
      → after_flush convert services base first outcome ≡ (ok response, w)
      → (response.0.result ≢ none) ⊎ (response.1 ≡ true)
      → (outcome ≡ (none, w)) × (first ≡ response)
  unfolding after_flush convert_error_to_execute_response
  after_flush_lem base first response (none, v) w h kind =
      let same : ok first ≡ ok response = ap (λ p. p.0) h in (pair_eq refl (ap (λ p. p.1) h), cc)
  after_flush_lem base first response (some e, v) w h kind =
      let r : Result (ActionResponse A × Bool) = ok response in
      let same : ok (convert_error_to_execute_response convert e, false) ≡ r = ap (λ p. p.0) h in
      let same' : (convert_error_to_execute_response convert e, false) ≡ response = cc in
      absurd (elim kind [
        | inl n ↦ n (sym (ap (λ p. p.0.result) same'))
        | inr t ↦ let f = sym (ap (λ p. p.1) same') in cc
      ])

  answered :
      (base : W → ActionRequest → Executed A W) (r : Executed A W)
      (response : ActionResponse A × Bool) (w : W)
      → flushed convert services base r ≡ (ok response, w)
      → (response.0.result ≢ none) ⊎ (response.1 ≡ true)
      → Answered r response w
  unfolding flushed
  answered base (err e, v) response w h kind = let wrong = ap (λ p. p.0) h in absurd (cc)
  answered base (fatal, v) response w h kind = let wrong = ap (λ p. p.0) h in absurd (cc)
  answered base (ok first, v) response w h kind =
      let (flush, same) = after_flush_lem base first response (services.flush v) w h kind in
      record { before = v; executed = pair_eq (ap ok same) refl; flush = flush }

-- If the executor of a worker answers with a result, or with a response that may be cached, then the
-- pending writes have been flushed without an error after all that the other executors did, and nothing
-- has been done since.
pub execute_worker-Answered :
    {W A : Type 0} (convert : Converter) (services : Services W A)
    (base : W → ActionRequest → Executed A W) (request : ActionRequest) (w w' : W)
    (response : ActionResponse A × Bool)
    → execute_worker convert services base w request ≡ (ok response, w')
    → (response.0.result ≢ none) ⊎ (response.1 ≡ true)
    → Answered convert services (execute_caching convert services base w request) response w'
unfolding execute_flushing
execute_worker-Answered convert services base request w w' response h kind =
    answered convert services (execute_caching convert services base)
      (execute_caching convert services base w request) response w' h kind

abbrev pub request_for : Digest → ActionRequest
request_for digest = record {
  instance_name = digest.instance_name;
  action_digest = some digest.partial_digest;
}

-- The Action Cache that the services write: `lookup` is its GetActionResult. It has what has been put,
-- and flushing, which is of the Content Addressable Storage, does not change it.
pub record IsActionCache {W A : Type 0} (services : Services W A) (lookup : W → Digest → Result A)
    : Type 0 where
  pub put :
      (w : W) (digest : Digest) (result : A)
      → ((services.put_action_result w digest result).0 ≡ none)
        × (lookup (services.put_action_result w digest result).1 digest ≡ ok result)
  pub flush : (w : W) (digest : Digest) → lookup (services.flush w).1 digest ≡ lookup w digest

-- The answer is the one that may be cached, or the error of flushing, and the Action Cache has the
-- result.
abbrev pub Concluded :
    {W A : Type 0}
    → Converter
    → (W → Digest → Result A)
    → Digest
    → A
    → ActionResponse A
    → Option Error
    → Executed A W
    → Type 0
Concluded convert lookup digest result response none (r, w) =
    (r ≡ ok (response, true)) × (lookup w digest ≡ ok result)
Concluded convert lookup digest result response (some e) (r, w) =
    (r ≡ ok (convert_error_to_execute_response convert e, false)) × (lookup w digest ≡ ok result)

module _ {W A : Type 0} (convert : Converter) (services : Services W A)
    (base : W → ActionRequest → Executed A W) (lookup : W → Digest → Result A)
    (law : IsActionCache services lookup) (digest : Digest) (result : A) where
  flushed_lem :
      (first : Executed A W) (response : ActionResponse A) (w w' : W) (outcome : Option Error)
      → first ≡ (ok (response, true), w)
      → services.flush w ≡ (outcome, w')
      → lookup w digest ≡ ok result
      → Concluded convert lookup digest result response outcome
          (flushed convert services base first)
  unfolding flushed after_flush
  flushed_lem first response w w' none same e has =
      let kept = law.flush w digest in
      rw (same, e) (refl, ap (λ p. lookup p.1 digest) (sym e) ∙ kept ∙ has)
  flushed_lem first response w w' (some x) same e has =
      let kept = law.flush w digest in
      rw (same, e) (refl, ap (λ p. lookup p.1 digest) (sym e) ∙ kept ∙ has)

-- The response of an action whose result is cached: with the link to the action.
abbrev pub with_link : {A : Type 0} → ActionResponse A → A → List ℕ → ActionResponse A
with_link response result url = record {
  status_of = response.status_of;
  result = some result;
  message = some (format "Action details (cached result): %s" (bytes url ∷ []));
}

-- A result is in the Action Cache before its outputs are flushed, and stays there when flushing fails. If
-- running an action yields a result and a response that may be cached, then a worker answers with that
-- response and the link to the action, when flushing succeeds; and when flushing fails, it answers with
-- the error of flushing, and says that this may not be cached. But in both cases GetActionResult of the
-- Action Cache returns the result afterwards. The Action Cache has what has been put into it, whatever is
-- flushed, the digest of the action is as NewDigest makes them, and the URL of the link can be parsed.
pub cached_before_flush :
    {W A : Type 0} (convert : Converter) (services : Services W A)
    (base : W → ActionRequest → Executed A W) (lookup : W → Digest → Result A) (digest : Digest)
    (result : A) (response : ActionResponse A) (url : List ℕ) (w ran_in : W)
    → IsActionCache services lookup
    → IsDigest digest
    → base w (request_for digest) ≡ (ok (response, true), ran_in)
    → response.result ≡ some result
    → services.parse (action_path "/action/%s/%s/%d/" digest) ≡ some url
    → (let put_in = (services.put_action_result ran_in digest result).1 in
        Concluded convert lookup digest result
          (with_link response result url)
          (services.flush put_in).0
          (execute_worker convert services base w (request_for digest)))
unfolding execute_flushing execute_caching with_digest ran with_result cached linked
cached_before_flush convert services base lookup digest result response url w ran_in law valid runs
      has parsed =
    let accepted =
      (new_digest_iff digest.instance_name digest.partial_digest digest).1 (refl, valid) in
    let (stored, there) = law.put ran_in digest result in
    let put_in = (services.put_action_result ran_in digest result).1 in
    let step : services.put_action_result ran_in digest result ≡ (none, put_in) =
      pair_eq stored refl in
    let message = some (format "Action details (cached result): %s" (bytes url ∷ [])) in
    let same : (ok (record response { message = message }, true), put_in)
        ≡ (ok (with_link response result url, true), put_in) =
      ap
        (λ o. (
          ok (record { status_of = response.status_of; result = o; message = message }, true),
          put_in,
        ))
        has in
    rw (accepted, runs, has, step, parsed)
      (flushed_lem convert services (execute_caching convert services base) lookup law digest result
        _ (with_link response result url) put_in (services.flush put_in).1 (services.flush put_in).0
        same refl there)
