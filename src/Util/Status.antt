-- ===== src/Util/Status.antt =====
-- Go's `error` values as the services see them, the results of fallible calls, and pkg/util/status.go.
-- Messages keep their format string and arguments; fmt's expansion of them is not modelled.
use bazel_buildbarn.Prelude.{ℕ, String, List, Option, none, some, ◌≡◌, ◌≢◌, refl, ◌⊎◌, inl, inr}

-- google.golang.org/grpc/codes
pub data Code : Type 0 where
  canceled unknown invalid_argument deadline_exceeded not_found already_exists : Code
  permission_denied resource_exhausted failed_precondition aborted out_of_range : Code
  unimplemented internal unavailable data_loss unauthenticated : Code

pub data Arg : Type 0 where
  bytes : List ℕ → Arg
  number : ℕ → Arg

pub data Message : Type 0 where
  text : String → Message
  format : String → List Arg → Message
  prefixed : Message → Message → Message

-- `io.EOF`, a GRPC status, one whose details are a PreconditionFailure with one violation (its type and
-- subject), or the error of an operating system call or of errors.New
pub data Error : Type 0 where
  eof : Error
  status : Code → Message → Error
  violation : Code → Message → String → Message → Error
  other : Message → Error

-- What a call returns, or that it ended the process: by log.Fatal or by a run-time panic.
pub data Result {ℓ} (A : Type ℓ) : Type ℓ where
  ok : A → Result A
  err : Error → Result A
  fatal : Result A

infixl 5 ◌>>=◌
abbrev pub ◌>>=◌ {ℓ κ} : {A : Type ℓ} {B : Type κ} → Result A → (A → Result B) → Result B
ok a >>= f = f a
err e >>= f = err e
fatal >>= f = fatal

-- The details of a status: those of a PreconditionFailure with one violation, if any.
abbrev pub Details : Type 0
Details = Option (String × Message)

-- status.ErrorProto, of a status that has a code, a message and details.
abbrev pub error_proto : Code → Message → Details → Error
error_proto c m none = status c m
error_proto c m (some (kind, subject)) = violation c m kind subject

-- What the program takes from google.golang.org/grpc/status: the code, the message and the details of
-- any error. A status converts to what it was made from, which is the behaviour that the package
-- documents.
pub record Converter : Type 0 where
  pub code_of : Error → Code
  pub message_of : Error → Message
  pub details_of : Error → Details
  pub code_of-error_proto : (c : Code) (m : Message) (d : Details) → code_of (error_proto c m d) ≡ c
  pub message_of-error_proto :
      (c : Code) (m : Message) (d : Details) → message_of (error_proto c m d) ≡ m
  pub details_of-error_proto :
      (c : Code) (m : Message) (d : Details) → details_of (error_proto c m d) ≡ d

module _ (convert : Converter) where
  open convert use {
    code_of, message_of, details_of, code_of-error_proto, message_of-error_proto,
    details_of-error_proto,
  }

  -- StatusWrap and StatusWrapf: the caller has built the message
  unfoldable pub status_wrap : Error → Message → Error
  status_wrap e msg = error_proto (code_of e) (prefixed msg (message_of e)) (details_of e)

  -- StatusWrapWithCode and StatusWrapfWithCode
  unfoldable pub status_wrap_with_code : Error → Code → Message → Error
  status_wrap_with_code e code msg = error_proto code (prefixed msg (message_of e)) (details_of e)

  -- Wrapping twice keeps the code and the details of the innermost error and puts the outer message in
  -- front of the inner one.
  pub status_wrap-status_wrap :
      (e : Error) (inner outer : Message)
      → status_wrap (status_wrap e inner) outer
        ≡ error_proto (code_of e) (prefixed outer (prefixed inner (message_of e))) (details_of e)
  unfolding status_wrap
  status_wrap-status_wrap e inner outer =
      rw (code_of-error_proto, message_of-error_proto, details_of-error_proto)

pub Result-cases {ℓ} :
    {A : Type ℓ} (r : Result A)
    → ((a : A) × (r ≡ ok a)) ⊎ (((e : Error) × (r ≡ err e)) ⊎ (r ≡ fatal))
Result-cases (ok a) = inl (a, refl)
Result-cases (err e) = inr (inl (e, refl))
Result-cases fatal = inr (inr refl)

pub eof-cases : (e : Error) → (e ≡ eof) ⊎ (e ≢ eof)
eof-cases eof = inl refl
eof-cases (status c m) = inr (λ h. cc)
eof-cases (violation c m t u) = inr (λ h. cc)
eof-cases (other m) = inr (λ h. cc)
