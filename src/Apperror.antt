-- ===== src/Apperror.antt =====
-- internal/apperror/apperror.go, and what the source uses of Go's `errors` and `fmt` packages:
-- an error is a sentinel, an error of a library with its text, a `%w` wrapping, or an `*Error`.
pub mod Chain
use playback_service.Prelude.{ℕ, String, ◌<>◌, Bool, true, false, Option, none, some}

-- The errors that the source compares with by `errors.Is`.
pub data Sentinel : Type 0 where
  redis_nil no_rows context_canceled no_change : Sentinel

mutual
  pub data Fault : Type 0 where
    sentinel : Sentinel → Fault
    foreign : String → Fault
    -- fmt.Errorf("prefix: %w", err)
    wrapped : String → Fault → Fault
    app : Error → Fault

  pub data Error : Type 0 where
    error_of : (code message : String) (http_status : ℕ) → Cause → Error

  -- The field `Err`, which may be nil.
  pub data Cause : Type 0 where
    no_cause : Cause
    because : Fault → Cause

abbrev pub code : Error → String
code (error_of c m s e) = c

abbrev pub message : Error → String
message (error_of c m s e) = m

abbrev pub http_status : Error → ℕ
http_status (error_of c m s e) = s

abbrev pub cause : Error → Cause
cause (error_of c m s e) = e

abbrev sentinel_text : Sentinel → String
sentinel_text redis_nil = "redis: nil"
sentinel_text no_rows = "no rows in result set"
sentinel_text context_canceled = "context canceled"
sentinel_text no_change = "no change"

-- The text of an error: the method `Error`.
unfoldable mutual
  pub fault_text : Fault → String
  fault_text (sentinel s) = sentinel_text s
  fault_text (foreign text) = text
  fault_text (wrapped prefix e) = prefix <> (": " <> fault_text e)
  fault_text (app e) = error_text e

  pub error_text : Error → String
  error_text (error_of c m s e) = c <> (": " <> (m <> cause_text e))

  pub cause_text : Cause → String
  cause_text no_cause = ""
  cause_text (because e) = ": " <> fault_text e

abbrev pub unwrap : Error → Cause
unwrap e = cause e

abbrev pub new_not_found : String → Error
new_not_found msg = error_of "NOT_FOUND" msg 404 no_cause

abbrev pub new_validation : String → Error
new_validation msg = error_of "VALIDATION_ERROR" msg 400 no_cause

abbrev pub new_conflict : String → Error
new_conflict msg = error_of "CONFLICT" msg 409 no_cause

abbrev pub new_unauthorized : String → Error
new_unauthorized msg = error_of "UNAUTHORIZED" msg 401 no_cause

abbrev pub new_internal : String → Fault → Error
new_internal msg err = error_of "INTERNAL_ERROR" msg 500 (because err)

-- The body of an error response.
pub record ErrorBody : Type 0 where
  pub code : String
  pub message : String

abbrev pub to_response : Error → ErrorBody
to_response e = record { code = code e; message = message e }

abbrev same_sentinel : Sentinel → Sentinel → Bool
same_sentinel redis_nil redis_nil = true
same_sentinel no_rows no_rows = true
same_sentinel context_canceled context_canceled = true
same_sentinel no_change no_change = true
same_sentinel _ _ = false

-- errors.As(err, &appErr): the first `*Error` on the chain.
unfoldable pub as_app : Fault → Option Error
as_app (sentinel s) = none
as_app (foreign text) = none
as_app (wrapped prefix e) = as_app e
as_app (app e) = some e

-- errors.Is(err, sentinel): the chain goes on through `Unwrap`.
unfoldable mutual
  pub is : Fault → Sentinel → Bool
  is (sentinel s) t = same_sentinel s t
  is (foreign text) t = false
  is (wrapped prefix e) t = is e t
  is (app e) t = is_app e t

  pub is_app : Error → Sentinel → Bool
  is_app (error_of c m s e) t = is_cause e t

  pub is_cause : Cause → Sentinel → Bool
  is_cause no_cause t = false
  is_cause (because e) t = is e t
