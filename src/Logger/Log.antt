-- ===== src/Logger/Log.antt =====
-- pkg/ocmlogger/logger.go: the logger's settings, `legacyLog`, `log`, `tryCaptureSentryEvent` and
-- `createLogEvent`. `fmt.Sprintf` with the verb %v, and of a format, are parameters; so are the hash of
-- the fingerprint, what Sentry answers for an event, and whether zerolog makes an event of a level for
-- the root logger (`WithLevel` gives none below the level of the logger). A stack trace is kept by its
-- number of frames.
use ocm_service_common.Common.Int.{ℤ, pos, negsuc}
use ocm_service_common.Segment.Types.{int32}
use ocm_service_common.Common.{
  ℕ, suc, ◌||◌, ◌+◌, ◌-◌, String, Bool, true, false, Option, none, some, List, [], ◌∷◌, ◌++◌, ltb,
  str_eq, if◌then◌else◌,
}
use ocm_service_common.Common.Result.{Run, returns, panics}
use ocm_service_common.Logger.Level.{Level, error_level, fatal_level, SentryLevel, sentry_level}
use ocm_service_common.Logger.Extra.{Arg, text, sentry_id, Extra, context_to_legacy_extra}

-- The atomic fields of the struct.
pub record Logger : Type 0 where
  pub additional_call_level_skips : ℤ
  pub capture_sentry_set : Bool
  pub capture_sentry_event_override : Bool

abbrev pub new_ocm_logger : Logger
new_ocm_logger = record {
  additional_call_level_skips = pos 0;
  capture_sentry_set = false;
  capture_sentry_event_override = false;
}

-- `AdditionalCallLevelSkips`: the skip is stored as an int32.
unfoldable pub with_call_level_skips : ℤ → Logger → Logger
unfolding int32
with_call_level_skips skip l = record l { additional_call_level_skips = int32 skip }

unfoldable pub capture_sentry_event : Bool → Logger → Logger
capture_sentry_event capture l = record l {
  capture_sentry_event_override = capture;
  capture_sentry_set = true;
}

abbrev pub base_caller_skip_level : ℕ
base_caller_skip_level = 3

-- An error: its message, and the frames of the stack trace that it carries, if it does.
pub record Error : Type 0 where
  pub message : String
  pub stack : Option ℕ

-- The event for Sentry; the exception is kept by the frames of its stack trace.
pub record SentryEvent : Type 0 where
  pub level : Option SentryLevel
  pub message : String
  pub fingerprint : String
  pub extra : Option Extra
  pub exception : Option ℕ

-- What a call does: an event for Sentry, the line with its level, message, error, extra and the frames
-- that are skipped for its caller, and the end of the process.
pub data Effect : Type 0 where
  captured : SentryEvent → Effect
  written : Level → String → Option Error → Option Extra → ℤ → Effect
  exited : Effect

abbrev pub is_error_or_fatal : Level → Bool
is_error_or_fatal error_level = true
is_error_or_fatal fatal_level = true
is_error_or_fatal _ = false

-- The frames of a new stack trace that are kept, for the additional skips. The slice of the frames has
-- room for `spare` more; a slice that ends below its start or behind its room panics.
abbrev pub keep_frames : ℤ → ℕ → ℕ → Run ℕ
keep_frames (pos n) frames spare =
    if ltb frames (base_caller_skip_level + n)
    then panics
    else returns (frames - base_caller_skip_level - n)
keep_frames (negsuc n) frames spare =
    if ltb (frames + suc n) base_caller_skip_level
      || ltb (base_caller_skip_level + frames + spare) (frames + suc n)
    then panics
    else returns (frames + suc n - base_caller_skip_level)

-- The frames that are skipped for the caller of a line: those of the base, and the additional ones.
abbrev pub caller_skips : ℤ → ℤ
caller_skips (pos n) = pos (base_caller_skip_level + n)
caller_skips (negsuc n) =
    if ltb n base_caller_skip_level
    then pos (base_caller_skip_level - suc n)
    else negsuc (n - base_caller_skip_level)

abbrev pub as_stack : Run ℕ → Run (Option ℕ)
as_stack panics = panics
as_stack (returns n) = returns (some n)

-- The stack that the error carries, else a new one of `frames` frames.
abbrev pub stack_or_new : Logger → ℕ → ℕ → Option ℕ → Run (Option ℕ)
stack_or_new l frames spare (some n) = returns (some n)
stack_or_new l frames spare none = as_stack (keep_frames l.additional_call_level_skips frames spare)

-- The stack of the exception, where the event has one.
unfoldable pub sentry_stack : Logger → ℕ → ℕ → Level → Option Error → Run (Option ℕ)
sentry_stack l frames spare level none =
    if is_error_or_fatal level then stack_or_new l frames spare none else returns none
sentry_stack l frames spare level (some e) = stack_or_new l frames spare e.stack

-- `captureSentry`, after the override.
unfoldable pub should_capture : Logger → Level → Bool
should_capture l level =
    if l.capture_sentry_set then l.capture_sentry_event_override else is_error_or_fatal level

abbrev pub message_or_error : String → Option Error → String
message_or_error message none = message
message_or_error message (some e) = if str_eq message "" then e.message else message

abbrev pub extra_fields : List Arg → Option Extra
extra_fields keys_and_values = context_to_legacy_extra keys_and_values

abbrev pub with_sentry_id : List Arg → Option String → List Arg
with_sentry_id keys_and_values none = keys_and_values
with_sentry_id keys_and_values (some id) =
    keys_and_values ++ text "SentryEventID" ∷ sentry_id id ∷ []

-- `os.Exit(1)` of a fatal line.
abbrev pub end_of : Level → List Effect
end_of fatal_level = exited ∷ []
end_of _ = []

module _ (hash : String → String) (capture : SentryEvent → Option String) (enabled : Level → Bool)
    (frames spare : ℕ) where
  -- The line, where zerolog makes an event of the level, and the end of the process for a fatal one.
  unfoldable pub write_line : Logger → Level → String → Option Error → List Arg → List Effect
  unfolding context_to_legacy_extra
  write_line l level message e keys_and_values =
      if enabled level
      then written level message e (extra_fields keys_and_values)
          (caller_skips l.additional_call_level_skips)
        ∷ end_of level
      else end_of level

  -- `tryCaptureSentryEvent`, for the stack of the exception.
  unfoldable pub sentry_event : Level → String → List Arg → Option ℕ → SentryEvent
  unfolding context_to_legacy_extra
  sentry_event level message keys_and_values stack = record {
    level = sentry_level level;
    message = message;
    fingerprint = hash message;
    extra = context_to_legacy_extra keys_and_values;
    exception = stack;
  }

  -- What follows the stack trace of a captured event.
  unfoldable pub capture_and_write :
      Logger → Level → String → Option Error → List Arg → Run (Option ℕ) → Run (List Effect)
  unfolding sentry_event write_line
  capture_and_write l level message e keys_and_values panics = panics
  capture_and_write l level message e keys_and_values (returns stack) =
      let event = sentry_event level message keys_and_values stack in
      returns (
        captured event
        ∷ write_line l level message e (with_sentry_id keys_and_values (capture event)))

  -- `log`, with the pairs that the callbacks find in the context.
  unfoldable pub log :
      Logger → Level → String → Option Error → List Arg → List Arg → Run (List Effect)
  unfolding should_capture capture_and_write sentry_stack write_line
  log l level message e keys_and_values extras =
      let text = message_or_error message e in
      if should_capture l level
      then capture_and_write l level text e (keys_and_values ++ extras)
          (sentry_stack l frames spare level e)
      else returns (write_line l level text e (keys_and_values ++ extras))

  module _ (sprintf : String → List Arg → String) (show : Arg → String) where
    abbrev pub message_of : Arg → String
    message_of (text s) = s
    message_of a = show a

    -- The message of `legacyLog`.
    unfoldable pub legacy_message : List Arg → String
    legacy_message [] = ""
    legacy_message (a ∷ []) = message_of a
    legacy_message (a ∷ b ∷ args) = sprintf (message_of a) (b ∷ args)

    unfoldable pub legacy_log : Logger → Level → List Arg → List Arg → Run (List Effect)
    unfolding legacy_message log
    legacy_log l level args extras = log l level (legacy_message args) none [] extras
