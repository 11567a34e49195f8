-- ===== src/Logger/Wrappers.antt =====
-- pkg/ocmlogger/logger.go, contextual.go, ocm_sdk_log_wrapper.go, segment_log_wrapper.go: the methods of
-- the logger by level, and its wrappers for key-value pairs, for the SDK and for Segment.
use ocm_service_common.Common.Int.{pos}
use ocm_service_common.Common.{ℕ, Bool, String, Option, none, List, [], ◌∷◌}
use ocm_service_common.Logger.Log.{
  new_ocm_logger, Effect, Error, legacy_log, Logger, with_call_level_skips, log, SentryEvent,
}
use ocm_service_common.Logger.Extra.{to_args, slice, text, Arg}
use ocm_service_common.Common.Result.{Run}
use ocm_service_common.Logger.Level.{
  Level, trace_level, error_level, info_level, debug_level, fatal_level, warn_level,
}

module _ (hash : String → String) (capture : SentryEvent → Option String) (enabled : Level → Bool)
    (frames spare : ℕ) where
  -- `contextualWrapper`, with the pairs that the callbacks find in the context last.
  unfoldable debug_pairs : Logger → String → List Arg → List Arg → Run (List Effect)
  unfolding log
  debug_pairs l message keys_and_values extras =
      log hash capture enabled frames spare l debug_level message none keys_and_values extras

  unfoldable trace_pairs : Logger → String → List Arg → List Arg → Run (List Effect)
  unfolding log
  trace_pairs l message keys_and_values extras =
      log hash capture enabled frames spare l trace_level message none keys_and_values extras

  unfoldable info_pairs : Logger → String → List Arg → List Arg → Run (List Effect)
  unfolding log
  info_pairs l message keys_and_values extras =
      log hash capture enabled frames spare l info_level message none keys_and_values extras

  unfoldable warning_pairs : Logger → String → List Arg → List Arg → Run (List Effect)
  unfolding log
  warning_pairs l message keys_and_values extras =
      log hash capture enabled frames spare l warn_level message none keys_and_values extras

  unfoldable info_with_error_pairs :
      Logger → Option Error → String → List Arg → List Arg → Run (List Effect)
  unfolding log
  info_with_error_pairs l e message keys_and_values extras =
      log hash capture enabled frames spare l info_level message e keys_and_values extras

  unfoldable warning_with_error_pairs :
      Logger → Option Error → String → List Arg → List Arg → Run (List Effect)
  unfolding log
  warning_with_error_pairs l e message keys_and_values extras =
      log hash capture enabled frames spare l warn_level message e keys_and_values extras

  unfoldable error_pairs : Logger → Option Error → String → List Arg → List Arg → Run (List Effect)
  unfolding log
  error_pairs l e message keys_and_values extras =
      log hash capture enabled frames spare l error_level message e keys_and_values extras

  unfoldable fatal_pairs : Logger → Option Error → String → List Arg → List Arg → Run (List Effect)
  unfolding log
  fatal_pairs l e message keys_and_values extras =
      log hash capture enabled frames spare l fatal_level message e keys_and_values extras

  module _ (sprintf : String → List Arg → String) (show : Arg → String) where
    -- The methods of `logger`.
    unfoldable info : Logger → List Arg → List Arg → Run (List Effect)
    unfolding legacy_log
    info l args extras =
        legacy_log hash capture enabled frames spare sprintf show l info_level args extras

    unfoldable debug : Logger → List Arg → List Arg → Run (List Effect)
    unfolding legacy_log
    debug l args extras =
        legacy_log hash capture enabled frames spare sprintf show l debug_level args extras

    unfoldable trace : Logger → List Arg → List Arg → Run (List Effect)
    unfolding legacy_log
    trace l args extras =
        legacy_log hash capture enabled frames spare sprintf show l trace_level args extras

    unfoldable warning : Logger → List Arg → List Arg → Run (List Effect)
    unfolding legacy_log
    warning l args extras =
        legacy_log hash capture enabled frames spare sprintf show l warn_level args extras

    unfoldable fatal : Logger → List Arg → List Arg → Run (List Effect)
    unfolding legacy_log
    fatal l args extras =
        legacy_log hash capture enabled frames spare sprintf show l fatal_level args extras

    unfoldable error : Logger → List Arg → List Arg → Run (List Effect)
    unfolding legacy_log
    error l args extras =
        legacy_log hash capture enabled frames spare sprintf show l error_level args extras

    -- `OcmSdkLogWrapper`: a new logger, one more frame that is skipped, and the format as first argument.
    unfoldable sdk_debug : String → List Arg → List Arg → Run (List Effect)
    unfolding debug with_call_level_skips
    sdk_debug format args extras =
        debug (with_call_level_skips (pos 1) new_ocm_logger) (text format ∷ args) extras

    unfoldable sdk_info : String → List Arg → List Arg → Run (List Effect)
    unfolding info with_call_level_skips
    sdk_info format args extras =
        info (with_call_level_skips (pos 1) new_ocm_logger) (text format ∷ args) extras

    unfoldable sdk_warn : String → List Arg → List Arg → Run (List Effect)
    unfolding warning with_call_level_skips
    sdk_warn format args extras =
        warning (with_call_level_skips (pos 1) new_ocm_logger) (text format ∷ args) extras

    unfoldable sdk_error : String → List Arg → List Arg → Run (List Effect)
    unfolding error with_call_level_skips
    sdk_error format args extras =
        error (with_call_level_skips (pos 1) new_ocm_logger) (text format ∷ args) extras

    unfoldable sdk_fatal : String → List Arg → List Arg → Run (List Effect)
    unfolding fatal
    sdk_fatal format args extras = fatal new_ocm_logger (text format ∷ args) extras

    -- `SegmentLogWrapper`: the arguments are passed on as one argument, a slice.
    unfoldable logf : String → List Arg → List Arg → Run (List Effect)
    unfolding info with_call_level_skips
    logf format args extras =
        info (with_call_level_skips (pos 1) new_ocm_logger)
          (text format ∷ slice (to_args args) ∷ []) extras

    unfoldable errorf : String → List Arg → List Arg → Run (List Effect)
    unfolding error with_call_level_skips
    errorf format args extras =
        error (with_call_level_skips (pos 1) new_ocm_logger)
          (text format ∷ slice (to_args args) ∷ []) extras
