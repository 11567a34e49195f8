-- ===== src/Logger/Level.antt =====
-- pkg/ocmlogger/logger.go: the levels, `SetLogLevel` and its flag, the tests for a level, the callers,
-- and the mapping to Sentry's levels. `zerolog.ParseLevel` is a parameter.
use ocm_service_common.Common.{
  leb, ℕ, String, Bool, true, false, not, ◌&&◌, Option, none, some, List, [], ◌∷◌, str_eq,
  if◌then◌else◌,
}
use ocm_service_common.Common.Result.{Result, ok, err}
use ocm_service_common.Common.Text.{concat, itoa, suffix_from, replace_char}

-- The levels of zerolog, in their order.
pub data Level : Type 0 where
  trace_level debug_level info_level warn_level error_level fatal_level panic_level : Level
  no_level disabled : Level

-- The number of a level, plus one.
abbrev pub rank : Level → ℕ
rank trace_level = 0
rank debug_level = 1
rank info_level = 2
rank warn_level = 3
rank error_level = 4
rank fatal_level = 5
rank panic_level = 6
rank no_level = 7
rank disabled = 8

abbrev pub is_disabled : Level → Bool
is_disabled disabled = true
is_disabled _ = false

abbrev pub is_no_level : Level → Bool
is_no_level no_level = true
is_no_level _ = false

-- `logLevelEnabled`, for the level of the root logger.
unfoldable pub log_level_enabled : Level → Level → Bool
log_level_enabled config_level call_level =
    not (is_disabled config_level)
    && (not (is_no_level config_level) && leb (rank config_level) (rank call_level))

unfoldable trace_enabled : Level → Bool
unfolding log_level_enabled
trace_enabled root = log_level_enabled root trace_level

unfoldable pub debug_enabled : Level → Bool
unfolding log_level_enabled
debug_enabled root = log_level_enabled root debug_level

unfoldable pub info_enabled : Level → Bool
unfolding log_level_enabled
info_enabled root = log_level_enabled root info_level

unfoldable pub warn_enabled : Level → Bool
unfolding log_level_enabled
warn_enabled root = log_level_enabled root warn_level

unfoldable pub error_enabled : Level → Bool
unfolding log_level_enabled
error_enabled root = log_level_enabled root error_level

abbrev pub log_level_default : String
log_level_default = "warn"

-- The level of the root logger after a change, and the error.
unfoldable pub set_log_level :
    (String → Result String Level) → String → Level → Option String × Level
set_log_level parse level root = elim (parse level) [ err e ↦ (some e, root) | ok l ↦ (none, l) ]

-- The function that is registered for the flag.
unfoldable pub set_level_flag :
    (String → Result String Level) → String → Level → Option String × Level
unfolding set_log_level
set_level_flag parse s root =
    set_log_level parse (if str_eq s "" then log_level_default else s) root

-- The loop over the trim list: the file is cut to the first entry that stands in it.
unfoldable pub trim_file : List String → String → String
unfolding suffix_from
trim_file [] file = file
trim_file (t ∷ trims) file = elim (suffix_from t file) [
  | none ↦ trim_file trims file
  | some cut ↦ cut
]

-- `CallerMarshalFunc`.
unfoldable pub marshal_caller : List String → String → ℕ → String
unfolding trim_file replace_char itoa
marshal_caller trim_list file line =
    concat (trim_file trim_list (replace_char b'\\' "/" file) ∷ ":" ∷ itoa line ∷ [])

pub data SentryLevel : Type 0 where
  sentry_debug sentry_info sentry_warning sentry_error sentry_fatal : SentryLevel

-- `sentryLevelMapping[level]`; a level that is no key gives the empty level.
abbrev pub sentry_level : Level → Option SentryLevel
sentry_level trace_level = some sentry_debug
sentry_level debug_level = some sentry_debug
sentry_level info_level = some sentry_info
sentry_level warn_level = some sentry_warning
sentry_level error_level = some sentry_error
sentry_level fatal_level = some sentry_fatal
sentry_level _ = none
