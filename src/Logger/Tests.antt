-- ===== src/Logger/Tests.antt =====
-- The theorems of the logger at concrete inputs.
use ocm_service_common.Logger.Extra.{value}
use ocm_service_common.Common.{Bool, String, true, Option, some, List, [], ◌∷◌, ◌≡◌, ◌↔◌, refl}
use ocm_service_common.Logger.Extra.{Arg, Extra, text, context_to_legacy_extra}
use ocm_service_common.Logger.Log.{new_ocm_logger, capture_sentry_event, Logger, SentryEvent}
use ocm_service_common.Logger.Level.{warn_level, Level, log_level_enabled}
use ocm_service_common.Common.Text.{itoa}
use ocm_service_common.Logger.ExtraLaws.{context_to_legacy_extra-Describes_iff, Describes}

abbrev overridden : Logger
overridden = capture_sentry_event true new_ocm_logger

abbrev answer_one : SentryEvent → Option String
answer_one event = some "e1"

-- The root logger is at its default level.
abbrev at_warn : Level → Bool
at_warn level = log_level_enabled warn_level level

abbrev odd_pairs : List Arg
odd_pairs = value 3 ∷ text "x" ∷ text "" ∷ text "y" ∷ text "last" ∷ []

abbrev stored : Extra
stored =
    ("(NOT_A_STRING[0])", text "x")
    ∷ ("(MISSING_KEY[2])", text "y")
    ∷ ("last", text "(MISSING)")
    ∷ []

context_to_legacy_extra-Describes_iff_example :
    (context_to_legacy_extra odd_pairs ≡ some stored) ↔ Describes odd_pairs (some stored)
context_to_legacy_extra-Describes_iff_example =
    context_to_legacy_extra-Describes_iff odd_pairs (some stored)

stored_run : context_to_legacy_extra odd_pairs ≡ some stored
unfolding context_to_legacy_extra itoa
stored_run = refl
