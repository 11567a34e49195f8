-- ===== src/Logger/LogLaws.antt =====
-- What one call of the logger does, and where its event is found again.
use ocm_service_common.Common.Int.{ℤ, pos, negsuc}
use ocm_service_common.Common.{
  Bool, false, ◌≤◌, ℕ, suc, ◌+◌, String, true, Option, List, [], ◌∷◌, ◌≡◌,
}
use ocm_service_common.Logger.Log.{captured, written, exited}
use ocm_service_common.Logger.Level.{fatal_level}
use ocm_service_common.Logger.Log.{Error, Logger, written, captured, Effect}
use ocm_service_common.Logger.Level.{Level}

abbrev pub captures : List Effect → ℕ
captures [] = 0
captures (captured event ∷ es) = suc (captures es)
captures (_ ∷ es) = captures es

-- The end of the process for a fatal line, and nothing else for any other.
abbrev pub IsEnd : Level → List Effect → Type 0
IsEnd fatal_level es = es ≡ exited ∷ []
IsEnd _ es = es ≡ []

-- After the events, the one line of the level if it is enabled, and no line if not; then the end.
abbrev pub EndsWithLine : Bool → Level → String → Option Error → List Effect → Type 0
EndsWithLine on level message e (captured event ∷ es) = EndsWithLine on level message e es
EndsWithLine true level message e (written l m x extra skips ∷ es) =
    (l ≡ level) × (m ≡ message) × (x ≡ e) × IsEnd level es
EndsWithLine false level message e (written l m x extra skips ∷ es) = ⊥
EndsWithLine true level message e es = ⊥
EndsWithLine false level message e es = IsEnd level es

-- A new stack trace has the frames that are cut, and room for those that negative skips add.
abbrev pub HasFrames : ℤ → ℕ → ℕ → Type 0
HasFrames (pos n) frames spare = 3 + n ≤ frames
HasFrames (negsuc n) frames spare = (3 ≤ frames + suc n) × (suc n ≤ 3 + spare)
