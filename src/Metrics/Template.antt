-- ===== src/Metrics/Template.antt =====
-- pkg/client/metrics_middleware.go: the replacement by `metricsPathVarRE`, whose pattern is an opening
-- brace, characters other than a closing brace, and a closing brace.
use Prim.Native.Char.{code}
use Prim.Native.String.{String, [], ◌∷◌, ◌++◌}
use ocm_service_common.Common.{Option, none, some, ◌==◌, if◌then◌else◌}

abbrev pub or_text : Option String → String → String
or_text none plain = plain
or_text (some s) plain = s

-- The text outside of a variable, and the text after an opening brace: `none` where no brace closes it.
unfoldable mutual
  pub replace_vars : String → String
  replace_vars [] = []
  replace_vars (c ∷ s) =
      let plain = c ∷ replace_vars s in
      if code c == b'{' then or_text (after_brace s) plain else plain

  pub after_brace : String → Option String
  after_brace [] = none
  after_brace (c ∷ s) =
      let inside = after_brace s in if code c == b'}' then some ("-" ++ replace_vars s) else inside
