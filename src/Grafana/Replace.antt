-- ===== src/Grafana/Replace.antt =====
-- Go's `strings.ReplaceAll`, and pkg/grafana/generate_grafana.go: `normalizePath`.
use Prim.Native.Char.{code}
use Prim.Native.String.{String, [], ◌∷◌, ◌++◌}
use ocm_service_common.Common.{◌&&◌, if◌then◌else◌, ℕ, zero, suc, ◌-◌, Bool, true, false, ◌==◌}
use ocm_service_common.Common.Text.{has_prefix}

abbrev text_length : String → ℕ
text_length [] = zero
text_length (c ∷ s) = suc (text_length s)

-- From a place of the text on, with the number of characters that are still passed over, since a
-- replaced text covers them.
unfoldable pub replace_from : String → String → ℕ → String → String
unfolding has_prefix
replace_from old new skip [] = []
replace_from old new (suc skip) (c ∷ s) = replace_from old new skip s
replace_from old new zero (c ∷ s) = elim (has_prefix (c ∷ s) old) [
  | true ↦ new ++ replace_from old new (text_length old - 1) s
  | false ↦ c ∷ replace_from old new zero s
]

-- `strings.ReplaceAll(s, old, new)` for a text `old` that is not empty.
unfoldable pub replace_all : String → String → String → String
unfolding replace_from
replace_all s old new = replace_from old new zero s

abbrev pub newline : ℕ
newline = 10

-- A closing brace stands before the end of the line.
unfoldable pub closes : String → Bool
closes [] = false
closes (c ∷ s) = if code c == b'}' then true else if code c == newline then false else closes s

-- The replacement by the pattern of braces with as few characters as possible between them, none of
-- them a newline: the text outside of a match, and the text in one.
unfoldable mutual
  unfolding closes

  pub normalize_path : String → String
  normalize_path [] = []
  normalize_path (c ∷ s) = elim (code c == b'{' && closes s) [
    | true ↦ "-" ++ in_match s
    | false ↦ c ∷ normalize_path s
  ]

  pub in_match : String → String
  in_match [] = []
  in_match (c ∷ s) = elim (code c == b'}') [ true ↦ normalize_path s | false ↦ in_match s ]
