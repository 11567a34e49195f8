-- ===== src/Deprecation/Match.antt =====
-- pkg/middleware/deprecation.go: matching a request path against the deprecated endpoints.
use ocm_service_common.Common.{
  ℕ, String, Bool, true, false, not, ◌&&◌, Option, none, some, List, [], ◌∷◌, ◌==◌, length, lookup,
  str_eq, if◌then◌else◌,
}
use ocm_service_common.Common.Text.{split, trim, has_prefix, has_suffix}

-- A time is a number of nanoseconds since some origin.
pub record DeprecatedEndpoint : Type 0 where
  pub message : String
  pub sunset_date : ℕ

abbrev pub Endpoints : Type 0
Endpoints = List (String × DeprecatedEndpoint)

unfoldable pub is_parameter : String → Bool
unfolding has_prefix has_suffix
is_parameter part = has_prefix part "{" && has_suffix part "}"

-- The loop over the parts of the pattern; the lists are of one length where it is called, and an
-- index past the path's end is not reached.
unfoldable pub match_parts : List String → List String → Bool
unfolding is_parameter
match_parts path_parts [] = true
match_parts [] (pattern_part ∷ patterns) = false
match_parts (path_part ∷ paths) (pattern_part ∷ patterns) =
    let rest = match_parts paths patterns in
    if is_parameter pattern_part
    then rest
    else if not (str_eq path_part pattern_part)
    then false
    else rest

-- `strings.Split(strings.Trim(path, "/"), "/")`.
unfoldable pub path_parts : String → List String
unfolding split trim
path_parts path = split (trim path b'/') b'/'

unfoldable pub matches_pattern : String → String → Bool
unfolding match_parts path_parts
matches_pattern path pattern =
    if not (length (path_parts path) == length (path_parts pattern))
    then false
    else match_parts (path_parts path) (path_parts pattern)

-- The loop over the map: Go's order of iteration is not fixed, so `order` is the one at hand.
unfoldable pub first_match : String → Endpoints → Option DeprecatedEndpoint
unfolding matches_pattern
first_match path [] = none
first_match path ((pattern, endpoint) ∷ order) =
    if matches_pattern path pattern then some endpoint else first_match path order

-- An exact key wins over the patterns.
unfoldable pub match_deprecated_endpoint :
    String → Endpoints → Endpoints → Option DeprecatedEndpoint
unfolding first_match lookup
match_deprecated_endpoint path endpoints order = elim (lookup path endpoints) [
  | some endpoint ↦ some endpoint
  | none ↦ first_match path order
]
