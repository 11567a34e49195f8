-- ===== src/Deprecation/MatchLaws.antt =====
-- Path patterns: the matcher against a relation on the parts, and what the order of the map's
-- iteration can change.
use ocm_service_common.Common.{
  sym, ap, subst, ◌⊎◌, In, Option-cases, inr, Any, inl, ◌≢◌, eq_iff, Bool-cases, String, true,
  false, none, some, List, [], ◌∷◌, length, ◌≡◌, refl, ◌↔◌, arith, lookup,
}
use ocm_service_common.Deprecation.Match.{
  match_deprecated_endpoint, Endpoints, path_parts, matches_pattern, DeprecatedEndpoint,
  first_match, is_parameter, match_parts,
}

-- A path matches a pattern part by part: a parameter takes any part, a literal itself.
pub data MatchesParts : List String → List String → Type 0 where
  ends : MatchesParts [] []
  parameter :
      {part pattern : String} {paths patterns : List String}
      → is_parameter pattern ≡ true
      → MatchesParts paths patterns
      → MatchesParts (part ∷ paths) (pattern ∷ patterns)
  literal :
      {part pattern : String} {paths patterns : List String}
      → is_parameter pattern ≡ false
      → part ≡ pattern
      → MatchesParts paths patterns
      → MatchesParts (part ∷ paths) (pattern ∷ patterns)

match_parts_sound :
    (paths patterns : List String)
    → length paths ≡ length patterns
    → match_parts paths patterns ≡ true
    → MatchesParts paths patterns
unfolding match_parts
match_parts_sound [] [] same h = MatchesParts.ends
match_parts_sound [] (q ∷ qs) same h = absurd (omega arith)
match_parts_sound (p ∷ ps) [] same h = absurd (omega arith)
match_parts_sound (p ∷ ps) (q ∷ qs) same h = elim (Bool-cases (is_parameter q)) [
  | inl free ↦ MatchesParts.parameter free (match_parts_sound ps qs (omega arith) (ground arith))
  | inr fixed ↦
      MatchesParts.literal fixed (ground (arith, eq_iff p q))
        (match_parts_sound ps qs (omega arith) (ground arith))
]

match_parts_complete :
    {paths patterns : List String}
    → MatchesParts paths patterns
    → (length paths ≡ length patterns) × (match_parts paths patterns ≡ true)
unfolding match_parts
match_parts_complete MatchesParts.ends = (refl, refl)
match_parts_complete (MatchesParts.parameter free m) =
    let (same, h) = match_parts_complete m in (omega arith, ground arith)
match_parts_complete (MatchesParts.literal {part} {pattern} fixed e m) =
    let (same, h) = match_parts_complete m in (omega arith, ground (arith, eq_iff part pattern))

-- The matcher decides the relation on the parts of the trimmed path and pattern.
pub matches_pattern-MatchesParts_iff :
    (path pattern : String)
    → (matches_pattern path pattern ≡ true) ↔ MatchesParts (path_parts path) (path_parts pattern)
unfolding matches_pattern
matches_pattern-MatchesParts_iff path pattern = (
  λ h. match_parts_sound (path_parts path) (path_parts pattern) (ground arith) (ground arith),
  λ m. let (same, h) = match_parts_complete m in ground arith,
)

-- An endpoint that stands in the map under a pattern that matches.
abbrev pub Fits : String → DeprecatedEndpoint → Endpoints → Type 0
Fits path endpoint order =
    Any (λ e. MatchesParts (path_parts path) (path_parts e.0) × (e.1 ≡ endpoint)) order

-- With no exact key, an endpoint is found exactly where some pattern matches, and then it is one
-- of a matching pattern, whatever the order of iteration.
first_match-Fits :
    (path : String) (order : Endpoints) (endpoint : DeprecatedEndpoint)
    → first_match path order ≡ some endpoint
    → Fits path endpoint order
unfolding first_match
first_match-Fits path [] endpoint h = cc
first_match-Fits path ((pattern, e) ∷ order) endpoint h =
    elim (Bool-cases (matches_pattern path pattern)) [
      | inl fits ↦ Any.here ((matches_pattern-MatchesParts_iff path pattern).0 fits, ground arith)
      | inr misses ↦ Any.there (first_match-Fits path order endpoint (ground arith))
    ]

Fits-first_match :
    (path : String) {endpoint : DeprecatedEndpoint} {order : Endpoints}
    → Fits path endpoint order
    → first_match path order ≢ none
unfolding first_match
Fits-first_match path (Any.here {x} (m, e)) =
    ground (arith, (matches_pattern-MatchesParts_iff path x.0).1 m)
Fits-first_match path (Any.there i) = ground (arith, Fits-first_match path i)

-- Two orders of iteration over one map have the same entries.
pub record SameEntries (order order' : Endpoints) : Type 0 where
  pub to : {e : String × DeprecatedEndpoint} → In e order → In e order'
  pub from : {e : String × DeprecatedEndpoint} → In e order' → In e order

Fits-In :
    (path : String) {endpoint : DeprecatedEndpoint} {order : Endpoints}
    → Fits path endpoint order
    → (e : String × DeprecatedEndpoint) × In e order
      × MatchesParts (path_parts path) (path_parts e.0)
      × (e.1 ≡ endpoint)
Fits-In path (Any.here {x} (m, e)) = (x, Any.here refl, m, e)
Fits-In path (Any.there i) = let (e, j, m, same) = Fits-In path i in (e, Any.there j, m, same)

In-Fits :
    (path : String) (e : String × DeprecatedEndpoint) {order : Endpoints}
    → In e order
    → MatchesParts (path_parts path) (path_parts e.0)
    → Fits path e.1 order
In-Fits path e (Any.here {x} same) m =
    Any.here (
      subst (λ y. MatchesParts (path_parts path) (path_parts y.0)) same m,
      ap (λ y. y.1) (sym same),
    )
In-Fits path e (Any.there i) m = Any.there (In-Fits path e i m)

Fits-SameEntries :
    (path : String) (endpoint : DeprecatedEndpoint) {order order' : Endpoints}
    → SameEntries order order'
    → Fits path endpoint order
    → Fits path endpoint order'
Fits-SameEntries path endpoint {order'} same fits =
    let (e, i, m, q) = Fits-In path fits in
    subst (λ (x : DeprecatedEndpoint). Fits path x order') q (In-Fits path e (same.to i) m)

-- An exact key of the map wins; else the endpoint found is one of a pattern that matches.
match_deprecated_endpoint_sound :
    (path : String) (endpoints order : Endpoints) (endpoint : DeprecatedEndpoint)
    → match_deprecated_endpoint path endpoints order ≡ some endpoint
    → (lookup path endpoints ≡ some endpoint)
      ⊎ ((lookup path endpoints ≡ none) × Fits path endpoint order)
unfolding match_deprecated_endpoint
match_deprecated_endpoint_sound path endpoints order endpoint h =
    elim (Option-cases (lookup path endpoints)) [
      | inl missing ↦ inr (missing, first_match-Fits path order endpoint (ground arith))
      | inr (exact, found) ↦ inl (ground arith)
    ]

first_match-none :
    (path : String) (order order' : Endpoints)
    → SameEntries order order'
    → first_match path order' ≡ none
    → first_match path order ≡ none
first_match-none path order order' same h = elim (Option-cases (first_match path order)) [
  | inl e ↦ e
  | inr (endpoint, e) ↦ absurd (
      Fits-first_match path
        (Fits-SameEntries path endpoint same (first_match-Fits path order endpoint e)) h)
]

-- Whether a path is deprecated does not depend on the order of iteration over the map.
pub match_deprecated_endpoint-order :
    (path : String) (endpoints order order' : Endpoints)
    → SameEntries order order'
    → (match_deprecated_endpoint path endpoints order ≡ none)
      ↔ (match_deprecated_endpoint path endpoints order' ≡ none)
unfolding match_deprecated_endpoint
match_deprecated_endpoint-order path endpoints order order' same =
    elim (Option-cases (lookup path endpoints)) [
      | inr (exact, found) ↦ (λ h. ground arith, λ h. ground arith)
      | inl missing ↦ (
        λ h.
            rw (missing, match_deprecated_endpoint)
              (first_match-none path order' order (record { to = same.from; from = same.to })
                (ground arith)),
        λ h.
            rw (missing, match_deprecated_endpoint)
              (first_match-none path order order' same (ground arith)),
      )
    ]
