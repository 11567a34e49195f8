-- ===== src/Claims.antt =====
-- The claims of a JSON web token, as the Go code reads them: `jwt.MapClaims` is
-- `map[string]interface{}` (used by pkg/middleware/token_validation.go and standard_claims.go).
-- The values are those that `encoding/json` decodes into an `interface{}`; a number is kept as a
-- natural, since no code looks at one.
use ocm_service_common.Common.{ℕ, String, Bool, Option, none, some, List, [], ◌∷◌, lookup, is_some}

mutual
  pub data Value : Type 0 where
    null : Value
    boolean : Bool → Value
    number : ℕ → Value
    text : String → Value
    array : Values → Value
    object : Entries → Value

  pub data Values : Type 0 where
    nil : Values
    cons : Value → Values → Values

  pub data Entries : Type 0 where
    end : Entries
    entry : String → Value → Entries → Entries

abbrev pub values : Values → List Value
values nil = []
values (cons v vs) = v ∷ values vs

abbrev pub entries : Entries → List (String × Value)
entries end = []
entries (entry k v es) = (k, v) ∷ entries es

abbrev pub Claims : Type 0
Claims = List (String × Value)

-- `v, ok := x.(string)`.
abbrev pub as_text : Value → Option String
as_text (text s) = some s
as_text _ = none

-- `m[key].(string)` with its `ok`; a missing key reads as nil, which is no string.
unfoldable pub text_claim : Claims → String → Option String
unfolding lookup
text_claim claims key = elim (lookup key claims) [ none ↦ none | some v ↦ as_text v ]

-- `_, ok := m[key]`.
unfoldable pub has_claim : Claims → String → Bool
unfolding lookup
has_claim claims key = is_some (lookup key claims)
