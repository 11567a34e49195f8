-- ===== src/Logger/Extra.antt =====
-- pkg/ocmlogger/logger.go: the key-value pairs of a line (`extrasFromContext`,
-- `contextToLegacyExtra`).
use ocm_service_common.Common.{
  ℕ, zero, suc, String, Bool, true, not, Option, none, some, List, [], ◌∷◌, str_eq, if◌then◌else◌,
  insert,
}
use ocm_service_common.Common.Text.{concat, itoa}

-- A value of type `interface{}` with its dynamic type, as far as the code looks at it: a text, a slice
-- of such values, the identifier of a Sentry event, or another value, known by a number.
mutual
  pub data Arg : Type 0 where
    text : String → Arg
    slice : Args → Arg
    sentry_id : String → Arg
    value : ℕ → Arg

  pub data Args : Type 0 where
    nil : Args
    cons : Arg → Args → Args

abbrev pub to_args : List Arg → Args
to_args [] = nil
to_args (a ∷ rest) = cons a (to_args rest)

abbrev pub Extra : Type 0
Extra = List (String × Arg)

abbrev pub missing_value : String
missing_value = "(MISSING)"

-- The key at an index.
unfoldable pub key_at : ℕ → Arg → String
key_at i (text s) = if str_eq s "" then concat ("(MISSING_KEY[" ∷ itoa i ∷ "])" ∷ []) else s
key_at i _ = concat ("(NOT_A_STRING[" ∷ itoa i ∷ "])" ∷ [])

-- `i%2 == 0`.
abbrev pub is_even : ℕ → Bool
is_even zero = true
is_even (suc n) = not (is_even n)

-- The loop, with the index, the current key and the map.
unfoldable pub legacy_loop : ℕ → String → Extra → List Arg → String × Extra
unfolding key_at insert
legacy_loop i curr_key ret [] = (curr_key, ret)
legacy_loop i curr_key ret (curr ∷ keys_and_values) =
    if is_even i
    then legacy_loop (suc i) (key_at i curr) ret keys_and_values
    else legacy_loop (suc i) "" (insert curr_key curr ret) keys_and_values

-- What follows the loop: a key that is left has no value.
abbrev pub with_missing : String × Extra → Extra
with_missing (curr_key, ret) =
    if not (str_eq curr_key "") then insert curr_key (text missing_value) ret else ret

unfoldable pub context_to_legacy_extra : List Arg → Option Extra
unfolding legacy_loop insert
context_to_legacy_extra [] = none
context_to_legacy_extra (a ∷ rest) = some (with_missing (legacy_loop 0 "" [] (a ∷ rest)))

-- The registered callbacks, in the order of the map at hand; a nil callback is passed over.
unfoldable pub extras_from_context :
    {Ctx : Type 0} → List (String × Option (Ctx → Arg)) → Ctx → List Arg
extras_from_context [] ctx = []
extras_from_context ((k, none) ∷ callbacks) ctx = extras_from_context callbacks ctx
extras_from_context ((k, some callback) ∷ callbacks) ctx =
    text k ∷ callback ctx ∷ extras_from_context callbacks ctx

-- `RegisterExtraDataCallback`.
unfoldable pub register_extra_data_callback :
    {Ctx : Type 0}
    → String
    → Option (Ctx → Arg)
    → List (String × Option (Ctx → Arg))
    → List (String × Option (Ctx → Arg))
unfolding insert
register_extra_data_callback key callback callbacks = insert key callback callbacks
