-- ===== src/Logger/IdLaws.antt =====
-- The identifier of a Sentry event among the pairs of its line.
use ocm_service_common.Common.{
  ◌∙◌, str_eq, ℕ, suc, String, true, false, some, List, [], ◌∷◌, ◌++◌, ◌≡◌, refl, arith, lookup,
  insert, lookup-insert, length, ap,
}
use ocm_service_common.Logger.Extra.{
  key_at, context_to_legacy_extra, Extra, is_even, Arg, text, sentry_id,
}
use ocm_service_common.Logger.ExtraLaws.{context_to_legacy_extra-pairs, pairs}
use ocm_service_common.Logger.Log.{with_sentry_id}

-- A last pair is stored over all others, if each key before it has its value.
pairs-append :
    (i : ℕ) (xs : List Arg) (k : String) (v : Arg) (ret : Extra)
    → str_eq k "" ≡ false
    → is_even (length xs) ≡ true
    → pairs i (xs ++ text k ∷ v ∷ []) ret ≡ insert k v (pairs i xs ret)
pairs-append i [] k v ret h even = unfold key_at in rw h refl
pairs-append i (x ∷ []) k v ret h even = cc
pairs-append i (x ∷ y ∷ xs) k v ret h even =
    pairs-append (suc (suc i)) xs k v (insert (key_at i x) y ret) h (ground arith)

with_sentry_id-pairs :
    (xs : List Arg) (k : String) (v : Arg)
    → context_to_legacy_extra (xs ++ text k ∷ v ∷ []) ≡ some (pairs 0 (xs ++ text k ∷ v ∷ []) [])
with_sentry_id-pairs [] k v = context_to_legacy_extra-pairs (text k) (v ∷ [])
with_sentry_id-pairs (x ∷ xs) k v = context_to_legacy_extra-pairs x (xs ++ text k ∷ v ∷ [])

-- The identifier that Sentry gives the event is in the line's map, under SentryEventID, if each key
-- before it has its value.
with_sentry_id_found :
    (xs : List Arg) (id : String)
    → is_even (length xs) ≡ true
    → (extra : Extra) × ((context_to_legacy_extra (with_sentry_id xs (some id)) ≡ some extra)
        × (lookup "SentryEventID" extra ≡ some (sentry_id id)))
with_sentry_id_found xs id even = (
  insert "SentryEventID" (sentry_id id) (pairs 0 xs []),
  (
    with_sentry_id-pairs xs "SentryEventID" (sentry_id id)
        ∙ ap some (pairs-append 0 xs "SentryEventID" (sentry_id id) [] refl even),
    lookup-insert "SentryEventID" "SentryEventID" (sentry_id id) (pairs 0 xs []),
  ),
)
