-- ===== src/Logger/ExtraLaws.antt =====
-- The map of a line's key-value pairs, described without the loop's state.
use ocm_service_common.Common.{
  ℕ, suc, String, true, false, some, List, [], ◌∷◌, ◌≡◌, refl, arith, str_eq, eq_iff, insert,
  Bool-cases, inl, inr, ap, ◌≢◌, ◌↔◌, ◌⊎◌, sym, subst, ◌∙◌, Option, none,
}
use Prim.Native.String.{◌++◌}
use ocm_service_common.Common.Text.{prefix_ne_empty, concat, itoa}
use ocm_service_common.Logger.Extra.{
  Arg, text, slice, sentry_id, value, Extra, missing_value, key_at, is_even, legacy_loop,
  with_missing, context_to_legacy_extra,
}

-- Each key is stored with the value after it, a later pair over an earlier one; a last key without a
-- value is stored with the marker.
abbrev pub pairs : ℕ → List Arg → Extra → Extra
pairs i [] ret = ret
pairs i (k ∷ []) ret = insert (key_at i k) (text missing_value) ret
pairs i (k ∷ v ∷ rest) ret = pairs (suc (suc i)) rest (insert (key_at i k) v ret)

unreadable : (t : String) → str_eq ("(NOT_A_STRING[" ++ t) "" ≡ false
unreadable t = prefix_ne_empty _ _ t

key_at-ne_empty : (i : ℕ) (a : Arg) → str_eq (key_at i a) "" ≡ false
unfolding key_at
key_at-ne_empty i (text s) = elim (Bool-cases (str_eq s "")) [
  | inl e ↦ rw e (marked (concat (itoa i ∷ "])" ∷ [])))
  | inr e ↦ rw e e
]
  where
    marked : (t : String) → str_eq ("(MISSING_KEY[" ++ t) "" ≡ false
    marked t = prefix_ne_empty _ _ t
key_at-ne_empty i (slice as1) = unreadable _
key_at-ne_empty i (sentry_id s) = unreadable _
key_at-ne_empty i (value n) = unreadable _

is_even-step : (i : ℕ) → is_even i ≡ true → is_even (suc (suc i)) ≡ true
is_even-step i h = ground arith

legacy_loop-pairs :
    (i : ℕ) (keys_and_values : List Arg) (ret : Extra)
    → is_even i ≡ true
    → with_missing (legacy_loop i "" ret keys_and_values) ≡ pairs i keys_and_values ret
unfolding legacy_loop
legacy_loop-pairs i [] ret h = ground (arith, eq_iff "" "")
legacy_loop-pairs i (k ∷ []) ret h = ground (arith, key_at-ne_empty i k)
legacy_loop-pairs i (k ∷ v ∷ rest) ret h =
    ground
      (arith, legacy_loop-pairs (suc (suc i)) rest (insert (key_at i k) v ret) (is_even-step i h))

pub context_to_legacy_extra-pairs :
    (a : Arg) (rest : List Arg) → context_to_legacy_extra (a ∷ rest) ≡ some (pairs 0 (a ∷ rest) [])
unfolding context_to_legacy_extra
context_to_legacy_extra-pairs a rest = ap some (legacy_loop-pairs 0 (a ∷ rest) [] refl)

-- The name that the value at an index is stored under: the text itself, or a mark with the index where
-- it is empty or no text.
abbrev pub IsKey : ℕ → Arg → String → Type 0
IsKey i (text s) name =
    ((s ≢ "") × (name ≡ s)) ⊎ ((s ≡ "") × (name ≡ concat ("(MISSING_KEY[" ∷ itoa i ∷ "])" ∷ [])))
IsKey i _ name = name ≡ concat ("(NOT_A_STRING[" ∷ itoa i ∷ "])" ∷ [])

key_at-IsKey_iff : (i : ℕ) (a : Arg) (name : String) → IsKey i a name ↔ (key_at i a ≡ name)
unfolding key_at
key_at-IsKey_iff i (text s) name = elim (Bool-cases (str_eq s "")) [
  | inl e ↦
      (λ h. rw e (ground (arith, e, eq_iff s "")), λ h. inr ((eq_iff s "").0 e, ground (arith, e)))
  | inr e ↦ (
    λ h. rw e (ground (arith, e, eq_iff s "")),
    λ h. inl (ground (arith, e, eq_iff s ""), ground (arith, e)),
  )
]
key_at-IsKey_iff i (slice as1) name = (λ h. sym h, λ h. sym h)
key_at-IsKey_iff i (sentry_id s) name = (λ h. sym h, λ h. sym h)
key_at-IsKey_iff i (value n) name = (λ h. sym h, λ h. sym h)

-- The map that the values from an index on make of the map before them: each key is stored with the
-- value after it, over an earlier value, and a last key without a value with a marker.
pub data Stores : ℕ → List Arg → Extra → Extra → Type 0 where
  done : {i : ℕ} {m : Extra} → Stores i [] m m
  lone :
      {i : ℕ} {k : Arg} (name : String) {m : Extra}
      → IsKey i k name
      → Stores i (k ∷ []) m (insert name (text "(MISSING)") m)
  pair :
      {i : ℕ} {k v : Arg} {rest : List Arg} (name : String) {m out : Extra}
      → IsKey i k name
      → Stores (suc (suc i)) rest (insert name v m) out
      → Stores i (k ∷ v ∷ rest) m out

pairs-Stores : (i : ℕ) (l : List Arg) (m : Extra) → Stores i l m (pairs i l m)
pairs-Stores i [] m = Stores.done
pairs-Stores i (k ∷ []) m = Stores.lone (key_at i k) ((key_at-IsKey_iff i k (key_at i k)).1 refl)
pairs-Stores i (k ∷ v ∷ rest) m =
    Stores.pair (key_at i k) ((key_at-IsKey_iff i k (key_at i k)).1 refl)
      (pairs-Stores (suc (suc i)) rest (insert (key_at i k) v m))

Stores-pairs : {i : ℕ} {l : List Arg} {m out : Extra} → Stores i l m out → pairs i l m ≡ out
Stores-pairs Stores.done = refl
Stores-pairs (Stores.lone {i = i} {k = k} name {m = m} key) =
    ap (λ (x : String). insert x (text missing_value) m) ((key_at-IsKey_iff i k name).0 key)
Stores-pairs (Stores.pair {i = i} {k = k} {v = v} {rest = rest} name {m = m} key stores) =
    ap (λ (x : String). pairs (suc (suc i)) rest (insert x v m)) ((key_at-IsKey_iff i k name).0 key)
    ∙ Stores-pairs stores

-- The values make no map if there are none, and else the one that they store in an empty map.
abbrev pub Describes : List Arg → Option Extra → Type 0
Describes l none = l ≡ []
Describes l (some m) = (l ≢ []) × Stores 0 l [] m

-- There is no map without values. Else it is exactly the map in which each key is stored with the
-- value after it, a later pair over an earlier one; a key that is no text or empty is replaced by a
-- mark with its index, and a last key without a value has the marker as its value.
pub context_to_legacy_extra-Describes_iff :
    (l : List Arg) (out : Option Extra) → (context_to_legacy_extra l ≡ out) ↔ Describes l out
unfolding context_to_legacy_extra
context_to_legacy_extra-Describes_iff [] none = (λ h. refl, λ h. refl)
context_to_legacy_extra-Describes_iff [] (some m) = (λ h. cc h, λ h. absurd (h.0 refl))
context_to_legacy_extra-Describes_iff (a ∷ rest) none = (λ h. cc h, λ h. cc h)
context_to_legacy_extra-Describes_iff (a ∷ rest) (some m) =
    let made = legacy_loop-pairs 0 (a ∷ rest) [] refl in
    (
      λ h.
          (λ e. cc e, subst (Stores 0 (a ∷ rest) []) (cc (made, h)) (pairs-Stores 0 (a ∷ rest) [])),
      λ h. ap some (made ∙ Stores-pairs h.1),
    )
