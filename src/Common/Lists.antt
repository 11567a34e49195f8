-- ===== src/Common/Lists.antt =====
-- Lists measured by native numbers, Go's loops over slices, and maps as association lists.
use Prim.Native.Nat.{ℕ, suc, ◌+◌}
use Prim.Native.String.{String}
use mathlib.Core.Path.{◌≡◌, refl, sym, subst}
use mathlib.Core.Logic.{◌⊎◌, inl, inr}
use mathlib.Core.Bool.{Bool, true, false, ◌||◌, ◌&&◌}
use mathlib.Core.List.{List, [], ◌∷◌, ◌++◌}
use mathlib.Core.Option.{Option, none, some}
use native.Mathlib.Omega.{arith}
use text.Mathlib.Text.{◌==◌ as str_eq}
use text.Mathlib.TextEquality.{eq_iff}
use ocm_service_common.Common.Tests.{if◌then◌else◌, Bool-cases}

module _ {ℓ} {A : Type ℓ} where
  abbrev pub length : List A → ℕ
  length [] = 0
  length (x ∷ xs) = suc (length xs)

  -- A loop that leaves at the first element that passes the test.
  abbrev pub any : (A → Bool) → List A → Bool
  any p [] = false
  any p (x ∷ xs) = p x || any p xs

  abbrev pub all : (A → Bool) → List A → Bool
  all p [] = true
  all p (x ∷ xs) = p x && all p xs

  -- The elements that pass a Boolean test, in order.
  abbrev pub keep : (A → Bool) → List A → List A
  keep p [] = []
  keep p (x ∷ xs) = if p x then x ∷ keep p xs else keep p xs

  pub length-append : (xs ys : List A) → length (xs ++ ys) ≡ length xs + length ys
  length-append [] ys = omega arith
  length-append (x ∷ xs) ys = omega (arith, length-append xs ys)

module _ {ℓ κ} {A : Type ℓ} (P : A → Type κ) where
  abbrev pub All : List A → Type κ
  All [] = Unit
  All (x ∷ xs) = P x × All xs

  -- Some element of the list has the property, with its place.
  pub data Any : List A → Type (ℓ ⊔ κ) where
    here : {x : A} {xs : List A} → P x → Any (x ∷ xs)
    there : {x : A} {xs : List A} → Any xs → Any (x ∷ xs)

-- Membership of a slice, with the place.
abbrev pub In {ℓ} : {A : Type ℓ} → A → List A → Type ℓ
In a xs = Any (λ x. a ≡ x) xs

pub All-In {ℓ κ} : {A : Type ℓ} (P : A → Type κ) {a : A} {xs : List A} → All P xs → In a xs → P a
All-In P h (Any.here e) = subst P (sym e) h.0
All-In P h (Any.there i) = All-In P h.1 i

pub In-nil {ℓ} : {A : Type ℓ} {a : A} → ¬ (In a [])
In-nil i = elim i [ ]

pub In-cases {ℓ} : {A : Type ℓ} {a x : A} {xs : List A} → In a (x ∷ xs) → (a ≡ x) ⊎ In a xs
In-cases (Any.here e) = inl e
In-cases (Any.there i) = inr i

pub In-swap {ℓ} : {A : Type ℓ} {a x y : A} → In a (x ∷ y ∷ []) → In a (y ∷ x ∷ [])
In-swap i = elim (In-cases i) [
  | inl e ↦ Any.there (Any.here e)
  | inr j ↦ elim (In-cases j) [ inl e ↦ Any.here e | inr k ↦ absurd (In-nil k) ]
]

-- A loop that looks for one text in a slice.
abbrev pub has : String → List String → Bool
has s [] = false
has s (x ∷ xs) = str_eq s x || has s xs

pub has→In : (s : String) (xs : List String) → has s xs ≡ true → In s xs
has→In s [] h = cc
has→In s (x ∷ xs) h = elim (Bool-cases (str_eq s x)) [
  | inl e ↦ Any.here ((eq_iff s x).0 e)
  | inr e ↦ Any.there (has→In s xs (ground arith))
]

pub In→has : (s : String) {xs : List String} → In s xs → has s xs ≡ true
In→has s (Any.here {x} p) = ground (arith, eq_iff s x)
In→has s (Any.there i) = ground (arith, In→has s i)

-- A Go map with text keys; the first entry of a key is its value.
module _ {ℓ} {V : Type ℓ} where
  unfoldable pub lookup : String → List (String × V) → Option V
  lookup key [] = none
  lookup key ((other, value) ∷ rest) = if str_eq other key then some value else lookup key rest

  unfoldable pub insert : String → V → List (String × V) → List (String × V)
  insert key value [] = (key, value) ∷ []
  insert key value ((other, old) ∷ rest) =
      if str_eq other key then (key, value) ∷ rest else (other, old) ∷ insert key value rest

  pub lookup-insert :
      (key wanted : String) (value : V) (entries : List (String × V))
      → lookup wanted (insert key value entries)
        ≡ (if str_eq key wanted then some value else lookup wanted entries)
  unfolding lookup insert
  lookup-insert key wanted value [] = refl
  lookup-insert key wanted value ((other, old) ∷ rest) = ground (
    arith,
    eq_iff key wanted,
    eq_iff other key,
    eq_iff other wanted,
    lookup-insert key wanted value rest,
  )
