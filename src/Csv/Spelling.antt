-- ===== src/Csv/Spelling.antt =====
-- How the numbers and the flags of a row are spelled.
use ocm_service_common.Common.{
  String, Bool, true, false, some, List, [], ◌∷◌, str_eq, eq_iff, ◌≡◌, ◌≢◌, ◌↔◌, ◌⊎◌, inl, inr,
  refl, arith, Bool-cases, none, sym, subst, if◌then◌else◌,
}
use ocm_service_common.Common.Int.{ℤ, pos}
use ocm_service_common.Csv.Parse.{atoi, one_of, optional_number, parse_bool}

-- A text is one of the texts of a list.
abbrev pub OneOf : String → List String → Type 0
OneOf s [] = ⊥
OneOf s (t ∷ ts) = (s ≡ t) ⊎ OneOf s ts

-- A number is spelled: an empty text is zero, and any other an integer of 64 bits.
abbrev pub IsNumber : String → ℤ → Type 0
IsNumber raw n = ((raw ≡ "") × (n ≡ pos 0)) ⊎ ((raw ≢ "") × (atoi raw ≡ some n))

-- A flag is spelled in one of Go's six ways.
abbrev pub IsFlag : String → Bool → Type 0
IsFlag raw true = OneOf raw ("1" ∷ "t" ∷ "T" ∷ "TRUE" ∷ "true" ∷ "True" ∷ [])
IsFlag raw false = OneOf raw ("0" ∷ "f" ∷ "F" ∷ "FALSE" ∷ "false" ∷ "False" ∷ [])

one_of→OneOf : (s : String) (ts : List String) → one_of s ts ≡ true → OneOf s ts
one_of→OneOf s [] h = cc h
one_of→OneOf s (t ∷ ts) h = elim (Bool-cases (str_eq s t)) [
  | inl e ↦ inl ((eq_iff s t).0 e)
  | inr e ↦ inr (one_of→OneOf s ts (ground (arith, e, h)))
]

pub optional_number-IsNumber :
    (raw : String) (n : ℤ) → (optional_number raw ≡ some n) ↔ IsNumber raw n
unfolding optional_number
optional_number-IsNumber raw n = elim (Bool-cases (str_eq raw "")) [
  | inl e ↦ (
    λ h. inl ((eq_iff raw "").0 e, ground (arith, e, h)),
    λ h. ground (arith, e, h, eq_iff raw ""),
  )
  | inr e ↦ (
    λ h. inr (ground (arith, e, eq_iff raw ""), ground (arith, e, h)),
    λ h. ground (arith, e, h, eq_iff raw ""),
  )
]

chosen :
    (a b c : Bool)
    → (if a then some true else if b then some false else none) ≡ some c
    → ((c ≡ true) × (a ≡ true)) ⊎ ((c ≡ false) × (b ≡ true))
chosen true b c h = inl (cc h, refl)
chosen false true c h = inr (cc h, refl)
chosen false false c h = cc h

pub parse_bool→IsFlag : (raw : String) (b : Bool) → parse_bool raw ≡ some b → IsFlag raw b
unfolding parse_bool
parse_bool→IsFlag raw b h =
    elim (chosen (one_of raw ("1" ∷ "t" ∷ "T" ∷ "TRUE" ∷ "true" ∷ "True" ∷ []))
      (one_of raw ("0" ∷ "f" ∷ "F" ∷ "FALSE" ∷ "false" ∷ "False" ∷ [])) b h) [
        | inl (c, k) ↦
            subst (IsFlag raw) (sym c)
              (one_of→OneOf raw ("1" ∷ "t" ∷ "T" ∷ "TRUE" ∷ "true" ∷ "True" ∷ []) k)
        | inr (c, k) ↦
            subst (IsFlag raw) (sym c)
              (one_of→OneOf raw ("0" ∷ "f" ∷ "F" ∷ "FALSE" ∷ "false" ∷ "False" ∷ []) k)
      ]

pub IsFlag→parse_bool : (raw : String) (b : Bool) → IsFlag raw b → parse_bool raw ≡ some b
unfolding parse_bool
IsFlag→parse_bool raw true (inl e) = rw e refl
IsFlag→parse_bool raw true (inr (inl e)) = rw e refl
IsFlag→parse_bool raw true (inr (inr (inl e))) = rw e refl
IsFlag→parse_bool raw true (inr (inr (inr (inl e)))) = rw e refl
IsFlag→parse_bool raw true (inr (inr (inr (inr (inl e))))) = rw e refl
IsFlag→parse_bool raw true (inr (inr (inr (inr (inr (inl e)))))) = rw e refl
IsFlag→parse_bool raw true (inr (inr (inr (inr (inr (inr x)))))) = elim x [ ]
IsFlag→parse_bool raw false (inl e) = rw e refl
IsFlag→parse_bool raw false (inr (inl e)) = rw e refl
IsFlag→parse_bool raw false (inr (inr (inl e))) = rw e refl
IsFlag→parse_bool raw false (inr (inr (inr (inl e)))) = rw e refl
IsFlag→parse_bool raw false (inr (inr (inr (inr (inl e))))) = rw e refl
IsFlag→parse_bool raw false (inr (inr (inr (inr (inr (inl e)))))) = rw e refl
IsFlag→parse_bool raw false (inr (inr (inr (inr (inr (inr x)))))) = elim x [ ]
