-- ===== src/Common/Text.antt =====
-- What the code uses of Go's package `strings`, over the characters of a text.
use Prim.Native.Nat.{ℕ, zero, suc, ◌/◌, ◌%◌}
use Prim.Native.Char.{Char, code}
use Prim.Native.String.{String, [], ◌∷◌, ◌++◌}
use mathlib.Core.Path.{◌≡◌, refl, ap, ap₂, ◌∙◌}
use mathlib.Core.Logic.{◌≢◌, ◌↔◌, inl, inr}
use mathlib.Core.Bool.{Bool, true, false, ◌&&◌, ◌||◌}
use mathlib.Core.List.{List}
use mathlib.Core.Option.{Option, none, some}
use native.Mathlib.Omega.{arith}
use text.Mathlib.Text.{◌==◌ as str_eq}
use text.Mathlib.TextEquality.{Char-path, eq_iff}
use text.Mathlib.TextLemmas.{nil-append, cons-append}
use ocm_service_common.Common.Tests.{◌==◌, ltb, if◌then◌else◌, Bool-cases}
use ocm_service_common.Common.Lists.{All}

-- The character is added to the first part.
abbrev push_front : Char → List String → List String
push_front c List.[] = List.◌∷◌ (c ∷ []) List.[]
push_front c (List.◌∷◌ p ps) = List.◌∷◌ (c ∷ p) ps

-- `strings.Split(s, sep)` for a separator of one character, given by its code.
unfoldable pub split : String → ℕ → List String
split [] sep = List.◌∷◌ "" List.[]
split (c ∷ s) sep =
    let rest = split s sep in if code c == sep then List.◌∷◌ "" rest else push_front c rest

-- `strings.Join(parts, sep)`.
unfoldable pub join : List String → String → String
join List.[] sep = ""
join (List.◌∷◌ p List.[]) sep = p
join (List.◌∷◌ p (List.◌∷◌ q ps)) sep = p ++ (sep ++ join (List.◌∷◌ q ps) sep)

-- A `fmt.Sprintf` of texts only: the pieces of the format and its arguments, in order.
abbrev pub concat : List String → String
concat List.[] = ""
concat (List.◌∷◌ p List.[]) = p
concat (List.◌∷◌ p (List.◌∷◌ q ps)) = p ++ concat (List.◌∷◌ q ps)

-- `strings.HasPrefix(s, p)`.
unfoldable pub has_prefix : String → String → Bool
has_prefix s [] = true
has_prefix [] (d ∷ p) = false
has_prefix (c ∷ s) (d ∷ p) = code c == code d && has_prefix s p

-- What follows a prefix, where the text has it.
unfoldable pub strip_prefix : String → String → Option String
strip_prefix s [] = some s
strip_prefix [] (d ∷ p) = none
strip_prefix (c ∷ s) (d ∷ p) = if code c == code d then strip_prefix s p else none

-- `s[strings.Index(s, p):]`, where the text stands in it.
unfoldable pub suffix_from : String → String → Option String
unfolding has_prefix
suffix_from p [] = if has_prefix [] p then some [] else none
suffix_from p (c ∷ s) = if has_prefix (c ∷ s) p then some (c ∷ s) else suffix_from p s

-- `strings.ReplaceAll` of one character, given by its code.
unfoldable pub replace_char : ℕ → String → String → String
replace_char old new [] = []
replace_char old new (c ∷ s) =
    let rest = replace_char old new s in if code c == old then new ++ rest else c ∷ rest

abbrev digit : ℕ → String
digit zero = "0"
digit (suc zero) = "1"
digit (suc (suc zero)) = "2"
digit (suc (suc (suc zero))) = "3"
digit (suc (suc (suc (suc zero)))) = "4"
digit (suc (suc (suc (suc (suc zero))))) = "5"
digit (suc (suc (suc (suc (suc (suc zero)))))) = "6"
digit (suc (suc (suc (suc (suc (suc (suc zero))))))) = "7"
digit (suc (suc (suc (suc (suc (suc (suc (suc zero)))))))) = "8"
digit _ = "9"

-- `strconv.Itoa`, on fuel; a number has at most as many digits as it is large, plus one.
itoa_from : ℕ → ℕ → String
itoa_from zero n = ""
itoa_from (suc fuel) n =
    let rest = itoa_from fuel (n / 10) in if ltb n 10 then digit n else rest ++ digit (n % 10)

unfoldable pub itoa : ℕ → String
unfolding itoa_from
itoa n = itoa_from (suc n) n

-- `strings.HasSuffix(s, p)`.
unfoldable pub has_suffix : String → String → Bool
has_suffix [] p = str_eq "" p
has_suffix (c ∷ s) p = str_eq (c ∷ s) p || has_suffix s p

-- `strings.Contains(s, p)`.
unfoldable pub contains : String → String → Bool
unfolding has_prefix
contains [] p = has_prefix [] p
contains (c ∷ s) p = has_prefix (c ∷ s) p || contains s p

trim_left : ℕ → String → String
trim_left cut [] = []
trim_left cut (c ∷ s) = if code c == cut then trim_left cut s else c ∷ s

-- A trailing character goes if nothing is left of what follows it.
trim_cons : ℕ → Char → String → String
trim_cons cut c [] = if code c == cut then [] else c ∷ []
trim_cons cut c (d ∷ s) = c ∷ (d ∷ s)

trim_right : ℕ → String → String
trim_right cut [] = []
trim_right cut (c ∷ s) = trim_cons cut c (trim_right cut s)

-- `strings.Trim(s, cutset)` for a cutset of one character.
unfoldable pub trim : String → ℕ → String
unfolding trim_left trim_cons trim_right
trim s cut = trim_right cut (trim_left cut s)

abbrev pub NoChar : ℕ → String → Type 0
NoChar sep [] = Unit
NoChar sep (c ∷ s) = (code c ≢ sep) × NoChar sep s

push_front-NoChar :
    (sep : ℕ) (c : Char) (ps : List String)
    → code c ≢ sep
    → All (NoChar sep) ps
    → All (NoChar sep) (push_front c ps)
push_front-NoChar sep c List.[] h k = ((h, tt), tt)
push_front-NoChar sep c (List.◌∷◌ p ps) h k = ((h, k.0), k.1)

-- No part of a split holds the separator.
pub split-NoChar : (s : String) (sep : ℕ) → All (NoChar sep) (split s sep)
unfolding split
split-NoChar [] sep = (tt, tt)
split-NoChar (c ∷ s) sep = elim (Bool-cases (code c == sep)) [
  | inl e ↦ rw e (tt, split-NoChar s sep)
  | inr e ↦ rw e (push_front-NoChar sep c (split s sep) (ground arith) (split-NoChar s sep))
]

pub split-ne-nil : (s : String) (sep : ℕ) → split s sep ≢ List.[]
unfolding split
split-ne-nil [] sep = cc
split-ne-nil (c ∷ s) sep = elim (Bool-cases (code c == sep)) [
  | inl e ↦ rw e (cc)
  | inr e ↦ rw e (push (split s sep))
]
  where
    push : (ps : List String) → push_front c ps ≢ List.[]
    push List.[] = cc
    push (List.◌∷◌ p ps) = cc

join_push :
    (c : Char) (sep : String) (ps : List String)
    → ps ≢ List.[]
    → join (push_front c ps) sep ≡ c ∷ join ps sep
unfolding join
join_push c sep List.[] h = absurd (h refl)
join_push c sep (List.◌∷◌ p List.[]) h = refl
join_push c sep (List.◌∷◌ p (List.◌∷◌ q ps)) h = cons-append c p _

join_nil :
    (d : Char) (ps : List String)
    → ps ≢ List.[]
    → join (List.◌∷◌ "" ps) (d ∷ "") ≡ d ∷ join ps (d ∷ "")
unfolding join
join_nil d List.[] h = absurd (h refl)
join_nil d (List.◌∷◌ p ps) h = simp (nil-append, cons-append)

-- Joining the parts of a split by the separator gives the text back.
pub join-split : (s : String) (d : Char) → join (split s (code d)) (d ∷ "") ≡ s
unfolding split
join-split [] d = unfold join in refl
join-split (c ∷ s) d = elim (Bool-cases (code c == code d)) [
  | inl e ↦ rw e (
      join_nil d (split s (code d)) (split-ne-nil s (code d))
      ∙ ap₂ (λ x y. x ∷ y) (Char-path d c (ground arith)) (join-split s d))
  | inr e ↦ rw e (
      join_push c (d ∷ "") (split s (code d)) (split-ne-nil s (code d))
      ∙ ap (λ y. c ∷ y) (join-split s d))
]

-- A text without the separator is its own only part.
pub split_whole : (p : String) (sep : ℕ) → NoChar sep p → split p sep ≡ List.◌∷◌ p List.[]
unfolding split
split_whole [] sep h = refl
split_whole (c ∷ p) sep h = ground (arith, split_whole p sep h.1)

-- A part without the separator, followed by the separator, is the first part of the split.
pub split_part :
    (p s : String) (d : Char)
    → NoChar (code d) p
    → split (p ++ (d ∷ s)) (code d) ≡ List.◌∷◌ p (split s (code d))
unfolding split
split_part [] s d h = rw nil-append (ground arith)
split_part (c ∷ p) s d h = rw cons-append (ground (arith, split_part p s d h.1))

-- A literal of one character in front of a text.
pub cons_text : (d : Char) (s : String) → (d ∷ []) ++ s ≡ d ∷ s
cons_text d s = cons-append d [] s ∙ ap (λ y. d ∷ y) (nil-append s)

pub NoChar-append_iff :
    (p s : String) (sep : ℕ) → NoChar sep (p ++ s) ↔ (NoChar sep p × NoChar sep s)
NoChar-append_iff [] s sep = rw nil-append (λ h. (tt, h), λ h. h.1)
NoChar-append_iff (c ∷ p) s sep =
    let (to, from) = NoChar-append_iff p s sep in
    rw cons-append (λ h. ((h.0, (to h.1).0), (to h.1).1), λ h. (h.0.0, from (h.0.1, h.1)))

abbrev is_cons : String → Bool
is_cons [] = false
is_cons (c ∷ s) = true

pub cons_ne_empty : (s : String) (d : Char) → str_eq (d ∷ s) "" ≡ false
cons_ne_empty s d = elim (Bool-cases (str_eq (d ∷ s) "")) [
  | inl e ↦ cc (ap is_cons ((eq_iff (d ∷ s) "").0 e))
  | inr e ↦ e
]

pub prefix_ne_empty : (c : Char) (p s : String) → str_eq ((c ∷ p) ++ s) "" ≡ false
prefix_ne_empty c p s = rw cons-append (cons_ne_empty (p ++ s) c)
