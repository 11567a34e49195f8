-- ===== src/Grafana/SortLaws.antt =====
-- The sorted paths do not depend on the order of the map's keys.
use Prim.Native.String as Text
use mathlib.Core.Path.{ap₂}
use mathlib.Core.HLevel.{hedberg}
use text.Mathlib.TextEquality.{Char-path}
use mathlib.Core.List.{is_set, Perm, foldr}
use mathlib.Core.List.Perm
use ocm_service_common.Common.{
  eq_iff, str_eq, ◌∙◌, sym, refl, String, true, false, List, [], ◌∷◌, ◌≡◌, arith, ap, ◌⊎◌, inl, inr,
  Bool-cases,
}
use ocm_service_common.Grafana.Sort.{sort_paths, insert_path, text_le}
use Prim.Native.String.{char_at}

text_le_total : (s t : String) → (text_le s t ≡ true) ⊎ (text_le t s ≡ true)
unfolding text_le
text_le_total Text.[] t = inl refl
text_le_total (Text.◌∷◌ c s) Text.[] = inr refl
text_le_total (Text.◌∷◌ c s) (Text.◌∷◌ d t) = elim (text_le_total s t) [
  | inl h ↦ ground arith
  | inr h ↦ ground arith
]

text_le_antisymm : (s t : String) → text_le s t ≡ true → text_le t s ≡ true → s ≡ t
unfolding text_le
text_le_antisymm Text.[] Text.[] h k = refl
text_le_antisymm Text.[] (Text.◌∷◌ d t) h k = cc
text_le_antisymm (Text.◌∷◌ c s) Text.[] h k = cc
text_le_antisymm (Text.◌∷◌ c s) (Text.◌∷◌ d t) h k =
    ap₂ (λ x y. Text.◌∷◌ x y) (Char-path c d (ground arith))
      (text_le_antisymm s t (ground arith) (ground arith))

text_le_trans : (s t u : String) → text_le s t ≡ true → text_le t u ≡ true → text_le s u ≡ true
unfolding text_le
text_le_trans Text.[] t u h k = refl
text_le_trans (Text.◌∷◌ c s) Text.[] u h k = cc
text_le_trans (Text.◌∷◌ c s) (Text.◌∷◌ d t) Text.[] h k = cc
text_le_trans (Text.◌∷◌ c s) (Text.◌∷◌ d t) (Text.◌∷◌ e u) h k = ground (arith, text_le_trans s t u)

-- The order of two paths, which decides both tests of them.
pub data Order (p q : String) : Type 0 where
  same : p ≡ q → Order p q
  below : text_le p q ≡ true → text_le q p ≡ false → Order p q
  above : text_le p q ≡ false → text_le q p ≡ true → Order p q

order : (p q : String) → Order p q
order p q = elim (Bool-cases (text_le p q)) [
  | inl h ↦ elim (Bool-cases (text_le q p)) [
    | inl k ↦ same (text_le_antisymm p q h k)
    | inr k ↦ below h k
  ]
  | inr h ↦ elim (text_le_total p q) [ inl k ↦ cc | inr k ↦ above h k ]
]

insert_path_comm_cons :
    (p q r : String) (rs : List String)
    → text_le p q ≡ true
    → text_le q p ≡ false
    → insert_path p (insert_path q rs) ≡ insert_path q (insert_path p rs)
    → insert_path p (insert_path q (r ∷ rs)) ≡ insert_path q (insert_path p (r ∷ rs))
unfolding insert_path
insert_path_comm_cons p q r rs h k ih = ground (
  arith,
  text_le_trans p q r,
  text_le_trans q r p,
  text_le_trans r p q,
  text_le_trans p r q,
  text_le_total p r,
  text_le_total q r,
)

swap_same :
    (p q : String) (ps : List String)
    → p ≡ q
    → insert_path p (insert_path q ps) ≡ insert_path q (insert_path p ps)
swap_same p q ps e =
    ap (λ x. insert_path x (insert_path q ps)) e
    ∙ sym (ap (λ x. insert_path q (insert_path x ps)) e)

insert_path_comm :
    (p q : String) (ps : List String)
    → insert_path p (insert_path q ps) ≡ insert_path q (insert_path p ps)
unfolding insert_path
insert_path_comm p q [] = elim (order p q) [
  | same e ↦ swap_same p q [] e
  | below h k ↦ rw (h, k) refl
  | above h k ↦ rw (h, k) refl
]
insert_path_comm p q (r ∷ rs) = elim (order p q) [
  | same e ↦ swap_same p q (r ∷ rs) e
  | below h k ↦ insert_path_comm_cons p q r rs h k (insert_path_comm p q rs)
  | above h k ↦ sym (insert_path_comm_cons q p r rs k h (sym (insert_path_comm p q rs)))
]

String_discrete : (s t : String) → Dec (s ≡ t)
String_discrete s t = elim (Bool-cases (str_eq s t)) [
  | inl e ↦ yes ((eq_iff s t).0 e)
  | inr e ↦ no (λ h. cc (ap (λ x. str_eq s x) h, (eq_iff s s).1 refl))
]

sort_paths-foldr : (ps : List String) → sort_paths ps ≡ foldr insert_path [] ps
unfolding sort_paths
sort_paths-foldr [] = refl
sort_paths-foldr (p ∷ ps) = ap (insert_path p) (sort_paths-foldr ps)

-- Two lists of paths that differ only in their order are sorted to the same list.
pub sort_paths-Perm : (ps qs : List String) → Perm ps qs → sort_paths ps ≡ sort_paths qs
sort_paths-Perm ps qs h =
    sort_paths-foldr ps
    ∙ Perm.foldr-eq (is_set (hedberg String_discrete)) insert_path insert_path_comm h []
    ∙ sym (sort_paths-foldr qs)
